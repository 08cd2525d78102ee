-- ===== src/Tenant/Store/Batches.antt =====
-- A whole batch keeps the slot pointers in agreement with the rows that it writes.
use tee_time_booker.Prelude.{
  ℕ, ◌≡◌, ◌≢◌, ◌⊎◌, refl, sym, ap, subst, ◌∙◌, inl, inr, false, some, List, [], ◌∷◌, map, Member,
  IsDistinct, Bool-cases, ◌==◌, ==_iff, ==_refl, ne→==_false, get_at, put_at, get_at-put_at, arith,
}
use tee_time_booker.Tenant.Rows.{RequestRow}
use tee_time_booker.Tenant.Store.Commit.{Write, put_rows}
use tee_time_booker.Tenant.Store.Pointers.{Active, release_active, claim_active}

abbrev pub ids_of : List Write → List ℕ
ids_of writes = map (λ w. w.new.id) writes

unfoldable pub release_actives : List Write → Active → Active
release_actives [] act = act
release_actives (w ∷ rest) act = release_actives rest (release_active w act)

unfoldable pub claim_actives : List Write → Active → Active
claim_actives [] act = act
claim_actives (w ∷ rest) act = claim_actives rest (claim_active w act)

pub release_active-other :
    (w : Write) (act : Active) (i : ℕ) → i ≢ w.new.id → release_active w act i ≡ act i
release_active-other w act i ne = ground (arith, ne)

pub claim_active-other :
    (w : Write) (act : Active) (i : ℕ) → i ≢ w.new.id → claim_active w act i ≡ act i
claim_active-other w act i ne = ground (arith, ne)

pub release_actives-other :
    (ws : List Write) (act : Active) (i : ℕ)
    → (¬ Member i (ids_of ws))
    → release_actives ws act i ≡ act i
unfolding release_actives
release_actives-other [] act i out = refl
release_actives-other (w ∷ rest) act i out =
    release_actives-other rest (release_active w act) i (λ m. out (inr m))
    ∙ release_active-other w act i (λ e. out (inl e))

pub claim_actives-other :
    (ws : List Write) (act : Active) (i : ℕ)
    → (¬ Member i (ids_of ws))
    → claim_actives ws act i ≡ act i
unfolding claim_actives
claim_actives-other [] act i out = refl
claim_actives-other (w ∷ rest) act i out =
    claim_actives-other rest (claim_active w act) i (λ m. out (inr m))
    ∙ claim_active-other w act i (λ e. out (inl e))

pub put_rows-other :
    (ws : List Write) (rows : List RequestRow) (i : ℕ)
    → (¬ Member i (ids_of ws))
    → get_at (λ r. r.id) (put_rows ws rows) i ≡ get_at (λ r. r.id) rows i
put_rows-other [] rows i out = refl
put_rows-other (w ∷ rest) rows i out =
    put_rows-other rest (put_at (λ r. r.id) w.new rows) i (λ m. out (inr m))
    ∙ (get_at-put_at (λ r. r.id) w.new rows i
        ∙ rw (ne→==_false w.new.id i (λ e. out (inl (sym e)))) refl)

-- An id is written by one write of the batch, or by none.
pub written :
    (ws : List Write) (i : ℕ)
    → ((w : Write) × Member w ws × (w.new.id ≡ i)) ⊎ (¬ Member i (ids_of ws))
written [] i = inr (λ m. m)
written (w ∷ rest) i = elim (Bool-cases (w.new.id == i)) [
  | inl e ↦ inl (w, inl refl, (==_iff w.new.id i).0 e)
  | inr e ↦ elim (written rest i) [
    | inl (v, m, p) ↦ inl (v, inr m, p)
    | inr out ↦ inr (λ m. elim m [ inl p ↦ different e (sym p) | inr n ↦ out n ])
  ]
]
  where
    different : {b : ℕ} → (w.new.id == b) ≡ false → w.new.id ≢ b
    different {b} e p = ground (arith, e, p)

Member-ids : (w : Write) (ws : List Write) → Member w ws → Member w.new.id (ids_of ws)
Member-ids w [] m = absurd m
Member-ids w (v ∷ rest) (inl e) = inl (ap (λ u. u.new.id) e)
Member-ids w (v ∷ rest) (inr m) = inr (Member-ids w rest m)

pub release_actives-at :
    (ws : List Write) (act : Active) (w : Write)
    → IsDistinct (ids_of ws)
    → Member w ws
    → release_actives ws act w.new.id ≡ release_active w act w.new.id
unfolding release_actives
release_actives-at [] act w h m = absurd m
release_actives-at (v ∷ rest) act w h (inl e) =
    subst
      (λ u. release_actives rest (release_active u act) w.new.id ≡ release_active w act w.new.id) e
      (release_actives-other rest (release_active w act) w.new.id
        (subst (λ u. ¬ Member u.new.id (ids_of rest)) (sym e) h.0))
release_actives-at (v ∷ rest) act w h (inr m) =
    release_actives-at rest (release_active v act) w h.1 m
    ∙ same_at (
        release_active-other v act w.new.id
          (λ e. h.0 (subst (λ i. Member i (ids_of rest)) e (Member-ids w rest m))))
  where
    same_at :
        release_active v act w.new.id ≡ act w.new.id
        → release_active w (release_active v act) w.new.id ≡ release_active w act w.new.id
    same_at p = ground (arith, p)

pub claim_actives-at :
    (ws : List Write) (act : Active) (w : Write)
    → IsDistinct (ids_of ws)
    → Member w ws
    → claim_actives ws act w.new.id ≡ claim_active w act w.new.id
unfolding claim_actives
claim_actives-at [] act w h m = absurd m
claim_actives-at (v ∷ rest) act w h (inl e) =
    subst (λ u. claim_actives rest (claim_active u act) w.new.id ≡ claim_active w act w.new.id) e
      (claim_actives-other rest (claim_active w act) w.new.id
        (subst (λ u. ¬ Member u.new.id (ids_of rest)) (sym e) h.0))
claim_actives-at (v ∷ rest) act w h (inr m) =
    claim_actives-at rest (claim_active v act) w h.1 m
    ∙ same_at (
        claim_active-other v act w.new.id
          (λ e. h.0 (subst (λ i. Member i (ids_of rest)) e (Member-ids w rest m))))
  where
    same_at :
        claim_active v act w.new.id ≡ act w.new.id
        → claim_active w (claim_active v act) w.new.id ≡ claim_active w act w.new.id
    same_at p = ground (arith, p)

pub put_rows-at :
    (ws : List Write) (rows : List RequestRow) (w : Write)
    → IsDistinct (ids_of ws)
    → Member w ws
    → get_at (λ r. r.id) (put_rows ws rows) w.new.id ≡ some w.new
put_rows-at [] rows w h m = absurd m
put_rows-at (v ∷ rest) rows w h (inl e) =
    subst
      (λ u.
        get_at (λ r. r.id) (put_rows rest (put_at (λ r. r.id) u.new rows)) w.new.id ≡ some w.new)
      e
      (put_rows-other rest (put_at (λ r. r.id) w.new rows) w.new.id
          (subst (λ u. ¬ Member u.new.id (ids_of rest)) (sym e) h.0)
        ∙ (get_at-put_at (λ r. r.id) w.new rows w.new.id ∙ rw (==_refl w.new.id) refl))
put_rows-at (v ∷ rest) rows w h (inr m) = put_rows-at rest (put_at (λ r. r.id) v.new rows) w h.1 m
