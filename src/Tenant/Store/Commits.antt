-- ===== src/Tenant/Store/Commits.antt =====
-- `commit` keeps the slot pointers in agreement with the rows, and the rows it replaces in place.
use tee_time_booker.Prelude.{
  ℕ, ◌≤◌, ◌≡◌, sym, ap, subst, ◌∙◌, inl, inr, false, Option, none, some, List, [], ◌∷◌, Member, All,
  All→Member, IsDistinct, if◌then◌else◌, Result, ok, >>=-eq-ok, get_at, arith,
}
use tee_time_booker.Tenant.Rows.{RequestRow}
use tee_time_booker.Tenant.Semantics.Outcomes.{is_active}
use tee_time_booker.Tenant.Store.State.{Store, StoreError}
use tee_time_booker.Tenant.Store.Commit.{
  Write, Slots, was_active, release_slot, release_slots, claim_slot, claim_slots, put_rows,
}
use tee_time_booker.Tenant.Store.Pointers.{
  Active, Agree, place_of, release_active, claim_active, Stands, release-Agree, claim-Agree,
}
use tee_time_booker.Tenant.Store.Batches.{
  ids_of, release_actives, claim_actives, release_active-other, claim_active-other,
  release_actives-other, claim_actives-other, put_rows-other, written, release_actives-at,
  claim_actives-at, put_rows-at,
}

abbrev pub active_place : Option RequestRow → Option (ℕ × ℕ)
active_place none = none
active_place (some r) = if is_active r.status then some (place_of r) else none

-- The rows that are active, each at its place.
abbrev pub actives_of : List RequestRow → Active
actives_of rows i = active_place (get_at (λ r. r.id) rows i)

-- A date's slot points at a row exactly when the row is active on it.
abbrev pub SlotsAgree : Store → Type 0
SlotsAgree s = Agree s.slots (actives_of s.rows)

-- A write keeps the account and the date of the row that it replaces, and never takes its version
-- back.
abbrev pub Continues : Write → Type 0
Continues w = elim w.old [
  | none ↦ Unit
  | some was ↦
      (w.new.course_account_id ≡ was.course_account_id)
      × (w.new.target_date ≡ was.target_date)
      × (was.version ≤ w.new.version)
]

pub releases-Agree :
    (ws : List Write) (slots : Slots) (act : Active)
    → IsDistinct (ids_of ws)
    → All (Stands act) ws
    → Agree slots act
    → Agree (release_slots ws slots) (release_actives ws act)
unfolding release_actives
releases-Agree [] slots act h stands a = a
releases-Agree (w ∷ rest) slots act h stands a =
    releases-Agree rest (release_slot w slots) (release_active w act) h.1 (still rest h.0 stands.1)
      (release-Agree w slots act a stands.0)
  where
    still :
        (ws : List Write)
        → (¬ Member w.new.id (ids_of ws))
        → All (Stands act) ws
        → All (Stands (release_active w act)) ws
    still [] out k = tt
    still (v ∷ vs) out k =
        let e = release_active-other w act v.new.id (λ p. out (inl (sym p))) in
        (ground (arith, e, k.0), still vs (λ m. out (inr m)) k.1)

abbrev pub Enters : Active → Write → Type 0
Enters act w = was_active w.old ≡ false → act w.new.id ≡ none

pub claims-Agree :
    (ws : List Write) (slots : Slots) (act : Active) {after : Slots}
    → IsDistinct (ids_of ws)
    → All (Enters act) ws
    → Agree slots act
    → claim_slots ws slots ≡ ok after
    → Agree after (claim_actives ws act)
unfolding claim_actives
claims-Agree [] slots act {after} h enters a r = subst (λ t. Agree t act) (same r) a
  where
    same : ◌≡◌ {A = Result StoreError Slots} (ok slots) (ok after) → slots ≡ after
    same p = ground (arith, p)
claims-Agree (w ∷ rest) slots act h enters a r =
    let (mid, e, f) = >>=-eq-ok (claim_slot w slots) (claim_slots rest) r in
    claims-Agree rest mid (claim_active w act) h.1 (still rest h.0 enters.1)
      (claim-Agree w slots act a enters.0 e) f
  where
    still :
        (ws : List Write)
        → (¬ Member w.new.id (ids_of ws))
        → All (Enters act) ws
        → All (Enters (claim_active w act)) ws
    still [] out k = tt
    still (v ∷ vs) out k =
        let e = claim_active-other w act v.new.id (λ p. out (inl (sym p))) in
        ((λ q. e ∙ k.0 q), still vs (λ m. out (inr m)) k.1)

module _ (ws : List Write) (rows : List RequestRow) (distinct : IsDistinct (ids_of ws))
    (stands : All (Stands (actives_of rows)) ws) where
  unfoldable pub released : Active
  released = release_actives ws (actives_of rows)

  Stands-at : (w : Write) → Member w ws → Stands (actives_of rows) w
  Stands-at w m = All→Member (Stands (actives_of rows)) w ws stands m

  pub Enters-at : (w : Write) → Member w ws → Enters released w
  unfolding released
  Enters-at w m e =
      release_actives-at ws (actives_of rows) w distinct m
      ∙ elim (Stands-at w m) [ inl (f, g) ↦ absurd (cc (e, f)) | inr (f, g) ↦ rw e g ]

  place_after :
      (act : Active) (w : Write)
      → Stands act w
      → claim_active w (release_active w act) w.new.id ≡ active_place (some w.new)
  place_after act w (inl (e, f)) = ground (arith, e, f)
  place_after act w (inr (e, f)) = ground (arith, e, f)

  claim-cong :
      (act act' : Active) (w : Write)
      → act w.new.id ≡ act' w.new.id
      → claim_active w act w.new.id ≡ claim_active w act' w.new.id
  claim-cong act act' w e = ground (arith, e)

  pub actives_after : (i : ℕ) → claim_actives ws released i ≡ actives_of (put_rows ws rows) i
  unfolding released
  actives_after i = elim (written ws i) [
    | inr out ↦
        claim_actives-other ws released i out
        ∙ (release_actives-other ws (actives_of rows) i out
            ∙ ap active_place (sym (put_rows-other ws rows i out)))
    | inl (w, m, e) ↦
        subst (λ j. claim_actives ws released j ≡ actives_of (put_rows ws rows) j) e
          (claim_actives-at ws released w distinct m
            ∙ (claim-cong released (release_active w (actives_of rows)) w
                  (release_actives-at ws (actives_of rows) w distinct m)
                ∙ (place_after (actives_of rows) w (Stands-at w m)
                    ∙ ap active_place (sym (put_rows-at ws rows w distinct m)))))
  ]
