-- ===== src/Tenant/Store/Committed.antt =====
-- What a committed batch leaves: pointers in agreement, and every row in place.
use tee_time_booker.Prelude.{
  ℕ, ◌≤◌, ◌≡◌, ◌⊎◌, refl, sym, ap, subst, ◌∙◌, inl, inr, Bool, true, false, Option, none, some,
  List, [], ◌∷◌, Member, All, All→Member, Member→All, IsDistinct, Bool-cases, Result, ok, >>=-eq-ok,
  guard, get_at, arith,
}
use tee_time_booker.Tenant.Rows.{RequestRow}
use tee_time_booker.Tenant.Semantics.Outcomes.{is_active}
use tee_time_booker.Tenant.Store.State.{Store, StoreError, transition_refused, row_at}
use tee_time_booker.Tenant.Store.Equality.{SameCore, same_row-SameCore}
use tee_time_booker.Tenant.Store.Commit.{
  Write, Slots, each, is_unchanged, check_stored, check_bookable, release_slots, claim_slots,
  put_rows, commit,
}
use tee_time_booker.Tenant.Store.Pointers.{place_of, Stands}
use tee_time_booker.Tenant.Store.Batches.{ids_of, put_rows-other, put_rows-at, written}
use tee_time_booker.Tenant.Store.Commits.{
  actives_of, SlotsAgree, Continues, releases-Agree, claims-Agree, released, Enters-at,
  actives_after,
}

unchanged-cases :
    (old stored : Option RequestRow)
    → is_unchanged old stored ≡ true
    → ((old ≡ none) × (stored ≡ none))
      ⊎ ((o : RequestRow) × (st : RequestRow) × (old ≡ some o) × (stored ≡ some st) × SameCore st o)
unchanged-cases none none h = inl (refl, refl)
unchanged-cases (some o) (some st) h = inr (o, st, refl, refl, same_row-SameCore st o h)
unchanged-cases none (some st) h = absurd (cc h)
unchanged-cases (some o) none h = absurd (cc h)

guard-true : (b : Bool) (e : StoreError) → guard b e ≡ ok tt → b ≡ true
guard-true true e h = refl
guard-true false e h = absurd (cc h)

pub each-All :
    {A : Type 0} (check : A → Result StoreError (Unit {0})) (xs : List A)
    → each check xs ≡ ok tt
    → All (λ x. check x ≡ ok tt) xs
each-All check [] h = tt
each-All check (x ∷ xs) h =
    let (u, e, f) = >>=-eq-ok (check x) (λ _. each check xs) h in (e, each-All check xs f)

module _ (s : Store) where
  -- How a write that passes its check stands to the store.
  pub write-cases :
      (w : Write)
      → check_stored s w ≡ ok tt
      → ((w.old ≡ none) × (row_at s w.new.id ≡ none))
        ⊎ ((o : RequestRow) × (st : RequestRow) × (w.old ≡ some o)
            × (row_at s w.new.id ≡ some st)
            × SameCore st o)
  write-cases w h =
      unchanged-cases w.old (row_at s w.new.id)
        (guard-true (is_unchanged w.old (row_at s w.new.id)) transition_refused h)

  write-Stands : (w : Write) → check_stored s w ≡ ok tt → Continues w → Stands (actives_of s.rows) w
  write-Stands w h c = elim (write-cases w h) [
    | inl (e, f) ↦ inr (rw e refl, rw f refl)
    | inr (o, st, e, f, same) ↦
        let (a, d, v) = rw (e, Continues) at c in
        elim (Bool-cases (is_active o.status)) [
          | inl g ↦ inl (rw e g, rw f (rw (same.same_status, g) (ap some (place a d same))))
          | inr g ↦ inr (rw e g, rw f (rw (same.same_status, g) refl))
        ]
  ]
    where
      place :
          {o st : RequestRow}
          → w.new.course_account_id ≡ o.course_account_id
          → w.new.target_date ≡ o.target_date
          → SameCore st o
          → place_of st ≡ place_of w.new
      place a d same = ground (arith, a, d, same.same_account, same.same_date)

-- Every row is still there, on its account and date, with a version that is no smaller.
abbrev pub Grows : Store → Store → Type 0
Grows s t =
    (i : ℕ) (r : RequestRow)
    → row_at s i ≡ some r
    → (r' : RequestRow) × (row_at t i ≡ some r')
      × (r'.course_account_id ≡ r.course_account_id)
      × (r'.target_date ≡ r.target_date)
      × (r.version ≤ r'.version)

pub Grows-refl : (s : Store) → Grows s s
Grows-refl s i r h = (r, h, refl, refl, omega arith)

pub Grows-trans : (s t u : Store) → Grows s t → Grows t u → Grows s u
Grows-trans s t u f g i r h =
    let (r', h', a, d, v) = f i r h in
    let (r'', h'', a', d', v') = g i r' h' in (r'', h'', a' ∙ a, d' ∙ d, omega (arith, v, v'))

-- What a committed batch is: its checks passed, and the slots were free.
pub commit_parts :
    (ws : List Write) (s : Store) {t : Store}
    → commit ws s ≡ ok t
    → All (λ w. check_stored s w ≡ ok tt) ws
      × All (λ w. check_bookable s w ≡ ok tt) ws
      × ((slots : Slots) × (claim_slots ws (release_slots ws s.slots) ≡ ok slots)
          × (record s { slots = slots; rows = put_rows ws s.rows } ≡ t))
unfolding commit
commit_parts ws s h =
    let (u, e, f) = >>=-eq-ok (each (check_stored s) ws) _ h in
    let (v, g, k) = >>=-eq-ok (each (check_bookable s) ws) _ f in
    let (slots, m, n) = >>=-eq-ok (claim_slots ws (release_slots ws s.slots)) _ k in
    (each-All (check_stored s) ws e, each-All (check_bookable s) ws g, (slots, m, same n))
  where
    same : {a b : Store} → ◌≡◌ {A = Result StoreError Store} (ok a) (ok b) → a ≡ b
    same p = ground (arith, p)

zip_All :
    {A : Type 0} {P Q R : A → Type 0} (xs : List A)
    → ((x : A) → P x → Q x → R x)
    → All P xs
    → All Q xs
    → All R xs
zip_All [] f p q = tt
zip_All (x ∷ xs) f p q = (f x p.0 q.0, zip_All xs f p.1 q.1)

module _ (ws : List Write) (s : Store) {t : Store} (distinct : IsDistinct (ids_of ws))
    (continues : All Continues ws) (done : commit ws s ≡ ok t) where
  All-Stands : All (Stands (actives_of s.rows)) ws
  All-Stands = zip_All ws (write-Stands s) (commit_parts ws s done).0 continues

  pub commit-SlotsAgree : SlotsAgree s → SlotsAgree t
  unfolding released
  commit-SlotsAgree agree =
      let (_, _, (slots, claimed, eq)) = commit_parts ws s done in
      let mid =
        claims-Agree ws (release_slots ws s.slots) (released ws s.rows distinct All-Stands) distinct
          (Member→All _ ws (Enters-at ws s.rows distinct All-Stands))
          (releases-Agree ws s.slots (actives_of s.rows) distinct All-Stands agree) claimed in
      subst SlotsAgree eq
        (λ a d i. rw⁻¹ (actives_after ws s.rows distinct All-Stands i) (mid a d i))

  commit-row :
      (w : Write) (i : ℕ) (r : RequestRow)
      → Member w ws
      → w.new.id ≡ i
      → row_at s i ≡ some r
      → (r.course_account_id ≡ w.new.course_account_id)
        × (r.target_date ≡ w.new.target_date)
        × (r.version ≤ w.new.version)
  commit-row w i r m e h =
      let passed = All→Member _ w ws (commit_parts ws s done).0 m in
      elim (write-cases s w passed) [
        | inl (f, g) ↦ absurd (cc (ap (row_at s) e, g, h))
        | inr (o, st, f, g, same) ↦
            let (a, d, v) = rw (f, Continues) at (All→Member _ w ws continues m) in
            let p = unique (rw e at g) h in
            (
              p.0 ∙ (same.same_account ∙ sym a),
              p.1 ∙ (same.same_date ∙ sym d),
              omega (arith, p.2, same.same_version, v),
            )
      ]
    where
      unique :
          {st : RequestRow}
          → row_at s i ≡ some st
          → row_at s i ≡ some r
          → (r.course_account_id ≡ st.course_account_id)
            × (r.target_date ≡ st.target_date)
            × (r.version ≡ st.version)
      unique g k = ground (arith, g, k)

  pub commit-Grows : Grows s t
  commit-Grows i r h =
      let (_, _, (slots, claimed, eq)) = commit_parts ws s done in
      subst (λ u. Found u) eq
        (elim (written ws i) [
          | inr out ↦ (r, put_rows-other ws s.rows i out ∙ h, refl, refl, omega arith)
          | inl (w, m, e) ↦
              let (a, d, v) = commit-row w i r m e h in
              (
                w.new,
                subst (λ j. get_at (λ x. x.id) (put_rows ws s.rows) j ≡ some w.new) e
                    (put_rows-at ws s.rows w distinct m),
                sym a,
                sym d,
                v,
              )
        ])
    where
      Found : Store → Type 0
      Found u =
          (r' : RequestRow) × (row_at u i ≡ some r')
          × (r'.course_account_id ≡ r.course_account_id)
          × (r'.target_date ≡ r.target_date)
          × (r.version ≤ r'.version)
