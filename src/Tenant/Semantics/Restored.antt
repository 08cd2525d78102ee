-- ===== src/Tenant/Semantics/Restored.antt =====
-- Which row a withdrawn one-off gives its date back to, and when it gives it to none.
use tee_time_booker.Prelude.{
  select, Member-select, Member-append_cases, ◌+◌, ◌⊎◌, any_of, if◌then◌else◌, subst, ◌∙◌, ℕ, ◌≡◌,
  refl, sym, ap, inl, inr, Bool, true, false, not, ◌&&◌, Option, none, some, List, [], ◌∷◌,
  Option-cases, Bool-cases, Result, ok, err, arith, Member, ◌>>◌,
}
use tee_time_booker.Tenant.Rows.{
  is_user_terminal, is_system_reason, superseded, Refusal, RequestRow, withdrawn, StandingRule,
  materializer, rule, is_status, row_is_frozen, lease_held, prior, check_transition,
}
use tee_time_booker.Tenant.Rows.Edges.{Edge}
use tee_time_booker.Tenant.Rows.Soundness.{check_transition_iff}
use tee_time_booker.Tenant.Semantics.Restoring.{
  candidates_in, restorable_rule_row, unleased_write, leased, WriteError, or_refused,
  rule_covers_row, is_rule_row, is_superseded, is_system_withdrawn, restored, restore_one,
  stored_rule, restore_first,
}

-- The row may be given its date back at `now`: a rule row that its stored rule covers, not frozen,
-- and under no live lease. A withdrawn one is moved by an edge that the materializer may take.
pub record IsRestorable (rules : ℕ → Option StandingRule) (now : ℕ) (row : RequestRow)
    (stored : StandingRule) : Type 0 where
  pub from_rule : row.source ≡ rule
  pub has_rule : stored_rule rules row ≡ some stored
  pub covered : rule_covers_row row (some stored) ≡ true
  pub open_date : row_is_frozen row now ≡ false
  pub unleased : lease_held row now ≡ false
  pub by_edge : row.status ≡ withdrawn → Edge row (prior row) materializer now none false

is_rule_row→rule : (row : RequestRow) → is_rule_row row ≡ true → row.source ≡ rule
is_rule_row→rule row h = ground arith

three_parts : (a b c : Bool) → (a && b && not c) ≡ true → (a ≡ true) × (b ≡ true) × (c ≡ false)
three_parts a b c h = ground arith

restore_values :
    {A : Type 0} (held moved : Bool) (check : Result WriteError (Unit {0})) (pair : A) {q : A}
    → (if held then err leased else ((if moved then check else ok tt) >> ok (some pair)))
      ≡ ok (some q)
    → (held ≡ false) × (pair ≡ q) × (moved ≡ true → check ≡ ok tt)
restore_values true moved check pair h = absurd (cc)
restore_values false true (ok u) pair h = (refl, ground (arith, h), λ _. refl)
restore_values false true (err e) pair h = absurd (cc)
restore_values false false check pair h = (refl, ground (arith, h), λ e. absurd (cc e))

or_refused_ok : (r : Result Refusal (Unit {0})) → or_refused r ≡ ok tt → r ≡ ok tt
or_refused_ok (ok u) h = refl
or_refused_ok (err e) h = cc

module _ (now : ℕ) (row : RequestRow) (stored : StandingRule) where
  status-restored : (restored row stored now).status ≡ prior row
  unfolding restored
  status-restored = elim (Bool-cases (is_status row.status withdrawn)) [
    | inl e ↦ rw e
    | inr e ↦ rw e
  ]

  version-restored : (restored row stored now).version ≡ row.version + 1
  unfolding restored
  version-restored = elim (Bool-cases (is_status row.status withdrawn)) [
    | inl e ↦ rw e
    | inr e ↦ rw e
  ]

  place-restored :
      ((restored row stored now).id ≡ row.id)
      × ((restored row stored now).course_account_id ≡ row.course_account_id)
      × ((restored row stored now).target_date ≡ row.target_date)
  unfolding restored unleased_write
  place-restored = ground arith

  restore_one_parts :
      {old new : RequestRow}
      → restore_one row stored now ≡ ok (some (old, new))
      → (row ≡ old)
        × (restored row stored now ≡ new)
        × (lease_held row now ≡ false)
        × (row.status ≡ withdrawn → Edge row (prior row) materializer now none false)
  restore_one_parts h =
      let (unheld, same, checked) =
        restore_values {A = RequestRow × RequestRow} (lease_held row now)
          (is_status row.status withdrawn)
          (or_refused (check_transition row (prior row) materializer now none false))
          (row, restored row stored now) h in
      (
        ap (λ p. p.0) same,
        ap (λ p. p.1) same,
        unheld,
        λ w.
            (check_transition_iff row materializer now none false (prior row)).0
              (or_refused_ok _ (checked (ap (λ s. is_status s withdrawn) w))),
      )

module _ (rules : ℕ → Option StandingRule) (now : ℕ) where
  -- The write that the loop returns: of a listed row, restorable, with its rule's copy.
  restore_first_parts :
      (rows : List RequestRow) {old new : RequestRow}
      → restore_first rules now rows ≡ ok (some (old, new))
      → (stored : StandingRule) × Member old rows
        × IsRestorable rules now old stored
        × (restored old stored now ≡ new)
  unfolding restore_first
  restore_first_parts [] h = absurd (cc)
  restore_first_parts (row ∷ rest) h = elim (Option-cases (stored_rule rules row)) [
    | inl e ↦ elim (Bool-cases (is_rule_row row && rule_covers_row row none)) [
      | inl f ↦ absurd (cc (rw (e, f, restore_first) at h))
      | inr f ↦
          let (s, m, r, p) = restore_first_parts rest (rw (e, f, restore_first) at h) in
          (s, inr m, r, p)
    ]
    | inr (stored, e) ↦
        elim (Bool-cases
          (is_rule_row row && rule_covers_row row (some stored) && not (row_is_frozen row now))) [
            | inr f ↦
                let (s, m, r, p) = restore_first_parts rest (rw (e, f, restore_first) at h) in
                (s, inr m, r, p)
            | inl f ↦
                let (same, eq, unheld, edge) =
                  restore_one_parts now row stored (rw (e, f, restore_first) at h) in
                let (a, b, c) = three_parts (is_rule_row row) _ (row_is_frozen row now) f in
                (
                  stored,
                  inl (sym same),
                  subst (λ r. IsRestorable rules now r stored) same
                      (record {
                        from_rule = is_rule_row→rule row a;
                        has_rule = e;
                        covered = b;
                        open_date = c;
                        unleased = unheld;
                        by_edge = edge;
                      }),
                  ap (λ r. restored r stored now) (sym same) ∙ eq,
                )
          ]
  ]

not_any :
    {A : Type 0} (test : A → Bool) (xs : List A)
    → any_of test xs ≡ false
    → (x : A) → Member x xs
    → test x ≡ false
not_any test [] h x m = absurd m
not_any test (y ∷ ys) h x (inl e) = ap test e ∙ ground (arith, h)
not_any test (y ∷ ys) h x (inr m) = not_any test ys (ground (arith, h)) x m

candidate_cases :
    (row : RequestRow) (history : List RequestRow)
    → Member row (candidates_in history)
    → Member row history
      × ((row.status ≡ superseded)
          ⊎ ((row.status ≡ withdrawn) × (is_system_reason row.status_reason ≡ true)))
candidate_cases row history m =
    elim (Member-append_cases row (select is_superseded history)
      (select is_system_withdrawn history) m) [
        | inl a ↦
            let (n, e) = Member-select is_superseded row history a in (n, inl (ground (arith, e)))
        | inr b ↦
            let (n, e) = Member-select is_system_withdrawn row history b in
            (n, inr (ground (arith, e), ground (arith, e)))
      ]

module _ (history : List RequestRow) (rules : ℕ → Option StandingRule) (now : ℕ)
    {old new : RequestRow} where
  -- A row that is given its date back is a superseded or system-withdrawn rule row of the history
  -- that its stored rule covers, on a date that is not frozen, under no live lease. It goes back
  -- to the status that it was superseded from, with the next version. No row of the history ends
  -- the date for the user.
  pub restorable_rule_row_sound :
      restorable_rule_row history rules now ≡ ok (some (old, new))
      → ((stored : StandingRule) × Member old history
          × ((old.status ≡ superseded)
              ⊎ ((old.status ≡ withdrawn) × (is_system_reason old.status_reason ≡ true)))
          × IsRestorable rules now old stored
          × (new.status ≡ prior old)
          × (new.version ≡ old.version + 1))
        × ((r : RequestRow) → Member r history → is_user_terminal r ≡ false)
  unfolding restorable_rule_row
  restorable_rule_row_sound h = elim (Bool-cases (any_of is_user_terminal history)) [
    | inl e ↦ absurd (cc (rw e at h))
    | inr e ↦
        let (stored, m, r, eq) =
          restore_first_parts rules now (candidates_in history) (rw e at h) in
        (
          (
            stored,
            (candidate_cases old history m).0,
            (candidate_cases old history m).1,
            r,
            ap (λ n. n.status) (sym eq) ∙ status-restored now old stored,
            ap (λ n. n.version) (sym eq) ∙ version-restored now old stored,
          ),
          not_any is_user_terminal history e,
        )
  ]

  -- The row written is the old one, a rule row, on its account and its date.
  pub restorable_rule_row_place :
      restorable_rule_row history rules now ≡ ok (some (old, new))
      → (old.source ≡ rule)
        × (new.id ≡ old.id)
        × (new.course_account_id ≡ old.course_account_id)
        × (new.target_date ≡ old.target_date)
        × (new.version ≡ old.version + 1)
  unfolding restorable_rule_row
  restorable_rule_row_place h = elim (Bool-cases (any_of is_user_terminal history)) [
    | inl e ↦ absurd (cc (rw e at h))
    | inr e ↦
        let (stored, m, r, eq) =
          restore_first_parts rules now (candidates_in history) (rw e at h) in
        let (i, a, d) = place-restored now old stored in
        (
          r.from_rule,
          ap (λ n. n.id) (sym eq) ∙ i,
          ap (λ n. n.course_account_id) (sym eq) ∙ a,
          ap (λ n. n.target_date) (sym eq) ∙ d,
          ap (λ n. n.version) (sym eq) ∙ version-restored now old stored,
        )
  ]
