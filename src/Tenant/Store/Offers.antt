-- ===== src/Tenant/Store/Offers.antt =====
-- Which rows the booking runner and the watcher are offered, and which row a user may read.
use tee_time_booker.Prelude.{
  Bool, Bool-cases, List, Member, Option, Option-cases, [], ap, arith, inl, inr, leb, ltb→lt,
  lt→ltb, none, refl, same_option, some, sort_by-Member, subst, sym, true, ℕ, ◌&&◌, ◌<◌, ◌↔◌, ◌∷◌,
  ◌≡◌,
}
use tee_time_booker.Tenant.Rows.{RequestRow, RowStatus, is_status, pending}
use tee_time_booker.Tenant.Store.State.{
  AccountStatus, CourseAccount, Store, account_active, account_at, account_disabled, auth_failed,
  covers_row, sorted_rows,
}
use tee_time_booker.Tenant.Store.Watching.{
  EventRow, is_account_active, is_offered, join_accounts, load_event_rows,
}

-- The row is listed, passes the test, and has an active account.
abbrev pub IsJoined : Store → (RequestRow → Bool) → List RequestRow → EventRow → Type 0
IsJoined s wanted rows e =
    Member e.row rows
    × (account_at s e.row.course_account_id ≡ some e.account)
    × (wanted e.row ≡ true)
    × (is_account_active e.account.status ≡ true)

both_true : (a b : Bool) → (a && b) ≡ true → (a ≡ true) × (b ≡ true)
both_true a b h = ground (arith, h)

active_iff :
    (status : AccountStatus) → (is_account_active status ≡ true) ↔ (status ≡ account_active)
active_iff account_active = ((λ h. refl), (λ h. refl))
active_iff auth_failed = ((λ h. absurd (cc h)), (λ h. absurd (cc h)))
active_iff account_disabled = ((λ h. absurd (cc h)), (λ h. absurd (cc h)))

same_option_iff : (o : Option ℕ) (n : ℕ) → (same_option o (some n) ≡ true) ↔ (o ≡ some n)
same_option_iff none n = ((λ h. absurd (cc h)), (λ h. absurd (cc h)))
same_option_iff (some m) n = ground arith

same_account : {a b : CourseAccount} → ◌≡◌ {A = Option CourseAccount} (some a) (some b) → a ≡ b
same_account p = ground (arith, p)

module _ (s : Store) (wanted : RequestRow → Bool) where
  joined :
      (rows : List RequestRow) (e : EventRow)
      → Member e (join_accounts s wanted rows)
      → IsJoined s wanted rows e
  unfolding join_accounts
  joined [] e m = absurd m
  joined (row ∷ rows) e m = elim (Option-cases (account_at s row.course_account_id)) [
    | inl f ↦ later (joined rows e (rw (f, join_accounts) at m))
    | inr (account, f) ↦ elim (Bool-cases (wanted row && is_account_active account.status)) [
      | inr g ↦ later (joined rows e (rw (f, g, join_accounts) at m))
      | inl g ↦ elim (rw (f, g, join_accounts) at m) [
        | inr n ↦ later (joined rows e n)
        | inl p ↦
            let (a, b) = both_true _ _ g in
            subst (IsJoined s wanted (row ∷ rows)) (sym p) (inl refl, f, a, b)
      ]
    ]
  ]
    where
      later : IsJoined s wanted rows e → IsJoined s wanted (row ∷ rows) e
      later (n, f, a, b) = (inr n, f, a, b)

  join :
      (rows : List RequestRow) (e : EventRow)
      → IsJoined s wanted rows e
      → Member e (join_accounts s wanted rows)
  unfolding join_accounts
  join [] e (m, f, a, b) = absurd m
  join (row ∷ rows) e (inl p, f, a, b) =
      let f' = subst (λ r. account_at s r.course_account_id ≡ some e.account) p f in
      let a' = subst (λ r. wanted r ≡ true) p a in
      rw (f', a', b, join_accounts) (inl (ap with_account p))
    where
      with_account : RequestRow → EventRow
      with_account r = record { row = r; account = e.account }
  join (row ∷ rows) e (inr m, f, a, b) = elim (Option-cases (account_at s row.course_account_id)) [
    | inl g ↦ rw (g, join_accounts) (join rows e (m, f, a, b))
    | inr (account, g) ↦ elim (Bool-cases (wanted row && is_account_active account.status)) [
      | inl k ↦ rw (g, k, join_accounts) (inr (join rows e (m, f, a, b)))
      | inr k ↦ rw (g, k, join_accounts) (join rows e (m, f, a, b))
    ]
  ]

-- The booking runner is offered exactly the stored pending rows of the targeted dates (one per
-- course) whose cutoff has not passed, that their stored rule still covers, and whose account is
-- stored and active; each is offered with that account.
pub load_event_rows_exact :
    (s : Store) (targets : ℕ → Option ℕ) (now : ℕ) (e : EventRow)
    → Member e (load_event_rows s targets now) ↔ (
        Member e.row s.rows
        × (e.row.status ≡ pending)
        × (targets e.row.course_id ≡ some e.row.target_date)
        × (now < e.row.cutoff_at)
        × (covers_row s e.row ≡ true)
        × (account_at s e.row.course_account_id ≡ some e.account)
        × (e.account.status ≡ account_active))
unfolding load_event_rows
load_event_rows_exact s targets now e =
    let sorted = sort_by-Member (λ a b. leb a.id b.id) e.row s.rows in
    (
      (λ m.
          let (n, f, a, b) = joined s (is_offered s targets now) (sorted_rows s) e m in
          let (p, q, r, k) = (offered_iff e.row).0 a in
          (sorted.0 n, p, q, r, k, f, (active_iff e.account.status).0 b)),
      (λ (n, p, q, r, k, f, b).
          join s (is_offered s targets now) (sorted_rows s) e
            (sorted.1 n, f, (offered_iff e.row).1 (p, q, r, k), (active_iff e.account.status).1 b)),
    )
  where
    is_pending : (status : RowStatus) → is_status status pending ≡ true → status ≡ pending
    is_pending status h = ground (arith, h)

    offered_iff :
        (row : RequestRow)
        → (is_offered s targets now row ≡ true) ↔ (
            (row.status ≡ pending)
            × (targets row.course_id ≡ some row.target_date)
            × (now < row.cutoff_at)
            × (covers_row s row ≡ true))
    offered_iff row = (
      (λ h.
          let (a, rest) = both_true _ _ h in
          let (b, last) = both_true _ _ rest in
          let (c, d) = both_true _ _ last in
          (
            is_pending row.status a,
            (same_option_iff (targets row.course_id) row.target_date).0 b,
            ltb→lt now row.cutoff_at c,
            d,
          )),
      (λ (p, q, r, k).
          rw
            (
              k,
              (same_option_iff (targets row.course_id) row.target_date).1 q,
              lt→ltb now row.cutoff_at r,
              p,
            )
            refl),
    )
