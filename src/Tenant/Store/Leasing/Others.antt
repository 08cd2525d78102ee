-- ===== src/Tenant/Store/Leasing/Others.antt =====
-- The lease calls of other owners.
use tee_time_booker.Prelude.{
  All, Bool, Bool-cases, List, Option, Option-cases, Result, Result-cases, [], ap, arith, err,
  false, get_at-key, inl, inr, ltb, not, ok, refl, same_option, some, subst, sym, true, ℕ, ◌&&◌,
  ◌++◌, ◌<◌, ◌||◌, ◌∙◌, ◌∷◌, ◌≡◌, ◌≢◌,
}
use tee_time_booker.Tenant.Rows.{RequestRow, is_status, lease_held, pending}
use tee_time_booker.Tenant.Semantics.Outcomes.{RowFingerprint, fingerprint_matches}
use tee_time_booker.Tenant.Store.Batches.{put_rows-other}
use tee_time_booker.Tenant.Store.Commit.{Write, commit}
use tee_time_booker.Tenant.Store.Committed.{commit_parts}
use tee_time_booker.Tenant.Store.Leasing.Granted.{perform-empty, refusals, refuses}
use tee_time_booker.Tenant.Store.Plans.{Plan, and_then, for_each, perform}
use tee_time_booker.Tenant.Store.Running.{
  acquire_row_lease, claim_row, claim_rows, held_by_other, release_row_lease, set_upgrade_marker,
}
use tee_time_booker.Tenant.Store.State.{Store, StoreError, missing, row_at}

-- A transaction that raises, writes nothing, or writes one row with another id.
data Spares (row_id : ℕ) {A : Type 0} : Plan A → Type 0 where
  raises : (e : StoreError) → Spares row_id (err e)
  writes_none : (a : A) → Spares row_id (ok ([], a))
  writes_other : (w : Write) (a : A) → w.new.id ≢ row_id → Spares row_id (ok (w ∷ [], a))

perform-Spares :
    {A : Type 0} (s : Store) (row_id : ℕ) {plan : Plan A}
    → Spares row_id plan
    → row_at (perform s plan).1 row_id ≡ row_at s row_id
perform-Spares s row_id (raises e) = refl
perform-Spares s row_id (writes_none a) = ap (λ r. row_at r.1 row_id) (perform-empty s a)
perform-Spares s row_id (writes_other w a ne) = elim (Result-cases (commit (w ∷ []) s)) [
  | inr (x, e) ↦ rw e refl
  | inl (t, e) ↦
      let (_, _, (slots, claimed, eq)) = commit_parts (w ∷ []) s e in
      rw e (
        rw⁻¹ eq
          (put_rows-other (w ∷ []) s.rows row_id (λ m. elim m [ inl p ↦ ne (sym p) | inr n ↦ n ])))
]

-- What the owners of other leases may call, on any row.
pub data LeaseCall : Type 0 where
  acquires_row : (row_id owner until now : ℕ) → Option RowFingerprint → LeaseCall
  claims_row : (row_id owner until now : ℕ) → LeaseCall
  releases_row : (row_id owner now : ℕ) → LeaseCall
  marks_upgrade : (row_id owner now : ℕ) → RowFingerprint → LeaseCall

-- Who calls, and when.
abbrev pub caller : LeaseCall → ℕ
caller (acquires_row _ owner _ _ _) = owner
caller (claims_row _ owner _ _) = owner
caller (releases_row _ owner _) = owner
caller (marks_upgrade _ owner _ _) = owner

abbrev pub called_at : LeaseCall → ℕ
called_at (acquires_row _ _ _ now _) = now
called_at (claims_row _ _ _ now) = now
called_at (releases_row _ _ now) = now
called_at (marks_upgrade _ _ now _) = now

-- The store after a call, whether it returns or raises.
abbrev pub after_call : LeaseCall → Store → Store
after_call (acquires_row row_id owner until now expected) s =
    (perform s (acquire_row_lease s row_id owner until now expected)).1
after_call (claims_row row_id owner until now) s = (claim_rows (row_id ∷ []) owner until now s).1
after_call (releases_row row_id owner now) s = (perform s (release_row_lease s row_id owner)).1
after_call (marks_upgrade row_id owner now expected) s =
    (perform s (set_upgrade_marker s row_id owner now expected)).1

abbrev pub after_calls : List LeaseCall → Store → Store
after_calls [] s = s
after_calls (c ∷ cs) s = after_calls cs (after_call c s)

pub held_now :
    (row : RequestRow) (owner other until now : ℕ)
    → row.lease_owner ≡ some owner
    → row.lease_expires_at ≡ some until
    → owner ≢ other
    → now < until
    → held_by_other row other now ≡ true
held_now row owner other until now e f ne small = rw (e, f) (test owner other until now ne small)
  where
    test : (a b u n : ℕ) → a ≢ b → n < u → (ltb n u && not (same_option (some a) (some b))) ≡ true
    test a b u n p q = ground (arith, p, q)

not_owner :
    (row : RequestRow) (owner other : ℕ)
    → row.lease_owner ≡ some owner
    → owner ≢ other
    → same_option row.lease_owner (some other) ≡ false
not_owner row owner other e ne = rw e (test owner other ne)
  where
    test : (a b : ℕ) → a ≢ b → same_option (some a) (some b) ≡ false
    test a b p = ground (arith, p)

module _ (row_id owner until other now : ℕ) (row : RequestRow)
    (leased_to : row.lease_owner ≡ some owner) (leased_until : row.lease_expires_at ≡ some until)
    (another : owner ≢ other) (small : now < until) where
  -- A row that is found and is not the leased one has another id.
  other_row :
      (s : Store) (j : ℕ) {r : RequestRow}
      → row_at s row_id ≡ some row
      → row_at s j ≡ some r
      → (r ≡ row → ⊥)
      → r.id ≢ row_id
  other_row s j {r} stored e no_row p = no_row (same (sym here ∙ stored))
    where
      here : row_at s row_id ≡ some r
      here = subst (λ i. row_at s i ≡ some r) (sym (get_at-key (λ x. x.id) s.rows j e) ∙ p) e

      same : {a b : RequestRow} → ◌≡◌ {A = Option RequestRow} (some a) (some b) → a ≡ b
      same q = ground (arith, q)

  acquire-Spares :
      (s : Store) (j until' : ℕ) (expected : Option RowFingerprint)
      → row_at s row_id ≡ some row
      → Spares row_id (acquire_row_lease s j other until' now expected)
  unfolding acquire_row_lease
  acquire-Spares s j until' expected stored = elim (Option-cases (row_at s j)) [
    | inl e ↦ rw (e, acquire_row_lease) (raises missing)
    | inr (r, e) ↦ elim (Bool-cases (refuses r other now expected)) [
      | inl f ↦ rw (e, f, acquire_row_lease) (writes_none false)
      | inr f ↦
          rw (e, f, acquire_row_lease)
            (writes_other _ true (
              other_row s j stored e (λ p.
                let (_, free, _) = refusals r other now expected f in
                cc (
                  held_now row owner other until now leased_to leased_until another small,
                  ap (λ x. held_by_other x other now) p,
                  free,
                ))))
    ]
  ]

  claim-Spares :
      (s : Store) (j until' : ℕ)
      → row_at s row_id ≡ some row
      → Spares row_id (claim_row other until' now j s)
  unfolding claim_row
  claim-Spares s j until' stored = elim (Option-cases (row_at s j)) [
    | inl e ↦ rw e (writes_none [])
    | inr (r, e) ↦
        elim (Bool-cases (not (is_status r.status pending) || held_by_other r other now)) [
          | inl f ↦ rw (e, f) (writes_none [])
          | inr f ↦
              rw (e, f)
                (writes_other _ (j ∷ []) (
                  other_row s j stored e (λ p. cc (
                    held_now row owner other until now leased_to leased_until another small,
                    ap (λ x. held_by_other x other now) p,
                    free (not (is_status r.status pending)) (held_by_other r other now) f,
                  ))))
        ]
  ]
    where
      free : (a b : Bool) → (a || b) ≡ false → b ≡ false
      free a b h = ground (arith, h)

  release-Spares :
      (s : Store) (j : ℕ) → row_at s row_id ≡ some row → Spares row_id (release_row_lease s j other)
  unfolding release_row_lease
  release-Spares s j stored = elim (Option-cases (row_at s j)) [
    | inl e ↦ rw (e, release_row_lease) (raises missing)
    | inr (r, e) ↦ elim (Bool-cases (same_option r.lease_owner (some other))) [
      | inr f ↦ rw (e, f, release_row_lease) (writes_none tt)
      | inl f ↦
          rw (e, f, release_row_lease)
            (writes_other _ tt (
              other_row s j stored e (λ p. cc (
                not_owner row owner other leased_to another,
                ap (λ x. same_option x.lease_owner (some other)) p,
                f,
              ))))
    ]
  ]

  mark-Spares :
      (s : Store) (j : ℕ) (expected : RowFingerprint)
      → row_at s row_id ≡ some row
      → Spares row_id (set_upgrade_marker s j other now expected)
  unfolding set_upgrade_marker
  mark-Spares s j expected stored = elim (Option-cases (row_at s j)) [
    | inl e ↦ rw (e, set_upgrade_marker) (raises missing)
    | inr (r, e) ↦
        elim (Bool-cases (
          not (same_option r.lease_owner (some other))
          || (not (lease_held r now) || not (fingerprint_matches r (some expected))))) [
            | inl f ↦ rw (e, f, set_upgrade_marker) (writes_none false)
            | inr f ↦
                rw (e, f, set_upgrade_marker)
                  (writes_other _ true (
                    other_row s j stored e (λ p. cc (
                      not_owner row owner other leased_to another,
                      ap (λ x. same_option x.lease_owner (some other)) p,
                      own (same_option r.lease_owner (some other))
                          (not (lease_held r now) || not (fingerprint_matches r (some expected))) f,
                    ))))
          ]
  ]
    where
      own : (a b : Bool) → (not a || b) ≡ false → a ≡ true
      own a b h = ground (arith, h)

claimed_one :
    (r : Result StoreError (List ℕ) × Store)
    → (and_then r (λ notes t.
        and_then (for_each (claim_row 0 0 0) [] t) (λ later u. (ok (notes ++ later), u)))).1
      ≡ r.1
unfolding for_each
claimed_one (ok ns, t) = refl
claimed_one (err e, t) = refl

-- A call by another owner before the lease ends leaves the row as it is.
call-keeps :
    (row_id owner until : ℕ) (row : RequestRow) (c : LeaseCall) (s : Store)
    → row.lease_owner ≡ some owner
    → row.lease_expires_at ≡ some until
    → owner ≢ caller c
    → called_at c < until
    → row_at s row_id ≡ some row
    → row_at (after_call c s) row_id ≡ some row
unfolding claim_rows for_each
call-keeps row_id owner until row (acquires_row j other until' now expected) s p q ne small h =
    perform-Spares s row_id
      (acquire-Spares row_id owner until other now row p q ne small s j until' expected h)
    ∙ h
call-keeps row_id owner until row (claims_row j other until' now) s p q ne small h =
    ap (λ u. row_at u row_id) (claimed_one (perform s (claim_row other until' now j s)))
    ∙ (perform-Spares s row_id
          (claim-Spares row_id owner until other now row p q ne small s j until' h)
        ∙ h)
call-keeps row_id owner until row (releases_row j other now) s p q ne small h =
    perform-Spares s row_id (release-Spares row_id owner until other now row p q ne small s j h) ∙ h
call-keeps row_id owner until row (marks_upgrade j other now expected) s p q ne small h =
    perform-Spares s row_id
      (mark-Spares row_id owner until other now row p q ne small s j expected h)
    ∙ h

-- Calls by other owners than the one given, before the time given.
abbrev pub AreOthers : ℕ → ℕ → List LeaseCall → Type 0
AreOthers owner until cs = All (λ c. (owner ≢ caller c) × (called_at c < until)) cs

pub calls-keep :
    (row_id owner until : ℕ) (row : RequestRow) (cs : List LeaseCall) (s : Store)
    → row.lease_owner ≡ some owner
    → row.lease_expires_at ≡ some until
    → AreOthers owner until cs
    → row_at s row_id ≡ some row
    → row_at (after_calls cs s) row_id ≡ some row
calls-keep row_id owner until row [] s p q others h = h
calls-keep row_id owner until row (c ∷ cs) s p q others h =
    calls-keep row_id owner until row cs (after_call c s) p q others.1
      (call-keeps row_id owner until row c s p q others.0.0 others.0.1 h)
