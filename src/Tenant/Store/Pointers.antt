-- ===== src/Tenant/Store/Pointers.antt =====
-- The slot pointers and the active rows agree, while a batch releases and claims slots.
use tee_time_booker.Tenant.Semantics.Outcomes.{is_active}
use tee_time_booker.Tenant.Store.State.{StoreError}
use tee_time_booker.Prelude.{
  subst, Result, Bool-cases, ok, refl, inl, ◌⊎◌, inr, ◌&&◌, false, not, true, ℕ, ◌≡◌, ◌↔◌, Option,
  none, some, ◌==◌, if◌then◌else◌, arith,
}
use tee_time_booker.Tenant.Rows.{RequestRow}
use tee_time_booker.Tenant.Store.Commit.{
  claim_slot, release_slot, was_active, is_holder, Write, is_free_for, Slots, set_slot,
}

-- For each row id, the account and date on which the row is active.
abbrev pub Active : Type 0
Active = ℕ → Option (ℕ × ℕ)

abbrev pub Agree : Slots → Active → Type 0
Agree slots act = (a d i : ℕ) → (slots a d ≡ some i) ↔ (act i ≡ some (a, d))

abbrev pub set_active : Active → ℕ → Option (ℕ × ℕ) → Active
set_active act id place i = if i == id then place else act i

abbrev pub place_of : RequestRow → ℕ × ℕ
place_of r = (r.course_account_id, r.target_date)

pub some_pair :
    {a b c d : ℕ} → ◌≡◌ {A = Option (ℕ × ℕ)} (some (a, b)) (some (c, d)) → (a ≡ c) × (b ≡ d)
some_pair p = ground (arith, p)

some_nat : {a b : ℕ} → ◌≡◌ {A = Option ℕ} (some a) (some b) → a ≡ b
some_nat p = ground (arith, p)

pub clear-Agree :
    (slots : Slots) (act : Active) (a d i : ℕ)
    → Agree slots act
    → act i ≡ some (a, d)
    → Agree (set_slot slots a d none) (set_active act i none)
clear-Agree slots act a d i h e x y j = ground (arith, h x y j, h a d j, h x y i, h a d i)

pub fill-Agree :
    (slots : Slots) (act : Active) (a d i : ℕ)
    → Agree slots act
    → act i ≡ none
    → slots a d ≡ none
    → Agree (set_slot slots a d (some i)) (set_active act i (some (a, d)))
fill-Agree slots act a d i h e f x y j = ground (arith, h x y j, h a d j, h x y i)

abbrev pub release_active : Write → Active → Active
release_active w act =
    if was_active w.old && not (is_active w.new.status) then set_active act w.new.id none else act

abbrev pub claim_active : Write → Active → Active
claim_active w act =
    if not (was_active w.old) && is_active w.new.status
    then set_active act w.new.id (some (place_of w.new))
    else act

-- Before the batch, the written row is active at its place, or it is not active at all.
abbrev pub Stands : Active → Write → Type 0
Stands act w =
    ((was_active w.old ≡ true) × (act w.new.id ≡ some (place_of w.new)))
    ⊎ ((was_active w.old ≡ false) × (act w.new.id ≡ none))

pub holder_refl : (o : Option ℕ) (i : ℕ) → o ≡ some i → is_holder o i ≡ true
holder_refl none i h = absurd (cc h)
holder_refl (some j) i h = ground (arith, h)

pub free_for-cases : (o : Option ℕ) (i : ℕ) → is_free_for o i ≡ true → (o ≡ none) ⊎ (o ≡ some i)
free_for-cases none i h = inl refl
free_for-cases (some j) i h = inr (ground (arith, h))

pub release-Agree :
    (w : Write) (slots : Slots) (act : Active)
    → Agree slots act
    → Stands act w
    → Agree (release_slot w slots) (release_active w act)
release-Agree w slots act h (inr (e, f)) = rw e h
release-Agree w slots act h (inl (e, f)) = elim (Bool-cases (is_active w.new.status)) [
  | inl g ↦ rw (e, g) h
  | inr g ↦
      let held = (h w.new.course_account_id w.new.target_date w.new.id).1 f in
      rw (e, g, holder_refl (slots w.new.course_account_id w.new.target_date) w.new.id held)
        (clear-Agree slots act w.new.course_account_id w.new.target_date w.new.id h f)
]

pub claim-Agree :
    (w : Write) (slots : Slots) (act : Active) {after : Slots}
    → Agree slots act
    → (was_active w.old ≡ false → act w.new.id ≡ none)
    → claim_slot w slots ≡ ok after
    → Agree after (claim_active w act)
claim-Agree w slots act {after} h f r = elim (Bool-cases (was_active w.old)) [
  | inl e ↦ rw e (subst (λ t. Agree t act) (same (rw e at r)) h)
  | inr e ↦ elim (Bool-cases (is_active w.new.status)) [
    | inr g ↦ rw (e, g) (subst (λ t. Agree t act) (same (rw (e, g) at r)) h)
    | inl g ↦
        elim (Bool-cases (is_free_for (slots w.new.course_account_id w.new.target_date) w.new.id)) [
          | inr k ↦ absurd (cc (rw (e, g, k) at r))
          | inl k ↦
              let free = slot_free k (f e) in
              rw (e, g)
                (subst (λ t. Agree t (set_active act w.new.id (some (place_of w.new))))
                  (same (rw (e, g, k) at r))
                  (fill-Agree slots act w.new.course_account_id w.new.target_date w.new.id h (f e)
                    free))
        ]
  ]
]
  where
    same : {a b : Slots} → ◌≡◌ {A = Result StoreError Slots} (ok a) (ok b) → a ≡ b
    same p = ground (arith, p)

    slot_free :
        is_free_for (slots w.new.course_account_id w.new.target_date) w.new.id ≡ true
        → act w.new.id ≡ none
        → slots w.new.course_account_id w.new.target_date ≡ none
    slot_free k e =
        elim (free_for-cases (slots w.new.course_account_id w.new.target_date) w.new.id k) [
          | inl p ↦ p
          | inr p ↦ absurd (cc (e, (h w.new.course_account_id w.new.target_date w.new.id).0 p))
        ]
