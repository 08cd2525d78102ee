-- ===== src/Tenant/Rows/Soundness.antt =====
-- `check_transition` decides the relation `Edge`.
use tee_time_booker.Prelude.{
  false, not, guard, ◌>>◌, ℕ, ◌≡◌, ◌↔◌, ◌⊎◌, refl, inl, inr, Bool-cases, Bool, Option, ok, arith,
}
use tee_time_booker.Tenant.Rows.Data.{
  is_actor, RowStatus, pending, booked, skipped, superseded, withdrawn, cancelled, lost, explicit,
  rule, RowSource, Actor, web, materializer, booking_runner, watcher, Reason, RequestRow,
}
use tee_time_booker.Tenant.Rows.Machine.{
  is_downgrade, check_create, creator, may_start, row_is_frozen, wrong_creator, bad_initial_status,
  is_frozen, check_edge, check_transition,
}
use tee_time_booker.Tenant.Rows.Edges.{
  Edge, books, skips, unskips, supersedes, restores, withdraws_one_off, withdraws_rule_row,
  reactivates, upgrades, cancels, vanishes, downgrades, fails_to_rebook, loses,
}

Source-cases : (s : RowSource) → (s ≡ explicit) ⊎ (s ≡ rule)
Source-cases explicit = inl refl
Source-cases rule = inr refl

Actor-cases :
    (a : Actor) → (a ≡ web) ⊎ ((a ≡ watcher) ⊎ ((a ≡ materializer) ⊎ (a ≡ booking_runner)))
Actor-cases web = inl refl
Actor-cases watcher = inr (inl refl)
Actor-cases materializer = inr (inr (inl refl))
Actor-cases booking_runner = inr (inr (inr refl))

module _ (row : RequestRow) (actor : Actor) (now : ℕ) (reason : Option Reason) (flag : Bool) where
  withdrawal :
      (from : RowStatus)
      → (from ≡ pending) ⊎ (from ≡ superseded)
      → row.status ≡ from
      → check_edge from withdrawn row actor now reason flag ≡ ok tt
      → Edge row withdrawn actor now reason flag
  withdrawal pending c e h = elim (Source-cases row.source) [
    | inl one_off ↦ withdraws_one_off (inl e) refl (ground arith) one_off (ground arith)
    | inr standing ↦ withdraws_rule_row (inl e) refl (ground arith) standing (ground arith)
  ]
  withdrawal superseded c e h = elim (Source-cases row.source) [
    | inl one_off ↦ withdraws_one_off (inr e) refl (ground arith) one_off (ground arith)
    | inr standing ↦ withdraws_rule_row (inr e) refl (ground arith) standing (ground arith)
  ]
  withdrawal _ c e h = ground arith

  cancellation :
      row.status ≡ booked
      → check_edge booked cancelled row actor now reason flag ≡ ok tt
      → Edge row cancelled actor now reason flag
  cancellation e h = elim (Actor-cases actor) [
    | inl a ↦ cancels e refl a (ground arith)
    | inr (inl a) ↦ vanishes e refl a (ground arith)
    | inr (inr a) ↦ ground arith
  ]

  reopening :
      row.status ≡ booked
      → check_edge booked pending row actor now reason flag ≡ ok tt
      → Edge row pending actor now reason flag
  reopening e h = elim (Bool-cases (is_downgrade reason)) [
    | inl d ↦ downgrades e refl (ground arith) (ground arith) (ground arith)
    | inr d ↦ fails_to_rebook e refl (ground arith) (ground arith) (ground arith)
  ]

  edge_of :
      (from to : RowStatus)
      → row.status ≡ from
      → check_edge from to row actor now reason flag ≡ ok tt
      → Edge row to actor now reason flag
  edge_of pending booked e h = books e refl (ground arith)
  edge_of pending skipped e h = skips e refl (ground arith)
  edge_of skipped pending e h = unskips e refl (ground arith) (ground arith)
  edge_of pending superseded e h = supersedes (inl e) refl (ground arith) (ground arith)
  edge_of skipped superseded e h = supersedes (inr e) refl (ground arith) (ground arith)
  edge_of superseded pending e h =
      restores e (ground arith) (inl (refl, ground arith)) (ground arith)
  edge_of superseded skipped e h = restores e (ground arith) (inr refl) (ground arith)
  edge_of pending withdrawn e h = withdrawal pending (inl refl) e h
  edge_of superseded withdrawn e h = withdrawal superseded (inr refl) e h
  edge_of withdrawn pending e h =
      reactivates e (ground arith) (inl refl) (ground arith) (ground arith) (ground arith)
  edge_of withdrawn skipped e h =
      reactivates e (ground arith) (inr refl) (ground arith) (ground arith) (ground arith)
  edge_of booked booked e h = upgrades e refl (ground arith)
  edge_of booked cancelled e h = cancellation e h
  edge_of booked pending e h = reopening e h
  edge_of pending lost e h = loses e refl (ground arith) (ground arith)
  edge_of _ _ e h = ground arith

  accepts :
      (to : RowStatus)
      → Edge row to actor now reason flag
      → check_transition row to actor now reason flag ≡ ok tt
  unfolding check_transition
  accepts to (books e t a) = ground arith
  accepts to (skips e t a) = ground arith
  accepts to (unskips e t a f) = ground arith
  accepts to (supersedes e t a s) = ground arith
  accepts to (restores e t p a) = ground arith
  accepts to (withdraws_one_off e t a s r) = ground arith
  accepts to (withdraws_rule_row e t a s r) = ground arith
  accepts to (reactivates e t p a f r) = ground arith
  accepts to (upgrades e t a) = ground arith
  accepts to (cancels e t a r) = ground arith
  accepts to (vanishes e t a r) = ground arith
  accepts to (downgrades e t a r f) = ground arith
  accepts to (fails_to_rebook e t a r f) = ground arith
  accepts to (loses e t a f) = ground arith

  -- A transition is accepted exactly when the table of allowed moves has it, with its actor, its
  -- reason, its flag and its dates.
  pub check_transition_iff :
      (to : RowStatus)
      → (check_transition row to actor now reason flag ≡ ok tt) ↔ Edge row to actor now reason flag
  unfolding check_transition
  check_transition_iff to = (edge_of row.status to refl, accepts to)

-- Who may create a row, and in which status.
abbrev pub MayCreate : RowSource → RowStatus → Actor → Type 0
MayCreate explicit status actor = (actor ≡ web) × (status ≡ pending)
MayCreate rule status actor = (actor ≡ materializer) × ((status ≡ pending) ⊎ (status ≡ superseded))

create_guards :
    (source : RowSource) (status : RowStatus) (actor : Actor) (is_late : Bool)
    → ((do
      guard (is_actor actor (creator source)) wrong_creator
      guard (may_start source status) bad_initial_status
      guard (not is_late) is_frozen)
        ≡ ok tt)
      ↔ (MayCreate source status actor × (is_late ≡ false))
create_guards explicit status actor is_late = ((λ h. ground (arith, h)), (λ h. ground (arith, h)))
create_guards rule status actor is_late = ((λ h. ground (arith, h)), (λ h. ground (arith, h)))

-- A row is created exactly where its date is not frozen, a one-off by the web as pending, a rule row
-- by the materializer as pending or superseded.
pub check_create_iff :
    (row : RequestRow) (actor : Actor) (now : ℕ)
    → (check_create row actor now ≡ ok tt)
      ↔ (MayCreate row.source row.status actor × (row_is_frozen row now ≡ false))
unfolding check_create
check_create_iff row actor now = create_guards row.source row.status actor (row_is_frozen row now)
