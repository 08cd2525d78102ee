-- ===== src/Tenant/Store/Ruledays.antt =====
-- The weekday pointers agree with the active rules, through every edit of a rule.
use tee_time_booker.Prelude.{
  >>=-eq-ok, Bool-cases, List, Option, Result, arith, get_at, get_at-key, get_at-put_at,
  if◌then◌else◌, inl, inr, none, ok, put_at, refl, some, subst, sym, true, ℕ, ◌↔◌, ◌≡◌,
}
use tee_time_booker.Tenant.Rows.{StandingRule}
use tee_time_booker.Tenant.Semantics.Intents.{upserted_rule}
use tee_time_booker.Tenant.Store.Commit.{Slots, is_free_for}
use tee_time_booker.Tenant.Store.Materializing.{put_rule}
use tee_time_booker.Tenant.Store.Pointers.{
  Active, Agree, clear-Agree, fill-Agree, free_for-cases, holder_refl, set_active,
}
use tee_time_booker.Tenant.Store.State.{Store, StoreError, account_for_user, rule_at}
use tee_time_booker.Tenant.Store.Web.{check_existing, claim_ruleday, release_ruleday, upsert_rule}

abbrev pub rule_place : Option StandingRule → Option (ℕ × ℕ)
rule_place none = none
rule_place (some r) = if r.active then some (r.course_account_id, r.weekday_index) else none

-- The rules that are active, each at its account and weekday.
abbrev pub active_rules : List StandingRule → Active
active_rules rules i = rule_place (get_at (λ r. r.id) rules i)

-- A weekday's pointer names a rule exactly when the rule is active on it.
abbrev pub RuledaysAgree : Store → Type 0
RuledaysAgree s = Agree s.ruledays (active_rules s.rules)

unset-Agree :
    (slots : Slots) (act : Active) (id : ℕ)
    → act id ≡ none
    → Agree slots act
    → Agree slots (set_active act id none)
unset-Agree slots act id e h a d i = ground (arith, e, h a d i)

release_ruleday-Agree :
    (existing : Option StandingRule) (slots : Slots) (act : Active) (id : ℕ)
    → act id ≡ rule_place existing
    → ((was : StandingRule) → existing ≡ some was → was.id ≡ id)
    → Agree slots act
    → Agree (release_ruleday existing slots) (set_active act id none)
release_ruleday-Agree none slots act id e k h = unset-Agree slots act id e h
release_ruleday-Agree (some was) slots act id e k h = elim (Bool-cases was.active) [
  | inr f ↦ rw f (unset-Agree slots act id (rw f at e) h)
  | inl f ↦
      let at_place = rw f at e in
      let held = (h was.course_account_id was.weekday_index was.id).1 (
        subst (λ i. act i ≡ some (was.course_account_id, was.weekday_index)) (sym (k was refl))
          at_place) in
      rw (f, holder_refl (slots was.course_account_id was.weekday_index) was.id held)
        (clear-Agree slots act was.course_account_id was.weekday_index id h at_place)
]

same_slots : {a b : Slots} → ◌≡◌ {A = Result StoreError Slots} (ok a) (ok b) → a ≡ b
same_slots p = ground (arith, p)

claim_ruleday-Agree :
    (given : StandingRule) (slots : Slots) (act : Active) {after : Slots}
    → act given.id ≡ none
    → Agree slots act
    → claim_ruleday given slots ≡ ok after
    → Agree after (set_active act given.id (rule_place (some given)))
claim_ruleday-Agree given slots act {after} e h r = elim (Bool-cases given.active) [
  | inr f ↦ rw f (
      subst (λ t. Agree t (set_active act given.id none)) (same_slots (rw f at r))
        (unset-Agree slots act given.id e h))
  | inl f ↦
      elim (Bool-cases (is_free_for (slots given.course_account_id given.weekday_index) given.id)) [
        | inr k ↦ absurd (cc (rw (f, k) at r))
        | inl k ↦ rw f (
            subst
              (λ t.
                Agree t
                  (set_active act given.id (some (given.course_account_id, given.weekday_index))))
              (same_slots (rw (f, k) at r))
              (fill-Agree slots act given.course_account_id given.weekday_index given.id h e
                (slot_free k)))
      ]
]
  where
    slot_free :
        is_free_for (slots given.course_account_id given.weekday_index) given.id ≡ true
        → slots given.course_account_id given.weekday_index ≡ none
    slot_free k =
        elim (free_for-cases (slots given.course_account_id given.weekday_index) given.id k) [
          | inl p ↦ p
          | inr p ↦ absurd (cc (e, (h given.course_account_id given.weekday_index given.id).0 p))
        ]

-- The parts of a rule edit that is accepted.
pub upsert_rule_parts :
    (s : Store) (given : StandingRule) (user_id : ℕ) {stored : StandingRule} {t : Store}
    → upsert_rule s given user_id ≡ ok (stored, t)
    → (ruledays : Slots) × (claim_ruleday given (release_ruleday (rule_at s given.id) s.ruledays)
        ≡ ok ruledays)
      × (record s {
        ruledays = ruledays;
        rules = put_at (λ r. r.id) (upserted_rule given (rule_at s given.id)) s.rules;
      }
          ≡ t)
unfolding upsert_rule
upsert_rule_parts s given user_id {stored} {t} h =
    let (_, _, h1) = >>=-eq-ok (account_for_user s given.course_account_id (some user_id)) _ h in
    let (_, _, h2) = >>=-eq-ok (check_existing given (rule_at s given.id)) _ h1 in
    let (ruledays, e, h3) =
      >>=-eq-ok (claim_ruleday given (release_ruleday (rule_at s given.id) s.ruledays)) _ h2 in
    (ruledays, e, same h3)
  where
    same :
        {a b : StandingRule} {u v : Store}
        → ◌≡◌ {A = Result StoreError (StandingRule × Store)} (ok (a, u)) (ok (b, v))
        → u ≡ v
    same p = ground (arith, p)

upserted-place :
    (given : StandingRule) (existing : Option StandingRule)
    → (rule_place (some (upserted_rule given existing)) ≡ rule_place (some given))
      × ((upserted_rule given existing).id ≡ given.id)
unfolding upserted_rule
upserted-place given none = (refl, refl)
upserted-place given (some was) = (refl, refl)

put-active_rules :
    (r : StandingRule) (rules : List StandingRule) (id i : ℕ)
    → r.id ≡ id
    → active_rules (put_at (λ x. x.id) r rules) i
      ≡ set_active (set_active (active_rules rules) id none) id (rule_place (some r)) i
put-active_rules r rules id i e = ground (arith, e, get_at-put_at (λ x. x.id) r rules i)

pub upsert_rule-RuledaysAgree :
    (s : Store) (given : StandingRule) (user_id : ℕ) {stored : StandingRule} {t : Store}
    → upsert_rule s given user_id ≡ ok (stored, t)
    → RuledaysAgree s
    → RuledaysAgree t
upsert_rule-RuledaysAgree s given user_id {t = t} done agree =
    let (ruledays, claimed, eq) = upsert_rule_parts s given user_id done in
    let (place, same_id) = upserted-place given (rule_at s given.id) in
    let mid =
      claim_ruleday-Agree given (release_ruleday (rule_at s given.id) s.ruledays)
        (set_active (active_rules s.rules) given.id none) cleared
        (release_ruleday-Agree (rule_at s given.id) s.ruledays (active_rules s.rules) given.id refl
          (λ was e. get_at-key (λ r. r.id) s.rules given.id e) agree)
        claimed in
    subst RuledaysAgree eq (λ a d i.
      rw
        (
          put-active_rules (upserted_rule given (rule_at s given.id)) s.rules given.id i same_id,
          place,
        )
        (mid a d i))
  where
    cleared : set_active (active_rules s.rules) given.id none given.id ≡ none
    cleared = ground arith

-- A rule that is replaced by one with its id, on its place, leaves the pointers as they are.
pub put_rule-RuledaysAgree :
    (s : Store) (was r : StandingRule)
    → rule_at s r.id ≡ some was
    → rule_place (some was) ≡ rule_place (some r)
    → RuledaysAgree s
    → RuledaysAgree (put_rule r s)
put_rule-RuledaysAgree s was r found e agree a d i =
    rw (put-active_rules r s.rules r.id i refl) (moved (agree a d i) (agree a d r.id))
  where
    here : active_rules s.rules r.id ≡ rule_place (some r)
    here = rw found e

    moved :
        ((s.ruledays a d ≡ some i) ↔ (active_rules s.rules i ≡ some (a, d)))
        → ((s.ruledays a d ≡ some r.id) ↔ (active_rules s.rules r.id ≡ some (a, d)))
        → (s.ruledays a d ≡ some i) ↔ (
            set_active (set_active (active_rules s.rules) r.id none) r.id (rule_place (some r)) i
            ≡ some (a, d))
    moved h k = ground (arith, h, k, here)
