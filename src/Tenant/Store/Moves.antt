-- ===== src/Tenant/Store/Moves.antt =====
-- What a method of the store does to it: committed batches, and changes beside the rows.
use tee_time_booker.Prelude.{
  >>=-eq-ok, All, Bool, IsDistinct, List, Option, Result, Result-cases, [], ap, arith, err, false,
  if◌then◌else◌, inl, inr, ok, refl, some, subst, sym, true, ℕ, ◌>>=◌, ◌∷◌, ◌≡◌,
}
use tee_time_booker.Tenant.Rows.{StandingRule}
use tee_time_booker.Tenant.Store.Batches.{ids_of}
use tee_time_booker.Tenant.Store.Commit.{Write, commit}
use tee_time_booker.Tenant.Store.Commits.{Continues, SlotsAgree}
use tee_time_booker.Tenant.Store.Committed.{
  Grows, Grows-refl, Grows-trans, commit-Grows, commit-SlotsAgree, commit_parts,
}
use tee_time_booker.Tenant.Store.Materializing.{put_rule}
use tee_time_booker.Tenant.Store.Plans.{Plan, and_then, for_each, perform}
use tee_time_booker.Tenant.Store.Ruledays.{
  RuledaysAgree, put_rule-RuledaysAgree, upsert_rule-RuledaysAgree, upsert_rule_parts,
}
use tee_time_booker.Tenant.Store.State.{Store, StoreError, rule_at}
use tee_time_booker.Tenant.Store.Web.{upsert_rule}

pub data Moves (s : Store) : Store → Type 0 where
  stays : Moves s s
  commits :
      {t u : Store} (ws : List Write)
      → Moves s t
      → IsDistinct (ids_of ws)
      → All Continues ws
      → commit ws t ≡ ok u
      → Moves s u
  -- The rows, the rules and their pointers are left alone.
  beside :
      {t u : Store}
      → Moves s t
      → t.rows ≡ u.rows
      → t.slots ≡ u.slots
      → t.rules ≡ u.rules
      → t.ruledays ≡ u.ruledays
      → Moves s u
  edits :
      {t u : Store} (given : StandingRule) (user_id : ℕ) {stored : StandingRule}
      → Moves s t
      → upsert_rule t given user_id ≡ ok (stored, u)
      → Moves s u
  marks :
      {t : Store} (was : StandingRule) (watermark : Option ℕ)
      → Moves s t
      → rule_at t was.id ≡ some was
      → Moves s (put_rule (record was { materialized_through = watermark }) t)

pub Moves-trans : {s t u : Store} → Moves s t → Moves t u → Moves s u
Moves-trans m stays = m
Moves-trans m (commits ws n d c h) = commits ws (Moves-trans m n) d c h
Moves-trans m (beside n r l k d) = beside (Moves-trans m n) r l k d
Moves-trans m (edits given user_id n h) = edits given user_id (Moves-trans m n) h
Moves-trans m (marks was w n h) = marks was w (Moves-trans m n) h

commit_rules :
    (ws : List Write) (s : Store) {t : Store}
    → commit ws s ≡ ok t
    → (s.rules ≡ t.rules) × (s.ruledays ≡ t.ruledays)
commit_rules ws s h =
    let (_, _, (slots, claimed, eq)) = commit_parts ws s h in
    (ap (λ u. u.rules) eq, ap (λ u. u.ruledays) eq)

edit_rows :
    (s : Store) (given : StandingRule) (user_id : ℕ) {stored : StandingRule} {t : Store}
    → upsert_rule s given user_id ≡ ok (stored, t)
    → (s.rows ≡ t.rows) × (s.slots ≡ t.slots)
edit_rows s given user_id h =
    let (ruledays, _, eq) = upsert_rule_parts s given user_id h in
    (ap (λ u. u.rows) eq, ap (λ u. u.slots) eq)

pub Moves-SlotsAgree : {s t : Store} → Moves s t → SlotsAgree s → SlotsAgree t
Moves-SlotsAgree stays a = a
Moves-SlotsAgree (commits ws m d c h) a = commit-SlotsAgree ws _ d c h (Moves-SlotsAgree m a)
Moves-SlotsAgree (beside m r l k d) a = rw⁻¹ (r, l) (Moves-SlotsAgree m a)
Moves-SlotsAgree (edits given user_id m h) a =
    let (r, l) = edit_rows _ given user_id h in rw⁻¹ (r, l) (Moves-SlotsAgree m a)
Moves-SlotsAgree (marks was w m h) a = Moves-SlotsAgree m a

pub Moves-RuledaysAgree : {s t : Store} → Moves s t → RuledaysAgree s → RuledaysAgree t
Moves-RuledaysAgree stays a = a
Moves-RuledaysAgree (commits ws m d c h) a =
    let (k, r) = commit_rules ws _ h in rw⁻¹ (k, r) (Moves-RuledaysAgree m a)
Moves-RuledaysAgree (beside m r l k d) a = rw⁻¹ (k, d) (Moves-RuledaysAgree m a)
Moves-RuledaysAgree (edits given user_id m h) a =
    upsert_rule-RuledaysAgree _ given user_id h (Moves-RuledaysAgree m a)
Moves-RuledaysAgree (marks {t} was w m h) a =
    put_rule-RuledaysAgree t was (record was { materialized_through = w }) h refl
      (Moves-RuledaysAgree m a)

pub Moves-Grows : {s t : Store} → Moves s t → Grows s t
Moves-Grows {s} stays = Grows-refl s
Moves-Grows {s} (commits {t} {u} ws m d c h) =
    Grows-trans s t u (Moves-Grows m) (commit-Grows ws t d c h)
Moves-Grows {s} (beside m r l k d) = rw⁻¹ r (Moves-Grows m)
Moves-Grows {s} (edits given user_id m h) = rw⁻¹ ((edit_rows _ given user_id h).0) (Moves-Grows m)
Moves-Grows {s} (marks was w m h) = Moves-Grows m

-- Every batch that the plan can have, once committed, is one that `Moves` allows.
pub record IsSound {A : Type 0} (s : Store) (plan : Plan A) : Type 0 where
  pub sound :
      (ws : List Write) (a : A) (t : Store)
      → plan ≡ ok (ws, a)
      → commit ws s ≡ ok t
      → IsDistinct (ids_of ws) × All Continues ws

abbrev Fine : List Write → Type 0
Fine ws = IsDistinct (ids_of ws) × All Continues ws

module _ {A : Type 0} (s : Store) where
  batch_of : {a b : A} {vs ws : List Write} → ◌≡◌ {A = Plan A} (ok (vs, a)) (ok (ws, b)) → vs ≡ ws
  batch_of p = ground (arith, p)

  pub IsSound-plan :
      (ws : List Write) (a : A)
      → ((t : Store) → commit ws s ≡ ok t → Fine ws)
      → IsSound s (ok (ws, a))
  IsSound-plan ws a f = record {
    sound = λ vs b t h k. subst Fine (batch_of h) (f t (rw (sym (batch_of h)) at k));
  }

  pub IsSound-err : (e : StoreError) → IsSound {A = A} s (err e)
  IsSound-err e = record { sound = λ ws b t h k. absurd (cc h) }

  pub IsSound-none : (a : A) → IsSound s (ok ([], a))
  IsSound-none a = IsSound-plan [] a (λ t k. (tt, tt))

  pub IsSound-one : (w : Write) (a : A) → Continues w → IsSound s (ok (w ∷ [], a))
  IsSound-one w a c = IsSound-plan (w ∷ []) a (λ t k. ((λ m. m, tt), (c, tt)))

  pub IsSound-bind :
      {B : Type 0} (r : Result StoreError B) (f : B → Plan A)
      → ((b : B) → r ≡ ok b → IsSound s (f b))
      → IsSound s (r >>= f)
  IsSound-bind r f g = record {
    sound = λ ws a t h k. let (b, e, m) = >>=-eq-ok r f h in (g b e).sound ws a t m k;
  }

  pub IsSound-if :
      (b : Bool) (p q : Plan A)
      → (b ≡ true → IsSound s p)
      → (b ≡ false → IsSound s q)
      → IsSound s (if b then p else q)
  IsSound-if true p q f g = f refl
  IsSound-if false p q f g = g refl

  pub perform-Moves : (plan : Plan A) → IsSound s plan → Moves s (perform s plan).1
  perform-Moves (err e) fine = stays
  perform-Moves (ok (ws, a)) fine = elim (Result-cases (commit ws s)) [
    | inl (t, e) ↦ let (d, c) = fine.sound ws a t refl e in rw e (commits ws stays d c e)
    | inr (r, e) ↦ rw e stays
  ]

pub and_then-Moves :
    {A B : Type 0} (s : Store) (r : Result StoreError A × Store)
    (next : A → Store → Result StoreError B × Store)
    → Moves s r.1
    → ((a : A) (t : Store) → Moves t (next a t).1)
    → Moves s (and_then r next).1
and_then-Moves s (err e, t) next m f = m
and_then-Moves s (ok a, t) next m f = Moves-trans m (f a t)

pub for_each-Moves :
    {A B : Type 0} (turn : A → Store → Plan (List B)) (xs : List A)
    → ((x : A) (t : Store) → IsSound t (turn x t))
    → (s : Store) → Moves s (for_each turn xs s).1
unfolding for_each
for_each-Moves turn [] f s = stays
for_each-Moves turn (x ∷ xs) f s =
    and_then-Moves s (perform s (turn x s)) _ (perform-Moves s (turn x s) (f x s)) (λ notes t.
      and_then-Moves t (for_each turn xs t) _ (for_each-Moves turn xs f t) (λ later u. stays))
