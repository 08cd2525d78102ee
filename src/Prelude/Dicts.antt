-- ===== src/Prelude/Dicts.antt =====
-- A `dict` whose values know their own key, as the list of its values in insertion order.
use Prim.Native.Nat.{ℕ}
use mathlib.Core.Path.{◌≡◌, refl, ap, ◌∙◌}
use mathlib.Core.Logic.{inl, inr}
use mathlib.Core.Bool.{true, false}
use mathlib.Core.Option.{Option, none, some}
use mathlib.Core.List.{List, [], ◌∷◌}
use native.Mathlib.Omega.{arith}
use tee_time_booker.Prelude.Tests.{◌==◌, if◌then◌else◌, ==_iff, Bool-cases}

module _ {A : Type 0} (key : A → ℕ) where
  -- `d.get(k)`
  abbrev pub get_at : List A → ℕ → Option A
  get_at [] k = none
  get_at (x ∷ xs) k = let rest = get_at xs k in if key x == k then some x else rest

  -- `d[key(x)] = x`
  abbrev pub put_at : A → List A → List A
  put_at x [] = x ∷ []
  put_at x (y ∷ ys) = let rest = put_at x ys in if key y == key x then x ∷ ys else y ∷ rest

  pub get_at-put_at :
      (x : A) (xs : List A) (k : ℕ)
      → get_at (put_at x xs) k ≡ (if key x == k then some x else get_at xs k)
  get_at-put_at x [] k = refl
  get_at-put_at x (y ∷ ys) k = elim (Bool-cases (key y == key x)) [
    | inl e ↦ elim (Bool-cases (key x == k)) [
      | inl f ↦ rw (e, f) refl
      | inr f ↦ rw (e, f, same_test (key x) (key y) k e f) refl
    ]
    | inr e ↦ elim (Bool-cases (key y == k)) [
      | inl f ↦ rw (e, f, other_test (key x) (key y) k e f) refl
      | inr f ↦ rw (e, f) (get_at-put_at x ys k)
    ]
  ]
    where
      same_test : (a b k' : ℕ) → (b == a) ≡ true → (a == k') ≡ false → (b == k') ≡ false
      same_test a b k' e f = ground (arith, e, f)

      other_test : (a b k' : ℕ) → (b == a) ≡ false → (b == k') ≡ true → (a == k') ≡ false
      other_test a b k' e f = ground (arith, e, f)

  pub get_at-key : (xs : List A) (k : ℕ) {x : A} → get_at xs k ≡ some x → key x ≡ k
  get_at-key [] k h = absurd (cc h)
  get_at-key (y ∷ ys) k {x} h = elim (Bool-cases (key y == k)) [
    | inl e ↦ same (rw (e, get_at) at h) ∙ (==_iff (key y) k).0 e
    | inr e ↦ get_at-key ys k (rw (e, get_at) at h)
  ]
    where
      same : ◌≡◌ {A = Option A} (some y) (some x) → key x ≡ key y
      same p = ap key (ground (arith, p))
