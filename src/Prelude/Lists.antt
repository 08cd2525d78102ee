-- ===== src/Prelude/Lists.antt =====
-- Lists measured and searched with native numbers and Boolean tests.
use Prim.Native.Nat.{ℕ, zero, suc, ◌+◌, ◌≤◌}
use mathlib.Core.Path.{◌≡◌, refl, ap, subst, sym, ◌∙◌}
use mathlib.Core.Logic.{◌⊎◌, inl, inr}
use mathlib.Core.Bool.{Bool, true, false, ◌&&◌, ◌||◌}
use mathlib.Core.Option.{Option, none, some}
use mathlib.Core.List.{List, [], ◌∷◌, ◌++◌, reverse, reverse-append, reverse-reverse}
use native.Mathlib.Omega.{arith}
use tee_time_booker.Prelude.Tests.{◌==◌, is_none, if◌then◌else◌, Bool-cases}

module _ {ℓ} {A : Type ℓ} where
  abbrev pub length : List A → ℕ
  length [] = 0
  length (x ∷ xs) = suc (length xs)

  -- xs[:n]
  abbrev pub take : ℕ → List A → List A
  take zero xs = []
  take (suc n) [] = []
  take (suc n) (x ∷ xs) = x ∷ take n xs

  -- xs[n:]
  abbrev pub drop : ℕ → List A → List A
  drop zero xs = xs
  drop (suc n) [] = []
  drop (suc n) (x ∷ xs) = drop n xs

  -- [x for x in xs if test(x)]
  abbrev pub select : (A → Bool) → List A → List A
  select test [] = []
  select test (x ∷ xs) = if test x then x ∷ select test xs else select test xs

  -- next((x for x in xs if test(x)), None)
  abbrev pub find : (A → Bool) → List A → Option A
  find test [] = none
  find test (x ∷ xs) = if test x then some x else find test xs

  -- any(test(x) for x in xs)
  abbrev pub any_of : (A → Bool) → List A → Bool
  any_of test [] = false
  any_of test (x ∷ xs) = test x || any_of test xs

  -- all(test(x) for x in xs)
  abbrev pub all_of : (A → Bool) → List A → Bool
  all_of test [] = true
  all_of test (x ∷ xs) = test x && all_of test xs

  -- `not xs`
  abbrev pub is_empty : List A → Bool
  is_empty [] = true
  is_empty (x ∷ xs) = false

  pub length-append : (xs ys : List A) → length (xs ++ ys) ≡ length xs + length ys
  length-append [] ys = omega arith
  length-append (x ∷ xs) ys = omega (arith, length-append xs ys)

  pub length-select-le : (test : A → Bool) (xs : List A) → length (select test xs) ≤ length xs
  length-select-le test [] = omega arith
  length-select-le test (x ∷ xs) = ground (arith, length-select-le test xs)

  pub take-append-drop : (n : ℕ) (xs : List A) → take n xs ++ drop n xs ≡ xs
  take-append-drop zero xs = refl
  take-append-drop (suc n) [] = refl
  take-append-drop (suc n) (x ∷ xs) = rw (take-append-drop n xs)

  abbrev pub All {κ} : (A → Type κ) → List A → Type κ
  All P [] = Unit
  All P (x ∷ xs) = P x × All P xs

  pub All-map {κ μ} :
      (P : A → Type κ) (Q : A → Type μ) (xs : List A) → ((x : A) → P x → Q x) → All P xs → All Q xs
  All-map P Q [] f h = tt
  All-map P Q (x ∷ xs) f h = (f x h.0, All-map P Q xs f h.1)

  pub All-append {κ} : (P : A → Type κ) (xs ys : List A) → All P xs → All P ys → All P (xs ++ ys)
  All-append P [] ys hx hy = hy
  All-append P (x ∷ xs) ys hx hy = (hx.0, All-append P xs ys hx.1 hy)

  pub find-skip :
      (test : A → Bool) (xs ys : List A)
      → All (λ x. test x ≡ false) xs
      → find test (xs ++ ys) ≡ find test ys
  find-skip test [] ys h = refl
  find-skip test (x ∷ xs) ys h = rw h.0 (find-skip test xs ys h.1)

  pub find-eq-none :
      (test : A → Bool) (xs : List A) → find test xs ≡ none → All (λ x. test x ≡ false) xs
  find-eq-none test [] h = tt
  find-eq-none test (x ∷ xs) h = elim (Bool-cases (test x)) [
    | inl e ↦ absurd (cc (ap is_none (rw e at h)))
    | inr e ↦ (e, find-eq-none test xs (rw e at h))
  ]

  pub take-append_length : (n : ℕ) (xs ys : List A) → length xs ≡ n → take n (xs ++ ys) ≡ xs
  take-append_length zero [] ys h = refl
  take-append_length zero (x ∷ xs) ys h = absurd (omega arith)
  take-append_length (suc n) [] ys h = absurd (omega arith)
  take-append_length (suc n) (x ∷ xs) ys h = rw (take-append_length n xs ys (omega arith))

  pub take-all : (n : ℕ) (xs : List A) → length xs ≤ n → take n xs ≡ xs
  take-all zero [] h = refl
  take-all zero (x ∷ xs) h = absurd (omega arith)
  take-all (suc n) [] h = refl
  take-all (suc n) (x ∷ xs) h = rw (take-all n xs (omega arith))

  pub find-eq-some : (test : A → Bool) (xs : List A) {x : A} → find test xs ≡ some x → test x ≡ true
  find-eq-some test [] h = cc
  find-eq-some test (y ∷ ys) {x} h = elim (Bool-cases (test y)) [
    | inl e ↦ ground (arith, e, h)
    | inr e ↦ find-eq-some test ys (ground (arith, e, h))
  ]

module _ {A : Type 0} where
  abbrev pub Member : A → List A → Type 0
  Member x [] = ⊥
  Member x (y ∷ ys) = (x ≡ y) ⊎ Member x ys

  pub Member-append_left : (x : A) (xs ys : List A) → Member x xs → Member x (xs ++ ys)
  Member-append_left x [] ys m = absurd m
  Member-append_left x (z ∷ zs) ys (inl e) = inl e
  Member-append_left x (z ∷ zs) ys (inr m) = inr (Member-append_left x zs ys m)

  pub Member-append_right : (x : A) (xs ys : List A) → Member x ys → Member x (xs ++ ys)
  Member-append_right x [] ys m = m
  Member-append_right x (z ∷ zs) ys m = inr (Member-append_right x zs ys m)

  pub Member-append_cases :
      (x : A) (xs ys : List A) → Member x (xs ++ ys) → Member x xs ⊎ Member x ys
  Member-append_cases x [] ys m = inr m
  Member-append_cases x (z ∷ zs) ys (inl e) = inl (inl e)
  Member-append_cases x (z ∷ zs) ys (inr m) = elim (Member-append_cases x zs ys m) [
    | inl a ↦ inl (inr a)
    | inr b ↦ inr b
  ]

  pub Member-reverse : (x : A) (xs : List A) → Member x xs → Member x (reverse xs)
  Member-reverse x [] m = m
  Member-reverse x (y ∷ ys) m = rw (reverse-append (y ∷ []) ys) (elim m [
    | inl e ↦ Member-append_right x (reverse ys) (y ∷ []) (inl e)
    | inr m' ↦ Member-append_left x (reverse ys) (y ∷ []) (Member-reverse x ys m')
  ])

  pub reverse-Member : (x : A) (xs : List A) → Member x (reverse xs) → Member x xs
  reverse-Member x xs m = rw (reverse-reverse xs) at (Member-reverse x (reverse xs) m)

  pub All→Member {κ} : (P : A → Type κ) (x : A) (xs : List A) → All P xs → Member x xs → P x
  All→Member P x [] h m = absurd m
  All→Member P x (y ∷ ys) h (inl e) = subst P (sym e) h.0
  All→Member P x (y ∷ ys) h (inr m) = All→Member P x ys h.1 m

  pub Member→All {κ} : (P : A → Type κ) (xs : List A) → ((x : A) → Member x xs → P x) → All P xs
  Member→All P [] f = tt
  Member→All P (x ∷ xs) f = (f x (inl refl), Member→All P xs (λ y m. f y (inr m)))

  pub Member-select :
      (test : A → Bool) (x : A) (xs : List A)
      → Member x (select test xs)
      → Member x xs × (test x ≡ true)
  Member-select test x [] m = absurd m
  Member-select test x (y ∷ ys) m = elim (Bool-cases (test y)) [
    | inl e ↦ elim (to_kept e m) [
      | inl p ↦ (inl p, ap test p ∙ e)
      | inr m' ↦ let r = Member-select test x ys m' in (inr r.0, r.1)
    ]
    | inr e ↦ let r = Member-select test x ys (rw e at m) in (inr r.0, r.1)
  ]
    where
      to_kept :
          test y ≡ true → Member x (select test (y ∷ ys)) → (x ≡ y) ⊎ Member x (select test ys)
      to_kept e h = rw e at h

  pub select-Member :
      (test : A → Bool) (x : A) (xs : List A)
      → Member x xs
      → test x ≡ true
      → Member x (select test xs)
  select-Member test x [] m t = absurd m
  select-Member test x (y ∷ ys) (inl e) t = rw (sym (ap test e) ∙ t) (inl e)
  select-Member test x (y ∷ ys) (inr m) t = elim (Bool-cases (test y)) [
    | inl e ↦ rw e (inr (select-Member test x ys m t))
    | inr e ↦ rw e (select-Member test x ys m t)
  ]

-- No element stands twice.
abbrev pub IsDistinct : {A : Type 0} → List A → Type 0
IsDistinct [] = Unit
IsDistinct (x ∷ xs) = (¬ Member x xs) × IsDistinct xs

pub IsDistinct-append :
    {A : Type 0} (s : A) (xs ys : List A) → IsDistinct (xs ++ ys) → Member s xs → ¬ Member s ys
IsDistinct-append s [] ys h m n = m
IsDistinct-append s (x ∷ xs) ys h (inl e) n =
    h.0 (Member-append_right x xs ys (subst (λ z. Member z ys) e n))
IsDistinct-append s (x ∷ xs) ys h (inr m) n = IsDistinct-append s xs ys h.1 m n

-- `x in xs` on numbers.
abbrev pub elem : ℕ → List ℕ → Bool
elem a xs = any_of (λ x. x == a) xs

pub elem→Member : (a : ℕ) (xs : List ℕ) → elem a xs ≡ true → Member a xs
elem→Member a [] h = cc
elem→Member a (x ∷ xs) h = ground (arith, elem→Member a xs)

pub Member→elem : (a : ℕ) (xs : List ℕ) → Member a xs → elem a xs ≡ true
Member→elem a [] m = absurd m
Member→elem a (x ∷ xs) (inl e) = ground arith
Member→elem a (x ∷ xs) (inr m) = ground (arith, Member→elem a xs m)
