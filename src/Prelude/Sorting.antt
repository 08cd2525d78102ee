-- ===== src/Prelude/Sorting.antt =====
-- `sorted` of the standard library, by its documented behaviour: a stable sort by a comparison.
use mathlib.Core.Path.{◌≡◌, sym}
use mathlib.Core.Logic.{◌⊎◌, ◌↔◌, inl, inr}
use mathlib.Core.Bool.{Bool, true, false}
use mathlib.Core.List.{List, [], ◌∷◌, Perm}
use mathlib.Core.List.Perm
use tee_time_booker.Prelude.Tests.{if◌then◌else◌, Bool-cases}
use tee_time_booker.Prelude.Lists.{All, All-map, Member, IsDistinct}

module _ {A : Type 0} (le : A → A → Bool) where
  -- `x` stood before the list, so it goes before the elements that compare equal to it.
  abbrev pub insert_by : A → List A → List A
  insert_by x [] = x ∷ []
  insert_by x (y ∷ ys) = if le x y then x ∷ y ∷ ys else y ∷ insert_by x ys

  abbrev pub sort_by : List A → List A
  sort_by [] = []
  sort_by (x ∷ xs) = insert_by x (sort_by xs)

  pub insert_by-perm : (x : A) (ys : List A) → Perm (insert_by x ys) (x ∷ ys)
  insert_by-perm x [] = Perm.rfl
  insert_by-perm x (y ∷ ys) = elim (Bool-cases (le x y)) [
    | inl e ↦ rw e Perm.rfl
    | inr e ↦ rw e (Perm.trans (Perm.cons y (insert_by-perm x ys)) (Perm.swap x y ys))
  ]

  pub sort_by-perm : (xs : List A) → Perm (sort_by xs) xs
  sort_by-perm [] = Perm.rfl
  sort_by-perm (x ∷ xs) = Perm.trans (insert_by-perm x (sort_by xs)) (Perm.cons x (sort_by-perm xs))

  insert_by_iff : (a x : A) (ys : List A) → Member a (insert_by x ys) ↔ ((a ≡ x) ⊎ Member a ys)
  insert_by_iff a x [] = ((λ m. m), (λ m. m))
  insert_by_iff a x (y ∷ ys) = elim (Bool-cases (le x y)) [
    | inl e ↦ rw e ((λ m. m), (λ m. m))
    | inr e ↦ rw e (
      (λ m. elim m [
        | inl p ↦ inr (inl p)
        | inr n ↦ elim ((insert_by_iff a x ys).0 n) [ inl p ↦ inl p | inr q ↦ inr (inr q) ]
      ]),
      (λ m. elim m [
        | inl p ↦ inr ((insert_by_iff a x ys).1 (inl p))
        | inr n ↦ elim n [ inl p ↦ inl p | inr q ↦ inr ((insert_by_iff a x ys).1 (inr q)) ]
      ]),
    )
  ]

  pub sort_by-Member : (a : A) (xs : List A) → Member a (sort_by xs) ↔ Member a xs
  sort_by-Member a [] = ((λ m. m), (λ m. m))
  sort_by-Member a (x ∷ xs) = (
    (λ m. elim ((insert_by_iff a x (sort_by xs)).0 m) [
      | inl p ↦ inl p
      | inr n ↦ inr ((sort_by-Member a xs).0 n)
    ]),
    (λ m.
        (insert_by_iff a x (sort_by xs)).1
          (elim m [ inl p ↦ inl p | inr n ↦ inr ((sort_by-Member a xs).1 n) ])),
  )

  insert_by-IsDistinct :
      (x : A) (ys : List A) → IsDistinct ys → (¬ Member x ys) → IsDistinct (insert_by x ys)
  insert_by-IsDistinct x [] h out = (out, tt)
  insert_by-IsDistinct x (y ∷ ys) h out = elim (Bool-cases (le x y)) [
    | inl e ↦ rw e (out, h)
    | inr e ↦ rw e (
      (λ m. elim ((insert_by_iff y x ys).0 m) [ inl p ↦ out (inl (sym p)) | inr n ↦ h.0 n ]),
      insert_by-IsDistinct x ys h.1 (λ n. out (inr n)),
    )
  ]

  pub sort_by-IsDistinct : (xs : List A) → IsDistinct xs → IsDistinct (sort_by xs)
  sort_by-IsDistinct [] h = tt
  sort_by-IsDistinct (x ∷ xs) h =
      insert_by-IsDistinct x (sort_by xs) (sort_by-IsDistinct xs h.1)
        (λ m. h.0 ((sort_by-Member x xs).0 m))

  -- Each element compares at most equal to all that follow it.
  abbrev pub IsSortedBy : List A → Type 0
  IsSortedBy [] = Unit
  IsSortedBy (x ∷ xs) = All (λ y. le x y ≡ true) xs × IsSortedBy xs

module _ {A : Type 0} (le : A → A → Bool) (le_total : (x y : A) → le x y ≡ false → le y x ≡ true)
    (le_transitive : (x y z : A) → le x y ≡ true → le y z ≡ true → le x z ≡ true) where
  All-insert_by :
      (P : A → Type 0) (x : A) (ys : List A) → P x → All P ys → All P (insert_by le x ys)
  All-insert_by P x [] p h = (p, tt)
  All-insert_by P x (y ∷ ys) p h = elim (Bool-cases (le x y)) [
    | inl e ↦ rw e (p, h)
    | inr e ↦ rw e (h.0, All-insert_by P x ys p h.1)
  ]

  pub insert_by-IsSortedBy :
      (x : A) (ys : List A) → IsSortedBy le ys → IsSortedBy le (insert_by le x ys)
  insert_by-IsSortedBy x [] h = (tt, tt)
  insert_by-IsSortedBy x (y ∷ ys) h = elim (Bool-cases (le x y)) [
    | inl e ↦ rw e ((e, All-map _ _ ys (λ z yz. le_transitive x y z e yz) h.0), h)
    | inr e ↦ rw e (All-insert_by _ x ys (le_total x y e) h.0, insert_by-IsSortedBy x ys h.1)
  ]

  pub sort_by-IsSortedBy : (xs : List A) → IsSortedBy le (sort_by le xs)
  sort_by-IsSortedBy [] = tt
  sort_by-IsSortedBy (x ∷ xs) = insert_by-IsSortedBy x (sort_by le xs) (sort_by-IsSortedBy xs)
