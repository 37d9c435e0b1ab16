-- ===== src/Prelude/Sort.antt =====
-- Python's `list.sort`, which is stable: equal items keep their order. `lt` is the order of the keys.
use Prim.Native.Nat.{ℕ, ◌+◌}
use mathlib.Core.Path.{◌≡◌, refl}
use mathlib.Core.Logic.{◌⊎◌, inl, inr}
use mathlib.Core.Bool.{Bool, true, false}
use mathlib.Core.List.{List, [], ◌∷◌, Perm}
use mathlib.Core.List.Perm
use native.Mathlib.Omega.{arith}
use jenkins_qemu_provisioner.Prelude.Tests.{if◌then◌else◌, Bool-cases}
use jenkins_qemu_provisioner.Prelude.Lists.{All, In, length, sum_by}

module _ {A : Type 0} (lt : A → A → Bool) where
  -- In front of the first item that is not smaller.
  place : A → List A → List A
  place x [] = x ∷ []
  place x (y ∷ ys) = if lt y x then y ∷ place x ys else x ∷ y ∷ ys

  unfoldable pub sort : List A → List A
  unfolding place
  sort [] = []
  sort (x ∷ xs) = place x (sort xs)

  place-perm : (x : A) (ys : List A) → Perm (place x ys) (x ∷ ys)
  unfolding place
  place-perm x [] = Perm.refl (x ∷ [])
  place-perm x (y ∷ ys) = elim (Bool-cases (lt y x)) [
    | inl e ↦ rw e (Perm.trans (Perm.cons y (place-perm x ys)) (Perm.swap x y ys))
    | inr e ↦ rw e (Perm.refl (x ∷ y ∷ ys))
  ]

  pub sort-perm : (xs : List A) → Perm (sort xs) xs
  unfolding sort
  sort-perm [] = Perm.refl []
  sort-perm (x ∷ xs) = Perm.trans (place-perm x (sort xs)) (Perm.cons x (sort-perm xs))

  length-place : (x : A) (ys : List A) → length (place x ys) ≡ length ys + 1
  unfolding place
  length-place x [] = omega arith
  length-place x (y ∷ ys) = ground (arith, length-place x ys)

  pub length-sort : (xs : List A) → length (sort xs) ≡ length xs
  unfolding sort
  length-sort [] = refl
  length-sort (x ∷ xs) = omega (arith, length-place x (sort xs), length-sort xs)

  sum_by-place : (f : A → ℕ) (x : A) (ys : List A) → sum_by f (place x ys) ≡ f x + sum_by f ys
  unfolding place
  sum_by-place f x [] = omega arith
  sum_by-place f x (y ∷ ys) = ground (arith, sum_by-place f x ys)

  -- The sum does not depend on the order.
  pub sum_by-sort : (f : A → ℕ) (xs : List A) → sum_by f (sort xs) ≡ sum_by f xs
  unfolding sort
  sum_by-sort f [] = refl
  sum_by-sort f (x ∷ xs) = omega (arith, sum_by-place f x (sort xs), sum_by-sort f xs)

  -- No item is followed by a smaller one.
  abbrev pub IsSorted : List A → Type 0
  IsSorted [] = Unit
  IsSorted (x ∷ xs) = All (λ y. lt y x ≡ false) xs × IsSorted xs

  In-place : (a x : A) (ys : List A) → In a (place x ys) → (x ≡ a) ⊎ In a ys
  unfolding place
  In-place a x [] h = h
  In-place a x (y ∷ ys) h = ground (arith, In-place a x ys)

  place-In : (a x : A) (ys : List A) → (x ≡ a) ⊎ In a ys → In a (place x ys)
  unfolding place
  place-In a x [] h = h
  place-In a x (y ∷ ys) h = ground (arith, place-In a x ys)

  pub In-sort : (a : A) (xs : List A) → In a (sort xs) → In a xs
  unfolding sort
  In-sort a [] h = h
  In-sort a (x ∷ xs) h = ground (arith, In-place a x (sort xs) h, In-sort a xs)

  pub sort-In : (a : A) (xs : List A) → In a xs → In a (sort xs)
  unfolding sort
  sort-In a [] h = h
  sort-In a (x ∷ xs) h = place-In a x (sort xs) (ground (arith, sort-In a xs))

  module _ (asymm : (a b : A) → lt a b ≡ true → lt b a ≡ false)
      (trans : (a b c : A) → lt b a ≡ false → lt c b ≡ false → lt c a ≡ false) where
    All-mono :
        (x y : A) (ys : List A)
        → lt y x ≡ false
        → All (λ z. lt z y ≡ false) ys
        → All (λ z. lt z x ≡ false) ys
    All-mono x y [] e h = tt
    All-mono x y (z ∷ ys) e h = (trans x y z e h.0, All-mono x y ys e h.1)

    All-place :
        (y x : A) (ys : List A)
        → lt x y ≡ false
        → All (λ z. lt z y ≡ false) ys
        → All (λ z. lt z y ≡ false) (place x ys)
    unfolding place
    All-place y x [] e h = (e, tt)
    All-place y x (z ∷ ys) e h = elim (Bool-cases (lt z x)) [
      | inl s ↦ rw s (h.0, All-place y x ys e h.1)
      | inr s ↦ rw s (e, h)
    ]

    place-IsSorted : (x : A) (ys : List A) → IsSorted ys → IsSorted (place x ys)
    unfolding place
    place-IsSorted x [] h = (tt, tt)
    place-IsSorted x (y ∷ ys) h = elim (Bool-cases (lt y x)) [
      | inl s ↦ rw s (All-place y x ys (asymm y x s) h.0, place-IsSorted x ys h.1)
      | inr s ↦ rw s ((s, All-mono x y ys s h.0), h)
    ]

    pub sort-IsSorted : (xs : List A) → IsSorted (sort xs)
    unfolding sort
    sort-IsSorted [] = tt
    sort-IsSorted (x ∷ xs) = place-IsSorted x (sort xs) (sort-IsSorted xs)
