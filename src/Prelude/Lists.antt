-- ===== src/Prelude/Lists.antt =====
-- Lists: measures over the native numbers, Boolean filters, membership and predicates by recursion.
use Prim.Native.Nat.{ℕ, zero, suc, ◌+◌}
use mathlib.Core.Path.{◌≡◌, subst}
use mathlib.Core.Logic.{◌⊎◌, inl, inr}
use mathlib.Core.Bool.{Bool, true, false, ◌||◌}
use mathlib.Core.List.{List, [], ◌∷◌, ◌++◌}
use native.Mathlib.Omega.{arith}
use jenkins_qemu_provisioner.Prelude.Tests.{if◌then◌else◌, Comparable, ◌==◌}

module _ {ℓ} {A : Type ℓ} where
  abbrev pub length : List A → ℕ
  length [] = 0
  length (x ∷ xs) = suc (length xs)

  abbrev pub take : ℕ → List A → List A
  take zero xs = []
  take (suc n) [] = []
  take (suc n) (x ∷ xs) = x ∷ take n xs

  -- `[x for x in xs if test(x)]`
  abbrev pub filter : (A → Bool) → List A → List A
  filter test [] = []
  filter test (x ∷ xs) = let rest = filter test xs in if test x then x ∷ rest else rest

  -- `sum(f(x) for x in xs)`
  abbrev pub sum_by : (A → ℕ) → List A → ℕ
  sum_by f [] = 0
  sum_by f (x ∷ xs) = f x + sum_by f xs

  pub length-append : (xs ys : List A) → length (xs ++ ys) ≡ length xs + length ys
  length-append [] ys = omega arith
  length-append (x ∷ xs) ys = omega (arith, length-append xs ys)

module _ {ℓ} {A : Type ℓ} ⦃e : Comparable A⦄ where
  -- `a in xs`
  abbrev pub contains : List A → A → Bool
  contains [] a = false
  contains (x ∷ xs) a = (x == a) || contains xs a

module _ {ℓ κ} {A : Type ℓ} where
  -- Every item has the property.
  abbrev pub All : (A → Type κ) → List A → Type κ
  All P [] = Unit
  All P (x ∷ xs) = P x × All P xs

module _ {A : Type 0} where
  -- The item stands somewhere in the list.
  abbrev pub In : A → List A → Type 0
  In a [] = ⊥
  In a (x ∷ xs) = (x ≡ a) ⊎ In a xs

module _ {A : Type 0} (test : A → Bool) where
  pub In-filter : (a : A) (xs : List A) → In a (filter test xs) → In a xs × (test a ≡ true)
  In-filter a [] h = absurd h
  In-filter a (x ∷ xs) h = ground (arith, In-filter a xs)

  pub filter-In : (a : A) (xs : List A) → In a xs → test a ≡ true → In a (filter test xs)
  filter-In a [] h e = h
  filter-In a (x ∷ xs) h e = ground (arith, filter-In a xs)

module _ {A : Type 0} where
  pub All-in {ℓ} : (P : A → Type ℓ) (a : A) (xs : List A) → All P xs → In a xs → P a
  All-in P a [] h m = absurd m
  All-in P a (x ∷ xs) h (inl e) = subst P e h.0
  All-in P a (x ∷ xs) h (inr m) = All-in P a xs h.1 m

  pub In-append : (a : A) (xs ys : List A) → In a (xs ++ ys) → In a xs ⊎ In a ys
  In-append a [] ys h = inr h
  In-append a (x ∷ xs) ys h = ground (arith, In-append a xs ys)

  pub append-In_left : (a : A) (xs ys : List A) → In a xs → In a (xs ++ ys)
  append-In_left a [] ys m = absurd m
  append-In_left a (x ∷ xs) ys (inl e) = inl e
  append-In_left a (x ∷ xs) ys (inr m) = inr (append-In_left a xs ys m)

  pub append-In_right : (a : A) (xs ys : List A) → In a ys → In a (xs ++ ys)
  append-In_right a [] ys m = m
  append-In_right a (x ∷ xs) ys m = inr (append-In_right a xs ys m)
