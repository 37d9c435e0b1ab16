-- ===== src/Prelude/Dicts.antt =====
-- A Python `dict` with text keys, in insertion order.
use Prim.Native.Nat.{ℕ, ◌+◌}
use mathlib.Core.Path.{◌≡◌, refl, ap, subst}
use mathlib.Core.Logic.{inl, inr}
use mathlib.Core.Option.{Option, none, some}
use mathlib.Core.List.{List, [], ◌∷◌}
use Prim.Native.String.{String}
use native.Mathlib.Omega.{arith}
use text.Mathlib.TextEquality.{eq_iff}
use jenkins_qemu_provisioner.Prelude.Tests.{if◌then◌else◌, ◌==◌, string_eq, Bool-cases}
use jenkins_qemu_provisioner.Prelude.Lists.{All, filter}
use mathlib.Core.Bool.{Bool, not}

abbrev pub Dict {ℓ} : Type ℓ → Type ℓ
Dict V = List (String × V)

module _ {ℓ} {V : Type ℓ} where
  -- `d.get(k)`
  unfoldable pub lookup : String → Dict V → Option V
  lookup k [] = none
  lookup k ((j, v) ∷ d) = if j == k then some v else lookup k d

  -- `d[k] = v`
  unfoldable pub insert : String → V → Dict V → Dict V
  insert k v [] = (k, v) ∷ []
  insert k v ((j, w) ∷ d) = if j == k then (k, v) ∷ d else (j, w) ∷ insert k v d

  -- `d.get(k, default)`
  unfoldable pub lookup_or : String → V → Dict V → V
  unfolding lookup
  lookup_or k default d = elim (lookup k d) [ none ↦ default | some v ↦ v ]

  pub lookup-insert :
      (k j : String) (v : V) (d : Dict V)
      → lookup j (insert k v d) ≡ (if k == j then some v else lookup j d)
  unfolding lookup insert
  lookup-insert k j v [] = refl
  lookup-insert k j v ((i, w) ∷ d) =
      ground (arith, eq_iff k j, eq_iff i k, eq_iff i j, lookup-insert k j v d)

module _ {V : Type 0} (P : V → Type 0) where
  -- What holds of every value of a dictionary holds of the value found.
  pub lookup-All :
      (k : String) (v : V) (d : Dict V) → All (λ p. P p.1) d → lookup k d ≡ some v → P v
  unfolding lookup
  lookup-All k v [] all h = ground arith
  lookup-All k v ((j, x) ∷ d) all h = elim (Bool-cases (j == k)) [
    | inl here ↦ let same : x ≡ v = ground arith in subst P same all.0
    | inr there ↦ lookup-All k v d all.1 (rw there at h)
  ]

-- `d[k] = d.get(k, 0) + n`
unfoldable pub add_count : String → ℕ → Dict ℕ → Dict ℕ
add_count k n d = insert k (lookup_or k 0 d + n) d

pub lookup_or-add_count :
    (k j : String) (n : ℕ) (d : Dict ℕ)
    → lookup_or j 0 (add_count k n d) ≡ (if k == j then lookup_or k 0 d + n else lookup_or j 0 d)
unfolding lookup_or add_count
lookup_or-add_count k j n d = ground (arith, lookup-insert k j (lookup_or k 0 d + n) d, eq_iff k j)

-- `sum(d.values())`
unfoldable pub total : Dict ℕ → ℕ
total [] = 0
total ((_, n) ∷ d) = n + total d

total-insert :
    (k : String) (v : ℕ) (d : Dict ℕ) → total (insert k v d) + lookup_or k 0 d ≡ total d + v
unfolding total insert lookup_or
total-insert k v [] = omega arith
total-insert k v ((j, w) ∷ d) = ground (arith, total-insert k v d)

pub total-add_count : (k : String) (n : ℕ) (d : Dict ℕ) → total (add_count k n d) ≡ total d + n
unfolding add_count
total-add_count k n d = omega (arith, total-insert k (lookup_or k 0 d + n) d)

pub total-empty : total [] ≡ 0
unfolding total
total-empty = refl

module _ {V : Type 0} where
  -- What is found after the entries of a key are taken out.
  pub lookup-without :
      (k t : String) (d : Dict V)
      → lookup k (filter (λ (f : String × V). not (f.0 == t)) d)
        ≡ (if k == t then none else lookup k d)
  unfolding lookup
  lookup-without k t [] = ground arith
  lookup-without k t ((j, v) ∷ d) =
      ground (arith, lookup-without k t d, eq_iff k t, eq_iff j t, eq_iff j k)

  -- What is found after the entries whose keys do not pass a test are taken out.
  pub lookup-filter :
      (test : String → Bool) (k : String) (d : Dict V)
      → lookup k (filter (λ (f : String × V). test f.0) d) ≡ (if test k then lookup k d else none)
  unfolding lookup
  lookup-filter test k [] = ground arith
  lookup-filter test k ((j, v) ∷ d) = elim (Bool-cases (j == k)) [
    | inl here ↦
        let same : test j ≡ test k = ap test ((eq_iff j k).0 here) in
        ground (arith, lookup-filter test k d)
    | inr there ↦ ground (arith, lookup-filter test k d)
  ]
