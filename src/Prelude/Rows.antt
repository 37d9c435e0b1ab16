-- ===== src/Prelude/Rows.antt =====
-- A database table as the list of its rows, with the text column that is its primary key.
use mathlib.Core.Path.{◌≡◌, refl}
use mathlib.Core.Option.{Option, none, some}
use mathlib.Core.List.{List, [], ◌∷◌, ◌++◌}
use Prim.Native.String.{String}
use native.Mathlib.Omega.{arith}
use text.Mathlib.TextEquality.{eq_iff}
use jenkins_qemu_provisioner.Prelude.Tests.{if◌then◌else◌, ◌==◌, string_eq}

module _ {ℓ} {A : Type ℓ} (key : A → String) where
  -- `session.get(Row, k)`
  unfoldable pub row : String → List A → Option A
  row k [] = none
  row k (r ∷ rows) = if key r == k then some r else row k rows

  -- Writes a row that the session has changed: the row with the key of `r` becomes `r`.
  unfoldable pub write : A → List A → List A
  write r [] = []
  write r (x ∷ rows) = if key x == key r then r ∷ rows else x ∷ write r rows

  pub row-write :
      (k : String) (r : A) (rows : List A)
      → row k (write r rows)
        ≡ (if key r == k then elim (row k rows) [ none ↦ none | some _ ↦ some r ] else row k rows)
  unfolding row write
  row-write k r [] = ground arith
  row-write k r (x ∷ rows) =
      ground (arith, row-write k r rows, eq_iff (key x) (key r), eq_iff (key x) k, eq_iff (key r) k)

  pub row-key : (k : String) (r : A) (rows : List A) → row k rows ≡ some r → key r ≡ k
  unfolding row
  row-key k r [] h = ground arith
  row-key k r (x ∷ rows) h = ground (arith, row-key k r rows, eq_iff (key x) k)

  pub row-append :
      (k : String) (rows more : List A)
      → row k (rows ++ more) ≡ elim (row k rows) [ none ↦ row k more | some r ↦ some r ]
  unfolding row
  row-append k [] more = refl
  row-append k (x ∷ rows) more = ground (arith, row-append k rows more)

  -- A row with a new key is found after it is added.
  pub row-append_self :
      (r : A) (rows : List A) → row (key r) rows ≡ none → row (key r) (rows ++ r ∷ []) ≡ some r
  unfolding row
  row-append_self r [] h = ground (arith, eq_iff (key r) (key r))
  row-append_self r (x ∷ rows) h = ground (arith, row-append_self r rows, eq_iff (key x) (key r))
