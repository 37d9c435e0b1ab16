-- ===== src/Prelude/Texts.antt =====
-- What the program does with texts: f-strings, `in`, slices, and the codes of characters.
use Prim.Native.Nat.{ℕ, zero, suc}
use Prim.Native.Char.{code}
use Prim.Native.String.{String, ◌++◌}
use text.Mathlib.Text.{find?}
use mathlib.Core.Bool.{Bool, true, false, ◌&&◌}
use jenkins_qemu_provisioner.Prelude.Tests.{nat_beq, if◌then◌else◌}
use mathlib.Core.Option.{Option, none, some}
use mathlib.Core.List.{List, [], ◌∷◌}

-- The parts of an f-string, one after the other.
abbrev pub concat : List String → String
concat [] = ""
concat (s ∷ parts) = s ++ concat parts

-- `part in s`
abbrev pub has_part : String → String → Bool
has_part part s = elim (find? s part) [ none ↦ false | some _ ↦ true ]

-- `s[:n]`
abbrev pub first_chars : ℕ → String → String
first_chars zero s = ""
first_chars (suc n) String.[] = ""
first_chars (suc n) (String.◌∷◌ c s) = String.◌∷◌ c (first_chars n s)

-- The code points of a text.
abbrev pub codes : String → List ℕ
codes String.[] = []
codes (String.◌∷◌ c s) = code c ∷ codes s

-- `sep.join(parts)`
abbrev pub join : String → List String → String
join sep [] = ""
join sep (s ∷ []) = s
join sep (s ∷ parts) = s ++ sep ++ join sep parts

-- `s.startswith(start)`
unfoldable pub starts_with : String → String → Bool
starts_with s String.[] = true
starts_with String.[] (String.◌∷◌ d start) = false
starts_with (String.◌∷◌ c s) (String.◌∷◌ d start) = nat_beq (code c) (code d) && starts_with s start

-- `s.split(" ", 1)[1]`: what follows the first space, if there is one
unfoldable pub after_space : String → Option String
after_space String.[] = none
after_space (String.◌∷◌ c s) =
    let rest = after_space s in if nat_beq (code c) b' ' then some s else rest
