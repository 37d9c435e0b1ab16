-- ===== src/ControlPlane/Jenkins/Texts.antt =====
-- What the Jenkins client does with texts, and how it reads values of JSON.
use Prim.Native.Char.{code}
use Prim.Native.String.{String, ◌++◌}
use jenkins_qemu_provisioner.Prelude.{
  ℕ, Bool, false, ◌||◌, not, Option, none, some, Dict, lookup, truthy, nat_beq, if◌then◌else◌,
}
use jenkins_qemu_provisioner.Json.{Json, bool, str, obj, to_dict}

-- `isinstance(value, dict)`, of what `dict.get` answers
abbrev pub dict_of : Option Json → Option (Dict Json)
dict_of (some (obj fs)) = some (to_dict fs)
dict_of _ = none

-- `isinstance(value, str) and value`
abbrev pub text_key : String → Dict Json → Option String
text_key key d = elim (lookup key d) [
  | none ↦ none
  | some j ↦ elim j [ str s ↦ if truthy s then some s else none | _ ↦ none ]
]

-- `value is True`, `value is False`
abbrev pub is_true : Option Json → Bool
is_true (some (bool b)) = b
is_true _ = false

abbrev pub is_false : Option Json → Bool
is_false (some (bool b)) = not b
is_false _ = false

-- What follows a text at the start of another, if it stands there.
unfoldable pub after_start : String → String → Option String
after_start String.[] s = some s
after_start (String.◌∷◌ d start) String.[] = none
after_start (String.◌∷◌ d start) (String.◌∷◌ c s) =
    let rest = after_start start s in if nat_beq (code d) (code c) then rest else none

-- What follows the first place where a text stands in another, if there is one.
unfoldable pub after_first : String → String → Option String
unfolding after_start
after_first part String.[] = after_start part ""
after_first part (String.◌∷◌ c s) =
    let later = after_first part s in
    elim (after_start part (String.◌∷◌ c s)) [ none ↦ later | some rest ↦ some rest ]

-- What stands before the first place where a text stands in another, if there is one.
unfoldable pub before_first : String → String → Option String
unfolding after_start
before_first part String.[] = elim (after_start part "") [ none ↦ none | some rest ↦ some "" ]
before_first part (String.◌∷◌ c s) =
    let later = before_first part s in
    elim (after_start part (String.◌∷◌ c s)) [
      | some rest ↦ some ""
      | none ↦ elim later [ none ↦ none | some before ↦ some (String.◌∷◌ c before) ]
    ]

-- `s.split("?", 1)[0]`
unfoldable pub without_query : String → String
without_query String.[] = ""
without_query (String.◌∷◌ c s) =
    let rest = without_query s in if nat_beq (code c) b'?' then "" else String.◌∷◌ c rest

-- `s.endswith("/")`
unfoldable pub ends_with_slash : String → Bool
ends_with_slash String.[] = false
ends_with_slash (String.◌∷◌ c s) =
    let rest = ends_with_slash s in if truthy s then rest else nat_beq (code c) b'/'

-- `s.replace("‘", "'").replace("’", "'")`
unfoldable pub plain_quotes : String → String
plain_quotes String.[] = ""
plain_quotes (String.◌∷◌ c s) =
    let rest = plain_quotes s in
    if nat_beq (code c) 8216 || nat_beq (code c) 8217 then "'" ++ rest else String.◌∷◌ c rest

abbrev pub is_quote : ℕ → Bool
is_quote n = nat_beq n b'\'' || nat_beq n b'"'

-- `[^'\"]*` and the quote after it, at the start of a text
unfoldable pub up_to_quote : String → Option String
up_to_quote String.[] = none
up_to_quote (String.◌∷◌ c s) =
    let rest = up_to_quote s in
    if is_quote (code c)
    then some ""
    else elim rest [ none ↦ none | some t ↦ some (String.◌∷◌ c t) ]

-- `['\"]([^'\"]+)['\"]` at the start of a text
unfoldable pub quoted : String → Option String
unfolding up_to_quote
quoted String.[] = none
quoted (String.◌∷◌ c s) =
    if is_quote (code c)
    then elim (up_to_quote s) [ none ↦ none | some t ↦ if truthy t then some t else none ]
    else none

-- `re.search` for a text and then `['\"]([^'\"]+)['\"]`: group 1 of the first match
unfoldable pub search_quoted : String → String → Option String
unfolding after_start quoted
search_quoted start String.[] = none
search_quoted start (String.◌∷◌ c s) =
    let later = search_quoted start s in
    elim (after_start start (String.◌∷◌ c s)) [
      | none ↦ later
      | some rest ↦ elim (quoted rest) [ none ↦ later | some t ↦ some t ]
    ]
