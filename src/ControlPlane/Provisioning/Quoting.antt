-- ===== src/ControlPlane/Provisioning/Quoting.antt =====
-- `_shell_single_quote` of control_plane/services/provisioning.py and the environment file that
-- `build_jenkins_cloud_init_user_data` writes for the guest, whose shell reads it back.
use Prim.Native.Char.{Char, char, code}
use text.Mathlib.TextEquality.{Char-path}
use jenkins_qemu_provisioner.Prelude.{
  String, ◌≡◌, refl, ap, sym, Option, none, some, [], ◌∷◌, concat, ◌==◌, nat_eq, nat_beq_iff,
  Bool-cases, inl, inr, if◌then◌else◌, truthy, not, ◌&&◌,
}

abbrev apostrophe : Char
apostrophe = char 39 tt

abbrev quotation : Char
quotation = char 34 tt

-- `value.replace("'", "'\"'\"'")`, before the rest of the text
escape : String → String → String
escape String.[] rest = rest
escape (String.◌∷◌ c s) rest =
    let more = escape s rest in
    if code c == 39
    then String.◌∷◌ apostrophe (
        String.◌∷◌ quotation
          (String.◌∷◌ apostrophe (String.◌∷◌ quotation (String.◌∷◌ apostrophe more))))
    else String.◌∷◌ c more

unfoldable pub shell_single_quote : String → String
unfolding escape
shell_single_quote s = String.◌∷◌ apostrophe (escape s (String.◌∷◌ apostrophe ""))

-- `jenkins_url.rstrip("/")`
unfoldable pub strip_slashes : String → String
strip_slashes String.[] = ""
strip_slashes (String.◌∷◌ c s) =
    let rest = strip_slashes s in
    if not (truthy rest) && code c == b'/' then "" else String.◌∷◌ c rest

-- `env_file`, where no value has a line break: `textwrap.dedent` then takes off the indentation of
-- the source alone.
pub env_file : String → String → String → String → String → String
unfolding shell_single_quote strip_slashes
env_file jenkins_url node secret transport tmpdir = concat (
    "JENKINS_URL="
    ∷ shell_single_quote (strip_slashes jenkins_url)
    ∷ "\nJENKINS_NODE_NAME="
    ∷ shell_single_quote node
    ∷ "\nJENKINS_JNLP_SECRET="
    ∷ shell_single_quote secret
    ∷ "\nJENKINS_AGENT_TRANSPORT="
    ∷ shell_single_quote transport
    ∷ "\nJENKINS_AGENT_TMPDIR="
    ∷ shell_single_quote tmpdir
    ∷ "\n"
    ∷ [])

-- How a POSIX shell reads a word made of quoted parts: outside quotes, between apostrophes, where
-- every character stands for itself, or between quotation marks, where `$`, a backquote and `\` have
-- a meaning of their own. `none`: the word is not of this form.
pub data Mode : Type 0 where
  outside single double : Mode

pub read_word : Mode → String → Option String
read_word outside String.[] = some ""
read_word single String.[] = none
read_word double String.[] = none
read_word outside (String.◌∷◌ c s) =
    let in_single = read_word single s in
    let in_double = read_word double s in
    if code c == 39 then in_single else if code c == 34 then in_double else none
read_word single (String.◌∷◌ c s) =
    let closed = read_word outside s in
    let rest = read_word single s in
    if code c == 39 then closed else elim rest [ none ↦ none | some t ↦ some (String.◌∷◌ c t) ]
read_word double (String.◌∷◌ c s) =
    let closed = read_word outside s in
    let rest = read_word double s in
    if code c == 34
    then closed
    else if code c == 36
    then none
    else if code c == 96
    then none
    else if code c == 92
    then none
    else elim rest [ none ↦ none | some t ↦ some (String.◌∷◌ c t) ]

-- Inside apostrophes, an escaped text is read as the text.
read_word-escape : (s : String) → read_word single (escape s (String.◌∷◌ apostrophe "")) ≡ some s
unfolding read_word escape
read_word-escape String.[] = refl
read_word-escape (String.◌∷◌ c s) = elim (Bool-cases (code c == 39)) [
  | inl quote ↦
      let same : c ≡ apostrophe = Char-path c apostrophe ((nat_beq_iff (code c) 39).0 quote) in
      rw quote (rw (read_word-escape s) (ap (λ d. some (String.◌∷◌ d s)) (sym same)))
  | inr plain ↦ rw plain (rw plain (rw (read_word-escape s)))
]

-- Whatever the value holds, the shell reads the quoted value back as that value.
pub read_word-shell_single_quote : (s : String) → read_word outside (shell_single_quote s) ≡ some s
unfolding read_word shell_single_quote
read_word-shell_single_quote s = read_word-escape s
