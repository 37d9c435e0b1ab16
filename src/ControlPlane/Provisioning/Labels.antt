-- ===== src/ControlPlane/Provisioning/Labels.antt =====
-- `normalize_node_label` of control_plane/services/provisioning.py: the words of a label expression.
use Prim.Native.Char.{Char, code}
use jenkins_qemu_provisioner.Prelude.{
  refl, arith, All, In, inl, inr, Bool-cases, eq_iff, ℕ, ◌+◌, String, Bool, true, false, ◌≡◌, not,
  ◌&&◌, ◌||◌, List, [], ◌∷◌, ◌++◌, map, codes, join, contains, leb, truthy, ◌==◌, nat_eq, string_eq,
  if◌then◌else◌,
}

-- `[A-Za-z0-9_.:-]`
abbrev pub is_word_code : ℕ → Bool
is_word_code n =
    (leb b'A' n && leb n b'Z')
    || (leb b'a' n && leb n b'z')
    || (leb b'0' n && leb n b'9')
    || n == b'_'
    || n == b'.'
    || n == b':'
    || n == b'-'

-- A character in front of the first token.
extend : Char → List String → List String
extend c [] = String.◌∷◌ c "" ∷ []
extend c (t ∷ ts) = String.◌∷◌ c t ∷ ts

-- `re.split(r"[^A-Za-z0-9_.:-]+", label)`, with an empty token more for each further separator in a
-- row: the loop below skips empty tokens.
unfoldable pub tokens : String → List String
unfolding extend
tokens String.[] = "" ∷ []
tokens (String.◌∷◌ c s) =
    let rest = tokens s in if is_word_code (code c) then extend c rest else "" ∷ rest

lower_code : ℕ → ℕ
lower_code n = if leb b'A' n && leb n b'Z' then n + 32 else n

same_codes : List ℕ → List ℕ → Bool
same_codes [] [] = true
same_codes (m ∷ ms) (n ∷ ns) = m == n && same_codes ms ns
same_codes _ _ = false

-- `token.lower() == word`, where a token is ASCII
lowers_to : String → String → Bool
unfolding lower_code same_codes
lowers_to token word = same_codes (map lower_code (codes token)) (codes word)

-- `token.lower() in {"and", "or", "not", "true", "false"}`
unfoldable pub is_operator : String → Bool
unfolding lowers_to
is_operator token =
    lowers_to token "and"
    || lowers_to token "or"
    || lowers_to token "not"
    || lowers_to token "true"
    || lowers_to token "false"

-- the loop, on the tokens left and the list `cleaned`
clean : List String → List String → List String
clean [] cleaned = cleaned
clean (token ∷ rest) cleaned = clean rest (
    if not (truthy token) || is_operator token || contains cleaned token
    then cleaned
    else cleaned ++ token ∷ [])

unfoldable pub words : String → List String
unfolding clean tokens is_operator
words label = clean (tokens label) []

unfoldable pub normalize_node_label : String → String
unfolding words
normalize_node_label label = elim (words label) [ [] ↦ "ephemeral" | w ∷ ws ↦ join " " (w ∷ ws) ]

-- A token that names a label: it is not empty and no operator or constant of the expression.
abbrev pub IsLabel : String → Type 0
IsLabel t = (truthy t ≡ true) × (is_operator t ≡ false)

abbrev pub Distinct : List String → Type 0
Distinct [] = Unit
Distinct (t ∷ ts) = (contains ts t ≡ false) × Distinct ts

abbrev pub HasWordCodes : String → Type 0
HasWordCodes String.[] = Unit
HasWordCodes (String.◌∷◌ c s) = (is_word_code (code c) ≡ true) × HasWordCodes s

tokens-HasWordCodes : (s : String) → All HasWordCodes (tokens s)
unfolding tokens
tokens-HasWordCodes String.[] = (tt, tt)
tokens-HasWordCodes (String.◌∷◌ c s) =
    let ih = tokens-HasWordCodes s in
    elim (Bool-cases (is_word_code (code c))) [
      | inl word ↦ rw word (extend_all (tokens s) word ih)
      | inr separator ↦ rw separator (tt, ih)
    ]
  where
    extend_all :
        (ts : List String)
        → is_word_code (code c) ≡ true
        → All HasWordCodes ts
        → All HasWordCodes (extend c ts)
    extend_all [] e h = ((e, tt), tt)
    extend_all (t ∷ ts) e h = ((e, h.0), h.1)

-- What the loop keeps of the tokens that it has taken.
record IsClean (cleaned : List String) : Type 0 where
  labels : All IsLabel cleaned
  written : All HasWordCodes cleaned
  distinct : Distinct cleaned

contains-append :
    (xs : List String) (a b : String) → contains (xs ++ a ∷ []) b ≡ (contains xs b || a == b)
contains-append [] a b = ground arith
contains-append (x ∷ xs) a b = ground (arith, contains-append xs a b)

All-append {ℓ} :
    (P : String → Type ℓ) (xs : List String) (a : String) → All P xs → P a → All P (xs ++ a ∷ [])
All-append P [] a h p = (p, tt)
All-append P (x ∷ xs) a h p = (h.0, All-append P xs a h.1 p)

Distinct-append :
    (xs : List String) (a : String) → Distinct xs → contains xs a ≡ false → Distinct (xs ++ a ∷ [])
Distinct-append [] a h new = (refl, tt)
Distinct-append (x ∷ xs) a h new = (
  ground (arith, contains-append xs a x, eq_iff a x, eq_iff x a),
  Distinct-append xs a h.1 (ground arith),
)

clean-IsClean :
    (ts cleaned : List String) → All HasWordCodes ts → IsClean cleaned → IsClean (clean ts cleaned)
unfolding clean
clean-IsClean [] cleaned w h = h
clean-IsClean (t ∷ ts) cleaned w h =
    elim (Bool-cases (not (truthy t) || is_operator t || contains cleaned t)) [
      | inl skip ↦ rw skip (clean-IsClean ts cleaned w.1 h)
      | inr keep ↦ rw keep (clean-IsClean ts (cleaned ++ t ∷ []) w.1 (added keep))
    ]
  where
    added :
        (not (truthy t) || is_operator t || contains cleaned t) ≡ false
        → IsClean (cleaned ++ t ∷ [])
    added keep = record {
      labels = All-append IsLabel cleaned t h.labels (ground arith, ground arith);
      written = All-append HasWordCodes cleaned t h.written w.0;
      distinct = Distinct-append cleaned t h.distinct (ground arith);
    }

-- The words of a node label are plain words, none empty or an operator of label expressions, and no
-- word stands twice.
pub words_clean :
    (label : String)
    → All IsLabel (words label) × All HasWordCodes (words label) × Distinct (words label)
unfolding words
words_clean label =
    let c = clean-IsClean (tokens label) [] (tokens-HasWordCodes label) start in
    (c.labels, c.written, c.distinct)
  where
    start : IsClean []
    start = record { labels = tt; written = tt; distinct = tt }

clean_keeps :
    (ts cleaned : List String) (a : String)
    → contains cleaned a ≡ true
    → contains (clean ts cleaned) a ≡ true
unfolding clean
clean_keeps [] cleaned a h = h
clean_keeps (t ∷ ts) cleaned a h =
    elim (Bool-cases (not (truthy t) || is_operator t || contains cleaned t)) [
      | inl skip ↦ rw skip (clean_keeps ts cleaned a h)
      | inr keep ↦
          rw keep
            (clean_keeps ts (cleaned ++ t ∷ []) a (ground (arith, contains-append cleaned t a)))
    ]

clean_takes :
    (ts cleaned : List String) (a : String)
    → In a ts
    → IsLabel a
    → contains (clean ts cleaned) a ≡ true
unfolding clean
clean_takes [] cleaned a m l = absurd m
clean_takes (t ∷ ts) cleaned a (inr m) l = clean_takes ts _ a m l
clean_takes (t ∷ ts) cleaned a (inl e) l =
    clean_keeps ts _ a (ground (arith, contains-append cleaned t a, eq_iff t a))

-- No word of the label is lost: each of its tokens that names a label is among the words.
pub words_complete :
    (label t : String) → In t (tokens label) → IsLabel t → contains (words label) t ≡ true
unfolding words
words_complete label t = clean_takes (tokens label) [] t
