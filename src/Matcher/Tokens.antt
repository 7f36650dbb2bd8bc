-- ===== src/Matcher/Tokens.antt =====
-- tokenizeQuery of storage/matcher/parser.go. The pattern
-- (\w+:\s*"[^"]+"|\w+:\s*\S+|"[^"]+"|\S+) is matched from left to right: no alternative begins
-- with white space and the last one takes any other byte, so that a match begins at each byte that
-- is no white space and that no match before it has taken.
pub mod Progress
pub mod Words
pub mod Quoted
use mock_my_mta.Base.{
  Text, lit, ◌==◌, List, [], ◌∷◌, ◌++◌, Option, none, some, Bool, true, false, not, ◌&&◌, ◌||◌,
  if◌then◌else◌, eqb, leb, ltb, ℕ, zero, suc, length,
}
use mock_my_mta.Base.Texts.{has_prefix, has_suffix, trim_space, trim_byte, split_at}

-- \s and \w of package regexp
abbrev pub is_blank : ℕ → Bool
is_blank c = eqb c 9 || eqb c 10 || eqb c 12 || eqb c 13 || eqb c 32

abbrev pub is_word : ℕ → Bool
is_word c =
    leb b'0' c && leb c b'9' || leb b'A' c && leb c b'Z' || leb b'a' c && leb c b'z' || eqb c b'_'

-- The longest front whose bytes pass the test, and the rest.
unfoldable pub span : (ℕ → Bool) → Text → Text × Text
span p [] = ([], [])
span p (c ∷ s) = let (front, rest) = span p s in if p c then (c ∷ front, rest) else ([], c ∷ s)

abbrev pub quote_mark : ℕ
quote_mark = b'"'

-- [^"]+" behind a quotation mark: the text, and what follows the closing mark.
abbrev closed : Text × Text → Option (Text × Text)
closed ([], rest) = none
closed (q ∷ qs, []) = none
closed (q ∷ qs, c ∷ rest) = some (q ∷ qs, rest)

unfoldable pub quoted : Text → Option (Text × Text)
unfolding span
quoted [] = none
quoted (c ∷ s) = if eqb c quote_mark then closed (span (λ b. not (eqb b quote_mark)) s) else none

-- "[^"]+"
abbrev pub in_quotes : Text → Text
in_quotes q = quote_mark ∷ (q ++ (quote_mark ∷ []))

-- \S+
abbrev non_blank : Text → Text × Text
non_blank s = span (λ c. not (is_blank c)) s

-- \w+: where it fits: the word with the colon, and the rest.
abbrev after_word : Text × Text → Option (Text × Text)
after_word ([], rest) = none
after_word (w ∷ ws, []) = none
after_word (w ∷ ws, c ∷ rest) = if eqb c b':' then some ((w ∷ ws) ++ (b':' ∷ []), rest) else none

-- \S+ behind the word, or else all of \S+
abbrev plain_value : Text → Text → Text × Text → Text × Text
plain_value s head ([], rest) = non_blank s
plain_value s head (v ∷ vs, rest) = (head ++ (v ∷ vs), rest)

abbrev keyed_value : Text → Text → Text → Option (Text × Text) → Text × Text
keyed_value s head r none = plain_value s head (non_blank r)
keyed_value s head r (some (q, rest)) = (head ++ in_quotes q, rest)

abbrev keyed : Text → Option (Text × Text) → Text × Text
keyed s none = elim (quoted s) [ none ↦ non_blank s | some (q, rest) ↦ (in_quotes q, rest) ]
keyed s (some (word, r)) =
    let (blanks, r') = span is_blank r in keyed_value s (word ++ blanks) r' (quoted r')

-- The match that begins at the front of a text, and what follows it.
unfoldable pub token_at : Text → Text × Text
unfolding span quoted
token_at s = keyed s (after_word (span is_word s))

-- re.FindAllString: each round drops a byte at least, so the length is fuel enough.
unfoldable pub find_all : ℕ → Text → List Text
unfolding token_at
find_all zero s = []
find_all (suc f) [] = []
find_all (suc f) (c ∷ s) =
    let skip = find_all f s in
    let next = find_all f (token_at (c ∷ s)).1 in
    if is_blank c then skip else (token_at (c ∷ s)).0 ∷ next

abbrev in_marks : Text → Bool
in_marks s = has_prefix s (quote_mark ∷ []) && has_suffix s (quote_mark ∷ [])

-- A key with its value, or a plain text.
pub data Token : Type 0 where
  pair : Text → Text → Token
  plain : Text → Token

abbrev unquoted : Text → Text
unquoted s = if in_marks s then trim_byte quote_mark s else s

abbrev classified : Text → Option (Text × Text) → Token
classified s (some (key, value)) = pair key (unquoted (trim_space value))
classified s none = plain (unquoted s)

unfoldable pub classify : Text → Token
unfolding has_prefix has_suffix trim_space trim_byte split_at
classify s = classified s (split_at b':' s)

unfoldable pub tokens : List Text → List Token
unfolding classify
tokens [] = []
tokens (m ∷ ms) = classify m ∷ tokens ms

-- The two results of tokenizeQuery, from the tokens in order.
unfoldable pub pairs_of : List Token → List (Text × Text)
pairs_of [] = []
pairs_of (pair k v ∷ ts) = (k, v) ∷ pairs_of ts
pairs_of (plain t ∷ ts) = pairs_of ts

unfoldable pub plains_of : List Token → List Text
plains_of [] = []
plains_of (pair k v ∷ ts) = plains_of ts
plains_of (plain t ∷ ts) = t ∷ plains_of ts

unfoldable pub tokenize_query : Text → List (Text × Text) × List Text
unfolding find_all tokens pairs_of plains_of
tokenize_query query =
    let ts = tokens (find_all (length query) query) in (pairs_of ts, plains_of ts)
