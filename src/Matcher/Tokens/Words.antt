-- ===== src/Matcher/Tokens/Words.antt =====
-- Words with a space between them come back from tokenizeQuery as plain texts.
use mock_my_mta.Base.{
  Text, lit, ◌≡◌, refl, ap, ap₂, ◌∙◌, sym, List, [], ◌∷◌, ◌++◌, none, Bool, true, false, not, ◌&&◌,
  eqb, ℕ, zero, suc, ◌≤◌, ◌<◌, length, length-append, all, All, arith,
}
use mathlib.Core.List.{append-nil}
use mock_my_mta.Base.Texts.{split_at, join, has_prefix}
use mock_my_mta.Matcher.Tokens.{
  is_blank, is_word, span, quote_mark, quoted, after_word, keyed, token_at, find_all, non_blank,
  classify, plain, tokens, tokenize_query, pairs_of, plains_of,
}

-- A byte of a word: no white space, no quotation mark, no colon.
abbrev pub plain_byte : ℕ → Bool
plain_byte c = not (is_blank c) && not (eqb c quote_mark) && not (eqb c b':')

-- A word is not empty.
abbrev pub IsWord : Text → Type 0
IsWord w = (all plain_byte w ≡ true) × (0 < length w)

-- Nothing, or what white space begins.
abbrev AtGap : Text → Type 0
AtGap [] = Unit
AtGap (c ∷ s) = is_blank c ≡ true

non_blank-append :
    (w rest : Text) → all plain_byte w ≡ true → AtGap rest → non_blank (w ++ rest) ≡ (w, rest)
unfolding span
non_blank-append [] [] h g = refl
non_blank-append [] (c ∷ rest) h g = rw g
non_blank-append (c ∷ w) rest h g = ground (arith, non_blank-append w rest)

word_of_blank : (c : ℕ) → is_blank c ≡ true → (is_word c ≡ false) × (eqb c b':' ≡ false)
word_of_blank c h = ground arith

word_end :
    (w rest : Text) (d : ℕ) (t : Text)
    → all plain_byte w ≡ true
    → AtGap rest
    → (span is_word (w ++ rest)).1 ≡ d ∷ t
    → eqb d b':' ≡ false
unfolding span
word_end [] [] d t h g e = cc
word_end [] (c ∷ rest) d t h g e = ground (arith, word_of_blank c g)
word_end (c ∷ w) rest d t h g e = ground (arith, word_end w rest d t)

after_word-none :
    (front rest : Text)
    → ((d : ℕ) (t : Text) → rest ≡ d ∷ t → eqb d b':' ≡ false)
    → after_word (front, rest) ≡ none
after_word-none [] rest h = refl
after_word-none (w ∷ ws) [] h = refl
after_word-none (w ∷ ws) (c ∷ rest) h = rw (h c rest refl)

quoted-none : (w rest : Text) → IsWord w → quoted (w ++ rest) ≡ none
unfolding quoted
quoted-none [] rest h = absurd (omega arith)
quoted-none (c ∷ w) rest h = ground arith

token_at-word : (w rest : Text) → IsWord w → AtGap rest → token_at (w ++ rest) ≡ (w, rest)
unfolding token_at
token_at-word w rest (h, pos) g =
    let no_key =
      after_word-none (span is_word (w ++ rest)).0 (span is_word (w ++ rest)).1
        (λ d t e. word_end w rest d t h g e) in
    ap (keyed (w ++ rest)) no_key
    ∙ rw (quoted-none w rest (h, pos), keyed) (non_blank-append w rest h g)

split_at-word : (w : Text) → all plain_byte w ≡ true → split_at b':' w ≡ none
unfolding split_at
split_at-word [] h = refl
split_at-word (c ∷ w) h = ground (arith, split_at-word w)

classify-word : (w : Text) → IsWord w → classify w ≡ plain w
unfolding classify has_prefix
classify-word [] h = absurd (omega arith)
classify-word (c ∷ w) (h, pos) = rw (split_at-word (c ∷ w) h, classify) (ground arith)

find_all-gap :
    (f : ℕ) (w rest : Text)
    → IsWord w
    → AtGap rest
    → find_all (suc f) (w ++ rest) ≡ w ∷ find_all f rest
unfolding find_all
find_all-gap f [] rest h g = absurd (omega arith)
find_all-gap f (c ∷ w) rest h g =
    let not_blank : is_blank c ≡ false = ground arith in
    rw not_blank (rw (token_at-word (c ∷ w) rest h g))

find_all-nil : (f : ℕ) → find_all f [] ≡ []
unfolding find_all
find_all-nil zero = refl
find_all-nil (suc f) = refl

find_all-skip : (f : ℕ) (s : Text) → find_all (suc f) (32 ∷ s) ≡ find_all f s
unfolding find_all
find_all-skip f s = refl

find_all-join :
    (ws : List Text) (f : ℕ)
    → All IsWord ws
    → length (join ws (lit " ")) ≤ f
    → find_all f (join ws (lit " ")) ≡ ws
unfolding join
find_all-join [] f h le = find_all-nil f
find_all-join (w ∷ []) zero (h, hs) le = absurd (omega arith)
find_all-join (w ∷ []) (suc f) (h, hs) le =
    ap (find_all (suc f)) (sym (append-nil w))
    ∙ find_all-gap f w [] h tt
    ∙ ap (λ r. w ∷ r) (find_all-nil f)
find_all-join (w ∷ v ∷ ws) zero (h, hs) le =
    absurd (omega (arith, length-append w (32 ∷ join (v ∷ ws) (lit " "))))
find_all-join (w ∷ v ∷ ws) (suc zero) (h, hs) le =
    absurd (omega (arith, length-append w (32 ∷ join (v ∷ ws) (lit " "))))
find_all-join (w ∷ v ∷ ws) (suc (suc f)) (h, hs) le =
    find_all-gap (suc f) w (32 ∷ join (v ∷ ws) (lit " ")) h refl
    ∙ ap (λ r. w ∷ r)
        (find_all-skip f (join (v ∷ ws) (lit " "))
          ∙ find_all-join (v ∷ ws) f hs
              (omega (arith, length-append w (32 ∷ join (v ∷ ws) (lit " ")))))

tokens-words :
    (ws : List Text) → All IsWord ws → (pairs_of (tokens ws) ≡ []) × (plains_of (tokens ws) ≡ ws)
unfolding tokens pairs_of plains_of
tokens-words [] h = (refl, refl)
tokens-words (w ∷ ws) (h, hs) =
    let (no_pairs, same) = tokens-words ws hs in rw classify-word (no_pairs, ap (λ r. w ∷ r) same)

-- Words (not empty, with no white space, quotation mark or colon in them) that are joined by
-- spaces come back as the plain texts of the query, in their order, and there is no key.
pub tokenize_query-join :
    (ws : List Text) → All IsWord ws → tokenize_query (join ws (lit " ")) ≡ ([], ws)
unfolding tokenize_query
tokenize_query-join ws h =
    let query = join ws (lit " ") in
    let (no_pairs, same) = tokens-words ws h in
    rw (find_all-join ws (length query) h (omega arith)) (ap₂ (λ a b. (a, b)) no_pairs same)
