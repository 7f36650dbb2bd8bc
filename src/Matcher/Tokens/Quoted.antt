-- ===== src/Matcher/Tokens/Quoted.antt =====
-- A quoted phrase as the only token of a query.
use mock_my_mta.Base.{
  Text, ◌≡◌, refl, ap, ◌∙◌, [], ◌∷◌, ◌++◌, some, Bool, true, not, eqb, ℕ, suc, length, all, arith,
}
use mathlib.Core.List.{append_assoc}
use mock_my_mta.Base.Texts.{split_at, trim_space}
use mock_my_mta.Matcher.Tokens.{
  quote_mark, closed, quoted, in_quotes, keyed, token_at, find_all, classify, classified, pair,
  tokens, tokenize_query, pairs_of, plains_of, unquoted,
}
use mock_my_mta.Matcher.Tokens.Progress.{span-append}

-- A byte inside quotation marks.
abbrev pub inside : ℕ → Bool
inside c = not (eqb c quote_mark)

quoted-in_quotes :
    (c : ℕ) (q : Text) → all inside (c ∷ q) ≡ true → quoted (in_quotes (c ∷ q)) ≡ some (c ∷ q, [])
unfolding quoted
quoted-in_quotes c q h = ap closed (span-append inside (c ∷ q) (quote_mark ∷ []) h refl)

-- A phrase in quotation marks is one match, the marks included.
pub token_at-in_quotes :
    (c : ℕ) (q : Text)
    → all inside (c ∷ q) ≡ true
    → token_at (in_quotes (c ∷ q)) ≡ (in_quotes (c ∷ q), [])
unfolding token_at
token_at-in_quotes c q h = rw (quoted-in_quotes c q h, keyed)

find_all-in_quotes :
    (f c : ℕ) (q : Text)
    → all inside (c ∷ q) ≡ true
    → find_all (suc (suc f)) (in_quotes (c ∷ q)) ≡ in_quotes (c ∷ q) ∷ []
unfolding find_all
find_all-in_quotes f c q h = rw (token_at-in_quotes c q h)

-- What stands before the first colon.
pub split_at-first :
    (b : ℕ) (pre post : Text)
    → all (λ c. not (eqb c b)) pre ≡ true
    → split_at b (pre ++ (b ∷ post)) ≡ some (pre, post)
unfolding split_at
split_at-first b [] post h = ground arith
split_at-first b (c ∷ pre) post h = ground (arith, split_at-first b pre post)

all-append : (p : ℕ → Bool) (s t : Text) → all p s ≡ true → all p t ≡ true → all p (s ++ t) ≡ true
all-append p [] t h k = k
all-append p (c ∷ s) t h k = ground (arith, all-append p s t)

classify-quoted_colon :
    (pre post : Text)
    → all (λ c. not (eqb c b':')) pre ≡ true
    → (value : Text) × (classify (in_quotes (pre ++ (b':' ∷ post))) ≡ pair (quote_mark ∷ pre) value)
unfolding classify
classify-quoted_colon pre post h =
    let split =
      ap (split_at b':')
        (ap (λ t. quote_mark ∷ t) (append_assoc pre (b':' ∷ post) (quote_mark ∷ [])))
      ∙ split_at-first b':' (quote_mark ∷ pre) (post ++ (quote_mark ∷ [])) h in
    (
      unquoted (trim_space (post ++ (quote_mark ∷ []))),
      ap (classified (in_quotes (pre ++ (b':' ∷ post)))) split,
    )

tokenize_query-one :
    (c : ℕ) (q k value : Text)
    → all inside (c ∷ q) ≡ true
    → classify (in_quotes (c ∷ q)) ≡ pair k value
    → tokenize_query (in_quotes (c ∷ q)) ≡ ((k, value) ∷ [], [])
unfolding tokenize_query tokens pairs_of plains_of
tokenize_query-one c q k value h e =
    ap (λ ms. (pairs_of (tokens ms), plains_of (tokens ms)))
      (find_all-in_quotes (length (q ++ (quote_mark ∷ []))) c q h)
    ∙ ap (λ t. (pairs_of (t ∷ []), plains_of (t ∷ []))) e

-- A phrase in quotation marks with a colon in it becomes a key, the opening mark included.
pub tokenize_query-quoted_colon :
    (pre post : Text)
    → all inside pre ≡ true
    → all inside post ≡ true
    → all (λ c. not (eqb c b':')) pre ≡ true
    → (value : Text) × (tokenize_query (in_quotes (pre ++ (b':' ∷ post)))
        ≡ ((quote_mark ∷ pre, value) ∷ [], []))
tokenize_query-quoted_colon [] post in_pre in_post no_colon =
    let (value, e) = classify-quoted_colon [] post no_colon in
    (value, tokenize_query-one b':' post (quote_mark ∷ []) value in_post e)
tokenize_query-quoted_colon (c ∷ pre) post in_pre in_post no_colon =
    let (value, e) = classify-quoted_colon (c ∷ pre) post no_colon in
    (
      value,
      tokenize_query-one c (pre ++ (b':' ∷ post)) (quote_mark ∷ c ∷ pre) value
          (all-append inside (c ∷ pre) (b':' ∷ post) in_pre in_post) e,
    )
