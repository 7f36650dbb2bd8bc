-- ===== src/Matcher/Query.antt =====
-- ParseQuery of storage/matcher/parser.go.
use mock_my_mta.Base.{
  Text, lit, ◌==◌, ◌≡◌, refl, ap, ◌∙◌, List, [], ◌∷◌, ◌++◌, Bool, true, not, if◌then◌else◌, keep,
  arith, Outcome, ok, err, Error, invalid_query, ◌>>=◌, All, member, is_ok, all, eqb, map,
}
use mock_my_mta.Base.Texts.{join}
use mock_my_mta.Std.{Std}
use mock_my_mta.Matcher.{
  Matcher, mailbox, attachment, plain_text, before, after, from, newer_than, older_than, subject,
}
use mock_my_mta.Matcher.Age.{parse_custom_duration}
use mock_my_mta.Matcher.Tokens.{tokenize_query, quote_mark, in_quotes}
use mock_my_mta.Matcher.Tokens.Quoted.{inside, tokenize_query-quoted_colon}
use mock_my_mta.Matcher.Tokens.Words.{IsWord, tokenize_query-join}

-- Go's `x, err := …; if err != nil { return nil, other }`
abbrev or_fail {ℓ κ} : {A : Type ℓ} {B : Type κ} → Outcome A → Error → (A → B) → Outcome B
or_fail (ok a) e f = ok (f a)
or_fail (err _) e f = err e

module _ (std : Std) (query : Text) where
  abbrev invalid : Text → Text → Error
  invalid what value = invalid_query query (what ++ value)

  -- The matcher of a key and its value.
  unfoldable pub matcher_of : Text → Text → Outcome Matcher
  matcher_of key value =
      if key == lit "mailbox"
      then ok (mailbox value)
      else if key == lit "has"
      then (if value == lit "attachment"
          then ok attachment
          else err (invalid (lit "unknown search attribute for 'has': ") value))
      else if key == lit "before"
      then or_fail (std.parse_day value) (invalid (lit "invalid date format: ") value) before
      else if key == lit "after"
      then or_fail (std.parse_day value) (invalid (lit "invalid date format: ") value) after
      else if key == lit "from"
      then ok (from value)
      else if key == lit "older_than"
      then or_fail (parse_custom_duration std value)
          (invalid (lit "invalid duration format: ") value) older_than
      else if key == lit "newer_than"
      then or_fail (parse_custom_duration std value)
          (invalid (lit "invalid duration format: ") value) newer_than
      else if key == lit "subject"
      then ok (subject value)
      else err (invalid (lit "unknown search key: ") key)

  -- The loop over the keys, and the loop over the plain texts.
  unfoldable pub matchers_of_pairs : List (Text × Text) → Outcome (List Matcher)
  unfolding matcher_of
  matchers_of_pairs [] = ok []
  matchers_of_pairs ((key, value) ∷ pairs) =
      let rest = matchers_of_pairs pairs in matcher_of key value >>= λ m. rest >>= λ ms. ok (m ∷ ms)

abbrev pub not_empty : Text → Bool
not_empty t = not (t == [])

abbrev pub matchers_of_plains : List Text → List Matcher
matchers_of_plains texts = map plain_text (keep not_empty texts)

abbrev query_result : Std → Text → List (Text × Text) × List Text → Outcome (List Matcher)
query_result std query (pairs, plains) =
    matchers_of_pairs std query pairs >>= λ ms. ok (ms ++ matchers_of_plains plains)

unfoldable pub parse_query : Std → Text → Outcome (List Matcher)
unfolding matchers_of_pairs
parse_query std query = query_result std query (tokenize_query query)

is_ok-bind :
    (r : Outcome (List Matcher)) (f : List Matcher → Outcome (List Matcher))
    → is_ok (r >>= f) ≡ true
    → is_ok r ≡ true
is_ok-bind (ok ms) f h = refl
is_ok-bind (err e) f h = h

module _ (std : Std) where
  abbrev pub known_keys : List Text
  known_keys =
      lit "mailbox"
      ∷ lit "has"
      ∷ lit "before"
      ∷ lit "after"
      ∷ lit "from"
      ∷ lit "older_than"
      ∷ lit "newer_than"
      ∷ lit "subject"
      ∷ []

  matcher_of-known :
      (query key value : Text)
      → is_ok (matcher_of std query key value) ≡ true
      → member key known_keys ≡ true
  unfolding matcher_of
  matcher_of-known query key value h = ground arith

  matchers_of_pairs-known :
      (query : Text) (pairs : List (Text × Text))
      → is_ok (matchers_of_pairs std query pairs) ≡ true
      → all (λ (p : Text × Text). member p.0 known_keys) pairs ≡ true
  unfolding matchers_of_pairs
  matchers_of_pairs-known query [] h = refl
  matchers_of_pairs-known query ((key, value) ∷ pairs) h =
      ground (arith, matcher_of-known query key value, matchers_of_pairs-known query pairs)

  -- A query that is accepted has only known keys.
  pub parse_query-known :
      (query : Text)
      → is_ok (parse_query std query) ≡ true
      → all (λ (p : Text × Text). member p.0 known_keys) (tokenize_query query).0 ≡ true
  unfolding parse_query
  parse_query-known query h = matchers_of_pairs-known query (tokenize_query query).0 (
      is_ok-bind (matchers_of_pairs std query (tokenize_query query).0)
        (λ ms. ok (ms ++ matchers_of_plains (tokenize_query query).1)) h)

  keep-words : (ws : List Text) → All IsWord ws → keep not_empty ws ≡ ws
  unfolding ◌==◌
  keep-words [] h = refl
  keep-words ([] ∷ ws) (h, hs) = absurd (omega arith)
  keep-words ((c ∷ w) ∷ ws) (h, hs) = ap (λ r. (c ∷ w) ∷ r) (keep-words ws hs)

  -- A query of words (not empty, with no white space, quotation mark or colon in them) that are
  -- joined by spaces is parsed to one plain text matcher for each word, in their order.
  pub parse_query-join :
      (ws : List Text)
      → All IsWord ws
      → parse_query std (join ws (lit " ")) ≡ ok (map plain_text ws)
  unfolding parse_query
  parse_query-join ws h =
      ap (query_result std (join ws (lit " "))) (tokenize_query-join ws h)
      ∙ ap (λ texts. ok (map plain_text texts)) (keep-words ws h)

  -- No key begins with a quotation mark.
  key_refused :
      (query pre value : Text)
      → query_result std query ((quote_mark ∷ pre, value) ∷ [], [])
        ≡ err (invalid_query query (lit "unknown search key: " ++ (quote_mark ∷ pre)))
  unfolding matchers_of_pairs ◌==◌
  key_refused query pre value = refl

  -- A phrase in quotation marks that has a colon in it, and no quotation mark, is refused: what
  -- stands before the colon, with the opening mark, is taken for a key.
  pub parse_query-quoted_colon :
      (pre post : Text)
      → all inside pre ≡ true
      → all inside post ≡ true
      → all (λ c. not (eqb c b':')) pre ≡ true
      → let query = in_quotes (pre ++ (b':' ∷ post)) in
        parse_query std query
        ≡ err (invalid_query query (lit "unknown search key: " ++ (quote_mark ∷ pre)))
  unfolding parse_query
  parse_query-quoted_colon pre post in_pre in_post no_colon =
      let query = in_quotes (pre ++ (b':' ∷ post)) in
      let (value, e) = tokenize_query-quoted_colon pre post in_pre in_post no_colon in
      ap (query_result std query) e ∙ key_refused query pre value
