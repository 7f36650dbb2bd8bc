-- ===== src/Matcher/Tests.antt =====
-- Runs of the theorems on search queries, with a stand-in for the packages.
use mock_my_mta.Base.{
  Text, lit, ◌==◌, ◌≡◌, refl, List, [], ◌∷◌, ◌++◌, some, true, not, ◌*◌, length, map, keep, all,
  All, itoa, ok, err, invalid_query, arith,
}
use mock_my_mta.Base.Dict.{lookup}
use mock_my_mta.Base.Int.{pos}
use mock_my_mta.Base.Texts.{join}
use mock_my_mta.Std.Ascii.{ascii_std}
use mock_my_mta.Matcher.{plain_text}
use mock_my_mta.Matcher.Age.{hour, unit_of, parse_custom_duration, parse_custom_duration_exact}
use mock_my_mta.Matcher.Query.{parse_query, parse_query-join, parse_query-quoted_colon}
use mock_my_mta.Matcher.Tokens.{find_all, is_blank, quote_mark, in_quotes}
use mock_my_mta.Matcher.Tokens.Progress.{joined, joined-find_all}
use mock_my_mta.Matcher.Tokens.Words.{IsWord}
use mock_my_mta.Matcher.Tokens.Quoted.{inside}

abbrev mixed : Text
mixed = lit "from:bob " ++ (quote_mark ∷ (lit "a b" ++ (quote_mark ∷ [])))

joined-find_all_example :
    keep (λ c. not (is_blank c)) (joined (find_all (length mixed) mixed))
    ≡ keep (λ c. not (is_blank c)) mixed
joined-find_all_example = joined-find_all mixed

abbrev words : List Text
words = lit "hello" ∷ lit "world" ∷ []

words-IsWord : All IsWord words
words-IsWord = ((refl, omega arith), ((refl, omega arith), tt))

parse_query-join_example : parse_query ascii_std (join words (lit " ")) ≡ ok (map plain_text words)
parse_query-join_example = parse_query-join ascii_std words words-IsWord

before-inside : all inside (lit "Re") ≡ true
before-inside = refl

behind-inside : all inside (lit " hi") ≡ true
behind-inside = refl

parse_query-quoted_colon_example :
    let query = in_quotes (lit "Re" ++ (58 ∷ lit " hi")) in
    parse_query ascii_std query
    ≡ err (invalid_query query (lit "unknown search key: " ++ (quote_mark ∷ lit "Re")))
parse_query-quoted_colon_example =
    parse_query-quoted_colon ascii_std (lit "Re") (lit " hi") before-inside behind-inside refl

days : unit_of (lit "d") ≡ some 24
unfolding unit_of lookup ◌==◌
days = refl

parse_custom_duration_exact_example :
    parse_custom_duration ascii_std (itoa 7 ++ lit "d") ≡ ok (pos (7 * 24 * hour))
parse_custom_duration_exact_example =
    parse_custom_duration_exact ascii_std 7 24 (lit "d") days (omega arith) (omega arith)
