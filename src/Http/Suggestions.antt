-- ===== src/Http/Suggestions.antt =====
-- http/filter_suggestions.go: the help on the filters of a search. The JSON encoding of the answer is
-- left out.
use mock_my_mta.Base.{
  ◌++◌, Text, lit, ◌==◌, ◌≡◌, refl, arith, List, [], ◌∷◌, true, if◌then◌else◌, all, map, member,
  is_ok,
}
use mock_my_mta.Base.Texts.{has_prefix}
use mock_my_mta.Std.{Std}
use mock_my_mta.Matcher.Tokens.{tokenize_query}
use mock_my_mta.Matcher.Query.{parse_query, known_keys, parse_query-known}

-- FilterSyntaxEntry
pub record FilterSyntaxEntry : Type 0 where
  pub command : Text
  pub suggestion : Text
  pub description : Text

abbrev entry : Text → Text → Text → FilterSyntaxEntry
entry command suggestion description = record {
  command = command;
  suggestion = suggestion;
  description = description;
}

-- How a duration is described.
abbrev of_duration : Text → Text
of_duration what =
    what
    ++ lit
        " than a duration (e.g., 7d, 2w, 1m, 1y). Supports d, w, month, y and Go's time.ParseDuration format (e.g. 24h, 720h)."

abbrev pub filter_syntax_entries : List FilterSyntaxEntry
filter_syntax_entries =
    entry (lit "mailbox") (lit "mailbox:<name>") (lit "Search for emails in a specific mailbox.")
    ∷ entry (lit "has") (lit "has:attachment") (lit "Search for emails that have attachments.")
    ∷ entry (lit "before") (lit "before:<YYYY-MM-DD>")
        (lit "Search for emails received before a specific date.")
    ∷ entry (lit "after") (lit "after:<YYYY-MM-DD>")
        (lit "Search for emails received after a specific date.")
    ∷ entry (lit "from") (lit "from:<email_address>")
        (lit "Search for emails from a specific sender.")
    ∷ entry (lit "subject") (lit "subject:<text>")
        (lit "Search for emails with specific text in the subject.")
    ∷ entry (lit "older_than") (lit "older_than:<duration>")
        (of_duration (lit "Search for emails older"))
    ∷ entry (lit "newer_than") (lit "newer_than:<duration>")
        (of_duration (lit "Search for emails newer"))
    ∷ []

-- What is answered: the suggestions for a term, or all entries.
pub data Answer : Type 0 where
  suggestions : List Text → Answer
  entries : List FilterSyntaxEntry → Answer

unfoldable pub matching : Std → Text → List FilterSyntaxEntry → List Text
matching std term [] = []
matching std term (e ∷ es) =
    let rest = matching std term es in
    if has_prefix (std.to_lower e.command) term then e.suggestion ∷ rest else rest

unfoldable pub get_filter_suggestions : Std → Text → Answer
unfolding matching
get_filter_suggestions std text =
    let term = std.to_lower text in
    if term == []
    then entries filter_syntax_entries
    else suggestions (matching std term filter_syntax_entries)

abbrev pub commands : List Text
commands = map (λ e. e.command) filter_syntax_entries

known-suggested :
    (std : Std) (key : Text) → member key (known_keys std) ≡ true → member key commands ≡ true
known-suggested std key h = ground arith

known-pairs :
    (std : Std) (pairs : List (Text × Text))
    → all (λ (p : Text × Text). member p.0 (known_keys std)) pairs ≡ true
    → all (λ (p : Text × Text). member p.0 commands) pairs ≡ true
known-pairs std [] h = refl
known-pairs std ((key, value) ∷ pairs) h =
    ground (arith, known-suggested std key, known-pairs std pairs)

-- Every filter of a query that is accepted is one that is suggested.
pub parse_query_suggested :
    (std : Std) (query : Text)
    → is_ok (parse_query std query) ≡ true
    → all (λ (p : Text × Text). member p.0 commands) (tokenize_query query).0 ≡ true
parse_query_suggested std query h =
    known-pairs std (tokenize_query query).0 (parse_query-known std query h)
