-- ===== src/Storage/Sqlite/Tests.antt =====
-- Runs of the theorems on a database with two emails, and on a cache that is loaded from it.
use mock_my_mta.Base.{Text, lit, ◌≡◌, refl, List, [], ◌∷◌, some, false, ok, err}
use mock_my_mta.Base.Dict.{Dict}
use mock_my_mta.Base.Int.{pos}
use mock_my_mta.Std.{Time}
use mock_my_mta.Std.Ascii.{ascii_std}
use mock_my_mta.Matcher.Query.{parse_query}
use mock_my_mta.Matcher.Tokens.{tokenize_query, find_all}
use mock_my_mta.Storage.{EmailHeader}
use mock_my_mta.Storage.Order.{sort}
use mock_my_mta.Storage.Layer.{Layer, all_emails}
use mock_my_mta.Storage.Memory.{Memory, empty, get_email_by_id, get_raw_email, get_attachments_of}
use mock_my_mta.Storage.Memory.Load.{load}
use mock_my_mta.Storage.Memory.Load.Mirror.{last_with, is_listed, header_or, answer, load-answers}
use mock_my_mta.Storage.Sqlite.{Row, Json, header_of, search_emails, search_all, sqlite_layer}
use mock_my_mta.Storage.Sqlite.Rows.{rows_database}

-- Lists are not read back here.
abbrev no_json : Json
no_json = record {
  marshal_addresses = λ l. [];
  unmarshal_addresses = λ s. [];
  marshal_texts = λ l. [];
  unmarshal_texts = λ s. [];
}

abbrev row_at : Text → Time → Row
row_at id date = record {
  id = id;
  sender_name = [];
  sender_address = lit "x";
  subject = lit "hello";
  date = date;
  has_attachments = false;
  preview = [];
  recipients_json = [];
  ccs_json = [];
  body_versions_json = [];
  raw_email = some (lit "hello");
}

abbrev two_rows : Dict Row
two_rows = (lit "a", row_at (lit "a") (pos 1)) ∷ (lit "b", row_at (lit "b") (pos 2)) ∷ []

abbrev database : Layer (Dict Row)
database = sqlite_layer rows_database no_json ascii_std (pos 0)

abbrev both : List EmailHeader
both =
    header_of no_json (row_at (lit "b") (pos 2)) ∷ header_of no_json (row_at (lit "a") (pos 1)) ∷ []

both_listed : all_emails database two_rows ≡ ok (some both)
unfolding search_emails search_all parse_query tokenize_query find_all sort header_of
both_listed = refl

abbrev loaded : Memory
loaded = elim (load database two_rows empty) as (λ _. Memory) [ ok m ↦ m | err e ↦ empty ]

it_loads : load database two_rows empty ≡ ok loaded
unfolding load search_emails search_all parse_query tokenize_query find_all sort
it_loads = refl

load-answers_example :
    (get_email_by_id loaded (lit "a")
      ≡ header_or database two_rows (lit "a") (last_with (lit "a") both))
    × (get_raw_email loaded (lit "a")
        ≡ answer database two_rows
            (lit "a")
            (lit "raw email")
            (is_listed (lit "a") both)
            (database.get_raw_email two_rows (lit "a")))
    × (get_attachments_of loaded (lit "a")
        ≡ answer database two_rows
            (lit "a")
            (lit "email")
            (is_listed (lit "a") both)
            (database.get_attachments two_rows (lit "a")))
load-answers_example = load-answers database two_rows (lit "a") both loaded both_listed it_loads
