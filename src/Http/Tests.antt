-- ===== src/Http/Tests.antt =====
-- Runs of the theorems on the settings that the server starts with.
use mock_my_mta.Base.{
  Text, lit, ◌==◌, ◌≡◌, refl, List, [], ◌∷◌, none, some, true, false, ok, ℕ, length, member, arith,
  map, ◌++◌, keep, eqb, Bool, is_ok, all,
}
use mathlib.Core.List.{Perm}
use mock_my_mta.Base.Dict.{insert, lookup, keys}
use mock_my_mta.Base.Int.{pos}
use mock_my_mta.Std.{RawHeaders}
use mock_my_mta.Std.Ascii.{ascii_std}
use mock_my_mta.Multipart.{new_headers, get_values, get_header_value, get_content_type, leaf}
use mock_my_mta.Multipart.Parse.{parse_email, new, parse_mail, read_leaf}
use mock_my_mta.Storage.{EmailHeader, new_email_header}
use mock_my_mta.Http.Wait.{
  found, Found, tick, deadline, find_matching, wait_for_email, is_waiting, wait_for_email-ends,
  wait_for_email-found,
}
use mock_my_mta.Matcher.Query.{parse_query, matchers_of_pairs, matcher_of}
use mock_my_mta.Matcher.Tokens.{
  tokenize_query, find_all, token_at, classify, tokens, pairs_of, plains_of, span, quoted,
}
use mock_my_mta.Http.Suggestions.{commands, parse_query_suggested}
use mock_my_mta.Storage.Memory.{Memory, empty, store, set_with_id, get_email_by_id, memory_layer}
use mock_my_mta.Smtp.{Relay}
use mock_my_mta.Http.Server.{Services, all_deleted}
use mock_my_mta.Http.StandIns.{stand_ins, serving}
use mock_my_mta.Http.Bulk.{RelayRequest, no_results, delete_each, relay_each}
use mock_my_mta.Http.Bulk.Results.{
  by_outcome, deletes, outcomes, mails, delete_each-by_outcome, relay_each-by_outcome,
}
use mock_my_mta.Http.Listing.{pagination}
use mock_my_mta.Http.Static.{serve_static, serve_file, IsNamed, serve_static-IsNamed}
use mock_my_mta.Http.Listing.Pages.{fetch, fetch-total_pages}
use mock_my_mta.Http.Requests.{Request, show_email, mark_read, delete_email, run}
use mock_my_mta.Http.Requests.ReadMarks.{read_after, read_trace, run-read_trace}
use mock_my_mta.Http.Hub.{Hub, new_hub, join, broadcast}
use mock_my_mta.Http.Hub.Clients.{broadcast-clients}
use mock_my_mta.Http.Rewrite.{header_entries}
use mock_my_mta.Http.Rewrite.Lines.{all_entries, DistinctHeaders, header_entries-perm}

-- A memory layer, and one with an email.
abbrev memories : Services Memory
memories = stand_ins (memory_layer ascii_std (pos 0))

abbrev one_email : Memory
one_email = (set_with_id ascii_std empty (lit "a") (lit "hello")).0

abbrev opened_then_deleted : List Request
opened_then_deleted =
    show_email (lit "a") ∷ mark_read (ok (lit "b" ∷ [])) ∷ delete_email (lit "a") ∷ []

run-read_trace_example :
    member (lit "a") (run memories (serving one_email) opened_then_deleted).read_emails
    ≡ read_trace memories (serving one_email) opened_then_deleted (lit "a") false
run-read_trace_example = run-read_trace memories (serving one_email) opened_then_deleted (lit "a")

-- The mark outlives the email.
read_after_delete :
    read_trace memories (serving one_email) opened_then_deleted (lit "a") false ≡ true
unfolding read_trace read_after set_with_id get_email_by_id parse_email new parse_mail read_leaf
    new_headers get_content_type get_header_value get_values store lookup insert ◌==◌
read_after_delete = refl

abbrev known_and_not : List Text
known_and_not = lit "a" ∷ lit "b" ∷ []

delete_each-by_outcome_example : delete_each memories known_and_not one_email no_results ≡ (
  (deletes memories known_and_not one_email).0,
  by_outcome (deletes memories known_and_not one_email).1,
)
delete_each-by_outcome_example = delete_each-by_outcome memories known_and_not one_email

abbrev relay : Relay
relay = record {
  enabled = true;
  auto_relay = false;
  addr = lit "mx:25";
  username = [];
  password = [];
  mechanism = lit "NONE";
}

abbrev to_y : RelayRequest
to_y = record { relay_name = lit "r"; sender = lit "x"; recipients = lit "y" ∷ [] }

relay_each-by_outcome_example :
    relay_each memories relay to_y one_email known_and_not no_results [] ≡ (
      by_outcome (outcomes memories relay to_y one_email known_and_not),
      mails memories relay to_y one_email known_and_not,
    )
relay_each-by_outcome_example = relay_each-by_outcome memories relay to_y one_email known_and_not

abbrev three : List ℕ
three = 1 ∷ 2 ∷ 3 ∷ []

fetch-total_pages_example : fetch three 0 (pagination (pos 1) (length three)).total_pages ≡ ok three
fetch-total_pages_example = fetch-total_pages three (pos 1) (omega arith)

-- Nobody has an email until the second tick.
wait_for_email-ends_example :
    is_waiting memories false
      (lit "host")
      []
      (wait_for_email memories false (lit "host") [] (lit "1s") empty (tick empty ∷ deadline ∷ []))
    ≡ false
wait_for_email-ends_example =
    wait_for_email-ends memories false (lit "host") [] (lit "1s") empty (tick empty ∷ deadline ∷ [])
      refl

abbrev hello_header : EmailHeader
hello_header = new_email_header ascii_std (lit "a") (
    leaf (record {
      headers = (lit "content-type", lit "text/plain; charset=us-ascii" ∷ []) ∷ [];
      body = lit "hello";
    }))

abbrev hello_found : Found
hello_found = record { email = hello_header; total_matches = 1; url = lit "http://host/#/email/a" }

-- A storage that finds every email.
abbrev find_everything : Services Memory
find_everything = record memories {
  storage = record (memory_layer ascii_std (pos 0)) {
    search_emails = λ m query page size. ok (map (λ e. e.1) m.headers, length m.headers);
  };
}

abbrev one_header : Memory
one_header = record empty { headers = (lit "a", hello_header) ∷ [] }

nothing_yet : find_matching find_everything false (lit "host") [] empty ≡ ok none
unfolding find_matching
nothing_yet = refl

there_now : find_matching find_everything false (lit "host") [] one_header ≡ ok (some hello_found)
unfolding find_matching new_email_header
there_now = refl

wait_for_email-found_example :
    wait_for_email find_everything false
      (lit "host")
      []
      (lit "1s")
      empty
      (map tick (empty ∷ one_header ∷ []) ++ (deadline ∷ []))
    ≡ found hello_found
wait_for_email-found_example =
    wait_for_email-found find_everything false (lit "host") [] (lit "1s") (pos 0)
      (empty ∷ empty ∷ []) one_header (deadline ∷ []) hello_found refl
      (nothing_yet, (nothing_yet, tt)) there_now

-- Two clients, the second of which cannot be written to.
abbrev two_clients : Hub
two_clients = join 2 (join 1 new_hub)

abbrev only_first : ℕ → Bool
only_first c = eqb c 1

broadcast-clients_example :
    ((broadcast only_first all_deleted two_clients).clients ≡ keep only_first two_clients.clients)
    × ((broadcast only_first all_deleted two_clients).received
        ≡ two_clients.received ++ map (λ c. (c, all_deleted)) (keep only_first two_clients.clients))
broadcast-clients_example = broadcast-clients only_first all_deleted two_clients

-- A header that the original has, and the sender that was put in.
abbrev new_sender : RawHeaders
new_sender = (lit "From", lit "x" ∷ []) ∷ (lit "To", lit "y" ∷ lit "z" ∷ []) ∷ []

new_sender-DistinctHeaders : DistinctHeaders new_sender
unfolding keys ◌==◌
new_sender-DistinctHeaders = (refl, (refl, tt))

header_entries-perm_example :
    Perm (header_entries (λ key. key) new_sender (lit "To: y")) (all_entries new_sender)
header_entries-perm_example =
    header_entries-perm (λ key. key) new_sender (lit "To: y") new_sender-DistinctHeaders

abbrev from_x : Text
from_x = lit "from:x"

from_x_accepted : is_ok (parse_query ascii_std from_x) ≡ true
unfolding parse_query tokenize_query find_all token_at classify tokens pairs_of plains_of
    matchers_of_pairs matcher_of span quoted ◌==◌
from_x_accepted = refl

parse_query_suggested_example :
    all (λ (p : Text × Text). member p.0 commands) (tokenize_query from_x).0 ≡ true
parse_query_suggested_example = parse_query_suggested ascii_std from_x from_x_accepted

serve_static-IsNamed_example :
    (filename : Text) × (serve_static memories (serving empty) (lit "/css")
      ≡ serve_file memories (serving empty) filename)
    × IsNamed memories (serving empty) (lit "/css") filename
serve_static-IsNamed_example = serve_static-IsNamed memories (serving empty) (lit "/css")
