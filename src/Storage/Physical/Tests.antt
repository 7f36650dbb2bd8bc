-- ===== src/Storage/Physical/Tests.antt =====
-- A start of the engine over a folder with an email, with a cache in front of it, and two caches whose
-- headers stand in a different order.
use mathlib.Core.List.Perm
use mathlib.Core.Quot
use mock_my_mta.Base.{
  Text, lit, ◌==◌, ◌≡◌, refl, List, [], ◌∷◌, none, some, Outcome, ok, err, false, arith,
}
use mock_my_mta.Base.Dict.{Dict, lookup, keys}
use mock_my_mta.Base.Int.{pos, ◌*ℤ◌, ◌-ℤ◌, wrap}
use mock_my_mta.Std.Ascii.{ascii_std}
use mock_my_mta.Storage.{EmailHeader}
use mock_my_mta.Storage.Config.{LayerConfig, has_scope, is_writable, in_scope}
use mock_my_mta.Storage.Layer.{Layer, all_emails}
use mock_my_mta.Storage.Memory.{
  Memory, empty, get_email_by_id, get_raw_email, get_attachments_of, get_mailboxes,
}
use mock_my_mta.Storage.Memory.Load
use mock_my_mta.Storage.Memory.Load.Mirror.{last_with, is_listed, header_or, answer}
use mock_my_mta.Storage.Memory.Mailboxes.{get_mailboxes-order}
use mock_my_mta.Storage.Order.{sort}
use mock_my_mta.Storage.Page.{paginate}
use mock_my_mta.Storage.Files.{Files, eml}
use mock_my_mta.Storage.Files
use mock_my_mta.Storage.Sqlite.{Row, Json}
use mock_my_mta.Storage.Sqlite.Rows.{rows_database}
use mock_my_mta.Storage.Engine.{
  Engine, new_engine, default_scopes, add_layers, add_layer, new_layer, load_layers,
}
use mock_my_mta.Storage.Physical.{Physical, in_memory, in_folder, physical_layer}
use mock_my_mta.Storage.Physical.Restart.{restarted, restarted-answers}
use mock_my_mta.Matcher.{match_all}
use mock_my_mta.Multipart.{get_content_type, new_headers}
use mock_my_mta.Multipart.Parse.{parse_email}
use mock_my_mta.Matcher.Query.{parse_query}
use mock_my_mta.Matcher.Tokens.{tokenize_query}

abbrev Disk : Type 0
Disk = Physical (Dict Row)

abbrev no_json : Json
no_json = record {
  marshal_addresses = λ l. [];
  unmarshal_addresses = λ s. [];
  marshal_texts = λ l. [];
  unmarshal_texts = λ s. [];
}

abbrev cache_and_folder : List LayerConfig
cache_and_folder =
    record { kind = lit "MEMORY"; scope = lit "cache" ∷ []; parameters = [] }
    ∷ record {
      kind = lit "FILESYSTEM";
      scope = [];
      parameters = (lit "folder", lit "d") ∷ (lit "type", lit "eml") ∷ [];
    }
    ∷ []

abbrev disk : Dict Text
disk = (lit "d/a.eml", lit "hello") ∷ []

abbrev one_file : Files
one_file = record { kind = eml; folder = lit "d"; files = disk }

abbrev open_database : Text → Outcome (Dict Row)
open_database file = ok []

abbrev layers : Layer Disk
layers = physical_layer rows_database no_json ascii_std (pos 0)

abbrev headers : List EmailHeader
headers = elim (all_emails layers (in_folder one_file)) as (λ _. List EmailHeader) [
  | ok (some hs) ↦ hs
  | ok none ↦ []
  | err e ↦ []
]

abbrev cache : Memory
cache = elim (Load.load layers (in_folder one_file) empty) as (λ _. Memory) [
  | ok m ↦ m
  | err e ↦ empty
]

abbrev engine : Engine Disk
engine = record {
  all_layers = in_memory cache ∷ in_folder one_file ∷ [];
  read_layers = 1 ∷ [];
  search_layers = 1 ∷ [];
  write_layers = 0 ∷ 1 ∷ [];
  raw_layers = 1 ∷ [];
}

it_restarts :
    restarted rows_database no_json ascii_std (pos 0) open_database disk cache_and_folder
    ≡ ok engine
unfolding Files.new_filesystem_storage Files.parse_file_type new_engine default_scopes add_layers
    add_layer new_layer load_layers has_scope is_writable in_scope lookup ◌==◌ Load.load
    Files.search_emails parse_query tokenize_query Files.get_all_email_ids keys parse_email
    get_content_type new_headers paginate sort match_all ◌*ℤ◌ wrap ◌-ℤ◌
it_restarts = refl

folder_listed : all_emails layers (in_folder one_file) ≡ ok (some headers)
unfolding Load.load Files.search_emails parse_query tokenize_query Files.get_all_email_ids keys
    lookup ◌==◌ parse_email get_content_type new_headers paginate sort match_all ◌*ℤ◌ wrap ◌-ℤ◌
folder_listed = refl

restarted-answers_example :
    (get_email_by_id cache (lit "a")
      ≡ header_or layers (in_folder one_file) (lit "a") (last_with (lit "a") headers))
    × (get_raw_email cache (lit "a")
        ≡ answer layers
            (in_folder one_file)
            (lit "a")
            (lit "raw email")
            (is_listed (lit "a") headers)
            (layers.get_raw_email (in_folder one_file) (lit "a")))
    × (get_attachments_of cache (lit "a")
        ≡ answer layers
            (in_folder one_file)
            (lit "a")
            (lit "email")
            (is_listed (lit "a") headers)
            (layers.get_attachments (in_folder one_file) (lit "a")))
restarted-answers_example =
    restarted-answers rows_database no_json ascii_std (pos 0) open_database disk cache_and_folder
      engine 0 cache (in_folder one_file) headers it_restarts refl (omega arith) refl folder_listed
      (lit "a")

-- Two emails in a cache, in both orders.
abbrev header_to : Text → EmailHeader
header_to address = record {
  id = [];
  from = record { name = []; address = lit "x" };
  tos = record { name = []; address = address } ∷ [];
  ccs = [];
  subject = [];
  date = pos 0;
  has_attachments = false;
  preview = [];
  body_versions = [];
  is_read = false;
}

abbrev ab : Memory
ab = record empty { headers = (lit "1", header_to (lit "a")) ∷ (lit "2", header_to (lit "b")) ∷ [] }

abbrev ba : Memory
ba = record empty { headers = (lit "2", header_to (lit "b")) ∷ (lit "1", header_to (lit "a")) ∷ [] }

get_mailboxes-order_example : get_mailboxes ab ≡ get_mailboxes ba
get_mailboxes-order_example =
    get_mailboxes-order ab ba
      (Quot.sound (Perm.swap (lit "2", header_to (lit "b")) (lit "1", header_to (lit "a")) []))
