-- ===== src/Delivery/Tests.antt =====
-- A message that is sent to the SMTP server, stored in memory and in a folder, and downloaded.
use mock_my_mta.Base.{
  Text, lit, ◌==◌, ◌≡◌, refl, List, [], ◌∷◌, ◌++◌, none, true, ok, any, keep, Outcome, ℕ, Bool, eqb,
  map,
}
use mock_my_mta.Base.Dict.{Dict, lookup, insert}
use mock_my_mta.Base.Int.{pos}
use mock_my_mta.Std.{Time, RawHeaders, Reader}
use mock_my_mta.Std.Ascii.{ascii_std}
use mock_my_mta.Multipart.{new_headers, get_values, get_header_value, get_content_type}
use mock_my_mta.Multipart.Parse.{parse_email, new, parse_mail, read_leaf}
use mock_my_mta.Storage.Config.{LayerConfig, has_scope, is_writable, in_scope}
use mock_my_mta.Storage.Layer.{Layer}
use mock_my_mta.Storage.Memory.{empty}
use mock_my_mta.Storage.Memory
use mock_my_mta.Storage.Files.{eml}
use mock_my_mta.Storage.Files
use mock_my_mta.Storage.Sqlite.{Row, Json, insert_email_header, row_of}
use mock_my_mta.Storage.Sqlite
use mock_my_mta.Storage.{new_email_header}
use mock_my_mta.Storage.Sqlite.Rows.{rows_database, rows_database-SqlTable}
use mock_my_mta.Storage.Physical.{
  Physical, in_memory, in_database, in_folder, physical_layer, physical-KeepsRaw,
}
use mock_my_mta.Storage.Engine.{Engine, write_until, set_with_id, get_raw_email}
use mock_my_mta.Storage.Files.Apart.{ascii_std-KeepsApart}
use mock_my_mta.Storage.Engine.Message.{dated, header_date, serialize, set_message}
use mock_my_mta.Storage.Engine.Routes.{Routed, positions}
use mock_my_mta.Storage.Engine.Service.{engine_layer}
use mock_my_mta.Storage.Stored.{WritesRaw, has_raw, get_raw_email-set_with_id}
use mock_my_mta.Smtp.{Envelope, Handled, rejection, handler, accept}
use mock_my_mta.Smtp.Handler.{is_accepted}
use mock_my_mta.Http.Server.{Server, Services, respond, new_email}
use mock_my_mta.Http.Requests.{handle, download}
use mock_my_mta.Http.StandIns.{stand_ins, serving}
use mock_my_mta.Http.Hub.{Hub, new_hub}
use mock_my_mta.Delivery.Announced.{announce, accepted_announced}
use mock_my_mta.Delivery.{submit, after_smtp, over_engine, downloaded}

-- A cache in memory and a database for searches before a folder that has everything.
abbrev three_kinds : List LayerConfig
three_kinds =
    record { kind = lit "MEMORY"; scope = lit "cache" ∷ []; parameters = [] }
    ∷ record { kind = lit "SQLITE"; scope = lit "search" ∷ lit "write" ∷ []; parameters = [] }
    ∷ record { kind = lit "FILESYSTEM"; scope = lit "all" ∷ []; parameters = [] }
    ∷ []

abbrev Stored : Type 0
Stored = Physical (Dict Row)

-- Lists are not read back here.
abbrev no_json : Json
no_json = record {
  marshal_addresses = λ l. [];
  unmarshal_addresses = λ s. [];
  marshal_texts = λ l. [];
  unmarshal_texts = λ s. [];
}

abbrev layers : Layer Stored
layers = physical_layer rows_database no_json ascii_std (pos 0)

abbrev three_layers : Engine Stored
three_layers = record {
  all_layers =
      in_memory empty
      ∷ in_database []
      ∷ in_folder (record { kind = eml; folder = lit "d"; files = [] })
      ∷ [];
  read_layers = 2 ∷ [];
  search_layers = 1 ∷ 2 ∷ [];
  write_layers = 0 ∷ 1 ∷ 2 ∷ [];
  raw_layers = 2 ∷ [];
}

three_layers-Routed : Routed three_kinds three_layers
unfolding Routed positions has_scope is_writable in_scope ◌==◌
three_layers-Routed = (refl, refl, refl, refl, refl)

three_kinds-WritesRaw : WritesRaw three_kinds
unfolding is_writable has_scope in_scope ◌==◌
three_kinds-WritesRaw = (λ h. refl, (λ h. refl, (λ h. refl, tt)))

folder_for_raw : any has_raw three_kinds ≡ true
unfolding has_scope in_scope ◌==◌
folder_for_raw = refl

abbrev hello : Envelope
hello = record { sender = lit "x"; recipients = lit "y" ∷ []; data_bytes = lit "hello" }

abbrev as_text : Time → Text
as_text now = lit "now"

abbrev host_of : Text → Outcome Text
host_of addr = ok addr

stored_hello : (set_with_id layers three_layers (lit "a") (lit "hello")).1 ≡ none
unfolding set_with_id write_until Memory.set_with_id Files.set_with_id Sqlite.set_with_id
    insert_email_header row_of new_email_header Files.load_email Files.get_raw_body Files.content_of
    Files.bytes_of parse_email new parse_mail read_leaf new_headers get_content_type
    get_header_value get_values lookup insert ◌==◌
stored_hello = refl

get_raw_email-set_with_id_example :
    get_raw_email layers (set_with_id layers three_layers (lit "a") (lit "hello")).0 (lit "a")
    ≡ ok (lit "hello")
get_raw_email-set_with_id_example =
    get_raw_email-set_with_id layers
      (physical-KeepsRaw rows_database no_json ascii_std (pos 0) rows_database-SqlTable
        ascii_std-KeepsApart)
      three_kinds three_layers three_layers-Routed three_kinds-WritesRaw folder_for_raw (lit "a")
      (lit "hello") stored_hello

-- The message is sent to an SMTP server with a callback and no relays.
abbrev submitted_hello : Handled (Engine Stored)
submitted_hello =
    submit layers ascii_std as_text as_text (lit "a") (pos 0) host_of [] true none 0 three_layers
      hello

hello_accepted : is_accepted submitted_hello.reply ≡ true
unfolding handler rejection accept set_message dated header_date serialize set_with_id write_until
    Memory.set_with_id Files.set_with_id Sqlite.set_with_id insert_email_header row_of
    new_email_header Files.load_email Files.get_raw_body Files.content_of Files.bytes_of parse_email
    new parse_mail read_leaf new_headers get_content_type get_header_value get_values lookup insert
    ◌==◌
hello_accepted = refl

abbrev web : Services (Engine Stored)
web = stand_ins (engine_layer layers)

abbrev server : Server (Engine Stored)
server = serving three_layers

-- Two clients, the second of which cannot be written to.
abbrev two_clients : Hub
two_clients = record new_hub { clients = 1 ∷ 2 ∷ [] }

abbrev only_first : ℕ → Bool
only_first c = eqb c 1

accepted_announced_example :
    (headers : RawHeaders) × (body : Reader) × (id : Text) × (raw_email : Text)
    × (ascii_std.read_message hello.data_bytes ≡ ok (headers, body))
    × (serialize (dated ascii_std as_text (pos 0) headers).0 body ≡ ok raw_email)
    × (handle (over_engine layers web) (after_smtp submitted_hello server) (download id)
        ≡ respond (after_smtp submitted_hello server) 200 (downloaded id raw_email))
    × ((announce only_first submitted_hello.effects two_clients).clients
        ≡ keep only_first two_clients.clients)
    × ((announce only_first submitted_hello.effects two_clients).received
        ≡ two_clients.received
          ++ map (λ c. (c, new_email id)) (keep only_first two_clients.clients))
accepted_announced_example =
    accepted_announced layers ascii_std as_text as_text (lit "a") (pos 0) host_of [] true none 0
      three_layers hello
      (physical-KeepsRaw rows_database no_json ascii_std (pos 0) rows_database-SqlTable
        ascii_std-KeepsApart)
      three_kinds three_layers-Routed three_kinds-WritesRaw folder_for_raw web server only_first
      two_clients refl hello_accepted
