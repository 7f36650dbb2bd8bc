-- ===== src/System/Samples.antt =====
-- The program with its default configuration and an empty folder, before and after its first steps.
use mock_my_mta.Base.{Text, lit, ◌==◌, ◌≡◌, refl, [], ◌∷◌, true, false, ok, any, Outcome, ℕ, Bool}
use mock_my_mta.Base.Dict.{Dict, lookup, keys}
use mock_my_mta.Base.Int.{pos, ◌*ℤ◌, ◌-ℤ◌, wrap}
use mock_my_mta.Std.{Time}
use mock_my_mta.Std.Ascii.{ascii_std}
use mock_my_mta.Storage.Config.{has_scope, is_writable, in_scope}
use mock_my_mta.Storage.Layer.{Layer}
use mock_my_mta.Storage.Memory.{empty}
use mock_my_mta.Storage.Files.{eml}
use mock_my_mta.Storage.Files
use mock_my_mta.Storage.Sqlite.{Row, Json}
use mock_my_mta.Storage.Sqlite.Rows.{rows_database}
use mock_my_mta.Storage.Physical.{
  Physical, in_memory, in_database, in_folder, physical_layer, load_physical,
}
use mock_my_mta.Storage.Engine.{
  Engine, new_engine, default_scopes, add_layer, add_layers, new_layer, load_layers,
}
use mock_my_mta.Storage.Engine.Service.{engine_layer}
use mock_my_mta.Storage.Stored.{WritesRaw, has_raw}
use mock_my_mta.Smtp.{Envelope}
use mock_my_mta.Http.{Settings}
use mock_my_mta.Command.{Configuration, apply_env_overrides}
use mock_my_mta.Command.Startup.{
  Host, main, configure, load_default_configuration, init_with_test_data,
}
use mock_my_mta.Log.{parse_log_level}
use mock_my_mta.Storage.Memory.Load
use mock_my_mta.Matcher.Query.{parse_query}
use mock_my_mta.Matcher.Tokens.{tokenize_query}
use mock_my_mta.Storage.Page.{paginate}
use mock_my_mta.Storage.Order.{sort}
use mock_my_mta.Http.Server.{Services}
use mock_my_mta.Http.Requests.{change_settings}
use mock_my_mta.Http.StandIns.{stand_ins}
use mock_my_mta.System.{World, started, request, joins, act, Leads, here, next, anything}

-- The default configuration of cmd/server/config/default.json.
abbrev pub default_configuration : Configuration
default_configuration = record {
  smtpd = record {
    addr = lit ":1025";
    max_message_size = pos 0;
    require_auth = false;
    relays =
        (
          lit "example",
          record {
            enabled = false;
            auto_relay = false;
            addr = lit "localhost:25";
            username = [];
            password = [];
            mechanism = lit "PLAIN";
          },
        )
        ∷ [];
  };
  httpd = record { addr = lit ":8025"; debug = false };
  storages =
      record { kind = lit "MEMORY"; scope = lit "read" ∷ lit "cache" ∷ []; parameters = [] }
      ∷ record {
        kind = lit "FILESYSTEM";
        scope = lit "all" ∷ [];
        parameters = (lit "folder", lit "new-data") ∷ (lit "type", lit "eml") ∷ [];
      }
      ∷ [];
  log_level = lit "INFO";
}

abbrev pub Disk : Type 0
Disk = Physical (Dict Row)

abbrev pub no_json : Json
no_json = record {
  marshal_addresses = λ l. [];
  unmarshal_addresses = λ s. [];
  marshal_texts = λ l. [];
  unmarshal_texts = λ s. [];
}

abbrev pub layers : Layer Disk
layers = physical_layer rows_database no_json ascii_std (pos 0)

abbrev new_database : Text → Outcome Disk
new_database file = ok (in_database [])

abbrev new_folder : Text → Text → Outcome Disk
new_folder folder kind = ok (in_folder (record { kind = eml; folder = folder; files = [] }))

abbrev pub services : Services (Engine Disk)
services = stand_ins (engine_layer layers)

-- A computer without flags and variables, whose folder is empty.
abbrev pub host : Host Disk
host = record {
  config_flag = [];
  test_data_flag = [];
  read_file = λ s. ok [];
  unmarshal = λ s. ok default_configuration;
  default_data = [];
  getenv = λ s. [];
  new_memory = ok (in_memory empty);
  new_sqlite = new_database;
  new_files = new_folder;
  load = load_physical rows_database no_json ascii_std (pos 0);
  walk = λ s. ok [];
  open_file = λ s. ok [];
  uuids = λ n. lit "u";
  clock = λ n. pos 0;
}

abbrev engine : Engine Disk
engine = record {
  all_layers =
      in_memory empty ∷ in_folder (record { kind = eml; folder = lit "new-data"; files = [] }) ∷ [];
  read_layers = 0 ∷ 1 ∷ [];
  search_layers = 1 ∷ [];
  write_layers = 0 ∷ 1 ∷ [];
  raw_layers = 1 ∷ [];
}

pub default-WritesRaw : WritesRaw (default_scopes default_configuration.storages)
unfolding default_scopes is_writable has_scope in_scope ◌==◌
default-WritesRaw = (λ h. refl, (λ h. refl, tt))

pub folder_for_raw : any has_raw (default_scopes default_configuration.storages) ≡ true
unfolding default_scopes has_scope in_scope ◌==◌
folder_for_raw = refl

abbrev pub as_text : Time → Text
as_text now = lit "now"

abbrev pub start_world : World Disk
start_world = started engine default_configuration.smtpd.relays

pub default_runs :
    main host layers services as_text as_text ≡ ok (default_configuration, start_world)
unfolding main configure load_default_configuration apply_env_overrides parse_log_level new_engine
    default_scopes add_layers add_layer new_layer load_layers has_scope is_writable in_scope lookup
    init_with_test_data Load.load Files.search_emails Files.get_all_email_ids paginate sort
    parse_query tokenize_query keys ◌*ℤ◌ ◌-ℤ◌ wrap ◌==◌
default_runs = refl

-- A client of the hub comes, and a client of the API asks for a delay, before the message.
abbrev busy : Settings
busy = record start_world.server.settings { delay_ms = pos 5 }

abbrev pub all_work : ℕ → Bool
all_work c = true

abbrev pub before_message : World Disk
before_message =
    act layers services as_text as_text (act layers services as_text as_text start_world (joins 1))
      (request (change_settings (ok busy)) (λ k. all_work))

pub before-Leads : Leads layers services as_text as_text anything start_world before_message
before-Leads =
    next (next here (joins 1) refl refl) (request (change_settings (ok busy)) (λ k. all_work)) refl
      refl

abbrev pub hello : Envelope
hello = record { sender = lit "x"; recipients = lit "y" ∷ []; data_bytes = lit "hello" }
