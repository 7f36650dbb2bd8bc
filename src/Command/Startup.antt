-- ===== src/Command/Startup.antt =====
-- main of cmd/server/main.go up to the start of the two servers, with LoadConfig and
-- LoadDefaultConfiguration of configuration.go. A fatal message ends the program: it is an error here.
use mock_my_mta.Base.{
  Text, ◌==◌, List, [], ◌∷◌, Option, none, some, if◌then◌else◌, ℕ, suc, Outcome, ok, err, Error,
  ◌>>=◌,
}
use mock_my_mta.Base.Int.{pos, negsuc}
use mock_my_mta.Std.{Time, RawHeaders, Reader}
use mock_my_mta.Log.{parse_log_level}
use mock_my_mta.Storage.{EmailHeader}
use mock_my_mta.Storage.Layer.{Layer}
use mock_my_mta.Storage.Engine.{Engine, new_engine, search_emails, get_attachments}
use mock_my_mta.Storage.Engine.Message.{set_message}
use mock_my_mta.Http.Server.{Services}
use mock_my_mta.System.{World, started}
use mock_my_mta.Command.{Configuration, apply_env_overrides}
use mock_my_mta.Command.TestData.{Entry, load_test_data}

-- What main calls: the two flags, os.ReadFile, json.Unmarshal into a Configuration, the embedded
-- default configuration, os.Getenv, the constructors of the layers and their `load`, filepath.Walk,
-- os.Open with what the file holds, and what uuid.New and time.Now give to each call of Set.
pub record Host (S : Type 0) : Type 0 where
  pub config_flag : Text
  pub test_data_flag : Text
  pub read_file : Text → Outcome Text
  pub unmarshal : Text → Outcome Configuration
  pub default_data : Text
  pub getenv : Text → Text
  pub new_memory : Outcome S
  pub new_sqlite : Text → Outcome S
  pub new_files : Text → Text → Outcome S
  pub load : S → Option S → Outcome S
  pub walk : Text → Outcome (List Entry)
  pub open_file : Text → Outcome Text
  pub uuids : ℕ → Text
  pub clock : ℕ → Time

module _ {S : Type 0} (host : Host S) (layer : Layer S) (env : Services (Engine S))
    (rfc1123z rfc3339 : Time → Text) where
  -- LoadConfig, with parseConfiguration.
  unfoldable pub load_config : Text → Outcome Configuration
  load_config filename = do data_bytes ← host.read_file filename; host.unmarshal data_bytes

  -- LoadDefaultConfiguration
  unfoldable pub load_default_configuration : Outcome Configuration
  load_default_configuration = host.unmarshal host.default_data

  unfoldable pub configure : Outcome Configuration
  unfolding load_config load_default_configuration
  configure = do
    config ←
        if host.config_flag == [] then load_default_configuration else load_config host.config_flag
    ok (apply_env_overrides host.getenv env.atoi config)

  -- Set, with the number of the calls before it.
  abbrev pub set_numbered :
      Engine S × ℕ → RawHeaders → Reader → ((Engine S × ℕ) × Text) × Option Error
  set_numbered (e, n) headers body =
      let r =
        set_message layer env.std rfc1123z rfc3339 (host.uuids n) (host.clock n) e headers body in
      (((r.0.0, suc n), r.0.1), r.1)

  -- The loop over the emails that are logged: the attachments of an email must be found.
  unfoldable pub check_attachments : Engine S → List EmailHeader → Outcome (Engine S)
  check_attachments e [] = ok e
  check_attachments e (header ∷ headers) =
      let rest = check_attachments e headers in
      if header.has_attachments
      then (elim (get_attachments layer e header.id) [ err x ↦ err x | ok attachments ↦ rest ])
      else rest

  -- The test data, if there is a folder for it.
  unfoldable pub init_with_test_data : Engine S → Outcome (Engine S)
  unfolding check_attachments
  init_with_test_data e =
      if host.test_data_flag == []
      then ok e
      else let loaded =
          load_test_data host.open_file env.std.read_message set_numbered
            (host.walk host.test_data_flag) (e, 0) in
        elim loaded.1 [
          | some x ↦ err x
          | none ↦ (do
            found ← search_emails layer loaded.0.0 [] (pos 1) (negsuc 0)
            check_attachments loaded.0.0 found.0)
        ]

  -- The configuration, and the program when its servers start.
  unfoldable pub main : Outcome (Configuration × World S)
  unfolding configure init_with_test_data
  main = do
    config ← configure
    level ← parse_log_level config.log_level
    e ← new_engine host.new_memory host.new_sqlite host.new_files host.load config.storages
    e' ← init_with_test_data e
    ok (config, started e' config.smtpd.relays)
