-- ===== src/Command.antt =====
-- cmd/server: the configuration of configuration.go with the overrides from the environment, and
-- loadTestData of main.go. encoding/json, flag and the signals are packages; the servers that main
-- starts are modelled in their own modules.
mod Tests
pub mod TestData
pub mod Startup
use mock_my_mta.Base.{
  Text, lit, ◌==◌, List, [], ◌∷◌, Bool, true, false, if◌then◌else◌, ◌||◌, ℕ, Outcome, ok, err,
}
use mock_my_mta.Base.Int.{ℤ}
use mock_my_mta.Storage.Config.{LayerConfig}
use mock_my_mta.Smtp.{Relays}

-- Configuration of smtp/configuration.go and of http/configuration.go
pub record SmtpConfiguration : Type 0 where
  pub addr : Text
  pub max_message_size : ℤ
  pub require_auth : Bool
  pub relays : Relays

pub record HttpConfiguration : Type 0 where
  pub addr : Text
  pub debug : Bool

-- Configuration, with the level of its LoggingConfiguration
pub record Configuration : Type 0 where
  pub smtpd : SmtpConfiguration
  pub httpd : HttpConfiguration
  pub storages : List LayerConfig
  pub log_level : Text

-- The variable's value, if it is not empty.
abbrev override : Text → Text → Text
override value current = if value == [] then current else value

-- strconv.Atoi, if the variable is not empty.
abbrev override_size : (Text → Outcome ℤ) → Text → ℤ → ℤ
override_size atoi value current =
    if value == [] then current else elim (atoi value) [ err e ↦ current | ok size ↦ size ]

-- applyEnvOverrides, with os.Getenv, which gives the empty text for a variable that is not set.
unfoldable pub apply_env_overrides :
    (Text → Text) → (Text → Outcome ℤ) → Configuration → Configuration
apply_env_overrides getenv atoi config = record config {
  smtpd = record config.smtpd {
    addr = override (getenv (lit "MOCKMYMTA_SMTP_ADDR")) config.smtpd.addr;
    max_message_size =
        override_size atoi (getenv (lit "MOCKMYMTA_SMTP_MAX_MESSAGE_SIZE"))
          config.smtpd.max_message_size;
  };
  httpd = record {
    addr = override (getenv (lit "MOCKMYMTA_HTTP_ADDR")) config.httpd.addr;
    debug =
        let v = getenv (lit "MOCKMYMTA_HTTP_DEBUG") in
        v == lit "true" || v == lit "1" || config.httpd.debug;
  };
  log_level = override (getenv (lit "MOCKMYMTA_LOG_LEVEL")) config.log_level;
}
