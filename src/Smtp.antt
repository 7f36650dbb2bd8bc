-- ===== src/Smtp.antt =====
-- smtp/smtpd.go and smtp/configuration.go: what happens to a message that a client has sent, and
-- the relays. The SMTP dialogue itself is the library chrj/smtpd, and smtp.SendMail is net/smtp.
mod Tests
pub mod Relays
pub mod Handler
pub mod State
pub mod Server
pub mod Rejection
use mock_my_mta.Base.{
  Text, lit, ◌==◌, List, [], ◌∷◌, ◌++◌, Option, none, some, Bool, true, false, not, if◌then◌else◌,
  ◌&&◌, Outcome, ok, err, Error, failed, ℕ,
}
use mock_my_mta.Base.Dict.{Dict, lookup}
use mock_my_mta.Base.Int.{ℤ, pos, ltb_ℤ}
use mock_my_mta.Std.{RawHeaders, Reader}

-- RelayConfiguration, and RelayConfigurations
pub record Relay : Type 0 where
  pub enabled : Bool
  pub auto_relay : Bool
  pub addr : Text
  pub username : Text
  pub password : Text
  pub mechanism : Text

abbrev pub Relays : Type 0
Relays = Dict Relay

-- RelayConfigurations.Names
unfoldable pub relay_names : Relays → List Text
relay_names [] = []
relay_names ((name, relay) ∷ relays) =
    let rest = relay_names relays in if relay.enabled then name ∷ rest else rest

-- RelayConfigurations.Get
unfoldable pub get_relay : Relays → Text → Option Relay
get_relay relays name = elim (lookup name relays) [
  | none ↦ none
  | some relay ↦ if relay.enabled then some relay else none
]

-- The mechanisms of smtp.Auth that RelayMessage chooses from.
pub data Auth : Type 0 where
  no_auth : Auth
  plain_auth : Text → Text → Text → Auth
  login_auth : Text → Text → Auth
  cram_md5 : Text → Text → Auth

-- loginAuth.Next
unfoldable pub login_next : Text → Text → Text → Bool → Outcome Text
login_next username password challenge false = ok []
login_next username password challenge true =
    if challenge == lit "Username:"
    then ok username
    else if challenge == lit "Password:"
    then ok password
    else err (failed (lit "unexpected server challenge: " ++ challenge))

-- Envelope
pub record Envelope : Type 0 where
  pub sender : Text
  pub recipients : List Text
  pub data_bytes : Text

-- A call of smtp.SendMail.
pub record Delivery : Type 0 where
  pub addr : Text
  pub auth : Auth
  pub envelope : Envelope

-- SmtpBehavior, without the two bounce fields, which nothing in the server reads.
pub record Behavior : Type 0 where
  pub reject_rate : ℤ
  pub reject_message : Text
  pub delay_ms : ℤ

-- What the handler does to the world, in its order.
pub data Effect : Type 0 where
  slept : ℤ → Effect
  notified : Text → Effect
  sent : Delivery → Effect

-- What the handler returns: nothing, an smtpd.Error with its code, or another error.
pub data Reply : Type 0 where
  accepted : Reply
  refused : ℕ → Text → Reply
  failed_with : Error → Reply

pub record Handled (S : Type 0) : Type 0 where
  pub state : S
  pub effects : List Effect
  pub reply : Reply

-- The host of net.SplitHostPort, a parameter.
module _ (split_host : Text → Outcome Text) where
  -- The choice of RelayMessage.
  unfoldable pub auth_of : Relay → Outcome Auth
  auth_of r =
      if r.mechanism == lit "NONE"
      then ok no_auth
      else if r.mechanism == lit "PLAIN"
      then elim (split_host r.addr) [
        | err e ↦ err e
        | ok host ↦ ok (plain_auth r.username r.password host)
      ]
      else if r.mechanism == lit "LOGIN"
      then ok (login_auth r.username r.password)
      else if r.mechanism == lit "CRAM-MD5"
      then ok (cram_md5 r.username r.password)
      else err (failed (lit "unsupported relay auth mode: " ++ r.mechanism))

  -- RelayMessage: the call that it makes, or its error before that.
  unfoldable pub relay_message : Relay → Envelope → Outcome Delivery
  unfolding auth_of
  relay_message r envelope = elim (auth_of r) [
    | err e ↦ err e
    | ok auth ↦ ok (record { addr = r.addr; auth = auth; envelope = envelope })
  ]

  -- The loop of handler over the relays: an error of one is logged, and the next one follows.
  unfoldable pub relay_all : Envelope → Relays → List Effect
  unfolding relay_message
  relay_all envelope [] = []
  relay_all envelope ((name, r) ∷ relays) =
      let rest = relay_all envelope relays in
      if not r.enabled
      then rest
      else if not r.auto_relay
      then rest
      else elim (relay_message r envelope) [ err e ↦ rest | ok delivery ↦ sent delivery ∷ rest ]

  -- The storage service, mail.ReadMessage, the relays, the callbacks (`observed` is that
  -- onNewEmail is set, `behavior` what getBehavior gives, if it is set), and what
  -- rand.Intn(100) gives.
  module _ {S : Type 0} (set_message : S → RawHeaders → Reader → (S × Text) × Option Error)
      (read_message : Text → Outcome (RawHeaders × Reader)) (relays : Relays) (observed : Bool)
      (behavior : Option Behavior) (draw : ℕ) where
    unfoldable pub delays : List Effect
    delays = elim behavior [
      | none ↦ []
      | some b ↦ if ltb_ℤ (pos 0) b.delay_ms then slept b.delay_ms ∷ [] else []
    ]

    -- The message of the rejection, if there is one.
    unfoldable pub rejection : Option Text
    rejection = elim behavior [
      | none ↦ none
      | some b ↦
          if ltb_ℤ (pos 0) b.reject_rate && ltb_ℤ (pos draw) b.reject_rate
          then some b.reject_message
          else none
    ]

    -- What handler does with a message that is not rejected.
    unfoldable pub accept : S → Envelope → Handled S
    unfolding relay_all delays
    accept s envelope = elim (read_message envelope.data_bytes) [
      | err e ↦ record { state = s; effects = delays; reply = failed_with e }
      | ok (headers, body) ↦
          let ((s', id), error) = set_message s headers body in
          elim error [
            | some e ↦ record { state = s'; effects = delays; reply = failed_with e }
            | none ↦
                let notices = if observed then notified id ∷ [] else [] in
                record {
                  state = s';
                  effects = delays ++ (notices ++ relay_all envelope relays);
                  reply = accepted;
                }
          ]
    ]

    -- handler
    unfoldable pub handler : S → Envelope → Handled S
    unfolding accept rejection delays
    handler s envelope = elim rejection [
      | some message ↦ record { state = s; effects = delays; reply = refused 550 message }
      | none ↦ accept s envelope
    ]
