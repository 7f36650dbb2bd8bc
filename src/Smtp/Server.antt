-- ===== src/Smtp/Server.antt =====
-- NewServer of smtp/smtpd.go: the options that the library chrj/smtpd is given, with the checks of the
-- dialogue, and the LOGIN mechanism towards a relay.
use mock_my_mta.Base.{
  Text, lit, ◌==◌, ◌≡◌, refl, List, [], ◌∷◌, Option, none, some, Bool, true, false, if◌then◌else◌,
  Outcome, ok, Error, ◌>>=◌,
}
use mock_my_mta.Base.Int.{ℤ}
use mock_my_mta.Smtp.{login_next}

-- The fields of smtpd.Server that NewServer sets, but the handler and the TLS certificate; a check
-- returns nothing or an error.
pub record Options : Type 0 where
  pub welcome_message : Text
  pub hostname : Text
  pub force_tls : Bool
  pub max_message_size : ℤ
  pub connection_checker : Text → Option Error
  pub helo_checker : Text → Option Error
  pub sender_checker : Text → Option Error
  pub recipient_checker : Text → Option Error
  pub authenticator : Option (Text → Text → Option Error)

-- connectionChecker, heloChecker, senderChecker and recipientChecker
abbrev accept_all : Text → Option Error
accept_all text = none

-- authenticator
abbrev pub accept_credentials : Text → Text → Option Error
accept_credentials username password = none

unfoldable pub new_server : Bool → ℤ → Options
new_server require_auth max_message_size = record {
  welcome_message = lit "MockMyMTA ESMTP ready";
  hostname = lit "localhost";
  force_tls = false;
  max_message_size = max_message_size;
  connection_checker = accept_all;
  helo_checker = accept_all;
  sender_checker = accept_all;
  recipient_checker = accept_all;
  authenticator = if require_auth then some accept_credentials else none;
}

-- loginAuth.Start
abbrev pub login_start : Text × Text
login_start = (lit "LOGIN", [])

-- The answers to the challenges of a relay, as net/smtp asks for them.
unfoldable pub login_answers : Text → Text → List Text → Outcome (List Text)
unfolding login_next
login_answers username password [] = ok []
login_answers username password (challenge ∷ challenges) = do
  answer ← login_next username password challenge true
  answers ← login_answers username password challenges
  ok (answer ∷ answers)

-- The mechanism answers the two challenges of LOGIN with the name and the password.
pub login_answers_lem :
    (username password : Text)
    → login_answers username password (lit "Username:" ∷ lit "Password:" ∷ [])
      ≡ ok (username ∷ password ∷ [])
unfolding login_answers login_next ◌==◌
login_answers_lem username password = refl
