-- ===== src/Smtp/Relays.antt =====
-- The relays that a message is sent on to, and the answers of the LOGIN mechanism.
use mock_my_mta.Base.{
  Text, lit, ◌==◌, eq_iff, eq_refl, text_cases, ◌≡◌, ◌≢◌, refl, ap, ◌∙◌, sym, Error, failed, ◌||◌,
  List, [], ◌∷◌, Bool, true, false, not, if◌then◌else◌, ◌&&◌, Outcome, ok, err, ok_injective,
  Bool-cases, inl, inr, arith, member, is_some, keep, ◌++◌, Option, none, some,
}
use mathlib.Core.Path.{subst}
use mock_my_mta.Base.Dict.{Dict, lookup, keys}
use mock_my_mta.Smtp.{
  Relay, Relays, relay_names, get_relay, login_next, Envelope, Delivery, Effect, sent,
  relay_message, relay_all, Auth, no_auth, plain_auth, login_auth, cram_md5,
}

-- A Go map has a key once.
abbrev pub DistinctKeys : Relays → Type 0
DistinctKeys [] = Unit
DistinctKeys ((name, relay) ∷ relays) = (member name (keys relays) ≡ false) × DistinctKeys relays

-- How each mechanism logs in: PLAIN needs the host of the relay's address.
abbrev plain_login : Relay → Outcome Text → Dict Auth
plain_login r (err e) = []
plain_login r (ok host) = (lit "PLAIN", plain_auth r.username r.password host) ∷ []

abbrev pub logins : Relay → Outcome Text → Dict Auth
logins r host =
    (lit "NONE", no_auth)
    ∷ (lit "LOGIN", login_auth r.username r.password)
    ∷ (lit "CRAM-MD5", cram_md5 r.username r.password)
    ∷ plain_login r host

-- The call of smtp.SendMail for a relay, if its mechanism can log in, with the given sender,
-- recipients and bytes.
abbrev call_with : Relay → Text → List Text → Text → Option Auth → List Effect
call_with r sender recipients bytes none = []
call_with r sender recipients bytes (some auth) =
    sent (record {
      addr = r.addr;
      auth = auth;
      envelope = record { sender = sender; recipients = recipients; data_bytes = bytes };
    })
    ∷ []

module _ (split_host : Text → Outcome Text) (sender : Text) (recipients : List Text)
    (bytes : Text) where
  abbrev pub call : Relay → List Effect
  call r = call_with r sender recipients bytes (lookup r.mechanism (logins r (split_host r.addr)))

  abbrev pub calls : Relays → List Effect
  calls [] = []
  calls ((name, r) ∷ relays) = call r ++ calls relays

abbrev pub automatic : Text × Relay → Bool
automatic (name, r) = r.enabled && r.auto_relay

relay_names-missing :
    (name : Text) (relays : Relays)
    → member name (keys relays) ≡ false
    → member name (relay_names relays) ≡ false
unfolding relay_names keys
relay_names-missing name [] h = refl
relay_names-missing name ((j, r) ∷ relays) h = ground (arith, relay_names-missing name relays)

lookup-missing :
    (name : Text) (relays : Relays) → member name (keys relays) ≡ false → lookup name relays ≡ none
unfolding lookup keys
lookup-missing name [] h = refl
lookup-missing name ((j, r) ∷ relays) h =
    ground (arith, eq_iff name j, eq_iff j name, lookup-missing name relays)

listed_here :
    (name : Text) (r : Relay) (relays : Relays)
    → member name (relay_names relays) ≡ false
    → member name (relay_names ((name, r) ∷ relays)) ≡ is_some (get_relay ((name, r) ∷ relays) name)
unfolding relay_names get_relay lookup
listed_here name r relays absent = ground (arith, eq_refl name, absent)

-- A name is listed exactly if the relay is found under it, in a configuration that has each name
-- once.
pub member-relay_names :
    (name : Text) (relays : Relays)
    → DistinctKeys relays
    → member name (relay_names relays) ≡ is_some (get_relay relays name)
unfolding relay_names get_relay lookup
member-relay_names name [] h = refl
member-relay_names name ((j, r) ∷ relays) (fresh, h) = elim (text_cases j name) [
  | inl same ↦
      let absent = relay_names-missing j relays fresh in
      subst
        (λ n. member n (relay_names ((j, r) ∷ relays)) ≡ is_some (get_relay ((j, r) ∷ relays) n))
        same (listed_here j r relays absent)
  | inr other ↦
      ground (arith, other, eq_iff name j, eq_iff j name, member-relay_names name relays h)
]

abbrev sent_by : Outcome Delivery → List Effect → List Effect
sent_by (err e) rest = rest
sent_by (ok delivery) rest = sent delivery ∷ rest

eq_comm : (s t : Text) → (s == t) ≡ (t == s)
eq_comm s t = ground (arith, eq_iff s t, eq_iff t s)

-- A mechanism that is PLAIN is no other one.
only_plain : (m : Text) → (m == lit "PLAIN" && (m == lit "LOGIN" || m == lit "CRAM-MD5")) ≡ false
unfolding ◌==◌
only_plain m = elim (text_cases m (lit "PLAIN")) [
  | inl same ↦ ap (λ t. t == lit "PLAIN" && (t == lit "LOGIN" || t == lit "CRAM-MD5")) same
  | inr other ↦ ap (λ b. b && (m == lit "LOGIN" || m == lit "CRAM-MD5")) other
]

module _ (r : Relay) where
  abbrev plain_found : Bool → Outcome Text → Option Auth
  plain_found p (err e) = none
  plain_found p (ok host) = if p then some (plain_auth r.username r.password host) else none

  abbrev found_by : Bool → Bool → Bool → Bool → Outcome Text → Option Auth
  found_by n p l c host =
      if n
      then some no_auth
      else if l
      then some (login_auth r.username r.password)
      else if c
      then some (cram_md5 r.username r.password)
      else plain_found p host

  lookup-plain_login :
      (m : Text) (host : Outcome Text)
      → lookup m (plain_login r host) ≡ plain_found (lit "PLAIN" == m) host
  unfolding lookup
  lookup-plain_login m (err e) = refl
  lookup-plain_login m (ok host) = refl

  lookup-logins :
      (m : Text) (host : Outcome Text)
      → lookup m (logins r host)
        ≡ found_by
            (m == lit "NONE")
            (m == lit "PLAIN")
            (m == lit "LOGIN")
            (m == lit "CRAM-MD5")
            host
  unfolding lookup
  lookup-logins m host =
      rw
        (
          lookup-plain_login m host,
          eq_comm (lit "NONE") m,
          eq_comm (lit "PLAIN") m,
          eq_comm (lit "LOGIN") m,
          eq_comm (lit "CRAM-MD5") m,
        )
        refl

  -- The tests of RelayMessage, in its order, find what the table has.
  sent_by_tests :
      (n p l c : Bool) (host : Outcome Text) (unknown : Error) (envelope : Envelope)
      (rest : List Effect)
      → (p && (l || c)) ≡ false
      → sent_by
          (elim (if n
              then ok no_auth
              else if p
              then elim host as (λ _. Outcome Auth) [
                | err e ↦ err e
                | ok h ↦ ok (plain_auth r.username r.password h)
              ]
              else if l
              then ok (login_auth r.username r.password)
              else if c
              then ok (cram_md5 r.username r.password)
              else err unknown)
            as (λ _. Outcome Delivery) [
              | err e ↦ err e
              | ok auth ↦ ok (record { addr = r.addr; auth = auth; envelope = envelope })
            ])
          rest
        ≡ call_with r envelope.sender envelope.recipients envelope.data_bytes
            (found_by n p l c host)
          ++ rest
  sent_by_tests true p l c host u envelope rest h = refl
  sent_by_tests false true true c host u envelope rest h = cc h
  sent_by_tests false true false true host u envelope rest h = cc h
  sent_by_tests false true false false (err e) u envelope rest h = refl
  sent_by_tests false true false false (ok host) u envelope rest h = refl
  sent_by_tests false false true c host u envelope rest h = refl
  sent_by_tests false false false true host u envelope rest h = refl
  sent_by_tests false false false false (err e) u envelope rest h = refl
  sent_by_tests false false false false (ok host) u envelope rest h = refl

module _ (split_host : Text → Outcome Text) (envelope : Envelope) where
  abbrev expected : Relay → List Effect
  expected = call split_host envelope.sender envelope.recipients envelope.data_bytes

  -- RelayMessage makes the call that the table of mechanisms gives.
  relay_message-call :
      (r : Relay) (rest : List Effect)
      → sent_by (relay_message split_host r envelope) rest ≡ expected r ++ rest
  unfolding relay_message
  relay_message-call r rest =
      let m = r.mechanism in
      sent_by_tests r (m == lit "NONE") (m == lit "PLAIN") (m == lit "LOGIN") (m == lit "CRAM-MD5")
        (split_host r.addr) (failed (lit "unsupported relay auth mode: " ++ m)) envelope rest
        (only_plain m)
      ∙ ap (λ o. call_with r envelope.sender envelope.recipients envelope.data_bytes o ++ rest)
          (sym (lookup-logins r m (split_host r.addr)))

  relay_step :
      (name : Text) (r : Relay) (relays : Relays) (rest : List Effect)
      → rest ≡ calls split_host envelope.sender envelope.recipients envelope.data_bytes relays
      → (o : Outcome Delivery) → sent_by o rest ≡ expected r ++ rest
      → (enabled auto : Bool)
      → (if not enabled
          then rest
          else if not auto
          then rest
          else elim o [ err e ↦ rest | ok delivery ↦ sent delivery ∷ rest ])
        ≡ calls split_host envelope.sender envelope.recipients envelope.data_bytes
            (if enabled && auto then (name, r) ∷ relays else relays)
  relay_step name r relays rest others (ok delivery) h true true =
      h ∙ ap (λ l. expected r ++ l) others
  relay_step name r relays rest others (err e) h true true = h ∙ ap (λ l. expected r ++ l) others
  relay_step name r relays rest others o h true false = others
  relay_step name r relays rest others o h false auto = others

-- The handler calls smtp.SendMail once for each relay that is enabled and automatic, and for no
-- other, with the relay's address, what its mechanism logs in with, and the sender, the recipients
-- and the bytes that the client sent, whatever the order in which it meets the relays; a relay whose
-- mechanism is unknown, or PLAIN with an address without a host, does not keep the others from theirs.
pub relay_all-deliveries :
    (split_host : Text → Outcome Text) (envelope : Envelope) (relays : Relays)
    → relay_all split_host envelope relays
      ≡ calls split_host envelope.sender envelope.recipients envelope.data_bytes
          (keep automatic relays)
unfolding relay_all
relay_all-deliveries split_host envelope [] = refl
relay_all-deliveries split_host envelope ((name, r) ∷ relays) =
    relay_step split_host envelope name r (keep automatic relays) _
      (relay_all-deliveries split_host envelope relays) (relay_message split_host r envelope)
      (relay_message-call split_host envelope r _) r.enabled r.auto_relay

-- Whatever a relay's server asks, the answer is the password only if it asks "Password:", for a
-- user name that is not the password and a password that is not empty.
pub login_next-password :
    (username password challenge : Text) (more : Bool)
    → username ≢ password
    → [] ≢ password
    → login_next username password challenge more ≡ ok password
    → challenge ≡ lit "Password:"
unfolding login_next
login_next-password username password challenge false other filled h =
    absurd (filled (ok_injective [] password h))
login_next-password username password challenge true other filled h =
    elim (text_cases challenge (lit "Password:")) [
      | inl same ↦ same
      | inr differs ↦ elim (Bool-cases (challenge == lit "Username:")) [
        | inl asked ↦ absurd (other (ok_injective username password (rw asked at h)))
        | inr unknown ↦ cc (rw (unknown, differs) at h)
      ]
    ]
