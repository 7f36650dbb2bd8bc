-- ===== src/System.antt =====
-- The program as cmd/server/main.go puts it together: one engine behind an SMTP server and an HTTP
-- server, which share the settings of the SMTP behaviour and the hub of the websocket clients. A
-- step is a message that is sent to the SMTP server, a request to the HTTP server, or a client of the
-- hub that comes or goes; each runs to its end, and they follow each other in any order.
pub mod Invariant
pub mod Started
pub mod Kept
pub mod Gone
mod Samples
mod Tests
use mock_my_mta.Base.{
  Text, lit, ◌==◌, ◌≡◌, List, [], ◌∷◌, ◌++◌, some, Bool, true, false, not, ◌&&◌, ℕ, suc, Outcome,
  ok, err,
}
use mock_my_mta.Std.{Time, RawHeaders, Reader}
use mock_my_mta.Storage.Layer.{Layer}
use mock_my_mta.Storage.Engine.{Engine}
use mock_my_mta.Storage.Engine.Message.{dated}
use mock_my_mta.Smtp.{Relays, Envelope, Handled}
use mock_my_mta.Http.{initial_settings, behavior_of}
use mock_my_mta.Http.Server.{Server, Services, Event}
use mock_my_mta.Http.Requests.{Request, handle}
use mock_my_mta.Http.Requests.Spared.{spares}
use mock_my_mta.Http.Hub.{Hub, new_hub, among, join, leave, broadcast}
use mock_my_mta.Delivery.{id_of, submit, after_smtp, over_engine}
use mock_my_mta.Delivery.Announced.{announce}

-- The HTTP server has the engine, the relays and the settings, which the SMTP server reads too.
pub record World (S : Type 0) : Type 0 where
  pub server : Server (Engine S)
  pub hub : Hub

-- What main leaves when the two servers start.
abbrev pub started : {S : Type 0} → Engine S → Relays → World S
started e relays = record {
  server = record { store = e; read_emails = []; relays = relays; settings = initial_settings };
  hub = new_hub;
}

-- The events of a request, sent one behind the other; `works` says which writes succeed, by the
-- position of the event and the connection.
unfoldable pub broadcast_each : (ℕ → ℕ → Bool) → ℕ → List Event → Hub → Hub
broadcast_each works k [] hub = hub
broadcast_each works k (event ∷ events) hub =
    broadcast_each works (suc k) events (broadcast (works k) event hub)

-- A message comes with what uuid.New, time.Now and rand.Intn give while it is handled, and with the
-- writes to the websocket clients that succeed.
pub data Action : Type 0 where
  message : Envelope → Text → Time → ℕ → (ℕ → Bool) → Action
  request : Request → (ℕ → ℕ → Bool) → Action
  joins leaves : ℕ → Action

-- A connection that comes has a number of its own.
abbrev pub is_fresh : Hub → Action → Bool
is_fresh hub (joins c) = not (among c hub.clients) && not (among c hub.closed)
is_fresh hub action = true

module _ {S : Type 0} (layer : Layer S) (env : Services (Engine S))
    (rfc1123z rfc3339 : Time → Text) where
  -- The handler of the SMTP server with the callbacks that main sets: there is one for new emails,
  -- and the behaviour is that of the current settings.
  abbrev pub submitted : World S → Envelope → Text → Time → ℕ → Handled (Engine S)
  submitted w envelope uuid now draw =
      submit layer env.std rfc1123z rfc3339 uuid now env.split_host w.server.relays true
        (some (behavior_of w.server.settings)) draw w.server.store envelope

  unfoldable pub act : World S → Action → World S
  unfolding handle announce broadcast_each
  act w (message envelope uuid now draw works) =
      let handled = submitted w envelope uuid now draw in
      record { server = after_smtp handled w.server; hub = announce works handled.effects w.hub }
  act w (request r works) =
      let reply = handle (over_engine layer env) w.server r in
      record { server = reply.server; hub = broadcast_each works 0 reply.events w.hub }
  act w (joins c) = record w { hub = join c w.hub }
  act w (leaves c) = record w { hub = leave c w.hub }

  -- The worlds that are reached from one by actions which pass a test.
  pub data Leads (p : Action → Bool) (w : World S) : World S → Type 0 where
    here : Leads p w w
    next :
        {v : World S}
        → Leads p w v
        → (action : Action) → p action ≡ true
        → is_fresh v.hub action ≡ true
        → Leads p w (act v action)

  -- The id that Engine.Set makes of a message.
  abbrev pub message_id : Text → Time → RawHeaders → Text
  message_id uuid now headers = id_of layer env.std rfc1123z rfc3339 uuid now headers

  -- The message that is read from the bytes, if any, gets another id.
  abbrev pub gets_other_id : Text → Text → Time → Outcome (RawHeaders × Reader) → Bool
  gets_other_id id uuid now (err e) = true
  gets_other_id id uuid now (ok (headers, body)) = not (message_id uuid now headers == id)

  -- An action that neither asks for the deletion of the email nor stores another under its id.
  abbrev pub leaves_email : Text → Action → Bool
  leaves_email id (message envelope uuid now draw works) =
      gets_other_id id uuid now (env.std.read_message envelope.data_bytes)
  leaves_email id (request r works) = spares id r
  leaves_email id (joins c) = true
  leaves_email id (leaves c) = true

  -- An action that does not store an email under the id.
  abbrev pub stores_others : Text → Action → Bool
  stores_others id (message envelope uuid now draw works) =
      gets_other_id id uuid now (env.std.read_message envelope.data_bytes)
  stores_others id (request r works) = true
  stores_others id (joins c) = true
  stores_others id (leaves c) = true

abbrev pub anything : Action → Bool
anything action = true
