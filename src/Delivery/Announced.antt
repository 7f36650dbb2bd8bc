-- ===== src/Delivery/Announced.antt =====
-- What the clients of the websocket hub of http/websocket.go get of a message that is sent to the SMTP
-- server, as cmd/server/main.go connects the two.
use mock_my_mta.Base.{
  Text, ◌≡◌, refl, ap, ◌∙◌, sym, List, [], ◌∷◌, ◌++◌, Option, Bool, true, false, keep, any,
  if◌then◌else◌, ℕ, Outcome, ok, err, inl, inr, not, map, Bool-cases,
}
use mock_my_mta.Std.{Std, Time, RawHeaders, Reader}
use mock_my_mta.Storage.Config.{LayerConfig}
use mock_my_mta.Storage.Layer.{Layer}
use mock_my_mta.Storage.Laws.{KeepsRaw}
use mock_my_mta.Storage.Engine.{Engine}
use mock_my_mta.Storage.Engine.Message.{dated, serialize}
use mock_my_mta.Storage.Engine.Routes.{Routed}
use mock_my_mta.Storage.Stored.{WritesRaw, has_raw}
use mock_my_mta.Smtp.{
  Relays, Behavior, Envelope, Handled, Effect, slept, notified, sent, Delivery, relay_message,
  relay_all,
}
use mock_my_mta.Http.Hub.{Hub, broadcast}
use mock_my_mta.Http.Hub.Clients.{broadcast-clients}
use mock_my_mta.Http.Server.{new_email, Server, Services, respond}
use mock_my_mta.Smtp.Handler.{is_accepted, is_seen}
use mock_my_mta.Http.Requests.{handle, download}
use mock_my_mta.Delivery.{submit, after_smtp, over_engine, downloaded, accepted_download}

-- The callback that cmd/server/main.go sets, along the effects of a message.
unfoldable pub announce : (ℕ → Bool) → List Effect → Hub → Hub
announce works [] hub = hub
announce works (slept ms ∷ effects) hub = announce works effects hub
announce works (notified id ∷ effects) hub =
    announce works effects (broadcast works (new_email id) hub)
announce works (sent delivery ∷ effects) hub = announce works effects hub

announce-keep :
    (works : ℕ → Bool) (effects : List Effect) (hub : Hub)
    → announce works (keep is_seen effects) hub ≡ announce works effects hub
unfolding announce
announce-keep works [] hub = refl
announce-keep works (slept ms ∷ effects) hub = announce-keep works effects hub
announce-keep works (notified id ∷ effects) hub =
    announce-keep works effects (broadcast works (new_email id) hub)
announce-keep works (sent delivery ∷ effects) hub = announce-keep works effects hub

module _ (split_host : Text → Outcome Text) (envelope : Envelope) (works : ℕ → Bool)
    (hub : Hub) where
  announce-delivery :
      (rest : List Effect) (o : Outcome Delivery)
      → announce works rest hub ≡ hub
      → announce works (elim o [ err e ↦ rest | ok delivery ↦ sent delivery ∷ rest ]) hub ≡ hub
  unfolding announce
  announce-delivery rest (err e) h = h
  announce-delivery rest (ok delivery) h = h

  announce-relay_all :
      (relays : Relays) → announce works (relay_all split_host envelope relays) hub ≡ hub
  unfolding relay_all announce
  announce-relay_all [] = refl
  announce-relay_all ((name, r) ∷ relays) =
      let rest = announce-relay_all relays in
      elim (Bool-cases (not r.enabled)) [
        | inl off ↦ rw off rest
        | inr on ↦ elim (Bool-cases (not r.auto_relay)) [
          | inl manual ↦ rw (on, manual) rest
          | inr automatic ↦
              rw (on, automatic)
                (announce-delivery (relay_all split_host envelope relays)
                  (relay_message split_host r envelope) rest)
        ]
      ]

  -- A message that is announced reaches the hub once, before its relays.
  announce-notified :
      (observed : Bool) (id : Text) (relays : Relays)
      → observed ≡ true
      → announce works
          ((if observed then notified id ∷ [] else []) ++ relay_all split_host envelope relays)
          hub
        ≡ announce works (relay_all split_host envelope relays) (broadcast works (new_email id) hub)
  unfolding announce
  announce-notified true id relays h = refl
  announce-notified false id relays h = cc h

module _ {S : Type 0} (layer : Layer S) (std : Std) (rfc1123z rfc3339 : Time → Text) (uuid : Text)
    (now : Time) (split_host : Text → Outcome Text) (relays : Relays) (observed : Bool)
    (behavior : Option Behavior) (draw : ℕ) (e : Engine S) (envelope : Envelope) where
  abbrev submitted_message : Handled (Engine S)
  submitted_message =
      submit layer std rfc1123z rfc3339 uuid now split_host relays observed behavior draw e envelope

  -- If the SMTP server has the callback, a message that it accepts is announced once to each client
  -- of the hub, with an id under which the message that was read from the client's bytes can be
  -- downloaded, as Set has serialized it; a client that cannot be written to is dropped. Needed are layers that keep the raw bytes, and a
  -- configuration with a layer for raw bytes in which each such layer also receives the writes.
  pub accepted_announced :
      (laws : KeepsRaw layer) (cfgs : List LayerConfig)
      → Routed cfgs e
      → WritesRaw cfgs
      → any has_raw cfgs ≡ true
      → (env : Services (Engine S)) (server : Server (Engine S)) (works : ℕ → Bool) (hub : Hub)
      → observed ≡ true
      → is_accepted submitted_message.reply ≡ true
      → (headers : RawHeaders) × (body : Reader) × (id : Text) × (raw_email : Text)
        × (std.read_message envelope.data_bytes ≡ ok (headers, body))
        × (serialize (dated std rfc1123z now headers).0 body ≡ ok raw_email)
        × (handle (over_engine layer env) (after_smtp submitted_message server) (download id)
            ≡ respond (after_smtp submitted_message server) 200 (downloaded id raw_email))
        × ((announce works submitted_message.effects hub).clients ≡ keep works hub.clients)
        × ((announce works submitted_message.effects hub).received
            ≡ hub.received ++ map (λ c. (c, new_email id)) (keep works hub.clients))
  accepted_announced laws cfgs routed writes some_raw env server works hub watched accepted =
      let (headers, body, id, raw_email, read, serialized, replies, seen) =
        accepted_download layer std rfc1123z rfc3339 uuid now split_host relays observed behavior
          draw e envelope laws cfgs routed writes some_raw env server accepted in
      let after = broadcast works (new_email id) hub in
      let told : announce works submitted_message.effects hub ≡ after =
        sym (announce-keep works submitted_message.effects hub)
        ∙ ap (λ effects. announce works effects hub) seen
        ∙ announce-keep works _ hub
        ∙ announce-notified split_host envelope works hub observed id relays watched
        ∙ announce-relay_all split_host envelope works after relays in
      let (clients, received) = broadcast-clients works (new_email id) hub in
      (
        headers,
        body,
        id,
        raw_email,
        read,
        serialized,
        replies,
        ap (λ h. h.clients) told ∙ clients,
        ap (λ h. h.received) told ∙ received,
      )
