-- ===== src/System/Kept.antt =====
-- What becomes of a message that the SMTP server has accepted, while the program goes on.
use mock_my_mta.Base.{
  Text, ◌==◌, ◌≡◌, refl, ap, ◌∙◌, sym, some, Bool, true, false, any, ℕ, Outcome, ok, ok_injective,
  arith,
}
use mock_my_mta.Std.{Time, RawHeaders, Reader}
use mock_my_mta.Storage.Layer.{Layer}
use mock_my_mta.Storage.Laws.{KeepsRaw, SparesOthers}
use mock_my_mta.Storage.Others.{KeepsOthers, engine-KeepsOthers}
use mock_my_mta.Storage.Spared.{engine-SparesOthers}
use mock_my_mta.Storage.Stored.{WritesRaw, has_raw}
use mock_my_mta.Storage.Engine.{Engine, get_raw_email, default_scopes}
use mock_my_mta.Storage.Engine.Message.{set_message, dated, serialize}
use mock_my_mta.Smtp.{Envelope}
use mock_my_mta.Smtp.Handler.{is_accepted}
use mock_my_mta.Smtp.State.{handler-keeps}
use mock_my_mta.Http.{behavior_of}
use mock_my_mta.Http.Server.{Services, respond}
use mock_my_mta.Http.Requests.{handle, download}
use mock_my_mta.Http.Requests.Spared.{handle-spared}
use mock_my_mta.Delivery.{over_engine, downloaded, accepted_stored, download-found}
use mock_my_mta.System.{
  World, started, Action, message, request, is_fresh, submitted, act, Leads, here, next, anything,
  message_id, gets_other_id, leaves_email,
}
use mock_my_mta.System
use mock_my_mta.System.Invariant.{set_message-keeps}
use mock_my_mta.System.Started.{Leads-invariant}
use mock_my_mta.Command.{Configuration}
use mock_my_mta.Command.Startup.{Host, main}

-- The id of a message that is stored under another one.
pub other_id :
    {S : Type 0} (layer : Layer S) (env : Services (Engine S)) (rfc1123z rfc3339 : Time → Text)
    (id uuid : Text) (now : Time) (o : Outcome (RawHeaders × Reader)) (headers : RawHeaders)
    (body : Reader)
    → o ≡ ok (headers, body)
    → gets_other_id layer env rfc1123z rfc3339 id uuid now o ≡ true
    → (message_id layer env rfc1123z rfc3339 uuid now headers == id) ≡ false
other_id layer env rfc1123z rfc3339 id uuid now o headers body read h =
    let named = sym (ap (gets_other_id layer env rfc1123z rfc3339 id uuid now) read) ∙ h in
    ground arith

module _ {S : Type 0} (layer : Layer S) (others : KeepsOthers layer) (spares : SparesOthers layer)
    (env : Services (Engine S)) (rfc1123z rfc3339 : Time → Text) (id : Text) where
  abbrev raw_of : World S → Outcome Text
  raw_of w = get_raw_email layer w.server.store id

  act-leaves_email :
      (w : World S) (action : Action)
      → leaves_email layer env rfc1123z rfc3339 id action ≡ true
      → raw_of (act layer env rfc1123z rfc3339 w action) ≡ raw_of w
  unfolding act
  act-leaves_email w (message envelope uuid now draw works) h =
      let Holds : Engine S → Type 0 = λ e. get_raw_email layer e id ≡ raw_of w in
      handler-keeps env.split_host (set_message layer env.std rfc1123z rfc3339 uuid now)
        env.std.read_message w.server.relays true (some (behavior_of w.server.settings)) draw Holds
        w.server.store envelope refl
        (λ headers body read.
          set_message-keeps layer env rfc1123z rfc3339 Holds uuid now w.server.store headers body
            refl
            (λ raw_email.
              (engine-KeepsOthers layer others).kept w.server.store
                (message_id layer env rfc1123z rfc3339 uuid now headers) raw_email id
                (other_id layer env rfc1123z rfc3339 id uuid now _ headers body read h)))
  act-leaves_email w (request r works) h =
      handle-spared (over_engine layer env) (engine-SparesOthers layer spares) id w.server r h
  act-leaves_email w (System.joins c) h = refl
  act-leaves_email w (System.leaves c) h = refl

  Leads-leaves_email :
      (w v : World S)
      → Leads layer env rfc1123z rfc3339 (leaves_email layer env rfc1123z rfc3339 id) w v
      → raw_of v ≡ raw_of w
  Leads-leaves_email w v here = refl
  Leads-leaves_email w v (next r action allowed fresh) =
      act-leaves_email _ action allowed ∙ Leads-leaves_email w _ r

module _ {S : Type 0} (host : Host S) (layer : Layer S) (env : Services (Engine S))
    (rfc1123z rfc3339 : Time → Text) (w : World S) (envelope : Envelope) (uuid : Text) (now : Time)
    (draw : ℕ) (works : ℕ → Bool) where
  abbrev pub received : World S
  received = act layer env rfc1123z rfc3339 w (message envelope uuid now draw works)

  -- Whatever has happened since main has started the servers: a message that the SMTP server accepts
  -- can be downloaded under its id, with the bytes that Set has serialized, after any further
  -- messages, requests and websocket clients that neither ask for its deletion nor store another
  -- message under its id. Needed are layers that keep the raw bytes and spare the other emails, and a
  -- configuration with a layer for raw bytes in which each such layer also receives the writes.
  pub accepted_kept :
      (config : Configuration) (begun : World S)
      → main host layer env rfc1123z rfc3339 ≡ ok (config, begun)
      → WritesRaw (default_scopes config.storages)
      → any has_raw (default_scopes config.storages) ≡ true
      → KeepsRaw layer
      → KeepsOthers layer
      → SparesOthers layer
      → Leads layer env rfc1123z rfc3339 anything begun w
      → is_accepted (submitted layer env rfc1123z rfc3339 w envelope uuid now draw).reply ≡ true
      → (headers : RawHeaders) (body : Reader)
      → env.std.read_message envelope.data_bytes ≡ ok (headers, body)
      → (v : World S)
      → Leads layer env rfc1123z rfc3339
          (leaves_email layer env rfc1123z rfc3339
            (message_id layer env rfc1123z rfc3339 uuid now headers))
          received
          v
      → let id = message_id layer env rfc1123z rfc3339 uuid now headers in
        (raw_email : Text) × (serialize (dated env.std rfc1123z now headers).0 body ≡ ok raw_email)
        × (handle (over_engine layer env) v.server (download id)
            ≡ respond v.server 200 (downloaded id raw_email))
  unfolding act
  accepted_kept config begun runs writes some_raw keeps others spares run accepted headers body read
        v later =
      let (routed, valid, clients) =
        Leads-invariant host layer env rfc1123z rfc3339 config begun w runs run in
      let (headers', body', raw_email, read', serialized, found, seen) =
        accepted_stored layer env.std rfc1123z rfc3339 uuid now env.split_host w.server.relays true
          (some (behavior_of w.server.settings)) draw w.server.store envelope keeps
          (default_scopes config.storages) routed writes some_raw accepted in
      let same : (headers', body') ≡ (headers, body) = ok_injective _ _ (sym read' ∙ read) in
      let id = message_id layer env rfc1123z rfc3339 uuid now headers in
      (
        raw_email,
        sym (ap (λ m. serialize (dated env.std rfc1123z now m.0).0 m.1) same) ∙ serialized,
        download-found (over_engine layer env) v.server id raw_email (
            Leads-leaves_email layer others spares env rfc1123z rfc3339 id received v later
            ∙ sym (
                ap
                  (λ m.
                    get_raw_email layer received.server.store
                      (message_id layer env rfc1123z rfc3339 uuid now m.0))
                  same)
            ∙ found),
      )
