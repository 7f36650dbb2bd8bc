-- ===== src/Delivery.antt =====
-- The way of a message through the program, as cmd/server/main.go puts it together: the SMTP handler
-- of smtp/smtpd.go stores it through the engine of storage/engine.go, and the HTTP server of
-- http/httpd.go reads it from the same engine.
mod Tests
pub mod Announced
pub mod Deleted
use mock_my_mta.Base.{
  Text, lit, ◌≡◌, refl, ap, ◌∙◌, sym, List, [], ◌∷◌, ◌++◌, Option, none, some, Bool, true, false,
  keep, any, if◌then◌else◌, ℕ, Outcome, ok, err, Error, failed, Outcome-cases, inl, inr, not, map,
  Bool-cases,
}
use mock_my_mta.Std.{Std, Time, RawHeaders, Reader}
use mock_my_mta.Storage.Config.{LayerConfig}
use mock_my_mta.Storage.Layer.{Layer}
use mock_my_mta.Storage.Laws.{KeepsRaw}
use mock_my_mta.Storage.Engine.{Engine, set_with_id, get_raw_email, error_text}
use mock_my_mta.Storage.Engine.Message.{dated, serialize, set_message}
use mock_my_mta.Storage.Engine.Routes.{Routed}
use mock_my_mta.Storage.Engine.Service.{engine_layer}
use mock_my_mta.Storage.Stored.{WritesRaw, has_raw, get_raw_email-set_with_id}
use mock_my_mta.Smtp.{
  Relays, Behavior, Envelope, Handled, Effect, slept, notified, sent, Delivery, relay_message,
  relay_all,
}
use mock_my_mta.Http.Hub.{Hub, broadcast}
use mock_my_mta.Http.Hub.Clients.{broadcast-clients}
use mock_my_mta.Http.Server.{new_email, Server, Services, Reply, bytes, respond, refuse, Payload}
use mock_my_mta.Smtp.Handler.{run, is_accepted, is_seen, handler-Stored}
use mock_my_mta.Http.Reads.{download_email}
use mock_my_mta.Http.Requests.{handle, download}

module _ {S : Type 0} (layer : Layer S) (std : Std) (rfc1123z rfc3339 : Time → Text) (uuid : Text)
    (now : Time) where
  submitted :
      (e e' : Engine S) (id j : Text) (o : Outcome Text)
      → (elim o as (λ _. (Engine S × Text) × Option Error) [
        | err error ↦ ((e, []), some (failed (lit "cannot serialize email: " ++ error_text error)))
        | ok raw_email ↦
            let (written, error) = set_with_id layer e id raw_email in ((written, id), error)
      ])
        ≡ ((e', j), none)
      → (raw_email : Text) × (o ≡ ok raw_email)
        × (set_with_id layer e j raw_email ≡ (e', none))
        × (j ≡ id)
  submitted e e' id j (ok raw_email) h = (
    raw_email,
    refl,
    ap (λ i. set_with_id layer e i raw_email) (sym (ap (λ r. r.0.1) h)) ∙ ap (λ r. (r.0.0, r.1)) h,
    sym (ap (λ r. r.0.1) h),
  )
  submitted e e' id j (err x) h = cc h

  -- The id that Set makes.
  abbrev pub id_of : RawHeaders → Text
  id_of headers = rfc3339 (dated std rfc1123z now headers).1 ++ (lit "-" ++ uuid)

  set_message-ok :
      (e e' : Engine S) (headers : RawHeaders) (body : Reader) (id : Text)
      → set_message layer std rfc1123z rfc3339 uuid now e headers body ≡ ((e', id), none)
      → (raw_email : Text) × (serialize (dated std rfc1123z now headers).0 body ≡ ok raw_email)
        × (set_with_id layer e id raw_email ≡ (e', none))
        × (id ≡ id_of headers)
  unfolding set_message
  set_message-ok e e' headers body id h = submitted e e' _ id _ h

-- What a client gets who downloads an email.
abbrev pub downloaded : Text → Text → Payload
downloaded id raw_email =
    bytes
      ((lit "Content-Type", lit "message/rfc822")
        ∷ (lit "Content-Disposition", lit "attachment; filename=\"" ++ (id ++ lit ".eml\""))
        ∷ [])
      raw_email

pub download-found :
    {S : Type 0} (env : Services S) (server : Server S) (id raw_email : Text)
    → env.storage.get_raw_email server.store id ≡ ok raw_email
    → handle env server (download id) ≡ respond server 200 (downloaded id raw_email)
unfolding handle download_email
download-found env server id raw_email found =
    ap
      (λ o. elim o as (λ _. Reply _) [
        | err e ↦ refuse server 500 (lit "cannot get raw email (id=" ++ (id ++ lit ")")) e
        | ok content ↦ respond server 200 (downloaded id content)
      ])
      found

-- The server over what the SMTP handler leaves, with the engine as its storage.
abbrev pub after_smtp : {S : Type 0} → Handled (Engine S) → Server (Engine S) → Server (Engine S)
after_smtp handled server = record server { store = handled.state }

abbrev pub over_engine : {S : Type 0} → Layer S → Services (Engine S) → Services (Engine S)
over_engine layer env = record env { storage = engine_layer layer }

module _ {S : Type 0} (layer : Layer S) (std : Std) (rfc1123z rfc3339 : Time → Text) (uuid : Text)
    (now : Time) (split_host : Text → Outcome Text) (relays : Relays) (observed : Bool)
    (behavior : Option Behavior) (draw : ℕ) (e : Engine S) (envelope : Envelope) where
  -- The handler of the SMTP server over the engine.
  abbrev pub submit : Handled (Engine S)
  submit =
      run split_host (set_message layer std rfc1123z rfc3339 uuid now) std.read_message relays
        observed behavior draw e envelope

  -- A message that is accepted is in the engine that the handler leaves, with the id that Set makes.
  pub accepted_stored :
      (laws : KeepsRaw layer) (cfgs : List LayerConfig)
      → Routed cfgs e
      → WritesRaw cfgs
      → any has_raw cfgs ≡ true
      → is_accepted submit.reply ≡ true
      → (headers : RawHeaders) × (body : Reader) × (raw_email : Text) × (std.read_message
            envelope.data_bytes
          ≡ ok (headers, body))
        × (serialize (dated std rfc1123z now headers).0 body ≡ ok raw_email)
        × (get_raw_email layer submit.state (id_of layer std rfc1123z rfc3339 uuid now headers)
            ≡ ok raw_email)
        × (keep is_seen submit.effects
            ≡ keep is_seen (
                (if observed
                  then notified (id_of layer std rfc1123z rfc3339 uuid now headers) ∷ []
                  else [])
                ++ relay_all split_host envelope relays))
  accepted_stored laws cfgs routed writes some_raw accepted =
      let (headers, body, s', id, read, set, state, seen) =
        handler-Stored split_host (set_message layer std rfc1123z rfc3339 uuid now) std.read_message
          relays observed behavior draw e envelope accepted in
      let (raw_email, serialized, stored, same) =
        set_message-ok layer std rfc1123z rfc3339 uuid now e s' headers body id set in
      let kept =
        get_raw_email-set_with_id layer laws cfgs e routed writes some_raw id raw_email
          (ap (λ r. r.1) stored) in
      (
        headers,
        body,
        raw_email,
        read,
        serialized,
        ap (get_raw_email layer submit.state) (sym same)
            ∙ ap (λ x. get_raw_email layer x id) (state ∙ sym (ap (λ r. r.0) stored))
            ∙ kept,
        seen
            ∙ ap
                (λ i. keep is_seen (
                  (if observed then notified i ∷ [] else [])
                  ++ relay_all split_host envelope relays))
                same,
      )

  -- A message that the SMTP server accepts can be downloaded over HTTP: there is an id under which
  -- the client gets the message as Set has serialized it, with a date, and this is the id that is
  -- announced, if there is a callback. Needed are layers that keep the raw bytes, and a
  -- configuration with a layer for raw bytes in which each such layer also receives the writes.
  pub accepted_download :
      (laws : KeepsRaw layer) (cfgs : List LayerConfig)
      → Routed cfgs e
      → WritesRaw cfgs
      → any has_raw cfgs ≡ true
      → (env : Services (Engine S)) (server : Server (Engine S)) → is_accepted submit.reply ≡ true
      → (headers : RawHeaders) × (body : Reader) × (id : Text) × (raw_email : Text)
        × (std.read_message envelope.data_bytes ≡ ok (headers, body))
        × (serialize (dated std rfc1123z now headers).0 body ≡ ok raw_email)
        × (handle (over_engine layer env) (after_smtp submit server) (download id)
            ≡ respond (after_smtp submit server) 200 (downloaded id raw_email))
        × (keep is_seen submit.effects
            ≡ keep is_seen (
                (if observed then notified id ∷ [] else [])
                ++ relay_all split_host envelope relays))
  accepted_download laws cfgs routed writes some_raw env server accepted =
      let (headers, body, raw_email, read, serialized, found, seen) =
        accepted_stored laws cfgs routed writes some_raw accepted in
      let id = id_of layer std rfc1123z rfc3339 uuid now headers in
      (
        headers,
        body,
        id,
        raw_email,
        read,
        serialized,
        download-found (over_engine layer env) (after_smtp submit server) id raw_email found,
        seen,
      )
