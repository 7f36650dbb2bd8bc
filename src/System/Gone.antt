-- ===== src/System/Gone.antt =====
-- What becomes of an email that a client has deleted, while the program goes on.
use mock_my_mta.Base.{Text, ◌≡◌, ◌≢◌, sym, some, Bool, true, ℕ, ok}
use mathlib.Core.Path.{subst}
use mock_my_mta.Std.{Time}
use mock_my_mta.Storage.Layer.{Layer}
use mock_my_mta.Storage.Laws.{ForgetsRaw}
use mock_my_mta.Storage.Others.{KeepsOthers}
use mock_my_mta.Storage.Gone.{
  NeverRestores, IsGone, IsGone-read, set-IsGone, delete-IsGone, delete_all-IsGone,
  delete_email_by_id-IsGone,
}
use mock_my_mta.Storage.Stored.{WritesRaw}
use mock_my_mta.Storage.Engine.{Engine, default_scopes}
use mock_my_mta.Storage.Engine.Message.{set_message}
use mock_my_mta.Smtp.State.{handler-keeps}
use mock_my_mta.Http.{behavior_of}
use mock_my_mta.Http.Server.{Services}
use mock_my_mta.Http.Requests.{handle, download, delete_email}
use mock_my_mta.Http.Requests.State.{handle-keeps}
use mock_my_mta.Delivery.{over_engine}
use mock_my_mta.Delivery.Deleted.{deletion-left, not_downloaded}
use mock_my_mta.System.{
  World, Action, message, request, act, Leads, here, next, anything, message_id, stores_others,
}
use mock_my_mta.System
use mock_my_mta.System.Invariant.{set_message-keeps}
use mock_my_mta.System.Kept.{other_id}
use mock_my_mta.System.Started.{Leads-invariant}
use mock_my_mta.Command.{Configuration}
use mock_my_mta.Command.Startup.{Host, main}

module _ {S : Type 0} (layer : Layer S) (others : KeepsOthers layer) (never : NeverRestores layer)
    (env : Services (Engine S)) (rfc1123z rfc3339 : Time → Text) (id : Text) where
  act-IsGone :
      (w : World S) (action : Action)
      → stores_others layer env rfc1123z rfc3339 id action ≡ true
      → IsGone layer id w.server.store
      → IsGone layer id (act layer env rfc1123z rfc3339 w action).server.store
  unfolding act
  act-IsGone w (message envelope uuid now draw works) h gone =
      handler-keeps env.split_host (set_message layer env.std rfc1123z rfc3339 uuid now)
        env.std.read_message w.server.relays true (some (behavior_of w.server.settings)) draw
        (IsGone layer id) w.server.store envelope gone
        (λ headers body read.
          set_message-keeps layer env rfc1123z rfc3339 (IsGone layer id) uuid now w.server.store
            headers body gone
            (λ raw_email.
              set-IsGone layer id others w.server.store
                (message_id layer env rfc1123z rfc3339 uuid now headers) raw_email
                (other_id layer env rfc1123z rfc3339 id uuid now _ headers body read h) gone))
  act-IsGone w (request r works) h gone =
      handle-keeps (over_engine layer env) (IsGone layer id)
        (λ e other. delete-IsGone layer id never e other) (λ e. delete_all-IsGone layer id never e)
        w.server r gone
  act-IsGone w (System.joins c) h gone = gone
  act-IsGone w (System.leaves c) h gone = gone

  Leads-IsGone :
      (w v : World S)
      → Leads layer env rfc1123z rfc3339 (stores_others layer env rfc1123z rfc3339 id) w v
      → IsGone layer id w.server.store
      → IsGone layer id v.server.store
  Leads-IsGone w v here gone = gone
  Leads-IsGone w v (next r action allowed fresh) gone =
      act-IsGone _ action allowed (Leads-IsGone w _ r gone)

module _ {S : Type 0} (host : Host S) (layer : Layer S) (env : Services (Engine S))
    (rfc1123z rfc3339 : Time → Text) (w : World S) (id : Text) (works : ℕ → ℕ → Bool) where
  abbrev pub without : World S
  without = act layer env rfc1123z rfc3339 w (request (delete_email id) works)

  -- Whatever has happened since main has started the servers: if the deletion of an email is
  -- answered with 204, then no download of it is answered with 200, after any further messages,
  -- requests and websocket clients, until another message is stored under its id. Needed are layers
  -- that forget what they delete, in which a write spares the other emails and a deletion brings none
  -- back, and a configuration in which each layer for raw bytes also receives the writes.
  pub deleted_stays :
      (config : Configuration) (begun : World S)
      → main host layer env rfc1123z rfc3339 ≡ ok (config, begun)
      → WritesRaw (default_scopes config.storages)
      → ForgetsRaw layer
      → KeepsOthers layer
      → NeverRestores layer
      → Leads layer env rfc1123z rfc3339 anything begun w
      → (handle (over_engine layer env) w.server (delete_email id)).status ≡ 204
      → (v : World S)
      → Leads layer env rfc1123z rfc3339 (stores_others layer env rfc1123z rfc3339 id) without v
      → (handle (over_engine layer env) v.server (download id)).status ≢ 200
  unfolding act
  deleted_stays config begun runs writes forgets others never run done v later =
      let (routed, valid, clients) =
        Leads-invariant host layer env rfc1123z rfc3339 config begun w runs run in
      let (fine, left) = deletion-left (over_engine layer env) w.server id done in
      let gone =
        delete_email_by_id-IsGone layer id forgets (default_scopes config.storages) w.server.store
          routed writes fine in
      not_downloaded (over_engine layer env) v.server id (
        IsGone-read layer id v.server.store (
          Leads-IsGone layer others never env rfc1123z rfc3339 id without v later
            (subst (λ s. IsGone layer id s.store) (sym left) gone)))
