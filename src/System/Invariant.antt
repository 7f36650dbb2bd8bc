-- ===== src/System/Invariant.antt =====
-- What every order of steps keeps: the tables of the engine, the range of the settings, and the hub.

use mock_my_mta.Base.{
  Text, ◌≡◌, refl, ap, ◌∙◌, List, [], ◌∷◌, Option, some, Bool, true, ℕ, zero, suc, length, set, lit,
  ◌++◌, failed, Outcome, ok, err, Error, arith,
}
use mock_my_mta.Std.{Time, RawHeaders, Reader}
use mock_my_mta.Storage.Config.{LayerConfig}
use mock_my_mta.Storage.Layer.{Layer}
use mock_my_mta.Storage.Engine.{
  Engine, error_text, write_until, write_all, delete_all_emails, delete_email_by_id, set_with_id,
}
use mock_my_mta.Storage.Engine.Loops.{write_until-keeps, write_all-keeps}
use mock_my_mta.Storage.Engine.Message.{dated, serialize, set_message}
use mock_my_mta.Storage.Engine.Routes.{Routed}
use mock_my_mta.Smtp.{Effect, slept, notified, sent}
use mock_my_mta.Smtp.State.{handler-keeps}
use mock_my_mta.Http.{IsValid, behavior_of}
use mock_my_mta.Http.Server.{Services, Event, new_email}
use mock_my_mta.Http.Requests.{handle}
use mock_my_mta.Http.Requests.State.{handle-keeps, handle-IsValid}
use mock_my_mta.Http.Hub.{Hub, joins, leaves, broadcasts, Reach, next}
use mock_my_mta.Delivery.{over_engine}
use mock_my_mta.Delivery.Announced.{announce}
use mock_my_mta.System.{
  World, started, broadcast_each, Action, message, request, is_fresh, submitted, act, Leads, here,
  anything,
}
use mock_my_mta.System

set-length : {S : Type 0} (ss : List S) (i : ℕ) (s : S) → length (set ss i s) ≡ length ss
set-length [] i s = refl
set-length (t ∷ ss) zero s = refl
set-length (t ∷ ss) (suc i) s = ap suc (set-length ss i s)

module _ {S : Type 0} (write : S → S × Option Error) where
  -- The loops over the writable layers keep the number of the layers.
  write_until-length :
      (layers : List S) (is : List ℕ) → length (write_until write layers is).0 ≡ length layers
  write_until-length =
      write_until-keeps write (λ ss ts. length ts ≡ length ss) (λ ss. refl) (λ ss ts us a b. b ∙ a)
        (λ ss i s here. set-length ss i (write s).0)

  write_all-length :
      (layers : List S) (is : List ℕ) → length (write_all write layers is).0 ≡ length layers
  write_all-length =
      write_all-keeps write (λ ss ts. length ts ≡ length ss) (λ ss. refl) (λ ss ts us a b. b ∙ a)
        (λ ss i s here. set-length ss i (write s).0)

module _ {S : Type 0} (layer : Layer S) (cfgs : List LayerConfig) where
  -- The three methods that write keep the tables.
  written-Routed :
      (e : Engine S) (layers : List S)
      → length layers ≡ length e.all_layers
      → Routed cfgs e
      → Routed cfgs (record e { all_layers = layers })
  unfolding Routed
  written-Routed e layers same (len, reads, searches, writes, raws) =
      (same ∙ len, reads, searches, writes, raws)

  pub set-Routed :
      (e : Engine S) (id raw_email : Text)
      → Routed cfgs e
      → Routed cfgs (set_with_id layer e id raw_email).0
  unfolding set_with_id
  set-Routed e id raw_email =
      written-Routed e _
        (write_until-length (λ s. layer.set_with_id s id raw_email) e.all_layers e.write_layers)

  delete-Routed :
      (e : Engine S) (id : Text) → Routed cfgs e → Routed cfgs (delete_email_by_id layer e id).0
  unfolding delete_email_by_id
  delete-Routed e id =
      written-Routed e _
        (write_until-length (λ s. layer.delete_email_by_id s id) e.all_layers e.write_layers)

  delete_all-Routed : (e : Engine S) → Routed cfgs e → Routed cfgs (delete_all_emails layer e).0
  unfolding delete_all_emails
  delete_all-Routed e =
      written-Routed e _ (write_all-length layer.delete_all_emails e.all_layers e.write_layers)

announce-Reach :
    (works : ℕ → Bool) (effects : List Effect) (hub : Hub)
    → Reach hub
    → Reach (announce works effects hub)
unfolding announce
announce-Reach works [] hub r = r
announce-Reach works (slept ms ∷ effects) hub r = announce-Reach works effects hub r
announce-Reach works (notified id ∷ effects) hub r =
    announce-Reach works effects _ (next r (broadcasts works (new_email id)))
announce-Reach works (sent delivery ∷ effects) hub r = announce-Reach works effects hub r

broadcast_each-Reach :
    (works : ℕ → ℕ → Bool) (k : ℕ) (events : List Event) (hub : Hub)
    → Reach hub
    → Reach (broadcast_each works k events hub)
unfolding broadcast_each
broadcast_each-Reach works k [] hub r = r
broadcast_each-Reach works k (event ∷ events) hub r =
    broadcast_each-Reach works (suc k) events _ (next r (broadcasts (works k) event))

module _ {S : Type 0} (layer : Layer S) (env : Services (Engine S))
    (rfc1123z rfc3339 : Time → Text) where
  -- What Set leaves is the engine as it was, or after the message is written.
  pub set_message-keeps :
      (Holds : Engine S → Type 0) (uuid : Text) (now : Time) (e : Engine S) (headers : RawHeaders)
      (body : Reader)
      → Holds e
      → ((raw_email : Text)
          → Holds
              (set_with_id layer e
                (System.message_id layer env rfc1123z rfc3339 uuid now headers)
                raw_email).0)
      → Holds (set_message layer env.std rfc1123z rfc3339 uuid now e headers body).0.0
  unfolding set_message
  set_message-keeps Holds uuid now e headers body before after =
      serialized (serialize (dated env.std rfc1123z now headers).0 body)
    where
      id : Text
      id = System.message_id layer env rfc1123z rfc3339 uuid now headers

      serialized :
          (o : Outcome Text)
          → Holds
              (elim o as (λ _. (Engine S × Text) × Option Error) [
                | err error ↦
                    ((e, []), some (failed (lit "cannot serialize email: " ++ error_text error)))
                | ok raw_email ↦
                    let (written, error) = set_with_id layer e id raw_email in
                    ((written, id), error)
              ]).0.0
      serialized (err error) = before
      serialized (ok raw_email) = after raw_email

  module _ (cfgs : List LayerConfig) where
    abbrev pub IsSound : World S → Type 0
    IsSound w = Routed cfgs w.server.store × IsValid w.server.settings × Reach w.hub

    act-IsSound :
        (w : World S) (action : Action)
        → is_fresh w.hub action ≡ true
        → IsSound w
        → IsSound (act layer env rfc1123z rfc3339 w action)
    unfolding act
    act-IsSound w (message envelope uuid now draw works) fresh (routed, valid, reach) = (
      handler-keeps env.split_host (set_message layer env.std rfc1123z rfc3339 uuid now)
          env.std.read_message w.server.relays true (some (behavior_of w.server.settings)) draw
          (Routed cfgs) w.server.store envelope routed
          (λ headers body read.
            set_message-keeps (Routed cfgs) uuid now w.server.store headers body routed
              (λ raw_email. set-Routed layer cfgs w.server.store _ raw_email routed)),
      valid,
      announce-Reach works (submitted layer env rfc1123z rfc3339 w envelope uuid now draw).effects
          w.hub reach,
    )
    act-IsSound w (request r works) fresh (routed, valid, reach) = (
      handle-keeps (over_engine layer env) (Routed cfgs) (λ e id. delete-Routed layer cfgs e id)
          (λ e. delete_all-Routed layer cfgs e) w.server r routed,
      handle-IsValid (over_engine layer env) w.server r valid,
      broadcast_each-Reach works 0 (handle (over_engine layer env) w.server r).events w.hub reach,
    )
    act-IsSound w (System.joins c) fresh (routed, valid, reach) =
        (routed, valid, next reach (joins c (ground arith) (ground arith)))
    act-IsSound w (System.leaves c) fresh (routed, valid, reach) =
        (routed, valid, next reach (leaves c))

    pub Leads-IsSound :
        (p : Action → Bool) (w v : World S)
        → Leads layer env rfc1123z rfc3339 p w v
        → IsSound w
        → IsSound v
    Leads-IsSound p w v here sound = sound
    Leads-IsSound p w v (System.next r action allowed fresh) sound =
        act-IsSound _ action fresh (Leads-IsSound p w _ r sound)
