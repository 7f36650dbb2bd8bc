-- ===== src/Smtp/State.antt =====
-- What the handler of a message leaves of the storage.
use mock_my_mta.Base.{
  Text, ◌≡◌, refl, List, [], ◌∷◌, ◌++◌, Option, none, some, Bool, if◌then◌else◌, Outcome, ok, err,
  Error, ℕ,
}
use mock_my_mta.Std.{RawHeaders, Reader}
use mock_my_mta.Smtp.{
  Relays, Behavior, Envelope, Effect, notified, accepted, refused, failed_with, Handled, relay_all,
  delays, rejection, accept, handler,
}

module _ {S : Type 0} (split_host : Text → Outcome Text)
    (set_message : S → RawHeaders → Reader → (S × Text) × Option Error)
    (read_message : Text → Outcome (RawHeaders × Reader)) (relays : Relays) (observed : Bool)
    (behavior : Option Behavior) (draw : ℕ) (Holds : S → Type 0) (s : S) (envelope : Envelope)
    (before : Holds s)
    (stored : (headers : RawHeaders) (body : Reader)
      → read_message envelope.data_bytes ≡ ok (headers, body)
      → Holds (set_message s headers body).0.0) where
  accept-keeps :
      Holds
        (accept split_host set_message read_message relays observed behavior draw s envelope).state
  unfolding accept
  accept-keeps = read (read_message envelope.data_bytes) refl
    where
      waits : List Effect
      waits = delays split_host set_message read_message relays observed behavior draw

      result : Text → S → Option Error → Handled S
      result id s' error = elim error [
        | some e ↦ record { state = s'; effects = waits; reply = failed_with e }
        | none ↦
            let notices = if observed then notified id ∷ [] else [] in
            record {
              state = s';
              effects = waits ++ (notices ++ relay_all split_host envelope relays);
              reply = accepted;
            }
      ]

      put :
          (id : Text) (s' : S) (error : Option Error) → Holds s' → Holds (result id s' error).state
      put id s' none h = h
      put id s' (some e) h = h

      read :
          (o : Outcome (RawHeaders × Reader))
          → read_message envelope.data_bytes ≡ o
          → Holds
              (elim o as (λ _. Handled S) [
                | err e ↦ record { state = s; effects = waits; reply = failed_with e }
                | ok (headers, body) ↦
                    let ((s', id), error) = set_message s headers body in result id s' error
              ]).state
      read (err e) reads = before
      read (ok (headers, body)) reads =
          put (set_message s headers body).0.1 (set_message s headers body).0.0
            (set_message s headers body).1 (stored headers body reads)

  -- What the state has before a message, and after the storing of the message that is read from it,
  -- it has after the handler, however the handler ends.
  pub handler-keeps :
      Holds
        (handler split_host set_message read_message relays observed behavior draw s envelope).state
  unfolding handler
  handler-keeps =
      admitted (rejection split_host set_message read_message relays observed behavior draw)
    where
      admitted :
          (o : Option Text)
          → Holds
              (elim o as (λ _. Handled S) [
                | some message ↦ record {
                  state = s;
                  effects =
                      delays split_host set_message read_message relays observed behavior draw;
                  reply = refused 550 message;
                }
                | none ↦
                    accept split_host set_message read_message relays observed behavior draw s
                      envelope
              ]).state
      admitted none = accept-keeps
      admitted (some message) = before
