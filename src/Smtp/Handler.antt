-- ===== src/Smtp/Handler.antt =====
-- What the handler of a message does, by the error that it returns.
use mock_my_mta.Base.{
  Text, ◌≡◌, refl, ap, ◌∙◌, List, [], ◌∷◌, ◌++◌, Option, none, some, Bool, true, false,
  if◌then◌else◌, Outcome, ok, err, Error, Bool-cases, inl, inr, ℕ, keep,
}
use mock_my_mta.Base.Int.{pos, ltb_ℤ}
use mock_my_mta.Std.{RawHeaders, Reader}
use mock_my_mta.Smtp.{
  Relays, Behavior, Envelope, Effect, slept, notified, sent, Reply, accepted, refused, failed_with,
  Handled, relay_all, delays, rejection, accept, handler,
}

abbrev pub is_accepted : Reply → Bool
is_accepted accepted = true
is_accepted (refused code message) = false
is_accepted (failed_with e) = false

-- The effects that others see.
abbrev pub is_seen : Effect → Bool
is_seen (slept ms) = false
is_seen (notified id) = true
is_seen (sent delivery) = true

slept-unseen :
    (behavior : Option Behavior)
    → keep is_seen (elim behavior [
      | none ↦ []
      | some b ↦ if ltb_ℤ (pos 0) b.delay_ms then slept b.delay_ms ∷ [] else []
    ])
      ≡ []
slept-unseen none = refl
slept-unseen (some b) = elim (Bool-cases (ltb_ℤ (pos 0) b.delay_ms)) [
  | inl waits ↦ rw waits refl
  | inr no_wait ↦ rw no_wait refl
]

keep-append :
    {A : Type 0} (p : A → Bool) (xs ys : List A) → keep p (xs ++ ys) ≡ keep p xs ++ keep p ys
keep-append p [] ys = refl
keep-append p (x ∷ xs) ys = elim (Bool-cases (p x)) [
  | inl kept ↦ rw kept (ap (λ r. x ∷ r) (keep-append p xs ys))
  | inr dropped ↦ rw dropped (keep-append p xs ys)
]

module _ {S : Type 0} (split_host : Text → Outcome Text)
    (set_message : S → RawHeaders → Reader → (S × Text) × Option Error)
    (read_message : Text → Outcome (RawHeaders × Reader)) (relays : Relays) (observed : Bool)
    (behavior : Option Behavior) (draw : ℕ) where
  abbrev pub run : S → Envelope → Handled S
  run = handler split_host set_message read_message relays observed behavior draw

  -- The outcome of a message that is not rejected, in terms of the two calls that can fail.
  abbrev pub Stored : S → Envelope → Handled S → Type 0
  Stored s envelope h =
      (headers : RawHeaders) × (body : Reader) × (s' : S) × (id : Text) × (read_message
          envelope.data_bytes
        ≡ ok (headers, body))
      × (set_message s headers body ≡ ((s', id), none))
      × (h.state ≡ s')
      × (keep is_seen h.effects
          ≡ keep is_seen
              ((if observed then notified id ∷ [] else []) ++ relay_all split_host envelope relays))

  abbrev Silent : Handled S → Type 0
  Silent h = is_accepted h.reply ≡ false → keep is_seen h.effects ≡ []

  accept-Silent :
      (s : S) (envelope : Envelope)
      → Silent (accept split_host set_message read_message relays observed behavior draw s envelope)
  unfolding accept delays
  accept-Silent s envelope = read (read_message envelope.data_bytes)
    where
      waits : List Effect
      waits = delays split_host set_message read_message relays observed behavior draw

      stored :
          (id : Text) (s' : S) (error : Option Error)
          → Silent (elim error [
            | some e ↦ record { state = s'; effects = waits; reply = failed_with e }
            | none ↦
                let notices = if observed then notified id ∷ [] else [] in
                record {
                  state = s';
                  effects = waits ++ (notices ++ relay_all split_host envelope relays);
                  reply = accepted;
                }
          ])
      stored id s' none = λ h. cc h
      stored id s' (some e) = λ h. slept-unseen behavior

      read :
          (o : Outcome (RawHeaders × Reader))
          → Silent (elim o [
            | err e ↦ record { state = s; effects = waits; reply = failed_with e }
            | ok (headers, body) ↦
                let ((s', id), error) = set_message s headers body in
                elim error [
                  | some e ↦ record { state = s'; effects = waits; reply = failed_with e }
                  | none ↦
                      let notices = if observed then notified id ∷ [] else [] in
                      record {
                        state = s';
                        effects = waits ++ (notices ++ relay_all split_host envelope relays);
                        reply = accepted;
                      }
                ]
          ])
      read (err e) = λ h. slept-unseen behavior
      read (ok (headers, body)) =
          stored (set_message s headers body).0.1 (set_message s headers body).0.0
            (set_message s headers body).1

  -- A message that is not accepted is neither announced nor relayed.
  pub handler_silent :
      (s : S) (envelope : Envelope)
      → is_accepted (run s envelope).reply ≡ false
      → keep is_seen (run s envelope).effects ≡ []
  unfolding handler delays
  handler_silent s envelope =
      rejected (rejection split_host set_message read_message relays observed behavior draw)
    where
      rejected :
          (o : Option Text)
          → Silent (elim o [
            | some message ↦ record {
              state = s;
              effects = delays split_host set_message read_message relays observed behavior draw;
              reply = refused 550 message;
            }
            | none ↦
                accept split_host set_message read_message relays observed behavior draw s envelope
          ])
      rejected none = accept-Silent s envelope
      rejected (some message) = λ h. slept-unseen behavior

  StoredIf : S → Envelope → Handled S → Type 0
  StoredIf s envelope h = is_accepted h.reply ≡ true → Stored s envelope h

  accept-StoredIf :
      (s : S) (envelope : Envelope)
      → StoredIf s envelope
          (accept split_host set_message read_message relays observed behavior draw s envelope)
  unfolding accept delays StoredIf
  accept-StoredIf s envelope = read (read_message envelope.data_bytes) refl
    where
      waits : List Effect
      waits = delays split_host set_message read_message relays observed behavior draw

      told : Text → List Effect
      told id = (if observed then notified id ∷ [] else []) ++ relay_all split_host envelope relays

      result : Text → S → Option Error → Handled S
      result id s' error = elim error [
        | some e ↦ record { state = s'; effects = waits; reply = failed_with e }
        | none ↦ record { state = s'; effects = waits ++ told id; reply = accepted }
      ]

      stored :
          (headers : RawHeaders) (body : Reader) (id : Text) (s' : S) (error : Option Error)
          → read_message envelope.data_bytes ≡ ok (headers, body)
          → set_message s headers body ≡ ((s', id), error)
          → StoredIf s envelope (result id s' error)
      stored headers body id s' none reads sets = λ h. (
        headers,
        body,
        s',
        id,
        reads,
        sets,
        refl,
        keep-append is_seen waits (told id)
            ∙ ap (λ w. w ++ keep is_seen (told id)) (slept-unseen behavior),
      )
      stored headers body id s' (some e) reads sets = λ h. cc h

      read :
          (o : Outcome (RawHeaders × Reader))
          → read_message envelope.data_bytes ≡ o
          → StoredIf s envelope (elim o [
            | err e ↦ record { state = s; effects = waits; reply = failed_with e }
            | ok (headers, body) ↦
                let ((s', id), error) = set_message s headers body in
                elim error [
                  | some e ↦ record { state = s'; effects = waits; reply = failed_with e }
                  | none ↦ record { state = s'; effects = waits ++ told id; reply = accepted }
                ]
          ])
      read (err e) reads = λ h. cc h
      read (ok (headers, body)) reads =
          let put = set_message s headers body in
          stored headers body put.0.1 put.0.0 put.1 reads refl

  -- A message that is accepted was read and stored: the storage reported no error, the new state is
  -- the storage's, and then its id is announced, if there is a callback, before the relays get it.
  pub handler-Stored :
      (s : S) (envelope : Envelope)
      → is_accepted (run s envelope).reply ≡ true
      → Stored s envelope (run s envelope)
  unfolding handler StoredIf
  handler-Stored s envelope =
      admitted (rejection split_host set_message read_message relays observed behavior draw)
    where
      admitted :
          (o : Option Text)
          → StoredIf s envelope (elim o [
            | some message ↦ record {
              state = s;
              effects = delays split_host set_message read_message relays observed behavior draw;
              reply = refused 550 message;
            }
            | none ↦
                accept split_host set_message read_message relays observed behavior draw s envelope
          ])
      admitted none = accept-StoredIf s envelope
      admitted (some message) = λ h. cc h
