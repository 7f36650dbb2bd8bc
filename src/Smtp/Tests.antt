-- ===== src/Smtp/Tests.antt =====
-- Runs of the theorems on one relay and a storage that counts.
use mock_my_mta.Base.{
  Text, lit, ◌==◌, ◌≡◌, refl, [], ◌∷◌, Option, none, some, true, false, Outcome, ok, ℕ, suc,
  is_some, keep, Error,
}
use Prim.Native.Nat.{min}
use mock_my_mta.Base.Int.{pos, pos_part}
use mock_my_mta.Std.{RawHeaders, Reader}
use mock_my_mta.Std.Ascii.{ascii_std}
use mock_my_mta.Smtp.{Relay, Relays, Envelope, Behavior, relay_all, rejection, handler, accept}
use mock_my_mta.Smtp.Relays.{automatic, calls, relay_all-deliveries}
use mock_my_mta.Smtp.Rejection.{count_below, rejection_rate}
use mock_my_mta.Smtp.Handler.{is_accepted, run, Stored, handler-Stored}

abbrev forward : Relay
forward = record {
  enabled = true;
  auto_relay = true;
  addr = lit "mx:25";
  username = lit "user";
  password = lit "p";
  mechanism = lit "LOGIN";
}

abbrev two_relays : Relays
two_relays = (lit "a", forward) ∷ (lit "b", record forward { enabled = false }) ∷ []

abbrev host_of : Text → Outcome Text
host_of addr = ok addr

abbrev note : Envelope
note = record { sender = lit "x"; recipients = lit "y" ∷ []; data_bytes = lit "hello" }

-- A storage that counts the messages.
abbrev counted : ℕ → RawHeaders → Reader → (ℕ × Text) × Option Error
counted n headers body = ((suc n, lit "id"), none)

abbrev always : Behavior
always = record { reject_rate = pos 100; reject_message = lit "no"; delay_ms = pos 5 }

relay_all-deliveries_example :
    relay_all host_of note two_relays
    ≡ calls host_of note.sender note.recipients note.data_bytes (keep automatic two_relays)
relay_all-deliveries_example = relay_all-deliveries host_of note two_relays

calm_accepted :
    is_accepted (run host_of counted ascii_std.read_message two_relays true none 42 0 note).reply
    ≡ true
unfolding handler rejection accept ◌==◌
calm_accepted = refl

handler-Stored_example :
    Stored host_of counted ascii_std.read_message two_relays true none 42 0 note
      (run host_of counted ascii_std.read_message two_relays true none 42 0 note)
handler-Stored_example =
    handler-Stored host_of counted ascii_std.read_message two_relays true none 42 0 note
      calm_accepted

rejection_rate_example :
    count_below
      (λ draw.
        is_some
          (rejection host_of counted ascii_std.read_message two_relays true (some always) draw))
      100
    ≡ min 100 (pos_part always.reject_rate)
rejection_rate_example =
    rejection_rate host_of counted ascii_std.read_message two_relays true always
