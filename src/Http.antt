-- ===== src/Http.antt =====
-- http/settings.go: the settings of the SMTP behaviour that a client of the API can change. The
-- child modules have the rest of the HTTP server.
mod Tests
pub mod Rewrite
pub mod Server
pub mod StandIns
pub mod Reads
pub mod Bulk
pub mod Listing
pub mod Static
pub mod Requests
pub mod Wait
pub mod Hub
pub mod Suggestions
use mock_my_mta.Base.{
  Text, lit, ◌==◌, eq_iff, ◌≡◌, ◌≢◌, refl, ap, List, [], ◌∷◌, Bool, true, false, if◌then◌else◌,
  ◌&&◌, not, ℕ, zero, suc, ltb, ◌≤◌, arith, Bool-cases, inl, inr, Outcome, ok, err, Error,
}
use mock_my_mta.Base.Int.{ℤ, pos, negsuc, ltb_ℤ, leb_ℤ, pos_part}
use mock_my_mta.Smtp.{Behavior}

-- SmtpSettings
pub record Settings : Type 0 where
  pub reject_rate : ℤ
  pub reject_message : Text
  pub delay_ms : ℤ
  pub bounce_rate : ℤ
  pub bounce_message : Text

abbrev pub reject_text : Text
reject_text = lit "550 Mailbox unavailable (mock rejection)"

abbrev pub bounce_text : Text
bounce_text = lit "Your message could not be delivered (mock bounce)"

-- The variable smtpSettings at the start.
abbrev pub initial_settings : Settings
initial_settings = record {
  reject_rate = pos 0;
  reject_message = reject_text;
  delay_ms = pos 0;
  bounce_rate = pos 0;
  bounce_message = bounce_text;
}

-- The two tests on a percentage, one behind the other.
unfoldable pub clamp_low : ℤ → ℤ
clamp_low n = if ltb_ℤ n (pos 0) then pos 0 else n

unfoldable pub clamp_rate : ℤ → ℤ
unfolding clamp_low
clamp_rate n = if ltb_ℤ (pos 100) (clamp_low n) then pos 100 else clamp_low n

unfoldable pub text_or : Text → Text → Text
text_or s default = if s == [] then default else s

unfoldable pub clamp : Settings → Settings
unfolding clamp_rate clamp_low text_or
clamp s = record {
  reject_rate = clamp_rate s.reject_rate;
  reject_message = text_or s.reject_message reject_text;
  delay_ms = clamp_low s.delay_ms;
  bounce_rate = clamp_rate s.bounce_rate;
  bounce_message = text_or s.bounce_message bounce_text;
}

-- handlePutSettings: the new value of smtpSettings, and the status with what is broadcast and
-- written back, from what encoding/json makes of the body.
unfoldable pub put_settings : Settings → Outcome Settings → Settings × (ℕ × Outcome Settings)
unfolding clamp
put_settings current (err e) = (current, (400, err e))
put_settings current (ok settings) = (clamp settings, (200, ok (clamp settings)))

-- The callback that cmd/server/main.go gives to SetGetBehavior.
unfoldable pub behavior_of : Settings → Behavior
behavior_of s = record {
  reject_rate = s.reject_rate;
  reject_message = s.reject_message;
  delay_ms = s.delay_ms;
}

-- The rates are percentages, the delay is not negative, and no message is empty.
abbrev pub IsValid : Settings → Type 0
IsValid s =
    (leb_ℤ (pos 0) s.reject_rate && leb_ℤ s.reject_rate (pos 100) ≡ true)
    × (leb_ℤ (pos 0) s.bounce_rate && leb_ℤ s.bounce_rate (pos 100) ≡ true)
    × (leb_ℤ (pos 0) s.delay_ms ≡ true)
    × ((s.reject_message == []) ≡ false)
    × ((s.bounce_message == []) ≡ false)

clamp_rate-range : (n : ℤ) → (leb_ℤ (pos 0) (clamp_rate n) && leb_ℤ (clamp_rate n) (pos 100)) ≡ true
unfolding clamp_rate clamp_low
clamp_rate-range (pos n) = ground arith
clamp_rate-range (negsuc n) = ground arith

clamp_low-range : (n : ℤ) → leb_ℤ (pos 0) (clamp_low n) ≡ true
unfolding clamp_low
clamp_low-range (pos n) = ground arith
clamp_low-range (negsuc n) = ground arith

text_or-filled : (s default : Text) → (default == []) ≡ false → (text_or s default == []) ≡ false
unfolding text_or
text_or-filled s default h = elim (Bool-cases (s == [])) [
  | inl e ↦ rw (e, h) refl
  | inr e ↦ rw (e, e) refl
]

clamp-IsValid : (s : Settings) → IsValid (clamp s)
unfolding clamp ◌==◌
clamp-IsValid s = (
  clamp_rate-range s.reject_rate,
  clamp_rate-range s.bounce_rate,
  clamp_low-range s.delay_ms,
  text_or-filled s.reject_message reject_text refl,
  text_or-filled s.bounce_message bounce_text refl,
)

-- The settings are valid after every request, if they were before: a body that cannot be read
-- leaves them as they are, and any other one, whatever it holds, is brought into range.
pub put_settings-IsValid :
    (current : Settings) (body : Outcome Settings)
    → IsValid current
    → IsValid (put_settings current body).0
unfolding put_settings
put_settings-IsValid current (err e) h = h
put_settings-IsValid current (ok settings) h = clamp-IsValid settings

clamp_rate-fixed : (n : ℤ) → (leb_ℤ (pos 0) n && leb_ℤ n (pos 100)) ≡ true → clamp_rate n ≡ n
unfolding clamp_rate clamp_low
clamp_rate-fixed (pos n) h = ground arith
clamp_rate-fixed (negsuc n) h = ground arith

clamp_low-fixed : (n : ℤ) → leb_ℤ (pos 0) n ≡ true → clamp_low n ≡ n
unfolding clamp_low
clamp_low-fixed (pos n) h = ground arith
clamp_low-fixed (negsuc n) h = ground arith

text_or-fixed : (s default : Text) → (s == []) ≡ false → text_or s default ≡ s
unfolding text_or
text_or-fixed s default h = rw h refl

-- Valid settings are taken over as they are, and answered with the status 200.
pub put_settings-valid :
    (current settings : Settings)
    → IsValid settings
    → put_settings current (ok settings) ≡ (settings, (200, ok settings))
unfolding put_settings clamp
put_settings-valid current settings (reject, bounce, delay, reject_filled, bounce_filled) =
    rw
      (
        put_settings,
        clamp,
        clamp_rate-fixed settings.reject_rate reject,
        clamp_rate-fixed settings.bounce_rate bounce,
        clamp_low-fixed settings.delay_ms delay,
        text_or-fixed settings.reject_message reject_text reject_filled,
        text_or-fixed settings.bounce_message bounce_text bounce_filled,
      )
      refl
