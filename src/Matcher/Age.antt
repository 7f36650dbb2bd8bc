-- ===== src/Matcher/Age.antt =====
-- parseCustomDuration of storage/matcher/parser.go.
use mock_my_mta.Base.{
  Text, lit, ◌==◌, ◌≡◌, refl, ap, ◌∙◌, [], ◌∷◌, ◌++◌, Option, none, some, Bool, true, false, ◌&&◌,
  if◌then◌else◌, leb, ℕ, zero, suc, ◌+◌, ◌-◌, ◌*◌, ◌/◌, ◌%◌, ◌≤◌, ◌<◌, all, arith, Outcome, ok, err,
  failed, itoa, itoa_acc, digits_value, digits_value-itoa,
}
use mock_my_mta.Base.Dict.{Dict, lookup}
use mock_my_mta.Base.Int.{ℤ, pos, negsuc, ◌*ℤ◌, two_63, two_64, mul_exact, mul_overflow}
use mock_my_mta.Std.{Std, Duration}
use mock_my_mta.Matcher.Tokens.{is_blank, span}
use mock_my_mta.Matcher.Tokens.Progress.{Stops, span-append}

abbrev pub is_digit : ℕ → Bool
is_digit c = leb b'0' c && leb c b'9'

-- The units of the four regular expressions, with the hours that each stands for.
abbrev pub units : Dict ℕ
units =
    (lit "d", 24)
    ∷ (lit "day", 24)
    ∷ (lit "days", 24)
    ∷ (lit "w", 168)
    ∷ (lit "week", 168)
    ∷ (lit "weeks", 168)
    ∷ (lit "month", 720)
    ∷ (lit "months", 720)
    ∷ (lit "y", 8760)
    ∷ (lit "year", 8760)
    ∷ (lit "years", 8760)
    ∷ []

-- time.Hour
abbrev pub hour : ℕ
hour = 3600000000000

-- strconv.ParseInt(digits, 10, 32), and the product of durations.
unfoldable pub hours_of : Text → ℕ → Outcome Duration
hours_of digits multiplier =
    let n = digits_value 0 digits in
    if leb n 2147483647
    then ok (pos n *ℤ pos multiplier *ℤ pos hour)
    else err (failed (lit "value out of range"))

unfoldable pub unit_of : Text → Option ℕ
unit_of u = lookup u units

module _ (std : Std) where
  -- The expressions want digits, white space and a unit, and at most one of them fits.
  unfoldable pub parse_custom_duration : Text → Outcome Duration
  unfolding hours_of unit_of span
  parse_custom_duration value =
      let number = span is_digit value in
      let unit = span is_blank number.1 in
      if number.0 == [] then std.parse_duration value else elim (unit_of unit.1) [
        | none ↦ std.parse_duration value
        | some multiplier ↦ hours_of number.0 multiplier
      ]

all_digits-itoa_acc :
    (f n : ℕ) (out : Text)
    → all is_digit out ≡ true
    → (all is_digit (itoa_acc f n out) ≡ true) × ((itoa_acc f n out == []) ≡ false)
unfolding itoa_acc ◌==◌
all_digits-itoa_acc zero n out h = (ground arith, refl)
all_digits-itoa_acc (suc f) n out h =
    ground (arith, all_digits-itoa_acc f (n / 10) ((48 + n % 10) ∷ out))

all_digits-itoa : (n : ℕ) → (all is_digit (itoa n) ≡ true) × ((itoa n == []) ≡ false)
unfolding itoa
all_digits-itoa n = all_digits-itoa_acc n n [] refl

-- A unit begins with a letter.
unit-Stops : (u : Text) (m : ℕ) → unit_of u ≡ some m → Stops is_digit u × Stops is_blank u
unfolding unit_of lookup ◌==◌
unit-Stops [] m h = (tt, tt)
unit-Stops (c ∷ u) m h = ground arith

hours_of-itoa : (n m : ℕ) → n ≤ 2147483647 → hours_of (itoa n) m ≡ ok (pos n *ℤ pos m *ℤ pos hour)
unfolding hours_of
hours_of-itoa n m small = rw digits_value-itoa (ground arith)

module _ (std : Std) where
  abbrev custom : Text → Text × Text → Outcome Duration
  custom value number =
      if number.0 == []
      then std.parse_duration value
      else elim (unit_of (span is_blank number.1).1) [
        | none ↦ std.parse_duration value
        | some multiplier ↦ hours_of number.0 multiplier
      ]

  custom-of :
      (value : Text) (number : Text × Text) (digits rest : Text)
      → number ≡ (digits, rest)
      → custom value number ≡ custom value (digits, rest)
  custom-of value number digits rest e = ap (custom value) e

  -- A number of days, weeks, months or years below 2 ^ 31, written with the unit right behind it,
  -- is that many hours in the 64-bit arithmetic of durations.
  parse_custom_duration-itoa :
      (n m : ℕ) (u : Text)
      → unit_of u ≡ some m
      → n ≤ 2147483647
      → parse_custom_duration std (itoa n ++ u) ≡ ok (pos n *ℤ pos m *ℤ pos hour)
  unfolding parse_custom_duration
  parse_custom_duration-itoa n m u e small =
      let digits = all_digits-itoa n in
      let stops = unit-Stops u m e in
      custom-of (itoa n ++ u) (span is_digit (itoa n ++ u)) (itoa n) u
        (span-append is_digit (itoa n) u digits.0 stops.0)
      ∙ rw (digits.1, span-append is_blank [] u refl stops.1, e) (hours_of-itoa n m small)

  -- A number below 2 ^ 31, written in decimal with a unit of days, weeks, months or years right
  -- behind it, is parsed to the product of the number and the unit's hours, in nanoseconds, if that
  -- product is within the range of a duration, which is less than 2 ^ 63.
  pub parse_custom_duration_exact :
      (n m : ℕ) (u : Text)
      → unit_of u ≡ some m
      → n ≤ 2147483647
      → n * m * hour < two_63
      → parse_custom_duration std (itoa n ++ u) ≡ ok (pos (n * m * hour))
  parse_custom_duration_exact n m u e small fits =
      parse_custom_duration-itoa n m u e small
      ∙ ap (λ (d : ℤ). ok (d *ℤ pos hour)) (mul_exact n m (omega arith))
      ∙ ap ok (mul_exact (n * m) hour fits)

  -- Past that range, while the product is less than 2 ^ 64, the parse reports no error and gives a
  -- negative duration: the product less 2 ^ 64.
  pub parse_custom_duration_overflow :
      (n m : ℕ) (u : Text)
      → unit_of u ≡ some m
      → n ≤ 2147483647
      → two_63 ≤ n * m * hour
      → n * m * hour < two_64
      → parse_custom_duration std (itoa n ++ u) ≡ ok (negsuc (two_64 - n * m * hour - 1))
  parse_custom_duration_overflow n m u e small past fits =
      parse_custom_duration-itoa n m u e small
      ∙ ap (λ (d : ℤ). ok (d *ℤ pos hour)) (mul_exact n m (omega arith))
      ∙ ap ok (mul_overflow (n * m) hour past fits)

  -- A number with the unit "m" is no month: it is left to time.ParseDuration, which reads minutes.
  pub parse_custom_duration_minutes :
      (n : ℕ)
      → parse_custom_duration std (itoa n ++ lit "m") ≡ std.parse_duration (itoa n ++ lit "m")
  unfolding parse_custom_duration unit_of lookup ◌==◌
  parse_custom_duration_minutes n =
      let digits = all_digits-itoa n in
      custom-of (itoa n ++ lit "m") (span is_digit (itoa n ++ lit "m")) (itoa n) (lit "m")
        (span-append is_digit (itoa n) (lit "m") digits.0 refl)
      ∙ rw digits.1
