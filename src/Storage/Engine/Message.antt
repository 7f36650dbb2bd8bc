-- ===== src/Storage/Engine/Message.antt =====
-- Engine.Set of storage/engine.go, which gives a message its date and its id, and serializeMessage of
-- storage/storage_memory.go.
use mock_my_mta.Base.{
  Text, lit, ◌==◌, eq_refl, ◌≡◌, refl, ap, ◌∙◌, sym, List, [], ◌∷◌, ◌++◌, Option, none, some, Bool,
  true, false, if◌then◌else◌, Outcome, ok, err, is_ok, Error, failed, Bool-cases, Option-cases, inl,
  inr,
}
use mock_my_mta.Base.Dict.{lookup, insert, lookup-insert}
use mock_my_mta.Std.{Std, Time, RawHeaders, Reader}
use mock_my_mta.Storage.Layer.{Layer}
use mock_my_mta.Storage.Engine.{Engine, error_text, set_with_id}

abbrev no_date : Error
no_date = failed (lit "mail: header not in message")

-- mail.Header.Date on the values of the header.
abbrev pub date_of : Std → Option (List Text) → Outcome Time
date_of std none = err no_date
date_of std (some []) = err no_date
date_of std (some (date ∷ dates)) = if date == [] then err no_date else std.parse_date date

unfoldable pub header_date : Std → RawHeaders → Outcome Time
header_date std headers = date_of std (lookup (lit "Date") headers)

header_lines : Text → List Text → Text
header_lines key [] = []
header_lines key (value ∷ values) = key ++ (lit ": " ++ (value ++ (10 ∷ header_lines key values)))

-- serializeMessage, for the order in which the map of the headers is walked.
unfoldable pub serialize_headers : RawHeaders → Text
unfolding header_lines
serialize_headers [] = []
serialize_headers ((key, values) ∷ headers) = header_lines key values ++ serialize_headers headers

unfoldable pub serialize : RawHeaders → Reader → Outcome Text
unfolding serialize_headers
serialize headers body = elim body.fault [
  | some error ↦ err error
  | none ↦ ok (serialize_headers headers ++ (10 ∷ body.content))
]

-- The format time.RFC1123Z, and the current time.
module _ (std : Std) (rfc1123z : Time → Text) (now : Time) where
  -- The headers with a date, where there was none.
  unfoldable pub with_date : RawHeaders → RawHeaders
  with_date headers = elim (lookup (lit "Date") headers) [
    | none ↦ insert (lit "Date") (rfc1123z now ∷ []) headers
    | some dates ↦ headers
  ]

  -- The headers with a date that can be read, and the date.
  unfoldable pub dated : RawHeaders → RawHeaders × Time
  unfolding header_date with_date
  dated headers =
      let present = with_date headers in
      elim (header_date std present) [
        | ok date ↦ (present, date)
        | err error ↦ (insert (lit "Date") (rfc1123z now ∷ []) present, now)
      ]

-- Set, with the identifier that uuid.New gives and the format time.RFC3339.
module _ {S : Type 0} (layer : Layer S) (std : Std) (rfc1123z rfc3339 : Time → Text) (uuid : Text)
    (now : Time) (e : Engine S) where
  unfoldable pub set_message : RawHeaders → Reader → (Engine S × Text) × Option Error
  unfolding dated serialize
  set_message headers body =
      let (present, date) = dated std rfc1123z now headers in
      let id = rfc3339 date ++ (lit "-" ++ uuid) in
      elim (serialize present body) [
        | err error ↦ ((e, []), some (failed (lit "cannot serialize email: " ++ error_text error)))
        | ok raw_email ↦
            let (written, error) = set_with_id layer e id raw_email in ((written, id), error)
      ]

-- What mail.ParseDate makes of a date that time.RFC1123Z has written: it can be read.
abbrev pub WritesDates : Std → (Time → Text) → Type 0
WritesDates std rfc1123z =
    (t : Time) → ((rfc1123z t == []) ≡ false) × (is_ok (std.parse_date (rfc1123z t)) ≡ true)

module _ (std : Std) (rfc1123z : Time → Text) (now : Time) (headers : RawHeaders) where
  abbrev stamped : RawHeaders
  stamped = insert (lit "Date") (rfc1123z now ∷ []) headers

  abbrev is_dated : RawHeaders → Bool
  is_dated h = is_ok (header_date std h)

  picked :
      (o : Outcome Time) (present other : RawHeaders)
      → (elim o as (λ _. RawHeaders × Time) [
        | ok date ↦ (present, date)
        | err error ↦ (other, now)
      ]).0
        ≡ (if is_ok o then present else other)
  picked (ok date) present other = refl
  picked (err error) present other = refl

  stamped_found : lookup (lit "Date") stamped ≡ some (rfc1123z now ∷ [])
  stamped_found =
      lookup-insert (lit "Date") (lit "Date") (rfc1123z now ∷ []) headers
      ∙ ap (λ b. if b then some (rfc1123z now ∷ []) else lookup (lit "Date") headers)
          (eq_refl (lit "Date"))

  stamped-is_dated : WritesDates std rfc1123z → is_dated stamped ≡ true
  unfolding header_date
  stamped-is_dated writes =
      ap (λ o. is_ok (date_of std o)) stamped_found
      ∙ ap (λ b. is_ok (if b then err no_date else std.parse_date (rfc1123z now))) (writes now).0
      ∙ (writes now).1

  abbrev restamped : RawHeaders → RawHeaders
  restamped h = if is_dated h then h else insert (lit "Date") (rfc1123z now ∷ []) h

  dated-restamped :
      (dated std rfc1123z now headers).0 ≡ restamped (with_date std rfc1123z now headers)
  unfolding dated
  dated-restamped =
      let present = with_date std rfc1123z now headers in
      picked (header_date std present) present (insert (lit "Date") (rfc1123z now ∷ []) present)

  with_date-missing :
      lookup (lit "Date") headers ≡ none
      → (with_date std rfc1123z now headers ≡ stamped) × (is_dated headers ≡ false)
  unfolding with_date header_date
  with_date-missing missing =
      (rw (with_date, missing) refl, ap (λ o. is_ok (date_of std o)) missing)

  with_date-there :
      (dates : List Text)
      → lookup (lit "Date") headers ≡ some dates
      → with_date std rfc1123z now headers ≡ headers
  unfolding with_date
  with_date-there dates there = rw (with_date, there) refl

  dated-cases :
      WritesDates std rfc1123z
      → (dated std rfc1123z now headers).0 ≡ (if is_dated headers then headers else stamped)
  dated-cases writes = elim (Option-cases (lookup (lit "Date") headers)) [
    | inl missing ↦
        let (fresh, undated) = with_date-missing missing in
        dated-restamped
        ∙ ap restamped fresh
        ∙ ap (λ b. if b then stamped else insert (lit "Date") (rfc1123z now ∷ []) stamped)
            (stamped-is_dated writes)
        ∙ ap (λ b. if b then headers else stamped) (sym undated)
    | inr (dates, there) ↦ dated-restamped ∙ ap restamped (with_date-there dates there)
  ]

  -- If the dates that the program writes can be read, the headers that Set stores are those of the
  -- message if their date can be read, and else those with the current time as their date; so
  -- their date can always be read.
  pub dated-readable :
      WritesDates std rfc1123z
      → ((dated std rfc1123z now headers).0 ≡ (if is_dated headers then headers else stamped))
        × (is_dated (dated std rfc1123z now headers).0 ≡ true)
  dated-readable writes = (
    dated-cases writes,
    ap is_dated (dated-cases writes) ∙ (elim (Bool-cases (is_dated headers)) [
      | inl readable ↦ rw readable readable
      | inr unreadable ↦ rw unreadable (stamped-is_dated writes)
    ]),
  )
