-- ===== src/Std.antt =====
-- What the program calls in packages whose code is not in the repository (mime, mime/multipart,
-- net/mail, encoding/base64, golang.org/x/text, time, regexp, path/filepath, os, and the Unicode tables
-- behind `strings.ToLower`): a record of functions that every definition takes as an argument.
pub mod Ascii
use mock_my_mta.Base.{Text, Outcome, Error, Option, List, Bool}
use mock_my_mta.Base.Dict.{Dict}
use mock_my_mta.Base.Int.{ℤ, pos}

-- mail.Address, and `storage.EmailAddress`, which has the same two fields.
pub record Address : Type 0 where
  pub name : Text
  pub address : Text

-- The three results of mime.ParseMediaType.
pub record MediaType : Type 0 where
  pub media : Text
  pub params : Dict Text
  pub fault : Option Error

-- A time.Time: nanoseconds since the zero time.
abbrev pub Time : Type 0
Time = ℤ

abbrev pub zero_time : Time
zero_time = pos 0

-- An io.Reader: what it gives, and the error that it ends with, if it is not io.EOF.
pub record Reader : Type 0 where
  pub content : Text
  pub fault : Option Error

-- A header map as net/mail and mime/multipart hand it over.
abbrev pub RawHeaders : Type 0
RawHeaders = Dict (List Text)

-- The parts that NextPart yields, and the error that ends the loop, if it is not io.EOF.
pub record Parts : Type 0 where
  pub yielded : List (RawHeaders × Reader)
  pub fault : Option Error

-- A time.Duration, in nanoseconds.
abbrev pub Duration : Type 0
Duration = ℤ

pub record Std : Type 0 where
  -- strings.ToLower, strings.EqualFold
  pub to_lower : Text → Text
  pub equal_fold : Text → Text → Bool
  pub parse_media_type : Text → MediaType
  -- mime.WordDecoder.DecodeHeader
  pub decode_word : Text → Outcome Text
  pub parse_address : Text → Outcome Address
  pub parse_address_list : Text → Outcome (List Address)
  -- mail.ParseDate
  pub parse_date : Text → Outcome Time
  pub base64 : Text → Outcome Text
  pub quoted_printable : Text → Outcome Text
  -- ianaindex.IANA.Encoding(name), then NewDecoder().Bytes
  pub charset_decoder : Text → Option (Text → Outcome Text)
  -- multipart.NewReader and NextPart, from the boundary and the body
  pub next_parts : Text → Reader → Parts
  pub read_message : Text → Outcome (RawHeaders × Reader)
  -- filepath.Join of a folder and a name, filepath.Base, and the paths of a list that
  -- filepath.Glob lists for a pattern
  pub join : Text → Text → Text
  pub base : Text → Text
  pub glob : Text → List Text → List Text
  -- What os.Create reports for a path, if it fails
  pub create : Text → Option Text
  -- regexp.MustCompile(pattern).ReplaceAllString(text, replacement)
  pub replace_regexp : Text → Text → Text → Text
  -- time.Parse with the layout 2006-01-02, and time.ParseDuration
  pub parse_day : Text → Outcome Time
  pub parse_duration : Text → Outcome Duration
