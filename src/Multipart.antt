-- ===== src/Multipart.antt =====
-- storage/multipart: the tree of a parsed email, its headers, and what a leaf says of itself
-- (multipart.go, leaf_node.go, attachment_node.go, multipart_node.go).
pub mod Walk
pub mod Attachments
pub mod Body
pub mod Fields
pub mod Parse
pub mod Preview
pub mod Printing
pub mod Tree
mod Tests
use mock_my_mta.Base.{
  Text, lit, ◌==◌, Outcome, ok, err, Option, none, some, List, [], ◌∷◌, ℕ, Bool, not, ◌&&◌, ◌||◌,
  if◌then◌else◌, length, drop, ◌++◌, eqb,
}
use mock_my_mta.Base.Texts.{has_prefix, trim_prefix, trim_suffix, trim_space, trim_byte}
use mock_my_mta.Base.Dict.{Dict, lookup, insert}
use mock_my_mta.Std.{Std, RawHeaders, MediaType}

-- `headers`: values by lower-case key.
abbrev pub Headers : Type 0
Headers = Dict (List Text)

pub record Leaf : Type 0 where
  pub headers : Headers
  pub body : Text

-- leafNode and multipartNode; the field RelatedStartCID is never set.
mutual
  pub data Node : Type 0 where
    leaf : Leaf → Node
    multi : Headers → Nodes → Node

  pub data Nodes : Type 0 where
    nil : Nodes
    cons : Node → Nodes → Nodes

unfoldable pub get_headers : Node → Headers
get_headers (leaf l) = l.headers
get_headers (multi h ps) = h

-- The elements of a slice of nodes.
abbrev pub elements : Nodes → List Node
elements nil = []
elements (cons p ps) = p ∷ elements ps

unfoldable pub as_leaf : Node → Option Leaf
as_leaf (leaf l) = some l
as_leaf (multi h ps) = none

abbrev pub first_value : Option (List Text) → Text
first_value none = []
first_value (some []) = []
first_value (some (v ∷ vs)) = v

-- strings.Split(s, ";"), behind a part that is already read.
unfoldable pub split_semicolons : Text → Text → List Text
split_semicolons part [] = part ∷ []
split_semicolons part (c ∷ s) =
    let same = split_semicolons (part ++ (c ∷ [])) s in
    let next = split_semicolons [] s in if eqb c b';' then part ∷ next else same

-- The first part of a Content-Disposition that names a file (the loop of parseFilenameManual).
unfoldable pub filename_of_parts : List Text → Text
unfolding trim_space trim_byte has_prefix
filename_of_parts [] = []
filename_of_parts (part ∷ parts) =
    let trimmed = trim_space part in
    if has_prefix trimmed (lit "filename=")
    then trim_byte b'"' (drop 9 trimmed)
    else filename_of_parts parts

-- parseFilenameManual
unfoldable pub parse_filename_manual : Text → Text
unfolding filename_of_parts split_semicolons
parse_filename_manual disposition = filename_of_parts (split_semicolons [] disposition)

module _ (std : Std) where
  open std use {to_lower, parse_media_type, base64, quoted_printable, charset_decoder}

  -- newHeaders
  unfoldable pub new_headers : RawHeaders → Headers
  new_headers [] = []
  new_headers ((k, v) ∷ values) = insert (to_lower k) v (new_headers values)

  -- headers.get, and getHeaderValues
  unfoldable pub get_values : Headers → Text → List Text
  get_values h name = elim (lookup (to_lower name) h) [ none ↦ [] | some vs ↦ vs ]

  -- getHeaderValue
  unfoldable pub get_header_value : Headers → Text → Text
  unfolding get_values
  get_header_value h key = first_value (some (get_values h key))

  -- getContentType
  unfoldable pub get_content_type : Headers → Text
  unfolding get_header_value
  get_content_type h = get_header_value h (lit "Content-Type")

  -- The media type of some headers, with the error ignored.
  unfoldable pub media_type : Headers → Text
  media_type h = (parse_media_type (get_content_type h)).media

  unfoldable pub is_attachment : Leaf → Bool
  is_attachment l =
      has_prefix (get_header_value l.headers (lit "Content-Disposition")) (lit "attachment")

  unfoldable pub is_plain_text : Leaf → Bool
  is_plain_text l = has_prefix (get_content_type l.headers) (lit "text/plain")

  unfoldable pub is_html : Leaf → Bool
  is_html l = has_prefix (get_content_type l.headers) (lit "text/html")

  unfoldable pub is_watch_html : Leaf → Bool
  is_watch_html l = has_prefix (get_content_type l.headers) (lit "text/watch-html")

  unfoldable pub get_content_transfer_encoding : Leaf → Text
  get_content_transfer_encoding l = get_header_value l.headers (lit "Content-Transfer-Encoding")

  unfoldable pub get_content_id : Leaf → Text
  get_content_id l =
      trim_suffix (trim_prefix (get_header_value l.headers (lit "Content-ID")) (lit "<")) (lit ">")

  abbrev charset_param : MediaType → Text
  charset_param t = elim t.fault [
    | some e ↦ []
    | none ↦ elim (lookup (lit "charset") t.params) [ none ↦ [] | some v ↦ v ]
  ]

  unfoldable pub get_charset : Leaf → Text
  get_charset l =
      let ct = get_content_type l.headers in
      if ct == [] then [] else charset_param (parse_media_type ct)

  unfoldable pub is_utf8_charset : Text → Bool
  is_utf8_charset charset =
      let c = to_lower (trim_space charset) in
      c == lit "utf-8" || c == lit "utf8" || c == lit "us-ascii" || c == lit "ascii"

  -- A value that a decoder gives, or the bytes as they are if it fails.
  abbrev or_raw : Text → Outcome Text → Text
  or_raw raw (ok d) = d
  or_raw raw (err e) = raw

  -- Step 1 of GetDecodedBody: Content-Transfer-Encoding.
  unfoldable pub decode_transfer : Leaf → Text
  decode_transfer l =
      let encoding = to_lower (get_content_transfer_encoding l) in
      if encoding == lit "base64"
      then or_raw l.body (base64 l.body)
      else if encoding == lit "quoted-printable"
      then or_raw l.body (quoted_printable l.body)
      else l.body

  -- Step 2: the charset.
  unfoldable pub decode_charset : Text → Text → Text
  decode_charset charset decoded =
      if not (charset == []) && not (is_utf8_charset charset)
      then elim (charset_decoder charset) [
        | none ↦ decoded
        | some decoder ↦ or_raw decoded (decoder decoded)
      ]
      else decoded

  unfoldable pub get_decoded_body : Leaf → Text
  unfolding decode_transfer decode_charset
  get_decoded_body l = decode_charset (get_charset l) (decode_transfer l)

  -- AttachmentNode.GetContentType
  unfoldable pub get_attachment_type : Leaf → Text
  get_attachment_type l = get_header_value l.headers (lit "Content-Type")

  abbrev filename_param : Text → MediaType → Text
  filename_param disposition t = elim t.fault [
    | some e ↦ parse_filename_manual disposition
    | none ↦ elim (lookup (lit "filename") t.params) [ none ↦ [] | some v ↦ v ]
  ]

  unfoldable pub get_filename : Leaf → Text
  get_filename l =
      let disposition = get_header_value l.headers (lit "Content-Disposition") in
      if disposition == [] then [] else filename_param disposition (parse_media_type disposition)

  unfoldable pub get_size : Leaf → ℕ
  get_size l = length l.body
