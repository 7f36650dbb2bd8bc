-- ===== src/Multipart/Fields.antt =====
-- The header fields of an email as storage/multipart/multipart.go reads them.
use mock_my_mta.Base.{Text, lit, List, [], ◌++◌, ok, err}
use mock_my_mta.Std.{Std, Address, Time, zero_time}
use mock_my_mta.Multipart.{Node, get_headers, get_header_value}
use mock_my_mta.Multipart.Tree.{decode_header}

module _ (std : Std) where
  unfoldable pub parse_addresses : Text → List Address
  parse_addresses addresses = elim (std.parse_address_list addresses) [ err e ↦ [] | ok l ↦ l ]

  unfoldable pub parse_address : Text → Address
  parse_address address = elim (std.parse_address address) [
    | err e ↦ record { name = []; address = address }
    | ok a ↦ a
  ]

  -- A header of the root, decoded.
  unfoldable pub root_header : Node → Text → Text
  root_header n key = decode_header std (get_header_value std (get_headers n) key)

  unfoldable pub get_from : Node → Address
  unfolding parse_address root_header
  get_from n = parse_address (root_header n (lit "From"))

  unfoldable pub get_tos : Node → List Address
  unfolding parse_addresses root_header
  get_tos n = parse_addresses (root_header n (lit "To"))

  unfoldable pub get_ccs : Node → List Address
  unfolding parse_addresses root_header
  get_ccs n = parse_addresses (root_header n (lit "Cc"))

  unfoldable pub get_recipients : Node → List Address
  unfolding get_tos get_ccs
  get_recipients n = get_tos n ++ get_ccs n

  unfoldable pub get_subject : Node → Text
  unfolding root_header
  get_subject n = root_header n (lit "Subject")

  unfoldable pub get_date : Node → Time
  get_date n = elim (std.parse_date (get_header_value std (get_headers n) (lit "Date"))) [
    | err e ↦ zero_time
    | ok t ↦ t
  ]
