-- ===== src/Storage.antt =====
-- The data that the storage layers exchange (storage/storage.go), and the header of an email
-- (newEmailHeaderFromMultipart of storage/storage_memory.go, newEmailHeaderFromMultiPart of
-- storage/storage_filesystem.go).
pub mod Config
pub mod Page
pub mod Order
pub mod Layer
pub mod Memory
pub mod Sqlite
pub mod Files
pub mod Engine
pub mod Laws
pub mod Physical
pub mod Stored
pub mod Spared
pub mod Others
pub mod Gone
mod Tests
use mock_my_mta.Base.{
  Text, lit, ◌==◌, ◌≡◌, refl, List, [], ◌∷◌, ◌++◌, Bool, true, false, if◌then◌else◌, ℕ, Outcome, ok,
  err, failed, arith, eq_iff,
}
use mock_my_mta.Std.{Std, Address, Time}
use mock_my_mta.Multipart.{
  Leaf, Node, get_attachment_type, get_filename, get_size, get_decoded_body,
}
use mock_my_mta.Multipart.Attachments.{has_attachments}
use mock_my_mta.Multipart.Body.{get_body_versions}
use mock_my_mta.Multipart.Fields.{get_from, get_tos, get_ccs, get_subject, get_date}
use mock_my_mta.Multipart.Preview.{get_preview}

pub record EmailHeader : Type 0 where
  pub id : Text
  pub from : Address
  pub tos : List Address
  pub ccs : List Address
  pub subject : Text
  pub date : Time
  pub has_attachments : Bool
  pub preview : Text
  pub body_versions : List Text
  pub is_read : Bool

pub record AttachmentHeader : Type 0 where
  pub id : Text
  pub filename : Text
  pub content_type : Text
  pub size : ℕ

pub record Attachment : Type 0 where
  pub header : AttachmentHeader
  pub content : Text

-- EmailVersionType
pub data Version : Type 0 where
  raw plain_text html watch_html : Version

unfoldable pub parse_version : Text → Outcome Version
parse_version str =
    if str == lit "raw"
    then ok raw
    else if str == lit "plain-text"
    then ok plain_text
    else if str == lit "html"
    then ok html
    else if str == lit "watch-html"
    then ok watch_html
    else err (failed (lit "cannot parse email version type " ++ str))

-- emailVersionToString of storage/storage_sqlite.go
unfoldable pub version_to_string : Version → Text
version_to_string raw = lit "raw"
version_to_string plain_text = lit "plain-text"
version_to_string html = lit "html"
version_to_string watch_html = lit "watch-html"

-- The text of a version is parsed to the version.
pub parse_version-version_to_string : (v : Version) → parse_version (version_to_string v) ≡ ok v
unfolding parse_version version_to_string ◌==◌
parse_version-version_to_string raw = refl
parse_version-version_to_string plain_text = refl
parse_version-version_to_string html = refl
parse_version-version_to_string watch_html = refl

-- If a text is parsed to a version, the version's text is that text.
pub version_to_string_of_parse :
    (s : Text) (v : Version) → parse_version s ≡ ok v → version_to_string v ≡ s
unfolding parse_version version_to_string
version_to_string_of_parse s v h = ground (
  arith,
  eq_iff s (lit "raw"),
  eq_iff s (lit "plain-text"),
  eq_iff s (lit "html"),
  eq_iff s (lit "watch-html"),
)

module _ (std : Std) where
  unfoldable pub new_email_header : Text → Node → EmailHeader
  new_email_header id mp = record {
    id = id;
    from = get_from std mp;
    tos = get_tos std mp;
    ccs = get_ccs std mp;
    subject = get_subject std mp;
    date = get_date std mp;
    has_attachments = has_attachments std mp;
    preview = get_preview std mp;
    body_versions = get_body_versions std mp ++ (lit "raw" ∷ []);
    is_read = false;
  }

  -- The AttachmentHeader of an attachment, and the Attachment with its decoded body.
  unfoldable pub attachment_header : Text → Leaf → AttachmentHeader
  attachment_header id leaf = record {
    id = id;
    filename = get_filename std leaf;
    content_type = get_attachment_type std leaf;
    size = get_size std leaf;
  }

  unfoldable pub attachment_of : Text → Leaf → Attachment
  unfolding attachment_header
  attachment_of id leaf = record {
    header = attachment_header id leaf;
    content = get_decoded_body std leaf;
  }
