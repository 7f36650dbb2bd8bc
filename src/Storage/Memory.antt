-- ===== src/Storage/Memory.antt =====
-- storage/storage_memory.go: the cache of parsed emails.
pub mod Cache
pub mod Load
pub mod Mailboxes
use mock_my_mta.Base.{
  Text, lit, ◌==◌, List, [], ◌∷◌, ◌++◌, Option, none, some, Bool, true, false, not, if◌then◌else◌,
  ℕ, length, Outcome, ok, err, Error, failed, unimplemented, ◌>>=◌, member, map,
}
use mock_my_mta.Base.Dict.{Dict, lookup, insert, erase}
use mock_my_mta.Base.Int.{ℤ, ltb_ℤ}
use mock_my_mta.Std.{Std, Address, Time}
use mock_my_mta.Multipart.{Leaf, Node}
use mock_my_mta.Multipart.Attachments.{get_attachments}
use mock_my_mta.Multipart.Body.{get_body}
use mock_my_mta.Multipart.Parse.{parse_email}
use mock_my_mta.Matcher.{Matcher, match_all}
use mock_my_mta.Matcher.Query.{parse_query}
use mock_my_mta.Storage.{
  EmailHeader, AttachmentHeader, Attachment, Version, raw, parse_version, version_to_string,
  new_email_header, attachment_header, attachment_of,
}
use mock_my_mta.Storage.Layer.{Layer}
use mock_my_mta.Storage.Order.{sort, text_lt}
use mock_my_mta.Storage.Page.{paginate}

-- Bodies by the name of their version.
pub record Memory : Type 0 where
  pub headers : Dict EmailHeader
  pub bodies : Dict (Dict Text)
  pub attachments : Dict (List AttachmentHeader)
  pub attachment : Dict Attachment
  pub raw_emails : Dict Text

abbrev pub empty : Memory
empty = record { headers = []; bodies = []; attachments = []; attachment = []; raw_emails = [] }

-- emailID + "/" + attachmentID
abbrev pub attachment_key : Text → Text → Text
attachment_key id att = id ++ (b'/' ∷ att)

abbrev pub not_found : Text → Text → Error
not_found what id = failed (what ++ lit " not found in memory cache: " ++ id)

abbrev found_or {ℓ} : {A : Type ℓ} → Error → Option A → Outcome A
found_or e none = err e
found_or e (some a) = ok a

unfoldable pub get_email_by_id : Memory → Text → Outcome EmailHeader
get_email_by_id m id = found_or (not_found (lit "email") id) (lookup id m.headers)

abbrev body_or_empty : Option Text → Text
body_or_empty none = []
body_or_empty (some body) = body

unfoldable pub get_body_version : Memory → Text → Version → Outcome Text
get_body_version m id raw = err (unimplemented (lit "GetBodyVersion(raw)") (lit "memoryStorage"))
get_body_version m id version = do
  versions ← found_or (not_found (lit "email") id) (lookup id m.bodies)
  ok (body_or_empty (lookup (version_to_string version) versions))

unfoldable pub get_attachments_of : Memory → Text → Outcome (List AttachmentHeader)
get_attachments_of m id = found_or (not_found (lit "email") id) (lookup id m.attachments)

unfoldable pub get_attachment_of : Memory → Text → Text → Outcome Attachment
get_attachment_of m id att =
    found_or (not_found (lit "attachment") (attachment_key id att))
      (lookup (attachment_key id att) m.attachment)

unfoldable pub get_raw_email : Memory → Text → Outcome Text
get_raw_email m id = found_or (not_found (lit "raw email") id) (lookup id m.raw_emails)

unfoldable pub delete_all_emails : Memory → Memory × Option Error
delete_all_emails m = (empty, none)

-- The loop of DeleteEmailByID over the attachments that are listed.
unfoldable pub erase_attachments : Text → List AttachmentHeader → Dict Attachment → Dict Attachment
erase_attachments id [] d = d
erase_attachments id (att ∷ atts) d = erase_attachments id atts (erase (attachment_key id att.id) d)

abbrev listed : Option (List AttachmentHeader) → List AttachmentHeader
listed none = []
listed (some atts) = atts

unfoldable pub delete_email_by_id : Memory → Text → Memory × Option Error
unfolding erase_attachments
delete_email_by_id m id = (
  record {
    headers = erase id m.headers;
    bodies = erase id m.bodies;
    attachments = erase id m.attachments;
    attachment = erase_attachments id (listed (lookup id m.attachments)) m.attachment;
    raw_emails = erase id m.raw_emails;
  },
  none,
)

-- The set of recipients, in the order in which they are met.
unfoldable pub add_recipients : List Address → List Text → List Text
add_recipients [] names = names
add_recipients (to ∷ tos) names = add_recipients tos (
    if to.address == []
    then names
    else if member to.address names
    then names
    else names ++ (to.address ∷ []))

unfoldable pub recipients_of : Dict EmailHeader → List Text → List Text
unfolding add_recipients
recipients_of [] names = names
recipients_of ((id, header) ∷ headers) names =
    recipients_of headers (add_recipients header.tos names)

unfoldable pub get_mailboxes : Memory → Outcome (List Text)
unfolding recipients_of
get_mailboxes m = ok (sort text_lt (recipients_of m.headers []))

-- results[i].Date.After(results[j].Date)
abbrev pub later : EmailHeader → EmailHeader → Bool
later a b = ltb_ℤ b.date a.date

module _ (std : Std) where
  -- The bodies that are cached: each version that the header lists, but "raw".
  unfoldable pub cache_bodies : Node → List Text → Dict Text → Dict Text
  cache_bodies mp [] d = d
  cache_bodies mp (name ∷ names) d = cache_bodies mp names (
      if name == lit "raw" then d else elim (parse_version name) [
        | err e ↦ d
        | ok version ↦ insert (version_to_string version) (get_body std mp name) d
      ])

  unfoldable pub attachment_headers : Dict Leaf → List AttachmentHeader
  attachment_headers [] = []
  attachment_headers ((att, leaf) ∷ leaves) =
      attachment_header std att leaf ∷ attachment_headers leaves

  unfoldable pub cache_attachments : Text → Dict Leaf → Dict Attachment → Dict Attachment
  cache_attachments id [] d = d
  cache_attachments id ((att, leaf) ∷ leaves) d =
      cache_attachments id leaves (insert (attachment_key id att) (attachment_of std att leaf) d)

  -- What setWithID keeps of an email that is parsed.
  unfoldable pub store : Memory → Text → Text → Node → Memory
  unfolding cache_bodies attachment_headers cache_attachments
  store m id raw_email mp =
      let header = new_email_header std id mp in
      let leaves = get_attachments std mp in
      record {
        headers = insert id header m.headers;
        bodies = insert id (cache_bodies mp header.body_versions []) m.bodies;
        attachments = insert id (attachment_headers leaves) m.attachments;
        attachment = cache_attachments id leaves m.attachment;
        raw_emails = insert id raw_email m.raw_emails;
      }

  unfoldable pub set_with_id : Memory → Text → Text → Memory × Option Error
  unfolding store
  set_with_id m id raw_email = elim (parse_email std raw_email) [
    | err e ↦ (m, some (failed (lit "memory storage: cannot parse email " ++ id)))
    | ok mp ↦ (store m id raw_email mp, none)
  ]

  module _ (now : Time) where
    -- The emails that match, from the raw bytes that are kept.
    unfoldable pub matching : Memory → List Matcher → Dict EmailHeader → List EmailHeader
    matching m matchers [] = []
    matching m matchers ((id, header) ∷ headers) =
        let rest = matching m matchers headers in
        elim (lookup id m.raw_emails) [
          | none ↦ rest
          | some raw_email ↦ elim (parse_email std raw_email) [
            | err e ↦ rest
            | ok mp ↦ if match_all std now mp matchers then header ∷ rest else rest
          ]
        ]

    unfoldable pub search_emails : Memory → Text → ℤ → ℤ → Outcome (List EmailHeader × ℕ)
    unfolding matching
    search_emails m query page size = do
      matchers ← parse_query std query
      let results = sort later (matching m matchers m.headers)
      shown ← paginate results page size
      ok (shown, length results)

    abbrev pub memory_layer : Layer Memory
    memory_layer = record {
      get_mailboxes = get_mailboxes;
      get_email_by_id = get_email_by_id;
      get_body_version = get_body_version;
      get_attachments = get_attachments_of;
      get_attachment = get_attachment_of;
      search_emails = search_emails;
      get_raw_email = get_raw_email;
      delete_all_emails = delete_all_emails;
      delete_email_by_id = delete_email_by_id;
      set_with_id = set_with_id;
    }
