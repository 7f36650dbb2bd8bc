-- ===== src/Http/Reads.antt =====
-- The handlers of http/httpd.go that read one email or the mailboxes.
use mock_my_mta.Base.{
  Text, lit, List, [], ◌∷◌, ◌++◌, none, some, true, if◌then◌else◌, ℕ, length, ok, err, Error, itoa,
}
use mock_my_mta.Base.Texts.{contains}
use mock_my_mta.Multipart.{Leaf, Node, get_values, get_decoded_body}
use mock_my_mta.Multipart.Attachments.{get_part_by_cid}
use mock_my_mta.Multipart.Parse.{parse_email}
use mock_my_mta.Multipart.Tree.{get_all_headers, build_mime_tree}
use mock_my_mta.Storage.{Version, raw, plain_text, html, watch_html, parse_version}
use mock_my_mta.Storage.Engine.{error_text}
use mock_my_mta.Smtp.{relay_names}
use mock_my_mta.Http.Server.{
  Server, Services, Reply, aborted, error_message, mailboxes, email, relay_data, body, headers,
  mime_tree, attachments, bytes, respond, refuse, panics, mark,
}

-- EmailVersionType as the format %v shows it.
abbrev version_number : Version → ℕ
version_number raw = 0
version_number plain_text = 1
version_number html = 2
version_number watch_html = 3

abbrev of_email : Text → Text → Text
of_email text id = text ++ (lit " (id=" ++ (id ++ lit ")"))

abbrev pub cid_pattern : Text
cid_pattern = lit "src=[\"']cid:([^\"']+)[\"']"

module _ {S : Type 0} (env : Services S) (s : Server S) where
  unfoldable pub get_mailboxes : Reply S
  get_mailboxes = elim (env.storage.get_mailboxes s.store) [
    | err e ↦ refuse s 500 (lit "cannot get mailboxes") e
    | ok names ↦ respond s 200 (mailboxes names)
  ]

  -- getEmailByID: the email is shown as read, and remembered as read.
  unfoldable pub get_email_by_id : Text → Reply S
  unfolding mark
  get_email_by_id id = elim (env.storage.get_email_by_id s.store id) [
    | err e ↦ refuse s 500 (of_email (lit "cannot get email") id) e
    | ok header ↦
        respond (record s { read_emails = mark id s.read_emails }) 200
          (email (record header { is_read = true }))
  ]

  unfoldable pub get_relay_data : Text → Reply S
  get_relay_data id = elim (env.storage.get_email_by_id s.store id) [
    | err e ↦ refuse s 500 (of_email (lit "cannot get email") id) e
    | ok header ↦
        respond s 200 (relay_data (relay_names s.relays) header.from (header.tos ++ header.ccs))
  ]

  -- The HTML that a browser may show: sanitized, with the links to parts of the email resolved.
  unfoldable pub shown_body : Text → Version → Text → Text
  shown_body id raw text = text
  shown_body id plain_text text = text
  shown_body id version text =
      env.std.replace_regexp cid_pattern (env.sanitize text)
        (lit "src=\"/api/emails/" ++ (id ++ lit "/cid/$1\""))

  unfoldable pub get_body_version : Text → Text → Reply S
  unfolding shown_body
  get_body_version id name = elim (parse_version name) [
    | err e ↦
        refuse s 400 (lit "cannot parse body version " ++ (name ++ (lit " for email " ++ id))) e
    | ok version ↦ elim (env.storage.get_body_version s.store id version) [
      | err e ↦
          refuse s 500
            (lit "cannot get body version "
              ++ (itoa (version_number version) ++ (lit " for email " ++ id)))
            e
      | ok text ↦ respond s 200 (body (shown_body id version text))
    ]
  ]

  -- GetRawEmail and ParseEmailFromBytes, as four handlers chain them.
  abbrev with_raw : Text → (Text → Reply S) → Reply S
  with_raw id f = elim (env.storage.get_raw_email s.store id) [
    | err e ↦ refuse s 500 (of_email (lit "cannot get raw email") id) e
    | ok content ↦ f content
  ]

  abbrev with_parsed : Text → Text → (Node → Reply S) → Reply S
  with_parsed id content f = elim (parse_email env.std content) [
    | err e ↦ refuse s 500 (of_email (lit "cannot parse email") id) e
    | ok mp ↦ f mp
  ]

  unfoldable pub get_email_headers : Text → Reply S
  get_email_headers id = with_raw id λ raw_email.
      with_parsed id raw_email λ mp. respond s 200 (headers (get_all_headers env.std mp))

  unfoldable pub download_email : Text → Reply S
  download_email id = with_raw id λ raw_email. respond s 200 (
      bytes
        ((lit "Content-Type", lit "message/rfc822")
          ∷ (lit "Content-Disposition", lit "attachment; filename=\"" ++ (id ++ lit ".eml\""))
          ∷ [])
        raw_email)

  unfoldable pub get_mime_tree : Text → Reply S
  get_mime_tree id = with_raw id λ raw_email.
      with_parsed id raw_email λ mp. respond s 200 (mime_tree (build_mime_tree env.std mp))

  unfoldable pub get_attachments : Text → Reply S
  get_attachments id = elim (env.storage.get_attachments s.store id) [
    | err e ↦ refuse s 500 (lit "cannot get attachments for email " ++ id) e
    | ok found ↦ respond s 200 (attachments found)
  ]

  unfoldable pub get_attachment_content : Text → Text → Reply S
  get_attachment_content id att = elim (env.storage.get_attachment s.store id att) [
    | err e ↦ refuse s 500 (lit "cannot get attachment " ++ (att ++ (lit " for email " ++ id))) e
    | ok found ↦ respond s 200 (
        bytes
          ((
            lit "Content-Disposition",
            lit "attachment; filename=\"" ++ (found.header.filename ++ lit "\""),
          )
            ∷ (lit "Content-Type", found.header.content_type)
            ∷ [])
          found.content)
  ]

  abbrev type_of_values : List Text → Text
  type_of_values [] = lit "application/octet-stream"
  type_of_values (t ∷ ts) = t

  abbrev part_reply : Leaf → Reply S
  part_reply part =
      let content = get_decoded_body env.std part in
      respond s 200 (
        bytes
          ((
            lit "Content-Type",
            type_of_values (get_values env.std part.headers (lit "Content-Type")),
          )
            ∷ (lit "Content-Length", itoa (length content))
            ∷ [])
          content)

  abbrev raw_refused : Text → Error → Reply S
  raw_refused id e =
      if panics s e
      then respond s 0 aborted
      else if contains (error_text e) (lit "not found")
      then respond s 404 (error_message (lit "email not found: " ++ id))
      else refuse s 500 (of_email (lit "cannot get raw email") id) e

  unfoldable pub get_part_by_cid_of : Text → Text → Reply S
  get_part_by_cid_of id cid = elim (env.storage.get_raw_email s.store id) [
    | err e ↦ raw_refused id e
    | ok raw_email ↦ with_parsed id raw_email λ mp. elim (get_part_by_cid env.std mp cid) [
      | none ↦ respond s 404 (error_message (lit "part with CID " ++ (cid ++ lit " not found")))
      | some part ↦ part_reply part
    ]
  ]
