-- ===== src/Storage/Files.antt =====
-- storage/storage_filesystem.go: the emails as files, which no other program changes. The file of an
-- id is the one at the path that filepath.Join makes of it, so an id with path elements can have the
-- file of another id, or one outside the folder. os.Create can fail; a write to a file that was
-- created and the reading of a file that is there do not fail.
pub mod Disk
pub mod Apart
use mock_my_mta.Base.{
  Text, lit, ◌==◌, List, [], ◌∷◌, ◌++◌, Option, none, some, Bool, true, false, not, if◌then◌else◌,
  ℕ, zero, suc, ◌-◌, length, take, Outcome, ok, err, Error, failed, ◌>>=◌, member, eqb,
}
use mock_my_mta.Base.Dict.{Dict, lookup, insert, erase, keys}
use mock_my_mta.Base.Int.{ℤ}
use mock_my_mta.Std.{Std, Address, Time}
use mock_my_mta.Multipart.{Node}
use mock_my_mta.Multipart.Attachments.{get_attachments, get_attachment}
use mock_my_mta.Multipart.Body.{get_body}
use mock_my_mta.Multipart.Fields.{get_recipients}
use mock_my_mta.Multipart.Parse.{parse_email}
use mock_my_mta.Matcher.{Matcher, match_all}
use mock_my_mta.Matcher.Query.{parse_query}
use mock_my_mta.Storage.{
  EmailHeader, AttachmentHeader, Attachment, Version, raw, plain_text, html, watch_html,
  version_to_string, new_email_header, attachment_of,
}
use mock_my_mta.Storage.Engine.{report}
use mock_my_mta.Storage.Layer.{Layer}
use mock_my_mta.Storage.Memory.{attachment_headers, later}
use mock_my_mta.Storage.Order.{sort, text_lt}
use mock_my_mta.Storage.Page.{paginate}

-- filesystemType
pub data FileType : Type 0 where
  eml mailhog : FileType

unfoldable pub parse_file_type : Text → Outcome FileType
parse_file_type name =
    if name == lit "eml"
    then ok eml
    else if name == lit "mailhog"
    then ok mailhog
    else err (failed (lit "unknown filesystem type: " ++ name))

unfoldable pub file_suffix : FileType → Text
file_suffix eml = lit ".eml"
file_suffix mailhog = lit "@mailhog.example"

-- The files by path. filepath.Glob lists them by name; here the first one written comes first, which
-- shows only in the order of emails of the same date.
pub record Files : Type 0 where
  pub kind : FileType
  pub folder : Text
  pub files : Dict Text

-- newFilesystemStorage, with the files of the disk by path, and `load`, which makes the folder if
-- it is missing: os.Stat says whether it exists, and os.MkdirAll can fail.
unfoldable pub new_filesystem_storage : Dict Text → Text → Text → Outcome Files
unfolding parse_file_type
new_filesystem_storage disk folder name = do
  kind ← parse_file_type name
  ok (record { kind = kind; folder = folder; files = disk })

unfoldable pub load_folder : Bool → Option Error → Files → Outcome Files
load_folder exists made s =
    if exists then ok s else elim made as (λ _. Outcome Files) [ none ↦ ok s | some e ↦ err e ]

-- The envelope that setWithID writes in front of a mailhog file.
abbrev pub envelope : Text
envelope =
    lit "HELO:<fake-server>"
    ++ (10
        ∷ (lit "FROM:<fake-sender@example.com>"
            ++ (10 ∷ (lit "TO:<fake-recipient@example.com>" ++ (10 ∷ 10 ∷ [])))))

-- A line with its line feed, as ReadString gives it, and the rest; none at the end of the file.
unfoldable pub read_line : Text → Option (Text × Text)
read_line [] = none
read_line (c ∷ s) =
    let rest = read_line s in
    if eqb c 10
    then some (c ∷ [], s)
    else elim rest [ none ↦ none | some (line, r) ↦ some (c ∷ line, r) ]

-- skipMailhogHeader: what follows the first empty line. Each round drops a byte at least.
unfoldable pub skip_header : ℕ → Text → Option Text
unfolding read_line
skip_header zero s = none
skip_header (suc f) s = elim (read_line s) [
  | none ↦ none
  | some (line, rest) ↦
      if line == 10 ∷ []
      then some rest
      else if line == 13 ∷ 10 ∷ []
      then some rest
      else skip_header f rest
]

abbrev eof : Error
eof = failed (lit "EOF")

abbrev pub no_file : Text → Error
no_file name = failed (lit "open " ++ (name ++ lit ": no such file or directory"))

unfoldable pub content_of : FileType → Text → Outcome Text
unfolding skip_header
content_of eml bytes = ok bytes
content_of mailhog bytes = elim (skip_header (length bytes) bytes) [
  | none ↦ err eof
  | some rest ↦ ok rest
]

-- What setWithID writes.
unfoldable pub bytes_of : FileType → Text → Text
bytes_of eml raw_email = raw_email
bytes_of mailhog raw_email = envelope ++ raw_email

module _ (std : Std) where
  -- getEmailFilename: the path of the file of an id.
  unfoldable pub file_name : Files → Text → Text
  unfolding file_suffix
  file_name s id = std.join s.folder (id ++ file_suffix s.kind)

  -- getRawBody, and GetRawEmail
  unfoldable pub get_raw_body : Files → Text → Outcome Text
  unfolding content_of file_name
  get_raw_body s id = elim (lookup (file_name s id) s.files) [
    | none ↦ err (no_file (file_name s id))
    | some bytes ↦ content_of s.kind bytes
  ]

  -- deleteEmailFile: os.Remove fails on a file that is not there.
  unfoldable pub delete_email_by_id : Files → Text → Files × Option Error
  delete_email_by_id s id = elim (lookup (file_name s id) s.files) [
    | none ↦ (s, some (no_file (file_name s id)))
    | some bytes ↦ (record s { files = erase (file_name s id) s.files }, none)
  ]

  -- getAllEmailIDs: the names of the files that match the pattern, without the suffix. A folder that
  -- is no pattern is left out.
  unfoldable pub ids_of : Text → List Text → List Text
  ids_of suffix [] = []
  ids_of suffix (path ∷ paths) =
      let name = std.base path in take (length name - length suffix) name ∷ ids_of suffix paths

  unfoldable pub get_all_email_ids : Files → List Text
  unfolding ids_of file_suffix
  get_all_email_ids s =
      let suffix = file_suffix s.kind in
      ids_of suffix (std.glob (std.join s.folder (42 ∷ suffix)) (keys s.files))

  -- The loop of DeleteAllEmails goes on after an error.
  abbrev add_error : Option Error → List Error → List Error
  add_error none errors = errors
  add_error (some e) errors = e ∷ errors

  unfoldable pub delete_ids : List Text → Files → Files × List Error
  delete_ids [] s = (s, [])
  delete_ids (id ∷ ids) s =
      let (s', error) = delete_email_by_id s id in
      let (s'', errors) = delete_ids ids s' in (s'', add_error error errors)

  unfoldable pub delete_all_emails : Files → Files × Option Error
  unfolding delete_ids get_all_email_ids report
  delete_all_emails s = let (s', errors) = delete_ids (get_all_email_ids s) s in (s', report errors)

  unfoldable pub load_email : Files → Text → Outcome Node
  unfolding get_raw_body
  load_email s id = do
    bytes ← get_raw_body s id
    elim (parse_email std bytes) [
      | err e ↦ err (failed (lit "cannot parse email " ++ id))
      | ok mp ↦ ok mp
    ]

  -- setWithID writes nothing if os.Create fails, and removes a file that cannot be parsed.
  unfoldable pub set_with_id : Files → Text → Text → Files × Option Error
  unfolding load_email bytes_of
  set_with_id s id raw_email =
      let path = file_name s id in
      let written = record s { files = insert path (bytes_of s.kind raw_email) s.files } in
      elim (std.create path) [
        | some text ↦ (s, some (failed text))
        | none ↦ elim (load_email written id) [
          | ok mp ↦ (written, none)
          | err e ↦ (
            record s { files = erase path written.files },
            some (failed (lit "cannot parse email " ++ id)),
          )
        ]
      ]

  unfoldable pub get_email_by_id : Files → Text → Outcome EmailHeader
  unfolding load_email
  get_email_by_id s id = do mp ← load_email s id; ok (new_email_header std id mp)

  unfoldable pub get_body_version : Files → Text → Version → Outcome Text
  unfolding load_email
  get_body_version s id raw = get_raw_body s id
  get_body_version s id version = do
    mp ← load_email s id
    ok (get_body std mp (version_to_string version))

  unfoldable pub get_attachments_of : Files → Text → Outcome (List AttachmentHeader)
  unfolding load_email
  get_attachments_of s id = do
    mp ← load_email s id
    ok (attachment_headers std (get_attachments std mp))

  unfoldable pub get_attachment_of : Files → Text → Text → Outcome Attachment
  unfolding load_email
  get_attachment_of s id att = do
    mp ← load_email s id
    elim (get_attachment std mp att) [
      | none ↦ err (failed (lit "attachment not found: " ++ att))
      | some leaf ↦ ok (attachment_of std att leaf)
    ]

  -- The recipients of all emails, copies included; one email that does not load fails them all.
  unfoldable pub add_addresses : List Address → List Text → List Text
  add_addresses [] names = names
  add_addresses (a ∷ addresses) names =
      add_addresses addresses (if member a.address names then names else names ++ (a.address ∷ []))

  unfoldable pub recipients_of : Files → List Text → List Text → Outcome (List Text)
  unfolding add_addresses load_email
  recipients_of s [] names = ok names
  recipients_of s (id ∷ ids) names = elim (load_email s id) [
    | err e ↦ err e
    | ok mp ↦ recipients_of s ids (add_addresses (get_recipients std mp) names)
  ]

  unfoldable pub get_mailboxes : Files → Outcome (List Text)
  unfolding recipients_of get_all_email_ids
  get_mailboxes s = do names ← recipients_of s (get_all_email_ids s) []; ok (sort text_lt names)

  module _ (now : Time) where
    unfoldable pub matching : Files → List Matcher → List Text → Outcome (List EmailHeader)
    unfolding load_email
    matching s matchers [] = ok []
    matching s matchers (id ∷ ids) =
        let rest = matching s matchers ids in
        load_email s id >>= λ mp. rest >>= λ headers.
        ok (if match_all std now mp matchers then new_email_header std id mp ∷ headers else headers)

    unfoldable pub search_emails : Files → Text → ℤ → ℤ → Outcome (List EmailHeader × ℕ)
    unfolding matching
    search_emails s query page size = do
      matchers ← parse_query std query
      headers ← matching s matchers (get_all_email_ids s)
      let results = sort later headers
      shown ← paginate results page size
      ok (shown, length results)

    abbrev pub file_layer : Layer Files
    file_layer = record {
      get_mailboxes = get_mailboxes;
      get_email_by_id = get_email_by_id;
      get_body_version = get_body_version;
      get_attachments = get_attachments_of;
      get_attachment = get_attachment_of;
      search_emails = search_emails;
      get_raw_email = get_raw_body;
      delete_all_emails = delete_all_emails;
      delete_email_by_id = delete_email_by_id;
      set_with_id = set_with_id;
    }
