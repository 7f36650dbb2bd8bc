-- ===== src/Storage/Sqlite.antt =====
-- storage/storage_sqlite.go: one row for each email in a table of a database. The database engine and
-- encoding/json are packages: `Database` has one operation for each SQL statement of the file, over
-- the type of the database's states, and `Json` the encodings of the lists in a row.
mod Tests
pub mod Table
pub mod Paging
pub mod Rows
use mock_my_mta.Base.{
  Text, lit, ◌==◌, List, [], ◌∷◌, ◌++◌, Option, none, some, Bool, true, false, if◌then◌else◌, ℕ,
  zero, suc, length, map, Outcome, ok, err, Error, failed, ◌>>=◌,
}
use mock_my_mta.Base.Int.{ℤ, pos, ◌-ℤ◌, ◌*ℤ◌, ltb_ℤ, show_int}
use mock_my_mta.Std.{Std, Address, Time}
use mock_my_mta.Multipart.{Node}
use mock_my_mta.Multipart.Attachments.{get_attachments, get_attachment}
use mock_my_mta.Multipart.Body.{get_body}
use mock_my_mta.Multipart.Parse.{parse_email}
use mock_my_mta.Matcher.{Matcher, match_all}
use mock_my_mta.Matcher.Query.{parse_query}
use mock_my_mta.Storage.{
  EmailHeader, AttachmentHeader, Attachment, Version, raw, version_to_string, new_email_header,
  attachment_of,
}
use mock_my_mta.Storage.Layer.{Layer, all_emails}
use mock_my_mta.Storage.Memory.{attachment_headers, add_recipients}
use mock_my_mta.Storage.Order.{sort, text_lt}
use mock_my_mta.Storage.Page.{paginate_sqlite}

-- The columns of the table emails; raw_email is none for NULL.
pub record Row : Type 0 where
  pub id : Text
  pub sender_name : Text
  pub sender_address : Text
  pub subject : Text
  pub date : Time
  pub has_attachments : Bool
  pub preview : Text
  pub recipients_json : Text
  pub ccs_json : Text
  pub body_versions_json : Text
  pub raw_email : Option Text

-- json.Marshal, and json.Unmarshal whose error is not looked at.
pub record Json : Type 0 where
  pub marshal_addresses : List Address → Text
  pub unmarshal_addresses : Text → List Address
  pub marshal_texts : List Text → Text
  pub unmarshal_texts : Text → List Text

-- The statements, and the rows that they give: those that can be scanned. A count that fails is 0.
pub record Database (D : Type 0) : Type 0 where
  -- INSERT OR REPLACE INTO emails
  pub insert : D → Row → D × Option Error
  -- SELECT .. FROM emails WHERE id = ?
  pub select : D → Text → Outcome Row
  -- SELECT .. FROM emails ORDER BY date DESC, without and with LIMIT ? OFFSET ?
  pub select_all : D → Outcome (List Row)
  pub select_page : D → ℤ → ℤ → Outcome (List Row)
  -- SELECT DISTINCT recipients_json FROM emails
  pub select_recipients : D → Outcome (List Text)
  -- SELECT COUNT(*) FROM emails
  pub count : D → ℕ
  -- DELETE FROM emails, for all rows, and WHERE id = ? with the number of rows
  pub delete_all : D → D × Option Error
  pub delete : D → Text → D × Outcome ℕ

abbrev pub not_in_table : Text → Text → Error
not_in_table what id = failed (what ++ lit " not found in sqlite: " ++ id)

module _ (json : Json) where
  -- What insertEmailHeader inserts.
  unfoldable pub row_of : EmailHeader → Option Text → Row
  row_of header raw_email = record {
    id = header.id;
    sender_name = header.from.name;
    sender_address = header.from.address;
    subject = header.subject;
    date = header.date;
    has_attachments = header.has_attachments;
    preview = header.preview;
    recipients_json = json.marshal_addresses header.tos;
    ccs_json = json.marshal_addresses header.ccs;
    body_versions_json = json.marshal_texts header.body_versions;
    raw_email = raw_email;
  }

  -- What is scanned from a row.
  unfoldable pub header_of : Row → EmailHeader
  header_of r = record {
    id = r.id;
    from = record { name = r.sender_name; address = r.sender_address };
    tos = json.unmarshal_addresses r.recipients_json;
    ccs = json.unmarshal_addresses r.ccs_json;
    subject = r.subject;
    date = r.date;
    has_attachments = r.has_attachments;
    preview = r.preview;
    body_versions = json.unmarshal_texts r.body_versions_json;
    is_read = false;
  }

abbrev pub bytes_or_nil : Option Text → Text
bytes_or_nil none = []
bytes_or_nil (some bytes) = bytes

module _ {D : Type 0} (db : Database D) (json : Json) where
  -- insertEmailHeader
  unfoldable pub insert_email_header : D → EmailHeader → Option Text → D × Option Error
  unfolding row_of
  insert_email_header d header raw_email = db.insert d (row_of json header raw_email)

  unfoldable pub get_email_by_id : D → Text → Outcome EmailHeader
  unfolding header_of
  get_email_by_id d id = elim (db.select d id) [
    | err e ↦ err (not_in_table (lit "email") id)
    | ok r ↦ ok (header_of json r)
  ]

  unfoldable pub get_raw_email : D → Text → Outcome Text
  get_raw_email d id = elim (db.select d id) [
    | err e ↦ err (not_in_table (lit "raw email") id)
    | ok r ↦ ok (bytes_or_nil r.raw_email)
  ]

  unfoldable pub delete_all_emails : D → D × Option Error
  delete_all_emails d = db.delete_all d

  -- DeleteEmailByID: no row is an error.
  unfoldable pub delete_email_by_id : D → Text → D × Option Error
  delete_email_by_id d id =
      let (d', affected) = db.delete d id in
      (
        d',
        elim affected [
          | err e ↦ some e
          | ok zero ↦ some (not_in_table (lit "email") id)
          | ok (suc n) ↦ none
        ],
      )

  unfoldable pub add_all : List Text → List Text → List Text
  add_all [] names = names
  add_all (text ∷ texts) names =
      add_all texts (add_recipients (json.unmarshal_addresses text) names)

  unfoldable pub get_mailboxes : D → Outcome (List Text)
  unfolding add_all
  get_mailboxes d = do texts ← db.select_recipients d; ok (sort text_lt (add_all texts []))

  -- searchAllSQL and scanEmailHeaders
  unfoldable pub search_all : D → ℤ → ℤ → Outcome (List EmailHeader × ℕ)
  unfolding header_of
  search_all d page size = do
    rows ←
        if ltb_ℤ size (pos 0)
        then db.select_all d
        else db.select_page d size ((page -ℤ pos 1) *ℤ size)
    ok (map (header_of json) rows, db.count d)

  module _ (std : Std) where
    unfoldable pub set_with_id : D → Text → Text → D × Option Error
    unfolding insert_email_header
    set_with_id d id raw_email = elim (parse_email std raw_email) [
      | err e ↦ (d, some (failed (lit "sqlite storage: cannot parse email " ++ id)))
      | ok mp ↦ insert_email_header d (new_email_header std id mp) (some raw_email)
    ]

    -- GetRawEmail, mail.ReadMessage and New, as three methods chain them.
    unfoldable pub load_email : D → Text → Outcome Node
    unfolding get_raw_email
    load_email d id = do raw_email ← get_raw_email d id; parse_email std raw_email

    unfoldable pub get_body_version : D → Text → Version → Outcome Text
    unfolding get_raw_email load_email
    get_body_version d id raw = get_raw_email d id
    get_body_version d id version = do
      mp ← load_email d id
      ok (get_body std mp (version_to_string version))

    unfoldable pub get_attachments_of : D → Text → Outcome (List AttachmentHeader)
    unfolding load_email
    get_attachments_of d id = do
      mp ← load_email d id
      ok (attachment_headers std (get_attachments std mp))

    unfoldable pub get_attachment_of : D → Text → Text → Outcome Attachment
    unfolding load_email
    get_attachment_of d id att = do
      mp ← load_email d id
      elim (get_attachment std mp att) [
        | none ↦ err (failed (lit "attachment not found: " ++ (id ++ (lit "/" ++ att))))
        | some leaf ↦ ok (attachment_of std att leaf)
      ]

    module _ (now : Time) where
      -- The loop of searchWithMatchers.
      unfoldable pub matching : List Matcher → List Row → List EmailHeader
      matching matchers [] = []
      matching matchers (r ∷ rows) =
          let rest = matching matchers rows in
          elim r.raw_email [
            | none ↦ rest
            | some raw_email ↦ elim (parse_email std raw_email) [
              | err e ↦ rest
              | ok mp ↦
                  if match_all std now mp matchers
                  then new_email_header std r.id mp ∷ rest
                  else rest
            ]
          ]

      unfoldable pub search_with_matchers :
          D → List Matcher → ℤ → ℤ → Outcome (List EmailHeader × ℕ)
      unfolding matching
      search_with_matchers d matchers page size = do
        rows ← db.select_all d
        let results = matching matchers rows
        shown ← paginate_sqlite results page size
        ok (shown, length results)

      unfoldable pub search_emails : D → Text → ℤ → ℤ → Outcome (List EmailHeader × ℕ)
      unfolding search_all search_with_matchers
      search_emails d query page size =
          if ltb_ℤ page (pos 1)
          then err (failed (lit "invalid page number: " ++ show_int page))
          else parse_query std query >>= λ matchers. elim matchers [
            | [] ↦ search_all d page size
            | m ∷ ms ↦ search_with_matchers d (m ∷ ms) page size
          ]

      abbrev pub sqlite_layer : Layer D
      sqlite_layer = record {
        get_mailboxes = get_mailboxes;
        get_email_by_id = get_email_by_id;
        get_body_version = get_body_version;
        get_attachments = get_attachments_of;
        get_attachment = get_attachment_of;
        search_emails = search_emails;
        get_raw_email = get_raw_email;
        delete_all_emails = delete_all_emails;
        delete_email_by_id = delete_email_by_id;
        set_with_id = set_with_id;
      }

      -- `load`: a database that has emails, or that is the root, is left as it is.
      module _ {R : Type 0} (root : Layer R) (r : R) where
        abbrev raw_or_null : Outcome Text → Option Text
        raw_or_null (err e) = none
        raw_or_null (ok raw_email) = some raw_email

        unfoldable pub insert_all : List EmailHeader → D → D
        unfolding insert_email_header
        insert_all [] d = d
        insert_all (header ∷ headers) d =
            insert_all headers
              (insert_email_header d header (raw_or_null (root.get_raw_email r header.id))).0

        unfoldable pub load : D → Outcome D
        unfolding insert_all
        load d = elim (db.count d) [
          | suc n ↦ ok d
          | zero ↦ elim (all_emails root r) [
            | err e ↦ err e
            | ok none ↦ ok d
            | ok (some headers) ↦ ok (insert_all headers d)
          ]
        ]
