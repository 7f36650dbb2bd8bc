-- ===== src/Storage/Sqlite/Table.antt =====
-- What storage/storage_sqlite.go relies on in the database, and its methods over such a database.
use mock_my_mta.Base.{
  zero, suc, is_ok, Text, lit, ◌==◌, ◌≡◌, refl, ap, ap₂, ◌∙◌, sym, List, ◌++◌, Option, none, some,
  Bool, true, false, if◌then◌else◌, ℕ, length, take, drop, Outcome, ok, err, Error, failed,
  Outcome-cases, some_injective, inl, inr,
}
use mock_my_mta.Base.Int.{pos}
use mock_my_mta.Std.{Std, Address, Time}
use mock_my_mta.Multipart.{Node}
use mock_my_mta.Multipart.Parse.{parse_email}
use mock_my_mta.Storage.{EmailHeader, new_email_header}
use mock_my_mta.Storage.Engine.{is_unimplemented}
use mock_my_mta.Storage.Laws.{KeepsRaw, ForgetsRaw, SparesOthers}
use mock_my_mta.Storage.Sqlite.{
  Row, Json, Database, bytes_or_nil, not_in_table, row_of, header_of, insert_email_header,
  get_email_by_id, get_raw_email, delete_email_by_id, delete_all_emails, set_with_id, sqlite_layer,
}

-- A row that was inserted is selected, in place of the row that had its id, and the other rows stay,
-- also if the insertion fails; no row is selected by an id after a delete with it, and the other rows
-- are selected as before; no delete brings a row back; LIMIT and OFFSET cut the rows of the table;
-- COUNT(*) counts them; and the driver's errors are its own.
pub record SqlTable {D : Type 0} (db : Database D) : Type 0 where
  pub own_errors :
      (d : D) (r : Row) (e : Error) → (db.insert d r).1 ≡ some e → is_unimplemented e ≡ false
  pub select-insert :
      (d : D) (r : Row) (id : Text)
      → (db.insert d r).1 ≡ none
      → db.select (db.insert d r).0 id ≡ (if r.id == id then ok r else db.select d id)
  pub select-insert_others :
      (d : D) (r : Row) (j : Text)
      → (r.id == j) ≡ false
      → db.select (db.insert d r).0 j ≡ db.select d j
  pub own_delete_errors :
      (d : D) (id : Text) (e : Error) → (db.delete d id).1 ≡ err e → is_unimplemented e ≡ false
  pub select-delete :
      (d : D) (id : Text) (n : ℕ)
      → (db.delete d id).1 ≡ ok n
      → is_ok (db.select (db.delete d id).0 id) ≡ false
  pub select-others :
      (d : D) (id j : Text) → (id == j) ≡ false → db.select (db.delete d id).0 j ≡ db.select d j
  pub select-absent :
      (d : D) (id j : Text)
      → is_ok (db.select d j) ≡ false
      → is_ok (db.select (db.delete d id).0 j) ≡ false
  pub select-all_absent :
      (d : D) (j : Text)
      → is_ok (db.select d j) ≡ false
      → is_ok (db.select (db.delete_all d).0 j) ≡ false
  pub select_page-take :
      (d : D) (rows : List Row) (limit offset : ℕ)
      → db.select_all d ≡ ok rows
      → db.select_page d (pos limit) (pos offset) ≡ ok (take limit (drop offset rows))
  pub count-length :
      (d : D) (rows : List Row) → db.select_all d ≡ ok rows → db.count d ≡ length rows

-- The lists of a header are kept by their encoding (it replaces bytes that are not UTF-8).
abbrev pub IsEncodable : Json → EmailHeader → Type 0
IsEncodable json header =
    (json.unmarshal_addresses (json.marshal_addresses header.tos) ≡ header.tos)
    × (json.unmarshal_addresses (json.marshal_addresses header.ccs) ≡ header.ccs)
    × (json.unmarshal_texts (json.marshal_texts header.body_versions) ≡ header.body_versions)

-- A header survives the row that it is written to.
header_of-row_of :
    (json : Json) (header : EmailHeader) (raw_email : Option Text)
    → IsEncodable json header
    → header_of json (row_of json header raw_email) ≡ record header { is_read = false }
unfolding header_of row_of
header_of-row_of json header raw_email (tos, ccs, versions) =
    let read : List Address → List Address → List Text → EmailHeader =
      λ t c v. record header { tos = t; ccs = c; body_versions = v; is_read = false } in
    let cs = json.unmarshal_addresses (json.marshal_addresses header.ccs) in
    let vs = json.unmarshal_texts (json.marshal_texts header.body_versions) in
    ap (λ t. read t cs vs) tos
    ∙ ap (λ c. read header.tos c vs) ccs
    ∙ ap (read header.tos header.ccs) versions

distribute {ℓ ℓ'} :
    {A : Type ℓ} {B : Type ℓ'} (f : A → B) (b : Bool) (x y : A)
    → f (if b then x else y) ≡ (if b then f x else f y)
distribute f true x y = refl
distribute f false x y = refl

module _ {D : Type 0} (db : Database D) (json : Json) (laws : SqlTable db) (std : Std) where
  -- The methods that look for a row, from what the database gives.
  read_header : Text → Outcome Row → Outcome EmailHeader
  read_header id o = elim o [
    | err e ↦ err (not_in_table (lit "email") id)
    | ok r ↦ ok (header_of json r)
  ]

  select-header :
      (d : D) (id : Text) → get_email_by_id db json d id ≡ read_header id (db.select d id)
  unfolding get_email_by_id read_header
  select-header d id = refl

  read_raw : Text → Outcome Row → Outcome Text
  read_raw id o = elim o [
    | err e ↦ err (not_in_table (lit "raw email") id)
    | ok r ↦ ok (bytes_or_nil r.raw_email)
  ]

  select-raw : (d : D) (id : Text) → get_raw_email db json d id ≡ read_raw id (db.select d id)
  unfolding get_raw_email read_raw
  select-raw d id = refl

  module _ (d : D) (id raw_email : Text) (mp : Node)
      (parsed : parse_email std raw_email ≡ ok mp) where
    abbrev row : Row
    row = row_of json (new_email_header std id mp) (some raw_email)

    inserts : set_with_id db json std d id raw_email ≡ db.insert d row
    unfolding set_with_id insert_email_header
    inserts = rw (set_with_id, parsed) refl

    selected :
        (set_with_id db json std d id raw_email).1 ≡ none
        → (j : Text)
        → db.select (set_with_id db json std d id raw_email).0 j
          ≡ (if id == j then ok row else db.select d j)
    unfolding row_of new_email_header
    selected fine j =
        ap (λ w. db.select w.0 j) inserts
        ∙ laws.select-insert d row j (sym (ap (λ w. w.1) inserts) ∙ fine)

    -- An email that parses and is inserted is found by its id, with its raw bytes, and the other
    -- ids keep theirs.
    pub raw-set_with_id :
        (set_with_id db json std d id raw_email).1 ≡ none
        → (j : Text)
        → get_raw_email db json (set_with_id db json std d id raw_email).0 j
          ≡ (if id == j then ok raw_email else get_raw_email db json d j)
    unfolding row_of read_raw
    raw-set_with_id fine j =
        select-raw (set_with_id db json std d id raw_email).0 j
        ∙ ap (read_raw j) (selected fine j)
        ∙ distribute (read_raw j) (id == j) (ok row) (db.select d j)
        ∙ ap (λ o. if id == j then ok raw_email else o) (sym (select-raw d j))

    pub header-set_with_id :
        IsEncodable json (new_email_header std id mp)
        → (set_with_id db json std d id raw_email).1 ≡ none
        → (j : Text)
        → get_email_by_id db json (set_with_id db json std d id raw_email).0 j
          ≡ (if id == j then ok (new_email_header std id mp) else get_email_by_id db json d j)
    unfolding read_header new_email_header
    header-set_with_id encodable fine j =
        select-header (set_with_id db json std d id raw_email).0 j
        ∙ ap (read_header j) (selected fine j)
        ∙ distribute (read_header j) (id == j) (ok row) (db.select d j)
        ∙ ap₂ (λ h o. if id == j then ok h else o)
            (header_of-row_of json (new_email_header std id mp) (some raw_email) encodable)
            (sym (select-header d j))

  refused :
      (d : D) (id raw_email : Text) (x : Error)
      → parse_email std raw_email ≡ err x
      → (set_with_id db json std d id raw_email).1
        ≡ some (failed (lit "sqlite storage: cannot parse email " ++ id))
  unfolding set_with_id
  refused d id raw_email x fails = rw (set_with_id, fails) refl

  set_implemented :
      (d : D) (id raw_email : Text) (e : Error)
      → (set_with_id db json std d id raw_email).1 ≡ some e
      → is_unimplemented e ≡ false
  set_implemented d id raw_email e h = elim (Outcome-cases (parse_email std raw_email)) [
    | inl (mp, parsed) ↦
        laws.own_errors d (row d id raw_email mp parsed) e
          (sym (ap (λ w. w.1) (inserts d id raw_email mp parsed)) ∙ h)
    | inr (x, fails) ↦
        ap is_unimplemented (sym (some_injective _ e (sym (refused d id raw_email x fails) ∙ h)))
  ]

  stored-parsed :
      (d : D) (id raw_email : Text)
      → (set_with_id db json std d id raw_email).1 ≡ none
      → (mp : Node) × (parse_email std raw_email ≡ ok mp)
  unfolding set_with_id
  stored-parsed d id raw_email h = elim (Outcome-cases (parse_email std raw_email)) [
    | inl parsed ↦ parsed
    | inr (x, fails) ↦ cc (rw (set_with_id, fails) at h)
  ]

  -- A write, also one that fails, leaves the raw bytes of the other ids.
  pub raw-insert_others :
      (d : D) (id raw_email j : Text)
      → (id == j) ≡ false
      → get_raw_email db json (set_with_id db json std d id raw_email).0 j
        ≡ get_raw_email db json d j
  unfolding set_with_id row_of new_email_header
  raw-insert_others d id raw_email j other = elim (Outcome-cases (parse_email std raw_email)) [
    | inl (mp, parsed) ↦
        ap (λ w. get_raw_email db json w.0 j) (inserts d id raw_email mp parsed)
        ∙ select-raw (db.insert d (row d id raw_email mp parsed)).0 j
        ∙ ap (read_raw j) (laws.select-insert_others d (row d id raw_email mp parsed) j other)
        ∙ sym (select-raw d j)
    | inr (x, fails) ↦ rw (set_with_id, fails) refl
  ]

  -- The SQLite layer keeps the raw bytes.
  pub sqlite-KeepsRaw : (now : Time) → KeepsRaw (sqlite_layer db json std now)
  sqlite-KeepsRaw now = record {
    set_implemented = set_implemented;
    get-set = λ d id raw_email j h.
        let (mp, parsed) = stored-parsed d id raw_email h in
        raw-set_with_id d id raw_email mp parsed h j;
  }

  -- What the deletion of a row is reported as.
  abbrev reported : Text → Outcome ℕ → Option Error
  reported id o = elim o [
    | err e ↦ some e
    | ok zero ↦ some (not_in_table (lit "email") id)
    | ok (suc n) ↦ none
  ]

  deleted-reported :
      (d : D) (id : Text)
      → delete_email_by_id db json d id ≡ ((db.delete d id).0, reported id (db.delete d id).1)
  unfolding delete_email_by_id
  deleted-reported d id = refl

  reported-own :
      (d : D) (id : Text) (e : Error) (o : Outcome ℕ)
      → (db.delete d id).1 ≡ o
      → reported id o ≡ some e
      → is_unimplemented e ≡ false
  reported-own d id e (err x) at h =
      laws.own_delete_errors d id e (at ∙ ap err (some_injective x e h))
  reported-own d id e (ok zero) at h = ap is_unimplemented (sym (some_injective _ e h))
  reported-own d id e (ok (suc n)) at h = cc h

  reported-gone :
      (d : D) (id : Text) (o : Outcome ℕ)
      → (db.delete d id).1 ≡ o
      → reported id o ≡ none
      → is_ok (db.select (db.delete d id).0 id) ≡ false
  reported-gone d id (err x) at h = cc h
  reported-gone d id (ok zero) at h = cc h
  reported-gone d id (ok (suc n)) at h = laws.select-delete d id (suc n) at

  raw-missing : (id : Text) (o : Outcome Row) → is_ok o ≡ false → is_ok (read_raw id o) ≡ false
  unfolding read_raw
  raw-missing id (ok r) h = cc h
  raw-missing id (err e) h = refl

  present : (id : Text) (o : Outcome Row) → is_ok (read_raw id o) ≡ is_ok o
  unfolding read_raw
  present id (ok r) = refl
  present id (err e) = refl

  raw-present : (d : D) (id : Text) → is_ok (get_raw_email db json d id) ≡ is_ok (db.select d id)
  raw-present d id = ap is_ok (select-raw d id) ∙ present id (db.select d id)

  -- No deletion brings the raw bytes of an email back.
  pub raw-deleted :
      (d : D) (id j : Text)
      → is_ok (get_raw_email db json d j) ≡ false
      → is_ok (get_raw_email db json (delete_email_by_id db json d id).0 j) ≡ false
  raw-deleted d id j h =
      ap (λ w. is_ok (get_raw_email db json w.0 j)) (deleted-reported d id)
      ∙ raw-present (db.delete d id).0 j
      ∙ laws.select-absent d id j (sym (raw-present d j) ∙ h)

  pub raw-all_deleted :
      (d : D) (j : Text)
      → is_ok (get_raw_email db json d j) ≡ false
      → is_ok (get_raw_email db json (delete_all_emails db json d).0 j) ≡ false
  unfolding delete_all_emails
  raw-all_deleted d j h =
      raw-present (db.delete_all d).0 j ∙ laws.select-all_absent d j (sym (raw-present d j) ∙ h)

  -- The SQLite layer forgets what it deletes.
  pub sqlite-ForgetsRaw : (now : Time) → ForgetsRaw (sqlite_layer db json std now)
  sqlite-ForgetsRaw now = record {
    delete_implemented =
        λ d id e h. reported-own d id e _ refl (sym (ap (λ w. w.1) (deleted-reported d id)) ∙ h);
    get-delete = λ d id h.
        ap is_ok (
          ap (λ w. get_raw_email db json w.0 id) (deleted-reported d id)
          ∙ select-raw (db.delete d id).0 id)
        ∙ raw-missing id (db.select (db.delete d id).0 id) (
            reported-gone d id (db.delete d id).1 refl
              (sym (ap (λ w. w.1) (deleted-reported d id)) ∙ h));
  }

  -- The SQLite layer spares the other emails.
  pub sqlite-SparesOthers : (now : Time) → SparesOthers (sqlite_layer db json std now)
  sqlite-SparesOthers now = record {
    spared = λ d id j other.
        ap (λ w. get_raw_email db json w.0 j) (deleted-reported d id)
        ∙ select-raw (db.delete d id).0 j
        ∙ ap (read_raw j) (laws.select-others d id j other)
        ∙ sym (select-raw d j);
  }
