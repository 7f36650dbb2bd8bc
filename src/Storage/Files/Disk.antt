-- ===== src/Storage/Files/Disk.antt =====
-- What the filesystem layer reads back after a write and after a delete.
use mock_my_mta.Base.{
  Text, lit, ◌==◌, eq_iff, eq_refl, ◌≡◌, refl, ap, ◌∙◌, ◌++◌, Option, none, some, Bool, true, false,
  if◌then◌else◌, Outcome, ok, err, ◌>>=◌, Error, failed, Bool-cases, inl, inr, arith, not, any, eqb,
}
use mock_my_mta.Base.Dict.{insert, erase, lookup-insert, lookup-erase}
use mathlib.Core.List.{append_cancel_right}
use mock_my_mta.Std.{Std}
use mock_my_mta.Multipart.{Node}
use mock_my_mta.Multipart.Parse.{parse_email}
use mock_my_mta.Storage.{new_email_header}
use mock_my_mta.Storage.Files.{
  FileType, eml, mailhog, Files, file_suffix, file_name, read_line, skip_header, content_of,
  get_raw_body, bytes_of, load_email, set_with_id, no_file, get_email_by_id,
}

-- The envelope of a mailhog file ends at its first empty line.
content_of-bytes_of :
    (kind : FileType) (raw_email : Text) → content_of kind (bytes_of kind raw_email) ≡ ok raw_email
unfolding content_of bytes_of skip_header read_line ◌==◌
content_of-bytes_of eml raw_email = refl
content_of-bytes_of mailhog raw_email = refl

-- An id without a slash. Those that Set makes, and those that the routes of the HTTP server take from
-- a URL, have none.
abbrev pub is_plain : Text → Bool
is_plain id = not (any (eqb 47) id)

-- filepath.Join keeps the names of files without a slash apart: what it is relied on for here.
abbrev pub KeepsPlainApart : Std → Type 0
KeepsPlainApart std =
    (folder id j : Text) (kind : FileType)
    → is_plain id ≡ true
    → is_plain j ≡ true
    → std.join folder (id ++ file_suffix kind) ≡ std.join folder (j ++ file_suffix kind)
    → id ≡ j

-- A join that keeps all names apart, as none does that cleans its path: with it the laws of a layer
-- that speak of all ids hold of the filesystem layer.
abbrev pub KeepsApart : Std → Type 0
KeepsApart std =
    (folder name other : Text) → std.join folder name ≡ std.join folder other → name ≡ other

abbrev pub Apart : Std → Files → Text → Text → Type 0
Apart std s id j = file_name std s id ≡ file_name std s j → id ≡ j

module _ (std : Std) (s : Files) (id j : Text) where
  pub KeepsPlainApart-Apart :
      KeepsPlainApart std → is_plain id ≡ true → is_plain j ≡ true → Apart std s id j
  unfolding file_name
  KeepsPlainApart-Apart paths plain plain' = paths s.folder id j s.kind plain plain'

  pub KeepsApart-Apart : KeepsApart std → Apart std s id j
  unfolding file_name
  KeepsApart-Apart paths same =
      append_cancel_right id j (file_suffix s.kind) (paths s.folder _ _ same)

  file_name-eq : Apart std s id j → (file_name std s id == file_name std s j) ≡ (id == j)
  file_name-eq apart =
      let extend = λ (h : id ≡ j). ap (file_name std s) h in
      ground (arith, eq_iff id j, eq_iff (file_name std s id) (file_name std s j), apart, extend)

once :
    {A : Type 0} (b : Bool) (x y z : A)
    → (if b then x else (if b then y else z)) ≡ (if b then x else z)
once true x y z = refl
once false x y z = refl

-- Reading a name in the folder, as get_raw_body does.
abbrev pub opened : FileType → Text → Option Text → Outcome Text
opened kind name found = elim found [
  | none ↦ err (no_file name)
  | some bytes ↦ content_of kind bytes
]

module _ (std : Std) (s : Files) (id j : Text) (apart : Apart std s id j) where
  get_raw_body-insert :
      (raw_email : Text)
      → get_raw_body std
          (record s { files = insert (file_name std s id) (bytes_of s.kind raw_email) s.files })
          j
        ≡ (if id == j then ok raw_email else get_raw_body std s j)
  unfolding get_raw_body file_name
  get_raw_body-insert raw_email =
      ap (opened s.kind (file_name std s j))
        (lookup-insert (file_name std s id) (file_name std s j) _ s.files)
      ∙ rw (file_name-eq std s id j apart) (elim (Bool-cases (id == j)) [
        | inl same ↦ rw same (content_of-bytes_of s.kind raw_email)
        | inr other ↦ rw other refl
      ])

  pub get_raw_body-erase :
      get_raw_body std (record s { files = erase (file_name std s id) s.files }) j
      ≡ (if id == j then err (no_file (file_name std s j)) else get_raw_body std s j)
  unfolding get_raw_body file_name
  get_raw_body-erase =
      ap (opened s.kind (file_name std s j))
        (lookup-erase (file_name std s id) (file_name std s j) s.files)
      ∙ rw (file_name-eq std s id j apart)
          (elim (Bool-cases (id == j)) [ inl same ↦ rw same refl | inr other ↦ rw other refl ])

unfoldable pub with_file : Std → Files → Text → Text → Files
unfolding bytes_of
with_file std s id raw_email = record s {
  files = insert (file_name std s id) (bytes_of s.kind raw_email) s.files;
}

module _ (std : Std) (s : Files) (id raw_email : Text) where
  -- An id has its own file.
  own : Apart std s id id
  own h = refl

  pub set_with_id-uncreated :
      (text : Text)
      → std.create (file_name std s id) ≡ some text
      → set_with_id std s id raw_email ≡ (s, some (failed text))
  unfolding set_with_id
  set_with_id-uncreated text fails = rw (set_with_id, fails) refl

  module _ (created : std.create (file_name std s id) ≡ none) where
    set_with_id-stored :
        (mp : Node)
        → parse_email std raw_email ≡ ok mp
        → set_with_id std s id raw_email ≡ (with_file std s id raw_email, none)
    unfolding set_with_id load_email with_file
    set_with_id-stored mp parsed =
        rw
          (
            set_with_id,
            created,
            load_email,
            get_raw_body-insert std s id id own raw_email,
            eq_refl id,
            parsed,
          )
          refl

    set_with_id-rejected :
        (e : Error)
        → parse_email std raw_email ≡ err e
        → set_with_id std s id raw_email ≡ (
          record s { files = erase (file_name std s id) (with_file std s id raw_email).files },
          some (failed (lit "cannot parse email " ++ id)),
        )
    unfolding set_with_id load_email with_file
    set_with_id-rejected e fails =
        rw
          (
            set_with_id,
            created,
            load_email,
            get_raw_body-insert std s id id own raw_email,
            eq_refl id,
            fails,
          )
          refl

  load_email-with_file :
      (mp : Node)
      → parse_email std raw_email ≡ ok mp
      → load_email std (with_file std s id raw_email) id ≡ ok mp
  unfolding load_email with_file
  load_email-with_file mp parsed =
      let here : get_raw_body std (with_file std s id raw_email) id ≡ ok raw_email =
        get_raw_body-insert std s id id own raw_email ∙ rw (eq_refl id) refl in
      rw (load_email, here, ◌>>=◌, parsed) refl

  -- What get_raw_body-set_with_id states, for an id that has its file apart from that of another.
  pub set_with_id-Apart :
      (mp : Node) (j : Text)
      → Apart std s id j
      → std.create (file_name std s id) ≡ none
      → parse_email std raw_email ≡ ok mp
      → let s' = (set_with_id std s id raw_email).0 in
        ((set_with_id std s id raw_email).1 ≡ none)
        × (get_raw_body std s' j ≡ (if id == j then ok raw_email else get_raw_body std s j))
        × (get_email_by_id std s' id ≡ ok (new_email_header std id mp))
  unfolding with_file get_email_by_id load_email
  set_with_id-Apart mp j apart created parsed = rw (set_with_id-stored created mp parsed) (
    refl,
    get_raw_body-insert std s id j apart raw_email,
    ap (λ o. o >>= λ mp'. ok (new_email_header std id mp')) (load_email-with_file mp parsed),
  )

  -- If os.Create does not fail, an email that can be parsed is stored without an error: in both kinds
  -- of folder its raw bytes are read back as they were given, without the envelope, and its header is
  -- the one made from it, while the raw bytes of every other id are as they were. The ids have no
  -- slash, and filepath.Join keeps the names of files without a slash apart.
  pub get_raw_body-set_with_id :
      KeepsPlainApart std
      → is_plain id ≡ true
      → std.create (file_name std s id) ≡ none
      → (mp : Node) (j : Text) → is_plain j ≡ true
      → parse_email std raw_email ≡ ok mp
      → let s' = (set_with_id std s id raw_email).0 in
        ((set_with_id std s id raw_email).1 ≡ none)
        × (get_raw_body std s' j ≡ (if id == j then ok raw_email else get_raw_body std s j))
        × (get_email_by_id std s' id ≡ ok (new_email_header std id mp))
  get_raw_body-set_with_id paths plain created mp j plain' parsed =
      set_with_id-Apart mp j (KeepsPlainApart-Apart std s id j paths plain plain') created parsed

  -- An email that cannot be parsed leaves no file behind: the write reports the error, then the id
  -- has no file, and the raw bytes of an id with a file of its own are as they were.
  pub get_raw_body-rejected :
      (e : Error) (j : Text)
      → Apart std s id j
      → std.create (file_name std s id) ≡ none
      → parse_email std raw_email ≡ err e
      → let s' = (set_with_id std s id raw_email).0 in
        ((set_with_id std s id raw_email).1 ≡ some (failed (lit "cannot parse email " ++ id)))
        × (get_raw_body std s' j
            ≡ (if id == j then err (no_file (file_name std s j)) else get_raw_body std s j))
  unfolding with_file file_name
  get_raw_body-rejected e j apart created fails = rw (set_with_id-rejected created e fails) (
    refl,
    get_raw_body-erase std (with_file std s id raw_email) id j apart
        ∙ ap (λ r. if id == j then err (no_file (file_name std s j)) else r)
            (get_raw_body-insert std s id j apart raw_email)
        ∙ once (id == j) _ _ _,
  )
