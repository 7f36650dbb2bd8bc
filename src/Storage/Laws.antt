-- ===== src/Storage/Laws.antt =====
-- What the engine and its clients rely on in a storage layer, as laws, and the two layers of the
-- repository that keep the raw bytes without a database.
use mock_my_mta.Base.Dict.{lookup, erase, lookup-erase}
use mock_my_mta.Base.{
  refl, lit, eq_refl, is_ok, err, Option, Option-cases, Text, ◌==◌, ◌≡◌, ap, ◌∙◌, sym, none, some,
  false, if◌then◌else◌, ok, Error, Outcome-cases, some_injective, inl, inr, ◌⊎◌, failed,
}
use mock_my_mta.Std.{Std, Time}
use mock_my_mta.Multipart.{Node}
use mock_my_mta.Multipart.Parse.{parse_email}
use mock_my_mta.Storage.Layer.{Layer}
use mock_my_mta.Storage.Engine.{is_unimplemented}
use mock_my_mta.Storage.Memory.{Memory, memory_layer, not_found}
use mock_my_mta.Storage.Memory
use mock_my_mta.Storage.Memory.Cache.{get-set_with_id, get-delete_email_by_id}
use mock_my_mta.Storage.Files.{Files, file_layer, file_name, no_file}
use mock_my_mta.Storage.Files
use mock_my_mta.Storage.Files.Disk.{
  KeepsApart, KeepsApart-Apart, set_with_id-Apart, set_with_id-uncreated, get_raw_body-rejected,
  get_raw_body-erase,
}

-- A layer that implements writing, and gives back the bytes that it was given.
pub record KeepsRaw {S : Type 0} (layer : Layer S) : Type 0 where
  pub set_implemented :
      (s : S) (id raw_email : Text) (e : Error)
      → (layer.set_with_id s id raw_email).1 ≡ some e
      → is_unimplemented e ≡ false
  pub get-set :
      (s : S) (id raw_email j : Text)
      → (layer.set_with_id s id raw_email).1 ≡ none
      → layer.get_raw_email (layer.set_with_id s id raw_email).0 j
        ≡ (if id == j then ok raw_email else layer.get_raw_email s j)

-- A layer that implements deletion, and has no raw bytes of what it has deleted.
pub record ForgetsRaw {S : Type 0} (layer : Layer S) : Type 0 where
  pub delete_implemented :
      (s : S) (id : Text) (e : Error)
      → (layer.delete_email_by_id s id).1 ≡ some e
      → is_unimplemented e ≡ false
  pub get-delete :
      (s : S) (id : Text)
      → (layer.delete_email_by_id s id).1 ≡ none
      → is_ok (layer.get_raw_email (layer.delete_email_by_id s id).0 id) ≡ false

-- A layer in which the deletion of an email, also one that fails, leaves the raw bytes of the others.
pub record SparesOthers {S : Type 0} (layer : Layer S) : Type 0 where
  pub spared :
      (s : S) (id j : Text)
      → (id == j) ≡ false
      → layer.get_raw_email (layer.delete_email_by_id s id).0 j ≡ layer.get_raw_email s j

module _ (std : Std) (now : Time) where
  memory-set_implemented :
      (s : Memory) (id raw_email : Text) (e : Error)
      → (Memory.set_with_id std s id raw_email).1 ≡ some e
      → is_unimplemented e ≡ false
  unfolding Memory.set_with_id
  memory-set_implemented s id raw_email e h = elim (Outcome-cases (parse_email std raw_email)) [
    | inl (mp, parsed) ↦ cc (rw (Memory.set_with_id, parsed) at h)
    | inr (x, fails) ↦
        ap is_unimplemented (sym (some_injective _ e (rw (Memory.set_with_id, fails) at h)))
  ]

  -- A write without an error is one of an email that can be parsed.
  memory-parsed :
      (s : Memory) (id raw_email : Text)
      → (Memory.set_with_id std s id raw_email).1 ≡ none
      → (mp : Node) × (parse_email std raw_email ≡ ok mp)
  unfolding Memory.set_with_id
  memory-parsed s id raw_email h = elim (Outcome-cases (parse_email std raw_email)) [
    | inl parsed ↦ parsed
    | inr (x, fails) ↦ cc (rw (Memory.set_with_id, fails) at h)
  ]

  -- The memory layer keeps the raw bytes.
  pub memory-KeepsRaw : KeepsRaw (memory_layer std now)
  memory-KeepsRaw = record {
    set_implemented = memory-set_implemented;
    get-set = λ s id raw_email j h.
        let (mp, parsed) = memory-parsed s id raw_email h in
        (get-set_with_id std s id raw_email mp parsed j).1;
  }

  -- What a write to the filesystem layer can come to.
  files-written :
      (s : Files) (id raw_email : Text)
      → ((mp : Node) × (std.create (file_name std s id) ≡ none)
          × (parse_email std raw_email ≡ ok mp))
        ⊎ ((text : Text) × ((Files.set_with_id std s id raw_email).1 ≡ some (failed text)))
  files-written s id raw_email = elim (Option-cases (std.create (file_name std s id))) [
    | inl created ↦ elim (Outcome-cases (parse_email std raw_email)) [
      | inl (mp, parsed) ↦ inl (mp, created, parsed)
      | inr (x, fails) ↦
          inr (_, (get_raw_body-rejected std s id raw_email x id (λ h. refl) created fails).0)
    ]
    | inr (text, fails) ↦
        inr (text, ap (λ r. r.1) (set_with_id-uncreated std s id raw_email text fails))
  ]

  files-set_implemented :
      (s : Files) (id raw_email : Text) (e : Error)
      → (Files.set_with_id std s id raw_email).1 ≡ some e
      → is_unimplemented e ≡ false
  files-set_implemented s id raw_email e h = elim (files-written s id raw_email) [
    | inl (mp, created, parsed) ↦
        cc (sym (set_with_id-Apart std s id raw_email mp id (λ h. refl) created parsed).0 ∙ h)
    | inr (text, fails) ↦ ap is_unimplemented (sym (some_injective _ e (sym fails ∙ h)))
  ]

  -- The filesystem layer keeps the raw bytes, in both kinds of folder, if every id has its own file.
  pub files-KeepsRaw : KeepsApart std → KeepsRaw (file_layer std now)
  files-KeepsRaw paths = record {
    set_implemented = files-set_implemented;
    get-set = λ s id raw_email j h. elim (files-written s id raw_email) [
      | inl (mp, created, parsed) ↦
          (set_with_id-Apart std s id raw_email mp j (KeepsApart-Apart std s id j paths) created
            parsed).1
      | inr (text, fails) ↦ cc (sym fails ∙ h)
    ];
  }

  -- The memory layer forgets what it deletes.
  pub memory-ForgetsRaw : ForgetsRaw (memory_layer std now)
  memory-ForgetsRaw = record {
    delete_implemented = λ s id e h. cc (sym (get-delete_email_by_id s id id).0 ∙ h);
    get-delete = λ s id h. ap is_ok (
        (get-delete_email_by_id s id id).2
        ∙ ap (λ b. if b then err (not_found (lit "raw email") id) else Memory.get_raw_email s id)
            (eq_refl id));
  }

  abbrev without : Files → Text → Files
  without s id = record s { files = erase (file_name std s id) s.files }

  gone : (s : Files) (id : Text) → is_ok (Files.get_raw_body std (without s id) id) ≡ false
  unfolding Files.get_raw_body file_name
  gone s id =
      rw
        (
          Files.get_raw_body,
          lookup-erase (file_name std s id) (file_name std s id) s.files,
          eq_refl (file_name std s id),
        )
        refl

  files-delete :
      (s : Files) (id : Text) (o : Option Text)
      → lookup (file_name std s id) s.files ≡ o
      → Files.delete_email_by_id std s id ≡ (elim o as (λ _. Files × Option Error) [
        | none ↦ (s, some (no_file (file_name std s id)))
        | some bytes ↦ (without s id, none)
      ])
  unfolding Files.delete_email_by_id
  files-delete s id o h =
      ap
        (λ x. elim x as (λ _. Files × Option Error) [
          | none ↦ (s, some (no_file (file_name std s id)))
          | some bytes ↦ (without s id, none)
        ])
        h

  files-delete_implemented :
      (s : Files) (id : Text) (e : Error)
      → (Files.delete_email_by_id std s id).1 ≡ some e
      → is_unimplemented e ≡ false
  files-delete_implemented s id e h = elim (Option-cases (lookup (file_name std s id) s.files)) [
    | inl missing ↦
        ap is_unimplemented
          (sym (some_injective _ e (sym (ap (λ r. r.1) (files-delete s id none missing)) ∙ h)))
    | inr (bytes, there) ↦ cc (sym (ap (λ r. r.1) (files-delete s id (some bytes) there)) ∙ h)
  ]

  files-get-delete :
      (s : Files) (id : Text)
      → (Files.delete_email_by_id std s id).1 ≡ none
      → is_ok (Files.get_raw_body std (Files.delete_email_by_id std s id).0 id) ≡ false
  files-get-delete s id h = elim (Option-cases (lookup (file_name std s id) s.files)) [
    | inl missing ↦ cc (sym (ap (λ r. r.1) (files-delete s id none missing)) ∙ h)
    | inr (bytes, there) ↦
        ap (λ r. is_ok (Files.get_raw_body std r.0 id)) (files-delete s id (some bytes) there)
        ∙ gone s id
  ]

  -- The filesystem layer forgets what it deletes, in both kinds of folder.
  pub files-ForgetsRaw : ForgetsRaw (file_layer std now)
  files-ForgetsRaw = record {
    delete_implemented = files-delete_implemented;
    get-delete = files-get-delete;
  }

  -- The memory layer spares the other emails, and the filesystem layer if every id has its own file.
  pub memory-SparesOthers : SparesOthers (memory_layer std now)
  memory-SparesOthers = record {
    spared = λ s id j other.
        (get-delete_email_by_id s id j).2
        ∙ ap (λ b. if b then err (not_found (lit "raw email") j) else Memory.get_raw_email s j)
            other;
  }

  files-spared :
      KeepsApart std
      → (s : Files) (id j : Text) → (id == j) ≡ false
      → Files.get_raw_body std (Files.delete_email_by_id std s id).0 j ≡ Files.get_raw_body std s j
  files-spared paths s id j other = elim (Option-cases (lookup (file_name std s id) s.files)) [
    | inl missing ↦ ap (λ r. Files.get_raw_body std r.0 j) (files-delete s id none missing)
    | inr (bytes, there) ↦
        ap (λ r. Files.get_raw_body std r.0 j) (files-delete s id (some bytes) there)
        ∙ get_raw_body-erase std s id j (KeepsApart-Apart std s id j paths)
        ∙ ap (λ b. if b then err (no_file (file_name std s j)) else Files.get_raw_body std s j)
            other
  ]

  pub files-SparesOthers : KeepsApart std → SparesOthers (file_layer std now)
  files-SparesOthers paths = record { spared = files-spared paths }
