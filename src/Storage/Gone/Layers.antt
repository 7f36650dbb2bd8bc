-- ===== src/Storage/Gone/Layers.antt =====
-- The three layers bring nothing back by a deletion.
use mock_my_mta.Base.{
  Text, lit, ◌==◌, ◌≡◌, refl, ap, ◌∙◌, List, [], ◌∷◌, Bool, true, false, if◌then◌else◌, Outcome,
  err, is_ok, Error, Option-cases, inl, inr, Option, none,
}
use mock_my_mta.Base.Dict.{lookup, lookup-erase}
use mock_my_mta.Std.{Std, Time}
use mock_my_mta.Storage.Memory.{Memory, memory_layer, not_found}
use mock_my_mta.Storage.Memory
use mock_my_mta.Storage.Memory.Cache.{get-delete_email_by_id}
use mock_my_mta.Storage.Files.{Files, FileType, file_name, delete_ids}
use mock_my_mta.Storage.Files
use mock_my_mta.Storage.Files.Disk.{opened}
use mock_my_mta.Storage.Sqlite.{Json, Database}
use mock_my_mta.Storage.Sqlite.Table.{SqlTable, raw-deleted, raw-all_deleted}
use mock_my_mta.Storage.Physical.{Physical, in_memory, in_folder, in_database, physical_layer}
use mock_my_mta.Storage.Gone.{NeverRestores}

-- An absence remains if the answer is replaced by an error under some condition.
still :
    (b : Bool) (x : Error) (o : Outcome Text)
    → is_ok o ≡ false
    → is_ok (if b then err x else o) ≡ false
still true x o h = refl
still false x o h = h

memory-delete_absent :
    (s : Memory) (id j : Text)
    → is_ok (Memory.get_raw_email s j) ≡ false
    → is_ok (Memory.get_raw_email (Memory.delete_email_by_id s id).0 j) ≡ false
memory-delete_absent s id j h =
    ap is_ok (get-delete_email_by_id s id j).2
    ∙ still (id == j) (not_found (lit "raw email") j) (Memory.get_raw_email s j) h

memory-delete_all_absent :
    (s : Memory) (j : Text) → is_ok (Memory.get_raw_email (Memory.delete_all_emails s).0 j) ≡ false
unfolding Memory.get_raw_email Memory.delete_all_emails lookup
memory-delete_all_absent s j = refl

-- What getRawBody reads of what is under the path, when a path has been erased.
erased_path :
    (kind : FileType) (name : Text) (b : Bool) (o : Option Text)
    → is_ok (opened kind name o) ≡ false
    → is_ok (opened kind name (if b then none else o)) ≡ false
erased_path kind name true o h = refl
erased_path kind name false o h = h

module _ (std : Std) where
  files-delete_absent :
      (s : Files) (id j : Text)
      → is_ok (Files.get_raw_body std s j) ≡ false
      → is_ok (Files.get_raw_body std (Files.delete_email_by_id std s id).0 j) ≡ false
  unfolding Files.delete_email_by_id Files.get_raw_body file_name
  files-delete_absent s id j h = elim (Option-cases (lookup (file_name std s id) s.files)) [
    | inl missing ↦ rw (Files.delete_email_by_id, missing) h
    | inr (bytes, there) ↦
        rw (Files.delete_email_by_id, there)
          (ap (λ o. is_ok (opened s.kind (file_name std s j) o))
              (lookup-erase (file_name std s id) (file_name std s j) s.files)
            ∙ erased_path s.kind (file_name std s j) (file_name std s id == file_name std s j)
                (lookup (file_name std s j) s.files) h)
  ]

  files-delete_ids_absent :
      (ids : List Text) (s : Files) (j : Text)
      → is_ok (Files.get_raw_body std s j) ≡ false
      → is_ok (Files.get_raw_body std (delete_ids std ids s).0 j) ≡ false
  unfolding delete_ids
  files-delete_ids_absent [] s j h = h
  files-delete_ids_absent (id ∷ ids) s j h =
      files-delete_ids_absent ids _ j (files-delete_absent s id j h)

  files-delete_all_absent :
      (s : Files) (j : Text)
      → is_ok (Files.get_raw_body std s j) ≡ false
      → is_ok (Files.get_raw_body std (Files.delete_all_emails std s).0 j) ≡ false
  unfolding Files.delete_all_emails
  files-delete_all_absent s j = files-delete_ids_absent (Files.get_all_email_ids std s) s j

module _ {D : Type 0} (db : Database D) (json : Json) (laws : SqlTable db) (std : Std)
    (now : Time) where
  physical-delete_absent :
      (p : Physical D) (id j : Text)
      → let layer = physical_layer db json std now in
        is_ok (layer.get_raw_email p j) ≡ false
        → is_ok (layer.get_raw_email (layer.delete_email_by_id p id).0 j) ≡ false
  physical-delete_absent (in_memory s) = memory-delete_absent s
  physical-delete_absent (in_folder s) = files-delete_absent std s
  physical-delete_absent (in_database d) = raw-deleted db json laws std d

  physical-delete_all_absent :
      (p : Physical D) (j : Text)
      → let layer = physical_layer db json std now in
        is_ok (layer.get_raw_email p j) ≡ false
        → is_ok (layer.get_raw_email (layer.delete_all_emails p).0 j) ≡ false
  physical-delete_all_absent (in_memory s) j h = memory-delete_all_absent s j
  physical-delete_all_absent (in_folder s) j h = files-delete_all_absent std s j h
  physical-delete_all_absent (in_database d) j h = raw-all_deleted db json laws std d j h

  -- Whichever of the three layers it is, no deletion brings an email back.
  pub physical-NeverRestores : NeverRestores (physical_layer db json std now)
  physical-NeverRestores = record {
    delete_absent = physical-delete_absent;
    delete_all_absent = physical-delete_all_absent;
  }
