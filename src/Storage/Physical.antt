-- ===== src/Storage/Physical.antt =====
-- The layers that NewEngine of storage/engine.go makes, as one layer whose state says which it is.
pub mod Restart
mod Tests
use mock_my_mta.Storage.Sqlite.{Json, Database, sqlite_layer}
use mock_my_mta.Storage.Sqlite
use mock_my_mta.Storage.Memory.Load
use mock_my_mta.Storage.Sqlite.Table.{
  SqlTable, sqlite-KeepsRaw, sqlite-ForgetsRaw, sqlite-SparesOthers,
}
use mock_my_mta.Base.{
  is_ok, false, ◌>>=◌, Outcome, Text, Option, none, some, ok, Error, if◌then◌else◌, ◌==◌, ◌≡◌,
}
use mock_my_mta.Std.{Std, Time}
use mock_my_mta.Storage.Layer.{Layer}
use mock_my_mta.Storage.Memory.{Memory, memory_layer}
use mock_my_mta.Storage.Files.{Files, file_layer}
use mock_my_mta.Storage.Files.Disk.{KeepsApart}
use mock_my_mta.Storage.Engine.{is_unimplemented}
use mock_my_mta.Storage.Laws.{
  KeepsRaw, memory-KeepsRaw, files-KeepsRaw, ForgetsRaw, memory-ForgetsRaw, files-ForgetsRaw,
  SparesOthers, memory-SparesOthers, files-SparesOthers,
}

pub data Physical (D : Type 0) : Type 0 where
  in_memory : Memory → Physical D
  in_folder : Files → Physical D
  in_database : D → Physical D

-- The methods of a layer, through a constructor of the state.
abbrev through : {S D : Type 0} → (S → Physical D) → S × Option Error → Physical D × Option Error
through f (s, error) = (f s, error)

module _ {D : Type 0} (db : Database D) (json : Json) (std : Std) (now : Time) where
  -- A method, by the type of the layer.
  abbrev choose : {A : Type 0} → ((S : Type 0) → Layer S → S → A) → Physical D → A
  choose f (in_memory s) = f Memory (memory_layer std now) s
  choose f (in_folder s) = f Files (file_layer std now) s
  choose f (in_database s) = f D (sqlite_layer db json std now) s

  abbrev choose_write :
      ((S : Type 0) → Layer S → S → S × Option Error) → Physical D → Physical D × Option Error
  choose_write f (in_memory s) = through in_memory (f Memory (memory_layer std now) s)
  choose_write f (in_folder s) = through in_folder (f Files (file_layer std now) s)
  choose_write f (in_database s) = through in_database (f D (sqlite_layer db json std now) s)

  abbrev pub physical_layer : Layer (Physical D)
  physical_layer = record {
    get_mailboxes = choose (λ _ l s. l.get_mailboxes s);
    get_email_by_id = λ p id. choose (λ _ l s. l.get_email_by_id s id) p;
    get_body_version = λ p id v. choose (λ _ l s. l.get_body_version s id v) p;
    get_attachments = λ p id. choose (λ _ l s. l.get_attachments s id) p;
    get_attachment = λ p id a. choose (λ _ l s. l.get_attachment s id a) p;
    search_emails = λ p q n m. choose (λ _ l s. l.search_emails s q n m) p;
    get_raw_email = λ p id. choose (λ _ l s. l.get_raw_email s id) p;
    delete_all_emails = choose_write (λ _ l s. l.delete_all_emails s);
    delete_email_by_id = λ p id. choose_write (λ _ l s. l.delete_email_by_id s id) p;
    set_with_id = λ p id raw. choose_write (λ _ l s. l.set_with_id s id raw) p;
  }

  module _ (laws : SqlTable db) (paths : KeepsApart std) where
    physical-set_implemented :
        (p : Physical D) (id raw_email : Text) (e : Error)
        → (physical_layer.set_with_id p id raw_email).1 ≡ some e
        → is_unimplemented e ≡ false
    physical-set_implemented (in_memory s) = (memory-KeepsRaw std now).set_implemented s
    physical-set_implemented (in_folder s) = (files-KeepsRaw std now paths).set_implemented s
    physical-set_implemented (in_database s) =
        (sqlite-KeepsRaw db json laws std now).set_implemented s

    physical-get-set :
        (p : Physical D) (id raw_email j : Text)
        → (physical_layer.set_with_id p id raw_email).1 ≡ none
        → physical_layer.get_raw_email (physical_layer.set_with_id p id raw_email).0 j
          ≡ (if id == j then ok raw_email else physical_layer.get_raw_email p j)
    physical-get-set (in_memory s) = (memory-KeepsRaw std now).get-set s
    physical-get-set (in_folder s) = (files-KeepsRaw std now paths).get-set s
    physical-get-set (in_database s) = (sqlite-KeepsRaw db json laws std now).get-set s

    -- Whichever of the three layers it is, it implements writing and gives back the raw bytes that
    -- were written without an error, and those of the other ids as they were; for the SQLite layer
    -- if its database keeps the rows that are inserted, for the filesystem layer if every id has its
    -- own file.
    pub physical-KeepsRaw : KeepsRaw physical_layer
    physical-KeepsRaw = record {
      set_implemented = physical-set_implemented;
      get-set = physical-get-set;
    }

    physical-delete_implemented :
        (p : Physical D) (id : Text) (e : Error)
        → (physical_layer.delete_email_by_id p id).1 ≡ some e
        → is_unimplemented e ≡ false
    physical-delete_implemented (in_memory s) = (memory-ForgetsRaw std now).delete_implemented s
    physical-delete_implemented (in_folder s) = (files-ForgetsRaw std now).delete_implemented s
    physical-delete_implemented (in_database s) =
        (sqlite-ForgetsRaw db json laws std now).delete_implemented s

    physical-get-delete :
        (p : Physical D) (id : Text)
        → (physical_layer.delete_email_by_id p id).1 ≡ none
        → is_ok (physical_layer.get_raw_email (physical_layer.delete_email_by_id p id).0 id) ≡ false
    physical-get-delete (in_memory s) = (memory-ForgetsRaw std now).get-delete s
    physical-get-delete (in_folder s) = (files-ForgetsRaw std now).get-delete s
    physical-get-delete (in_database s) = (sqlite-ForgetsRaw db json laws std now).get-delete s

    -- Whichever of the three layers it is, it implements deletion and has no raw bytes of an id that
    -- it has deleted without an error.
    pub physical-ForgetsRaw : ForgetsRaw physical_layer
    physical-ForgetsRaw = record {
      delete_implemented = physical-delete_implemented;
      get-delete = physical-get-delete;
    }

    physical-spared :
        (p : Physical D) (id j : Text)
        → (id == j) ≡ false
        → physical_layer.get_raw_email (physical_layer.delete_email_by_id p id).0 j
          ≡ physical_layer.get_raw_email p j
    physical-spared (in_memory s) = (memory-SparesOthers std now).spared s
    physical-spared (in_folder s) = (files-SparesOthers std now paths).spared s
    physical-spared (in_database s) = (sqlite-SparesOthers db json laws std now).spared s

    -- Whichever of the three layers it is, a deletion spares the other emails.
    pub physical-SparesOthers : SparesOthers physical_layer
    physical-SparesOthers = record { spared = physical-spared }

  -- The `load` of a layer, with the root unless it is the root itself. A folder is there already.
  abbrev pub load_physical : Physical D → Option (Physical D) → Outcome (Physical D)
  load_physical p none = ok p
  load_physical (in_memory m) (some root) =
      Load.load physical_layer root m >>= λ m'. ok (in_memory m')
  load_physical (in_folder s) (some root) = ok (in_folder s)
  load_physical (in_database d) (some root) =
      Sqlite.load db json std now physical_layer root d >>= λ d'. ok (in_database d')
