-- ===== src/Command/TestData.antt =====
-- loadTestData of cmd/server/main.go: the emails of a folder are stored through the engine.
use mock_my_mta.Base.{
  Text, lit, ◌==◌, ◌≡◌, refl, ap, ◌∙◌, List, [], ◌∷◌, Option, none, some, Bool, not, ◌&&◌,
  if◌then◌else◌, keep, Outcome, ok, err, Error, map, arith,
}
use mock_my_mta.Std.{RawHeaders, Reader}

-- What filepath.Walk comes across: a path, whether it is a folder, and its filepath.Ext.
pub record Entry : Type 0 where
  pub path : Text
  pub is_folder : Bool
  pub extension : Text

unfoldable pub email_files : List Entry → List Text
email_files [] = []
email_files (entry ∷ entries) =
    let rest = email_files entries in
    if entry.is_folder
    then rest
    else if entry.extension == lit ".eml"
    then entry.path ∷ rest
    else rest

-- The files with the extension .eml.
abbrev pub is_email : Entry → Bool
is_email entry = not entry.is_folder && entry.extension == lit ".eml"

email_files-keep :
    (entries : List Entry) → email_files entries ≡ map (λ e. e.path) (keep is_email entries)
unfolding email_files
email_files-keep [] = refl
email_files-keep (entry ∷ entries) = ground (arith, email_files-keep entries)

-- os.Open with what the file holds, mail.ReadMessage, and Engine.Set.
module _ (open_file : Text → Outcome Text)
    (read_message : Text → Outcome (RawHeaders × Reader)) where
  -- The messages of the files that can be read, in their order.
  abbrev message_of : Outcome Text → List (RawHeaders × Reader) → List (RawHeaders × Reader)
  message_of (err e) rest = rest
  message_of (ok bytes) rest = elim (read_message bytes) [
    | err e ↦ rest
    | ok message ↦ message ∷ rest
  ]

  unfoldable pub messages : List Text → List (RawHeaders × Reader)
  messages [] = []
  messages (filename ∷ filenames) = message_of (open_file filename) (messages filenames)

  module _ {S : Type 0} (set_message : S → RawHeaders → Reader → (S × Text) × Option Error) where
    -- One round of the loop: every error is only logged.
    unfoldable pub load_file : Text → S → S
    load_file filename s = elim (open_file filename) [
      | err e ↦ s
      | ok bytes ↦ elim (read_message bytes) [
        | err e ↦ s
        | ok (headers, body) ↦ (set_message s headers body).0.0
      ]
    ]

    unfoldable pub load_files : List Text → S → S
    unfolding load_file
    load_files [] s = s
    load_files (filename ∷ filenames) s = load_files filenames (load_file filename s)

    -- The walk is done before the first email is stored, and its error ends the load.
    unfoldable pub load_test_data : Outcome (List Entry) → S → S × Option Error
    unfolding load_files email_files
    load_test_data (err e) s = (s, some e)
    load_test_data (ok entries) s = (load_files (email_files entries) s, none)

    unfoldable pub store_all : List (RawHeaders × Reader) → S → S
    store_all [] s = s
    store_all ((headers, body) ∷ rest) s = store_all rest (set_message s headers body).0.0

    abbrev after_file : Outcome Text → S → S
    after_file o s = elim o [
      | err e ↦ s
      | ok bytes ↦ elim (read_message bytes) [
        | err e ↦ s
        | ok (headers, body) ↦ (set_message s headers body).0.0
      ]
    ]

    stored-message :
        (rest : List (RawHeaders × Reader)) (s : S) (o : Outcome Text)
        → store_all rest (after_file o s) ≡ store_all (message_of o rest) s
    unfolding store_all
    stored-message rest s (err e) = refl
    stored-message rest s (ok bytes) = read (read_message bytes)
      where
        read :
            (o : Outcome (RawHeaders × Reader))
            → store_all rest
                (elim o [ err e ↦ s | ok (headers, body) ↦ (set_message s headers body).0.0 ])
              ≡ store_all (elim o [ err e ↦ rest | ok message ↦ message ∷ rest ]) s
        read (err e) = refl
        read (ok (headers, body)) = refl

    load_files-store_all :
        (filenames : List Text) (s : S) → load_files filenames s ≡ store_all (messages filenames) s
    unfolding load_files messages load_file store_all
    load_files-store_all [] s = refl
    load_files-store_all (filename ∷ filenames) s =
        load_files-store_all filenames (load_file filename s)
        ∙ stored-message (messages filenames) s (open_file filename)

    -- If the folder can be walked, the messages of its .eml files are stored in the order of the walk,
    -- each once, whatever the storage answers; a file that cannot be opened or read is left out, and
    -- no error is reported.
    pub load_test_data-messages :
        (entries : List Entry) (s : S)
        → load_test_data (ok entries) s
          ≡ (store_all (messages (map (λ e. e.path) (keep is_email entries))) s, none)
    unfolding load_test_data
    load_test_data-messages entries s =
        ap (λ s'. (s', none))
          (load_files-store_all (email_files entries) s
            ∙ ap (λ names. store_all (messages names) s) (email_files-keep entries))
