-- ===== src/Command/Tests.antt =====
-- A run of the load of test data on a folder with an email, a broken one and another file, into a
-- storage that lists the bodies it was given.
use mock_my_mta.Base.{
  Text, lit, ◌==◌, ◌≡◌, List, [], ◌∷◌, ◌++◌, Option, none, true, false, if◌then◌else◌, keep, map,
  Outcome, ok, err, Error, failed,
}
use mock_my_mta.Std.{RawHeaders, Reader}
use mock_my_mta.Std.Ascii.{ascii_std}
use mock_my_mta.Command.TestData.{
  Entry, load_test_data, store_all, messages, is_email, load_test_data-messages,
}

abbrev file : Text → Text → Entry
file path extension = record { path = path; is_folder = false; extension = extension }

abbrev folder : List Entry
folder =
    record (file (lit "data") []) { is_folder = true }
    ∷ file (lit "data/a.eml") (lit ".eml")
    ∷ file (lit "data/broken.eml") (lit ".eml")
    ∷ file (lit "data/notes.txt") (lit ".txt")
    ∷ []

abbrev open_file : Text → Outcome Text
open_file name = if name == lit "data/a.eml" then ok (lit "hello") else err (failed (lit "EOF"))

abbrev listed : List Text → RawHeaders → Reader → (List Text × Text) × Option Error
listed bodies headers body = ((bodies ++ (body.content ∷ []), lit "id"), none)

load_test_data-messages_example :
    load_test_data open_file ascii_std.read_message listed (ok folder) [] ≡ (
      store_all open_file ascii_std.read_message listed
          (messages open_file ascii_std.read_message (map (λ e. e.path) (keep is_email folder)))
          [],
      none,
    )
load_test_data-messages_example =
    load_test_data-messages open_file ascii_std.read_message listed folder []
