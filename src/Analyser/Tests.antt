-- ===== src/Analyser/Tests.antt =====
-- A run of the analyser on an email and a file that is missing.
use mock_my_mta.Base.{
  Text, lit, ◌==◌, ◌≡◌, List, [], ◌∷◌, Bool, true, not, if◌then◌else◌, length, keep, Outcome, ok,
  err, failed,
}
use mock_my_mta.Std.Ascii.{ascii_std}
use mock_my_mta.Analyser.{analyse_files, parses}
use mock_my_mta.Analyser.Each.{count, is_end, is_error, analyse_files_each}

abbrev always : Text → Bool
always path = true

abbrev same_path : Text → Outcome Text
same_path path = ok path

abbrev disk : Text → Outcome Text
disk path = if path == lit "a.eml" then ok (lit "hello") else err (failed (lit "no such file"))

abbrev arguments : List Text
arguments = lit "b.eml" ∷ lit "a.eml" ∷ []

analyse_files_each_example :
    (count is_end (analyse_files ascii_std always same_path disk arguments)
      ≡ length (keep (parses ascii_std always same_path disk) arguments))
    × (count is_error (analyse_files ascii_std always same_path disk arguments)
        ≡ length (keep (λ p. not (parses ascii_std always same_path disk p)) arguments))
analyse_files_each_example = analyse_files_each ascii_std always same_path disk arguments
