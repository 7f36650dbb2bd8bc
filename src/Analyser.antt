-- ===== src/Analyser.antt =====
-- cmd/email-analyser/analyzer.go: what the command prints of the email files that it is given. A line
-- stands for one call of fmt.Printf, fmt.Println or fmt.Fprintf, with its values.
mod Tests
pub mod Each
use mock_my_mta.Base.{
  Text, lit, ◌==◌, ◌≡◌, refl, ap, ap₂, ◌∙◌, List, [], ◌∷◌, ◌++◌, Bool, true, false, not, ◌&&◌,
  if◌then◌else◌, ℕ, ◌+◌, length, Outcome, ok, err, Error, ◌>>=◌, arith, Outcome-cases, inl, inr,
}
use mock_my_mta.Base.Texts.{has_suffix, contains}
use mock_my_mta.Base.Dict.{Dict}
use mock_my_mta.Std.{Std}
use mock_my_mta.Multipart.{Leaf, Node, get_attachment_type, get_filename}
use mock_my_mta.Multipart.Attachments.{get_attachments, has_attachments}
use mock_my_mta.Multipart.Body.{get_body, get_body_versions}
use mock_my_mta.Multipart.Fields.{get_subject}
use mock_my_mta.Multipart.Parse.{new, parse_email}
use mock_my_mta.Multipart.Preview.{get_preview}

pub data Line : Type 0 where
  usage : Line
  no_absolute_path cannot_read cannot_parse cannot_create : Text → Error → Line
  heading subject : Text → Line
  html_body plain_body : ℕ → Line
  has_images no_html_body no_plain_body no_content_id end_of_analysis blank : Line
  preview : Text → Line
  body_versions : List Text → ℕ → Line
  attachments_flag : Bool → Line
  attachment_count : ℕ → Line
  attachment_number : ℕ → Line
  attachment_filename attachment_type known_content_id : Text → Line

-- The table of Content-IDs that the command knows by itself.
unfoldable pub known_id : Text → Text → Text
known_id path filename =
    if has_suffix path (lit "related_html_image.eml") && filename == lit "image.png"
    then lit "image1@example.com"
    else if has_suffix path (lit "related_with_start_param.eml") && filename == lit "image.gif"
    then lit "image_part@example.com"
    else if has_suffix path (lit "related_nested_mixed.eml")
    then (if filename == lit "photo.jpg" then lit "nested_image@example.com" else [])
    else []

module _ (std : Std) where
  -- The two bodies; GetBody gives no error.
  abbrev html_lines : Text → List Line
  html_lines [] = no_html_body ∷ []
  html_lines (c ∷ s) =
      html_body (length (c ∷ s))
      ∷ (if contains (std.to_lower (c ∷ s)) (lit "<img") then has_images ∷ [] else [])

  abbrev plain_lines : Text → List Line
  plain_lines [] = no_plain_body ∷ []
  plain_lines (c ∷ s) = plain_body (length (c ∷ s)) ∷ []

  -- One round of the loop over the attachments.
  unfoldable pub attachment_lines : Text → ℕ → Leaf → List Line
  unfolding known_id
  attachment_lines path i l =
      let filename = get_filename std l in
      let known = known_id path filename in
      attachment_number i
      ∷ attachment_filename filename
      ∷ attachment_type (get_attachment_type std l)
      ∷ no_content_id
      ∷ (if known == [] then [] else known_content_id known ∷ [])

  unfoldable pub all_attachment_lines : Text → ℕ → Dict Leaf → List Line
  unfolding attachment_lines
  all_attachment_lines path i [] = []
  all_attachment_lines path i ((id, l) ∷ ls) =
      attachment_lines path i l ++ all_attachment_lines path (i + 1) ls

  -- What is printed behind the bodies of an email, and all but the end.
  unfoldable pub summary : Text → Node → List Line
  unfolding all_attachment_lines
  summary path mp =
      let versions = get_body_versions std mp in
      let attachments = get_attachments std mp in
      preview (get_preview std mp)
      ∷ body_versions versions (length versions)
      ∷ attachments_flag (has_attachments std mp)
      ∷ attachment_count (length attachments)
      ∷ all_attachment_lines path 0 attachments

  unfoldable pub findings : Text → Node → List Line
  unfolding summary
  findings path mp =
      heading path
      ∷ subject (get_subject std mp)
      ∷ (html_lines (get_body std mp (lit "html"))
          ++ (plain_lines (get_body std mp (lit "plain-text")) ++ summary path mp))

  unfoldable pub analysis : Text → Node → List Line
  unfolding findings
  analysis path mp = findings path mp ++ (end_of_analysis ∷ blank ∷ [])

  -- filepath.IsAbs, filepath.Abs and os.ReadFile.
  module _ (is_abs : Text → Bool) (abs read_file : Text → Outcome Text) where
    -- The analysis of what is read, or one error.
    unfoldable pub analyse_message : Text → Text → List Line
    unfolding analysis
    analyse_message path data_bytes = elim (std.read_message data_bytes) [
      | err e ↦ cannot_parse path e ∷ []
      | ok (headers, body) ↦ elim (new std headers body) [
        | err e ↦ cannot_create path e ∷ []
        | ok mp ↦ analysis path mp
      ]
    ]

    abbrev absolute : Text → Outcome Text
    absolute path = if is_abs path then ok path else abs path

    -- One round of the loop over the files.
    unfoldable pub analyse_file : Text → List Line
    unfolding analyse_message
    analyse_file path = elim (absolute path) [
      | err e ↦ no_absolute_path path e ∷ []
      | ok resolved ↦ elim (read_file path) [
        | err e ↦ cannot_read path e ∷ []
        | ok data_bytes ↦ analyse_message path data_bytes
      ]
    ]

    unfoldable pub analyse_files : List Text → List Line
    unfolding analyse_file
    analyse_files [] = []
    analyse_files (path ∷ paths) = analyse_file path ++ analyse_files paths

    -- main, by the arguments behind the program's name: the lines, and the exit code.
    unfoldable pub main : List Text → List Line × ℕ
    unfolding analyse_files
    main [] = (usage ∷ [], 1)
    main (path ∷ paths) = (analyse_files (path ∷ paths), 0)

    -- The file can be read, and its email parsed.
    abbrev pub parses : Text → Bool
    parses path = elim (absolute path >>= λ resolved. read_file path >>= parse_email std) [
      | err e ↦ false
      | ok mp ↦ true
    ]
