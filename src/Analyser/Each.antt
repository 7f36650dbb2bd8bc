-- ===== src/Analyser/Each.antt =====
-- How the analyser goes on after an error.
use mock_my_mta.Base.{
  Text, lit, ◌==◌, ◌≡◌, refl, ap₂, ◌∙◌, sym, List, [], ◌∷◌, ◌++◌, Bool, true, false, not, ◌||◌,
  if◌then◌else◌, ℕ, ◌+◌, length, keep, all, Outcome, ok, err, ◌>>=◌, arith, Bool-cases, inl, inr,
}
use mock_my_mta.Base.Texts.{contains}
use mock_my_mta.Base.Dict.{Dict}
use mock_my_mta.Std.{Std, RawHeaders, Reader}
use mock_my_mta.Multipart.{Leaf, Node, get_filename}
use mock_my_mta.Multipart.Attachments.{get_attachments}
use mock_my_mta.Multipart.Body.{get_body}
use mock_my_mta.Multipart.Parse.{new, parse_email}
use mock_my_mta.Analyser.{
  Line, no_absolute_path, cannot_read, cannot_parse, cannot_create, end_of_analysis, blank,
  html_lines, plain_lines, known_id, attachment_lines, all_attachment_lines, summary, findings,
  analysis, analyse_message, absolute, analyse_file, analyse_files, parses,
}

abbrev pub is_end : Line → Bool
is_end end_of_analysis = true
is_end line = false

abbrev pub is_error : Line → Bool
is_error (no_absolute_path path e) = true
is_error (cannot_read path e) = true
is_error (cannot_parse path e) = true
is_error (cannot_create path e) = true
is_error line = false

abbrev pub count : (Line → Bool) → List Line → ℕ
count p [] = 0
count p (l ∷ ls) = (if p l then 1 else 0) + count p ls

count-append : (p : Line → Bool) (xs ys : List Line) → count p (xs ++ ys) ≡ count p xs + count p ys
count-append p [] ys = omega arith
count-append p (x ∷ xs) ys = omega (arith, count-append p xs ys)

length-keep :
    (p : Text → Bool) (x : Text) (xs : List Text)
    → length (keep p (x ∷ xs)) ≡ (if p x then 1 else 0) + length (keep p xs)
length-keep p x xs = elim (Bool-cases (p x)) [
  | inl kept ↦ rw kept (omega arith)
  | inr dropped ↦ rw dropped (omega arith)
]

turned : (b : Bool) (n : ℕ) → (if b then 0 else 1) + n ≡ (if not b then 1 else 0) + n
turned true n = refl
turned false n = refl

abbrev is_marked : Line → Bool
is_marked l = is_end l || is_error l

abbrev unmarked : List Line → Bool
unmarked = all (λ l. not (is_marked l))

-- The lines of an email, but the last two, neither end an analysis nor report an error.
module _ (std : Std) where
  html_lines-unmarked : (s : Text) → unmarked (html_lines std s) ≡ true
  html_lines-unmarked [] = refl
  html_lines-unmarked (c ∷ s) = elim (Bool-cases (contains (std.to_lower (c ∷ s)) (lit "<img"))) [
    | inl images ↦ rw images refl
    | inr none ↦ rw none refl
  ]

  plain_lines-unmarked : (s : Text) → unmarked (plain_lines std s) ≡ true
  plain_lines-unmarked [] = refl
  plain_lines-unmarked (c ∷ s) = refl

  append-unmarked :
      (xs ys : List Line) → unmarked xs ≡ true → unmarked ys ≡ true → unmarked (xs ++ ys) ≡ true
  append-unmarked [] ys h k = k
  append-unmarked (x ∷ xs) ys h k = ground (arith, append-unmarked xs ys)

  attachment_lines-unmarked :
      (path : Text) (i : ℕ) (l : Leaf) → unmarked (attachment_lines std path i l) ≡ true
  unfolding attachment_lines
  attachment_lines-unmarked path i l =
      elim (Bool-cases (known_id path (get_filename std l) == [])) [
        | inl unknown ↦ rw unknown refl
        | inr known ↦ rw known refl
      ]

  all_attachment_lines-unmarked :
      (path : Text) (i : ℕ) (ls : Dict Leaf) → unmarked (all_attachment_lines std path i ls) ≡ true
  unfolding all_attachment_lines
  all_attachment_lines-unmarked path i [] = refl
  all_attachment_lines-unmarked path i ((id, l) ∷ ls) =
      append-unmarked (attachment_lines std path i l) (all_attachment_lines std path (i + 1) ls)
        (attachment_lines-unmarked path i l) (all_attachment_lines-unmarked path (i + 1) ls)

  summary-unmarked : (path : Text) (mp : Node) → unmarked (summary std path mp) ≡ true
  unfolding summary
  summary-unmarked path mp = all_attachment_lines-unmarked path 0 (get_attachments std mp)

  findings-unmarked : (path : Text) (mp : Node) → unmarked (findings std path mp) ≡ true
  unfolding findings
  findings-unmarked path mp =
      let html = get_body std mp (lit "html") in
      let plain = get_body std mp (lit "plain-text") in
      append-unmarked (html_lines std html) (plain_lines std plain ++ summary std path mp)
        (html_lines-unmarked html)
        (append-unmarked (plain_lines std plain) (summary std path mp) (plain_lines-unmarked plain)
          (summary-unmarked path mp))

  module _ (p : Line → Bool) (silent : (l : Line) → is_marked l ≡ false → p l ≡ false) where
    count-unmarked : (ls : List Line) → unmarked ls ≡ true → count p ls ≡ 0
    count-unmarked [] h = refl
    count-unmarked (l ∷ ls) h = ground (arith, silent l, count-unmarked ls)

    count-analysis :
        (path : Text) (mp : Node)
        → count p (analysis std path mp) ≡ count p (end_of_analysis ∷ blank ∷ [])
    unfolding analysis
    count-analysis path mp = omega (
      arith,
      count-append p (findings std path mp) (end_of_analysis ∷ blank ∷ []),
      count-unmarked (findings std path mp) (findings-unmarked path mp),
    )

  -- What is printed of a file: an analysis or an error.
  abbrev Reports : Bool → List Line → Type 0
  Reports good ls =
      (count is_end ls ≡ (if good then 1 else 0)) × (count is_error ls ≡ (if good then 0 else 1))

  module _ (is_abs : Text → Bool) (abs read_file : Text → Outcome Text) where
    abbrev is_good : Outcome Node → Bool
    is_good (err e) = false
    is_good (ok mp) = true

    created :
        (path : Text) (o : Outcome Node)
        → Reports (is_good o) (elim o as (λ _. List Line) [
          | err e ↦ cannot_create path e ∷ []
          | ok mp ↦ analysis std path mp
        ])
    created path (err e) = (refl, refl)
    created path (ok mp) = (
      count-analysis is_end (λ l h. ground arith) path mp,
      count-analysis is_error (λ l h. ground arith) path mp,
    )

    message_reported :
        (path data_bytes : Text)
        → Reports
            (is_good (parse_email std data_bytes))
            (analyse_message std is_abs abs read_file path data_bytes)
    unfolding analyse_message parse_email
    message_reported path data_bytes = read (std.read_message data_bytes)
      where
        read :
            (o : Outcome (RawHeaders × Reader))
            → Reports
                (is_good (elim o [ err e ↦ err e | ok (h, body) ↦ new std h body ]))
                (elim o as (λ _. List Line) [
                  | err e ↦ cannot_parse path e ∷ []
                  | ok (headers, body) ↦ elim (new std headers body) as (λ _. List Line) [
                    | err e ↦ cannot_create path e ∷ []
                    | ok mp ↦ analysis std path mp
                  ]
                ])
        read (err e) = (refl, refl)
        read (ok (headers, body)) = created path (new std headers body)

    file_reported :
        (path : Text)
        → Reports
            (parses std is_abs abs read_file path)
            (analyse_file std is_abs abs read_file path)
    unfolding analyse_file
    file_reported path = resolve (absolute std is_abs abs read_file path)
      where
        opened :
            (o : Outcome Text)
            → Reports (is_good (o >>= parse_email std)) (elim o as (λ _. List Line) [
              | err e ↦ cannot_read path e ∷ []
              | ok data_bytes ↦ analyse_message std is_abs abs read_file path data_bytes
            ])
        opened (err e) = (refl, refl)
        opened (ok data_bytes) = message_reported path data_bytes

        resolve :
            (o : Outcome Text)
            → Reports
                (is_good (o >>= λ resolved. read_file path >>= parse_email std))
                (elim o as (λ _. List Line) [
                  | err e ↦ no_absolute_path path e ∷ []
                  | ok resolved ↦ elim (read_file path) as (λ _. List Line) [
                    | err e ↦ cannot_read path e ∷ []
                    | ok data_bytes ↦ analyse_message std is_abs abs read_file path data_bytes
                  ]
                ])
        resolve (err e) = (refl, refl)
        resolve (ok resolved) = opened (read_file path)

    -- Every file leads to one analysis with its end, if it can be read and its email parsed, and to
    -- one error if not, whatever becomes of the files before it.
    pub analyse_files_each :
        (paths : List Text)
        → let printed = analyse_files std is_abs abs read_file paths in
          (count is_end printed ≡ length (keep (parses std is_abs abs read_file) paths))
          × (count is_error printed
              ≡ length (keep (λ p. not (parses std is_abs abs read_file p)) paths))
    unfolding analyse_files
    analyse_files_each [] = (refl, refl)
    analyse_files_each (path ∷ paths) =
        let here = analyse_file std is_abs abs read_file path in
        let others = analyse_files std is_abs abs read_file paths in
        let (ends, errors) = analyse_files_each paths in
        let (one_end, one_error) = file_reported path in
        (
          count-append is_end here others
              ∙ ap₂ (λ a b. a + b) one_end ends
              ∙ sym (length-keep (parses std is_abs abs read_file) path paths),
          count-append is_error here others
              ∙ ap₂ (λ a b. a + b) one_error errors
              ∙ turned (parses std is_abs abs read_file path) _
              ∙ sym (length-keep (λ p. not (parses std is_abs abs read_file p)) path paths),
        )
