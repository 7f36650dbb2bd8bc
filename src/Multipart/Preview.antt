-- ===== src/Multipart/Preview.antt =====
-- GetPreview and stripHTMLTags of storage/multipart/multipart.go.
use mock_my_mta.Base.{
  Text, lit, ◌==◌, ◌≡◌, refl, List, [], ◌∷◌, ◌++◌, Bool, true, not, ◌&&◌, if◌then◌else◌, ltb, eqb,
  length, length-append, length-take, take, drop, all, ℕ, zero, suc, ◌≤◌, arith, map, Bool-cases,
  inl, inr,
}
use mathlib.Core.List.{reverse, reverse-cons}
use mock_my_mta.Base.Texts.{
  replace_byte, replace_all, trim_space, trim_front, width, spaces, fields_from, join,
}
use mock_my_mta.Std.{Std}
use mock_my_mta.Multipart.{
  Leaf, Node, leaf, multi, is_attachment, is_plain_text, is_html, get_decoded_body,
}
use mock_my_mta.Multipart.Walk.{Status, continue_walk, stop_walk, walk_nodes}

-- previewText and htmlText
pub record Preview : Type 0 where
  pub text : Text
  pub html : Text

module _ (std : Std) where
  open std use {replace_regexp}

  unfoldable pub strip_html_tags : Text → Text
  unfolding replace_all fields_from join
  strip_html_tags s =
      let s1 = replace_regexp (lit "(?is)<script[^>]*>.*?</script>") s (lit " ") in
      let s2 = replace_regexp (lit "(?is)<style[^>]*>.*?</style>") s1 (lit " ") in
      let s3 = replace_regexp (lit "(?s)<!--.*?-->") s2 (lit " ") in
      let s4 = replace_regexp (lit "(?s)<\\?xml.*?\\?>") s3 (lit " ") in
      let s5 = replace_regexp (lit "<[^>]*>") s4 (lit " ") in
      let s6 = replace_all s5 (lit "&nbsp;") (lit " ") in
      let s7 = replace_all s6 (lit "&amp;") (lit "&") in
      let s8 = replace_all s7 (lit "&lt;") (lit "<") in
      let s9 = replace_all s8 (lit "&gt;") (lit ">") in
      let s10 = replace_all s9 (lit "&quot;") (b'"' ∷ []) in
      let s11 = replace_all s10 (lit "&#39;") (lit "'") in
      let s12 = replace_regexp (lit "&[a-zA-Z0-9#]+;") s11 (lit " ") in
      join (fields_from [] 0 s12) (lit " ")

  -- What the closure does at a leaf that is no attachment.
  unfoldable pub preview_leaf : Preview → Leaf → Text → Preview
  preview_leaf s l parent =
      if parent == lit "multipart/alternative"
      then (if is_plain_text std l && s.text == []
          then record s { text = get_decoded_body std l }
          else if is_html std l && s.html == []
          then record s { html = get_decoded_body std l }
          else s)
      else if is_plain_text std l && s.text == []
      then record s { text = get_decoded_body std l }
      else if is_html std l && s.html == [] && s.text == []
      then record s { html = get_decoded_body std l }
      else s

  -- The test behind the assignments: an alternative that has given a text ends the walk.
  unfoldable pub preview_status : Preview → Text → Status
  preview_status s parent =
      if parent == lit "multipart/alternative" && not (s.text == [])
      then stop_walk
      else continue_walk

  unfoldable pub visit_preview : Preview → Node → Text → Preview × Status
  unfolding preview_leaf preview_status
  visit_preview s (leaf l) parent =
      if is_attachment std l
      then (s, continue_walk)
      else let s' = preview_leaf s l parent in (s', preview_status s' parent)
  visit_preview s (multi h ps) parent = (s, preview_status s parent)

-- The end of GetPreview: no line breaks, trimmed, at most 100 bytes and an ellipsis.
unfoldable pub shorten : Text → Text
unfolding replace_byte trim_space
shorten text =
    let line = trim_space (replace_byte 10 (lit " ") (replace_byte 13 [] text)) in
    if ltb 100 (length line) then take 100 line ++ lit "..." else line

module _ (std : Std) where
  -- The text that the walk chooses.
  unfoldable pub preview_text : Node → Text
  unfolding visit_preview strip_html_tags
  preview_text n =
      let s = (walk_nodes std (visit_preview std) n [] (record { text = []; html = [] })).0 in
      if s.text == [] then strip_html_tags std s.html else s.text

  unfoldable pub get_preview : Node → Text
  unfolding preview_text shorten
  get_preview n = shorten (preview_text n)

-- Neither a line feed nor a carriage return.
abbrev pub in_line : ℕ → Bool
in_line c = not (eqb c 10) && not (eqb c 13)

module _ (p : ℕ → Bool) where
  all-append : (s t : Text) → all p s ≡ true → all p t ≡ true → all p (s ++ t) ≡ true
  all-append [] t h k = k
  all-append (c ∷ s) t h k = ground (arith, all-append s t)

  all-drop : (n : ℕ) (s : Text) → all p s ≡ true → all p (drop n s) ≡ true
  all-drop zero s h = h
  all-drop (suc n) [] h = h
  all-drop (suc n) (c ∷ s) h = all-drop n s (ground arith)

  all-take : (n : ℕ) (s : Text) → all p s ≡ true → all p (take n s) ≡ true
  all-take zero s h = refl
  all-take (suc n) [] h = refl
  all-take (suc n) (c ∷ s) h = ground (arith, all-take n s)

  all-reverse : (s : Text) → all p s ≡ true → all p (reverse s) ≡ true
  all-reverse [] h = h
  all-reverse (c ∷ s) h =
      rw reverse-cons
        (all-append (reverse s) (c ∷ []) (all-reverse s (ground arith)) (ground arith))

  all-trim_front :
      (n : ℕ) (es : List Text) (s : Text) → all p s ≡ true → all p (trim_front n es s) ≡ true
  unfolding trim_front
  all-trim_front zero es s h = h
  all-trim_front (suc n) es s h =
      ground (arith, all-trim_front n es (drop (width es s) s) (all-drop (width es s) s h))

  all-trim_space : (s : Text) → all p s ≡ true → all p (trim_space s) ≡ true
  unfolding trim_space
  all-trim_space s h =
      let t = trim_front (length s) spaces s in
      all-reverse (trim_front (length t) (map reverse spaces) (reverse t)) (
        all-trim_front (length t) (map reverse spaces) (reverse t)
          (all-reverse t (all-trim_front (length s) spaces s h)))

all-replace_byte :
    (s : Text) → all in_line (replace_byte 10 (lit " ") (replace_byte 13 [] s)) ≡ true
unfolding replace_byte
all-replace_byte [] = refl
all-replace_byte (c ∷ s) = ground (arith, all-replace_byte s)

shorten_bounds : (text : Text) → (all in_line (shorten text) ≡ true) × (length (shorten text) ≤ 103)
unfolding shorten
shorten_bounds text =
    let cleaned = replace_byte 10 (lit " ") (replace_byte 13 [] text) in
    let line = trim_space cleaned in
    let clean = all-trim_space in_line cleaned (all-replace_byte text) in
    elim (Bool-cases (ltb 100 (length line))) [
      | inl long ↦ rw long (
        all-append in_line (take 100 line) (lit "...") (all-take in_line 100 line clean) refl,
        omega (arith, length-append (take 100 line) (lit "..."), length-take 100 line),
      )
      | inr short ↦ rw short (clean, ground arith)
    ]

module _ (std : Std) where
  -- A preview has no line breaks, and at most 103 bytes, whatever the email and its decoders give.
  pub get_preview_bounds :
      (n : Node) → (all in_line (get_preview std n) ≡ true) × (length (get_preview std n) ≤ 103)
  unfolding get_preview
  get_preview_bounds n = shorten_bounds (preview_text std n)
