-- ===== src/Multipart/Body/Alternative.antt =====
-- What GetBody returns for an email whose root is a multipart/alternative.
use mock_my_mta.Base.{
  Text, lit, ◌==◌, eq_refl, ◌≡◌, refl, ap, ◌∙◌, sym, List, [], ◌∷◌, ◌++◌, Bool, true, false, ◌||◌,
  if◌then◌else◌, any, first, is_some, arith, member, Option, none, some, ℕ, eqb,
}
use mock_my_mta.Base.Texts.{has_prefix}
use mock_my_mta.Std.{Std}
use mock_my_mta.Multipart.{
  Headers, Leaf, Node, leaf, multi, Nodes, nil, cons, is_plain_text, is_html, is_watch_html,
  media_type, get_decoded_body, get_content_type,
}
use mock_my_mta.Multipart.Walk.{Status, stop_walk, walk_nodes-stop, leaves}
use mock_my_mta.Multipart.Body.{
  Found, Picks, no_picks, pick, pick_parts, visit_alternative, visit_body, get_body,
  get_body_versions, root_body,
}
use mock_my_mta.Multipart.Body.Listed.{inline, member-get_body_versions}

-- The leaves among the direct parts.
abbrev pub direct : Nodes → List Leaf
direct nil = []
direct (cons (leaf l) ps) = l ∷ direct ps
direct (cons (multi h qs) ps) = direct ps

-- A text does not begin with two texts that part at some byte.
has_prefix_parts :
    (p : Text) (a b : ℕ) (q r s : Text)
    → eqb a b ≡ false
    → has_prefix s (p ++ (a ∷ q)) ≡ true
    → has_prefix s (p ++ (b ∷ r)) ≡ false
unfolding has_prefix
has_prefix_parts [] a b q r [] ne h = cc
has_prefix_parts [] a b q r (c ∷ s) ne h = ground arith
has_prefix_parts (x ∷ p) a b q r [] ne h = cc
has_prefix_parts (x ∷ p) a b q r (c ∷ s) ne h = ground (arith, has_prefix_parts p a b q r s)

module _ (std : Std) (l : Leaf) where
  html_of_plain : is_plain_text std l ≡ true → is_html std l ≡ false
  unfolding is_plain_text is_html
  html_of_plain h =
      has_prefix_parts (lit "text/") b'p' b'h' (lit "lain") (lit "tml")
        (get_content_type std l.headers) refl h

  watch_of_plain : is_plain_text std l ≡ true → is_watch_html std l ≡ false
  unfolding is_plain_text is_watch_html
  watch_of_plain h =
      has_prefix_parts (lit "text/") b'p' b'w' (lit "lain") (lit "atch-html")
        (get_content_type std l.headers) refl h

  html_of_watch : is_watch_html std l ≡ true → is_html std l ≡ false
  unfolding is_html is_watch_html
  html_of_watch h =
      has_prefix_parts (lit "text/") b'w' b'h' (lit "atch-html") (lit "tml")
        (get_content_type std l.headers) refl h

module _ (std : Std) where
  abbrev or_first : Option Leaf → Option Leaf → Option Leaf
  or_first none o = o
  or_first (some l) o = some l

  abbrev only : (Leaf → Bool) → Leaf → Option Leaf
  only kind l = if inline std kind l then some l else none

  pick-eq :
      (l : Leaf) (s : Picks)
      → pick std l s ≡ record {
        plain = or_first s.plain (only (is_plain_text std) l);
        html = or_first s.html (only (is_html std) l);
        watch = or_first s.watch (only (is_watch_html std) l);
      }
  unfolding pick
  pick-eq l s = ground (arith, html_of_plain std l, watch_of_plain std l, html_of_watch std l)

  or_first-first :
      (kind : Leaf → Bool) (o : Option Leaf) (l : Leaf) (ls : List Leaf)
      → or_first (or_first o (only kind l)) (first (inline std kind) ls)
        ≡ or_first o (first (inline std kind) (l ∷ ls))
  or_first-first kind o l ls = ground arith

  or_first-none : (o : Option Leaf) → or_first o none ≡ o
  or_first-none none = refl
  or_first-none (some l) = refl

  abbrev picked : List Leaf → Picks → Picks
  picked ls s = record {
    plain = or_first s.plain (first (inline std (is_plain_text std)) ls);
    html = or_first s.html (first (inline std (is_html std)) ls);
    watch = or_first s.watch (first (inline std (is_watch_html std)) ls);
  }

  pick_parts-eq : (ps : Nodes) (s : Picks) → pick_parts std ps s ≡ picked (direct ps) s
  unfolding pick_parts
  pick_parts-eq nil s = sym (λ i. record {
    plain = or_first-none s.plain i;
    html = or_first-none s.html i;
    watch = or_first-none s.watch i;
  })
  pick_parts-eq (cons (leaf l) ps) s =
      pick_parts-eq ps (pick std l s) ∙ ap (picked (direct ps)) (pick-eq l s) ∙ λ i. record {
        plain = or_first-first (is_plain_text std) s.plain l (direct ps) i;
        html = or_first-first (is_html std) s.html l (direct ps) i;
        watch = or_first-first (is_watch_html std) s.watch l (direct ps) i;
      }
  pick_parts-eq (cons (multi h qs) ps) s = pick_parts-eq ps s

  -- The body of a leaf that may be missing.
  abbrev pub body_of : Option Leaf → Text
  body_of none = []
  body_of (some l) = get_decoded_body std l

  -- What an alternative shows of a version.
  abbrev shown : Text → Picks → Text
  shown version p =
      if version == lit "plain-text"
      then body_of p.plain
      else if version == lit "html"
      then body_of p.html
      else if version == lit "watch-html"
      then body_of p.watch
      else []

  abbrev nothing_found : Found
  nothing_found = record { content = []; found = false }

  visit_alternative-shown :
      (version : Text) (p : Picks)
      → (is_some p.plain || is_some p.html || is_some p.watch) ≡ true
      → ((visit_alternative std version nothing_found p).1 ≡ stop_walk)
        × ((visit_alternative std version nothing_found p).0.content ≡ shown version p)
  unfolding visit_alternative
  visit_alternative-shown version p h = ground arith

  visit_body-alternative :
      (version : Text) (s : Found) (h : Headers) (ps : Nodes)
      → media_type std h ≡ lit "multipart/alternative"
      → visit_body std version s (multi h ps) []
        ≡ visit_alternative std version s (pick_parts std ps no_picks)
  unfolding visit_body
  visit_body-alternative version s h ps e = rw (e, eq_refl)

  abbrev some_direct : Nodes → Bool
  some_direct ps =
      let p = picked (direct ps) no_picks in is_some p.plain || is_some p.html || is_some p.watch

  get_body-content :
      (n : Node) (version : Text) (s : Found) (h : Headers) (ps : Nodes)
      → (if s.found then s.content else root_body std version s (multi h ps)) ≡ s.content
  unfolding root_body
  get_body-content n version s h ps = ground arith

  get_body-shown :
      (version : Text) (h : Headers) (ps : Nodes)
      → media_type std h ≡ lit "multipart/alternative"
      → some_direct ps ≡ true
      → get_body std (multi h ps) version ≡ shown version (picked (direct ps) no_picks)
  unfolding get_body
  get_body-shown version h ps e some_pick =
      let visit = visit_body-alternative version nothing_found h ps e in
      let p = picked (direct ps) no_picks in
      let same =
        visit ∙ ap (visit_alternative std version nothing_found) (pick_parts-eq ps no_picks) in
      let result = visit_alternative-shown version p some_pick in
      get_body-content (multi h ps) version _ h ps
      ∙ ap (λ (f : Found). f.content)
          (walk_nodes-stop std (visit_body std version) (multi h ps) [] nothing_found
            (ap (λ (r : Found × Status). r.1) same ∙ result.0))
      ∙ ap (λ (r : Found × Status). r.0.content) same
      ∙ result.1

module _ (std : Std) where
  -- The types that GetBody can show.
  abbrev pub is_text : Leaf → Bool
  is_text l = is_plain_text std l || is_html std l || is_watch_html std l

  is_some-first : (p : Leaf → Bool) (ls : List Leaf) → is_some (first p ls) ≡ any p ls
  is_some-first p [] = refl
  is_some-first p (l ∷ ls) = ground (arith, is_some-first p ls)

  any-is_text :
      (ls : List Leaf)
      → any (inline std is_text) ls ≡ (
          any (inline std (is_plain_text std)) ls
          || any (inline std (is_html std)) ls
          || any (inline std (is_watch_html std)) ls)
  any-is_text [] = refl
  any-is_text (l ∷ ls) = ground (arith, any-is_text ls)

  some_direct-of_any :
      (ps : Nodes) → any (inline std is_text) (direct ps) ≡ true → some_direct std ps ≡ true
  some_direct-of_any ps h =
      rw
        (
          is_some-first (inline std (is_plain_text std)) (direct ps),
          is_some-first (inline std (is_html std)) (direct ps),
          is_some-first (inline std (is_watch_html std)) (direct ps),
        )
        (sym (any-is_text (direct ps)) ∙ h)

  -- In an email whose root is a multipart/alternative with some text, HTML or watch-HTML leaf among
  -- its direct parts (attachments apart), GetBody returns for each version the decoded body of the
  -- first such leaf of its type among the direct parts, and the empty text if there is none.
  pub get_body-alternative :
      (h : Headers) (ps : Nodes)
      → media_type std h ≡ lit "multipart/alternative"
      → any (inline std is_text) (direct ps) ≡ true
      → (get_body std (multi h ps) (lit "plain-text")
          ≡ body_of std (first (inline std (is_plain_text std)) (direct ps)))
        × (get_body std (multi h ps) (lit "html")
            ≡ body_of std (first (inline std (is_html std)) (direct ps)))
        × (get_body std (multi h ps) (lit "watch-html")
            ≡ body_of std (first (inline std (is_watch_html std)) (direct ps)))
  unfolding ◌==◌
  get_body-alternative h ps e text =
      let shows =
        λ (version : Text). get_body-shown std version h ps e (some_direct-of_any ps text) in
      (shows (lit "plain-text"), shows (lit "html"), shows (lit "watch-html"))

  first-none : (p : Leaf → Bool) (ls : List Leaf) → any p ls ≡ false → first p ls ≡ none
  first-none p [] h = refl
  first-none p (l ∷ ls) h = ground (arith, first-none p ls)

  -- If the root is a multipart/alternative with a plain text leaf but no HTML leaf among its direct
  -- parts, and HTML stands deeper in the tree (as in a multipart/related part), GetBodyVersions
  -- lists "html" and GetBody returns the empty text for it.
  pub nested_html_not_shown :
      (h : Headers) (ps : Nodes)
      → media_type std h ≡ lit "multipart/alternative"
      → any (inline std (is_plain_text std)) (direct ps) ≡ true
      → any (inline std (is_html std)) (direct ps) ≡ false
      → any (inline std (is_html std)) (leaves (multi h ps)) ≡ true
      → (member (lit "html") (get_body_versions std (multi h ps)) ≡ true)
        × (get_body std (multi h ps) (lit "html") ≡ [])
  nested_html_not_shown h ps e plain no_html deep = (
    (member-get_body_versions std (multi h ps)).1 ∙ deep,
    (get_body-alternative h ps e (any-is_text (direct ps) ∙ rw plain)).1
        ∙ ap (body_of std) (first-none (inline std (is_html std)) (direct ps) no_html),
  )
