-- ===== src/Multipart/Body.antt =====
-- GetBody and GetBodyVersions of storage/multipart/multipart.go. The error that GetBody returns is
-- always nil, so the model returns the text alone.
pub mod Listed
pub mod Alternative
use mock_my_mta.Base.{
  Text, lit, ◌==◌, List, [], ◌∷◌, ◌++◌, Option, none, some, Bool, true, false, not, ◌&&◌, ◌||◌,
  if◌then◌else◌, is_some,
}
use mock_my_mta.Std.{Std}
use mock_my_mta.Multipart.{
  Leaf, Node, leaf, multi, Nodes, nil, cons, is_attachment, is_plain_text, is_html, is_watch_html,
  media_type, get_decoded_body,
}
use mock_my_mta.Multipart.Walk.{Status, continue_walk, stop_walk, walk_nodes, on_leaf}

-- bodyContent and foundBody
pub record Found : Type 0 where
  pub content : Text
  pub found : Bool

-- The leaves that the loop over the parts of a multipart/alternative has picked.
pub record Picks : Type 0 where
  pub plain : Option Leaf
  pub html : Option Leaf
  pub watch : Option Leaf

abbrev pub no_picks : Picks
no_picks = record { plain = none; html = none; watch = none }

-- versionsMap
pub record Versions : Type 0 where
  pub plain : Bool
  pub html : Bool
  pub watch : Bool

-- The keys of the map. Go leaves their order open; here it is fixed.
abbrev pub version_names : Versions → List Text
version_names s =
    (if s.plain then lit "plain-text" ∷ [] else [])
    ++ ((if s.html then lit "html" ∷ [] else []) ++ (if s.watch then lit "watch-html" ∷ [] else []))

module _ (std : Std) where
  unfoldable pub pick : Leaf → Picks → Picks
  pick l s =
      if is_attachment std l
      then s
      else if is_plain_text std l && not (is_some s.plain)
      then record s { plain = some l }
      else if is_watch_html std l && not (is_some s.watch)
      then record s { watch = some l }
      else if is_html std l && not (is_some s.html)
      then record s { html = some l }
      else s

  unfoldable pub pick_parts : Nodes → Picks → Picks
  unfolding pick
  pick_parts nil s = s
  pick_parts (cons (leaf l) ps) s = pick_parts ps (pick l s)
  pick_parts (cons (multi h qs) ps) s = pick_parts ps s

  abbrev pub found_leaf : Leaf → Found × Status
  found_leaf l = (record { content = get_decoded_body std l; found = true }, stop_walk)

  -- What the closure does at a leaf that is no attachment, and whose type is to be `target`.
  unfoldable pub visit_target : Text → Found → Leaf → Text → Found × Status
  visit_target target s l parent =
      if parent == lit "multipart/alternative"
      then (if media_type std l.headers == target then found_leaf l else (s, continue_walk))
      else if media_type std l.headers == target
      then found_leaf l
      else (s, continue_walk)

  unfoldable pub visit_body_leaf : Text → Found → Leaf → Text → Found × Status
  visit_body_leaf version s l parent =
      if is_attachment std l
      then (s, continue_walk)
      else if version == lit "plain-text"
      then visit_target (lit "text/plain") s l parent
      else if version == lit "html"
      then visit_target (lit "text/html") s l parent
      else if version == lit "watch-html"
      then (if is_watch_html std l then found_leaf l else (s, continue_walk))
      else (s, stop_walk)

  abbrev found_pick : Found → Option Leaf → Status → Found × Status
  found_pick s (some l) otherwise = found_leaf l
  found_pick s none otherwise = (s, otherwise)

  -- The walk stops at an alternative of which any part was picked, also if it is not the one.
  unfoldable pub visit_alternative : Text → Found → Picks → Found × Status
  visit_alternative version s p =
      let otherwise =
        if is_some p.plain || is_some p.html || is_some p.watch then stop_walk else continue_walk in
      if version == lit "plain-text"
      then found_pick s p.plain otherwise
      else if version == lit "html"
      then found_pick s p.html otherwise
      else if version == lit "watch-html"
      then found_pick s p.watch otherwise
      else (s, otherwise)

  unfoldable pub visit_body : Text → Found → Node → Text → Found × Status
  unfolding visit_body_leaf visit_alternative visit_target pick_parts
  visit_body version s (leaf l) parent = visit_body_leaf version s l parent
  visit_body version s (multi h ps) parent =
      if media_type std h == lit "multipart/alternative"
      then visit_alternative version s (pick_parts ps no_picks)
      else (s, continue_walk)

  -- The fallback where nothing was found and the root is a leaf.
  unfoldable pub root_body : Text → Found → Node → Text
  root_body version s (multi h ps) = s.content
  root_body version s (leaf l) =
      if is_attachment std l
      then s.content
      else if version == lit "plain-text" && is_plain_text std l
          || version == lit "html" && is_html std l
          || version == lit "watch-html" && is_watch_html std l
      then get_decoded_body std l
      else []

  unfoldable pub get_body : Node → Text → Text
  unfolding visit_body root_body
  get_body n version =
      let s =
        (walk_nodes std (visit_body version) n [] (record { content = []; found = false })).0 in
      if s.found then s.content else root_body version s n

  unfoldable pub visit_versions : Versions → Leaf → Versions × Status
  visit_versions s l = if is_attachment std l then (s, continue_walk) else (
    record {
      plain = is_plain_text std l || s.plain;
      html = is_html std l || s.html;
      watch = is_watch_html std l || s.watch;
    },
    continue_walk,
  )

  -- A root that is a leaf and no attachment has its type added.
  unfoldable pub root_versions : Node → Versions → Versions
  root_versions (multi h ps) s = s
  root_versions (leaf l) s =
      if is_attachment std l
      then s
      else if is_plain_text std l && not s.plain
      then record s { plain = true }
      else if is_html std l && not s.html
      then record s { html = true }
      else if is_watch_html std l && not s.watch
      then record s { watch = true }
      else s

  unfoldable pub versions_of : Node → Versions
  unfolding visit_versions root_versions
  versions_of n =
      root_versions n
        (walk_nodes std (on_leaf visit_versions) n []
          (record { plain = false; html = false; watch = false })).0

  unfoldable pub get_body_versions : Node → List Text
  unfolding versions_of
  get_body_versions n = version_names (versions_of n)
