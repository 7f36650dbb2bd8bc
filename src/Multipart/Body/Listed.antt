-- ===== src/Multipart/Body/Listed.antt =====
-- Which versions GetBodyVersions lists.
use mock_my_mta.Base.{
  lit, ◌==◌, ◌≡◌, refl, ap, ◌∙◌, List, [], ◌∷◌, Bool, false, not, ◌&&◌, ◌||◌, any, arith, member,
  Bool-cases, inl, inr,
}
use mock_my_mta.Std.{Std}
use mock_my_mta.Multipart.{
  Leaf, Node, leaf, multi, is_attachment, is_plain_text, is_html, is_watch_html,
}
use mock_my_mta.Multipart.Walk.{Status, walk_leaves, leaves, walk_nodes-eq-walk_leaves}
use mock_my_mta.Multipart.Body.{
  Versions, visit_versions, root_versions, version_names, versions_of, get_body_versions,
}

or_swap : (a b c : Bool) → (a || (b || c)) ≡ ((b || a) || c)
or_swap a b c = ground arith

or_false : (a : Bool) → (a || false) ≡ a
or_false a = ground arith

module _ (std : Std) where
  -- A leaf of a kind that is no attachment.
  abbrev pub inline : (Leaf → Bool) → Leaf → Bool
  inline kind l = not (is_attachment std l) && kind l

  abbrev seen : List Leaf → Versions → Versions
  seen ls s = record {
    plain = any (inline (is_plain_text std)) ls || s.plain;
    html = any (inline (is_html std)) ls || s.html;
    watch = any (inline (is_watch_html std)) ls || s.watch;
  }

  walk_leaves-versions :
      (ls : List Leaf) (s : Versions) → (walk_leaves (visit_versions std) ls s).0 ≡ seen ls s
  unfolding walk_leaves visit_versions
  walk_leaves-versions [] s = refl
  walk_leaves-versions (l ∷ ls) s = elim (Bool-cases (is_attachment std l)) [
    | inl e ↦ rw e (walk_leaves-versions ls s)
    | inr e ↦ rw e (
        walk_leaves-versions ls _ ∙ λ i. record {
          plain = or_swap (any (inline (is_plain_text std)) ls) (is_plain_text std l) s.plain i;
          html = or_swap (any (inline (is_html std)) ls) (is_html std l) s.html i;
          watch = or_swap (any (inline (is_watch_html std)) ls) (is_watch_html std l) s.watch i;
        })
  ]

  abbrev nothing_seen : Versions
  nothing_seen = record { plain = false; html = false; watch = false }

  root_versions-seen :
      (n : Node) → root_versions std n (seen (leaves n) nothing_seen) ≡ seen (leaves n) nothing_seen
  unfolding root_versions leaves
  root_versions-seen (multi h ps) = refl
  root_versions-seen (leaf l) = ground arith

  pub versions_of-eq-seen : (n : Node) → versions_of std n ≡ seen (leaves n) nothing_seen
  unfolding versions_of
  versions_of-eq-seen n =
      ap (λ (r : Versions × Status). root_versions std n r.0)
        (walk_nodes-eq-walk_leaves std (visit_versions std) n [] nothing_seen)
      ∙ ap (root_versions std n) (walk_leaves-versions (leaves n) nothing_seen)
      ∙ root_versions-seen n

  member-names :
      (s : Versions)
      → (member (lit "plain-text") (version_names s) ≡ s.plain)
        × (member (lit "html") (version_names s) ≡ s.html)
        × (member (lit "watch-html") (version_names s) ≡ s.watch)
  unfolding ◌==◌
  member-names s = ground arith

  -- GetBodyVersions lists a version exactly if some leaf of the tree that is no attachment has a
  -- Content-Type that begins with the type of the version, for each of the three versions.
  pub member-get_body_versions :
      (n : Node)
      → (member (lit "plain-text") (get_body_versions std n)
          ≡ any (inline (is_plain_text std)) (leaves n))
        × (member (lit "html") (get_body_versions std n) ≡ any (inline (is_html std)) (leaves n))
        × (member (lit "watch-html") (get_body_versions std n)
            ≡ any (inline (is_watch_html std)) (leaves n))
  unfolding get_body_versions
  member-get_body_versions n = rw versions_of-eq-seen (
      let names = member-names (seen (leaves n) nothing_seen) in
      (names.0 ∙ or_false _, names.1 ∙ or_false _, names.2 ∙ or_false _))
