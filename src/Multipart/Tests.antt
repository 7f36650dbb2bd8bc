-- ===== src/Multipart/Tests.antt =====
-- Runs of the theorems on the email trees of this file, with a stand-in for the packages.
use mock_my_mta.Base.{
  Text, lit, ◌==◌, ◌≡◌, refl, [], ◌∷◌, none, some, true, false, ℕ, ◌<◌, length, any, All, first,
  member, arith, not,
}
use mock_my_mta.Base.Dict.{lookup}
use mock_my_mta.Base.Texts.{has_prefix}
use mock_my_mta.Std.{Reader, RawHeaders}
use mock_my_mta.Std.Ascii.{ascii_std, one_part}
use mock_my_mta.Multipart.{
  Headers, Leaf, Node, Nodes, leaf, multi, nil, cons, get_values, get_header_value,
  get_content_type, media_type, is_attachment, is_plain_text, is_html, is_watch_html,
}
use mock_my_mta.Multipart.Walk.{
  Status, continue_walk, preorder, leaves, walk_list, walk_nodes, walk_nodes-eq-walk_list,
}
use mock_my_mta.Multipart.Attachments.{get_attachments, has_attachments, attached}
use mock_my_mta.Multipart.Attachments.Entries.{entries, is_nil, get_attachments-entries}
use mock_my_mta.Multipart.Body.{get_body, get_body_versions}
use mock_my_mta.Multipart.Body.Listed.{inline}
use mock_my_mta.Multipart.Body.Alternative.{
  direct, body_of, is_text, get_body-alternative, nested_html_not_shown,
}
use mock_my_mta.Multipart.Parse.{parse_mail, new, PartsShrink, parse_mail-eq-new}

abbrev typed : Text → Headers
typed t = (lit "content-type", t ∷ []) ∷ []

abbrev plain : Leaf
plain = record { headers = typed (lit "text/plain"); body = lit "hello" }

abbrev page : Leaf
page = record { headers = typed (lit "text/html"); body = lit "<b>hello</b>" }

abbrev picture : Leaf
picture = record {
  headers =
      (lit "content-disposition", lit "attachment" ∷ []) ∷ (lit "content-id", lit "<p1>" ∷ []) ∷ [];
  body = lit "png";
}

abbrev alternative : Headers
alternative = typed (lit "multipart/alternative")

abbrev flat : Nodes
flat = cons (leaf plain) (cons (leaf page) nil)

abbrev nested : Nodes
nested = cons (leaf plain) (
    cons (multi (typed (lit "multipart/related")) (cons (leaf page) (cons (leaf picture) nil))) nil)

abbrev mail : Node
mail = multi alternative nested

-- A visit that counts the nodes.
abbrev counting : ℕ → Node → Text → ℕ × Status
counting n node parent = (ℕ.suc n, continue_walk)

walk_nodes-eq-walk_list_example :
    walk_nodes ascii_std counting mail [] 0 ≡ walk_list counting (preorder ascii_std mail []) 0
walk_nodes-eq-walk_list_example = walk_nodes-eq-walk_list ascii_std counting mail [] 0

flat_alternative : media_type ascii_std alternative ≡ lit "multipart/alternative"
unfolding media_type get_content_type get_header_value get_values lookup ◌==◌
flat_alternative = refl

flat_text : any (inline ascii_std (is_text ascii_std)) (direct flat) ≡ true
unfolding is_attachment is_plain_text is_html is_watch_html get_content_type get_header_value
    get_values lookup has_prefix ◌==◌
flat_text = refl

get_body-alternative_example :
    (get_body ascii_std (multi alternative flat) (lit "plain-text")
      ≡ body_of ascii_std (first (inline ascii_std (is_plain_text ascii_std)) (direct flat)))
    × (get_body ascii_std (multi alternative flat) (lit "html")
        ≡ body_of ascii_std (first (inline ascii_std (is_html ascii_std)) (direct flat)))
    × (get_body ascii_std (multi alternative flat) (lit "watch-html")
        ≡ body_of ascii_std (first (inline ascii_std (is_watch_html ascii_std)) (direct flat)))
get_body-alternative_example =
    get_body-alternative ascii_std alternative flat flat_alternative flat_text

nested_plain : any (inline ascii_std (is_plain_text ascii_std)) (direct nested) ≡ true
unfolding is_attachment is_plain_text get_content_type get_header_value get_values lookup has_prefix
    ◌==◌
nested_plain = refl

nested_no_html : any (inline ascii_std (is_html ascii_std)) (direct nested) ≡ false
unfolding is_attachment is_html get_content_type get_header_value get_values lookup has_prefix ◌==◌
nested_no_html = refl

nested_html : any (inline ascii_std (is_html ascii_std)) (leaves mail) ≡ true
unfolding leaves is_attachment is_html get_content_type get_header_value get_values lookup
    has_prefix ◌==◌
nested_html = refl

nested_html_not_shown_example :
    (member (lit "html") (get_body_versions ascii_std mail) ≡ true)
    × (get_body ascii_std mail (lit "html") ≡ [])
nested_html_not_shown_example =
    nested_html_not_shown ascii_std alternative nested flat_alternative nested_plain nested_no_html
      nested_html

one_part-shrinks : PartsShrink ascii_std
one_part-shrinks boundary r = shorter r.content
  where
    shorter :
        (content : Text)
        → All (λ (p : RawHeaders × Reader). length p.1.content < length content) (one_part content)
    shorter [] = tt
    shorter (c ∷ s) = (omega arith, tt)

parse_mail-eq-new_example :
    parse_mail ascii_std 9
      ((lit "Content-Type", lit "multipart/mixed" ∷ []) ∷ [])
      (record { content = lit "-body"; fault = none })
    ≡ some (
        new ascii_std
          ((lit "Content-Type", lit "multipart/mixed" ∷ []) ∷ [])
          (record { content = lit "-body"; fault = none }))
parse_mail-eq-new_example =
    parse_mail-eq-new ascii_std one_part-shrinks 9
      ((lit "Content-Type", lit "multipart/mixed" ∷ []) ∷ [])
      (record { content = lit "-body"; fault = none }) (omega arith)

abbrev two_pictures : Node
two_pictures = multi [] (cons (leaf picture) (cons (leaf plain) (cons (leaf picture) nil)))

get_attachments-entries_example :
    (get_attachments ascii_std two_pictures ≡ entries 0 (attached ascii_std two_pictures))
    × (has_attachments ascii_std two_pictures
        ≡ not (is_nil (get_attachments ascii_std two_pictures)))
get_attachments-entries_example = get_attachments-entries ascii_std two_pictures
