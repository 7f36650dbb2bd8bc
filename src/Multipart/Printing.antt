-- ===== src/Multipart/Printing.antt =====
-- String and stringIndent of storage/multipart/multipart.go, which print an email tree for logs.
use mock_my_mta.Base.{
  Text, lit, ◌≡◌, refl, ap, ap₂, ◌∙◌, sym, List, [], ◌∷◌, ◌++◌, if◌then◌else◌, itoa,
}
use mathlib.Core.List.{append_assoc, append-nil}
use mock_my_mta.Std.{Std}
use mock_my_mta.Multipart.{
  Headers, Leaf, Node, Nodes, leaf, multi, nil, cons, get_content_type, is_attachment, get_filename,
  get_size,
}

module _ (std : Std) where
  -- The line of a node.
  abbrev leaf_line : Leaf → Text → Text
  leaf_line l indent =
      if is_attachment std l
      then indent
        ++ (lit "attachment node (Content-Type="
            ++ (get_content_type std l.headers
                ++ (lit ", filename="
                    ++ (get_filename std l
                        ++ (lit ", size=" ++ (itoa (get_size std l) ++ lit ")\n"))))))
      else indent
        ++ (lit "leaf node (Content-Type=" ++ (get_content_type std l.headers ++ lit ")\n"))

  abbrev multi_line : Headers → Text → Text
  multi_line h indent =
      indent ++ (lit "multipart node (Content-Type=" ++ (get_content_type std h ++ lit ")\n"))

  unfoldable mutual
    pub string_indent : Node → Text → Text
    string_indent (leaf l) indent = leaf_line l indent
    string_indent (multi h ps) indent = multi_line h indent ++ string_parts ps (indent ++ lit "  ")

    pub string_parts : Nodes → Text → Text
    string_parts nil indent = []
    string_parts (cons p ps) indent = string_indent p indent ++ string_parts ps indent

  -- String
  unfoldable pub to_string : Node → Text
  unfolding string_indent
  to_string n = string_indent n []

  -- The lines of the nodes in preorder, a part two spaces further in than what it is a part of.
  unfoldable mutual
    pub node_lines : Node → Text → List Text
    node_lines (leaf l) indent = leaf_line l indent ∷ []
    node_lines (multi h ps) indent = multi_line h indent ∷ part_lines ps (indent ++ lit "  ")

    pub part_lines : Nodes → Text → List Text
    part_lines nil indent = []
    part_lines (cons p ps) indent = node_lines p indent ++ part_lines ps indent

  abbrev pub joined : List Text → Text
  joined [] = []
  joined (line ∷ lines) = line ++ joined lines

  joined-append : (xs ys : List Text) → joined (xs ++ ys) ≡ joined xs ++ joined ys
  joined-append [] ys = refl
  joined-append (x ∷ xs) ys =
      ap (λ r. x ++ r) (joined-append xs ys) ∙ sym (append_assoc x (joined xs) (joined ys))

  mutual
    unfolding string_indent node_lines

    -- The text of an email tree is that of its nodes in preorder, one line for each.
    pub string_indent-lines :
        (n : Node) (indent : Text) → string_indent n indent ≡ joined (node_lines n indent)
    string_indent-lines (leaf l) indent = sym (append-nil (leaf_line l indent))
    string_indent-lines (multi h ps) indent =
        ap (λ r. multi_line h indent ++ r) (string_parts-lines ps (indent ++ lit "  "))

    string_parts-lines :
        (ps : Nodes) (indent : Text) → string_parts ps indent ≡ joined (part_lines ps indent)
    string_parts-lines nil indent = refl
    string_parts-lines (cons p ps) indent =
        ap₂ (λ a b. a ++ b) (string_indent-lines p indent) (string_parts-lines ps indent)
        ∙ sym (joined-append (node_lines p indent) (part_lines ps indent))
