-- ===== src/Multipart/Tree.antt =====
-- GetMimeTree and GetAllHeaders of storage/multipart/multipart.go.
use mock_my_mta.Base.{
  Text, lit, ◌==◌, ◌≡◌, refl, ap, ap₂, sym, ◌∙◌, List, [], ◌∷◌, ◌++◌, ℕ, if◌then◌else◌, length, map,
  ok, err,
}
use mock_my_mta.Base.Dict.{Dict}
use mock_my_mta.Std.{Std}
use mock_my_mta.Multipart.{
  Headers, Leaf, Node, leaf, multi, Nodes, nil, cons, get_headers, get_content_type,
  get_header_value, get_content_transfer_encoding, get_charset, get_content_id, get_filename,
}
use mock_my_mta.Multipart.Walk.{preorder, preorder_parts}

-- The fields of a MimeTreeNode but its children.
pub record MimeInfo : Type 0 where
  pub content_type : Text
  pub encoding : Text
  pub charset : Text
  pub disposition : Text
  pub filename : Text
  pub content_id : Text
  pub size : ℕ

mutual
  pub data MimeTree : Type 0 where
    mime : MimeInfo → MimeTrees → MimeTree

  pub data MimeTrees : Type 0 where
    none_left : MimeTrees
    child : MimeTree → MimeTrees → MimeTrees

module _ (std : Std) where
  abbrev type_or_plain : Text → Text
  type_or_plain ct = if ct == [] then lit "text/plain" else ct

  unfoldable pub leaf_info : Leaf → MimeInfo
  leaf_info l =
      let disp = get_header_value std l.headers (lit "Content-Disposition") in
      record {
        content_type = type_or_plain (get_content_type std l.headers);
        encoding = get_content_transfer_encoding std l;
        charset = get_charset std l;
        disposition = disp;
        filename = if disp == [] then [] else get_filename std l;
        content_id = get_content_id std l;
        size = length l.body;
      }

  unfoldable pub multi_info : Headers → MimeInfo
  multi_info h = record {
    content_type = type_or_plain (get_content_type std h);
    encoding = [];
    charset = [];
    disposition = [];
    filename = [];
    content_id = [];
    size = 0;
  }

  unfoldable mutual
    pub build_mime_tree : Node → MimeTree
    build_mime_tree (leaf l) = mime (leaf_info l) none_left
    build_mime_tree (multi h ps) = mime (multi_info h) (build_mime_trees ps)

    pub build_mime_trees : Nodes → MimeTrees
    build_mime_trees nil = none_left
    build_mime_trees (cons p ps) = child (build_mime_tree p) (build_mime_trees ps)

  unfoldable pub decode_header : Text → Text
  decode_header header = elim (std.decode_word header) [ err e ↦ header | ok v ↦ v ]

  unfoldable pub get_all_headers : Node → Dict (List Text)
  unfolding decode_header
  get_all_headers n = map (λ (k, vs). (k, map decode_header vs)) (get_headers n)

-- The entries of a MIME tree in the order in which they are shown.
unfoldable mutual
  pub entries : MimeTree → List MimeInfo
  entries (mime i ts) = i ∷ entries_of ts

  pub entries_of : MimeTrees → List MimeInfo
  entries_of none_left = []
  entries_of (child t ts) = entries t ++ entries_of ts

module _ (std : Std) where
  abbrev pub info : Node × Text → MimeInfo
  info (leaf l, parent) = leaf_info std l
  info (multi h ps, parent) = multi_info std h

  map-append' : (xs ys : List (Node × Text)) → map info (xs ++ ys) ≡ map info xs ++ map info ys
  map-append' [] ys = refl
  map-append' (x ∷ xs) ys = ap (λ r. info x ∷ r) (map-append' xs ys)

  mutual
    unfolding entries build_mime_tree preorder

    entries-build :
        (n : Node) (parent : Text)
        → entries (build_mime_tree std n) ≡ map info (preorder std n parent)
    entries-build (leaf l) parent = refl
    entries-build (multi h ps) parent = ap (λ r. multi_info std h ∷ r) (entries_of-build ps _)

    entries_of-build :
        (ps : Nodes) (parent : Text)
        → entries_of (build_mime_trees std ps) ≡ map info (preorder_parts std ps parent)
    entries_of-build nil parent = refl
    entries_of-build (cons p ps) parent =
        ap₂ (λ xs ys. xs ++ ys) (entries-build p parent) (entries_of-build ps parent)
        ∙ sym (map-append' (preorder std p parent) (preorder_parts std ps parent))

  -- The MIME tree shows every node of the email once, in the order in which a walk visits them,
  -- with the leaf's own fields at a leaf, and at an inner node its content type and nothing else.
  pub entries-build_mime_tree :
      (n : Node) → entries (build_mime_tree std n) ≡ map info (preorder std n [])
  entries-build_mime_tree n = entries-build n []
