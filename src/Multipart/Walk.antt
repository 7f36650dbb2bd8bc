-- ===== src/Multipart/Walk.antt =====
-- walkNodes of storage/multipart/multipart.go, and its account as a walk along a list.
use mock_my_mta.Base.{Text, ◌≡◌, refl, ap, ◌∙◌, sym, List, [], ◌∷◌, ◌++◌}
use mock_my_mta.Std.{Std}
use mock_my_mta.Multipart.{Leaf, Node, leaf, multi, Nodes, nil, cons, media_type}

-- walkStatus
pub data Status : Type 0 where
  continue_walk stop_walk : Status

-- The nodes in the order of the walk, each with the media type of its parent.
module _ (std : Std) where
  unfoldable mutual
    pub preorder : Node → Text → List (Node × Text)
    preorder (leaf l) parent = (leaf l, parent) ∷ []
    preorder (multi h ps) parent = (multi h ps, parent) ∷ preorder_parts ps (media_type std h)

    pub preorder_parts : Nodes → Text → List (Node × Text)
    preorder_parts nil parent = []
    preorder_parts (cons p ps) parent = preorder p parent ++ preorder_parts ps parent

-- The leaves from left to right.
unfoldable mutual
  pub leaves : Node → List Leaf
  leaves (leaf l) = l ∷ []
  leaves (multi h ps) = leaves_of_parts ps

  pub leaves_of_parts : Nodes → List Leaf
  leaves_of_parts nil = []
  leaves_of_parts (cons p ps) = leaves p ++ leaves_of_parts ps

-- The closure `fn` with the variables that it assigns, as a state.
module _ {ℓ} {S : Type ℓ} (fn : S → Node → Text → S × Status) where
  abbrev resume : (S → S × Status) → S × Status → S × Status
  resume rest (s, stop_walk) = (s, stop_walk)
  resume rest (s, continue_walk) = rest s

  -- The walk along a list, until a visit stops it.
  unfoldable pub walk_list : List (Node × Text) → S → S × Status
  walk_list [] s = (s, continue_walk)
  walk_list ((n, parent) ∷ rest) s = resume (walk_list rest) (fn s n parent)

  resume-resume :
      (f g : S → S × Status) (r : S × Status)
      → resume g (resume f r) ≡ resume (λ s. resume g (f s)) r
  resume-resume f g (s, stop_walk) = refl
  resume-resume f g (s, continue_walk) = refl

  pub walk_list-append :
      (xs ys : List (Node × Text)) (s : S)
      → walk_list (xs ++ ys) s ≡ resume (walk_list ys) (walk_list xs s)
  unfolding walk_list
  walk_list-append [] ys s = refl
  walk_list-append ((n, parent) ∷ xs) ys s =
      ap (λ f. resume f (fn s n parent)) (λ i t. walk_list-append xs ys t i)
      ∙ sym (resume-resume (walk_list xs) (walk_list ys) (fn s n parent))

module _ {ℓ} {S : Type ℓ} (std : Std) (fn : S → Node → Text → S × Status) where
  unfoldable mutual
    pub walk_nodes : Node → Text → S → S × Status
    walk_nodes (leaf l) parent s = fn s (leaf l) parent
    walk_nodes (multi h ps) parent s =
        resume fn (walk_parts ps (media_type std h)) (fn s (multi h ps) parent)

    walk_parts : Nodes → Text → S → S × Status
    walk_parts nil parent s = (s, continue_walk)
    walk_parts (cons p ps) parent s = resume fn (walk_parts ps parent) (walk_nodes p parent s)

  resume-stop :
      (rest : S → S × Status) (r : S × Status) → r.1 ≡ stop_walk → (resume fn rest r).0 ≡ r.0
  resume-stop rest (s, stop_walk) h = refl
  resume-stop rest (s, continue_walk) h = cc

  -- A visit that stops at the root decides the outcome.
  pub walk_nodes-stop :
      (n : Node) (parent : Text) (s : S)
      → (fn s n parent).1 ≡ stop_walk
      → (walk_nodes n parent s).0 ≡ (fn s n parent).0
  unfolding walk_nodes
  walk_nodes-stop (leaf l) parent s h = refl
  walk_nodes-stop (multi h ps) parent s e =
      resume-stop (walk_parts ps (media_type std h)) (fn s (multi h ps) parent) e

  resume-pure : (r : S × Status) → resume fn (λ s. (s, continue_walk)) r ≡ r
  resume-pure (s, stop_walk) = refl
  resume-pure (s, continue_walk) = refl

  mutual
    unfolding walk_nodes walk_list preorder

    walk_nodes_along :
        (n : Node) (parent : Text) (s : S)
        → walk_nodes n parent s ≡ walk_list fn (preorder std n parent) s
    walk_nodes_along (leaf l) parent s = sym (resume-pure (fn s (leaf l) parent))
    walk_nodes_along (multi h ps) parent s =
        ap (λ f. resume fn f (fn s (multi h ps) parent))
          (λ i t. walk_parts_along ps (media_type std h) t i)

    walk_parts_along :
        (ps : Nodes) (parent : Text) (s : S)
        → walk_parts ps parent s ≡ walk_list fn (preorder_parts std ps parent) s
    walk_parts_along nil parent s = refl
    walk_parts_along (cons p ps) parent s =
        ap (resume fn (walk_parts ps parent)) (walk_nodes_along p parent s)
        ∙ ap (λ f. resume fn f (walk_list fn (preorder std p parent) s))
            (λ i t. walk_parts_along ps parent t i)
        ∙ sym (walk_list-append fn (preorder std p parent) (preorder_parts std ps parent) s)

  -- The recursive walk visits the nodes in preorder, each with the media type of its parent, and
  -- stops for good where a visit says so, whatever the visits do.
  pub walk_nodes-eq-walk_list :
      (n : Node) (parent : Text) (s : S)
      → walk_nodes n parent s ≡ walk_list fn (preorder std n parent) s
  walk_nodes-eq-walk_list n parent s = walk_nodes_along n parent s

-- A visit that acts on leaves alone.
abbrev pub on_leaf {ℓ} : {S : Type ℓ} → (S → Leaf → S × Status) → S → Node → Text → S × Status
on_leaf f s (leaf l) parent = f s l
on_leaf f s (multi h ps) parent = (s, continue_walk)

module _ {ℓ} {S : Type ℓ} (f : S → Leaf → S × Status) where
  abbrev go_on : (S → S × Status) → S × Status → S × Status
  go_on rest (s, stop_walk) = (s, stop_walk)
  go_on rest (s, continue_walk) = rest s

  unfoldable pub walk_leaves : List Leaf → S → S × Status
  walk_leaves [] s = (s, continue_walk)
  walk_leaves (l ∷ ls) s = go_on (walk_leaves ls) (f s l)

  go_on-go_on :
      (g h : S → S × Status) (r : S × Status) → go_on h (go_on g r) ≡ go_on (λ s. go_on h (g s)) r
  go_on-go_on g h (s, stop_walk) = refl
  go_on-go_on g h (s, continue_walk) = refl

  walk_leaves-append :
      (xs ys : List Leaf) (s : S)
      → walk_leaves (xs ++ ys) s ≡ go_on (walk_leaves ys) (walk_leaves xs s)
  unfolding walk_leaves
  walk_leaves-append [] ys s = refl
  walk_leaves-append (l ∷ xs) ys s =
      ap (λ g. go_on g (f s l)) (λ i t. walk_leaves-append xs ys t i)
      ∙ sym (go_on-go_on (walk_leaves xs) (walk_leaves ys) (f s l))

  go_on-pure : (r : S × Status) → go_on (λ s. (s, continue_walk)) r ≡ r
  go_on-pure (s, stop_walk) = refl
  go_on-pure (s, continue_walk) = refl

  resume-eq-go_on : (g : S → S × Status) (r : S × Status) → resume (on_leaf f) g r ≡ go_on g r
  resume-eq-go_on g (s, stop_walk) = refl
  resume-eq-go_on g (s, continue_walk) = refl

module _ {ℓ} {S : Type ℓ} (std : Std) (f : S → Leaf → S × Status) where
  mutual
    unfolding walk_nodes walk_leaves leaves

    walk_nodes-leaves :
        (n : Node) (parent : Text) (s : S)
        → walk_nodes std (on_leaf f) n parent s ≡ walk_leaves f (leaves n) s
    walk_nodes-leaves (leaf l) parent s = sym (go_on-pure f (f s l))
    walk_nodes-leaves (multi h ps) parent s = walk_parts-leaves ps (media_type std h) s

    walk_parts-leaves :
        (ps : Nodes) (parent : Text) (s : S)
        → walk_parts std (on_leaf f) ps parent s ≡ walk_leaves f (leaves_of_parts ps) s
    walk_parts-leaves nil parent s = refl
    walk_parts-leaves (cons p ps) parent s =
        ap (resume (on_leaf f) (walk_parts std (on_leaf f) ps parent))
          (walk_nodes-leaves p parent s)
        ∙ resume-eq-go_on f (walk_parts std (on_leaf f) ps parent) (walk_leaves f (leaves p) s)
        ∙ ap (λ g. go_on f g (walk_leaves f (leaves p) s)) (λ i t. walk_parts-leaves ps parent t i)
        ∙ sym (walk_leaves-append f (leaves p) (leaves_of_parts ps) s)

  -- A walk that acts on leaves alone is a walk along the leaves from left to right.
  pub walk_nodes-eq-walk_leaves :
      (n : Node) (parent : Text) (s : S)
      → walk_nodes std (on_leaf f) n parent s ≡ walk_leaves f (leaves n) s
  walk_nodes-eq-walk_leaves n parent s = walk_nodes-leaves n parent s
