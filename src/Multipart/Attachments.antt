-- ===== src/Multipart/Attachments.antt =====
-- HasAttachments, GetAttachments, GetAttachment and GetPartByCID of
-- storage/multipart/multipart.go.
pub mod Entries
use mock_my_mta.Base.{
  Text, lit, ◌==◌, eq_iff, text_cases, ◌≡◌, refl, ap, ◌∙◌, sym, inl, inr, List, [], ◌∷◌, ◌++◌,
  Option, none, some, Bool, true, false, ◌||◌, ℕ, zero, suc, ◌+◌, ◌<◌, if◌then◌else◌, keep, any,
  first, is_some, arith, itoa, itoa_injective, get_elem?, Bool-cases,
}
use mock_my_mta.Base.Dict.{Dict, lookup, insert, lookup-insert, lookup-nil}
use mock_my_mta.Std.{Std}
use mock_my_mta.Multipart.{Leaf, Node, is_attachment, get_content_id}
use mock_my_mta.Multipart.Walk.{
  on_leaf, walk_leaves, walk_nodes-eq-walk_leaves, Status, continue_walk, stop_walk, walk_nodes,
  leaves,
}

module _ (std : Std) where
  -- The closures that the methods hand to walkNodes.
  visit_has : Bool → Leaf → Bool × Status
  visit_has found l = if is_attachment std l then (true, stop_walk) else (found, continue_walk)

  unfoldable pub has_attachments : Node → Bool
  unfolding visit_has
  has_attachments n = (walk_nodes std (on_leaf visit_has) n [] false).0

  pub visit_collect : Dict Leaf × ℕ → Leaf → (Dict Leaf × ℕ) × Status
  visit_collect (d, i) l =
      if is_attachment std l
      then ((insert (itoa i) l d, i + 1), continue_walk)
      else ((d, i), continue_walk)

  unfoldable pub get_attachments : Node → Dict Leaf
  unfolding visit_collect
  get_attachments n = (walk_nodes std (on_leaf visit_collect) n [] ([], 0)).0.0

  visit_find : Text → Option Leaf × ℕ → Leaf → (Option Leaf × ℕ) × Status
  visit_find id (found, i) l =
      if is_attachment std l
      then (if itoa i == id then ((some l, i), stop_walk) else ((found, i + 1), continue_walk))
      else ((found, i), continue_walk)

  unfoldable pub get_attachment : Node → Text → Option Leaf
  unfolding visit_find
  get_attachment n id = (walk_nodes std (on_leaf (visit_find id)) n [] (none, 0)).0.0

  visit_cid : Text → Option Leaf → Leaf → Option Leaf × Status
  visit_cid cid found l =
      if get_content_id std l == cid || get_content_id std l == lit "<" ++ cid ++ lit ">"
      then (some l, stop_walk)
      else (found, continue_walk)

  unfoldable pub get_part_by_cid : Node → Text → Option Leaf
  unfolding visit_cid
  get_part_by_cid n cid = (walk_nodes std (on_leaf (visit_cid cid)) n [] none).0

-- The attachments of a tree, from left to right.
abbrev pub attached : Std → Node → List Leaf
attached std n = keep (is_attachment std) (leaves n)

module _ (std : Std) where
  walk_leaves-has :
      (ls : List Leaf) → (walk_leaves (visit_has std) ls false).0 ≡ any (is_attachment std) ls
  unfolding walk_leaves visit_has
  walk_leaves-has [] = refl
  walk_leaves-has (l ∷ ls) = ground (arith, walk_leaves-has ls)

  pub has_attachments-eq-any :
      (n : Node) → has_attachments std n ≡ any (is_attachment std) (leaves n)
  unfolding has_attachments
  has_attachments-eq-any n =
      ap (λ (r : Bool × Status). r.0) (walk_nodes-eq-walk_leaves std (visit_has std) n [] false)
      ∙ walk_leaves-has (leaves n)

  -- The leaf that a number, from `i` on, is given to.
  numbered : ℕ → List Leaf → Text → Option Leaf
  numbered i [] id = none
  numbered i (l ∷ ls) id =
      let rest = numbered (i + 1) ls id in if itoa i == id then some l else rest

  numbered_fresh : (j : ℕ) (ls : List Leaf) {i : ℕ} → i < j → numbered j ls (itoa i) ≡ none
  unfolding numbered
  numbered_fresh j [] h = refl
  numbered_fresh j (l ∷ ls) {i} h = elim (text_cases (itoa j) (itoa i)) [
    | inl e ↦ absurd (omega (arith, itoa_injective j i e))
    | inr e ↦ rw e (numbered_fresh (j + 1) ls (omega arith))
  ]

  numbered_once :
      (i : ℕ) (id : Text) (ls : List Leaf) → (itoa i == id) ≡ true → numbered (i + 1) ls id ≡ none
  numbered_once i id ls h =
      rw (← (eq_iff (itoa i) id).0 h) (numbered_fresh (i + 1) ls (omega arith))

  abbrev or_else : Option Leaf → Option Leaf → Option Leaf
  or_else none b = b
  or_else (some l) b = some l

  or_else-none : (o : Option Leaf) → or_else o none ≡ o
  or_else-none none = refl
  or_else-none (some l) = refl

  lookup-walk_leaves :
      (ls : List Leaf) (d : Dict Leaf) (i : ℕ) (id : Text)
      → lookup id (walk_leaves (visit_collect std) ls (d, i)).0.0
        ≡ or_else (numbered i (keep (is_attachment std) ls) id) (lookup id d)
  unfolding walk_leaves visit_collect numbered
  lookup-walk_leaves [] d i id = refl
  lookup-walk_leaves (l ∷ ls) d i id = elim (Bool-cases (is_attachment std l)) [
    | inr e ↦ rw e (lookup-walk_leaves ls d i id)
    | inl e ↦ rw e (
        lookup-walk_leaves ls (insert (itoa i) l d) (i + 1) id
        ∙ ground (
          arith,
          lookup-insert (itoa i) id l d,
          numbered_once i id (keep (is_attachment std) ls),
        ))
  ]

  find-walk_leaves :
      (ls : List Leaf) (i : ℕ) (id : Text)
      → (walk_leaves (visit_find std id) ls (none, i)).0.0
        ≡ numbered i (keep (is_attachment std) ls) id
  unfolding walk_leaves visit_find numbered
  find-walk_leaves [] i id = refl
  find-walk_leaves (l ∷ ls) i id =
      ground (arith, find-walk_leaves ls i id, find-walk_leaves ls (i + 1) id)

  numbered-get_elem? : (ls : List Leaf) (j i : ℕ) → numbered j ls (itoa (j + i)) ≡ get_elem? ls i
  unfolding numbered
  numbered-get_elem? [] j i = refl
  numbered-get_elem? (l ∷ ls) j zero =
      rw ((eq_iff (itoa j) (itoa (j + 0))).1 (ap itoa (omega arith)))
  numbered-get_elem? (l ∷ ls) j (suc i) = elim (text_cases (itoa j) (itoa (j + suc i))) [
    | inl e ↦ absurd (omega (arith, itoa_injective j (j + suc i) e))
    | inr e ↦
        rw e
          (ap (λ k. numbered (j + 1) ls (itoa k)) (omega arith) ∙ numbered-get_elem? ls (j + 1) i)
  ]

  get_attachment-numbered :
      (n : Node) (id : Text) → get_attachment std n id ≡ numbered 0 (attached std n) id
  unfolding get_attachment
  get_attachment-numbered n id =
      ap (λ (r : (Option Leaf × ℕ) × Status). r.0.0)
        (walk_nodes-eq-walk_leaves std (visit_find std id) n [] (none, 0))
      ∙ find-walk_leaves (leaves n) 0 id

  get_attachments-numbered :
      (n : Node) (id : Text) → lookup id (get_attachments std n) ≡ numbered 0 (attached std n) id
  unfolding get_attachments
  get_attachments-numbered n id =
      ap (λ (r : (Dict Leaf × ℕ) × Status). lookup id r.0.0)
        (walk_nodes-eq-walk_leaves std (visit_collect std) n [] ([], 0))
      ∙ lookup-walk_leaves (leaves n) [] 0 id
      ∙ rw (lookup-nil {V = Leaf} id) (or_else-none _)

  -- GetAttachment finds under an id the entry that GetAttachments has under it, and nothing under
  -- an id that GetAttachments lacks.
  pub lookup-get_attachments :
      (n : Node) (id : Text) → lookup id (get_attachments std n) ≡ get_attachment std n id
  lookup-get_attachments n id = get_attachments-numbered n id ∙ sym (get_attachment-numbered n id)

  -- The ids are the decimal numbers from 0 on: number `i` is the i-th attachment of the tree from
  -- left to right, and there is none for a number past the last.
  pub get_attachment-itoa :
      (n : Node) (i : ℕ) → get_attachment std n (itoa i) ≡ get_elem? (attached std n) i
  get_attachment-itoa n i =
      get_attachment-numbered n (itoa i)
      ∙ ap (λ k. numbered 0 (attached std n) (itoa k)) (omega arith)
      ∙ numbered-get_elem? (attached std n) 0 i

  any-get_elem? : (p : Leaf → Bool) (ls : List Leaf) → any p ls ≡ is_some (get_elem? (keep p ls) 0)
  any-get_elem? p [] = refl
  any-get_elem? p (l ∷ ls) = ground (arith, any-get_elem? p ls)

  -- HasAttachments answers yes exactly if GetAttachment finds an attachment under the id "0".
  pub has_attachments-eq-is_some :
      (n : Node) → has_attachments std n ≡ is_some (get_attachment std n (itoa 0))
  has_attachments-eq-is_some n =
      has_attachments-eq-any n
      ∙ any-get_elem? (is_attachment std) (leaves n)
      ∙ ap is_some (sym (get_attachment-itoa n 0))

  walk_leaves-cid :
      (cid : Text) (ls : List Leaf)
      → (walk_leaves (visit_cid std cid) ls none).0
        ≡ first
            (λ l. get_content_id std l == cid || get_content_id std l == lit "<" ++ cid ++ lit ">")
            ls
  unfolding walk_leaves visit_cid
  walk_leaves-cid cid [] = refl
  walk_leaves-cid cid (l ∷ ls) = ground (arith, walk_leaves-cid cid ls)

  -- GetPartByCID returns the first leaf from left to right, attachments included, whose Content-ID
  -- without its angle brackets is the id, or the id in angle brackets; and none if there is none.
  pub get_part_by_cid-eq-first :
      (n : Node) (cid : Text)
      → get_part_by_cid std n cid
        ≡ first
            (λ l. get_content_id std l == cid || get_content_id std l == lit "<" ++ cid ++ lit ">")
            (leaves n)
  unfolding get_part_by_cid
  get_part_by_cid-eq-first n cid =
      ap (λ (r : Option Leaf × Status). r.0)
        (walk_nodes-eq-walk_leaves std (visit_cid std cid) n [] none)
      ∙ walk_leaves-cid cid (leaves n)
