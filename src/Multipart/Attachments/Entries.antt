-- ===== src/Multipart/Attachments/Entries.antt =====
-- The map that GetAttachments of storage/multipart/multipart.go makes, entry by entry.
use mock_my_mta.Base.{
  Text, ◌==◌, text_cases, ◌≡◌, refl, ap, ◌∙◌, sym, inl, inr, List, [], ◌∷◌, ◌++◌, none, some, Bool,
  true, false, not, ℕ, ◌+◌, ◌≤◌, if◌then◌else◌, keep, any, arith, itoa, itoa_injective, Bool-cases,
}
use mathlib.Core.List.{append_assoc, append-nil}
use mock_my_mta.Base.Dict.{Dict, lookup, insert, lookup-insert}
use mock_my_mta.Std.{Std}
use mock_my_mta.Multipart.{Leaf, Node, is_attachment}
use mock_my_mta.Multipart.Walk.{walk_leaves, walk_nodes-eq-walk_leaves, Status, leaves}
use mock_my_mta.Multipart.Attachments.{
  visit_collect, get_attachments, has_attachments, attached, has_attachments-eq-any,
}

-- Some leaves under the numbers from `i` on.
abbrev pub entries : ℕ → List Leaf → Dict Leaf
entries i [] = []
entries i (l ∷ ls) = (itoa i, l) ∷ entries (i + 1) ls

abbrev pub is_nil : {A : Type 0} → List A → Bool
is_nil [] = true
is_nil (x ∷ xs) = false

-- A key that is not there is added at the end.
insert-new :
    {V : Type 0} (k : Text) (v : V) (d : Dict V)
    → lookup k d ≡ none
    → insert k v d ≡ d ++ ((k, v) ∷ [])
unfolding insert lookup
insert-new k v [] h = refl
insert-new k v ((j, w) ∷ d) h = elim (Bool-cases (j == k)) [
  | inl same ↦ cc (rw same at h)
  | inr other ↦ rw other (ap (λ r. (j, w) ∷ r) (insert-new k v d (rw other at h)))
]

module _ (std : Std) where
  collect-entries :
      (ls : List Leaf) (d : Dict Leaf) (i : ℕ)
      → ((j : ℕ) → i ≤ j → lookup (itoa j) d ≡ none)
      → (walk_leaves (visit_collect std) ls (d, i)).0.0
        ≡ d ++ entries i (keep (is_attachment std) ls)
  unfolding walk_leaves visit_collect
  collect-entries [] d i unused = sym (append-nil d)
  collect-entries (l ∷ ls) d i unused = elim (Bool-cases (is_attachment std l)) [
    | inr plain ↦ rw plain (collect-entries ls d i unused)
    | inl attachment ↦ rw attachment (
        collect-entries ls (insert (itoa i) l d) (i + 1) later
        ∙ ap (λ r. r ++ entries (i + 1) (keep (is_attachment std) ls))
            (insert-new (itoa i) l d (unused i (omega arith)))
        ∙ append_assoc d ((itoa i, l) ∷ []) (entries (i + 1) (keep (is_attachment std) ls)))
  ]
    where
      later : (j : ℕ) → i + 1 ≤ j → lookup (itoa j) (insert (itoa i) l d) ≡ none
      later j above = elim (text_cases (itoa i) (itoa j)) [
        | inl same ↦ absurd (omega (arith, above, itoa_injective i j same))
        | inr other ↦
            lookup-insert (itoa i) (itoa j) l d
            ∙ ap (λ b. if b then some l else lookup (itoa j) d) other
            ∙ unused j (omega (arith, above))
      ]

  some_entry :
      (i : ℕ) (ls : List Leaf)
      → any (is_attachment std) ls ≡ not (is_nil (entries i (keep (is_attachment std) ls)))
  some_entry i [] = refl
  some_entry i (l ∷ ls) = elim (Bool-cases (is_attachment std l)) [
    | inl attachment ↦ rw attachment refl
    | inr plain ↦ rw plain (some_entry i ls)
  ]

  -- GetAttachments has the attachments of an email tree from left to right under the numbers from 0
  -- on, and nothing else, and HasAttachments is true exactly if it has any.
  pub get_attachments-entries :
      (n : Node)
      → (get_attachments std n ≡ entries 0 (attached std n))
        × (has_attachments std n ≡ not (is_nil (get_attachments std n)))
  unfolding get_attachments lookup
  get_attachments-entries n =
      let same : get_attachments std n ≡ entries 0 (attached std n) =
        ap (λ (r : (Dict Leaf × ℕ) × Status). r.0.0)
          (walk_nodes-eq-walk_leaves std (visit_collect std) n [] ([], 0))
        ∙ collect-entries (leaves n) [] 0 (λ j h. refl) in
      (
        same,
        has_attachments-eq-any std n
            ∙ some_entry 0 (leaves n)
            ∙ ap (λ d. not (is_nil d)) (sym same),
      )
