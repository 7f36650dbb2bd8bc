-- ===== src/Storage/Order.antt =====
-- sort.Slice as SearchEmails and GetMailboxes use it: results by date, the latest first, and names
-- in the order of their bytes. Go leaves the order of equal elements open; here it is kept.
pub mod Texts
use mathlib.Core.List.{Perm}
use mathlib.Core.List.Perm
use mock_my_mta.Base.{
  Text, ◌≡◌, List, [], ◌∷◌, Bool, true, false, if◌then◌else◌, ltb, eqb, ◌&&◌, ◌||◌, Bool-cases, inl,
  inr, All, All-map,
}

-- `<` on strings.
unfoldable pub text_lt : Text → Text → Bool
text_lt s [] = false
text_lt [] (d ∷ t) = true
text_lt (c ∷ s) (d ∷ t) = let rest = text_lt s t in ltb c d || (eqb c d && rest)

module _ {A : Type 0} (less : A → A → Bool) where
  -- Puts an element in front of the first one that it is less than.
  unfoldable pub insert_sorted : A → List A → List A
  insert_sorted x [] = x ∷ []
  insert_sorted x (y ∷ ys) =
      let rest = insert_sorted x ys in if less x y then x ∷ y ∷ ys else y ∷ rest

  unfoldable pub sort : List A → List A
  unfolding insert_sorted
  sort [] = []
  sort (x ∷ xs) = insert_sorted x (sort xs)

  insert_sorted-perm : (x : A) (xs : List A) → Perm (insert_sorted x xs) (x ∷ xs)
  unfolding insert_sorted
  insert_sorted-perm x [] = Perm.refl (x ∷ [])
  insert_sorted-perm x (y ∷ ys) = elim (Bool-cases (less x y)) [
    | inl e ↦ rw e (Perm.refl (x ∷ y ∷ ys))
    | inr e ↦ rw e (Perm.trans (Perm.cons y (insert_sorted-perm x ys)) (Perm.swap x y ys))
  ]

  -- Sorting loses and adds nothing.
  pub sort-perm : (xs : List A) → Perm (sort xs) xs
  unfolding sort
  sort-perm [] = Perm.refl []
  sort-perm (x ∷ xs) = Perm.trans (insert_sorted-perm x (sort xs)) (Perm.cons x (sort-perm xs))

  -- No element is less than one in front of it.
  abbrev pub IsSorted : List A → Type 0
  IsSorted [] = Unit
  IsSorted (x ∷ xs) = All (λ y. less y x ≡ false) xs × IsSorted xs

  All-insert_sorted :
      (P : A → Type 0) (x : A) (xs : List A) → P x → All P xs → All P (insert_sorted x xs)
  unfolding insert_sorted
  All-insert_sorted P x [] p h = (p, tt)
  All-insert_sorted P x (y ∷ ys) p (q, h) = elim (Bool-cases (less x y)) [
    | inl e ↦ rw e (p, (q, h))
    | inr e ↦ rw e (q, All-insert_sorted P x ys p h)
  ]

  module _ (asymmetric : (x y : A) → less x y ≡ true → less y x ≡ false)
      (transitive : (x y z : A) → less y x ≡ false → less z y ≡ false → less z x ≡ false) where
    insert_sorted-IsSorted : (x : A) (xs : List A) → IsSorted xs → IsSorted (insert_sorted x xs)
    unfolding insert_sorted
    insert_sorted-IsSorted x [] s = (tt, tt)
    insert_sorted-IsSorted x (y ∷ ys) (h, s) = elim (Bool-cases (less x y)) [
      | inl e ↦
          rw e ((asymmetric x y e, All-map (λ z. transitive x y z (asymmetric x y e)) ys h), (h, s))
      | inr e ↦
          rw e (All-insert_sorted (λ z. less z y ≡ false) x ys e h, insert_sorted-IsSorted x ys s)
    ]

    -- The result of sorting by a strict order is sorted.
    pub sort-IsSorted : (xs : List A) → IsSorted (sort xs)
    unfolding sort
    sort-IsSorted [] = tt
    sort-IsSorted (x ∷ xs) = insert_sorted-IsSorted x (sort xs) (sort-IsSorted xs)
