-- ===== src/Storage/Order/Texts.antt =====
-- The order of texts by their bytes, and lists of texts in that order.
use mock_my_mta.Base.{
  Text, ◌==◌, eq_iff, eq_refl, text_cases, ◌≡◌, refl, ap, ap₂, ◌∙◌, sym, List, [], ◌∷◌, Bool, true,
  false, ◌||◌, Bool-cases, inl, inr, member, arith, all,
}
use mock_my_mta.Storage.Order.{text_lt, insert_sorted, sort}

pub text_lt-irreflexive : (s : Text) → text_lt s s ≡ false
unfolding text_lt
text_lt-irreflexive [] = refl
text_lt-irreflexive (c ∷ s) = ground (arith, text_lt-irreflexive s)

pub text_lt-transitive :
    (s t u : Text) → text_lt s t ≡ true → text_lt t u ≡ true → text_lt s u ≡ true
unfolding text_lt
text_lt-transitive s [] u h k = cc h
text_lt-transitive s (d ∷ t) [] h k = cc k
text_lt-transitive [] (d ∷ t) (e ∷ u) h k = refl
text_lt-transitive (c ∷ s) (d ∷ t) (e ∷ u) h k = ground (arith, text_lt-transitive s t u)

-- Of two different texts one comes before the other.
pub text_lt-total : (s t : Text) → text_lt s t ≡ false → (s == t) ≡ false → text_lt t s ≡ true
unfolding text_lt ◌==◌
text_lt-total [] [] h k = cc k
text_lt-total [] (d ∷ t) h k = cc h
text_lt-total (c ∷ s) [] h k = refl
text_lt-total (c ∷ s) (d ∷ t) h k = ground (arith, text_lt-total s t)

-- Each text comes before all those behind it, so none stands there twice.
abbrev pub Ascending : List Text → Type 0
Ascending [] = Unit
Ascending (x ∷ xs) = (all (text_lt x) xs ≡ true) × Ascending xs

-- No text stands there twice.
abbrev pub NoRepeats : List Text → Type 0
NoRepeats [] = Unit
NoRepeats (x ∷ xs) = (member x xs ≡ false) × NoRepeats xs

all-member :
    (p : Text → Bool) (j : Text) (xs : List Text)
    → all p xs ≡ true
    → member j xs ≡ true
    → p j ≡ true
all-member p j [] h k = cc k
all-member p j (x ∷ xs) h k = elim (text_cases j x) [
  | inl same ↦ ap p same ∙ ground arith
  | inr other ↦ all-member p j xs (ground arith) (ground arith)
]

all-member_of :
    (p : Text → Bool) (xs : List Text)
    → ((j : Text) → member j xs ≡ true → p j ≡ true)
    → all p xs ≡ true
all-member_of p [] h = refl
all-member_of p (x ∷ xs) h =
    ground (arith, h x, eq_refl x, all-member_of p xs (λ j m. h j (ground arith)))

module _ (x : Text) where
  member-insert_sorted :
      (j : Text) (xs : List Text) → member j (insert_sorted text_lt x xs) ≡ (j == x || member j xs)
  unfolding insert_sorted
  member-insert_sorted j [] = refl
  member-insert_sorted j (y ∷ ys) = elim (Bool-cases (text_lt x y)) [
    | inl before ↦ rw before refl
    | inr behind ↦ rw behind (ground (arith, member-insert_sorted j ys))
  ]

  insert_sorted-Ascending :
      (xs : List Text) → member x xs ≡ false → Ascending xs → Ascending (insert_sorted text_lt x xs)
  unfolding insert_sorted
  insert_sorted-Ascending [] new s = (refl, tt)
  insert_sorted-Ascending (y ∷ ys) new (first, s) = elim (Bool-cases (text_lt x y)) [
    | inl before ↦ rw before (
      all-member_of (text_lt x) (y ∷ ys) (λ j m. elim (text_cases j y) [
        | inl same ↦ ap (text_lt x) same ∙ before
        | inr other ↦
            text_lt-transitive x y j before (all-member (text_lt y) j ys first (ground arith))
      ]),
      (first, s),
    )
    | inr behind ↦
        let turned = text_lt-total x y behind (ground arith) in
        rw behind (
          all-member_of (text_lt y) (insert_sorted text_lt x ys) (λ j m. elim (text_cases j x) [
            | inl same ↦ ap (text_lt y) same ∙ turned
            | inr other ↦
                all-member (text_lt y) j ys first (ground (arith, member-insert_sorted j ys))
          ]),
          insert_sorted-Ascending ys (ground arith) s,
        )
  ]

pub member-sort : (j : Text) (xs : List Text) → member j (sort text_lt xs) ≡ member j xs
unfolding sort
member-sort j [] = refl
member-sort j (x ∷ xs) =
    member-insert_sorted x j (sort text_lt xs) ∙ ap (λ b. j == x || b) (member-sort j xs)

-- Texts without repetition are put in ascending order by the sort.
pub sort-Ascending : (xs : List Text) → NoRepeats xs → Ascending (sort text_lt xs)
unfolding sort
sort-Ascending [] d = tt
sort-Ascending (x ∷ xs) (new, d) =
    insert_sorted-Ascending x (sort text_lt xs) (member-sort x xs ∙ new) (sort-Ascending xs d)

member_first : (x : Text) (xs : List Text) → member x (x ∷ xs) ≡ true
member_first x xs = ground (arith, eq_refl x)

-- The first text is not among those behind it.
behind : (x : Text) (xs : List Text) → all (text_lt x) xs ≡ true → member x xs ≡ false
behind x xs h = elim (Bool-cases (member x xs)) [
  | inl there ↦ cc (sym (text_lt-irreflexive x) ∙ all-member (text_lt x) x xs h there)
  | inr absent ↦ absent
]

-- Two ascending lists with the same texts are the same list.
pub Ascending-unique :
    (xs ys : List Text)
    → Ascending xs
    → Ascending ys
    → ((j : Text) → member j xs ≡ member j ys)
    → xs ≡ ys
Ascending-unique [] [] a b same = refl
Ascending-unique [] (y ∷ ys) a b same = cc (same y ∙ member_first y ys)
Ascending-unique (x ∷ xs) [] a b same = cc (sym (same x) ∙ member_first x xs)
Ascending-unique (x ∷ xs) (y ∷ ys) (first, a) (first', b) same = elim (text_cases x y) [
  | inl equal ↦
      ap₂ (λ z zs. z ∷ zs) equal
        (Ascending-unique xs ys a b (λ j. elim (text_cases j x) [
          | inl here ↦
              ap (λ z. member z xs) here
              ∙ behind x xs first
              ∙ sym (behind y ys first')
              ∙ ap (λ z. member z ys) (sym (here ∙ equal))
          | inr other ↦
              let other' : (j == y) ≡ false = ap (λ z. j == z) (sym equal) ∙ other in
              ground (arith, same j)
        ]))
  | inr other ↦
      let after_y =
        all-member (text_lt y) x ys first' (ground (arith, same x, member_first x xs)) in
      let after_x =
        all-member (text_lt x) y xs first
          (ground (arith, same y, member_first y ys, eq_iff x y, eq_iff y x)) in
      cc (sym (text_lt-irreflexive x) ∙ text_lt-transitive x y x after_x after_y)
]
