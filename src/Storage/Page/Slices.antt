-- ===== src/Storage/Page/Slices.antt =====
-- What a page holds.
use mock_my_mta.Base.{
  ◌≡◌, refl, ap, ◌∙◌, sym, List, [], ◌∷◌, true, false, if◌then◌else◌, ℕ, zero, suc, ◌+◌, ◌-◌, ◌*◌,
  ◌≤◌, ◌<◌, ltb, length, take, drop, length-drop, Outcome, ok, err, panicked, arith, Bool-cases,
  inl, inr, le→leb, ltb→lt,
}
use mock_my_mta.Base.Int.{
  ℤ, pos, negsuc, ◌+ℤ◌, ◌-ℤ◌, ◌*ℤ◌, ltb_ℤ, two_63, two_64, mul_exact, mul_overflow, sub_exact,
  add_exact, mul_minus_one,
}
use mock_my_mta.Storage.Page.{slice, paginate, paginate_sqlite, cap_at}

pub size_test : (n : ℕ) → ltb_ℤ (pos n) (pos 0) ≡ false
size_test n = ground arith

below_test : (n c : ℕ) → ltb (n + suc c) 0 ≡ false
below_test n c = ground arith

self_test : (n : ℕ) → (ltb (n + 0) 0 ≡ false) × (ltb (n + 0) (n + 0) ≡ false)
self_test n = (ground arith, ground arith)

pub page_test : (k : ℕ) → ltb_ℤ (pos (suc k)) (pos 1) ≡ false
page_test k = ground arith

pub page_less_one : (k : ℕ) → suc k < two_63 → pos (suc k) -ℤ pos 1 ≡ pos k
page_less_one k h = sub_exact (suc k) 1 (omega arith) h ∙ ap pos (omega arith)

module _ {ℓ} {A : Type ℓ} where
  take_past : (n : ℕ) (xs : List A) → length xs ≤ n → take n xs ≡ xs
  take_past zero [] h = refl
  take_past zero (x ∷ xs) h = absurd (omega arith)
  take_past (suc n) [] h = refl
  take_past (suc n) (x ∷ xs) h = ap (λ r. x ∷ r) (take_past n xs (omega arith))

  drop_past : (n : ℕ) (xs : List A) → length xs ≤ n → drop n xs ≡ []
  drop_past zero [] h = refl
  drop_past zero (x ∷ xs) h = absurd (omega arith)
  drop_past (suc n) [] h = refl
  drop_past (suc n) (x ∷ xs) h = drop_past n xs (omega arith)

  slice_pos :
      (xs : List A) (a b : ℕ)
      → a ≤ b
      → b ≤ length xs
      → slice xs (pos a) (pos b) ≡ ok (take (b - a) (drop a xs))
  unfolding slice
  slice_pos xs a b h k = rw (le→leb a b h, le→leb b (length xs) k)

  take-nil : (n : ℕ) → ◌≡◌ {A = List A} (take n []) []
  take-nil zero = refl
  take-nil (suc n) = refl

  -- A slice of capped bounds is what there is between the bounds.
  slice_capped :
      (xs : List A) (a n : ℕ)
      → slice xs (cap_at xs (pos a)) (cap_at xs (pos (a + n))) ≡ ok (take n (drop a xs))
  slice_capped xs a n = elim (Bool-cases (ltb (length xs + 0) (a + 0))) [
    | inl past ↦
        let past' : ltb (length xs + 0) (a + n + 0) ≡ true = ground arith in
        rw (past, past')
          (slice_pos xs (length xs) (length xs) (omega arith) (omega arith)
            ∙ ap ok (
                ap (take (length xs - length xs)) (drop_past (length xs) xs (omega arith))
                ∙ take-nil (length xs - length xs)
                ∙ sym (take-nil n)
                ∙ ap (take n) (sym (drop_past a xs (ground arith)))))
    | inr start ↦ elim (Bool-cases (ltb (length xs + 0) (a + n + 0))) [
      | inl past ↦
          rw (start, past)
            (slice_pos xs a (length xs) (ground arith) (omega arith)
              ∙ ap ok (
                  take_past (length xs - a) (drop a xs) (omega (arith, length-drop a xs))
                  ∙ sym (
                      take_past n (drop a xs) (
                        omega (arith, length-drop a xs, ltb→lt (length xs + 0) (a + n + 0) past)))))
      | inr within ↦
          rw (start, within)
            (slice_pos xs a (a + n) (omega arith) (ground arith)
              ∙ ap (λ m. ok (take m (drop a xs))) (omega arith))
    ]
  ]

  -- The bounds of a page from its start.
  abbrev from_start : List A → ℕ → ℤ → Outcome (List A)
  from_start xs n start =
      slice xs (cap_at xs start)
        (cap_at xs (if ltb_ℤ (pos n) (pos 0) then pos (length xs) else start +ℤ pos n))

  paginate_from :
      (xs : List A) (k n : ℕ)
      → suc k < two_63
      → paginate xs (pos (suc k)) (pos n) ≡ from_start xs n (pos k *ℤ pos n)
  unfolding paginate
  paginate_from xs k n page =
      rw (page_test k) (ap (λ p. from_start xs n (p *ℤ pos n)) (page_less_one k page))

  -- Page k + 1 of size n holds the n elements behind the first k * n, or those that there are, if
  -- the end of the page is below 2 ^ 63.
  pub paginate_page :
      (xs : List A) (k n : ℕ)
      → suc k < two_63
      → k * n + n < two_63
      → paginate xs (pos (suc k)) (pos n) ≡ ok (take n (drop (k * n) xs))
  paginate_page xs k n page fits =
      paginate_from xs k n page
      ∙ ap (from_start xs n) (mul_exact k n (omega arith))
      ∙ rw (size_test n) (
          ap (λ e. slice xs (cap_at xs (pos (k * n))) (cap_at xs e)) (add_exact (k * n) n fits)
          ∙ slice_capped xs (k * n) n)

  slice_below : (xs : List A) (c : ℕ) (e : ℤ) → slice xs (cap_at xs (negsuc c)) e ≡ err panicked
  unfolding slice
  slice_below xs c e = rw (below_test (length xs) c)

  -- A page whose start is past the range, though a valid page number, makes the search panic.
  pub paginate_overflow :
      (xs : List A) (k n : ℕ)
      → suc k < two_63
      → two_63 ≤ k * n
      → k * n < two_64
      → paginate xs (pos (suc k)) (pos n) ≡ err panicked
  paginate_overflow xs k n page past fits =
      paginate_from xs k n page
      ∙ ap (from_start xs n) (mul_overflow k n past fits)
      ∙ slice_below xs (two_64 - k * n - 1) _

  take_all : (xs : List A) → take (length xs - 0) (drop 0 xs) ≡ xs
  take_all xs = take_past (length xs - 0) xs (omega arith)

  sqlite_all : (xs : List A) → slice xs (cap_at xs (pos 0)) (cap_at xs (pos (length xs))) ≡ ok xs
  sqlite_all xs =
      rw ((self_test (length xs)).0, (self_test (length xs)).1)
        (slice_pos xs 0 (length xs) (omega arith) (omega arith) ∙ ap ok (take_all xs))

  -- With the size -1, which asks for all results, every page number from 2 on makes the search of
  -- the memory and the file system layer panic, where that of the SQLite layer gives them all.
  pub paginate_unlimited :
      (xs : List A) (k : ℕ)
      → suc (suc k) < two_63
      → (paginate xs (pos (suc (suc k))) (negsuc 0) ≡ err panicked)
        × (paginate_sqlite xs (pos (suc (suc k))) (negsuc 0) ≡ ok xs)
  unfolding paginate paginate_sqlite
  paginate_unlimited xs k h = (
    rw (page_test (suc k)) (
        ap (λ s. slice xs (cap_at xs s) (cap_at xs (pos (length xs))))
          (ap (λ p. p *ℤ negsuc 0) (page_less_one (suc k) h) ∙ mul_minus_one k (omega arith))
        ∙ slice_below xs k _),
    rw (page_test (suc k)) (sqlite_all xs),
  )
