-- ===== src/Http/Listing/Pages.antt =====
-- The pages that getEmails offers.
use mock_my_mta.Base.{
  ◌≡◌, refl, ap, ap₂, ◌∙◌, sym, List, [], ◌∷◌, ◌++◌, true, ℕ, zero, suc, ◌+◌, ◌-◌, ◌*◌, ◌/◌, ◌≤◌,
  ◌<◌, length, length-drop, take, drop, ◌>>=◌, ◌↔◌, ok_injective, Outcome, ok, arith,
}
use mock_my_mta.Base.Int.{ℤ, pos, two_63, leb_ℤ, mul_exact}
use mock_my_mta.Storage.Page.{paginate}
use mock_my_mta.Storage.Page.Slices.{paginate_page}
use mock_my_mta.Http.Listing.{pagination, page_size}

leb_pos : (a b : ℕ) → leb_ℤ (pos a) (pos b) ≡ true → a ≤ b
leb_pos a b h = ground arith

pos_leb : (a b : ℕ) → a ≤ b → leb_ℤ (pos a) (pos b) ≡ true
pos_leb a b h = ground arith

module _ {A : Type 0} where
  take-drop : (n : ℕ) (xs : List A) → take n xs ++ drop n xs ≡ xs
  take-drop zero xs = refl
  take-drop (suc n) [] = refl
  take-drop (suc n) (x ∷ xs) = ap (λ r. x ∷ r) (take-drop n xs)

  drop-nil : (m : ℕ) → ◌≡◌ {A = List A} (drop m []) []
  drop-nil zero = refl
  drop-nil (suc m) = refl

  drop-drop : (m n : ℕ) (xs : List A) → drop m (drop n xs) ≡ drop (n + m) xs
  drop-drop m zero xs = ap (λ n. drop n xs) (omega arith)
  drop-drop m (suc n) [] = drop-nil m ∙ sym (drop-nil (suc n + m))
  drop-drop m (suc n) (x ∷ xs) =
      let shift : suc (n + m) ≡ suc n + m = omega arith in
      drop-drop m n xs ∙ ap (λ i. drop i (x ∷ xs)) shift

  -- The first `count` pages, one behind the other.
  unfoldable pub pages : ℕ → List A → List A
  pages zero xs = []
  pages (suc count) xs = take page_size xs ++ pages count (drop page_size xs)

  pages-all : (count : ℕ) (xs : List A) → length xs ≤ count * page_size → pages count xs ≡ xs
  unfolding pages
  pages-all zero [] h = refl
  pages-all zero (x ∷ xs) h = absurd (omega arith)
  pages-all (suc count) xs h =
      ap (λ r. take page_size xs ++ r)
        (pages-all count (drop page_size xs) (omega (arith, length-drop page_size xs)))
      ∙ take-drop page_size xs

  -- The pages that a client fetches, one behind the other, from a number on.
  unfoldable pub fetch : List A → ℕ → ℕ → Outcome (List A)
  fetch xs first zero = ok []
  fetch xs first (suc count) =
      let rest = fetch xs (suc first) count in
      paginate xs (pos (suc first)) (pos page_size) >>= λ shown. rest >>= λ more. ok (shown ++ more)

  fetch-pages :
      (xs : List A) (first count : ℕ)
      → (first + count) * page_size < two_63
      → fetch xs first count ≡ ok (pages count (drop (first * page_size) xs))
  unfolding fetch pages
  fetch-pages xs first zero h = refl
  fetch-pages xs first (suc count) h =
      let here = paginate_page xs first page_size (omega arith) (omega arith) in
      let others = fetch-pages xs (suc first) count (omega arith) in
      let behind = drop-drop page_size (first * page_size) xs in
      ap₂ (λ o r. o >>= λ shown. r >>= λ more. ok (shown ++ more)) here others
      ∙ ap (λ ys. ok (take page_size (drop (first * page_size) xs) ++ pages count ys))
          (ap (λ n. drop n xs) (omega arith) ∙ sym behind)

  -- The pages that a response of getEmails announces are all there is: fetched one behind the
  -- other, they are the results, in their order, each of them once, for fewer than 2 ^ 63 - 20.
  pub fetch-total_pages :
      (xs : List A) (n : ℤ)
      → length xs + page_size < two_63
      → fetch xs 0 (pagination n (length xs)).total_pages ≡ ok xs
  unfolding pagination
  fetch-total_pages xs n h =
      fetch-pages xs 0 ((length xs + page_size - 1) / page_size) (omega arith)
      ∙ ap ok (pages-all ((length xs + page_size - 1) / page_size) xs (omega arith))

  take_is_nil : (n : ℕ) (xs : List A) → (take (suc n) xs ≡ []) ↔ (length xs ≡ 0)
  take_is_nil n [] = (λ h. refl, λ h. refl)
  take_is_nil n (x ∷ xs) = (λ h. cc h, λ h. absurd (omega arith))

  -- A page is shown as the last one exactly if the next one is there and empty, for a next page
  -- whose end is below 2 ^ 63.
  pub is_last_page_iff :
      (xs : List A) (k : ℕ)
      → suc (suc k) * page_size < two_63
      → ((pagination (pos (suc k)) (length xs)).is_last_page ≡ true)
        ↔ (paginate xs (pos (suc (suc k))) (pos page_size) ≡ ok [])
  unfolding pagination
  is_last_page_iff xs k h =
      let exact = mul_exact (suc k) page_size (omega arith) in
      let next = paginate_page xs (suc k) page_size (omega arith) (omega arith) in
      let past = take_is_nil 19 (drop (suc k * page_size) xs) in
      let left = length-drop (suc k * page_size) xs in
      (
        λ last.
            let all_shown =
              leb_pos (length xs) (suc k * page_size)
                (ap (leb_ℤ (pos (length xs))) (sym exact) ∙ last) in
            next ∙ ap ok (past.1 (omega (arith, all_shown, left))),
        λ none_left.
            let gone = past.0 (ok_injective _ [] (sym next ∙ none_left)) in
            ap (leb_ℤ (pos (length xs))) exact
            ∙ pos_leb (length xs) (suc k * page_size) (omega (arith, gone, left)),
      )
