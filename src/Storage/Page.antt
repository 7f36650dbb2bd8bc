-- ===== src/Storage/Page.antt =====
-- The pagination of search results, in 64-bit integers (SearchEmails of the memory, the file
-- system and the SQLite layer).
pub mod Slices
use mock_my_mta.Base.{
  Text, lit, ◌≡◌, refl, List, [], ◌∷◌, ◌++◌, Bool, true, false, if◌then◌else◌, ℕ, ◌-◌, leb, length,
  take, drop, Outcome, ok, err, failed, panicked,
}
use mock_my_mta.Base.Int.{ℤ, pos, negsuc, ◌+ℤ◌, ◌-ℤ◌, ◌*ℤ◌, ltb_ℤ, show_int}

module _ {ℓ} {A : Type ℓ} where
  -- xs[start:end], which panics out of range.
  unfoldable pub slice : List A → ℤ → ℤ → Outcome (List A)
  slice xs (negsuc a) end' = err panicked
  slice xs (pos a) (negsuc b) = err panicked
  slice xs (pos a) (pos b) =
      if leb a b
      then (if leb b (length xs) then ok (take (b - a) (drop a xs)) else err panicked)
      else err panicked

  -- if x > len(xs) { x = len(xs) }
  abbrev cap_at : List A → ℤ → ℤ
  cap_at xs x = if ltb_ℤ (pos (length xs)) x then pos (length xs) else x

  unfoldable pub paginate : List A → ℤ → ℤ → Outcome (List A)
  unfolding slice
  paginate xs page size =
      if ltb_ℤ page (pos 1)
      then err (failed (lit "invalid page number: " ++ show_int page))
      else let start = (page -ℤ pos 1) *ℤ size in
        let end' = if ltb_ℤ size (pos 0) then pos (length xs) else start +ℤ size in
        slice xs (cap_at xs start) (cap_at xs end')

  -- The SQLite layer starts at 0 where the size is negative.
  unfoldable pub paginate_sqlite : List A → ℤ → ℤ → Outcome (List A)
  unfolding slice
  paginate_sqlite xs page size =
      if ltb_ℤ page (pos 1)
      then err (failed (lit "invalid page number: " ++ show_int page))
      else let start = if ltb_ℤ size (pos 0) then pos 0 else (page -ℤ pos 1) *ℤ size in
        let end' = if ltb_ℤ size (pos 0) then pos (length xs) else start +ℤ size in
        slice xs (cap_at xs start) (cap_at xs end')
