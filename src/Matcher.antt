-- ===== src/Matcher.antt =====
-- The matchers of storage/matcher/matcher.go, and the match of an email against them
-- (storage/multipart/multipart_matcher.go).
pub mod Tokens
pub mod Query
pub mod Age
mod Tests
use mock_my_mta.Base.{
  Text, lit, ◌≡◌, ◌↔◌, refl, List, [], ◌∷◌, ◌++◌, Bool, true, false, ◌&&◌, ◌||◌, if◌then◌else◌, any,
  all, ltb, leb, ◌+◌, ◌-◌, ℕ, arith,
}
use mock_my_mta.Base.Int.{ℤ, pos, negsuc, pos_part, neg_part, two_63, ltb_ℤ}
use mock_my_mta.Base.Texts.{contains}
use mock_my_mta.Std.{Std, Address, Time, Duration}
use mock_my_mta.Multipart.{Node}
use mock_my_mta.Multipart.Attachments.{has_attachments}
use mock_my_mta.Multipart.Body.{get_body, get_body_versions}
use mock_my_mta.Multipart.Fields.{get_from, get_recipients, get_subject, get_date}

pub data Matcher : Type 0 where
  mailbox : Text → Matcher
  attachment : Matcher
  plain_text : Text → Matcher
  before : Time → Matcher
  after : Time → Matcher
  from : Text → Matcher
  newer_than : Duration → Matcher
  older_than : Duration → Matcher
  subject : Text → Matcher

-- a.Sub(b): the difference, held within the range of a Duration.
unfoldable pub sub_time : Time → Time → Duration
sub_time a b =
    let up = pos_part a + neg_part b in
    let down = neg_part a + pos_part b in
    if leb down up
    then pos (if ltb (up - down) two_63 then up - down else two_63 - 1)
    else negsuc (if leb (down - up) two_63 then down - up - 1 else two_63 - 1)

-- `now` is what time.Now gives during the search.
module _ (std : Std) (now : Time) where
  open std use {to_lower, equal_fold}

  unfoldable pub matches_plain_text : Node → Text → Bool
  matches_plain_text n text =
      let search = to_lower text in
      any (λ version. contains (to_lower (get_body std n version)) search) (get_body_versions std n)
      || contains (to_lower (get_subject std n)) search
      || contains (to_lower (get_from std n).address) search
      || any (λ (a : Address). contains (to_lower a.address) search) (get_recipients std n)

  unfoldable pub matches : Node → Matcher → Bool
  unfolding matches_plain_text sub_time
  matches n (mailbox m) = any (λ (a : Address). equal_fold a.address m) (get_recipients std n)
  matches n attachment = has_attachments std n
  matches n (plain_text t) = matches_plain_text n t
  matches n (before d) = ltb_ℤ (get_date std n) d
  matches n (after d) = ltb_ℤ d (get_date std n)
  matches n (from a) = equal_fold (get_from std n).address a
  matches n (newer_than d) = ltb_ℤ (sub_time now (get_date std n)) d
  matches n (older_than d) = ltb_ℤ d (sub_time now (get_date std n))
  matches n (subject s) = contains (to_lower (get_subject std n)) (to_lower s)

  unfoldable pub match_all : Node → List Matcher → Bool
  unfolding matches
  match_all n [] = true
  match_all n (m ∷ ms) = let rest = match_all n ms in if matches n m then rest else false

  -- More matchers never let more emails through: a query that is split in two finds what both
  -- parts find.
  pub match_all-append :
      (n : Node) (ms ks : List Matcher)
      → match_all n (ms ++ ks) ≡ (match_all n ms && match_all n ks)
  unfolding match_all
  match_all-append n [] ks = refl
  match_all-append n (m ∷ ms) ks = ground (arith, match_all-append n ms ks)
