-- ===== src/Http/Wait.antt =====
-- waitForEmail and findMatchingEmails of http/httpd.go. What the `select` of the loop sees is a list:
-- the deadline, the end of the request, or a tick, with the storage as other requests have left it
-- by then.
use mock_my_mta.Base.{
  Text, lit, ◌==◌, ◌≡◌, refl, ap, List, [], ◌∷◌, ◌++◌, Option, none, some, Bool, true, false,
  if◌then◌else◌, ℕ, eqb, map, All, any, Outcome, ok, err, panicked,
}
use mock_my_mta.Base.Int.{ℤ, pos, ltb_ℤ}
use mock_my_mta.Storage.{EmailHeader}
use mock_my_mta.Storage.Engine.{error_text}
use mock_my_mta.Http.Server.{Services}

-- WaitForEmailResponse
pub record Found : Type 0 where
  pub email : EmailHeader
  pub total_matches : ℕ
  pub url : Text

-- What the request ends with, or that it still waits. `broken` is a panic of the search.
pub data Waited : Type 0 where
  waiting gone broken : Waited
  invalid_timeout : Text → Waited
  found : Found → Waited
  timed_out : ℤ → Waited

pub data Signal (S : Type 0) : Type 0 where
  deadline : Signal S
  request_done : Signal S
  tick : S → Signal S

abbrev pub five_minutes : ℤ
five_minutes = pos 300000000000

abbrev pub capped : ℤ → ℤ
capped timeout = if ltb_ℤ five_minutes timeout then five_minutes else timeout

module _ {S : Type 0} (env : Services S) (tls : Bool) (host query : Text) where
  abbrev link : Text → Text
  link id =
      (if tls then lit "https" else lit "http") ++ (lit "://" ++ (host ++ (lit "/#/email/" ++ id)))

  abbrev first_found : List EmailHeader → ℕ → Option Found
  first_found [] total = none
  first_found (email ∷ emails) total =
      if eqb total 0
      then none
      else some (record { email = email; total_matches = total; url = link email.id })

  abbrev searched : Outcome (List EmailHeader × ℕ) → Outcome (Option Found)
  searched (ok (emails, total)) = ok (first_found emails total)
  searched (err panicked) = err panicked
  searched (err e) = ok none

  -- findMatchingEmails: an error of the search is no match.
  unfoldable pub find_matching : S → Outcome (Option Found)
  find_matching store = searched (env.storage.search_emails store query (pos 1) (pos 1))

  -- The loop of waitForEmail.
  unfoldable pub wait_loop : ℤ → List (Signal S) → Waited
  unfolding find_matching
  wait_loop timeout [] = waiting
  wait_loop timeout (deadline ∷ signals) = timed_out timeout
  wait_loop timeout (request_done ∷ signals) = gone
  wait_loop timeout (tick store ∷ signals) = elim (find_matching store) [
    | err e ↦ broken
    | ok none ↦ wait_loop timeout signals
    | ok (some f) ↦ found f
  ]

  abbrev timeout_or_default : Text → Text
  timeout_or_default text = if text == [] then lit "30s" else text

  -- waitForEmail: the storage is searched at once, and then at each tick.
  unfoldable pub wait_for_email : Text → S → List (Signal S) → Waited
  unfolding wait_loop
  wait_for_email text store signals = elim (env.std.parse_duration (timeout_or_default text)) [
    | err e ↦ invalid_timeout (lit "invalid timeout: " ++ error_text e)
    | ok timeout ↦ wait_loop (capped timeout) (tick store ∷ signals)
  ]

  abbrev pub is_deadline : Signal S → Bool
  is_deadline deadline = true
  is_deadline request_done = false
  is_deadline (tick store) = false

  abbrev pub is_waiting : Waited → Bool
  is_waiting waiting = true
  is_waiting gone = false
  is_waiting broken = false
  is_waiting (invalid_timeout text) = false
  is_waiting (found f) = false
  is_waiting (timed_out timeout) = false

  wait_loop-ends :
      (timeout : ℤ) (signals : List (Signal S))
      → any is_deadline signals ≡ true
      → is_waiting (wait_loop timeout signals) ≡ false
  unfolding wait_loop
  wait_loop-ends timeout [] h = cc h
  wait_loop-ends timeout (deadline ∷ signals) h = refl
  wait_loop-ends timeout (request_done ∷ signals) h = refl
  wait_loop-ends timeout (tick store ∷ signals) h =
      continued (find_matching store) (wait_loop-ends timeout signals h)
    where
      continued :
          (o : Outcome (Option Found))
          → is_waiting (wait_loop timeout signals) ≡ false
          → is_waiting (elim o [
            | err e ↦ broken
            | ok none ↦ wait_loop timeout signals
            | ok (some f) ↦ found f
          ])
            ≡ false
      continued (err e) rest = refl
      continued (ok none) rest = rest
      continued (ok (some f)) rest = refl

  map-snoc :
      (before : List S) (store : S) (signals : List (Signal S))
      → map tick (before ++ (store ∷ [])) ++ signals ≡ map tick before ++ (tick store ∷ signals)
  map-snoc [] store signals = refl
  map-snoc (s ∷ before) store signals = ap (λ r. tick s ∷ r) (map-snoc before store signals)

  wait_loop-found :
      (timeout : ℤ) (before : List S) (store : S) (signals : List (Signal S)) (f : Found)
      → All (λ s. find_matching s ≡ ok none) before
      → find_matching store ≡ ok (some f)
      → wait_loop timeout (map tick before ++ (tick store ∷ signals)) ≡ found f
  unfolding wait_loop
  wait_loop-found timeout [] store signals f h match = rw (wait_loop, match) refl
  wait_loop-found timeout (s ∷ before) store signals f (nothing, h) match =
      rw (wait_loop, nothing) (wait_loop-found timeout before store signals f h match)

  -- Every request ends: when its deadline has passed it waits no more, whatever timeout it asks for
  -- and whatever happens before.
  pub wait_for_email-ends :
      (text : Text) (store : S) (signals : List (Signal S))
      → any is_deadline signals ≡ true
      → is_waiting (wait_for_email text store signals) ≡ false
  unfolding wait_for_email
  wait_for_email-ends text store signals h =
      parsed (env.std.parse_duration (timeout_or_default text))
    where
      parsed :
          (o : Outcome ℤ)
          → is_waiting (elim o [
            | err e ↦ invalid_timeout (lit "invalid timeout: " ++ error_text e)
            | ok timeout ↦ wait_loop (capped timeout) (tick store ∷ signals)
          ])
            ≡ false
      parsed (err e) = refl
      parsed (ok timeout) = wait_loop-ends (capped timeout) (tick store ∷ signals) h

  -- What the searches see: `first`, as the request finds the storage, and then `ticks`.
  abbrev first_of : List S → S → S
  first_of [] store = store
  first_of (s ∷ before) store = s

  abbrev ticks_of : List S → S → List S
  ticks_of [] store = []
  ticks_of (s ∷ before) store = before ++ (store ∷ [])

  -- It is answered with the match of the first search that has one, if neither the deadline nor the
  -- end of the request comes before it: the searches are made in the storage as the request finds it,
  -- and then at each tick. So a match that is there already is found at once, whatever comes later.
  pub wait_for_email-found :
      (text : Text) (timeout : ℤ) (before : List S) (store : S) (signals : List (Signal S))
      (f : Found)
      → env.std.parse_duration (timeout_or_default text) ≡ ok timeout
      → All (λ s. find_matching s ≡ ok none) before
      → find_matching store ≡ ok (some f)
      → wait_for_email text (first_of before store) (map tick (ticks_of before store) ++ signals)
        ≡ found f
  unfolding wait_for_email
  wait_for_email-found text timeout [] store signals f parsed h match =
      rw (wait_for_email, parsed) (wait_loop-found (capped timeout) [] store signals f h match)
  wait_for_email-found text timeout (s ∷ before) store signals f parsed h match =
      rw (wait_for_email, parsed, map-snoc before store signals)
        (wait_loop-found (capped timeout) (s ∷ before) store signals f h match)
