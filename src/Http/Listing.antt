-- ===== src/Http/Listing.antt =====
-- The handlers of http/httpd.go that search: getEmails, getHealth and getStats.
pub mod Pages
use mock_my_mta.Base.{
  Text, lit, ◌==◌, List, [], ◌∷◌, ◌++◌, Option, none, some, Bool, true, false, ◌||◌, ◌&&◌,
  if◌then◌else◌, ℕ, ◌+◌, ◌-◌, ◌/◌, Outcome, ok, err, Error, failed, member, map,
}
use mock_my_mta.Base.Int.{ℤ, pos, ◌*ℤ◌, ltb_ℤ, leb_ℤ}
use mock_my_mta.Storage.{EmailHeader}
use mock_my_mta.Http.Server.{
  Server, Services, Reply, Pagination, status_ok, error_message, page, stats, respond, refuse,
  panics, aborted,
}

abbrev pub page_size : ℕ
page_size = 20

-- parsePageParameters, but for the page size, which is fixed.
unfoldable pub parse_page : (Text → Outcome ℤ) → Text → Outcome ℤ
parse_page atoi text = if text == [] then ok (pos 1) else elim (atoi text) [
  | err e ↦ err (failed (lit "invalid page number"))
  | ok n ↦ if ltb_ℤ n (pos 1) then err (failed (lit "invalid page number")) else ok n
]

-- The loop that injects the read status.
unfoldable pub with_read_status : List Text → List EmailHeader → List EmailHeader
with_read_status marks [] = []
with_read_status marks (header ∷ headers) =
    let rest = with_read_status marks headers in
    (if member header.id marks then record header { is_read = true } else header) ∷ rest

-- The numbers of getEmails. The total is the length of a list in memory, so its sum with a page
-- does not wrap; the product of the page number and the size can.
unfoldable pub pagination : ℤ → ℕ → Pagination
pagination n total = record {
  current_page = n;
  is_first_page = leb_ℤ n (pos 1) && leb_ℤ (pos 1) n;
  is_last_page = leb_ℤ (pos total) (n *ℤ pos page_size);
  total_pages = (total + page_size - 1) / page_size;
  total_matches = total;
}

module _ {S : Type 0} (env : Services S) (s : Server S) where
  unfoldable pub get_emails : Text → Text → Reply S
  unfolding parse_page with_read_status pagination
  get_emails query text = elim (parse_page env.atoi text) [
    | err e ↦ refuse s 400 (lit "cannot parse page parameters") e
    | ok n ↦ elim (env.storage.search_emails s.store query n (pos page_size)) [
      | err e ↦ refuse s 500 (lit "cannot search emails") e
      | ok (headers, total) ↦
          respond s 200 (page (with_read_status s.read_emails headers) (pagination n total))
    ]
  ]

  unfoldable pub get_health : Reply S
  get_health = elim (env.storage.search_emails s.store [] (pos 1) (pos 1)) [
    | err e ↦ refuse s 503 (lit "storage unhealthy") e
    | ok found ↦ respond s 200 status_ok
  ]

  -- The count of the emails; the other statistics are the clock's and the configuration's.
  unfoldable pub get_stats : Reply S
  get_stats = elim (env.storage.search_emails s.store [] (pos 1) (pos 1)) [
    | err e ↦ if panics s e then respond s 0 aborted else respond s 200 (stats 0)
    | ok (headers, total) ↦ respond s 200 (stats total)
  ]
