-- ===== src/Http/Requests/Spared.antt =====
-- What becomes of an email under requests that delete others.
use mock_my_mta.Base.{
  lit, ◌++◌, unimplemented, failed, panicked, invalid_query, Text, ◌==◌, ◌≡◌, refl, ap, ◌∙◌, sym,
  List, [], ◌∷◌, Bool, true, false, not, member, all, Outcome, ok, err, eq_iff, arith,
}
use mock_my_mta.Storage.Laws.{SparesOthers}
use mock_my_mta.Http.Server.{Server, Services, Reply, BulkResult, refuse, respond, bytes}
use mock_my_mta.Http.Bulk.{delete_each, no_results}
use mock_my_mta.Http.Reads
use mock_my_mta.Http.Requests.State.{store_after, handle-parts}
use mock_my_mta.Http.Requests.{
  Request, delete_everything, delete_email, download, delete_many, handle, run,
}

-- A request that does not ask for the deletion of an email.
abbrev pub spares : Text → Request → Bool
spares id delete_everything = false
spares id (delete_email other) = not (other == id)
spares id (delete_many (ok ids)) = not (member id ids)
spares id request = true

module _ {S : Type 0} (env : Services S) (laws : SparesOthers env.storage) (id : Text) where
  abbrev raw_of : S → Outcome Text
  raw_of store = env.storage.get_raw_email store id

  delete_each-spared :
      (ids : List Text) (store : S) (r : BulkResult)
      → member id ids ≡ false
      → raw_of (delete_each env ids store r).0 ≡ raw_of store
  unfolding delete_each
  delete_each-spared [] store r h = refl
  delete_each-spared (other ∷ ids) store r h =
      delete_each-spared ids _ _ (ground (arith, eq_iff id other))
      ∙ laws.spared store other id (ground (arith, eq_iff id other, eq_iff other id))

  store_after-spared :
      (store : S) (request : Request)
      → spares id request ≡ true
      → raw_of (store_after env store request) ≡ raw_of store
  store_after-spared store delete_everything h = cc h
  store_after-spared store (delete_email other) h = laws.spared store other id (ground arith)
  store_after-spared store (delete_many (ok ids)) h =
      delete_each-spared ids store no_results (ground arith)
  store_after-spared store request h = refl

  pub handle-spared :
      (s : Server S) (request : Request)
      → spares id request ≡ true
      → raw_of (handle env s request).server.store ≡ raw_of s.store
  handle-spared s request h =
      ap (λ p. raw_of p.0) (handle-parts env s request) ∙ store_after-spared s.store request h

  run-spared :
      (s : Server S) (requests : List Request)
      → all (spares id) requests ≡ true
      → raw_of (run env s requests).store ≡ raw_of s.store
  unfolding run
  run-spared s [] h = refl
  run-spared s (request ∷ requests) h =
      run-spared (handle env s request).server requests (ground arith)
      ∙ handle-spared s request (ground arith)

  -- What downloadEmail answers, from what the storage gives.
  abbrev answered : Server S → Outcome Text → Reply S
  answered s o = elim o [
    | err e ↦ refuse s 500 (lit "cannot get raw email (id=" ++ (id ++ lit ")")) e
    | ok content ↦ respond s 200 (
        bytes
          ((lit "Content-Type", lit "message/rfc822")
            ∷ (lit "Content-Disposition", lit "attachment; filename=\"" ++ (id ++ lit ".eml\""))
            ∷ [])
          content)
  ]

  -- It does not depend on the rest of the server's state.
  answered-same :
      (s s' : Server S) (o : Outcome Text)
      → ((answered s' o).status ≡ (answered s o).status)
        × ((answered s' o).payload ≡ (answered s o).payload)
  answered-same s s' (ok content) = (refl, refl)
  answered-same s s' (err (unimplemented method physical)) = (refl, refl)
  answered-same s s' (err (failed text)) = (refl, refl)
  answered-same s s' (err panicked) = (refl, refl)
  answered-same s s' (err (invalid_query query text)) = (refl, refl)

  download-answered : (s : Server S) → handle env s (download id) ≡ answered s (raw_of s.store)
  unfolding handle Reads.download_email
  download-answered s = refl

  -- Requests that do not ask for the deletion of an email, in whatever number and order, do not
  -- change what a download of it is answered with, for a storage in which a deletion spares the
  -- other emails.
  pub run-download :
      (s : Server S) (requests : List Request)
      → all (spares id) requests ≡ true
      → ((handle env (run env s requests) (download id)).status
          ≡ (handle env s (download id)).status)
        × ((handle env (run env s requests) (download id)).payload
            ≡ (handle env s (download id)).payload)
  run-download s requests h =
      let s' = run env s requests in
      let same = download-answered s' ∙ ap (answered s') (run-spared s requests h) in
      let (status, payload) = answered-same s s' (raw_of s.store) in
      (
        ap (λ r. r.status) same ∙ status ∙ sym (ap (λ r. r.status) (download-answered s)),
        ap (λ r. r.payload) same ∙ payload ∙ sym (ap (λ r. r.payload) (download-answered s)),
      )
