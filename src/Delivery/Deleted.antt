-- ===== src/Delivery/Deleted.antt =====
-- What the answers to a deletion (deleteEmailByID of http/httpd.go) and to a download (downloadEmail)
-- tell of the storage behind them.
use mock_my_mta.Base.{
  ◌⊎◌, Text, lit, ◌≡◌, ◌≢◌, refl, ap, ◌∙◌, sym, ◌++◌, [], ◌∷◌, Option, none, some, false, ℕ,
  Outcome, ok, err, is_ok, Error, Bool-cases, inl, inr, arith,
}
use mock_my_mta.Http.Server.{
  Server, Services, Reply, refuse, respond, panics, nothing, email_deleted,
}
use mock_my_mta.Http.Reads.{download_email}
use mock_my_mta.Http.Bulk.{delete_email_by_id}
use mock_my_mta.Http.Requests.{handle, download, delete_email}
use mock_my_mta.Delivery.{downloaded}

module _ {S : Type 0} (server : Server S) (id : Text) where
  -- A refusal with the status 500 has no other status but 0.
  refuse-status :
      (n : ℕ) (text : Text) (x : Error)
      → (refuse server 500 text x).status ≡ n
      → (n ≡ 0) ⊎ (n ≡ 500)
  refuse-status n text x h = elim (Bool-cases (panics server x)) [
    | inl panic ↦ inl (sym (rw panic at h))
    | inr reported ↦ inr (sym (rw reported at h))
  ]

  not_204 : (text : Text) (x : Error) → (refuse server 500 text x).status ≢ 204
  not_204 text x h = elim (refuse-status 204 text x h) [
    | inl zero ↦ absurd (omega (arith, zero))
    | inr other ↦ absurd (omega (arith, other))
  ]

  not_200 : (text : Text) (x : Error) → (refuse server 500 text x).status ≢ 200
  not_200 text x h = elim (refuse-status 200 text x h) [
    | inl zero ↦ absurd (omega (arith, zero))
    | inr other ↦ absurd (omega (arith, other))
  ]

module _ {S : Type 0} (env : Services S) (server : Server S) (id : Text) where
  abbrev forbidden : Text
  forbidden = lit "cannot delete email (id=" ++ (id ++ lit ")")

  abbrev delete_reply : S × Option Error → Reply S
  delete_reply r =
      let s' = record server { store = r.0 } in
      elim r.1 [
        | some e ↦ refuse s' 500 forbidden e
        | none ↦ record (respond s' 204 nothing) { events = email_deleted id ∷ [] }
      ]

  delete-reply :
      handle env server (delete_email id)
      ≡ delete_reply (env.storage.delete_email_by_id server.store id)
  unfolding handle delete_email_by_id
  delete-reply = refl

  reply_204 :
      (r : S × Option Error)
      → (delete_reply r).status ≡ 204
      → (r.1 ≡ none) × ((delete_reply r).server ≡ record server { store = r.0 })
  reply_204 (s', none) h = (refl, refl)
  reply_204 (s', some e) h = absurd (not_204 (record server { store = s' }) id forbidden e h)

  abbrev download_reply : Outcome Text → Reply S
  download_reply o = elim o [
    | err e ↦ refuse server 500 (lit "cannot get raw email (id=" ++ (id ++ lit ")")) e
    | ok content ↦ respond server 200 (downloaded id content)
  ]

  download-reply :
      handle env server (download id) ≡ download_reply (env.storage.get_raw_email server.store id)
  unfolding handle download_email
  download-reply = refl

  unavailable : (o : Outcome Text) → is_ok o ≡ false → (download_reply o).status ≢ 200
  unavailable (ok content) h = cc h
  unavailable (err e) h = not_200 server id (lit "cannot get raw email (id=" ++ (id ++ lit ")")) e

  -- A deletion that is answered with 204 has been carried out without an error.
  pub deletion-left :
      (handle env server (delete_email id)).status ≡ 204
      → let removed = env.storage.delete_email_by_id server.store id in
        (removed.1 ≡ none)
        × ((handle env server (delete_email id)).server ≡ record server { store = removed.0 })
  deletion-left done =
      let (fine, left) = reply_204 _ (sym (ap (λ r. r.status) delete-reply) ∙ done) in
      (fine, ap (λ r. r.server) delete-reply ∙ left)

  -- An email without raw bytes is not answered with 200.
  pub not_downloaded :
      is_ok (env.storage.get_raw_email server.store id) ≡ false
      → (handle env server (download id)).status ≢ 200
  not_downloaded gone found = unavailable _ gone (sym (ap (λ r. r.status) download-reply) ∙ found)
