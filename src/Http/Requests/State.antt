-- ===== src/Http/Requests/State.antt =====
-- What a request leaves of the storage and of the settings.
use mathlib.Core.Path.{subst}
use mock_my_mta.Base.{Text, ◌≡◌, refl, ap, sym, List, [], ◌∷◌, ok, err, arith}
use mock_my_mta.Http.{Settings, IsValid, put_settings, put_settings-IsValid}
use mock_my_mta.Http.Server.{Server, Services, BulkResult}
use mock_my_mta.Http.Bulk.{delete_each, no_results}
use mock_my_mta.Http.Bulk
use mock_my_mta.Http.Reads
use mock_my_mta.Http.Listing
use mock_my_mta.Http.Static.{serve_static-server}
use mock_my_mta.Http.Static
use mock_my_mta.Http.Requests.{
  Request, list_mailboxes, list_stats, check_health, show_settings, delete_everything, reset_read,
  list_emails, show_email, delete_email, show_headers, download, show_mime_tree, show_relays,
  list_attachments, show_body, show_attachment, show_part, relay_email, delete_many, mark_read,
  mark_unread, relay_many, change_settings, unknown_route, static_file, handle, change,
}

module _ {S : Type 0} (env : Services S) where
  -- The account of the two parts: only the deletions write to the storage, and only the settings'
  -- own route changes them.
  abbrev pub store_after : S → Request → S
  store_after store delete_everything = (env.storage.delete_all_emails store).0
  store_after store (delete_email id) = (env.storage.delete_email_by_id store id).0
  store_after store (delete_many (ok ids)) = (delete_each env ids store no_results).0
  store_after store request = store

  abbrev pub settings_after : Settings → Request → Settings
  settings_after settings (change_settings new) = (put_settings settings new).0
  settings_after settings request = settings

  abbrev parts : Server S → S × Settings
  parts s = (s.store, s.settings)

  delete_all-parts :
      (s : Server S)
      → parts (Bulk.delete_emails env s).server
        ≡ ((env.storage.delete_all_emails s.store).0, s.settings)
  unfolding Bulk.delete_emails
  delete_all-parts s = ground arith

  delete-parts :
      (s : Server S) (id : Text)
      → parts (Bulk.delete_email_by_id env s id).server
        ≡ ((env.storage.delete_email_by_id s.store id).0, s.settings)
  unfolding Bulk.delete_email_by_id
  delete-parts s id = ground arith

  serve_static-parts :
      (s : Server S) (path : Text) → parts (Static.serve_static env s path).server ≡ parts s
  serve_static-parts s path = ap parts (serve_static-server env s path)

  pub handle-parts :
      (s : Server S) (request : Request)
      → parts (handle env s request).server
        ≡ (store_after s.store request, settings_after s.settings request)
  unfolding handle change put_settings Reads.get_mailboxes Listing.get_stats Listing.get_health
      Bulk.reset_read_status Listing.get_emails Reads.get_email_by_id Reads.get_email_headers
      Reads.download_email Reads.get_mime_tree Reads.get_relay_data Reads.get_attachments
      Reads.get_body_version Reads.get_attachment_content Reads.get_part_by_cid_of
      Bulk.relay_message_of Bulk.bulk_delete Bulk.bulk_mark_read Bulk.bulk_mark_unread
      Bulk.bulk_relay
  handle-parts s list_mailboxes = ground arith
  handle-parts s list_stats = ground arith
  handle-parts s check_health = ground arith
  handle-parts s show_settings = refl
  handle-parts s delete_everything = delete_all-parts s
  handle-parts s (delete_email a) = delete-parts s a
  handle-parts s (show_headers a) = ground arith
  handle-parts s (download a) = ground arith
  handle-parts s (show_mime_tree a) = ground arith
  handle-parts s (show_relays a) = ground arith
  handle-parts s (list_attachments a) = ground arith
  handle-parts s (show_body a b) = ground arith
  handle-parts s (show_attachment a b) = ground arith
  handle-parts s (show_part a b) = ground arith
  handle-parts s (list_emails query page) = ground arith
  handle-parts s (relay_email a (err e)) = ground arith
  handle-parts s (relay_email a (ok request)) = ground arith
  handle-parts s (delete_many (err e)) = ground arith
  handle-parts s (delete_many (ok ids)) = refl
  handle-parts s (relay_many (err e)) = ground arith
  handle-parts s (relay_many (ok (ids, request))) = ground arith
  handle-parts s (change_settings (err e)) = ground arith
  handle-parts s (change_settings (ok new)) = refl
  handle-parts s reset_read = refl
  handle-parts s (mark_read (err e)) = ground arith
  handle-parts s (mark_read (ok ids)) = refl
  handle-parts s (mark_unread (err e)) = ground arith
  handle-parts s (mark_unread (ok ids)) = refl
  handle-parts s (show_email opened) = ground arith
  handle-parts s (unknown_route path) = refl
  handle-parts s (static_file path) = serve_static-parts s path

  -- What the deletions keep, a request keeps.
  module _ (Holds : S → Type 0)
      (by_id : (s : S) (id : Text) → Holds s → Holds (env.storage.delete_email_by_id s id).0)
      (all : (s : S) → Holds s → Holds (env.storage.delete_all_emails s).0) where
    delete_each-keeps :
        (ids : List Text) (s : S) (r : BulkResult) → Holds s → Holds (delete_each env ids s r).0
    unfolding delete_each
    delete_each-keeps [] s r h = h
    delete_each-keeps (id ∷ ids) s r h = delete_each-keeps ids _ _ (by_id s id h)

    store_after-keeps : (s : S) (request : Request) → Holds s → Holds (store_after s request)
    store_after-keeps s delete_everything h = all s h
    store_after-keeps s (delete_email id) h = by_id s id h
    store_after-keeps s (delete_many (ok ids)) h = delete_each-keeps ids s no_results h
    store_after-keeps s request h = h

    pub handle-keeps :
        (s : Server S) (request : Request)
        → Holds s.store
        → Holds (handle env s request).server.store
    handle-keeps s request h =
        subst Holds (sym (ap (λ p. p.0) (handle-parts s request)))
          (store_after-keeps s.store request h)

  settings_after-IsValid :
      (settings : Settings) (request : Request)
      → IsValid settings
      → IsValid (settings_after settings request)
  settings_after-IsValid settings (change_settings new) h = put_settings-IsValid settings new h
  settings_after-IsValid settings request h = h

  -- The settings of the server are valid after every request, if they were before.
  pub handle-IsValid :
      (s : Server S) (request : Request)
      → IsValid s.settings
      → IsValid (handle env s request).server.settings
  handle-IsValid s request h =
      subst IsValid (sym (ap (λ p. p.1) (handle-parts s request)))
        (settings_after-IsValid s.settings request h)
