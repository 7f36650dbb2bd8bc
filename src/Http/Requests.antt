-- ===== src/Http/Requests.antt =====
-- The routes of NewServer in http/httpd.go and the settings of http/settings.go: the handler of each
-- route, and the server under a sequence of requests.
pub mod ReadMarks
pub mod Spared
pub mod State
use mock_my_mta.Base.{Text, List, [], ◌∷◌, ℕ, Outcome, ok, err, lit, ◌++◌}
use mock_my_mta.Http.{Settings, put_settings}
use mock_my_mta.Http.Server.{
  Server, Services, Reply, settings_now, settings_changed, error_message, respond, refuse,
}
use mock_my_mta.Http.Bulk.{RelayRequest}
use mock_my_mta.Http.Bulk
use mock_my_mta.Http.Reads
use mock_my_mta.Http.Listing
use mock_my_mta.Http.Static

-- A request by its route, with the variables of the path or the query, and the decoded body.
pub data Request : Type 0 where
  list_mailboxes list_stats check_health show_settings delete_everything reset_read : Request
  list_emails : Text → Text → Request
  show_email delete_email show_headers download show_mime_tree show_relays list_attachments
        unknown_route static_file :
      Text → Request
  show_body show_attachment show_part : Text → Text → Request
  relay_email : Text → Outcome RelayRequest → Request
  delete_many mark_read mark_unread : Outcome (List Text) → Request
  relay_many : Outcome (List Text × RelayRequest) → Request
  change_settings : Outcome Settings → Request

module _ {S : Type 0} (env : Services S) where
  -- handlePutSettings
  unfoldable pub change : Server S → Outcome Settings → Reply S
  change s (err e) = refuse s 400 (lit "invalid settings") e
  change s (ok new) =
      let now = (put_settings s.settings (ok new)).0 in
      record (respond (record s { settings = now }) 200 (settings_now now)) {
        events = settings_changed now ∷ [];
      }

  unfoldable pub handle : Server S → Request → Reply S
  unfolding change
  handle s list_mailboxes = Reads.get_mailboxes env s
  handle s list_stats = Listing.get_stats env s
  handle s check_health = Listing.get_health env s
  handle s show_settings = respond s 200 (settings_now s.settings)
  handle s delete_everything = Bulk.delete_emails env s
  handle s reset_read = Bulk.reset_read_status env s
  handle s (list_emails query page) = Listing.get_emails env s query page
  handle s (show_email id) = Reads.get_email_by_id env s id
  handle s (delete_email id) = Bulk.delete_email_by_id env s id
  handle s (show_headers id) = Reads.get_email_headers env s id
  handle s (download id) = Reads.download_email env s id
  handle s (show_mime_tree id) = Reads.get_mime_tree env s id
  handle s (show_relays id) = Reads.get_relay_data env s id
  handle s (list_attachments id) = Reads.get_attachments env s id
  handle s (show_body id version) = Reads.get_body_version env s id version
  handle s (show_attachment id att) = Reads.get_attachment_content env s id att
  handle s (show_part id cid) = Reads.get_part_by_cid_of env s id cid
  handle s (relay_email id request) = Bulk.relay_message_of env s id request
  handle s (delete_many ids) = Bulk.bulk_delete env s ids
  handle s (mark_read ids) = Bulk.bulk_mark_read env s ids
  handle s (mark_unread ids) = Bulk.bulk_mark_unread env s ids
  handle s (relay_many request) = Bulk.bulk_relay env s request
  handle s (change_settings new) = change s new
  handle s (unknown_route path) = respond s 404 (error_message (lit "Not Found: " ++ path))
  handle s (static_file path) = Static.serve_static env s path

  -- The server after some requests, one behind the other.
  unfoldable pub run : Server S → List Request → Server S
  unfolding handle
  run s [] = s
  run s (request ∷ requests) = run (handle s request).server requests
