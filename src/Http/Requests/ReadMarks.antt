-- ===== src/Http/Requests/ReadMarks.antt =====
-- Which emails are shown as read.
use mock_my_mta.Base.{
  Text, ◌==◌, eq_iff, text_cases, ◌≡◌, refl, ap, ◌∙◌, List, [], ◌∷◌, Bool, true, false, not, ◌||◌,
  ◌&&◌, member, Outcome, ok, err, arith, Bool-cases, inl, inr,
}
use mock_my_mta.Base.Texts.{member-snoc}
use mock_my_mta.Http.Server.{Server, Services, mark, unmark}
use mock_my_mta.Http.Bulk
use mock_my_mta.Http.Reads
use mock_my_mta.Http.Listing
use mock_my_mta.Http.Static.{serve_static-server}
use mock_my_mta.Http.Requests.{
  Request, list_mailboxes, list_stats, check_health, show_settings, delete_everything, reset_read,
  list_emails, show_email, delete_email, show_headers, download, show_mime_tree, show_relays,
  list_attachments, show_body, show_attachment, show_part, relay_email, delete_many, mark_read,
  mark_unread, relay_many, change_settings, unknown_route, static_file, handle, run, change,
}

member-mark :
    (id j : Text) (marks : List Text) → member j (mark id marks) ≡ (j == id || member j marks)
unfolding mark
member-mark id j marks = elim (Bool-cases (member id marks)) [
  | inl old ↦ rw old (elim (text_cases j id) [
    | inl same ↦ rw (same, old) (ground arith)
    | inr other ↦ rw other refl
  ])
  | inr new ↦ rw new (member-snoc j id marks ∙ ground arith)
]

member-unmark :
    (id j : Text) (marks : List Text)
    → member j (unmark id marks) ≡ (not (j == id) && member j marks)
unfolding unmark
member-unmark id j [] = ground arith
member-unmark id j (m ∷ marks) =
    ground (arith, eq_iff j m, eq_iff m id, eq_iff j id, member-unmark id j marks)

member-mark_all :
    (ids : List Text) (j : Text) (marks : List Text)
    → member j (Bulk.mark_all ids marks) ≡ (member j ids || member j marks)
unfolding Bulk.mark_all
member-mark_all [] j marks = refl
member-mark_all (id ∷ ids) j marks =
    member-mark_all ids j (mark id marks) ∙ ground (arith, member-mark id j marks)

member-unmark_all :
    (ids : List Text) (j : Text) (marks : List Text)
    → member j (Bulk.unmark_all ids marks) ≡ (not (member j ids) && member j marks)
unfolding Bulk.unmark_all
member-unmark_all [] j marks = refl
member-unmark_all (id ∷ ids) j marks =
    member-unmark_all ids j (unmark id marks) ∙ ground (arith, member-unmark id j marks)

-- The account of the read status that a request gives an email, from the one that it has: an email
-- that is opened and found is read.
module _ {S : Type 0} (env : Services S) where
  abbrev is_found : {A : Type 0} → Outcome A → Bool
  is_found (ok a) = true
  is_found (err e) = false

  unfoldable pub read_after : Server S → Request → Text → Bool → Bool
  read_after s (show_email opened) id read =
      (id == opened && is_found (env.storage.get_email_by_id s.store opened)) || read
  read_after s (mark_read (ok ids)) id read = member id ids || read
  read_after s (mark_unread (ok ids)) id read = not (member id ids) && read
  read_after s reset_read id read = false
  read_after s request id read = read

  handle-read_after :
      (s : Server S) (request : Request) (id : Text)
      → member id (handle env s request).server.read_emails
        ≡ read_after s request id (member id s.read_emails)
  unfolding handle change read_after Reads.get_mailboxes Listing.get_stats Listing.get_health
      Bulk.delete_emails Bulk.reset_read_status Listing.get_emails Reads.get_email_by_id
      Bulk.delete_email_by_id Reads.get_email_headers Reads.download_email Reads.get_mime_tree
      Reads.get_relay_data Reads.get_attachments Reads.get_body_version Reads.get_attachment_content
      Reads.get_part_by_cid_of Bulk.relay_message_of Bulk.bulk_delete Bulk.bulk_mark_read
      Bulk.bulk_mark_unread Bulk.bulk_relay
  handle-read_after s list_mailboxes id = ground arith
  handle-read_after s list_stats id = ground arith
  handle-read_after s (unknown_route path) id = refl
  handle-read_after s (static_file path) id =
      ap (λ x. member id x.read_emails) (serve_static-server env s path)
  handle-read_after s check_health id = ground arith
  handle-read_after s show_settings id = ground arith
  handle-read_after s delete_everything id = ground arith
  handle-read_after s (delete_email a) id = ground arith
  handle-read_after s (show_headers a) id = ground arith
  handle-read_after s (download a) id = ground arith
  handle-read_after s (show_mime_tree a) id = ground arith
  handle-read_after s (show_relays a) id = ground arith
  handle-read_after s (list_attachments a) id = ground arith
  handle-read_after s (show_body a b) id = ground arith
  handle-read_after s (show_attachment a b) id = ground arith
  handle-read_after s (show_part a b) id = ground arith
  handle-read_after s (list_emails query page) id = ground arith
  handle-read_after s (relay_email a (err e)) id = ground arith
  handle-read_after s (relay_email a (ok request)) id = ground arith
  handle-read_after s (delete_many (err e)) id = ground arith
  handle-read_after s (delete_many (ok ids)) id = refl
  handle-read_after s (relay_many (err e)) id = ground arith
  handle-read_after s (relay_many (ok (ids, request))) id = ground arith
  handle-read_after s (change_settings (err e)) id = ground arith
  handle-read_after s (change_settings (ok new)) id = refl
  handle-read_after s reset_read id = refl
  handle-read_after s (mark_read (err e)) id = ground arith
  handle-read_after s (mark_read (ok ids)) id = member-mark_all ids id s.read_emails
  handle-read_after s (mark_unread (err e)) id = ground arith
  handle-read_after s (mark_unread (ok ids)) id = member-unmark_all ids id s.read_emails
  handle-read_after s (show_email opened) id = ground (arith, member-mark opened id s.read_emails)

  -- The account along a sequence of requests.
  unfoldable pub read_trace : Server S → List Request → Text → Bool → Bool
  unfolding read_after
  read_trace s [] id read = read
  read_trace s (request ∷ requests) id read =
      read_trace (handle env s request).server requests id (read_after s request id read)

  -- After any sequence of requests, an email is marked as read exactly by its own account: opening
  -- it (if the storage finds it) or marking it sets the mark, unmarking it or resetting all marks
  -- clears it, and no other request, not even its deletion, changes it.
  pub run-read_trace :
      (s : Server S) (requests : List Request) (id : Text)
      → member id (run env s requests).read_emails
        ≡ read_trace s requests id (member id s.read_emails)
  unfolding run read_trace
  run-read_trace s [] id = refl
  run-read_trace s (request ∷ requests) id =
      run-read_trace (handle env s request).server requests id
      ∙ ap (read_trace (handle env s request).server requests id) (handle-read_after s request id)
