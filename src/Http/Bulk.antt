-- ===== src/Http/Bulk.antt =====
-- The handlers of http/httpd.go that delete, relay or mark emails, one or many of them.
pub mod Results
use mock_my_mta.Base.{
  Text, lit, ◌==◌, List, [], ◌∷◌, ◌++◌, Option, none, some, Bool, true, false, if◌then◌else◌, ℕ,
  Outcome, ok, err, Error, failed,
}
use mock_my_mta.Smtp.{Relay, Envelope, Delivery, get_relay, relay_message}
use mock_my_mta.Http.Rewrite.{rewrite_sender}
use mock_my_mta.Http.Server.{
  Server, Services, Reply, BulkResult, nothing, aborted, status_ok, error_message, bulk_result,
  email_deleted, all_deleted, read_status_reset, respond, refuse, panics, mark, unmark,
}

-- RelayMessageRequest, and BulkRelayRequest with the ids aside.
pub record RelayRequest : Type 0 where
  pub relay_name : Text
  pub sender : Text
  pub recipients : List Text

abbrev pub no_results : BulkResult
no_results = record { succeeded = []; failures = [] }

abbrev pub succeed : Text → BulkResult → BulkResult
succeed id r = record r { succeeded = r.succeeded ++ (id ∷ []) }

abbrev pub fail : Text → BulkResult → BulkResult
fail id r = record r { failures = r.failures ++ (id ∷ []) }

-- The loops of bulkMarkRead and bulkMarkUnread.
unfoldable pub mark_all : List Text → List Text → List Text
unfolding mark
mark_all [] marks = marks
mark_all (id ∷ ids) marks = mark_all ids (mark id marks)

unfoldable pub unmark_all : List Text → List Text → List Text
unfolding unmark
unmark_all [] marks = marks
unmark_all (id ∷ ids) marks = unmark_all ids (unmark id marks)

module _ {S : Type 0} (env : Services S) where
  -- smtp.RelayMessage with the mail that it sends, if it comes to that, and its error.
  unfoldable pub relay_email : Relay → RelayRequest → Text → List Delivery × Option Error
  unfolding rewrite_sender
  relay_email config request raw_email =
      let envelope : Envelope = record {
        sender = request.sender;
        recipients = request.recipients;
        data_bytes = rewrite_sender env.canonical env.std raw_email request.sender;
      } in
      elim (relay_message env.split_host config envelope) [
        | err e ↦ ([], some e)
        | ok delivery ↦ (delivery ∷ [], env.send_mail delivery)
      ]

  -- The loop of bulkDeleteEmails.
  unfoldable pub delete_each : List Text → S → BulkResult → S × BulkResult
  delete_each [] store r = (store, r)
  delete_each (id ∷ ids) store r =
      let (store', error) = env.storage.delete_email_by_id store id in
      delete_each ids store' (elim error [ none ↦ succeed id r | some e ↦ fail id r ])

  -- The loop of bulkRelayEmails.
  unfoldable pub relay_each :
      Relay → RelayRequest → S → List Text → BulkResult → List Delivery → BulkResult × List Delivery
  unfolding relay_email
  relay_each config request store [] r sent = (r, sent)
  relay_each config request store (id ∷ ids) r sent = elim (env.storage.get_raw_email store id) [
    | err e ↦ relay_each config request store ids (fail id r) sent
    | ok raw_email ↦
        let (mails, error) = relay_email config request raw_email in
        relay_each config request store ids
          (elim error [ none ↦ succeed id r | some e ↦ fail id r ]) (sent ++ mails)
  ]

  module _ (s : Server S) where
    abbrev bad_request : Error → Reply S
    bad_request = refuse s 400 (lit "cannot parse request body")

    -- deleteEmailByID
    unfoldable pub delete_email_by_id : Text → Reply S
    delete_email_by_id id =
        let (store, error) = env.storage.delete_email_by_id s.store id in
        let s' = record s { store = store } in
        elim error [
          | some e ↦ refuse s' 500 (lit "cannot delete email (id=" ++ (id ++ lit ")")) e
          | none ↦ record (respond s' 204 nothing) { events = email_deleted id ∷ [] }
        ]

    -- deleteEmails
    unfoldable pub delete_emails : Reply S
    delete_emails =
        let (store, error) = env.storage.delete_all_emails s.store in
        let s' = record s { store = store } in
        elim error [
          | some e ↦ refuse s' 500 (lit "cannot delete all emails") e
          | none ↦ record (respond s' 204 nothing) { events = all_deleted ∷ [] }
        ]

    unfoldable pub bulk_delete : Outcome (List Text) → Reply S
    unfolding delete_each
    bulk_delete (err e) = bad_request e
    bulk_delete (ok ids) =
        let (store, r) = delete_each ids s.store no_results in
        respond (record s { store = store }) 200 (bulk_result r)

    abbrev pub no_relay : Text → Reply S
    no_relay name =
        respond s 400 (error_message (lit "relay " ++ (env.quote name ++ lit " not found")))

    -- relayMessage
    unfoldable pub relay_message_of : Text → Outcome RelayRequest → Reply S
    unfolding relay_email
    relay_message_of id (err e) = bad_request e
    relay_message_of id (ok request) = elim (get_relay s.relays request.relay_name) [
      | none ↦ no_relay request.relay_name
      | some config ↦ elim (env.storage.get_raw_email s.store id) [
        | err e ↦ refuse s 500 (lit "cannot get email (id=" ++ (id ++ lit ")")) e
        | ok raw_email ↦
            let (mails, error) = relay_email config request raw_email in
            elim error [
              | some e ↦
                  record (refuse s 500 (lit "cannot relay message (id=" ++ (id ++ lit ")")) e) {
                    sent = mails;
                  }
              | none ↦ record (respond s 200 nothing) { sent = mails }
            ]
      ]
    ]

    unfoldable pub bulk_relay : Outcome (List Text × RelayRequest) → Reply S
    unfolding relay_each
    bulk_relay (err e) = bad_request e
    bulk_relay (ok (ids, request)) = elim (get_relay s.relays request.relay_name) [
      | none ↦ no_relay request.relay_name
      | some config ↦
          let (r, mails) = relay_each config request s.store ids no_results [] in
          record (respond s 200 (bulk_result r)) { sent = mails }
    ]

    unfoldable pub bulk_mark_read : Outcome (List Text) → Reply S
    unfolding mark_all
    bulk_mark_read (err e) = bad_request e
    bulk_mark_read (ok ids) =
        respond (record s { read_emails = mark_all ids s.read_emails }) 200
          (bulk_result (record { succeeded = ids; failures = [] }))

    unfoldable pub bulk_mark_unread : Outcome (List Text) → Reply S
    unfolding unmark_all
    bulk_mark_unread (err e) = bad_request e
    bulk_mark_unread (ok ids) =
        respond (record s { read_emails = unmark_all ids s.read_emails }) 200
          (bulk_result (record { succeeded = ids; failures = [] }))

    -- resetReadStatus
    unfoldable pub reset_read_status : Reply S
    reset_read_status = record (respond (record s { read_emails = [] }) 200 status_ok) {
      events = read_status_reset ∷ [];
    }
