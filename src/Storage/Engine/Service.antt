-- ===== src/Storage/Engine/Service.antt =====
-- The engine of storage/engine.go as the Storage interface that the HTTP server is given.

use mock_my_mta.Storage.Layer.{Layer}
use mock_my_mta.Storage.Engine.{Engine}
use mock_my_mta.Storage.Engine

abbrev pub engine_layer : {S : Type 0} → Layer S → Layer (Engine S)
engine_layer layer = record {
  get_mailboxes = Engine.get_mailboxes layer;
  get_email_by_id = Engine.get_email_by_id layer;
  get_body_version = Engine.get_body_version layer;
  get_attachments = Engine.get_attachments layer;
  get_attachment = Engine.get_attachment layer;
  search_emails = Engine.search_emails layer;
  get_raw_email = Engine.get_raw_email layer;
  delete_all_emails = Engine.delete_all_emails layer;
  delete_email_by_id = Engine.delete_email_by_id layer;
  set_with_id = Engine.set_with_id layer;
}
