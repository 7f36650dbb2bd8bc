-- ===== src/System/Tests.antt =====
-- Messages, requests and clients after the start of the program.
use mock_my_mta.Base.{Text, lit, ◌==◌, ◌≡◌, ◌≢◌, refl, [], ◌∷◌, true, ok, ℕ, Bool, none}
use mock_my_mta.Base.Dict.{lookup, insert, erase}
use mock_my_mta.Base.Int.{pos}
use mock_my_mta.Std.{RawHeaders}
use mock_my_mta.Std.Ascii.{ascii_std}
use mock_my_mta.Multipart.{new_headers, get_values, get_header_value, get_content_type}
use mock_my_mta.Multipart.Parse.{parse_email, new, parse_mail, read_leaf}
use mock_my_mta.Storage.{new_email_header}
use mock_my_mta.Storage.Memory.{empty}
use mock_my_mta.Storage.Memory
use mock_my_mta.Storage.Files.{eml}
use mock_my_mta.Storage.Files
use mock_my_mta.Storage.Sqlite.{Row, Json, insert_email_header, row_of}
use mock_my_mta.Storage.Sqlite
use mock_my_mta.Storage.Sqlite.Rows.{rows_database, rows_database-SqlTable}
use mock_my_mta.Storage.Physical.{physical-KeepsRaw, physical-SparesOthers, physical-ForgetsRaw}
use mock_my_mta.Storage.Others.{physical-KeepsOthers}
use mock_my_mta.Storage.Gone.Layers.{physical-NeverRestores}
use mock_my_mta.Http.Bulk.{delete_email_by_id}
use mock_my_mta.Storage.Engine
use mock_my_mta.System.Gone.{without, deleted_stays}
use mock_my_mta.Storage.Engine.{
  Engine, new_engine, default_scopes, write_until, set_with_id, add_layer, add_layers, new_layer,
  load_layers,
}
use mock_my_mta.Storage.Files.Apart.{ascii_std-KeepsApart}
use mock_my_mta.Storage.Engine.Message.{dated, header_date, serialize, set_message}
use mock_my_mta.Smtp.{rejection, handler, accept}
use mock_my_mta.Smtp.Handler.{is_accepted}
use mock_my_mta.Http.{IsValid, behavior_of, put_settings, clamp, clamp_rate, clamp_low}
use mock_my_mta.Http.Hub.Clients.{IsOpen}
use mock_my_mta.Storage.Engine.Routes.{Routed}
use mock_my_mta.System.Started.{Leads-invariant}
use mock_my_mta.System.Kept.{received, accepted_kept}
use mock_my_mta.Http.Server.{respond}
use mock_my_mta.Http.Requests.{handle, download, delete_email, delete_many, change}
use mock_my_mta.Delivery.{over_engine, downloaded}
use mock_my_mta.System.{
  World, Action, message, request, submitted, act, Leads, here, next, anything, message_id,
  leaves_email, stores_others,
}
use mock_my_mta.System.Samples.{
  default_configuration, Disk, no_json, layers, services, host, default-WritesRaw, folder_for_raw,
  as_text, start_world, default_runs, all_work, before_message, before-Leads, hello,
}

Leads-invariant_example :
    Routed (default_scopes default_configuration.storages) before_message.server.store
    × IsValid before_message.server.settings
    × IsOpen before_message.hub
Leads-invariant_example =
    Leads-invariant host layers services as_text as_text default_configuration start_world
      before_message default_runs before-Leads

hello_accepted :
    is_accepted
      (submitted layers services as_text as_text before_message hello (lit "a") (pos 0) 0).reply
    ≡ true
unfolding act handler rejection accept set_message dated header_date serialize set_with_id
    write_until Memory.set_with_id Files.set_with_id Sqlite.set_with_id insert_email_header row_of
    new_email_header Files.load_email Files.get_raw_body Files.content_of Files.bytes_of parse_email
    new parse_mail read_leaf new_headers get_content_type get_header_value get_values lookup insert
    behavior_of put_settings clamp clamp_rate clamp_low handle change ◌==◌
hello_accepted = refl

abbrev with_hello : World Disk
with_hello =
    received host layers services as_text as_text before_message hello (lit "a") (pos 0) 0 all_work

-- Another message and deletions of others come behind it.
abbrev later_message : Action
later_message = message hello (lit "b") (pos 0) 0 all_work

abbrev later_request : Action
later_request = request (delete_many (ok (lit "now-b" ∷ lit "c" ∷ []))) (λ k. all_work)

abbrev afterwards : World Disk
afterwards =
    act layers services as_text as_text
      (act layers services as_text as_text with_hello later_message) later_request

abbrev no_headers : RawHeaders
no_headers = []

abbrev hello_id : Text
hello_id = message_id layers services as_text as_text (lit "a") (pos 0) no_headers

after-Leads :
    Leads layers services as_text as_text
      (leaves_email layers services as_text as_text hello_id)
      with_hello
      afterwards
unfolding dated header_date lookup insert ◌==◌
after-Leads = next (next here later_message refl refl) later_request refl refl

accepted_kept_example :
    (raw_email : Text) × (serialize
        (dated ascii_std as_text (pos 0) no_headers).0
        (record { content = lit "hello"; fault = none })
      ≡ ok raw_email)
    × (handle (over_engine layers services) afterwards.server (download hello_id)
        ≡ respond afterwards.server 200 (downloaded hello_id raw_email))
unfolding ◌==◌
accepted_kept_example =
    accepted_kept host layers services as_text as_text before_message hello (lit "a") (pos 0) 0
      all_work default_configuration start_world default_runs default-WritesRaw folder_for_raw
      (physical-KeepsRaw rows_database no_json ascii_std (pos 0) rows_database-SqlTable
        ascii_std-KeepsApart)
      (physical-KeepsOthers ascii_std (pos 0) rows_database no_json rows_database-SqlTable
        ascii_std-KeepsApart)
      (physical-SparesOthers rows_database no_json ascii_std (pos 0) rows_database-SqlTable
        ascii_std-KeepsApart)
      before-Leads hello_accepted no_headers (record { content = lit "hello"; fault = none }) refl
      afterwards after-Leads

-- The message is deleted, and another one comes behind the deletion.
with_hello-Leads : Leads layers services as_text as_text anything start_world with_hello
with_hello-Leads = next before-Leads (message hello (lit "a") (pos 0) 0 all_work) refl refl

abbrev works_for_all : ℕ → ℕ → Bool
works_for_all k = all_work

abbrev without_hello : World Disk
without_hello = without host layers services as_text as_text with_hello hello_id works_for_all

abbrev long_after : World Disk
long_after =
    act layers services as_text as_text
      (act layers services as_text as_text without_hello later_message) later_request

long_after-Leads :
    Leads layers services as_text as_text
      (stores_others layers services as_text as_text hello_id)
      without_hello
      long_after
unfolding dated header_date lookup insert ◌==◌
long_after-Leads = next (next here later_message refl refl) later_request refl refl

hello_deleted :
    (handle (over_engine layers services) with_hello.server (delete_email hello_id)).status ≡ 204
unfolding act handler rejection accept set_message dated header_date serialize set_with_id
    write_until Memory.set_with_id Files.set_with_id Sqlite.set_with_id insert_email_header row_of
    new_email_header Files.load_email Files.get_raw_body Files.content_of Files.bytes_of parse_email
    new parse_mail read_leaf new_headers get_content_type get_header_value get_values lookup insert
    behavior_of put_settings clamp clamp_rate clamp_low handle change delete_email_by_id
    Engine.delete_email_by_id Memory.delete_email_by_id Files.delete_email_by_id Files.file_name
    Files.file_suffix Sqlite.delete_email_by_id erase ◌==◌
hello_deleted = refl

deleted_stays_example :
    (handle (over_engine layers services) long_after.server (download hello_id)).status ≢ 200
deleted_stays_example =
    deleted_stays host layers services as_text as_text with_hello hello_id works_for_all
      default_configuration start_world default_runs default-WritesRaw
      (physical-ForgetsRaw rows_database no_json ascii_std (pos 0) rows_database-SqlTable
        ascii_std-KeepsApart)
      (physical-KeepsOthers ascii_std (pos 0) rows_database no_json rows_database-SqlTable
        ascii_std-KeepsApart)
      (physical-NeverRestores rows_database no_json rows_database-SqlTable ascii_std (pos 0))
      with_hello-Leads hello_deleted long_after long_after-Leads
