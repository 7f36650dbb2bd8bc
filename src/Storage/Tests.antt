-- ===== src/Storage/Tests.antt =====
-- Runs of the theorems on two memory layers, a folder and some lists, with a stand-in for the packages.
use mock_my_mta.Base.{
  Text, lit, ◌==◌, ◌≡◌, refl, List, [], ◌∷◌, none, true, false, if◌then◌else◌, ℕ, ◌*◌, ltb, take,
  drop, ok, arith,
}
use mathlib.Core.List.{Perm}
use mock_my_mta.Base.Dict.{lookup, insert}
use mock_my_mta.Base.Int.{pos}
use mock_my_mta.Std.Ascii.{ascii_std}
use mock_my_mta.Multipart.{Node, leaf, new_headers, get_values, get_header_value, get_content_type}
use mock_my_mta.Multipart.Attachments.{get_attachments}
use mock_my_mta.Multipart.Parse.{parse_email, new, parse_mail, read_leaf}
use mock_my_mta.Storage.{html, new_email_header}
use mock_my_mta.Storage.Config.{LayerConfig, has_scope, is_writable, in_scope}
use mock_my_mta.Storage.Page.{paginate}
use mock_my_mta.Storage.Page.Slices.{paginate_page}
use mock_my_mta.Storage.Order.{sort, IsSorted, sort-perm, sort-IsSorted}
use mock_my_mta.Storage.Layer.{Layer}
use mock_my_mta.Storage.Memory.{Memory, empty, not_found, attachment_headers, memory_layer}
use mock_my_mta.Storage.Memory
use mock_my_mta.Storage.Memory.Cache.{get-set_with_id}
use mock_my_mta.Storage.Files.{Files, FileType, eml, mailhog, no_file, file_name}
use mock_my_mta.Storage.Files
use mock_my_mta.Storage.Files.Apart.{ascii_std-KeepsPlainApart}
use mock_my_mta.Storage.Files.Disk.{get_raw_body-set_with_id}
use mock_my_mta.Storage.Engine.{
  Engine, new_engine, default_scopes, add_layers, add_layer, new_layer, load_layers, report,
  write_until,
}
use mock_my_mta.Storage.Engine
use mock_my_mta.Storage.Engine.Routes.{Routed, change, positions}
use mock_my_mta.Storage.Engine.Reads.{asked, engine_reads}
use mock_my_mta.Storage.Engine.Writes.{errors_of, delete_all_emails_writes, set_with_id_written}

abbrev hello : Text
hello = lit "hello"

abbrev hello_mail : Node
hello_mail = leaf (record {
  headers = (lit "content-type", lit "text/plain; charset=us-ascii" ∷ []) ∷ [];
  body = hello;
})

hello_parsed : parse_email ascii_std hello ≡ ok hello_mail
unfolding parse_email new parse_mail read_leaf new_headers get_content_type get_header_value
    get_values lookup insert ◌==◌
hello_parsed = refl

get-set_with_id_example :
    let m' = (Memory.set_with_id ascii_std empty (lit "a") hello).0 in
    (Memory.get_email_by_id m' (lit "a") ≡ (
      if lit "a" == lit "a"
      then ok (new_email_header ascii_std (lit "a") hello_mail)
      else Memory.get_email_by_id empty (lit "a")))
    × (Memory.get_raw_email m' (lit "a")
        ≡ (if lit "a" == lit "a" then ok hello else Memory.get_raw_email empty (lit "a")))
    × (Memory.get_attachments_of m' (lit "a") ≡ (
        if lit "a" == lit "a"
        then ok (attachment_headers ascii_std (get_attachments ascii_std hello_mail))
        else Memory.get_attachments_of empty (lit "a")))
get-set_with_id_example =
    get-set_with_id ascii_std empty (lit "a") hello hello_mail hello_parsed (lit "a")

abbrev mailhog_folder : Files
mailhog_folder = record { kind = mailhog; folder = lit "d"; files = [] }

get_raw_body-set_with_id_example :
    let s' = (Files.set_with_id ascii_std mailhog_folder (lit "a") hello).0 in
    ((Files.set_with_id ascii_std mailhog_folder (lit "a") hello).1 ≡ none)
    × (Files.get_raw_body ascii_std s' (lit "a") ≡ (
        if lit "a" == lit "a"
        then ok hello
        else Files.get_raw_body ascii_std mailhog_folder (lit "a")))
    × (Files.get_email_by_id ascii_std s' (lit "a")
        ≡ ok (new_email_header ascii_std (lit "a") hello_mail))
get_raw_body-set_with_id_example =
    get_raw_body-set_with_id ascii_std mailhog_folder (lit "a") hello ascii_std-KeepsPlainApart refl
      refl hello_mail (lit "a") refl hello_parsed

-- A cache and a layer for searches only.
abbrev cache_config : LayerConfig
cache_config = record {
  kind = lit "MEMORY";
  scope = lit "cache" ∷ lit "read" ∷ [];
  parameters = [];
}

abbrev search_config : LayerConfig
search_config = record { kind = lit "MEMORY"; scope = lit "search" ∷ []; parameters = [] }

abbrev two_layers : List LayerConfig
two_layers = cache_config ∷ search_config ∷ []

abbrev two_layer_engine : Engine Memory
two_layer_engine = record {
  all_layers = empty ∷ empty ∷ [];
  read_layers = 0 ∷ [];
  search_layers = 1 ∷ [];
  write_layers = 0 ∷ [];
  raw_layers = [];
}

two_layers-Routed : Routed two_layers two_layer_engine
unfolding Routed positions has_scope is_writable in_scope ◌==◌
two_layers-Routed = (refl, refl, refl, refl, refl)

abbrev memories : Layer Memory
memories = memory_layer ascii_std (pos 0)

engine_reads_example :
    (Engine.get_email_by_id memories two_layer_engine (lit "a")
      ≡ asked two_layers two_layer_engine
          (lit "read")
          (lit "GetEmailByID")
          (λ s. memories.get_email_by_id s (lit "a")))
    × (Engine.get_body_version memories two_layer_engine (lit "a") html
        ≡ asked two_layers two_layer_engine
            (lit "read")
            (lit "GetBodyVersion")
            (λ s. memories.get_body_version s (lit "a") html))
    × (Engine.get_attachments memories two_layer_engine (lit "a")
        ≡ asked two_layers two_layer_engine
            (lit "read")
            (lit "GetAttachments")
            (λ s. memories.get_attachments s (lit "a")))
    × (Engine.get_attachment memories two_layer_engine (lit "a") (lit "0")
        ≡ asked two_layers two_layer_engine
            (lit "read")
            (lit "GetAttachment")
            (λ s. memories.get_attachment s (lit "a") (lit "0")))
    × (Engine.search_emails memories two_layer_engine [] (pos 1) (pos 20)
        ≡ asked two_layers two_layer_engine
            (lit "search")
            (lit "SearchEmails")
            (λ s. memories.search_emails s [] (pos 1) (pos 20)))
    × (Engine.get_mailboxes memories two_layer_engine
        ≡ asked two_layers two_layer_engine
            (lit "search")
            (lit "GetMailboxes")
            (λ s. memories.get_mailboxes s))
    × (Engine.get_raw_email memories two_layer_engine (lit "a")
        ≡ asked two_layers two_layer_engine
            (lit "raw")
            (lit "GetRawEmail")
            (λ s. memories.get_raw_email s (lit "a")))
engine_reads_example =
    engine_reads memories two_layers two_layer_engine two_layers-Routed (lit "a") (lit "0") [] html
      (pos 1) (pos 20)

delete_all_emails_writes_example : Engine.delete_all_emails memories two_layer_engine ≡ (
  record two_layer_engine {
    all_layers =
        change is_writable
          (λ s. (memories.delete_all_emails s).0)
          two_layers
          two_layer_engine.all_layers;
  },
  report (errors_of memories.delete_all_emails is_writable two_layers two_layer_engine.all_layers),
)
delete_all_emails_writes_example =
    delete_all_emails_writes memories two_layers two_layer_engine two_layers-Routed

hello_set : (Engine.set_with_id memories two_layer_engine (lit "a") hello).1 ≡ none
unfolding Engine.set_with_id Memory.set_with_id write_until parse_email new parse_mail read_leaf
    new_headers get_content_type get_header_value get_values lookup insert ◌==◌
hello_set = refl

set_with_id_written_example :
    (Engine.set_with_id memories two_layer_engine (lit "a") hello).0 ≡ record two_layer_engine {
      all_layers =
          change is_writable
            (λ s. (memories.set_with_id s (lit "a") hello).0)
            two_layers
            two_layer_engine.all_layers;
    }
set_with_id_written_example =
    set_with_id_written memories two_layers two_layer_engine two_layers-Routed (lit "a") hello
      hello_set

abbrev three : List ℕ
three = 5 ∷ 6 ∷ 7 ∷ []

paginate_page_example : paginate three (pos 2) (pos 2) ≡ ok (take 2 (drop (1 * 2) three))
paginate_page_example = paginate_page three 1 2 (omega arith) (omega arith)

sort-perm_example : Perm (sort ltb three) three
sort-perm_example = sort-perm ltb three

ltb_asymmetric : (x y : ℕ) → ltb x y ≡ true → ltb y x ≡ false
ltb_asymmetric x y h = ground arith

ltb_transitive : (x y z : ℕ) → ltb y x ≡ false → ltb z y ≡ false → ltb z x ≡ false
ltb_transitive x y z h k = ground arith

sort-IsSorted_example : IsSorted ltb (sort ltb (7 ∷ three))
sort-IsSorted_example = sort-IsSorted ltb ltb_asymmetric ltb_transitive (7 ∷ three)
