-- ===== src/Storage/Engine.antt =====
-- storage/engine.go: the layers in the order of the configuration, and four routing tables. The
-- tables of the source hold the same objects as allLayers; here they hold the layers' positions.
-- `S` is the type of the layers' states and `layer` the methods that a state's type selects.
pub mod Loops
pub mod Places
pub mod Routes
pub mod Reads
pub mod Writes
pub mod Message
pub mod Service
use mock_my_mta.Base.{
  Text, lit, List, [], ◌∷◌, ◌++◌, Option, none, some, Bool, true, false, if◌then◌else◌, ℕ, length,
  get_elem?, set, Outcome, ok, err, Error, failed, unimplemented, panicked, invalid_query, ◌>>=◌,
  ◌==◌,
}
use mock_my_mta.Base.Dict.{lookup, insert}
use mock_my_mta.Base.Int.{ℤ}
use mock_my_mta.Std.{Std, Time, RawHeaders, Reader}
use mock_my_mta.Storage.{EmailHeader, AttachmentHeader, Attachment, Version}
use mock_my_mta.Storage.Config.{LayerConfig, has_scope, is_writable, default_scope}
use mock_my_mta.Storage.Layer.{Layer}

-- Engine
pub record Engine (S : Type 0) : Type 0 where
  pub all_layers : List S
  pub read_layers : List ℕ
  pub search_layers : List ℕ
  pub write_layers : List ℕ
  pub raw_layers : List ℕ

abbrev pub is_unimplemented : Error → Bool
is_unimplemented (unimplemented method physical) = true
is_unimplemented (failed message) = false
is_unimplemented panicked = false
is_unimplemented (invalid_query query message) = false

-- Error() of the errors.
abbrev pub error_text : Error → Text
error_text (unimplemented method physical) =
    lit "method " ++ (method ++ (lit " is not implemented in layer " ++ physical))
error_text (failed message) = message
error_text panicked = []
error_text (invalid_query query message) = message

-- fmt.Errorf("errors: %v", errors)
abbrev pub joined_texts : List Error → Text
joined_texts [] = []
joined_texts (e ∷ []) = error_text e
joined_texts (e ∷ (f ∷ es)) = error_text e ++ (lit " " ++ joined_texts (f ∷ es))

unfoldable pub report : List Error → Option Error
report [] = none
report (e ∷ es) = some (failed (lit "errors: [" ++ (joined_texts (e ∷ es) ++ lit "]")))

abbrev pub last {ℓ} : {A : Type ℓ} → List A → Option A
last [] = none
last (x ∷ []) = some x
last (x ∷ (y ∷ ys)) = last (y ∷ ys)

abbrev pub empty_engine : (S : Type 0) → Engine S
empty_engine S = record {
  all_layers = [];
  read_layers = [];
  search_layers = [];
  write_layers = [];
  raw_layers = [];
}

abbrev pub append_if : Bool → ℕ → List ℕ → List ℕ
append_if b n table = if b then table ++ (n ∷ []) else table

-- No scope means all of them.
unfoldable pub default_scopes : List LayerConfig → List LayerConfig
unfolding default_scope
default_scopes [] = []
default_scopes (cfg ∷ cfgs) = default_scope cfg ∷ default_scopes cfgs

module _ {S : Type 0} where
  -- One round of NewEngine's loop, with the layer that it has made.
  unfoldable pub add_layer : LayerConfig → S → Engine S → Engine S
  add_layer cfg s e =
      let n = length e.all_layers in
      record {
        all_layers = e.all_layers ++ (s ∷ []);
        read_layers = append_if (has_scope cfg (lit "read")) n e.read_layers;
        search_layers = append_if (has_scope cfg (lit "search")) n e.search_layers;
        write_layers = append_if (is_writable cfg) n e.write_layers;
        raw_layers = append_if (has_scope cfg (lit "raw")) n e.raw_layers;
      }

  -- The constructors of the layers, and their method `load`, which is given the root layer.
  module _ (new_memory : Outcome S) (new_sqlite : Text → Outcome S)
      (new_files : Text → Text → Outcome S) (load : S → Option S → Outcome S) where
    abbrev pub parameter : LayerConfig → Text → Error → Outcome Text
    parameter cfg name missing = elim (lookup name cfg.parameters) [
      | none ↦ err missing
      | some value ↦ ok value
    ]

    unfoldable pub new_layer : LayerConfig → Outcome S
    new_layer cfg =
        if cfg.kind == lit "MEMORY"
        then new_memory
        else if cfg.kind == lit "SQLITE"
        then (do
          file ←
              parameter cfg (lit "database")
                (failed (lit "missing database parameter for SQLITE storage"))
          new_sqlite file)
        else if cfg.kind == lit "FILESYSTEM"
        then (do
          folder ←
              parameter cfg (lit "folder")
                (failed (lit "missing folder parameter for FILESYSTEM storage"))
          kind ←
              parameter cfg (lit "type")
                (failed (lit "missing type parameter for FILESYSTEM storage"))
          new_files folder kind)
        else err (failed (lit "unknown storage type: " ++ cfg.kind))

    unfoldable pub add_layers : List LayerConfig → Engine S → Outcome (Engine S)
    unfolding new_layer add_layer
    add_layers [] e = ok e
    add_layers (cfg ∷ cfgs) e = new_layer cfg >>= λ s. add_layers cfgs (add_layer cfg s e)

    -- Engine.load: from the last layer to the first; the last one gets no root, and the others it.
    unfoldable pub load_layers : List S → Outcome (List S)
    load_layers [] = ok []
    load_layers (s ∷ ss) = do loaded ← load_layers ss; s' ← load s (last loaded); ok (s' ∷ loaded)

    unfoldable pub new_engine : List LayerConfig → Outcome (Engine S)
    unfolding add_layers load_layers default_scopes
    new_engine cfgs = do
      e ← add_layers (default_scopes cfgs) (empty_engine S)
      loaded ← load_layers e.all_layers
      ok (record e { all_layers = loaded })

  -- The loops of the reading methods: the first layer that implements the method answers.
  unfoldable pub first_match : {A : Type 0} → Text → (S → Outcome A) → List S → List ℕ → Outcome A
  first_match method call layers [] = err (failed (lit "no storage layer implements " ++ method))
  first_match method call layers (i ∷ is) = elim (get_elem? layers i) [
    | none ↦ err panicked
    | some s ↦ elim (call s) [
      | ok a ↦ ok a
      | err e ↦ if is_unimplemented e then first_match method call layers is else err e
    ]
  ]

  -- The loop of setWithID and DeleteEmailByID: it ends at the first error.
  unfoldable pub write_until : (S → S × Option Error) → List S → List ℕ → List S × Option Error
  write_until write layers [] = (layers, none)
  write_until write layers (i ∷ is) = elim (get_elem? layers i) [
    | none ↦ (layers, some panicked)
    | some s ↦
        let (s', error) = write s in
        elim error [
          | none ↦ write_until write (set layers i s') is
          | some e ↦
              if is_unimplemented e
              then write_until write (set layers i s') is
              else (set layers i s', some e)
        ]
  ]

  -- The loop of DeleteAllEmails: it goes on after an error.
  unfoldable pub write_all : (S → S × Option Error) → List S → List ℕ → List S × List Error
  write_all write layers [] = (layers, [])
  write_all write layers (i ∷ is) = elim (get_elem? layers i) [
    | none ↦ (layers, panicked ∷ [])
    | some s ↦
        let (s', error) = write s in
        let (written, errors) = write_all write (set layers i s') is in
        (
          written,
          elim error [ none ↦ errors | some e ↦ if is_unimplemented e then errors else e ∷ errors ],
        )
  ]

  module _ (layer : Layer S) (e : Engine S) where
    unfoldable pub get_email_by_id : Text → Outcome EmailHeader
    unfolding first_match
    get_email_by_id id =
        first_match (lit "GetEmailByID") (λ s. layer.get_email_by_id s id) e.all_layers
          e.read_layers

    unfoldable pub get_body_version : Text → Version → Outcome Text
    unfolding first_match
    get_body_version id version =
        first_match (lit "GetBodyVersion") (λ s. layer.get_body_version s id version) e.all_layers
          e.read_layers

    unfoldable pub get_attachments : Text → Outcome (List AttachmentHeader)
    unfolding first_match
    get_attachments id =
        first_match (lit "GetAttachments") (λ s. layer.get_attachments s id) e.all_layers
          e.read_layers

    unfoldable pub get_attachment : Text → Text → Outcome Attachment
    unfolding first_match
    get_attachment id attachment =
        first_match (lit "GetAttachment") (λ s. layer.get_attachment s id attachment) e.all_layers
          e.read_layers

    unfoldable pub search_emails : Text → ℤ → ℤ → Outcome (List EmailHeader × ℕ)
    unfolding first_match
    search_emails query page size =
        first_match (lit "SearchEmails") (λ s. layer.search_emails s query page size) e.all_layers
          e.search_layers

    unfoldable pub get_mailboxes : Outcome (List Text)
    unfolding first_match
    get_mailboxes =
        first_match (lit "GetMailboxes") (λ s. layer.get_mailboxes s) e.all_layers e.search_layers

    unfoldable pub get_raw_email : Text → Outcome Text
    unfolding first_match
    get_raw_email id =
        first_match (lit "GetRawEmail") (λ s. layer.get_raw_email s id) e.all_layers e.raw_layers

    unfoldable pub delete_all_emails : Engine S × Option Error
    unfolding write_all report
    delete_all_emails =
        let (written, errors) = write_all layer.delete_all_emails e.all_layers e.write_layers in
        (record e { all_layers = written }, report errors)

    unfoldable pub delete_email_by_id : Text → Engine S × Option Error
    unfolding write_until
    delete_email_by_id id =
        let (written, error) =
          write_until (λ s. layer.delete_email_by_id s id) e.all_layers e.write_layers in
        (record e { all_layers = written }, error)

    unfoldable pub set_with_id : Text → Text → Engine S × Option Error
    unfolding write_until
    set_with_id id raw_email =
        let (written, error) =
          write_until (λ s. layer.set_with_id s id raw_email) e.all_layers e.write_layers in
        (record e { all_layers = written }, error)
