-- ===== src/System/Started.antt =====
-- The program from its start by main (Command.Startup) on.
use mock_my_mta.Base.{
  Text, ◌==◌, ◌≡◌, refl, List, [], ◌∷◌, Option, none, some, ℕ, Outcome, ok, err, Error, ◌>>=◌,
  bind_ok, ok_injective, Bool-cases, Outcome-cases, inl, inr,
}
use mathlib.Core.Path.{subst}
use mock_my_mta.Base.Int.{pos, negsuc}
use mock_my_mta.Std.{Time, RawHeaders, Reader}
use mock_my_mta.Log.{parse_log_level}
use mock_my_mta.Storage.{EmailHeader}
use mock_my_mta.Storage.Config.{LayerConfig}
use mock_my_mta.Storage.Layer.{Layer}
use mock_my_mta.Storage.Engine.{Engine, default_scopes, new_engine, search_emails, get_attachments}
use mock_my_mta.Storage.Engine.Routes.{Routed, new_engine-Routed}
use mock_my_mta.Http.{IsValid, initial_settings}
use mock_my_mta.Http.Server.{Services}
use mock_my_mta.Http.Hub.{start}
use mock_my_mta.Http.Hub.Clients.{IsOpen, Reach-IsOpen}
use mock_my_mta.Command.{Configuration}
use mock_my_mta.Command.TestData.{Entry, load_file, load_files, load_test_data, email_files}
use mock_my_mta.Command.Startup.{
  Host, configure, set_numbered, check_attachments, init_with_test_data, main,
}
use mock_my_mta.System.{World, started, Leads, anything}
use mock_my_mta.System.Invariant.{set_message-keeps, set-Routed, IsSound, Leads-IsSound}

-- What the storing of an email keeps, the load of test data keeps.
module _ (open_file : Text → Outcome Text) (read_message : Text → Outcome (RawHeaders × Reader))
    {S : Type 0} (set_message : S → RawHeaders → Reader → (S × Text) × Option Error)
    (Holds : S → Type 0)
    (stored : (s : S) (headers : RawHeaders) (body : Reader)
      → Holds s
      → Holds (set_message s headers body).0.0) where
  load_file-keeps :
      (filename : Text) (s : S)
      → Holds s
      → Holds (load_file open_file read_message set_message filename s)
  unfolding load_file
  load_file-keeps filename s before = opened (open_file filename)
    where
      read :
          (o : Outcome (RawHeaders × Reader))
          → Holds (elim o [ err e ↦ s | ok (headers, body) ↦ (set_message s headers body).0.0 ])
      read (err e) = before
      read (ok (headers, body)) = stored s headers body before

      opened :
          (o : Outcome Text)
          → Holds (elim o [
            | err e ↦ s
            | ok bytes ↦ elim (read_message bytes) [
              | err e ↦ s
              | ok (headers, body) ↦ (set_message s headers body).0.0
            ]
          ])
      opened (err e) = before
      opened (ok bytes) = read (read_message bytes)

  load_files-keeps :
      (filenames : List Text) (s : S)
      → Holds s
      → Holds (load_files open_file read_message set_message filenames s)
  unfolding load_files
  load_files-keeps [] s h = h
  load_files-keeps (filename ∷ filenames) s h =
      load_files-keeps filenames _ (load_file-keeps filename s h)

  load_test_data-keeps :
      (o : Outcome (List Entry)) (s : S)
      → Holds s
      → Holds (load_test_data open_file read_message set_message o s).0
  unfolding load_test_data
  load_test_data-keeps (err e) s h = h
  load_test_data-keeps (ok entries) s h = load_files-keeps (email_files entries) s h

module _ {S : Type 0} (host : Host S) (layer : Layer S) (env : Services (Engine S))
    (rfc1123z rfc3339 : Time → Text) where
  check_attachments-same :
      (e e' : Engine S) (headers : List EmailHeader)
      → check_attachments host layer env rfc1123z rfc3339 e headers ≡ ok e'
      → e ≡ e'
  unfolding check_attachments
  check_attachments-same e e' [] h = ok_injective e e' h
  check_attachments-same e e' (header ∷ headers) h = elim (Bool-cases header.has_attachments) [
    | inl has ↦ elim (Outcome-cases (get_attachments layer e header.id)) [
      | inl (attachments, found) ↦ check_attachments-same e e' headers (rw (has, found) at h)
      | inr (x, fails) ↦ cc (rw (has, fails) at h)
    ]
    | inr without ↦ check_attachments-same e e' headers (rw without at h)
  ]

  module _ (cfgs : List LayerConfig) where
    abbrev loaded : Engine S → (Engine S × ℕ) × Option Error
    loaded e =
        load_test_data host.open_file env.std.read_message
          (set_numbered host layer env rfc1123z rfc3339) (host.walk host.test_data_flag) (e, 0)

    loaded-Routed : (e : Engine S) → Routed cfgs e → Routed cfgs (loaded e).0.0
    loaded-Routed e routed =
        load_test_data-keeps host.open_file env.std.read_message
          (set_numbered host layer env rfc1123z rfc3339) (λ s. Routed cfgs s.0)
          (λ (e, n) headers body before.
            set_message-keeps layer env rfc1123z rfc3339 (Routed cfgs) (host.uuids n) (host.clock n)
              e headers body before (λ raw_email. set-Routed layer cfgs e _ raw_email before))
          (host.walk host.test_data_flag) (e, 0) routed

    checked :
        (e e' : Engine S) (error : Option Error)
        → (elim error as (λ _. Outcome (Engine S)) [
          | some x ↦ err x
          | none ↦ search_emails layer e [] (pos 1) (negsuc 0) >>= λ found.
              check_attachments host layer env rfc1123z rfc3339 e found.0
        ])
          ≡ ok e'
        → e ≡ e'
    checked e e' (some x) h = cc h
    checked e e' none h =
        let (found, searched, same) =
          bind_ok (search_emails layer e [] (pos 1) (negsuc 0))
            (λ found. check_attachments host layer env rfc1123z rfc3339 e found.0) e' h in
        check_attachments-same e e' found.0 same

    init-Routed :
        (e e' : Engine S)
        → init_with_test_data host layer env rfc1123z rfc3339 e ≡ ok e'
        → Routed cfgs e
        → Routed cfgs e'
    unfolding init_with_test_data
    init-Routed e e' h routed = elim (Bool-cases (host.test_data_flag == [])) [
      | inl absent ↦ subst (Routed cfgs) (ok_injective e e' (rw absent at h)) routed
      | inr given ↦
          subst (Routed cfgs) (checked (loaded e).0.0 e' (loaded e).1 (rw given at h))
            (loaded-Routed e routed)
    ]

  initial_settings-IsValid : IsValid initial_settings
  unfolding ◌==◌
  initial_settings-IsValid = (refl, refl, refl, refl, refl)

  main-IsSound :
      (config : Configuration) (w : World S)
      → main host layer env rfc1123z rfc3339 ≡ ok (config, w)
      → IsSound layer env rfc1123z rfc3339 (default_scopes config.storages) w
  unfolding main
  main-IsSound config w h =
      let (config', configured, h₁) = bind_ok (configure host layer env rfc1123z rfc3339) _ _ h in
      let (level, parsed, h₂) = bind_ok (parse_log_level config'.log_level) _ _ h₁ in
      let (e, made, h₃) =
        bind_ok
          (new_engine host.new_memory host.new_sqlite host.new_files host.load config'.storages) _ _
          h₂ in
      let (e', filled, h₄) =
        bind_ok (init_with_test_data host layer env rfc1123z rfc3339 e) _ _ h₃ in
      subst (λ r. IsSound layer env rfc1123z rfc3339 (default_scopes r.0.storages) r.1)
        (ok_injective (config', started e' config'.smtpd.relays) (config, w) h₄)
        (
          init-Routed (default_scopes config'.storages) e e' filled (
              new_engine-Routed host.new_memory host.new_sqlite host.new_files host.load
                config'.storages e made),
          initial_settings-IsValid,
          start,
        )

  -- If main comes to the start of its servers, then whatever messages, requests and websocket
  -- clients come to them, in whatever order: the routing tables of the engine remain those of the
  -- configuration, the settings that the messages are handled with remain in range, and the clients
  -- of the hub remain distinct, with no connection among them that was closed.
  pub Leads-invariant :
      (config : Configuration) (w v : World S)
      → main host layer env rfc1123z rfc3339 ≡ ok (config, w)
      → Leads layer env rfc1123z rfc3339 anything w v
      → Routed (default_scopes config.storages) v.server.store
        × IsValid v.server.settings
        × IsOpen v.hub
  Leads-invariant config w v runs run =
      let (routed, valid, reach) =
        Leads-IsSound layer env rfc1123z rfc3339 (default_scopes config.storages) anything w v run
          (main-IsSound config w runs) in
      (routed, valid, Reach-IsOpen reach)
