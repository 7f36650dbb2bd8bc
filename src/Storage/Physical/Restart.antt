-- ===== src/Storage/Physical/Restart.antt =====
-- The caches of an engine that NewEngine of storage/engine.go has made from layers with contents: what
-- they hold after Engine.load.
use mathlib.Core.Path.{subst}
use mock_my_mta.Base.{
  Text, lit, ◌==◌, ◌≡◌, refl, ap, ◌∙◌, sym, List, [], ◌∷◌, ◌++◌, Option, some, some_injective, ℕ,
  zero, suc, ◌<◌, length, get_elem?, Outcome, ok, err, Error, failed, ◌>>=◌, bind_ok, ok_injective,
  Bool-cases, inl, inr, All, arith,
}
use mock_my_mta.Std.{Std, Time}
use mock_my_mta.Storage.{EmailHeader}
use mock_my_mta.Storage.Config.{LayerConfig}
use mock_my_mta.Storage.Layer.{all_emails}
use mock_my_mta.Storage.Memory.{Memory, empty, get_email_by_id, get_raw_email, get_attachments_of}
use mock_my_mta.Storage.Memory.Load
use mock_my_mta.Storage.Memory.Load.Mirror.{last_with, is_listed, header_or, answer, load-answers}
use mock_my_mta.Storage.Files.{new_filesystem_storage}
use mock_my_mta.Base.Dict.{Dict}
use mock_my_mta.Storage.Sqlite.{Json, Database}
use mock_my_mta.Storage.Sqlite
use mock_my_mta.Storage.Engine.{
  Engine, last, parameter, add_layer, new_layer, add_layers, load_layers, default_scopes,
  new_engine, empty_engine,
}
use mock_my_mta.Storage.Physical.{
  Physical, in_memory, in_folder, in_database, physical_layer, load_physical,
}

-- The last of a list is the last of what stands behind its first element.
last_behind : {A : Type 0} (x : A) (xs : List A) → zero < length xs → last (x ∷ xs) ≡ last xs
last_behind x [] h = absurd (omega (arith, h))
last_behind x (y ∷ ys) h = refl

module _ {S : Type 0} (new_memory : Outcome S) (new_sqlite : Text → Outcome S)
    (new_files : Text → Text → Outcome S) (load : S → Option S → Outcome S) where
  load_layers-cons :
      (s : S) (ss loaded : List S)
      → load_layers new_memory new_sqlite new_files load (s ∷ ss) ≡ ok loaded
      → (others : List S) × (t : S) × (load_layers new_memory new_sqlite new_files load ss
          ≡ ok others)
        × (load s (last others) ≡ ok t)
        × (loaded ≡ t ∷ others)
  unfolding load_layers
  load_layers-cons s ss loaded h =
      let (others, loads, rest) =
        bind_ok (load_layers new_memory new_sqlite new_files load ss)
          (λ others. load s (last others) >>= λ t. ok (t ∷ others)) loaded h in
      let (t, fresh, end) = bind_ok (load s (last others)) (λ t. ok (t ∷ others)) loaded rest in
      (others, t, loads, fresh, sym (ok_injective (t ∷ others) loaded end))

  -- A layer before the last one was loaded from the last one.
  load_layers-at :
      (ss loaded : List S) (i : ℕ) (s' : S)
      → load_layers new_memory new_sqlite new_files load ss ≡ ok loaded
      → get_elem? loaded i ≡ some s'
      → suc i < length loaded
      → (s : S) × (get_elem? ss i ≡ some s) × (load s (last loaded) ≡ ok s')
  unfolding load_layers
  load_layers-at [] loaded i s' h at before =
      absurd (omega (arith, before, ap length (ok_injective [] loaded h)))
  load_layers-at (s ∷ ss) loaded zero s' h at before =
      let (others, t, loads, fresh, same) = load_layers-cons s ss loaded h in
      let behind : last loaded ≡ last others =
        ap last same ∙ last_behind t others (omega (arith, before, ap length same)) in
      (
        s,
        refl,
        ap (load s) behind
            ∙ fresh
            ∙ ap ok (some_injective t s' (sym (ap (λ l. get_elem? l zero) same) ∙ at)),
      )
  load_layers-at (s ∷ ss) loaded (suc i) s' h at before =
      let (others, t, loads, fresh, same) = load_layers-cons s ss loaded h in
      let behind : last loaded ≡ last others =
        ap last same ∙ last_behind t others (omega (arith, before, ap length same)) in
      let (p, there, from_root) =
        load_layers-at ss others i s' loads (sym (ap (λ l. get_elem? l (suc i)) same) ∙ at)
          (omega (arith, before, ap length same)) in
      (p, there, ap (load p) behind ∙ from_root)

module _ {D : Type 0} where
  -- A cache that has just been made is empty.
  abbrev IsUnfilled : Physical D → Type 0
  IsUnfilled (in_memory m) = m ≡ empty
  IsUnfilled (in_folder s) = Unit
  IsUnfilled (in_database d) = Unit

  All-snoc :
      (ps : List (Physical D)) (p : Physical D)
      → All IsUnfilled ps
      → IsUnfilled p
      → All IsUnfilled (ps ++ (p ∷ []))
  All-snoc [] p h k = (k, tt)
  All-snoc (q ∷ ps) p (h, hs) k = (h, All-snoc ps p hs k)

  All-at :
      (ps : List (Physical D)) (i : ℕ) (p : Physical D)
      → All IsUnfilled ps
      → get_elem? ps i ≡ some p
      → IsUnfilled p
  All-at [] i p h at = cc at
  All-at (q ∷ ps) zero p (h, hs) at = subst IsUnfilled (some_injective q p at) h
  All-at (q ∷ ps) (suc i) p (h, hs) at = All-at ps i p hs at

-- The constructors of the three layers: an empty cache, and a database and a disk with
-- whatever they hold.
module _ {D : Type 0} (db : Database D) (json : Json) (std : Std) (now : Time)
    (open_database : Text → Outcome D) (disk : Dict Text) where
  abbrev pub new_sqlite : Text → Outcome (Physical D)
  new_sqlite file = open_database file >>= λ d. ok (in_database d)

  abbrev pub new_files : Text → Text → Outcome (Physical D)
  new_files folder kind = new_filesystem_storage disk folder kind >>= λ s. ok (in_folder s)

  abbrev pub restarted : List LayerConfig → Outcome (Engine (Physical D))
  restarted = new_engine (ok (in_memory empty)) new_sqlite new_files (load_physical db json std now)

  abbrev made : LayerConfig → Outcome (Physical D)
  made = new_layer (ok (in_memory empty)) new_sqlite new_files (load_physical db json std now)

  new_layer-IsUnfilled : (cfg : LayerConfig) (p : Physical D) → made cfg ≡ ok p → IsUnfilled p
  unfolding new_layer
  new_layer-IsUnfilled cfg p h =
      let value_of : Text → Error → Outcome Text =
        parameter (ok (in_memory empty)) new_sqlite new_files (load_physical db json std now) cfg in
      elim (Bool-cases (cfg.kind == lit "MEMORY")) [
        | inl memory ↦ subst IsUnfilled (ok_injective (in_memory empty) p (rw memory at h)) refl
        | inr other ↦ elim (Bool-cases (cfg.kind == lit "SQLITE")) [
          | inl sqlite ↦
              let (file, given, opened) = bind_ok _ new_sqlite p (rw (other, sqlite) at h) in
              let (d, opens, same) =
                bind_ok (open_database file) (λ d. ok (in_database d)) p opened in
              subst IsUnfilled (ok_injective (in_database d) p same) tt
          | inr neither ↦ elim (Bool-cases (cfg.kind == lit "FILESYSTEM")) [
            | inl files ↦
                let (folder, given, rest) =
                  bind_ok
                    (value_of (lit "folder")
                      (failed (lit "missing folder parameter for FILESYSTEM storage")))
                    (λ folder.
                      value_of (lit "type")
                        (failed (lit "missing type parameter for FILESYSTEM storage"))
                      >>= new_files folder)
                    p (rw (other, neither, files) at h) in
                let (kind, named, opened) =
                  bind_ok
                    (value_of (lit "type")
                      (failed (lit "missing type parameter for FILESYSTEM storage")))
                    (new_files folder) p rest in
                let (s, opens, same) =
                  bind_ok (new_filesystem_storage disk folder kind) (λ s. ok (in_folder s)) p
                    opened in
                subst IsUnfilled (ok_injective (in_folder s) p same) tt
            | inr unknown ↦ cc (rw (other, neither, unknown) at h)
          ]
        ]
      ]

  add_layers-IsUnfilled :
      (cfgs : List LayerConfig) (e e' : Engine (Physical D))
      → add_layers
          (ok (in_memory empty))
          new_sqlite
          new_files
          (load_physical db json std now)
          cfgs
          e
        ≡ ok e'
      → All IsUnfilled e.all_layers
      → All IsUnfilled e'.all_layers
  unfolding add_layers add_layer
  add_layers-IsUnfilled [] e e' h new =
      subst (λ x. All IsUnfilled x.all_layers) (ok_injective e e' h) new
  add_layers-IsUnfilled (cfg ∷ cfgs) e e' h new =
      let (p, makes, rest) =
        bind_ok (made cfg)
          (λ p.
            add_layers (ok (in_memory empty)) new_sqlite new_files (load_physical db json std now)
              cfgs (add_layer cfg p e))
          e' h in
      add_layers-IsUnfilled cfgs (add_layer cfg p e) e' rest
        (All-snoc e.all_layers p new (new_layer-IsUnfilled cfg p makes))

  -- What a layer was that is a cache after its load.
  loaded_cache :
      (p : Physical D) (root : Physical D) (m : Memory)
      → IsUnfilled p
      → load_physical db json std now p (some root) ≡ ok (in_memory m)
      → Load.load (physical_layer db json std now) root empty ≡ ok m
  loaded_cache (in_memory m') root m new h =
      let (m'', loads, same) =
        bind_ok (Load.load (physical_layer db json std now) root m') (λ m'. ok (in_memory m'))
          (in_memory m) h in
      ap (Load.load (physical_layer db json std now) root) (sym new)
      ∙ loads
      ∙ ap (λ o. cache_of o) same
    where
      cache_of : Outcome (Physical D) → Outcome Memory
      cache_of (ok (in_memory m)) = ok m
      cache_of (ok (in_folder s)) = ok empty
      cache_of (ok (in_database d)) = ok empty
      cache_of (err e) = err e
  loaded_cache (in_folder s) root m new h = cc h
  loaded_cache (in_database d) root m new h =
      let (d', loads, same) =
        bind_ok (Sqlite.load db json std now (physical_layer db json std now) root d)
          (λ d'. ok (in_database d')) (in_memory m) h in
      cc same

  -- The program is started again over a root that has emails: if NewEngine returns an engine, then
  -- each memory layer in front of its last layer answers as that one does. For each email that the
  -- last layer lists it has the header (the last one with the id), the raw bytes and the attachment
  -- list that the last layer gives, and no other email.
  pub restarted-answers :
      (cfgs : List LayerConfig) (e : Engine (Physical D)) (i : ℕ) (m : Memory) (root : Physical D)
      (headers : List EmailHeader)
      → restarted cfgs ≡ ok e
      → get_elem? e.all_layers i ≡ some (in_memory m)
      → suc i < length e.all_layers
      → last e.all_layers ≡ some root
      → all_emails (physical_layer db json std now) root ≡ ok (some headers)
      → (id : Text)
      → let layer = physical_layer db json std now in
        (get_email_by_id m id ≡ header_or layer root id (last_with id headers))
        × (get_raw_email m id
            ≡ answer layer root id
                (lit "raw email")
                (is_listed id headers)
                (layer.get_raw_email root id))
        × (get_attachments_of m id
            ≡ answer layer root id
                (lit "email")
                (is_listed id headers)
                (layer.get_attachments root id))
  unfolding new_engine
  restarted-answers cfgs e i m root headers h at before from listed id =
      let load = load_physical db json std now in
      let (built, builds, rest) =
        bind_ok
          (add_layers (ok (in_memory empty)) new_sqlite new_files load (default_scopes cfgs)
            (empty_engine (Physical D)))
          (λ b. load_layers (ok (in_memory empty)) new_sqlite new_files load b.all_layers >>= λ l.
            ok (record b { all_layers = l }))
          e h in
      let (loaded, loads, end) =
        bind_ok (load_layers (ok (in_memory empty)) new_sqlite new_files load built.all_layers)
          (λ l. ok (record built { all_layers = l })) e rest in
      let same : loaded ≡ e.all_layers =
        ap (λ x. x.all_layers) (ok_injective (record built { all_layers = loaded }) e end) in
      let (p, there, from_root) =
        load_layers-at (ok (in_memory empty)) new_sqlite new_files load built.all_layers loaded i
          (in_memory m) loads (ap (λ l. get_elem? l i) same ∙ at)
          (omega (arith, before, ap length same)) in
      let new =
        All-at built.all_layers i p
          (add_layers-IsUnfilled (default_scopes cfgs) (empty_engine (Physical D)) built builds tt)
          there in
      load-answers (physical_layer db json std now) root id headers m listed
        (loaded_cache p root m new (sym (ap (load p) (ap last same ∙ from)) ∙ from_root))
