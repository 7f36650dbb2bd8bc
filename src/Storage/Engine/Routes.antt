-- ===== src/Storage/Engine/Routes.antt =====
-- The routing tables of an engine that NewEngine has made (storage/engine.go), described without
-- positions: the layers whose configuration passes a test.
use mock_my_mta.Base.{
  Text, lit, ◌≡◌, refl, ap, ap₂, ◌∙◌, sym, List, [], ◌∷◌, ◌++◌, Bool, if◌then◌else◌, ℕ, suc, ◌+◌,
  length, Outcome, ok, ◌>>=◌, Option, some, arith, length-append, bind_ok, ok_injective, get_elem?,
  set, Bool-cases, inl, inr,
}
use mathlib.Core.List.{append_assoc, append-nil}
use mock_my_mta.Storage.Config.{LayerConfig, has_scope, is_writable}
use mock_my_mta.Storage.Engine.{
  Engine, append_if, add_layer, new_layer, add_layers, load_layers, default_scopes, new_engine,
  last, empty_engine,
}

-- The positions, from `k` on, of the configurations that pass a test.
unfoldable pub positions : (LayerConfig → Bool) → ℕ → List LayerConfig → List ℕ
positions p k [] = []
positions p k (cfg ∷ cfgs) = let rest = positions p (suc k) cfgs in if p cfg then k ∷ rest else rest

-- The layers whose configuration passes a test.
unfoldable pub select {ℓ} : {S : Type ℓ} → (LayerConfig → Bool) → List LayerConfig → List S → List S
select p [] ss = []
select p (cfg ∷ cfgs) [] = []
select p (cfg ∷ cfgs) (s ∷ ss) = let rest = select p cfgs ss in if p cfg then s ∷ rest else rest

-- What happens to the layers when those whose configuration passes a test are changed.
unfoldable pub change {ℓ} :
    {S : Type ℓ} → (LayerConfig → Bool) → (S → S) → List LayerConfig → List S → List S
change p f [] ss = ss
change p f (cfg ∷ cfgs) [] = []
change p f (cfg ∷ cfgs) (s ∷ ss) = (if p cfg then f s else s) ∷ change p f cfgs ss

-- The tables are those of the configurations, with one layer for each of them.
unfoldable pub Routed : {S : Type 0} → List LayerConfig → Engine S → Type 0
Routed cfgs e =
    (length e.all_layers ≡ length cfgs)
    × (e.read_layers ≡ positions (λ c. has_scope c (lit "read")) 0 cfgs)
    × (e.search_layers ≡ positions (λ c. has_scope c (lit "search")) 0 cfgs)
    × (e.write_layers ≡ positions is_writable 0 cfgs)
    × (e.raw_layers ≡ positions (λ c. has_scope c (lit "raw")) 0 cfgs)

append_if-positions :
    (p : LayerConfig → Bool) (cfg : LayerConfig) (cfgs : List LayerConfig) (n : ℕ) (table : List ℕ)
    → append_if (p cfg) n table ++ positions p (suc n) cfgs ≡ table ++ positions p n (cfg ∷ cfgs)
unfolding positions
append_if-positions p cfg cfgs n table = elim (Bool-cases (p cfg)) [
  | inl passes ↦ rw passes (append_assoc table (n ∷ []) (positions p (suc n) cfgs))
  | inr fails ↦ rw fails refl
]

-- The tables after the rounds of NewEngine, from those before.
Extended : {S : Type 0} → List LayerConfig → Engine S → Engine S → Type 0
Extended cfgs e e' =
    let n = length e.all_layers in
    (length e'.all_layers ≡ n + length cfgs)
    × (e'.read_layers ≡ e.read_layers ++ positions (λ c. has_scope c (lit "read")) n cfgs)
    × (e'.search_layers ≡ e.search_layers ++ positions (λ c. has_scope c (lit "search")) n cfgs)
    × (e'.write_layers ≡ e.write_layers ++ positions is_writable n cfgs)
    × (e'.raw_layers ≡ e.raw_layers ++ positions (λ c. has_scope c (lit "raw")) n cfgs)

module _ (p : LayerConfig → Bool) (cfg : LayerConfig) (cfgs : List LayerConfig) {n k : ℕ}
    (grown : k ≡ suc n) where
  table_step :
      (table : List ℕ)
      → append_if (p cfg) n table ++ positions p k cfgs ≡ table ++ positions p n (cfg ∷ cfgs)
  table_step table =
      ap (λ i. append_if (p cfg) n table ++ positions p i cfgs) grown
      ∙ append_if-positions p cfg cfgs n table

length-snoc : {S : Type 0} (ss : List S) (s : S) → length (ss ++ (s ∷ [])) ≡ suc (length ss)
length-snoc ss s = omega (arith, length-append ss (s ∷ []))

module _ {S : Type 0} (new_memory : Outcome S) (new_sqlite : Text → Outcome S)
    (new_files : Text → Text → Outcome S) (load : S → Option S → Outcome S) where
  add_layers-Extended :
      (cfgs : List LayerConfig) (e e' : Engine S)
      → add_layers new_memory new_sqlite new_files load cfgs e ≡ ok e'
      → Extended cfgs e e'
  unfolding add_layers add_layer Extended positions
  add_layers-Extended [] e e' h =
      let same = ok_injective e e' h in
      (
        omega (arith, ap (λ x. length x.all_layers) same),
        ap (λ x. x.read_layers) (sym same) ∙ sym (append-nil e.read_layers),
        ap (λ x. x.search_layers) (sym same) ∙ sym (append-nil e.search_layers),
        ap (λ x. x.write_layers) (sym same) ∙ sym (append-nil e.write_layers),
        ap (λ x. x.raw_layers) (sym same) ∙ sym (append-nil e.raw_layers),
      )
  add_layers-Extended (cfg ∷ cfgs) e e' h =
      let (s, made, rest) =
        bind_ok (new_layer new_memory new_sqlite new_files load cfg)
          (λ s. add_layers new_memory new_sqlite new_files load cfgs (add_layer cfg s e)) e' h in
      let (len, reads, searches, writes, raws) =
        add_layers-Extended cfgs (add_layer cfg s e) e' rest in
      let grown = length-snoc e.all_layers s in
      (
        omega (arith, len, grown),
        reads ∙ table_step (λ c. has_scope c (lit "read")) cfg cfgs grown e.read_layers,
        searches ∙ table_step (λ c. has_scope c (lit "search")) cfg cfgs grown e.search_layers,
        writes ∙ table_step is_writable cfg cfgs grown e.write_layers,
        raws ∙ table_step (λ c. has_scope c (lit "raw")) cfg cfgs grown e.raw_layers,
      )

  load_layers-length :
      (ss loaded : List S)
      → load_layers new_memory new_sqlite new_files load ss ≡ ok loaded
      → length loaded ≡ length ss
  unfolding load_layers
  load_layers-length [] loaded h = ap length (sym (ok_injective [] loaded h))
  load_layers-length (s ∷ ss) loaded h =
      let (others, loads, rest) =
        bind_ok (load_layers new_memory new_sqlite new_files load ss)
          (λ others. load s (last others) >>= λ s'. ok (s' ∷ others)) loaded h in
      let (s', fresh, end) = bind_ok (load s (last others)) (λ s'. ok (s' ∷ others)) loaded rest in
      ap length (sym (ok_injective (s' ∷ others) loaded end))
      ∙ ap suc (load_layers-length ss others loads)

  -- If NewEngine returns an engine, it has one layer for each configuration, and a layer stands in
  -- the table of the reads, of the searches, of the writes and of the raw reads exactly if its
  -- configuration has the scope (or is writable), an absent scope being "all".
  pub new_engine-Routed :
      (cfgs : List LayerConfig) (e : Engine S)
      → new_engine new_memory new_sqlite new_files load cfgs ≡ ok e
      → Routed (default_scopes cfgs) e
  unfolding new_engine Routed Extended
  new_engine-Routed cfgs e h =
      let (built, builds, rest) =
        bind_ok
          (add_layers new_memory new_sqlite new_files load (default_scopes cfgs) (empty_engine S))
          (λ b. load_layers new_memory new_sqlite new_files load b.all_layers >>= λ l.
            ok (record b { all_layers = l }))
          e h in
      let (loaded, loads, end) =
        bind_ok (load_layers new_memory new_sqlite new_files load built.all_layers)
          (λ l. ok (record built { all_layers = l })) e rest in
      let same = ok_injective (record built { all_layers = loaded }) e end in
      let (len, reads, searches, writes, raws) =
        add_layers-Extended (default_scopes cfgs) (empty_engine S) built builds in
      (
        ap (λ x. length x.all_layers) (sym same)
            ∙ load_layers-length built.all_layers loaded loads
            ∙ len
            ∙ omega arith,
        ap (λ x. x.read_layers) (sym same) ∙ reads,
        ap (λ x. x.search_layers) (sym same) ∙ searches,
        ap (λ x. x.write_layers) (sym same) ∙ writes,
        ap (λ x. x.raw_layers) (sym same) ∙ raws,
      )

-- What stands at a position, and what the next position has before it.
pub get_elem?-append :
    {S : Type 0} (pre : List S) (s : S) (ss : List S)
    → get_elem? (pre ++ (s ∷ ss)) (length pre) ≡ some s
get_elem?-append [] s ss = refl
get_elem?-append (t ∷ pre) s ss = get_elem?-append pre s ss

set-append :
    {S : Type 0} (pre : List S) (s s' : S) (ss : List S)
    → set (pre ++ (s ∷ ss)) (length pre) s' ≡ pre ++ (s' ∷ ss)
set-append [] s s' ss = refl
set-append (t ∷ pre) s s' ss = ap (λ r. t ∷ r) (set-append pre s s' ss)

module _ {S : Type 0} (pre ss layers : List S) (s : S) (k : ℕ) (same : layers ≡ pre ++ (s ∷ ss))
    (at : k ≡ length pre) where
  pub layer_here : get_elem? layers k ≡ some s
  layer_here = ap₂ get_elem? same at ∙ get_elem?-append pre s ss

  pub layer_next : (layers ≡ (pre ++ (s ∷ [])) ++ ss) × (suc k ≡ length (pre ++ (s ∷ [])))
  layer_next = (same ∙ sym (append_assoc pre (s ∷ []) ss), ap suc at ∙ sym (length-snoc pre s))

  pub layer_set :
      (s' : S) → (set layers k s' ≡ (pre ++ (s' ∷ [])) ++ ss) × (suc k ≡ length (pre ++ (s' ∷ [])))
  layer_set s' = (
    ap₂ (λ xs i. set xs i s') same at
        ∙ set-append pre s s' ss
        ∙ sym (append_assoc pre (s' ∷ []) ss),
    ap suc at ∙ sym (length-snoc pre s'),
  )
