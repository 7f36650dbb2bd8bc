-- ===== src/Storage/Engine/Writes.antt =====
-- What the writes of an engine change, and the errors that they report (storage/engine.go).
use mock_my_mta.Base.{
  Text, ◌≡◌, refl, ap, ap₂, ◌∙◌, sym, List, [], ◌∷◌, ◌++◌, Bool, if◌then◌else◌, ℕ, suc, length, map,
  Error, Option, none, some, arith, set, Bool-cases, inl, inr,
}
use mathlib.Core.List.{append_assoc}
use mathlib.Core.Path.{subst}
use mock_my_mta.Storage.Config.{LayerConfig, is_writable}
use mock_my_mta.Storage.Layer.{Layer}
use mock_my_mta.Storage.Engine.{
  Engine, write_until, write_all, is_unimplemented, report, delete_all_emails, delete_email_by_id,
  set_with_id,
}
use mock_my_mta.Storage.Engine.Routes.{
  positions, select, change, Routed, layer_here, layer_next, layer_set,
}

-- The errors that a write reports.
abbrev pub real_error : Option Error → List Error
real_error none = []
real_error (some e) = if is_unimplemented e then [] else e ∷ []

abbrev pub real_errors : List (Option Error) → List Error
real_errors [] = []
real_errors (error ∷ errors) = real_error error ++ real_errors errors

abbrev pub head_error : List Error → Option Error
head_error [] = none
head_error (e ∷ es) = some e

-- The step of the loop that ends at the first error, when the rest of the loop is known.
carried :
    {L : Type 0} (error : Option Error) (layers : L) (rest : L × Option Error) (errors : List Error)
    (final : L)
    → rest.1 ≡ head_error errors
    → (rest.1 ≡ none → rest.0 ≡ final)
    → let result : L × Option Error = elim error [
      | none ↦ rest
      | some e ↦ if is_unimplemented e then rest else (layers, some e)
    ] in
      (result.1 ≡ head_error (real_error error ++ errors)) × (result.1 ≡ none → result.0 ≡ final)
carried none layers rest errors final h k = (h, k)
carried (some e) layers rest errors final h k = elim (Bool-cases (is_unimplemented e)) [
  | inl skipped ↦ rw skipped (h, k)
  | inr real ↦ rw real (refl, λ none_is. cc none_is)
]

module _ {S : Type 0} (write : S → S × Option Error) (p : LayerConfig → Bool) where
  abbrev pub errors_of : List LayerConfig → List S → List Error
  errors_of cfgs ss = real_errors (map (λ s. (write s).1) (select p cfgs ss))

  collected :
      (error : Option Error) (errors : List Error)
      → (elim error [ none ↦ errors | some e ↦ if is_unimplemented e then errors else e ∷ errors ])
        ≡ real_error error ++ errors
  collected none errors = refl
  collected (some e) errors = elim (Bool-cases (is_unimplemented e)) [
    | inl skipped ↦ rw skipped refl
    | inr real ↦ rw real refl
  ]

  write_all-change :
      (cfgs : List LayerConfig) (pre ss layers : List S) (k : ℕ)
      → layers ≡ pre ++ ss
      → k ≡ length pre
      → length ss ≡ length cfgs
      → write_all write layers (positions p k cfgs)
        ≡ (pre ++ change p (λ s. (write s).0) cfgs ss, errors_of cfgs ss)
  unfolding positions select change write_all
  write_all-change [] pre ss layers k same at sizes = ap (λ l. (l, [])) same
  write_all-change (cfg ∷ cfgs) pre [] layers k same at sizes = absurd (omega arith)
  write_all-change (cfg ∷ cfgs) pre (s ∷ ss) layers k same at sizes =
      let here = layer_here pre ss layers s k same at in
      elim (Bool-cases (p cfg)) [
        | inr fails ↦
            let (same', at') = layer_next pre ss layers s k same at in
            let next =
              write_all-change cfgs (pre ++ (s ∷ [])) ss layers (suc k) same' at' (omega arith) in
            rw fails (next ∙ ap (λ l. (l, errors_of cfgs ss)) (append_assoc pre (s ∷ []) _))
        | inl passes ↦
            let s' = (write s).0 in
            let (same', at') = layer_set pre ss layers s k same at s' in
            let next =
              write_all-change cfgs (pre ++ (s' ∷ [])) ss (set layers k s') (suc k) same' at'
                (omega arith) in
            rw (passes, write_all, here)
              (ap₂ (λ a b. (a, b)) (ap (λ r. r.0) next ∙ append_assoc pre (s' ∷ []) _)
                (collected (write s).1 _ ∙ ap (λ r. real_error (write s).1 ++ r.1) next))
      ]

  -- The layers and the error of the loop that ends at the first error.
  Until : List LayerConfig → List S → List S → List S × Option Error → Type 0
  Until cfgs pre ss result =
      (result.1 ≡ head_error (errors_of cfgs ss))
      × (result.1 ≡ none → result.0 ≡ pre ++ change p (λ s. (write s).0) cfgs ss)

  write_until-Until :
      (cfgs : List LayerConfig) (pre ss layers : List S) (k : ℕ)
      → layers ≡ pre ++ ss
      → k ≡ length pre
      → length ss ≡ length cfgs
      → Until cfgs pre ss (write_until write layers (positions p k cfgs))
  unfolding positions select change write_until Until
  write_until-Until [] pre ss layers k same at sizes = (refl, λ _. same)
  write_until-Until (cfg ∷ cfgs) pre [] layers k same at sizes = absurd (omega arith)
  write_until-Until (cfg ∷ cfgs) pre (s ∷ ss) layers k same at sizes =
      let here = layer_here pre ss layers s k same at in
      elim (Bool-cases (p cfg)) [
        | inr fails ↦
            let (same', at') = layer_next pre ss layers s k same at in
            let (error, state) =
              write_until-Until cfgs (pre ++ (s ∷ [])) ss layers (suc k) same' at' (omega arith) in
            rw fails (error, λ h. state h ∙ append_assoc pre (s ∷ []) _)
        | inl passes ↦
            let s' = (write s).0 in
            let (same', at') = layer_set pre ss layers s k same at s' in
            let (error, state) =
              write_until-Until cfgs (pre ++ (s' ∷ [])) ss (set layers k s') (suc k) same' at'
                (omega arith) in
            rw (passes, write_until, here)
              (carried (write s).1 (set layers k s') _ _ _ error
                (λ h. state h ∙ append_assoc pre (s' ∷ []) _))
      ]

module _ {S : Type 0} (layer : Layer S) (cfgs : List LayerConfig) (e : Engine S)
    (routed : Routed cfgs e) where
  -- In an engine with the tables of its configuration, DeleteAllEmails asks every writable layer,
  -- also after an error, and changes no other layer; it reports all errors but "unimplemented", in
  -- the order of the layers, or none if there is none.
  pub delete_all_emails_writes : delete_all_emails layer e ≡ (
    record e {
      all_layers = change is_writable (λ s. (layer.delete_all_emails s).0) cfgs e.all_layers;
    },
    report (errors_of layer.delete_all_emails is_writable cfgs e.all_layers),
  )
  unfolding delete_all_emails Routed
  delete_all_emails_writes =
      let (len, reads, searches, writes, raws) = routed in
      let run =
        ap (write_all layer.delete_all_emails e.all_layers) writes
        ∙ write_all-change layer.delete_all_emails is_writable cfgs [] e.all_layers e.all_layers 0
            refl refl len in
      ap (λ r. (record e { all_layers = r.0 }, report r.1)) run

  until :
      (write : S → S × Option Error)
      → Until write is_writable cfgs [] e.all_layers (write_until write e.all_layers e.write_layers)
  unfolding Routed
  until write =
      let (len, reads, searches, writes, raws) = routed in
      subst (λ t. Until write is_writable cfgs [] e.all_layers (write_until write e.all_layers t))
        (sym writes)
        (write_until-Until write is_writable cfgs [] e.all_layers e.all_layers 0 refl refl len)

  -- In an engine with the tables of its configuration, setWithID and DeleteEmailByID return the
  -- first error, in the order of the layers, that a writable layer reports and that is not
  -- "unimplemented"; no error exactly if there is none.
  pub engine_write_errors :
      (id raw_email : Text)
      → ((set_with_id layer e id raw_email).1
          ≡ head_error
              (errors_of (λ s. layer.set_with_id s id raw_email) is_writable cfgs e.all_layers))
        × ((delete_email_by_id layer e id).1
            ≡ head_error
                (errors_of (λ s. layer.delete_email_by_id s id) is_writable cfgs e.all_layers))
  unfolding set_with_id delete_email_by_id Until
  engine_write_errors id raw_email = (
    (until (λ s. layer.set_with_id s id raw_email)).0,
    (until (λ s. layer.delete_email_by_id s id)).0,
  )

  -- In an engine with the tables of its configuration: if setWithID reports no error, then every
  -- writable layer is as its own setWithID leaves it, and all other layers, and the routing tables,
  -- are as they were.
  pub set_with_id_written :
      (id raw_email : Text)
      → (set_with_id layer e id raw_email).1 ≡ none
      → (set_with_id layer e id raw_email).0 ≡ record e {
        all_layers =
            change is_writable (λ s. (layer.set_with_id s id raw_email).0) cfgs e.all_layers;
      }
  unfolding set_with_id Until
  set_with_id_written id raw_email h =
      ap (λ l. record e { all_layers = l }) ((until (λ s. layer.set_with_id s id raw_email)).1 h)

  -- Likewise for DeleteEmailByID.
  pub delete_email_by_id_written :
      (id : Text)
      → (delete_email_by_id layer e id).1 ≡ none
      → (delete_email_by_id layer e id).0 ≡ record e {
        all_layers = change is_writable (λ s. (layer.delete_email_by_id s id).0) cfgs e.all_layers;
      }
  unfolding delete_email_by_id Until
  delete_email_by_id_written id h =
      ap (λ l. record e { all_layers = l }) ((until (λ s. layer.delete_email_by_id s id)).1 h)
