-- ===== src/Storage/Gone.antt =====
-- Emails that an engine does not have: what its methods make of their absence.
pub mod Layers
use mathlib.Core.Path.{subst}
use mock_my_mta.Base.{
  Text, lit, ◌==◌, ◌≡◌, refl, ap, ◌∙◌, sym, List, [], ◌∷◌, ◌++◌, Option, none, some, Bool, true,
  false, if◌then◌else◌, ℕ, zero, suc, length, map, get_elem?, set, All, Outcome, ok, err, is_ok,
  Error, failed, panicked, Bool-cases, Option-cases, inl, inr, some_injective, arith,
}
use mock_my_mta.Storage.Config.{LayerConfig, is_writable}
use mock_my_mta.Storage.Layer.{Layer}
use mock_my_mta.Storage.Laws.{ForgetsRaw}
use mock_my_mta.Storage.Others.{KeepsOthers}
use mock_my_mta.Storage.Engine.{
  Engine, is_unimplemented, first_match, write_until, write_all, get_raw_email, set_with_id,
  delete_email_by_id, delete_all_emails,
}
use mock_my_mta.Storage.Engine.Places.{
  HoldsAt, Below-HoldsAt, write_until-Below, write_all-Below, first_match-Fails, positions-HoldsAt,
}
use mock_my_mta.Storage.Engine.Routes.{Routed, positions, select, change, layer_here, layer_next}
use mock_my_mta.Storage.Engine.Writes.{
  real_error, errors_of, engine_write_errors, delete_email_by_id_written,
}
use mock_my_mta.Storage.Stored.{WritesRaw, has_raw, errors-step, none_of_head, change-length}

-- A layer in which a deletion, also one that fails, brings no raw bytes back.
pub record NeverRestores {S : Type 0} (layer : Layer S) : Type 0 where
  pub delete_absent :
      (s : S) (id j : Text)
      → is_ok (layer.get_raw_email s j) ≡ false
      → is_ok (layer.get_raw_email (layer.delete_email_by_id s id).0 j) ≡ false
  pub delete_all_absent :
      (s : S) (j : Text)
      → is_ok (layer.get_raw_email s j) ≡ false
      → is_ok (layer.get_raw_email (layer.delete_all_emails s).0 j) ≡ false

module _ {S : Type 0} (layer : Layer S) (id : Text) where
  abbrev pub Absent : S → Type 0
  Absent s = is_ok (layer.get_raw_email s id) ≡ false

  -- No layer that the engine asks for raw bytes has those of the email.
  abbrev pub IsGone : Engine S → Type 0
  IsGone e = HoldsAt Absent e.all_layers e.raw_layers

  pub IsGone-read : (e : Engine S) → IsGone e → is_ok (get_raw_email layer e id) ≡ false
  unfolding get_raw_email
  IsGone-read e =
      first_match-Fails (lit "GetRawEmail") (λ s. layer.get_raw_email s id) e.all_layers
        e.raw_layers

  -- Storing another email, and any deletion, leaves it gone.
  pub set-IsGone :
      KeepsOthers layer
      → (e : Engine S) (other raw_email : Text) → (other == id) ≡ false
      → IsGone e
      → IsGone (set_with_id layer e other raw_email).0
  unfolding set_with_id
  set-IsGone laws e other raw_email differs = Below-HoldsAt Absent e.all_layers _ e.raw_layers (
      write_until-Below Absent (λ s. layer.set_with_id s other raw_email)
        (λ s absent. ap is_ok (laws.kept s other raw_email id differs) ∙ absent) e.all_layers
        e.write_layers)

  pub delete-IsGone :
      NeverRestores layer
      → (e : Engine S) (other : Text) → IsGone e
      → IsGone (delete_email_by_id layer e other).0
  unfolding delete_email_by_id
  delete-IsGone laws e other = Below-HoldsAt Absent e.all_layers _ e.raw_layers (
      write_until-Below Absent (λ s. layer.delete_email_by_id s other)
        (λ s absent. laws.delete_absent s other id absent) e.all_layers e.write_layers)

  pub delete_all-IsGone :
      NeverRestores layer → (e : Engine S) → IsGone e → IsGone (delete_all_emails layer e).0
  unfolding delete_all_emails
  delete_all-IsGone laws e = Below-HoldsAt Absent e.all_layers _ e.raw_layers (
      write_all-Below Absent layer.delete_all_emails
        (λ s absent. laws.delete_all_absent s id absent) e.all_layers e.write_layers)

  module _ (laws : ForgetsRaw layer) where
    abbrev delete : S → S × Option Error
    delete s = layer.delete_email_by_id s id

    deleted-Absent : (s : S) → real_error (delete s).1 ≡ [] → Absent (delete s).0
    deleted-Absent s h = elim (Option-cases (delete s).1) [
      | inl fine ↦ laws.get-delete s id fine
      | inr (e, fails) ↦ cc (rw (fails, laws.delete_implemented s id e fails) at h)
    ]

    All-Absent :
        (cfgs : List LayerConfig) (ss : List S)
        → WritesRaw cfgs
        → errors_of delete is_writable cfgs ss ≡ []
        → All Absent (select has_raw cfgs (change is_writable (λ s. (delete s).0) cfgs ss))
    unfolding select change
    All-Absent [] ss w h = tt
    All-Absent (cfg ∷ cfgs) [] w h = tt
    All-Absent (cfg ∷ cfgs) (s ∷ ss) (w, ws) h =
        let (fine, others) = errors-step delete cfg cfgs s ss h in
        let rest = All-Absent cfgs ss ws others in
        elim (Bool-cases (has_raw cfg)) [
          | inl asked ↦
              let writes = w asked in rw (asked, writes) (deleted-Absent s (fine writes), rest)
          | inr passed ↦ rw passed rest
        ]

    -- An email that is deleted without an error is gone.
    pub delete_email_by_id-IsGone :
        (cfgs : List LayerConfig) (e : Engine S)
        → Routed cfgs e
        → WritesRaw cfgs
        → (delete_email_by_id layer e id).1 ≡ none
        → IsGone (delete_email_by_id layer e id).0
    unfolding Routed
    delete_email_by_id-IsGone cfgs e routed w h =
        let (len, reads, searches, writes, raws) = routed in
        let no_errors =
          none_of_head _ (sym (engine_write_errors layer cfgs e routed id []).1 ∙ h) in
        let layers' = change is_writable (λ s. (delete s).0) cfgs e.all_layers in
        subst IsGone (sym (delete_email_by_id_written layer cfgs e routed id h)) (
          subst (HoldsAt Absent layers') (sym raws) (
            positions-HoldsAt Absent has_raw cfgs [] layers' layers' 0
              (change-length is_writable (λ s. (delete s).0) cfgs e.all_layers ∙ len) refl refl
              (All-Absent cfgs e.all_layers w no_errors)))
