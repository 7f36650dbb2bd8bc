-- ===== src/Storage/Engine/Reads.antt =====
-- Which layer answers a read (storage/engine.go).
use mock_my_mta.Base.{
  Text, lit, ◌≡◌, refl, ap, ◌∙◌, List, [], ◌∷◌, ◌++◌, Bool, true, not, if◌then◌else◌, ℕ, suc,
  length, map, Outcome, ok, err, failed, arith, keep, Bool-cases, inl, inr,
}
use mock_my_mta.Base.Int.{ℤ}
use mock_my_mta.Storage.{Version}
use mock_my_mta.Storage.Config.{LayerConfig, has_scope}
use mock_my_mta.Storage.Layer.{Layer}
use mock_my_mta.Storage.Engine.{
  Engine, first_match, is_unimplemented, get_email_by_id, get_body_version, get_attachments,
  get_attachment, search_emails, get_mailboxes, get_raw_email,
}
use mock_my_mta.Storage.Engine.Routes.{positions, select, Routed, layer_here, layer_next}

-- An answer, or an error that is not "unimplemented".
abbrev pub answered {ℓ} : {A : Type ℓ} → Outcome A → Bool
answered (ok a) = true
answered (err e) = not (is_unimplemented e)

-- The first answer.
abbrev pub first_or {ℓ} : {A : Type ℓ} → Text → List (Outcome A) → Outcome A
first_or method [] = err (failed (lit "no storage layer implements " ++ method))
first_or method (answer ∷ answers) = answer

module _ {S : Type 0} {A : Type 0} (method : Text) (call : S → Outcome A)
    (p : LayerConfig → Bool) where
  answer :
      (o rest : Outcome A) (answers : List (Outcome A))
      → rest ≡ first_or method answers
      → (elim o [ ok a ↦ ok a | err e ↦ if is_unimplemented e then rest else err e ])
        ≡ first_or method (if answered o then o ∷ answers else answers)
  answer (ok a) rest answers next = refl
  answer (err e) rest answers next = elim (Bool-cases (is_unimplemented e)) [
    | inl skipped ↦ rw skipped next
    | inr real ↦ rw real refl
  ]

  first_match-select :
      (cfgs : List LayerConfig) (pre ss layers : List S) (k : ℕ)
      → layers ≡ pre ++ ss
      → k ≡ length pre
      → length ss ≡ length cfgs
      → first_match method call layers (positions p k cfgs)
        ≡ first_or method (keep answered (map call (select p cfgs ss)))
  unfolding first_match positions select
  first_match-select [] pre ss layers k same at sizes = refl
  first_match-select (cfg ∷ cfgs) pre [] layers k same at sizes = absurd (omega arith)
  first_match-select (cfg ∷ cfgs) pre (s ∷ ss) layers k same at sizes =
      let here = layer_here pre ss layers s k same at in
      let (same', at') = layer_next pre ss layers s k same at in
      let next =
        first_match-select cfgs (pre ++ (s ∷ [])) ss layers (suc k) same' at' (omega arith) in
      elim (Bool-cases (p cfg)) [
        | inr fails ↦ rw fails next
        | inl passes ↦
            rw (passes, first_match, here)
              (answer (call s) _ (keep answered (map call (select p cfgs ss))) next)
      ]

-- The first answer among the layers with a scope; an error that names the method if there is none.
unfoldable pub asked :
    {S A : Type 0} → List LayerConfig → Engine S → Text → Text → (S → Outcome A) → Outcome A
asked cfgs e scope method call =
    first_or method (keep answered (map call (select (λ c. has_scope c scope) cfgs e.all_layers)))

module _ {S : Type 0} (layer : Layer S) (cfgs : List LayerConfig) (e : Engine S)
    (routed : Routed cfgs e) where
  first_match-asked :
      {A : Type 0} (scope method : Text) (call : S → Outcome A) (table : List ℕ)
      → table ≡ positions (λ c. has_scope c scope) 0 cfgs
      → first_match method call e.all_layers table ≡ asked cfgs e scope method call
  unfolding Routed asked
  first_match-asked scope method call table routes =
      ap (first_match method call e.all_layers) routes
      ∙ first_match-select method call (λ c. has_scope c scope) cfgs [] e.all_layers e.all_layers 0
          refl refl routed.0

  -- Each reading method of an engine with the tables of its configuration gives the first answer,
  -- in the order of the configuration, of the layers with the method's scope ("read", "search" or
  -- "raw"). An "unimplemented" error is not an answer and every other error is; where no layer
  -- answers, the error says that none implements the method.
  pub engine_reads :
      (id attachment query : Text) (version : Version) (page size : ℤ)
      → (get_email_by_id layer e id
          ≡ asked cfgs e (lit "read") (lit "GetEmailByID") (λ s. layer.get_email_by_id s id))
        × (get_body_version layer e id version
            ≡ asked cfgs e
                (lit "read")
                (lit "GetBodyVersion")
                (λ s. layer.get_body_version s id version))
        × (get_attachments layer e id
            ≡ asked cfgs e (lit "read") (lit "GetAttachments") (λ s. layer.get_attachments s id))
        × (get_attachment layer e id attachment
            ≡ asked cfgs e
                (lit "read")
                (lit "GetAttachment")
                (λ s. layer.get_attachment s id attachment))
        × (search_emails layer e query page size
            ≡ asked cfgs e
                (lit "search")
                (lit "SearchEmails")
                (λ s. layer.search_emails s query page size))
        × (get_mailboxes layer e
            ≡ asked cfgs e (lit "search") (lit "GetMailboxes") (λ s. layer.get_mailboxes s))
        × (get_raw_email layer e id
            ≡ asked cfgs e (lit "raw") (lit "GetRawEmail") (λ s. layer.get_raw_email s id))
  unfolding Routed get_email_by_id get_body_version get_attachments get_attachment search_emails
      get_mailboxes get_raw_email
  engine_reads id attachment query version page size =
      let (len, reads, searches, writes, raws) = routed in
      (
        first_match-asked (lit "read") (lit "GetEmailByID") _ e.read_layers reads,
        first_match-asked (lit "read") (lit "GetBodyVersion") _ e.read_layers reads,
        first_match-asked (lit "read") (lit "GetAttachments") _ e.read_layers reads,
        first_match-asked (lit "read") (lit "GetAttachment") _ e.read_layers reads,
        first_match-asked (lit "search") (lit "SearchEmails") _ e.search_layers searches,
        first_match-asked (lit "search") (lit "GetMailboxes") _ e.search_layers searches,
        first_match-asked (lit "raw") (lit "GetRawEmail") _ e.raw_layers raws,
      )
