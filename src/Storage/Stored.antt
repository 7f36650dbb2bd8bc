-- ===== src/Storage/Stored.antt =====
-- The engine over layers that keep the raw bytes: what is stored through it can be read through it.
use mock_my_mta.Base.{
  Text, lit, eq_refl, ◌≡◌, refl, ap, ◌∙◌, sym, List, [], ◌∷◌, ◌++◌, Option, none, Bool, true,
  if◌then◌else◌, suc, length, map, keep, any, All, Outcome, ok, Error, Bool-cases, Option-cases,
  inl, inr, arith,
}
use mock_my_mta.Base.Int.{pos}
use mock_my_mta.Storage.{raw}
use mock_my_mta.Storage.Config.{LayerConfig, has_scope, is_writable}
use mock_my_mta.Storage.Layer.{Layer}
use mock_my_mta.Storage.Laws.{KeepsRaw}
use mock_my_mta.Storage.Engine.{Engine, set_with_id, get_raw_email}
use mock_my_mta.Storage.Engine.Routes.{select, change, Routed}
use mock_my_mta.Storage.Engine.Reads.{answered, first_or, asked, engine_reads}
use mock_my_mta.Storage.Engine.Writes.{
  real_error, head_error, errors_of, engine_write_errors, set_with_id_written,
}

abbrev pub has_raw : LayerConfig → Bool
has_raw cfg = has_scope cfg (lit "raw")

-- Each layer that answers for raw bytes also receives the writes.
abbrev pub WritesRaw : List LayerConfig → Type 0
WritesRaw cfgs = All (λ cfg. has_raw cfg ≡ true → is_writable cfg ≡ true) cfgs

pub none_of_head : (es : List Error) → head_error es ≡ none → es ≡ []
none_of_head [] h = refl
none_of_head (e ∷ es) h = cc h

append_is_nil : {A : Type 0} (xs ys : List A) → xs ++ ys ≡ [] → (xs ≡ []) × (ys ≡ [])
append_is_nil [] ys h = (refl, h)
append_is_nil (x ∷ xs) ys h = cc h

module _ {S : Type 0} (write : S → S × Option Error) where
  -- If no error of a writable layer counts, neither does that of the first one.
  pub errors-step :
      (cfg : LayerConfig) (cfgs : List LayerConfig) (s : S) (ss : List S)
      → errors_of write is_writable (cfg ∷ cfgs) (s ∷ ss) ≡ []
      → (is_writable cfg ≡ true → real_error (write s).1 ≡ [])
        × (errors_of write is_writable cfgs ss ≡ [])
  unfolding select
  errors-step cfg cfgs s ss h = elim (Bool-cases (is_writable cfg)) [
    | inl writes ↦
        let (here, others) =
          append_is_nil (real_error (write s).1) (errors_of write is_writable cfgs ss)
            (rw writes at h) in
        (λ _. here, others)
    | inr reads ↦ (λ w. cc, rw reads at h)
  ]

module _ {S : Type 0} (layer : Layer S) (laws : KeepsRaw layer) (id raw_email : Text) where
  abbrev write : S → S × Option Error
  write s = layer.set_with_id s id raw_email

  abbrev read : S → Outcome Text
  read s = layer.get_raw_email s id

  -- A layer whose error does not count has no error, and gives the bytes back.
  written-read : (s : S) → real_error (write s).1 ≡ [] → read (write s).0 ≡ ok raw_email
  written-read s h = elim (Option-cases (write s).1) [
    | inl fine ↦
        laws.get-set s id raw_email id fine
        ∙ ap (λ b. if b then ok raw_email else layer.get_raw_email s id) (eq_refl id)
    | inr (e, fails) ↦ cc (rw (fails, laws.set_implemented s id raw_email e fails) at h)
  ]

  first_read :
      (method : Text) (cfgs : List LayerConfig) (ss : List S)
      → length ss ≡ length cfgs
      → WritesRaw cfgs
      → any has_raw cfgs ≡ true
      → errors_of write is_writable cfgs ss ≡ []
      → first_or method (
          keep answered
            (map read (select has_raw cfgs (change is_writable (λ s. (write s).0) cfgs ss))))
        ≡ ok raw_email
  unfolding select change
  first_read method [] ss sizes w some_raw h = cc some_raw
  first_read method (cfg ∷ cfgs) [] sizes w some_raw h = absurd (omega arith)
  first_read method (cfg ∷ cfgs) (s ∷ ss) sizes (w, ws) some_raw h =
      let (fine, others) = errors-step write cfg cfgs s ss h in
      elim (Bool-cases (has_raw cfg)) [
        | inl asked_first ↦
            let writes = w asked_first in
            rw (asked_first, writes, written-read s (fine writes)) refl
        | inr passed ↦
            rw passed (first_read method cfgs ss (omega arith) ws (rw passed at some_raw) others)
      ]

pub change-length :
    {S : Type 0} (p : LayerConfig → Bool) (f : S → S) (cfgs : List LayerConfig) (ss : List S)
    → length (change p f cfgs ss) ≡ length ss
unfolding change
change-length p f [] ss = refl
change-length p f (cfg ∷ cfgs) [] = refl
change-length p f (cfg ∷ cfgs) (s ∷ ss) = ap suc (change-length p f cfgs ss)

-- If an email is stored through an engine without an error, then the engine gives its raw bytes back
-- as they were stored, for layers that keep the raw bytes and a configuration with a layer for raw
-- bytes in which each such layer also receives the writes.
pub get_raw_email-set_with_id :
    {S : Type 0} (layer : Layer S) (laws : KeepsRaw layer) (cfgs : List LayerConfig) (e : Engine S)
    → Routed cfgs e
    → WritesRaw cfgs
    → any has_raw cfgs ≡ true
    → (id raw_email : Text) → (set_with_id layer e id raw_email).1 ≡ none
    → get_raw_email layer (set_with_id layer e id raw_email).0 id ≡ ok raw_email
unfolding Routed asked
get_raw_email-set_with_id {S = S} layer laws cfgs e routed w some_raw id raw_email h =
    let write : S → S × Option Error = λ s. layer.set_with_id s id raw_email in
    let e' : Engine S = record e {
      all_layers = change is_writable (λ s. (write s).0) cfgs e.all_layers;
    } in
    let (len, reads, searches, writes, raws) = routed in
    let routed' : Routed cfgs e' = (
      change-length is_writable (λ s. (write s).0) cfgs e.all_layers ∙ len,
      reads,
      searches,
      writes,
      raws,
    ) in
    let (by_id, bodies, attachments, attachment, searched, names, raw_read) =
      engine_reads layer cfgs e' routed' id [] [] raw (pos 1) (pos 1) in
    let no_errors =
      none_of_head _ (sym (engine_write_errors layer cfgs e routed id raw_email).0 ∙ h) in
    ap (λ x. get_raw_email layer x id) (set_with_id_written layer cfgs e routed id raw_email h)
    ∙ raw_read
    ∙ first_read layer laws id raw_email (lit "GetRawEmail") cfgs e.all_layers len w some_raw
        no_errors
