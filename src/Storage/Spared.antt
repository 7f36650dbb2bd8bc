-- ===== src/Storage/Spared.antt =====
-- The deletion of an email through the engine, for the other emails.
use mock_my_mta.Base.{
  some_injective, Text, lit, ◌≡◌, refl, ap, ap₂, ◌∙◌, sym, List, [], ◌∷◌, Option, none, some,
  if◌then◌else◌, ℕ, zero, suc, map, get_elem?, set, Outcome, ok, err, Error, panicked,
}
use mock_my_mta.Storage.Layer.{Layer}
use mock_my_mta.Storage.Laws.{SparesOthers}
use mock_my_mta.Storage.Engine.{
  is_unimplemented, first_match, write_until, get_raw_email, delete_email_by_id,
}
use mock_my_mta.Storage.Engine.Loops.{write_until-keeps}
use mock_my_mta.Storage.Engine.Service.{engine_layer}

module _ {S : Type 0} {B : Type 0} (read : S → B) where
  -- Putting a layer in the place of one that reads the same.
  map-set :
      (layers : List S) (i : ℕ) (s s' : S)
      → get_elem? layers i ≡ some s
      → read s' ≡ read s
      → map read (set layers i s') ≡ map read layers
  map-set [] i s s' at same = refl
  map-set (l ∷ layers) zero s s' at same =
      ap (λ b. b ∷ map read layers) (same ∙ ap read (some_injective s l (sym at)))
  map-set (l ∷ layers) (suc i) s s' at same = ap (λ bs. read l ∷ bs) (map-set layers i s s' at same)

  abbrev map_option : Option S → Option B
  map_option none = none
  map_option (some s) = some (read s)

  map-get_elem? :
      (layers : List S) (i : ℕ) → map_option (get_elem? layers i) ≡ get_elem? (map read layers) i
  map-get_elem? [] i = refl
  map-get_elem? (l ∷ layers) zero = refl
  map-get_elem? (l ∷ layers) (suc i) = map-get_elem? layers i

  -- The loop over the writable layers, with a write that no read sees.
  module _ (write : S → S × Option Error) (unseen : (s : S) → read (write s).0 ≡ read s) where
    pub write_until-unseen :
        (is : List ℕ) (layers : List S) → map read (write_until write layers is).0 ≡ map read layers
    write_until-unseen is layers =
        write_until-keeps write (λ ss ts. map read ts ≡ map read ss) (λ ss. refl)
          (λ ss ts us a b. b ∙ a) (λ ss i s here. map-set ss i s (write s).0 here (unseen s)) layers
          is

-- The first answer depends only on what the layers answer.
module _ {S : Type 0} {A : Type 0} (method : Text) (call : S → Outcome A) where
  abbrev next_answer : Option (Outcome A) → Outcome A → Outcome A
  next_answer none rest = err panicked
  next_answer (some (ok a)) rest = ok a
  next_answer (some (err e)) rest = if is_unimplemented e then rest else err e

  first_match-next :
      (layers : List S) (i : ℕ) (is : List ℕ)
      → first_match method call layers (i ∷ is)
        ≡ next_answer (get_elem? (map call layers) i) (first_match method call layers is)
  unfolding first_match
  first_match-next layers i is =
      at (get_elem? layers i)
      ∙ ap (λ o. next_answer o (first_match method call layers is)) (map-get_elem? call layers i)
    where
      answer :
          (o : Outcome A) (rest : Outcome A)
          → (elim o [ ok a ↦ ok a | err e ↦ if is_unimplemented e then rest else err e ])
            ≡ next_answer (some o) rest
      answer (ok a) rest = refl
      answer (err e) rest = refl

      at :
          (o : Option S)
          → (elim o [
            | none ↦ err panicked
            | some s ↦ elim (call s) [
              | ok a ↦ ok a
              | err e ↦ if is_unimplemented e then first_match method call layers is else err e
            ]
          ])
            ≡ next_answer (map_option call o) (first_match method call layers is)
      at none = refl
      at (some s) = answer (call s) (first_match method call layers is)

  pub first_match-answers :
      (is : List ℕ) (layers layers' : List S)
      → map call layers ≡ map call layers'
      → first_match method call layers is ≡ first_match method call layers' is
  unfolding first_match
  first_match-answers [] layers layers' same = refl
  first_match-answers (i ∷ is) layers layers' same =
      first_match-next layers i is
      ∙ ap₂ (λ answers rest. next_answer (get_elem? answers i) rest) same
          (first_match-answers is layers layers' same)
      ∙ sym (first_match-next layers' i is)

-- An engine over layers that spare the other emails spares them itself, whatever its tables are.
pub engine-SparesOthers :
    {S : Type 0} (layer : Layer S) → SparesOthers layer → SparesOthers (engine_layer layer)
unfolding get_raw_email delete_email_by_id
engine-SparesOthers layer laws = record {
  spared = λ e id j other.
      first_match-answers (lit "GetRawEmail") (λ s. layer.get_raw_email s j) e.raw_layers _
        e.all_layers
        (write_until-unseen (λ s. layer.get_raw_email s j) (λ s. layer.delete_email_by_id s id)
          (λ s. laws.spared s id j other) e.write_layers e.all_layers);
}
