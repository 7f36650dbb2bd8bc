-- ===== src/Storage/Engine/Places.antt =====
-- What is true of the layers at some positions of an engine: what writes and answers make of it.
use mathlib.Core.Path.{subst}
use mock_my_mta.Base.{
  Text, ◌≡◌, refl, sym, List, [], ◌∷◌, ◌++◌, Option, none, some, Bool, false, if◌then◌else◌, ℕ,
  zero, suc, length, get_elem?, set, All, Outcome, ok, err, is_ok, Error, Bool-cases, Option-cases,
  inl, inr, some_injective, arith,
}
use mock_my_mta.Storage.Config.{LayerConfig}
use mock_my_mta.Storage.Engine.{is_unimplemented, first_match, write_until, write_all}
use mock_my_mta.Storage.Engine.Loops.{write_until-keeps, write_all-keeps}
use mock_my_mta.Storage.Engine.Routes.{positions, select, layer_here, layer_next}

-- What is true of a layer remains true of the one in its place.
module _ {S : Type 0} (P : S → Type 0) where
  abbrev Below : List S → List S → Type 0
  Below [] [] = Unit
  Below [] (t ∷ ts) = ⊥
  Below (s ∷ ss) [] = ⊥
  Below (s ∷ ss) (t ∷ ts) = (P s → P t) × Below ss ts

  Below-same : (ss : List S) → Below ss ss
  Below-same [] = tt
  Below-same (s ∷ ss) = (λ p. p, Below-same ss)

  Below-next : (ss ts us : List S) → Below ss ts → Below ts us → Below ss us
  Below-next [] [] us a b = b
  Below-next [] (t ∷ ts) us a b = absurd a
  Below-next (s ∷ ss) [] us a b = absurd a
  Below-next (s ∷ ss) (t ∷ ts) [] a b = absurd b
  Below-next (s ∷ ss) (t ∷ ts) (u ∷ us) (f, fs) (g, gs) = (λ p. g (f p), Below-next ss ts us fs gs)

  Below-set :
      (ss : List S) (i : ℕ) (s s' : S)
      → get_elem? ss i ≡ some s
      → (P s → P s')
      → Below ss (set ss i s')
  Below-set [] i s s' at f = tt
  Below-set (t ∷ ss) zero s s' at f = (λ p. f (subst P (some_injective t s at) p), Below-same ss)
  Below-set (t ∷ ss) (suc i) s s' at f = (λ p. p, Below-set ss i s s' at f)

  abbrev HoldsIf : Option S → Type 0
  HoldsIf none = Unit
  HoldsIf (some s) = P s

  -- It is true of the layers at some positions.
  abbrev pub HoldsAt : List S → List ℕ → Type 0
  HoldsAt layers = All (λ i. HoldsIf (get_elem? layers i))

  Below-at :
      (ss ts : List S) (i : ℕ) → Below ss ts → HoldsIf (get_elem? ss i) → HoldsIf (get_elem? ts i)
  Below-at [] [] i b h = tt
  Below-at [] (t ∷ ts) i b h = absurd b
  Below-at (s ∷ ss) [] i b h = absurd b
  Below-at (s ∷ ss) (t ∷ ts) zero (f, b) h = f h
  Below-at (s ∷ ss) (t ∷ ts) (suc i) (f, b) h = Below-at ss ts i b h

  pub Below-HoldsAt : (ss ts : List S) (is : List ℕ) → Below ss ts → HoldsAt ss is → HoldsAt ts is
  Below-HoldsAt ss ts [] b h = tt
  Below-HoldsAt ss ts (i ∷ is) b (h, hs) = (Below-at ss ts i b h, Below-HoldsAt ss ts is b hs)

  module _ (write : S → S × Option Error) (keeps : (s : S) → P s → P (write s).0) where
    pub write_until-Below :
        (layers : List S) (is : List ℕ) → Below layers (write_until write layers is).0
    write_until-Below =
        write_until-keeps write Below Below-same Below-next
          (λ ss i s here. Below-set ss i s (write s).0 here (keeps s))

    pub write_all-Below :
        (layers : List S) (is : List ℕ) → Below layers (write_all write layers is).0
    write_all-Below =
        write_all-keeps write Below Below-same Below-next
          (λ ss i s here. Below-set ss i s (write s).0 here (keeps s))

-- A first answer is no success if none of the layers that are asked has one.
module _ {S : Type 0} {A : Type 0} (method : Text) (call : S → Outcome A) where
  abbrev Fails : S → Type 0
  Fails s = is_ok (call s) ≡ false

  next_fails :
      (o : Outcome A) (rest : Outcome A)
      → is_ok o ≡ false
      → is_ok rest ≡ false
      → is_ok (elim o as (λ _. Outcome A) [
        | ok a ↦ ok a
        | err e ↦ if is_unimplemented e then rest else err e
      ])
        ≡ false
  next_fails (ok a) rest h k = cc h
  next_fails (err e) rest h k = elim (Bool-cases (is_unimplemented e)) [
    | inl over ↦ rw over k
    | inr real ↦ rw real refl
  ]

  pub first_match-Fails :
      (layers : List S) (is : List ℕ)
      → HoldsAt Fails layers is
      → is_ok (first_match method call layers is) ≡ false
  unfolding first_match
  first_match-Fails layers [] h = refl
  first_match-Fails layers (i ∷ is) (h, hs) = elim (Option-cases (get_elem? layers i)) [
    | inl missing ↦ rw (first_match, missing) refl
    | inr (s, here) ↦
        rw (first_match, here)
          (next_fails (call s) (first_match method call layers is) (subst (HoldsIf Fails) here h)
            (first_match-Fails layers is hs))
  ]

-- What is true of the layers that a test selects is true at their positions.
pub positions-HoldsAt :
    {S : Type 0} (P : S → Type 0) (p : LayerConfig → Bool) (cfgs : List LayerConfig)
    (pre ss layers : List S) (k : ℕ)
    → length ss ≡ length cfgs
    → layers ≡ pre ++ ss
    → k ≡ length pre
    → All P (select p cfgs ss)
    → HoldsAt P layers (positions p k cfgs)
unfolding positions select
positions-HoldsAt P p [] pre ss layers k sizes same at h = tt
positions-HoldsAt P p (cfg ∷ cfgs) pre [] layers k sizes same at h = absurd (omega (arith, sizes))
positions-HoldsAt P p (cfg ∷ cfgs) pre (s ∷ ss) layers k sizes same at h =
    let (same', at') = layer_next pre ss layers s k same at in
    let rest =
      positions-HoldsAt P p cfgs (pre ++ (s ∷ [])) ss layers (suc k) (omega (arith, sizes)) same'
        at' in
    elim (Bool-cases (p cfg)) [
      | inl chosen ↦
          let (first, others) = rw chosen at h in
          rw chosen
            (subst (HoldsIf P) (sym (layer_here pre ss layers s k same at)) first, rest others)
      | inr passed ↦ rw passed (rest (rw passed at h))
    ]
