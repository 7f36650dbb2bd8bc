-- ===== src/Storage/Engine/Loops.antt =====
-- The loops of storage/engine.go over the writable layers: what each single write keeps, they keep.
use mock_my_mta.Base.{
  ◌≡◌, List, [], ◌∷◌, Option, none, some, if◌then◌else◌, ℕ, get_elem?, set, Error, Bool-cases,
  Option-cases, inl, inr,
}
use mock_my_mta.Storage.Engine.{is_unimplemented, write_until, write_all}

-- A relation between the layers before and after some writes.
module _ {S : Type 0} (write : S → S × Option Error) (Before : List S → List S → Type 0)
    (same : (ss : List S) → Before ss ss)
    (after : (ss ts us : List S) → Before ss ts → Before ts us → Before ss us)
    (one : (ss : List S) (i : ℕ) (s : S)
      → get_elem? ss i ≡ some s
      → Before ss (set ss i (write s).0)) where
  abbrev continued : Option Error → List S → List ℕ → List S × Option Error
  continued error layers is = elim error [
    | none ↦ write_until write layers is
    | some e ↦ if is_unimplemented e then write_until write layers is else (layers, some e)
  ]

  continued-keeps :
      (error : Option Error) (ss layers : List S) (is : List ℕ)
      → Before ss layers
      → Before ss (write_until write layers is).0
      → Before ss (continued error layers is).0
  continued-keeps none ss layers is here rest = rest
  continued-keeps (some e) ss layers is here rest = elim (Bool-cases (is_unimplemented e)) [
    | inl over ↦ rw over rest
    | inr real ↦ rw real here
  ]

  pub write_until-keeps :
      (layers : List S) (is : List ℕ) → Before layers (write_until write layers is).0
  unfolding write_until
  write_until-keeps layers [] = same layers
  write_until-keeps layers (i ∷ is) = elim (Option-cases (get_elem? layers i)) [
    | inl missing ↦ rw (write_until, missing) (same layers)
    | inr (s, here) ↦
        let layers' = set layers i (write s).0 in
        rw (write_until, here)
          (continued-keeps (write s).1 layers layers' is (one layers i s here) (
            after layers layers' (write_until write layers' is).0 (one layers i s here)
              (write_until-keeps layers' is)))
  ]

  pub write_all-keeps :
      (layers : List S) (is : List ℕ) → Before layers (write_all write layers is).0
  unfolding write_all
  write_all-keeps layers [] = same layers
  write_all-keeps layers (i ∷ is) = elim (Option-cases (get_elem? layers i)) [
    | inl missing ↦ rw (write_all, missing) (same layers)
    | inr (s, here) ↦
        let layers' = set layers i (write s).0 in
        rw (write_all, here)
          (after layers layers' (write_all write layers' is).0 (one layers i s here)
            (write_all-keeps layers' is))
  ]
