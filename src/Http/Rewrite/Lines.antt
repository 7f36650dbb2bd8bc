-- ===== src/Http/Rewrite/Lines.antt =====
-- Which header lines writeHeaders writes.
use mock_my_mta.Base.{
  Text, ◌==◌, eq_iff, eq_refl, text_cases, ◌≡◌, refl, ap, ap₂, ◌∙◌, sym, List, [], ◌∷◌, ◌++◌,
  Option, none, some, Bool, true, false, ◌||◌, if◌then◌else◌, eqb, member, arith, Bool-cases, inl,
  inr,
}
use mathlib.Core.Path.{subst}
use mathlib.Core.List.{Perm, append_assoc, perm_append_comm}
use mathlib.Core.List.Perm
use mock_my_mta.Base.Dict.{lookup, keys}
use mock_my_mta.Base.Texts.{member-snoc, split_at}
use mock_my_mta.Std.{RawHeaders}
use mock_my_mta.Http.Rewrite.{
  pairs, ordered_entries, other_entries, add_key, ordered_keys, trim_cr, header_entries,
  header_block, split_lines,
}

-- All lines of some headers.
unfoldable pub all_entries : RawHeaders → List (Text × Text)
all_entries [] = []
all_entries ((key, vs) ∷ hdr) = pairs key vs ++ all_entries hdr

-- A Go map has a key once.
abbrev pub DistinctHeaders : RawHeaders → Type 0
DistinctHeaders [] = Unit
DistinctHeaders ((key, vs) ∷ hdr) = (member key (keys hdr) ≡ false) × DistinctHeaders hdr

abbrev DistinctTexts : List Text → Type 0
DistinctTexts [] = Unit
DistinctTexts (key ∷ ks) = (member key ks ≡ false) × DistinctTexts ks

snoc-DistinctTexts :
    (k : Text) (ks : List Text)
    → DistinctTexts ks
    → member k ks ≡ false
    → DistinctTexts (ks ++ (k ∷ []))
snoc-DistinctTexts k [] d h = (refl, tt)
snoc-DistinctTexts k (j ∷ ks) (fresh, d) h = (
  member-snoc j k ks ∙ ground (arith, eq_iff j k, eq_iff k j),
  snoc-DistinctTexts k ks d (ground arith),
)

module _ (canonical : Text → Text) where
  add_key-DistinctTexts :
      (line : Text) (seen : List Text)
      → DistinctTexts seen
      → DistinctTexts (add_key canonical line seen)
  unfolding add_key
  add_key-DistinctTexts [] seen d = d
  add_key-DistinctTexts (c ∷ s) seen d = elim (Bool-cases (eqb c 32 || eqb c 9)) [
    | inl blank ↦ rw blank d
    | inr word ↦ rw word (named (split_at 58 (c ∷ s)))
  ]
    where
      named :
          (o : Option (Text × Text))
          → DistinctTexts (elim o [
            | none ↦ seen
            | some ([], post) ↦ seen
            | some (b ∷ name, post) ↦
                let key = canonical (b ∷ name) in
                if member key seen then seen else seen ++ (key ∷ [])
          ])
      named none = d
      named (some ([], post)) = d
      named (some (b ∷ name, post)) = elim (Bool-cases (member (canonical (b ∷ name)) seen)) [
        | inl old ↦ rw old d
        | inr new ↦ rw new (snoc-DistinctTexts (canonical (b ∷ name)) seen d new)
      ]

  ordered_keys-DistinctTexts :
      (lines : List Text) (seen : List Text)
      → DistinctTexts seen
      → DistinctTexts (ordered_keys canonical lines seen)
  unfolding ordered_keys
  ordered_keys-DistinctTexts [] seen d = d
  ordered_keys-DistinctTexts (line ∷ lines) seen d = elim (Bool-cases (trim_cr line == [])) [
    | inl empty ↦ rw empty d
    | inr full ↦
        rw full (ordered_keys-DistinctTexts lines _ (add_key-DistinctTexts (trim_cr line) seen d))
  ]

lookup-missing :
    (hdr : RawHeaders) (key : Text) → member key (keys hdr) ≡ false → lookup key hdr ≡ none
unfolding lookup keys
lookup-missing [] key h = refl
lookup-missing ((j, vs) ∷ hdr) key h =
    ground (arith, eq_iff key j, eq_iff j key, lookup-missing hdr key)

-- The lines of a key, if it is among those seen.
abbrev pairs_if : Bool → Text → List Text → List (Text × Text)
pairs_if true key vs = pairs key vs
pairs_if false key vs = []

perm_of_eq : {A : Type 0} {xs ys : List A} → xs ≡ ys → Perm xs ys
perm_of_eq {xs = xs} e = subst (Perm xs) e (Perm.refl xs)

append_swap : {A : Type 0} (xs ys zs : List A) → Perm (xs ++ (ys ++ zs)) (ys ++ (xs ++ zs))
append_swap xs ys zs = Perm.trans (perm_of_eq (sym (append_assoc xs ys zs))) (
    Perm.trans (Perm.append_right zs (perm_append_comm xs ys)) (perm_of_eq (append_assoc ys xs zs)))

module _ (key : Text) (vs : List Text) (hdr : RawHeaders)
    (fresh : member key (keys hdr) ≡ false) where
  lookup_other : (j : Text) → (key == j) ≡ false → lookup j ((key, vs) ∷ hdr) ≡ lookup j hdr
  unfolding lookup
  lookup_other j other = rw (lookup, other) refl

  lookup_here : lookup key ((key, vs) ∷ hdr) ≡ some vs
  unfolding lookup
  lookup_here = rw (lookup, eq_refl key) refl

  abbrev values : Option (List Text) → List Text
  values o = elim o [ none ↦ [] | some ws ↦ ws ]

  ordered_entries-unseen :
      (ks : List Text)
      → member key ks ≡ false
      → ordered_entries ((key, vs) ∷ hdr) ks ≡ ordered_entries hdr ks
  unfolding ordered_entries
  ordered_entries-unseen [] h = refl
  ordered_entries-unseen (j ∷ ks) h =
      ap₂ (λ o r. pairs j (values o) ++ r) (lookup_other j (ground arith))
        (ordered_entries-unseen ks (ground arith))

  ordered_entries-here :
      (ks : List Text)
      → member key ks ≡ false
      → ordered_entries ((key, vs) ∷ hdr) (key ∷ ks)
        ≡ pairs_if (key == key || member key ks) key vs ++ ordered_entries hdr (key ∷ ks)
  unfolding ordered_entries
  ordered_entries-here ks new =
      ap₂ (λ o r. pairs key (values o) ++ r) lookup_here (ordered_entries-unseen ks new)
      ∙ ap (λ o. pairs key vs ++ (pairs key (values o) ++ ordered_entries hdr ks))
          (sym (lookup-missing hdr key fresh))
      ∙ ap (λ b. pairs_if (b || member key ks) key vs ++ ordered_entries hdr (key ∷ ks))
          (sym (eq_refl key))

  ordered_entries-perm :
      (ks : List Text)
      → DistinctTexts ks
      → Perm
          (ordered_entries ((key, vs) ∷ hdr) ks)
          (pairs_if (member key ks) key vs ++ ordered_entries hdr ks)
  unfolding ordered_entries
  ordered_entries-perm [] d = Perm.refl []
  ordered_entries-perm (j ∷ ks) (new, d) = elim (text_cases key j) [
    | inl same ↦ perm_of_eq (
        subst
          (λ i.
            ordered_entries ((key, vs) ∷ hdr) (i ∷ ks)
            ≡ pairs_if (key == i || member key ks) key vs ++ ordered_entries hdr (i ∷ ks))
          same (ordered_entries-here ks (subst (λ i. member i ks ≡ false) (sym same) new)))
    | inr other ↦
        Perm.trans
          (perm_of_eq (
            ap (λ o. pairs j (values o) ++ ordered_entries ((key, vs) ∷ hdr) ks)
              (lookup_other j other)))
          (Perm.trans
            (Perm.append_left (pairs j (values (lookup j hdr))) (ordered_entries-perm ks d))
            (Perm.trans
              (append_swap (pairs j (values (lookup j hdr))) (pairs_if (member key ks) key vs)
                (ordered_entries hdr ks))
              (perm_of_eq (
                ap (λ b. pairs_if (b || member key ks) key vs ++ ordered_entries hdr (j ∷ ks))
                  (sym other)))))
  ]

-- The lines that follow those of the keys seen, of one header more.
other_entries-step :
    (b : Bool) (key : Text) (vs : List Text) (ordered others : List (Text × Text))
    → Perm
        ((pairs_if b key vs ++ ordered) ++ ((if b then [] else pairs key vs) ++ others))
        (pairs key vs ++ (ordered ++ others))
other_entries-step true key vs ordered others =
    perm_of_eq (append_assoc (pairs key vs) ordered others)
other_entries-step false key vs ordered others = append_swap ordered (pairs key vs) others

ordered_entries-nil : (ks : List Text) → ordered_entries [] ks ≡ []
unfolding ordered_entries lookup
ordered_entries-nil [] = refl
ordered_entries-nil (key ∷ ks) = ordered_entries-nil ks

entries-perm :
    (ks : List Text) (hdr : RawHeaders)
    → DistinctTexts ks
    → DistinctHeaders hdr
    → Perm (ordered_entries hdr ks ++ other_entries ks hdr) (all_entries hdr)
unfolding other_entries all_entries
entries-perm ks [] d h = perm_of_eq (ap (λ r. r ++ []) (ordered_entries-nil ks))
entries-perm ks ((key, vs) ∷ hdr) d (fresh, h) =
    Perm.trans
      (Perm.append_right (other_entries ks ((key, vs) ∷ hdr))
        (ordered_entries-perm key vs hdr fresh ks d))
      (Perm.trans
        (other_entries-step (member key ks) key vs (ordered_entries hdr ks) (other_entries ks hdr))
        (Perm.append_left (pairs key vs) (entries-perm ks hdr d h)))

-- Every value of every header is written in one line, and no other line is, whatever the original
-- message looks like.
pub header_entries-perm :
    (canonical : Text → Text) (hdr : RawHeaders) (raw : Text)
    → DistinctHeaders hdr
    → Perm (header_entries canonical hdr raw) (all_entries hdr)
unfolding header_entries
header_entries-perm canonical hdr raw h =
    entries-perm (ordered_keys canonical (split_lines [] (header_block raw)) []) hdr
      (ordered_keys-DistinctTexts canonical (split_lines [] (header_block raw)) [] tt) h
