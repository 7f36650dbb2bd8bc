-- ===== src/Multipart/Parse.antt =====
-- parseMail, New and ParseEmailFromBytes of storage/multipart/multipart.go, with fuel for the
-- depth of nested parts: `none` means that the fuel ran out.
use mock_my_mta.Base.{
  Text, lit, ◌==◌, ◌≡◌, refl, ◌∙◌, List, [], ◌∷◌, Option, none, some, ℕ, zero, suc, ◌<◌,
  if◌then◌else◌, Outcome, ok, err, Error, failed, length, All, All-map, arith, is_some, true,
  Bool-cases, inl, inr,
}
use mock_my_mta.Base.Texts.{has_prefix}
use mock_my_mta.Base.Dict.{lookup, insert}
use mock_my_mta.Std.{Std, RawHeaders, Reader, MediaType}
use mock_my_mta.Multipart.{
  Headers, Node, leaf, multi, Nodes, nil, cons, new_headers, get_content_type,
}

-- io.ReadAll, and the leaf of what it gives
unfoldable pub read_leaf : Headers → Reader → Outcome Node
read_leaf h r = elim r.fault [
  | none ↦ ok (leaf (record { headers = h; body = r.content }))
  | some e ↦ err e
]

abbrev more : Outcome Node → Option (Outcome Nodes) → Option (Outcome Nodes)
more (err e) rest = some (err e)
more (ok n) none = none
more (ok n) (some (err e)) = some (err e)
more (ok n) (some (ok ps)) = some (ok (cons n ps))

abbrev part_then : Option (Outcome Node) → Option (Outcome Nodes) → Option (Outcome Nodes)
part_then none rest = none
part_then (some n) rest = more n rest

-- The loop over NextPart; `parse` is parseMail on a part, and Close of a part does not fail.
module _ (parse : RawHeaders → Reader → Option (Outcome Node)) (fault : Option Error) where
  unfoldable pub parse_parts : List (RawHeaders × Reader) → Option (Outcome Nodes)
  parse_parts [] = elim fault [ none ↦ some (ok nil) | some e ↦ some (err e) ]
  parse_parts ((h, r) ∷ parts) = part_then (parse h r) (parse_parts parts)

abbrev multi_of : Headers → Option (Outcome Nodes) → Option (Outcome Node)
multi_of h none = none
multi_of h (some (err e)) = some (err e)
multi_of h (some (ok ps)) = some (ok (multi h ps))

abbrev value_or_empty : Option Text → Text
value_or_empty none = []
value_or_empty (some v) = v

abbrev pub outcome_of : Option (Outcome Node) → Outcome Node
outcome_of none = err (failed [])
outcome_of (some r) = r

module _ (std : Std) where
  open std use {parse_media_type, next_parts}

  -- The branch of parseMail for a multipart media type; `parse` is the recursive call.
  unfoldable pub parse_multipart :
      (RawHeaders → Reader → Option (Outcome Node))
      → Headers
      → MediaType
      → Reader
      → Option (Outcome Node)
  unfolding parse_parts
  parse_multipart parse h t r =
      let parts = next_parts (value_or_empty (lookup (lit "boundary") t.params)) r in
      multi_of h (parse_parts parse parts.fault parts.yielded)

  -- parseMail behind the parse of the media type
  unfoldable pub parse_typed :
      (RawHeaders → Reader → Option (Outcome Node))
      → Headers
      → MediaType
      → Reader
      → Option (Outcome Node)
  unfolding read_leaf parse_multipart
  parse_typed parse h t r = elim t.fault [
    | some e ↦ some (err e)
    | none ↦
        if has_prefix t.media (lit "multipart/")
        then parse_multipart parse h t r
        else some (read_leaf h r)
  ]

  unfoldable pub parse_mail : ℕ → RawHeaders → Reader → Option (Outcome Node)
  unfolding parse_typed
  parse_mail zero raw r = none
  parse_mail (suc f) raw r =
      let h = new_headers std raw in
      let ct = get_content_type std h in
      if ct == []
      then some
          (read_leaf (insert (lit "content-type") (lit "text/plain; charset=us-ascii" ∷ []) h) r)
      else parse_typed (parse_mail f) h (parse_media_type ct) r

  -- mime/multipart: a part is shorter than the body that it stands in, for its delimiter is not
  -- part of it.
  abbrev pub PartsShrink : Type 0
  PartsShrink =
      (boundary : Text) (r : Reader)
      → All (λ (p : RawHeaders × Reader). length p.1.content < length r.content)
          (next_parts boundary r).yielded

  -- New
  unfoldable pub new : RawHeaders → Reader → Outcome Node
  unfolding parse_mail
  new raw r = outcome_of (parse_mail (suc (length r.content)) raw r)

  -- ParseEmailFromBytes, and mail.ReadMessage with New as the storage layers chain them
  unfoldable pub parse_email : Text → Outcome Node
  unfolding new
  parse_email raw = elim (std.read_message raw) [ err e ↦ err e | ok (h, body) ↦ new h body ]

  abbrev Agree : (f g : ℕ) → RawHeaders × Reader → Type 0
  Agree f g p = parse_mail f p.0 p.1 ≡ parse_mail g p.0 p.1

  parse_parts-Agree :
      (f g : ℕ) (fault : Option Error) (parts : List (RawHeaders × Reader))
      → All (Agree f g) parts
      → parse_parts (parse_mail f) fault parts ≡ parse_parts (parse_mail g) fault parts
  unfolding parse_parts
  parse_parts-Agree f g fault [] h = refl
  parse_parts-Agree f g fault ((h, r) ∷ parts) (e, es) =
      λ i. part_then (e i) (parse_parts-Agree f g fault parts es i)

  parse_typed-Agree :
      (f g : ℕ) (h : Headers) (t : MediaType) (r : Reader)
      → ((boundary : Text) → All (Agree f g) (next_parts boundary r).yielded)
      → parse_typed (parse_mail f) h t r ≡ parse_typed (parse_mail g) h t r
  unfolding parse_typed
  parse_typed-Agree f g h t r same =
      let boundary = value_or_empty (lookup (lit "boundary") t.params) in
      let parts = next_parts boundary r in
      λ i. elim t.fault [
        | some e ↦ some (err e)
        | none ↦
            if has_prefix t.media (lit "multipart/")
            then multi_of h (parse_parts-Agree f g parts.fault parts.yielded (same boundary) i)
            else some (read_leaf h r)
      ]

  Done : ℕ → RawHeaders × Reader → Type 0
  Done f p = is_some (parse_mail f p.0 p.1) ≡ true

  part_then-some :
      (n : Option (Outcome Node)) (rest : Option (Outcome Nodes))
      → is_some n ≡ true
      → is_some rest ≡ true
      → is_some (part_then n rest) ≡ true
  part_then-some n rest h k = ground arith

  parse_parts-some :
      (f : ℕ) (fault : Option Error) (parts : List (RawHeaders × Reader))
      → All (Done f) parts
      → is_some (parse_parts (parse_mail f) fault parts) ≡ true
  unfolding parse_parts Done
  parse_parts-some f fault [] h = ground arith
  parse_parts-some f fault ((h, r) ∷ parts) (e, es) =
      part_then-some (parse_mail f h r) (parse_parts (parse_mail f) fault parts) e
        (parse_parts-some f fault parts es)

  multi_of-some :
      (h : Headers) (ps : Option (Outcome Nodes))
      → is_some ps ≡ true
      → is_some (multi_of h ps) ≡ true
  multi_of-some h ps e = ground arith

  parse_typed-some :
      (f : ℕ) (h : Headers) (t : MediaType) (r : Reader)
      → ((boundary : Text) → All (Done f) (next_parts boundary r).yielded)
      → is_some (parse_typed (parse_mail f) h t r) ≡ true
  unfolding parse_typed
  parse_typed-some f h t r done =
      let boundary = value_or_empty (lookup (lit "boundary") t.params) in
      let parts = next_parts boundary r in
      ground (
        arith,
        multi_of-some h (parse_parts (parse_mail f) parts.fault parts.yielded)
            (parse_parts-some f parts.fault parts.yielded (done boundary)),
      )

module _ (std : Std) (shrink : PartsShrink std) where
  parse_mail-done :
      (f : ℕ) (raw : RawHeaders) (r : Reader)
      → length r.content < f
      → is_some (parse_mail std f raw r) ≡ true
  unfolding parse_mail Done
  parse_mail-done zero raw r h = absurd (omega arith)
  parse_mail-done (suc f) raw r h =
      let hs = new_headers std raw in
      let ct = get_content_type std hs in
      elim (Bool-cases (ct == [])) [
        | inl e ↦ rw e
        | inr e ↦ rw e (
            parse_typed-some std f hs (std.parse_media_type ct) r (λ boundary.
              All-map (λ p lt. parse_mail-done f p.0 p.1 (omega arith))
                (std.next_parts boundary r).yielded (shrink boundary r)))
      ]

  parse_mail-stable :
      (f g : ℕ) (raw : RawHeaders) (r : Reader)
      → length r.content < f
      → length r.content < g
      → parse_mail std f raw r ≡ parse_mail std g raw r
  unfolding parse_mail
  parse_mail-stable zero g raw r h k = absurd (omega arith)
  parse_mail-stable (suc f) zero raw r h k = absurd (omega arith)
  parse_mail-stable (suc f) (suc g) raw r h k =
      let hs = new_headers std raw in
      let ct = get_content_type std hs in
      elim (Bool-cases (ct == [])) [
        | inl e ↦ rw e
        | inr e ↦ rw e (
            parse_typed-Agree std f g hs (std.parse_media_type ct) r (λ boundary.
              All-map (λ p lt. parse_mail-stable f g p.0 p.1 (omega arith) (omega arith))
                (std.next_parts boundary r).yielded (shrink boundary r)))
      ]

  some_of : (o : Option (Outcome Node)) → is_some o ≡ true → o ≡ some (outcome_of o)
  some_of none h = cc
  some_of (some r) h = refl

  -- If a part is always shorter than the body that it stands in, parsing ends: any fuel above the
  -- length of the body gives a result, and it is the one that New returns.
  pub parse_mail-eq-new :
      (f : ℕ) (raw : RawHeaders) (r : Reader)
      → length r.content < f
      → parse_mail std f raw r ≡ some (new std raw r)
  unfolding new
  parse_mail-eq-new f raw r h =
      parse_mail-stable f (suc (length r.content)) raw r h (omega arith)
      ∙ some_of (parse_mail std (suc (length r.content)) raw r)
          (parse_mail-done (suc (length r.content)) raw r (omega arith))
