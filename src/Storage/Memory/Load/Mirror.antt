-- ===== src/Storage/Memory/Load/Mirror.antt =====
-- What the cache holds after the `load` of storage/storage_memory.go.
use mock_my_mta.Base.{
  is_some, ap₂, ok_injective, Text, lit, ◌==◌, eq_iff, text_cases, ◌≡◌, refl, ap, ◌∙◌, sym, List,
  [], ◌∷◌, Option, none, some, Bool, true, false, if◌then◌else◌, ◌||◌, ◌⊎◌, Outcome, ok, err,
  member, arith, inl, inr,
}
use mathlib.Core.Path.{subst}
use mock_my_mta.Base.Dict.{Dict, lookup, insert, keys, lookup-insert}
use mock_my_mta.Storage.{EmailHeader, AttachmentHeader}
use mock_my_mta.Storage.Layer.{Layer, all_emails}
use mock_my_mta.Storage.Memory.{
  Memory, empty, not_found, found_or, get_email_by_id, get_raw_email, get_attachments_of,
}
use mock_my_mta.Storage.Memory.Load.{
  load_bodies, load_attachments, load_email, load_emails, load_raw_emails, load,
}

-- The last of some headers that has an id.
unfoldable pub last_with : Text → List EmailHeader → Option EmailHeader
last_with id [] = none
last_with id (header ∷ headers) =
    let rest = last_with id headers in
    elim rest [ some h ↦ some h | none ↦ if header.id == id then some header else none ]

abbrev pub is_listed : Text → List EmailHeader → Bool
is_listed id headers = is_some (last_with id headers)

-- What the root gives, in place of what was there.
abbrev over : {A : Type 0} → Outcome A → Option A → Option A
over (err e) old = old
over (ok a) old = some a

member-keys : {V : Type 0} (id : Text) (d : Dict V) → member id (keys d) ≡ is_some (lookup id d)
unfolding keys lookup
member-keys id [] = refl
member-keys id ((j, v) ∷ d) = ground (arith, eq_iff id j, eq_iff j id, member-keys id d)

module _ {R : Type 0} (root : Layer R) (r : R) (id : Text) where
  -- One email more.
  abbrev with_attachments : EmailHeader → Memory → Outcome (List AttachmentHeader) → Memory
  with_attachments header m o =
      let m' = record m {
        headers = insert header.id header m.headers;
        bodies = insert header.id (load_bodies root r header.id header.body_versions []) m.bodies;
      } in
      elim o [
        | err e ↦ m'
        | ok atts ↦ record m' {
          attachments = insert header.id atts m.attachments;
          attachment = load_attachments root r header.id atts m.attachment;
        }
      ]

  with_attachments-lookup :
      (header : EmailHeader) (m : Memory) (o : Outcome (List AttachmentHeader))
      → (lookup id (with_attachments header m o).headers
          ≡ (if header.id == id then some header else lookup id m.headers))
        × (lookup id (with_attachments header m o).attachments ≡ (
            if header.id == id then over o (lookup id m.attachments) else lookup id m.attachments))
        × ((with_attachments header m o).raw_emails ≡ m.raw_emails)
  with_attachments-lookup header m (err e) =
      (lookup-insert header.id id header m.headers, ground arith, refl)
  with_attachments-lookup header m (ok atts) = (
    lookup-insert header.id id header m.headers,
    lookup-insert header.id id atts m.attachments,
    refl,
  )

  load_email-lookup :
      (header : EmailHeader) (m : Memory)
      → (lookup id (load_email root r header m).headers
          ≡ (if header.id == id then some header else lookup id m.headers))
        × (lookup id (load_email root r header m).attachments ≡ (
            if header.id == id
            then over (root.get_attachments r id) (lookup id m.attachments)
            else lookup id m.attachments))
        × ((load_email root r header m).raw_emails ≡ m.raw_emails)
  unfolding load_email
  load_email-lookup header m =
      let (headers, attachments, raw_emails) =
        with_attachments-lookup header m (root.get_attachments r header.id) in
      (headers, attachments ∙ same (text_cases header.id id), raw_emails)
    where
      same :
          (header.id ≡ id) ⊎ ((header.id == id) ≡ false)
          → (if header.id == id
              then over (root.get_attachments r header.id) (lookup id m.attachments)
              else lookup id m.attachments)
            ≡ (if header.id == id
                then over (root.get_attachments r id) (lookup id m.attachments)
                else lookup id m.attachments)
      same (inl e) =
          ap
            (λ i.
              if header.id == id
              then over (root.get_attachments r i) (lookup id m.attachments)
              else lookup id m.attachments)
            e
      same (inr e) = rw e refl

  load_emails-headers :
      (headers : List EmailHeader) (m : Memory)
      → lookup id (load_emails root r headers m).headers
        ≡ (elim (last_with id headers) [ some h ↦ some h | none ↦ lookup id m.headers ])
  unfolding load_emails last_with
  load_emails-headers [] m = refl
  load_emails-headers (header ∷ headers) m =
      load_emails-headers headers (load_email root r header m) ∙ chosen (last_with id headers)
    where
      distribute_some :
          (b : Bool)
          → (if b then some header else lookup id m.headers)
            ≡ (elim (if b then some header else none) as (λ _. Option EmailHeader) [
              | some h ↦ some h
              | none ↦ lookup id m.headers
            ])
      distribute_some true = refl
      distribute_some false = refl

      chosen :
          (o : Option EmailHeader)
          → (elim o [ some h ↦ some h | none ↦ lookup id (load_email root r header m).headers ])
            ≡ (elim (elim o as (λ _. Option EmailHeader) [
              | some h ↦ some h
              | none ↦ if header.id == id then some header else none
            ]) [ some h ↦ some h | none ↦ lookup id m.headers ])
      chosen (some h) = refl
      chosen none = (load_email-lookup header m).0 ∙ distribute_some (header.id == id)

  abbrev add : Text → Dict Text → Outcome Text → Dict Text
  add i d o = elim o [ err e ↦ d | ok raw_email ↦ insert i raw_email d ]

  add-over :
      (i : Text) (d : Dict Text) (o : Outcome Text)
      → lookup id (add i d o) ≡ (if i == id then over o (lookup id d) else lookup id d)
  add-over i d (err e) = ground arith
  add-over i d (ok raw_email) = lookup-insert i id raw_email d

  add-lookup :
      (i : Text) (d : Dict Text)
      → lookup id (add i d (root.get_raw_email r i))
        ≡ (if id == i then over (root.get_raw_email r id) (lookup id d) else lookup id d)
  add-lookup i d = add-over i d (root.get_raw_email r i) ∙ same (text_cases id i)
    where
      same :
          (id ≡ i) ⊎ ((id == i) ≡ false)
          → (if i == id then over (root.get_raw_email r i) (lookup id d) else lookup id d)
            ≡ (if id == i then over (root.get_raw_email r id) (lookup id d) else lookup id d)
      same (inl e) =
          subst
            (λ j.
              (if j == id then over (root.get_raw_email r j) (lookup id d) else lookup id d)
              ≡ (if id == j then over (root.get_raw_email r id) (lookup id d) else lookup id d))
            e refl
      same (inr e) = ground (arith, eq_iff id i, eq_iff i id)

  load_raw_emails-lookup :
      (ids : List Text) (d : Dict Text)
      → lookup id (load_raw_emails root r ids d)
        ≡ (if member id ids then over (root.get_raw_email r id) (lookup id d) else lookup id d)
  unfolding load_raw_emails
  load_raw_emails-lookup [] d = refl
  load_raw_emails-lookup (i ∷ ids) d =
      load_raw_emails-lookup ids (add i d (root.get_raw_email r i))
      ∙ ap (λ old. if member id ids then over (root.get_raw_email r id) old else old)
          (add-lookup i d)
      ∙ twice (text_cases id i) (root.get_raw_email r id) (lookup id d)
    where
      twice :
          (id ≡ i) ⊎ ((id == i) ≡ false)
          → (o : Outcome Text) (old : Option Text)
          → (let new = (if id == i then over o old else old) in
              if member id ids then over o new else new)
            ≡ (if id == i || member id ids then over o old else old)
      twice (inl e) (ok a) old = ground arith
      twice (inl e) (err x) old = ground arith
      twice (inr e) o old = rw e refl

  load_emails-attachments :
      (headers : List EmailHeader) (m : Memory)
      → lookup id (load_emails root r headers m).attachments ≡ (
          if is_listed id headers
          then over (root.get_attachments r id) (lookup id m.attachments)
          else lookup id m.attachments)
  unfolding load_emails last_with
  load_emails-attachments [] m = refl
  load_emails-attachments (header ∷ headers) m =
      load_emails-attachments headers (load_email root r header m)
      ∙ ap (λ old. if is_listed id headers then over (root.get_attachments r id) old else old)
          (load_email-lookup header m).1
      ∙ twice (last_with id headers) (header.id == id) (root.get_attachments r id)
          (lookup id m.attachments)
    where
      twice :
          (l : Option EmailHeader) (b : Bool) (o : Outcome (List AttachmentHeader))
          (old : Option (List AttachmentHeader))
          → (let new = (if b then over o old else old) in if is_some l then over o new else new) ≡ (
              if is_some (elim l as (λ _. Option EmailHeader) [
                | some h ↦ some h
                | none ↦ if b then some header else none
              ])
              then over o old
              else old)
      twice (some h) true (ok a) old = refl
      twice (some h) true (err x) old = refl
      twice (some h) false o old = refl
      twice none true o old = refl
      twice none false o old = refl

  load_emails-raw :
      (headers : List EmailHeader) (m : Memory)
      → (load_emails root r headers m).raw_emails ≡ m.raw_emails
  unfolding load_emails
  load_emails-raw [] m = refl
  load_emails-raw (header ∷ headers) m =
      load_emails-raw headers (load_email root r header m) ∙ (load_email-lookup header m).2

  -- What the root answers, if the id is listed.
  abbrev pub answer : {A : Type 0} → Text → Bool → Outcome A → Outcome A
  answer what false o = err (not_found what id)
  answer what true (ok a) = ok a
  answer what true (err e) = err (not_found what id)

  abbrev pub header_or : Option EmailHeader → Outcome EmailHeader
  header_or none = err (not_found (lit "email") id)
  header_or (some h) = ok h

  found-header :
      (o : Option EmailHeader)
      → found_or (not_found (lit "email") id) (elim o [ some h ↦ some h | none ↦ none ])
        ≡ header_or o
  found-header none = refl
  found-header (some h) = refl

  found-answer :
      {A : Type 0} (what : Text) (b : Bool) (o : Outcome A)
      → found_or (not_found what id) (if b then over o none else none) ≡ answer what b o
  found-answer what true (ok a) = refl
  found-answer what true (err e) = refl
  found-answer what false o = refl

  known :
      (o : Option EmailHeader)
      → is_some (elim o as (λ _. Option EmailHeader) [ some h ↦ some h | none ↦ none ]) ≡ is_some o
  known none = refl
  known (some h) = refl

  -- What a cache that was empty holds.
  abbrev hydrated : List EmailHeader → Memory
  hydrated headers =
      let m = load_emails root r headers empty in
      record m { raw_emails = load_raw_emails root r (keys m.headers) m.raw_emails }

  load-hydrated :
      (headers : List EmailHeader)
      → all_emails root r ≡ ok (some headers)
      → load root r empty ≡ ok (hydrated headers)
  unfolding load
  load-hydrated headers listed = rw (load, listed) refl

  hydrated-raw :
      (headers : List EmailHeader)
      → lookup id (hydrated headers).raw_emails
        ≡ (if is_listed id headers then over (root.get_raw_email r id) none else none)
  unfolding lookup
  hydrated-raw headers =
      let m = load_emails root r headers empty in
      load_raw_emails-lookup (keys m.headers) m.raw_emails
      ∙ ap₂ (λ b d. if b then over (root.get_raw_email r id) (lookup id d) else lookup id d)
          (member-keys id m.headers
            ∙ ap is_some (load_emails-headers headers empty)
            ∙ known (last_with id headers))
          (load_emails-raw headers empty)

  Answers : List EmailHeader → Memory → Type 0
  Answers headers m =
      (get_email_by_id m id ≡ header_or (last_with id headers))
      × (get_raw_email m id
          ≡ answer (lit "raw email") (is_listed id headers) (root.get_raw_email r id))
      × (get_attachments_of m id
          ≡ answer (lit "email") (is_listed id headers) (root.get_attachments r id))

  hydrated-Answers : (headers : List EmailHeader) → Answers headers (hydrated headers)
  unfolding Answers get_email_by_id get_raw_email get_attachments_of lookup
  hydrated-Answers headers = (
    ap (found_or (not_found (lit "email") id)) (load_emails-headers headers empty)
        ∙ found-header (last_with id headers),
    ap (found_or (not_found (lit "raw email") id)) (hydrated-raw headers)
        ∙ found-answer (lit "raw email") (is_listed id headers) (root.get_raw_email r id),
    ap (found_or (not_found (lit "email") id)) (load_emails-attachments headers empty)
        ∙ found-answer (lit "email") (is_listed id headers) (root.get_attachments r id),
  )

  -- A cache that was empty answers after its load as the root does: for each email that the root
  -- lists it has the header (the last one with the id), the raw bytes and the attachment list that
  -- the root gives, and no other email.
  pub load-answers :
      (headers : List EmailHeader) (m : Memory)
      → all_emails root r ≡ ok (some headers)
      → load root r empty ≡ ok m
      → (get_email_by_id m id ≡ header_or (last_with id headers))
        × (get_raw_email m id
            ≡ answer (lit "raw email") (is_listed id headers) (root.get_raw_email r id))
        × (get_attachments_of m id
            ≡ answer (lit "email") (is_listed id headers) (root.get_attachments r id))
  unfolding Answers
  load-answers headers m listed loaded =
      subst (Answers headers)
        (ok_injective (hydrated headers) m (sym (load-hydrated headers listed) ∙ loaded))
        (hydrated-Answers headers)
