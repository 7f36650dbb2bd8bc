-- ===== src/Storage/Memory/Load.antt =====
-- The `load` of storage/storage_memory.go: the cache is filled from the root layer.
pub mod Mirror
use mock_my_mta.Base.{
  is_some, Text, lit, ◌==◌, eq_iff, eq_refl, text_cases, ◌≡◌, refl, ap, ◌∙◌, sym, List, [], ◌∷◌,
  Option, none, some, Bool, true, false, if◌then◌else◌, ◌||◌, Outcome, ok, err, member, map, arith,
  inl, inr,
}
use mock_my_mta.Base.Dict.{Dict, lookup, insert, keys, lookup-insert}
use mock_my_mta.Storage.{
  EmailHeader, AttachmentHeader, Attachment, parse_version, version_to_string,
}
use mock_my_mta.Storage.Layer.{Layer, all_emails}
use mock_my_mta.Storage.Memory.{
  Memory, attachment_key, get_email_by_id, get_raw_email, get_attachments_of,
}

module _ {R : Type 0} (root : Layer R) (r : R) where
  -- The versions of one email that the root gives.
  unfoldable pub load_bodies : Text → List Text → Dict Text → Dict Text
  load_bodies id [] d = d
  load_bodies id (name ∷ names) d = load_bodies id names (elim (parse_version name) [
    | err e ↦ d
    | ok version ↦ elim (root.get_body_version r id version) [
      | err e ↦ d
      | ok body ↦ insert (version_to_string version) body d
    ]
  ])

  unfoldable pub load_attachments : Text → List AttachmentHeader → Dict Attachment → Dict Attachment
  load_attachments id [] d = d
  load_attachments id (att ∷ atts) d =
      load_attachments id atts (elim (root.get_attachment r id att.id) [
        | err e ↦ d
        | ok full ↦ insert (attachment_key id att.id) full d
      ])

  -- One round of the loop over the headers.
  unfoldable pub load_email : EmailHeader → Memory → Memory
  unfolding load_bodies load_attachments
  load_email header m =
      let m' = record m {
        headers = insert header.id header m.headers;
        bodies = insert header.id (load_bodies header.id header.body_versions []) m.bodies;
      } in
      elim (root.get_attachments r header.id) [
        | err e ↦ m'
        | ok atts ↦ record m' {
          attachments = insert header.id atts m.attachments;
          attachment = load_attachments header.id atts m.attachment;
        }
      ]

  unfoldable pub load_emails : List EmailHeader → Memory → Memory
  unfolding load_email
  load_emails [] m = m
  load_emails (header ∷ headers) m = load_emails headers (load_email header m)

  unfoldable pub load_raw_emails : List Text → Dict Text → Dict Text
  load_raw_emails [] d = d
  load_raw_emails (id ∷ ids) d =
      load_raw_emails ids
        (elim (root.get_raw_email r id) [ err e ↦ d | ok raw_email ↦ insert id raw_email d ])

  unfoldable pub load : Memory → Outcome Memory
  unfolding load_emails load_raw_emails
  load m = elim (all_emails root r) [
    | err e ↦ err e
    | ok none ↦ ok m
    | ok (some headers) ↦
        let m' = load_emails headers m in
        ok (record m' { raw_emails = load_raw_emails (keys m'.headers) m'.raw_emails })
  ]
