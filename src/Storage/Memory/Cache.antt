-- ===== src/Storage/Memory/Cache.antt =====
-- What the memory layer answers after a write and after a delete.
use mock_my_mta.Base.{Text, lit, ◌==◌, ◌≡◌, refl, none, if◌then◌else◌, ok, err, Error, arith}
use mock_my_mta.Base.Dict.{Dict, lookup, insert, erase, lookup-insert, lookup-erase}
use mock_my_mta.Std.{Std}
use mock_my_mta.Multipart.{Node}
use mock_my_mta.Multipart.Attachments.{get_attachments}
use mock_my_mta.Multipart.Parse.{parse_email}
use mock_my_mta.Storage.{new_email_header}
use mock_my_mta.Storage.Memory.{
  Memory, get_email_by_id, get_attachments_of, get_raw_email, delete_email_by_id, set_with_id,
  store, attachment_headers, found_or, not_found,
}

module _ {A : Type 0} (e : Error) (k j : Text) where
  found_or-insert :
      (a : A) (d : Dict A)
      → found_or e (lookup j (insert k a d)) ≡ (if k == j then ok a else found_or e (lookup j d))
  found_or-insert a d = rw lookup-insert (ground arith)

  found_or-erase :
      (d : Dict A)
      → found_or e (lookup j (erase k d)) ≡ (if k == j then err e else found_or e (lookup j d))
  found_or-erase d = rw lookup-erase (ground arith)

module _ (std : Std) (m : Memory) (id raw_email : Text) (mp : Node)
    (parsed : parse_email std raw_email ≡ ok mp) where
  set_with_id-store : set_with_id std m id raw_email ≡ (store std m id raw_email mp, none)
  unfolding set_with_id
  set_with_id-store = rw (parsed, set_with_id)

  -- After an email that can be parsed is set, its header is the one made from the email, its raw
  -- bytes are those that were set, its attachments are listed, and the header, the listed
  -- attachments and the raw bytes of every other id are as they were.
  pub get-set_with_id :
      (j : Text)
      → let m' = (set_with_id std m id raw_email).0 in
        (get_email_by_id m' j
          ≡ (if id == j then ok (new_email_header std id mp) else get_email_by_id m j))
        × (get_raw_email m' j ≡ (if id == j then ok raw_email else get_raw_email m j))
        × (get_attachments_of m' j ≡ (
            if id == j
            then ok (attachment_headers std (get_attachments std mp))
            else get_attachments_of m j))
  unfolding get_email_by_id get_raw_email get_attachments_of store
  get-set_with_id j = rw set_with_id-store (
    found_or-insert _ id j (new_email_header std id mp) m.headers,
    found_or-insert _ id j raw_email m.raw_emails,
    found_or-insert _ id j (attachment_headers std (get_attachments std mp)) m.attachments,
  )

-- After a delete the layer answers "not found" for the header, the raw bytes and the attachments of
-- the id, and for every other id what it answered before. It reports no error, also if it did not
-- know the id.
pub get-delete_email_by_id :
    (m : Memory) (id j : Text)
    → let m' = (delete_email_by_id m id).0 in
      ((delete_email_by_id m id).1 ≡ none)
      × (get_email_by_id m' j
          ≡ (if id == j then err (not_found (lit "email") j) else get_email_by_id m j))
      × (get_raw_email m' j
          ≡ (if id == j then err (not_found (lit "raw email") j) else get_raw_email m j))
      × (get_attachments_of m' j
          ≡ (if id == j then err (not_found (lit "email") j) else get_attachments_of m j))
unfolding delete_email_by_id get_email_by_id get_raw_email get_attachments_of
get-delete_email_by_id m id j = (
  refl,
  found_or-erase _ id j m.headers,
  found_or-erase _ id j m.raw_emails,
  found_or-erase _ id j m.attachments,
)
