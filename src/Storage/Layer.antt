-- ===== src/Storage/Layer.antt =====
-- The methods of a storage layer (the interfaces Storage and storageLayer of storage/storage.go),
-- over the states that a layer can be in. A method that writes returns the new state and its error.
use mock_my_mta.Base.{Text, Outcome, ok, err, Option, none, some, List, [], ℕ, Error, panicked}
use mock_my_mta.Base.Int.{ℤ, pos, negsuc}
use mock_my_mta.Storage.{EmailHeader, AttachmentHeader, Attachment, Version}

pub record Layer (S : Type 0) : Type 0 where
  pub get_mailboxes : S → Outcome (List Text)
  pub get_email_by_id : S → Text → Outcome EmailHeader
  pub get_body_version : S → Text → Version → Outcome Text
  pub get_attachments : S → Text → Outcome (List AttachmentHeader)
  pub get_attachment : S → Text → Text → Outcome Attachment
  pub search_emails : S → Text → ℤ → ℤ → Outcome (List EmailHeader × ℕ)
  pub get_raw_email : S → Text → Outcome Text
  pub delete_all_emails : S → S × Option Error
  pub delete_email_by_id : S → Text → S × Option Error
  pub set_with_id : S → Text → Text → S × Option Error

abbrev logged : Outcome (List EmailHeader × ℕ) → Outcome (Option (List EmailHeader))
logged (ok (headers, total)) = ok (some headers)
logged (err panicked) = err panicked
logged (err e) = ok none

-- SearchEmails("", 1, -1), as the `load` methods call it on the root: an error is only logged.
abbrev pub all_emails : {R : Type 0} → Layer R → R → Outcome (Option (List EmailHeader))
all_emails root r = logged (root.search_emails r [] (pos 1) (negsuc 0))
