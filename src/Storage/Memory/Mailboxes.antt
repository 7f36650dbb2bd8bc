-- ===== src/Storage/Memory/Mailboxes.antt =====
-- GetMailboxes of storage/storage_memory.go, which walks Go's map of the headers in an order of its own.
use mathlib.Core.List.{Perm, foldr}
use mathlib.Core.List.Perm
use mathlib.Core.Quot
use mathlib.Core.Quot.{Quot}
use mock_my_mta.Base.{
  Text, ◌==◌, eq_iff, ◌≡◌, refl, ap, ◌∙◌, sym, List, [], ◌∷◌, ◌++◌, Bool, false, not, ◌||◌, ◌&&◌,
  ok, member, arith, Bool-cases, inl, inr,
}
use mock_my_mta.Base.Texts.{member-snoc}
use mock_my_mta.Base.Dict.{Dict}
use mock_my_mta.Std.{Address}
use mock_my_mta.Storage.{EmailHeader}
use mock_my_mta.Storage.Order.{sort, text_lt}
use mock_my_mta.Storage.Order.Texts.{
  Ascending, NoRepeats, member-sort, sort-Ascending, Ascending-unique,
}
use mock_my_mta.Storage.Memory.{Memory, add_recipients, recipients_of, get_mailboxes}

-- An address, not an empty one, is among some recipients.
abbrev pub receives : Text → List Address → Bool
receives name [] = false
receives name (to ∷ tos) = (not (to.address == []) && name == to.address) || receives name tos

-- An address is among the recipients of an email.
abbrev pub is_recipient : Text → Dict EmailHeader → Bool
is_recipient name = foldr (λ entry found. receives name entry.1.tos || found) false

add_recipients-NoRepeats :
    (tos : List Address) (names : List Text)
    → NoRepeats names
    → NoRepeats (add_recipients tos names)
unfolding add_recipients
add_recipients-NoRepeats [] names d = d
add_recipients-NoRepeats (to ∷ tos) names d = elim (Bool-cases (to.address == [])) [
  | inl empty ↦ rw empty (add_recipients-NoRepeats tos names d)
  | inr filled ↦ elim (Bool-cases (member to.address names)) [
    | inl known ↦ rw (filled, known) (add_recipients-NoRepeats tos names d)
    | inr new ↦ rw (filled, new) (add_recipients-NoRepeats tos _ (snoc to.address names new d))
  ]
]
  where
    snoc :
        (x : Text) (xs : List Text)
        → member x xs ≡ false
        → NoRepeats xs
        → NoRepeats (xs ++ (x ∷ []))
    snoc x [] new d = (refl, tt)
    snoc x (y ∷ ys) new (first, d) =
        (ground (arith, member-snoc y x ys, eq_iff y x, eq_iff x y), snoc x ys (ground arith) d)

member-add_recipients :
    (name : Text) (tos : List Address) (names : List Text)
    → member name (add_recipients tos names) ≡ (member name names || receives name tos)
unfolding add_recipients
member-add_recipients name [] names = ground arith
member-add_recipients name (to ∷ tos) names = elim (Bool-cases (to.address == [])) [
  | inl empty ↦ rw empty (member-add_recipients name tos names)
  | inr filled ↦ elim (Bool-cases (member to.address names)) [
    | inl known ↦
        rw (filled, known)
          (member-add_recipients name tos names
            ∙ ground (arith, eq_iff name to.address, ap (λ n. member n names)))
    | inr new ↦
        rw (filled, new)
          (member-add_recipients name tos _ ∙ ground (arith, member-snoc name to.address names))
  ]
]

recipients_of-NoRepeats :
    (headers : Dict EmailHeader) (names : List Text)
    → NoRepeats names
    → NoRepeats (recipients_of headers names)
unfolding recipients_of
recipients_of-NoRepeats [] names d = d
recipients_of-NoRepeats ((id, header) ∷ headers) names d =
    recipients_of-NoRepeats headers _ (add_recipients-NoRepeats header.tos names d)

member-recipients_of :
    (name : Text) (headers : Dict EmailHeader) (names : List Text)
    → member name (recipients_of headers names) ≡ (member name names || is_recipient name headers)
unfolding recipients_of
member-recipients_of name [] names = ground arith
member-recipients_of name ((id, header) ∷ headers) names =
    member-recipients_of name headers _
    ∙ ground (arith, member-add_recipients name header.tos names)

module _ (headers : Dict EmailHeader) where
  abbrev names_of : List Text
  names_of = sort text_lt (recipients_of headers [])

  names_of-Ascending : Ascending names_of
  names_of-Ascending =
      sort-Ascending (recipients_of headers []) (recipients_of-NoRepeats headers [] tt)

  member-names_of : (name : Text) → member name names_of ≡ is_recipient name headers
  member-names_of name =
      member-sort name (recipients_of headers []) ∙ member-recipients_of name headers []

is_recipient-perm :
    (name : Text) (headers headers' : Dict EmailHeader)
    → Perm headers headers'
    → is_recipient name headers ≡ is_recipient name headers'
is_recipient-perm name headers headers' p =
    Perm.foldr-eq (hlevel) (λ entry found. receives name entry.1.tos || found)
      (λ a b found. ground arith) p false

names_of-perm :
    (headers headers' : Dict EmailHeader)
    → Perm headers headers'
    → names_of headers ≡ names_of headers'
names_of-perm headers headers' p =
    Ascending-unique (names_of headers) (names_of headers') (names_of-Ascending headers)
      (names_of-Ascending headers')
      (λ name.
        member-names_of headers name
        ∙ is_recipient-perm name headers headers' p
        ∙ sym (member-names_of headers' name))

-- Go's map of the headers: its entries without an order.
abbrev pub HeaderMap : Type 0
HeaderMap = Quot (Perm {A = Text × EmailHeader})

unfoldable mailboxes_of : HeaderMap → List Text
mailboxes_of = Quot.lift (hlevel) names_of names_of-perm

-- The mailboxes do not depend on the order in which the map of the headers is walked: memory layers
-- whose headers are the same map answer the same.
pub get_mailboxes-order :
    (m m' : Memory)
    → ◌≡◌ {A = HeaderMap} (Quot.mk m.headers) (Quot.mk m'.headers)
    → get_mailboxes m ≡ get_mailboxes m'
unfolding get_mailboxes mailboxes_of
get_mailboxes-order m m' same = ap (λ h. ok (mailboxes_of h)) same
