-- ===== src/Smtp/Rejection.antt =====
-- How often the handler rejects a message, by the reject rate of its settings.
use mock_my_mta.Base.{
  Text, ◌≡◌, refl, ap₂, ◌∙◌, Option, none, some, Bool, true, false, if◌then◌else◌, ◌&&◌, Outcome,
  Error, arith, ℕ, is_some, zero, suc, ltb,
}
use Prim.Native.Nat.{min}
use mock_my_mta.Base.Int.{ℤ, pos, negsuc, pos_part, ltb_ℤ}
use mock_my_mta.Std.{RawHeaders, Reader}
use mock_my_mta.Smtp.{Relays, Behavior, rejection}

-- How many of the numbers below `n` have a property.
abbrev pub count_below : (ℕ → Bool) → ℕ → ℕ
count_below p zero = 0
count_below p (suc n) = if p n then suc (count_below p n) else count_below p n

-- The test of the source has a second guard that the first one implies.
reject_test :
    (rate : ℤ) (draw : ℕ) → (ltb_ℤ (pos 0) rate && ltb_ℤ (pos draw) rate) ≡ ltb draw (pos_part rate)
reject_test (pos n) draw = ground arith
reject_test (negsuc n) draw = ground arith

count_below-same :
    (p q : ℕ → Bool) → ((d : ℕ) → p d ≡ q d) → (n : ℕ) → count_below p n ≡ count_below q n
count_below-same p q same zero = refl
count_below-same p q same (suc n) =
    ap₂ (λ (b : Bool) (m : ℕ). if b then suc m else m) (same n) (count_below-same p q same n)

is_some-if : {A : Type 0} (b : Bool) (a : A) → is_some (if b then some a else none) ≡ b
is_some-if true a = refl
is_some-if false a = refl

count_below-ltb : (n m : ℕ) → count_below (λ d. ltb d m) n ≡ min n m
count_below-ltb zero m = omega arith
count_below-ltb (suc n) m = ground (arith, count_below-ltb n m)

module _ {S : Type 0} (split_host : Text → Outcome Text)
    (set_message : S → RawHeaders → Reader → (S × Text) × Option Error)
    (read_message : Text → Outcome (RawHeaders × Reader)) (relays : Relays) (observed : Bool)
    (b : Behavior) where
  rejected_if :
      (draw : ℕ)
      → is_some (rejection split_host set_message read_message relays observed (some b) draw)
        ≡ ltb draw (pos_part b.reject_rate)
  unfolding rejection
  rejected_if draw =
      rw (reject_test b.reject_rate draw)
        (is_some-if (ltb draw (pos_part b.reject_rate)) b.reject_message)

  count_rejected :
      (n : ℕ)
      → count_below
          (λ draw.
            is_some (rejection split_host set_message read_message relays observed (some b) draw))
          n
        ≡ min n (pos_part b.reject_rate)
  count_rejected n =
      count_below-same _ (λ draw. ltb draw (pos_part b.reject_rate)) rejected_if n
      ∙ count_below-ltb n _

  -- Of the hundred numbers that the source draws from, as many lead to a rejection as the reject
  -- rate says: none for a rate of 0 or less, and all for one of 100 or more.
  pub rejection_rate :
      count_below
        (λ draw.
          is_some (rejection split_host set_message read_message relays observed (some b) draw))
        100
      ≡ min 100 (pos_part b.reject_rate)
  rejection_rate = count_rejected 100
