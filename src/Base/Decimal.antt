-- ===== src/Base/Decimal.antt =====
-- `fmt.Sprintf("%v", n)` and `strconv.Itoa` of a number that is not negative.
use Prim.Native.Nat.{ℕ, zero, suc, ◌+◌, ◌-◌, ◌*◌, ◌/◌, ◌%◌, ◌≤◌}
use mathlib.Core.Path.{◌≡◌, sym, ◌∙◌, ap}
use mathlib.Core.List.{[], ◌∷◌}
use mathlib.Core.Logic.{inl, inr}
use native.Mathlib.Omega.{arith}
use mock_my_mta.Base.Bools.{ltb, if◌then◌else◌, Bool-cases}
use mock_my_mta.Base.Texts.{Text}

-- The digits of `n` in front of a text. A number has at most as many rounds as its value.
unfoldable pub itoa_acc : ℕ → ℕ → Text → Text
itoa_acc zero n out = (48 + n % 10) ∷ out
itoa_acc (suc f) n out =
    let rest = itoa_acc f (n / 10) ((48 + n % 10) ∷ out) in
    if ltb n 10 then (48 + n % 10) ∷ out else rest

unfoldable pub itoa : ℕ → Text
unfolding itoa_acc
itoa n = itoa_acc n n []

-- The number that digits stand for, behind those already read.
unfoldable pub digits_value : ℕ → Text → ℕ
digits_value v [] = v
digits_value v (c ∷ s) = digits_value (v * 10 + (c - 48)) s

digits_value-itoa_acc :
    (f n : ℕ) (out : Text) → n ≤ f → digits_value 0 (itoa_acc f n out) ≡ digits_value n out
unfolding digits_value itoa_acc
digits_value-itoa_acc zero n out h = ap (λ v. digits_value v out) (omega arith)
digits_value-itoa_acc (suc f) n out h = elim (Bool-cases (ltb n 10)) [
  | inl e ↦ rw e (ap (λ v. digits_value v out) (ground arith))
  | inr e ↦ rw e (
      digits_value-itoa_acc f (n / 10) ((48 + n % 10) ∷ out) (ground arith)
      ∙ ap (λ v. digits_value v out) (ground arith))
]

pub digits_value-itoa : (n : ℕ) → digits_value 0 (itoa n) ≡ n
unfolding itoa digits_value
digits_value-itoa n = digits_value-itoa_acc n n [] (omega arith)

-- Different numbers print differently.
pub itoa_injective : (m n : ℕ) → itoa m ≡ itoa n → m ≡ n
itoa_injective m n e = sym (digits_value-itoa m) ∙ ap (digits_value 0) e ∙ digits_value-itoa n
