-- ===== src/Base/Decimal.antt =====
-- Decimal digits: what `std::to_string` prints reads back as the number.
use Prim.Native.Nat.{ℕ, zero, suc, ◌+◌, ◌-◌, ◌*◌, ◌/◌, ◌%◌, ◌<◌}
use mathlib.Core.Path.{◌≡◌, refl}
use mathlib.Core.Bool.{Bool, true, ◌&&◌}
use mathlib.Core.Logic.{inl, inr}
use mathlib.Core.List.{[], ◌∷◌, ◌++◌}
use native.Mathlib.Omega.{arith}
use netprobe_cpp.Base.Tests.{ltb, leb, Bool-cases}
use netprobe_cpp.Base.Text.{Bytes, decimal, to_string}

unfoldable pub is_digit : ℕ → Bool
is_digit c = leb b'0' c && leb c b'9'

unfoldable pub all_digits : Bytes → Bool
all_digits [] = true
all_digits (c ∷ cs) = is_digit c && all_digits cs

-- The number that digits stand for, behind those of `value`.
unfoldable pub digits_value : ℕ → Bytes → ℕ
digits_value value [] = value
digits_value value (c ∷ cs) = digits_value (value * 10 + (c - b'0')) cs

all_digits-append :
    (s t : Bytes) → all_digits s ≡ true → all_digits t ≡ true → all_digits (s ++ t) ≡ true
unfolding all_digits
all_digits-append [] t h k = k
all_digits-append (c ∷ s) t h k = ground (arith, all_digits-append s t)

digits_value-append :
    (s t : Bytes) (value : ℕ) → digits_value value (s ++ t) ≡ digits_value (digits_value value s) t
unfolding digits_value
digits_value-append [] t value = refl
digits_value-append (c ∷ s) t value = digits_value-append s t (value * 10 + (c - b'0'))

decimal-digits :
    (fuel n : ℕ)
    → n < fuel
    → (all_digits (decimal fuel n) ≡ true) × (digits_value 0 (decimal fuel n) ≡ n)
unfolding decimal all_digits digits_value is_digit
decimal-digits zero n h = absurd (omega arith)
decimal-digits (suc fuel) n h = elim (Bool-cases (ltb n 10)) [
  | inl small ↦ ground arith
  | inr large ↦
      let front = decimal-digits fuel (n / 10) (ground arith) in
      ground (
        arith,
        front,
        all_digits-append (decimal fuel (n / 10)) ((b'0' + n % 10) ∷ []),
        digits_value-append (decimal fuel (n / 10)) ((b'0' + n % 10) ∷ []) 0,
      )
]

pub to_string-digits :
    (n : ℕ) → (all_digits (to_string n) ≡ true) × (digits_value 0 (to_string n) ≡ n)
unfolding to_string
to_string-digits n = decimal-digits (suc n) n (omega arith)
