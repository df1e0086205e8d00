-- ===== src/Prelude/Xor.antt =====
-- Lemmas on `bit_xor`.
use Prim.Native.Nat.{
  ℕ, zero, suc, ◌+◌, ◌*◌, ◌/◌, ◌%◌, ◌≤◌, ◌<◌, bit_xor, digits, bit_xor-bitwise, differ,
}
use mathlib.Core.Path.{◌≡◌, refl, ◌∙◌}
use native.Mathlib.Omega.{arith}

abbrev xor_digits : ℕ → ℕ → ℕ → ℕ
xor_digits n a b = digits (λ y. y) differ n a b

xor_digits_fuel : (n m a b : ℕ) → a ≤ n → a ≤ m → xor_digits n a b ≡ xor_digits m a b
xor_digits_fuel zero zero a b p q = refl
xor_digits_fuel zero (suc m) zero b p q = refl
xor_digits_fuel zero (suc m) (suc a) b p q = absurd (omega arith)
xor_digits_fuel (suc n) zero zero b p q = refl
xor_digits_fuel (suc n) zero (suc a) b p q = absurd (omega arith)
xor_digits_fuel (suc n) (suc m) zero b p q = refl
xor_digits_fuel (suc n) (suc m) (suc a) b p q =
    omega (arith, xor_digits_fuel n m (suc a / 2) (b / 2) (omega arith) (omega arith))

pub zero-bit_xor : (b : ℕ) → bit_xor 0 b ≡ b
zero-bit_xor b = bit_xor-bitwise 0 b

bit_xor_step : (a b : ℕ) → bit_xor a b ≡ bit_xor (a / 2) (b / 2) * 2 + differ (a % 2) (b % 2)
bit_xor_step zero b = omega (arith, zero-bit_xor b, zero-bit_xor (b / 2))
bit_xor_step (suc a) b = omega (
  arith,
  bit_xor-bitwise (suc a) b,
  bit_xor-bitwise (suc a / 2) (b / 2),
  xor_digits_fuel a (suc a / 2) (suc a / 2) (b / 2) (omega arith) (omega arith),
)

pub differ_bits : (x y : ℕ) → x < 2 → y < 2 → (differ (differ x y) y ≡ x) × (differ x y < 2)
differ_bits zero zero p q = (refl, omega arith)
differ_bits zero (suc zero) p q = (refl, omega arith)
differ_bits (suc zero) zero p q = (refl, omega arith)
differ_bits (suc zero) (suc zero) p q = (refl, omega arith)
differ_bits (suc (suc x)) y p q = absurd (omega arith)
differ_bits zero (suc (suc y)) p q = absurd (omega arith)
differ_bits (suc zero) (suc (suc y)) p q = absurd (omega arith)

pub bit_xor_parts :
    (a k : ℕ)
    → (bit_xor a k / 2 ≡ bit_xor (a / 2) (k / 2)) × (bit_xor a k % 2 ≡ differ (a % 2) (k % 2))
bit_xor_parts a k =
    let b = differ_bits (a % 2) (k % 2) (omega arith) (omega arith) in
    (omega (arith, bit_xor_step a k), omega (arith, bit_xor_step a k))

bit_xor_cancel_fuel : (n a k : ℕ) → a ≤ n → k ≤ n → bit_xor (bit_xor a k) k ≡ a
bit_xor_cancel_fuel zero zero zero p q = refl
bit_xor_cancel_fuel zero zero (suc k) p q = absurd (omega arith)
bit_xor_cancel_fuel zero (suc a) k p q = absurd (omega arith)
bit_xor_cancel_fuel (suc n) a k p q =
    let halves = bit_xor_cancel_fuel n (a / 2) (k / 2) (omega arith) (omega arith) in
    let bits = differ_bits (a % 2) (k % 2) (omega arith) (omega arith) in
    bit_xor_step (bit_xor a k) k
    ∙ rw ((bit_xor_parts a k).0, (bit_xor_parts a k).1, halves, bits.0) (omega arith)

pub bit_xor_cancel : (a k : ℕ) → bit_xor (bit_xor a k) k ≡ a
bit_xor_cancel a k = bit_xor_cancel_fuel (a + k) a k (omega arith) (omega arith)
