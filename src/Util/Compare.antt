-- ===== src/Util/Compare.antt =====
-- src/util.rs, `ct_eq`: the constant-time comparison against equality.
use udp2raw_rust.Prelude.{
  ℕ, bit_or, bit_xor, ◌≡◌, refl, ap₂, ◌↔◌, true, List, [], ◌∷◌, arith, le-bit_or, bit_xor-eq-zero,
  bit_xor_self, length,
}
use udp2raw_rust.Util.{ct_diff, ct_eq}

ct_diff-eq-zero :
    (acc : ℕ) (xs ys : List ℕ)
    → length xs ≡ length ys
    → ct_diff acc xs ys ≡ 0
    → (acc ≡ 0) × (xs ≡ ys)
unfolding ct_diff
ct_diff-eq-zero acc [] [] len h = (h, refl)
ct_diff-eq-zero acc [] (y ∷ ys) len h = absurd (omega arith)
ct_diff-eq-zero acc (x ∷ xs) [] len h = absurd (omega arith)
ct_diff-eq-zero acc (x ∷ xs) (y ∷ ys) len h =
    let rest = ct_diff-eq-zero (bit_or acc (bit_xor x y)) xs ys (omega arith) h in
    (
      omega (arith, rest.0, le-bit_or acc (bit_xor x y)),
      ap₂ ◌∷◌ (bit_xor-eq-zero x y (omega (arith, rest.0, le-bit_or acc (bit_xor x y)))) rest.1,
    )

ct_diff_self : (xs : List ℕ) → ct_diff 0 xs xs ≡ 0
unfolding ct_diff
ct_diff_self [] = refl
ct_diff_self (x ∷ xs) = rw (bit_xor_self x) (ct_diff_self xs)

-- The constant-time comparison says `true` exactly on equal byte strings.
pub ct_eq_iff : (a b : List ℕ) → (ct_eq a b ≡ true) ↔ (a ≡ b)
unfolding ct_eq
ct_eq_iff a b = (forward, λ e. rw (← e) (ground (arith, ct_diff_self a)))
  where
    forward : ct_eq a b ≡ true → a ≡ b
    forward h = ground (arith, ct_diff-eq-zero 0 a b)
