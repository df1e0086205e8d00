-- ===== src/Packet/Checksum.antt =====
-- src/packet/checksum.rs: the Internet checksum. A u32 sum wraps where the code's would.
pub mod Laws
use udp2raw_rust.Prelude.{
  ℕ, zero, suc, ◌+◌, ◌-◌, ◌*◌, ◌/◌, ◌%◌, ◌^◌, ◌≤◌, ◌<◌, min, max, bit_and, bit_or, bit_xor, ◌≡◌,
  refl, sym, ap, ap₂, ◌∙◌, subst, ◌≢◌, ◌↔◌, ◌⊎◌, inl, inr, Bool, true, false, not, ◌&&◌, ◌||◌,
  Option, none, some, List, [], ◌∷◌, ◌++◌, map, append-nil, append_assoc, arith, dec_lt, ℕ_discrete,
  ltb, leb, ◌==◌, if◌then◌else◌, ◌>>=◌, ◌>>◌, guard, ltb→lt, lt→ltb, leb→le, ==_iff, ==-refl, tests,
  Bool-cases, Option-cases, IfSome, IfSome-some, IfSome-map, if_cases, zero-bit_xor, differ_bits,
  bit_xor_parts, bit_xor_cancel, zero-bit_or, le-bit_or, bit_xor-lt, bit_xor-eq-zero, bit_xor_self,
  length, set, get_or, take, drop, replicate, length-append, length-set, get_or-set_self,
  get_or-set_ne, length-replicate, get_or-replicate, length-take, length-drop, take-append,
  drop-append, take-append-drop, take_of_length-le, drop-append_past, get_or-append_past,
  get_or-append_before, drop_of_length-le, u64_max, u32_max, sat_add, sat_mul, sat_add32, clamp,
  byte_at, ◌<<<◌, ◌>>>◌, AreBytes, append-AreBytes, take-AreBytes, drop-AreBytes,
  replicate-AreBytes,
}

-- The words of `chunks_exact(2)`, and the last byte on its own in the high half.
unfoldable pub sum_words : ℕ → List ℕ → ℕ
sum_words acc [] = acc
sum_words acc (a ∷ []) = (acc + a * 256) % 2 ^ 32
sum_words acc (a ∷ b ∷ rest) = sum_words ((acc + (a * 256 + b)) % 2 ^ 32) rest

-- `!(acc as u16)` after the two folds.
unfoldable pub fold : ℕ → ℕ
fold acc =
    let once = acc / 2 ^ 16 + acc % 2 ^ 16 in 2 ^ 16 - 1 - (once + once / 2 ^ 16) % 2 ^ 32 % 2 ^ 16

unfoldable pub csum : List ℕ → ℕ
unfolding sum_words fold
csum bytes = fold (sum_words 0 bytes)

unfoldable pub csum_with_pseudo : List ℕ → List ℕ → ℕ
unfolding sum_words fold
csum_with_pseudo pseudo bytes = fold (sum_words (sum_words 0 pseudo) bytes)

unfoldable pub verify : List ℕ → Bool
unfolding csum
verify bytes = csum bytes == 0

unfoldable pub verify_with_pseudo : List ℕ → List ℕ → Bool
unfolding csum_with_pseudo
verify_with_pseudo pseudo bytes = csum_with_pseudo pseudo bytes == 0
