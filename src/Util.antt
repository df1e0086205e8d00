-- ===== src/Util.antt =====
-- src/util.rs: byte order, serial-number comparison, constant-time equality. `Hex` and `Pool` are the
-- hexadecimal text and the buffer pool.
use udp2raw_rust.Prelude.{
  ℕ, suc, ◌+◌, ◌-◌, ◌*◌, ◌/◌, ◌%◌, ◌^◌, ◌≤◌, ◌<◌, Bool, true, false, ◌&&◌, not, List, [], ◌∷◌,
  Option, none, some, bit_or, bit_xor, ltb, leb, ◌==◌, if◌then◌else◌, length, byte_at,
}
pub mod ByteOrder
pub mod Serial
pub mod Compare
pub mod Hex
pub mod Pool
pub mod Tests

-- `to_be_bytes` of a u16, a u32 and a u64, which the write functions copy into place.
unfoldable pub write_u16_be : ℕ → List ℕ
write_u16_be v = (v / 256 % 256) ∷ (v % 256) ∷ []

unfoldable pub write_u32_be : ℕ → List ℕ
write_u32_be v = (v / 2 ^ 24 % 256) ∷ (v / 2 ^ 16 % 256) ∷ (v / 256 % 256) ∷ (v % 256) ∷ []

unfoldable pub write_u64_be : ℕ → List ℕ
write_u64_be v =
    (v / 2 ^ 56 % 256)
    ∷ (v / 2 ^ 48 % 256)
    ∷ (v / 2 ^ 40 % 256)
    ∷ (v / 2 ^ 32 % 256)
    ∷ (v / 2 ^ 24 % 256)
    ∷ (v / 2 ^ 16 % 256)
    ∷ (v / 256 % 256)
    ∷ (v % 256)
    ∷ []

-- `p[0]`, `p[1]`, …: a caller has tested that the slice is long enough.
unfoldable pub read_u16_be : List ℕ → ℕ
read_u16_be p = byte_at p 0 * 256 + byte_at p 1

unfoldable pub read_u32_be : List ℕ → ℕ
read_u32_be p = byte_at p 0 * 2 ^ 24 + byte_at p 1 * 2 ^ 16 + byte_at p 2 * 256 + byte_at p 3

unfoldable pub read_u64_be : List ℕ → ℕ
read_u64_be p =
    byte_at p 0 * 2 ^ 56
    + byte_at p 1 * 2 ^ 48
    + byte_at p 2 * 2 ^ 40
    + byte_at p 3 * 2 ^ 32
    + byte_at p 4 * 2 ^ 24
    + byte_at p 5 * 2 ^ 16
    + byte_at p 6 * 256
    + byte_at p 7

-- `(a.wrapping_sub(b) as i32) > 0`: the difference, as a bit pattern, is positive and has its sign
-- bit clear.
unfoldable pub larger_than_u32 : ℕ → ℕ → Bool
larger_than_u32 a b = let d = (a + 2 ^ 32 - b) % 2 ^ 32 in ltb 0 d && ltb d (2 ^ 31)

unfoldable pub larger_than_u16 : ℕ → ℕ → Bool
larger_than_u16 a b = let d = (a + 2 ^ 16 - b) % 2 ^ 16 in ltb 0 d && ltb d (2 ^ 15)

-- The loop of `ct_eq` over the zipped slices.
unfoldable pub ct_diff : ℕ → List ℕ → List ℕ → ℕ
ct_diff acc [] ys = acc
ct_diff acc (x ∷ xs) [] = acc
ct_diff acc (x ∷ xs) (y ∷ ys) = ct_diff (bit_or acc (bit_xor x y)) xs ys

unfoldable pub ct_eq : List ℕ → List ℕ → Bool
unfolding ct_diff
ct_eq a b = if not (length a == length b) then false else ct_diff 0 a b == 0
