-- ===== src/Util/ByteOrder.antt =====
-- src/util.rs: the big-endian writers and readers.
use udp2raw_rust.Prelude.{ℕ, ◌^◌, ◌<◌, ◌≡◌, List, [], ◌∷◌, ◌++◌, arith, AreBytes}
use udp2raw_rust.Util.{
  write_u16_be, write_u32_be, write_u64_be, read_u16_be, read_u32_be, read_u64_be,
}

pub read_u16_be-write : (v : ℕ) (r : List ℕ) → v < 2 ^ 16 → read_u16_be (write_u16_be v ++ r) ≡ v
unfolding read_u16_be write_u16_be
read_u16_be-write v r h = omega arith

pub read_u32_be-write : (v : ℕ) (r : List ℕ) → v < 2 ^ 32 → read_u32_be (write_u32_be v ++ r) ≡ v
unfolding read_u32_be write_u32_be
read_u32_be-write v r h = omega arith

pub read_u64_be-write : (v : ℕ) (r : List ℕ) → v < 2 ^ 64 → read_u64_be (write_u64_be v ++ r) ≡ v
unfolding read_u64_be write_u64_be
read_u64_be-write v r h = omega arith

pub write_u16_be-AreBytes : (v : ℕ) → AreBytes (write_u16_be v)
unfolding write_u16_be
write_u16_be-AreBytes v = omega arith

pub write_u32_be-AreBytes : (v : ℕ) → AreBytes (write_u32_be v)
unfolding write_u32_be
write_u32_be-AreBytes v = omega arith

pub write_u64_be-AreBytes : (v : ℕ) → AreBytes (write_u64_be v)
unfolding write_u64_be
write_u64_be-AreBytes v = omega arith

pub write_u16_be-read :
    (a b : ℕ) (r : List ℕ)
    → AreBytes (a ∷ b ∷ [])
    → write_u16_be (read_u16_be (a ∷ b ∷ r)) ≡ a ∷ b ∷ []
unfolding read_u16_be write_u16_be
write_u16_be-read a b r h = ground arith

pub write_u32_be-read :
    (a b c d : ℕ) (r : List ℕ)
    → AreBytes (a ∷ b ∷ c ∷ d ∷ [])
    → write_u32_be (read_u32_be (a ∷ b ∷ c ∷ d ∷ r)) ≡ a ∷ b ∷ c ∷ d ∷ []
unfolding read_u32_be write_u32_be
write_u32_be-read a b c d r h = ground arith

pub read_u16_be-lt :
    (a b : ℕ) (r : List ℕ) → AreBytes (a ∷ b ∷ []) → read_u16_be (a ∷ b ∷ r) < 2 ^ 16
unfolding read_u16_be
read_u16_be-lt a b r h = omega arith

pub write_u64_be-read :
    (a b c d e f g h : ℕ) (r : List ℕ)
    → AreBytes (a ∷ b ∷ c ∷ d ∷ e ∷ f ∷ g ∷ h ∷ [])
    → write_u64_be (read_u64_be (a ∷ b ∷ c ∷ d ∷ e ∷ f ∷ g ∷ h ∷ r))
      ≡ a ∷ b ∷ c ∷ d ∷ e ∷ f ∷ g ∷ h ∷ []
unfolding read_u64_be write_u64_be
write_u64_be-read a b c d e f g h r p = ground arith

pub read_u32_be-lt :
    (a b c d : ℕ) (r : List ℕ)
    → AreBytes (a ∷ b ∷ c ∷ d ∷ [])
    → read_u32_be (a ∷ b ∷ c ∷ d ∷ r) < 2 ^ 32
unfolding read_u32_be
read_u32_be-lt a b c d r p = omega arith
