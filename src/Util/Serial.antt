-- ===== src/Util/Serial.antt =====
-- Serial-number comparison across the wrap of a word.
use udp2raw_rust.Prelude.{ℕ, ◌+◌, ◌%◌, ◌^◌, ◌<◌, ◌≡◌, true, false, arith}
use udp2raw_rust.Util.{larger_than_u32, larger_than_u16}

-- Advancing a 32-bit serial number by less than half the range makes it larger, also across the
-- wrap, and the old one is not larger than the new.
pub larger_than_u32_add :
    (b k : ℕ)
    → b < 2 ^ 32
    → 0 < k
    → k < 2 ^ 31
    → (larger_than_u32 ((b + k) % 2 ^ 32) b ≡ true) × (larger_than_u32 b ((b + k) % 2 ^ 32) ≡ false)
unfolding larger_than_u32
larger_than_u32_add b k hb pos h = ground arith

pub larger_than_u16_add :
    (b k : ℕ)
    → b < 2 ^ 16
    → 0 < k
    → k < 2 ^ 15
    → (larger_than_u16 ((b + k) % 2 ^ 16) b ≡ true) × (larger_than_u16 b ((b + k) % 2 ^ 16) ≡ false)
unfolding larger_than_u16
larger_than_u16_add b k hb pos h = ground arith
