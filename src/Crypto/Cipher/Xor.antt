-- ===== src/Crypto/Cipher/Xor.antt =====
-- src/crypto/cipher.rs: the xor mode.
use udp2raw_rust.Prelude.{ℕ, ◌+◌, ◌%◌, ◌≡◌, refl, ap, ap₂, [], bit_xor_cancel, bit_xor-lt, AreBytes}
use udp2raw_rust.Crypto.Cipher.{xor_bytes, xor_from, xor_in_place, List, ◌∷◌, length, suc, byte_at}

xor_from_twice : (i : ℕ) (bytes key : List ℕ) → xor_from i (xor_from i bytes key) key ≡ bytes
unfolding xor_from
xor_from_twice i [] key = refl
xor_from_twice i (b ∷ bs) key =
    ap₂ ◌∷◌ (bit_xor_cancel b (byte_at key (i % 16))) (xor_from_twice (i + 1) bs key)

pub xor_in_place_twice : (bytes key : List ℕ) → xor_in_place (xor_in_place bytes key) key ≡ bytes
unfolding xor_in_place
xor_in_place_twice bytes key = xor_from_twice 0 bytes key

pub xor_bytes_twice : (xs ys : List ℕ) → xor_bytes (xor_bytes xs ys) ys ≡ xs
unfolding xor_bytes
xor_bytes_twice [] ys = refl
xor_bytes_twice (x ∷ xs) [] = refl
xor_bytes_twice (x ∷ xs) (y ∷ ys) = ap₂ ◌∷◌ (bit_xor_cancel x y) (xor_bytes_twice xs ys)

pub length-xor_bytes : (xs ys : List ℕ) → length (xor_bytes xs ys) ≡ length xs
unfolding xor_bytes
length-xor_bytes [] ys = refl
length-xor_bytes (x ∷ xs) [] = refl
length-xor_bytes (x ∷ xs) (y ∷ ys) = ap suc (length-xor_bytes xs ys)

pub xor_bytes-AreBytes : (xs ys : List ℕ) → AreBytes xs → AreBytes ys → AreBytes (xor_bytes xs ys)
unfolding xor_bytes
xor_bytes-AreBytes [] ys p q = tt
xor_bytes-AreBytes (x ∷ xs) [] p q = p
xor_bytes-AreBytes (x ∷ xs) (y ∷ ys) p q =
    (bit_xor-lt 8 x y p.0 q.0, xor_bytes-AreBytes xs ys p.1 q.1)
