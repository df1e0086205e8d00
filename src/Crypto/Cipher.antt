-- ===== src/Crypto/Cipher.antt =====
-- src/crypto/cipher.rs: the cipher modes over a block cipher. The AES block functions are those of
-- the `aes` crate (`AesKey::Crate`), a parameter; a block is a list of 16 bytes.
pub mod Padding
pub mod Xor
pub mod Cbc
pub mod Cfb
use udp2raw_rust.Prelude.{
  ℕ, zero, suc, ◌+◌, ◌-◌, ◌*◌, ◌/◌, ◌%◌, Bool, true, false, not, ◌||◌, List, [], ◌∷◌, ◌++◌, Option,
  none, some, bit_xor, ltb, ◌==◌, if◌then◌else◌, length, set, take, drop, replicate, byte_at,
}

-- `CipherMode`; `no_cipher` is its `None`.
pub data CipherMode : Type 0 where
  no_cipher xor aes128_cbc aes128_cfb chacha20_poly1305 : CipherMode

abbrev pub is_aes : CipherMode → Bool
is_aes aes128_cbc = true
is_aes aes128_cfb = true
is_aes _ = false

abbrev pub is_aead : CipherMode → Bool
is_aead chacha20_poly1305 = true
is_aead _ = false

pub record AesKey : Type 0 where
  pub encrypt_block : List ℕ → List ℕ
  pub decrypt_block : List ℕ → List ℕ

-- `a[i] ^ b[i]` over the length of `a`, where `b` is at least as long.
unfoldable pub xor_bytes : List ℕ → List ℕ → List ℕ
xor_bytes [] ys = []
xor_bytes (x ∷ xs) [] = x ∷ xs
xor_bytes (x ∷ xs) (y ∷ ys) = bit_xor x y ∷ xor_bytes xs ys

-- `chunks_exact(16)` with `blocks` chunks left; a remainder is not touched.
unfoldable pub cbc_encrypt : AesKey → ℕ → List ℕ → List ℕ → List ℕ
cbc_encrypt k zero prev bytes = bytes
cbc_encrypt k (suc blocks) prev bytes =
    let b = k.encrypt_block (xor_bytes (take 16 bytes) prev) in
    b ++ cbc_encrypt k blocks b (drop 16 bytes)

unfoldable pub cbc_encrypt_zero_iv : AesKey → List ℕ → List ℕ
cbc_encrypt_zero_iv k bytes = cbc_encrypt k (length bytes / 16) (replicate 16 0) bytes

unfoldable pub cbc_decrypt : AesKey → ℕ → List ℕ → List ℕ → List ℕ
cbc_decrypt k zero prev bytes = bytes
cbc_decrypt k (suc blocks) prev bytes =
    let ct = take 16 bytes in
    xor_bytes (k.decrypt_block ct) prev ++ cbc_decrypt k blocks ct (drop 16 bytes)

unfoldable pub cbc_decrypt_zero_iv : AesKey → List ℕ → List ℕ
cbc_decrypt_zero_iv k bytes = cbc_decrypt k (length bytes / 16) (replicate 16 0) bytes

-- The register is encrypted at the start of each block of 16.
abbrev pub refresh : AesKey → ℕ → List ℕ → List ℕ
refresh k off iv = if off == 0 then k.encrypt_block iv else iv

unfoldable pub cfb_encrypt : AesKey → List ℕ → ℕ → List ℕ → List ℕ
cfb_encrypt k iv off [] = []
cfb_encrypt k iv off (x ∷ xs) =
    let iv' = refresh k off iv in
    let c = bit_xor x (byte_at iv' off) in c ∷ cfb_encrypt k (set iv' off c) ((off + 1) % 16) xs

unfoldable pub cfb_encrypt_zero_iv : AesKey → List ℕ → List ℕ
cfb_encrypt_zero_iv k bytes = cfb_encrypt k (replicate 16 0) 0 bytes

unfoldable pub cfb_decrypt : AesKey → List ℕ → ℕ → List ℕ → List ℕ
cfb_decrypt k iv off [] = []
cfb_decrypt k iv off (c ∷ cs) =
    let iv' = refresh k off iv in
    bit_xor c (byte_at iv' off) ∷ cfb_decrypt k (set iv' off c) ((off + 1) % 16) cs

unfoldable pub cfb_decrypt_zero_iv : AesKey → List ℕ → List ℕ
cfb_decrypt_zero_iv k bytes = cfb_decrypt k (replicate 16 0) 0 bytes

abbrev pub padded_len : ℕ → ℕ
padded_len old = if not ((old + 1) % 16 == 0) then (old + 1) / 16 * 16 + 16 else old + 1

-- `resize(new_len, 0)`, and the last byte is the number of bytes added.
unfoldable pub pad16 : List ℕ → List ℕ
pad16 buf =
    let old = length buf in
    let new_len = padded_len old in
    set (buf ++ replicate (new_len - old) 0) (new_len - 1) ((new_len - old) % 256)

-- `none` is a return of `false`.
unfoldable pub unpad16 : List ℕ → Option (List ℕ)
unpad16 buf =
    if length buf == 0
    then none
    else (let p = byte_at buf (length buf - 1) in
        if ltb 16 p || ltb (length buf) p then none else some (take (length buf - p) buf))

-- `*b ^= key16[i & 15]`, from index `i` on.
unfoldable pub xor_from : ℕ → List ℕ → List ℕ → List ℕ
xor_from i [] key16 = []
xor_from i (b ∷ bs) key16 = bit_xor b (byte_at key16 (i % 16)) ∷ xor_from (i + 1) bs key16

unfoldable pub xor_in_place : List ℕ → List ℕ → List ℕ
unfolding xor_from
xor_in_place bytes key16 = xor_from 0 bytes key16
