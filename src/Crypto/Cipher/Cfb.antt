-- ===== src/Crypto/Cipher/Cfb.antt =====
-- src/crypto/cipher.rs: CFB encryption and decryption, which both run the block function forwards.
use udp2raw_rust.Prelude.{ℕ, ◌≡◌, refl, ap, ap₂, [], bit_xor_cancel}
use udp2raw_rust.Crypto.Cipher.{
  AesKey, refresh, cfb_encrypt, cfb_decrypt, cfb_encrypt_zero_iv, cfb_decrypt_zero_iv, List, length,
  replicate, ◌∷◌, suc, byte_at,
}

cfb_decrypt-encrypt :
    (k : AesKey) (bytes iv : List ℕ) (off : ℕ)
    → cfb_decrypt k iv off (cfb_encrypt k iv off bytes) ≡ bytes
unfolding cfb_encrypt cfb_decrypt
cfb_decrypt-encrypt k [] iv off = refl
cfb_decrypt-encrypt k (x ∷ xs) iv off =
    ap₂ ◌∷◌ (bit_xor_cancel x (byte_at (refresh k off iv) off)) (cfb_decrypt-encrypt k xs _ _)

pub cfb_zero_iv_inverse :
    (k : AesKey) (bytes : List ℕ) → cfb_decrypt_zero_iv k (cfb_encrypt_zero_iv k bytes) ≡ bytes
unfolding cfb_encrypt_zero_iv cfb_decrypt_zero_iv
cfb_zero_iv_inverse k bytes = cfb_decrypt-encrypt k bytes (replicate 16 0) 0

length-cfb_encrypt :
    (k : AesKey) (bytes iv : List ℕ) (off : ℕ) → length (cfb_encrypt k iv off bytes) ≡ length bytes
unfolding cfb_encrypt
length-cfb_encrypt k [] iv off = refl
length-cfb_encrypt k (x ∷ xs) iv off = ap suc (length-cfb_encrypt k xs _ _)

pub length-cfb_zero_iv :
    (k : AesKey) (bytes : List ℕ) → length (cfb_encrypt_zero_iv k bytes) ≡ length bytes
unfolding cfb_encrypt_zero_iv
length-cfb_zero_iv k bytes = length-cfb_encrypt k bytes (replicate 16 0) 0
