-- ===== src/Crypto/Cipher/Cbc.antt =====
-- src/crypto/cipher.rs: CBC encryption and decryption under a block cipher.
use udp2raw_rust.Prelude.{
  ℕ, zero, suc, ◌*◌, ◌/◌, ◌%◌, ◌≡◌, refl, ◌∙◌, ◌++◌, arith, take, drop, replicate, length-append,
  length-take, length-drop, take-append, drop-append, take-append-drop, AreBytes, take-AreBytes,
  drop-AreBytes, replicate-AreBytes,
}
use udp2raw_rust.Crypto.Cipher.{
  AesKey, xor_bytes, cbc_encrypt, cbc_decrypt, cbc_encrypt_zero_iv, cbc_decrypt_zero_iv, List,
  length,
}
use udp2raw_rust.Crypto.Cipher.Xor.{xor_bytes_twice, length-xor_bytes, xor_bytes-AreBytes}

-- What a block cipher is documented to do on blocks of 16 bytes.
pub record IsBlockCipher (k : AesKey) : Type 0 where
  pub length_block : (b : List ℕ) → length b ≡ 16 → length (k.encrypt_block b) ≡ 16
  pub block-AreBytes : (b : List ℕ) → AreBytes b → AreBytes (k.encrypt_block b)
  pub inverse : (b : List ℕ) → length b ≡ 16 → AreBytes b → k.decrypt_block (k.encrypt_block b) ≡ b

pub take_first : (n : ℕ) (b r : List ℕ) → length b ≡ n → take n (b ++ r) ≡ b
take_first n b r h = rw h at (take-append b r)

pub drop_first : (n : ℕ) (b r : List ℕ) → length b ≡ n → drop n (b ++ r) ≡ r
drop_first n b r h = rw h at (drop-append b r)

module _ (k : AesKey) (law : IsBlockCipher k) where
  -- The cipher block of the first chunk.
  abbrev first_block : List ℕ → List ℕ → List ℕ
  first_block prev bytes = k.encrypt_block (xor_bytes (take 16 bytes) prev)

  length-chunk : (n : ℕ) (bytes : List ℕ) → length bytes ≡ suc n * 16 → length (take 16 bytes) ≡ 16
  length-chunk n bytes h = omega (arith, length-take 16 bytes)

  length-rest :
      (n : ℕ) (bytes : List ℕ) → length bytes ≡ suc n * 16 → length (drop 16 bytes) ≡ n * 16
  length-rest n bytes h = omega (arith, length-drop 16 bytes)

  length-first_block :
      (n : ℕ) (prev bytes : List ℕ)
      → length bytes ≡ suc n * 16
      → length (first_block prev bytes) ≡ 16
  length-first_block n prev bytes h =
      law.length_block _ (length-xor_bytes (take 16 bytes) prev ∙ length-chunk n bytes h)

  cbc_inverse :
      (blocks : ℕ) (prev bytes : List ℕ)
      → length bytes ≡ blocks * 16
      → AreBytes prev
      → AreBytes bytes
      → cbc_decrypt k blocks prev (cbc_encrypt k blocks prev bytes) ≡ bytes
  unfolding cbc_encrypt cbc_decrypt
  cbc_inverse zero prev bytes len p q = refl
  cbc_inverse (suc blocks) prev bytes len p q =
      let b = first_block prev bytes in
      let rest = cbc_encrypt k blocks b (drop 16 bytes) in
      let whole = length-first_block blocks prev bytes len in
      let mixed = xor_bytes-AreBytes (take 16 bytes) prev (take-AreBytes 16 bytes q) p in
      let undone =
        law.inverse (xor_bytes (take 16 bytes) prev)
          (length-xor_bytes (take 16 bytes) prev ∙ length-chunk blocks bytes len) mixed in
      let later =
        cbc_inverse blocks b (drop 16 bytes) (length-rest blocks bytes len)
          (law.block-AreBytes _ mixed) (drop-AreBytes 16 bytes q) in
      rw
        (
          take_first 16 b rest whole,
          drop_first 16 b rest whole,
          undone,
          xor_bytes_twice (take 16 bytes) prev,
          later,
        )
        (take-append-drop 16 bytes)

  pub length-cbc_encrypt :
      (blocks : ℕ) (prev bytes : List ℕ)
      → length bytes ≡ blocks * 16
      → length (cbc_encrypt k blocks prev bytes) ≡ blocks * 16
  unfolding cbc_encrypt
  length-cbc_encrypt zero prev bytes len = len
  length-cbc_encrypt (suc blocks) prev bytes len =
      let b = first_block prev bytes in
      omega (
        arith,
        length-append b (cbc_encrypt k blocks b (drop 16 bytes)),
        length-first_block blocks prev bytes len,
        length-cbc_encrypt blocks b (drop 16 bytes) (length-rest blocks bytes len),
      )

  -- Whole blocks of bytes come back.
  pub cbc_zero_iv_inverse :
      (bytes : List ℕ)
      → length bytes % 16 ≡ 0
      → AreBytes bytes
      → (cbc_decrypt_zero_iv k (cbc_encrypt_zero_iv k bytes) ≡ bytes)
        × (length (cbc_encrypt_zero_iv k bytes) ≡ length bytes)
  unfolding cbc_encrypt_zero_iv cbc_decrypt_zero_iv
  cbc_zero_iv_inverse bytes whole q =
      let n = length bytes / 16 in
      let len = length-cbc_encrypt n (replicate 16 0) bytes (omega arith) in
      let same : length (cbc_encrypt k n (replicate 16 0) bytes) ≡ length bytes =
        omega (arith, len) in
      (
        rw same (
            cbc_inverse n (replicate 16 0) bytes (omega arith)
              (replicate-AreBytes 16 0 (omega arith)) q),
        same,
      )
