-- ===== src/Crypto/Tests.antt =====
-- Concrete primitives that do what the libraries are documented to do, and the theorems of
-- src/crypto at them.

use udp2raw_rust.Prelude.{
  ℕ, ◌+◌, ◌-◌, ◌%◌, ◌≡◌, refl, ap, true, false, some, List, [], ◌∷◌, ◌++◌, arith, length, take,
  replicate, length-append, length-replicate, take-append, byte_at, replicate-AreBytes,
}
use udp2raw_rust.Crypto.{Primitives, codes}
use udp2raw_rust.Crypto.Cipher.{aes128_cbc, AesKey}
use udp2raw_rust.Crypto.Cipher.Cbc.{IsBlockCipher}
use udp2raw_rust.Crypto.Auth.{Hashes, Authenticator, simple, hmac_sha1, append_tag, verify, tag_len}
use udp2raw_rust.Crypto.Auth.Laws.{AreDigests, verify-append_tag, append_tag-verify}
use udp2raw_rust.Crypto.RoundTrip.{IsSound, Delivered, engine, decrypt-encrypt}

abbrev pub test_hash : Hashes
test_hash = record {
  md5 = λ m. replicate 16 (length m % 256);
  crc32 = λ m. length m;
  hmac_sha1 = λ k m. replicate 20 ((length k + length m) % 256);
}

abbrev pub test_aes : List ℕ → AesKey
test_aes key = record { encrypt_block = λ b. b; decrypt_block = λ b. b }

abbrev pub test_primitives : Primitives
test_primitives = record {
  hash = test_hash;
  pbkdf2_hmac_sha256 = λ password salt. replicate 32 (length password % 256);
  hkdf_sha256_expand = λ key info n. replicate n (byte_at (codes info) 11);
  aes = test_aes;
  seal = λ k n x. some (x ++ replicate 16 0);
  unseal = λ k n y. some (take (length y - 16) y);
}

test_hash-AreDigests : AreDigests test_hash
test_hash-AreDigests = record {
  md5-AreBytes = λ m. replicate-AreBytes 16 (length m % 256) (omega arith);
  length_md5 = λ m. length-replicate {A = ℕ} 16 (length m % 256);
  length_hmac = λ k m. length-replicate {A = ℕ} 20 ((length k + length m) % 256);
  hmac-AreBytes = λ k m. replicate-AreBytes 20 ((length k + length m) % 256) (omega arith);
}

pub test_aes-IsBlockCipher : (key : List ℕ) → IsBlockCipher (test_aes key)
test_aes-IsBlockCipher key = record {
  length_block = λ b h. h;
  block-AreBytes = λ b h. h;
  inverse = λ b h h'. refl;
}

unsealed : (x : List ℕ) → take (length (x ++ replicate 16 0) - 16) (x ++ replicate 16 0) ≡ x
unsealed x =
    let whole : length (x ++ replicate 16 0) - 16 ≡ length x =
      omega (arith, length-append x (replicate 16 0), length-replicate {A = ℕ} 16 0) in
    rw whole (take-append x (replicate 16 0))

pub test_primitives-IsSound : IsSound test_primitives
test_primitives-IsSound = record {
  digests = test_hash-AreDigests;
  block = test_aes-IsBlockCipher;
  sealed = λ k n x h. (
    x ++ replicate 16 0,
    refl,
    omega (arith, length-append x (replicate 16 0), length-replicate {A = ℕ} 16 0),
    ap some (unsealed x),
  );
}

abbrev sent : List ℕ
sent = 1 ∷ 2 ∷ 3 ∷ 4 ∷ 5 ∷ 6 ∷ 7 ∷ 8 ∷ 9 ∷ 10 ∷ 11 ∷ 12 ∷ 13 ∷ 14 ∷ 15 ∷ 16 ∷ 255 ∷ []

decrypt-encrypt_example :
    Delivered test_primitives
      (engine test_primitives aes128_cbc hmac_sha1 false (112 ∷ 119 ∷ []) true)
      (engine test_primitives aes128_cbc hmac_sha1 false (112 ∷ 119 ∷ []) false)
      (replicate 24 9)
      sent
decrypt-encrypt_example =
    decrypt-encrypt test_primitives test_primitives-IsSound hmac_sha1 false (112 ∷ 119 ∷ [])
      (replicate 24 9) sent (length-replicate {A = ℕ} 24 9) (ground arith) (omega arith)
      (omega arith) aes128_cbc true

abbrev authenticator : Authenticator
authenticator = record { mode = simple; key = [] }

verify-append_tag_example :
    (verify test_hash authenticator (append_tag test_hash authenticator sent) ≡ some (length sent))
    × (take (length sent) (append_tag test_hash authenticator sent) ≡ sent)
    × (length (append_tag test_hash authenticator sent) ≡ length sent + tag_len authenticator.mode)
verify-append_tag_example = verify-append_tag test_hash test_hash-AreDigests authenticator sent

append_tag-verify_example :
    append_tag test_hash authenticator
      (take 3 (append_tag test_hash authenticator (7 ∷ 8 ∷ 9 ∷ [])))
    ≡ append_tag test_hash authenticator (7 ∷ 8 ∷ 9 ∷ [])
append_tag-verify_example =
    append_tag-verify test_hash authenticator (append_tag test_hash authenticator (7 ∷ 8 ∷ 9 ∷ []))
      3 ((verify-append_tag test_hash test_hash-AreDigests authenticator (7 ∷ 8 ∷ 9 ∷ [])).0)
