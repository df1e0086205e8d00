-- ===== src/Crypto/RoundTrip/Cipher.antt =====
-- src/crypto/mod.rs: the cipher step alone, between a sender and a receiver with the same keys.
use udp2raw_rust.Prelude.{
  ℕ, zero, suc, ◌+◌, ◌-◌, ◌%◌, ◌≤◌, ◌<◌, ◌≡◌, refl, ap, inl, inr, some, List, [], ◌∷◌, arith,
  Bool-cases, length, set, take, drop, length-append, length-take, length-drop, take-append-drop,
  AreBytes, append-AreBytes, take-AreBytes, replicate-AreBytes,
}
use udp2raw_rust.Crypto.{Crypto, cipher_encrypt, cipher_decrypt, on_first_block}
use udp2raw_rust.Crypto.Cipher.{
  AesKey, CipherMode, no_cipher, xor, aes128_cbc, aes128_cfb, chacha20_poly1305, pad16, padded_len,
  xor_from, xor_in_place, cbc_encrypt_zero_iv, cfb_encrypt_zero_iv,
}
use udp2raw_rust.Crypto.Cipher.Padding.{length-pad16, padded_len_lem, unpad16-pad16}
use udp2raw_rust.Crypto.Cipher.Xor.{xor_in_place_twice}
use udp2raw_rust.Crypto.Cipher.Cbc.{IsBlockCipher, cbc_zero_iv_inverse, take_first, drop_first}
use udp2raw_rust.Crypto.Cipher.Cfb.{cfb_zero_iv_inverse, length-cfb_zero_iv}

-- The receiver's keys are the sender's.
pub record IsPaired (tx rx : Crypto) : Type 0 where
  pub xor_key : rx.rx_xor_key ≡ tx.tx_xor_key
  pub aes : rx.rx_aes ≡ tx.tx_aes
  pub ecb : rx.ecb_dec ≡ tx.ecb_enc
  pub legacy : rx.cfb_legacy ≡ tx.cfb_legacy
  pub aes_law : IsBlockCipher tx.tx_aes
  pub ecb_law : IsBlockCipher tx.ecb_enc

length-xor_from :
    (bytes : List ℕ) (i : ℕ) (key : List ℕ) → length (xor_from i bytes key) ≡ length bytes
unfolding xor_from
length-xor_from [] i key = refl
length-xor_from (b ∷ bs) i key = ap suc (length-xor_from bs (i + 1) key)

set-AreBytes : (xs : List ℕ) (i v : ℕ) → AreBytes xs → v < 256 → AreBytes (set xs i v)
set-AreBytes [] i v p h = tt
set-AreBytes (x ∷ xs) zero v p h = (h, p.1)
set-AreBytes (x ∷ xs) (suc i) v p h = (p.0, set-AreBytes xs i v p.1 h)

pad16-AreBytes : (buf : List ℕ) → AreBytes buf → AreBytes (pad16 buf)
unfolding pad16
pad16-AreBytes buf p =
    set-AreBytes _ _ _
      (append-AreBytes buf _ p
        (replicate-AreBytes (padded_len (length buf) - length buf) 0 (omega arith)))
      (omega arith)

-- What the receiver recovers, and how much longer the sender's text is.
pub record Undone (tx rx : Crypto) (mode : CipherMode) (buf : List ℕ) : Type 0 where
  pub ct : List ℕ
  pub sent : cipher_encrypt mode tx buf ≡ some ct
  pub back : cipher_decrypt mode rx ct ≡ some buf
  pub short : length ct ≤ length buf + 16

first_block_undone :
    {k : AesKey} (law : IsBlockCipher k) (buf : List ℕ)
    → AreBytes buf
    → 16 ≤ length buf
    → (on_first_block k.decrypt_block (on_first_block k.encrypt_block buf) ≡ buf)
      × (length (on_first_block k.encrypt_block buf) ≡ length buf)
first_block_undone {k} law buf bytes long =
    let head : length (take 16 buf) ≡ 16 = omega (arith, length-take 16 buf) in
    let sized = law.length_block (take 16 buf) head in
    let b = k.encrypt_block (take 16 buf) in
    (
      rw
          (
            take_first 16 b (drop 16 buf) sized,
            drop_first 16 b (drop 16 buf) sized,
            law.inverse (take 16 buf) head (take-AreBytes 16 buf bytes),
          )
          (take-append-drop 16 buf),
      omega (arith, sized, length-append b (drop 16 buf), length-drop 16 buf),
    )

module _ {tx rx : Crypto} (pair : IsPaired tx rx) (buf : List ℕ) (bytes : AreBytes buf)
    (long : 16 ≤ length buf) where
  cbc-Undone : Undone tx rx aes128_cbc buf
  unfolding cipher_encrypt cipher_decrypt
  cbc-Undone =
      let lens = padded_len_lem (length buf) in
      let inv =
        cbc_zero_iv_inverse tx.tx_aes pair.aes_law (pad16 buf)
          (omega (arith, length-pad16 buf, lens)) (pad16-AreBytes buf bytes) in
      record {
        ct = cbc_encrypt_zero_iv tx.tx_aes (pad16 buf);
        sent = refl;
        back =
            let w : length (cbc_encrypt_zero_iv tx.tx_aes (pad16 buf)) % 16 ≡ 0 =
              omega (arith, inv.1, length-pad16 buf, lens) in
            rw (w, pair.aes, inv.0) (unpad16-pad16 buf);
        short = omega (arith, inv.1, length-pad16 buf, lens);
      }

  cfb-Undone : Undone tx rx aes128_cfb buf
  unfolding cipher_encrypt cipher_decrypt
  cfb-Undone = elim (Bool-cases tx.cfb_legacy) [
    | inl plain ↦ record {
      ct = cfb_encrypt_zero_iv tx.tx_aes buf;
      sent = rw plain (ground arith);
      back =
          rw
            (
              pair.aes,
              pair.legacy,
              plain,
              length-cfb_zero_iv tx.tx_aes buf,
              cfb_zero_iv_inverse tx.tx_aes buf,
            )
            (ground arith);
      short = omega (arith, length-cfb_zero_iv tx.tx_aes buf);
    }
    | inr mixed ↦
        let first = first_block_undone pair.ecb_law buf bytes long in
        let head = on_first_block tx.ecb_enc.encrypt_block buf in
        record {
          ct = cfb_encrypt_zero_iv tx.tx_aes head;
          sent = rw mixed (ground arith);
          back =
              rw
                (
                  pair.aes,
                  pair.legacy,
                  pair.ecb,
                  mixed,
                  length-cfb_zero_iv tx.tx_aes head,
                  first.1,
                  cfb_zero_iv_inverse tx.tx_aes head,
                  first.0,
                )
                (ground arith);
          short = omega (arith, length-cfb_zero_iv tx.tx_aes head, first.1);
        }
  ]

  xor-Undone : Undone tx rx xor buf
  unfolding cipher_encrypt cipher_decrypt
  xor-Undone = record {
    ct = xor_in_place buf tx.tx_xor_key;
    sent = refl;
    back = rw pair.xor_key (ap some (xor_in_place_twice buf tx.tx_xor_key));
    short = unfold xor_in_place in omega (arith, length-xor_from buf 0 tx.tx_xor_key);
  }

  pub cipher-Undone : (mode : CipherMode) → Undone tx rx mode buf
  unfolding cipher_encrypt cipher_decrypt
  cipher-Undone no_cipher = record { ct = buf; sent = refl; back = refl; short = omega arith }
  cipher-Undone chacha20_poly1305 = record {
    ct = buf;
    sent = refl;
    back = refl;
    short = omega arith;
  }
  cipher-Undone xor = xor-Undone
  cipher-Undone aes128_cbc = cbc-Undone
  cipher-Undone aes128_cfb = cfb-Undone
