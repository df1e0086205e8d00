-- ===== src/Crypto/RoundTrip.antt =====
-- src/crypto/mod.rs: the encryption of one role against the decryption of the other.
mod Cipher
use udp2raw_rust.Prelude.{
  ℕ, zero, suc, ◌+◌, ◌-◌, ◌*◌, ◌/◌, ◌%◌, ◌^◌, ◌≤◌, ◌<◌, min, max, bit_and, bit_or, bit_xor, ◌≡◌,
  refl, sym, ap, ap₂, ◌∙◌, subst, ◌≢◌, ◌↔◌, ◌⊎◌, inl, inr, Bool, true, false, not, ◌&&◌, ◌||◌,
  Option, none, some, List, [], ◌∷◌, ◌++◌, map, append-nil, append_assoc, arith, dec_lt, ℕ_discrete,
  ltb, leb, ◌==◌, if◌then◌else◌, ◌>>=◌, ◌>>◌, guard, ltb→lt, lt→ltb, leb→le, ==_iff, ==-refl, tests,
  Bool-cases, Option-cases, zero-bit_xor, differ_bits, bit_xor_parts, bit_xor_cancel, zero-bit_or,
  le-bit_or, bit_xor-lt, bit_xor-eq-zero, bit_xor_self, length, set, get_or, take, drop, replicate,
  length-append, length-set, get_or-set_self, get_or-set_ne, length-replicate, get_or-replicate,
  length-take, length-drop, take-append, drop-append, take-append-drop, take_of_length-le,
  drop-append_past, get_or-append_past, get_or-append_before, byte_at, ◌<<<◌, ◌>>>◌, AreBytes,
  append-AreBytes, take-AreBytes, drop-AreBytes, replicate-AreBytes,
}
use udp2raw_rust.Crypto.{
  Primitives, Crypto, derive, with_backend, encrypt, decrypt, cipher_encrypt, cipher_decrypt,
  aead_encrypt, aead_decrypt, max_data_len, nonce_len, overhead, Aead, is_hmac, Aead,
}
use udp2raw_rust.Crypto.Cipher.{
  CipherMode, no_cipher, xor, aes128_cbc, aes128_cfb, chacha20_poly1305, is_aead,
}
use udp2raw_rust.Crypto.Cipher.Cbc.{IsBlockCipher, take_first, drop_first}
use udp2raw_rust.Crypto.Auth.{
  AuthMode, no_auth, md5, crc32, simple, hmac_sha1, append_tag, verify, tag_of, tag_len,
}
use udp2raw_rust.Crypto.Auth.Laws.{AreDigests, verify-append_tag, append_tag-AreBytes}
use Cipher.{IsPaired, Undone, cipher-Undone}

-- What the libraries are documented to do: hashes have their lengths, AES inverts itself, and an
-- authenticated text opens under the key and nonce that sealed it, 16 bytes longer.
pub record IsSound (p : Primitives) : Type 0 where
  pub digests : AreDigests p.hash
  pub block : (key : List ℕ) → IsBlockCipher (p.aes key)
  pub sealed :
      (k n x : List ℕ)
      → length n ≡ nonce_len
      → (y : List ℕ) × (p.seal k n x ≡ some y)
        × (length y ≡ length x + 16)
        × (p.unseal k n y ≡ some x)

tag_len-le : (mode : AuthMode) → tag_len mode ≤ 20
tag_len-le no_auth = omega arith
tag_len-le md5 = omega arith
tag_len-le crc32 = omega arith
tag_len-le simple = omega arith
tag_len-le hmac_sha1 = omega arith

-- A packet that goes through: what is sent, and that it is received.
abbrev pub Delivered : Primitives → Crypto → Crypto → List ℕ → List ℕ → Type 0
Delivered p tx rx nonce plain =
    (sent : List ℕ) × (encrypt p tx nonce plain ≡ some sent) × (decrypt p rx sent ≡ some plain)

module _ (p : Primitives) (sound : IsSound p) {tx rx : Crypto} (pair : IsPaired tx rx)
    (plain : List ℕ) (bytes : AreBytes plain) (long : 16 ≤ length plain)
    (short : length plain + 40 ≤ max_data_len) where
  module _ (auth : rx.rx_auth ≡ tx.tx_auth) (mode : rx.cipher_mode ≡ tx.cipher_mode)
      (legacy_tx : tx.aead ≡ none) (legacy_rx : rx.aead ≡ none) where
    -- Encrypt-then-MAC.
    hmac-Delivered :
        (nonce : List ℕ)
        → is_hmac tx.auth_mode ≡ true
        → is_hmac rx.auth_mode ≡ true
        → Delivered p tx rx nonce plain
    unfolding encrypt decrypt
    hmac-Delivered nonce h h' =
        let u = cipher-Undone pair plain bytes long tx.cipher_mode in
        let v = verify-append_tag p.hash sound.digests tx.tx_auth u.ct in
        let fits : ltb max_data_len (length plain) ≡ false = ground arith in
        let fits' : ltb max_data_len (length (append_tag p.hash tx.tx_auth u.ct)) ≡ false =
          ground (arith, v.2, u.short, tag_len-le tx.tx_auth.mode) in
        (
          append_tag p.hash tx.tx_auth u.ct,
          simp (fits, legacy_tx, h, u.sent),
          simp (fits', legacy_rx, h', auth, v.0, v.1, mode, u.back),
        )

    -- MAC-then-encrypt.
    mac-Delivered :
        (nonce : List ℕ)
        → is_hmac tx.auth_mode ≡ false
        → is_hmac rx.auth_mode ≡ false
        → Delivered p tx rx nonce plain
    unfolding encrypt decrypt
    mac-Delivered nonce h h' =
        let tagged = append_tag p.hash tx.tx_auth plain in
        let v = verify-append_tag p.hash sound.digests tx.tx_auth plain in
        let tagged_bytes = append_tag-AreBytes p.hash sound.digests tx.tx_auth plain bytes in
        let u = cipher-Undone pair tagged tagged_bytes (omega (arith, v.2)) tx.cipher_mode in
        let fits : ltb max_data_len (length plain) ≡ false = ground arith in
        let fits' : ltb max_data_len (length u.ct) ≡ false =
          ground (arith, v.2, u.short, tag_len-le tx.tx_auth.mode) in
        (
          u.ct,
          simp (fits, legacy_tx, h, u.sent),
          simp (fits', legacy_rx, h', mode, u.back, auth, v.0, v.1),
        )

  aead-Delivered :
      (nonce : List ℕ) (a b : Aead)
      → length nonce ≡ nonce_len
      → tx.aead ≡ some a
      → rx.aead ≡ some b
      → b.dec ≡ a.enc
      → Delivered p tx rx nonce plain
  unfolding encrypt decrypt aead_encrypt aead_decrypt
  aead-Delivered nonce a b len e f same =
      let (boxed, seals, sized, opens) = sound.sealed a.enc nonce plain len in
      let whole = length-append nonce boxed in
      let fits : ltb max_data_len (length plain) ≡ false = ground arith in
      let fits' : ltb max_data_len (length (nonce ++ boxed)) ≡ false = ground arith in
      let enough : ltb (length (nonce ++ boxed)) overhead ≡ false = ground arith in
      (
        nonce ++ boxed,
        simp (fits, e, seals),
        simp (
          fits',
          f,
          enough,
          take_first nonce_len nonce boxed len,
          drop_first nonce_len nonce boxed len,
          same,
          opens,
        ),
      )

-- The engine of one role under a password.
abbrev pub engine : Primitives → CipherMode → AuthMode → Bool → List ℕ → Bool → Crypto
engine p mode wanted legacy password is_client =
    with_backend p mode wanted legacy (derive p password is_client)

module _ (p : Primitives) (sound : IsSound p) (wanted : AuthMode) (legacy : Bool)
    (password : List ℕ) where
  engine-IsPaired :
      (mode : CipherMode) (is_client : Bool)
      → IsPaired
          (engine p mode wanted legacy password is_client)
          (engine p mode wanted legacy password (not is_client))
  unfolding with_backend derive
  engine-IsPaired mode true = record {
    xor_key = refl;
    aes = refl;
    ecb = refl;
    legacy = refl;
    aes_law = sound.block _;
    ecb_law = sound.block _;
  }
  engine-IsPaired mode false = record {
    xor_key = refl;
    aes = refl;
    ecb = refl;
    legacy = refl;
    aes_law = sound.block _;
    ecb_law = sound.block _;
  }

  -- Neither engine is an AEAD one, and the receiver checks the tags that the sender appends.
  record AreLegacy (tx rx : Crypto) : Type 0 where
    auth : rx.rx_auth ≡ tx.tx_auth
    mode : rx.cipher_mode ≡ tx.cipher_mode
    sender : tx.aead ≡ none
    receiver : rx.aead ≡ none
    same_auth : rx.auth_mode ≡ tx.auth_mode

  engine-AreLegacy :
      (mode : CipherMode) (is_client : Bool)
      → is_aead mode ≡ false
      → AreLegacy
          (engine p mode wanted legacy password is_client)
          (engine p mode wanted legacy password (not is_client))
  unfolding with_backend derive
  engine-AreLegacy mode true h = record {
    auth = refl;
    mode = refl;
    sender = rw h;
    receiver = rw h;
    same_auth = refl;
  }
  engine-AreLegacy mode false h = record {
    auth = refl;
    mode = refl;
    sender = rw h;
    receiver = rw h;
    same_auth = refl;
  }

  module _ (nonce plain : List ℕ) (fresh : length nonce ≡ nonce_len) (bytes : AreBytes plain)
      (long : 16 ≤ length plain) (short : length plain + 40 ≤ max_data_len) where
    aead_engines :
        (is_client : Bool)
        → Delivered p
            (engine p chacha20_poly1305 wanted legacy password is_client)
            (engine p chacha20_poly1305 wanted legacy password (not is_client))
            nonce
            plain
    unfolding with_backend derive
    aead_engines true =
        aead-Delivered p sound (engine-IsPaired chacha20_poly1305 true) plain bytes long short nonce
          _ _ fresh refl refl refl
    aead_engines false =
        aead-Delivered p sound (engine-IsPaired chacha20_poly1305 false) plain bytes long short
          nonce _ _ fresh refl refl refl

    legacy_engines :
        (mode : CipherMode) (is_client : Bool)
        → is_aead mode ≡ false
        → Delivered p
            (engine p mode wanted legacy password is_client)
            (engine p mode wanted legacy password (not is_client))
            nonce
            plain
    legacy_engines mode is_client h =
        let tx = engine p mode wanted legacy password is_client in
        let pair = engine-IsPaired mode is_client in
        let l = engine-AreLegacy mode is_client h in
        elim (Bool-cases (is_hmac tx.auth_mode)) [
          | inl mac ↦
              hmac-Delivered p sound pair plain bytes long short l.auth l.mode l.sender l.receiver
                nonce mac (ap is_hmac l.same_auth ∙ mac)
          | inr tag ↦
              mac-Delivered p sound pair plain bytes long short l.auth l.mode l.sender l.receiver
                nonce tag (ap is_hmac l.same_auth ∙ tag)
        ]

    -- In every cipher mode and with every authentication mode, a packet of 16 to 1760 bytes that
    -- one role encrypts is decrypted to itself by the other role under the same password.
    pub decrypt-encrypt :
        (mode : CipherMode) (is_client : Bool)
        → Delivered p
            (engine p mode wanted legacy password is_client)
            (engine p mode wanted legacy password (not is_client))
            nonce
            plain
    decrypt-encrypt chacha20_poly1305 is_client = aead_engines is_client
    decrypt-encrypt no_cipher is_client = legacy_engines no_cipher is_client refl
    decrypt-encrypt xor is_client = legacy_engines xor is_client refl
    decrypt-encrypt aes128_cbc is_client = legacy_engines aes128_cbc is_client refl
    decrypt-encrypt aes128_cfb is_client = legacy_engines aes128_cfb is_client refl
