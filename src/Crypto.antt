-- ===== src/Crypto.antt =====
-- src/crypto/mod.rs and src/crypto/aead.rs: key material, and the encryption and decryption of every
-- packet. The hash, key-derivation, AES and ChaCha20-Poly1305 functions are parameters.
pub mod Cipher
pub mod Auth
pub mod RoundTrip
pub mod Head
pub mod Tests
use Prim.Native.Char.{code}
use Prim.Native.String.{String}
use udp2raw_rust.Prelude.{
  ℕ, zero, suc, ◌+◌, ◌-◌, ◌*◌, ◌/◌, ◌%◌, ◌^◌, ◌≤◌, ◌<◌, min, max, bit_and, bit_or, bit_xor, ◌≡◌,
  refl, sym, ap, ap₂, ◌∙◌, subst, ◌≢◌, ◌↔◌, ◌⊎◌, inl, inr, Bool, true, false, not, ◌&&◌, ◌||◌,
  Option, none, some, List, [], ◌∷◌, ◌++◌, map, append-nil, append_assoc, arith, dec_lt, ℕ_discrete,
  ltb, leb, ◌==◌, if◌then◌else◌, ◌>>=◌, ◌>>◌, guard, ltb→lt, lt→ltb, leb→le, ==_iff, ==-refl, tests,
  Bool-cases, Option-cases, zero-bit_xor, differ_bits, bit_xor_parts, bit_xor_cancel, zero-bit_or,
  le-bit_or, bit_xor-lt, bit_xor-eq-zero, bit_xor_self, length, set, get_or, take, drop, replicate,
  length-append, length-set, get_or-set_self, get_or-set_ne, length-replicate, get_or-replicate,
  length-take, length-drop, take-append, drop-append, take-append-drop, take_of_length-le,
  drop-append_past, get_or-append_past, get_or-append_before, byte_at, ◌<<<◌, ◌>>>◌, AreBytes,
  append-AreBytes, take-AreBytes, drop-AreBytes, replicate-AreBytes,
}
use Cipher.{
  CipherMode, no_cipher, xor, aes128_cbc, aes128_cfb, chacha20_poly1305, is_aes, is_aead, AesKey,
  cbc_encrypt_zero_iv, cbc_decrypt_zero_iv, cfb_encrypt_zero_iv, cfb_decrypt_zero_iv, pad16,
  unpad16, xor_in_place,
}
use Auth.{
  AuthMode, no_auth, md5, crc32, simple, hmac_sha1, Hashes, Authenticator, new_authenticator,
  append_tag, verify,
}

-- MAX_DATA_LEN of src/consts.rs, and NONCE_LEN and OVERHEAD of aead.rs
abbrev pub max_data_len : ℕ
max_data_len = 1800

abbrev pub nonce_len : ℕ
nonce_len = 24

abbrev pub overhead : ℕ
overhead = 40

-- The bytes of an ASCII text.
abbrev pub codes : String → List ℕ
codes String.[] = []
codes (String.◌∷◌ c s) = code c ∷ codes s

pub record Primitives : Type 0 where
  pub hash : Hashes
  -- password and salt, 10000 rounds, 32 bytes
  pub pbkdf2_hmac_sha256 : List ℕ → List ℕ → List ℕ
  -- key, info, length
  pub hkdf_sha256_expand : List ℕ → String → ℕ → List ℕ
  pub aes : List ℕ → AesKey
  -- key, nonce, text: XChaCha20-Poly1305 with empty associated data
  pub seal : List ℕ → List ℕ → List ℕ → Option (List ℕ)
  pub unseal : List ℕ → List ℕ → List ℕ → Option (List ℕ)

pub record Keys : Type 0 where
  pub normal_key : List ℕ
  pub cipher_key_encrypt : List ℕ
  pub cipher_key_decrypt : List ℕ
  pub hmac_key_encrypt : List ℕ
  pub hmac_key_decrypt : List ℕ
  pub gro_xor : List ℕ

-- `Aead`, by the keys of its two ciphers.
pub record Aead : Type 0 where
  pub enc : List ℕ
  pub dec : List ℕ

-- The AES keys are read in the AES modes only, where the source has `Some`.
pub record Crypto : Type 0 where
  pub cipher_mode : CipherMode
  pub auth_mode : AuthMode
  pub cfb_legacy : Bool
  pub keys : Keys
  pub tx_xor_key : List ℕ
  pub rx_xor_key : List ℕ
  pub tx_aes : AesKey
  pub rx_aes : AesKey
  pub ecb_enc : AesKey
  pub ecb_dec : AesKey
  pub tx_auth : Authenticator
  pub rx_auth : Authenticator
  pub aead : Option Aead

abbrev pub is_hmac : AuthMode → Bool
is_hmac hmac_sha1 = true
is_hmac _ = false

-- `cipher(block)` on the first 16 bytes in place.
abbrev pub on_first_block : (List ℕ → List ℕ) → List ℕ → List ℕ
on_first_block f buf = f (take 16 buf) ++ drop 16 buf

module _ (p : Primitives) where
  unfoldable pub derive : List ℕ → Bool → Keys
  derive password is_client =
      let prk = p.pbkdf2_hmac_sha256 password (take 16 (p.hash.md5 (codes "udp2raw_salt1"))) in
      let to_server_hmac = p.hkdf_sha256_expand prk "hmac_key client-->server" 64 in
      let to_client_hmac = p.hkdf_sha256_expand prk "hmac_key server-->client" 64 in
      let to_server_cipher = p.hkdf_sha256_expand prk "cipher_key client-->server" 64 in
      let to_client_cipher = p.hkdf_sha256_expand prk "cipher_key server-->client" 64 in
      record {
        normal_key = p.hash.md5 (password ++ codes "key1");
        cipher_key_encrypt = if is_client then to_server_cipher else to_client_cipher;
        cipher_key_decrypt = if is_client then to_client_cipher else to_server_cipher;
        hmac_key_encrypt = if is_client then to_server_hmac else to_client_hmac;
        hmac_key_decrypt = if is_client then to_client_hmac else to_server_hmac;
        gro_xor = p.hkdf_sha256_expand prk "gro" 256;
      }

  unfoldable pub with_backend : CipherMode → AuthMode → Bool → Keys → Crypto
  unfolding new_authenticator
  with_backend mode wanted legacy keys =
      let auth = if is_aead mode then no_auth else wanted in
      let tx_key = if is_hmac auth then take 16 keys.cipher_key_encrypt else keys.normal_key in
      let rx_key = if is_hmac auth then take 16 keys.cipher_key_decrypt else keys.normal_key in
      record {
        cipher_mode = mode;
        auth_mode = auth;
        cfb_legacy = legacy;
        keys = keys;
        tx_xor_key = tx_key;
        rx_xor_key = rx_key;
        tx_aes = p.aes tx_key;
        rx_aes = p.aes rx_key;
        ecb_enc = p.aes (take 16 keys.cipher_key_encrypt);
        ecb_dec = p.aes (take 16 keys.cipher_key_decrypt);
        tx_auth = new_authenticator p.hash auth keys.hmac_key_encrypt;
        rx_auth = new_authenticator p.hash auth keys.hmac_key_decrypt;
        aead =
            if is_aead mode
            then some (record {
              enc = take 32 keys.cipher_key_encrypt;
              dec = take 32 keys.cipher_key_decrypt;
            })
            else none;
      }

  unfoldable pub aead_encrypt : Aead → List ℕ → List ℕ → Option (List ℕ)
  aead_encrypt a nonce buf = do boxed ← p.seal a.enc nonce buf; some (nonce ++ boxed)

  unfoldable pub aead_decrypt : Aead → List ℕ → Option (List ℕ)
  aead_decrypt a buf =
      if ltb (length buf) overhead
      then none
      else p.unseal a.dec (take nonce_len buf) (drop nonce_len buf)

unfoldable pub cipher_encrypt : CipherMode → Crypto → List ℕ → Option (List ℕ)
cipher_encrypt no_cipher c buf = some buf
cipher_encrypt chacha20_poly1305 c buf = some buf
cipher_encrypt xor c buf = some (xor_in_place buf c.tx_xor_key)
cipher_encrypt aes128_cbc c buf = some (cbc_encrypt_zero_iv c.tx_aes (pad16 buf))
cipher_encrypt aes128_cfb c buf =
    if ltb (length buf) 16
    then none
    else (let head = if c.cfb_legacy then buf else on_first_block c.ecb_enc.encrypt_block buf in
        some (cfb_encrypt_zero_iv c.tx_aes head))

unfoldable pub cipher_decrypt : CipherMode → Crypto → List ℕ → Option (List ℕ)
cipher_decrypt no_cipher c buf = some buf
cipher_decrypt chacha20_poly1305 c buf = some buf
cipher_decrypt xor c buf = some (xor_in_place buf c.rx_xor_key)
cipher_decrypt aes128_cbc c buf =
    if not (length buf % 16 == 0) then none else unpad16 (cbc_decrypt_zero_iv c.rx_aes buf)
cipher_decrypt aes128_cfb c buf =
    if ltb (length buf) 16
    then none
    else (let plain = cfb_decrypt_zero_iv c.rx_aes buf in
        some (if c.cfb_legacy then plain else on_first_block c.ecb_dec.decrypt_block plain))

module _ (p : Primitives) where
  -- `nonce` is what `random_nonce` returns.
  unfoldable pub encrypt : Crypto → List ℕ → List ℕ → Option (List ℕ)
  unfolding cipher_encrypt aead_encrypt
  encrypt c nonce buf = if ltb max_data_len (length buf) then none else elim c.aead [
    | some a ↦ aead_encrypt p a nonce buf
    | none ↦
        if is_hmac c.auth_mode
        then (cipher_encrypt c.cipher_mode c buf >>= λ ct. some (append_tag p.hash c.tx_auth ct))
        else cipher_encrypt c.cipher_mode c (append_tag p.hash c.tx_auth buf)
  ]

  unfoldable pub decrypt : Crypto → List ℕ → Option (List ℕ)
  unfolding cipher_decrypt aead_decrypt
  decrypt c buf = if ltb max_data_len (length buf) then none else elim c.aead [
    | some a ↦ aead_decrypt p a buf
    | none ↦
        if is_hmac c.auth_mode
        then (verify p.hash c.rx_auth buf >>= λ n. cipher_decrypt c.cipher_mode c (take n buf))
        else (cipher_decrypt c.cipher_mode c buf >>= λ plain.
            verify p.hash c.rx_auth plain >>= λ n. some (take n plain))
  ]
