-- ===== src/Crypto/Head.antt =====
-- src/crypto/mod.rs: the obfuscation of the `--fix-gro` length prefix, and its removal inside a
-- merged buffer.
use udp2raw_rust.Prelude.{
  ℕ, ◌≤◌, bit_xor, ◌≡◌, refl, sym, ap, ◌∙◌, List, [], ◌∷◌, ◌++◌, append-nil, append_assoc, arith,
  bit_xor_cancel, length, take, drop, length-append, length-take, length-drop, take-append-drop,
  take_of_length-le, drop_of_length-le, byte_at, AreBytes, take-AreBytes,
}
use udp2raw_rust.Crypto.{Crypto, on_first_block}
use udp2raw_rust.Crypto.Cipher.{
  CipherMode, no_cipher, xor, aes128_cbc, aes128_cfb, chacha20_poly1305, AesKey,
}
use udp2raw_rust.Crypto.Cipher.Cbc.{IsBlockCipher, take_first, drop_first}

-- `head[0] ^= gro_xor[0]; head[1] ^= gro_xor[1]`
abbrev pub xor_head : List ℕ → List ℕ → List ℕ
xor_head key (a ∷ b ∷ rest) = bit_xor a (byte_at key 0) ∷ bit_xor b (byte_at key 1) ∷ rest
xor_head key short = short

unfoldable pub obfuscate_mode : CipherMode → Crypto → List ℕ → List ℕ
obfuscate_mode no_cipher c head = head
obfuscate_mode xor c head = xor_head c.keys.gro_xor head
obfuscate_mode chacha20_poly1305 c head = xor_head c.keys.gro_xor head
obfuscate_mode aes128_cbc c head = on_first_block c.ecb_enc.encrypt_block head
obfuscate_mode aes128_cfb c head = on_first_block c.ecb_enc.encrypt_block head

unfoldable pub gro_obfuscate_head : Crypto → List ℕ → List ℕ
unfolding obfuscate_mode
gro_obfuscate_head c head = obfuscate_mode c.cipher_mode c head

unfoldable pub deobfuscate_mode : CipherMode → Crypto → List ℕ → List ℕ
deobfuscate_mode no_cipher c head = head
deobfuscate_mode xor c head = xor_head c.keys.gro_xor head
deobfuscate_mode chacha20_poly1305 c head = xor_head c.keys.gro_xor head
deobfuscate_mode aes128_cbc c head = on_first_block c.ecb_dec.decrypt_block head
deobfuscate_mode aes128_cfb c head = on_first_block c.ecb_dec.decrypt_block head

unfoldable pub gro_deobfuscate_head : Crypto → List ℕ → List ℕ
unfolding deobfuscate_mode
gro_deobfuscate_head c head = deobfuscate_mode c.cipher_mode c head

-- The receiver runs it on the 16 bytes at its position.
abbrev pub deobfuscate_at : Crypto → List ℕ → List ℕ
deobfuscate_at c rest = gro_deobfuscate_head c (take 16 rest) ++ drop 16 rest

-- The receiver's head keys are the sender's.
pub record IsHeadPaired (tx rx : Crypto) : Type 0 where
  pub mode : rx.cipher_mode ≡ tx.cipher_mode
  pub gro_xor : rx.keys.gro_xor ≡ tx.keys.gro_xor
  pub ecb : rx.ecb_dec ≡ tx.ecb_enc
  pub ecb_law : IsBlockCipher tx.ecb_enc

xor_head_undone :
    (key x r : List ℕ)
    → 16 ≤ length x
    → xor_head key (take 16 (xor_head key x ++ r)) ++ drop 16 (xor_head key x ++ r) ≡ x ++ r
xor_head_undone key [] r h = absurd (omega arith)
xor_head_undone key (a ∷ []) r h = absurd (omega arith)
xor_head_undone key (a ∷ b ∷ x) r h =
    rw (bit_xor_cancel a (byte_at key 0), bit_xor_cancel b (byte_at key 1))
      (ap (λ (t : List ℕ). a ∷ b ∷ t) (take-append-drop 14 (x ++ r)))

block_undone :
    {k : AesKey} (law : IsBlockCipher k) (x r : List ℕ)
    → AreBytes x
    → 16 ≤ length x
    → on_first_block k.decrypt_block (take 16 (on_first_block k.encrypt_block x ++ r))
        ++ drop 16 (on_first_block k.encrypt_block x ++ r)
      ≡ x ++ r
block_undone {k} law x r bytes long =
    let head : length (take 16 x) ≡ 16 = omega (arith, length-take 16 x) in
    let b = k.encrypt_block (take 16 x) in
    let sized = law.length_block (take 16 x) head in
    let undone = law.inverse (take 16 x) head (take-AreBytes 16 x bytes) in
    rw
      (
        append_assoc b (drop 16 x) r,
        take_first 16 b (drop 16 x ++ r) sized,
        drop_first 16 b (drop 16 x ++ r) sized,
        take_of_length-le 16 b (omega (arith, sized)),
        drop_of_length-le 16 b (omega (arith, sized)),
        undone,
        append-nil,
      )
      (sym (append_assoc (take 16 x) (drop 16 x) r) ∙ ap (λ t. t ++ r) (take-append-drop 16 x))

module _ {tx rx : Crypto} (pair : IsHeadPaired tx rx) (x r : List ℕ) (bytes : AreBytes x)
    (long : 16 ≤ length x) where
  mode_undone :
      (mode : CipherMode)
      → deobfuscate_mode mode rx (take 16 (obfuscate_mode mode tx x ++ r))
          ++ drop 16 (obfuscate_mode mode tx x ++ r)
        ≡ x ++ r
  unfolding obfuscate_mode deobfuscate_mode
  mode_undone no_cipher = take-append-drop 16 (x ++ r)
  mode_undone xor = rw pair.gro_xor (xor_head_undone tx.keys.gro_xor x r long)
  mode_undone chacha20_poly1305 = rw pair.gro_xor (xor_head_undone tx.keys.gro_xor x r long)
  mode_undone aes128_cbc = rw pair.ecb (block_undone pair.ecb_law x r bytes long)
  mode_undone aes128_cfb = rw pair.ecb (block_undone pair.ecb_law x r bytes long)

  -- The receiver restores the head of a packet inside a longer buffer and leaves the rest alone.
  pub deobfuscate_at-obfuscate : deobfuscate_at rx (gro_obfuscate_head tx x ++ r) ≡ x ++ r
  unfolding gro_obfuscate_head gro_deobfuscate_head
  deobfuscate_at-obfuscate = simp pair.mode (mode_undone tx.cipher_mode)

length-xor_head : (key x : List ℕ) → length (xor_head key x) ≡ length x
length-xor_head key [] = refl
length-xor_head key (a ∷ []) = refl
length-xor_head key (a ∷ b ∷ x) = refl

length-on_first_block :
    {k : AesKey} (law : IsBlockCipher k) (x : List ℕ)
    → 16 ≤ length x
    → length (on_first_block k.encrypt_block x) ≡ length x
length-on_first_block {k} law x long =
    let head : length (take 16 x) ≡ 16 = omega (arith, length-take 16 x) in
    omega (
      arith,
      law.length_block (take 16 x) head,
      length-append (k.encrypt_block (take 16 x)) (drop 16 x),
      length-drop 16 x,
    )

module _ (tx : Crypto) (law : IsBlockCipher tx.ecb_enc) (x : List ℕ) (long : 16 ≤ length x) where
  length-obfuscate_mode : (mode : CipherMode) → length (obfuscate_mode mode tx x) ≡ length x
  unfolding obfuscate_mode
  length-obfuscate_mode no_cipher = refl
  length-obfuscate_mode xor = length-xor_head tx.keys.gro_xor x
  length-obfuscate_mode chacha20_poly1305 = length-xor_head tx.keys.gro_xor x
  length-obfuscate_mode aes128_cbc = length-on_first_block law x long
  length-obfuscate_mode aes128_cfb = length-on_first_block law x long

  pub length-gro_obfuscate_head : length (gro_obfuscate_head tx x) ≡ length x
  unfolding gro_obfuscate_head
  length-gro_obfuscate_head = length-obfuscate_mode tx.cipher_mode
