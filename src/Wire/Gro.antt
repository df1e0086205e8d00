-- ===== src/Wire/Gro.antt =====
-- src/wire.rs, `--fix-gro`: each encrypted packet is sent behind its length with an obfuscated head,
-- and the receiver splits a burst that the kernel has merged.
use udp2raw_rust.Prelude.{
  ℕ, zero, suc, ◌+◌, ◌-◌, ◌%◌, ◌^◌, ◌≤◌, ◌≡◌, refl, ap, ap₂, ◌∙◌, true, false, not, ◌||◌, List, [],
  ◌∷◌, ◌++◌, append_assoc, arith, ltb, leb, if◌then◌else◌, length, take, drop, length-append,
  length-take, take-append, drop-append, drop-append_past, AreBytes, append-AreBytes,
}
use udp2raw_rust.Util.{write_u16_be, read_u16_be}
use udp2raw_rust.Util.ByteOrder.{write_u16_be-AreBytes}
use udp2raw_rust.Crypto.{Crypto, max_data_len}
use udp2raw_rust.Crypto.Cipher.{is_aes}
use udp2raw_rust.Crypto.Cipher.Cbc.{drop_first}
use udp2raw_rust.Crypto.Head.{
  gro_obfuscate_head, deobfuscate_at, IsHeadPaired, deobfuscate_at-obfuscate,
  length-gro_obfuscate_head,
}

-- `len as u16` wraps.
unfoldable pub gro_wrap : Crypto → List ℕ → List ℕ
gro_wrap crypto encrypted =
    let buf = write_u16_be (length encrypted % 2 ^ 16) ++ encrypted in
    if leb 16 (length buf) || not (is_aes crypto.cipher_mode)
    then gro_obfuscate_head crypto buf
    else buf

-- The loop at position `pos`, where `rest` is the buffer from there on, `remaining` bytes. Returns
-- that part of the buffer with the heads restored, and the (offset, length) pairs.
unfoldable pub gro_unwrap_from : ℕ → Crypto → ℕ → List ℕ → List ℕ × List (ℕ × ℕ)
gro_unwrap_from zero crypto pos rest = (rest, [])
gro_unwrap_from (suc fuel) crypto pos rest =
    if ltb (length rest) 16
    then (rest, [])
    else (let buf = deobfuscate_at crypto rest in
        let single_len = read_u16_be buf in
        let body = drop 2 buf in
        let later = gro_unwrap_from fuel crypto (pos + 2 + single_len) (drop single_len body) in
        if ltb (length body) single_len
        then (buf, [])
        else if ltb max_data_len single_len
        then (buf, [])
        else (take 2 buf ++ (take single_len body ++ later.0), (pos + 2, single_len) ∷ later.1))

-- Each round consumes at least the two length bytes.
unfoldable pub gro_unwrap : Crypto → List ℕ → List ℕ × List (ℕ × ℕ)
unfolding gro_unwrap_from
gro_unwrap crypto buf = gro_unwrap_from (length buf) crypto 0 buf

abbrev pub slice : List ℕ → ℕ × ℕ → List ℕ
slice buf (off, len) = take len (drop off buf)

abbrev pub slices : List ℕ → List (ℕ × ℕ) → List (List ℕ)
slices buf [] = []
slices buf (p ∷ ps) = slice buf p ∷ slices buf ps

-- The burst that the kernel merged.
abbrev pub merged : Crypto → List (List ℕ) → List ℕ
merged crypto [] = []
merged crypto (w ∷ ws) = gro_wrap crypto w ++ merged crypto ws

-- Packets of bytes that fill a head and are not too long.
abbrev pub AreWirePackets : List (List ℕ) → Type 0
AreWirePackets [] = Unit
AreWirePackets (w ∷ ws) =
    AreBytes w × (14 ≤ length w) × (length w ≤ max_data_len) × AreWirePackets ws

framed : List ℕ → List ℕ
framed w = write_u16_be (length w % 2 ^ 16) ++ w

length-framed : (w : List ℕ) → length (framed w) ≡ length w + 2
unfolding framed write_u16_be
length-framed w = omega arith

framed-AreBytes : (w : List ℕ) → AreBytes w → AreBytes (framed w)
unfolding framed
framed-AreBytes w h = append-AreBytes _ w (write_u16_be-AreBytes (length w % 2 ^ 16)) h

gro_wrap-framed :
    (tx : Crypto) (w : List ℕ) → 14 ≤ length w → gro_wrap tx w ≡ gro_obfuscate_head tx (framed w)
unfolding gro_wrap framed
gro_wrap-framed tx w long =
    let sized : length (write_u16_be (length w % 2 ^ 16) ++ w) ≡ length w + 2 = length-framed w in
    let big : leb 16 (length (write_u16_be (length w % 2 ^ 16) ++ w)) ≡ true =
      ground (arith, sized) in
    rw big

-- What is read behind a restored head.
framed_parts :
    (w r : List ℕ)
    → length w ≤ max_data_len
    → (read_u16_be (framed w ++ r) ≡ length w)
      × (drop 2 (framed w ++ r) ≡ w ++ r)
      × (take 2 (framed w ++ r) ++ (w ++ r) ≡ framed w ++ r)
unfolding framed write_u16_be read_u16_be
framed_parts w r short = (omega arith, refl, refl)

module _ {tx rx : Crypto} (pair : IsHeadPaired tx rx) where
  restore :
      (w r : List ℕ)
      → AreBytes w
      → 14 ≤ length w
      → (deobfuscate_at rx (gro_wrap tx w ++ r) ≡ framed w ++ r)
        × (length (gro_wrap tx w ++ r) ≡ length w + 2 + length r)
  restore w r bytes long =
      let long' : 16 ≤ length (framed w) = omega (arith, length-framed w) in
      (
        rw (gro_wrap-framed tx w long)
            (deobfuscate_at-obfuscate pair (framed w) r (framed-AreBytes w bytes) long'),
        rw (gro_wrap-framed tx w long) (
            omega (
              arith,
              length-append (gro_obfuscate_head tx (framed w)) r,
              length-gro_obfuscate_head tx pair.ecb_law (framed w) long',
              length-framed w,
            )),
      )

  unwrap_step :
      (fuel pos : ℕ) (w r : List ℕ)
      → AreBytes w
      → 14 ≤ length w
      → length w ≤ max_data_len
      → gro_unwrap_from (suc fuel) rx pos (gro_wrap tx w ++ r) ≡ (
        take 2 (framed w ++ r) ++ (w ++ (gro_unwrap_from fuel rx (pos + 2 + length w) r).0),
        (pos + 2, length w) ∷ (gro_unwrap_from fuel rx (pos + 2 + length w) r).1,
      )
  unfolding gro_unwrap_from
  unwrap_step fuel pos w r bytes long short =
      let back = restore w r bytes long in
      let parts = framed_parts w r short in
      let enough : ltb (length (gro_wrap tx w ++ r)) 16 ≡ false = ground (arith, back.1) in
      let fits : ltb (length (w ++ r)) (length w) ≡ false = ground (arith, length-append w r) in
      let small : ltb max_data_len (length w) ≡ false = ground arith in
      simp (enough, back.0, parts.0, parts.1, fits, small, take-append, drop-append)

  -- The first packet of a burst is cut out, and the rest of the burst stands behind it.
  slice_first :
      (pre head w later : List ℕ) (pos : ℕ)
      → length pre ≡ pos
      → length head ≡ 2
      → slice (pre ++ (head ++ (w ++ later))) (pos + 2, length w) ≡ w
  slice_first pre head w later pos at two =
      rw (drop-append_past pre (head ++ (w ++ later)) (pos + 2) (omega arith)) (
        let e : pos + 2 - length pre ≡ 2 = omega arith in
        rw (e, drop_first 2 head (w ++ later) two) (take-append w later))

  slices_restored :
      (ws : List (List ℕ)) (fuel pos : ℕ) (pre : List ℕ)
      → AreWirePackets ws
      → length (merged tx ws) ≤ fuel
      → length pre ≡ pos
      → slices
          (pre ++ (gro_unwrap_from fuel rx pos (merged tx ws)).0)
          (gro_unwrap_from fuel rx pos (merged tx ws)).1
        ≡ ws
  unfolding gro_unwrap_from
  slices_restored [] zero pos pre ok enough at = refl
  slices_restored [] (suc fuel) pos pre ok enough at = refl
  slices_restored (w ∷ ws) zero pos pre ok enough at =
      absurd (omega (arith, (restore w (merged tx ws) ok.0 ok.1).1))
  slices_restored (w ∷ ws) (suc fuel) pos pre ok enough at =
      let r = merged tx ws in
      let head = take 2 (framed w ++ r) in
      let two : length head ≡ 2 =
        omega (arith, length-take 2 (framed w ++ r), length-append (framed w) r, length-framed w) in
      let next = gro_unwrap_from fuel rx (pos + 2 + length w) r in
      let regroup : pre ++ (head ++ (w ++ next.0)) ≡ (pre ++ (head ++ w)) ++ next.0 =
        simp append_assoc in
      let ih =
        slices_restored ws fuel (pos + 2 + length w) (pre ++ (head ++ w)) ok.3
          (omega (arith, (restore w r ok.0 ok.1).1))
          (omega (arith, length-append pre (head ++ w), length-append head w)) in
      rw (unwrap_step fuel pos w r ok.0 ok.1 ok.2) (
        ap₂ ◌∷◌ (slice_first pre head w next.0 pos at two) (ap (λ b. slices b next.1) regroup ∙ ih))

  -- A burst of wrapped packets that arrives merged into one buffer is split into exactly those
  -- packets, in order, with every head restored. Each packet has 14 to 1800 bytes.
  pub gro_unwrap-merged :
      (ws : List (List ℕ))
      → AreWirePackets ws
      → slices (gro_unwrap rx (merged tx ws)).0 (gro_unwrap rx (merged tx ws)).1 ≡ ws
  unfolding gro_unwrap
  gro_unwrap-merged ws ok = slices_restored ws (length (merged tx ws)) 0 [] ok (omega arith) refl
