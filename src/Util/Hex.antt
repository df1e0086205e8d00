-- ===== src/Util/Hex.antt =====
-- src/util.rs: hexadecimal text. A text is the list of its bytes.
use udp2raw_rust.Prelude.{
  ℕ, ◌+◌, ◌-◌, ◌*◌, ◌/◌, ◌%◌, ◌<◌, ◌≡◌, refl, ap, Bool, true, false, not, ◌&&◌, Option, none, some,
  List, [], ◌∷◌, arith, ltb, leb, ◌==◌, if◌then◌else◌, ◌>>=◌, length, AreBytes,
}

-- The digit of a number below 16.
abbrev pub hex_digit : ℕ → ℕ
hex_digit d = if ltb d 10 then 48 + d else 87 + d

unfoldable pub hex : List ℕ → List ℕ
hex [] = []
hex (b ∷ bytes) = hex_digit (b / 16) ∷ hex_digit (b % 16) ∷ hex bytes

-- `to_digit(16)`, of either case.
abbrev pub to_digit : ℕ → Option ℕ
to_digit c =
    if leb 48 c && leb c 57
    then some (c - 48)
    else if leb 97 c && leb c 102
    then some (c - 87)
    else if leb 65 c && leb c 70
    then some (c - 55)
    else none

abbrev pub push_byte : Option ℕ → Option ℕ → Option (List ℕ) → Option (List ℕ)
push_byte hi lo rest = hi >>= λ h. lo >>= λ l. rest >>= λ out. some ((h * 16 + l) ∷ out)

-- The loop over the pairs of digits; the length is even.
unfoldable pub unhex_pairs : List ℕ → Option (List ℕ)
unhex_pairs [] = some []
unhex_pairs (a ∷ []) = none
unhex_pairs (a ∷ b ∷ s) = push_byte (to_digit a) (to_digit b) (unhex_pairs s)

-- The test for the text "-".
abbrev pub is_dash : List ℕ → Bool
is_dash [] = false
is_dash (c ∷ []) = c == b'-'
is_dash (c ∷ d ∷ s) = false

unfoldable pub unhex : List ℕ → Option (List ℕ)
unfolding unhex_pairs
unhex s = if is_dash s then some [] else if not (length s % 2 == 0) then none else unhex_pairs s

to_digit-hex_digit : (d : ℕ) → d < 16 → to_digit (hex_digit d) ≡ some d
to_digit-hex_digit d h = ground arith

unhex_pairs-hex : (bytes : List ℕ) → AreBytes bytes → unhex_pairs (hex bytes) ≡ some bytes
unfolding unhex_pairs hex
unhex_pairs-hex [] h = refl
unhex_pairs-hex (b ∷ bytes) h =
    let whole : b / 16 * 16 + b % 16 ≡ b = omega arith in
    rw
      (
        to_digit-hex_digit (b / 16) (omega (arith, h.0)),
        to_digit-hex_digit (b % 16) (omega arith),
        unhex_pairs-hex bytes (h.1),
      )
      (ap (λ x. some (x ∷ bytes)) whole)

length-hex : (bytes : List ℕ) → length (hex bytes) ≡ 2 * length bytes
unfolding hex
length-hex [] = refl
length-hex (b ∷ bytes) = omega (arith, length-hex bytes)

hex_not_dash : (bytes : List ℕ) → is_dash (hex bytes) ≡ false
unfolding hex
hex_not_dash [] = refl
hex_not_dash (b ∷ bytes) = refl

-- Bytes written in hexadecimal are read back.
pub unhex-hex : (bytes : List ℕ) → AreBytes bytes → unhex (hex bytes) ≡ some bytes
unfolding unhex
unhex-hex bytes h =
    let even : length (hex bytes) % 2 == 0 ≡ true = ground (arith, length-hex bytes) in
    rw (hex_not_dash bytes, even) (unhex_pairs-hex bytes h)
