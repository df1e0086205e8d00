-- ===== src/Packet/Checksum/Laws.antt =====
-- src/packet/checksum.rs: the checksum written into a packet against its check.
use udp2raw_rust.Prelude.{
  ℕ, ◌+◌, ◌*◌, ◌/◌, ◌%◌, ◌^◌, ◌≤◌, ◌<◌, ◌≡◌, refl, ap, ◌∙◌, true, List, [], ◌∷◌, ◌++◌, arith,
  length, AreBytes,
}
use udp2raw_rust.Util.{write_u16_be}
use udp2raw_rust.Packet.Checksum.{
  sum_words, fold, verify, csum, verify_with_pseudo, csum_with_pseudo,
}

-- The sum of the words, without the width of the accumulator.
unfoldable pub word_sum : List ℕ → ℕ
word_sum [] = 0
word_sum (a ∷ []) = a * 256
word_sum (a ∷ b ∷ rest) = a * 256 + b + word_sum rest

pub word_sum-le :
    (bytes : List ℕ) → AreBytes bytes → 2 * word_sum bytes ≤ 65535 * (length bytes + 1)
unfolding word_sum
word_sum-le [] h = omega arith
word_sum-le (a ∷ []) h = omega (arith, h.0)
word_sum-le (a ∷ b ∷ rest) h = omega (arith, h.0, h.1.0, word_sum-le rest h.1.1)

-- Below the width of the accumulator nothing wraps.
sum_words-eq :
    (bytes : List ℕ) (acc : ℕ)
    → acc + word_sum bytes < 2 ^ 32
    → sum_words acc bytes ≡ acc + word_sum bytes
unfolding sum_words word_sum
sum_words-eq [] acc h = omega arith
sum_words-eq (a ∷ []) acc h = omega arith
sum_words-eq (a ∷ b ∷ rest) acc h =
    let e : (acc + (a * 256 + b)) % 2 ^ 32 ≡ acc + (a * 256 + b) = omega arith in
    rw e (omega (arith, sum_words-eq rest (acc + (a * 256 + b)) (omega arith)))

fold-lt : (acc : ℕ) → fold acc < 2 ^ 16
unfolding fold
fold-lt acc = omega arith

-- Writing the complement of the folded sum makes the folded sum all ones.
fold_complement : (acc : ℕ) → acc < 3 * 2 ^ 30 → fold (acc + fold acc) ≡ 0
unfolding fold
fold_complement acc h = omega arith

pub word_sum-append :
    (xs ys : List ℕ) → length xs % 2 ≡ 0 → word_sum (xs ++ ys) ≡ word_sum xs + word_sum ys
unfolding word_sum
word_sum-append [] ys h = omega arith
word_sum-append (a ∷ []) ys h = absurd (omega arith)
word_sum-append (a ∷ b ∷ xs) ys h = omega (arith, word_sum-append xs ys (omega arith))

-- The two bytes of the checksum field, between an even number of bytes and the rest.
word_sum_field :
    (before after : List ℕ) (h l : ℕ)
    → length before % 2 ≡ 0
    → word_sum (before ++ (h ∷ l ∷ after)) ≡ word_sum before + (h * 256 + l + word_sum after)
unfolding word_sum
word_sum_field before after h l even = word_sum-append before (h ∷ l ∷ after) even

field_value : (c : ℕ) → c < 2 ^ 16 → c / 256 % 256 * 256 + c % 256 ≡ c
field_value c h = omega arith

module _ (pseudo before after : List ℕ) (even_pseudo : length pseudo % 2 ≡ 0)
    (even : length before % 2 ≡ 0)
    (small : word_sum pseudo + (word_sum before + word_sum after) < 3 * 2 ^ 30) where
  -- The sum with any field value.
  total :
      (h l : ℕ)
      → h < 256
      → l < 256
      → sum_words (sum_words 0 pseudo) (before ++ (h ∷ l ∷ after))
        ≡ word_sum pseudo + (word_sum before + (h * 256 + l + word_sum after))
  total h l p q =
      let field = word_sum_field before after h l even in
      let start : sum_words 0 pseudo ≡ word_sum pseudo =
        sum_words-eq pseudo 0 (omega (arith, small)) ∙ omega arith in
      rw start (
        sum_words-eq (before ++ (h ∷ l ∷ after)) (word_sum pseudo) (omega (arith, field, small))
        ∙ ap (λ n. word_sum pseudo + n) field)

  pub pseudo_filled :
      verify_with_pseudo pseudo
        (before ++ (write_u16_be (csum_with_pseudo pseudo (before ++ (0 ∷ 0 ∷ after))) ++ after))
      ≡ true
  unfolding verify_with_pseudo csum_with_pseudo write_u16_be
  pseudo_filled =
      let s = word_sum pseudo + (word_sum before + word_sum after) in
      let zeroed : sum_words (sum_words 0 pseudo) (before ++ (0 ∷ 0 ∷ after)) ≡ s =
        total 0 0 (omega arith) (omega arith) ∙ omega arith in
      let c = fold s in
      let short = fold-lt s in
      let filled : sum_words (sum_words 0 pseudo) (before ++ ((c / 256 % 256) ∷ (c % 256) ∷ after))
          ≡ s + c =
        total (c / 256 % 256) (c % 256) (omega arith) (omega arith)
        ∙ omega (arith, field_value c short) in
      rw (zeroed, filled, fold_complement s (omega (arith, small))) refl

sum_none : (bytes : List ℕ) → csum_with_pseudo [] bytes ≡ csum bytes
unfolding csum csum_with_pseudo sum_words
sum_none bytes = refl

-- Without a pseudo header.
pub filled :
    (before after : List ℕ)
    → length before % 2 ≡ 0
    → word_sum before + word_sum after < 3 * 2 ^ 30
    → verify (before ++ (write_u16_be (csum (before ++ (0 ∷ 0 ∷ after))) ++ after)) ≡ true
unfolding verify verify_with_pseudo csum csum_with_pseudo sum_words
filled before after even small =
    pseudo_filled [] before after refl even (unfold word_sum in omega (arith, small))
