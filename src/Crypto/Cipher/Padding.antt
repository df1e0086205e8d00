-- ===== src/Crypto/Cipher/Padding.antt =====
-- src/crypto/cipher.rs: padding to the block size, and its removal.
use udp2raw_rust.Prelude.{
  ℕ, zero, suc, ◌+◌, ◌-◌, ◌%◌, ◌≤◌, ◌<◌, ◌≡◌, refl, ap, [], ◌∷◌, ◌++◌, arith, length-append,
  length-set, get_or-set_self, length-replicate, take-append,
}
use udp2raw_rust.Crypto.Cipher.{
  pad16, unpad16, padded_len, List, length, some, replicate, take, set,
}

abbrev padding : List ℕ → List ℕ
padding buf = replicate (padded_len (length buf) - length buf) 0

pub length-pad16 : (buf : List ℕ) → length (pad16 buf) ≡ padded_len (length buf)
unfolding pad16
length-pad16 buf = ground (
  arith,
  length-set (buf ++ padding buf) (padded_len (length buf) - 1)
      ((padded_len (length buf) - length buf) % 256),
  length-append buf (padding buf),
  length-replicate {A = ℕ} (padded_len (length buf) - length buf) 0,
)

-- The padding is between 1 and 16 bytes, up to a multiple of 16.
pub padded_len_lem :
    (old : ℕ) → (old < padded_len old) × (padded_len old ≤ old + 16) × (padded_len old % 16 ≡ 0)
padded_len_lem old = ground arith

pub take-set_past {ℓ} :
    {A : Type ℓ} (xs : List A) (n i : ℕ) (v : A) → n ≤ i → take n (set xs i v) ≡ take n xs
take-set_past [] n i v h = refl
take-set_past (x ∷ xs) zero zero v h = refl
take-set_past (x ∷ xs) zero (suc i) v h = refl
take-set_past (x ∷ xs) (suc n) zero v h = absurd (omega arith)
take-set_past (x ∷ xs) (suc n) (suc i) v h = ap (◌∷◌ x) (take-set_past xs n i v (omega arith))

pub unpad16-pad16 : (buf : List ℕ) → unpad16 (pad16 buf) ≡ some buf
unfolding pad16 unpad16
unpad16-pad16 buf = ground (
  arith,
  padded_len_lem (length buf),
  length-set (buf ++ padding buf) (padded_len (length buf) - 1)
      ((padded_len (length buf) - length buf) % 256),
  length-append buf (padding buf),
  length-replicate {A = ℕ} (padded_len (length buf) - length buf) 0,
  get_or-set_self (buf ++ padding buf) (padded_len (length buf) - 1)
      ((padded_len (length buf) - length buf) % 256) 0,
  take-set_past (buf ++ padding buf) (length buf) (padded_len (length buf) - 1)
      ((padded_len (length buf) - length buf) % 256),
  take-append buf (padding buf),
)
