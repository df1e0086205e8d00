-- ===== src/Prelude/Bytes.antt =====
-- Byte strings: lists of numbers below 256. `byte_at` is only called where the code has tested the
-- length, so the default is never read.
use Prim.Native.Nat.{ℕ, zero, suc, ◌*◌, ◌/◌, ◌^◌, ◌<◌}
use mathlib.Core.List.{List, [], ◌∷◌, ◌++◌}
use udp2raw_rust.Prelude.Lists.{get_or, take, drop, replicate}

abbrev pub byte_at : List ℕ → ℕ → ℕ
byte_at buf i = get_or buf i 0

infixl 75 ◌<<<◌ ◌>>>◌
abbrev pub ◌<<<◌ : ℕ → ℕ → ℕ
x <<< k = x * 2 ^ k

abbrev pub ◌>>>◌ : ℕ → ℕ → ℕ
x >>> k = x / 2 ^ k

-- Every element is a byte.
abbrev pub AreBytes : List ℕ → Type 0
AreBytes [] = Unit
AreBytes (b ∷ bs) = (b < 256) × AreBytes bs

pub append-AreBytes : (xs ys : List ℕ) → AreBytes xs → AreBytes ys → AreBytes (xs ++ ys)
append-AreBytes [] ys p q = q
append-AreBytes (x ∷ xs) ys p q = (p.0, append-AreBytes xs ys p.1 q)

pub take-AreBytes : (n : ℕ) (xs : List ℕ) → AreBytes xs → AreBytes (take n xs)
take-AreBytes zero xs p = tt
take-AreBytes (suc n) [] p = tt
take-AreBytes (suc n) (x ∷ xs) p = (p.0, take-AreBytes n xs p.1)

pub drop-AreBytes : (n : ℕ) (xs : List ℕ) → AreBytes xs → AreBytes (drop n xs)
drop-AreBytes zero xs p = p
drop-AreBytes (suc n) [] p = tt
drop-AreBytes (suc n) (x ∷ xs) p = drop-AreBytes n xs p.1

pub replicate-AreBytes : (n b : ℕ) → b < 256 → AreBytes (replicate n b)
unfolding replicate
replicate-AreBytes zero b h = tt
replicate-AreBytes (suc n) b h = (h, replicate-AreBytes n b h)
