-- ===== src/Dns/Canonical.antt =====
-- src/dns.rs, `canonicalize_answer`: its order, its bound, and the order of the answer.
use udp2raw_rust.Prelude.{
  ℕ, zero, suc, ◌≤◌, ◌<◌, ◌≡◌, refl, sym, ap, ap₂, ◌∙◌, subst, inl, inr, Bool, true, false, ◌&&◌,
  ◌||◌, some, List, [], ◌∷◌, arith, leb, ◌==◌, leb→le, ==_iff, Bool-cases, length, take,
  length-take,
}
use udp2raw_rust.Dns.{
  contains, max_endpoint_candidates, is_safe, retain, insert_sorted, sort, dedup_after, dedup,
  canonical, canonicalize_answer,
}

contains-insert_sorted :
    (ys : List ℕ) (x z : ℕ) → contains z (insert_sorted x ys) ≡ ((z == x) || contains z ys)
unfolding insert_sorted
contains-insert_sorted [] x z = refl
contains-insert_sorted (y ∷ ys) x z = ground (arith, contains-insert_sorted ys x z)

pub contains-sort : (xs : List ℕ) (z : ℕ) → contains z (sort xs) ≡ contains z xs
unfolding sort
contains-sort [] z = refl
contains-sort (x ∷ xs) z =
    contains-insert_sorted (sort xs) x z ∙ ap (λ b. (z == x) || b) (contains-sort xs z)

-- Every element is at least `low`, each at least the one before it.
abbrev Ascends : ℕ → List ℕ → Type 0
Ascends low [] = Unit
Ascends low (x ∷ xs) = (low ≤ x) × Ascends x xs

-- Every element is at least `low`, each above the one before it.
abbrev pub Climbs : ℕ → List ℕ → Type 0
Climbs low [] = Unit
Climbs low (x ∷ xs) = (low ≤ x) × Climbs (suc x) xs

insert_sorted-Ascends :
    (ys : List ℕ) (low x : ℕ) → low ≤ x → Ascends low ys → Ascends low (insert_sorted x ys)
unfolding insert_sorted
insert_sorted-Ascends [] low x h a = (h, tt)
insert_sorted-Ascends (y ∷ ys) low x h a = elim (Bool-cases (leb x y)) [
  | inl before ↦ rw before (h, (leb→le x y before, a.1))
  | inr behind ↦ rw behind (a.0, insert_sorted-Ascends ys y x (ground arith) a.1)
]

sort-Ascends : (xs : List ℕ) → Ascends 0 (sort xs)
unfolding sort
sort-Ascends [] = tt
sort-Ascends (x ∷ xs) = insert_sorted-Ascends (sort xs) 0 x (omega arith) (sort-Ascends xs)

dedup_after-Climbs : (ys : List ℕ) (x : ℕ) → Ascends x ys → Climbs (suc x) (dedup_after x ys)
unfolding dedup_after
dedup_after-Climbs [] x a = tt
dedup_after-Climbs (y ∷ ys) x a = elim (Bool-cases (x == y)) [
  | inl same ↦
      rw same (dedup_after-Climbs ys x (subst (λ t. Ascends t ys) (sym ((==_iff x y).0 same)) a.1))
  | inr other ↦ rw other (ground arith, dedup_after-Climbs ys y a.1)
]

contains-dedup_after :
    (ys : List ℕ) (x z : ℕ)
    → ((z == x) || contains z (dedup_after x ys)) ≡ ((z == x) || contains z ys)
unfolding dedup_after
contains-dedup_after [] x z = refl
contains-dedup_after (y ∷ ys) x z =
    ground (arith, contains-dedup_after ys x z, contains-dedup_after ys y z)

not_contains-Climbs : (ys : List ℕ) (low z : ℕ) → z < low → Climbs low ys → contains z ys ≡ false
not_contains-Climbs [] low z h c = refl
not_contains-Climbs (y ∷ ys) low z h c =
    ground (arith, not_contains-Climbs ys (suc y) z (omega (arith, c.0)) c.1)

-- The same elements, for every element.
abbrev pub SameElements : List ℕ → List ℕ → Type 0
SameElements xs ys = (z : ℕ) → contains z xs ≡ contains z ys

same_head :
    (x y : ℕ) (xs ys : List ℕ)
    → Climbs (suc x) xs
    → Climbs (suc y) ys
    → SameElements (x ∷ xs) (y ∷ ys)
    → x ≡ y
same_head x y xs ys c d h =
    ground (arith, h x, h y, not_contains-Climbs xs (suc x) y, not_contains-Climbs ys (suc y) x)

same_tail :
    (x : ℕ) (xs ys : List ℕ)
    → Climbs (suc x) xs
    → Climbs (suc x) ys
    → SameElements (x ∷ xs) (x ∷ ys)
    → SameElements xs ys
same_tail x xs ys c d h z =
    ground (arith, h z, not_contains-Climbs xs (suc x) z, not_contains-Climbs ys (suc x) z)

Climbs-unique :
    (xs ys : List ℕ) (low : ℕ) → Climbs low xs → Climbs low ys → SameElements xs ys → xs ≡ ys
Climbs-unique [] [] low c d h = refl
Climbs-unique [] (y ∷ ys) low c d h = absurd (let e = h y in ground arith)
Climbs-unique (x ∷ xs) [] low c d h = absurd (let e = h x in ground arith)
Climbs-unique (x ∷ xs) (y ∷ ys) low c d h =
    let e = same_head x y xs ys c.1 d.1 h in
    let d' : Climbs (suc x) ys = rw e d.1 in
    let h' : SameElements (x ∷ xs) (x ∷ ys) =
      λ z. h z ∙ ap (λ t. (z == t) || contains z ys) (sym e) in
    ap₂ ◌∷◌ e (Climbs-unique xs ys (suc x) c.1 d' (same_tail x xs ys c.1 d' h'))

dedup-Climbs : (ys : List ℕ) → Ascends 0 ys → Climbs 0 (dedup ys)
unfolding dedup
dedup-Climbs [] a = tt
dedup-Climbs (y ∷ ys) a = (omega arith, dedup_after-Climbs ys y a.1)

pub contains-dedup : (ys : List ℕ) (z : ℕ) → contains z (dedup ys) ≡ contains z ys
unfolding dedup
contains-dedup [] z = refl
contains-dedup (y ∷ ys) z = contains-dedup_after ys y z

pub contains-retain :
    (keep : ℕ → Bool) (xs : List ℕ) (z : ℕ)
    → contains z (retain keep xs) ≡ (keep z && contains z xs)
contains-retain keep [] z = ground arith
contains-retain keep (x ∷ xs) z = ground (arith, contains-retain keep xs z)

take-Climbs : (n : ℕ) (xs : List ℕ) (low : ℕ) → Climbs low xs → Climbs low (take n xs)
take-Climbs zero xs low c = tt
take-Climbs (suc n) [] low c = tt
take-Climbs (suc n) (x ∷ xs) low c = (c.0, take-Climbs n xs (suc x) c.1)

pub contains-take :
    (n : ℕ) (xs : List ℕ) (z : ℕ) → contains z (take n xs) ≡ true → contains z xs ≡ true
contains-take zero xs z h = absurd (ground arith)
contains-take (suc n) [] z h = h
contains-take (suc n) (x ∷ xs) z h = ground (arith, contains-take n xs z)

-- The canonical list is strictly ascending, has at most eight addresses, and none but the given ones.
pub canonical-Climbs :
    (xs : List ℕ)
    → Climbs 0 (canonical xs)
      × (length (canonical xs) ≤ max_endpoint_candidates)
      × ((z : ℕ) → contains z (canonical xs) ≡ true → contains z xs ≡ true)
unfolding canonical
canonical-Climbs xs = (
  take-Climbs max_endpoint_candidates (dedup (sort xs)) 0
      (dedup-Climbs (sort xs) (sort-Ascends xs)),
  omega (arith, length-take max_endpoint_candidates (dedup (sort xs))),
  λ z h.
      sym (contains-sort xs z)
      ∙ (sym (contains-dedup (sort xs) z)
          ∙ contains-take max_endpoint_candidates (dedup (sort xs)) z h),
)

dedup-sort_unordered : (xs ys : List ℕ) → SameElements xs ys → dedup (sort xs) ≡ dedup (sort ys)
dedup-sort_unordered xs ys h =
    Climbs-unique (dedup (sort xs)) (dedup (sort ys)) 0 (dedup-Climbs (sort xs) (sort-Ascends xs))
      (dedup-Climbs (sort ys) (sort-Ascends ys))
      (λ z.
        contains-dedup (sort xs) z
        ∙ (contains-sort xs z
            ∙ (h z ∙ (sym (contains-sort ys z) ∙ sym (contains-dedup (sort ys) z)))))

-- The canonical list depends only on which addresses are given, not on their order or number.
pub canonical_unordered : (xs ys : List ℕ) → SameElements xs ys → canonical xs ≡ canonical ys
unfolding canonical
canonical_unordered xs ys h = ap (take max_endpoint_candidates) (dedup-sort_unordered xs ys h)

-- The order in which a server lists the records, and repeated records, change nothing.
pub canonicalize_answer_unordered :
    (allow_private : Bool) (xs ys : List ℕ)
    → SameElements xs ys
    → canonicalize_answer allow_private xs ≡ canonicalize_answer allow_private ys
unfolding canonicalize_answer
canonicalize_answer_unordered allow_private xs ys h =
    let keep = is_safe allow_private in
    let same : SameElements (retain keep xs) (retain keep ys) = λ z.
      contains-retain keep xs z ∙ (ap (λ b. keep z && b) (h z) ∙ sym (contains-retain keep ys z)) in
    rw (dedup-sort_unordered (retain keep xs) (retain keep ys) same) refl

canonical_nonempty :
    (xs : List ℕ) → (length (dedup (sort xs)) == 0) ≡ false → 1 ≤ length (canonical xs)
unfolding canonical
canonical_nonempty xs h =
    let some_left : 1 ≤ length (dedup (sort xs)) = ground arith in
    omega (arith, length-take max_endpoint_candidates (dedup (sort xs)))

pub retained :
    (keep : ℕ → Bool) (xs : List ℕ) (z : ℕ)
    → contains z (retain keep xs) ≡ true
    → (contains z xs ≡ true) × (keep z ≡ true)
retained keep xs z h = ground (arith, contains-retain keep xs z)

-- An accepted answer is one to eight addresses in strictly ascending order, each of them listed by
-- the server and safe for the tunnel.
pub canonicalize_answer_safe :
    (allow_private : Bool) (addrs out : List ℕ)
    → canonicalize_answer allow_private addrs ≡ some out
    → Climbs 0 out
      × (1 ≤ length out)
      × (length out ≤ max_endpoint_candidates)
      × ((z : ℕ)
          → contains z out ≡ true
          → (contains z addrs ≡ true) × (is_safe allow_private z ≡ true))
unfolding canonicalize_answer
canonicalize_answer_safe allow_private addrs out h =
    let usable = retain (is_safe allow_private) addrs in
    let shape = canonical-Climbs usable in
    elim (Bool-cases (length (dedup (sort usable)) == 0)) [
      | inl empty ↦ absurd (ground arith)
      | inr some_left ↦
          let same : out ≡ canonical usable = ground arith in
          rw same (
            shape.0,
            canonical_nonempty usable some_left,
            shape.1,
            λ z m. retained (is_safe allow_private) addrs z (shape.2 z m),
          )
    ]
