-- ===== src/Conv/Assoc.antt =====
-- Maps as association lists, over keys with an equality test, and ordered sets of pairs as lists.
use udp2raw_rust.Prelude.{
  ℕ, ◌≡◌, refl, sym, ap, ap₂, ◌∙◌, subst, ◌↔◌, inl, inr, Bool, true, false, not, ◌&&◌, ◌||◌, Option,
  none, some, List, [], ◌∷◌, arith, ltb, ◌==◌, if◌then◌else◌, Bool-cases, if_cases,
}

-- The test decides equality.
abbrev pub IsEq {ℓ} : {K : Type ℓ} → (K → K → Bool) → Type ℓ
IsEq {K} same = (a b : K) → (same a b ≡ true) ↔ (a ≡ b)

module _ {ℓ κ} {K : Type ℓ} {V : Type κ} (same : K → K → Bool) where
  unfoldable pub get : List (K × V) → K → Option V
  get [] k = none
  get ((a, v) ∷ m) k = if same a k then some v else get m k

  unfoldable pub delete : List (K × V) → K → List (K × V)
  delete [] k = []
  delete ((a, v) ∷ m) k = let rest = delete m k in if same a k then rest else (a, v) ∷ rest

  unfoldable pub put : List (K × V) → K → V → List (K × V)
  unfolding delete
  put m k v = (k, v) ∷ delete m k

module _ {ℓ κ} {K : Type ℓ} {V : Type κ} (same : K → K → Bool) (law : IsEq same) where
  pub get-delete :
      (m : List (K × V)) (k j : K)
      → get same (delete same m k) j ≡ (if same k j then none else get same m j)
  unfolding get delete
  get-delete [] k j = elim (Bool-cases (same k j)) [ inl e ↦ rw e refl | inr e ↦ rw e refl ]
  get-delete ((a, v) ∷ m) k j =
      let ih = get-delete m k j in
      elim (Bool-cases (same a k)) [
        | inl ak ↦
            let eq = (law a k).0 ak in
            elim (Bool-cases (same k j)) [
              | inl kj ↦ rw (ak, ih, kj) refl
              | inr kj ↦ rw (ak, ih, kj) (rw (ap (λ x. same x j) eq ∙ kj) refl)
            ]
        | inr ak ↦ elim (Bool-cases (same a j)) [
          | inl aj ↦ elim (Bool-cases (same k j)) [
            | inl kj ↦
                let clash : true ≡ false =
                  sym ((law a k).1 ((law a j).0 aj ∙ sym ((law k j).0 kj))) ∙ ak in
                absurd (cc)
            | inr kj ↦ rw (ak, aj, kj) refl
          ]
          | inr aj ↦ rw (ak, aj, ih) refl
        ]
      ]

  pub get-put :
      (m : List (K × V)) (k : K) (v : V) (j : K)
      → get same (put same m k v) j ≡ (if same k j then some v else get same m j)
  unfolding get put
  get-put m k v j = elim (Bool-cases (same k j)) [
    | inl e ↦ rw e refl
    | inr e ↦ rw (e, get-delete m k j, e) refl
  ]

abbrev pub same_pair : ℕ × ℕ → ℕ × ℕ → Bool
same_pair (a, b) (c, d) = a == c && b == d

-- The order of the pairs: by the first component, then by the second.
abbrev pub before_pair : ℕ × ℕ → ℕ × ℕ → Bool
before_pair (a, b) (c, d) = ltb a c || (a == c && ltb b d)

unfoldable pub mem : List (ℕ × ℕ) → ℕ × ℕ → Bool
mem [] p = false
mem (q ∷ s) p = same_pair q p || mem s p

-- `BTreeSet::insert` and `remove`.
unfoldable pub add : List (ℕ × ℕ) → ℕ × ℕ → List (ℕ × ℕ)
add [] p = p ∷ []
add (q ∷ s) p =
    let rest = add s p in
    if before_pair p q then p ∷ q ∷ s else if same_pair q p then q ∷ s else q ∷ rest

unfoldable pub discard : List (ℕ × ℕ) → ℕ × ℕ → List (ℕ × ℕ)
discard [] p = []
discard (q ∷ s) p = let rest = discard s p in if same_pair q p then rest else q ∷ rest

pub same_pair_law : IsEq same_pair
same_pair_law (a, b) (c, d) = (
  λ h. let x : a ≡ c = ground arith in let y : b ≡ d = ground arith in ap₂ (λ m n. (m, n)) x y,
  λ e. let x : a ≡ c = ap (λ p. p.0) e in let y : b ≡ d = ap (λ p. p.1) e in ground arith,
)

or_idem : (b m : Bool) → (b || m) ≡ (b || (b || m))
or_idem true m = refl
or_idem false m = refl

or_swap : (b c m : Bool) → (b || (c || m)) ≡ (c || (b || m))
or_swap true true m = refl
or_swap true false m = refl
or_swap false c m = refl

not_or : (b m : Bool) → (not b && m) ≡ (not b && (b || m))
not_or true m = refl
not_or false m = refl

pub mem-add : (s : List (ℕ × ℕ)) (p r : ℕ × ℕ) → mem (add s p) r ≡ (same_pair p r || mem s r)
unfolding mem add
mem-add [] p r = refl
mem-add (q ∷ s) p r =
    if_cases (λ t. mem t r ≡ (same_pair p r || (same_pair q r || mem s r))) (before_pair p q)
      (λ e. refl)
      (λ e.
        if_cases (λ t. mem t r ≡ (same_pair p r || (same_pair q r || mem s r))) (same_pair q p)
          (λ same.
            subst (λ x. (same_pair q r || mem s r) ≡ (same_pair x r || (same_pair q r || mem s r)))
              ((same_pair_law q p).0 same) (or_idem (same_pair q r) (mem s r)))
          (λ other.
            ap (λ b. same_pair q r || b) (mem-add s p r)
            ∙ or_swap (same_pair q r) (same_pair p r) (mem s r)))

apart :
    (p q r : ℕ × ℕ)
    → same_pair q p ≡ false
    → (m : Bool)
    → (same_pair q r || (not (same_pair p r) && m)) ≡ (not (same_pair p r) && (same_pair q r || m))
apart p q r other m = elim (Bool-cases (same_pair p r)) [
  | inl e ↦ elim (Bool-cases (same_pair q r)) [
    | inl f ↦
        let clash : true ≡ false =
          sym ((same_pair_law q p).1 ((same_pair_law q r).0 f ∙ sym ((same_pair_law p r).0 e)))
          ∙ other in
        absurd (cc)
    | inr f ↦ rw (e, f) refl
  ]
  | inr e ↦ rw e refl
]

pub mem-discard :
    (s : List (ℕ × ℕ)) (p r : ℕ × ℕ) → mem (discard s p) r ≡ (not (same_pair p r) && mem s r)
unfolding mem discard
mem-discard [] p r = elim (Bool-cases (same_pair p r)) [ inl e ↦ rw e refl | inr e ↦ rw e refl ]
mem-discard (q ∷ s) p r =
    if_cases (λ t. mem t r ≡ (not (same_pair p r) && (same_pair q r || mem s r))) (same_pair q p)
      (λ same.
        mem-discard s p r
        ∙ subst
            (λ x.
              (not (same_pair x r) && mem s r)
              ≡ (not (same_pair x r) && (same_pair q r || mem s r)))
            ((same_pair_law q p).0 same) (not_or (same_pair q r) (mem s r)))
      (λ other. ap (λ b. same_pair q r || b) (mem-discard s p r) ∙ apart p q r other (mem s r))
