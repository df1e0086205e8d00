-- ===== src/Conv/Expiry.antt =====
-- src/conv.rs, `clear_inactive`: an expiry pass, one conversation after another.
use udp2raw_rust.Prelude.{
  ℕ, zero, suc, ◌+◌, ◌-◌, ◌/◌, ◌≤◌, min, ◌≡◌, refl, sym, ap, ◌∙◌, subst, ◌⊎◌, inl, inr, Bool, true,
  false, Option, none, some, List, [], ◌∷◌, arith, ltb, leb, ◌==◌, if◌then◌else◌, ==_iff,
  Option-cases, if_cases, length,
}
use udp2raw_rust.Conv.{
  ConvManager, erase, first, expire_first, expire, clear_inactive, conv_timeout_ms,
  conv_clear_interval_ms, conv_clear_ratio, conv_clear_min,
}
use udp2raw_rust.Conv.Assoc.{
  IsEq, get, delete, get-delete, same_pair_law, mem, discard, mem-discard,
}
use udp2raw_rust.Conv.Agreed.{
  IsAgreed, holds, has, has_delete, delete_pair, drop_time, same_conv, holds_when_some,
}

abbrev pub AllOf {ℓ κ} : {A : Type ℓ} → (A → Type κ) → List A → Type κ
AllOf P [] = Unit
AllOf P (a ∷ s) = P a × AllOf P s

AllOf-map {ℓ κ μ} :
    {A : Type ℓ} {P : A → Type κ} {Q : A → Type μ}
    → ((a : A) → P a → Q a)
    → (s : List A) → AllOf P s
    → AllOf Q s
AllOf-map f [] h = tt
AllOf-map f (a ∷ s) h = (f a (h.0), AllOf-map f s (h.1))

-- The first entry of a set is in it.
first-mem : (s : List (ℕ × ℕ)) (p : ℕ × ℕ) → first s ≡ some p → mem s p ≡ true
unfolding mem
first-mem [] p h = absurd (cc)
first-mem (q ∷ s) p h = let e : q ≡ p = cc in rw ((same_pair_law q p).1 e) refl

holds-true : (o : Option ℕ) (n : ℕ) → holds (◌==◌) o n ≡ true → o ≡ some n
holds-true none n h = absurd (cc)
holds-true (some m) n h = ap some ((==_iff m n).0 h)

kept_entry {ℓ} :
    {V : Type ℓ} (b : Bool) (o : Option V) (v : V) → (if b then none else o) ≡ some v → o ≡ some v
kept_entry true o v h = absurd (cc)
kept_entry false o v h = h

module _ {ℓ} {T : Type ℓ} (same : T → T → Bool) (law : IsEq same) where
  -- The manager without conversation `conv`, whose data is `d` and whose time is `ts`.
  abbrev without : ConvManager T → ℕ → T → ℕ → ConvManager T
  without m conv d ts = record m {
    conv_to_data = delete (◌==◌) m.conv_to_data conv;
    data_to_conv = delete same m.data_to_conv d;
    last_active = delete (◌==◌) m.last_active conv;
    lru = discard m.lru (ts, conv);
  }

  -- A conversation in use is erased from every map, with its data; another is not found.
  erase_cases :
      (m : ConvManager T) (conv : ℕ)
      → IsAgreed same law m
      → ((get (◌==◌) m.conv_to_data conv ≡ none) × (erase same m conv ≡ (none, m)))
        ⊎ ((d : T) × (ts : ℕ) × (get (◌==◌) m.conv_to_data conv ≡ some d)
            × (get (◌==◌) m.last_active conv ≡ some ts)
            × (erase same m conv ≡ (some d, without m conv d ts)))
  unfolding erase
  erase_cases m conv i = elim (Option-cases (get (◌==◌) m.conv_to_data conv)) [
    | inl e ↦ inl (e, rw e refl)
    | inr (d, e) ↦ elim (Option-cases (get (◌==◌) m.last_active conv)) [
      | inl f ↦ let clash : true ≡ false = ap has (sym e) ∙ i.timed conv ∙ ap has f in absurd (cc)
      | inr (ts, f) ↦ inr (d, ts, e, f, rw (e, f) refl)
    ]
  ]

  without-IsAgreed :
      (m : ConvManager T) (conv : ℕ) (d : T) (ts : ℕ)
      → IsAgreed same law m
      → get (◌==◌) m.conv_to_data conv ≡ some d
      → get (◌==◌) m.last_active conv ≡ some ts
      → IsAgreed same law (without m conv d ts)
  without-IsAgreed m conv d ts i e f = record {
    paired = λ c x.
        rw (get-delete (◌==◌) ==_iff m.conv_to_data conv c, get-delete same law m.data_to_conv d x)
          (delete_pair same law conv c d x (get (◌==◌) m.conv_to_data c) (get same m.data_to_conv x)
            (λ a. subst (λ k. get (◌==◌) m.conv_to_data k ≡ some d) (same_conv same law conv c a) e)
            (λ a. subst (λ y. get same m.data_to_conv y ≡ some conv) ((law d x).0 a) back)
            (i.paired c x));
    timed = λ c.
        rw
          (
            get-delete (◌==◌) ==_iff m.conv_to_data conv c,
            get-delete (◌==◌) ==_iff m.last_active conv c,
          )
          (has_delete (conv == c) (get (◌==◌) m.conv_to_data c) (get (◌==◌) m.last_active c)
            (i.timed c));
    ordered = λ t c.
        rw
          (
            mem-discard m.lru (ts, conv) (t, c),
            i.ordered t c,
            get-delete (◌==◌) ==_iff m.last_active conv c,
          )
          (drop_time same law conv c ts t (get (◌==◌) m.last_active c) (λ a.
              subst (λ k. get (◌==◌) m.last_active k ≡ some ts) (same_conv same law conv c a) f)
            ∙ none_or (conv == c) (get (◌==◌) m.last_active c) t);
  }
    where
      back : get same m.data_to_conv d ≡ some conv
      back = holds-true (get same m.data_to_conv d) conv (
          sym (i.paired conv d)
          ∙ holds_when_some same (get (◌==◌) m.conv_to_data conv) d d e
          ∙ (law d d).1 refl)

      none_or :
          (b : Bool) (o : Option ℕ) (t : ℕ)
          → (if b then false else holds (◌==◌) o t) ≡ holds (◌==◌) (if b then none else o) t
      none_or true o t = refl
      none_or false o t = refl

  pub erase-IsAgreed :
      (m : ConvManager T) (conv : ℕ)
      → IsAgreed same law m
      → IsAgreed same law ((erase same m conv).1)
  erase-IsAgreed m conv i = elim (erase_cases m conv i) [
    | inl (e, f) ↦ rw f i
    | inr (d, ts, e, t, f) ↦ rw f (without-IsAgreed m conv d ts i e t)
  ]

  -- The conversation has the data, and has been idle for the timeout.
  pub record IsIdle (m : ConvManager T) (now : ℕ) (gone : ℕ × T) : Type ℓ where
    pub last : ℕ
    pub was_used : get (◌==◌) m.conv_to_data (gone.0) ≡ some (gone.1)
    pub was_active : get (◌==◌) m.last_active (gone.0) ≡ some last
    pub timed_out : conv_timeout_ms ≤ now - last

  without-IsIdle :
      (m : ConvManager T) (conv : ℕ) (d : T) (ts now : ℕ) (gone : ℕ × T)
      → IsIdle (without m conv d ts) now gone
      → IsIdle m now gone
  without-IsIdle m conv d ts now gone i = record {
    last = i.last;
    was_used =
        kept_entry (conv == gone.0) (get (◌==◌) m.conv_to_data (gone.0)) (gone.1)
          (sym (get-delete (◌==◌) ==_iff m.conv_to_data conv (gone.0)) ∙ i.was_used);
    was_active =
        kept_entry (conv == gone.0) (get (◌==◌) m.last_active (gone.0)) i.last
          (sym (get-delete (◌==◌) ==_iff m.last_active conv (gone.0)) ∙ i.was_active);
    timed_out = i.timed_out;
  }

  -- What a pass of at most `n` rounds does.
  record IsPass (m : ConvManager T) (now n : ℕ) (r : List (ℕ × T) × ConvManager T) : Type ℓ where
    all_idle : AllOf (IsIdle m now) (r.0)
    few : length (r.0) ≤ n
    agreed : IsAgreed same law (r.1)

  ends : (m : ConvManager T) (now n : ℕ) → IsAgreed same law m → IsPass m now n ([], m)
  ends m now n i = record { all_idle = tt; few = omega arith; agreed = i }

  expire_first-IsPass :
      (loop : ConvManager T → List (ℕ × T) × ConvManager T) (now n : ℕ)
      → ((m : ConvManager T) → IsAgreed same law m → IsPass m now n (loop m))
      → (m : ConvManager T) (o : Option (ℕ × ℕ)) → IsAgreed same law m
      → first m.lru ≡ o
      → IsPass m now (suc n) (expire_first same loop now m o)
  expire_first-IsPass loop now n goes_on m none i e = ends m now (suc n) i
  expire_first-IsPass loop now n goes_on m (some (ts, conv)) i e =
      let at : get (◌==◌) m.last_active conv ≡ some ts =
        holds-true (get (◌==◌) m.last_active conv) ts
          (sym (i.ordered ts conv) ∙ first-mem m.lru (ts, conv) e) in
      if_cases (IsPass m now (suc n)) (ltb (now - ts) conv_timeout_ms) (λ t. ends m now (suc n) i)
        (λ late. elim (erase_cases m conv i) [
          | inl (f, g) ↦
              let clash : false ≡ true = ap has (sym f) ∙ i.timed conv ∙ ap has at in absurd (cc)
          | inr (d, old, f, t, g) ↦
              let rest = goes_on (without m conv d old) (without-IsAgreed m conv d old i f t) in
              rw g (record {
                all_idle = (
                  record { last = ts; was_used = f; was_active = at; timed_out = ground arith },
                  AllOf-map (without-IsIdle m conv d old now) ((loop (without m conv d old)).0)
                      rest.all_idle,
                );
                few = omega (arith, rest.few);
                agreed = rest.agreed;
              })
        ])

  expire-IsPass :
      (now n : ℕ) (m : ConvManager T) → IsAgreed same law m → IsPass m now n (expire same now n m)
  unfolding expire
  expire-IsPass now zero m i = ends m now zero i
  expire-IsPass now (suc n) m i =
      expire_first-IsPass (expire same now n) now n (expire-IsPass now n) m (first m.lru) i refl

  -- Where the maps agree, an expiry pass returns only conversations that were in use, each with its
  -- data, and idle for the timeout; at most one in thirty of them and one more.
  pub clear_inactive-IsIdle :
      (m : ConvManager T) (now : ℕ)
      → IsAgreed same law m
      → AllOf (IsIdle m now) ((clear_inactive same m now).0)
        × (length ((clear_inactive same m now).0) ≤ length m.lru / 30 + 1)
  unfolding clear_inactive
  clear_inactive-IsIdle m now i =
      if_cases
        (λ (r : List (ℕ × T) × ConvManager T).
          AllOf (IsIdle m now) (r.0) × (length (r.0) ≤ length m.lru / 30 + 1))
        (leb (now - m.last_clear_time) conv_clear_interval_ms) (λ e. (tt, omega arith))
        (λ e.
          let started : ConvManager T = record m { last_clear_time = now } in
          let pass =
            expire-IsPass now
              (min (length m.lru / conv_clear_ratio + conv_clear_min) (length m.lru)) started
              (record { paired = i.paired; timed = i.timed; ordered = i.ordered }) in
          (
            AllOf-map
                (λ gone idle. record {
                  last = idle.last;
                  was_used = idle.was_used;
                  was_active = idle.was_active;
                  timed_out = idle.timed_out;
                })
                ((expire same now
                  (min (length m.lru / conv_clear_ratio + conv_clear_min) (length m.lru))
                  started).0)
                pass.all_idle,
            omega (arith, pass.few),
          ))

  pub clear_inactive-IsAgreed :
      (m : ConvManager T) (now : ℕ)
      → IsAgreed same law m
      → IsAgreed same law ((clear_inactive same m now).1)
  unfolding clear_inactive
  clear_inactive-IsAgreed m now i =
      if_cases (λ (r : List (ℕ × T) × ConvManager T). IsAgreed same law (r.1))
        (leb (now - m.last_clear_time) conv_clear_interval_ms) (λ e. i)
        (λ e.
          (expire-IsPass now (min (length m.lru / conv_clear_ratio + conv_clear_min) (length m.lru))
            (record m { last_clear_time = now })
            (record { paired = i.paired; timed = i.timed; ordered = i.ordered })).agreed)
