-- ===== src/Conv/Agreed.antt =====
-- src/conv.rs: what it is for the three maps and the ordered set to agree, and each operation on it.
use udp2raw_rust.Prelude.{
  ℕ, ◌≡◌, refl, sym, ap, ◌∙◌, subst, inl, inr, Bool, true, false, not, ◌&&◌, ◌||◌, Option, none,
  some, ◌==◌, if◌then◌else◌, ==_iff, Bool-cases, if_cases,
}
use udp2raw_rust.Conv.{ConvManager, new, insert, touch, update_active_time}
use udp2raw_rust.Conv.Assoc.{IsEq, get, get-put, same_pair, mem, discard, mem-add, mem-discard}

-- The option holds the value.
abbrev pub holds {ℓ} : {V : Type ℓ} → (V → V → Bool) → Option V → V → Bool
holds same none x = false
holds same (some v) x = same v x

abbrev pub has {ℓ} : {V : Type ℓ} → Option V → Bool
has none = false
has (some v) = true

pub has-none {ℓ} : {V : Type ℓ} (o : Option V) → has o ≡ false → o ≡ none
has-none none h = refl
has-none (some v) h = absurd (cc)

holds_when_none {ℓ} :
    {V : Type ℓ} (same : V → V → Bool) (o : Option V) (x : V) → o ≡ none → holds same o x ≡ false
holds_when_none same o x e = rw e refl

pub holds_when_some {ℓ} :
    {V : Type ℓ} (same : V → V → Bool) (o : Option V) (v x : V)
    → o ≡ some v
    → holds same o x ≡ same v x
holds_when_some same o v x e = rw e refl

has_put {ℓ κ} :
    {V : Type ℓ} {W : Type κ} (b : Bool) (v : V) (w : W) (g : Option V) (h : Option W)
    → has g ≡ has h
    → has (if b then some v else g) ≡ has (if b then some w else h)
has_put true v w g h e = refl
has_put false v w g h e = e

pub has_delete {ℓ κ} :
    {V : Type ℓ} {W : Type κ} (b : Bool) (g : Option V) (h : Option W)
    → has g ≡ has h
    → has (if b then none else g) ≡ has (if b then none else h)
has_delete true g h e = refl
has_delete false g h e = e

tidy : (b : Bool) → ((b && true) || false) ≡ b
tidy true = refl
tidy false = refl

tidy_false : (b m : Bool) → ((b && false) || m) ≡ m
tidy_false true m = refl
tidy_false false m = refl

tidy_kept : (b m : Bool) → (not (b && false) && m) ≡ m
tidy_kept true m = refl
tidy_kept false m = refl

never : (b : Bool) → (not (b && true) && b) ≡ false
never true = refl
never false = refl

module _ {ℓ} {T : Type ℓ} (same : T → T → Bool) (law : IsEq same) where
  -- A conversation leads to data exactly when the data leads to the conversation; it has a time
  -- exactly when it has data; and the set holds exactly the times.
  pub record IsAgreed (m : ConvManager T) : Type ℓ where
    pub paired :
        (c : ℕ) (x : T)
        → holds same (get (◌==◌) m.conv_to_data c) x ≡ holds (◌==◌) (get same m.data_to_conv x) c
    pub timed : (c : ℕ) → has (get (◌==◌) m.conv_to_data c) ≡ has (get (◌==◌) m.last_active c)
    pub ordered : (ts c : ℕ) → mem m.lru (ts, c) ≡ holds (◌==◌) (get (◌==◌) m.last_active c) ts

  pub new-IsAgreed : IsAgreed new
  unfolding new get mem
  new-IsAgreed = record { paired = λ c x. refl; timed = λ c. refl; ordered = λ ts c. refl }

  -- One entry of the two maps, for the pair `(conv, d)` that joins.
  put_pair :
      (conv c : ℕ) (d x : T) (g : Option T) (h : Option ℕ)
      → (conv == c ≡ true → g ≡ none)
      → (same d x ≡ true → h ≡ none)
      → holds same g x ≡ holds (◌==◌) h c
      → holds same (if conv == c then some d else g) x
        ≡ holds (◌==◌) (if same d x then some conv else h) c
  put_pair conv c d x g h p q e = elim (Bool-cases (conv == c)) [
    | inl a ↦ elim (Bool-cases (same d x)) [
      | inl b ↦ rw (a, b) (sym a)
      | inr b ↦ rw (a, b) (sym (holds_when_none same g x (p a)) ∙ e)
    ]
    | inr a ↦ elim (Bool-cases (same d x)) [
      | inl b ↦ rw (a, b) (e ∙ holds_when_none (◌==◌) h c (q b) ∙ sym a)
      | inr b ↦ rw (a, b) e
    ]
  ]

  pub delete_pair :
      (conv c : ℕ) (d x : T) (g : Option T) (h : Option ℕ)
      → (conv == c ≡ true → g ≡ some d)
      → (same d x ≡ true → h ≡ some conv)
      → holds same g x ≡ holds (◌==◌) h c
      → holds same (if conv == c then none else g) x ≡ holds (◌==◌) (if same d x then none else h) c
  delete_pair conv c d x g h p q e = elim (Bool-cases (conv == c)) [
    | inl a ↦ elim (Bool-cases (same d x)) [
      | inl b ↦ rw (a, b) refl
      | inr b ↦ rw (a, b) (sym b ∙ sym (holds_when_some same g d x (p a)) ∙ e)
    ]
    | inr a ↦ elim (Bool-cases (same d x)) [
      | inl b ↦ rw (a, b) (e ∙ holds_when_some (◌==◌) h conv c (q b) ∙ a)
      | inr b ↦ rw (a, b) e
    ]
  ]

  -- The times after conversation `conv` was given the time `now`, where the set held the times `l`.
  add_time :
      (conv c now ts : ℕ) (l : Option ℕ) (in_set : Bool)
      → (conv == c ≡ true → in_set ≡ false)
      → (conv == c ≡ false → in_set ≡ holds (◌==◌) l ts)
      → (same_pair (now, conv) (ts, c) || in_set)
        ≡ holds (◌==◌) (if conv == c then some now else l) ts
  add_time conv c now ts l in_set p q = elim (Bool-cases (conv == c)) [
    | inl a ↦ rw (a, p a) (tidy (now == ts))
    | inr a ↦ rw (a, q a) (tidy_false (now == ts) (holds (◌==◌) l ts))
  ]

  -- The times without that of conversation `conv`, which was `old`.
  pub drop_time :
      (conv c old ts : ℕ) (l : Option ℕ)
      → (conv == c ≡ true → l ≡ some old)
      → (not (same_pair (old, conv) (ts, c)) && holds (◌==◌) l ts)
        ≡ (if conv == c then false else holds (◌==◌) l ts)
  drop_time conv c old ts l p = elim (Bool-cases (conv == c)) [
    | inl a ↦ rw (a, p a) (never (old == ts))
    | inr a ↦ rw a (tidy_kept (old == ts) (holds (◌==◌) l ts))
  ]

  pub same_conv : (conv c : ℕ) → conv == c ≡ true → conv ≡ c
  same_conv conv c e = (==_iff conv c).0 e

  -- A fresh conversation with fresh data joins.
  pub insert-IsAgreed :
      (m : ConvManager T) (conv : ℕ) (d : T) (now : ℕ)
      → IsAgreed m
      → get (◌==◌) m.conv_to_data conv ≡ none
      → get same m.data_to_conv d ≡ none
      → IsAgreed (insert same m conv d now)
  unfolding insert
  insert-IsAgreed m conv d now i fresh fresh_data = record {
    paired = λ c x.
        rw (get-put (◌==◌) ==_iff m.conv_to_data conv d c, get-put same law m.data_to_conv d conv x)
          (put_pair conv c d x (get (◌==◌) m.conv_to_data c) (get same m.data_to_conv x)
            (λ e. subst (λ k. get (◌==◌) m.conv_to_data k ≡ none) (same_conv conv c e) fresh)
            (λ e. subst (λ y. get same m.data_to_conv y ≡ none) ((law d x).0 e) fresh_data)
            (i.paired c x));
    timed = λ c.
        rw
          (
            get-put (◌==◌) ==_iff m.conv_to_data conv d c,
            get-put (◌==◌) ==_iff m.last_active conv now c,
          )
          (has_put (conv == c) d now (get (◌==◌) m.conv_to_data c) (get (◌==◌) m.last_active c)
            (i.timed c));
    ordered = λ ts c.
        rw (mem-add m.lru (now, conv) (ts, c), get-put (◌==◌) ==_iff m.last_active conv now c)
          (add_time conv c now ts (get (◌==◌) m.last_active c) (mem m.lru (ts, c))
            (λ e.
              i.ordered ts c
              ∙ holds_when_none (◌==◌) (get (◌==◌) m.last_active c) ts (
                  has-none (get (◌==◌) m.last_active c) (
                    sym (i.timed c)
                    ∙ subst (λ k. has (get (◌==◌) m.conv_to_data k) ≡ false) (same_conv conv c e)
                        (rw fresh refl))))
            (λ e. i.ordered ts c));
  }

  touch-IsAgreed :
      (m : ConvManager T) (conv now : ℕ) (l : Option ℕ)
      → IsAgreed m
      → get (◌==◌) m.last_active conv ≡ l
      → IsAgreed (touch same m conv now l)
  touch-IsAgreed m conv now none i e = i
  touch-IsAgreed m conv now (some old) i e =
      if_cases IsAgreed (old == now) (λ t. i)
        (λ t. record {
          paired = i.paired;
          timed = λ c.
              rw (get-put (◌==◌) ==_iff m.last_active conv now c) (elim (Bool-cases (conv == c)) [
                | inl a ↦ rw a (
                    i.timed c
                    ∙ ap has
                        (subst (λ k. get (◌==◌) m.last_active k ≡ some old) (same_conv conv c a) e))
                | inr a ↦ rw a (i.timed c)
              ]);
          ordered = λ ts c.
              rw
                (
                  mem-add (discard m.lru (old, conv)) (now, conv) (ts, c),
                  mem-discard m.lru (old, conv) (ts, c),
                  i.ordered ts c,
                  get-put (◌==◌) ==_iff m.last_active conv now c,
                )
                (let known : conv == c ≡ true → get (◌==◌) m.last_active c ≡ some old = λ a.
                    subst (λ k. get (◌==◌) m.last_active k ≡ some old) (same_conv conv c a) e in
                  let kept = drop_time conv c old ts (get (◌==◌) m.last_active c) known in
                  add_time conv c now ts (get (◌==◌) m.last_active c)
                    (not (same_pair (old, conv) (ts, c))
                      && holds (◌==◌) (get (◌==◌) m.last_active c) ts)
                    (λ a.
                      kept
                      ∙ ap (λ b. if b then false else holds (◌==◌) (get (◌==◌) m.last_active c) ts)
                          a)
                    (λ a.
                      kept
                      ∙ ap (λ b. if b then false else holds (◌==◌) (get (◌==◌) m.last_active c) ts)
                          a));
        })

  pub update_active_time-IsAgreed :
      (m : ConvManager T) (conv now : ℕ)
      → IsAgreed m
      → IsAgreed (update_active_time same m conv now)
  unfolding update_active_time
  update_active_time-IsAgreed m conv now i =
      touch-IsAgreed m conv now (get (◌==◌) m.last_active conv) i refl
