-- ===== src/AntiReplay/Window.antt =====
-- The slots of the window: what clearing a range and advancing do to each.
use udp2raw_rust.Prelude.{
  ℕ, zero, suc, ◌+◌, ◌-◌, ◌%◌, ◌≤◌, ◌<◌, ◌≡◌, refl, ap, ◌≢◌, ◌∙◌, List, arith, length, set, get_or,
  replicate, length-set, get_or-set_self, get_or-set_ne, length-replicate, get_or-replicate, dec_lt,
  ℕ_discrete,
}
use udp2raw_rust.AntiReplay.{window_size, clear_range, advance}

abbrev pub slot : List ℕ → ℕ → ℕ
slot win s = get_or win (s % window_size) 0

pub length-clear_range : (n i : ℕ) (win : List ℕ) → length (clear_range n i win) ≡ length win
unfolding clear_range
length-clear_range zero i win = refl
length-clear_range (suc n) i win = length-clear_range n (i + 1) _ ∙ length-set win _ 0

-- Two numbers less than a window apart have different slots.
pub slots_differ :
    (i j : ℕ)
    → i ≢ j
    → i < j + window_size
    → j < i + window_size
    → i % window_size ≢ j % window_size
slots_differ i j ne p q = elim (dec_lt i j) [ yes lt ↦ omega arith | no ge ↦ omega arith ]

pub slot-set_ne :
    (win : List ℕ) (i j v : ℕ)
    → i ≢ j
    → i < j + window_size
    → j < i + window_size
    → slot (set win (i % window_size) v) j ≡ slot win j
slot-set_ne win i j v ne p q = get_or-set_ne win _ _ v 0 (slots_differ i j ne p q)

pub slot-set_self :
    (win : List ℕ) (i v : ℕ) → length win ≡ window_size → slot (set win (i % window_size) v) i ≡ v
slot-set_self win i v h = get_or-set_self win _ v 0 (omega arith)

-- A slot outside the cleared numbers is left alone.
pub slot-clear_range_out :
    (n i j : ℕ) (win : List ℕ)
    → (j < i)
    → i + n ≤ j + window_size
    → slot (clear_range n i win) j ≡ slot win j
unfolding clear_range
slot-clear_range_out zero i j win lo hi = refl
slot-clear_range_out (suc n) i j win lo hi =
    slot-clear_range_out n (i + 1) j _ (omega arith) (omega arith)
    ∙ slot-set_ne win i j 0 (omega arith) (omega arith) (omega arith)

slot-set_zero :
    (win : List ℕ) (i j : ℕ)
    → length win ≡ window_size
    → i % window_size ≡ j % window_size
    → slot (set win (i % window_size) 0) j ≡ 0
slot-set_zero win i j len e = rw (← e) (get_or-set_self win _ 0 0 (omega arith))

-- A slot that is 0 stays 0.
slot-clear_range_zero :
    (n i j : ℕ) (win : List ℕ)
    → length win ≡ window_size
    → slot win j ≡ 0
    → slot (clear_range n i win) j ≡ 0
unfolding clear_range
slot-clear_range_zero zero i j win len h = h
slot-clear_range_zero (suc n) i j win len h =
    slot-clear_range_zero n (i + 1) j _ (length-set win _ 0 ∙ len)
      (elim (ℕ_discrete (i % window_size) (j % window_size)) [
        | yes e ↦ slot-set_zero win i j len e
        | no ne ↦ get_or-set_ne win _ _ 0 0 ne ∙ h
      ])

-- A cleared slot is 0.
pub slot-clear_range_in :
    (n i j : ℕ) (win : List ℕ)
    → length win ≡ window_size
    → i ≤ j
    → j < i + n
    → slot (clear_range n i win) j ≡ 0
unfolding clear_range
slot-clear_range_in zero i j win len lo hi = absurd (omega arith)
slot-clear_range_in (suc n) i j win len lo hi = elim (ℕ_discrete i j) [
  | yes e ↦
      slot-clear_range_zero n (i + 1) j _ (length-set win _ 0 ∙ len)
        (slot-set_zero win i j len (ap (λ k. k % window_size) e))
  | no ne ↦ slot-clear_range_in n (i + 1) j _ (length-set win _ 0 ∙ len) (omega arith) (omega arith)
]

module _ (win : List ℕ) (top seq : ℕ) (len : length win ≡ window_size) (later : top < seq) where
  pub length-advance : length (advance win top seq) ≡ window_size
  unfolding advance
  length-advance = ground (
    arith,
    length-set (replicate {A = ℕ} window_size 0) (seq % window_size) 1,
    length-replicate {A = ℕ} window_size 0,
    length-set (clear_range (seq - (top + 1)) (top + 1) win) (seq % window_size) 1,
    length-clear_range (seq - (top + 1)) (top + 1) win,
  )

  pub slot-advance_self : slot (advance win top seq) seq ≡ 1
  unfolding advance
  slot-advance_self = ground (
    arith,
    slot-set_self (replicate {A = ℕ} window_size 0) seq 1 (length-replicate {A = ℕ} window_size 0),
    slot-set_self (clear_range (seq - (top + 1)) (top + 1) win) seq 1,
    length-clear_range (seq - (top + 1)) (top + 1) win,
  )

  -- A number between the old and the new top has not been seen.
  pub slot-advance_between :
      (s : ℕ) → top < s → s < seq → seq < s + window_size → slot (advance win top seq) s ≡ 0
  unfolding advance
  slot-advance_between s lo hi near = ground (
    arith,
    slot-set_ne (replicate window_size 0) seq s 1,
    get_or-replicate {A = ℕ} window_size (s % window_size) 0,
    slot-set_ne (clear_range (seq - (top + 1)) (top + 1) win) seq s 1,
    slot-clear_range_in (seq - (top + 1)) (top + 1) s win,
  )

  -- A number up to the old top that is still inside the new window keeps its mark.
  pub slot-advance_before :
      (s : ℕ) → s ≤ top → seq < s + window_size → slot (advance win top seq) s ≡ slot win s
  unfolding advance
  slot-advance_before s lo near = ground (
    arith,
    slot-set_ne (clear_range (seq - (top + 1)) (top + 1) win) seq s 1,
    slot-clear_range_out (seq - (top + 1)) (top + 1) s win,
  )
