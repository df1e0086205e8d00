-- ===== src/AntiReplay/History.antt =====
-- The filter against the set of sequence numbers that it has accepted.
use udp2raw_rust.Prelude.{
  ℕ, ◌+◌, ◌-◌, ◌%◌, ◌≤◌, ◌<◌, ◌≡◌, refl, ◌≢◌, ◌⊎◌, ◌∙◌, Bool, true, false, not, ◌||◌, List, [], ◌∷◌,
  arith, length, ltb, leb, ◌==◌, if◌then◌else◌, set, length-replicate, get_or-replicate, inl, inr,
  length-set,
}
use udp2raw_rust.AntiReplay.{AntiReplay, window_size, advance, is_valid, new, re_init}
use udp2raw_rust.AntiReplay.Window.{
  slot, slot-set_self, slot-set_ne, length-advance, slot-advance_self, slot-advance_between,
  slot-advance_before,
}

abbrev pub elem : ℕ → List ℕ → Bool
elem s [] = false
elem s (x ∷ xs) = s == x || elem s xs

-- What the filter promises: a number above the largest one seen is new; an older one is new if it
-- is less than a window behind and was not accepted before; the largest one itself is a replay.
unfoldable pub accepts : ℕ → List ℕ → ℕ → Bool
accepts top seen seq =
    if seq == top
    then false
    else if ltb top seq
    then true
    else if leb window_size (top - seq)
    then false
    else not (elem seq seen)

-- The window records `seen`; numbers below `from` may also be marked without having been seen.
pub record Tracks (from : ℕ) (seen : List ℕ) (a : AntiReplay) : Type 0 where
  pub enabled : a.disabled ≡ false
  pub sized : length a.window ≡ window_size
  pub below : (s : ℕ) → elem s seen ≡ true → s ≤ a.max_packet_received
  pub marked :
      (s : ℕ) → elem s seen ≡ true → a.max_packet_received < s + window_size → slot a.window s ≡ 1
  pub unmarked :
      (s : ℕ)
      → from ≤ s
      → s ≤ a.max_packet_received
      → a.max_packet_received < s + window_size
      → elem s seen ≡ false
      → slot a.window s ≢ 1

unfoldable pub record_seen : Bool → ℕ → List ℕ → List ℕ
record_seen ok seq seen = if ok then seq ∷ seen else seen

pub new-Tracks : (random : ℕ) → Tracks 0 [] (new false random)
unfolding new
new-Tracks random = record {
  enabled = refl;
  sized = length-replicate {A = ℕ} window_size 0;
  below = λ s p. absurd (ground arith);
  marked = λ s p. absurd (ground arith);
  unmarked = λ s p q r e. ground (arith, get_or-replicate {A = ℕ} window_size (s % window_size) 0);
}

-- `re_init` keeps the old window, so the number 0 may look as if it had been seen.
pub re_init-Tracks :
    (a : AntiReplay) → a.disabled ≡ false → length a.window ≡ window_size → Tracks 1 [] (re_init a)
unfolding re_init
re_init-Tracks a on len = record {
  enabled = on;
  sized = len;
  below = λ s p. absurd (ground arith);
  marked = λ s p. absurd (ground arith);
  unmarked = λ s p q r e. absurd (omega arith);
}

module _ {from : ℕ} {seen : List ℕ} {a : AntiReplay} (t : Tracks from seen a) (seq : ℕ) where
  advance-Tracks :
      a.max_packet_received < seq
      → Tracks from (seq ∷ seen) (record a {
        max_packet_received = seq;
        window = advance a.window a.max_packet_received seq;
      })
  advance-Tracks later = record {
    enabled = t.enabled;
    sized = length-advance a.window a.max_packet_received seq t.sized later;
    below = λ s p. ground (arith, t.below s);
    marked = λ s p q. ground (
      arith,
      t.below s,
      t.marked s,
      slot-advance_self a.window a.max_packet_received seq t.sized later,
      slot-advance_before a.window a.max_packet_received seq t.sized later s,
    );
    unmarked = λ s lo hi q e. ground (
      arith,
      t.below s,
      t.unmarked s,
      slot-advance_before a.window a.max_packet_received seq t.sized later s,
      slot-advance_between a.window a.max_packet_received seq t.sized later s,
    );
  }

  mark-Tracks :
      seq < a.max_packet_received
      → a.max_packet_received < seq + window_size
      → Tracks from (seq ∷ seen) (record a { window = set a.window (seq % window_size) 1 })
  mark-Tracks older near = record {
    enabled = t.enabled;
    sized = length-set a.window (seq % window_size) 1 ∙ t.sized;
    below = λ s p. ground (arith, t.below s);
    marked = λ s p q. ground (
      arith,
      t.below s,
      t.marked s,
      slot-set_self a.window seq 1 t.sized,
      slot-set_ne a.window seq s 1,
    );
    unmarked = λ s lo hi q e. ground (arith, t.unmarked s, slot-set_ne a.window seq s 1);
  }

  -- The three outcomes of a call.
  is_valid-cases :
      (is_valid a seq ≡ (false, a))
      ⊎ ((a.max_packet_received < seq)
          × (is_valid a seq ≡ (
            true,
            record a {
              max_packet_received = seq;
              window = advance a.window a.max_packet_received seq;
            },
          )))
      ⊎ ((seq < a.max_packet_received)
          × (a.max_packet_received < seq + window_size)
          × (is_valid a seq ≡ (true, record a { window = set a.window (seq % window_size) 1 })))
  unfolding is_valid
  is_valid-cases = ground (arith, t.enabled)

  -- Each call keeps the record of what was accepted.
  pub is_valid-Tracks : Tracks from (record_seen (is_valid a seq).0 seq seen) (is_valid a seq).1
  unfolding record_seen
  is_valid-Tracks = elim is_valid-cases [
    | inl e ↦ rw e t
    | inr (inl p) ↦ rw p.1 (advance-Tracks p.0)
    | inr (inr p) ↦ rw p.2 (mark-Tracks p.0 p.1)
  ]

  -- A number that is accepted had not been accepted before.
  pub is_valid-new : (is_valid a seq).0 ≡ true → elem seq seen ≡ false
  unfolding is_valid
  is_valid-new h = ground (arith, t.enabled, t.below seq, t.marked seq)

  -- From `from` on the verdict is the specified one.
  pub is_valid-accepts : from ≤ seq → (is_valid a seq).0 ≡ accepts a.max_packet_received seen seq
  unfolding is_valid accepts
  is_valid-accepts h = ground (arith, t.enabled, t.marked seq, t.unmarked seq)
