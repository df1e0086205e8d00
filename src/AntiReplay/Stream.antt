-- ===== src/AntiReplay/Stream.antt =====
-- The filter on a whole stream of packets.
use udp2raw_rust.Prelude.{
  ℕ, ◌≡◌, refl, Bool, List, [], ◌∷◌, arith, ap₂, Bool-cases, inl, length, inr, if◌then◌else◌, max,
}
use udp2raw_rust.AntiReplay.{AntiReplay, is_valid, false, true, new, window_size, re_init}
use udp2raw_rust.AntiReplay.History.{
  elem, accepts, record_seen, Tracks, new-Tracks, re_init-Tracks, is_valid-Tracks, is_valid-new,
  is_valid-accepts,
}

-- The verdicts of the filter on a stream of packets, and the numbers that it accepts, oldest first.
unfoldable pub verdicts : AntiReplay → List ℕ → List Bool
verdicts a [] = []
verdicts a (s ∷ ss) = let (ok, a') = is_valid a s in ok ∷ verdicts a' ss

unfoldable pub accepted : AntiReplay → List ℕ → List ℕ
accepted a [] = []
accepted a (s ∷ ss) =
    let (ok, a') = is_valid a s in let rest = accepted a' ss in if ok then s ∷ rest else rest

-- The specified verdicts: the filter is the largest number seen and the set of those accepted.
unfoldable pub specified : ℕ → List ℕ → List ℕ → List Bool
specified top seen [] = []
specified top seen (s ∷ ss) =
    let ok = accepts top seen s in
    ok ∷ specified (if ok then max top s else top) (record_seen ok s seen) ss

-- No element stands twice in the list.
abbrev pub Distinct : List ℕ → Type 0
Distinct [] = Unit
Distinct (x ∷ xs) = (elem x xs ≡ false) × Distinct xs

top-is_valid :
    {from : ℕ} {seen : List ℕ} {a : AntiReplay} (t : Tracks from seen a) (seq : ℕ)
    → (is_valid a seq).1.max_packet_received
      ≡ (if (is_valid a seq).0 then max a.max_packet_received seq else a.max_packet_received)
unfolding is_valid
top-is_valid t seq = ground (arith, t.enabled)

verdicts_tracked :
    (ss : List ℕ) {seen : List ℕ} {a : AntiReplay} (t : Tracks 0 seen a)
    → verdicts a ss ≡ specified a.max_packet_received seen ss
unfolding verdicts specified
verdicts_tracked [] t = refl
verdicts_tracked (s ∷ ss) {seen} {a} t =
    let ok = is_valid-accepts t s (omega arith) in
    rw (← ok, ← top-is_valid t s) (ap₂ ◌∷◌ refl (verdicts_tracked ss (is_valid-Tracks t s)))

accepted_unseen :
    (ss : List ℕ) {from : ℕ} {seen : List ℕ} {a : AntiReplay} (t : Tracks from seen a) (x : ℕ)
    → elem x seen ≡ true
    → elem x (accepted a ss) ≡ false
unfolding accepted record_seen
accepted_unseen [] t x h = refl
accepted_unseen (s ∷ ss) {seen = seen} {a = a} t x h =
    ground (arith, is_valid-new t s, accepted_unseen ss (is_valid-Tracks t s) x)

accepted-Distinct :
    (ss : List ℕ) {from : ℕ} {seen : List ℕ} {a : AntiReplay} (t : Tracks from seen a)
    → Distinct (accepted a ss)
unfolding accepted record_seen
accepted-Distinct [] t = tt
accepted-Distinct (s ∷ ss) {seen = seen} {a = a} t = elim (Bool-cases (is_valid a s).0) [
  | inl ok ↦ rw ok (
    accepted_unseen ss (is_valid-Tracks t s) s (unfold record_seen in rw ok (ground arith)),
    accepted-Distinct ss (is_valid-Tracks t s),
  )
  | inr drop ↦ rw drop (accepted-Distinct ss (is_valid-Tracks t s))
]

-- On every stream of packets a filter just made gives the specified verdicts: a number is accepted
-- exactly when it is above the largest one accepted so far, or lies less than a window below that
-- and was not accepted before.
pub verdicts-eq-specified :
    (random : ℕ) (ss : List ℕ) → verdicts (new false random) ss ≡ specified 0 [] ss
unfolding new
verdicts-eq-specified random ss = verdicts_tracked ss (new-Tracks random)

-- After `re_init` on an enabled filter with a whole window, no stream of packets gets the same
-- sequence number accepted twice, whatever the old window holds.
pub no_replay :
    (a : AntiReplay)
    → a.disabled ≡ false
    → length a.window ≡ window_size
    → (ss : List ℕ) → Distinct (accepted (re_init a) ss)
no_replay a on len ss = accepted-Distinct ss (re_init-Tracks a on len)
