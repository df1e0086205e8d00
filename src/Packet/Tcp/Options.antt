-- ===== src/Packet/Tcp/Options.antt =====
-- src/packet/tcp.rs, `parse_options`: the loop over the TCP options.

use udp2raw_rust.Prelude.{
  ℕ, zero, suc, ◌≤◌, ◌<◌, ◌≡◌, refl, false, not, ◌||◌, List, [], ◌∷◌, arith, ltb, leb, ◌==◌,
  if_cases, length, length-drop, byte_at,
}
use udp2raw_rust.Packet.Tcp.{
  Stamps, Round, stop, more, next_option, onward, options_from, parse_options,
}

-- The options that a round leaves are fewer bytes.
abbrev IsShorter : List ℕ → Round → Type 0
IsShorter opt (stop s) = Unit
IsShorter opt (more s left) = length left < length opt

next_option-IsShorter :
    (s : Stamps) (kind : ℕ) (rest : List ℕ) → IsShorter (kind ∷ rest) (next_option s kind rest)
unfolding next_option
next_option-IsShorter s kind rest =
    let opt = kind ∷ rest in
    if_cases (IsShorter opt) (kind == 0) (λ e. tt)
      (λ e.
        if_cases (IsShorter opt) (kind == 1) (λ e. omega arith)
          (λ e.
            if_cases (IsShorter opt) (kind == 8)
              (λ e.
                if_cases (IsShorter opt)
                  (leb (length opt) 1 || not (byte_at opt 1 == 10) || ltb (length opt) 10) (λ e. tt)
                  (λ e. omega (arith, length-drop 10 opt)))
              (λ e.
                if_cases (IsShorter opt) (leb (length opt) 1) (λ e. tt)
                  (λ e.
                    if_cases (IsShorter opt) (leb (byte_at opt 1) 1) (λ e. tt)
                      (λ long.
                        let step : 1 < byte_at opt 1 = ground arith in
                        omega (arith, length-drop (byte_at opt 1) opt))))))

-- The loop as the code runs it, one round after another: `n` rounds from the options `opt` end it,
-- with the first stamps what was set before and the second what it returns. A run has no fuel, and a
-- loop that stays where it is has no run.
pub data Runs : ℕ → Stamps → List ℕ → Stamps → Type 0 where
  at_end : {s : Stamps} → Runs 0 s [] s
  stops :
      {s t : Stamps}
      → {kind : ℕ} → {rest : List ℕ} → next_option s kind rest ≡ stop t
      → Runs 1 s (kind ∷ rest) t
  goes_on :
      {n : ℕ}
      → {s next t : Stamps} → {kind : ℕ} → {rest left : List ℕ}
      → next_option s kind rest ≡ more next left
      → Runs n next left t
      → Runs (suc n) s (kind ∷ rest) t

-- A run to the result `t` within a number of rounds.
pub record EndsWithin (bound : ℕ) (s : Stamps) (opt : List ℕ) (t : Stamps) : Type 0 where
  pub rounds : ℕ
  pub run : Runs rounds s opt t
  pub few : rounds ≤ bound

-- The round `r` and what follows it.
round-EndsWithin :
    (fuel : ℕ) (s : Stamps) (kind : ℕ) (rest : List ℕ) (r : Round)
    → next_option s kind rest ≡ r
    → ((next : Stamps) (left : List ℕ)
        → length left ≤ fuel
        → EndsWithin (length left) next left (options_from fuel next left))
    → length rest ≤ fuel
    → IsShorter (kind ∷ rest) r
    → EndsWithin (suc (length rest)) s (kind ∷ rest) (onward (options_from fuel) r)
round-EndsWithin fuel s kind rest (stop t) e after h shorter = record {
  rounds = 1;
  run = stops e;
  few = omega arith;
}
round-EndsWithin fuel s kind rest (more next left) e after h shorter =
    let ends = after next left (omega (arith, h, shorter)) in
    record {
      rounds = suc ends.rounds;
      run = goes_on e ends.run;
      few = omega (arith, ends.few, shorter);
    }

options_from-EndsWithin :
    (fuel : ℕ) (s : Stamps) (opt : List ℕ)
    → length opt ≤ fuel
    → EndsWithin (length opt) s opt (options_from fuel s opt)
unfolding options_from
options_from-EndsWithin zero s [] h = record { rounds = 0; run = at_end; few = omega arith }
options_from-EndsWithin zero s (kind ∷ rest) h = absurd (omega (arith, h))
options_from-EndsWithin (suc fuel) s [] h = record { rounds = 0; run = at_end; few = omega arith }
options_from-EndsWithin (suc fuel) s (kind ∷ rest) h =
    round-EndsWithin fuel s kind rest (next_option s kind rest) refl (options_from-EndsWithin fuel)
      (omega (arith, h)) (next_option-IsShorter s kind rest)

-- The loop over the options of a segment ends whatever the bytes are: run without fuel, round after
-- round, it stops within as many rounds as there are bytes, and what it returns is what the model's
-- loop on fuel returns.
pub parse_options_terminates :
    (opt : List ℕ)
    → EndsWithin
        (length opt)
        (record { has_ts = false; ts = 0; ts_ack = 0 })
        opt
        (parse_options opt)
unfolding parse_options
parse_options_terminates opt =
    options_from-EndsWithin (length opt) (record { has_ts = false; ts = 0; ts_ack = 0 }) opt
      (omega arith)
