-- ===== src/AntiReplay/Tests.antt =====
-- The unit test of anti_replay.rs on the model, and the theorems at concrete inputs.
use udp2raw_rust.Prelude.{ℕ, ◌≡◌, refl, true, false, [], ◌∷◌, List, replicate, length-replicate}
use udp2raw_rust.AntiReplay.{AntiReplay, new, re_init, window_size}
use udp2raw_rust.AntiReplay.History.{record_seen, accepts}
use udp2raw_rust.AntiReplay.Stream.{
  verdicts, accepted, specified, Distinct, no_replay, verdicts-eq-specified,
}

-- The stream of `basic_window_semantics`.
abbrev stream : List ℕ
stream = 0 ∷ 1 ∷ 1 ∷ 5 ∷ 3 ∷ 3 ∷ 4004 ∷ 4 ∷ 14004 ∷ 4004 ∷ []

basic_window_semantics :
    specified 0 [] stream
    ≡ false ∷ true ∷ false ∷ true ∷ true ∷ false ∷ true ∷ false ∷ true ∷ false ∷ []
unfolding specified record_seen accepts
basic_window_semantics = refl

abbrev used : AntiReplay
used = record {
  max_packet_received = 4003;
  window = replicate window_size 1;
  next_send_seq = 7;
  disabled = false;
}

no_replay_example : Distinct (accepted (re_init used) stream)
no_replay_example = no_replay used refl (length-replicate {A = ℕ} window_size 1) stream

verdicts-eq-specified_example : verdicts (new false 50) stream ≡ specified 0 [] stream
verdicts-eq-specified_example = verdicts-eq-specified 50 stream
