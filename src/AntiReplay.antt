-- ===== src/AntiReplay.antt =====
-- src/anti_replay.rs and the window size of src/consts.rs: the sliding-window anti-replay filter.
-- A u64 is a number; `seq + 1` in the clearing loop runs only below `seq`, so it cannot wrap.
use udp2raw_rust.Prelude.{
  ℕ, zero, suc, ◌+◌, ◌-◌, ◌/◌, ◌%◌, ◌^◌, Bool, true, false, List, [], ◌∷◌, ltb, leb, ◌==◌,
  if◌then◌else◌, set, get_or, replicate,
}
pub mod Window
pub mod History
pub mod Stream
pub mod Tests

-- ANTI_REPLAY_WINDOW_SIZE
abbrev pub window_size : ℕ
window_size = 4000

pub record AntiReplay : Type 0 where
  pub max_packet_received : ℕ
  pub window : List ℕ
  pub next_send_seq : ℕ
  pub disabled : Bool

-- `random` is the u64 that `secure_random_u64` returns.
unfoldable pub new : Bool → ℕ → AntiReplay
new disabled random = record {
  max_packet_received = 0;
  window = replicate window_size 0;
  next_send_seq = random / 10;
  disabled = disabled;
}

unfoldable pub re_init : AntiReplay → AntiReplay
re_init a = record a { max_packet_received = 0 }

unfoldable pub next_seq_for_send : AntiReplay → ℕ × AntiReplay
next_seq_for_send a = (a.next_send_seq, record a { next_send_seq = (a.next_send_seq + 1) % 2 ^ 64 })

-- `while i < seq { window[i % w] = 0; i += 1 }`, with `seq - i` rounds left.
pub clear_range : ℕ → ℕ → List ℕ → List ℕ
clear_range zero i win = win
clear_range (suc left) i win = clear_range left (i + 1) (set win (i % window_size) 0)

-- The branch `seq > max_packet_received`.
pub advance : List ℕ → ℕ → ℕ → List ℕ
advance win top seq =
    if leb window_size (seq - top)
    then set (replicate window_size 0) (seq % window_size) 1
    else set (clear_range (seq - (top + 1)) (top + 1) win) (seq % window_size) 1

unfoldable pub is_valid : AntiReplay → ℕ → Bool × AntiReplay
unfolding advance clear_range
is_valid a seq =
    if a.disabled
    then (true, a)
    else if seq == a.max_packet_received
    then (false, a)
    else if ltb a.max_packet_received seq
    then (
      true,
      record a { max_packet_received = seq; window = advance a.window a.max_packet_received seq },
    )
    else if leb window_size (a.max_packet_received - seq)
    then (false, a)
    else if get_or a.window (seq % window_size) 0 == 1
    then (false, a)
    else (true, record a { window = set a.window (seq % window_size) 1 })
