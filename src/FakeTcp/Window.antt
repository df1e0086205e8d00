-- ===== src/FakeTcp/Window.antt =====
-- src/faketcp.rs, `after_send`: how far the sequence number runs ahead of the peer.
use udp2raw_rust.Prelude.{
  ℕ, ◌+◌, ◌-◌, ◌%◌, ◌^◌, ◌≤◌, ◌<◌, ◌≡◌, refl, sym, ap, ◌∙◌, subst, true, false, not, ◌&&◌, arith,
  leb, ◌==◌, if◌then◌else◌, if_cases,
}
use udp2raw_rust.Util.{larger_than_u32}
use udp2raw_rust.Types.{fake_tcp}
use udp2raw_rust.Crypto.{max_data_len}
use udp2raw_rust.FakeTcp.{RawInfo, RawCtx}
use udp2raw_rust.FakeTcp.Send.{
  after_send, after_send_in, advance_seq, set_seq, within_window, fast_retransmit, catch_up,
  window_of,
}

-- The distance from `b` on to `a`, around the 32-bit range.
abbrev pub ahead : ℕ → ℕ → ℕ
ahead a b = (a + 2 ^ 32 - b) % 2 ^ 32

larger_than_u32_self : (a : ℕ) → a < 2 ^ 32 → larger_than_u32 a a ≡ false
unfolding larger_than_u32
larger_than_u32_self a h = ground arith

-- A number by itself is within any window.
from_ack :
    (a w : ℕ)
    → a < 2 ^ 32
    → 1800 ≤ w
    → w ≤ 2 ^ 31
    → larger_than_u32 ((a + max_data_len) % 2 ^ 32) ((a + w) % 2 ^ 32) ≡ false
unfolding larger_than_u32
from_ack a w h least most = ground arith

-- The two tests together bound the distance.
bounded :
    (s a w : ℕ)
    → s < 2 ^ 32
    → a < 2 ^ 32
    → 1800 < w
    → w ≤ 2 ^ 31
    → larger_than_u32 ((s + max_data_len) % 2 ^ 32) ((a + w) % 2 ^ 32) ≡ false
    → larger_than_u32 a s ≡ false
    → ahead s a + max_data_len ≤ w
unfolding larger_than_u32
bounded s a w p q least most inside behind = ground arith

-- The peer has acknowledged `a`, and the sequence number is a 32-bit word that does not run past the
-- window `w`.
record IsInside (a w : ℕ) (r : RawInfo) : Type 0 where
  acked : r.recv_info.ack_seq ≡ a
  word : r.send_info.seq < 2 ^ 32
  inside : larger_than_u32 ((r.send_info.seq + max_data_len) % 2 ^ 32) ((a + w) % 2 ^ 32) ≡ false

module _ (a w : ℕ) (h : a < 2 ^ 32) (least : 1800 < w) (most : w ≤ 2 ^ 31) where
  at_ack : (r : RawInfo) → r.recv_info.ack_seq ≡ a → IsInside a w (set_seq r r.recv_info.ack_seq)
  at_ack r e = record {
    acked = e;
    word = omega (arith, e, h);
    inside =
        ap (λ n. larger_than_u32 ((n + max_data_len) % 2 ^ 32) ((a + w) % 2 ^ 32)) e
        ∙ from_ack a w h (omega (arith, least)) most;
  }

  within_window-IsInside :
      (r : RawInfo)
      → r.recv_info.ack_seq ≡ a
      → r.send_info.seq < 2 ^ 32
      → IsInside a w (within_window w r)
  within_window-IsInside r e p =
      if_cases (IsInside a w)
        (larger_than_u32 ((r.send_info.seq + max_data_len) % 2 ^ 32)
          ((r.recv_info.ack_seq + w) % 2 ^ 32))
        (λ past. at_ack r e)
        (λ inside. record {
          acked = e;
          word = p;
          inside =
              subst
                (λ n.
                  larger_than_u32 ((r.send_info.seq + max_data_len) % 2 ^ 32) ((n + w) % 2 ^ 32)
                  ≡ false)
                e inside;
        })

  fast_retransmit-IsInside : (r : RawInfo) → IsInside a w r → IsInside a w (fast_retransmit r)
  fast_retransmit-IsInside r i =
      if_cases (IsInside a w) (leb 3 r.recv_info.ack_seq_counter)
        (λ e. at_ack (record r { recv_info = record r.recv_info { ack_seq_counter = 0 } }) i.acked)
        (λ e. i)

  catch_up-bounded :
      (r : RawInfo) → IsInside a w r → ahead (catch_up r).send_info.seq a + max_data_len ≤ w
  catch_up-bounded r i =
      if_cases (λ (s : RawInfo). ahead s.send_info.seq a + max_data_len ≤ w)
        (larger_than_u32 r.recv_info.ack_seq r.send_info.seq)
        (λ e. omega (arith, i.acked, h, least))
        (λ e.
          bounded r.send_info.seq a w i.word h least most i.inside
            (subst (λ n. larger_than_u32 n r.send_info.seq ≡ false) i.acked e))

  -- The three corrections, from a sequence number that may be anywhere.
  corrected :
      (r : RawInfo)
      → r.recv_info.ack_seq ≡ a
      → r.send_info.seq < 2 ^ 32
      → ahead (catch_up (fast_retransmit (within_window w r))).send_info.seq a + max_data_len ≤ w
  corrected r e p =
      catch_up-bounded (fast_retransmit (within_window w r))
        (fast_retransmit-IsInside (within_window w r) (within_window-IsInside r e p))

window_of_range : (seq_mode : ℕ) → (1800 < window_of seq_mode) × (window_of seq_mode ≤ 2 ^ 31)
window_of_range seq_mode =
    if_cases (λ w. (1800 < w) × (w ≤ 2 ^ 31)) (seq_mode == 3) (λ e. omega arith) (λ e. omega arith)

advance_seq-bounded :
    (seq_mode roll : ℕ) (raw : RawInfo)
    → 3 ≤ seq_mode
    → raw.recv_info.ack_seq < 2 ^ 32
    → ahead (advance_seq seq_mode roll raw).send_info.seq raw.recv_info.ack_seq + max_data_len
      ≤ window_of seq_mode
advance_seq-bounded seq_mode roll raw h k =
    let n0 : seq_mode == 0 ≡ false = ground arith in
    let n1 : seq_mode == 1 ≡ false = ground arith in
    let n2 : seq_mode == 2 ≡ false = ground arith in
    let range = window_of_range seq_mode in
    let advanced : RawInfo =
      set_seq raw ((raw.send_info.seq + raw.send_info.data_len % 2 ^ 32) % 2 ^ 32) in
    rw (n0, n1, n2)
      (corrected raw.recv_info.ack_seq (window_of seq_mode) k (range.0) (range.1) advanced refl
        (omega arith))

-- In the sequence modes 3 and 4 the sequence number that follows a data segment is never behind what
-- the peer acknowledged, and a whole packet more still lies in the window that follows it, whatever
-- the sequence number was before.
pub after_send_stays_in_window :
    (c : RawCtx) (raw : RawInfo) (roll : ℕ)
    → c.raw_mode ≡ fake_tcp
    → 3 ≤ c.seq_mode
    → raw.recv_info.ack_seq < 2 ^ 32
    → (not raw.send_info.syn && raw.send_info.ack && not (raw.send_info.data_len % 2 ^ 32 == 0))
      ≡ true
    → ahead (after_send c raw roll).send_info.seq raw.recv_info.ack_seq + max_data_len
      ≤ window_of c.seq_mode
unfolding after_send
after_send_stays_in_window c raw roll mode seq_mode word sent =
    subst
      (λ m.
        ahead (after_send_in m c raw roll).send_info.seq raw.recv_info.ack_seq + max_data_len
        ≤ window_of c.seq_mode)
      (sym mode)
      (subst
        (λ b.
          ahead (if b then advance_seq c.seq_mode roll raw else raw).send_info.seq
              raw.recv_info.ack_seq
            + max_data_len
          ≤ window_of c.seq_mode)
        (sym sent) (advance_seq-bounded c.seq_mode roll raw seq_mode word))
