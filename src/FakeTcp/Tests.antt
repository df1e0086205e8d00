-- ===== src/FakeTcp/Tests.antt =====
-- The theorems on raw connections at concrete states.
use udp2raw_rust.Prelude.{
  ℕ, ◌+◌, ◌≤◌, ◌≡◌, refl, true, false, none, some, List, [], ◌∷◌, arith, set,
}
use udp2raw_rust.Types.{v4, fake_tcp}
use udp2raw_rust.FakeTcp.{PacketInfo, RawInfo, RawCtx}
use udp2raw_rust.FakeTcp.Send.{after_send, window_of}
use udp2raw_rust.FakeTcp.Window.{ahead, after_send_stays_in_window}
use udp2raw_rust.FakeTcp.Resets.{IsCounted, resets, receive_all, receive_all-IsCounted}
use udp2raw_rust.Crypto.{max_data_len}

abbrev pub server : RawCtx
server = record {
  raw_mode = fake_tcp;
  is_v6 = false;
  is_client = false;
  seq_mode = 3;
  ttl = 64;
  random_drop = 0;
  filter_port = 443;
  bind_addr = none;
  lower_level = false;
  max_rst_allowed = some 0;
  ip_id_counter = 0;
  tx_queue = [];
  tx_dropped = 0;
}

abbrev pub idle_end : PacketInfo
idle_end = record {
  src_ip = v4 0;
  dst_ip = v4 0;
  src_port = 443;
  dst_port = 5000;
  syn = false;
  ack = true;
  psh = false;
  rst = false;
  seq = 7;
  ack_seq = 4294967290;
  ack_seq_counter = 3;
  ts = 0;
  ts_ack = 0;
  has_ts = false;
  icmp_seq = 0;
  data_len = 100;
  addr_ll = 0;
}

abbrev pub idle : RawInfo
idle = record {
  send_info = idle_end;
  recv_info = idle_end;
  reserved_send_seq = 0;
  rst_received = 0;
  disabled = false;
}

after_send_stays_in_window_example :
    ahead (after_send server idle 0).send_info.seq 4294967290 + max_data_len ≤ window_of 3
after_send_stays_in_window_example =
    after_send_stays_in_window server idle 0 refl (omega arith) (omega arith) refl

-- A segment with the reset flag to the port 443, with no checksum of its own.
abbrev reset_packet : List ℕ
reset_packet =
    0x45 ∷ 0 ∷ 0 ∷ 40 ∷ 0 ∷ 0 ∷ 0x40 ∷ 0 ∷ 64 ∷ 6 ∷ 0x38 ∷ 0xce ∷ 1 ∷ 0 ∷ 0 ∷ 1 ∷ 1 ∷ 0 ∷ 0 ∷ 2
    ∷ 0x13 ∷ 0x88 ∷ 1 ∷ 0xbb ∷ 0 ∷ 0 ∷ 0 ∷ 0 ∷ 0 ∷ 0 ∷ 0 ∷ 0 ∷ 0x50 ∷ 4 ∷ 0 ∷ 0 ∷ 0 ∷ 0 ∷ 0 ∷ 0 ∷ []

-- The same segment to the port 444.
abbrev stray_packet : List ℕ
stray_packet = set reset_packet 23 0xbc

reset_disables : (receive_all server idle ((reset_packet, 0) ∷ [])).disabled ≡ true
unfolding receive_all
reset_disables = refl

receive_all-IsCounted_example :
    IsCounted
      (some 0)
      2
      (receive_all server idle ((reset_packet, 0) ∷ (stray_packet, 0) ∷ (reset_packet, 0) ∷ []))
unfolding resets
receive_all-IsCounted_example =
    receive_all-IsCounted server idle 0
      ((reset_packet, 0) ∷ (stray_packet, 0) ∷ (reset_packet, 0) ∷ []) (omega arith) (omega arith)
      (record { exact = refl; is_over = refl })
