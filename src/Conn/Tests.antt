-- ===== src/Conn/Tests.antt =====
-- The theorem on delivery at two concrete ends.
use udp2raw_rust.Prelude.{
  ℕ, ◌≡◌, refl, inr, true, false, some, [], ◌∷◌, arith, replicate, length-replicate,
}
use udp2raw_rust.AntiReplay as Filter
use udp2raw_rust.AntiReplay.History.{new-Tracks}
use udp2raw_rust.Crypto.Auth.{hmac_sha1}
use udp2raw_rust.Crypto.Cipher.{aes128_cbc}
use udp2raw_rust.Crypto.RoundTrip.{engine}
use udp2raw_rust.Crypto.Tests.{test_primitives, test_primitives-IsSound}
use udp2raw_rust.FakeTcp.{RecvMeta}
use udp2raw_rust.FakeTcp.Tests.{server, idle}
use udp2raw_rust.Wire.{type_data}
use udp2raw_rust.Conn.{ConnInfo, prepare_safer, encrypt_safer}
use udp2raw_rust.Conn.Delivery.{received_twice, recv_safer_once}

abbrev client_end : ConnInfo
client_end = record {
  raw = idle;
  last_state_time = 0;
  last_hb_sent_time = 0;
  last_hb_recv_time = 0;
  my_id = 5;
  oppsite_id = 9;
  oppsite_const_id = 0;
  my_roller = 3;
  oppsite_roller = 0;
  last_oppsite_roller_time = 0;
  anti_replay = Filter.new false 70;
}

abbrev server_end : ConnInfo
server_end = record client_end { my_id = 9; oppsite_id = 5; anti_replay = Filter.new false 0 }

abbrev segment : RecvMeta
segment = record {
  syn = false;
  ack = true;
  seq = 0;
  data_len = 60;
  has_ts = false;
  ts = 0;
  icmp_seq = 0;
}

recv_safer_once_example :
    received_twice test_primitives server
      (engine test_primitives aes128_cbc hmac_sha1 false (112 ∷ []) false)
      server_end
      0
      1000
      segment
      (encrypt_safer test_primitives
        (engine test_primitives aes128_cbc hmac_sha1 false (112 ∷ []) true)
        (replicate 24 9)
        ((prepare_safer client_end type_data (1 ∷ 2 ∷ [])).0)
        false)
    ≡ some ((type_data, 1 ∷ 2 ∷ []) ∷ [], [])
unfolding Filter.new Filter.is_valid
recv_safer_once_example =
    recv_safer_once test_primitives test_primitives-IsSound aes128_cbc hmac_sha1 false (112 ∷ [])
      true client_end server_end type_data (1 ∷ 2 ∷ []) (replicate 24 9) server 0 1000 segment 0 []
      (length-replicate {A = ℕ} 24 9) (omega arith) (omega arith)
      (record { mine = refl; theirs = refl })
      (record { my_id_fits = omega arith; oppsite_id_fits = omega arith; seq_fits = omega arith })
      (omega arith) (inr refl) (new-Tracks 0) refl
