-- ===== src/FakeTcp/Send.antt =====
-- src/faketcp.rs: the sending side.
use udp2raw_rust.Prelude.{
  ℕ, ◌+◌, ◌-◌, ◌%◌, ◌^◌, not, ◌&&◌, Option, none, some, List, [], ◌∷◌, ◌++◌, ltb, leb, ◌==◌,
  if◌then◌else◌, ◌>>=◌, length, ◌<<<◌,
}
use udp2raw_rust.Types.{RawMode, fake_tcp, udp, icmp}
use udp2raw_rust.Util.{larger_than_u32}
use udp2raw_rust.Crypto.{max_data_len}
use udp2raw_rust.Packet.Ip.{build_ip_header, ipproto_icmp, ipproto_tcp, ipproto_udp, ipproto_icmpv6}
use udp2raw_rust.Packet.Tcp.{TcpSendParams, build_tcp, wscale}
use udp2raw_rust.Packet.Udp.{build_udp, udp_header_len}
use udp2raw_rust.Packet.Icmp.{build_icmp}
use udp2raw_rust.FakeTcp.{PacketInfo, RawInfo, RawCtx, l2, ip, TxPacket}

abbrev pub receive_window_lower_bound : ℕ
receive_window_lower_bound = 40960

abbrev pub receive_window_random_range : ℕ
receive_window_random_range = 512

abbrev pub tx_queue_flush : ℕ
tx_queue_flush = 64

-- `accepted` is what the kernel takes of the queue.
unfoldable pub flush_tx : RawCtx → ℕ → RawCtx
flush_tx c accepted =
    let n = length c.tx_queue in
    if n == 0 then c else record c { tx_dropped = c.tx_dropped + (n - accepted); tx_queue = [] }

-- The transport segment: its protocol and bytes; `skipped` is a payload that is too long, and
-- `crashed` a panic on mixed address families.
pub data Built : Type 0 where
  crashed skipped : Built
  built : ℕ → List ℕ → Built

abbrev pub built_or : ℕ → Option (List ℕ) → Built
built_or protocol none = crashed
built_or protocol (some seg) = built protocol seg

abbrev pub send_params : PacketInfo → ℕ → ℕ → TcpSendParams
send_params s now roll = record {
  src_port = s.src_port;
  dst_port = s.dst_port;
  seq = s.seq;
  ack_seq = s.ack_seq;
  syn = s.syn;
  ack = s.ack;
  psh = s.psh;
  window = (receive_window_lower_bound + roll % receive_window_random_range) % 2 ^ 16;
  ts = now % 2 ^ 32;
  ts_ack = s.ts_ack;
}

-- The segment of the mode, at the time `now` and with the random number `roll`.
unfoldable pub segment : RawMode → RawCtx → PacketInfo → List ℕ → ℕ → ℕ → Built
unfolding build_tcp build_udp build_icmp
segment fake_tcp c s payload now roll =
    built_or ipproto_tcp (build_tcp s.src_ip s.dst_ip (send_params s now roll) payload)
segment udp c s payload now roll =
    if ltb 65535 (udp_header_len + length payload)
    then skipped
    else built_or ipproto_udp (build_udp s.src_ip s.dst_ip s.src_port s.dst_port payload)
segment icmp c s payload now roll =
    built_or (if c.is_v6 then ipproto_icmpv6 else ipproto_icmp)
      (build_icmp s.src_ip s.dst_ip c.is_client s.src_port s.icmp_seq payload)

abbrev pub set_data_len : RawMode → RawInfo → ℕ → RawInfo
set_data_len fake_tcp raw n = record raw { send_info = record raw.send_info { data_len = n } }
set_data_len udp raw n = raw
set_data_len icmp raw n = raw

-- The packet joins the queue, which is flushed when it is full.
abbrev pub enqueue : RawCtx → TxPacket → ℕ → RawCtx
enqueue c p accepted =
    let queued = c.tx_queue ++ (p ∷ []) in
    let filled = record c { ip_id_counter = (c.ip_id_counter + 1) % 2 ^ 16; tx_queue = queued } in
    if leb tx_queue_flush (length queued) then flush_tx filled accepted else filled

abbrev pub send_built : RawCtx → RawInfo → List ℕ → ℕ → Built → Option (RawCtx × RawInfo)
send_built c raw payload accepted crashed = none
send_built c raw payload accepted skipped = some (c, raw)
send_built c raw payload accepted (built protocol seg) =
    let s = raw.send_info in
    build_ip_header s.src_ip s.dst_ip protocol c.ttl c.ip_id_counter (length seg) >>= λ h.
    let dst = if c.lower_level then l2 s.addr_ll else ip s.dst_ip in
    some (
      enqueue c (record { buf = h ++ seg; dst = dst }) accepted,
      set_data_len c.raw_mode raw (length payload),
    )

-- `drop_roll` and `window_roll` are random numbers. `none` is a panic.
unfoldable pub send_raw : RawCtx → RawInfo → List ℕ → ℕ → ℕ → ℕ → ℕ → Option (RawCtx × RawInfo)
unfolding segment flush_tx build_ip_header
send_raw c raw payload drop_roll window_roll now accepted =
    if not (c.random_drop == 0) && ltb (drop_roll % 10000) c.random_drop
    then some (c, raw)
    else if raw.disabled
    then some (c, raw)
    else send_built c raw payload accepted
        (segment c.raw_mode c raw.send_info payload now window_roll)

abbrev pub set_seq : RawInfo → ℕ → RawInfo
set_seq raw n = record raw { send_info = record raw.send_info { seq = n } }

-- The three corrections of the modes 3 and 4, in order.
abbrev pub within_window : ℕ → RawInfo → RawInfo
within_window window raw =
    if larger_than_u32 ((raw.send_info.seq + max_data_len) % 2 ^ 32)
      ((raw.recv_info.ack_seq + window) % 2 ^ 32)
    then set_seq raw raw.recv_info.ack_seq
    else raw

abbrev pub fast_retransmit : RawInfo → RawInfo
fast_retransmit raw =
    if leb 3 raw.recv_info.ack_seq_counter
    then set_seq (record raw { recv_info = record raw.recv_info { ack_seq_counter = 0 } })
        raw.recv_info.ack_seq
    else raw

abbrev pub catch_up : RawInfo → RawInfo
catch_up raw =
    if larger_than_u32 raw.recv_info.ack_seq raw.send_info.seq
    then set_seq raw raw.recv_info.ack_seq
    else raw

abbrev pub window_of : ℕ → ℕ
window_of seq_mode =
    if seq_mode == 3 then receive_window_lower_bound <<< wscale else receive_window_lower_bound

abbrev pub advance_seq : ℕ → ℕ → RawInfo → RawInfo
advance_seq seq_mode roll raw =
    let advanced : RawInfo =
      set_seq raw ((raw.send_info.seq + raw.send_info.data_len % 2 ^ 32) % 2 ^ 32) in
    if seq_mode == 0
    then raw
    else if seq_mode == 1
    then advanced
    else if seq_mode == 2
    then (if roll % 5 == 3 then advanced else raw)
    else catch_up (fast_retransmit (within_window (window_of seq_mode) advanced))

abbrev pub after_send_in : RawMode → RawCtx → RawInfo → ℕ → RawInfo
after_send_in fake_tcp c raw roll =
    if not raw.send_info.syn && raw.send_info.ack && not (raw.send_info.data_len % 2 ^ 32 == 0)
    then advance_seq c.seq_mode roll raw
    else raw
after_send_in icmp c raw roll =
    if c.is_client
    then record raw {
      send_info = record raw.send_info { icmp_seq = (raw.send_info.icmp_seq + 1) % 2 ^ 16 };
    }
    else raw
after_send_in udp c raw roll = raw

-- `roll` is the random number of the mode 2.
unfoldable pub after_send : RawCtx → RawInfo → ℕ → RawInfo
unfolding larger_than_u32
after_send c raw roll = after_send_in c.raw_mode c raw roll
