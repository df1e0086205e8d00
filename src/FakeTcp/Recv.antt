-- ===== src/FakeTcp/Recv.antt =====
-- src/faketcp.rs: the receiving side.
use udp2raw_rust.Prelude.{
  ℕ, ◌+◌, ◌%◌, ◌^◌, Bool, true, false, not, ◌&&◌, ◌||◌, Option, none, some, List, ltb, leb, ◌==◌,
  if◌then◌else◌, ◌>>=◌, length, drop, byte_at,
}
use udp2raw_rust.Types.{IpAddr, v4, v6, RawMode, fake_tcp, udp, icmp}
use udp2raw_rust.Util.{larger_than_u32, larger_than_u16, read_u16_be}
use udp2raw_rust.Packet.Ip.{
  ParsedIp, parse_ip, payload, ipproto_icmp, ipproto_tcp, ipproto_udp, ipproto_icmpv6,
}
use udp2raw_rust.Packet.Tcp.{
  ParsedTcp, TcpResult, parsed, panicked, refused, parse_tcp, tcp_min_header, has_bit,
}
use udp2raw_rust.Packet.Udp.{parse_udp, udp_header_len}
use udp2raw_rust.Packet.Icmp.{ParsedIcmp, parse_icmp, icmp_header_len}
use udp2raw_rust.FakeTcp.{LinkAddr, PacketInfo, RawInfo, RecvMeta, RawCtx}

abbrev pub set_ack : RawInfo → ℕ → RawInfo
set_ack raw n = record raw { send_info = record raw.send_info { ack_seq = n } }

abbrev pub note_stamp : RawInfo → RecvMeta → RawInfo
note_stamp raw m =
    if m.has_ts then record raw { send_info = record raw.send_info { ts_ack = m.ts } } else raw

-- What the segment does to the number that is acknowledged.
abbrev pub note_segment : ℕ → RawInfo → RecvMeta → RawInfo
note_segment seq_mode raw m =
    let end = (m.seq + m.data_len % 2 ^ 32) % 2 ^ 32 in
    if not (not m.syn && m.ack && not (m.data_len == 0))
    then raw
    else if leb seq_mode 2
    then (if larger_than_u32 end raw.send_info.ack_seq then set_ack raw end else raw)
    else if m.seq == raw.send_info.ack_seq
    then set_ack raw end
    else raw

abbrev pub after_recv_in : RawMode → RawCtx → RawInfo → RecvMeta → RawInfo
after_recv_in fake_tcp c raw m = note_segment c.seq_mode (note_stamp raw m) m
after_recv_in icmp c raw m =
    if not c.is_client && larger_than_u16 m.icmp_seq raw.send_info.icmp_seq
    then record raw { send_info = record raw.send_info { icmp_seq = m.icmp_seq } }
    else raw
after_recv_in udp c raw m = raw

unfoldable pub after_recv : RawCtx → RawInfo → RecvMeta → RawInfo
unfolding larger_than_u32 larger_than_u16
after_recv c raw m = after_recv_in c.raw_mode c raw m

pub record PeekInfo : Type 0 where
  pub src_ip : IpAddr
  pub src_port : ℕ
  pub syn : Bool

abbrev pub icmp_protocol : Bool → ℕ
icmp_protocol is_v6 = if is_v6 then ipproto_icmpv6 else ipproto_icmp

abbrev pub peek_in : RawMode → Bool → ParsedIp → List ℕ → Option PeekInfo
peek_in fake_tcp is_v6 ip seg =
    if not (ip.protocol == ipproto_tcp) || ltb (length seg) tcp_min_header
    then none
    else some
        (record { src_ip = ip.src; src_port = read_u16_be seg; syn = has_bit (byte_at seg 13) 2 })
peek_in udp is_v6 ip seg =
    if not (ip.protocol == ipproto_udp) || ltb (length seg) udp_header_len
    then none
    else some (record { src_ip = ip.src; src_port = read_u16_be seg; syn = false })
peek_in icmp is_v6 ip seg =
    if not (ip.protocol == icmp_protocol is_v6) || ltb (length seg) icmp_header_len
    then none
    else some (record { src_ip = ip.src; src_port = read_u16_be (drop 4 seg); syn = false })

unfoldable pub peek : RawCtx → List ℕ → Option PeekInfo
unfolding parse_ip payload read_u16_be
peek c buf = parse_ip buf c.is_v6 false >>= λ ip. peek_in c.raw_mode c.is_v6 ip (payload ip buf)

-- The result of `parse_recv`, with the state it leaves; `crashed` is a panic.
pub data Received : Type 0 where
  crashed : Received
  dropped : RawInfo → Received
  received : RawInfo → List ℕ → Received

abbrev pub set_recv : RawInfo → PacketInfo → RawInfo
set_recv raw r = record raw { recv_info = r }

-- The fields that a FakeTCP segment fills.
abbrev pub fill_tcp : PacketInfo → ParsedTcp → PacketInfo
fill_tcp r t = record r {
  has_ts = t.has_ts;
  ts = t.ts;
  ts_ack = t.ts_ack;
  ack = t.ack;
  syn = t.syn;
  rst = t.rst;
  psh = t.psh;
  src_port = t.src_port;
  dst_port = t.dst_port;
  seq = t.seq;
  ack_seq = t.ack_seq;
  ack_seq_counter = if t.ack_seq == r.ack_seq then (r.ack_seq_counter + 1) % 2 ^ 32 else 0;
}

abbrev pub exceeds : Option ℕ → ℕ → Bool
exceeds none cnt = false
exceeds (some allowed) cnt = cnt == (allowed + 1) % 2 ^ 32

-- A reset is counted, and one too many disables the connection.
abbrev pub count_rst : Option ℕ → Bool → RawInfo → RawInfo
count_rst allowed false raw = raw
count_rst allowed true raw =
    let cnt = (raw.rst_received + 1) % 2 ^ 32 in
    record raw { rst_received = cnt; disabled = raw.disabled || exceeds allowed cnt }

abbrev pub recv_tcp : RawCtx → RawInfo → TcpResult → Received
recv_tcp c raw panicked = crashed
recv_tcp c raw refused = dropped raw
recv_tcp c raw (parsed t body) =
    if not (t.dst_port == c.filter_port)
    then dropped raw
    else (let counted : RawInfo =
          count_rst c.max_rst_allowed t.rst (set_recv raw (fill_tcp raw.recv_info t)) in
        received (set_recv counted (record counted.recv_info { data_len = length body })) body)

abbrev pub recv_udp : RawCtx → RawInfo → Option (ℕ × ℕ × List ℕ) → Received
recv_udp c raw none = dropped raw
recv_udp c raw (some (sp, dp, body)) =
    if not (dp == c.filter_port)
    then dropped raw
    else received
        (set_recv raw
          (record raw.recv_info { src_port = sp; dst_port = dp; data_len = length body }))
        body

abbrev pub recv_icmp : RawCtx → RawInfo → Option (ParsedIcmp × List ℕ) → Received
recv_icmp c raw none = dropped raw
recv_icmp c raw (some (h, body)) =
    if not (h.id == raw.send_info.src_port)
    then dropped raw
    else received
        (set_recv raw (record raw.recv_info {
          src_port = h.id;
          dst_port = h.id;
          icmp_seq = h.seq;
          data_len = length body;
        }))
        body

-- The transport segment `seg` between the addresses of its IP header.
unfoldable pub recv_in : RawMode → RawCtx → RawInfo → ParsedIp → List ℕ → Received
unfolding parse_tcp parse_udp parse_icmp
recv_in fake_tcp c raw ip seg =
    if not (ip.protocol == ipproto_tcp)
    then dropped raw
    else recv_tcp c raw (parse_tcp seg ip.src ip.dst)
recv_in udp c raw ip seg =
    if not (ip.protocol == ipproto_udp)
    then dropped raw
    else recv_udp c raw (parse_udp seg ip.src ip.dst)
recv_in icmp c raw ip seg =
    if not (ip.protocol == icmp_protocol c.is_v6)
    then dropped raw
    else recv_icmp c raw (parse_icmp seg ip.src ip.dst c.is_client)

unfoldable pub same_ip : IpAddr → IpAddr → Bool
same_ip (v4 a) (v4 b) = a == b
same_ip (v6 a) (v6 b) = a == b
same_ip (v4 a) (v6 b) = false
same_ip (v6 a) (v4 b) = false

abbrev pub is_bound : Option IpAddr → IpAddr → Bool
is_bound none dst = true
is_bound (some b) dst = same_ip dst b

-- After the link-layer address has been noted.
abbrev pub recv_bound : RawCtx → RawInfo → List ℕ → ParsedIp → Received
recv_bound c raw buf ip =
    if not (is_bound c.bind_addr ip.dst)
    then dropped raw
    else recv_in c.raw_mode c
        (set_recv raw (record raw.recv_info { src_ip = ip.src; dst_ip = ip.dst })) ip
        (payload ip buf)

abbrev pub recv_ip : RawCtx → RawInfo → List ℕ → LinkAddr → Option ParsedIp → Received
recv_ip c raw buf ll none = dropped raw
recv_ip c raw buf ll (some ip) =
    recv_bound c
      (if c.lower_level then set_recv raw (record raw.recv_info { addr_ll = ll }) else raw) buf ip

unfoldable pub parse_recv : RawCtx → RawInfo → List ℕ → LinkAddr → Received
unfolding recv_in parse_ip payload same_ip
parse_recv c raw buf ll = recv_ip c raw buf ll (parse_ip buf c.is_v6 true)
