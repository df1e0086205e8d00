-- ===== src/FakeTcp/Resets/OnePacket.antt =====
-- src/faketcp.rs, `parse_recv`: which packets are resets, and one packet's effect on the count.
use udp2raw_rust.Prelude.{
  ℕ, ◌+◌, ◌*◌, ◌/◌, ◌%◌, ◌^◌, ◌≡◌, refl, Bool, true, false, not, ◌&&◌, ◌||◌, Option, none, some,
  List, ltb, ◌==◌, if◌then◌else◌, if_cases, length, drop, byte_at,
}
use udp2raw_rust.Types.{IpAddr, RawMode, fake_tcp, udp, icmp}
use udp2raw_rust.Packet.Ip.{ParsedIp, ipproto_tcp, ipproto_udp, payload, parse_ip, pseudo_header}
use udp2raw_rust.Util.{read_u16_be}
use udp2raw_rust.Packet.Tcp.{
  TcpResult, parsed, panicked, refused, parse_tcp, parse_checked, has_bit, tcp_min_header,
}
use udp2raw_rust.Packet.Udp.{parse_udp}
use udp2raw_rust.Packet.Icmp.{ParsedIcmp, parse_icmp}
use udp2raw_rust.FakeTcp.{PacketInfo, RawInfo, RawCtx, LinkAddr}
use udp2raw_rust.FakeTcp.Recv.{
  recv_bound, Received, crashed, dropped, received, count_rst, exceeds, recv_tcp, recv_udp,
  recv_icmp, recv_in, set_recv, fill_tcp, icmp_protocol, parse_recv, is_bound, recv_ip,
}

-- The connection's state after a packet.
abbrev pub state_after : RawInfo → Received → RawInfo
state_after raw crashed = raw
state_after raw (dropped r) = r
state_after raw (received r body) = r

-- A segment that the parser takes.
abbrev pub is_segment : TcpResult → Bool
is_segment (parsed t body) = true
is_segment panicked = false
is_segment refused = false

-- Whether the payload of an IP packet is a reset for this connection: a TCP segment in FakeTCP mode,
-- which the parser takes, with the connection's port in its bytes 2 and 3 and the reset flag, of value
-- 4, in its byte 13.
abbrev pub reset_in : RawMode → RawCtx → ParsedIp → List ℕ → Bool
reset_in fake_tcp c ip seg =
    ip.protocol == ipproto_tcp
    && (is_segment (parse_tcp seg ip.src ip.dst)
        && (read_u16_be (drop 2 seg) == c.filter_port && byte_at seg 13 / 4 % 2 == 1))
reset_in udp c ip seg = false
reset_in icmp c ip seg = false

abbrev pub reset_from : RawCtx → List ℕ → Option ParsedIp → Bool
reset_from c buf none = false
reset_from c buf (some ip) =
    is_bound c.bind_addr ip.dst && reset_in c.raw_mode c ip (payload ip buf)

-- Whether a packet is a reset for this connection, at its bound address where it has one.
abbrev pub is_reset : RawCtx → List ℕ → Bool
is_reset c buf = reset_from c buf (parse_ip buf c.is_v6 true)

-- What a packet leaves of the counters, by whether it is a reset.
abbrev pub step_count : Bool → ℕ → ℕ
step_count rst cnt = if rst then (cnt + 1) % 2 ^ 32 else cnt

abbrev pub step_disabled : Bool → Option ℕ → RawInfo → Bool
step_disabled rst allowed raw =
    if rst then raw.disabled || exceeds allowed ((raw.rst_received + 1) % 2 ^ 32) else raw.disabled

pub record IsStep (allowed : Option ℕ) (rst : Bool) (before after : RawInfo) : Type 0 where
  pub count : after.rst_received ≡ step_count rst before.rst_received
  pub disables : after.disabled ≡ step_disabled rst allowed before

same : (allowed : Option ℕ) (raw : RawInfo) → IsStep allowed false raw raw
same allowed raw = record { count = refl; disables = refl }

count_rst-IsStep :
    (allowed : Option ℕ) (rst : Bool) (raw : RawInfo)
    → IsStep allowed rst raw (count_rst allowed rst raw)
count_rst-IsStep allowed false raw = same allowed raw
count_rst-IsStep allowed true raw = record { count = refl; disables = refl }

-- A guard of the code drops the packet, which is then no reset.
by_guard :
    (allowed : Option ℕ) (raw : RawInfo) (passes rst : Bool) (rejects accepts : Received)
    → IsStep allowed false raw (state_after raw rejects)
    → IsStep allowed rst raw (state_after raw accepts)
    → IsStep allowed (passes && rst) raw (state_after raw (if not passes then rejects else accepts))
by_guard allowed raw false rst rejects accepts r a = r
by_guard allowed raw true rst rejects accepts r a = a

-- What `parse_tcp` reads of a segment that it takes is in the segment's bytes.
ReadsAs : List ℕ → TcpResult → Type 0
ReadsAs seg (parsed t body) =
    (t.dst_port ≡ read_u16_be (drop 2 seg)) × (t.rst ≡ has_bit (byte_at seg 13) 4)
ReadsAs seg panicked = Unit
ReadsAs seg refused = Unit

parse_tcp-ReadsAs : (seg : List ℕ) (src dst : IpAddr) → ReadsAs seg (parse_tcp seg src dst)
unfolding parse_tcp ReadsAs read_u16_be
parse_tcp-ReadsAs seg src dst =
    let hlen = byte_at seg 12 / 16 * 4 in
    if_cases (ReadsAs seg) (ltb (length seg) tcp_min_header) (λ e. tt)
      (λ e.
        if_cases (ReadsAs seg) (hlen == 0 || ltb 60 hlen || ltb (length seg) hlen) (λ e. tt)
          (λ e. checked hlen (pseudo_header src dst ipproto_tcp (length seg))))
  where
    checked : (hlen : ℕ) (o : Option (List ℕ)) → ReadsAs seg (parse_checked seg hlen o)
    checked hlen none = tt
    checked hlen (some pseudo) =
        if_cases (ReadsAs seg) (ltb hlen tcp_min_header) (λ e. tt) (λ e. (refl, refl))

module _ (c : RawCtx) (raw : RawInfo) where
  recv_tcp-IsStep :
      (seg : List ℕ) (r : TcpResult)
      → ReadsAs seg r
      → IsStep c.max_rst_allowed
          (is_segment r
            && (read_u16_be (drop 2 seg) == c.filter_port && byte_at seg 13 / 4 % 2 == 1))
          raw
          (state_after raw (recv_tcp c raw r))
  unfolding ReadsAs
  recv_tcp-IsStep seg panicked h = same c.max_rst_allowed raw
  recv_tcp-IsStep seg refused h = same c.max_rst_allowed raw
  recv_tcp-IsStep seg (parsed t body) h =
      let s = count_rst-IsStep c.max_rst_allowed t.rst (set_recv raw (fill_tcp raw.recv_info t)) in
      rw (← h.0, ← h.1)
        (by_guard c.max_rst_allowed raw (t.dst_port == c.filter_port) t.rst _ _
          (same c.max_rst_allowed raw) (record { count = s.count; disables = s.disables }))

  recv_udp-IsStep :
      (r : Option (ℕ × ℕ × List ℕ))
      → IsStep c.max_rst_allowed false raw (state_after raw (recv_udp c raw r))
  recv_udp-IsStep none = same c.max_rst_allowed raw
  recv_udp-IsStep (some (sp, dp, body)) =
      if_cases (λ r. IsStep c.max_rst_allowed false raw (state_after raw r))
        (not (dp == c.filter_port)) (λ e. same c.max_rst_allowed raw)
        (λ e. record { count = refl; disables = refl })

  recv_icmp-IsStep :
      (r : Option (ParsedIcmp × List ℕ))
      → IsStep c.max_rst_allowed false raw (state_after raw (recv_icmp c raw r))
  recv_icmp-IsStep none = same c.max_rst_allowed raw
  recv_icmp-IsStep (some (h, body)) =
      if_cases (λ r. IsStep c.max_rst_allowed false raw (state_after raw r))
        (not (h.id == raw.send_info.src_port)) (λ e. same c.max_rst_allowed raw)
        (λ e. record { count = refl; disables = refl })

  recv_in-IsStep :
      (mode : RawMode) (ip : ParsedIp) (seg : List ℕ)
      → IsStep c.max_rst_allowed
          (reset_in mode c ip seg)
          raw
          (state_after raw (recv_in mode c raw ip seg))
  unfolding recv_in
  recv_in-IsStep fake_tcp ip seg =
      by_guard c.max_rst_allowed raw (ip.protocol == ipproto_tcp) _ _ _ (same c.max_rst_allowed raw)
        (recv_tcp-IsStep seg (parse_tcp seg ip.src ip.dst) (parse_tcp-ReadsAs seg ip.src ip.dst))
  recv_in-IsStep udp ip seg =
      if_cases (λ r. IsStep c.max_rst_allowed false raw (state_after raw r))
        (not (ip.protocol == ipproto_udp)) (λ e. same c.max_rst_allowed raw)
        (λ e. recv_udp-IsStep (parse_udp seg ip.src ip.dst))
  recv_in-IsStep icmp ip seg =
      if_cases (λ r. IsStep c.max_rst_allowed false raw (state_after raw r))
        (not (ip.protocol == icmp_protocol c.is_v6)) (λ e. same c.max_rst_allowed raw)
        (λ e. recv_icmp-IsStep (parse_icmp seg ip.src ip.dst c.is_client))

-- Only the receiving fields were set before the segment was read.
from_set_recv :
    (allowed : Option ℕ) (rst : Bool) (raw : RawInfo) (r : PacketInfo) (rcv : Received)
    → IsStep allowed rst (set_recv raw r) (state_after (set_recv raw r) rcv)
    → IsStep allowed rst raw (state_after raw rcv)
from_set_recv allowed rst raw r crashed s = record { count = s.count; disables = s.disables }
from_set_recv allowed rst raw r (dropped after) s = record {
  count = s.count;
  disables = s.disables;
}
from_set_recv allowed rst raw r (received after body) s = record {
  count = s.count;
  disables = s.disables;
}

pub parse_recv-IsStep :
    (c : RawCtx) (raw : RawInfo) (buf : List ℕ) (ll : LinkAddr)
    → IsStep c.max_rst_allowed (is_reset c buf) raw (state_after raw (parse_recv c raw buf ll))
unfolding parse_recv
parse_recv-IsStep c raw buf ll = with_header (parse_ip buf c.is_v6 true)
  where
    after_link :
        (ip : ParsedIp) (r : PacketInfo)
        → IsStep c.max_rst_allowed
            (reset_from c buf (some ip))
            raw
            (state_after raw (recv_bound c (set_recv raw r) buf ip))
    after_link ip r =
        let there : PacketInfo = record r { src_ip = ip.src; dst_ip = ip.dst } in
        by_guard c.max_rst_allowed raw (is_bound c.bind_addr ip.dst) _ _ _
          (record { count = refl; disables = refl })
          (from_set_recv c.max_rst_allowed _ raw there
            (recv_in c.raw_mode c (set_recv raw there) ip (payload ip buf))
            (recv_in-IsStep c (set_recv raw there) c.raw_mode ip (payload ip buf)))

    with_header :
        (o : Option ParsedIp)
        → IsStep c.max_rst_allowed
            (reset_from c buf o)
            raw
            (state_after raw (recv_ip c raw buf ll o))
    with_header none = same c.max_rst_allowed raw
    with_header (some ip) =
        if_cases
          (λ linked.
            IsStep c.max_rst_allowed (reset_from c buf (some ip)) raw
              (state_after raw (recv_bound c linked buf ip)))
          c.lower_level (λ e. after_link ip (record raw.recv_info { addr_ll = ll }))
          (λ e. after_link ip raw.recv_info)
