-- ===== src/Packet/Ip/RoundTrip6.antt =====
-- src/packet/ip.rs: the IPv6 builder against the parser.
use udp2raw_rust.Prelude.{
  ℕ, ◌+◌, ◌/◌, ◌%◌, ◌^◌, ◌<◌, ◌≡◌, refl, false, some, List, ◌++◌, arith, ltb, length, drop,
  length-append, byte_at,
}
use udp2raw_rust.Util.{write_u16_be, write_u64_be, read_u16_be}
use udp2raw_rust.Util.ByteOrder.{read_u64_be-write}
use udp2raw_rust.Packet.Ip.{header6, octets6, read_octets6, payload, parse_ip6, ipv6_header_len}
use udp2raw_rust.Packet.Ip.RoundTrip.{slice_between}
use udp2raw_rust.Types.{v6}

-- Sixteen bytes spell an address.
read_octets6-octets6 : (n : ℕ) (r : List ℕ) → n < 2 ^ 128 → read_octets6 (octets6 n ++ r) ≡ n
unfolding octets6 read_octets6
read_octets6-octets6 n r h =
    let high = read_u64_be-write (n / 2 ^ 64) (write_u64_be (n % 2 ^ 64) ++ r) (omega arith) in
    let low = read_u64_be-write (n % 2 ^ 64) r (omega arith) in
    unfold write_u64_be in rw (high, low) (omega arith)

-- The header's fields fit their bytes, and the payload its length field.
pub record IsIpv6 (s d protocol ttl len : ℕ) : Type 0 where
  pub src_fits : s < 2 ^ 128
  pub dst_fits : d < 2 ^ 128
  pub protocol_fits : protocol < 256
  pub ttl_fits : ttl < 256
  pub len_fits : len < 2 ^ 16

parse_ip6_of :
    (buf : List ℕ) (n t s d protocol : ℕ)
    → byte_at buf 0 ≡ 0x60
    → read_u16_be (drop 4 buf) ≡ n
    → length buf ≡ ipv6_header_len + (n + t)
    → read_octets6 (drop 8 buf) ≡ s
    → read_octets6 (drop 24 buf) ≡ d
    → byte_at buf 6 ≡ protocol
    → parse_ip6 buf
      ≡ some (record {
        src = v6 s;
        dst = v6 d;
        protocol = protocol;
        header_len = 40;
        total_len = ipv6_header_len + n;
      })
unfolding parse_ip6
parse_ip6_of buf n t s d protocol first len whole src dst proto =
    let enough : ltb (length buf) 40 ≡ false = ground arith in
    let held : ltb (length buf) (ipv6_header_len + n) ≡ false = ground arith in
    rw (first, len) (rw (enough, held, src, dst, proto) refl)

module _ (s d protocol ttl : ℕ) (body trailing : List ℕ)
    (v : IsIpv6 s d protocol ttl (length body)) where
  abbrev packet : List ℕ
  packet = header6 s d protocol ttl (length body) ++ (body ++ trailing)

  read_src : read_octets6 (drop 8 packet) ≡ s
  unfolding header6 write_u16_be octets6 write_u64_be
  read_src = read_octets6-octets6 s (octets6 d ++ (body ++ trailing)) v.src_fits

  read_dst : read_octets6 (drop 24 packet) ≡ d
  unfolding header6 write_u16_be octets6 write_u64_be
  read_dst = read_octets6-octets6 d (body ++ trailing) v.dst_fits

  length-header6 : length (header6 s d protocol ttl (length body)) ≡ 40
  unfolding header6 write_u16_be octets6 write_u64_be
  length-header6 = refl

  read_len : read_u16_be (drop 4 packet) ≡ length body
  unfolding header6 write_u16_be read_u16_be
  read_len = omega (arith, v.len_fits)

  first : (byte_at packet 0 ≡ 0x60) × (byte_at packet 6 ≡ protocol)
  unfolding header6 write_u16_be
  first = (refl, refl)

  pub parse-header6 :
      parse_ip6 packet
      ≡ some (record {
        src = v6 s;
        dst = v6 d;
        protocol = protocol;
        header_len = 40;
        total_len = ipv6_header_len + length body;
      })
  parse-header6 =
      parse_ip6_of packet (length body) (length trailing) s d protocol (first.0) read_len
        (omega (
          arith,
          length-append (header6 s d protocol ttl (length body)) (body ++ trailing),
          length-append body trailing,
          length-header6,
        ))
        read_src read_dst (first.1)

  pub payload-header6 :
      payload
        (record {
          src = v6 s;
          dst = v6 d;
          protocol = protocol;
          header_len = 40;
          total_len = ipv6_header_len + length body;
        })
        packet
      ≡ body
  unfolding payload
  payload-header6 =
      slice_between (header6 s d protocol ttl (length body)) body trailing 40 length-header6
