-- ===== src/Packet/Ip.antt =====
-- src/packet/ip.rs: IPv4 and IPv6 headers, and the pseudo header of a transport checksum. `none` of
-- a builder stands for the panic on mixed address families.
pub mod RoundTrip
pub mod RoundTrip6
pub mod Carried
use udp2raw_rust.Prelude.{
  ℕ, zero, suc, ◌+◌, ◌-◌, ◌*◌, ◌/◌, ◌%◌, ◌^◌, ◌≤◌, ◌<◌, min, max, bit_and, bit_or, bit_xor, ◌≡◌,
  refl, sym, ap, ap₂, ◌∙◌, subst, ◌≢◌, ◌↔◌, ◌⊎◌, inl, inr, Bool, true, false, not, ◌&&◌, ◌||◌,
  Option, none, some, List, [], ◌∷◌, ◌++◌, map, append-nil, append_assoc, arith, dec_lt, ℕ_discrete,
  ltb, leb, ◌==◌, if◌then◌else◌, ◌>>=◌, ◌>>◌, guard, ltb→lt, lt→ltb, leb→le, ==_iff, ==-refl, tests,
  Bool-cases, Option-cases, IfSome, IfSome-some, IfSome-map, if_cases, zero-bit_xor, differ_bits,
  bit_xor_parts, bit_xor_cancel, zero-bit_or, le-bit_or, bit_xor-lt, bit_xor-eq-zero, bit_xor_self,
  length, set, get_or, take, drop, replicate, length-append, length-set, get_or-set_self,
  get_or-set_ne, length-replicate, get_or-replicate, length-take, length-drop, take-append,
  drop-append, take-append-drop, take_of_length-le, drop-append_past, get_or-append_past,
  get_or-append_before, drop_of_length-le, u64_max, u32_max, sat_add, sat_mul, sat_add32, clamp,
  byte_at, ◌<<<◌, ◌>>>◌, AreBytes, append-AreBytes, take-AreBytes, drop-AreBytes,
  replicate-AreBytes,
}
use udp2raw_rust.Types.{IpAddr, v4, v6}
use udp2raw_rust.Util.{
  write_u16_be, write_u32_be, write_u64_be, read_u16_be, read_u32_be, read_u64_be,
}
use udp2raw_rust.Packet.Checksum.{csum, verify}

abbrev pub ipv4_header_len : ℕ
ipv4_header_len = 20

abbrev pub ipv6_header_len : ℕ
ipv6_header_len = 40

abbrev pub ipproto_icmp : ℕ
ipproto_icmp = 1

abbrev pub ipproto_tcp : ℕ
ipproto_tcp = 6

abbrev pub ipproto_udp : ℕ
ipproto_udp = 17

abbrev pub ipproto_icmpv6 : ℕ
ipproto_icmpv6 = 58

-- `octets()` of an IPv6 address, and of an IPv4 one by `write_u32_be`.
unfoldable pub octets6 : ℕ → List ℕ
unfolding write_u64_be
octets6 n = write_u64_be (n / 2 ^ 64) ++ write_u64_be (n % 2 ^ 64)

unfoldable pub read_octets6 : List ℕ → ℕ
unfolding read_u64_be
read_octets6 p = read_u64_be p * 2 ^ 64 + read_u64_be (drop 8 p)

-- `copy_from_slice` of two bytes at an offset.
unfoldable pub patch16 : List ℕ → ℕ → ℕ → List ℕ
unfolding write_u16_be
patch16 seg at v = take at seg ++ (write_u16_be v ++ drop (at + 2) seg)

-- The IPv4 header with its checksum still zero.
unfoldable pub header4 : ℕ → ℕ → ℕ → ℕ → ℕ → ℕ → List ℕ
unfolding write_u16_be write_u32_be
header4 s d protocol ttl id payload_len =
    0x45
    ∷ 0
    ∷ (write_u16_be ((ipv4_header_len + payload_len) % 2 ^ 16)
        ++ (write_u16_be id
            ++ (write_u16_be 0x4000
                ++ (ttl ∷ protocol ∷ 0 ∷ 0 ∷ (write_u32_be s ++ write_u32_be d)))))

unfoldable pub header6 : ℕ → ℕ → ℕ → ℕ → ℕ → List ℕ
unfolding write_u16_be octets6
header6 s d protocol ttl payload_len =
    0x60
    ∷ 0
    ∷ 0
    ∷ 0
    ∷ (write_u16_be (payload_len % 2 ^ 16) ++ (protocol ∷ ttl ∷ (octets6 s ++ octets6 d)))

unfoldable pub build_ip_header : IpAddr → IpAddr → ℕ → ℕ → ℕ → ℕ → Option (List ℕ)
unfolding header4 header6 patch16 csum
build_ip_header (v4 s) (v4 d) protocol ttl id payload_len =
    let h = header4 s d protocol ttl id payload_len in some (patch16 h 10 (csum h))
build_ip_header (v6 s) (v6 d) protocol ttl id payload_len =
    some (header6 s d protocol ttl payload_len)
build_ip_header (v4 s) (v6 d) protocol ttl id payload_len = none
build_ip_header (v6 s) (v4 d) protocol ttl id payload_len = none

pub record ParsedIp : Type 0 where
  pub src : IpAddr
  pub dst : IpAddr
  pub protocol : ℕ
  pub header_len : ℕ
  pub total_len : ℕ

-- `&buf[self.header_len..self.total_len]`
unfoldable pub payload : ParsedIp → List ℕ → List ℕ
payload p buf = drop p.header_len (take p.total_len buf)

unfoldable pub parse_ip4 : List ℕ → Bool → Option ParsedIp
unfolding verify read_u16_be read_u32_be
parse_ip4 buf verify_csum =
    let ihl = byte_at buf 0 % 16 * 4 in
    let tot_len = read_u16_be (drop 2 buf) in
    if not (byte_at buf 0 / 16 == 4)
    then none
    else if ltb (length buf) ipv4_header_len
    then none
    else if ltb ihl ipv4_header_len || ltb (length buf) ihl
    then none
    else if ltb (length buf) tot_len || ltb tot_len ihl
    then none
    else if verify_csum && not (verify (take ihl buf))
    then none
    else some (record {
      src = v4 (read_u32_be (drop 12 buf));
      dst = v4 (read_u32_be (drop 16 buf));
      protocol = byte_at buf 9;
      header_len = ihl;
      total_len = tot_len;
    })

unfoldable pub parse_ip6 : List ℕ → Option ParsedIp
unfolding read_u16_be read_octets6
parse_ip6 buf =
    let tot = ipv6_header_len + read_u16_be (drop 4 buf) in
    if not (byte_at buf 0 / 16 == 6)
    then none
    else if ltb (length buf) ipv6_header_len
    then none
    else if ltb (length buf) tot
    then none
    else some (record {
      src = v6 (read_octets6 (drop 8 buf));
      dst = v6 (read_octets6 (drop 24 buf));
      protocol = byte_at buf 6;
      header_len = ipv6_header_len;
      total_len = tot;
    })

unfoldable pub parse_ip : List ℕ → Bool → Bool → Option ParsedIp
unfolding parse_ip4 parse_ip6
parse_ip buf want_v6 verify_csum =
    if length buf == 0
    then none
    else if not want_v6
    then parse_ip4 buf verify_csum
    else parse_ip6 buf

-- The length of the transport segment fills two bytes, which stand first in the IPv6 layout.
unfoldable pub pseudo_header : IpAddr → IpAddr → ℕ → ℕ → Option (List ℕ)
unfolding write_u16_be write_u32_be octets6
pseudo_header (v4 s) (v4 d) protocol transport_len =
    some
      (write_u32_be s ++ (write_u32_be d ++ (0 ∷ protocol ∷ write_u16_be (transport_len % 2 ^ 16))))
pseudo_header (v6 s) (v6 d) protocol transport_len = some (
    octets6 s
    ++ (octets6 d
        ++ (write_u16_be (transport_len % 2 ^ 16) ++ (0 ∷ 0 ∷ 0 ∷ 0 ∷ 0 ∷ protocol ∷ []))))
pseudo_header (v4 s) (v6 d) protocol transport_len = none
pseudo_header (v6 s) (v4 d) protocol transport_len = none
