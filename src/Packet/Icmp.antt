-- ===== src/Packet/Icmp.antt =====
-- src/packet/icmp.rs: the echo packets of the raw ICMP mode.
pub mod RoundTrip
use udp2raw_rust.Prelude.{
  ℕ, Bool, true, false, not, Option, none, some, List, ◌∷◌, ◌++◌, ltb, ◌==◌, if◌then◌else◌, ◌>>=◌,
  length, drop, byte_at,
}
use udp2raw_rust.Types.{IpAddr, v4, v6}
use udp2raw_rust.Util.{write_u16_be, read_u16_be}
use udp2raw_rust.Packet.Checksum.{csum, verify, csum_with_pseudo, verify_with_pseudo}
use udp2raw_rust.Packet.Ip.{pseudo_header, ipproto_icmpv6, patch16}

abbrev pub icmp_header_len : ℕ
icmp_header_len = 8

unfoldable pub echo_type : Bool → Bool → ℕ
echo_type false true = 8
echo_type false false = 0
echo_type true true = 128
echo_type true false = 129

abbrev pub is_ipv6 : IpAddr → Bool
is_ipv6 (v4 n) = false
is_ipv6 (v6 n) = true

-- The checksum, over the pseudo header for IPv6.
unfoldable pub icmp_csum : IpAddr → IpAddr → List ℕ → Option ℕ
unfolding csum csum_with_pseudo pseudo_header
icmp_csum src dst seg =
    if is_ipv6 src
    then (pseudo_header src dst ipproto_icmpv6 (length seg) >>= λ pseudo.
        some (csum_with_pseudo pseudo seg))
    else some (csum seg)

unfoldable pub icmp_zeroed : ℕ → ℕ → ℕ → List ℕ → List ℕ
unfolding write_u16_be
icmp_zeroed ptype id seq payload =
    ptype ∷ 0 ∷ 0 ∷ 0 ∷ (write_u16_be id ++ (write_u16_be seq ++ payload))

unfoldable pub build_icmp : IpAddr → IpAddr → Bool → ℕ → ℕ → List ℕ → Option (List ℕ)
unfolding echo_type icmp_zeroed icmp_csum patch16
build_icmp src dst is_client id seq payload =
    let seg = icmp_zeroed (echo_type (is_ipv6 src) is_client) id seq payload in
    icmp_csum src dst seg >>= λ c. some (patch16 seg 2 c)

pub record ParsedIcmp : Type 0 where
  pub ptype : ℕ
  pub id : ℕ
  pub seq : ℕ

unfoldable pub icmp_ok : IpAddr → IpAddr → List ℕ → Option Bool
unfolding verify verify_with_pseudo pseudo_header
icmp_ok src dst seg =
    if is_ipv6 src
    then (pseudo_header src dst ipproto_icmpv6 (length seg) >>= λ pseudo.
        some (verify_with_pseudo pseudo seg))
    else some (verify seg)

unfoldable pub parse_icmp : List ℕ → IpAddr → IpAddr → Bool → Option (ParsedIcmp × List ℕ)
unfolding echo_type icmp_ok read_u16_be
parse_icmp seg src dst is_client =
    if ltb (length seg) icmp_header_len
    then none
    else if not (byte_at seg 1 == 0)
    then none
    else if not (byte_at seg 0 == echo_type (is_ipv6 src) (not is_client))
    then none
    else (icmp_ok src dst seg >>= λ ok.
        if not ok
        then none
        else some (
          record {
            ptype = byte_at seg 0;
            id = read_u16_be (drop 4 seg);
            seq = read_u16_be (drop 6 seg);
          },
          drop icmp_header_len seg,
        ))
