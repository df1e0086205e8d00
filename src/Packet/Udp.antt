-- ===== src/Packet/Udp.antt =====
-- src/packet/udp.rs: the datagrams of the raw UDP mode. `none` of `build_udp` is an overlong
-- payload, or the panic on mixed address families.
pub mod RoundTrip
use udp2raw_rust.Prelude.{
  ℕ, ◌+◌, ◌%◌, ◌^◌, not, Option, none, some, List, ◌∷◌, ◌++◌, ltb, ◌==◌, if◌then◌else◌, ◌>>=◌,
  length, drop,
}
use udp2raw_rust.Types.{IpAddr}
use udp2raw_rust.Util.{write_u16_be, read_u16_be}
use udp2raw_rust.Packet.Checksum.{csum_with_pseudo, verify_with_pseudo}
use udp2raw_rust.Packet.Ip.{pseudo_header, ipproto_udp, patch16}

abbrev pub udp_header_len : ℕ
udp_header_len = 8

-- The datagram with its checksum still zero.
unfoldable pub udp_zeroed : ℕ → ℕ → List ℕ → List ℕ
unfolding write_u16_be
udp_zeroed src_port dst_port payload =
    write_u16_be src_port
    ++ (write_u16_be dst_port
        ++ (write_u16_be ((udp_header_len + length payload) % 2 ^ 16) ++ (0 ∷ 0 ∷ payload)))

unfoldable pub build_udp : IpAddr → IpAddr → ℕ → ℕ → List ℕ → Option (List ℕ)
unfolding udp_zeroed pseudo_header patch16 csum_with_pseudo
build_udp src dst src_port dst_port payload =
    if ltb 65535 (udp_header_len + length payload)
    then none
    else (pseudo_header src dst ipproto_udp (udp_header_len + length payload) >>= λ pseudo.
        let seg = udp_zeroed src_port dst_port payload in
        some (patch16 seg 6 (csum_with_pseudo pseudo seg)))

-- (src_port, dst_port, payload)
unfoldable pub parse_udp : List ℕ → IpAddr → IpAddr → Option (ℕ × ℕ × List ℕ)
unfolding read_u16_be pseudo_header verify_with_pseudo
parse_udp seg src dst =
    if ltb (length seg) udp_header_len
    then none
    else if not (read_u16_be (drop 4 seg) == length seg)
    then none
    else (pseudo_header src dst ipproto_udp (length seg) >>= λ pseudo.
        if not (verify_with_pseudo pseudo seg)
        then none
        else some (read_u16_be seg, read_u16_be (drop 2 seg), drop udp_header_len seg))
