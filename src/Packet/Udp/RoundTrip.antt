-- ===== src/Packet/Udp/RoundTrip.antt =====
-- src/packet/udp.rs: the builder against the parser.
use udp2raw_rust.Prelude.{
  ℕ, ◌+◌, ◌%◌, ◌^◌, ◌≤◌, ◌<◌, ◌≡◌, refl, ap, true, false, some, List, ◌++◌, arith, ltb, ◌>>=◌,
  ==-refl, length, drop, AreBytes,
}
use udp2raw_rust.Types.{IpAddr}
use udp2raw_rust.Util.{write_u16_be, read_u16_be}
use udp2raw_rust.Packet.Checksum.{csum_with_pseudo, verify_with_pseudo}
use udp2raw_rust.Packet.Checksum.Laws.{word_sum, word_sum-le, pseudo_filled}
use udp2raw_rust.Packet.Ip.{pseudo_header, patch16, ipproto_udp}
use udp2raw_rust.Packet.Pseudo.{IsSameFamily, pseudo_header-HasPseudo}
use udp2raw_rust.Packet.Udp.{udp_zeroed, build_udp, parse_udp, udp_header_len}

-- The bytes of the datagram with checksum `c`.
abbrev sealed : ℕ → ℕ → List ℕ → ℕ → List ℕ
sealed src_port dst_port payload c =
    write_u16_be src_port
    ++ (write_u16_be dst_port
        ++ (write_u16_be ((udp_header_len + length payload) % 2 ^ 16)
            ++ (write_u16_be c ++ payload)))

sealed_lem :
    (src_port dst_port c : ℕ) (payload : List ℕ)
    → patch16 (udp_zeroed src_port dst_port payload) 6 c ≡ sealed src_port dst_port payload c
unfolding patch16 udp_zeroed write_u16_be
sealed_lem src_port dst_port c payload = refl

build_udp_of :
    (src dst : IpAddr) (src_port dst_port : ℕ) (payload pseudo : List ℕ)
    → length payload ≤ 65527
    → pseudo_header src dst ipproto_udp (udp_header_len + length payload) ≡ some pseudo
    → build_udp src dst src_port dst_port payload
      ≡ some (
          sealed src_port dst_port payload
            (csum_with_pseudo pseudo (udp_zeroed src_port dst_port payload)))
unfolding build_udp
build_udp_of src dst src_port dst_port payload pseudo fits e =
    let short : ltb 65535 (udp_header_len + length payload) ≡ false = ground arith in
    rw short (
      rw e (
        ap some (
          sealed_lem src_port dst_port
            (csum_with_pseudo pseudo (udp_zeroed src_port dst_port payload)) payload)))

parse_udp_of :
    (seg : List ℕ) (src dst : IpAddr) (n sp dp : ℕ) (payload pseudo : List ℕ)
    → length seg ≡ udp_header_len + n
    → read_u16_be (drop 4 seg) ≡ udp_header_len + n
    → pseudo_header src dst ipproto_udp (udp_header_len + n) ≡ some pseudo
    → verify_with_pseudo pseudo seg ≡ true
    → read_u16_be seg ≡ sp
    → read_u16_be (drop 2 seg) ≡ dp
    → drop udp_header_len seg ≡ payload
    → parse_udp seg src dst ≡ some (sp, dp, payload)
unfolding parse_udp
parse_udp_of seg src dst n sp dp payload pseudo len field e sum s d p =
    let enough : ltb (udp_header_len + n) 8 ≡ false = ground arith in
    rw (len, field, enough, ==-refl (udp_header_len + n), e, sum, s, d, p) refl

-- A datagram that `build_udp` builds is read back by `parse_udp`, checksum included: the ports and
-- the payload. The addresses are of one family, the ports fit 16 bits, and the payload is bytes, at
-- most 65527 of them.
pub parse_udp-build_udp :
    (src dst : IpAddr) (src_port dst_port : ℕ) (payload : List ℕ)
    → IsSameFamily src dst
    → src_port < 2 ^ 16
    → dst_port < 2 ^ 16
    → AreBytes payload
    → length payload ≤ 65527
    → (build_udp src dst src_port dst_port payload >>= λ seg. parse_udp seg src dst)
      ≡ some (src_port, dst_port, payload)
parse_udp-build_udp src dst src_port dst_port payload same p q bytes fits =
    let pseudo =
      pseudo_header-HasPseudo src dst ipproto_udp (udp_header_len + length payload) (omega arith)
        same in
    let c = csum_with_pseudo pseudo.bytes (udp_zeroed src_port dst_port payload) in
    let len : length (sealed src_port dst_port payload c) ≡ udp_header_len + length payload =
      unfold write_u16_be in omega arith in
    let field : read_u16_be (drop 4 (sealed src_port dst_port payload c))
        ≡ udp_header_len + length payload =
      unfold write_u16_be read_u16_be in omega (arith, fits) in
    let verified : verify_with_pseudo pseudo.bytes (sealed src_port dst_port payload c) ≡ true =
      unfold udp_zeroed write_u16_be in
      pseudo_filled pseudo.bytes
        (write_u16_be src_port
          ++ (write_u16_be dst_port ++ write_u16_be ((udp_header_len + length payload) % 2 ^ 16)))
        payload pseudo.even refl
        (unfold word_sum in omega (arith, pseudo.small, fits, word_sum-le payload bytes)) in
    rw (build_udp_of src dst src_port dst_port payload pseudo.bytes fits pseudo.is_built) (
      parse_udp_of (sealed src_port dst_port payload c) src dst (length payload) src_port dst_port
        payload pseudo.bytes len field pseudo.is_built verified
        (unfold write_u16_be read_u16_be in omega (arith, p))
        (unfold write_u16_be read_u16_be in omega (arith, q)) (unfold write_u16_be in refl))
