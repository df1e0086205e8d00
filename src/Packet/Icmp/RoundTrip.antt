-- ===== src/Packet/Icmp/RoundTrip.antt =====
-- src/packet/icmp.rs: the builder of one side against the parser of the other.
use udp2raw_rust.Prelude.{
  ℕ, ◌+◌, ◌*◌, ◌^◌, ◌≤◌, ◌<◌, ◌≡◌, refl, ap, ◌∙◌, Bool, true, false, not, Option, none, some, List,
  [], ◌∷◌, ◌++◌, arith, ltb, ◌>>=◌, ==-refl, length, drop, byte_at, AreBytes,
}
use udp2raw_rust.Types.{IpAddr, v4, v6}
use udp2raw_rust.Util.{write_u16_be, read_u16_be}
use udp2raw_rust.Packet.Checksum.{csum, verify, csum_with_pseudo, verify_with_pseudo}
use udp2raw_rust.Packet.Checksum.Laws.{word_sum, word_sum-le, filled, pseudo_filled}
use udp2raw_rust.Packet.Ip.{pseudo_header, patch16, ipproto_icmpv6}
use udp2raw_rust.Packet.Pseudo.{IsSameFamily, pseudo_header-HasPseudo}
use udp2raw_rust.Packet.Icmp.{
  echo_type, is_ipv6, icmp_csum, icmp_zeroed, build_icmp, icmp_ok, parse_icmp, icmp_header_len,
}

-- The bytes of the packet with checksum `c`.
abbrev sealed : ℕ → ℕ → ℕ → List ℕ → ℕ → List ℕ
sealed ptype id seq payload c =
    ptype ∷ 0 ∷ (write_u16_be c ++ (write_u16_be id ++ (write_u16_be seq ++ payload)))

sealed_lem :
    (ptype id seq c : ℕ) (payload : List ℕ)
    → patch16 (icmp_zeroed ptype id seq payload) 2 c ≡ sealed ptype id seq payload c
unfolding patch16 icmp_zeroed write_u16_be
sealed_lem ptype id seq c payload = refl

csum_v6 :
    (src dst : IpAddr) (seg pseudo : List ℕ)
    → is_ipv6 src ≡ true
    → pseudo_header src dst ipproto_icmpv6 (length seg) ≡ some pseudo
    → icmp_csum src dst seg ≡ some (csum_with_pseudo pseudo seg)
unfolding icmp_csum
csum_v6 src dst seg pseudo six e = rw six (rw e refl)

ok_v6 :
    (src dst : IpAddr) (seg pseudo : List ℕ)
    → is_ipv6 src ≡ true
    → pseudo_header src dst ipproto_icmpv6 (length seg) ≡ some pseudo
    → icmp_ok src dst seg ≡ some (verify_with_pseudo pseudo seg)
unfolding icmp_ok
ok_v6 src dst seg pseudo six e = rw six (rw e refl)

module _ (ptype id seq : ℕ) (payload : List ℕ) (t : ptype < 256) (bytes : AreBytes payload)
    (fits : length payload ≤ 65535) where
  length-zeroed :
      (c : ℕ) → length (sealed ptype id seq payload c) ≡ length (icmp_zeroed ptype id seq payload)
  unfolding icmp_zeroed write_u16_be
  length-zeroed c = refl

  small :
      word_sum (ptype ∷ 0 ∷ []) + word_sum (write_u16_be id ++ (write_u16_be seq ++ payload))
      < 5 * 2 ^ 29
  unfolding write_u16_be word_sum
  small = omega (arith, t, fits, word_sum-le payload bytes)

  -- With its checksum the packet verifies, as either family computes it.
  icmp_ok-sealed :
      (src dst : IpAddr)
      → IsSameFamily src dst
      → (icmp_csum src dst (icmp_zeroed ptype id seq payload) >>= λ c.
          icmp_ok src dst (sealed ptype id seq payload c))
        ≡ some true
  icmp_ok-sealed (v4 s) (v4 d) same =
      let verified : verify (sealed ptype id seq payload (csum (icmp_zeroed ptype id seq payload)))
          ≡ true =
        unfold icmp_zeroed in
        filled (ptype ∷ 0 ∷ []) (write_u16_be id ++ (write_u16_be seq ++ payload)) refl
          (omega (arith, small)) in
      unfold icmp_csum icmp_ok in ap some verified
  icmp_ok-sealed (v6 s) (v6 d) same =
      let zeroed = icmp_zeroed ptype id seq payload in
      let pseudo =
        pseudo_header-HasPseudo (v6 s) (v6 d) ipproto_icmpv6 (length zeroed) (omega arith) same in
      let c = csum_with_pseudo pseudo.bytes zeroed in
      let verified : verify_with_pseudo pseudo.bytes (sealed ptype id seq payload c) ≡ true =
        unfold icmp_zeroed in
        pseudo_filled pseudo.bytes (ptype ∷ 0 ∷ [])
          (write_u16_be id ++ (write_u16_be seq ++ payload)) pseudo.even refl
          (omega (arith, small, pseudo.small)) in
      rw (csum_v6 (v6 s) (v6 d) zeroed pseudo.bytes refl pseudo.is_built) (
        ok_v6 (v6 s) (v6 d) (sealed ptype id seq payload c) pseudo.bytes refl
          (ap (pseudo_header (v6 s) (v6 d) ipproto_icmpv6) (length-zeroed c) ∙ pseudo.is_built)
        ∙ ap some verified)
  icmp_ok-sealed (v4 s) (v6 d) same = elim same [ ]
  icmp_ok-sealed (v6 s) (v4 d) same = elim same [ ]

echo_type-lt : (ipv6 is_client : Bool) → echo_type ipv6 is_client < 256
unfolding echo_type
echo_type-lt true true = omega arith
echo_type-lt true false = omega arith
echo_type-lt false true = omega arith
echo_type-lt false false = omega arith

not-not : (b : Bool) → not (not b) ≡ b
not-not true = refl
not-not false = refl

parse_icmp_of :
    (seg : List ℕ) (src dst : IpAddr) (is_client : Bool) (n id seq : ℕ) (payload : List ℕ)
    → length seg ≡ icmp_header_len + n
    → byte_at seg 0 ≡ echo_type (is_ipv6 src) is_client
    → byte_at seg 1 ≡ 0
    → icmp_ok src dst seg ≡ some true
    → read_u16_be (drop 4 seg) ≡ id
    → read_u16_be (drop 6 seg) ≡ seq
    → drop icmp_header_len seg ≡ payload
    → parse_icmp seg src dst (not is_client)
      ≡ some (record { ptype = echo_type (is_ipv6 src) is_client; id = id; seq = seq }, payload)
unfolding parse_icmp
parse_icmp_of seg src dst is_client n id seq payload len kind code ok i s p =
    let enough : ltb (icmp_header_len + n) 8 ≡ false = ground arith in
    rw ok (
      rw (len, code, not-not is_client, kind, enough)
        (rw (==-refl (echo_type (is_ipv6 src) is_client), i, s, p) refl))

-- What is read from every packet that verifies is read from the one that was built.
sent_then_read :
    {A : Type 0} (c : Option ℕ) {ok : ℕ → Option Bool} {seg : ℕ → List ℕ} {a : A}
    (parse : List ℕ → Option A)
    → (c >>= ok) ≡ some true
    → ((n : ℕ) → ok n ≡ some true → parse (seg n) ≡ some a)
    → ((c >>= λ n. some (seg n)) >>= parse) ≡ some a
sent_then_read none parse h read = absurd (cc)
sent_then_read (some n) parse h read = read n h

-- An echo packet that `build_icmp` builds for one side is read back by the other side's
-- `parse_icmp`, checksum included: its type, which is the sender's, the identifier, the sequence
-- number and the payload. The addresses are of one family, the numbers fit 16 bits, and the payload
-- is bytes, at most 65535 of them.
pub parse_icmp-build_icmp :
    (src dst : IpAddr) (is_client : Bool) (id seq : ℕ) (payload : List ℕ)
    → IsSameFamily src dst
    → id < 2 ^ 16
    → seq < 2 ^ 16
    → AreBytes payload
    → length payload ≤ 65535
    → (build_icmp src dst is_client id seq payload >>= λ seg.
        parse_icmp seg src dst (not is_client))
      ≡ some (record { ptype = echo_type (is_ipv6 src) is_client; id = id; seq = seq }, payload)
unfolding build_icmp
parse_icmp-build_icmp src dst is_client id seq payload same p q bytes fits =
    let ptype = echo_type (is_ipv6 src) is_client in
    let ok =
      icmp_ok-sealed ptype id seq payload (echo_type-lt (is_ipv6 src) is_client) bytes fits src dst
        same in
    sent_then_read (icmp_csum src dst (icmp_zeroed ptype id seq payload))
      (λ seg. parse_icmp seg src dst (not is_client)) ok
      (λ c read. rw (sealed_lem ptype id seq c payload) (
        parse_icmp_of (sealed ptype id seq payload c) src dst is_client (length payload) id seq
          payload (unfold write_u16_be in omega arith) refl refl read
          (unfold write_u16_be read_u16_be in omega (arith, p))
          (unfold write_u16_be read_u16_be in omega (arith, q)) (unfold write_u16_be in refl)))
