-- ===== src/Packet/Ip/Carried.antt =====
-- src/packet/ip.rs: an IP packet from the builder through the parser.
use udp2raw_rust.Prelude.{
  ℕ, ◌+◌, ◌≡◌, refl, ap, ◌∙◌, Bool, true, false, not, Option, none, some, List, ◌∷◌, ◌++◌, arith,
  ◌==◌, if◌then◌else◌, ◌>>=◌, length, drop,
}
use udp2raw_rust.Types.{IpAddr, v4, v6}
use udp2raw_rust.Packet.Checksum.{csum}
use udp2raw_rust.Packet.Ip.{
  header4, header6, build_ip_header, ParsedIp, payload, parse_ip4, parse_ip6, parse_ip,
  ipv4_header_len, ipv6_header_len,
}
use udp2raw_rust.Packet.Ip.RoundTrip.{IsIpv4, sealed, sealed_lem, parse-header4, payload-header4}
use udp2raw_rust.Packet.Ip.RoundTrip6.{IsIpv6, parse-header6, payload-header6}

abbrev pub is_v6 : IpAddr → Bool
is_v6 (v4 n) = false
is_v6 (v6 n) = true

abbrev pub ip_header_len : IpAddr → ℕ
ip_header_len (v4 n) = ipv4_header_len
ip_header_len (v6 n) = ipv6_header_len

-- Addresses of one family and fields that fit their bytes, for a payload of `len` bytes.
abbrev pub IsIp : IpAddr → IpAddr → ℕ → ℕ → ℕ → ℕ → Type 0
IsIp (v4 s) (v4 d) protocol ttl id len = IsIpv4 s d protocol ttl id len
IsIp (v6 s) (v6 d) protocol ttl id len = IsIpv6 s d protocol ttl len
IsIp (v4 s) (v6 d) protocol ttl id len = ⊥
IsIp (v6 s) (v4 d) protocol ttl id len = ⊥

-- The header and a payload in a buffer that goes on, as the receiver reads them.
abbrev pub parsed_back : Option (List ℕ) → List ℕ → Bool → Bool → Option (ParsedIp × List ℕ)
parsed_back none rest want_v6 check = none
parsed_back (some h) rest want_v6 check =
    parse_ip (h ++ rest) want_v6 check >>= λ p. some (p, payload p (h ++ rest))

parsed_back_lem :
    (h rest : List ℕ) (want_v6 check : Bool) (p : ParsedIp) (body : List ℕ)
    → parse_ip (h ++ rest) want_v6 check ≡ some p
    → payload p (h ++ rest) ≡ body
    → parsed_back (some h) rest want_v6 check ≡ some (p, body)
parsed_back_lem h rest want_v6 check p body parsed read = rw parsed (rw read refl)

parse_ip_nonempty :
    (b : ℕ) (rest : List ℕ) (want_v6 check : Bool)
    → parse_ip (b ∷ rest) want_v6 check
      ≡ (if not want_v6 then parse_ip4 (b ∷ rest) check else parse_ip6 (b ∷ rest))
unfolding parse_ip
parse_ip_nonempty b rest want_v6 check =
    let e : (length (b ∷ rest) == 0) ≡ false = ground arith in rw e refl

build_ip_header-v4 :
    (s d protocol ttl id len : ℕ)
    → build_ip_header (v4 s) (v4 d) protocol ttl id len
      ≡ some (sealed s d protocol ttl id len (csum (header4 s d protocol ttl id len)))
unfolding build_ip_header
build_ip_header-v4 s d protocol ttl id len =
    ap some (sealed_lem s d protocol ttl id len (csum (header4 s d protocol ttl id len)))

-- A packet that `build_ip_header` heads is read back by `parse_ip`, of both families and with the
-- header's checksum verified or not: the addresses, the protocol, the lengths and the payload,
-- whatever bytes follow the packet in the buffer. The addresses are of one family, and the fields
-- and the packet's length fit their bytes.
pub parse_ip-build_ip_header :
    (src dst : IpAddr) (protocol ttl id : ℕ) (body trailing : List ℕ) (check : Bool)
    → IsIp src dst protocol ttl id (length body)
    → parsed_back
        (build_ip_header src dst protocol ttl id (length body))
        (body ++ trailing)
        (is_v6 src)
        check
      ≡ some (
        record {
          src = src;
          dst = dst;
          protocol = protocol;
          header_len = ip_header_len src;
          total_len = ip_header_len src + length body;
        },
        body,
      )
parse_ip-build_ip_header (v4 s) (v4 d) protocol ttl id body trailing check v =
    let c = csum (header4 s d protocol ttl id (length body)) in
    rw (build_ip_header-v4 s d protocol ttl id (length body)) (
      parsed_back_lem (sealed s d protocol ttl id (length body) c) (body ++ trailing) false check
        (record {
          src = v4 s;
          dst = v4 d;
          protocol = protocol;
          header_len = 20;
          total_len = ipv4_header_len + length body;
        })
        body
        (parse_ip_nonempty 0x45
            (drop 1 (sealed s d protocol ttl id (length body) c) ++ (body ++ trailing)) false check
          ∙ parse-header4 s d protocol ttl id body trailing v check)
        (payload-header4 s d protocol ttl id body trailing v c))
parse_ip-build_ip_header (v6 s) (v6 d) protocol ttl id body trailing check v =
    unfold build_ip_header in
    parsed_back_lem (header6 s d protocol ttl (length body)) (body ++ trailing) true check
      (record {
        src = v6 s;
        dst = v6 d;
        protocol = protocol;
        header_len = 40;
        total_len = ipv6_header_len + length body;
      })
      body
      ((unfold header6 in
          parse_ip_nonempty 0x60
            (drop 1 (header6 s d protocol ttl (length body)) ++ (body ++ trailing)) true check)
        ∙ parse-header6 s d protocol ttl body trailing v)
      (payload-header6 s d protocol ttl body trailing v)
parse_ip-build_ip_header (v4 s) (v6 d) protocol ttl id body trailing check v = elim v [ ]
parse_ip-build_ip_header (v6 s) (v4 d) protocol ttl id body trailing check v = elim v [ ]
