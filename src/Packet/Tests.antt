-- ===== src/Packet/Tests.antt =====
-- The theorems on the headers at concrete packets.
use udp2raw_rust.Prelude.{ℕ, ◌≡◌, true, false, some, List, [], ◌∷◌, ◌++◌, arith, ◌>>=◌}
use udp2raw_rust.Types.{IpAddr, v4, v6}
use udp2raw_rust.Packet.Ip.{build_ip_header}
use udp2raw_rust.Packet.Ip.Carried.{parsed_back, parse_ip-build_ip_header}
use udp2raw_rust.Packet.Udp.{build_udp, parse_udp}
use udp2raw_rust.Packet.Udp.RoundTrip.{parse_udp-build_udp}
use udp2raw_rust.Packet.Icmp.{echo_type, build_icmp, parse_icmp}
use udp2raw_rust.Packet.Icmp.RoundTrip.{parse_icmp-build_icmp}
use udp2raw_rust.Packet.Tcp.{TcpSendParams, parsed, build_tcp, parse_tcp, parse_options}
use udp2raw_rust.Packet.Tcp.Options.{EndsWithin, parse_options_terminates}
use udp2raw_rust.Packet.Tcp.Panics.{panics, panics-parse_tcp}
use udp2raw_rust.Packet.Tcp.RoundTrip as Tcp

abbrev here : IpAddr
here = v4 0xc0a8010a

abbrev there : IpAddr
there = v4 0xcb007105

abbrev hello : List ℕ
hello = 104 ∷ 101 ∷ 108 ∷ 108 ∷ 111 ∷ []

parse_ip-build_ip_header_example :
    parsed_back (build_ip_header here there 17 64 7 5) (hello ++ (0 ∷ [])) false true
    ≡ some
        (record { src = here; dst = there; protocol = 17; header_len = 20; total_len = 25 }, hello)
parse_ip-build_ip_header_example =
    parse_ip-build_ip_header here there 17 64 7 hello (0 ∷ []) true (record {
      src_fits = omega arith;
      dst_fits = omega arith;
      protocol_fits = omega arith;
      ttl_fits = omega arith;
      id_fits = omega arith;
      len_fits = omega arith;
    })

parse_udp-build_udp_example :
    (build_udp here there 4096 53 hello >>= λ seg. parse_udp seg here there)
    ≡ some (4096, 53, hello)
parse_udp-build_udp_example =
    parse_udp-build_udp here there 4096 53 hello tt (omega arith) (omega arith) (omega arith)
      (omega arith)

parse_icmp-build_icmp_example :
    (build_icmp (v6 1) (v6 2) true 9 10 hello >>= λ seg. parse_icmp seg (v6 1) (v6 2) false)
    ≡ some (record { ptype = 128; id = 9; seq = 10 }, hello)
parse_icmp-build_icmp_example =
    unfold echo_type in
    parse_icmp-build_icmp (v6 1) (v6 2) true 9 10 hello tt (omega arith) (omega arith) (omega arith)
      (omega arith)

abbrev opening : TcpSendParams
opening = record {
  src_port = 1234;
  dst_port = 443;
  seq = 1;
  ack_seq = 2;
  syn = true;
  ack = false;
  psh = false;
  window = 40960;
  ts = 0x11223344;
  ts_ack = 0;
}

parse_tcp-build_tcp_example :
    Tcp.parsed_back (build_tcp here there opening []) here there ≡ parsed (Tcp.received opening) []
parse_tcp-build_tcp_example =
    Tcp.parse_tcp-build_tcp here there opening [] tt
      (record {
        src_fits = omega arith;
        dst_fits = omega arith;
        seq_fits = omega arith;
        ack_fits = omega arith;
        ts_fits = omega arith;
        ts_ack_fits = omega arith;
      })
      tt (omega arith)

parse_options_terminates_example :
    EndsWithin 3
      (record { has_ts = false; ts = 0; ts_ack = 0 })
      (3 ∷ 0 ∷ 5 ∷ [])
      (parse_options (3 ∷ 0 ∷ 5 ∷ []))
parse_options_terminates_example = parse_options_terminates (3 ∷ 0 ∷ 5 ∷ [])

-- The offset field says 16 bytes.
abbrev short_segment : List ℕ
short_segment =
    0 ∷ 0 ∷ 0 ∷ 0 ∷ 0 ∷ 0 ∷ 0 ∷ 0 ∷ 0 ∷ 0 ∷ 0 ∷ 0 ∷ 0x40 ∷ 0 ∷ 0 ∷ 0 ∷ 0 ∷ 0 ∷ 0 ∷ 0 ∷ []

panics-parse_tcp_example : panics (parse_tcp short_segment here there) ≡ true
panics-parse_tcp_example = panics-parse_tcp short_segment here there tt
