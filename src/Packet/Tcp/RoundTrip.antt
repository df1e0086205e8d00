-- ===== src/Packet/Tcp/RoundTrip.antt =====
-- src/packet/tcp.rs: the builder against the parser.
use udp2raw_rust.Prelude.{
  ℕ, ◌+◌, ◌*◌, ◌/◌, ◌^◌, ◌≤◌, ◌<◌, ◌≡◌, refl, ap, ◌∙◌, Bool, true, false, ◌||◌, Option, none, some,
  List, [], ◌∷◌, ◌++◌, arith, ltb, ◌==◌, if◌then◌else◌, if_cases, length, take, drop, byte_at,
  AreBytes,
}
use udp2raw_rust.Util.{write_u16_be, write_u32_be, read_u16_be, read_u32_be}
use udp2raw_rust.Util.ByteOrder.{read_u32_be-write}
use udp2raw_rust.Packet.Ip.{patch16, pseudo_header, ipproto_tcp}
use udp2raw_rust.Packet.Checksum.{csum_with_pseudo, verify_with_pseudo}
use udp2raw_rust.Packet.Checksum.Laws.{word_sum, word_sum-le, pseudo_filled}
use udp2raw_rust.Packet.Pseudo.{IsSameFamily, pseudo_header-HasPseudo}
use udp2raw_rust.Packet.Tcp.{
  TcpSendParams, bit, flags_of, has_bit, syn_options, plain_options, tcp_zeroed, build_tcp,
  ParsedTcp, Stamps, options_from, next_option, parse_options, TcpResult, parsed, panicked,
  parse_tcp, IpAddr, read_u16_be, read_u32_be, verify_with_pseudo,
}

-- The fields fit their bytes.
pub record IsTcp (p : TcpSendParams) : Type 0 where
  pub src_fits : p.src_port < 2 ^ 16
  pub dst_fits : p.dst_port < 2 ^ 16
  pub seq_fits : p.seq < 2 ^ 32
  pub ack_fits : p.ack_seq < 2 ^ 32
  pub ts_fits : p.ts < 2 ^ 32
  pub ts_ack_fits : p.ts_ack < 2 ^ 32

abbrev pub header_len_of : TcpSendParams → ℕ
header_len_of p = if p.syn then 40 else 32

abbrev pub options_of : TcpSendParams → List ℕ
options_of p = if p.syn then syn_options p else plain_options p

-- The first sixteen bytes.
abbrev before : TcpSendParams → List ℕ
before p =
    write_u16_be p.src_port
    ++ (write_u16_be p.dst_port
        ++ (write_u32_be p.seq
            ++ (write_u32_be p.ack_seq
                ++ ((if p.syn then 160 else 128) ∷ flags_of p ∷ write_u16_be p.window))))

-- The segment with checksum `c`.
abbrev sealed : TcpSendParams → List ℕ → ℕ → List ℕ
sealed p payload c = before p ++ (write_u16_be c ++ (0 ∷ 0 ∷ (options_of p ++ payload)))

sealed_lem :
    (p : TcpSendParams) (c : ℕ) (payload : List ℕ)
    → patch16 (tcp_zeroed p payload) 16 c ≡ sealed p payload c
unfolding patch16 tcp_zeroed write_u16_be write_u32_be
sealed_lem p c payload = refl

-- What the receiver makes of the sender's fields.
abbrev pub received : TcpSendParams → ParsedTcp
received p = record {
  src_port = p.src_port;
  dst_port = p.dst_port;
  seq = p.seq;
  ack_seq = p.ack_seq;
  syn = p.syn;
  ack = p.ack;
  psh = p.psh;
  rst = false;
  has_ts = true;
  ts = p.ts;
  ts_ack = p.ts_ack;
  header_len = header_len_of p;
  csum_ok = true;
}

record HasFlags (flags : ℕ) (syn ack psh : Bool) : Type 0 where
  is_byte : flags < 256
  is_syn : has_bit flags 2 ≡ syn
  is_ack : has_bit flags 16 ≡ ack
  is_psh : has_bit flags 8 ≡ psh
  is_rst : has_bit flags 4 ≡ false

flags-HasFlags :
    (syn ack psh : Bool) → HasFlags (bit syn 0x02 + bit psh 0x08 + bit ack 0x10) syn ack psh
flags-HasFlags true true true = record {
  is_byte = omega arith;
  is_syn = refl;
  is_ack = refl;
  is_psh = refl;
  is_rst = refl;
}
flags-HasFlags true true false = record {
  is_byte = omega arith;
  is_syn = refl;
  is_ack = refl;
  is_psh = refl;
  is_rst = refl;
}
flags-HasFlags true false true = record {
  is_byte = omega arith;
  is_syn = refl;
  is_ack = refl;
  is_psh = refl;
  is_rst = refl;
}
flags-HasFlags true false false = record {
  is_byte = omega arith;
  is_syn = refl;
  is_ack = refl;
  is_psh = refl;
  is_rst = refl;
}
flags-HasFlags false true true = record {
  is_byte = omega arith;
  is_syn = refl;
  is_ack = refl;
  is_psh = refl;
  is_rst = refl;
}
flags-HasFlags false true false = record {
  is_byte = omega arith;
  is_syn = refl;
  is_ack = refl;
  is_psh = refl;
  is_rst = refl;
}
flags-HasFlags false false true = record {
  is_byte = omega arith;
  is_syn = refl;
  is_ack = refl;
  is_psh = refl;
  is_rst = refl;
}
flags-HasFlags false false false = record {
  is_byte = omega arith;
  is_syn = refl;
  is_ack = refl;
  is_psh = refl;
  is_rst = refl;
}

-- The options carry the timestamps, in both layouts.
parse_options-options_of :
    (p : TcpSendParams) (syn : Bool)
    → p.ts < 2 ^ 32
    → p.ts_ack < 2 ^ 32
    → parse_options (if syn then syn_options p else plain_options p)
      ≡ record { has_ts = true; ts = p.ts; ts_ack = p.ts_ack }
unfolding parse_options options_from next_option write_u16_be write_u32_be
parse_options-options_of p true h k =
    rw
      (
        read_u32_be-write p.ts (write_u32_be p.ts_ack ++ (0x01 ∷ 0x03 ∷ 0x03 ∷ 5 ∷ [])) h,
        read_u32_be-write p.ts_ack (0x01 ∷ 0x03 ∷ 0x03 ∷ 5 ∷ []) k,
      )
      refl
parse_options-options_of p false h k =
    rw (read_u32_be-write p.ts (write_u32_be p.ts_ack) h, read_u32_be-write p.ts_ack [] k) refl

-- The layout of a segment around its checksum.
record IsLaidOut (p : TcpSendParams) (payload : List ℕ) (c : ℕ) : Type 0 where
  whole : length (sealed p payload c) ≡ header_len_of p + length payload
  offset : byte_at (sealed p payload c) 12 / 16 * 4 ≡ header_len_of p
  options : drop 20 (take (header_len_of p) (sealed p payload c)) ≡ options_of p
  rest : drop (header_len_of p) (sealed p payload c) ≡ payload

layout_of :
    (src_port dst_port seq ack_seq : ℕ) (syn ack psh : Bool) (window ts ts_ack : ℕ)
    (payload : List ℕ) (c : ℕ)
    → IsLaidOut
        (record {
          src_port = src_port;
          dst_port = dst_port;
          seq = seq;
          ack_seq = ack_seq;
          syn = syn;
          ack = ack;
          psh = psh;
          window = window;
          ts = ts;
          ts_ack = ts_ack;
        })
        payload
        c
unfolding write_u16_be write_u32_be
layout_of src_port dst_port seq ack_seq true ack psh window ts ts_ack payload c = record {
  whole = omega arith;
  offset = refl;
  options = refl;
  rest = refl;
}
layout_of src_port dst_port seq ack_seq false ack psh window ts ts_ack payload c = record {
  whole = omega arith;
  offset = refl;
  options = refl;
  rest = refl;
}

sealed-IsLaidOut : (p : TcpSendParams) (payload : List ℕ) (c : ℕ) → IsLaidOut p payload c
sealed-IsLaidOut p payload c =
    layout_of p.src_port p.dst_port p.seq p.ack_seq p.syn p.ack p.psh p.window p.ts p.ts_ack payload
      c

header_len_of_range : (p : TcpSendParams) → (20 ≤ header_len_of p) × (header_len_of p ≤ 60)
header_len_of_range p =
    if_cases (λ n. (20 ≤ n) × (n ≤ 60)) p.syn (λ e. omega arith) (λ e. omega arith)

-- A segment whose offset is in range is read whole.
parse_tcp_of :
    (seg : List ℕ) (src dst : IpAddr) (hlen n : ℕ) (pseudo payload : List ℕ) (stamps : Stamps)
    → length seg ≡ hlen + n
    → byte_at seg 12 / 16 * 4 ≡ hlen
    → 20 ≤ hlen
    → hlen ≤ 60
    → pseudo_header src dst ipproto_tcp (length seg) ≡ some pseudo
    → parse_options (drop 20 (take hlen seg)) ≡ stamps
    → drop hlen seg ≡ payload
    → parse_tcp seg src dst
      ≡ parsed
          (record {
            src_port = read_u16_be seg;
            dst_port = read_u16_be (drop 2 seg);
            seq = read_u32_be (drop 4 seg);
            ack_seq = read_u32_be (drop 8 seg);
            syn = has_bit (byte_at seg 13) 2;
            ack = has_bit (byte_at seg 13) 16;
            psh = has_bit (byte_at seg 13) 8;
            rst = has_bit (byte_at seg 13) 4;
            has_ts = stamps.has_ts;
            ts = stamps.ts;
            ts_ack = stamps.ts_ack;
            header_len = hlen;
            csum_ok = verify_with_pseudo pseudo seg;
          })
          payload
unfolding parse_tcp
parse_tcp_of seg src dst hlen n pseudo payload stamps len offset least most e read rest =
    let a : ltb (length seg) 20 ≡ false = ground arith in
    let b : hlen == 0 || ltb 60 hlen || ltb (length seg) hlen ≡ false = ground arith in
    let d : ltb hlen 20 ≡ false = ground arith in rw offset (rw (a, b, e) (rw (read, d, rest) refl))

record AreFields (p : TcpSendParams) (seg : List ℕ) : Type 0 where
  sp : read_u16_be seg ≡ p.src_port
  dp : read_u16_be (drop 2 seg) ≡ p.dst_port
  sq : read_u32_be (drop 4 seg) ≡ p.seq
  ak : read_u32_be (drop 8 seg) ≡ p.ack_seq
  fl : byte_at seg 13 ≡ flags_of p

sealed-AreFields :
    (p : TcpSendParams) (payload : List ℕ) (c : ℕ) → IsTcp p → AreFields p (sealed p payload c)
unfolding write_u16_be write_u32_be read_u16_be read_u32_be
sealed-AreFields p payload c v = record {
  sp = omega (arith, v.src_fits);
  dp = omega (arith, v.dst_fits);
  sq = omega (arith, v.seq_fits);
  ak = omega (arith, v.ack_fits);
  fl = refl;
}

parsed_eq :
    (p : TcpSendParams) (seg pseudo payload : List ℕ)
    → AreFields p seg
    → HasFlags (flags_of p) p.syn p.ack p.psh
    → verify_with_pseudo pseudo seg ≡ true
    → parsed
        (record {
          src_port = read_u16_be seg;
          dst_port = read_u16_be (drop 2 seg);
          seq = read_u32_be (drop 4 seg);
          ack_seq = read_u32_be (drop 8 seg);
          syn = has_bit (byte_at seg 13) 2;
          ack = has_bit (byte_at seg 13) 16;
          psh = has_bit (byte_at seg 13) 8;
          rst = has_bit (byte_at seg 13) 4;
          has_ts = true;
          ts = p.ts;
          ts_ack = p.ts_ack;
          header_len = header_len_of p;
          csum_ok = verify_with_pseudo pseudo seg;
        })
        payload
      ≡ parsed (received p) payload
parsed_eq p seg pseudo payload a f ok =
    simp (a.sp, a.dp, a.sq, a.ak, a.fl, f.is_syn, f.is_ack, f.is_psh, f.is_rst, ok)

-- What the parser makes of a built segment, if it was built.
abbrev pub parsed_back : Option (List ℕ) → IpAddr → IpAddr → TcpResult
parsed_back none src dst = panicked
parsed_back (some seg) src dst = parse_tcp seg src dst

build_tcp_of :
    (src dst : IpAddr) (p : TcpSendParams) (payload pseudo : List ℕ)
    → pseudo_header src dst ipproto_tcp (length (tcp_zeroed p payload)) ≡ some pseudo
    → build_tcp src dst p payload
      ≡ some (sealed p payload (csum_with_pseudo pseudo (tcp_zeroed p payload)))
unfolding build_tcp
build_tcp_of src dst p payload pseudo e =
    rw e (ap some (sealed_lem p (csum_with_pseudo pseudo (tcp_zeroed p payload)) payload))

length-zeroed :
    (p : TcpSendParams) (payload : List ℕ) (c : ℕ)
    → length (sealed p payload c) ≡ length (tcp_zeroed p payload)
unfolding tcp_zeroed write_u16_be write_u32_be
length-zeroed p payload c = refl

sum_before :
    (p : TcpSendParams) (offset : ℕ)
    → offset < 256
    → flags_of p < 256
    → word_sum (
        write_u16_be p.src_port
        ++ (write_u16_be p.dst_port
            ++ (write_u32_be p.seq
                ++ (write_u32_be p.ack_seq ++ (offset ∷ flags_of p ∷ write_u16_be p.window)))))
      < 2 ^ 20
unfolding word_sum write_u16_be write_u32_be
sum_before p offset h k = omega (arith, h, k)

sum_options :
    (p : TcpSendParams) (syn : Bool) (payload : List ℕ)
    → word_sum ((if syn then syn_options p else plain_options p) ++ payload)
      < 2 ^ 20 + word_sum payload
unfolding word_sum write_u16_be write_u32_be
sum_options p true payload = omega arith
sum_options p false payload = omega arith

-- The sum of a segment's words, but for the checksum, which the accumulator holds.
small :
    (p : TcpSendParams) (payload : List ℕ)
    → AreBytes payload
    → length payload ≤ 65535
    → word_sum (before p) + word_sum (0 ∷ 0 ∷ (options_of p ++ payload)) < 5 * 2 ^ 29
small p payload bytes fits =
    let f = flags-HasFlags p.syn p.ack p.psh in
    let start =
      sum_before p (if p.syn then 160 else 128)
        (if_cases (λ n. n < 256) p.syn (λ e. omega arith) (λ e. omega arith)) f.is_byte in
    let options = sum_options p p.syn payload in
    unfold word_sum in omega (arith, start, options, word_sum-le payload bytes, fits)

-- A segment that `build_tcp` builds is read back by `parse_tcp`: the ports, both sequence numbers,
-- the flags, the timestamps, the payload and the header's length, which tells a SYN from the rest;
-- `rst` is off and the checksum is right. The addresses are of one family, the fields fit their
-- bytes, and the payload is bytes, at most 65535 of them.
pub parse_tcp-build_tcp :
    (src dst : IpAddr) (p : TcpSendParams) (payload : List ℕ)
    → IsSameFamily src dst
    → IsTcp p
    → AreBytes payload
    → length payload ≤ 65535
    → parsed_back (build_tcp src dst p payload) src dst ≡ parsed (received p) payload
parse_tcp-build_tcp src dst p payload same v bytes fits =
    let pseudo =
      pseudo_header-HasPseudo src dst ipproto_tcp (length (tcp_zeroed p payload)) (omega arith)
        same in
    let c = csum_with_pseudo pseudo.bytes (tcp_zeroed p payload) in
    let seg = sealed p payload c in
    let laid = sealed-IsLaidOut p payload c in
    let range = header_len_of_range p in
    let verified : verify_with_pseudo pseudo.bytes (sealed p payload c) ≡ true =
      unfold tcp_zeroed write_u16_be write_u32_be in
      pseudo_filled pseudo.bytes (before p) (0 ∷ 0 ∷ (options_of p ++ payload)) pseudo.even refl
        (omega (arith, small p payload bytes fits, pseudo.small)) in
    rw (build_tcp_of src dst p payload pseudo.bytes pseudo.is_built) (
      parse_tcp_of seg src dst (header_len_of p) (length payload) pseudo.bytes payload
        (record { has_ts = true; ts = p.ts; ts_ack = p.ts_ack }) laid.whole laid.offset (range.0)
        (range.1)
        (ap (pseudo_header src dst ipproto_tcp) (length-zeroed p payload c) ∙ pseudo.is_built)
        (ap parse_options laid.options ∙ parse_options-options_of p p.syn v.ts_fits v.ts_ack_fits)
        laid.rest
      ∙ parsed_eq p seg pseudo.bytes payload (sealed-AreFields p payload c v)
          (flags-HasFlags p.syn p.ack p.psh) verified)
