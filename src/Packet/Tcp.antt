-- ===== src/Packet/Tcp.antt =====
-- src/packet/tcp.rs: FakeTCP segments.
pub mod Options
pub mod RoundTrip
pub mod Panics
use udp2raw_rust.Prelude.{
  ℕ, zero, suc, ◌+◌, ◌-◌, ◌*◌, ◌/◌, ◌%◌, ◌^◌, ◌≤◌, ◌<◌, min, max, bit_and, bit_or, bit_xor, ◌≡◌,
  refl, sym, ap, ap₂, ◌∙◌, subst, ◌≢◌, ◌↔◌, ◌⊎◌, inl, inr, Bool, true, false, not, ◌&&◌, ◌||◌,
  Option, none, some, List, [], ◌∷◌, ◌++◌, map, append-nil, append_assoc, arith, dec_lt, ℕ_discrete,
  ltb, leb, ◌==◌, if◌then◌else◌, ◌>>=◌, ◌>>◌, guard, ltb→lt, lt→ltb, leb→le, ==_iff, ==-refl, tests,
  Bool-cases, Option-cases, IfSome, IfSome-some, IfSome-map, if_cases, zero-bit_xor, differ_bits,
  bit_xor_parts, bit_xor_cancel, zero-bit_or, le-bit_or, bit_xor-lt, bit_xor-eq-zero, bit_xor_self,
  length, set, get_or, take, drop, replicate, length-append, length-set, get_or-set_self,
  get_or-set_ne, length-replicate, get_or-replicate, length-take, length-drop, take-append,
  drop-append, take-append-drop, take_of_length-le, drop-append_past, get_or-append_past,
  get_or-append_before, drop_of_length-le, u64_max, u32_max, sat_add, sat_mul, sat_add32, clamp,
  byte_at, ◌<<<◌, ◌>>>◌, AreBytes, append-AreBytes, take-AreBytes, drop-AreBytes,
  replicate-AreBytes,
}
use udp2raw_rust.Types.{IpAddr}
use udp2raw_rust.Util.{write_u16_be, write_u32_be, read_u16_be, read_u32_be}
use udp2raw_rust.Packet.Checksum.{csum_with_pseudo, verify_with_pseudo}
use udp2raw_rust.Packet.Ip.{pseudo_header, ipproto_tcp, patch16}

abbrev pub tcp_min_header : ℕ
tcp_min_header = 20

-- SYN_MSS and WSCALE of src/consts.rs
abbrev pub syn_mss : ℕ
syn_mss = 1460

abbrev pub wscale : ℕ
wscale = 5

pub record TcpSendParams : Type 0 where
  pub src_port : ℕ
  pub dst_port : ℕ
  pub seq : ℕ
  pub ack_seq : ℕ
  pub syn : Bool
  pub ack : Bool
  pub psh : Bool
  pub window : ℕ
  pub ts : ℕ
  pub ts_ack : ℕ

abbrev pub bit : Bool → ℕ → ℕ
bit true v = v
bit false v = 0

-- The three flags are different bits, so `|=` adds.
abbrev pub flags_of : TcpSendParams → ℕ
flags_of p = bit p.syn 0x02 + bit p.psh 0x08 + bit p.ack 0x10

abbrev pub syn_options : TcpSendParams → List ℕ
syn_options p =
    0x02
    ∷ 0x04
    ∷ (write_u16_be syn_mss
        ++ (0x04
            ∷ 0x02
            ∷ 0x08
            ∷ 0x0a
            ∷ (write_u32_be p.ts ++ (write_u32_be p.ts_ack ++ (0x01 ∷ 0x03 ∷ 0x03 ∷ wscale ∷ [])))))

abbrev pub plain_options : TcpSendParams → List ℕ
plain_options p = 0x01 ∷ 0x01 ∷ 0x08 ∷ 0x0a ∷ (write_u32_be p.ts ++ write_u32_be p.ts_ack)

-- The segment with its checksum still zero.
unfoldable pub tcp_zeroed : TcpSendParams → List ℕ → List ℕ
unfolding write_u16_be write_u32_be
tcp_zeroed p payload =
    write_u16_be p.src_port
    ++ (write_u16_be p.dst_port
        ++ (write_u32_be p.seq
            ++ (write_u32_be p.ack_seq
                ++ ((if p.syn then 160 else 128)
                    ∷ flags_of p
                    ∷ (write_u16_be p.window
                        ++ (0
                            ∷ 0
                            ∷ 0
                            ∷ 0
                            ∷ ((if p.syn then syn_options p else plain_options p) ++ payload)))))))

unfoldable pub build_tcp : IpAddr → IpAddr → TcpSendParams → List ℕ → Option (List ℕ)
unfolding tcp_zeroed pseudo_header patch16 csum_with_pseudo
build_tcp src dst p payload =
    let seg = tcp_zeroed p payload in
    pseudo_header src dst ipproto_tcp (length seg) >>= λ pseudo.
    some (patch16 seg 16 (csum_with_pseudo pseudo seg))

pub record ParsedTcp : Type 0 where
  pub src_port : ℕ
  pub dst_port : ℕ
  pub seq : ℕ
  pub ack_seq : ℕ
  pub syn : Bool
  pub ack : Bool
  pub psh : Bool
  pub rst : Bool
  pub has_ts : Bool
  pub ts : ℕ
  pub ts_ack : ℕ
  pub header_len : ℕ
  pub csum_ok : Bool

-- What the options set: (has_ts, ts, ts_ack).
pub record Stamps : Type 0 where
  pub has_ts : Bool
  pub ts : ℕ
  pub ts_ack : ℕ

-- What one round of the loop leaves: the result, or the options that follow.
pub data Round : Type 0 where
  stop : Stamps → Round
  more : Stamps → List ℕ → Round

-- The match at an option, which stands first in the list.
unfoldable pub next_option : Stamps → ℕ → List ℕ → Round
unfolding read_u32_be
next_option s kind rest =
    let opt = kind ∷ rest in
    if kind == 0
    then stop s
    else if kind == 1
    then more s rest
    else if kind == 8
    then (if leb (length opt) 1 || not (byte_at opt 1 == 10) || ltb (length opt) 10
        then stop s
        else more
            (record {
              has_ts = true;
              ts = read_u32_be (drop 2 opt);
              ts_ack = read_u32_be (drop 6 opt);
            })
            (drop 10 opt))
    else if leb (length opt) 1
    then stop s
    else if leb (byte_at opt 1) 1
    then stop s
    else more s (drop (byte_at opt 1) opt)

abbrev pub onward : (Stamps → List ℕ → Stamps) → Round → Stamps
onward loop (stop s) = s
onward loop (more s opt) = loop s opt

-- The loop from the option that stands first in the list. Each round drops at least one byte, so the
-- number of bytes is enough fuel; a length beyond the end leaves nothing, as `i >= opt.len()` does.
unfoldable pub options_from : ℕ → Stamps → List ℕ → Stamps
unfolding next_option
options_from zero s opt = s
options_from (suc fuel) s [] = s
options_from (suc fuel) s (kind ∷ rest) = onward (options_from fuel) (next_option s kind rest)

-- `out` starts from the defaults, as `parse_tcp` passes it.
unfoldable pub parse_options : List ℕ → Stamps
unfolding options_from
parse_options opt = options_from (length opt) (record { has_ts = false; ts = 0; ts_ack = 0 }) opt

-- Bit `k` of a byte.
abbrev pub has_bit : ℕ → ℕ → Bool
has_bit flags v = flags / v % 2 == 1

-- The result of `parse_tcp`: the slice `&seg[TCP_MIN_HEADER..hlen]` panics where `hlen` is below 20,
-- and `refused` is `None`. Mixed address families panic in `pseudo_header`.
pub data TcpResult : Type 0 where
  panicked refused : TcpResult
  parsed : ParsedTcp → List ℕ → TcpResult

-- The part after the length checks, with the pseudo header of the addresses.
abbrev pub parse_checked : List ℕ → ℕ → Option (List ℕ) → TcpResult
parse_checked seg hlen none = panicked
parse_checked seg hlen (some pseudo) =
    let flags = byte_at seg 13 in
    let stamps = parse_options (drop tcp_min_header (take hlen seg)) in
    if ltb hlen tcp_min_header
    then panicked
    else parsed
        (record {
          src_port = read_u16_be seg;
          dst_port = read_u16_be (drop 2 seg);
          seq = read_u32_be (drop 4 seg);
          ack_seq = read_u32_be (drop 8 seg);
          syn = has_bit flags 2;
          ack = has_bit flags 16;
          psh = has_bit flags 8;
          rst = has_bit flags 4;
          has_ts = stamps.has_ts;
          ts = stamps.ts;
          ts_ack = stamps.ts_ack;
          header_len = hlen;
          csum_ok = verify_with_pseudo pseudo seg;
        })
        (drop hlen seg)

unfoldable pub parse_tcp : List ℕ → IpAddr → IpAddr → TcpResult
unfolding read_u16_be read_u32_be pseudo_header verify_with_pseudo parse_options
parse_tcp seg src dst =
    let hlen = byte_at seg 12 / 16 * 4 in
    if ltb (length seg) tcp_min_header
    then refused
    else if hlen == 0 || ltb 60 hlen || ltb (length seg) hlen
    then refused
    else parse_checked seg hlen (pseudo_header src dst ipproto_tcp (length seg))
