-- ===== src/FakeTcp.antt =====
-- src/faketcp.rs: the state of a raw connection.
pub mod Send
pub mod Recv
pub mod Window
pub mod Resets
pub mod Tests
use udp2raw_rust.Prelude.{
  ℕ, zero, suc, ◌+◌, ◌-◌, ◌*◌, ◌/◌, ◌%◌, ◌^◌, ◌≤◌, ◌<◌, min, max, bit_and, bit_or, bit_xor, ◌≡◌,
  refl, sym, ap, ap₂, ◌∙◌, subst, ◌≢◌, ◌↔◌, ◌⊎◌, inl, inr, Bool, true, false, not, ◌&&◌, ◌||◌,
  Option, none, some, List, [], ◌∷◌, ◌++◌, map, append-nil, append_assoc, arith, dec_lt, ℕ_discrete,
  ltb, leb, ◌==◌, if◌then◌else◌, ◌>>=◌, ◌>>◌, guard, ltb→lt, lt→ltb, leb→le, ==_iff, ==-refl, tests,
  Bool-cases, Option-cases, IfSome, IfSome-some, IfSome-map, if_cases, zero-bit_xor, differ_bits,
  bit_xor_parts, bit_xor_cancel, zero-bit_or, le-bit_or, bit_xor-lt, bit_xor-eq-zero, bit_xor_self,
  length, set, get_or, take, drop, replicate, length-append, length-set, get_or-set_self,
  get_or-set_ne, length-replicate, get_or-replicate, length-take, length-drop, take-append,
  drop-append, take-append-drop, take_of_length-le, drop-append_past, get_or-append_past,
  get_or-append_before, drop_of_length-le, u64_max, u32_max, sat_add, sat_mul, sat_add32, clamp,
  byte_at, ◌<<<◌, ◌>>>◌, AreBytes, append-AreBytes, take-AreBytes, drop-AreBytes,
  replicate-AreBytes,
}
use udp2raw_rust.Types.{IpAddr, v4, v6, RawMode, fake_tcp, udp, icmp}

-- A link-layer address, which is only stored and copied, by its number.
abbrev pub LinkAddr : Type 0
LinkAddr = ℕ

pub record PacketInfo : Type 0 where
  pub src_ip : IpAddr
  pub dst_ip : IpAddr
  pub src_port : ℕ
  pub dst_port : ℕ
  pub syn : Bool
  pub ack : Bool
  pub psh : Bool
  pub rst : Bool
  pub seq : ℕ
  pub ack_seq : ℕ
  pub ack_seq_counter : ℕ
  pub ts : ℕ
  pub ts_ack : ℕ
  pub has_ts : Bool
  pub icmp_seq : ℕ
  pub data_len : ℕ
  pub addr_ll : LinkAddr

abbrev is_fake_tcp : RawMode → Bool
is_fake_tcp fake_tcp = true
is_fake_tcp udp = false
is_fake_tcp icmp = false

-- The random numbers `a` and `s` are drawn for FakeTCP.
unfoldable pub new_info : RawMode → Bool → ℕ → ℕ → PacketInfo
new_info raw_mode is_v6 a s =
    let unspec = if is_v6 then v6 0 else v4 0 in
    let tcp = is_fake_tcp raw_mode in
    record {
      src_ip = unspec;
      dst_ip = unspec;
      src_port = 0;
      dst_port = 0;
      syn = false;
      ack = tcp;
      psh = false;
      rst = false;
      seq = if tcp then s else 0;
      ack_seq = if tcp then a else 0;
      ack_seq_counter = 0;
      ts = 0;
      ts_ack = 0;
      has_ts = false;
      icmp_seq = 0;
      data_len = 0;
      addr_ll = 0;
    }

-- `rst_received` is an i32, by its bit pattern.
pub record RawInfo : Type 0 where
  pub send_info : PacketInfo
  pub recv_info : PacketInfo
  pub reserved_send_seq : ℕ
  pub rst_received : ℕ
  pub disabled : Bool

-- The random numbers are those of the two ends, in their order.
unfoldable pub new : RawMode → Bool → ℕ → ℕ → ℕ → ℕ → RawInfo
unfolding new_info
new raw_mode is_v6 a s b t = record {
  send_info = new_info raw_mode is_v6 a s;
  recv_info = new_info raw_mode is_v6 b t;
  reserved_send_seq = 0;
  rst_received = 0;
  disabled = false;
}

pub record RecvMeta : Type 0 where
  pub syn : Bool
  pub ack : Bool
  pub seq : ℕ
  pub data_len : ℕ
  pub has_ts : Bool
  pub ts : ℕ
  pub icmp_seq : ℕ

unfoldable pub from_recv : PacketInfo → RecvMeta
from_recv r = record {
  syn = r.syn;
  ack = r.ack;
  seq = r.seq;
  data_len = r.data_len;
  has_ts = r.has_ts;
  ts = r.ts;
  icmp_seq = r.icmp_seq;
}

pub data TxDst : Type 0 where
  l2 : LinkAddr → TxDst
  ip : IpAddr → TxDst

pub record TxPacket : Type 0 where
  pub buf : List ℕ
  pub dst : TxDst

-- The fields that the operations read or write. `max_rst_allowed` is `none` where it is negative.
-- Buffers that are only reused are left out.
pub record RawCtx : Type 0 where
  pub raw_mode : RawMode
  pub is_v6 : Bool
  pub is_client : Bool
  pub seq_mode : ℕ
  pub ttl : ℕ
  pub random_drop : ℕ
  pub filter_port : ℕ
  pub bind_addr : Option IpAddr
  pub lower_level : Bool
  pub max_rst_allowed : Option ℕ
  pub ip_id_counter : ℕ
  pub tx_queue : List TxPacket
  pub tx_dropped : ℕ
