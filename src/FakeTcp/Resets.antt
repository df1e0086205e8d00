-- ===== src/FakeTcp/Resets.antt =====
-- src/faketcp.rs, `parse_recv`: the count of resets and what it disables.
pub mod OnePacket
use udp2raw_rust.Prelude.{
  ℕ, zero, suc, ◌+◌, ◌-◌, ◌*◌, ◌/◌, ◌%◌, ◌^◌, ◌≤◌, ◌<◌, min, max, bit_and, bit_or, bit_xor, ◌≡◌,
  refl, sym, ap, ap₂, ◌∙◌, subst, ◌≢◌, ◌↔◌, ◌⊎◌, inl, inr, Bool, true, false, not, ◌&&◌, ◌||◌,
  Option, none, some, List, [], ◌∷◌, ◌++◌, map, append-nil, append_assoc, arith, dec_lt, ℕ_discrete,
  ltb, leb, ◌==◌, if◌then◌else◌, ◌>>=◌, ◌>>◌, guard, ltb→lt, lt→ltb, leb→le, ==_iff, ==-refl, tests,
  Bool-cases, Option-cases, IfSome, IfSome-some, IfSome-map, if_cases, zero-bit_xor, differ_bits,
  bit_xor_parts, bit_xor_cancel, zero-bit_or, le-bit_or, bit_xor-lt, bit_xor-eq-zero, bit_xor_self,
  length, set, get_or, take, drop, replicate, length-append, length-set, get_or-set_self,
  get_or-set_ne, length-replicate, get_or-replicate, length-take, length-drop, take-append,
  drop-append, take-append-drop, take_of_length-le, drop-append_past, get_or-append_past,
  get_or-append_before, drop_of_length-le, u64_max, u32_max, sat_add, sat_mul, sat_add32, clamp,
  byte_at, ◌<<<◌, ◌>>>◌, AreBytes, append-AreBytes, take-AreBytes, drop-AreBytes,
  replicate-AreBytes,
}
use udp2raw_rust.Types.{IpAddr, RawMode, fake_tcp, udp, icmp}
use udp2raw_rust.Packet.Ip.{ParsedIp, ipproto_tcp, ipproto_udp, payload, parse_ip, pseudo_header}
use udp2raw_rust.Util.{read_u16_be}
use udp2raw_rust.Packet.Tcp.{
  TcpResult, parsed, panicked, refused, parse_tcp, parse_checked, has_bit, tcp_min_header,
}
use udp2raw_rust.Packet.Udp.{parse_udp}
use udp2raw_rust.Packet.Icmp.{ParsedIcmp, parse_icmp}
use udp2raw_rust.FakeTcp.{PacketInfo, RawInfo, RawCtx, LinkAddr}
use udp2raw_rust.FakeTcp.Recv.{
  recv_bound, Received, crashed, dropped, received, count_rst, exceeds, recv_tcp, recv_udp,
  recv_icmp, recv_in, set_recv, fill_tcp, icmp_protocol, parse_recv, is_bound, same_ip, recv_ip,
}
use udp2raw_rust.FakeTcp.Resets.OnePacket.{state_after, is_reset, IsStep, parse_recv-IsStep}

-- More resets than allowed have come, and never more than allowed where the limit is off.
abbrev pub over : Option ℕ → ℕ → Bool
over none cnt = false
over (some allowed) cnt = ltb allowed cnt

-- How many packets of a stream are resets for this connection.
unfoldable pub resets : RawCtx → List (List ℕ × LinkAddr) → ℕ
unfolding parse_ip parse_tcp payload same_ip read_u16_be
resets c [] = 0
resets c ((buf, ll) ∷ rest) = (if is_reset c buf then 1 else 0) + resets c rest

-- `n` resets have come, and the connection is disabled exactly when they are too many.
pub record IsCounted (allowed : Option ℕ) (n : ℕ) (raw : RawInfo) : Type 0 where
  pub exact : raw.rst_received ≡ n
  pub is_over : raw.disabled ≡ over allowed n

-- The limit is an i32.
abbrev pub IsLimit : Option ℕ → Type 0
IsLimit none = Unit
IsLimit (some allowed) = allowed < 2 ^ 31

one_more :
    (allowed : Option ℕ) (cnt : ℕ)
    → IsLimit allowed
    → cnt + 1 < 2 ^ 32
    → (over allowed cnt || exceeds allowed ((cnt + 1) % 2 ^ 32)) ≡ over allowed (cnt + 1)
one_more none cnt l h = refl
one_more (some allowed) cnt l h = ground arith

step-IsCounted :
    (allowed : Option ℕ) (n : ℕ) (rst : Bool) (before after : RawInfo)
    → IsLimit allowed
    → n + (if rst then 1 else 0) < 2 ^ 32
    → IsCounted allowed n before
    → IsStep allowed rst before after
    → IsCounted allowed (n + (if rst then 1 else 0)) after
step-IsCounted allowed n false before after l h i s = record {
  exact = omega (arith, s.count, i.exact);
  is_over = s.disables ∙ i.is_over ∙ ap (over allowed) (omega arith);
}
step-IsCounted allowed n true before after l h i s = record {
  exact = omega (arith, s.count, i.exact, h);
  is_over =
      s.disables
      ∙ ap₂ (λ b cnt. b || exceeds allowed ((cnt + 1) % 2 ^ 32)) i.is_over i.exact
      ∙ one_more allowed n l h;
}

-- The packets of a stream, each with its link-layer address. A panic leaves no state to speak of, and
-- counts for nothing here.
unfoldable pub receive_all : RawCtx → RawInfo → List (List ℕ × LinkAddr) → RawInfo
unfolding parse_recv
receive_all c raw [] = raw
receive_all c raw ((buf, ll) ∷ rest) =
    receive_all c (state_after raw (parse_recv c raw buf ll)) rest

-- Along every stream, `rst_received` grows by exactly the number of resets in it: the packets that the
-- parsers take as a FakeTCP segment to the bound address and the port of the connection, and whose
-- flag byte has the reset bit. The connection is disabled exactly when more have come than the limit
-- allows, and with no limit never. The count stays below 2^32, the limit below 2^31, and the state
-- before agrees with a count of `n`, as a new one does with 0.
pub receive_all-IsCounted :
    (c : RawCtx) (raw : RawInfo) (n : ℕ) (stream : List (List ℕ × LinkAddr))
    → IsLimit c.max_rst_allowed
    → n + resets c stream < 2 ^ 32
    → IsCounted c.max_rst_allowed n raw
    → IsCounted c.max_rst_allowed (n + resets c stream) (receive_all c raw stream)
unfolding receive_all resets
receive_all-IsCounted c raw n [] l h i = record {
  exact = omega (arith, i.exact);
  is_over = i.is_over ∙ ap (over c.max_rst_allowed) (omega arith);
}
receive_all-IsCounted c raw n ((buf, ll) ∷ rest) l h i =
    let rst = is_reset c buf in
    let one : ℕ = if rst then 1 else 0 in
    let next = state_after raw (parse_recv c raw buf ll) in
    let after = receive_all-IsCounted c next (n + one) rest l (omega (arith, h)) (
      step-IsCounted c.max_rst_allowed n rst raw next l (omega (arith, h)) i
        (parse_recv-IsStep c raw buf ll)) in
    let sum : n + one + resets c rest ≡ n + (one + resets c rest) = omega arith in
    record { exact = after.exact ∙ sum; is_over = after.is_over ∙ ap (over c.max_rst_allowed) sum }
