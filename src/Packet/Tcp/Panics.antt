-- ===== src/Packet/Tcp/Panics.antt =====
-- src/packet/tcp.rs, `parse_tcp`: the slice that may panic.
use udp2raw_rust.Prelude.{
  ℕ, ◌*◌, ◌/◌, ◌≡◌, refl, ◌∙◌, inl, inr, Bool, true, false, ◌&&◌, ◌||◌, some, List, arith, ltb, leb,
  ◌==◌, Bool-cases, if_cases, length, byte_at,
}
use udp2raw_rust.Types.{IpAddr}
use udp2raw_rust.Packet.Ip.{ipproto_tcp}
use udp2raw_rust.Packet.Pseudo.{IsSameFamily, pseudo_header-HasPseudo}
use udp2raw_rust.Packet.Tcp.{TcpResult, parsed, panicked, refused, parse_tcp, parse_checked}

abbrev pub panics : TcpResult → Bool
panics panicked = true
panics refused = false
panics (parsed t payload) = false

-- The length that the segment's offset field gives.
abbrev pub offset_of : List ℕ → ℕ
offset_of seg = byte_at seg 12 / 16 * 4

-- The segments whose offset field gives a length below the fixed header's, but not 0.
abbrev pub short_offset : List ℕ → Bool
short_offset seg = leb 20 (length seg) && ltb 0 (offset_of seg) && ltb (offset_of seg) 20

checked_panics :
    (seg : List ℕ) (hlen : ℕ) (pseudo : List ℕ)
    → panics (parse_checked seg hlen (some pseudo)) ≡ ltb hlen 20
checked_panics seg hlen pseudo = elim (Bool-cases (ltb hlen 20)) [
  | inl e ↦ rw e refl
  | inr e ↦ rw e refl
]

-- Between addresses of one family, `parse_tcp` panics on a segment exactly when the segment has the
-- 20 bytes of a header and its offset field gives a length above 0 and below 20. The offset field is
-- the sender's, so a peer chooses it.
pub panics-parse_tcp :
    (seg : List ℕ) (src dst : IpAddr)
    → IsSameFamily src dst
    → panics (parse_tcp seg src dst) ≡ short_offset seg
unfolding parse_tcp
panics-parse_tcp seg src dst same =
    let pseudo = pseudo_header-HasPseudo src dst ipproto_tcp (length seg) (omega arith) same in
    let hlen = offset_of seg in
    rw pseudo.is_built (
      if_cases (λ r. panics r ≡ short_offset seg) (ltb (length seg) 20) (λ e. ground arith)
        (λ e.
          if_cases (λ r. panics r ≡ short_offset seg)
            (hlen == 0 || ltb 60 hlen || ltb (length seg) hlen) (λ f. ground arith)
            (λ f. checked_panics seg hlen pseudo.bytes ∙ ground arith)))
