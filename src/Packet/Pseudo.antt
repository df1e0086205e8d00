-- ===== src/Packet/Pseudo.antt =====
-- The pseudo header of two addresses of one family.
use udp2raw_rust.Prelude.{ℕ, ◌%◌, ◌^◌, ◌<◌, ◌≡◌, refl, some, List, [], ◌∷◌, ◌++◌, arith, length}
use udp2raw_rust.Types.{IpAddr, v4, v6}
use udp2raw_rust.Util.{write_u16_be, write_u32_be, write_u64_be}
use udp2raw_rust.Packet.Checksum.Laws.{word_sum}
use udp2raw_rust.Packet.Ip.{pseudo_header, octets6}

abbrev pub IsSameFamily : IpAddr → IpAddr → Type 0
IsSameFamily (v4 s) (v4 d) = Unit
IsSameFamily (v6 s) (v6 d) = Unit
IsSameFamily (v4 s) (v6 d) = ⊥
IsSameFamily (v6 s) (v4 d) = ⊥

-- Its bytes are of even length, and their sum is small.
pub record HasPseudo (src dst : IpAddr) (protocol len : ℕ) : Type 0 where
  pub bytes : List ℕ
  pub is_built : pseudo_header src dst protocol len ≡ some bytes
  pub even : length bytes % 2 ≡ 0
  pub small : word_sum bytes < 2 ^ 21

pub pseudo_header-HasPseudo :
    (src dst : IpAddr) (protocol len : ℕ)
    → protocol < 256
    → IsSameFamily src dst
    → HasPseudo src dst protocol len
unfolding pseudo_header write_u16_be write_u32_be octets6 write_u64_be word_sum
pseudo_header-HasPseudo (v4 s) (v4 d) protocol len h same = record {
  bytes = write_u32_be s ++ (write_u32_be d ++ (0 ∷ protocol ∷ write_u16_be (len % 2 ^ 16)));
  is_built = refl;
  even = refl;
  small = omega (arith, h);
}
pseudo_header-HasPseudo (v6 s) (v6 d) protocol len h same = record {
  bytes =
      octets6 s
      ++ (octets6 d ++ (write_u16_be (len % 2 ^ 16) ++ (0 ∷ 0 ∷ 0 ∷ 0 ∷ 0 ∷ protocol ∷ [])));
  is_built = refl;
  even = refl;
  small = omega (arith, h);
}
pseudo_header-HasPseudo (v4 s) (v6 d) protocol len h same = elim same [ ]
pseudo_header-HasPseudo (v6 s) (v4 d) protocol len h same = elim same [ ]
