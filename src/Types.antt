-- ===== src/Types.antt =====
-- src/types.rs: the small shared enums, and the addresses of the standard library as numbers.
use udp2raw_rust.Prelude.{ℕ, Bool, true, false, Option, none, some, if◌then◌else◌}

-- An IPv4 or IPv6 address, by its number.
pub data IpAddr : Type 0 where
  v4 v6 : ℕ → IpAddr

pub data RawMode : Type 0 where
  fake_tcp udp icmp : RawMode

pub data Syscalls : Type 0 where
  auto mmsg single : Syscalls

-- The rule of `Auto`; the reason is left out.
unfoldable pub decide : Bool → Option Bool → Syscalls
decide true sw_pan = mmsg
decide false (some false) = mmsg
decide false (some true) = single
decide false none = single

-- `lse` is what `cpu_has_lse` finds, and `sw_pan` what `kernel_sw_pan` reads.
unfoldable pub resolve : Syscalls → Bool → Option Bool → Syscalls
unfolding decide
resolve auto lse sw_pan = decide lse (if lse then none else sw_pan)
resolve mmsg lse sw_pan = mmsg
resolve single lse sw_pan = single
