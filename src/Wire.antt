-- ===== src/Wire.antt =====
-- src/wire.rs: the framing of bare (handshake) and safer (data, heartbeat) packets, and the packet
-- type bytes of src/consts.rs. `Wire/Gro` has the `--fix-gro` splitting.
pub mod RoundTrip
pub mod Gro
pub mod Tests
use udp2raw_rust.Prelude.{
  ℕ, ◌≤◌, List, [], ◌∷◌, ◌++◌, Option, none, some, ltb, ◌==◌, not, ◌&&◌, if◌then◌else◌, length,
  drop, byte_at,
}
use udp2raw_rust.Util.{write_u32_be, write_u64_be, read_u32_be, read_u64_be}

-- TYPE_HEARTBEAT, TYPE_DATA, BARE_MARKER and the header lengths
abbrev pub type_heartbeat : ℕ
type_heartbeat = b'h'

abbrev pub type_data : ℕ
type_data = b'd'

abbrev pub bare_marker : ℕ
bare_marker = b'b'

abbrev pub bare_header_len : ℕ
bare_header_len = 17

abbrev pub safer_header_len : ℕ
safer_header_len = 18

abbrev pub handshake_len : ℕ
handshake_len = 12

-- `to_ne_bytes` is the platform's: eight bytes in its own order.
unfoldable pub build_bare : (ℕ → List ℕ) → ℕ → ℕ → List ℕ → List ℕ
build_bare to_ne_bytes iv padding payload =
    to_ne_bytes iv ++ (to_ne_bytes padding ++ (bare_marker ∷ payload))

unfoldable pub parse_bare : List ℕ → Option (List ℕ)
parse_bare plain =
    if ltb (length plain) bare_header_len
    then none
    else if not (byte_at plain 16 == bare_marker)
    then none
    else some (drop bare_header_len plain)

unfoldable pub build_handshake : ℕ → ℕ → ℕ → List ℕ
build_handshake id1 id2 id3 = write_u32_be id1 ++ (write_u32_be id2 ++ write_u32_be id3)

unfoldable pub parse_handshake : List ℕ → Option (ℕ × ℕ × ℕ)
parse_handshake bytes =
    if ltb (length bytes) handshake_len
    then none
    else some (read_u32_be bytes, read_u32_be (drop 4 bytes), read_u32_be (drop 8 bytes))

pub record SaferHeader : Type 0 where
  pub my_id : ℕ
  pub oppsite_id : ℕ
  pub seq : ℕ
  pub ptype : ℕ
  pub roller : ℕ

-- `build_safer_into` clears the buffer first, so the result is the new contents; `build_safer` is
-- the same with a new buffer.
unfoldable pub build_safer_into : SaferHeader → List ℕ → List ℕ
build_safer_into h payload =
    write_u32_be h.my_id
    ++ (write_u32_be h.oppsite_id ++ (write_u64_be h.seq ++ (h.ptype ∷ h.roller ∷ payload)))

pub record SaferIds : Type 0 where
  pub oppsite_id : ℕ
  pub my_id : ℕ
  pub seq : ℕ

unfoldable pub parse_safer_ids : List ℕ → Option SaferIds
parse_safer_ids plain =
    if ltb (length plain) 16
    then none
    else some (record {
      oppsite_id = read_u32_be plain;
      my_id = read_u32_be (drop 4 plain);
      seq = read_u64_be (drop 8 plain);
    })

-- (type, roller, payload)
unfoldable pub parse_safer_body : List ℕ → Option (ℕ × ℕ × List ℕ)
parse_safer_body plain =
    if ltb (length plain) safer_header_len
    then none
    else if not (byte_at plain 16 == type_heartbeat) && not (byte_at plain 16 == type_data)
    then none
    else some (byte_at plain 16, byte_at plain 17, drop safer_header_len plain)

unfoldable pub build_data_payload : ℕ → List ℕ → List ℕ
build_data_payload conv bytes = write_u32_be conv ++ bytes

unfoldable pub parse_data_payload : List ℕ → Option (ℕ × List ℕ)
parse_data_payload bytes =
    if ltb (length bytes) 4 then none else some (read_u32_be bytes, drop 4 bytes)
