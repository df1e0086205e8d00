-- ===== src/Wire/RoundTrip.antt =====
-- src/wire.rs: the builders against the parsers, and for safer packets the parsers against the
-- builder.
use udp2raw_rust.Prelude.{
  ℕ, ◌^◌, ◌<◌, ◌≡◌, ◌⊎◌, ◌≢◌, List, ◌∷◌, ◌++◌, none, some, arith, length, AreBytes, length-append,
  drop-append_past, get_or-append_past,
}
use udp2raw_rust.Util.{write_u32_be, write_u64_be, read_u32_be}
use udp2raw_rust.Util.ByteOrder.{
  read_u32_be-write, read_u64_be-write, write_u32_be-read, write_u64_be-read,
}
use udp2raw_rust.Wire.{
  type_heartbeat, type_data, bare_marker, build_bare, parse_bare, build_handshake, parse_handshake,
  SaferHeader, SaferIds, build_safer_into, parse_safer_ids, parse_safer_body, build_data_payload,
  parse_data_payload,
}

-- The fields fit their words on the wire.
pub record IsWireHeader (h : SaferHeader) : Type 0 where
  pub my_id_fits : h.my_id < 2 ^ 32
  pub oppsite_id_fits : h.oppsite_id < 2 ^ 32
  pub seq_fits : h.seq < 2 ^ 64

-- The ids and the sequence number of a built safer packet are read back, the ids from the
-- receiver's side: its `oppsite_id` is the sender's `my_id`.
pub parse_safer_ids-build :
    (h : SaferHeader) (payload : List ℕ)
    → IsWireHeader h
    → parse_safer_ids (build_safer_into h payload)
      ≡ some (record { oppsite_id = h.my_id; my_id = h.oppsite_id; seq = h.seq })
unfolding parse_safer_ids build_safer_into write_u32_be write_u64_be
parse_safer_ids-build h payload v = ground (
  arith,
  read_u32_be-write h.my_id
      (write_u32_be h.oppsite_id ++ (write_u64_be h.seq ++ (h.ptype ∷ h.roller ∷ payload))),
  read_u32_be-write h.oppsite_id (write_u64_be h.seq ++ (h.ptype ∷ h.roller ∷ payload)),
  read_u64_be-write h.seq (h.ptype ∷ h.roller ∷ payload),
)

pub parse_safer_body-build :
    (h : SaferHeader) (payload : List ℕ)
    → (h.ptype ≡ type_heartbeat) ⊎ (h.ptype ≡ type_data)
    → parse_safer_body (build_safer_into h payload) ≡ some (h.ptype, h.roller, payload)
unfolding parse_safer_body build_safer_into write_u32_be write_u64_be
parse_safer_body-build h payload v = ground arith

pub parse_safer_body-build_other :
    (h : SaferHeader) (payload : List ℕ)
    → h.ptype ≢ type_heartbeat
    → h.ptype ≢ type_data
    → parse_safer_body (build_safer_into h payload) ≡ none
unfolding parse_safer_body build_safer_into write_u32_be write_u64_be
parse_safer_body-build_other h payload v w = ground arith

-- A safer packet of a known type is read back whole: the ids from the receiver's side, the sequence
-- number, the type, the roller and the payload.
pub parse_safer-build :
    (h : SaferHeader) (payload : List ℕ)
    → IsWireHeader h
    → (h.ptype ≡ type_heartbeat) ⊎ (h.ptype ≡ type_data)
    → (parse_safer_ids (build_safer_into h payload)
        ≡ some (record { oppsite_id = h.my_id; my_id = h.oppsite_id; seq = h.seq }))
      × (parse_safer_body (build_safer_into h payload) ≡ some (h.ptype, h.roller, payload))
parse_safer-build h payload v known =
    (parse_safer_ids-build h payload v, parse_safer_body-build h payload known)

-- The three words of a handshake are read back.
pub parse_handshake-build :
    (id1 id2 id3 : ℕ)
    → id1 < 2 ^ 32
    → id2 < 2 ^ 32
    → id3 < 2 ^ 32
    → parse_handshake (build_handshake id1 id2 id3) ≡ some (id1, id2, id3)
unfolding parse_handshake build_handshake write_u32_be read_u32_be
parse_handshake-build id1 id2 id3 p q r = ground arith

-- The conversation id and the bytes of a data payload are read back.
pub parse_data_payload-build :
    (conv : ℕ) (bytes : List ℕ)
    → conv < 2 ^ 32
    → parse_data_payload (build_data_payload conv bytes) ≡ some (conv, bytes)
unfolding parse_data_payload build_data_payload write_u32_be read_u32_be
parse_data_payload-build conv bytes h = ground arith

parse_bare-lists :
    (x y payload : List ℕ)
    → length x ≡ 8
    → length y ≡ 8
    → parse_bare (x ++ (y ++ (bare_marker ∷ payload))) ≡ some payload
unfolding parse_bare
parse_bare-lists x y payload p q = ground (
  arith,
  length-append x (y ++ (bare_marker ∷ payload)),
  length-append y (bare_marker ∷ payload),
  drop-append_past x (y ++ (bare_marker ∷ payload)) 17,
  drop-append_past y (bare_marker ∷ payload) 9,
  get_or-append_past x (y ++ (bare_marker ∷ payload)) 16 0,
  get_or-append_past y (bare_marker ∷ payload) 8 0,
)

-- The payload of a bare packet is read back, whatever the two nonces are.
pub parse_bare-build :
    (to_ne_bytes : ℕ → List ℕ) (iv padding : ℕ) (payload : List ℕ)
    → ((v : ℕ) → length (to_ne_bytes v) ≡ 8)
    → parse_bare (build_bare to_ne_bytes iv padding payload) ≡ some payload
unfolding build_bare
parse_bare-build to_ne_bytes iv padding payload eight =
    parse_bare-lists (to_ne_bytes iv) (to_ne_bytes padding) payload (eight iv) (eight padding)

-- A safer packet of bytes that the two parsers accept is the packet that `build_safer_into` makes
-- of what they return: nothing of it is ignored, and no other header reads the same.
pub build-parse_safer :
    (plain : List ℕ) (ids : SaferIds) (ptype roller : ℕ) (payload : List ℕ)
    → AreBytes plain
    → parse_safer_ids plain ≡ some ids
    → parse_safer_body plain ≡ some (ptype, roller, payload)
    → build_safer_into
        (record {
          my_id = ids.oppsite_id;
          oppsite_id = ids.my_id;
          seq = ids.seq;
          ptype = ptype;
          roller = roller;
        })
        payload
      ≡ plain
unfolding parse_safer_ids parse_safer_body build_safer_into
build-parse_safer (a ∷ b ∷ c ∷ d ∷ e ∷ f ∷ g ∷ h ∷ i ∷ j ∷ k ∷ l ∷ m ∷ n ∷ o ∷ p ∷ q ∷ r ∷ rest) ids
      ptype roller payload bytes hi hb =
    ground (
      arith,
      write_u32_be-read a b c d (e ∷ f ∷ g ∷ h ∷ i ∷ j ∷ k ∷ l ∷ m ∷ n ∷ o ∷ p ∷ q ∷ r ∷ rest),
      write_u32_be-read e f g h (i ∷ j ∷ k ∷ l ∷ m ∷ n ∷ o ∷ p ∷ q ∷ r ∷ rest),
      write_u64_be-read i j k l m n o p (q ∷ r ∷ rest),
    )
build-parse_safer _ ids ptype roller payload bytes hi hb = ground arith
