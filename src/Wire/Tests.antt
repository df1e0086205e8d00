-- ===== src/Wire/Tests.antt =====
-- The theorems of src/wire.rs at concrete inputs.
use udp2raw_rust.Prelude.{
  ℕ, ◌+◌, ◌%◌, ◌^◌, ◌≡◌, refl, inr, true, false, some, List, [], ◌∷◌, arith, replicate,
  length-replicate,
}
use udp2raw_rust.Crypto.{Crypto, derive, with_backend}
use udp2raw_rust.Crypto.Cipher.{xor}
use udp2raw_rust.Crypto.Auth.{simple}
use udp2raw_rust.Crypto.Head.{IsHeadPaired}
use udp2raw_rust.Crypto.RoundTrip.{engine}
use udp2raw_rust.Crypto.Tests.{test_primitives, test_aes-IsBlockCipher}
use udp2raw_rust.Util.{read_u32_be, read_u64_be}
use udp2raw_rust.Wire.{
  SaferHeader, build_bare, parse_bare, build_safer_into, parse_safer_ids, parse_safer_body,
  build_handshake, parse_handshake, build_data_payload, parse_data_payload, type_data,
}
use udp2raw_rust.Wire.RoundTrip.{
  parse_safer-build, build-parse_safer, parse_bare-build, parse_handshake-build,
  parse_data_payload-build,
}
use udp2raw_rust.Wire.Gro.{slices, gro_unwrap, merged, gro_unwrap-merged}

abbrev client : Crypto
client = engine test_primitives xor simple false (112 ∷ 119 ∷ []) true

abbrev server : Crypto
server = engine test_primitives xor simple false (112 ∷ 119 ∷ []) false

-- The test cipher is the same for every key.
abbrev client_ecb : List ℕ
client_ecb = []

client-IsHeadPaired : IsHeadPaired client server
unfolding derive with_backend
client-IsHeadPaired = record {
  mode = refl;
  gro_xor = refl;
  ecb = refl;
  ecb_law = test_aes-IsBlockCipher client_ecb;
}

abbrev burst : List (List ℕ)
burst =
    (1 ∷ 2 ∷ 3 ∷ 4 ∷ 5 ∷ 6 ∷ 7 ∷ 8 ∷ 9 ∷ 10 ∷ 11 ∷ 12 ∷ 13 ∷ 14 ∷ [])
    ∷ (9 ∷ 8 ∷ 7 ∷ 6 ∷ 5 ∷ 4 ∷ 3 ∷ 2 ∷ 1 ∷ 0 ∷ 1 ∷ 2 ∷ 3 ∷ 4 ∷ 5 ∷ 255 ∷ [])
    ∷ []

gro_unwrap-merged_example :
    slices (gro_unwrap server (merged client burst)).0 (gro_unwrap server (merged client burst)).1
    ≡ burst
gro_unwrap-merged_example =
    gro_unwrap-merged client-IsHeadPaired burst
      (ground arith, omega arith, omega arith, (ground arith, omega arith, omega arith, tt))

abbrev header : SaferHeader
header = record {
  my_id = 305419896;
  oppsite_id = 7;
  seq = 2 ^ 40 + 1;
  ptype = type_data;
  roller = 3;
}

abbrev payload : List ℕ
payload = 0 ∷ 0 ∷ 0 ∷ 9 ∷ 104 ∷ 105 ∷ []

parse_safer-build_example :
    (parse_safer_ids (build_safer_into header payload)
      ≡ some (record { oppsite_id = 305419896; my_id = 7; seq = 2 ^ 40 + 1 }))
    × (parse_safer_body (build_safer_into header payload) ≡ some (type_data, 3, payload))
parse_safer-build_example =
    parse_safer-build header payload
      (record { my_id_fits = omega arith; oppsite_id_fits = omega arith; seq_fits = omega arith })
      (inr refl)

abbrev plain : List ℕ
plain = 0 ∷ 0 ∷ 0 ∷ 9 ∷ 0 ∷ 0 ∷ 0 ∷ 7 ∷ 0 ∷ 0 ∷ 0 ∷ 0 ∷ 0 ∷ 0 ∷ 1 ∷ 2 ∷ type_data ∷ 3 ∷ payload

build-parse_safer_example :
    build_safer_into
      (record { my_id = 9; oppsite_id = 7; seq = 258; ptype = type_data; roller = 3 })
      payload
    ≡ plain
unfolding parse_safer_ids parse_safer_body read_u32_be read_u64_be
build-parse_safer_example =
    build-parse_safer plain (record { oppsite_id = 9; my_id = 7; seq = 258 }) type_data 3 payload
      (ground arith) refl refl

parse_bare-build_example :
    parse_bare (build_bare (λ v. replicate 8 (v % 256)) 77 1234 payload) ≡ some payload
parse_bare-build_example =
    parse_bare-build (λ v. replicate 8 (v % 256)) 77 1234 payload
      (λ v. length-replicate {A = ℕ} 8 (v % 256))

parse_handshake-build_example :
    parse_handshake (build_handshake 4294967295 0 256) ≡ some (4294967295, 0, 256)
parse_handshake-build_example =
    parse_handshake-build 4294967295 0 256 (omega arith) (omega arith) (omega arith)

parse_data_payload-build_example :
    parse_data_payload (build_data_payload 4294967295 payload) ≡ some (4294967295, payload)
parse_data_payload-build_example = parse_data_payload-build 4294967295 payload (omega arith)
