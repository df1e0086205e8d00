-- ===== src/Util/Tests.antt =====
-- The theorems of src/util.rs at concrete inputs.
use udp2raw_rust.Prelude.{ℕ, ◌+◌, ◌%◌, ◌^◌, ◌≡◌, ◌↔◌, true, false, some, List, [], ◌∷◌, arith}
use udp2raw_rust.Util.{ct_eq, larger_than_u32}
use udp2raw_rust.Util.Compare.{ct_eq_iff}
use udp2raw_rust.Util.Hex.{hex, unhex, unhex-hex}
use udp2raw_rust.Util.Pool.{new, takes, recycles, handed_out, AreReady, handed_out-AreReady}
use udp2raw_rust.Util.Serial.{larger_than_u32_add}

abbrev token : List ℕ
token = 1 ∷ 2 ∷ []

abbrev forged : List ℕ
forged = 1 ∷ 3 ∷ []

ct_eq_iff_example : (ct_eq token forged ≡ true) ↔ (token ≡ forged)
ct_eq_iff_example = ct_eq_iff token forged

larger_than_u32_add_example :
    (larger_than_u32 ((4294967295 + 5) % 2 ^ 32) 4294967295 ≡ true)
    × (larger_than_u32 4294967295 ((4294967295 + 5) % 2 ^ 32) ≡ false)
larger_than_u32_add_example =
    larger_than_u32_add 4294967295 5 (omega arith) (omega arith) (omega arith)

unhex-hex_example : unhex (hex (0 ∷ 1 ∷ 0xab ∷ 0xff ∷ [])) ≡ some (0 ∷ 1 ∷ 0xab ∷ 0xff ∷ [])
unhex-hex_example = unhex-hex (0 ∷ 1 ∷ 0xab ∷ 0xff ∷ []) (omega arith)

handed_out-AreReady_example :
    AreReady
      (λ n. n)
      2048
      (handed_out
        (λ n. n)
        (new 2048 4)
        (takes ∷ recycles (record { bytes = 7 ∷ []; capacity = 4096 }) ∷ takes ∷ []))
handed_out-AreReady_example =
    handed_out-AreReady (λ n. n) 2048 4
      (takes ∷ recycles (record { bytes = 7 ∷ []; capacity = 4096 }) ∷ takes ∷ []) (omega arith)
