-- ===== src/Crypto/Auth.antt =====
-- src/crypto/auth.rs: the tag appended to a packet and its check. MD5, HMAC-SHA1 and CRC-32 are the
-- `md5`, `sha1` and `crc32fast` crates', parameters here; `simple_hash` is the program's own.
pub mod Laws
use udp2raw_rust.Prelude.{
  ℕ, zero, suc, ◌+◌, ◌-◌, ◌*◌, ◌/◌, ◌%◌, ◌^◌, ◌≤◌, ◌<◌, min, max, bit_and, bit_or, bit_xor, ◌≡◌,
  refl, sym, ap, ap₂, ◌∙◌, subst, ◌≢◌, ◌↔◌, ◌⊎◌, inl, inr, Bool, true, false, not, ◌&&◌, ◌||◌,
  Option, none, some, List, [], ◌∷◌, ◌++◌, map, append-nil, append_assoc, arith, dec_lt, ℕ_discrete,
  ltb, leb, ◌==◌, if◌then◌else◌, ◌>>=◌, ◌>>◌, guard, ltb→lt, lt→ltb, leb→le, ==_iff, ==-refl, tests,
  Bool-cases, Option-cases, zero-bit_xor, differ_bits, bit_xor_parts, bit_xor_cancel, zero-bit_or,
  le-bit_or, bit_xor-lt, bit_xor-eq-zero, bit_xor_self, length, set, get_or, take, drop, replicate,
  length-append, length-set, get_or-set_self, get_or-set_ne, length-replicate, get_or-replicate,
  length-take, length-drop, take-append, drop-append, take-append-drop, take_of_length-le,
  drop-append_past, get_or-append_past, get_or-append_before, byte_at, ◌<<<◌, ◌>>>◌, AreBytes,
  append-AreBytes, take-AreBytes, drop-AreBytes, replicate-AreBytes,
}
use udp2raw_rust.Util.{write_u32_be, ct_eq}

-- `no_auth` is the source's `None`.
pub data AuthMode : Type 0 where
  no_auth md5 crc32 simple hmac_sha1 : AuthMode

pub record Hashes : Type 0 where
  pub md5 : List ℕ → List ℕ
  pub crc32 : List ℕ → ℕ
  -- key, then message
  pub hmac_sha1 : List ℕ → List ℕ → List ℕ

abbrev pub tag_len : AuthMode → ℕ
tag_len no_auth = 0
tag_len md5 = 16
tag_len crc32 = 4
tag_len simple = 8
tag_len hmac_sha1 = 20

-- One round of each of the two 32-bit hashes; `wrapping_sub` adds the modulus first.
unfoldable pub simple_step : ℕ → ℕ → ℕ
simple_step hash c = bit_xor ((hash * 32 + hash) % 2 ^ 32) c

unfoldable pub simple_step2 : ℕ → ℕ → ℕ
simple_step2 hash2 c =
    (c + hash2 * 2 ^ 6 % 2 ^ 32 + hash2 * 2 ^ 16 % 2 ^ 32 + 2 ^ 32 - hash2) % 2 ^ 32

unfoldable pub simple_from : ℕ → ℕ → List ℕ → List ℕ
simple_from hash hash2 [] = write_u32_be hash ++ write_u32_be hash2
simple_from hash hash2 (c ∷ cs) = simple_from (simple_step hash c) (simple_step2 hash2 c) cs

unfoldable pub simple_hash : List ℕ → List ℕ
unfolding simple_from simple_step simple_step2
simple_hash bytes = simple_from 5381 0 bytes

-- `Authenticator`: only the first 20 bytes of the HMAC key are used.
pub record Authenticator : Type 0 where
  pub mode : AuthMode
  pub key : List ℕ

module _ (hash : Hashes) where
  unfoldable pub new_authenticator : AuthMode → List ℕ → Authenticator
  new_authenticator mode hmac_key = record { mode = mode; key = take 20 hmac_key }

  abbrev pub tag_of : AuthMode → List ℕ → List ℕ → List ℕ
  tag_of no_auth key body = []
  tag_of md5 key body = hash.md5 body
  tag_of crc32 key body = write_u32_be (hash.crc32 body)
  tag_of simple key body = simple_hash body
  tag_of hmac_sha1 key body = hash.hmac_sha1 key body

  unfoldable pub append_tag : Authenticator → List ℕ → List ℕ
  append_tag a buf = buf ++ tag_of a.mode a.key buf

  abbrev pub tag_ok : AuthMode → List ℕ → List ℕ → List ℕ → Bool
  tag_ok no_auth key body tag = true
  tag_ok mode key body tag = ct_eq (tag_of mode key body) tag

  unfoldable pub verify : Authenticator → List ℕ → Option ℕ
  verify a bytes =
      let tl = tag_len a.mode in
      if ltb (length bytes) tl
      then none
      else (let body = take (length bytes - tl) bytes in
          let tag = drop (length bytes - tl) bytes in
          if tag_ok a.mode a.key body tag then some (length body) else none)
