-- ===== src/Packet/Ip/RoundTrip.antt =====
-- src/packet/ip.rs: the IPv4 builder against the parser.
use native.Mathlib.Nat.{zero-add, suc-add}
use udp2raw_rust.Prelude.{
  ℕ, zero, suc, ◌+◌, ◌%◌, ◌^◌, ◌<◌, ◌≡◌, refl, ap, ◌∙◌, Bool, true, false, not, ◌&&◌, ◌||◌, some,
  List, [], ◌∷◌, ◌++◌, arith, ltb, length, take, drop, length-append, take-append, byte_at,
}
use udp2raw_rust.Util.{write_u16_be, write_u32_be, read_u16_be, read_u32_be}
use udp2raw_rust.Packet.Checksum.{csum, verify}
use udp2raw_rust.Packet.Checksum.Laws.{filled, word_sum}
use udp2raw_rust.Packet.Ip.{header4, patch16, payload, parse_ip4, ipv4_header_len, v4}

-- The bytes of the IPv4 header with checksum `c`.
abbrev pub sealed : ℕ → ℕ → ℕ → ℕ → ℕ → ℕ → ℕ → List ℕ
sealed s d protocol ttl id len c =
    0x45
    ∷ 0
    ∷ (write_u16_be ((ipv4_header_len + len) % 2 ^ 16)
        ++ (write_u16_be id
            ++ (write_u16_be 0x4000
                ++ (ttl ∷ protocol ∷ (write_u16_be c ++ (write_u32_be s ++ write_u32_be d))))))

pub sealed_lem :
    (s d protocol ttl id len c : ℕ)
    → patch16 (header4 s d protocol ttl id len) 10 c ≡ sealed s d protocol ttl id len c
unfolding patch16 header4 write_u16_be write_u32_be
sealed_lem s d protocol ttl id len c = refl

sealed_verifies :
    (s d protocol ttl id len : ℕ)
    → ttl < 256
    → protocol < 256
    → verify (sealed s d protocol ttl id len (csum (header4 s d protocol ttl id len))) ≡ true
unfolding header4 write_u16_be write_u32_be
sealed_verifies s d protocol ttl id len p q =
    filled
      (0x45
        ∷ 0
        ∷ (write_u16_be ((ipv4_header_len + len) % 2 ^ 16)
            ++ (write_u16_be id ++ (write_u16_be 0x4000 ++ (ttl ∷ protocol ∷ [])))))
      (write_u32_be s ++ write_u32_be d) refl (unfold word_sum in omega (arith, p, q))

-- The header's fields fit their bytes, and the packet its length field.
pub record IsIpv4 (s d protocol ttl id len : ℕ) : Type 0 where
  pub src_fits : s < 2 ^ 32
  pub dst_fits : d < 2 ^ 32
  pub protocol_fits : protocol < 256
  pub ttl_fits : ttl < 256
  pub id_fits : id < 2 ^ 16
  pub len_fits : ipv4_header_len + len < 2 ^ 16

-- The slice of the middle part of three.
pub slice_between :
    (before body after : List ℕ) (n : ℕ)
    → length before ≡ n
    → drop n (take (n + length body) (before ++ (body ++ after))) ≡ body
slice_between [] body after zero h = rw (zero-add (length body)) (take-append body after)
slice_between [] body after (suc n) h = absurd (omega arith)
slice_between (x ∷ before) body after zero h = absurd (omega arith)
slice_between (x ∷ before) body after (suc n) h =
    rw (suc-add n (length body)) (slice_between before body after n (omega arith))

parse_ip4_of :
    (buf : List ℕ) (n t s d protocol : ℕ) (check : Bool)
    → byte_at buf 0 ≡ 0x45
    → read_u16_be (drop 2 buf) ≡ ipv4_header_len + n
    → length buf ≡ ipv4_header_len + (n + t)
    → verify (take 20 buf) ≡ true
    → read_u32_be (drop 12 buf) ≡ s
    → read_u32_be (drop 16 buf) ≡ d
    → byte_at buf 9 ≡ protocol
    → parse_ip4 buf check
      ≡ some (record {
        src = v4 s;
        dst = v4 d;
        protocol = protocol;
        header_len = 20;
        total_len = ipv4_header_len + n;
      })
unfolding parse_ip4
parse_ip4_of buf n t s d protocol check first len whole sum src dst proto =
    let enough : ltb (length buf) 20 ≡ false = ground arith in
    let held : ltb (length buf) (ipv4_header_len + n) || ltb (ipv4_header_len + n) 20 ≡ false =
      ground arith in
    let ok : check && not true ≡ false = ground arith in
    rw (first, len) (rw (enough, held, sum, ok, src, dst, proto) refl)

module _ (s d protocol ttl id : ℕ) (body : List ℕ) (trailing : List ℕ)
    (v : IsIpv4 s d protocol ttl id (length body)) where
  read_len :
      (c : ℕ)
      → read_u16_be (drop 2 (sealed s d protocol ttl id (length body) c ++ (body ++ trailing)))
        ≡ ipv4_header_len + length body
  unfolding read_u16_be write_u16_be write_u32_be
  read_len c = omega (arith, v.len_fits)

  length-sealed :
      (c : ℕ)
      → length (sealed s d protocol ttl id (length body) c ++ (body ++ trailing))
        ≡ ipv4_header_len + (length body + length trailing)
  unfolding write_u16_be write_u32_be
  length-sealed c = omega (arith, length-append body trailing)

  read_src :
      (c : ℕ)
      → read_u32_be (drop 12 (sealed s d protocol ttl id (length body) c ++ (body ++ trailing))) ≡ s
  unfolding read_u32_be write_u16_be write_u32_be
  read_src c = omega (arith, v.src_fits)

  read_dst :
      (c : ℕ)
      → read_u32_be (drop 16 (sealed s d protocol ttl id (length body) c ++ (body ++ trailing))) ≡ d
  unfolding read_u32_be write_u16_be write_u32_be
  read_dst c = omega (arith, v.dst_fits)

  byte_nine :
      (c : ℕ)
      → byte_at (sealed s d protocol ttl id (length body) c ++ (body ++ trailing)) 9 ≡ protocol
  unfolding write_u16_be
  byte_nine c = refl

  abbrev header : List ℕ
  header =
      sealed s d protocol ttl id (length body) (csum (header4 s d protocol ttl id (length body)))

  take_header :
      (c : ℕ)
      → take 20 (sealed s d protocol ttl id (length body) c ++ (body ++ trailing))
        ≡ sealed s d protocol ttl id (length body) c
  unfolding write_u16_be write_u32_be
  take_header c = refl

  -- The whole of an IPv4 packet that was built is parsed, whatever follows it in the buffer.
  pub parse-header4 :
      (check : Bool)
      → parse_ip4 (header ++ (body ++ trailing)) check
        ≡ some (record {
          src = v4 s;
          dst = v4 d;
          protocol = protocol;
          header_len = 20;
          total_len = ipv4_header_len + length body;
        })
  parse-header4 check =
      let c = csum (header4 s d protocol ttl id (length body)) in
      parse_ip4_of (header ++ (body ++ trailing)) (length body) (length trailing) s d protocol check
        refl (read_len c) (length-sealed c)
        (ap verify (take_header c)
          ∙ sealed_verifies s d protocol ttl id (length body) v.ttl_fits v.protocol_fits)
        (read_src c) (read_dst c) (byte_nine c)

  length-header4 : (c : ℕ) → length (sealed s d protocol ttl id (length body) c) ≡ 20
  unfolding write_u16_be write_u32_be
  length-header4 c = refl

  pub payload-header4 :
      (c : ℕ)
      → payload
          (record {
            src = v4 s;
            dst = v4 d;
            protocol = protocol;
            header_len = 20;
            total_len = ipv4_header_len + length body;
          })
          (sealed s d protocol ttl id (length body) c ++ (body ++ trailing))
        ≡ body
  unfolding payload
  payload-header4 c =
      slice_between (sealed s d protocol ttl id (length body) c) body trailing 20 (length-header4 c)
