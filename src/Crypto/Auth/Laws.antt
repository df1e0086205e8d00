-- ===== src/Crypto/Auth/Laws.antt =====
-- src/crypto/auth.rs: the tag of a packet, appended and checked.
use udp2raw_rust.Prelude.{
  ℕ, ◌+◌, ◌-◌, ◌≤◌, ◌≡◌, refl, sym, true, false, some, List, [], ◌∷◌, ◌++◌, arith, ltb, if_cases,
  length, take, drop, length-append, length-take, length-drop, take-append, drop-append,
  take-append-drop, AreBytes, append-AreBytes,
}
use udp2raw_rust.Util.{write_u32_be}
use udp2raw_rust.Util.ByteOrder.{write_u32_be-AreBytes}
use udp2raw_rust.Util.Compare.{ct_eq_iff}
use udp2raw_rust.Crypto.Auth.{
  AuthMode, no_auth, md5, crc32, simple, hmac_sha1, Hashes, Authenticator, tag_len, tag_of,
  append_tag, verify, tag_ok, simple_hash, simple_from,
}

length-simple_from : (bytes : List ℕ) (h h2 : ℕ) → length (simple_from h h2 bytes) ≡ 8
unfolding simple_from write_u32_be
length-simple_from [] h h2 = refl
length-simple_from (c ∷ cs) h h2 = length-simple_from cs _ _

simple_from-AreBytes : (bytes : List ℕ) (h h2 : ℕ) → AreBytes (simple_from h h2 bytes)
unfolding simple_from
simple_from-AreBytes [] h h2 =
    append-AreBytes (write_u32_be h) (write_u32_be h2) (write_u32_be-AreBytes h)
      (write_u32_be-AreBytes h2)
simple_from-AreBytes (c ∷ cs) h h2 = simple_from-AreBytes cs _ _

tag_ok_sound :
    (hash : Hashes) (mode : AuthMode) (key body tag : List ℕ)
    → length tag ≡ tag_len mode
    → tag_ok hash mode key body tag ≡ true
    → tag ≡ tag_of hash mode key body
tag_ok_sound hash no_auth key body [] len h = refl
tag_ok_sound hash no_auth key body (x ∷ tag) len h = absurd (omega (arith, len))
tag_ok_sound hash mode key body tag len h = sym ((ct_eq_iff _ _).0 h)

-- A packet that `verify` accepts is the body it returns the length of, followed by the tag that
-- `append_tag` puts behind that body: no packet with another tag is accepted.
pub append_tag-verify :
    (hash : Hashes) (a : Authenticator) (bytes : List ℕ) (n : ℕ)
    → verify hash a bytes ≡ some n
    → append_tag hash a (take n bytes) ≡ bytes
unfolding verify append_tag
append_tag-verify hash a bytes n =
    if_cases (λ r. r ≡ some n → append_tag hash a (take n bytes) ≡ bytes)
      (ltb (length bytes) (tag_len a.mode)) (λ short h. absurd (cc))
      (λ long.
        let at = length bytes - tag_len a.mode in
        let body = take at bytes in
        let tag = drop at bytes in
        if_cases (λ r. r ≡ some n → append_tag hash a (take n bytes) ≡ bytes)
          (tag_ok hash a.mode a.key body tag)
          (λ ok h.
            let room : tag_len a.mode ≤ length bytes = ground arith in
            let same : length body ≡ at = omega (arith, length-take at bytes, room) in
            let whole : n ≡ at = cc in
            let sized : length tag ≡ tag_len a.mode = omega (arith, length-drop at bytes, room) in
            rw (whole, ← tag_ok_sound hash a.mode a.key body tag sized ok)
              (take-append-drop at bytes))
          (λ bad h. absurd (cc)))

-- The digests are bytes, of the documented lengths.
pub record AreDigests (hash : Hashes) : Type 0 where
  pub md5-AreBytes : (m : List ℕ) → AreBytes (hash.md5 m)
  pub length_md5 : (m : List ℕ) → length (hash.md5 m) ≡ 16
  pub length_hmac : (k m : List ℕ) → length (hash.hmac_sha1 k m) ≡ 20
  pub hmac-AreBytes : (k m : List ℕ) → AreBytes (hash.hmac_sha1 k m)

module _ (hash : Hashes) (law : AreDigests hash) where
  pub length-tag_of :
      (mode : AuthMode) (key body : List ℕ) → length (tag_of hash mode key body) ≡ tag_len mode
  unfolding simple_hash write_u32_be
  length-tag_of no_auth key body = refl
  length-tag_of md5 key body = law.length_md5 body
  length-tag_of crc32 key body = refl
  length-tag_of simple key body = length-simple_from body 5381 0
  length-tag_of hmac_sha1 key body = law.length_hmac key body

  pub tag_of-AreBytes : (mode : AuthMode) (key body : List ℕ) → AreBytes (tag_of hash mode key body)
  unfolding simple_hash
  tag_of-AreBytes no_auth key body = tt
  tag_of-AreBytes md5 key body = law.md5-AreBytes body
  tag_of-AreBytes crc32 key body = write_u32_be-AreBytes (hash.crc32 body)
  tag_of-AreBytes simple key body = simple_from-AreBytes body 5381 0
  tag_of-AreBytes hmac_sha1 key body = law.hmac-AreBytes key body

  pub tag_ok_self :
      (mode : AuthMode) (key body : List ℕ)
      → tag_ok hash mode key body (tag_of hash mode key body) ≡ true
  tag_ok_self no_auth key body = refl
  tag_ok_self mode key body = (ct_eq_iff _ _).1 refl

  -- The tag of a packet is checked over the packet's body, which is what stands before the tag.
  pub verify-append_tag :
      (a : Authenticator) (buf : List ℕ)
      → (verify hash a (append_tag hash a buf) ≡ some (length buf))
        × (take (length buf) (append_tag hash a buf) ≡ buf)
        × (length (append_tag hash a buf) ≡ length buf + tag_len a.mode)
  unfolding verify append_tag
  verify-append_tag a buf =
      let tag = tag_of hash a.mode a.key buf in
      let sized = length-tag_of a.mode a.key buf in
      let whole : length (buf ++ tag) ≡ length buf + tag_len a.mode =
        omega (arith, length-append buf tag, sized) in
      let back : length buf + tag_len a.mode - tag_len a.mode ≡ length buf = omega arith in
      let enough : ltb (length buf + tag_len a.mode) (tag_len a.mode) ≡ false = ground arith in
      (
        rw (
          whole,
          back,
          enough,
          take-append buf tag,
          drop-append buf tag,
          tag_ok_self a.mode a.key buf,
        ),
        take-append buf tag,
        whole,
      )

  pub append_tag-AreBytes :
      (a : Authenticator) (buf : List ℕ) → AreBytes buf → AreBytes (append_tag hash a buf)
  unfolding append_tag
  append_tag-AreBytes a buf h = append-AreBytes buf _ h (tag_of-AreBytes a.mode a.key buf)
