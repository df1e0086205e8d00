-- ===== src/Conn/Delivery.antt =====
-- src/conn.rs: a safer packet from the sender's connection to the receiver's.
use udp2raw_rust.Prelude.{
  ℕ, ◌+◌, ◌≤◌, ◌<◌, ◌≡◌, refl, sym, ap, ◌∙◌, subst, ◌⊎◌, inl, inr, Bool, true, false, not, ◌||◌,
  Option, none, some, List, [], ◌∷◌, arith, ◌==◌, Bool-cases, if_cases, length, AreBytes,
  append-AreBytes,
}
use udp2raw_rust.AntiReplay.{AntiReplay, is_valid, next_seq_for_send}
use udp2raw_rust.AntiReplay.History.{Tracks, is_valid-Tracks, is_valid-new, record_seen}
use udp2raw_rust.FakeTcp.{RawCtx, RecvMeta}
use udp2raw_rust.Crypto.{Primitives, Crypto, encrypt, decrypt, nonce_len}
use udp2raw_rust.Crypto.Auth.{AuthMode}
use udp2raw_rust.Crypto.Cipher.{CipherMode}
use udp2raw_rust.Crypto.RoundTrip.{IsSound, engine, decrypt-encrypt}
use udp2raw_rust.Util.{write_u32_be, write_u64_be}
use udp2raw_rust.Util.ByteOrder.{write_u32_be-AreBytes, write_u64_be-AreBytes}
use udp2raw_rust.Wire.{SaferHeader, build_safer_into, type_heartbeat, type_data}
use udp2raw_rust.Wire.RoundTrip.{IsWireHeader, parse_safer_ids-build, parse_safer_body-build}
use udp2raw_rust.Conn.{
  ConnInfo, prepare_safer, turn_roller, count_roller, accept_body, accept_safer, push_accepted,
  accept_all, encrypt_safer, decrypt_safer, note_recv, recv_safer_inline,
}

-- The header that the sender's next packet has.
abbrev pub next_header : ConnInfo → ℕ → SaferHeader
next_header s ptype = record {
  my_id = s.my_id;
  oppsite_id = s.oppsite_id;
  seq = s.anti_replay.next_send_seq;
  ptype = ptype;
  roller = s.my_roller;
}

-- The receiver's side of the sender's connection.
pub record IsPeer (s r : ConnInfo) : Type 0 where
  pub mine : r.my_id ≡ s.oppsite_id
  pub theirs : r.oppsite_id ≡ s.my_id

-- A number that the filter let through is not let through again.
is_valid_again :
    {from : ℕ} {seen : List ℕ} {a : AntiReplay} (t : Tracks from seen a) (seq : ℕ)
    → (is_valid a seq).0 ≡ true
    → (is_valid (is_valid a seq).1 seq).0 ≡ false
is_valid_again {from} {seen} {a} t seq ok =
    elim (Bool-cases ((is_valid (is_valid a seq).1 seq).0)) [
      | inl again ↦
          let fresh = is_valid-new (is_valid-Tracks t seq) seq again in
          absurd (unfold record_seen in ground (arith, rw ok at fresh))
      | inr no_more ↦ no_more
    ]

-- The same ids and the same filter.
record IsSame (i j : ConnInfo) : Type 0 where
  me : j.my_id ≡ i.my_id
  them : j.oppsite_id ≡ i.oppsite_id
  filter : j.anti_replay ≡ i.anti_replay

count_roller-IsSame :
    (i j : ConnInfo) (hb_mode ptype : ℕ) → IsSame i j → IsSame i (count_roller hb_mode ptype j)
count_roller-IsSame i j hb_mode ptype k =
    if_cases (IsSame i) (hb_mode == 0 || ptype == type_heartbeat)
      (λ e. record { me = k.me; them = k.them; filter = k.filter }) (λ e. k)

turn_roller-IsSame : (i : ConnInfo) (roller now : ℕ) → IsSame i (turn_roller i roller now)
turn_roller-IsSame i roller now =
    if_cases (IsSame i) (not (roller == i.oppsite_roller))
      (λ e. record { me = refl; them = refl; filter = refl })
      (λ e. record { me = refl; them = refl; filter = refl })

note_recv-IsSame :
    (p : Primitives) (i : ConnInfo) (ctx : RawCtx) (meta : RecvMeta)
    (r : List (ℕ × List ℕ) × ConnInfo)
    → IsSame i (r.1)
    → IsSame i ((note_recv p ctx meta r).1)
note_recv-IsSame p i ctx meta ([], info) k = k
note_recv-IsSame p i ctx meta (x ∷ out, info) k = record {
  me = k.me;
  them = k.them;
  filter = k.filter;
}

note_recv_kept :
    (p : Primitives) (ctx : RawCtx) (meta : RecvMeta) (r : List (ℕ × List ℕ) × ConnInfo)
    → (note_recv p ctx meta r).0 ≡ r.0
note_recv_kept p ctx meta ([], info) = refl
note_recv_kept p ctx meta (x ∷ out, info) = refl

accept_fresh :
    (s r : ConnInfo) (ptype : ℕ) (payload : List ℕ) (hb_mode now : ℕ)
    → IsPeer s r
    → IsWireHeader (next_header s ptype)
    → (ptype ≡ type_heartbeat) ⊎ (ptype ≡ type_data)
    → (is_valid r.anti_replay s.anti_replay.next_send_seq).0 ≡ true
    → accept_safer r (build_safer_into (next_header s ptype) payload) hb_mode now
      ≡ accept_body
          (record r { anti_replay = (is_valid r.anti_replay s.anti_replay.next_send_seq).1 })
          hb_mode
          now
          (some (ptype, s.my_roller, payload))
unfolding accept_safer
accept_fresh s r ptype payload hb_mode now peer fits known fresh =
    let ids : not (s.my_id == r.oppsite_id) || not (s.oppsite_id == r.my_id) ≡ false =
      ground (arith, peer.mine, peer.theirs) in
    rw (parse_safer_ids-build (next_header s ptype) payload fits)
      (rw ids (rw fresh (rw (parse_safer_body-build (next_header s ptype) payload known) refl)))

accept_stale :
    (s r : ConnInfo) (ptype : ℕ) (payload : List ℕ) (hb_mode now : ℕ)
    → IsPeer s r
    → IsWireHeader (next_header s ptype)
    → (is_valid r.anti_replay s.anti_replay.next_send_seq).0 ≡ false
    → (accept_safer r (build_safer_into (next_header s ptype) payload) hb_mode now).0 ≡ none
unfolding accept_safer
accept_stale s r ptype payload hb_mode now peer fits stale =
    let ids : not (s.my_id == r.oppsite_id) || not (s.oppsite_id == r.my_id) ≡ false =
      ground (arith, peer.mine, peer.theirs) in
    rw (parse_safer_ids-build (next_header s ptype) payload fits) (rw ids (rw stale refl))

-- What arrives twice is received twice: what each time gives.
abbrev pub received_twice :
    Primitives
    → RawCtx
    → Crypto
    → ConnInfo
    → ℕ
    → ℕ
    → RecvMeta
    → Option (List ℕ)
    → Option (List (ℕ × List ℕ) × List (ℕ × List ℕ))
received_twice p ctx crypto r hb_mode now meta none = none
received_twice p ctx crypto r hb_mode now meta (some wire) =
    let first = recv_safer_inline p ctx crypto r wire false hb_mode now meta in
    some (first.0, (recv_safer_inline p ctx crypto (first.1) wire false hb_mode now meta).0)

module _ (p : Primitives) (ctx : RawCtx) (rx : Crypto) (hb_mode now : ℕ) (meta : RecvMeta)
    (wire plain : List ℕ) (opens : decrypt p rx wire ≡ some plain) where
  received_eq :
      (r : ConnInfo)
      → recv_safer_inline p ctx rx r wire false hb_mode now meta
        ≡ note_recv p ctx meta (
          push_accepted ((accept_safer r plain hb_mode now).0) [],
          (accept_safer r plain hb_mode now).1,
        )
  unfolding recv_safer_inline decrypt_safer accept_all
  received_eq r = rw opens refl

  twice_eq :
      (r next : ConnInfo) (x : ℕ × List ℕ)
      → accept_safer r plain hb_mode now ≡ (some x, next)
      → ((r' : ConnInfo) → IsSame next r' → (accept_safer r' plain hb_mode now).0 ≡ none)
      → received_twice p ctx rx r hb_mode now meta (some wire) ≡ some (x ∷ [], [])
  twice_eq r next x first second =
      let e : recv_safer_inline p ctx rx r wire false hb_mode now meta
          ≡ note_recv p ctx meta (x ∷ [], next) =
        received_eq r ∙ ap (λ a. note_recv p ctx meta (push_accepted (a.0) [], a.1)) first in
      let r' : ConnInfo = (note_recv p ctx meta (x ∷ [], next)).1 in
      let again : (recv_safer_inline p ctx rx r' wire false hb_mode now meta).0 ≡ [] =
        ap (λ a. a.0) (received_eq r')
        ∙ note_recv_kept p ctx meta (
          push_accepted ((accept_safer r' plain hb_mode now).0) [],
          (accept_safer r' plain hb_mode now).1,
        )
        ∙ ap (λ a. push_accepted a [])
            (second r' (
              note_recv-IsSame p next ctx meta (x ∷ [], next)
                (record { me = refl; them = refl; filter = refl }))) in
      rw e (rw again refl)

build_safer_into-AreBytes :
    (h : SaferHeader) (payload : List ℕ)
    → h.ptype < 256
    → h.roller < 256
    → AreBytes payload
    → AreBytes (build_safer_into h payload)
unfolding build_safer_into
build_safer_into-AreBytes h payload t r bytes =
    append-AreBytes (write_u32_be h.my_id) _ (write_u32_be-AreBytes h.my_id) (
      append-AreBytes (write_u32_be h.oppsite_id) _ (write_u32_be-AreBytes h.oppsite_id)
        (append-AreBytes (write_u64_be h.seq) _ (write_u64_be-AreBytes h.seq) (t, (r, bytes))))

length-build_safer_into :
    (h : SaferHeader) (payload : List ℕ) → length (build_safer_into h payload) ≡ 18 + length payload
unfolding build_safer_into write_u32_be write_u64_be
length-build_safer_into h payload = omega arith

-- What the sender makes of the packet, where it is delivered.
encrypt_safer_of :
    (p : Primitives) (tx : Crypto) (nonce plain wire : List ℕ)
    → encrypt p tx nonce plain ≡ some wire
    → encrypt_safer p tx nonce plain false ≡ some wire
unfolding encrypt_safer
encrypt_safer_of p tx nonce plain wire e = rw e refl

-- A packet that one end prepares and encrypts, in any cipher and authentication mode, is received by
-- the other end under the same password with its type and payload; when it arrives a second time it
-- gives nothing. `--fix-gro` is off, the nonce has its length, the ends have each other's ids, the
-- fields fit their bytes, the type is a data or a heartbeat packet, the payload is bytes, at most
-- 1742 of them, the receiver's filter is enabled and lets the sender's next number through, and the
-- primitives are sound.
pub recv_safer_once :
    (p : Primitives) (sound : IsSound p) (mode : CipherMode) (wanted : AuthMode) (legacy : Bool)
    (password : List ℕ) (is_client : Bool) (s r : ConnInfo) (ptype : ℕ) (payload nonce : List ℕ)
    (ctx : RawCtx) (hb_mode now : ℕ) (meta : RecvMeta) (from : ℕ) (seen : List ℕ)
    → length nonce ≡ nonce_len
    → AreBytes payload
    → length payload ≤ 1742
    → IsPeer s r
    → IsWireHeader (next_header s ptype)
    → s.my_roller < 256
    → (ptype ≡ type_heartbeat) ⊎ (ptype ≡ type_data)
    → Tracks from seen r.anti_replay
    → (is_valid r.anti_replay s.anti_replay.next_send_seq).0 ≡ true
    → received_twice p ctx
        (engine p mode wanted legacy password (not is_client))
        r
        hb_mode
        now
        meta
        (encrypt_safer p
          (engine p mode wanted legacy password is_client)
          nonce
          ((prepare_safer s ptype payload).0)
          false)
      ≡ some ((ptype, payload) ∷ [], [])
unfolding prepare_safer next_seq_for_send
recv_safer_once p sound mode wanted legacy password is_client s r ptype payload nonce ctx hb_mode
      now meta from seen fresh_nonce bytes short peer fits roller known t fresh =
    let h = next_header s ptype in
    let plain = build_safer_into h payload in
    let len = length-build_safer_into h payload in
    let is_byte : ptype < 256 = elim known [
      | inl e ↦ omega (arith, e)
      | inr e ↦ omega (arith, e)
    ] in
    let delivered =
      decrypt-encrypt p sound wanted legacy password nonce plain fresh_nonce
        (build_safer_into-AreBytes h payload is_byte roller bytes) (omega (arith, len))
        (omega (arith, len, short)) mode is_client in
    let filtered : ConnInfo = record r {
      anti_replay = (is_valid r.anti_replay s.anti_replay.next_send_seq).1;
    } in
    let next : ConnInfo = count_roller hb_mode ptype (turn_roller filtered s.my_roller now) in
    let same =
      count_roller-IsSame filtered (turn_roller filtered s.my_roller now) hb_mode ptype
        (turn_roller-IsSame filtered s.my_roller now) in
    rw
      (encrypt_safer_of p (engine p mode wanted legacy password is_client) nonce plain delivered.0
        delivered.1)
      (twice_eq p ctx (engine p mode wanted legacy password (not is_client)) hb_mode now meta
        delivered.0 plain delivered.2 r next (ptype, payload)
        (accept_fresh s r ptype payload hb_mode now peer fits known fresh)
        (λ r' k.
          accept_stale s r' ptype payload hb_mode now
            (record {
              mine = k.me ∙ same.me ∙ peer.mine;
              theirs = k.them ∙ same.them ∙ peer.theirs;
            })
            fits
            (subst (λ f. (is_valid f s.anti_replay.next_send_seq).0 ≡ false)
              (sym (k.filter ∙ same.filter)) (is_valid_again t s.anti_replay.next_send_seq fresh))))
