-- ===== src/Conn.antt =====
-- src/conn.rs: the state of a connection, and its bare and safer packets. Random numbers, the clock and
-- what the kernel takes are arguments.
pub mod Delivery
pub mod Tests
use udp2raw_rust.Prelude.{
  ℕ, ◌+◌, ◌%◌, ◌^◌, Bool, false, not, ◌&&◌, ◌||◌, Option, none, some, List, [], ◌∷◌, ◌++◌, ltb,
  ◌==◌, if◌then◌else◌, ◌>>=◌, length,
}
use udp2raw_rust.AntiReplay.{AntiReplay, re_init, next_seq_for_send, is_valid}
use udp2raw_rust.AntiReplay as Filter
use udp2raw_rust.Crypto.{Primitives, Crypto, encrypt, decrypt, max_data_len}
use udp2raw_rust.FakeTcp.{RawCtx, RawInfo, RecvMeta}
use udp2raw_rust.FakeTcp as Raw
use udp2raw_rust.FakeTcp.Send.{send_raw, after_send}
use udp2raw_rust.FakeTcp.Recv.{after_recv}
use udp2raw_rust.Util.{write_u32_be}
use udp2raw_rust.Wire as Wire
use udp2raw_rust.Wire.{
  SaferHeader, SaferIds, build_bare, build_handshake, build_safer_into, parse_safer_ids,
  parse_safer_body, type_heartbeat, type_data, safer_header_len,
}
use udp2raw_rust.Wire.Gro.{gro_wrap, gro_unwrap, slices}

pub record ConnInfo : Type 0 where
  pub raw : RawInfo
  pub last_state_time : ℕ
  pub last_hb_sent_time : ℕ
  pub last_hb_recv_time : ℕ
  pub my_id : ℕ
  pub oppsite_id : ℕ
  pub oppsite_const_id : ℕ
  pub my_roller : ℕ
  pub oppsite_roller : ℕ
  pub last_oppsite_roller_time : ℕ
  pub anti_replay : AntiReplay

-- `raw` and `filter` are what `RawInfo::new` and `AntiReplay::new` return.
unfoldable pub new : RawInfo → AntiReplay → ConnInfo
new raw filter = record {
  raw = raw;
  last_state_time = 0;
  last_hb_sent_time = 0;
  last_hb_recv_time = 0;
  my_id = 0;
  oppsite_id = 0;
  oppsite_const_id = 0;
  my_roller = 0;
  oppsite_roller = 0;
  last_oppsite_roller_time = 0;
  anti_replay = filter;
}

unfoldable pub recover_from : ConnInfo → ConnInfo → ConnInfo
unfolding re_init
recover_from info other = record info {
  raw = record other.raw { rst_received = 0; disabled = false };
  last_state_time = other.last_state_time;
  last_hb_recv_time = other.last_hb_recv_time;
  last_hb_sent_time = other.last_hb_sent_time;
  my_id = other.my_id;
  oppsite_id = other.oppsite_id;
  anti_replay = re_init info.anti_replay;
  my_roller = 0;
  oppsite_roller = 0;
  last_oppsite_roller_time = 0;
}

-- What a call of `send_raw` and `after_send` takes from outside: three random numbers, the time, and
-- how much of a full queue the kernel takes.
pub record Outside : Type 0 where
  pub drop_roll : ℕ
  pub window_roll : ℕ
  pub seq_roll : ℕ
  pub now : ℕ
  pub accepted : ℕ

-- A panic, an error, or the new states.
pub data Sent {ℓ} (S : Type ℓ) : Type ℓ where
  crashed : Sent S
  failed : S → Sent S
  sent : RawCtx → S → Sent S

abbrev pub sent_raw : Option (RawCtx × RawInfo) → Sent RawInfo
sent_raw none = crashed
sent_raw (some (c, r)) = sent c r

abbrev pub send_wire : RawCtx → RawInfo → Outside → Option (List ℕ) → Sent RawInfo
send_wire ctx raw o none = failed raw
send_wire ctx raw o (some wire) =
    sent_raw (send_raw ctx raw wire o.drop_roll o.window_roll o.now o.accepted)

-- `send_raw`, then `after_send`.
unfoldable pub transmit_safer : RawCtx → RawInfo → List ℕ → Outside → Sent RawInfo
unfolding send_raw after_send
transmit_safer ctx raw wire o = sent_raw (
    send_raw ctx raw wire o.drop_roll o.window_roll o.now o.accepted >>= λ r.
    some (r.0, after_send (r.0) (r.1) o.seq_roll))

unfoldable pub prepare_safer : ConnInfo → ℕ → List ℕ → List ℕ × ConnInfo
unfolding next_seq_for_send build_safer_into
prepare_safer info ptype payload =
    let next = next_seq_for_send info.anti_replay in
    let h : SaferHeader = record {
      my_id = info.my_id;
      oppsite_id = info.oppsite_id;
      seq = next.0;
      ptype = ptype;
      roller = info.my_roller;
    } in
    (build_safer_into h payload, record info { anti_replay = next.1 })

unfoldable pub prepare_safer_data : ConnInfo → ℕ → List ℕ → List ℕ × ConnInfo
unfolding prepare_safer write_u32_be
prepare_safer_data info conv bytes =
    let prepared = prepare_safer info type_data [] in
    (prepared.0 ++ (write_u32_be conv ++ bytes), prepared.1)

abbrev pub with_raw : ConnInfo → Sent RawInfo → Sent ConnInfo
with_raw info crashed = crashed
with_raw info (failed raw) = failed (record info { raw = raw })
with_raw info (sent ctx raw) = sent ctx (record info { raw = raw })

abbrev pub turn_roller : ConnInfo → ℕ → ℕ → ConnInfo
turn_roller info roller now =
    if not (roller == info.oppsite_roller)
    then record info { oppsite_roller = roller; last_oppsite_roller_time = now }
    else info

abbrev pub count_roller : ℕ → ℕ → ConnInfo → ConnInfo
count_roller hb_mode ptype info =
    if hb_mode == 0 || ptype == type_heartbeat
    then record info { my_roller = (info.my_roller + 1) % 2 ^ 8 }
    else info

-- The type, the roller and the payload of a packet that the filter let through.
abbrev pub accept_body : ConnInfo → ℕ → ℕ → Option (ℕ × ℕ × List ℕ) → Option (ℕ × List ℕ) × ConnInfo
accept_body info hb_mode now none = (none, info)
accept_body info hb_mode now (some (ptype, roller, payload)) =
    (some (ptype, payload), count_roller hb_mode ptype (turn_roller info roller now))

abbrev pub accept_verdict :
    ConnInfo → List ℕ → ℕ → ℕ → Bool × AntiReplay → Option (ℕ × List ℕ) × ConnInfo
accept_verdict info plain hb_mode now (ok, filter) =
    let filtered : ConnInfo = record info { anti_replay = filter } in
    if not ok then (none, filtered) else accept_body filtered hb_mode now (parse_safer_body plain)

abbrev pub accept_ids : ConnInfo → List ℕ → ℕ → ℕ → Option SaferIds → Option (ℕ × List ℕ) × ConnInfo
accept_ids info plain hb_mode now none = (none, info)
accept_ids info plain hb_mode now (some ids) =
    if not (ids.oppsite_id == info.oppsite_id) || not (ids.my_id == info.my_id)
    then (none, info)
    else accept_verdict info plain hb_mode now (is_valid info.anti_replay ids.seq)

-- The code's `accept_safer_offset` gives the payload by its offset, which is the header's length.
unfoldable pub accept_safer : ConnInfo → List ℕ → ℕ → ℕ → Option (ℕ × List ℕ) × ConnInfo
unfolding parse_safer_ids parse_safer_body is_valid
accept_safer info plain hb_mode now = accept_ids info plain hb_mode now (parse_safer_ids plain)

abbrev pub push_accepted : Option (ℕ × List ℕ) → List (ℕ × List ℕ) → List (ℕ × List ℕ)
push_accepted none out = out
push_accepted (some x) out = x ∷ out

unfoldable pub accept_all : ConnInfo → ℕ → ℕ → List (List ℕ) → List (ℕ × List ℕ) × ConnInfo
unfolding accept_safer
accept_all info hb_mode now [] = ([], info)
accept_all info hb_mode now (plain ∷ plains) =
    let accepted = accept_safer info plain hb_mode now in
    let rest = accept_all (accepted.1) hb_mode now plains in
    (push_accepted (accepted.0) (rest.0), rest.1)

abbrev pub only : Option (List ℕ) → List (List ℕ)
only none = []
only (some x) = x ∷ []

module _ (p : Primitives) where
  unfoldable pub send_bare :
      RawCtx → Crypto → RawInfo → List ℕ → (ℕ → List ℕ) → ℕ → ℕ → List ℕ → Outside → Sent RawInfo
  unfolding encrypt build_bare send_raw
  send_bare ctx crypto raw payload to_ne_bytes iv padding nonce o =
      send_wire ctx raw o (encrypt p crypto nonce (build_bare to_ne_bytes iv padding payload))

  unfoldable pub send_handshake :
      RawCtx → Crypto → RawInfo → ℕ → ℕ → ℕ → (ℕ → List ℕ) → ℕ → ℕ → List ℕ → Outside → Sent RawInfo
  unfolding send_bare build_handshake
  send_handshake ctx crypto raw id1 id2 id3 to_ne_bytes iv padding nonce o =
      send_bare ctx crypto raw (build_handshake id1 id2 id3) to_ne_bytes iv padding nonce o

  unfoldable pub parse_bare : Crypto → List ℕ → Option (List ℕ)
  unfolding decrypt Wire.parse_bare
  parse_bare crypto wire =
      if ltb max_data_len (length wire)
      then none
      else (decrypt p crypto wire >>= λ plain. Wire.parse_bare plain)

  unfoldable pub encrypt_safer : Crypto → List ℕ → List ℕ → Bool → Option (List ℕ)
  unfolding encrypt gro_wrap
  encrypt_safer crypto nonce plain fix_gro =
      encrypt p crypto nonce plain >>= λ enc. some (if fix_gro then gro_wrap crypto enc else enc)

  abbrev send_prepared : RawCtx → ConnInfo → Outside → Option (List ℕ) → Sent ConnInfo
  send_prepared ctx info o none = failed info
  send_prepared ctx info o (some wire) = with_raw info (transmit_safer ctx info.raw wire o)

  unfoldable pub send_safer :
      RawCtx → Crypto → ConnInfo → ℕ → List ℕ → Bool → List ℕ → Outside → Sent ConnInfo
  unfolding prepare_safer encrypt_safer transmit_safer
  send_safer ctx crypto info ptype payload fix_gro nonce o =
      if not (ptype == type_heartbeat) && not (ptype == type_data)
      then failed info
      else (let prepared = prepare_safer info ptype payload in
          send_prepared ctx (prepared.1) o (encrypt_safer crypto nonce (prepared.0) fix_gro))

  -- The packets of a burst that decrypt, in order.
  unfoldable pub decrypt_parts : Crypto → List (List ℕ) → List (List ℕ)
  unfolding decrypt
  decrypt_parts crypto [] = []
  decrypt_parts crypto (part ∷ parts) = only (decrypt p crypto part) ++ decrypt_parts crypto parts

  unfoldable pub decrypt_safer_gro : Crypto → List ℕ → List (List ℕ)
  unfolding gro_unwrap decrypt_parts
  decrypt_safer_gro crypto wire =
      let split = gro_unwrap crypto wire in decrypt_parts crypto (slices (split.0) (split.1))

  unfoldable pub decrypt_safer : Crypto → List ℕ → Bool → List (List ℕ)
  unfolding decrypt decrypt_safer_gro
  decrypt_safer crypto wire fix_gro =
      if not fix_gro then only (decrypt p crypto wire) else decrypt_safer_gro crypto wire

  abbrev note_recv : RawCtx → RecvMeta → List (ℕ × List ℕ) × ConnInfo → List (ℕ × List ℕ) × ConnInfo
  note_recv ctx meta ([], info) = ([], info)
  note_recv ctx meta (x ∷ out, info) = (x ∷ out, record info { raw = after_recv ctx info.raw meta })

  unfoldable pub recv_safer_inline :
      RawCtx → Crypto → ConnInfo → List ℕ → Bool → ℕ → ℕ → RecvMeta → List (ℕ × List ℕ) × ConnInfo
  unfolding decrypt_safer accept_all after_recv
  recv_safer_inline ctx crypto info wire fix_gro hb_mode now meta =
      note_recv ctx meta (accept_all info hb_mode now (decrypt_safer crypto wire fix_gro))
