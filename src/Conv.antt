-- ===== src/Conv.antt =====
-- src/conv.rs: the conversations of a connection. The maps are association lists and the ordered set
-- is a list in ascending order; `same` is the equality of the data, an address or a socket.
pub mod Assoc
pub mod Agreed
pub mod Expiry
pub mod Operations
pub mod Tests
use udp2raw_rust.Prelude.{
  ℕ, zero, suc, ◌+◌, ◌-◌, ◌*◌, ◌/◌, ◌%◌, ◌^◌, ◌≤◌, ◌<◌, min, max, bit_and, bit_or, bit_xor, ◌≡◌,
  refl, sym, ap, ap₂, ◌∙◌, subst, ◌≢◌, ◌↔◌, ◌⊎◌, inl, inr, Bool, true, false, not, ◌&&◌, ◌||◌,
  Option, none, some, List, [], ◌∷◌, ◌++◌, map, append-nil, append_assoc, arith, dec_lt, ℕ_discrete,
  ltb, leb, ◌==◌, if◌then◌else◌, ◌>>=◌, ◌>>◌, guard, ltb→lt, lt→ltb, leb→le, ==_iff, ==-refl, tests,
  Bool-cases, Option-cases, IfSome, IfSome-some, IfSome-map, if_cases, zero-bit_xor, differ_bits,
  bit_xor_parts, bit_xor_cancel, zero-bit_or, le-bit_or, bit_xor-lt, bit_xor-eq-zero, bit_xor_self,
  length, set, get_or, take, drop, replicate, length-append, length-set, get_or-set_self,
  get_or-set_ne, length-replicate, get_or-replicate, length-take, length-drop, take-append,
  drop-append, take-append-drop, take_of_length-le, drop-append_past, get_or-append_past,
  get_or-append_before, drop_of_length-le, u64_max, u32_max, sat_add, sat_mul, sat_add32, clamp,
  byte_at, ◌<<<◌, ◌>>>◌, AreBytes, append-AreBytes, take-AreBytes, drop-AreBytes,
  replicate-AreBytes,
}
use udp2raw_rust.Conv.Assoc.{get, put, delete, add, discard}

abbrev pub conv_clear_ratio : ℕ
conv_clear_ratio = 30

abbrev pub conv_clear_min : ℕ
conv_clear_min = 1

abbrev pub conv_clear_interval_ms : ℕ
conv_clear_interval_ms = 1000

abbrev pub conv_timeout_ms : ℕ
conv_timeout_ms = 180000

pub record ConvManager {ℓ} (T : Type ℓ) : Type ℓ where
  pub data_to_conv : List (T × ℕ)
  pub conv_to_data : List (ℕ × T)
  pub last_active : List (ℕ × ℕ)
  pub lru : List (ℕ × ℕ)
  pub last_clear_time : ℕ

unfoldable pub new {ℓ} : {T : Type ℓ} → ConvManager T
new = record {
  data_to_conv = [];
  conv_to_data = [];
  last_active = [];
  lru = [];
  last_clear_time = 0;
}

-- The data of all conversations; the code's order is the hash map's.
abbrev pub values {ℓ} : {T : Type ℓ} → List (ℕ × T) → List T
values [] = []
values ((c, d) ∷ m) = d ∷ values m

-- `iter().next()`
abbrev pub first {κ} : {A : Type κ} → List A → Option A
first [] = none
first (a ∷ s) = some a

module _ {ℓ} {T : Type ℓ} (same : T → T → Bool) where
  unfoldable pub is_conv_used : ConvManager T → ℕ → Bool
  unfolding get
  is_conv_used m conv = elim (get (◌==◌) m.conv_to_data conv) [ none ↦ false | some d ↦ true ]

  unfoldable pub find_conv_by_data : ConvManager T → T → Option ℕ
  unfolding get
  find_conv_by_data m d = get same m.data_to_conv d

  unfoldable pub find_data_by_conv : ConvManager T → ℕ → Option T
  unfolding get
  find_data_by_conv m conv = get (◌==◌) m.conv_to_data conv

  unfoldable pub insert : ConvManager T → ℕ → T → ℕ → ConvManager T
  unfolding put add
  insert m conv d now = record m {
    data_to_conv = put same m.data_to_conv d conv;
    conv_to_data = put (◌==◌) m.conv_to_data conv d;
    last_active = put (◌==◌) m.last_active conv now;
    lru = add m.lru (now, conv);
  }

  abbrev pub touch : ConvManager T → ℕ → ℕ → Option ℕ → ConvManager T
  touch m conv now none = m
  touch m conv now (some old) = if old == now then m else record m {
    last_active = put (◌==◌) m.last_active conv now;
    lru = add (discard m.lru (old, conv)) (now, conv);
  }

  unfoldable pub update_active_time : ConvManager T → ℕ → ℕ → ConvManager T
  unfolding get put add discard
  update_active_time m conv now = touch m conv now (get (◌==◌) m.last_active conv)

  abbrev pub forget_time : ConvManager T → ℕ → Option ℕ → ConvManager T
  forget_time m conv none = m
  forget_time m conv (some ts) = record m {
    last_active = delete (◌==◌) m.last_active conv;
    lru = discard m.lru (ts, conv);
  }

  abbrev pub erase_found : ConvManager T → ℕ → Option T → Option T × ConvManager T
  erase_found m conv none = (none, m)
  erase_found m conv (some d) =
      let removed : ConvManager T = record m {
        conv_to_data = delete (◌==◌) m.conv_to_data conv;
        data_to_conv = delete same m.data_to_conv d;
      } in
      (some d, forget_time removed conv (get (◌==◌) m.last_active conv))

  unfoldable pub erase : ConvManager T → ℕ → Option T × ConvManager T
  unfolding get delete discard
  erase m conv = erase_found m conv (get (◌==◌) m.conv_to_data conv)

  unfoldable pub clear : ConvManager T → List T × ConvManager T
  clear m = (
    values m.conv_to_data,
    record m { data_to_conv = []; conv_to_data = []; last_active = []; lru = [] },
  )

  abbrev pub push_gone : ℕ → Option T → List (ℕ × T) → List (ℕ × T)
  push_gone conv none out = out
  push_gone conv (some d) out = (conv, d) ∷ out

  -- One round of the loop, which goes on with `loop`; `none` ends it.
  abbrev pub expire_first :
      (ConvManager T → List (ℕ × T) × ConvManager T)
      → ℕ
      → ConvManager T
      → Option (ℕ × ℕ)
      → List (ℕ × T) × ConvManager T
  expire_first loop now m none = ([], m)
  expire_first loop now m (some (ts, conv)) =
      let erased = erase m conv in
      let rest = loop (erased.1) in
      if ltb (now - ts) conv_timeout_ms
      then ([], m)
      else (push_gone conv (erased.0) (rest.0), rest.1)

  unfoldable pub expire : ℕ → ℕ → ConvManager T → List (ℕ × T) × ConvManager T
  unfolding erase
  expire now zero m = ([], m)
  expire now (suc n) m = expire_first (expire now n) now m (first m.lru)

  unfoldable pub clear_inactive : ConvManager T → ℕ → List (ℕ × T) × ConvManager T
  unfolding expire
  clear_inactive m now =
      let size = length m.lru in
      if leb (now - m.last_clear_time) conv_clear_interval_ms
      then ([], m)
      else expire now (min (size / conv_clear_ratio + conv_clear_min) size)
          (record m { last_clear_time = now })
