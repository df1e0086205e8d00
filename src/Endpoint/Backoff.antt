-- ===== src/Endpoint/Backoff.antt =====
-- src/endpoint.rs, `Backoff`: bounded exponential backoff with jitter for failed queries.
use native.Mathlib.Nat.{pow-suc}
use udp2raw_rust.Prelude.{
  ℕ, zero, suc, ◌+◌, ◌-◌, ◌*◌, ◌/◌, ◌%◌, ◌^◌, ◌≤◌, ◌<◌, min, max, ◌≡◌, refl, Bool, List, [], ◌∷◌,
  arith, leb, ◌==◌, if◌then◌else◌, u64_max, u32_max, sat_add, sat_mul, sat_add32, clamp,
}

pub record Backoff : Type 0 where
  pub failures : ℕ
  pub not_before_ms : ℕ
  pub min_ms : ℕ
  pub max_ms : ℕ

unfoldable pub new : ℕ → ℕ → Backoff
new min_ms max_ms = record {
  failures = 0;
  not_before_ms = 0;
  min_ms = max min_ms 1;
  max_ms = max max_ms (max min_ms 1);
}

unfoldable pub ready : Backoff → ℕ → Bool
ready b now_ms = leb b.not_before_ms now_ms

abbrev pub base_delay : Backoff → ℕ
base_delay b = min (sat_mul b.min_ms (2 ^ min b.failures 20)) b.max_ms

-- `random` is what `fast_random_u32` returns. `delay - base / 4 + jitter` does not overflow below
-- half the range of a u64.
abbrev pub failure_delay : Backoff → ℕ → ℕ
failure_delay b random =
    let base = base_delay b in
    let jitter_span = base / 2 in
    let jitter = if jitter_span == 0 then 0 else random % (jitter_span + 1) in
    clamp (min b.min_ms b.max_ms) (sat_add b.max_ms (b.max_ms / 4)) (base - base / 4 + jitter)

unfoldable pub on_failure : Backoff → ℕ → ℕ → ℕ × Backoff
on_failure b random now_ms =
    let delay = failure_delay b random in
    (delay, record b { failures = sat_add32 b.failures 1; not_before_ms = sat_add now_ms delay })

unfoldable pub on_success : Backoff → Backoff
on_success b = record b { failures = 0; not_before_ms = 0 }

unfoldable pub on_pending_success : Backoff → ℕ → ℕ × Backoff
on_pending_success b now_ms =
    (b.min_ms, record b { failures = 0; not_before_ms = sat_add now_ms b.min_ms })

-- The minimum is positive, and at most the maximum.
record IsValid (b : Backoff) : Type 0 where
  min_pos : 1 ≤ b.min_ms
  ordered : b.min_ms ≤ b.max_ms

one-le-two_pow : (n : ℕ) → 1 ≤ 2 ^ n
one-le-two_pow zero = omega arith
one-le-two_pow (suc n) = omega (arith, pow-suc 2 n, one-le-two_pow n)

min_ms-le-base : (b : Backoff) → IsValid b → b.max_ms < 2 ^ 62 → b.min_ms ≤ base_delay b
min_ms-le-base b v h = grind (arith, one-le-two_pow (min b.failures 20))

failure_delay_bounds :
    (b : Backoff) (random : ℕ)
    → IsValid b
    → b.max_ms < 2 ^ 62
    → (b.min_ms ≤ failure_delay b random)
      × (base_delay b - base_delay b / 4 ≤ failure_delay b random)
      × (failure_delay b random ≤ base_delay b + base_delay b / 4 + 1)
      × (failure_delay b random < 2 ^ 63)
failure_delay_bounds b random v small =
    let low = min_ms-le-base b v small in
    let top : base_delay b ≤ b.max_ms = omega arith in ground arith

-- What a client tells its backoff: a query failed (with the random number and the time), it
-- succeeded, or it gave a usable answer while a refresh is pending (with the time).
pub data Event : Type 0 where
  failed : ℕ → ℕ → Event
  succeeded : Event
  pending : ℕ → Event

abbrev pub operate : Backoff → Event → Backoff
operate b (failed random now_ms) = (on_failure b random now_ms).1
operate b succeeded = on_success b
operate b (pending now_ms) = (on_pending_success b now_ms).1

unfoldable pub operate_all : Backoff → List Event → Backoff
unfolding on_failure on_success on_pending_success
operate_all b [] = b
operate_all b (event ∷ rest) = operate_all (operate b event) rest

abbrev pub streak_after : ℕ → Event → ℕ
streak_after k (failed random now_ms) = suc k
streak_after k succeeded = 0
streak_after k (pending now_ms) = 0

-- How many failures stand in a row at the end of the events, after `k` before them.
unfoldable pub streak : ℕ → List Event → ℕ
streak k [] = k
streak k (event ∷ rest) = streak (streak_after k event) rest

-- A backoff with the bounds `low` and `high`, after `k` failures in a row.
record Follows (low high k : ℕ) (b : Backoff) : Type 0 where
  counted : b.failures ≡ min k u32_max
  is_low : b.min_ms ≡ low
  is_high : b.max_ms ≡ high

operate-Follows :
    (low high k : ℕ) (b : Backoff) (event : Event)
    → Follows low high k b
    → Follows low high (streak_after k event) (operate b event)
unfolding on_failure on_success on_pending_success
operate-Follows low high k b (failed random now_ms) f = record {
  counted = omega (arith, f.counted);
  is_low = f.is_low;
  is_high = f.is_high;
}
operate-Follows low high k b succeeded f = record {
  counted = refl;
  is_low = f.is_low;
  is_high = f.is_high;
}
operate-Follows low high k b (pending now_ms) f = record {
  counted = refl;
  is_low = f.is_low;
  is_high = f.is_high;
}

operate_all-Follows :
    (low high k : ℕ) (b : Backoff) (events : List Event)
    → Follows low high k b
    → Follows low high (streak k events) (operate_all b events)
unfolding operate_all streak
operate_all-Follows low high k b [] f = f
operate_all-Follows low high k b (event ∷ rest) f =
    operate_all-Follows low high (streak_after k event) (operate b event) rest
      (operate-Follows low high k b event f)

-- Neither saturation of the code shows: the exponent stops long before the count does, and the
-- maximum lies below the end of a u64.
base_delay-Follows :
    (low high k : ℕ) (b : Backoff)
    → high < 2 ^ 62
    → Follows low high k b
    → base_delay b ≡ min (low * 2 ^ min k 20) high
base_delay-Follows low high k b small f =
    let exponent : min b.failures 20 ≡ min k 20 = omega (arith, f.counted) in
    rw (f.is_low, f.is_high, exponent) (below (low * 2 ^ min k 20))
  where
    below : (x : ℕ) → min (min x u64_max) high ≡ min x high
    below x = omega (arith, small)

-- Take a new backoff with a minimum of `low` and a maximum of `high` (the minimum is at least 1 and
-- the maximum at least that), after any events of which the last `k` are failures in a row. A further
-- failure at `now_ms` delays the next query by the base delay `low * 2 ^ k`, doubled 20 times at the
-- most and never above `high`, up to a quarter (and one for rounding) more or less, but never by less
-- than `low`. Until the delay has passed `ready` says no, and from then on it says yes. The times lie
-- below 2^62.
pub on_failure_waits :
    (min_ms max_ms : ℕ) (events : List Event) (random now_ms later : ℕ)
    → min_ms < 2 ^ 62
    → max_ms < 2 ^ 62
    → now_ms < 2 ^ 62
    → let low = max min_ms 1 in
      let high = max max_ms low in
      let base = min (low * 2 ^ min (streak 0 events) 20) high in
      let (delay, after) = on_failure (operate_all (new min_ms max_ms) events) random now_ms in
      (low ≤ delay)
      × (base - base / 4 ≤ delay)
      × (delay ≤ base + base / 4 + 1)
      × (ready after later ≡ leb (now_ms + delay) later)
unfolding on_failure ready new
on_failure_waits min_ms max_ms events random now_ms later min_small max_small now_small =
    let low = max min_ms 1 in
    let high = max max_ms low in
    let b = operate_all (new min_ms max_ms) events in
    let f =
      operate_all-Follows low high 0 (new min_ms max_ms) events
        (record { counted = refl; is_low = refl; is_high = refl }) in
    let valid : IsValid b = record {
      min_pos = omega (arith, f.is_low);
      ordered = omega (arith, f.is_low, f.is_high);
    } in
    let small : high < 2 ^ 62 = omega (arith, min_small, max_small) in
    let d = failure_delay_bounds b random valid (omega (arith, small, f.is_high)) in
    let base = base_delay-Follows low high (streak 0 events) b small f in
    let exact : sat_add now_ms (failure_delay b random) ≡ now_ms + failure_delay b random =
      omega (arith, d) in
    (omega (arith, d.0, f.is_low), rw (← base) d.1, rw (← base) d.2, rw exact refl)
