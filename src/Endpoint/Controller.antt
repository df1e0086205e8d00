-- ===== src/Endpoint/Controller.antt =====
-- src/endpoint.rs, `EndpointController`: its state, and the helpers that its operations share. Log
-- messages and the texts of reasons are left out; the clock, the resolver's answers, the jitter and
-- what the locked budget file holds are arguments.
pub mod Select
pub mod Cycle
pub mod Safety
pub mod Offers
pub mod CycleSafety
pub mod OnCycle
pub mod Lifecycle
pub mod Committed
pub mod Trust
pub mod Promotion
pub mod Tests
use udp2raw_rust.Prelude.{
  ℕ, zero, suc, ◌+◌, ◌-◌, ◌*◌, ◌/◌, ◌%◌, ◌^◌, ◌≤◌, ◌<◌, min, max, bit_and, bit_or, bit_xor, ◌≡◌,
  refl, sym, ap, ap₂, ◌∙◌, subst, ◌≢◌, ◌↔◌, ◌⊎◌, inl, inr, Bool, true, false, not, ◌&&◌, ◌||◌,
  Option, none, some, List, [], ◌∷◌, ◌++◌, map, append-nil, append_assoc, arith, dec_lt, ℕ_discrete,
  ltb, leb, ◌==◌, if◌then◌else◌, ◌>>=◌, ◌>>◌, guard, ltb→lt, lt→ltb, leb→le, ==_iff, ==-refl, tests,
  Bool-cases, Option-cases, IfSome, IfSome-some, IfSome-map, zero-bit_xor, differ_bits,
  bit_xor_parts, bit_xor_cancel, zero-bit_or, le-bit_or, bit_xor-lt, bit_xor-eq-zero, bit_xor_self,
  length, set, get_or, take, drop, replicate, length-append, length-set, get_or-set_self,
  get_or-set_ne, length-replicate, get_or-replicate, length-take, length-drop, take-append,
  drop-append, take-append-drop, take_of_length-le, drop-append_past, get_or-append_past,
  get_or-append_before, drop_of_length-le, u64_max, u32_max, sat_add, sat_mul, sat_add32, clamp,
  byte_at, ◌<<<◌, ◌>>>◌, AreBytes, append-AreBytes, take-AreBytes, drop-AreBytes,
  replicate-AreBytes,
}
use udp2raw_rust.Dns.{contains, retain, is_safe, sort, dedup, canonical, max_endpoint_candidates}
use udp2raw_rust.Endpoint.Backoff.{Backoff, on_failure, on_success, on_pending_success}
use udp2raw_rust.Endpoint.Budget.{FallbackState, Policy, new, precharge_fallback_state}

-- An address is its number, and an IPv6 one is never switched.
pub data IpAddr : Type 0 where
  v4 v6 : ℕ → IpAddr

pub record SocketAddr : Type 0 where
  pub ip : IpAddr
  pub port : ℕ

-- The name is its bytes.
pub data EndpointSpec : Type 0 where
  literal : SocketAddr → EndpointSpec
  hostname : List ℕ → ℕ → EndpointSpec

abbrev pub spec_port : EndpointSpec → ℕ
spec_port (literal a) = a.port
spec_port (hostname name port) = port

abbrev pub is_dynamic : EndpointSpec → Bool
is_dynamic (hostname name port) = true
is_dynamic (literal a) = false

pub data CycleReason : Type 0 where
  startup attempt_failed session_lost forced probation_expired operator_rollback : CycleReason

pub record Switch : Type 0 where
  pub from : SocketAddr
  pub to : SocketAddr

pub record Probation : Type 0 where
  pub candidate : ℕ
  pub rollback : ℕ
  pub authenticated_at_ms : ℕ
  pub direct_return : Bool
  pub rollback_at_ms : Option ℕ
  pub rollback_authorized : Bool
  pub first_data_ms : Option ℕ
  pub last_data_ms : Option ℕ
  pub data_packets : ℕ

-- `opts` is `allow_private`, `has_cache_file` and `policy`.
pub record EndpointController : Type 0 where
  pub spec : EndpointSpec
  pub allow_private : Bool
  pub has_cache_file : Bool
  pub policy : Policy
  pub current : SocketAddr
  pub current_authenticated : Bool
  pub committed_good : Option ℕ
  pub cache_fresh_until_ms : Option ℕ
  pub committed_runtime_activity_ms : Option ℕ
  pub candidates : List ℕ
  pub expires_at_ms : Option ℕ
  pub backoff : Backoff
  pub force_refresh : Bool
  pub reconnect_refresh_pending : Bool
  pub queries : ℕ
  pub preferred_failures : ℕ
  pub preferred_round_deadline_ms : Option ℕ
  pub preferred_attempts : ℕ
  pub attended_cutover : Bool
  pub probation : Option Probation
  pub fallback_state : FallbackState
  pub has_fallback_state_path : Bool
  pub fallback_state_usable : Bool

-- `opt == Some(x)`
abbrev pub holds : Option ℕ → ℕ → Bool
holds none x = false
holds (some y) x = y == x

abbrev pub v4_of : IpAddr → Option ℕ
v4_of (v4 ip) = some ip
v4_of (v6 ip) = none

abbrev pub current_v4 : EndpointController → Option ℕ
current_v4 c = v4_of c.current.ip

abbrev pub unless_past : ℕ → Option ℕ → Option ℕ
unless_past now_ms none = none
unless_past now_ms (some deadline) = if leb now_ms deadline then some deadline else none

abbrev pub later : Option ℕ → Option ℕ → Option ℕ
later none d = d
later (some a) none = some a
later (some a) (some b) = some (max a b)

unfoldable pub committed_health_deadline : EndpointController → ℕ → Option (ℕ × ℕ)
committed_health_deadline c now_ms =
    let rollback_window = c.policy.rollback_window_ms in
    let runtime_deadline =
      unless_past now_ms
        (c.committed_runtime_activity_ms >>= λ last. some (sat_add last rollback_window)) in
    let cache_deadline = unless_past now_ms c.cache_fresh_until_ms in
    if not c.policy.enabled
    then none
    else (c.committed_good >>= λ committed.
        later runtime_deadline cache_deadline >>= λ deadline. some (committed, deadline))

unfoldable pub committed_fresh : EndpointController → ℕ → ℕ → Option ℕ
unfolding committed_health_deadline
committed_fresh c now_ms cur =
    committed_health_deadline c now_ms >>= λ d. if d.0 == cur then none else some d.0

abbrev pub is_none : Option ℕ → Bool
is_none none = true
is_none (some x) = false

unfoldable pub start_preferred_round : EndpointController → ℕ → EndpointController
start_preferred_round c now_ms =
    if c.policy.enabled && is_none c.preferred_round_deadline_ms
    then record c {
      preferred_round_deadline_ms = some (sat_add now_ms c.policy.preferred_round_timeout_ms);
      preferred_attempts = 0;
    }
    else c

-- Whether the time is there and has come.
abbrev pub has_come : Option ℕ → ℕ → Bool
has_come none now_ms = false
has_come (some deadline) now_ms = leb deadline now_ms

abbrev pub round_expired : EndpointController → ℕ → Bool
round_expired c now_ms = has_come c.preferred_round_deadline_ms now_ms

-- What follows `cur` in the list; `seen` says that the element before was `cur`.
abbrev pub successor : Bool → List ℕ → ℕ → Option ℕ
successor seen [] cur = none
successor true (x ∷ xs) cur = some x
successor false (x ∷ xs) cur = successor (x == cur) xs cur

abbrev pub head : List ℕ → Option ℕ
head [] = none
head (x ∷ xs) = some x

abbrev pub or_else : Option ℕ → Option ℕ → Option ℕ
or_else none y = y
or_else (some x) y = some x

-- `(idx + 1) % len`, and the first where `cur` is not in the set.
unfoldable pub next_dns_candidate : EndpointController → ℕ → Option ℕ
unfolding canonical
next_dns_candidate c cur =
    let set = canonical c.candidates in or_else (successor false set cur) (head set)

-- `opt.filter(…)` pushed to the list
abbrev pub push_if : (ℕ → Bool) → Option ℕ → List ℕ
push_if keep none = []
push_if keep (some ip) = if keep ip then ip ∷ [] else []

-- Current first, then the committed address, then the rest by number.
unfoldable pub ordered_candidates : Option ℕ → Option ℕ → List ℕ → List ℕ
unfolding sort dedup
ordered_candidates cur committed candidates =
    let rest =
      dedup (sort (retain (λ ip. not (holds cur ip) && not (holds committed ip)) candidates)) in
    let first = push_if (λ ip. contains ip candidates) cur in
    let second = push_if (λ ip. contains ip candidates && not (holds cur ip)) committed in
    take max_endpoint_candidates (first ++ (second ++ rest))

unfoldable pub order_candidates : EndpointController → EndpointController
unfolding ordered_candidates
order_candidates c = record c {
  candidates = ordered_candidates (current_v4 c) c.committed_good c.candidates;
}

-- An operation's answer and the new state.
abbrev pub Outcome : Type 0
Outcome = Option Switch × EndpointController

-- `switch_to` where `IpAddr::V4(cur)` matches.
abbrev pub switch_from : EndpointController → ℕ → Option ℕ → Outcome
switch_from c target none = (none, c)
switch_from c target (some cur) =
    if target == cur
    then (none, c)
    else (let to : SocketAddr = record { ip = v4 target; port = spec_port c.spec } in
        (
          some (record { from = c.current; to = to }),
          order_candidates (record c { current = to; current_authenticated = false }),
        ))

unfoldable pub switch_to : EndpointController → ℕ → Outcome
unfolding order_candidates
switch_to c target = switch_from c target (current_v4 c)
