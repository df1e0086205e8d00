-- ===== src/Endpoint/Controller/Select.antt =====
-- src/endpoint.rs: `charge_fallback`, `query`, `select` and `on_cycle_with_clock`.
use udp2raw_rust.Prelude.{
  ℕ, ◌+◌, Bool, true, false, not, Option, none, some, List, ◌==◌, if◌then◌else◌, ◌>>=◌, length,
  sat_add, sat_mul,
}
use udp2raw_rust.Dns.{retain, is_safe, canonical}
use udp2raw_rust.Endpoint.Backoff.{on_failure, on_success, on_pending_success}
use udp2raw_rust.Endpoint.Budget.{FallbackState, Policy, new, precharge_fallback_state, same_list}
use udp2raw_rust.Endpoint.Controller.{
  is_dynamic, Probation, EndpointController, holds, committed_fresh, order_candidates,
}

-- The budget file under its lock: what `load_fallback_state` gives, and whether the write succeeds.
pub data Loaded : Type 0 where
  unreadable absent : Loaded
  loaded : FallbackState → Loaded

pub record LockedFile : Type 0 where
  pub content : Loaded
  pub written : Bool

abbrev pub reloaded : Policy → ℕ → Loaded → Option FallbackState
reloaded policy wall_now unreadable = none
reloaded policy wall_now absent = some (new policy.global_capacity wall_now)
reloaded policy wall_now (loaded s) = some s

-- The three results of the locked section: an error, `Ok(None)`, and `Ok(Some(next))`.
abbrev pub refused : EndpointController → Bool × EndpointController
refused c = (false, record c { fallback_state_usable = false })

abbrev pub write_charged :
    EndpointController → LockedFile → Option FallbackState → Bool × EndpointController
write_charged c file none = (false, c)
write_charged c file (some next) =
    if file.written then (true, record c { fallback_state = next }) else refused c

abbrev pub charge_loaded :
    EndpointController → LockedFile → ℕ → ℕ → Option FallbackState → Bool × EndpointController
charge_loaded c file wall_now candidate none = refused c
charge_loaded c file wall_now candidate (some s) =
    write_charged c file
      (precharge_fallback_state s c.policy wall_now candidate (canonical c.candidates))

unfoldable pub charge_fallback : EndpointController → LockedFile → ℕ → ℕ → Bool × EndpointController
charge_fallback c file wall_now candidate =
    if not c.fallback_state_usable
    then (false, c)
    else if not c.has_fallback_state_path
    then (false, c)
    else if not (is_dynamic c.spec)
    then (false, c)
    else charge_loaded c file wall_now candidate (reloaded c.policy wall_now file.content)

-- What `resolve_a` returns; `random` is the jitter of a failed query.
pub data Answer : Type 0 where
  failed : Answer
  answered : List ℕ → ℕ → Answer

abbrev pub after_failure : EndpointController → ℕ → ℕ → EndpointController
after_failure c random now_ms = record c { backoff = (on_failure c.backoff random now_ms).1 }

-- The state after a usable answer. The safe addresses are deduplicated first in the order of the
-- answer; sorting makes that the same as `canonical`.
unfoldable pub take_answer : EndpointController → List ℕ → ℕ → ℕ → EndpointController
unfolding order_candidates
take_answer c safe ttl now_ms =
    let kept = canonical safe in
    let changed = not (same_list kept (canonical c.candidates)) in
    order_candidates (record c {
      backoff =
          if c.reconnect_refresh_pending
          then (on_pending_success c.backoff now_ms).1
          else on_success c.backoff;
      expires_at_ms = some (sat_add now_ms (sat_mul ttl 1000));
      preferred_failures = if changed then 0 else c.preferred_failures;
      preferred_attempts = if changed then 0 else c.preferred_attempts;
      candidates = kept;
    })

abbrev pub read_answer : EndpointController → Answer → ℕ → ℕ → Bool × EndpointController
read_answer c failed random now_ms = (false, after_failure c random now_ms)
read_answer c (answered addrs ttl) random now_ms =
    let safe = retain (is_safe c.allow_private) addrs in
    if length safe == 0
    then (false, after_failure c random now_ms)
    else (true, take_answer c safe ttl now_ms)

unfoldable pub query : EndpointController → Answer → ℕ → ℕ → Bool × EndpointController
unfolding take_answer
query c answer random now_ms =
    if not (is_dynamic c.spec)
    then (false, c)
    else read_answer (record c { queries = c.queries + 1 }) answer random now_ms

-- The return to the committed address when a probationary candidate fails: the address, if any.
abbrev pub probation_of : EndpointController → ℕ → Option Probation
probation_of c cur = c.probation >>= λ p. if p.candidate == cur then some p else none

abbrev pub returned :
    EndpointController → ℕ → Bool × EndpointController → Option ℕ × EndpointController
returned c rollback (false, charged) = (none, charged)
returned c rollback (true, charged) = (some rollback, record charged { probation = none })

abbrev pub return_from :
    EndpointController → LockedFile → ℕ → ℕ → ℕ → Option Probation → Option ℕ × EndpointController
return_from c file now_ms wall_now cur none = (none, c)
return_from c file now_ms wall_now cur (some p) =
    if not (holds (committed_fresh c now_ms cur) p.rollback)
    then (none, c)
    else if p.direct_return
    then (some p.rollback, record c { probation = none })
    else returned c p.rollback (charge_fallback c file wall_now p.rollback)

unfoldable pub probation_return :
    EndpointController → LockedFile → ℕ → ℕ → ℕ → Option ℕ × EndpointController
unfolding committed_fresh charge_fallback
probation_return c file now_ms wall_now cur =
    return_from c file now_ms wall_now cur (probation_of c cur)
