-- ===== src/Endpoint/Controller/Lifecycle.antt =====
-- src/endpoint.rs: what the client tells the controller, authentication, packets, promotion,
-- rollback requests and the end of a session.
use udp2raw_rust.Prelude.{
  ℕ, ◌-◌, min, Bool, true, false, not, ◌&&◌, ◌||◌, Option, none, some, ltb, leb, ◌==◌,
  if◌then◌else◌, u64_max, sat_add, sat_add32, clamp,
}
use udp2raw_rust.Endpoint.Backoff.{on_success}
use udp2raw_rust.Endpoint.Controller.{
  is_dynamic, Probation, EndpointController, holds, current_v4, has_come, committed_health_deadline,
  committed_fresh, order_candidates,
}
use udp2raw_rust.Endpoint.Controller.Select.{LockedFile, charge_fallback}
use udp2raw_rust.Endpoint.Controller.Cycle.{two_timer_intervals_ms}

-- MIN_PROMOTION_DATA_PACKETS
abbrev pub min_promotion_data_packets : ℕ
min_promotion_data_packets = 3

-- `prev != Some(cur)`; the address that may be released is the old one.
abbrev pub released : Option ℕ → ℕ → Option ℕ
released none cur = none
released (some old) cur = if old == cur then none else some old

-- The durable cache is written too (`persist_committed`); a failure is only logged.
unfoldable pub commit : EndpointController → ℕ → ℕ → EndpointController
unfolding order_candidates
commit c cur now_ms = order_candidates (record c {
  committed_good = some cur;
  committed_runtime_activity_ms = some now_ms;
  cache_fresh_until_ms = none;
  probation = none;
  attended_cutover = false;
})

abbrev pub rollback_time : ℕ → ℕ → Option (ℕ × ℕ) → ℕ → Option ℕ
rollback_time now_ms probation_ms none window = none
rollback_time now_ms probation_ms (some health) window =
    let deadline = min health.1 (sat_add now_ms window) in
    let required = sat_add (sat_add now_ms probation_ms) two_timer_intervals_ms in
    if leb required deadline then some (deadline - two_timer_intervals_ms) else none

unfoldable pub begin_probation : EndpointController → ℕ → ℕ → ℕ → EndpointController
unfolding committed_health_deadline order_candidates
begin_probation c cur rollback now_ms = order_candidates (record c {
  probation = some (record {
    candidate = cur;
    rollback = rollback;
    authenticated_at_ms = now_ms;
    direct_return = c.attended_cutover;
    rollback_at_ms =
        rollback_time now_ms c.policy.probation_ms (committed_health_deadline c now_ms)
          c.policy.rollback_window_ms;
    rollback_authorized = false;
    first_data_ms = none;
    last_data_ms = none;
    data_packets = 0;
  });
  attended_cutover = false;
})

abbrev pub authenticate : EndpointController → EndpointController
authenticate c = record c {
  current_authenticated = true;
  reconnect_refresh_pending = false;
  backoff = on_success c.backoff;
}

abbrev pub reset_round : EndpointController → EndpointController
reset_round c = record c {
  preferred_failures = 0;
  preferred_attempts = 0;
  preferred_round_deadline_ms = none;
}

abbrev pub settle_on : EndpointController → ℕ → ℕ → Option ℕ → Option ℕ × EndpointController
settle_on c cur now_ms none = (none, commit c cur now_ms)
settle_on c cur now_ms (some prev) =
    if not c.policy.enabled || prev == cur
    then (released (some prev) cur, commit c cur now_ms)
    else (none, begin_probation c cur prev now_ms)

abbrev pub authenticated_from : EndpointController → ℕ → Option ℕ → Option ℕ × EndpointController
authenticated_from c now_ms none = (none, authenticate c)
authenticated_from c now_ms (some cur) =
    settle_on (reset_round (authenticate c)) cur now_ms c.committed_good

unfoldable pub on_authenticated_at : EndpointController → ℕ → Option ℕ × EndpointController
unfolding commit begin_probation on_success
on_authenticated_at c now_ms = authenticated_from c now_ms (current_v4 c)

-- The longest silence between two packets that count together, and its test.
abbrev pub max_gap : EndpointController → ℕ
max_gap c = clamp 1 5000 c.policy.probation_ms

abbrev pub is_stale : Option ℕ → ℕ → ℕ → Bool
is_stale none now_ms gap = false
is_stale (some last) now_ms gap = ltb gap (now_ms - last)

abbrev pub get_or_insert : Option ℕ → ℕ → Option ℕ
get_or_insert none x = some x
get_or_insert (some y) x = some y

abbrev pub count_data : Probation → ℕ → ℕ → Probation
count_data p gap now_ms =
    let stale = is_stale p.last_data_ms now_ms gap in
    record p {
      first_data_ms = get_or_insert (if stale then none else p.first_data_ms) now_ms;
      last_data_ms = some now_ms;
      data_packets = sat_add32 (if stale then 0 else p.data_packets) 1;
    }

abbrev pub count_probation : Option Probation → ℕ → ℕ → ℕ → Option Probation
count_probation none cur gap now_ms = none
count_probation (some p) cur gap now_ms =
    if p.candidate == cur then some (count_data p gap now_ms) else some p

abbrev pub active_from : EndpointController → ℕ → Bool → Option ℕ → EndpointController
active_from c now_ms is_data none = c
active_from c now_ms is_data (some cur) = record c {
  committed_runtime_activity_ms =
      if c.current_authenticated && holds c.committed_good cur
      then some now_ms
      else c.committed_runtime_activity_ms;
  probation = if is_data then count_probation c.probation cur (max_gap c) now_ms else c.probation;
}

unfoldable pub on_authenticated_activity : EndpointController → ℕ → Bool → EndpointController
on_authenticated_activity c now_ms is_data = active_from c now_ms is_data (current_v4 c)

pub data PromotionResult : Type 0 where
  promoted : ℕ → PromotionResult
  not_probationary wrong_candidate not_active rollback_expired : PromotionResult
  stale_evidence : ℕ → PromotionResult
  insufficient_evidence : ℕ → ℕ → PromotionResult
  persistence_failed : PromotionResult

abbrev pub span : Option ℕ → Option ℕ → ℕ
span (some last) (some first) = last - first
span last first = 0

abbrev pub idle : Option ℕ → ℕ → ℕ
idle none now_ms = u64_max
idle (some last) now_ms = now_ms - last

abbrev pub rollback_over : EndpointController → Probation → ℕ → ℕ → Option ℕ → Bool
rollback_over c p expected now_ms none = false
rollback_over c p expected now_ms (some deadline) =
    leb deadline now_ms || not (holds (committed_fresh c now_ms expected) p.rollback)

-- `saved` says that the cache file, if there is one, could be written.
abbrev pub promote_probation :
    EndpointController → Probation → ℕ → ℕ → Bool → PromotionResult × EndpointController
promote_probation c p expected now_ms saved =
    if not (p.candidate == expected)
    then (wrong_candidate, c)
    else if not (holds (current_v4 c) expected) || not c.current_authenticated
    then (not_active, c)
    else if rollback_over c p expected now_ms p.rollback_at_ms
    then (rollback_expired, c)
    else if ltb p.data_packets min_promotion_data_packets
        || ltb (span p.last_data_ms p.first_data_ms) c.policy.probation_ms
    then (insufficient_evidence p.data_packets (span p.last_data_ms p.first_data_ms), c)
    else if ltb (max_gap c) (idle p.last_data_ms now_ms)
    then (stale_evidence (idle p.last_data_ms now_ms), c)
    else if (c.has_cache_file && is_dynamic c.spec) && not saved
    then (persistence_failed, c)
    else (promoted p.rollback, commit c expected now_ms)

abbrev pub promote_from :
    EndpointController → ℕ → ℕ → Bool → Option Probation → PromotionResult × EndpointController
promote_from c expected now_ms saved none = (not_probationary, c)
promote_from c expected now_ms saved (some p) = promote_probation c p expected now_ms saved

unfoldable pub promote_candidate :
    EndpointController → ℕ → ℕ → Bool → PromotionResult × EndpointController
unfolding committed_fresh commit
promote_candidate c expected now_ms saved = promote_from c expected now_ms saved c.probation

abbrev pub authorize : EndpointController → Probation → EndpointController
authorize c p = record c { probation = some (record p { rollback_authorized = true }) }

abbrev pub authorized_after : Probation → Bool × EndpointController → Bool × EndpointController
authorized_after p (false, charged) = (false, charged)
authorized_after p (true, charged) = (true, authorize charged p)

-- A fresh rollback of this probation is granted, and charged unless it is direct or was before.
abbrev pub authorize_fresh :
    EndpointController → Probation → LockedFile → ℕ → ℕ → ℕ → Bool × EndpointController
authorize_fresh c p file now_ms wall_now cur =
    if not (holds (committed_fresh c now_ms cur) p.rollback)
    then (false, c)
    else if p.rollback_authorized || p.direct_return
    then (true, authorize c p)
    else authorized_after p (charge_fallback c file wall_now p.rollback)

abbrev pub rollback_due_from :
    EndpointController
    → LockedFile
    → ℕ
    → ℕ
    → Option ℕ
    → Option Probation
    → Bool × EndpointController
rollback_due_from c file now_ms wall_now (some cur) (some p) =
    if p.candidate == cur && has_come p.rollback_at_ms now_ms
    then authorize_fresh c p file now_ms wall_now cur
    else (false, c)
rollback_due_from c file now_ms wall_now cur p = (false, c)

unfoldable pub probation_rollback_due_at :
    EndpointController → LockedFile → ℕ → ℕ → Bool × EndpointController
unfolding committed_fresh charge_fallback
probation_rollback_due_at c file now_ms wall_now =
    rollback_due_from c file now_ms wall_now (current_v4 c) c.probation

abbrev pub operator_from :
    EndpointController
    → LockedFile
    → ℕ
    → ℕ
    → ℕ
    → Option ℕ
    → Option Probation
    → Bool × EndpointController
operator_from c file expected now_ms wall_now (some cur) (some p) =
    if cur == expected && p.candidate == expected
    then authorize_fresh c p file now_ms wall_now cur
    else (false, c)
operator_from c file expected now_ms wall_now cur p = (false, c)

unfoldable pub authorize_operator_rollback_at :
    EndpointController → LockedFile → ℕ → ℕ → ℕ → Bool × EndpointController
unfolding committed_fresh charge_fallback
authorize_operator_rollback_at c file expected now_ms wall_now =
    operator_from c file expected now_ms wall_now (current_v4 c) c.probation

unfoldable pub on_session_ended : EndpointController → EndpointController
on_session_ended c = record c { current_authenticated = false }

abbrev pub is_committed : Option ℕ → Option ℕ → Bool
is_committed none committed = false
is_committed (some cur) committed = holds committed cur

unfoldable pub request_refresh : EndpointController → EndpointController
unfolding on_success
request_refresh c =
    if is_dynamic c.spec
    then record c {
      attended_cutover = c.current_authenticated && is_committed (current_v4 c) c.committed_good;
      force_refresh = true;
      backoff = on_success c.backoff;
    }
    else c
