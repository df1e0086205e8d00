-- ===== src/Endpoint/Controller/Cycle.antt =====
-- src/endpoint.rs: `select`, by the reason of the cycle, and `on_cycle_with_clock`.
use udp2raw_rust.Prelude.{
  ℕ, max, Bool, true, false, not, ◌&&◌, ◌||◌, Option, none, some, leb, ◌==◌, if◌then◌else◌, length,
  sat_add, sat_add32,
}
use udp2raw_rust.Dns.{contains, canonical}
use udp2raw_rust.Endpoint.Backoff.{ready}
use udp2raw_rust.Endpoint.Controller.{
  is_dynamic, CycleReason, startup, attempt_failed, session_lost, forced, probation_expired,
  operator_rollback, EndpointController, holds, current_v4, committed_health_deadline,
  committed_fresh, start_preferred_round, round_expired, head, next_dns_candidate, Outcome,
  switch_to, Probation,
}
use udp2raw_rust.Endpoint.Controller.Select.{
  LockedFile, charge_fallback, Answer, query, probation_return,
}

-- CLIENT_HANDSHAKE_TIMEOUT_MS, and 2 * TIMER_INTERVAL_MS
abbrev pub client_handshake_timeout_ms : ℕ
client_handshake_timeout_ms = 5000

abbrev pub two_timer_intervals_ms : ℕ
two_timer_intervals_ms = 800

abbrev pub stay : EndpointController → Outcome
stay c = (none, c)

-- `return self.switch_to(target)` where there is a target, and the rest of the function otherwise.
abbrev pub switch_or : Option ℕ × EndpointController → (EndpointController → Outcome) → Outcome
switch_or (some target, c) rest = switch_to c target
switch_or (none, c) rest = rest c

abbrev pub rollback_of : EndpointController → Option Probation → Outcome
rollback_of c none = stay c
rollback_of c (some p) =
    if not p.rollback_authorized
    then stay c
    else switch_to (record c { probation = none; attended_cutover = false }) p.rollback

unfoldable pub select_rollback : EndpointController → Outcome
select_rollback c = rollback_of c c.probation

abbrev pub unattended : EndpointController → EndpointController
unattended c = record c { attended_cutover = false }

abbrev pub unwrap_or : Option ℕ → ℕ → ℕ
unwrap_or none d = d
unwrap_or (some x) d = x

-- Whether the committed address stays fresh for the whole attempt and its probation.
abbrev pub outlasts : EndpointController → ℕ → Bool
outlasts c now_ms =
    let round_deadline = unwrap_or c.preferred_round_deadline_ms now_ms in
    let required_through =
      sat_add (sat_add (sat_add round_deadline client_handshake_timeout_ms) c.policy.probation_ms)
        two_timer_intervals_ms in
    elim (committed_health_deadline c now_ms) [ some d ↦ leb required_through d.1 | none ↦ false ]

abbrev pub forced_to : EndpointController → ℕ → ℕ → Option ℕ → Outcome
forced_to c now_ms cur none = stay (unattended c)
forced_to c now_ms cur (some target) =
    if target == cur
    then stay (unattended c)
    else (let s = start_preferred_round c now_ms in
        if (s.policy.enabled && holds s.committed_good cur) && not (outlasts s now_ms)
        then stay (unattended s)
        else switch_to s target)

abbrev pub forced_after : EndpointController → ℕ → ℕ → Option Bool → Outcome
forced_after c now_ms cur (some true) = forced_to c now_ms cur (head c.candidates)
forced_after c now_ms cur (some false) = stay (unattended c)
forced_after c now_ms cur none = stay (unattended c)

unfoldable pub select_forced : EndpointController → ℕ → ℕ → Option Bool → Outcome
unfolding start_preferred_round committed_health_deadline
select_forced c now_ms cur query_succeeded =
    if round_expired c now_ms
    then stay (record c { preferred_round_deadline_ms = none; attended_cutover = false })
    else forced_after c now_ms cur query_succeeded

abbrev pub switch_unless : EndpointController → ℕ → Option ℕ → Outcome
switch_unless c cur none = stay c
switch_unless c cur (some next) = if next == cur then stay c else switch_to c next

-- The next DNS candidate, if it is another address.
unfoldable pub try_next : EndpointController → ℕ → Outcome
unfolding next_dns_candidate
try_next c cur = switch_unless c cur (next_dns_candidate c cur)

abbrev pub end_round : EndpointController → EndpointController
end_round c = record c { preferred_round_deadline_ms = none; preferred_attempts = 0 }

abbrev pub elsewhere : Option ℕ → ℕ → Option ℕ
elsewhere none cur = none
elsewhere (some ip) cur = if ip == cur then none else some ip

abbrev pub probed : ℕ → Bool × EndpointController → Option ℕ × EndpointController
probed good (false, charged) = (none, charged)
probed good (true, charged) = (some good, record charged { preferred_round_deadline_ms = none })

abbrev pub probe_fresh :
    EndpointController → LockedFile → ℕ → Option ℕ → Option ℕ × EndpointController
probe_fresh c file wall_now none = (none, c)
probe_fresh c file wall_now (some good) = probed good (charge_fallback c file wall_now good)

-- The charged probe of the committed address, where it is due.
unfoldable pub fallback_probe :
    EndpointController → LockedFile → ℕ → ℕ → ℕ → Option ℕ × EndpointController
unfolding committed_fresh charge_fallback canonical
fallback_probe c file now_ms wall_now cur =
    let candidate_count = max (length (canonical c.candidates)) 1 in
    let due =
      round_expired c now_ms
      || (leb c.policy.after_failures c.preferred_failures
          && leb candidate_count c.preferred_attempts) in
    if not due then (none, c) else probe_fresh c file wall_now (committed_fresh c now_ms cur)

abbrev pub count_failure : EndpointController → EndpointController
count_failure c = record c {
  preferred_failures = sat_add32 c.preferred_failures 1;
  preferred_attempts = sat_add32 c.preferred_attempts 1;
}

abbrev pub next_or_end : EndpointController → ℕ → ℕ → Outcome
next_or_end c now_ms cur = if round_expired c now_ms then stay (end_round c) else try_next c cur

-- The end of the branch for a failed attempt, from the test of the committed address on.
unfoldable pub attempt_again : EndpointController → LockedFile → ℕ → ℕ → ℕ → Outcome
unfolding start_preferred_round try_next fallback_probe
attempt_again c file now_ms wall_now cur =
    if holds c.committed_good cur
    then (if round_expired c now_ms
        then stay (end_round c)
        else try_next (start_preferred_round c now_ms) cur)
    else switch_or
        (fallback_probe (count_failure (start_preferred_round c now_ms)) file now_ms wall_now cur)
        (λ d. next_or_end d now_ms cur)

abbrev pub unattended_to : EndpointController → Option ℕ → Option ℕ × EndpointController
unattended_to c none = (none, c)
unattended_to c (some rollback) = (some rollback, unattended c)

unfoldable pub attended_return : EndpointController → ℕ → Option ℕ × EndpointController
attended_return c cur =
    if c.attended_cutover then unattended_to c (elsewhere c.committed_good cur) else (none, c)

-- `second` is the file at the second charge of the same call, if there is one.
unfoldable pub select_attempt_failed :
    EndpointController → LockedFile → LockedFile → ℕ → ℕ → ℕ → Outcome
unfolding probation_return attended_return attempt_again
select_attempt_failed c first second now_ms wall_now cur =
    switch_or (probation_return c first now_ms wall_now cur)
      (λ d. switch_or (attended_return d cur) (λ e. attempt_again e second now_ms wall_now cur))

abbrev pub leave_dead : EndpointController → ℕ → ℕ → Outcome
leave_dead c now_ms cur =
    if holds c.committed_good cur && not (contains cur c.candidates)
    then (let s = start_preferred_round c now_ms in
        switch_or (head (canonical s.candidates), s) stay)
    else stay c

unfoldable pub select_session_lost : EndpointController → LockedFile → ℕ → ℕ → ℕ → Outcome
unfolding probation_return start_preferred_round canonical
select_session_lost c first now_ms wall_now cur =
    switch_or (probation_return c first now_ms wall_now cur) (λ d. leave_dead d now_ms cur)

unfoldable pub select_v4 :
    CycleReason → EndpointController → LockedFile → LockedFile → ℕ → ℕ → Option Bool → ℕ → Outcome
unfolding select_rollback select_forced select_attempt_failed select_session_lost
select_v4 probation_expired c first second now_ms wall_now queried cur = select_rollback c
select_v4 operator_rollback c first second now_ms wall_now queried cur = select_rollback c
select_v4 forced c first second now_ms wall_now queried cur = select_forced c now_ms cur queried
select_v4 attempt_failed c first second now_ms wall_now queried cur =
    select_attempt_failed c first second now_ms wall_now cur
select_v4 session_lost c first second now_ms wall_now queried cur =
    select_session_lost c first now_ms wall_now cur
select_v4 startup c first second now_ms wall_now queried cur = stay c

abbrev pub select_from :
    CycleReason
    → EndpointController
    → LockedFile
    → LockedFile
    → ℕ
    → ℕ
    → Option Bool
    → Option ℕ
    → Outcome
select_from reason c first second now_ms wall_now queried none = stay c
select_from reason c first second now_ms wall_now queried (some cur) =
    select_v4 reason c first second now_ms wall_now queried cur

unfoldable pub select :
    CycleReason → EndpointController → LockedFile → LockedFile → ℕ → ℕ → Option Bool → Outcome
unfolding select_v4
select reason c first second now_ms wall_now queried =
    select_from reason c first second now_ms wall_now queried (current_v4 c)

-- What a cycle reads from outside: the clocks before and after the query, the resolver's answer, the
-- jitter, and the budget file at each of its two possible uses.
pub record World : Type 0 where
  pub now_ms : ℕ
  pub wall_now : ℕ
  pub later_ms : ℕ
  pub later_wall : ℕ
  pub answer : Answer
  pub random : ℕ
  pub first : LockedFile
  pub second : LockedFile

abbrev pub is_lost : CycleReason → Bool
is_lost session_lost = true
is_lost reason = false

abbrev pub starts_round : CycleReason → Bool
starts_round forced = true
starts_round session_lost = true
starts_round attempt_failed = true
starts_round reason = false

abbrev pub round_started : CycleReason → EndpointController → ℕ → EndpointController
round_started reason c now_ms = if starts_round reason then start_preferred_round c now_ms else c

-- The query step of a cycle: its success, if it was made.
unfoldable pub refresh_candidates : EndpointController → World → Option Bool × EndpointController
unfolding start_preferred_round query ready
refresh_candidates c w =
    if ready c.backoff w.now_ms
    then (let q = query (record c { force_refresh = false }) w.answer w.random w.now_ms in
        (some q.0, q.1))
    else (none, c)

abbrev pub is_expired : Option ℕ → ℕ → Bool
is_expired none now_ms = true
is_expired (some t) now_ms = leb t now_ms

abbrev pub is_due : EndpointController → ℕ → Bool
is_due c now_ms =
    c.force_refresh
    || c.reconnect_refresh_pending
    || is_expired c.expires_at_ms now_ms
    || length c.candidates == 0

unfoldable pub on_cycle_with_clock : CycleReason → EndpointController → World → Outcome
unfolding select refresh_candidates
on_cycle_with_clock reason c w =
    if not (is_dynamic c.spec)
    then stay c
    else (let d = record c {
      reconnect_refresh_pending = is_lost reason || c.reconnect_refresh_pending;
    } in
        if is_due d w.now_ms
        then (let r = refresh_candidates (round_started reason d w.now_ms) w in
            select reason r.1 w.first w.second w.later_ms w.later_wall r.0)
        else select reason d w.first w.second w.now_ms w.wall_now none)
