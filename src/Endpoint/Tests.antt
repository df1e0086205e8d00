-- ===== src/Endpoint/Tests.antt =====
-- The theorems of src/endpoint.rs at concrete inputs.
use udp2raw_rust.Prelude.{◌+◌, ◌-◌, ◌*◌, ◌≤◌, ◌≡◌, true, List, [], ◌∷◌, arith, leb}
use udp2raw_rust.Endpoint.Backoff
use udp2raw_rust.Endpoint.Backoff.{
  Event, failed, succeeded, operate_all, streak, ready, on_failure, on_failure_waits,
}
use udp2raw_rust.Endpoint.Budget.{new, Policy, refill_secs, max_budget_entries}
use udp2raw_rust.Endpoint.Budget.Rate.{Attempt, granted, granted-le-lifetime, granted-le-paced}

-- A failure, a success, and then two failures in a row.
abbrev events : List Event
events = failed 7 100 ∷ succeeded ∷ failed 12345 500 ∷ failed 54321 4000 ∷ []

on_failure_waits_example :
    let (delay, after) = on_failure (operate_all (Backoff.new 2000 60000) events) 999 9000 in
    (2000 ≤ delay)
    × (6000 ≤ delay)
    × (delay ≤ 10001)
    × (ready after 17000 ≡ leb (9000 + delay) 17000)
unfolding streak
on_failure_waits_example =
    on_failure_waits 2000 60000 events 999 9000 17000 (omega arith) (omega arith) (omega arith)

-- The default policy, enabled.
abbrev pub policy : Policy
policy = record {
  enabled = true;
  after_failures = 3;
  max_attempts = 2;
  cooldown_ms = 300000;
  max_age_ms = 86400000;
  global_capacity = 4;
  global_refill_ms = 900000;
  preferred_round_timeout_ms = 30000;
  probation_ms = 30000;
  rollback_window_ms = 300000;
}

abbrev attempts : List Attempt
attempts =
    record { wall = 1000; candidate = 7; dns_set = 9 ∷ [] }
    ∷ record { wall = 1100; candidate = 7; dns_set = 9 ∷ [] }
    ∷ record { wall = 1400; candidate = 7; dns_set = 9 ∷ [] }
    ∷ record { wall = 9000; candidate = 7; dns_set = 9 ∷ [] }
    ∷ []

granted-le-lifetime_example : granted policy (new 4 1000) attempts ≤ max_budget_entries * 2
granted-le-lifetime_example =
    granted-le-lifetime policy (record { attempts_fit = omega arith; some_attempt = omega arith })
      1000 attempts

granted-le-paced_example :
    granted policy (new 4 1000) attempts * refill_secs policy
    ≤ 4 * refill_secs policy + (9000 - 1000)
granted-le-paced_example =
    granted-le-paced policy (omega arith) 1000 9000 (omega arith) attempts
      (omega arith, (omega arith, (omega arith, (omega arith, omega arith))))
