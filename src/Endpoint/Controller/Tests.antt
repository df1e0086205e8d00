-- ===== src/Endpoint/Controller/Tests.antt =====
-- The theorems on the controller at a concrete state.
use udp2raw_rust.Prelude.{
  ℕ, ◌≡◌, refl, sym, subst, true, false, ◌||◌, none, some, List, [], ◌∷◌, arith, ◌==◌,
}
use udp2raw_rust.Dns.{check_endpoint_ip, is_safe}
use udp2raw_rust.Endpoint.Controller.{EndpointController, hostname, v4, attempt_failed}
use udp2raw_rust.Endpoint.Controller.Select.{LockedFile, absent, answered}
use udp2raw_rust.Endpoint.Controller.Cycle.{World, on_cycle_with_clock}
use udp2raw_rust.Endpoint.Controller.Safety.{IsWellFormed, IsSafeStep}
use udp2raw_rust.Endpoint.Controller.OnCycle.{on_cycle-IsSafeStep}
use udp2raw_rust.Endpoint.Controller.Committed.{IsCommitted}
use udp2raw_rust.Endpoint.Controller.Trust.{
  cycle, authenticated, activity, session_ended, operate_all, operate_all-IsCommitted, Operation,
}
use udp2raw_rust.Endpoint.Controller.Promotion.{Says, promote_candidate-Says}
use udp2raw_rust.Endpoint.Controller.Lifecycle.{promote_candidate}
use udp2raw_rust.Endpoint.Tests.{policy}

-- Committed to 1.1.1.1, which just failed, while DNS lists 8.8.8.8.
abbrev controller : EndpointController
controller = record {
  spec = hostname (114 ∷ 46 ∷ 110 ∷ []) 4096;
  allow_private = false;
  has_cache_file = true;
  policy = policy;
  current = record { ip = v4 16843009; port = 4096 };
  current_authenticated = false;
  committed_good = some 16843009;
  cache_fresh_until_ms = none;
  committed_runtime_activity_ms = some 90000;
  candidates = 134744072 ∷ [];
  expires_at_ms = some 60000;
  backoff = record { failures = 0; not_before_ms = 0; min_ms = 2000; max_ms = 60000 };
  force_refresh = false;
  reconnect_refresh_pending = false;
  queries = 1;
  preferred_failures = 0;
  preferred_round_deadline_ms = none;
  preferred_attempts = 0;
  attended_cutover = false;
  probation = none;
  fallback_state = record { global_tokens = 4; global_updated_unix_secs = 1000; entries = [] };
  has_fallback_state_path = true;
  fallback_state_usable = true;
}

abbrev locked : LockedFile
locked = record { content = absent; written = true }

abbrev world : World
world = record {
  now_ms = 100000;
  wall_now = 2000;
  later_ms = 100500;
  later_wall = 2001;
  answer = answered (134744072 ∷ 167772161 ∷ []) 300;
  random = 7;
  first = locked;
  second = locked;
}

controller-IsWellFormed : IsWellFormed controller
unfolding check_endpoint_ip
controller-IsWellFormed = record {
  few = omega arith;
  safe = λ ip h. subst (λ t. is_safe false t ≡ true) (sym (only ip h)) refl;
  honest = tt;
}
  where
    only : (ip : ℕ) → ((ip == 134744072) || false) ≡ true → ip ≡ 134744072
    only ip h = ground arith

on_cycle-IsSafeStep_example :
    IsSafeStep controller (on_cycle_with_clock attempt_failed controller world)
on_cycle-IsSafeStep_example =
    on_cycle-IsSafeStep attempt_failed controller world controller-IsWellFormed

-- The switch to 8.8.8.8, its handshake, some data, and the loss of the session.
abbrev operations : List Operation
operations =
    cycle attempt_failed world ∷ authenticated 101000 ∷ activity 102000 true ∷ session_ended ∷ []

operate_all-IsCommitted_example : IsCommitted 16843009 (operate_all controller operations)
operate_all-IsCommitted_example =
    operate_all-IsCommitted 16843009 operations controller
      (record { enabled = refl; committed = refl; well_formed = controller-IsWellFormed })

-- 8.8.8.8 on probation, with data for 30 seconds.
abbrev proven : EndpointController
proven = record controller {
  current = record { ip = v4 134744072; port = 4096 };
  current_authenticated = true;
  probation = some (record {
    candidate = 134744072;
    rollback = 16843009;
    authenticated_at_ms = 101000;
    direct_return = false;
    rollback_at_ms = some 300000;
    rollback_authorized = false;
    first_data_ms = some 102000;
    last_data_ms = some 133000;
    data_packets = 40;
  });
}

promote_candidate-Says_example :
    Says proven 134744072 134000
      (promote_candidate proven 134744072 134000 true).0
      (promote_candidate proven 134744072 134000 true).1
promote_candidate-Says_example = promote_candidate-Says proven 134744072 134000 true
