-- ===== src/Endpoint/Controller/OnCycle.antt =====
-- `on_cycle_with_clock` as a whole: the query, and the choice by the reason.
use udp2raw_rust.Prelude.{
  ℕ, ◌+◌, ◌≡◌, refl, ap, ◌∙◌, inl, inr, Bool, true, false, not, ◌&&◌, ◌||◌, Option, none, some,
  List, ◌==◌, Bool-cases, IfSome, length,
}
use udp2raw_rust.Dns.{contains, retain, is_safe}
use udp2raw_rust.Dns.Canonical.{canonical-Climbs, retained}
use udp2raw_rust.Endpoint.Backoff.{ready}
use udp2raw_rust.Endpoint.Controller.{
  CycleReason, startup, attempt_failed, session_lost, forced, probation_expired, operator_rollback,
  Probation, EndpointController, holds, current_v4, is_dynamic, start_preferred_round,
  round_expired, head, order_candidates,
}
use udp2raw_rust.Endpoint.Controller.Select.{
  LockedFile, Answer, failed, answered, read_answer, take_answer, query,
}
use udp2raw_rust.Endpoint.Controller.Cycle.{
  select_rollback, rollback_of, outlasts, forced_to, forced_after, select_forced, select_v4,
  select_from, select, World, refresh_candidates, round_started, is_due, is_lost, starts_round,
  on_cycle_with_clock,
}
use udp2raw_rust.Endpoint.Controller.Safety.{
  IsWellFormed, IsSafeStep, Keeps, IsSafeStep-after, switch_to-IsSafeStep, stay-IsSafeStep,
  order-IsWellFormed,
}
use udp2raw_rust.Endpoint.Controller.Offers.{
  self-Keeps, Keeps-trans, start_preferred_round-Keeps, unattended-Keeps,
}
use udp2raw_rust.Endpoint.Controller.CycleSafety.{
  kept-IsSafeStep, head-contains, select_attempt_failed-IsSafeStep, select_session_lost-IsSafeStep,
}

rollback_of-IsSafeStep :
    (c : EndpointController) (o : Option Probation)
    → IsWellFormed c
    → IfSome (λ (p : Probation). holds c.committed_good p.rollback ≡ true) o
    → IsSafeStep c (rollback_of c o)
rollback_of-IsSafeStep c none w h = stay-IsSafeStep c w
rollback_of-IsSafeStep c (some p) w h =
    let d = record c { probation = none; attended_cutover = false } in
    let k : Keeps c d = (
      record {
        spec = refl;
        policy = refl;
        allow_private = refl;
        current = refl;
        current_authenticated = refl;
        committed_good = refl;
      },
      record { few = w.few; safe = w.safe; honest = tt },
    ) in
    elim (Bool-cases (not p.rollback_authorized)) [
      | inl denied ↦ rw denied (stay-IsSafeStep c w)
      | inr granted ↦
          rw granted (IsSafeStep-after c d _ k (switch_to-IsSafeStep d p.rollback k.1 (inl h)))
    ]

select_rollback-IsSafeStep :
    (c : EndpointController) → IsWellFormed c → IsSafeStep c (select_rollback c)
unfolding select_rollback
select_rollback-IsSafeStep c w = rollback_of-IsSafeStep c c.probation w w.honest

forced_to-IsSafeStep :
    (c : EndpointController) (now_ms cur : ℕ) (o : Option ℕ)
    → IsWellFormed c
    → IfSome (λ t. contains t c.candidates ≡ true) o
    → IsSafeStep c (forced_to c now_ms cur o)
forced_to-IsSafeStep c now_ms cur none w h = kept-IsSafeStep c _ (unattended-Keeps c w)
forced_to-IsSafeStep c now_ms cur (some target) w h =
    let s = start_preferred_round c now_ms in
    let k = start_preferred_round-Keeps c now_ms w in
    elim (Bool-cases (target == cur)) [
      | inl same ↦ rw same (kept-IsSafeStep c _ (unattended-Keeps c w))
      | inr other ↦
          elim (Bool-cases
            ((s.policy.enabled && holds s.committed_good cur) && not (outlasts s now_ms))) [
              | inl short ↦
                  rw (other, short)
                    (kept-IsSafeStep c _ (Keeps-trans c s _ k (unattended-Keeps s k.1)))
              | inr long ↦
                  rw (other, long)
                    (IsSafeStep-after c s _ k (
                      switch_to-IsSafeStep s target k.1
                        (inr (ap (λ p. is_safe p target) k.0.allow_private ∙ w.safe target h))))
            ]
    ]

forced_after-IsSafeStep :
    (c : EndpointController) (now_ms cur : ℕ) (q : Option Bool)
    → IsWellFormed c
    → IsSafeStep c (forced_after c now_ms cur q)
forced_after-IsSafeStep c now_ms cur (some true) w =
    forced_to-IsSafeStep c now_ms cur (head c.candidates) w (head-contains c.candidates)
forced_after-IsSafeStep c now_ms cur (some false) w = kept-IsSafeStep c _ (unattended-Keeps c w)
forced_after-IsSafeStep c now_ms cur none w = kept-IsSafeStep c _ (unattended-Keeps c w)

select_forced-IsSafeStep :
    (c : EndpointController) (now_ms cur : ℕ) (q : Option Bool)
    → IsWellFormed c
    → IsSafeStep c (select_forced c now_ms cur q)
unfolding select_forced
select_forced-IsSafeStep c now_ms cur q w = elim (Bool-cases (round_expired c now_ms)) [
  | inl over ↦ rw over (
      kept-IsSafeStep c _ (
        record {
          spec = refl;
          policy = refl;
          allow_private = refl;
          current = refl;
          current_authenticated = refl;
          committed_good = refl;
        },
        record { few = w.few; safe = w.safe; honest = w.honest },
      ))
  | inr running ↦ rw running (forced_after-IsSafeStep c now_ms cur q w)
]

module _ (c : EndpointController) (first second : LockedFile) (now_ms wall_now : ℕ)
    (q : Option Bool) (w : IsWellFormed c) where
  select_v4-IsSafeStep :
      (reason : CycleReason) (cur : ℕ)
      → IsSafeStep c (select_v4 reason c first second now_ms wall_now q cur)
  unfolding select_v4
  select_v4-IsSafeStep probation_expired cur = select_rollback-IsSafeStep c w
  select_v4-IsSafeStep operator_rollback cur = select_rollback-IsSafeStep c w
  select_v4-IsSafeStep forced cur = select_forced-IsSafeStep c now_ms cur q w
  select_v4-IsSafeStep attempt_failed cur =
      select_attempt_failed-IsSafeStep c first second now_ms wall_now cur w
  select_v4-IsSafeStep session_lost cur =
      select_session_lost-IsSafeStep c first now_ms wall_now cur w
  select_v4-IsSafeStep startup cur = stay-IsSafeStep c w

  select_from-IsSafeStep :
      (reason : CycleReason) (o : Option ℕ)
      → IsSafeStep c (select_from reason c first second now_ms wall_now q o)
  select_from-IsSafeStep reason none = stay-IsSafeStep c w
  select_from-IsSafeStep reason (some cur) = select_v4-IsSafeStep reason cur

  select-IsSafeStep :
      (reason : CycleReason) → IsSafeStep c (select reason c first second now_ms wall_now q)
  unfolding select
  select-IsSafeStep reason = select_from-IsSafeStep reason (current_v4 c)

take_answer-Keeps :
    (c : EndpointController) (addrs : List ℕ) (ttl now_ms : ℕ)
    → IsWellFormed c
    → Keeps c (take_answer c (retain (is_safe c.allow_private) addrs) ttl now_ms)
unfolding take_answer order_candidates
take_answer-Keeps c addrs ttl now_ms w =
    let safe = retain (is_safe c.allow_private) addrs in
    let shape = canonical-Climbs safe in
    (
      record {
        spec = refl;
        policy = refl;
        allow_private = refl;
        current = refl;
        current_authenticated = refl;
        committed_good = refl;
      },
      order-IsWellFormed _ (record {
        few = shape.1;
        safe = λ ip h. (retained (is_safe c.allow_private) addrs ip (shape.2 ip h)).1;
        honest = w.honest;
      }),
    )

read_answer-Keeps :
    (c : EndpointController) (a : Answer) (random now_ms : ℕ)
    → IsWellFormed c
    → Keeps c (read_answer c a random now_ms).1
read_answer-Keeps c failed random now_ms w = (
  record {
    spec = refl;
    policy = refl;
    allow_private = refl;
    current = refl;
    current_authenticated = refl;
    committed_good = refl;
  },
  record { few = w.few; safe = w.safe; honest = w.honest },
)
read_answer-Keeps c (answered addrs ttl) random now_ms w =
    elim (Bool-cases (length (retain (is_safe c.allow_private) addrs) == 0)) [
      | inl empty ↦ rw empty (
        record {
          spec = refl;
          policy = refl;
          allow_private = refl;
          current = refl;
          current_authenticated = refl;
          committed_good = refl;
        },
        record { few = w.few; safe = w.safe; honest = w.honest },
      )
      | inr usable ↦ rw usable (take_answer-Keeps c addrs ttl now_ms w)
    ]

query-Keeps :
    (c : EndpointController) (a : Answer) (random now_ms : ℕ)
    → IsWellFormed c
    → Keeps c (query c a random now_ms).1
unfolding query
query-Keeps c a random now_ms w =
    let asked = record c { queries = c.queries + 1 } in
    let k : Keeps c asked = (
      record {
        spec = refl;
        policy = refl;
        allow_private = refl;
        current = refl;
        current_authenticated = refl;
        committed_good = refl;
      },
      record { few = w.few; safe = w.safe; honest = w.honest },
    ) in
    elim (Bool-cases (not (is_dynamic c.spec))) [
      | inl fixed ↦ rw fixed (self-Keeps c w)
      | inr dynamic ↦
          rw dynamic (Keeps-trans c asked _ k (read_answer-Keeps asked a random now_ms k.1))
    ]

round_started-Keeps :
    (reason : CycleReason) (c : EndpointController) (now_ms : ℕ)
    → IsWellFormed c
    → Keeps c (round_started reason c now_ms)
round_started-Keeps reason c now_ms w = elim (Bool-cases (starts_round reason)) [
  | inl starts ↦ rw starts (start_preferred_round-Keeps c now_ms w)
  | inr quiet ↦ rw quiet (self-Keeps c w)
]

refresh_candidates-Keeps :
    (c : EndpointController) (world : World)
    → IsWellFormed c
    → Keeps c (refresh_candidates c world).1
unfolding refresh_candidates
refresh_candidates-Keeps c world w =
    let d = record c { force_refresh = false } in
    let k : Keeps c d = (
      record {
        spec = refl;
        policy = refl;
        allow_private = refl;
        current = refl;
        current_authenticated = refl;
        committed_good = refl;
      },
      record { few = w.few; safe = w.safe; honest = w.honest },
    ) in
    elim (Bool-cases (ready c.backoff world.now_ms)) [
      | inl go ↦
          rw go (Keeps-trans c d _ k (query-Keeps d world.answer world.random world.now_ms k.1))
      | inr wait ↦ rw wait (self-Keeps c w)
    ]

-- A cycle, for any reason, clocks, resolver answer and budget file, never changes the committed
-- address and keeps the controller well-formed: at most eight candidates, all accepted by the
-- address policy, and a probation that returns to the committed address. A switch goes from the
-- current address to another one on the configured port, which is the committed address or one that
-- the address policy accepts, and the new address is not authenticated; without a switch the address
-- stays.
pub on_cycle-IsSafeStep :
    (reason : CycleReason) (c : EndpointController) (world : World)
    → IsWellFormed c
    → IsSafeStep c (on_cycle_with_clock reason c world)
unfolding on_cycle_with_clock
on_cycle-IsSafeStep reason c world w =
    let d = record c {
      reconnect_refresh_pending = is_lost reason || c.reconnect_refresh_pending;
    } in
    let k : Keeps c d = (
      record {
        spec = refl;
        policy = refl;
        allow_private = refl;
        current = refl;
        current_authenticated = refl;
        committed_good = refl;
      },
      record { few = w.few; safe = w.safe; honest = w.honest },
    ) in
    let s = round_started-Keeps reason d world.now_ms k.1 in
    let r = refresh_candidates-Keeps _ world s.1 in
    elim (Bool-cases (not (is_dynamic c.spec))) [
      | inl fixed ↦ rw fixed (stay-IsSafeStep c w)
      | inr dynamic ↦ elim (Bool-cases (is_due d world.now_ms)) [
        | inl due ↦
            rw (dynamic, due)
              (IsSafeStep-after c _ _ (Keeps-trans c d _ k (Keeps-trans d _ _ s r)) (
                select-IsSafeStep _ world.first world.second world.later_ms world.later_wall _ r.1
                  reason))
        | inr early ↦
            rw (dynamic, early)
              (IsSafeStep-after c d _ k (
                select-IsSafeStep d world.first world.second world.now_ms world.wall_now none k.1
                  reason))
      ]
    ]
