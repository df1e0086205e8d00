-- ===== src/Endpoint/Controller/Trust.antt =====
-- Sequences of operations on the controller, and the committed address under them.
use udp2raw_rust.Endpoint.Controller.Select.{LockedFile}
use udp2raw_rust.Prelude.{ℕ, ap, ◌∙◌, Bool, List, [], ◌∷◌}
use udp2raw_rust.Endpoint.Controller.{CycleReason, EndpointController, current_v4}
use udp2raw_rust.Endpoint.Controller.Cycle.{World, on_cycle_with_clock}
use udp2raw_rust.Endpoint.Controller.OnCycle.{on_cycle-IsSafeStep}
use udp2raw_rust.Endpoint.Controller.Lifecycle.{
  on_authenticated_at, on_authenticated_activity, on_session_ended, request_refresh,
  probation_rollback_due_at, authorize_operator_rollback_at,
}
use udp2raw_rust.Endpoint.Controller.Committed.{
  IsCommitted, authenticated_from-IsCommitted, active_from-IsCommitted, request_refresh-IsCommitted,
  rollback_due_from-IsCommitted, operator_from-IsCommitted,
}

-- What the client calls, promotions aside: the timer and the operator may ask for a rollback.
pub data Operation : Type 0 where
  cycle : CycleReason → World → Operation
  authenticated : ℕ → Operation
  activity : ℕ → Bool → Operation
  session_ended refresh : Operation
  rollback_timer : LockedFile → ℕ → ℕ → Operation
  rollback_request : LockedFile → ℕ → ℕ → ℕ → Operation

unfoldable pub operate : EndpointController → Operation → EndpointController
unfolding on_cycle_with_clock on_authenticated_at on_authenticated_activity on_session_ended
    request_refresh probation_rollback_due_at authorize_operator_rollback_at
operate c (cycle reason world) = (on_cycle_with_clock reason c world).1
operate c (authenticated now_ms) = (on_authenticated_at c now_ms).1
operate c (activity now_ms is_data) = on_authenticated_activity c now_ms is_data
operate c session_ended = on_session_ended c
operate c refresh = request_refresh c
operate c (rollback_timer file now_ms wall_now) =
    (probation_rollback_due_at c file now_ms wall_now).1
operate c (rollback_request file expected now_ms wall_now) =
    (authorize_operator_rollback_at c file expected now_ms wall_now).1

unfoldable pub operate_all : EndpointController → List Operation → EndpointController
unfolding operate
operate_all c [] = c
operate_all c (o ∷ later) = operate_all (operate c o) later

operate-IsCommitted :
    (good : ℕ) (o : Operation) (c : EndpointController)
    → IsCommitted good c
    → IsCommitted good (operate c o)
unfolding operate on_authenticated_at on_authenticated_activity on_session_ended
    probation_rollback_due_at authorize_operator_rollback_at
operate-IsCommitted good (cycle reason world) c h =
    let step = on_cycle-IsSafeStep reason c world h.well_formed in
    record {
      enabled = ap (λ p. p.enabled) step.policy ∙ h.enabled;
      committed = step.committed_good ∙ h.committed;
      well_formed = step.well_formed;
    }
operate-IsCommitted good (authenticated now_ms) c h =
    authenticated_from-IsCommitted good c now_ms (current_v4 c) h
operate-IsCommitted good (activity now_ms is_data) c h =
    active_from-IsCommitted good c now_ms is_data (current_v4 c) h
operate-IsCommitted good session_ended c h =
    let w = h.well_formed in
    record {
      enabled = h.enabled;
      committed = h.committed;
      well_formed = record { few = w.few; safe = w.safe; honest = w.honest };
    }
operate-IsCommitted good refresh c h = request_refresh-IsCommitted good c h
operate-IsCommitted good (rollback_timer file now_ms wall_now) c h =
    rollback_due_from-IsCommitted good c file now_ms wall_now h (current_v4 c) c.probation
      h.well_formed.honest
operate-IsCommitted good (rollback_request file expected now_ms wall_now) c h =
    operator_from-IsCommitted good c file now_ms wall_now h expected (current_v4 c) c.probation
      h.well_formed.honest

-- With the fallback enabled and an address committed, no sequence of cycles, handshakes, packets,
-- session ends, refresh requests and rollback authorizations changes the committed address, whatever
-- the clocks, the resolver and the budget file give: a candidate that merely authenticates is never
-- committed. The controller stays well-formed.
pub operate_all-IsCommitted :
    (good : ℕ) (operations : List Operation) (c : EndpointController)
    → IsCommitted good c
    → IsCommitted good (operate_all c operations)
unfolding operate_all
operate_all-IsCommitted good [] c h = h
operate_all-IsCommitted good (o ∷ later) c h =
    operate_all-IsCommitted good later (operate c o) (operate-IsCommitted good o c h)
