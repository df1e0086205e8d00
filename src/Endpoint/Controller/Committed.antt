-- ===== src/Endpoint/Controller/Committed.antt =====
-- Each operation but a promotion, on a controller with a committed address.
use udp2raw_rust.Endpoint.Controller.Select.{LockedFile}
use udp2raw_rust.Endpoint.Controller.Offers.{charge_fallback-Keeps}
use udp2raw_rust.Prelude.{
  ℕ, ◌≡◌, refl, sym, ap, ◌∙◌, subst, inl, inr, Bool, true, false, not, ◌&&◌, ◌||◌, Option, none,
  some, arith, ◌==◌, ==-refl, Bool-cases, IfSome,
}
use udp2raw_rust.Endpoint.Controller.{
  Probation, EndpointController, holds, is_dynamic, order_candidates, has_come, committed_fresh,
}
use udp2raw_rust.Endpoint.Controller.Safety.{IsWellFormed, order-IsWellFormed, Keeps}
use udp2raw_rust.Endpoint.Controller.Lifecycle.{
  authenticated_from, settle_on, authenticate, reset_round, commit, begin_probation, active_from,
  count_probation, max_gap, request_refresh, authorize, authorized_after, rollback_due_from,
  authorize_fresh, operator_from,
}

-- With the fallback enabled, `good` is committed and the controller is well-formed.
pub record IsCommitted (good : ℕ) (c : EndpointController) : Type 0 where
  pub enabled : c.policy.enabled ≡ true
  pub committed : c.committed_good ≡ some good
  pub well_formed : IsWellFormed c

commit_same :
    (good : ℕ) (c : EndpointController) (now_ms : ℕ)
    → IsCommitted good c
    → IsCommitted good (commit c good now_ms)
unfolding commit order_candidates
commit_same good c now_ms h =
    let w = h.well_formed in
    record {
      enabled = h.enabled;
      committed = refl;
      well_formed = order-IsWellFormed _ (record { few = w.few; safe = w.safe; honest = tt });
    }

begin_probation-IsCommitted :
    (good : ℕ) (c : EndpointController) (cur now_ms : ℕ)
    → IsCommitted good c
    → IsCommitted good (begin_probation c cur good now_ms)
unfolding begin_probation order_candidates
begin_probation-IsCommitted good c cur now_ms h =
    let w = h.well_formed in
    record {
      enabled = h.enabled;
      committed = h.committed;
      well_formed = order-IsWellFormed _ (record {
        few = w.few;
        safe = w.safe;
        honest = ap (λ g. holds g good) h.committed ∙ ==-refl good;
      });
    }

same_of :
    (enabled : Bool) (good cur : ℕ)
    → enabled ≡ true
    → (not enabled || good == cur) ≡ true
    → good ≡ cur
same_of enabled good cur on e = ground arith

settle_on-IsCommitted :
    (good : ℕ) (c : EndpointController) (cur now_ms : ℕ)
    → IsCommitted good c
    → IsCommitted good (settle_on c cur now_ms (some good)).1
settle_on-IsCommitted good c cur now_ms h =
    elim (Bool-cases (not c.policy.enabled || good == cur)) [
      | inl home ↦ rw home (
          subst (λ x. IsCommitted good (commit c x now_ms)) (same_of _ good cur h.enabled home)
            (commit_same good c now_ms h))
      | inr away ↦ rw away (begin_probation-IsCommitted good c cur now_ms h)
    ]

-- A write that the three facts do not read.
authenticate-IsCommitted :
    (good : ℕ) (c : EndpointController) → IsCommitted good c → IsCommitted good (authenticate c)
authenticate-IsCommitted good c h =
    let w = h.well_formed in
    record {
      enabled = h.enabled;
      committed = h.committed;
      well_formed = record { few = w.few; safe = w.safe; honest = w.honest };
    }

reset_round-IsCommitted :
    (good : ℕ) (c : EndpointController) → IsCommitted good c → IsCommitted good (reset_round c)
reset_round-IsCommitted good c h =
    let w = h.well_formed in
    record {
      enabled = h.enabled;
      committed = h.committed;
      well_formed = record { few = w.few; safe = w.safe; honest = w.honest };
    }

pub authenticated_from-IsCommitted :
    (good : ℕ) (c : EndpointController) (now_ms : ℕ) (o : Option ℕ)
    → IsCommitted good c
    → IsCommitted good (authenticated_from c now_ms o).1
authenticated_from-IsCommitted good c now_ms none h = authenticate-IsCommitted good c h
authenticated_from-IsCommitted good c now_ms (some cur) h =
    let d = reset_round (authenticate c) in
    subst (λ o. IsCommitted good (settle_on d cur now_ms o).1) (sym h.committed)
      (settle_on-IsCommitted good d cur now_ms
        (reset_round-IsCommitted good (authenticate c) (authenticate-IsCommitted good c h)))

count_probation-honest :
    (g : Option ℕ) (o : Option Probation) (cur gap now_ms : ℕ)
    → IfSome (λ (p : Probation). holds g p.rollback ≡ true) o
    → IfSome (λ (p : Probation). holds g p.rollback ≡ true) (count_probation o cur gap now_ms)
count_probation-honest g none cur gap now_ms h = tt
count_probation-honest g (some p) cur gap now_ms h = elim (Bool-cases (p.candidate == cur)) [
  | inl same ↦ rw same h
  | inr other ↦ rw other h
]

pub active_from-IsCommitted :
    (good : ℕ) (c : EndpointController) (now_ms : ℕ) (is_data : Bool) (o : Option ℕ)
    → IsCommitted good c
    → IsCommitted good (active_from c now_ms is_data o)
active_from-IsCommitted good c now_ms is_data none h = h
active_from-IsCommitted good c now_ms true (some cur) h =
    let w = h.well_formed in
    record {
      enabled = h.enabled;
      committed = h.committed;
      well_formed = record {
        few = w.few;
        safe = w.safe;
        honest =
            count_probation-honest c.committed_good c.probation cur (max_gap c) now_ms w.honest;
      };
    }
active_from-IsCommitted good c now_ms false (some cur) h =
    let w = h.well_formed in
    record {
      enabled = h.enabled;
      committed = h.committed;
      well_formed = record { few = w.few; safe = w.safe; honest = w.honest };
    }

pub request_refresh-IsCommitted :
    (good : ℕ) (c : EndpointController) → IsCommitted good c → IsCommitted good (request_refresh c)
unfolding request_refresh
request_refresh-IsCommitted good c h =
    let w = h.well_formed in
    elim (Bool-cases (is_dynamic c.spec)) [
      | inl dynamic ↦ rw dynamic (record {
        enabled = h.enabled;
        committed = h.committed;
        well_formed = record { few = w.few; safe = w.safe; honest = w.honest };
      })
      | inr fixed ↦ rw fixed h
    ]

Keeps-IsCommitted :
    (good : ℕ) (c d : EndpointController) → Keeps c d → IsCommitted good c → IsCommitted good d
Keeps-IsCommitted good c d k h = record {
  enabled = ap (λ p. p.enabled) k.0.policy ∙ h.enabled;
  committed = k.0.committed_good ∙ h.committed;
  well_formed = k.1;
}

authorize-IsCommitted :
    (good : ℕ) (c : EndpointController) (p : Probation)
    → holds c.committed_good p.rollback ≡ true
    → IsCommitted good c
    → IsCommitted good (authorize c p)
authorize-IsCommitted good c p hp h =
    let w = h.well_formed in
    record {
      enabled = h.enabled;
      committed = h.committed;
      well_formed = record { few = w.few; safe = w.safe; honest = hp };
    }

authorized_after-IsCommitted :
    (good : ℕ) (c : EndpointController) (p : Probation) (r : Bool × EndpointController)
    → holds c.committed_good p.rollback ≡ true
    → Keeps c r.1
    → IsCommitted good c
    → IsCommitted good (authorized_after p r).1
authorized_after-IsCommitted good c p (false, d) hp k h = Keeps-IsCommitted good c d k h
authorized_after-IsCommitted good c p (true, d) hp k h =
    authorize-IsCommitted good d p (ap (λ g. holds g p.rollback) k.0.committed_good ∙ hp)
      (Keeps-IsCommitted good c d k h)

module _ (good : ℕ) (c : EndpointController) (file : LockedFile) (now_ms wall_now : ℕ)
    (h : IsCommitted good c) where
  authorize_fresh-IsCommitted :
      (p : Probation) (cur : ℕ)
      → holds c.committed_good p.rollback ≡ true
      → IsCommitted good (authorize_fresh c p file now_ms wall_now cur).1
  authorize_fresh-IsCommitted p cur hp =
      elim (Bool-cases (not (holds (committed_fresh c now_ms cur) p.rollback))) [
        | inl stale ↦ rw stale h
        | inr fresh ↦ elim (Bool-cases (p.rollback_authorized || p.direct_return)) [
          | inl free ↦ rw (fresh, free) (authorize-IsCommitted good c p hp h)
          | inr charged ↦
              rw (fresh, charged)
                (authorized_after-IsCommitted good c p _ hp
                  (charge_fallback-Keeps c file wall_now p.rollback h.well_formed) h)
        ]
      ]

  pub rollback_due_from-IsCommitted :
      (cur : Option ℕ) (o : Option Probation)
      → IfSome (λ (p : Probation). holds c.committed_good p.rollback ≡ true) o
      → IsCommitted good (rollback_due_from c file now_ms wall_now cur o).1
  rollback_due_from-IsCommitted none none hp = h
  rollback_due_from-IsCommitted none (some p) hp = h
  rollback_due_from-IsCommitted (some cur) none hp = h
  rollback_due_from-IsCommitted (some cur) (some p) hp =
      elim (Bool-cases (p.candidate == cur && has_come p.rollback_at_ms now_ms)) [
        | inl due ↦ rw due (authorize_fresh-IsCommitted p cur hp)
        | inr early ↦ rw early h
      ]

  pub operator_from-IsCommitted :
      (expected : ℕ) (cur : Option ℕ) (o : Option Probation)
      → IfSome (λ (p : Probation). holds c.committed_good p.rollback ≡ true) o
      → IsCommitted good (operator_from c file expected now_ms wall_now cur o).1
  operator_from-IsCommitted expected none none hp = h
  operator_from-IsCommitted expected none (some p) hp = h
  operator_from-IsCommitted expected (some cur) none hp = h
  operator_from-IsCommitted expected (some cur) (some p) hp =
      elim (Bool-cases (cur == expected && p.candidate == expected)) [
        | inl asked ↦ rw asked (authorize_fresh-IsCommitted p cur hp)
        | inr other ↦ rw other h
      ]
