-- ===== src/Endpoint/Controller/Promotion.antt =====
-- src/endpoint.rs, `promote_candidate`: the branches of a promotion.
use udp2raw_rust.Prelude.{
  ℕ, ◌≤◌, ◌≡◌, refl, inl, inr, Bool, true, false, not, ◌&&◌, ◌||◌, Option, none, some, arith, ltb,
  ◌==◌, Bool-cases,
}
use udp2raw_rust.Endpoint.Controller.{
  Probation, EndpointController, holds, current_v4, is_dynamic, order_candidates,
}
use udp2raw_rust.Endpoint.Controller.Lifecycle.{
  PromotionResult, promoted, min_promotion_data_packets, span, idle, max_gap, rollback_over,
  promote_probation, promote_from, promote_candidate, commit,
}

-- The evidence for a promotion: the candidate is the authenticated current address, enough packets
-- of data came over at least the probation time, the last of them recently, and the rollback is open.
pub record IsEarned (c : EndpointController) (expected now_ms : ℕ) (p : Probation) : Type 0 where
  pub candidate : (p.candidate == expected) ≡ true
  pub active : (holds (current_v4 c) expected ≡ true) × (c.current_authenticated ≡ true)
  pub open_rollback : rollback_over c p expected now_ms p.rollback_at_ms ≡ false
  pub packets : min_promotion_data_packets ≤ p.data_packets
  pub sustained : c.policy.probation_ms ≤ span p.last_data_ms p.first_data_ms
  pub recent : idle p.last_data_ms now_ms ≤ max_gap c

-- What the result says of the new state `d`.
abbrev pub Says : EndpointController → ℕ → ℕ → PromotionResult → EndpointController → Type 0
Says c expected now_ms (promoted previous) d =
    ((p : Probation) × (c.probation ≡ some p)
      × (p.rollback ≡ previous)
      × IsEarned c expected now_ms p)
    × (d.committed_good ≡ some expected)
    × (d.probation ≡ none)
    × (d.current ≡ c.current)
Says c expected now_ms result d = d ≡ c

ltb-false : (a b : ℕ) → ltb a b ≡ false → b ≤ a
ltb-false a b h = ground arith

split_or : (a b : Bool) → (a || b) ≡ false → (a ≡ false) × (b ≡ false)
split_or a b h = ground arith

not-false : (b : Bool) → not b ≡ false → b ≡ true
not-false b h = ground arith

promote_probation-Says :
    (c : EndpointController) (p : Probation) (expected now_ms : ℕ) (saved : Bool)
    → c.probation ≡ some p
    → Says c expected now_ms
        (promote_probation c p expected now_ms saved).0
        (promote_probation c p expected now_ms saved).1
unfolding commit order_candidates
promote_probation-Says c p expected now_ms saved at =
    elim (Bool-cases (not (p.candidate == expected))) [
      | inl e ↦ rw e refl
      | inr candidate ↦
          elim (Bool-cases (not (holds (current_v4 c) expected) || not c.current_authenticated)) [
            | inl e ↦ rw (candidate, e) refl
            | inr active ↦ elim (Bool-cases (rollback_over c p expected now_ms p.rollback_at_ms)) [
              | inl e ↦ rw (candidate, active, e) refl
              | inr over ↦
                  elim (Bool-cases (
                    ltb p.data_packets min_promotion_data_packets
                    || ltb (span p.last_data_ms p.first_data_ms) c.policy.probation_ms)) [
                      | inl e ↦ rw (candidate, active, over, e) refl
                      | inr evidence ↦
                          elim (Bool-cases (ltb (max_gap c) (idle p.last_data_ms now_ms))) [
                            | inl e ↦ rw (candidate, active, over, evidence, e) refl
                            | inr recent ↦
                                elim (Bool-cases
                                  ((c.has_cache_file && is_dynamic c.spec) && not saved)) [
                                    | inl e ↦ rw (candidate, active, over, evidence, recent, e) refl
                                    | inr kept ↦
                                        let (here, authenticated) = split_or _ _ active in
                                        let (packets, sustained) = split_or _ _ evidence in
                                        rw (candidate, active, over, evidence, recent, kept)
                                          (
                                            (
                                              p,
                                              at,
                                              refl,
                                              record {
                                                candidate = not-false _ candidate;
                                                active =
                                                    (not-false _ here, not-false _ authenticated);
                                                open_rollback = over;
                                                packets = ltb-false _ _ packets;
                                                sustained = ltb-false _ _ sustained;
                                                recent = ltb-false _ _ recent;
                                              },
                                            ),
                                            refl,
                                            refl,
                                            refl,
                                          )
                                  ]
                          ]
                    ]
            ]
          ]
    ]

promote_from-Says :
    (c : EndpointController) (expected now_ms : ℕ) (saved : Bool) (o : Option Probation)
    → c.probation ≡ o
    → Says c expected now_ms
        (promote_from c expected now_ms saved o).0
        (promote_from c expected now_ms saved o).1
promote_from-Says c expected now_ms saved none at = refl
promote_from-Says c expected now_ms saved (some p) at =
    promote_probation-Says c p expected now_ms saved at

-- A promotion commits the expected address and ends the probation, and happens only when the
-- candidate is the authenticated current address and its evidence is complete: enough data packets,
-- over at least the probation time, the last one recent, with the rollback still open. Every other
-- result leaves the controller exactly as it was.
pub promote_candidate-Says :
    (c : EndpointController) (expected now_ms : ℕ) (saved : Bool)
    → Says c expected now_ms
        (promote_candidate c expected now_ms saved).0
        (promote_candidate c expected now_ms saved).1
unfolding promote_candidate
promote_candidate-Says c expected now_ms saved =
    promote_from-Says c expected now_ms saved c.probation refl
