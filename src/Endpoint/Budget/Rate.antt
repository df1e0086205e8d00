-- ===== src/Endpoint/Budget/Rate.antt =====
-- The grants over any run of attempts, in number and in time.
use udp2raw_rust.Prelude.{
  ℕ, suc, ◌+◌, ◌-◌, ◌*◌, ◌/◌, ◌^◌, ◌≤◌, ◌<◌, min, ◌≡◌, refl, ap, inl, inr, false, ◌&&◌, none, some,
  List, [], ◌∷◌, arith, ltb, leb, ◌==◌, Bool-cases, Option-cases, IfSome, IfSome-some, IfSome-map,
  length, u32_max,
}
use native.Mathlib.Nat.{mul-le-mul_right}
use udp2raw_rust.Endpoint.Budget.{
  BudgetEntry, FallbackState, Policy, new, refill, refill_secs, charge_refilled, settle, charge_in,
  Charge, missing, denied, charged_in, precharge_fallback_state, max_budget_entries,
}
use udp2raw_rust.Endpoint.Budget.Limits.{
  IsSane, IsBudget, AllWithin, total_charged, precharge-IsBudget,
}

-- An attempt to charge a probe, at a time of the wall clock.
pub record Attempt : Type 0 where
  pub wall : ℕ
  pub candidate : ℕ
  pub dns_set : List ℕ

-- The number of attempts granted; a denied one leaves the durable state later it is.
unfoldable pub granted : Policy → FallbackState → List Attempt → ℕ
granted policy s [] = 0
granted policy s (a ∷ later) =
    elim (precharge_fallback_state s policy a.wall a.candidate a.dns_set) [
      | some s' ↦ suc (granted policy s' later)
      | none ↦ granted policy s later
    ]

total-le : (top : ℕ) (es : List BudgetEntry) → AllWithin top es → total_charged es ≤ length es * top
total-le top [] a = omega arith
total-le top (e ∷ es) a = grind (arith, total-le top es a.1)

granted_budget :
    (policy : Policy)
    → IsSane policy
    → (later : List Attempt) (s : FallbackState) (grants : ℕ) → IsBudget policy grants s
    → grants + granted policy s later ≤ max_budget_entries * policy.max_attempts
unfolding granted
granted_budget policy sane [] s grants b =
    grind (arith, total-le policy.max_attempts s.entries b.within)
granted_budget policy sane (a ∷ later) s grants b =
    let next = precharge-IsBudget policy sane a.wall a.candidate a.dns_set s grants b in
    elim (Option-cases (precharge_fallback_state s policy a.wall a.candidate a.dns_set)) [
      | inl deny ↦ rw (granted, deny) (granted_budget policy sane later s grants b)
      | inr (s', grant) ↦
          rw (granted, grant)
            (omega (
              arith,
              granted_budget policy sane later s' (grants + 1)
                  (IfSome-some (IsBudget policy (grants + 1)) s' next grant),
            ))
    ]

-- Over the whole life of the durable state, whatever the clock, the candidates and the DNS answers,
-- at most 16 times `max_attempts` probes of an old address are granted.
pub granted-le-lifetime :
    (policy : Policy)
    → IsSane policy
    → (wall_now : ℕ) (later : List Attempt)
    → granted policy (new policy.global_capacity wall_now) later
      ≤ max_budget_entries * policy.max_attempts
unfolding new
granted-le-lifetime policy sane wall_now later = omega (
  arith,
  granted_budget policy sane later (new policy.global_capacity wall_now) 0
      (record { total = refl; few = omega arith; within = tt }),
)

settle_tokens :
    (policy : Policy) (wall candidate : ℕ) (dns_set : List ℕ) (s : FallbackState) (c : Charge)
    → IfSome
        (λ (s' : FallbackState).
          (s'.global_tokens ≡ s.global_tokens - 1)
          × (s'.global_updated_unix_secs ≡ s.global_updated_unix_secs))
        (settle policy wall candidate dns_set s c)
settle_tokens policy wall candidate dns_set s denied = tt
settle_tokens policy wall candidate dns_set s (charged_in fs) = (refl, refl)
settle_tokens policy wall candidate dns_set s missing =
    elim (Bool-cases (leb max_budget_entries (length s.entries))) [
      | inl full ↦ rw full tt
      | inr room ↦ rw room (refl, refl)
    ]

-- With `grants` tokens spent since `start`, no more is left than the time that has passed allows.
record IsPaced (policy : Policy) (start grants wall : ℕ) (s : FallbackState) : Type 0 where
  pace :
      (s.global_tokens + grants) * refill_secs policy + start
      ≤ policy.global_capacity * refill_secs policy + s.global_updated_unix_secs
  past : s.global_updated_unix_secs ≤ wall

quotient-le : (d secs : ℕ) → 0 < secs → d / secs * secs ≤ d
quotient-le d secs pos = grind arith

gain :
    (tokens tokens' n secs : ℕ) → tokens' ≤ tokens + n → tokens' * secs ≤ tokens * secs + n * secs
gain tokens tokens' n secs h = omega (arith, mul-le-mul_right secs h)

-- A refill gains no more tokens than the time it consumes pays for.
refill_gain :
    (policy : Policy) (wall : ℕ) (s : FallbackState)
    → 0 < refill_secs policy
    → wall < 2 ^ 62
    → s.global_updated_unix_secs ≤ wall
    → ((refill policy wall s).global_tokens * refill_secs policy + s.global_updated_unix_secs
        ≤ s.global_tokens * refill_secs policy + (refill policy wall s).global_updated_unix_secs)
      × ((refill policy wall s).global_updated_unix_secs ≤ wall)
unfolding refill
refill_gain policy wall s pos small past =
    let secs = refill_secs policy in
    let n = (wall - s.global_updated_unix_secs) / secs in
    let fits = quotient-le (wall - s.global_updated_unix_secs) secs pos in
    elim (Bool-cases (leb s.global_updated_unix_secs wall && ltb 0 secs)) [
      | inr early ↦ rw early (omega arith, past)
      | inl due ↦ elim (Bool-cases (ltb 0 n)) [
        | inr early ↦ rw (due, early) (omega arith, past)
        | inl some_n ↦
            rw (due, some_n)
              (
                omega (
                  arith,
                  fits,
                  past,
                  gain s.global_tokens
                      (min (min (s.global_tokens + min n u32_max) u32_max) policy.global_capacity) n
                      secs (omega arith),
                ),
                omega (arith, fits, past),
              )
      ]
    ]

one_spent :
    (tokens tokens' grants secs : ℕ)
    → (tokens == 0) ≡ false
    → tokens' ≡ tokens - 1
    → (tokens' + (grants + 1)) * secs ≡ (tokens + grants) * secs
one_spent tokens tokens' grants secs left h =
    let same : tokens' + (grants + 1) ≡ tokens + grants = ground arith in ap (λ n. n * secs) same

module _ (policy : Policy) (pos : 0 < refill_secs policy) (start wall grants : ℕ)
    (small : wall < 2 ^ 62) where
  refill-IsPaced :
      (s : FallbackState)
      → IsPaced policy start grants wall s
      → IsPaced policy start grants wall (refill policy wall s)
  refill-IsPaced s b =
      let r = refill_gain policy wall s pos small b.past in
      record { pace = omega (arith, r.0, b.pace); past = r.1 }

  spend-IsPaced :
      (r s' : FallbackState)
      → IsPaced policy start grants wall r
      → (r.global_tokens == 0) ≡ false
      → (s'.global_tokens ≡ r.global_tokens - 1)
        × (s'.global_updated_unix_secs ≡ r.global_updated_unix_secs)
      → IsPaced policy start (grants + 1) wall s'
  spend-IsPaced r s' b left h = record {
    pace = omega (
      arith,
      one_spent r.global_tokens s'.global_tokens grants (refill_secs policy) left h.0,
      h.1,
      b.pace,
    );
    past = omega (arith, b.past, h.1);
  }

  precharge-IsPaced :
      (s : FallbackState) (candidate : ℕ) (dns_set : List ℕ)
      → IsPaced policy start grants wall s
      → IfSome
          (IsPaced policy start (grants + 1) wall)
          (precharge_fallback_state s policy wall candidate dns_set)
  unfolding precharge_fallback_state charge_refilled
  precharge-IsPaced s candidate dns_set b =
      let r = refill policy wall s in
      let b' = refill-IsPaced s b in
      elim (Bool-cases (r.global_tokens == 0)) [
        | inl empty ↦ rw empty tt
        | inr left ↦ rw left (
            IfSome-map _ (IsPaced policy start (grants + 1) wall) _
              (λ s' h. spend-IsPaced r s' b' left h)
              (settle_tokens policy wall candidate dns_set r
                (charge_in policy wall candidate dns_set r.entries)))
      ]

-- The attempts are in the order of the clock, from `from` to `last`.
abbrev pub Chronological : ℕ → ℕ → List Attempt → Type 0
Chronological from last [] = from ≤ last
Chronological from last (a ∷ later) = (from ≤ a.wall) × Chronological a.wall last later

wait_on :
    (policy : Policy) (start grants wall wall' : ℕ) (s : FallbackState)
    → wall ≤ wall'
    → IsPaced policy start grants wall s
    → IsPaced policy start grants wall' s
wait_on policy start grants wall wall' s h b = record {
  pace = b.pace;
  past = omega (arith, b.past, h);
}

Chronological-le :
    (from last : ℕ) (later : List Attempt) → Chronological from last later → from ≤ last
Chronological-le from last [] h = h
Chronological-le from last (a ∷ later) h =
    omega (arith, h.0, Chronological-le a.wall last later h.1)

module _ (policy : Policy) (pos : 0 < refill_secs policy) (start last : ℕ)
    (small : last < 2 ^ 62) where
  granted_pace :
      (later : List Attempt) (s : FallbackState) (grants from : ℕ)
      → IsPaced policy start grants from s
      → Chronological from last later
      → (grants + granted policy s later) * refill_secs policy + start
        ≤ policy.global_capacity * refill_secs policy + last
  unfolding granted
  granted_pace [] s grants from b order = omega (arith, b.pace, b.past)
  granted_pace (a ∷ later) s grants from b order =
      let waited = wait_on policy start grants from a.wall s order.0 b in
      let early : a.wall < 2 ^ 62 =
        omega (arith, small, Chronological-le a.wall last later order.1) in
      let next =
        precharge-IsPaced policy pos start a.wall grants early s a.candidate a.dns_set waited in
      elim (Option-cases (precharge_fallback_state s policy a.wall a.candidate a.dns_set)) [
        | inl deny ↦ rw (granted, deny) (granted_pace later s grants a.wall waited order.1)
        | inr (s', grant) ↦
            rw (granted, grant)
              (omega (
                arith,
                granted_pace later s' (grants + 1) a.wall
                    (IfSome-some (IsPaced policy start (grants + 1) a.wall) s' next grant) order.1,
              ))
      ]

-- From a fresh durable state at `start` to the time `last`, with the clock never going back, the
-- probes granted exceed the bucket's capacity by at most one for each refill interval that has passed.
pub granted-le-paced :
    (policy : Policy)
    → 0 < refill_secs policy
    → (start last : ℕ) → last < 2 ^ 62
    → (later : List Attempt) → Chronological start last later
    → granted policy (new policy.global_capacity start) later * refill_secs policy
      ≤ policy.global_capacity * refill_secs policy + (last - start)
unfolding new
granted-le-paced policy pos start last small later order = omega (
  arith,
  Chronological-le start last later order,
  granted_pace policy pos start last small later (new policy.global_capacity start) 0 start
      (record { pace = omega arith; past = omega arith }) order,
)
