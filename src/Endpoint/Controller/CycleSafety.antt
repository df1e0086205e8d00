-- ===== src/Endpoint/Controller/CycleSafety.antt =====
-- src/endpoint.rs, `on_cycle_with_clock`: the branches of a cycle, by its reason.
use udp2raw_rust.Prelude.{
  ℕ, ◌≡◌, refl, inl, inr, Bool, true, false, not, ◌&&◌, Option, none, some, List, [], ◌∷◌, arith,
  ◌==◌, Bool-cases, IfSome, IfSome-map,
}
use udp2raw_rust.Dns.{contains, canonical}
use udp2raw_rust.Dns.Canonical.{canonical-Climbs}
use udp2raw_rust.Endpoint.Controller.{
  EndpointController, holds, or_else, start_preferred_round, round_expired, head, successor,
  next_dns_candidate,
}
use udp2raw_rust.Endpoint.Controller.Select.{LockedFile}
use udp2raw_rust.Endpoint.Controller.Cycle.{
  stay, switch_unless, try_next, end_round, count_failure, next_or_end, attempt_again,
  select_attempt_failed, leave_dead, select_session_lost,
}
use udp2raw_rust.Endpoint.Controller.Safety.{
  IsAllowed, IsWellFormed, IsSafeStep, Keeps, IsSafeStep-after, switch_or-IsSafeStep,
  switch_to-IsSafeStep, stay-IsSafeStep,
}
use udp2raw_rust.Endpoint.Controller.Offers.{
  self-Keeps, Keeps-trans, start_preferred_round-Keeps, probation_return-Offers,
  fallback_probe-Offers, attended_return-Offers,
}

-- To stay after a write is a safe step.
pub kept-IsSafeStep : (c d : EndpointController) → Keeps c d → IsSafeStep c (stay d)
kept-IsSafeStep c d k = IsSafeStep-after c d (stay d) k (stay-IsSafeStep d k.1)

successor-contains :
    (xs : List ℕ) (seen : Bool) (cur : ℕ)
    → IfSome (λ next. contains next xs ≡ true) (successor seen xs cur)
successor-contains [] seen cur = tt
successor-contains (x ∷ xs) true cur = ground arith
successor-contains (x ∷ xs) false cur =
    IfSome-map _ (λ next. contains next (x ∷ xs) ≡ true) _ (λ next h. ground arith)
      (successor-contains xs (x == cur) cur)

pub head-contains : (xs : List ℕ) → IfSome (λ next. contains next xs ≡ true) (head xs)
head-contains [] = tt
head-contains (x ∷ xs) = ground arith

or_else-IfSome :
    (P : ℕ → Type 0) (x y : Option ℕ) → IfSome P x → IfSome P y → IfSome P (or_else x y)
or_else-IfSome P none y p q = q
or_else-IfSome P (some x) y p q = p

listed-IsAllowed :
    (c : EndpointController) (o : Option ℕ)
    → IsWellFormed c
    → IfSome (λ next. contains next (canonical c.candidates) ≡ true) o
    → IfSome (IsAllowed c) o
listed-IsAllowed c o w =
    IfSome-map _ (IsAllowed c) o (λ ip h. inr (w.safe ip ((canonical-Climbs c.candidates).2 ip h)))

switch_unless-IsSafeStep :
    (c : EndpointController) (cur : ℕ) (o : Option ℕ)
    → IsWellFormed c
    → IfSome (IsAllowed c) o
    → IsSafeStep c (switch_unless c cur o)
switch_unless-IsSafeStep c cur none w h = stay-IsSafeStep c w
switch_unless-IsSafeStep c cur (some next) w h = elim (Bool-cases (next == cur)) [
  | inl same ↦ rw same (stay-IsSafeStep c w)
  | inr other ↦ rw other (switch_to-IsSafeStep c next w h)
]

try_next-IsSafeStep :
    (c : EndpointController) (cur : ℕ) → IsWellFormed c → IsSafeStep c (try_next c cur)
unfolding try_next next_dns_candidate
try_next-IsSafeStep c cur w =
    let set = canonical c.candidates in
    switch_unless-IsSafeStep c cur (or_else (successor false set cur) (head set)) w (
      listed-IsAllowed c _ w (
        or_else-IfSome (λ next. contains next set ≡ true) (successor false set cur) (head set)
          (successor-contains set false cur) (head-contains set)))

end_round-Keeps : (c : EndpointController) → IsWellFormed c → Keeps c (end_round c)
end_round-Keeps c w = (
  record {
    spec = refl;
    policy = refl;
    allow_private = refl;
    current = refl;
    current_authenticated = refl;
    committed_good = refl;
  },
  record { few = w.few; safe = w.safe; honest = w.honest },
)

count_failure-Keeps : (c : EndpointController) → IsWellFormed c → Keeps c (count_failure c)
count_failure-Keeps c w = (
  record {
    spec = refl;
    policy = refl;
    allow_private = refl;
    current = refl;
    current_authenticated = refl;
    committed_good = refl;
  },
  record { few = w.few; safe = w.safe; honest = w.honest },
)

next_or_end-IsSafeStep :
    (c : EndpointController) (now_ms cur : ℕ)
    → IsWellFormed c
    → IsSafeStep c (next_or_end c now_ms cur)
next_or_end-IsSafeStep c now_ms cur w = elim (Bool-cases (round_expired c now_ms)) [
  | inl over ↦ rw over (kept-IsSafeStep c (end_round c) (end_round-Keeps c w))
  | inr running ↦ rw running (try_next-IsSafeStep c cur w)
]

attempt_again-IsSafeStep :
    (c : EndpointController) (file : LockedFile) (now_ms wall_now cur : ℕ)
    → IsWellFormed c
    → IsSafeStep c (attempt_again c file now_ms wall_now cur)
unfolding attempt_again
attempt_again-IsSafeStep c file now_ms wall_now cur w =
    let s = start_preferred_round c now_ms in
    let k = start_preferred_round-Keeps c now_ms w in
    elim (Bool-cases (holds c.committed_good cur)) [
      | inl home ↦ elim (Bool-cases (round_expired c now_ms)) [
        | inl over ↦ rw (home, over) (kept-IsSafeStep c (end_round c) (end_round-Keeps c w))
        | inr running ↦
            rw (home, running) (IsSafeStep-after c s _ k (try_next-IsSafeStep s cur k.1))
      ]
      | inr away ↦
          let k' = Keeps-trans c s (count_failure s) k (count_failure-Keeps s k.1) in
          let o = fallback_probe-Offers (count_failure s) file now_ms wall_now cur k'.1 in
          rw away (
            IsSafeStep-after c (count_failure s) _ k' (
              switch_or-IsSafeStep (count_failure s) _ _ o.0 o.1
                (λ d w'. next_or_end-IsSafeStep d now_ms cur w')))
    ]

pub select_attempt_failed-IsSafeStep :
    (c : EndpointController) (first second : LockedFile) (now_ms wall_now cur : ℕ)
    → IsWellFormed c
    → IsSafeStep c (select_attempt_failed c first second now_ms wall_now cur)
unfolding select_attempt_failed
select_attempt_failed-IsSafeStep c first second now_ms wall_now cur w =
    let o = probation_return-Offers c first now_ms wall_now cur w in
    switch_or-IsSafeStep c _ _ o.0 o.1 (λ d w'.
      let o' = attended_return-Offers d cur w' in
      switch_or-IsSafeStep d _ _ o'.0 o'.1
        (λ e w''. attempt_again-IsSafeStep e second now_ms wall_now cur w''))

leave_dead-IsSafeStep :
    (c : EndpointController) (now_ms cur : ℕ)
    → IsWellFormed c
    → IsSafeStep c (leave_dead c now_ms cur)
leave_dead-IsSafeStep c now_ms cur w =
    let s = start_preferred_round c now_ms in
    let k = start_preferred_round-Keeps c now_ms w in
    elim (Bool-cases (holds c.committed_good cur && not (contains cur c.candidates))) [
      | inl dead ↦ rw dead (
          IsSafeStep-after c s _ k (
            switch_or-IsSafeStep s (head (canonical s.candidates), s) stay (self-Keeps s k.1)
              (listed-IsAllowed s _ k.1 (head-contains (canonical s.candidates))) stay-IsSafeStep))
      | inr alive ↦ rw alive (stay-IsSafeStep c w)
    ]

pub select_session_lost-IsSafeStep :
    (c : EndpointController) (first : LockedFile) (now_ms wall_now cur : ℕ)
    → IsWellFormed c
    → IsSafeStep c (select_session_lost c first now_ms wall_now cur)
unfolding select_session_lost
select_session_lost-IsSafeStep c first now_ms wall_now cur w =
    let o = probation_return-Offers c first now_ms wall_now cur w in
    switch_or-IsSafeStep c _ _ o.0 o.1 (λ d w'. leave_dead-IsSafeStep d now_ms cur w')
