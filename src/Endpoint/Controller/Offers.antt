-- ===== src/Endpoint/Controller/Offers.antt =====
-- The helpers of a cycle that charge a probe or end a probation: what they keep, and which address
-- they name.
use udp2raw_rust.Prelude.{
  ℕ, max, ◌≡◌, refl, ◌∙◌, inl, inr, Bool, true, false, not, ◌&&◌, ◌||◌, Option, none, some, leb,
  ◌==◌, if◌then◌else◌, ◌>>=◌, ==-refl, Bool-cases, IfSome, IfSome-map, length,
}
use udp2raw_rust.Endpoint.Budget.{FallbackState}
use udp2raw_rust.Endpoint.Controller.{
  EndpointController, holds, is_dynamic, start_preferred_round, is_none, committed_health_deadline,
  committed_fresh, Probation, round_expired, canonical,
}
use udp2raw_rust.Endpoint.Controller.Select.{
  LockedFile, charge_fallback, write_charged, charge_loaded, probation_return, returned,
  probation_of, return_from,
}
use udp2raw_rust.Endpoint.Controller.Cycle.{
  probed, probe_fresh, fallback_probe, unattended, unattended_to, elsewhere, attended_return,
}
use udp2raw_rust.Endpoint.Controller.Safety.{IsWellFormed, IsSame, Keeps, IsAllowed}

kept-IsSame : (c : EndpointController) → IsSame c c
kept-IsSame c = record {
  spec = refl;
  policy = refl;
  allow_private = refl;
  current = refl;
  current_authenticated = refl;
  committed_good = refl;
}

pub self-Keeps : (c : EndpointController) → IsWellFormed c → Keeps c c
self-Keeps c w = (kept-IsSame c, w)

pub Keeps-trans : (c d e : EndpointController) → Keeps c d → Keeps d e → Keeps c e
Keeps-trans c d e k h = (
  record {
    spec = h.0.spec ∙ k.0.spec;
    policy = h.0.policy ∙ k.0.policy;
    allow_private = h.0.allow_private ∙ k.0.allow_private;
    current = h.0.current ∙ k.0.current;
    current_authenticated = h.0.current_authenticated ∙ k.0.current_authenticated;
    committed_good = h.0.committed_good ∙ k.0.committed_good;
  },
  h.1,
)

pub start_preferred_round-Keeps :
    (c : EndpointController) (now_ms : ℕ)
    → IsWellFormed c
    → Keeps c (start_preferred_round c now_ms)
unfolding start_preferred_round
start_preferred_round-Keeps c now_ms w =
    elim (Bool-cases (c.policy.enabled && is_none c.preferred_round_deadline_ms)) [
      | inl start ↦ rw start (
        record {
          spec = refl;
          policy = refl;
          allow_private = refl;
          current = refl;
          current_authenticated = refl;
          committed_good = refl;
        },
        record { few = w.few; safe = w.safe; honest = w.honest },
      )
      | inr running ↦ rw running (self-Keeps c w)
    ]

write_charged-Keeps :
    (c : EndpointController) (file : LockedFile) (o : Option FallbackState)
    → IsWellFormed c
    → Keeps c (write_charged c file o).1
write_charged-Keeps c file none w = self-Keeps c w
write_charged-Keeps c file (some next) w = elim (Bool-cases file.written) [
  | inl done ↦ simp done (
    record {
      spec = refl;
      policy = refl;
      allow_private = refl;
      current = refl;
      current_authenticated = refl;
      committed_good = refl;
    },
    record { few = w.few; safe = w.safe; honest = w.honest },
  )
  | inr broken ↦ simp broken (
    record {
      spec = refl;
      policy = refl;
      allow_private = refl;
      current = refl;
      current_authenticated = refl;
      committed_good = refl;
    },
    record { few = w.few; safe = w.safe; honest = w.honest },
  )
]

charge_loaded-Keeps :
    (c : EndpointController) (file : LockedFile) (wall_now candidate : ℕ) (o : Option FallbackState)
    → IsWellFormed c
    → Keeps c (charge_loaded c file wall_now candidate o).1
charge_loaded-Keeps c file wall_now candidate none w = (
  record {
    spec = refl;
    policy = refl;
    allow_private = refl;
    current = refl;
    current_authenticated = refl;
    committed_good = refl;
  },
  record { few = w.few; safe = w.safe; honest = w.honest },
)
charge_loaded-Keeps c file wall_now candidate (some s) w = write_charged-Keeps c file _ w

pub charge_fallback-Keeps :
    (c : EndpointController) (file : LockedFile) (wall_now candidate : ℕ)
    → IsWellFormed c
    → Keeps c (charge_fallback c file wall_now candidate).1
unfolding charge_fallback
charge_fallback-Keeps c file wall_now candidate w =
    elim (Bool-cases (not c.fallback_state_usable)) [
      | inl off ↦ rw off (self-Keeps c w)
      | inr usable ↦ elim (Bool-cases (not c.has_fallback_state_path)) [
        | inl off ↦ rw (usable, off) (self-Keeps c w)
        | inr has_path ↦ elim (Bool-cases (not (is_dynamic c.spec))) [
          | inl off ↦ rw (usable, has_path, off) (self-Keeps c w)
          | inr dynamic ↦
              rw (usable, has_path, dynamic) (charge_loaded-Keeps c file wall_now candidate _ w)
        ]
      ]
    ]

committed_of :
    (g deadline : Option ℕ) (cur : ℕ)
    → IfSome
        (λ good. holds g good ≡ true)
        ((g >>= λ committed. deadline >>= λ d. some (committed, d)) >>= λ (d : ℕ × ℕ).
          if d.0 == cur then none else some d.0)
committed_of none deadline cur = tt
committed_of (some y) none cur = tt
committed_of (some y) (some d) cur = elim (Bool-cases (y == cur)) [
  | inl same ↦ rw same tt
  | inr other ↦ rw other (==-refl y)
]

committed_fresh-holds :
    (c : EndpointController) (now_ms cur : ℕ)
    → IfSome (λ good. holds c.committed_good good ≡ true) (committed_fresh c now_ms cur)
unfolding committed_fresh committed_health_deadline
committed_fresh-holds c now_ms cur = elim (Bool-cases c.policy.enabled) [
  | inl on ↦ simp on (committed_of c.committed_good _ cur)
  | inr off ↦ simp off tt
]

-- A helper that may name an address to switch to: the state it leaves, and the address.
abbrev pub Offers : EndpointController → Option ℕ × EndpointController → Type 0
Offers c r = Keeps c r.1 × IfSome (IsAllowed c) r.0

probation_honest :
    (g : Option ℕ) (cur : ℕ) (pr : Option Probation)
    → IfSome (λ (p : Probation). holds g p.rollback ≡ true) pr
    → IfSome
        (λ (p : Probation). holds g p.rollback ≡ true)
        (pr >>= λ p. if p.candidate == cur then some p else none)
probation_honest g cur none h = tt
probation_honest g cur (some p) h = elim (Bool-cases (p.candidate == cur)) [
  | inl same ↦ rw same h
  | inr other ↦ rw other tt
]

cleared-Keeps : (c d : EndpointController) → Keeps c d → Keeps c (record d { probation = none })
cleared-Keeps c d k = (
  record {
    spec = k.0.spec;
    policy = k.0.policy;
    allow_private = k.0.allow_private;
    current = k.0.current;
    current_authenticated = k.0.current_authenticated;
    committed_good = k.0.committed_good;
  },
  record { few = k.1.few; safe = k.1.safe; honest = tt },
)

returned-Offers :
    (c : EndpointController) (rollback : ℕ) (r : Bool × EndpointController)
    → Keeps c r.1
    → IsAllowed c rollback
    → Offers c (returned c rollback r)
returned-Offers c rollback (false, d) k ok = (k, tt)
returned-Offers c rollback (true, d) k ok = (cleared-Keeps c d k, ok)

return_from-Offers :
    (c : EndpointController) (file : LockedFile) (now_ms wall_now cur : ℕ) (pr : Option Probation)
    → IsWellFormed c
    → IfSome (λ (p : Probation). holds c.committed_good p.rollback ≡ true) pr
    → Offers c (return_from c file now_ms wall_now cur pr)
return_from-Offers c file now_ms wall_now cur none w h = (self-Keeps c w, tt)
return_from-Offers c file now_ms wall_now cur (some p) w h =
    elim (Bool-cases (not (holds (committed_fresh c now_ms cur) p.rollback))) [
      | inl stale ↦ rw stale (self-Keeps c w, tt)
      | inr fresh ↦ elim (Bool-cases p.direct_return) [
        | inl direct ↦ rw fresh (simp direct (cleared-Keeps c c (self-Keeps c w), inl h))
        | inr charged ↦ rw fresh (
            simp charged (
              returned-Offers c p.rollback _ (charge_fallback-Keeps c file wall_now p.rollback w)
                (inl h)))
      ]
    ]

pub probation_return-Offers :
    (c : EndpointController) (file : LockedFile) (now_ms wall_now cur : ℕ)
    → IsWellFormed c
    → Offers c (probation_return c file now_ms wall_now cur)
unfolding probation_return
probation_return-Offers c file now_ms wall_now cur w =
    return_from-Offers c file now_ms wall_now cur (probation_of c cur) w
      (probation_honest c.committed_good cur c.probation w.honest)

probed-Offers :
    (c : EndpointController) (good : ℕ) (r : Bool × EndpointController)
    → Keeps c r.1
    → IsAllowed c good
    → Offers c (probed good r)
probed-Offers c good (false, d) k ok = (k, tt)
probed-Offers c good (true, d) k ok = (
  Keeps-trans c d _ k (
      let w = k.1 in
      (
        record {
          spec = refl;
          policy = refl;
          allow_private = refl;
          current = refl;
          current_authenticated = refl;
          committed_good = refl;
        },
        record { few = w.few; safe = w.safe; honest = w.honest },
      )),
  ok,
)

probe_fresh-Offers :
    (c : EndpointController) (file : LockedFile) (wall_now : ℕ) (o : Option ℕ)
    → IsWellFormed c
    → IfSome (λ good. holds c.committed_good good ≡ true) o
    → Offers c (probe_fresh c file wall_now o)
probe_fresh-Offers c file wall_now none w h = (self-Keeps c w, tt)
probe_fresh-Offers c file wall_now (some good) w h =
    probed-Offers c good _ (charge_fallback-Keeps c file wall_now good w) (inl h)

pub fallback_probe-Offers :
    (c : EndpointController) (file : LockedFile) (now_ms wall_now cur : ℕ)
    → IsWellFormed c
    → Offers c (fallback_probe c file now_ms wall_now cur)
unfolding fallback_probe
fallback_probe-Offers c file now_ms wall_now cur w =
    elim (Bool-cases (
      not (
        round_expired c now_ms
        || (leb c.policy.after_failures c.preferred_failures
            && leb (max (length (canonical c.candidates)) 1) c.preferred_attempts)))) [
              | inl early ↦ rw early (self-Keeps c w, tt)
              | inr due ↦
                  rw due
                    (probe_fresh-Offers c file wall_now _ w (committed_fresh-holds c now_ms cur))
            ]

pub unattended-Keeps : (c : EndpointController) → IsWellFormed c → Keeps c (unattended c)
unattended-Keeps c w = (
  record {
    spec = refl;
    policy = refl;
    allow_private = refl;
    current = refl;
    current_authenticated = refl;
    committed_good = refl;
  },
  record { few = w.few; safe = w.safe; honest = w.honest },
)

unattended_to-Offers :
    (c : EndpointController) (o : Option ℕ)
    → IsWellFormed c
    → IfSome (IsAllowed c) o
    → Offers c (unattended_to c o)
unattended_to-Offers c none w h = (self-Keeps c w, tt)
unattended_to-Offers c (some ip) w h = (unattended-Keeps c w, h)

elsewhere-holds : (g : Option ℕ) (cur : ℕ) → IfSome (λ good. holds g good ≡ true) (elsewhere g cur)
elsewhere-holds none cur = tt
elsewhere-holds (some ip) cur = elim (Bool-cases (ip == cur)) [
  | inl same ↦ rw same tt
  | inr other ↦ rw other (==-refl ip)
]

pub attended_return-Offers :
    (c : EndpointController) (cur : ℕ) → IsWellFormed c → Offers c (attended_return c cur)
unfolding attended_return
attended_return-Offers c cur w = elim (Bool-cases c.attended_cutover) [
  | inl attended ↦ simp attended (
      unattended_to-Offers c (elsewhere c.committed_good cur) w
        (IfSome-map _ (IsAllowed c) _ (λ ip h. inl h) (elsewhere-holds c.committed_good cur)))
  | inr off ↦ simp off (self-Keeps c w, tt)
]
