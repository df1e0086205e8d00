-- ===== src/Endpoint/Controller/Safety.antt =====
-- Where a cycle may switch to, and what it leaves alone.
use udp2raw_rust.Prelude.{
  ℕ, ◌≤◌, ◌≡◌, refl, sym, ap, ◌∙◌, subst, ◌≢◌, ◌⊎◌, inl, inr, Bool, true, false, not, ◌&&◌, ◌||◌,
  Option, none, some, List, [], ◌∷◌, ◌++◌, arith, ◌==◌, Bool-cases, IfSome, length, take,
  length-take,
}
use udp2raw_rust.Dns.{contains, retain, is_safe, sort, dedup, max_endpoint_candidates}
use udp2raw_rust.Dns.Canonical.{contains-sort, contains-dedup, contains-take, retained}
use udp2raw_rust.Endpoint.Controller.Cycle.{switch_or}
use udp2raw_rust.Endpoint.Controller.{
  v4, spec_port, Switch, EndpointController, holds, current_v4, ordered_candidates,
  order_candidates, Outcome, switch_to, push_if, switch_from, v4_of,
}

-- An address that the controller may use: the committed one, or one that the address policy accepts.
abbrev pub IsAllowed : EndpointController → ℕ → Type 0
IsAllowed c ip = (holds c.committed_good ip ≡ true) ⊎ (is_safe c.allow_private ip ≡ true)

-- What every operation of a cycle keeps: at most eight candidates, all of them accepted by the
-- address policy, and a probation that returns to the committed address.
pub record IsWellFormed (c : EndpointController) : Type 0 where
  pub few : length c.candidates ≤ max_endpoint_candidates
  pub safe : (ip : ℕ) → contains ip c.candidates ≡ true → is_safe c.allow_private ip ≡ true
  pub honest : IfSome (λ p. holds c.committed_good p.rollback ≡ true) c.probation

-- The two states agree on everything that says which address is used and which one is trusted.
pub record IsSame (c d : EndpointController) : Type 0 where
  pub spec : d.spec ≡ c.spec
  pub policy : d.policy ≡ c.policy
  pub allow_private : d.allow_private ≡ c.allow_private
  pub current : d.current ≡ c.current
  pub current_authenticated : d.current_authenticated ≡ c.current_authenticated
  pub committed_good : d.committed_good ≡ c.committed_good

-- The switch, if any, goes from the old address to the new current one, which is another and
-- allowed, is not yet authenticated, and keeps the port; without one the current address stays.
abbrev pub Moves : EndpointController → Option Switch → EndpointController → Type 0
Moves c none d = (d.current ≡ c.current) × (d.current_authenticated ≡ c.current_authenticated)
Moves c (some s) d =
    (s.from ≡ c.current)
    × (s.to ≡ d.current)
    × (d.current_authenticated ≡ false)
    × ((ip : ℕ) × (s.to ≡ record { ip = v4 ip; port = spec_port c.spec })
        × (current_v4 c ≢ some ip)
        × IsAllowed c ip)

pub record IsSafeStep (c : EndpointController) (o : Outcome) : Type 0 where
  pub committed_good : o.1.committed_good ≡ c.committed_good
  pub policy : o.1.policy ≡ c.policy
  pub well_formed : IsWellFormed o.1
  pub moves : Moves c o.0 o.1

contains-append :
    (xs ys : List ℕ) (z : ℕ) → contains z (xs ++ ys) ≡ (contains z xs || contains z ys)
contains-append [] ys z = refl
contains-append (x ∷ xs) ys z = ground (arith, contains-append xs ys z)

contains-push_if :
    (keep : ℕ → Bool) (o : Option ℕ) (z : ℕ) → contains z (push_if keep o) ≡ true → keep z ≡ true
contains-push_if keep none z h = absurd (ground arith)
contains-push_if keep (some ip) z h = elim (Bool-cases (keep ip)) [
  | inl held ↦
      let m : contains z (ip ∷ []) ≡ true = rw held at h in
      let e : ip ≡ z = ground arith in subst (λ t. keep t ≡ true) e held
  | inr other ↦ absurd (let m : contains z [] ≡ true = rw other at h in ground arith)
]

in_parts :
    (xs ys zs : List ℕ) (z : ℕ)
    → contains z (xs ++ (ys ++ zs)) ≡ true
    → (contains z xs ≡ true) ⊎ ((contains z ys ≡ true) ⊎ (contains z zs ≡ true))
in_parts xs ys zs z h = ground (arith, contains-append xs (ys ++ zs) z, contains-append ys zs z)

-- Ordering keeps at most eight of the candidates and adds none.
contains-ordered :
    (cur committed : Option ℕ) (xs : List ℕ) (z : ℕ)
    → contains z (ordered_candidates cur committed xs) ≡ true
    → contains z xs ≡ true
unfolding ordered_candidates
contains-ordered cur committed xs z h =
    let keep : ℕ → Bool = λ ip. not (holds cur ip) && not (holds committed ip) in
    let rest = retain keep xs in
    elim (in_parts (push_if (λ ip. contains ip xs) cur)
      (push_if (λ ip. contains ip xs && not (holds cur ip)) committed) (dedup (sort rest)) z
      (contains-take max_endpoint_candidates _ z h)) [
        | inl a ↦ contains-push_if (λ ip. contains ip xs) cur z a
        | inr (inl b) ↦
            ground
              (arith, contains-push_if (λ ip. contains ip xs && not (holds cur ip)) committed z b)
        | inr (inr r) ↦
            (retained keep xs z
              (sym (contains-sort rest z) ∙ (sym (contains-dedup (sort rest) z) ∙ r))).0
      ]

few_taken : (xs : List ℕ) → length (take max_endpoint_candidates xs) ≤ max_endpoint_candidates
few_taken xs = omega (arith, length-take max_endpoint_candidates xs)

length-ordered :
    (cur committed : Option ℕ) (xs : List ℕ)
    → length (ordered_candidates cur committed xs) ≤ max_endpoint_candidates
unfolding ordered_candidates
length-ordered cur committed xs =
    let b = few_taken (
      push_if (λ ip. contains ip xs) cur
      ++ (push_if (λ ip. contains ip xs && not (holds cur ip)) committed
          ++ dedup (sort (retain (λ x. not (holds cur x) && not (holds committed x)) xs)))) in
    b

pub order-IsWellFormed :
    (c : EndpointController) → IsWellFormed c → IsWellFormed (order_candidates c)
unfolding order_candidates
order-IsWellFormed c w = record {
  few = length-ordered (current_v4 c) c.committed_good c.candidates;
  safe = λ ip h. w.safe ip (contains-ordered (current_v4 c) c.committed_good c.candidates ip h);
  honest = w.honest;
}

pub stay-IsSafeStep : (c : EndpointController) → IsWellFormed c → IsSafeStep c (none, c)
stay-IsSafeStep c w = record {
  committed_good = refl;
  policy = refl;
  well_formed = w;
  moves = (refl, refl);
}

some-injective : (x y : ℕ) → some x ≡ some y → x ≡ y
some-injective x y h = ground arith

other_address : (target cur : ℕ) → cur ≡ target → (target == cur) ≡ false → ⊥
other_address target cur same other = ground arith

switch_from-IsSafeStep :
    (c : EndpointController) (target : ℕ) (o : Option ℕ)
    → current_v4 c ≡ o
    → IsWellFormed c
    → IsAllowed c target
    → IsSafeStep c (switch_from c target o)
unfolding order_candidates
switch_from-IsSafeStep c target none at w ok = stay-IsSafeStep c w
switch_from-IsSafeStep c target (some cur) at w ok = elim (Bool-cases (target == cur)) [
  | inl same ↦ rw same (stay-IsSafeStep c w)
  | inr other ↦ rw other (record {
    committed_good = refl;
    policy = refl;
    well_formed = order-IsWellFormed _ (record { few = w.few; safe = w.safe; honest = w.honest });
    moves = (
      refl,
      refl,
      refl,
      (
        target,
        refl,
        (λ e. other_address target cur (some-injective cur target (sym at ∙ e)) other),
        ok,
      ),
    );
  })
]

pub switch_to-IsSafeStep :
    (c : EndpointController) (target : ℕ)
    → IsWellFormed c
    → IsAllowed c target
    → IsSafeStep c (switch_to c target)
unfolding switch_to
switch_to-IsSafeStep c target w ok = switch_from-IsSafeStep c target (current_v4 c) refl w ok

IsAllowed-IsSame :
    (c d : EndpointController) → IsSame c d → (ip : ℕ) → IsAllowed d ip → IsAllowed c ip
IsAllowed-IsSame c d same ip (inl h) = inl (ap (λ g. holds g ip) (sym same.committed_good) ∙ h)
IsAllowed-IsSame c d same ip (inr h) = inr (ap (λ p. is_safe p ip) (sym same.allow_private) ∙ h)

IsAllowed-same :
    (c d : EndpointController) → IsSame c d → (ip : ℕ) → IsAllowed c ip → IsAllowed d ip
IsAllowed-same c d same ip (inl h) = inl (ap (λ g. holds g ip) same.committed_good ∙ h)
IsAllowed-same c d same ip (inr h) = inr (ap (λ p. is_safe p ip) same.allow_private ∙ h)

Moves-IsSame :
    (c d : EndpointController)
    → IsSame c d
    → (s : Option Switch) (e : EndpointController) → Moves d s e
    → Moves c s e
Moves-IsSame c d same none e m = (m.0 ∙ same.current, m.1 ∙ same.current_authenticated)
Moves-IsSame c d same (some s) e m =
    let (ip, to, other, ok) = m.3 in
    (
      m.0 ∙ same.current,
      m.1,
      m.2,
      (
        ip,
        to ∙ ap (λ p. record { ip = v4 ip; port = spec_port p }) same.spec,
        (λ h. other (ap (λ a. v4_of a.ip) same.current ∙ h)),
        IsAllowed-IsSame c d same ip ok,
      ),
    )

-- The states agree and the new one is well-formed.
abbrev pub Keeps : EndpointController → EndpointController → Type 0
Keeps c d = IsSame c d × IsWellFormed d

pub IsSafeStep-after :
    (c d : EndpointController) (o : Outcome) → Keeps c d → IsSafeStep d o → IsSafeStep c o
IsSafeStep-after c d o k h = record {
  committed_good = h.committed_good ∙ k.0.committed_good;
  policy = h.policy ∙ k.0.policy;
  well_formed = h.well_formed;
  moves = Moves-IsSame c d k.0 o.0 o.1 h.moves;
}

pub switch_or-IsSafeStep :
    (c : EndpointController) (r : Option ℕ × EndpointController)
    (rest : EndpointController → Outcome)
    → Keeps c r.1
    → IfSome (IsAllowed c) r.0
    → ((d : EndpointController) → IsWellFormed d → IsSafeStep d (rest d))
    → IsSafeStep c (switch_or r rest)
switch_or-IsSafeStep c (none, d) rest k ok h = IsSafeStep-after c d _ k (h d k.1)
switch_or-IsSafeStep c (some target, d) rest k ok h =
    IsSafeStep-after c d _ k (switch_to-IsSafeStep d target k.1 (IsAllowed-same c d k.0 target ok))
