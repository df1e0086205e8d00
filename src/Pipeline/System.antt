-- ===== src/Pipeline/System.antt =====
-- The pipeline under every interleaving of its event loop and its worker threads.
use mathlib.Core.List.{map-append}
use udp2raw_rust.Prelude.{
  ℕ, ◌+◌, ◌<◌, ◌≡◌, refl, sym, ap, ap₂, ◌∙◌, inl, inr, Bool, true, false, List, [], ◌∷◌, ◌++◌, map,
  append-nil, append_assoc, arith, leb, ◌==◌, if◌then◌else◌, Bool-cases, if_cases, length, get_or,
  replicate, length-replicate, get_or-replicate,
}
use udp2raw_rust.Pipeline.{
  Pipeline, idle_worker, new, is_idle, is_full, flush, submit, collect, worker_takes, worker_sends,
}
use udp2raw_rust.Pipeline.Order.{
  turn, share, contents, IsDealt, hand_over-IsDealt, worker_takes-IsDealt, worker_sends-IsDealt,
}
use udp2raw_rust.Pipeline.Collect.{joined, joined-append, IsCollected, collect_from-IsCollected}

-- What happens next: a call of the event loop, or a step of the worker with the number.
pub data Event (J : Type 0) : Type 0 where
  submits : J → Event J
  flushes collects : Event J
  takes sends : ℕ → Event J

-- The pipeline, what `collect` has delivered, and the batches that workers have been handed.
pub record System (J D : Type 0) : Type 0 where
  pub pipe : Pipeline J D
  pub delivered : List D
  pub handed : List (List J)

module _ {J D : Type 0} (work : J → D) where
  -- The batch that a flush hands over.
  abbrev pub handing : Pipeline J D → List (List J)
  handing p = if is_idle work p then [] else if is_full work p then [] else p.batch ∷ []

  abbrev pub submitting : Pipeline J D → J → List (List J)
  submitting p j =
      let q : Pipeline J D = record p { batch = p.batch ++ (j ∷ []) } in
      if leb 16 (length q.batch) then handing q else []

  unfoldable pub happen : System J D → Event J → System J D
  unfolding submit flush collect worker_takes worker_sends
  happen s (submits j) = record s {
    pipe = (submit work s.pipe j).1;
    handed = s.handed ++ submitting s.pipe j;
  }
  happen s flushes = record s { pipe = (flush work s.pipe).1; handed = s.handed ++ handing s.pipe }
  happen s collects =
      let r = collect work s.pipe in
      record { pipe = r.1; delivered = s.delivered ++ r.0; handed = s.handed ++ handing s.pipe }
  happen s (takes i) = record s { pipe = worker_takes work s.pipe i }
  happen s (sends i) = record s { pipe = worker_sends work s.pipe i }

  unfoldable pub happen_all : System J D → List (Event J) → System J D
  unfolding happen
  happen_all s [] = s
  happen_all s (e ∷ es) = happen_all (happen s e) es

  abbrev pub started : ℕ → System J D
  started threads = record { pipe = new threads; delivered = []; handed = [] }

  -- The results delivered are those of the first batches handed over, in order; the other batches
  -- are with the workers.
  pub record IsOrdered (n : ℕ) (s : System J D) : Type 0 where
    pub got : List (List J)
    pub flight : List (List J)
    pub split : s.handed ≡ got ++ flight
    pub in_order : s.delivered ≡ map work (joined got)
    pub dealt : IsDealt work n s.pipe flight

  kept_IsDealt :
      (n : ℕ) (p q : Pipeline J D) (flight : List (List J))
      → IsDealt work n p flight
      → q.workers ≡ p.workers
      → q.next_dispatch ≡ p.next_dispatch
      → q.next_collect ≡ p.next_collect
      → q.in_flight_batches ≡ p.in_flight_batches
      → IsDealt work n q (flight ++ [])
  kept_IsDealt n p q flight d a b c e = rw (append-nil flight) (record {
    size = ap length a ∙ d.size;
    count = d.count ∙ sym e;
    in_turn = omega (arith, c, d.in_turn);
    dispatch = b ∙ d.dispatch ∙ ap (λ m. turn n m (length flight)) (sym c);
    shares = λ w h.
        ap (λ ws. contents work (get_or ws w idle_worker)) a
        ∙ d.shares w h
        ∙ ap (λ m. map (map work) (share n m w flight)) (sym c);
  })

  flush-IsDealt :
      (n : ℕ) (p : Pipeline J D) (flight : List (List J))
      → IsDealt work n p flight
      → IsDealt work n ((flush work p).1) (flight ++ handing p)
  unfolding flush
  flush-IsDealt n p flight d = elim (Bool-cases (is_idle work p)) [
    | inl e ↦ rw e (kept_IsDealt n p p flight d refl refl refl refl)
    | inr e ↦ elim (Bool-cases (is_full work p)) [
      | inl f ↦
          rw (e, f)
            (kept_IsDealt n p (record p { batch = []; dropped = p.dropped + length p.batch }) flight
              d refl refl refl refl)
      | inr f ↦ rw (e, f) (hand_over-IsDealt work n p flight d)
    ]
  ]

  pub has_workers :
      (n : ℕ) (p : Pipeline J D) (flight : List (List J))
      → IsDealt work n p flight
      → length p.workers == 0 ≡ false
  has_workers n p flight d = ground (arith, d.size, d.in_turn)

  both :
      (n : ℕ) (b : Bool) (x y : Bool × Pipeline J D) (flight more : List (List J))
      → IsDealt work n (x.1) (flight ++ more)
      → IsDealt work n (y.1) (flight ++ [])
      → IsDealt work n ((if b then x else y).1) (flight ++ (if b then more else []))
  both n true x y flight more p q = p
  both n false x y flight more p q = q

  submit-IsDealt :
      (n : ℕ) (p : Pipeline J D) (flight : List (List J)) (j : J)
      → IsDealt work n p flight
      → IsDealt work n ((submit work p j).1) (flight ++ submitting p j)
  unfolding submit
  submit-IsDealt n p flight j d =
      let q : Pipeline J D = record p { batch = p.batch ++ (j ∷ []) } in
      let kept : IsDealt work n q flight = record {
        size = d.size;
        count = d.count;
        in_turn = d.in_turn;
        dispatch = d.dispatch;
        shares = d.shares;
      } in
      if_cases (λ (r : Bool × Pipeline J D). IsDealt work n (r.1) (flight ++ submitting p j))
        (length p.workers == 0)
        (λ t. let clash : true ≡ false = sym t ∙ has_workers n p flight d in absurd (cc))
        (λ t.
          both n (leb 16 (length q.batch)) (flush work q) (true, q) flight (handing q)
            (flush-IsDealt n q flight kept) (kept_IsDealt n p q flight d refl refl refl refl))

  collect-IsCollected :
      (n : ℕ) (p : Pipeline J D) (flight : List (List J))
      → IsDealt work n p flight
      → IsCollected work n (flight ++ handing p) (collect work p)
  unfolding collect
  collect-IsCollected n p flight d =
      let q : Pipeline J D = (flush work p).1 in
      if_cases (IsCollected work n (flight ++ handing p)) (length p.workers == 0)
        (λ t. let clash : true ≡ false = sym t ∙ has_workers n p flight d in absurd (cc))
        (λ t.
          collect_from-IsCollected work n q.in_flight_batches q (flight ++ handing p)
            (flush-IsDealt n p flight d) refl)

  happen-IsOrdered :
      (n : ℕ) (s : System J D) (e : Event J) → IsOrdered n s → IsOrdered n (happen s e)
  unfolding happen joined
  happen-IsOrdered n s (submits j) i = record {
    got = i.got;
    flight = i.flight ++ submitting s.pipe j;
    split =
        ap (λ h. h ++ submitting s.pipe j) i.split
        ∙ append_assoc i.got i.flight (submitting s.pipe j);
    in_order = i.in_order;
    dealt = submit-IsDealt n s.pipe i.flight j i.dealt;
  }
  happen-IsOrdered n s flushes i = record {
    got = i.got;
    flight = i.flight ++ handing s.pipe;
    split = ap (λ h. h ++ handing s.pipe) i.split ∙ append_assoc i.got i.flight (handing s.pipe);
    in_order = i.in_order;
    dealt = flush-IsDealt n s.pipe i.flight i.dealt;
  }
  happen-IsOrdered n s collects i =
      let c = collect-IsCollected n s.pipe i.flight i.dealt in
      record {
        got = i.got ++ c.got;
        flight = c.rest;
        split =
            ap (λ h. h ++ handing s.pipe) i.split
            ∙ append_assoc i.got i.flight (handing s.pipe)
            ∙ ap (λ f. i.got ++ f) c.split
            ∙ sym (append_assoc i.got c.got c.rest);
        in_order =
            ap₂ (λ x y. x ++ y) i.in_order c.delivered
            ∙ sym (map-append work (joined i.got) (joined c.got))
            ∙ ap (map work) (sym (joined-append i.got c.got));
        dealt = c.dealt;
      }
  happen-IsOrdered n s (takes k) i = record {
    got = i.got;
    flight = i.flight;
    split = i.split;
    in_order = i.in_order;
    dealt = worker_takes-IsDealt work n s.pipe i.flight k i.dealt;
  }
  happen-IsOrdered n s (sends k) i = record {
    got = i.got;
    flight = i.flight;
    split = i.split;
    in_order = i.in_order;
    dealt = worker_sends-IsDealt work n s.pipe i.flight k i.dealt;
  }

  idle_contents : (n w : ℕ) → contents work (get_or (replicate n idle_worker) w idle_worker) ≡ []
  idle_contents n w = rw (get_or-replicate n w (idle_worker {J = J} {D = D})) refl

  started-IsOrdered : (n : ℕ) → 0 < n → IsOrdered n (started n)
  unfolding new joined share turn
  started-IsOrdered n h = record {
    got = [];
    flight = [];
    split = refl;
    in_order = refl;
    dealt = record {
      size = length-replicate n idle_worker;
      count = refl;
      in_turn = h;
      dispatch = refl;
      shares = λ w k. idle_contents n w;
    };
  }

  from-IsOrdered :
      (n : ℕ) (s : System J D) (es : List (Event J)) → IsOrdered n s → IsOrdered n (happen_all s es)
  unfolding happen_all
  from-IsOrdered n s [] i = i
  from-IsOrdered n s (e ∷ es) i = from-IsOrdered n (happen s e) es (happen-IsOrdered n s e i)

  -- From a new pipeline with at least one worker, whatever the event loop calls and however the worker
  -- threads interleave with it, the results delivered so far are those of the first batches handed to
  -- workers, job by job in the order in which the batches were handed over; every other batch handed
  -- over is with the workers, none lost.
  pub happen_all-IsOrdered :
      (n : ℕ) (es : List (Event J)) → 0 < n → IsOrdered n (happen_all (started n) es)
  happen_all-IsOrdered n es h = from-IsOrdered n (started n) es (started-IsOrdered n h)
