-- ===== src/Pipeline/Order.antt =====
-- src/pipeline.rs: the order of the batches, from the queues to the results.
use native.Mathlib.Nat.{mod-lt}
use mathlib.Core.List.{map-append}
use udp2raw_rust.Prelude.{
  ℕ, zero, suc, ◌+◌, ◌%◌, ◌<◌, ◌≡◌, refl, sym, ap, ap₂, ◌∙◌, subst, ◌≢◌, inl, inr, Bool, true,
  false, Option, none, some, List, [], ◌∷◌, ◌++◌, map, append-nil, append_assoc, arith, leb, ◌==◌,
  if◌then◌else◌, ==_iff, Bool-cases, if_cases, length, set, get_or, length-append, length-set,
  get_or-set_self, get_or-set_ne,
}
use udp2raw_rust.Pipeline.{
  Worker, Pipeline, idle_worker, worker, set_worker, hand_over, take_batch, send_results,
  worker_takes, worker_sends,
}

-- The workers in turn, among `n`.
unfoldable pub turn : ℕ → ℕ → ℕ → ℕ
turn n c zero = c
turn n c (suc k) = turn n ((c + 1) % n) k

turn-next : (n c k : ℕ) → (turn n c k + 1) % n ≡ turn n ((c + 1) % n) k
unfolding turn
turn-next n c zero = refl
turn-next n c (suc k) = turn-next n ((c + 1) % n) k

turn-suc : (n c k : ℕ) → (turn n c k + 1) % n ≡ turn n c (suc k)
unfolding turn
turn-suc n c k = turn-next n c k

turn-lt : (n c k : ℕ) → c < n → turn n c k < n
unfolding turn
turn-lt n c zero h = h
turn-lt n c (suc k) h = turn-lt n ((c + 1) % n) k (mod-lt (c + 1) (omega (arith, h)))

-- Of the batches dealt out in turn from worker `c` on, those of worker `w`.
unfoldable pub share : {A : Type 0} → ℕ → ℕ → ℕ → List A → List A
share n c w [] = []
share n c w (b ∷ bs) = let rest = share n ((c + 1) % n) w bs in if c == w then b ∷ rest else rest

share-append :
    {A : Type 0} (n c w : ℕ) (bs : List A) (b : A)
    → share n c w (bs ++ (b ∷ []))
      ≡ share n c w bs ++ (if turn n c (length bs) == w then b ∷ [] else [])
unfolding share turn
share-append n c w [] b = refl
share-append n c w (x ∷ bs) b = elim (Bool-cases (c == w)) [
  | inl e ↦ rw e (ap (◌∷◌ x) (share-append n ((c + 1) % n) w bs b))
  | inr e ↦ rw e (share-append n ((c + 1) % n) w bs b)
]

-- The batch that a thread works on.
abbrev pub held : {A : Type 0} → Option A → List A
held none = []
held (some b) = b ∷ []

module _ {J D : Type 0} (work : J → D) where
  -- The results that a worker will have sent when it has done all it was given.
  abbrev pub contents : Worker J D → List (List D)
  contents w = w.dones ++ map (map work) (held w.working ++ w.jobs)

  contents-take :
      (w : Worker J D) (o : Option (List J)) (bs : List (List J))
      → w.working ≡ o
      → w.jobs ≡ bs
      → contents (take_batch work w o bs) ≡ contents w
  contents-take w none [] e f = refl
  contents-take w none (b ∷ bs) e f =
      sym (ap₂ (λ o js. w.dones ++ map (map work) (held o ++ js)) e f)
  contents-take w (some b) bs e f = refl

  contents-send :
      (w : Worker J D) (o : Option (List J))
      → w.working ≡ o
      → contents (send_results work w o) ≡ contents w
  contents-send w none e = refl
  contents-send w (some b) e =
      if_cases (λ (v : Worker J D). contents v ≡ contents w) (leb 64 (length w.dones))
        (λ full. refl)
        (λ room.
          append_assoc w.dones (map work b ∷ []) (map (map work) w.jobs)
          ∙ sym (ap (λ o. w.dones ++ map (map work) (held o ++ w.jobs)) e))

  contents-push :
      (w : Worker J D) (b : List J)
      → contents (record w { jobs = w.jobs ++ (b ∷ []) }) ≡ contents w ++ (map work b ∷ [])
  contents-push w b =
      ap (λ js. w.dones ++ map (map work) js) (sym (append_assoc (held w.working) w.jobs (b ∷ [])))
      ∙ ap (λ rs. w.dones ++ rs) (map-append (map work) (held w.working ++ w.jobs) (b ∷ []))
      ∙ sym (append_assoc w.dones (map (map work) (held w.working ++ w.jobs)) (map work b ∷ []))

  -- The batches `flight` are with the `n` workers, dealt out in turn.
  pub record IsDealt (n : ℕ) (p : Pipeline J D) (flight : List (List J)) : Type 0 where
    pub size : length p.workers ≡ n
    pub count : length flight ≡ p.in_flight_batches
    pub in_turn : p.next_collect < n
    pub dispatch : p.next_dispatch ≡ turn n p.next_collect (length flight)
    pub shares :
        (w : ℕ)
        → w < n
        → contents (worker work p w) ≡ map (map work) (share n p.next_collect w flight)

  -- A worker's contents when another worker, or it, has changed.
  pub contents-set_worker :
      (p : Pipeline J D) (i w : ℕ) (v : Worker J D)
      → w < length p.workers
      → contents (worker work (set_worker work p i v) w)
        ≡ (if i == w then contents v else contents (worker work p w))
  contents-set_worker p i w v h = elim (Bool-cases (i == w)) [
    | inl e ↦
        let same : i ≡ w = (==_iff i w).0 e in
        rw e (
          ap contents (
            ap (λ k. get_or (set p.workers i v) k idle_worker) (sym same)
            ∙ get_or-set_self p.workers i v idle_worker (omega (arith, same, h))))
    | inr e ↦
        let other : i ≢ w =
          λ s. let clash : true ≡ false = sym ((==_iff i w).1 s) ∙ e in absurd (cc) in
        rw e (ap contents (get_or-set_ne p.workers i w v idle_worker other))
  ]

  -- A step of a thread keeps what its worker has in hand.
  kept-IsDealt :
      (n : ℕ) (p : Pipeline J D) (flight : List (List J)) (i : ℕ) (v : Worker J D)
      → contents v ≡ contents (worker work p i)
      → IsDealt n p flight
      → IsDealt n (set_worker work p i v) flight
  kept-IsDealt n p flight i v e d = record {
    size = length-set p.workers i v ∙ d.size;
    count = d.count;
    in_turn = d.in_turn;
    dispatch = d.dispatch;
    shares = λ w h.
        contents-set_worker p i w v (omega (arith, d.size, h))
        ∙ if_cases (λ c. c ≡ map (map work) (share n p.next_collect w flight)) (i == w)
            (λ t.
              e
              ∙ subst
                  (λ k.
                    contents (worker work p k) ≡ map (map work) (share n p.next_collect w flight))
                  (sym ((==_iff i w).0 t)) (d.shares w h))
            (λ t. d.shares w h);
  }

  pub worker_takes-IsDealt :
      (n : ℕ) (p : Pipeline J D) (flight : List (List J)) (i : ℕ)
      → IsDealt n p flight
      → IsDealt n (worker_takes work p i) flight
  unfolding worker_takes
  worker_takes-IsDealt n p flight i d =
      let w : Worker J D = worker work p i in
      kept-IsDealt n p flight i (take_batch work w w.working w.jobs)
        (contents-take w w.working w.jobs refl refl) d

  pub worker_sends-IsDealt :
      (n : ℕ) (p : Pipeline J D) (flight : List (List J)) (i : ℕ)
      → IsDealt n p flight
      → IsDealt n (worker_sends work p i) flight
  unfolding worker_sends
  worker_sends-IsDealt n p flight i d =
      let w : Worker J D = worker work p i in
      kept-IsDealt n p flight i (send_results work w w.working) (contents-send w w.working refl) d

  push_share :
      (b : Bool) (c : List (List D)) (xs : List (List J)) (x : List J)
      → c ≡ map (map work) xs
      → (if b then c ++ (map work x ∷ []) else c)
        ≡ map (map work) (xs ++ (if b then x ∷ [] else []))
  push_share true c xs x e =
      ap (λ r. r ++ (map work x ∷ [])) e ∙ sym (map-append (map work) xs (x ∷ []))
  push_share false c xs x e = e ∙ ap (map (map work)) (sym (append-nil xs))

  -- Only the worker whose turn it is gets the batch.
  pushed :
      (p : Pipeline J D) (k : ℕ)
      → (if p.next_dispatch == k
          then contents (record (worker work p p.next_dispatch) {
            jobs = (worker work p p.next_dispatch).jobs ++ (p.batch ∷ []);
          })
          else contents (worker work p k))
        ≡ (if p.next_dispatch == k
            then contents (worker work p k) ++ (map work p.batch ∷ [])
            else contents (worker work p k))
  pushed p k = elim (Bool-cases (p.next_dispatch == k)) [
    | inl e ↦ rw e (
        contents-push (worker work p p.next_dispatch) p.batch
        ∙ ap (λ i. contents (worker work p i) ++ (map work p.batch ∷ []))
            ((==_iff p.next_dispatch k).0 e))
    | inr e ↦ rw e refl
  ]

  -- The batch that is handed over joins the end.
  pub hand_over-IsDealt :
      (n : ℕ) (p : Pipeline J D) (flight : List (List J))
      → IsDealt n p flight
      → IsDealt n (hand_over work p) (flight ++ (p.batch ∷ []))
  hand_over-IsDealt n p flight d =
      let w : Worker J D = worker work p p.next_dispatch in
      let v : Worker J D = record w { jobs = w.jobs ++ (p.batch ∷ []) } in
      let one_more : suc (length flight) ≡ length (flight ++ (p.batch ∷ [])) =
        omega (arith, length-append flight (p.batch ∷ [])) in
      record {
        size = length-set p.workers p.next_dispatch v ∙ d.size;
        count = omega (arith, d.count, one_more);
        in_turn = d.in_turn;
        dispatch =
            ap₂ (λ a m. (a + 1) % m) d.dispatch d.size
            ∙ turn-suc n p.next_collect (length flight)
            ∙ ap (turn n p.next_collect) one_more;
        shares = λ k h.
            contents-set_worker p p.next_dispatch k v (omega (arith, d.size, h))
            ∙ pushed p k
            ∙ push_share (p.next_dispatch == k) (contents (worker work p k))
                (share n p.next_collect k flight) p.batch (d.shares k h)
            ∙ ap (map (map work)) (
                ap (λ t. share n p.next_collect k flight ++ (if t == k then p.batch ∷ [] else []))
                  d.dispatch
                ∙ sym (share-append n p.next_collect k flight p.batch));
      }
