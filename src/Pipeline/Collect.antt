-- ===== src/Pipeline/Collect.antt =====
-- What `collect` delivers.
use native.Mathlib.Nat.{mod-lt}
use mathlib.Core.List.{map-append, append_assoc}
use udp2raw_rust.Prelude.{
  ℕ, zero, suc, ◌+◌, ◌%◌, ◌<◌, ◌≡◌, refl, sym, ap, ap₂, ◌∙◌, subst, true, false, List, [], ◌∷◌,
  ◌++◌, map, arith, ◌==◌, ==_iff, ==-refl, if_cases, length, length-set,
}
use udp2raw_rust.Pipeline.{
  Worker, Pipeline, worker, set_worker, following, collect_next, collect_from,
}
use udp2raw_rust.Pipeline.Order.{turn, share, held, contents, IsDealt, contents-set_worker}

-- The jobs of batches, in order.
unfoldable pub joined : {A : Type 0} → List (List A) → List A
joined [] = []
joined (b ∷ bs) = b ++ joined bs

pub joined-append :
    {A : Type 0} (xs ys : List (List A)) → joined (xs ++ ys) ≡ joined xs ++ joined ys
unfolding joined
joined-append [] ys = refl
joined-append (x ∷ xs) ys =
    ap (λ r. x ++ r) (joined-append xs ys) ∙ sym (append_assoc x (joined xs) (joined ys))

pub head_eq : {A : Type 0} {x y : A} {xs ys : List A} → (x ∷ xs) ≡ (y ∷ ys) → x ≡ y
head_eq e = cc

tail_eq : {A : Type 0} {x y : A} {xs ys : List A} → (x ∷ xs) ≡ (y ∷ ys) → xs ≡ ys
tail_eq e = cc

module _ {J D : Type 0} (work : J → D) (n : ℕ) where
  -- The batches `got` have been delivered, and `rest` are still with the workers.
  pub record IsCollected (flight : List (List J)) (r : List D × Pipeline J D) : Type 0 where
    pub got : List (List J)
    pub rest : List (List J)
    pub split : flight ≡ got ++ rest
    pub delivered : r.0 ≡ map work (joined got)
    pub dealt : IsDealt work n (r.1) rest

  nothing :
      (p : Pipeline J D) (flight : List (List J))
      → IsDealt work n p flight
      → IsCollected flight ([], p)
  unfolding joined
  nothing p flight d = record { got = []; rest = flight; split = refl; delivered = refl; dealt = d }

  -- The pipeline without the results that stand first in the channel of the worker whose turn it is.
  abbrev pub popped : Pipeline J D → ℕ → List (List D) → Pipeline J D
  popped p left ds =
      record (set_worker work p p.next_collect
        (record (worker work p p.next_collect) { dones = ds })) {
          next_collect = following work p p.next_collect;
          in_flight_batches = left;
        }

  -- In the order of the turns these are the results of the first batch.
  pub first_batch :
      (p : Pipeline J D) (b : List J) (bs : List (List J)) (d : List D) (ds : List (List D))
      → IsDealt work n p (b ∷ bs)
      → (worker work p p.next_collect).dones ≡ d ∷ ds
      → (d ∷ contents work (record (worker work p p.next_collect) { dones = ds }))
        ≡ (map work b ∷ map (map work) (share n ((p.next_collect + 1) % n) p.next_collect bs))
  unfolding share
  first_batch p b bs d ds i e =
      let w : Worker J D = worker work p p.next_collect in
      let mine = i.shares p.next_collect i.in_turn in
      sym (ap (λ r. r ++ map (map work) (held w.working ++ w.jobs)) e)
      ∙ mine
      ∙ if_cases
          (λ s.
            map (map work) s
            ≡ (map work b ∷ map (map work) (share n ((p.next_collect + 1) % n) p.next_collect bs)))
          (p.next_collect == p.next_collect) (λ t. refl)
          (λ t. let clash : true ≡ false = sym (==-refl p.next_collect) ∙ t in absurd (cc))

  other_share :
      (c w : ℕ) (b : List J) (bs : List (List J))
      → c == w ≡ false
      → share n c w (b ∷ bs) ≡ share n ((c + 1) % n) w bs
  unfolding share
  other_share c w b bs e = rw e refl

  pub popped-IsDealt :
      (p : Pipeline J D) (left : ℕ) (b : List J) (bs : List (List J)) (d : List D)
      (ds : List (List D))
      → IsDealt work n p (b ∷ bs)
      → p.in_flight_batches ≡ suc left
      → (worker work p p.next_collect).dones ≡ d ∷ ds
      → IsDealt work n (popped p left ds) bs
  unfolding turn
  popped-IsDealt p left b bs d ds i e f =
      let c = p.next_collect in
      let w : Worker J D = worker work p c in
      let v : Worker J D = record w { dones = ds } in
      let nx : (c + 1) % length p.workers ≡ (c + 1) % n = ap (λ m. (c + 1) % m) i.size in
      let mine = tail_eq (first_batch p b bs d ds i f) in
      record {
        size = length-set p.workers c v ∙ i.size;
        count = omega (arith, i.count, e);
        in_turn = subst (λ m. m < n) (sym nx) (mod-lt (c + 1) (omega (arith, i.in_turn)));
        dispatch = i.dispatch ∙ ap (λ m. turn n m (length bs)) (sym nx);
        shares = λ k h.
            contents-set_worker work p c k v (omega (arith, i.size, h))
            ∙ if_cases (λ x. x ≡ map (map work) (share n ((c + 1) % n) k bs)) (c == k)
                (λ t.
                  subst (λ m. contents work v ≡ map (map work) (share n ((c + 1) % n) m bs))
                    ((==_iff c k).0 t) mine)
                (λ t. i.shares k h ∙ ap (map (map work)) (other_share c k b bs t))
            ∙ ap (λ m. map (map work) (share n m k bs)) (sym nx);
      }

  collect_next-IsCollected :
      (loop : Pipeline J D → List D × Pipeline J D) (p : Pipeline J D) (left : ℕ)
      (flight : List (List J)) (o : List (List D))
      → ((q : Pipeline J D) (later : List (List J))
          → IsDealt work n q later
          → q.in_flight_batches ≡ left
          → IsCollected later (loop q))
      → IsDealt work n p flight
      → p.in_flight_batches ≡ suc left
      → (worker work p p.next_collect).dones ≡ o
      → IsCollected flight (collect_next work loop p left (worker work p p.next_collect) o)
  unfolding joined
  collect_next-IsCollected loop p left flight [] goes_on i e f = nothing p flight i
  collect_next-IsCollected loop p left [] (d ∷ ds) goes_on i e f =
      absurd (omega (arith, i.count, e))
  collect_next-IsCollected loop p left (b ∷ bs) (d ∷ ds) goes_on i e f =
      let later = goes_on (popped p left ds) bs (popped-IsDealt p left b bs d ds i e f) refl in
      record {
        got = b ∷ later.got;
        rest = later.rest;
        split = ap (◌∷◌ b) later.split;
        delivered =
            ap₂ (λ x y. x ++ y) (head_eq (first_batch p b bs d ds i f)) later.delivered
            ∙ sym (map-append work b (joined later.got));
        dealt = later.dealt;
      }

  pub collect_from-IsCollected :
      (left : ℕ) (p : Pipeline J D) (flight : List (List J))
      → IsDealt work n p flight
      → p.in_flight_batches ≡ left
      → IsCollected flight (collect_from work left p)
  unfolding collect_from
  collect_from-IsCollected zero p flight i e = nothing p flight i
  collect_from-IsCollected (suc left) p flight i e =
      collect_next-IsCollected (collect_from work left) p left flight
        (worker work p p.next_collect).dones (collect_from-IsCollected left) i e refl
