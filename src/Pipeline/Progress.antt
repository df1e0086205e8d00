-- ===== src/Pipeline/Progress.antt =====
-- src/pipeline.rs, `collect`: when the workers are done.
use mathlib.Core.List.{map-append}
use udp2raw_rust.Prelude.{
  ℕ, zero, suc, ◌+◌, ◌%◌, ◌<◌, ◌≡◌, refl, sym, ap, ap₂, ◌∙◌, Bool, true, false, ◌||◌, List, [], ◌∷◌,
  ◌++◌, map, arith, ◌==◌, ==-refl, if_cases, length, set, get_or,
}
use udp2raw_rust.Pipeline.{
  Worker, Pipeline, idle_worker, worker, is_idle, flush, collect_next, collect_from, collect,
}
use udp2raw_rust.Pipeline.Order.{share, held, contents, IsDealt}
use udp2raw_rust.Pipeline.Collect.{
  joined, joined-append, popped, popped-IsDealt, first_batch, head_eq,
}
use udp2raw_rust.Pipeline.System.{
  Event, System, happen_all, started, happen_all-IsOrdered, has_workers,
}

set_all :
    {A : Type 0} (P : A → Type 0) (d : A) (xs : List A) (k : ℕ) (v : A)
    → P v
    → ((i : ℕ) → P (get_or xs i d))
    → (i : ℕ) → P (get_or (set xs k v) i d)
set_all P d [] k v p h i = h i
set_all P d (x ∷ xs) zero v p h zero = p
set_all P d (x ∷ xs) zero v p h (suc i) = h (suc i)
set_all P d (x ∷ xs) (suc k) v p h zero = h zero
set_all P d (x ∷ xs) (suc k) v p h (suc i) = set_all P d xs k v p (λ j. h (suc j)) i

-- The worker has nothing left to do.
abbrev pub IsDone : {J D : Type 0} → Worker J D → Type 0
IsDone w = held w.working ++ w.jobs ≡ []

module _ {J D : Type 0} (work : J → D) (n : ℕ) where
  -- No worker has anything left to do.
  abbrev pub AreDone : Pipeline J D → Type 0
  AreDone p = (i : ℕ) → IsDone (worker work p i)

  popped-AreDone :
      (p : Pipeline J D) (left : ℕ) (ds : List (List D))
      → AreDone p
      → AreDone (popped work n p left ds)
  popped-AreDone p left ds h i =
      set_all IsDone idle_worker p.workers p.next_collect
        (record (worker work p p.next_collect) { dones = ds }) (h p.next_collect) h i

  -- The worker whose turn it is has results.
  stuck :
      (p : Pipeline J D) (b : List J) (bs : List (List J))
      → IsDealt work n p (b ∷ bs)
      → AreDone p
      → (worker work p p.next_collect).dones ≡ []
      → ⊥
  unfolding share
  stuck p b bs i h e =
      let w : Worker J D = worker work p p.next_collect in
      let mine = i.shares p.next_collect i.in_turn in
      let empty : contents work w ≡ [] = ap₂ (λ x y. x ++ map (map work) y) e (h p.next_collect) in
      let first : map (map work) (share n p.next_collect p.next_collect (b ∷ bs))
          ≡ (map work b ∷ map (map work) (share n ((p.next_collect + 1) % n) p.next_collect bs)) =
        rw (==-refl p.next_collect) refl in
      let clash : []
          ≡ (map work b ∷ map (map work) (share n ((p.next_collect + 1) % n) p.next_collect bs)) =
        sym empty ∙ mine ∙ first in
      cc

  collect_next_all :
      (loop : Pipeline J D → List D × Pipeline J D) (p : Pipeline J D) (left : ℕ)
      (flight : List (List J)) (o : List (List D))
      → ((q : Pipeline J D) (later : List (List J))
          → IsDealt work n q later
          → q.in_flight_batches ≡ left
          → AreDone q
          → (loop q).0 ≡ map work (joined later))
      → IsDealt work n p flight
      → p.in_flight_batches ≡ suc left
      → AreDone p
      → (worker work p p.next_collect).dones ≡ o
      → (collect_next work loop p left (worker work p p.next_collect) o).0
        ≡ map work (joined flight)
  unfolding joined
  collect_next_all loop p left [] o goes_on i e h f = absurd (omega (arith, i.count, e))
  collect_next_all loop p left (b ∷ bs) [] goes_on i e h f = absurd (stuck p b bs i h f)
  collect_next_all loop p left (b ∷ bs) (d ∷ ds) goes_on i e h f =
      ap₂ (λ x y. x ++ y) (head_eq (first_batch work n p b bs d ds i f))
        (goes_on (popped work n p left ds) bs (popped-IsDealt work n p left b bs d ds i e f) refl
          (popped-AreDone p left ds h))
      ∙ sym (map-append work b (joined bs))

  collect_from_all :
      (left : ℕ) (p : Pipeline J D) (flight : List (List J))
      → IsDealt work n p flight
      → p.in_flight_batches ≡ left
      → AreDone p
      → (collect_from work left p).0 ≡ map work (joined flight)
  unfolding collect_from joined
  collect_from_all zero p [] i e h = refl
  collect_from_all zero p (b ∷ bs) i e h = absurd (omega (arith, i.count, e))
  collect_from_all (suc left) p flight i e h =
      collect_next_all (collect_from work left) p left flight (worker work p p.next_collect).dones
        (collect_from_all left) i e h refl

  collect_all :
      (p : Pipeline J D) (flight : List (List J))
      → IsDealt work n p flight
      → AreDone p
      → p.batch ≡ []
      → (collect work p).0 ≡ map work (joined flight)
  unfolding collect flush
  collect_all p flight i h e =
      let unflushed : is_idle work p ≡ true = ap (λ b. length b == 0 || length p.workers == 0) e in
      if_cases (λ (r : List D × Pipeline J D). r.0 ≡ map work (joined flight))
        (length p.workers == 0)
        (λ t. let clash : true ≡ false = sym t ∙ has_workers work n p flight i in absurd (cc))
        (λ t.
          if_cases
            (λ (q : Bool × Pipeline J D).
              (collect_from work q.1.in_flight_batches (q.1)).0 ≡ map work (joined flight))
            (is_idle work p) (λ u. collect_from_all p.in_flight_batches p flight i refl h)
            (λ u. let clash : true ≡ false = sym unflushed ∙ u in absurd (cc)))

  -- After any run of a pipeline with at least one worker, once the workers have nothing left to do and
  -- no partial batch is pending, one call of `collect` delivers everything that is outstanding: with it
  -- the results delivered are those of all jobs handed over, in order.
  pub collect_completes :
      (es : List (Event J))
      → 0 < n
      → AreDone (happen_all work (started work n) es).pipe
      → (happen_all work (started work n) es).pipe.batch ≡ []
      → (happen_all work (started work n) es).delivered
          ++ (collect work (happen_all work (started work n) es).pipe).0
        ≡ map work (joined (happen_all work (started work n) es).handed)
  collect_completes es h quiet empty =
      let s : System J D = happen_all work (started work n) es in
      let i = happen_all-IsOrdered work n es h in
      ap₂ (λ x y. x ++ y) i.in_order (collect_all s.pipe i.flight i.dealt quiet empty)
      ∙ sym (map-append work (joined i.got) (joined i.flight))
      ∙ ap (map work) (sym (joined-append i.got i.flight))
      ∙ ap (λ b. map work (joined b)) (sym i.split)
