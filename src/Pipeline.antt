-- ===== src/Pipeline.antt =====
-- src/pipeline.rs: the ordered pipeline. A channel is the list of what was sent and not yet received;
-- a worker's thread is two steps, taking a batch and sending its results. Threads run until the
-- pipeline is dropped, so no channel is disconnected. The eventfd only wakes the event loop.
pub mod Order
pub mod Collect
pub mod System
pub mod Progress
pub mod Tests
use udp2raw_rust.Prelude.{
  ℕ, zero, suc, ◌+◌, ◌%◌, Bool, true, false, ◌||◌, Option, none, some, List, [], ◌∷◌, ◌++◌, map,
  leb, ◌==◌, if◌then◌else◌, length, set, get_or, replicate,
}
use udp2raw_rust.Crypto.{Primitives, Crypto}
use udp2raw_rust.Conn.{encrypt_safer, decrypt_safer}
use udp2raw_rust.FakeTcp.{RecvMeta}

pub record JobKey : Type 0 where
  pub slot : ℕ
  pub generation : ℕ

-- An encryption carries the nonce that the worker draws for it.
pub data Job : Type 0 where
  encrypt_job : JobKey → List ℕ → List ℕ → Job
  decrypt_job : JobKey → List ℕ → RecvMeta → Job

pub data Done : Type 0 where
  encrypted : JobKey → Option (List ℕ) → Done
  decrypted : JobKey → List (List ℕ) → RecvMeta → Done

unfoldable pub process : Primitives → Crypto → Bool → Job → Done
unfolding encrypt_safer decrypt_safer
process p crypto fix_gro (encrypt_job key nonce plain) =
    encrypted key (encrypt_safer p crypto nonce plain fix_gro)
process p crypto fix_gro (decrypt_job key wire meta) =
    decrypted key (decrypt_safer p crypto wire fix_gro) meta

abbrev pub batch_jobs : ℕ
batch_jobs = 16

abbrev pub queue_depth : ℕ
queue_depth = 64

-- The two channels, and the batch that the thread works on.
pub record Worker (J D : Type 0) : Type 0 where
  pub jobs : List (List J)
  pub working : Option (List J)
  pub dones : List (List D)

abbrev pub idle_worker : {J D : Type 0} → Worker J D
idle_worker = record { jobs = []; working = none; dones = [] }

pub record Pipeline (J D : Type 0) : Type 0 where
  pub workers : List (Worker J D)
  pub next_dispatch : ℕ
  pub next_collect : ℕ
  pub in_flight_batches : ℕ
  pub batch : List J
  pub inline_done : List D
  pub dropped : ℕ

unfoldable pub new : {J D : Type 0} → ℕ → Pipeline J D
new threads = record {
  workers = replicate threads idle_worker;
  next_dispatch = 0;
  next_collect = 0;
  in_flight_batches = 0;
  batch = [];
  inline_done = [];
  dropped = 0;
}

module _ {J D : Type 0} (work : J → D) where
  abbrev pub worker : Pipeline J D → ℕ → Worker J D
  worker p i = get_or p.workers i idle_worker

  abbrev pub set_worker : Pipeline J D → ℕ → Worker J D → Pipeline J D
  set_worker p i w = record p { workers = set p.workers i w }

  -- The worker after `i` in the round.
  abbrev pub following : Pipeline J D → ℕ → ℕ
  following p i = (i + 1) % length p.workers

  abbrev pub hand_over : Pipeline J D → Pipeline J D
  hand_over p =
      let w = worker p p.next_dispatch in
      record (set_worker p p.next_dispatch (record w { jobs = w.jobs ++ (p.batch ∷ []) })) {
        batch = [];
        next_dispatch = following p p.next_dispatch;
        in_flight_batches = p.in_flight_batches + 1;
      }

  abbrev pub is_idle : Pipeline J D → Bool
  is_idle p = length p.batch == 0 || length p.workers == 0

  abbrev pub is_full : Pipeline J D → Bool
  is_full p = leb queue_depth (length (worker p p.next_dispatch).jobs)

  unfoldable pub flush : Pipeline J D → Bool × Pipeline J D
  flush p =
      if is_idle p
      then (true, p)
      else if is_full p
      then (false, record p { batch = []; dropped = p.dropped + length p.batch })
      else (true, hand_over p)

  unfoldable pub submit : Pipeline J D → J → Bool × Pipeline J D
  unfolding flush
  submit p j =
      let q : Pipeline J D = record p { batch = p.batch ++ (j ∷ []) } in
      if length p.workers == 0
      then (true, record p { inline_done = p.inline_done ++ (work j ∷ []) })
      else if leb batch_jobs (length q.batch)
      then flush q
      else (true, q)

  -- One round of the loop of `collect`, on the results of the worker whose turn it is.
  abbrev pub collect_next :
      (Pipeline J D → List D × Pipeline J D)
      → Pipeline J D
      → ℕ
      → Worker J D
      → List (List D)
      → List D × Pipeline J D
  collect_next loop p left w [] = ([], p)
  collect_next loop p left w (d ∷ ds) =
      let rest = loop (record (set_worker p p.next_collect (record w { dones = ds })) {
        next_collect = following p p.next_collect;
        in_flight_batches = left;
      }) in
      (d ++ rest.0, rest.1)

  -- `while self.in_flight_batches > 0`, with that number of rounds.
  unfoldable pub collect_from : ℕ → Pipeline J D → List D × Pipeline J D
  collect_from zero p = ([], p)
  collect_from (suc left) p =
      let w = worker p p.next_collect in collect_next (collect_from left) p left w w.dones

  unfoldable pub collect : Pipeline J D → List D × Pipeline J D
  unfolding flush collect_from
  collect p =
      let q = (flush p).1 in
      if length p.workers == 0
      then (p.inline_done, record p { inline_done = [] })
      else collect_from q.in_flight_batches q

  -- The thread of a worker receives a batch, if it has none and one is there.
  abbrev pub take_batch : Worker J D → Option (List J) → List (List J) → Worker J D
  take_batch w none (b ∷ bs) = record w { jobs = bs; working = some b }
  take_batch w none [] = w
  take_batch w (some b) bs = w

  -- It sends the results of its batch, unless the channel is full.
  abbrev pub send_results : Worker J D → Option (List J) → Worker J D
  send_results w none = w
  send_results w (some b) =
      if leb queue_depth (length w.dones)
      then w
      else record w { working = none; dones = w.dones ++ (map work b ∷ []) }

  unfoldable pub worker_takes : Pipeline J D → ℕ → Pipeline J D
  worker_takes p i = let w = worker p i in set_worker p i (take_batch w w.working w.jobs)

  unfoldable pub worker_sends : Pipeline J D → ℕ → Pipeline J D
  worker_sends p i = let w = worker p i in set_worker p i (send_results w w.working)
