-- ===== src/Util/Pool.antt =====
-- src/util.rs: the free list of packet buffers.
use udp2raw_rust.Prelude.{
  ℕ, ◌≤◌, ◌≡◌, refl, sym, subst, ◌&&◌, List, [], ◌∷◌, arith, ltb, leb, if◌then◌else◌, if_cases,
  length,
}

-- A vector: its bytes and its capacity.
pub record Buffer : Type 0 where
  pub bytes : List ℕ
  pub capacity : ℕ

-- The list stands with its last element first.
pub record BufPool : Type 0 where
  pub free : List Buffer
  pub buf_cap : ℕ
  pub max_free : ℕ

unfoldable pub new : ℕ → ℕ → BufPool
new buf_cap max_free = record { free = []; buf_cap = buf_cap; max_free = max_free }

-- `alloc` is the capacity that `Vec::with_capacity` gives, at least the one asked for.
module _ (alloc : ℕ → ℕ) where
  abbrev pub pop : BufPool → List Buffer → Buffer × BufPool
  pop p [] = (record { bytes = []; capacity = alloc p.buf_cap }, p)
  pop p (b ∷ rest) = (b, record p { free = rest })

  unfoldable pub take_buffer : BufPool → Buffer × BufPool
  take_buffer p = pop p p.free

  unfoldable pub recycle : BufPool → Buffer → BufPool
  recycle p b =
      if ltb (length p.free) p.max_free && leb p.buf_cap b.capacity
      then record p { free = record b { bytes = [] } ∷ p.free }
      else p

  -- A call of the pool.
  pub data PoolCall : Type 0 where
    takes : PoolCall
    recycles : Buffer → PoolCall

  -- The buffers that the calls hand out.
  unfoldable pub handed_out : BufPool → List PoolCall → List Buffer
  unfolding take_buffer recycle
  handed_out p [] = []
  handed_out p (takes ∷ calls) = (take_buffer p).0 ∷ handed_out ((take_buffer p).1) calls
  handed_out p (recycles b ∷ calls) = handed_out (recycle p b) calls

  -- Every buffer is empty and has the capacity.
  abbrev pub AreReady : ℕ → List Buffer → Type 0
  AreReady size [] = Unit
  AreReady size (b ∷ bs) = (b.bytes ≡ []) × (size ≤ b.capacity) × AreReady size bs

  record IsTaken (size : ℕ) (r : Buffer × BufPool) : Type 0 where
    clean : r.0.bytes ≡ []
    fits : size ≤ r.0.capacity
    left : AreReady size r.1.free
    same : r.1.buf_cap ≡ size

  pop-IsTaken :
      (p : BufPool) (free : List Buffer) (size : ℕ)
      → size ≤ alloc size
      → p.buf_cap ≡ size
      → p.free ≡ free
      → AreReady size free
      → IsTaken size (pop p free)
  pop-IsTaken p [] size room e f h = record {
    clean = refl;
    fits = subst (λ n. size ≤ alloc n) (sym e) room;
    left = subst (AreReady size) (sym f) h;
    same = e;
  }
  pop-IsTaken p (b ∷ rest) size room e f h = record {
    clean = h.0;
    fits = h.1;
    left = h.2;
    same = e;
  }

  handed_out_from :
      (p : BufPool) (calls : List PoolCall) (size : ℕ)
      → size ≤ alloc size
      → p.buf_cap ≡ size
      → AreReady size p.free
      → AreReady size (handed_out p calls)
  unfolding handed_out take_buffer recycle
  handed_out_from p [] size room e h = tt
  handed_out_from p (recycles b ∷ calls) size room e h =
      if_cases (λ (q : BufPool). AreReady size (handed_out q calls))
        (ltb (length p.free) p.max_free && leb p.buf_cap b.capacity)
        (λ t.
          let fits : size ≤ b.capacity = ground (arith, e) in
          handed_out_from (record p { free = record b { bytes = [] } ∷ p.free }) calls size room e
            (refl, fits, h))
        (λ t. handed_out_from p calls size room e h)
  handed_out_from p (takes ∷ calls) size room e h =
      let t = pop-IsTaken p p.free size room e refl h in
      (t.clean, t.fits, handed_out_from ((take_buffer p).1) calls size room t.same t.left)

  -- Whatever buffers come back and in whatever order, every buffer that a new pool hands out is empty
  -- and has the pool's capacity, where an allocation gives at least the capacity asked for.
  pub handed_out-AreReady :
      (buf_cap max_free : ℕ) (calls : List PoolCall)
      → buf_cap ≤ alloc buf_cap
      → AreReady buf_cap (handed_out (new buf_cap max_free) calls)
  unfolding new
  handed_out-AreReady buf_cap max_free calls room =
      handed_out_from (new buf_cap max_free) calls buf_cap room refl tt
