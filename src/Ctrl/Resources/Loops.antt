-- ===== src/Ctrl/Resources/Loops.antt =====
-- What the loops over the I/O queues, of shell/nvme-of_setup/nvme-modified/host/rdma.c, leave held.
use net_cas.Common.{
  ℕ, zero, suc, ◌+◌, ◌-◌, ◌<◌, ◌≡◌, refl, arith, if◌then◌else◌, ltb, inl, inr, ◌∙◌, Bool-cases,
  if_ind,
}
use net_cas.Common.Code.{ℤ, is_zero, success}
use net_cas.Queue.Cm.{AllocEnv}
use net_cas.Counts.{QueueCounts, count_io_queues}
use net_cas.Ctrl.{
  Ctrl, Settings, alloc_queue_at, stop_queue_at, free_queue_at, start_queue_at, each_up, each_down,
  io_count,
}
use net_cas.Ctrl.Arrays.{
  IsFreeable, IsIdle-IsFreeable, IsHeld-IsFreeable, Split, alloc_queue_at-same, free_queue_at-same,
  each_up-free, eq_cases,
}
use net_cas.Ctrl.Io.{
  IoEnv, alloc_loop, alloc_each, alloc_io_queues, start_loop, start_io_queues, free_io_queues,
  stop_io_queues,
}
use net_cas.Ctrl.Resources.{IsHolding, IsSound, stop_queue_at-IsHolding, start_queue_at-IsHolding}

-- What the I/O queues' loops leave alone.
pub record SameAdmin (c t : Ctrl) : Type 0 where
  pub queue : t.queues 0 ≡ c.queues 0
  pub event : t.async_event ≡ c.async_event
  pub sqe : t.sqe ≡ c.sqe

same : (c : Ctrl) → SameAdmin c c
same c = record { queue = refl; event = refl; sqe = refl }

both : (c t u : Ctrl) → SameAdmin c t → SameAdmin t u → SameAdmin c u
both c t u a b = record {
  queue = b.queue ∙ a.queue;
  event = b.event ∙ a.event;
  sqe = b.sqe ∙ a.sqe;
}

module _ (P : Ctrl → Type 0) (f : ℕ → Ctrl → Ctrl) where
  -- A loop over indices above 0 keeps what each of its steps keeps.
  each_up-keeps :
      ((i : ℕ) (c : Ctrl) → 0 < i → P c → P (f i c))
      → (n i : ℕ) (c : Ctrl) → 0 < i
      → P c
      → P (each_up f n i c)
  unfolding each_up
  each_up-keeps keep zero i c pos h = h
  each_up-keeps keep (suc n) i c pos h =
      each_up-keeps keep n (i + 1) (f i c) (omega arith) (keep i c pos h)

  each_down-keeps :
      ((i : ℕ) (c : Ctrl) → 0 < i → P c → P (f i c))
      → (k : ℕ) (c : Ctrl) → P c
      → P (each_down f k c)
  unfolding each_down
  each_down-keeps keep zero c h = h
  each_down-keeps keep (suc k) c h =
      each_down-keeps keep k (f (suc k) c) (keep (suc k) c (omega arith) h)

free_queue_at-SameAdmin :
    (c : Ctrl) (i : ℕ) (t : Ctrl) → 0 < i → SameAdmin c t → SameAdmin c (free_queue_at i t)
unfolding free_queue_at
free_queue_at-SameAdmin c i t pos h =
    both c t (free_queue_at i t) h
      (record { queue = free_queue_at-same i t 0 (omega arith); event = refl; sqe = refl })

alloc_queue_at-SameAdmin :
    (o : Settings) (i n : ℕ) (e : AllocEnv) (c : Ctrl)
    → 0 < i
    → SameAdmin c (alloc_queue_at o i n e c).1
unfolding alloc_queue_at
alloc_queue_at-SameAdmin o i n e c pos = record {
  queue = alloc_queue_at-same o i n e c 0 (omega arith);
  event = refl;
  sqe = refl;
}

alloc_loop-SameAdmin :
    (o : Settings) (e : ℕ → AllocEnv) (n i : ℕ) (c : Ctrl)
    → 0 < i
    → SameAdmin c (alloc_loop o e n i c).2
unfolding alloc_loop
alloc_loop-SameAdmin o e zero i c pos = same c
alloc_loop-SameAdmin o e (suc n) i c pos =
    let (ret, t) = alloc_queue_at o i (c.identified.sqsize + 1) (e i) c in
    let a = alloc_queue_at-SameAdmin o i (c.identified.sqsize + 1) (e i) c pos in
    if_ind (λ (r : ℤ × ℕ × Ctrl). SameAdmin c r.2) (is_zero ret) (alloc_loop o e n (i + 1) t)
      (ret, i, t) (λ ok. both c t _ a (alloc_loop-SameAdmin o e n (i + 1) t (omega arith)))
      (λ bad. a)

alloc_each-SameAdmin :
    (o : Settings) (e : ℕ → AllocEnv) (c : Ctrl) → SameAdmin c (alloc_each o e c).1
unfolding alloc_each
alloc_each-SameAdmin o e c =
    let (ret, i, t) = alloc_loop o e (io_count c) 1 c in
    let a = alloc_loop-SameAdmin o e (io_count c) 1 c (omega arith) in
    if_ind (λ (r : ℤ × Ctrl). SameAdmin c r.1) (is_zero ret) (success, t)
      (ret, each_down free_queue_at (i - 1) t) (λ ok. a)
      (λ bad. each_down-keeps (SameAdmin c) free_queue_at (free_queue_at-SameAdmin c) (i - 1) t a)

pub alloc_io_queues-SameAdmin :
    (o : Settings) (e : IoEnv) (c : Ctrl) → SameAdmin c (alloc_io_queues o e c).1
unfolding alloc_io_queues
alloc_io_queues-SameAdmin o e c =
    let (ret, counts) = count_io_queues o.options e.num_comp_vectors e.online e.granted c.counts in
    let t = record c { counts = counts } in
    let a = alloc_each-SameAdmin o e.alloc t in
    let s : SameAdmin c t = record { queue = refl; event = refl; sqe = refl } in
    if_ind (λ (r : ℤ × Ctrl). SameAdmin c r.1) (is_zero ret)
      (if ltb counts.queue_count 2 then (success, t) else alloc_each o e.alloc t) (ret, t)
      (λ ok.
        if_ind (λ (r : ℤ × Ctrl). SameAdmin c r.1) (ltb counts.queue_count 2) (success, t)
          (alloc_each o e.alloc t) (λ few. s)
          (λ many. record { queue = a.queue; event = a.event; sqe = a.sqe }))
      (λ bad. s)

Split-IsFreeable : (t : Ctrl) (n j : ℕ) → 0 < j → Split n t → IsFreeable (t.queues j)
Split-IsFreeable t n j pos s = elim (Bool-cases (ltb j n)) [
  | inl below ↦ IsHeld-IsFreeable ((s j pos).0 (ground arith))
  | inr above ↦ IsIdle-IsFreeable ((s j pos).1 (ground arith))
]

-- The admin queue and the entry as before, and the I/O queues as the array's split says.
pub Split-IsHolding :
    (c t : Ctrl) (m n : ℕ) → IsHolding m c → SameAdmin c t → Split n t → IsHolding n t
Split-IsHolding c t m n h a s = record {
  each = λ j. elim (eq_cases 0 j) [
    | inl first ↦ rw (← first, a.queue) (h.each 0)
    | inr later ↦ Split-IsFreeable t n j (omega arith) s
  ];
  beyond = λ j pos far. (s j pos).1 far;
  event = rw (a.event, a.sqe) (h.event);
}

pub IsHolding-Split : (c : Ctrl) → IsHolding 1 c → Split 1 c
IsHolding-Split c h j pos = (λ below. absurd (omega arith), λ rest. h.beyond j pos rest)

-- A loop that touches neither the counts nor what is held.
pub record Started (n : ℕ) (counts : QueueCounts) (t : Ctrl) : Type 0 where
  pub held : IsHolding n t
  pub counted : t.counts ≡ counts

stop_queue_at-Started :
    (n : ℕ) (k : QueueCounts) (i : ℕ) (t : Ctrl)
    → 0 < i
    → Started n k t
    → Started n k (stop_queue_at i t)
unfolding stop_queue_at
stop_queue_at-Started n k i t pos h = record {
  held = stop_queue_at-IsHolding n i t h.held;
  counted = h.counted;
}

start_queue_at-Started :
    (n : ℕ) (k : QueueCounts) (i : ℕ) (ret : ℤ) (t : Ctrl)
    → Started n k t
    → Started n k (start_queue_at i ret t)
unfolding start_queue_at
start_queue_at-Started n k i ret t h = record {
  held = start_queue_at-IsHolding n i ret t h.held;
  counted = h.counted;
}

start_loop-Started :
    (connect : ℕ → ℤ) (n : ℕ) (k : QueueCounts) (m i : ℕ) (t : Ctrl)
    → Started n k t
    → Started n k (start_loop connect m i t).2
unfolding start_loop
start_loop-Started connect n k zero i t h = h
start_loop-Started connect n k (suc m) i t h =
    let u = start_queue_at i (connect i) t in
    let s = start_queue_at-Started n k i (connect i) t h in
    if_ind (λ (r : ℤ × ℕ × Ctrl). Started n k r.2) (is_zero (connect i))
      (start_loop connect m (i + 1) u) (connect i, i, u)
      (λ ok. start_loop-Started connect n k m (i + 1) u s) (λ bad. s)

pub start_io_queues-Started :
    (connect : ℕ → ℤ) (n : ℕ) (c : Ctrl)
    → IsHolding n c
    → Started n c.counts (start_io_queues connect c).1
unfolding start_io_queues
start_io_queues-Started connect n c h =
    let (ret, i, t) = start_loop connect (io_count c) 1 c in
    let s =
      start_loop-Started connect n c.counts (io_count c) 1 c
        (record { held = h; counted = refl }) in
    if_ind (λ (r : ℤ × Ctrl). Started n c.counts r.1) (is_zero ret) (success, t)
      (ret, each_down stop_queue_at (i - 1) t) (λ ok. s)
      (λ bad.
        each_down-keeps (Started n c.counts) stop_queue_at (stop_queue_at-Started n c.counts)
          (i - 1) t s)

pub stop_io_queues-Started :
    (n : ℕ) (c : Ctrl) → IsHolding n c → Started n c.counts (stop_io_queues c)
unfolding stop_io_queues
stop_io_queues-Started n c h =
    each_up-keeps (Started n c.counts) stop_queue_at (stop_queue_at-Started n c.counts) (io_count c)
      1 c (omega arith) (record { held = h; counted = refl })

free_io_queues-Split : (c : Ctrl) → IsSound c → Split 1 (free_io_queues c)
unfolding free_io_queues
free_io_queues-Split c h j pos = (
  λ low. absurd (omega arith),
  λ high.
      let free = each_up-free (io_count c) 1 c (λ i above. h.each i) j in
      elim (Bool-cases (ltb j (1 + io_count c))) [
        | inl below ↦ free.0 (omega arith) (ground arith)
        | inr above ↦ rw (free.2 (ground arith)) (h.beyond j pos (ground arith))
      ],
)

-- With no I/O queue from the queue count on, freeing those below leaves none.
pub free_io_queues-IsHolding : (c : Ctrl) → IsSound c → IsHolding 1 (free_io_queues c)
unfolding free_io_queues
free_io_queues-IsHolding c h =
    Split-IsHolding c (free_io_queues c) (1 + io_count c) 1 h
      (each_up-keeps (SameAdmin c) free_queue_at (free_queue_at-SameAdmin c) (io_count c) 1 c
        (omega arith) (same c))
      (free_io_queues-Split c h)
