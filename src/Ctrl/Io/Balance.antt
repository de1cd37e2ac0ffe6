-- ===== src/Ctrl/Io/Balance.antt =====
-- nvme_rdma_alloc_io_queues and nvme_rdma_free_io_queues, of
-- shell/nvme-of_setup/nvme-modified/host/rdma.c, on all the I/O queues together.
use net_cas.Common.{
  ℕ, zero, suc, ◌+◌, ◌-◌, ◌≤◌, ◌<◌, ◌≡◌, refl, true, arith, if◌then◌else◌, ltb, Bool-cases, inl,
  inr, sym, ◌∙◌, ap,
}
use mathlib.Core.Bool.{false≢true}
use net_cas.Common.Code.{ℤ, is_zero, success}
use net_cas.Counts.{count_io_queues}
use net_cas.Queue.Cm.{AllocEnv}
use net_cas.Queue.Cm.Events.{ResolvesFirst}
use net_cas.Queue.Cm.Alloc.{IsIdle}
use net_cas.Ctrl.{Ctrl, Settings, alloc_queue_at, free_queue_at, each_down, io_count}
use net_cas.Ctrl.Io.{IoEnv, alloc_loop, alloc_each, alloc_io_queues, free_io_queues}
use net_cas.Ctrl.Arrays.{Split, IsFreeable, alloc_queue_at-Split, each_down-free, each_up-free}

-- Where the loop stopped: all queues below are held and all others idle.
record IsStopped (n i q : ℕ) (r : ℤ × ℕ × Ctrl) : Type 0 where
  split : Split r.1 r.2
  from : i ≤ r.1
  all : is_zero r.0 ≡ true → r.1 ≡ i + n
  count : r.2.counts.queue_count ≡ q

alloc_queue_at-counts :
    (o : Settings) (i n : ℕ) (e : AllocEnv) (c : Ctrl)
    → (alloc_queue_at o i n e c).1.counts ≡ c.counts
unfolding alloc_queue_at
alloc_queue_at-counts o i n e c = refl

-- One round of the loop, given what its rest does when the round succeeds.
round :
    (n i q : ℕ) (ret : ℤ) (t : Ctrl) (rest : ℤ × ℕ × Ctrl)
    → Split (if is_zero ret then i + 1 else i) t
    → t.counts.queue_count ≡ q
    → (Split (i + 1) t → IsStopped n (i + 1) q rest)
    → IsStopped (suc n) i q (if is_zero ret then rest else (ret, i, t))
round n i q ret t rest s k h = elim (Bool-cases (is_zero ret)) [
  | inl ok ↦
      let r = h (rw (ok) at s) in
      rw (ok) (record {
        split = r.split;
        from = let f = r.from in omega arith;
        all = λ z. let a = r.all z in omega arith;
        count = r.count;
      })
  | inr bad ↦ rw (bad) (record {
    split = rw (bad) at s;
    from = omega arith;
    all = λ z. absurd (false≢true (sym bad ∙ z));
    count = k;
  })
]

alloc_loop-IsStopped :
    (o : Settings) (e : ℕ → AllocEnv) (n i : ℕ) (c : Ctrl)
    → 0 < i
    → ((j : ℕ) → ResolvesFirst (e j).events)
    → Split i c
    → IsStopped n i c.counts.queue_count (alloc_loop o e n i c)
unfolding alloc_loop alloc_queue_at
alloc_loop-IsStopped o e zero i c pos first s = record {
  split = s;
  from = omega arith;
  all = λ z. omega arith;
  count = refl;
}
alloc_loop-IsStopped o e (suc n) i c pos first s =
    let (ret, t) = alloc_queue_at o i (c.identified.sqsize + 1) (e i) c in
    round n i c.counts.queue_count ret t (alloc_loop o e n (i + 1) t)
      (alloc_queue_at-Split o i (c.identified.sqsize + 1) (e i) c pos (first i) s)
      (ap (λ k. k.queue_count) (alloc_queue_at-counts o i (c.identified.sqsize + 1) (e i) c))
      (alloc_loop-IsStopped o e n (i + 1) t (omega arith) first)

-- How many queues are held after a routine that returned `r.0`: all, or the admin queue alone.
abbrev pub kept : ℤ × Ctrl → ℕ
kept r = if is_zero r.0 then 1 + io_count r.1 else 1

undone :
    (q i : ℕ) (ret : ℤ) (t : Ctrl)
    → IsStopped (q - 1) 1 q (ret, i, t)
    → let r : ℤ × Ctrl =
        if is_zero ret then (success, t) else (ret, each_down free_queue_at (i - 1) t) in
      Split (kept r) r.1
undone q i ret t h = elim (Bool-cases (is_zero ret)) [
  | inl ok ↦
      let a = h.all ok in
      let k = h.count in
      let same : i ≡ 1 + io_count t = omega arith in rw (ok) (rw (same) at h.split)
  | inr bad ↦
      let f = h.from in
      let same : i ≡ suc (i - 1) = omega arith in
      rw (bad, bad) (each_down-free (i - 1) t (rw (same) at h.split))
]

alloc_each-Split :
    (o : Settings) (e : ℕ → AllocEnv) (c : Ctrl)
    → ((j : ℕ) → ResolvesFirst (e j).events)
    → Split 1 c
    → Split (kept (alloc_each o e c)) (alloc_each o e c).1
unfolding alloc_each
alloc_each-Split o e c first s =
    let (ret, i, t) = alloc_loop o e (io_count c) 1 c in
    undone c.counts.queue_count i ret t
      (alloc_loop-IsStopped o e (io_count c) 1 c (omega arith) first s)

-- Whatever the connection manager reports for each queue after the address was resolved, when no
-- I/O queue holds anything before, nvme_rdma_alloc_io_queues either returns 0 and every I/O queue up
-- to the new queue count is allocated with all it needs and no other holds anything, or it returns
-- an error and no I/O queue holds anything.
pub alloc_io_queues-Split :
    (o : Settings) (e : IoEnv) (c : Ctrl)
    → ((j : ℕ) → ResolvesFirst (e.alloc j).events)
    → Split 1 c
    → Split (kept (alloc_io_queues o e c)) (alloc_io_queues o e c).1
unfolding alloc_io_queues
alloc_io_queues-Split o e c first s =
    let (ret, counts) = count_io_queues o.options e.num_comp_vectors e.online e.granted c.counts in
    let t = record c { counts = counts } in
    elim (Bool-cases (is_zero ret)) [
      | inl ok ↦ rw (ok) (elim (Bool-cases (ltb counts.queue_count 2)) [
        | inl few ↦ let none_left : 1 + io_count t ≡ 1 = ground arith in rw (few) (rw (none_left) s)
        | inr many ↦ rw (many) (alloc_each-Split o e.alloc t first s)
      ])
      | inr bad ↦ rw (bad, bad) s
    ]

-- Once nvme_rdma_free_io_queues ran, no I/O queue below the queue count holds anything, if each was
-- one that the routine may free; the admin queue is as it was.
free_io_queues-IsIdle :
    (c : Ctrl)
    → ((j : ℕ) → 1 ≤ j → IsFreeable (c.queues j))
    → ((j : ℕ) → 1 ≤ j → j < c.counts.queue_count → IsIdle ((free_io_queues c).queues j))
      × ((free_io_queues c).queues 0 ≡ c.queues 0)
unfolding free_io_queues
free_io_queues-IsIdle c h = (
  λ j a b. (each_up-free (io_count c) 1 c h j).0 a (omega arith),
  (each_up-free (io_count c) 1 c h 0).1 (omega arith),
)
