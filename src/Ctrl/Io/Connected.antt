-- ===== src/Ctrl/Io/Connected.antt =====
-- The I/O queues that nvme_rdma_alloc_io_queues, of shell/nvme-of_setup/nvme-modified/host/rdma.c,
-- connects, when the connection manager reports the end of a step only after the driver has started it.
use net_cas.Common.{
  ℕ, zero, suc, ◌+◌, ◌-◌, ◌≤◌, ◌<◌, ◌≡◌, true, false, arith, if◌then◌else◌, if_ind, ltb, Bool-cases,
  inl, inr, sym, ap, ◌==◌, ◌∙◌,
}
use mathlib.Core.Bool.{false≢true}
use net_cas.Common.Code.{ℤ, is_zero, success}
use net_cas.Counts.{count_io_queues}
use net_cas.Queue.Cm.{AllocEnv}
use net_cas.Queue.Cm.Events.{ResolvesFirst}
use net_cas.Queue.Cm.Alloc.{IsIdle}
use net_cas.Queue.Cm.Connected.{
  Orderly, resolving, connecting_from, IsConnected, Connected, alloc_queue-Connected,
}
use net_cas.Ctrl.{Ctrl, Settings, alloc_queue_at, free_queue_at, each_down, io_count, link_at}
use net_cas.Ctrl.Io.{IoEnv, alloc_loop, alloc_each, alloc_io_queues}
use net_cas.Ctrl.Io.Balance.{kept, alloc_io_queues-Split}
use net_cas.Ctrl.Resources.Made.Io.{alloc_io_queues-counts}
use net_cas.Ctrl.Arrays.{Split, alloc_queue_at-Split, alloc_queue_at-same, eq_cases}

-- The events of one queue, and of each queue that the loop comes to.
abbrev OrderlyAt : Settings → ℕ → ℕ → AllocEnv → Ctrl → Type 0
OrderlyAt o i n e c =
    Orderly o.register_always c.counts.io_queues i resolving e.events
      (connecting_from c.identified.ioccsz i n (link_at c i))

abbrev pub OrderlyLoop : Settings → (ℕ → AllocEnv) → ℕ → ℕ → Ctrl → Type 0
OrderlyLoop o e zero i c = Unit {0}
OrderlyLoop o e (suc n) i c =
    OrderlyAt o i (c.identified.sqsize + 1) (e i) c
    × OrderlyLoop o e n (i + 1) (alloc_queue_at o i (c.identified.sqsize + 1) (e i) c).1

-- The I/O queues below `k` are connected.
abbrev AllConnected : ℕ → Ctrl → Type 0
AllConnected k c = (j : ℕ) → 0 < j → j < k → IsConnected (c.queues j)

alloc_queue_at-Connected :
    (o : Settings) (i n : ℕ) (e : AllocEnv) (c : Ctrl)
    → IsIdle (c.queues i)
    → OrderlyAt o i n e c
    → Connected (alloc_queue_at o i n e c).0 ((alloc_queue_at o i n e c).1.queues i)
unfolding alloc_queue_at
alloc_queue_at-Connected o i n e c h orderly =
    let t =
      alloc_queue-Connected o.register_always c.counts.io_queues c.identified.ioccsz i n e
        (link_at c i) h orderly in
    let here : (i == i) ≡ true = ground arith in rw (here) t

-- One queue more, after a round that succeeded.
one_more :
    (o : Settings) (i n : ℕ) (e : AllocEnv) (c : Ctrl)
    → 0 < i
    → Split i c
    → AllConnected i c
    → OrderlyAt o i n e c
    → is_zero (alloc_queue_at o i n e c).0 ≡ true
    → AllConnected (i + 1) (alloc_queue_at o i n e c).1
one_more o i n e c pos s h orderly ok j jpos below = elim (eq_cases i j) [
  | inl same ↦
      rw (← same) (elim (alloc_queue_at-Connected o i n e c ((s i pos).1 (omega arith)) orderly) [
        | inl up ↦ up.1
        | inr down ↦ absurd (false≢true (sym down.0 ∙ ok))
      ])
  | inr other ↦ rw (alloc_queue_at-same o i n e c j other) (h j jpos (omega arith))
]

alloc_loop-AllConnected :
    (o : Settings) (e : ℕ → AllocEnv) (n i : ℕ) (c : Ctrl)
    → 0 < i
    → ((j : ℕ) → ResolvesFirst (e j).events)
    → Split i c
    → AllConnected i c
    → OrderlyLoop o e n i c
    → is_zero (alloc_loop o e n i c).0 ≡ true
    → AllConnected (i + n) (alloc_loop o e n i c).2
unfolding alloc_loop
alloc_loop-AllConnected o e zero i c pos first s h orderly ok =
    λ j jpos below. h j jpos (omega arith)
alloc_loop-AllConnected o e (suc n) i c pos first s h (now, later) ok =
    let size = c.identified.sqsize + 1 in
    let (ret, t) = alloc_queue_at o i size (e i) c in
    let rest = alloc_loop o e n (i + 1) t in
    let split = alloc_queue_at-Split o i size (e i) c pos (first i) s in
    if_ind (λ (r : ℤ × ℕ × Ctrl). is_zero r.0 ≡ true → AllConnected (i + suc n) r.2) (is_zero ret)
      rest (ret, i, t)
      (λ made all j jpos below.
        let reached : AllConnected (i + 1) t = one_more o i size (e i) c pos s h now made in
        alloc_loop-AllConnected o e n (i + 1) t (omega arith) first (rw (made) at split) reached
          later all j jpos (omega arith))
      (λ failed bad. absurd (false≢true (sym failed ∙ bad))) ok

alloc_each-AllConnected :
    (o : Settings) (e : ℕ → AllocEnv) (c : Ctrl)
    → ((j : ℕ) → ResolvesFirst (e j).events)
    → Split 1 c
    → OrderlyLoop o e (io_count c) 1 c
    → is_zero (alloc_each o e c).0 ≡ true
    → AllConnected (1 + io_count c) (alloc_each o e c).1
unfolding alloc_each
alloc_each-AllConnected o e c first s orderly =
    let (ret, i, t) = alloc_loop o e (io_count c) 1 c in
    if_ind (λ (r : ℤ × Ctrl). is_zero r.0 ≡ true → AllConnected (1 + io_count c) r.1) (is_zero ret)
      (success, t) (ret, each_down free_queue_at (i - 1) t)
      (λ made ok.
        alloc_loop-AllConnected o e (io_count c) 1 c (omega arith) first s
          (λ j jpos below. absurd (omega arith)) orderly made)
      (λ failed bad. absurd (false≢true (sym failed ∙ bad)))

-- The controller when nvme_rdma_alloc_io_queues comes to its loop.
abbrev pub counted_ctrl : Settings → IoEnv → Ctrl → Ctrl
counted_ctrl o e c = record c {
  counts = (count_io_queues o.options e.num_comp_vectors e.online e.granted c.counts).1;
}

alloc_io_queues-AllConnected :
    (o : Settings) (e : IoEnv) (c : Ctrl)
    → ((j : ℕ) → ResolvesFirst (e.alloc j).events)
    → Split 1 c
    → OrderlyLoop o e.alloc (io_count (counted_ctrl o e c)) 1 (counted_ctrl o e c)
    → is_zero (alloc_io_queues o e c).0 ≡ true
    → AllConnected (1 + io_count (counted_ctrl o e c)) (alloc_io_queues o e c).1
unfolding alloc_io_queues
alloc_io_queues-AllConnected o e c first s orderly =
    let t = counted_ctrl o e c in
    let ret = (count_io_queues o.options e.num_comp_vectors e.online e.granted c.counts).0 in
    if_ind (λ (r : ℤ × Ctrl). is_zero r.0 ≡ true → AllConnected (1 + io_count t) r.1) (is_zero ret)
      (if ltb t.counts.queue_count 2 then (success, t) else alloc_each o e.alloc t) (ret, t)
      (λ good.
        if_ind (λ (r : ℤ × Ctrl). is_zero r.0 ≡ true → AllConnected (1 + io_count t) r.1)
          (ltb t.counts.queue_count 2) (success, t) (alloc_each o e.alloc t)
          (λ few ok j jpos below. absurd (ground arith))
          (λ many. alloc_each-AllConnected o e.alloc t first s orderly))
      (λ failed bad. absurd (false≢true (sym failed ∙ bad)))

-- The I/O queues below `k` are connected, and those from `k` on are idle.
abbrev pub Divided : ℕ → Ctrl → Type 0
Divided k c = (j : ℕ) → 0 < j → (j < k → IsConnected (c.queues j)) × (k ≤ j → IsIdle (c.queues j))

count_below :
    (o : Settings) (e : IoEnv) (c : Ctrl) (j : ℕ)
    → (alloc_io_queues o e c).1.counts ≡ (counted_ctrl o e c).counts
    → is_zero (alloc_io_queues o e c).0 ≡ true
    → j < kept (alloc_io_queues o e c)
    → j < 1 + io_count (counted_ctrl o e c)
count_below o e c j counts ok below =
    let same : (alloc_io_queues o e c).1.counts.queue_count
        ≡ (counted_ctrl o e c).counts.queue_count =
      ap (λ k. k.queue_count) counts in
    let all : j < 1 + io_count (alloc_io_queues o e c).1 = rw (ok) at below in omega arith

none_below : (r : ℤ × Ctrl) (j : ℕ) → is_zero r.0 ≡ false → 0 < j → j < kept r → ⊥
none_below r j bad jpos below = let one : j < 1 = rw (bad) at below in omega arith

-- When no I/O queue holds anything before, the connection manager resolves an address before all
-- else and reports the end of a step only after the driver has started it: nvme_rdma_alloc_io_queues
-- either returns 0, every I/O queue up to the new queue count is allocated and ready and holds its
-- connection identifier and each object once, and no other I/O queue holds anything; or it returns an
-- error and no I/O queue holds anything.
pub alloc_io_queues-Divided :
    (o : Settings) (e : IoEnv) (c : Ctrl)
    → ((j : ℕ) → ResolvesFirst (e.alloc j).events)
    → OrderlyLoop o e.alloc (io_count (counted_ctrl o e c)) 1 (counted_ctrl o e c)
    → Split 1 c
    → Divided (kept (alloc_io_queues o e c)) (alloc_io_queues o e c).1
alloc_io_queues-Divided o e c first orderly s j jpos =
    let split = alloc_io_queues-Split o e c first s j jpos in
    let counts = alloc_io_queues-counts o e c in
    elim (Bool-cases (is_zero (alloc_io_queues o e c).0)) [
      | inl ok ↦
          let all = alloc_io_queues-AllConnected o e c first s orderly ok j jpos in
          (λ below. all (count_below o e c j counts ok below), split.1)
      | inr bad ↦ (λ below. absurd (none_below (alloc_io_queues o e c) j bad jpos below), split.1)
    ]
