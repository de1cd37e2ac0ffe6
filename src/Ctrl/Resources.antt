-- ===== src/Ctrl/Resources.antt =====
-- shell/nvme-of_setup/nvme-modified/host/rdma.c: what a controller holds, its queues and the entry of
-- its asynchronous event, while it is up and while it is down.
pub mod Admin
pub mod Loops
pub mod Io
pub mod Setup
pub mod Works
pub mod Blk
pub mod Made
use net_cas.Common.{
  ℕ, ◌+◌, ◌≤◌, ◌<◌, ◌≡◌, refl, Bool, true, false, arith, bit, if◌then◌else◌, ◌==◌, inl, inr, sym,
}
use net_cas.Common.Lists.{update}
use net_cas.Common.Code.{ℤ, is_zero}
use net_cas.Common.Ledger.{Holds}
use net_cas.Ring.{Memory, free_qe}
use net_cas.Queue.{Queue, stop_queue}
use net_cas.Queue.Cm.Alloc.{IsOwned, IsIdle}
use net_cas.Ctrl.{Ctrl, stop_queue_at, start_queue_at, start_queue, free_queue_at, io_count}
use net_cas.Ctrl.Arrays.{
  IsFreeable, IsIdle-IsFreeable, free_queue_at-same, free_queue_at-IsIdle, eq_cases,
}

-- The entry of the asynchronous event is held exactly while `async_event` is set.
abbrev pub EventHeld : Bool → Memory → Type 0
EventHeld a m = Holds (bit a) m.buffers × Holds (bit a) m.mappings

-- The queues below `n` may hold what they need or nothing, and those from `n` on hold nothing; the
-- admin queue is always below.
pub record Holding (n : ℕ) (q : ℕ → Queue) (a : Bool) (m : Memory) : Type 0 where
  pub each : (j : ℕ) → IsFreeable (q j)
  pub beyond : (j : ℕ) → 0 < j → n ≤ j → IsIdle (q j)
  pub event : EventHeld a m

-- Nothing is held.
pub record Nothing (q : ℕ → Queue) (a : Bool) (m : Memory) : Type 0 where
  pub idle : (j : ℕ) → IsIdle (q j)
  pub no_event : a ≡ false
  pub released : EventHeld false m

abbrev pub IsHolding : ℕ → Ctrl → Type 0
IsHolding n c = Holding n c.queues c.async_event c.sqe

abbrev pub IsOff : Ctrl → Type 0
IsOff c = Nothing c.queues c.async_event c.sqe

-- No I/O queue from the queue count on holds anything.
abbrev pub IsSound : Ctrl → Type 0
IsSound c = IsHolding (1 + io_count c) c

pub IsOff-IsHolding : (n : ℕ) (c : Ctrl) → IsOff c → IsHolding n c
IsOff-IsHolding n c h = record {
  each = λ j. IsIdle-IsFreeable (h.idle j);
  beyond = λ j pos le. h.idle j;
  event = let e = h.no_event in let r = h.released in ground arith;
}

pub Holding-le : (m n : ℕ) (c : Ctrl) → m ≤ n → IsHolding m c → IsHolding n c
Holding-le m n c le h = record {
  each = h.each;
  beyond = λ j pos far. h.beyond j pos (omega arith);
  event = h.event;
}

stop_queue-IsFreeable : (q : Queue) → IsFreeable q → IsFreeable (stop_queue q)
unfolding stop_queue
stop_queue-IsFreeable q h = ground arith

stop_queue-IsIdle : (q : Queue) → IsIdle q → IsIdle (stop_queue q)
unfolding stop_queue
stop_queue-IsIdle q h = ground arith

start_queue-IsFreeable : (ret : ℤ) (q : Queue) → IsFreeable q → IsFreeable (start_queue ret q)
unfolding start_queue
start_queue-IsFreeable ret q h = ground arith

start_queue-IsIdle : (ret : ℤ) (q : Queue) → IsIdle q → IsIdle (start_queue ret q)
unfolding start_queue
start_queue-IsIdle ret q h = ground arith

-- A write of one queue that keeps both.
update-Holding :
    (n i : ℕ) (f : Queue → Queue) (c : Ctrl)
    → ((q : Queue) → IsFreeable q → IsFreeable (f q))
    → ((q : Queue) → IsIdle q → IsIdle (f q))
    → IsHolding n c
    → Holding n (update c.queues i (f (c.queues i))) c.async_event c.sqe
update-Holding n i f c free idle h = record {
  each = λ j. elim (eq_cases i j) [
    | inl same ↦ rw (same) (let t = free (c.queues j) (h.each j) in ground arith)
    | inr other ↦ let t = h.each j in ground arith
  ];
  beyond = λ j pos far. elim (eq_cases i j) [
    | inl same ↦ rw (same) (let t = idle (c.queues j) (h.beyond j pos far) in ground arith)
    | inr other ↦ let t = h.beyond j pos far in ground arith
  ];
  event = h.event;
}

pub stop_queue_at-IsHolding : (n i : ℕ) (c : Ctrl) → IsHolding n c → IsHolding n (stop_queue_at i c)
unfolding stop_queue_at
stop_queue_at-IsHolding n i c h =
    update-Holding n i stop_queue c stop_queue-IsFreeable stop_queue-IsIdle h

pub start_queue_at-IsHolding :
    (n i : ℕ) (ret : ℤ) (c : Ctrl) → IsHolding n c → IsHolding n (start_queue_at i ret c)
unfolding start_queue_at
start_queue_at-IsHolding n i ret c h =
    update-Holding n i (start_queue ret) c (start_queue-IsFreeable ret) (start_queue-IsIdle ret) h

-- Freeing the admin queue, when no other queue and no entry is held.
pub free_queue_at-IsOff :
    (c : Ctrl) → IsHolding 1 c → c.async_event ≡ false → IsOff (free_queue_at 0 c)
unfolding free_queue_at
free_queue_at-IsOff c h off = record {
  idle = λ j. elim (eq_cases 0 j) [
    | inl same ↦ rw (← same) (free_queue_at-IsIdle 0 c (h.each 0).0 (h.each 0).1)
    | inr other ↦ rw (free_queue_at-same 0 c j other) (h.beyond j (omega arith) (omega arith))
  ];
  no_event = off;
  released = let e = h.event in ground arith;
}
