-- ===== src/Ctrl/Arrays.antt =====
-- The queues of a controller, of shell/nvme-of_setup/nvme-modified/host/rdma.c, through operations on
-- one of them and through loops over indices.
use net_cas.Common.{
  ℕ, zero, suc, ◌+◌, ◌≤◌, ◌<◌, ◌≡◌, refl, ◌≢◌, ◌⊎◌, inl, inr, Bool, true, false, arith,
  if◌then◌else◌, sym, ◌∙◌,
}
use mathlib.Core.Bool.{false≢true}
use net_cas.Common.Code.{ℤ, is_zero}
use net_cas.Queue.{Queue}
use net_cas.Queue.Cm.{AllocEnv}
use net_cas.Queue.Cm.Events.{ResolvesFirst}
use net_cas.Queue.Cm.Alloc.{
  IsOwned, IsIdle, IsAllocated, alloc_queue-IsAllocated, free_queue-IsIdle,
}
use net_cas.Ctrl.{Ctrl, Settings, alloc_queue_at, free_queue_at, each_up, each_down, link_at}

-- Allocated, with all that a connected queue holds.
pub record IsHeld (q : Queue) : Type 0 where
  pub owned : IsOwned q
  pub allocated : q.allocated ≡ true

-- The I/O queues below `k` are held, and those from `k` on are idle.
abbrev pub Split : ℕ → Ctrl → Type 0
Split k c = (j : ℕ) → 0 < j → (j < k → IsHeld (c.queues j)) × (k ≤ j → IsIdle (c.queues j))

pub alloc_queue_at-same :
    (o : Settings) (i n : ℕ) (e : AllocEnv) (c : Ctrl) (j : ℕ)
    → i ≢ j
    → (alloc_queue_at o i n e c).1.queues j ≡ c.queues j
unfolding alloc_queue_at
alloc_queue_at-same o i n e c j h = ground arith

pub alloc_queue_at-IsAllocated :
    (o : Settings) (i n : ℕ) (e : AllocEnv) (c : Ctrl)
    → IsIdle (c.queues i)
    → ResolvesFirst e.events
    → IsAllocated (alloc_queue_at o i n e c).0 ((alloc_queue_at o i n e c).1.queues i)
unfolding alloc_queue_at
alloc_queue_at-IsAllocated o i n e c h first =
    let t =
      alloc_queue-IsAllocated o.register_always c.counts.io_queues c.identified.ioccsz i n e
        (link_at c i) h first in
    ground arith

-- The queue at the index itself, and any other, after a step that succeeded or not.
split_here :
    (i : ℕ) {ret : ℤ} {q : Queue}
    → IsAllocated ret q
    → (i < (if is_zero ret then i + 1 else i) → IsHeld q)
      × ((if is_zero ret then i + 1 else i) ≤ i → IsIdle q)
split_here i a = ground arith

split_there :
    (i j : ℕ) (b : Bool)
    → i ≢ j
    → (j < (if b then i + 1 else i) → j < i) × ((if b then i + 1 else i) ≤ j → i ≤ j)
split_there i j b h = ground arith

pub eq_cases : (i j : ℕ) → (i ≡ j) ⊎ (i ≢ j)
eq_cases i j = grind arith

pub alloc_queue_at-Split :
    (o : Settings) (i n : ℕ) (e : AllocEnv) (c : Ctrl)
    → 0 < i
    → ResolvesFirst e.events
    → Split i c
    → Split (if is_zero (alloc_queue_at o i n e c).0 then i + 1 else i) (alloc_queue_at o i n e c).1
alloc_queue_at-Split o i n e c pos first s j jpos = elim (eq_cases i j) [
  | inl same ↦
      rw (← same)
        (split_here i (alloc_queue_at-IsAllocated o i n e c ((s i pos).1 (omega arith)) first))
  | inr other ↦
      let b = split_there i j (is_zero (alloc_queue_at o i n e c).0) other in
      rw (alloc_queue_at-same o i n e c j other)
        (λ h. (s j jpos).0 (b.0 h), λ h. (s j jpos).1 (b.1 h))
]

pub free_queue_at-same :
    (i : ℕ) (c : Ctrl) (j : ℕ) → i ≢ j → (free_queue_at i c).queues j ≡ c.queues j
unfolding free_queue_at
free_queue_at-same i c j h = ground arith

pub free_queue_at-IsIdle :
    (i : ℕ) (c : Ctrl)
    → IsOwned (c.queues i)
    → ((c.queues i).allocated ≡ false → (c.queues i).tr_ready ≡ false)
    → IsIdle ((free_queue_at i c).queues i)
unfolding free_queue_at
free_queue_at-IsIdle i c o h = let t = free_queue-IsIdle (link_at c i).link o h in ground arith

free_queue_at-Split :
    (k : ℕ) (c : Ctrl) → Split (suc (suc k)) c → Split (suc k) (free_queue_at (suc k) c)
free_queue_at-Split k c s j jpos = elim (eq_cases (suc k) j) [
  | inl same ↦
      let h = (s (suc k) (omega arith)).0 (omega arith) in
      rw (← same) (
        λ l. absurd (omega arith),
        λ l.
            free_queue_at-IsIdle (suc k) c h.owned (λ n. absurd (false≢true (sym n ∙ h.allocated))),
      )
  | inr other ↦
      rw (free_queue_at-same (suc k) c j other)
        (λ h. (s j jpos).0 (omega arith), λ h. (s j jpos).1 (omega arith))
]

-- Freeing the queues from `k` down leaves every I/O queue idle.
pub each_down-free : (k : ℕ) (c : Ctrl) → Split (suc k) c → Split 1 (each_down free_queue_at k c)
unfolding each_down
each_down-free zero c s = s
each_down-free (suc k) c s = each_down-free k (free_queue_at (suc k) c) (free_queue_at-Split k c s)

-- What holds of a queue when it is freed, whether it was held or idle.
abbrev pub IsFreeable : Queue → Type 0
IsFreeable q = IsOwned q × (q.allocated ≡ false → q.tr_ready ≡ false)

pub IsHeld-IsFreeable : {q : Queue} → IsHeld q → IsFreeable q
IsHeld-IsFreeable h = (h.owned, λ n. absurd (false≢true (sym n ∙ h.allocated)))

pub IsIdle-IsFreeable : {q : Queue} → IsIdle q → IsFreeable q
IsIdle-IsFreeable h = (h.owned, λ n. h.not_ready)

-- All queues from `i` on can be freed, and `n` of them have been already.
pub each_up-free :
    (n i : ℕ) (c : Ctrl)
    → ((j : ℕ) → i ≤ j → IsFreeable (c.queues j))
    → (j : ℕ)
    → (i ≤ j → j < i + n → IsIdle ((each_up free_queue_at n i c).queues j))
      × (j < i → (each_up free_queue_at n i c).queues j ≡ c.queues j)
      × (i + n ≤ j → (each_up free_queue_at n i c).queues j ≡ c.queues j)
unfolding each_up
each_up-free zero i c h j = (λ a b. absurd (omega arith), λ a. refl, λ a. refl)
each_up-free (suc n) i c h j =
    let t = free_queue_at i c in
    let keep = λ (k : ℕ) (ne : i ≢ k). free_queue_at-same i c k ne in
    let ih = each_up-free n (i + 1) t (λ k le. rw (keep k (omega arith)) (h k (omega arith))) j in
    elim (eq_cases i j) [
      | inl same ↦ (
        λ a b.
            rw (ih.1 (omega arith), ← same)
              (free_queue_at-IsIdle i c (h i (omega arith)).0 (h i (omega arith)).1),
        λ a. absurd (omega arith),
        λ a. absurd (omega arith),
      )
      | inr other ↦ (
        λ a b. ih.0 (omega arith) (omega arith),
        λ a. ih.1 (omega arith) ∙ keep j other,
        λ a. ih.2 (omega arith) ∙ keep j other,
      )
    ]
