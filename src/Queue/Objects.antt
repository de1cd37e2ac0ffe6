-- ===== src/Queue/Objects.antt =====
-- The InfiniBand objects of a queue and the flag TR_READY, through nvme_rdma_create_queue_ib and
-- nvme_rdma_destroy_queue_ib of shell/nvme-of_setup/nvme-modified/host/rdma.c.
use net_cas.Common.{
  ℕ, ◌≡◌, inl, inr, Bool, true, false, Option, none, some, arith, ◌==◌, if◌then◌else◌, bit,
  Bool-cases, Option-cases,
}
use net_cas.Common.Code.{ℤ, is_zero}
use net_cas.Common.Ledger.{Holds}
use net_cas.Device.{find_get_device}
use net_cas.Ring.{alloc_ring}
use net_cas.Ring.Balance.{HoldsRing, alloc_ring-HoldsRing, free_ring-HoldsRing}
use net_cas.Counts.{IoQueues}
use net_cas.Queue.{
  Queue, QueueEnv, QueueState, put_device, create_mr_pool, create_ring, create_qp, create_cq,
  create_queue_ib, destroy_queue_ib,
}

-- How many of each object the queue holds: `d` references on its device, `c` completion queues, `p`
-- queue pairs, `m` memory region pools, `r` rings.
pub record HoldsObjects (d c p m r : ℕ) (q : Queue) : Type 0 where
  pub device_refs : Holds d q.device_refs
  pub ib_cqs : Holds c q.ib_cqs
  pub qps : Holds p q.qps
  pub mr_pools : Holds m q.mr_pools
  pub ring : HoldsRing r (if r == 0 then 0 else q.queue_size) q.ring

abbrev IsKnown : Option ℕ → Type 0
IsKnown none = ⊥
IsKnown (some a) = Unit {0}

-- All of them while TR_READY is set, and none otherwise.
pub record IsBalanced (q : Queue) : Type 0 where
  pub objects :
      HoldsObjects
        (bit q.tr_ready)
        (bit q.tr_ready)
        (bit q.tr_ready)
        (bit q.tr_ready)
        (bit q.tr_ready)
        q
  pub device : q.tr_ready ≡ true → IsKnown q.device

put_device-Holds :
    (c p m r : ℕ) (s : QueueState)
    → IsKnown s.queue.device
    → HoldsObjects 1 c p m r s.queue
    → HoldsObjects 0 c p m r (put_device s).queue
unfolding put_device
put_device-Holds c p m r s k h = ground arith

-- The parts of a queue that its InfiniBand objects do not touch.
pub record IsKept (q q' : Queue) : Type 0 where
  pub cm_ids : q'.cm_ids ≡ q.cm_ids
  pub allocated : q'.allocated ≡ q.allocated
  pub live : q'.live ≡ q.live
  pub queue_size : q'.queue_size ≡ q.queue_size
  pub cm_done : q'.cm_done ≡ q.cm_done

-- A return code with the state after it: balanced, and TR_READY exactly on success.
pub record IsCreated (q : Queue) (r : ℤ × QueueState) : Type 0 where
  pub kept : IsKept q r.1.queue
  pub balanced : IsBalanced r.1.queue
  pub outcome : r.1.queue.tr_ready ≡ is_zero r.0

create_mr_pool-IsCreated :
    (q : Queue) (e : QueueEnv) (s : QueueState)
    → s.queue.tr_ready ≡ false
    → IsKnown s.queue.device
    → IsKept q s.queue
    → HoldsObjects 1 1 1 0 1 s.queue
    → IsCreated q (create_mr_pool e s)
unfolding create_mr_pool
create_mr_pool-IsCreated q e s off k kq h =
    ground (arith, free_ring-HoldsRing 0 0 s.queue.queue_size s.queue.ring)

create_ring-IsCreated :
    (q : Queue) (e : QueueEnv) (s : QueueState)
    → s.queue.tr_ready ≡ false
    → IsKnown s.queue.device
    → IsKept q s.queue
    → HoldsObjects 1 1 1 0 0 s.queue
    → IsCreated q (create_ring e s)
unfolding create_ring
create_ring-IsCreated q e s off k kq h =
    let m = alloc_ring e.ring s.queue.queue_size s.queue.ring in
    let ring = alloc_ring-HoldsRing e.ring 0 0 s.queue.queue_size s.queue.ring h.ring in
    ground
      (arith, create_mr_pool-IsCreated q e (record s { queue = record (s.queue) { ring = m.1 } }))

create_qp-IsCreated :
    (q : Queue) (e : QueueEnv) (s : QueueState)
    → s.queue.tr_ready ≡ false
    → IsKnown s.queue.device
    → IsKept q s.queue
    → HoldsObjects 1 1 0 0 0 s.queue
    → IsCreated q (create_qp e s)
unfolding create_qp
create_qp-IsCreated q e s off k kq h = elim (Bool-cases (is_zero e.create_qp)) [
  | inl z ↦ rw (z, create_qp) (create_ring-IsCreated q e _ off k (ground arith) (omega arith))
  | inr nz ↦ ground arith
]

create_cq-IsCreated :
    (q : Queue) (io : IoQueues) (idx : ℕ) (e : QueueEnv) (s : QueueState)
    → s.queue.tr_ready ≡ false
    → IsKnown s.queue.device
    → IsKept q s.queue
    → HoldsObjects 1 0 0 0 0 s.queue
    → IsCreated q (create_cq io idx e s)
unfolding create_cq
create_cq-IsCreated q io idx e s off k kq h = elim (Bool-cases (is_zero e.alloc_cq)) [
  | inl z ↦ rw (z, create_cq) (create_qp-IsCreated q e _ off k (ground arith) (omega arith))
  | inr nz ↦ ground arith
]

-- From a queue without objects, and whatever the RDMA stack answers, nvme_rdma_create_queue_ib
-- returns 0 and holds every object once, or returns an error and holds none of them.
pub create_queue_ib-IsCreated :
    (register_always : Bool) (io : IoQueues) (idx : ℕ) (e : QueueEnv) (s : QueueState)
    → s.queue.tr_ready ≡ false
    → IsBalanced s.queue
    → IsCreated s.queue (create_queue_ib register_always io idx e s)
unfolding create_queue_ib
create_queue_ib-IsCreated register_always io idx e s off b =
    elim (Option-cases (find_get_device register_always e.device s.devices).0) [
      | inl n ↦ rw (n, create_queue_ib) (ground arith)
      | inr (d, f) ↦
          rw (f, create_queue_ib)
            (create_cq-IsCreated s.queue io idx e _ off tt (ground arith) (ground arith))
    ]

-- Destroying the objects of a balanced queue, whether it has them or not, leaves it balanced.
pub destroy_queue_ib-IsBalanced :
    (s : QueueState) → IsBalanced s.queue → IsBalanced (destroy_queue_ib s).queue
unfolding destroy_queue_ib
destroy_queue_ib-IsBalanced s b =
    ground (arith, free_ring-HoldsRing 0 0 s.queue.queue_size s.queue.ring)

pub destroy_queue_ib-off : (s : QueueState) → (destroy_queue_ib s).queue.tr_ready ≡ false
unfolding destroy_queue_ib
destroy_queue_ib-off s = ground arith

destroy_queue_ib_idle : (s : QueueState) → s.queue.tr_ready ≡ false → destroy_queue_ib s ≡ s
unfolding destroy_queue_ib
destroy_queue_ib_idle s off = ground arith

destroy_queue_ib-twice :
    (s : QueueState) → destroy_queue_ib (destroy_queue_ib s) ≡ destroy_queue_ib s
destroy_queue_ib-twice s = destroy_queue_ib_idle (destroy_queue_ib s) (destroy_queue_ib-off s)

pub destroy_queue_ib-IsKept : (s : QueueState) → IsKept s.queue (destroy_queue_ib s).queue
unfolding destroy_queue_ib
destroy_queue_ib-IsKept s = ground arith
