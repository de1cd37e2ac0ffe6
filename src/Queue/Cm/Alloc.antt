-- ===== src/Queue/Cm/Alloc.antt =====
-- A queue through nvme_rdma_alloc_queue and nvme_rdma_free_queue, of
-- shell/nvme-of_setup/nvme-modified/host/rdma.c.
use net_cas.Common.{ℕ, ◌≡◌, Bool, false, Option, arith, bit}
use net_cas.Common.Code.{ℤ, is_zero, etimedout}
use net_cas.Common.Ledger.{Holds, gain, give}
use net_cas.Counts.{IoQueues}
use net_cas.Queue.{Queue, QueueState, free_queue}
use net_cas.Queue.Objects.{
  IsBalanced, destroy_queue_ib-IsBalanced, destroy_queue_ib-IsKept, destroy_queue_ib-off,
}
use net_cas.Queue.Cm.{
  CmState, AllocEnv, handle_events, out_destroy_cm_id, init_queue, finish_alloc, alloc_queue,
}
use net_cas.Queue.Cm.Events.{ResolvesFirst, handle_events-IsBalanced}

-- Balanced, with a connection identifier exactly while the flag ALLOCATED is set.
pub record IsOwned (q : Queue) : Type 0 where
  pub balanced : IsBalanced q
  pub cm_ids : Holds (bit q.allocated) q.cm_ids

pub record IsIdle (q : Queue) : Type 0 where
  pub owned : IsOwned q
  pub not_allocated : q.allocated ≡ false
  pub not_ready : q.tr_ready ≡ false

-- A return code with the queue after it.
pub record IsAllocated (ret : ℤ) (q : Queue) : Type 0 where
  pub owned : IsOwned q
  pub outcome : q.allocated ≡ is_zero ret
  pub clean : is_zero ret ≡ false → IsIdle q

pub out_destroy_cm_id-IsIdle :
    (s : CmState)
    → IsBalanced s.link.queue
    → s.link.queue.allocated ≡ false
    → Holds 1 s.link.queue.cm_ids
    → IsIdle (out_destroy_cm_id s).link.queue
unfolding out_destroy_cm_id
out_destroy_cm_id-IsIdle s b na h =
    let t = record (s.link) {
      queue = record (s.link.queue) { cm_ids = give 1 s.link.queue.cm_ids };
    } in
    let balanced = destroy_queue_ib-IsBalanced t (ground arith) in
    let kept = destroy_queue_ib-IsKept t in ground (arith, destroy_queue_ib-off t)

pub finish_alloc-IsAllocated :
    (interrupted : Option ℕ) (s : CmState)
    → IsBalanced s.link.queue
    → s.link.queue.allocated ≡ false
    → Holds 1 s.link.queue.cm_ids
    → IsAllocated (finish_alloc interrupted s).0 (finish_alloc interrupted s).1.link.queue
unfolding finish_alloc
finish_alloc-IsAllocated interrupted s b na h = ground (arith, out_destroy_cm_id-IsIdle s b na h)

-- From an idle queue, and whatever the connection manager and the RDMA stack answer, as long as the
-- address is resolved first: on 0 the queue is allocated with all it needs held once; on an error, a
-- timeout or an interrupted wait it is idle again, with nothing held.
pub alloc_queue-IsAllocated :
    (ra : Bool) (io : IoQueues) (ioccsz idx queue_size : ℕ) (e : AllocEnv) (s : CmState)
    → IsIdle s.link.queue
    → ResolvesFirst e.events
    → IsAllocated
        (alloc_queue ra io ioccsz idx queue_size e s).0
        (alloc_queue ra io ioccsz idx queue_size e s).1.link.queue
unfolding alloc_queue init_queue
alloc_queue-IsAllocated ra io ioccsz idx queue_size e s i first =
    let q = init_queue ioccsz idx queue_size s.link.queue in
    let t = record s {
      link = record (s.link) {
        queue = record q { cm_ids = gain 1 q.cm_ids; cm_error = etimedout };
      };
    } in
    let h = handle_events-IsBalanced ra io idx e.events t first (ground arith) (ground arith) in
    ground (
      arith,
      out_destroy_cm_id-IsIdle t (ground arith) (ground arith) (ground arith),
      finish_alloc-IsAllocated e.interrupted (handle_events ra io idx e.events t) h.0,
    )

-- Freeing an owned queue, whether it was allocated or not, leaves it idle, if objects are held for
-- allocated queues alone.
pub free_queue-IsIdle :
    (s : QueueState)
    → IsOwned s.queue
    → (s.queue.allocated ≡ false → s.queue.tr_ready ≡ false)
    → IsIdle (free_queue s).queue
unfolding free_queue
free_queue-IsIdle s o h =
    let t = record s { queue = record (s.queue) { allocated = false } } in
    let balanced = destroy_queue_ib-IsBalanced t (ground arith) in
    let kept = destroy_queue_ib-IsKept t in ground (arith, destroy_queue_ib-off t)
