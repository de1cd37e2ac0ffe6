-- ===== src/Ctrl.antt =====
-- shell/nvme-of_setup/nvme-modified/host/rdma.c: `struct nvme_rdma_ctrl`, its array of queues, and
-- the operations on the queue at an index (nvme_rdma_start_queue and the calls of
-- nvme_rdma_alloc_queue, nvme_rdma_stop_queue, nvme_rdma_free_queue).
pub mod Admin
pub mod Io
pub mod Setup
pub mod Arrays
pub mod TagSets
pub mod Resources
pub mod Shared
use net_cas.Common.{
  ℕ, zero, suc, ◌+◌, ◌-◌, Bool, true, false, Option, none, some, ◌==◌, ltb, if◌then◌else◌,
}
use net_cas.Common.Lists.{update}
use net_cas.Common.Code.{ℤ, is_zero}
use net_cas.Common.Ledger.{Ledger}
use net_cas.CtrlState.{NvmeCtrl}
use net_cas.Device.{Devices}
use net_cas.Ring.{Memory}
use net_cas.Counts.{QueueOptions, QueueCounts}
use net_cas.Queue.{Queue, QueueState, stop_queue, stopped, free_queue}
use net_cas.Queue.Cm.{CmState, AllocEnv, alloc_queue}

-- What nvme_init_identify reads from the controller; the flags are the bits 2 and 20 of `sgls`.
pub record Identified : Type 0 where
  pub icdoff : ℕ
  pub keyed_sgls : Bool
  pub offset_sgls : Bool
  pub sqsize : ℕ
  pub maxcmd : ℕ
  pub ioccsz : ℕ

-- The block layer's objects of a controller.
pub record BlkObjects : Type 0 where
  pub admin_tagset : Ledger
  pub fabrics_q : Ledger
  pub admin_q : Ledger
  pub tagset : Ledger
  pub connect_q : Ledger

-- `async_event` says whether `async_event_sqe.data` is set, and `sqe` counts what it takes. The last
-- three count the calls that cancel requests, start the controller and stop its keep-alive.
pub record Ctrl : Type 0 where
  pub nvme : NvmeCtrl
  pub devices : Devices
  pub queues : ℕ → Queue
  pub counts : QueueCounts
  pub device : Option ℕ
  pub max_fr_pages : ℕ
  pub max_segments : ℕ
  pub max_hw_sectors : ℕ
  pub identified : Identified
  pub use_inline_data : Bool
  pub async_event : Bool
  pub sqe : Memory
  pub blk : BlkObjects
  pub admin_quiesced : Bool
  pub io_quiesced : Bool
  pub cancels : ℕ
  pub starts : ℕ
  pub keep_alive_stops : ℕ

-- The module parameter and the options.
pub record Settings : Type 0 where
  pub register_always : Bool
  pub options : QueueOptions
  pub queue_size : ℕ

abbrev pub link_at : Ctrl → ℕ → CmState
link_at c i = record { link = record { devices = c.devices; queue = c.queues i }; ctrl = c.nvme }

abbrev write_link : Ctrl → ℕ → QueueState → Ctrl
write_link c i s = record c { devices = s.devices; queues = update c.queues i s.queue }

unfoldable pub alloc_queue_at : Settings → ℕ → ℕ → AllocEnv → Ctrl → ℤ × Ctrl
alloc_queue_at o i size e c =
    let (ret, s) =
      alloc_queue o.register_always c.counts.io_queues c.identified.ioccsz i size e (link_at c i) in
    (ret, record (write_link c i s.link) { nvme = s.ctrl })

unfoldable pub stop_queue_at : ℕ → Ctrl → Ctrl
stop_queue_at i c = record c { queues = update c.queues i (stop_queue (c.queues i)) }

unfoldable pub free_queue_at : ℕ → Ctrl → Ctrl
free_queue_at i c = write_link c i (free_queue (link_at c i).link)

-- nvme_rdma_start_queue on a queue, where `ret` is what the Connect command returns.
unfoldable pub start_queue : ℤ → Queue → Queue
start_queue ret q =
    if is_zero ret then record q { live = true } else if q.allocated then stopped q else q

unfoldable pub start_queue_at : ℕ → ℤ → Ctrl → Ctrl
start_queue_at i ret c = record c { queues = update c.queues i (start_queue ret (c.queues i)) }

-- `for (i = 1; i < queue_count; i++)`: the queue count less one rounds, from `i` on.
unfoldable pub each_up : (ℕ → Ctrl → Ctrl) → ℕ → ℕ → Ctrl → Ctrl
each_up f zero i c = c
each_up f (suc n) i c = each_up f n (i + 1) (f i c)

-- `for (i--; i >= 1; i--)`, from the queue `k` down.
unfoldable pub each_down : (ℕ → Ctrl → Ctrl) → ℕ → Ctrl → Ctrl
each_down f zero c = c
each_down f (suc k) c = each_down f k (f (suc k) c)

abbrev pub io_count : Ctrl → ℕ
io_count c = c.counts.queue_count - 1
