-- ===== src/Queue.antt =====
-- shell/nvme-of_setup/nvme-modified/host/rdma.c: the InfiniBand objects of one `struct
-- nvme_rdma_queue`: nvme_rdma_create_qp, nvme_rdma_create_queue_ib, nvme_rdma_destroy_queue_ib,
-- nvme_rdma_get_max_fr_pages, nvme_rdma_stop_queue, nvme_rdma_free_queue.
pub mod Cm
pub mod Objects
use net_cas.Common.{
  ℕ, zero, suc, ◌+◌, ◌-◌, ◌*◌, ◌%◌, Bool, true, false, Option, none, some, ◌==◌, if◌then◌else◌, min,
}
use net_cas.Common.Code.{ℤ, is_zero, success, enomem, econnrefused}
use net_cas.Common.Ledger.{Ledger, gain, give}
use net_cas.Device.{Device, Devices, DeviceEnv, find_get_device, dev_put}
use net_cas.Ring.{RingEnv, Memory, free_ring, alloc_ring}
use net_cas.Counts.{IoQueues, poll_queue}

-- The three bits of `flags`, the fields that the driver reads again, and a ledger for each kind of
-- object that the queue owns. `stops` counts the calls of __nvme_rdma_stop_queue, which disconnect
-- and drain the queue pair.
pub record Queue : Type 0 where
  pub queue_size : ℕ
  pub cmnd_capsule_len : ℕ
  pub device : Option ℕ
  pub allocated : Bool
  pub live : Bool
  pub tr_ready : Bool
  pub cm_error : ℤ
  pub cm_done : Bool
  pub poll_direct : Bool
  pub comp_vector : ℕ
  pub cq_entries : ℕ
  pub max_send_wr : ℕ
  pub max_recv_wr : ℕ
  pub pages_per_mr : ℕ
  pub recvs_posted : ℕ
  pub stops : ℕ
  pub cm_ids : Ledger
  pub device_refs : Ledger
  pub ib_cqs : Ledger
  pub qps : Ledger
  pub mr_pools : Ledger
  pub ring : Memory

-- What the RDMA stack answers while the objects of one queue are created.
pub record QueueEnv : Type 0 where
  pub device : DeviceEnv
  pub alloc_cq : ℤ
  pub create_qp : ℤ
  pub ring : RingEnv
  pub mr_pool_init : ℤ

-- A queue and the list of devices that all queues share.
pub record QueueState : Type 0 where
  pub devices : Devices
  pub queue : Queue

abbrev send_wr_factor : ℕ
send_wr_factor = 3

-- `min_t(u32, NVME_RDMA_MAX_SEGMENTS, max_fast_reg_page_list_len - 1)`
unfoldable pub get_max_fr_pages : ℕ → ℕ
get_max_fr_pages len = min 256 ((len + 4294967295) % 4294967296)

-- nvme_rdma_dev_put(queue->device).
unfoldable pub put_device : QueueState → QueueState
put_device s = elim s.queue.device [
  | none ↦ s
  | some address ↦ record {
    devices = dev_put address s.devices;
    queue = record (s.queue) { device_refs = give 1 s.queue.device_refs };
  }
]

-- The labels of nvme_rdma_create_queue_ib, each falling through to those below it.
unfoldable out_destroy_ib_cq : QueueState → QueueState
unfolding put_device
out_destroy_ib_cq s =
    put_device (record s { queue = record (s.queue) { ib_cqs = give 1 s.queue.ib_cqs } })

unfoldable out_destroy_qp : QueueState → QueueState
unfolding out_destroy_ib_cq
out_destroy_qp s =
    out_destroy_ib_cq (record s { queue = record (s.queue) { qps = give 1 s.queue.qps } })

unfoldable out_destroy_ring : QueueState → QueueState
unfolding out_destroy_qp
out_destroy_ring s =
    out_destroy_qp
      (record s { queue = record (s.queue) { ring = free_ring s.queue.queue_size s.queue.ring } })

-- ib_mr_pool_init and what follows it.
unfoldable pub create_mr_pool : QueueEnv → QueueState → ℤ × QueueState
unfolding out_destroy_ring
create_mr_pool e s =
    let q = s.queue in
    let sized = record q {
      pages_per_mr = get_max_fr_pages e.device.max_fast_reg_page_list_len + 1;
    } in
    if is_zero e.mr_pool_init
    then (
      success,
      record s { queue = record sized { mr_pools = gain 1 q.mr_pools; tr_ready = true } },
    )
    else (e.mr_pool_init, out_destroy_ring (record s { queue = sized }))

unfoldable pub create_ring : QueueEnv → QueueState → ℤ × QueueState
unfolding out_destroy_qp
create_ring e s =
    let (done, m) = alloc_ring e.ring s.queue.queue_size s.queue.ring in
    let t = record s { queue = record (s.queue) { ring = m } } in
    if done then create_mr_pool e t else (enomem, out_destroy_qp t)

-- nvme_rdma_create_qp sets the capacities, with one entry more for the drain.
unfoldable pub create_qp : QueueEnv → QueueState → ℤ × QueueState
unfolding out_destroy_ib_cq
create_qp e s =
    let q = s.queue in
    let sized = record q {
      max_send_wr = send_wr_factor * q.queue_size + 1;
      max_recv_wr = q.queue_size + 1;
    } in
    if is_zero e.create_qp
    then create_ring e (record s { queue = record sized { qps = gain 1 q.qps } })
    else (e.create_qp, out_destroy_ib_cq (record s { queue = sized }))

-- ib_alloc_cq, on a completion vector of the queue's own but for the two first queues.
unfoldable pub create_cq : IoQueues → ℕ → QueueEnv → QueueState → ℤ × QueueState
unfolding put_device
create_cq io idx e s =
    let q = s.queue in
    let sized = record q {
      comp_vector = if idx == 0 then idx else idx - 1;
      poll_direct = poll_queue io idx;
      cq_entries = (send_wr_factor + 1) * q.queue_size + 1;
    } in
    if is_zero e.alloc_cq
    then create_qp e (record s { queue = record sized { ib_cqs = gain 1 q.ib_cqs } })
    else (e.alloc_cq, put_device (record s { queue = sized }))

unfoldable pub create_queue_ib : Bool → IoQueues → ℕ → QueueEnv → QueueState → ℤ × QueueState
create_queue_ib register_always io idx e s =
    let (found, devices) = find_get_device register_always e.device s.devices in
    let q = s.queue in
    elim found [
      | none ↦ (econnrefused, record { devices = devices; queue = record q { device = none } })
      | some d ↦ create_cq io idx e (record {
        devices = devices;
        queue = record q { device = some d.dev; device_refs = gain 1 q.device_refs };
      })
    ]

unfoldable pub destroy_queue_ib : QueueState → QueueState
unfolding put_device
destroy_queue_ib s =
    let q = s.queue in
    if q.tr_ready
    then put_device (record s {
      queue = record q {
        tr_ready = false;
        mr_pools = give 1 q.mr_pools;
        qps = give 1 q.qps;
        ib_cqs = give 1 q.ib_cqs;
        ring = free_ring q.queue_size q.ring;
      };
    })
    else s

-- __nvme_rdma_stop_queue
abbrev pub stopped : Queue → Queue
stopped q = record q { stops = q.stops + 1 }

unfoldable pub stop_queue : Queue → Queue
stop_queue q = if q.live then stopped (record q { live = false }) else q

unfoldable pub free_queue : QueueState → QueueState
free_queue s =
    if s.queue.allocated
    then (let t = destroy_queue_ib (record s { queue = record (s.queue) { allocated = false } }) in
        record t { queue = record (t.queue) { cm_ids = give 1 t.queue.cm_ids } })
    else s
