-- ===== src/Counts.antt =====
-- shell/nvme-of_setup/nvme-modified/host/rdma.c and core.c: how many I/O queues a controller gets
-- and what they are for (the first part of nvme_rdma_alloc_io_queues, nvme_set_queue_count,
-- nvme_rdma_map_queues, nvme_rdma_poll_queue).
pub mod Partition
use net_cas.Common.{ℕ, ◌+◌, ◌-◌, ◌/◌, ◌%◌, Bool, true, false, ◌&&◌, ltb, if◌then◌else◌, min}
use net_cas.Common.Code.{ℤ, is_neg, is_pos, success}

abbrev pub u32 : ℕ → ℕ
u32 n = n % 4294967296

-- The fields of `struct nvmf_ctrl_options` that the counts depend on.
pub record QueueOptions : Type 0 where
  pub nr_io_queues : ℕ
  pub nr_write_queues : ℕ
  pub nr_poll_queues : ℕ

-- `io_queues[HCTX_TYPE_DEFAULT]`, `[HCTX_TYPE_READ]` and `[HCTX_TYPE_POLL]`.
pub record IoQueues : Type 0 where
  pub default_queues : ℕ
  pub read_queues : ℕ
  pub poll_queues : ℕ

-- The answer to the Set Features command of nvme_set_queue_count: its status, and the result word
-- with the number of submission and of completion queues, each less one.
pub record Granted : Type 0 where
  pub status : ℤ
  pub nsqa : ℕ
  pub ncqa : ℕ

-- nvme_set_queue_count: the return code and the new `*count`.
unfoldable pub set_queue_count : Granted → ℕ → ℤ × ℕ
set_queue_count g count =
    if is_neg g.status
    then (g.status, count)
    else if is_pos g.status
    then (success, 0)
    else (success, min count (min g.nsqa g.ncqa + 1))

-- What the driver asks for, from the completion vectors and the CPUs that are online.
pub record Wanted : Type 0 where
  pub read_queues : ℕ
  pub default_queues : ℕ
  pub poll_queues : ℕ

unfoldable pub wanted : QueueOptions → ℕ → ℕ → Wanted
wanted o num_comp_vectors online = record {
  read_queues = min num_comp_vectors (min o.nr_io_queues online);
  default_queues = min num_comp_vectors (min o.nr_write_queues online);
  poll_queues = min o.nr_poll_queues online;
}

abbrev pub total : Wanted → ℕ
total w = u32 (w.read_queues + w.default_queues + w.poll_queues)

-- The assignments to `io_queues[]`: dedicated read and default queues if write queues were asked for
-- and more is granted than the read queues, else shared ones; then poll queues from what is left.
unfoldable assign_poll : QueueOptions → Wanted → ℕ → IoQueues → IoQueues
assign_poll o w left q =
    if ltb 0 o.nr_poll_queues && ltb 0 left
    then record q { poll_queues = min w.poll_queues left }
    else q

unfoldable assign_separate : QueueOptions → Wanted → ℕ → IoQueues → IoQueues
unfolding assign_poll
assign_separate o w nr q =
    let left = nr - w.read_queues in
    let given = min w.default_queues left in
    assign_poll o w (left - given)
      (record q { read_queues = w.read_queues; default_queues = given })

unfoldable assign_shared : QueueOptions → Wanted → ℕ → IoQueues → IoQueues
unfolding assign_poll
assign_shared o w nr q =
    let given = min w.read_queues nr in
    assign_poll o w (nr - given) (record q { default_queues = given })

unfoldable pub assign : QueueOptions → Wanted → ℕ → IoQueues → IoQueues
unfolding assign_separate assign_shared
assign o w nr q =
    if ltb 0 o.nr_write_queues && ltb w.read_queues nr
    then assign_separate o w nr q
    else assign_shared o w nr q

-- `queue_count` and `io_queues[]` of the controller.
pub record QueueCounts : Type 0 where
  pub queue_count : ℕ
  pub io_queues : IoQueues

-- nvme_rdma_alloc_io_queues up to its loop.
unfoldable pub count_io_queues : QueueOptions → ℕ → ℕ → Granted → QueueCounts → ℤ × QueueCounts
count_io_queues o num_comp_vectors online g c =
    let w = wanted o num_comp_vectors online in
    let (ret, nr) = set_queue_count g (total w) in
    if is_neg ret
    then (ret, c)
    else let c' = record c { queue_count = u32 (nr + 1) } in
      if ltb c'.queue_count 2
      then (success, c')
      else (success, record c' { io_queues = assign o w nr c.io_queues })

-- One of the block layer's maps: queues `queue_offset` up to `queue_offset + nr_queues`.
pub record QueueMap : Type 0 where
  pub nr_queues : ℕ
  pub queue_offset : ℕ

pub record TagSetMaps : Type 0 where
  pub default_map : QueueMap
  pub read_map : QueueMap
  pub poll_map : QueueMap

-- nvme_rdma_map_queues; a map that it leaves alone keeps what it had.
unfoldable map_poll : QueueOptions → IoQueues → TagSetMaps → TagSetMaps
map_poll o q s =
    if ltb 0 o.nr_poll_queues && ltb 0 q.poll_queues
    then record s {
      poll_map = record {
        nr_queues = q.poll_queues;
        queue_offset = u32 (q.default_queues + q.read_queues);
      };
    }
    else s

unfoldable pub map_queues : QueueOptions → IoQueues → TagSetMaps → TagSetMaps
unfolding map_poll
map_queues o q s = map_poll o q (
    if ltb 0 o.nr_write_queues && ltb 0 q.read_queues
    then record s {
      default_map = record { nr_queues = q.default_queues; queue_offset = 0 };
      read_map = record { nr_queues = q.read_queues; queue_offset = q.default_queues };
    }
    else record s {
      default_map = record { nr_queues = q.default_queues; queue_offset = 0 };
      read_map = record { nr_queues = q.default_queues; queue_offset = 0 };
    })

-- nvme_rdma_poll_queue, of the queue at an index.
unfoldable pub poll_queue : IoQueues → ℕ → Bool
poll_queue q idx = ltb (u32 (q.default_queues + q.read_queues)) idx

-- nvme_rdma_create_ctrl: the length of the array `queues`, which is allocated once.
unfoldable pub allocated_queues : QueueOptions → ℕ
allocated_queues o = u32 (o.nr_io_queues + o.nr_write_queues + o.nr_poll_queues + 1)
