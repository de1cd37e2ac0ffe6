-- ===== src/Examples.antt =====
-- Concrete inputs for the theorems: a controller, its queues and a request of
-- shell/nvme-of_setup/nvme-modified/host/rdma.c, and answers of the kernel.
pub mod Rates
pub mod Lists
pub mod Queues
pub mod Requests
pub mod Ctrls
pub mod Lives
pub mod Versions
pub mod Posting
pub mod Setups
pub mod Originals
pub mod Endings
pub mod Parsing
pub mod Commands
use net_cas.Common.{ℕ, ◌-◌, ◌/◌, Bool, true, false, [], ◌∷◌, Option, none, some}
use net_cas.Common.Code.{pos, success}
use net_cas.Common.Ledger.{nothing}
use net_cas.CtrlState.{State, NvmeCtrl}
use net_cas.Metrics.{Ktime, Completion}
use net_cas.Device.{DeviceEnv, Devices}
use net_cas.Ring.{QeEnv, RingEnv}
use net_cas.Counts.{IoQueues, QueueOptions, Granted}
use net_cas.Queue.{QueueEnv, QueueState}
use net_cas.Queue.Cm.{CmEnv, CmState, AllocEnv, addr_resolved, route_resolved, established}
use net_cas.Driver.Zeroed.{zeroed_nvme, zeroed_queue, no_devices}

abbrev pub clock : Ktime
clock = record { sub_ns = λ a b. a - b; sub_ms = λ a b. (a - b) / 1000000 }

-- A read of 2 MiB that took 80 microseconds, at a time in nanoseconds.
abbrev pub read_at : ℕ → Completion
read_at now = record { start_time = now - 80000; now = now; bytes = 2097152 }

abbrev pub nvme_in : State → NvmeCtrl
nvme_in s = record zeroed_nvme { state = s; max_reconnects = pos 3 }

abbrev pub mellanox : DeviceEnv
mellanox = record {
  ib_device = 5000;
  node_guid = 77;
  mem_mgt_extensions = true;
  max_send_sge = 30;
  max_fast_reg_page_list_len = 65536;
  kzalloc = some 4096;
  alloc_pd = true;
}

abbrev pub good_qe : QeEnv
good_qe = record { kzalloc = true; dma_mapped = true }

abbrev good_ring : RingEnv
good_ring = record { kcalloc = true; entry = λ i. good_qe }

abbrev good_queue : QueueEnv
good_queue = record {
  device = mellanox;
  alloc_cq = success;
  create_qp = success;
  ring = good_ring;
  mr_pool_init = success;
}

abbrev good_cm : CmEnv
good_cm = record {
  create = good_queue;
  resolve_route = success;
  connect = success;
  post_recv = λ i. success;
}

abbrev pub good_alloc : AllocEnv
good_alloc = record {
  create_id = success;
  resolve_addr = success;
  events = (addr_resolved, good_cm) ∷ (route_resolved, good_cm) ∷ (established, good_cm) ∷ [];
  interrupted = none;
}

-- A queue of four entries that holds nothing.
abbrev pub idle_queue : QueueState
idle_queue = record { devices = no_devices; queue = record zeroed_queue { queue_size = 4 } }

abbrev pub idle_link : CmState
idle_link = record { link = idle_queue; ctrl = nvme_in State.connecting }

abbrev pub two_shared : IoQueues
two_shared = record { default_queues = 2; read_queues = 0; poll_queues = 0 }

abbrev pub two_queues : QueueOptions
two_queues = record { nr_io_queues = 2; nr_write_queues = 0; nr_poll_queues = 0 }

abbrev pub split_queues : QueueOptions
split_queues = record { nr_io_queues = 2; nr_write_queues = 1; nr_poll_queues = 1 }

abbrev pub all_granted : Granted
all_granted = record { status = success; nsqa = 63; ncqa = 63 }
