-- ===== src/Driver/Zeroed.antt =====
-- A controller as kzalloc and nvme_init_ctrl leave it: all fields are 0, and the state is NEW.
use net_cas.Common.{false, none}
use net_cas.Common.{[]}
use net_cas.Common.Code.{success}
use net_cas.Common.Ledger.{nothing}
use net_cas.CtrlState.{new, NvmeCtrl}
use net_cas.Device.{Devices}
use net_cas.Ring.{Memory}
use net_cas.Queue.{Queue}
use net_cas.Ctrl.{Ctrl}

abbrev zeroed_memory : Memory
zeroed_memory = record { buffers = nothing; mappings = nothing; rings = nothing }

abbrev pub zeroed_queue : Queue
zeroed_queue = record {
  queue_size = 0;
  cmnd_capsule_len = 0;
  device = none;
  allocated = false;
  live = false;
  tr_ready = false;
  cm_error = success;
  cm_done = false;
  poll_direct = false;
  comp_vector = 0;
  cq_entries = 0;
  max_send_wr = 0;
  max_recv_wr = 0;
  pages_per_mr = 0;
  recvs_posted = 0;
  stops = 0;
  cm_ids = nothing;
  device_refs = nothing;
  ib_cqs = nothing;
  qps = nothing;
  mr_pools = nothing;
  ring = zeroed_memory;
}

abbrev pub zeroed_nvme : NvmeCtrl
zeroed_nvme = record {
  state = new;
  kicks = 0;
  reset_works = 0;
  delete_works = 0;
  err_works = 0;
  reconnect_works = 0;
  nr_reconnects = 0;
  max_reconnects = success;
}

abbrev pub no_devices : Devices
no_devices = record { list = []; pds = nothing; memory = nothing }

abbrev pub zeroed : Ctrl
zeroed = record {
  nvme = zeroed_nvme;
  devices = no_devices;
  queues = λ i. zeroed_queue;
  counts = record {
    queue_count = 0;
    io_queues = record { default_queues = 0; read_queues = 0; poll_queues = 0 };
  };
  device = none;
  max_fr_pages = 0;
  max_segments = 0;
  max_hw_sectors = 0;
  identified = record {
    icdoff = 0;
    keyed_sgls = false;
    offset_sgls = false;
    sqsize = 0;
    maxcmd = 0;
    ioccsz = 0;
  };
  use_inline_data = false;
  async_event = false;
  sqe = zeroed_memory;
  blk = record {
    admin_tagset = nothing;
    fabrics_q = nothing;
    admin_q = nothing;
    tagset = nothing;
    connect_q = nothing;
  };
  admin_quiesced = false;
  io_quiesced = false;
  cancels = 0;
  starts = 0;
  keep_alive_stops = 0;
}
