-- ===== src/Examples/Requests.antt =====
-- Runs of mapping, submitting and completing a request, of
-- shell/nvme-of_setup/nvme-modified/host/rdma.c.
use net_cas.Common.{◌⊎◌, ◌+◌, ◌≤◌, ◌≡◌, ◌↔◌, refl, false, true, [], none, some}
use net_cas.Common.Code.{pos, success}
use net_cas.Common.Ledger.{nothing}
use net_cas.CtrlState.{State}
use net_cas.Fabrics.{sts_ok, check_ready}
use net_cas.Request.{Rq, Request, MapContext, MapEnv, key_data, map_data}
use net_cas.Request.Mapping.{IsUnmapped, SgesFit, map_data-SgesFit}
use net_cas.Request.Submit.{is_ok, Submission, SubmitEnv, queue_rq}
use net_cas.Request.Submit.Balance.{IsIdle, IsPosted, queue_rq_outcome}
use net_cas.Request.Flight.{Flight, Response, process_nvme_rsp, send_done}
use net_cas.Request.Flight.Once.{Progress, Step, Reach, start, Reach-ended}
use net_cas.Request.Flight.Fault.{is_some, process_nvme_rsp-fault}
use net_cas.Examples.{nvme_in}

abbrev pub idle : Request
idle = record {
  start_time = 0;
  mr = none;
  status = 0;
  result = 0;
  ref = 0;
  sge = [];
  num_sge = 0;
  nents = 0;
  metabuf = false;
  dptr = record { addr = 0; length = []; key = 0; type_of = key_data };
  reg_key = 0;
  started = false;
  cleanups = 0;
  ended = 0;
  sqe_dma = nothing;
  sg_table = nothing;
  sg_dma = nothing;
  mrs = nothing;
}

idle-IsUnmapped : IsUnmapped idle
idle-IsUnmapped = record {
  data_held = record { sg_table = refl; sg_dma = refl; mrs = refl };
  no_mr = refl;
}

-- A read of two segments, which takes a memory region.
abbrev pub two_segments : Rq
two_segments = record { phys_segments = 2; payload_bytes = 8192; write = false }

abbrev pub context : MapContext
context = record {
  queue_idx = 1;
  cmnd_capsule_len = 4160;
  num_inline_segments = 4;
  unsafe_global_rkey = none;
  use_inline_data = true;
  icdoff = 0;
}

abbrev pub mapping : MapEnv
mapping = record {
  alloc_table = success;
  nents = 2;
  dma_count = pos 2;
  segments = λ i. record { addr = 4096; length = 4096 };
  mr_pool_get = some 9;
  map_mr = pos 2;
  iova = 65536;
  mr_length = 8192;
  inc_rkey = λ k. k + 1;
}

map_data-SgesFit_example : SgesFit context (map_data context mapping two_segments idle).1
map_data-SgesFit_example = map_data-SgesFit context mapping two_segments idle

abbrev pub submission : Submission
submission = record {
  ctrl_state = State.live;
  queue_live = true;
  flags = record {
    passthrough = false;
    usercmd = false;
    is_connect = false;
    noretry = false;
    mpath = false;
  };
  rq = two_segments;
  context = context;
}

abbrev pub answers : SubmitEnv
answers = record {
  dma_mapped = true;
  setup_cmd = sts_ok;
  now = 1000;
  map = mapping;
  post_send = success;
}

pub idle-IsIdle : IsIdle idle
idle-IsIdle = record { unmapped = idle-IsUnmapped; sqe_dma = refl }

queue_rq_outcome_example :
    ((is_ok (queue_rq submission answers idle).0 ≡ true)
      × IsPosted two_segments (queue_rq submission answers idle).2)
    ⊎ ((is_ok (queue_rq submission answers idle).0 ≡ false)
        × IsIdle (queue_rq submission answers idle).2)
unfolding check_ready
queue_rq_outcome_example = queue_rq_outcome submission answers idle idle-IsIdle refl

abbrev pub flight : Flight
flight = record {
  req = record idle { ref = 2 };
  ctrl = nvme_in State.live;
  invs = 0;
  reposted = 0;
  aens = 0;
}

-- The target says that it invalidated a key, for a request without a region.
abbrev bad_response : Response
bad_response = record {
  command_id = 3;
  status = 0;
  result = 0;
  invalidated = some 9;
  found = true;
  post_inv = success;
}

process_nvme_rsp-fault_example : is_some (process_nvme_rsp bad_response flight) ≡ false
process_nvme_rsp-fault_example = process_nvme_rsp-fault bad_response flight

abbrev sent_once : Progress
sent_once = record {
  sent = true;
  answered = false;
  invalidating = false;
  flight = send_done true flight;
}

sent_once-Reach : Reach (start flight) sent_once
sent_once-Reach = Reach.next Reach.here (Step.send refl refl)

Reach-ended_example :
    (sent_once.flight.req.ended ≤ 1) × ((sent_once.flight.req.ended ≡ 1) ↔ (false ≡ true))
Reach-ended_example = Reach-ended flight sent_once refl sent_once-Reach
