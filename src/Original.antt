-- ===== src/Original.antt =====
-- shell/nvme-of_setup/nvme/host/rdma.c: the Linux driver that
-- shell/nvme-of_setup/nvme-modified/host/rdma.c started from, in the functions that differ between the
-- two: nvme_rdma_queue_rq, nvme_rdma_complete_rq, and the entry and exit of the module. A request has
-- no start time there; the field is left alone.
pub mod Requests
pub mod Calls
pub mod Modules
use net_cas.Common.{Bool, true, false, ◌||◌, if◌then◌else◌, ◌+◌}
use net_cas.Common.Code.{ℤ, ◌==ℤ◌, is_zero, is_neg, success, enomem, eagain}
use net_cas.Common.Ledger.{gain, give}
use net_cas.Fabrics.{BlkStatus, sts_ok, sts_resource, sts_ioerr, check_ready, fail_nonready_command}
use net_cas.Request.{Rq, Request, map_data, unmap_data}
use net_cas.Request.Submit.{Submission, SubmitEnv, is_ok, submit_send}
use net_cas.Driver.{Driver}
use net_cas.Driver.Load.{Loaded, LoadEnv, delete_all}

unfoldable err_status : ℤ → BlkStatus
err_status err = if err ==ℤ enomem || err ==ℤ eagain then sts_resource else sts_ioerr

-- nvme_rdma_queue_rq from nvme_setup_cmd on.
unfoldable pub submit_cmd : Submission → SubmitEnv → Request → BlkStatus × Request
unfolding err_status
submit_cmd s e r =
    let (err, t) = map_data s.context e.map s.rq (record r { started = true }) in
    if is_ok e.setup_cmd
    then if is_neg err
      then (err_status err, record t { cleanups = t.cleanups + 1; sqe_dma = give 1 t.sqe_dma })
      else submit_send s e t
    else (e.setup_cmd, record r { sqe_dma = give 1 r.sqe_dma })

unfoldable pub queue_rq : Submission → SubmitEnv → Request → BlkStatus × Bool × Request
queue_rq s e r =
    let (refused, ended) = fail_nonready_command s.ctrl_state s.flags in
    let (status, t) = submit_cmd s e (record r { sqe_dma = gain 1 r.sqe_dma }) in
    if check_ready s.ctrl_state s.flags s.queue_live
    then if e.dma_mapped then (status, false, t) else (sts_resource, false, r)
    else (refused, ended, r)

-- nvme_rdma_complete_rq up to nvme_complete_rq.
unfoldable pub complete_rq : Rq → Request → Request
complete_rq rq r = let t = unmap_data rq r in record t { sqe_dma = give 1 t.sqe_dma }

unfoldable pub init_module : LoadEnv → Loaded → ℤ × Loaded
init_module e l =
    let t = record l { client = gain 1 l.client } in
    if is_zero e.register_client
    then if is_zero e.register_transport
      then (success, record t { transport = gain 1 t.transport })
      else (e.register_transport, record t { client = give 1 t.client })
    else (e.register_client, l)

unfoldable pub cleanup_module : Bool → Loaded → Loaded
cleanup_module queued l =
    let d = l.driver in
    record l {
      transport = give 1 l.transport;
      client = give 1 l.client;
      driver = record d { ctrls = delete_all queued d.ctrls; flushes = d.flushes + 1 };
    }
