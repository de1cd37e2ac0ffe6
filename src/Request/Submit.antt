-- ===== src/Request/Submit.antt =====
-- shell/nvme-of_setup/nvme-modified/host/rdma.c: nvme_rdma_queue_rq submits a request, and
-- nvme_rdma_complete_rq measures it and gives back what it holds.
pub mod Balance
use net_cas.Common.{ℕ, ◌+◌, Bool, true, false, ◌||◌, Option, none, some, if◌then◌else◌}
use net_cas.Common.Code.{ℤ, ◌==ℤ◌, is_zero, is_neg, enomem, eagain}
use net_cas.Common.Ledger.{Ledger, gain, give}
use net_cas.CtrlState.{State}
use net_cas.Fabrics.{
  BlkStatus, sts_ok, sts_resource, sts_ioerr, RqFlags, check_ready, fail_nonready_command,
}
use net_cas.Metrics.{Metrics, Ktime, complete}
use net_cas.Request.{Rq, Request, MapContext, MapEnv, map_data, unmap_data}

-- The request and the queue it is for.
pub record Submission : Type 0 where
  pub ctrl_state : State
  pub queue_live : Bool
  pub flags : RqFlags
  pub rq : Rq
  pub context : MapContext

-- What the kernel answers while one request is submitted: whether the address of the command could
-- be mapped, the status of nvme_setup_cmd, ktime_get, and the result of ib_post_send.
pub record SubmitEnv : Type 0 where
  pub dma_mapped : Bool
  pub setup_cmd : BlkStatus
  pub now : ℕ
  pub map : MapEnv
  pub post_send : ℤ

abbrev pub is_ok : BlkStatus → Bool
is_ok sts_ok = true
is_ok _ = false

-- The label `err`.
unfoldable pub err_status : ℤ → BlkStatus
err_status err = if err ==ℤ enomem || err ==ℤ eagain then sts_resource else sts_ioerr

-- The label `unmap_qe`.
abbrev unmap_qe : Request → Request
unmap_qe r = record r { sqe_dma = give 1 r.sqe_dma }

-- nvme_rdma_post_send and its error path.
unfoldable pub submit_send : Submission → SubmitEnv → Request → BlkStatus × Request
unfolding err_status
submit_send s e r =
    if is_zero e.post_send
    then (sts_ok, r)
    else (err_status e.post_send, unmap_qe (unmap_data s.rq r))

-- From nvme_setup_cmd on.
unfoldable pub submit_cmd : Submission → SubmitEnv → Request → BlkStatus × Request
unfolding err_status
submit_cmd s e r =
    let begun = record r { started = true; start_time = e.now } in
    let (err, t) = map_data s.context e.map s.rq begun in
    if is_ok e.setup_cmd
    then if is_neg err
      then (err_status err, unmap_qe (record t { cleanups = t.cleanups + 1 }))
      else submit_send s e t
    else (e.setup_cmd, unmap_qe r)

-- The second result says whether nvmf_fail_nonready_command ended the request.
unfoldable pub queue_rq : Submission → SubmitEnv → Request → BlkStatus × Bool × Request
queue_rq s e r =
    let (refused, ended) = fail_nonready_command s.ctrl_state s.flags in
    let (status, t) = submit_cmd s e (record r { sqe_dma = gain 1 r.sqe_dma }) in
    if check_ready s.ctrl_state s.flags s.queue_live
    then if e.dma_mapped then (status, false, t) else (sts_resource, false, r)
    else (refused, ended, r)

-- nvme_rdma_complete_rq up to nvme_complete_rq, at the time `now`.
unfoldable pub complete_rq : Ktime → ℕ → Rq → Metrics × Request → Metrics × Request
complete_rq k now rq (m, r) = (
  complete k m (record { start_time = r.start_time; now = now; bytes = rq.payload_bytes }),
  unmap_qe (unmap_data rq r),
)
