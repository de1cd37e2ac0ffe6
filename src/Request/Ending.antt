-- ===== src/Request/Ending.antt =====
-- shell/nvme-of_setup/nvme-modified/host/core.c: what nvme_complete_rq does with a request that
-- nvme_rdma_complete_rq measured and unmapped: nvme_error_status, nvme_req_needs_retry,
-- nvme_retry_req; and nvme_cancel_request.
pub mod Retries
pub mod Drained
use net_cas.Common.{
  ℕ, ◌+◌, ◌-◌, ◌*◌, ◌%◌, Bool, true, false, not, ◌||◌, ◌&&◌, leb, ◌==◌, if◌then◌else◌,
}
use net_cas.Fabrics.{RqFlags}
use net_cas.Request.{Request}

-- The status codes of linux/nvme.h that nvme_error_status tells apart.
pub record StatusCodes : Type 0 where
  pub sc_success : ℕ
  pub cap_exceeded : ℕ
  pub lba_range : ℕ
  pub bad_attributes : ℕ
  pub oncs_not_supported : ℕ
  pub invalid_opcode : ℕ
  pub invalid_field : ℕ
  pub invalid_ns : ℕ
  pub write_fault : ℕ
  pub read_error : ℕ
  pub unwritten_block : ℕ
  pub access_denied : ℕ
  pub read_only : ℕ
  pub compare_failed : ℕ
  pub guard_check : ℕ
  pub apptag_check : ℕ
  pub reftag_check : ℕ
  pub invalid_pi : ℕ
  pub reservation_conflict : ℕ
  pub host_path_error : ℕ

-- BLK_STS_OK and the others that it returns.
pub data EndStatus : Type 0 where
  ok nospc target notsupp medium protection nexus transport ioerr : EndStatus

abbrev pub is_end_ok : EndStatus → Bool
is_end_ok ok = true
is_end_ok _ = false

unfoldable pub error_status : StatusCodes → ℕ → EndStatus
error_status c status =
    let s = status % 2048 in
    if s == c.sc_success
    then ok
    else if s == c.cap_exceeded
    then nospc
    else if s == c.lba_range
    then target
    else if s == c.bad_attributes
        || (s == c.oncs_not_supported
            || (s == c.invalid_opcode || (s == c.invalid_field || s == c.invalid_ns)))
    then notsupp
    else if s == c.write_fault
        || (s == c.read_error
            || (s == c.unwritten_block
                || (s == c.access_denied || (s == c.read_only || s == c.compare_failed))))
    then medium
    else if s == c.guard_check
        || (s == c.apptag_check || (s == c.reftag_check || s == c.invalid_pi))
    then protection
    else if s == c.reservation_conflict
    then nexus
    else if s == c.host_path_error
    then transport
    else ioerr

-- The parts of `struct nvme_request` that are read here.
pub record NvmeRequest : Type 0 where
  pub status : ℕ
  pub retries : ℕ

-- NVME_SC_DNR and NVME_SC_CRD >> 11 of a status, blk_path_error, blk_queue_dying, whether the queue has
-- a namespace, the controller's `crdt`, and the module parameter nvme_max_retries.
pub record EndEnv : Type 0 where
  pub codes : StatusCodes
  pub dnr : ℕ → Bool
  pub crd : ℕ → ℕ
  pub path_error : EndStatus → Bool
  pub queue_dying : Bool
  pub has_ns : Bool
  pub crdt : ℕ → ℕ
  pub max_retries : ℕ

unfoldable needs_retry : EndEnv → RqFlags → NvmeRequest → Bool
needs_retry e flags r =
    if flags.noretry
    then false
    else if e.dnr r.status
    then false
    else not (leb e.max_retries r.retries)

-- nvme_retry_req: the delay before the requeue, and the request; `retries` is a byte.
unfoldable retry_req : EndEnv → NvmeRequest → ℕ × NvmeRequest
retry_req e r =
    let crd = e.crd r.status in
    (
      if e.has_ns && not (crd == 0) then e.crdt (crd - 1) * 100 else 0,
      record r { retries = (r.retries + 1) % 256 },
    )

-- The request goes to another path, is queued again after a delay, or ends with a status.
pub data Ending : Type 0 where
  failed_over : Ending
  requeued : ℕ → Ending
  ended_with : EndStatus → Ending

-- nvme_complete_rq
unfoldable pub end_rq : EndEnv → RqFlags → NvmeRequest → Ending × NvmeRequest
unfolding error_status needs_retry retry_req
end_rq e flags r =
    let status = error_status e.codes r.status in
    let (delay, t) = retry_req e r in
    if not (is_end_ok status) && needs_retry e flags r
    then if flags.mpath && e.path_error status
      then (failed_over, r)
      else if e.queue_dying
      then (ended_with status, r)
      else (requeued delay, t)
    else (ended_with status, r)

-- nvme_cancel_request: `completed` is what blk_mq_request_completed says, and `aborted` stands for
-- NVME_SC_HOST_ABORTED_CMD.
unfoldable pub cancel_request : ℕ → Bool → Request → Request
cancel_request aborted completed r =
    if completed then r else record r { status = aborted; ended = r.ended + 1 }
