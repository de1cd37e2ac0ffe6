-- ===== src/Request/Flight/Fault.antt =====
-- nvme_rdma_process_nvme_rsp, of shell/nvme-of_setup/nvme-modified/host/rdma.c: when a response makes
-- the driver follow a pointer that is not there.
use net_cas.Common.{◌≡◌, Bool, true, false, not, ◌&&◌, Option, none, some, arith}
use net_cas.Request.Flight.{Flight, Response, remote_invalidate, answer, process_nvme_rsp}

abbrev pub is_some {ℓ} : {A : Type ℓ} → Option A → Bool
is_some none = false
is_some (some a) = true

-- nvme_rdma_process_nvme_rsp follows the null `req->mr` exactly when the response names a request,
-- says that a key was invalidated, and the request has no memory region.
pub process_nvme_rsp-fault :
    (rsp : Response) (f : Flight)
    → is_some (process_nvme_rsp rsp f)
      ≡ not (rsp.found && (is_some rsp.invalidated && not (is_some f.req.mr)))
unfolding process_nvme_rsp answer remote_invalidate
process_nvme_rsp-fault rsp f = ground arith
