-- ===== src/Fabrics.antt =====
-- shell/nvme-of_setup/nvme-modified/host/fabrics.c and fabrics.h: which requests a controller takes
-- (nvmf_check_ready, nvmf_fail_nonready_command), and when two sets of connection options name the
-- same association (nvmf_ctlr_matches_baseopts, nvmf_ip_options_match).
pub mod Ready
pub mod Options
pub mod Parse
use net_cas.Common.{
  ℕ, Bool, true, false, not, ◌&&◌, ◌||◌, List, [], ◌∷◌, Option, none, some, ◌==◌, if◌then◌else◌,
}
use net_cas.CtrlState.{State, new, live, resetting, connecting, deleting, dead, same}

-- `blk_status_t`, as far as these functions return it.
pub data BlkStatus : Type 0 where
  sts_ok sts_resource sts_ioerr sts_notsupp sts_other : BlkStatus

-- blk_rq_is_passthrough, NVME_REQ_USERCMD, the test for the fabrics Connect command,
-- blk_noretry_request and REQ_NVME_MPATH.
pub record RqFlags : Type 0 where
  pub passthrough : Bool
  pub usercmd : Bool
  pub is_connect : Bool
  pub noretry : Bool
  pub mpath : Bool

-- The `switch` of __nvmf_check_ready.
unfoldable ready_in : State → RqFlags → Bool → Bool
ready_in new f queue_live = f.is_connect || queue_live
ready_in connecting f queue_live = f.is_connect || queue_live
ready_in dead f queue_live = false
ready_in live f queue_live = queue_live
ready_in resetting f queue_live = queue_live
ready_in deleting f queue_live = queue_live

unfoldable pub check_ready : State → RqFlags → Bool → Bool
unfolding ready_in
check_ready s f queue_live =
    if same s live
    then true
    else if not f.passthrough || f.usercmd
    then false
    else ready_in s f queue_live

-- nvmf_fail_nonready_command: the status, and whether the request was ended with a path error.
unfoldable pub fail_nonready_command : State → RqFlags → BlkStatus × Bool
fail_nonready_command s f =
    if not (same s deleting) && (not (same s dead) && (not f.noretry && not f.mpath))
    then (sts_resource, false)
    else (sts_ok, true)

-- The parts of `struct nvmf_ctrl_options` that identify an association; each number stands for a
-- string or a UUID, equal exactly when strcmp or memcmp say so. `host_traddr` is there exactly when
-- NVMF_OPT_HOST_TRADDR is in the mask.
pub record Association : Type 0 where
  pub subsysnqn : ℕ
  pub host_nqn : ℕ
  pub host_id : ℕ
  pub traddr : ℕ
  pub trsvcid : ℕ
  pub host_traddr : Option ℕ

unfoldable matches_baseopts : State → Association → Association → Bool
matches_baseopts s c o =
    not (same s deleting)
    && (not (same s dead)
        && (o.subsysnqn == c.subsysnqn && (o.host_nqn == c.host_nqn && o.host_id == c.host_id)))

-- The comparison of the local addresses.
unfoldable matches_host : Option ℕ → Option ℕ → Bool
matches_host none none = true
matches_host (some a) (some b) = a == b
matches_host (some a) none = false
matches_host none (some b) = false

unfoldable pub ip_options_match : State → Association → Association → Bool
unfolding matches_baseopts matches_host
ip_options_match s c o =
    matches_baseopts s c o
    && (o.traddr == c.traddr
        && (o.trsvcid == c.trsvcid && matches_host o.host_traddr c.host_traddr))

-- rdma.c, nvme_rdma_existing_controller: the list of controllers is searched under its mutex.
unfoldable pub existing_controller : List (State × Association) → Association → Bool
existing_controller [] o = false
existing_controller ((s, c) ∷ cs) o = ip_options_match s c o || existing_controller cs o
