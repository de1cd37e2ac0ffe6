-- ===== src/Request/Flight.antt =====
-- shell/nvme-of_setup/nvme-modified/host/rdma.c: the completions of a request that was sent:
-- nvme_rdma_send_done, nvme_rdma_recv_done, nvme_rdma_process_nvme_rsp, nvme_rdma_inv_rkey,
-- nvme_rdma_inv_rkey_done, nvme_rdma_memreg_done and nvme_rdma_async_done.
pub mod Once
pub mod Fault
use net_cas.Common.{
  ℕ, ◌+◌, ◌-◌, Bool, true, false, ◌&&◌, Option, none, some, leb, ◌==◌, if◌then◌else◌,
}
use net_cas.Common.Code.{ℤ, is_neg}
use net_cas.CtrlState.{NvmeCtrl, error_recovery, wr_error}
use net_cas.Request.{Request}

-- A request in flight and its controller. `invs` counts the local invalidations that were posted,
-- `reposted` the receive buffers that were handed back, `aens` the asynchronous events.
pub record Flight : Type 0 where
  pub req : Request
  pub ctrl : NvmeCtrl
  pub invs : ℕ
  pub reposted : ℕ
  pub aens : ℕ

-- refcount_dec_and_test and nvme_end_request; a counter at 0 stays there and does not test true.
unfoldable pub drop_ref : Request → Request
drop_ref r =
    if r.ref == 1 then record r { ref = 0; ended = r.ended + 1 } else record r { ref = r.ref - 1 }

-- In these, `success` says whether `wc->status` is IB_WC_SUCCESS.
unfoldable memreg_done : Bool → Flight → Flight
memreg_done success f = if success then f else record f { ctrl = wr_error f.ctrl }

unfoldable async_done : Bool → Flight → Flight
async_done success f = if success then f else record f { ctrl = wr_error f.ctrl }

unfoldable pub inv_rkey_done : Bool → Flight → Flight
unfolding drop_ref
inv_rkey_done success f =
    if success then record f { req = drop_ref f.req } else record f { ctrl = wr_error f.ctrl }

unfoldable pub send_done : Bool → Flight → Flight
unfolding drop_ref
send_done success f =
    if success then record f { req = drop_ref f.req } else record f { ctrl = wr_error f.ctrl }

-- A response: the `struct nvme_completion`, the key that the target says it invalidated, whether the
-- tag names this request, and the result of ib_post_send for a local invalidation.
pub record Response : Type 0 where
  pub command_id : ℕ
  pub status : ℕ
  pub result : ℕ
  pub invalidated : Option ℕ
  pub found : Bool
  pub post_inv : ℤ

unfoldable pub recover : Flight → Flight
recover f = record f { ctrl = error_recovery f.ctrl }

-- nvme_rdma_inv_rkey, and the recovery if it could not be posted.
unfoldable pub inv_rkey : ℤ → Flight → Flight
unfolding recover
inv_rkey ret f = let t = record f { invs = f.invs + 1 } in if is_neg ret then recover t else t

-- The branch for a remote invalidation compares the key through `req->mr`, which is no pointer for a
-- request without a region: `none` is that fault.
unfoldable pub remote_invalidate : ℕ → Option ℕ → Flight → Option Flight
unfolding recover
remote_invalidate key none f = none
remote_invalidate key (some rkey) f = some (if key == rkey then f else recover f)

unfoldable pub finish_rsp : Flight → Flight
unfolding drop_ref
finish_rsp f = record f { req = drop_ref f.req }

unfoldable pub answer : Option ℕ → Option ℕ → ℤ → Flight → Option Flight
answer (some key) mr post f = elim (remote_invalidate key mr f) [
  | none ↦ none
  | some t ↦ some (finish_rsp t)
]
answer none (some rkey) post f = some (inv_rkey post f)
answer none none post f = some (finish_rsp f)

unfoldable pub process_nvme_rsp : Response → Flight → Option Flight
unfolding recover
process_nvme_rsp rsp f =
    let t = record f { req = record (f.req) { status = rsp.status; result = rsp.result } } in
    if rsp.found then answer rsp.invalidated f.req.mr rsp.post_inv t else some (recover f)

abbrev repost : Option Flight → Option Flight
repost none = none
repost (some f) = some (record f { reposted = f.reposted + 1 })

-- `aq_blk_mq_depth` is NVME_AQ_BLK_MQ_DEPTH, the first identifier of the asynchronous events of the
-- admin queue; `idx` is the index of the queue.
unfoldable recv_done : ℕ → ℕ → Bool → Response → Flight → Option Flight
recv_done aq_blk_mq_depth idx success rsp f =
    if success
    then repost (
        if idx == 0 && leb aq_blk_mq_depth rsp.command_id
        then some (record f { aens = f.aens + 1 })
        else process_nvme_rsp rsp f)
    else some (record f { ctrl = wr_error f.ctrl })
