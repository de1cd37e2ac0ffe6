-- ===== src/Request/Submit/Balance.antt =====
-- What a request holds through nvme_rdma_queue_rq and nvme_rdma_complete_rq, of
-- shell/nvme-of_setup/nvme-modified/host/rdma.c.
use net_cas.Common.{ℕ, ◌≡◌, refl, true, false, not, none, arith, Bool-cases, ◌⊎◌, inl, inr}
use net_cas.Common.Code.{pos, negsuc, is_zero, is_neg}
use net_cas.Common.Ledger.{Holds, gain}
use net_cas.Fabrics.{BlkStatus, check_ready}
use net_cas.Metrics.{Metrics, Ktime}
use net_cas.Request.{Rq, Request, MapContext, MapEnv, map_data, map_dma, map_segments, unmap_data}
use net_cas.Request.Mapping.{
  HoldsData, IsUnmapped, tables, map_data-HoldsData, unmap_data-IsUnmapped,
}
use net_cas.Request.Submit.{
  Submission, SubmitEnv, is_ok, submit_send, submit_cmd, queue_rq, complete_rq,
}

-- The command is not mapped, nor any data.
pub record IsIdle (r : Request) : Type 0 where
  pub unmapped : IsUnmapped r
  pub sqe_dma : Holds 0 r.sqe_dma

-- The command is mapped, and the data if there is any.
pub record IsPosted (rq : Rq) (r : Request) : Type 0 where
  pub posted_data : HoldsData (tables rq) r
  pub posted_sqe : Holds 1 r.sqe_dma
  pub empty_mr : rq.phys_segments ≡ 0 → r.mr ≡ none

map_segments-code :
    (c : MapContext) (e : MapEnv) (rq : Rq) (count : ℕ) (r : Request)
    → is_neg (map_segments c e rq count r).0 ≡ not (is_zero (map_segments c e rq count r).0)
unfolding map_segments
map_segments-code c e rq count r = ground arith

map_dma-code :
    (c : MapContext) (e : MapEnv) (rq : Rq) (r : Request)
    → is_neg (map_dma c e rq r).0 ≡ not (is_zero (map_dma c e rq r).0)
unfolding map_dma
map_dma-code c e rq r =
    elim e.dma_count
        as (λ n.
          e.dma_count ≡ n → is_neg (map_dma c e rq r).0 ≡ not (is_zero (map_dma c e rq r).0)) [
            | negsuc n ↦ λ x. ground arith
            | pos count ↦ λ x.
                ground
                  (arith, map_segments-code c e rq count (record r { sg_dma = gain 1 r.sg_dma }))
          ]
      refl

-- The code of nvme_rdma_map_data is 0 or negative, so that `err < 0` finds every error.
map_data-code :
    (c : MapContext) (e : MapEnv) (rq : Rq) (r : Request)
    → is_neg (map_data c e rq r).0 ≡ not (is_zero (map_data c e rq r).0)
unfolding map_data
map_data-code c e rq r =
    let t = record r {
      num_sge = 1;
      ref = 2;
      metabuf = true;
      sg_table = gain 1 r.sg_table;
      nents = e.nents;
    } in
    ground (arith, map_dma-code c e rq t)

-- A request without data never takes a region.
map_data-empty :
    (c : MapContext) (e : MapEnv) (rq : Rq) (r : Request)
    → rq.phys_segments ≡ 0
    → (map_data c e rq r).1.mr ≡ r.mr
unfolding map_data
map_data-empty c e rq r h = ground arith

map_data-sqe_dma :
    (c : MapContext) (e : MapEnv) (rq : Rq) (r : Request)
    → (map_data c e rq r).1.sqe_dma ≡ r.sqe_dma
unfolding map_data map_dma map_segments
map_data-sqe_dma c e rq r = ground arith

unmap_data-sqe_dma : (rq : Rq) (r : Request) → (unmap_data rq r).sqe_dma ≡ r.sqe_dma
unfolding unmap_data
unmap_data-sqe_dma rq r = ground arith

-- The outcome of a submission: accepted and posted, or idle.
pub record IsSettled (rq : Rq) (status : BlkStatus) (r : Request) : Type 0 where
  pub accepted : is_ok status ≡ true → IsPosted rq r
  pub rejected : is_ok status ≡ false → IsIdle r

submit_send-IsSettled :
    (s : Submission) (e : SubmitEnv) (r : Request)
    → IsPosted s.rq r
    → IsSettled s.rq (submit_send s e r).0 (submit_send s e r).1
unfolding submit_send
submit_send-IsSettled s e r p =
    let u = unmap_data-IsUnmapped s.rq r p.posted_data p.empty_mr in
    ground (arith, unmap_data-sqe_dma s.rq r)

submit_cmd-IsSettled :
    (s : Submission) (e : SubmitEnv) (r : Request)
    → IsUnmapped r
    → Holds 1 r.sqe_dma
    → IsSettled s.rq (submit_cmd s e r).0 (submit_cmd s e r).1
unfolding submit_cmd
submit_cmd-IsSettled s e r u h =
    let begun = record r { started = true; start_time = e.now } in
    let m = map_data-HoldsData s.context e.map s.rq begun (ground arith) in
    ground (
      arith,
      map_data-code s.context e.map s.rq begun,
      map_data-empty s.context e.map s.rq begun,
      map_data-sqe_dma s.context e.map s.rq begun,
      submit_send-IsSettled s e (map_data s.context e.map s.rq begun).1,
    )

-- For a request that is idle and may go to the queue: if nvme_rdma_queue_rq accepts it, its command
-- is mapped once and its data once, and else it is idle again, on every error path.
pub queue_rq-IsSettled :
    (s : Submission) (e : SubmitEnv) (r : Request)
    → IsIdle r
    → check_ready s.ctrl_state s.flags s.queue_live ≡ true
    → IsSettled s.rq (queue_rq s e r).0 (queue_rq s e r).2
unfolding queue_rq
queue_rq-IsSettled s e r i ready =
    let t =
      submit_cmd-IsSettled s e (record r { sqe_dma = gain 1 r.sqe_dma }) (ground arith)
        (omega arith) in
    ground arith

-- For a request that is idle and may go to the queue: when nvme_rdma_queue_rq returns BLK_STS_OK,
-- its command is mapped once, its data once if it has any, and a memory region is held exactly while
-- `mr` names one; on every other status it is idle again: nothing is mapped, and `mr` is null with no
-- region held.
pub queue_rq_outcome :
    (s : Submission) (e : SubmitEnv) (r : Request)
    → IsIdle r
    → check_ready s.ctrl_state s.flags s.queue_live ≡ true
    → ((is_ok (queue_rq s e r).0 ≡ true) × IsPosted s.rq (queue_rq s e r).2)
      ⊎ ((is_ok (queue_rq s e r).0 ≡ false) × IsIdle (queue_rq s e r).2)
queue_rq_outcome s e r i ready =
    let h = queue_rq-IsSettled s e r i ready in
    elim (Bool-cases (is_ok (queue_rq s e r).0)) [
      | inl ok ↦ inl (ok, h.accepted ok)
      | inr bad ↦ inr (bad, h.rejected bad)
    ]

-- A request that may not go to the queue is left as it was.
queue_rq-nonready :
    (s : Submission) (e : SubmitEnv) (r : Request)
    → check_ready s.ctrl_state s.flags s.queue_live ≡ false
    → (queue_rq s e r).2 ≡ r
unfolding queue_rq
queue_rq-nonready s e r h = ground arith

-- Completing a request whose command and data are mapped leaves it with neither.
pub complete_rq-IsIdle :
    (k : Ktime) (now : ℕ) (rq : Rq) (m : Metrics) (r : Request)
    → IsPosted rq r
    → IsIdle (complete_rq k now rq (m, r)).1
unfolding complete_rq
complete_rq-IsIdle k now rq m r p =
    let u = unmap_data-IsUnmapped rq r p.posted_data p.empty_mr in
    ground (arith, unmap_data-sqe_dma rq r)
