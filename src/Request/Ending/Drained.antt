-- ===== src/Request/Ending/Drained.antt =====
-- A request from nvme_rdma_queue_rq through its completions to nvme_rdma_complete_rq, of
-- shell/nvme-of_setup/nvme-modified/host/rdma.c, when nvme_cancel_request, of core.c, ends what is
-- left once the queue is drained.
use net_cas.Common.{ℕ, ◌+◌, ◌≡◌, Bool, true, not, ◌==◌, some, arith, refl, ◌⊎◌}
use net_cas.CtrlState.{NvmeCtrl}
use net_cas.Fabrics.{check_ready}
use net_cas.Metrics.{Metrics, Ktime}
use net_cas.Request.{Rq, Request, map_segments, map_dma, map_data}
use net_cas.Request.Submit.{
  Submission, SubmitEnv, is_ok, submit_send, submit_cmd, queue_rq, complete_rq,
}
use net_cas.Request.Submit.Balance.{IsIdle, IsPosted, queue_rq-IsSettled, complete_rq-IsIdle}
use net_cas.Request.Flight.{
  Flight, Response, drop_ref, send_done, inv_rkey_done, process_nvme_rsp, answer, remote_invalidate,
  finish_rsp, inv_rkey,
}
use net_cas.Request.Flight.Once.{
  Progress, Step, send, respond, invalidate, Reach, here, next, start, Reach-ended_cases,
}
use net_cas.Request.Ending.{cancel_request}

-- What the completions leave alone.
record SameMapped (r t : Request) : Type 0 where
  mr : t.mr ≡ r.mr
  sg_table : t.sg_table ≡ r.sg_table
  sg_dma : t.sg_dma ≡ r.sg_dma
  mrs : t.mrs ≡ r.mrs
  sqe_dma : t.sqe_dma ≡ r.sqe_dma

process_nvme_rsp-SameMapped :
    (rsp : Response) (f : Flight) {f' : Flight}
    → process_nvme_rsp rsp f ≡ some f'
    → SameMapped f.req f'.req
unfolding process_nvme_rsp answer remote_invalidate finish_rsp inv_rkey drop_ref
process_nvme_rsp-SameMapped rsp f e = ground arith

Step-SameMapped :
    (r : Request) (p p' : Progress)
    → Step p p'
    → SameMapped r p.flight.req
    → SameMapped r p'.flight.req
unfolding send_done inv_rkey_done drop_ref
Step-SameMapped r p p' (send s e) h = ground arith
Step-SameMapped r p p' (respond rsp f a found x e) h =
    let t = process_nvme_rsp-SameMapped rsp p.flight x in ground arith
Step-SameMapped r p p' (invalidate i e) h = ground arith

Reach-SameMapped :
    (r : Request) (p : Progress) {q : Progress}
    → SameMapped r p.flight.req
    → Reach p q
    → SameMapped r q.flight.req
Reach-SameMapped r p h here = h
Reach-SameMapped r p h (next {q = q} {q' = q'} s t) =
    Step-SameMapped r q q' t (Reach-SameMapped r p h s)

SameMapped-IsPosted : (rq : Rq) (r t : Request) → SameMapped r t → IsPosted rq r → IsPosted rq t
SameMapped-IsPosted rq r t h p = ground (arith, h.mr, h.sg_table, h.sg_dma, h.mrs, h.sqe_dma)

cancel_request-IsPosted :
    (aborted : ℕ) (completed : Bool) (rq : Rq) (r : Request)
    → IsPosted rq r
    → IsPosted rq (cancel_request aborted completed r)
unfolding cancel_request
cancel_request-IsPosted aborted completed rq r p = ground arith

-- A request that nvme_rdma_queue_rq accepts has two references, and has not been ended again.
queue_rq-ref :
    (s : Submission) (e : SubmitEnv) (r : Request)
    → check_ready s.ctrl_state s.flags s.queue_live ≡ true
    → is_ok (queue_rq s e r).0 ≡ true
    → ((queue_rq s e r).2.ref ≡ 2) × ((queue_rq s e r).2.ended ≡ r.ended)
unfolding queue_rq submit_cmd submit_send map_data map_dma map_segments
queue_rq-ref s e r ready accepted = ground arith

abbrev pub in_flight : NvmeCtrl → Request → Flight
in_flight ctrl r = record { req = r; ctrl = ctrl; invs = 0; reposted = 0; aens = 0 }

-- nvme_cancel_request, when the block layer says of a request whether it was ended since it had been
-- ended `n` times.
abbrev pub drained : ℕ → ℕ → Request → Request
drained aborted n r = cancel_request aborted (not (r.ended == n)) r

drained-ended :
    (aborted n : ℕ) (r : Request) (before : ℕ)
    → before ≡ n
    → (r.ended ≡ before) ⊎ (r.ended ≡ before + 1)
    → (drained aborted n r).ended ≡ n + 1
unfolding cancel_request
drained-ended aborted n r before same h = ground arith

-- An idle request that is ready and that nvme_rdma_queue_rq accepts: whichever of its completions
-- come, and in whatever order, until the queue is drained and nvme_cancel_request is called, it has
-- then been ended exactly once more, and nvme_rdma_complete_rq leaves it idle again.
pub queue_rq-complete_rq :
    (s : Submission) (e : SubmitEnv) (r : Request) (ctrl : NvmeCtrl) (q : Progress) (aborted : ℕ)
    (k : Ktime) (now : ℕ) (m : Metrics)
    → IsIdle r
    → check_ready s.ctrl_state s.flags s.queue_live ≡ true
    → is_ok (queue_rq s e r).0 ≡ true
    → Reach (start (in_flight ctrl (queue_rq s e r).2)) q
    → ((drained aborted r.ended q.flight.req).ended ≡ r.ended + 1)
      × IsIdle (complete_rq k now s.rq (m, drained aborted r.ended q.flight.req)).1
queue_rq-complete_rq s e r ctrl q aborted k now m idle ready accepted steps =
    let t = (queue_rq s e r).2 in
    let f = in_flight ctrl t in
    let (two, same) = queue_rq-ref s e r ready accepted in
    let posted = (queue_rq-IsSettled s e r idle ready).accepted accepted in
    let kept : SameMapped t q.flight.req =
      Reach-SameMapped t (start f)
        (record { mr = refl; sg_table = refl; sg_dma = refl; mrs = refl; sqe_dma = refl }) steps in
    (
      drained-ended aborted r.ended q.flight.req t.ended same (Reach-ended_cases f q two steps),
      complete_rq-IsIdle k now s.rq m (drained aborted r.ended q.flight.req) (
          cancel_request-IsPosted aborted (not (q.flight.req.ended == r.ended)) s.rq q.flight.req
            (SameMapped-IsPosted s.rq t q.flight.req kept posted)),
    )
