-- ===== src/Original/Requests.antt =====
-- The submission and the completion of requests by the driver that measures, in
-- shell/nvme-of_setup/nvme-modified/host/rdma.c, against the Linux driver it started from, in
-- shell/nvme-of_setup/nvme/host/rdma.c.
use net_cas.Common.{ℕ, ◌≡◌, true, arith}
use net_cas.Common.Code.{ℤ}
use net_cas.Common.Ledger.{gain}
use net_cas.Metrics.{Metrics, Ktime}
use net_cas.Request.{Rq, Request, MapContext, MapEnv, map_segments, map_dma, map_data, unmap_data}
use net_cas.Request.Submit.{Submission, SubmitEnv, submit_send, submit_cmd, queue_rq, complete_rq}
use net_cas.Original

-- The request with another start time.
abbrev pub started_at : ℕ → Request → Request
started_at t r = record r { start_time = t }

abbrev both_at : ℕ → ℤ × Request → ℤ × Request
both_at t p = (p.0, started_at t p.1)

map_segments-started_at :
    (t : ℕ) (c : MapContext) (e : MapEnv) (rq : Rq) (count : ℕ) (r : Request)
    → map_segments c e rq count (started_at t r) ≡ both_at t (map_segments c e rq count r)
unfolding map_segments
map_segments-started_at t c e rq count r = ground arith

map_data-started_at :
    (t : ℕ) (c : MapContext) (e : MapEnv) (rq : Rq) (r : Request)
    → map_data c e rq (started_at t r) ≡ both_at t (map_data c e rq r)
unfolding map_data map_dma map_segments
map_data-started_at t c e rq r = ground arith

unmap_data-started_at :
    (t : ℕ) (rq : Rq) (r : Request)
    → unmap_data rq (started_at t r) ≡ started_at t (unmap_data rq r)
unfolding unmap_data
unmap_data-started_at t rq r = ground arith

submit_send-started_at :
    (t : ℕ) (s : Submission) (e : SubmitEnv) (r : Request)
    → submit_send s e (started_at t r) ≡ ((submit_send s e r).0, started_at t (submit_send s e r).1)
unfolding submit_send
submit_send-started_at t s e r = ground (arith, unmap_data-started_at t s.rq r)

submit_cmd-started_at :
    (t : ℕ) (s : Submission) (e : SubmitEnv) (r : Request)
    → Original.submit_cmd s e (started_at t r)
      ≡ ((submit_cmd s e r).0, started_at t (submit_cmd s e r).1)
unfolding submit_cmd Original.submit_cmd
submit_cmd-started_at t s e r =
    let begun = record r { started = true; start_time = e.now } in
    ground (
      arith,
      map_data-started_at t s.context e.map s.rq begun,
      submit_send-started_at t s e (map_data s.context e.map s.rq begun).1,
    )

-- nvme_rdma_queue_rq returns what the original returns and does to the request what the original
-- does, but for the start time.
pub queue_rq-started_at :
    (t : ℕ) (s : Submission) (e : SubmitEnv) (r : Request)
    → Original.queue_rq s e (started_at t r)
      ≡ ((queue_rq s e r).0, (queue_rq s e r).1, started_at t (queue_rq s e r).2)
unfolding queue_rq Original.queue_rq
queue_rq-started_at t s e r =
    ground (arith, submit_cmd-started_at t s e (record r { sqe_dma = gain 1 r.sqe_dma }))

pub complete_rq-started_at :
    (t : ℕ) (k : Ktime) (now : ℕ) (rq : Rq) (m : Metrics) (r : Request)
    → Original.complete_rq rq (started_at t r) ≡ started_at t (complete_rq k now rq (m, r)).1
unfolding complete_rq Original.complete_rq
complete_rq-started_at t k now rq m r = ground (arith, unmap_data-started_at t rq r)
