-- ===== src/Command/Pages.antt =====
-- The discard page of a controller and the lists of ranges that are allocated, over any sequence of
-- submissions and completions: nvme_setup_cmd and nvme_cleanup_cmd, of
-- shell/nvme-of_setup/nvme-modified/host/core.c, where nvme_rdma_queue_rq and nvme_rdma_complete_rq, of
-- rdma.c, call them.
pub mod Took
pub mod Invariant
use net_cas.Common.{
  ℕ, zero, suc, ◌+◌, ◌-◌, ◌≤◌, ◌<◌, ◌≡◌, ◌⊎◌, inl, inr, refl, sym, ◌∙◌, ap, Bool, true, false, not,
  ◌&&◌, List, [], ◌∷◌, ◌++◌, if◌then◌else◌, bit, ◌==◌, arith, Bool-cases, if_ind, Option, none,
  some,
}
use mathlib.Core.Bool.{false≢true}
use net_cas.Common.Lists.{All}
use net_cas.Common.Ledger.{Holds, nothing}
use net_cas.Fabrics.{BlkStatus, check_ready}
use net_cas.Metrics.{Metrics, Ktime}
use net_cas.Request.{Rq, Request, map_data, map_dma, map_segments, unmap_data}
use net_cas.Request.Submit.{
  Submission, SubmitEnv, is_ok, err_status, submit_send, submit_cmd, queue_rq, complete_rq,
}
use net_cas.Command.{
  Namespace, Op, op_discard, op_write_zeroes, BlockRq, Payload, no_payload, discard_page, allocated,
  op_read, op_write, op_drv, op_flush, op_other, Memory, RqState, Shared, Setup, clear_nvme_request,
}
use net_cas.Command.Discard.{finish_discard, setup_discard}
use net_cas.Command.Rw.{setup_write_zeroes, setup_rw, assign_write_stream}
use net_cas.Command.Kinds.{setup_op, setup_cmd, cleanup_cmd}
use net_cas.Command.Extents.{is_special}

abbrev pub page_of : Payload → ℕ
page_of (discard_page r) = 1
page_of _ = 0

abbrev pub range_of : Payload → ℕ
range_of (allocated r) = 1
range_of _ = 0

abbrev pub discards : Namespace → Op → Bool
discards ns op_discard = true
discards ns op_write_zeroes = ns.deallocate
discards ns _ = false

-- A request has a payload only of an earlier attempt at a discard.
abbrev pub Stale : Namespace → Op → RqState → Type 0
Stale ns op q = (discards ns op ≡ true) ⊎ (q.payload ≡ no_payload)

-- A request that is with the device, for which nvme_setup_cmd has been called and nvme_cleanup_cmd has
-- not.
pub record Flying : Type 0 where
  pub rq : Rq
  pub req : RqState

pub record World : Type 0 where
  pub flights : List Flying
  pub shared : Shared

-- Calls of nvme_cleanup_cmd for one request.
abbrev pub cleaned : ℕ → RqState → Shared → Shared
cleaned zero q s = s
cleaned (suc n) q s = cleaned n q (cleanup_cmd q s)

-- One submission: of the block layer, of nvme_rdma_queue_rq, and of nvme_setup_cmd.
pub record Dispatch : Type 0 where
  pub ns : Namespace
  pub memory : Memory
  pub block : BlockRq
  pub req : RqState
  pub submission : Submission
  pub env : SubmitEnv
  pub request : Request

abbrev pub launched : Dispatch → Shared → Setup
launched d s = setup_cmd d.ns d.memory d.block d.req s

-- nvme_rdma_queue_rq with the status of nvme_setup_cmd, and as many calls of nvme_cleanup_cmd as it
-- makes.
pub dispatch : Dispatch → World → World
dispatch d w =
    let t = launched d w.shared in
    let (status, ended, r) =
      queue_rq d.submission (record (d.env) { setup_cmd = t.status }) d.request in
    let after = cleaned (r.cleanups - d.request.cleanups) t.req t.shared in
    if check_ready d.submission.ctrl_state d.submission.flags d.submission.queue_live
      && d.env.dma_mapped
    then if is_ok status
      then record {
        flights = record { rq = d.submission.rq; req = t.req } ∷ w.flights;
        shared = after;
      }
      else record { flights = w.flights; shared = after }
    else w

-- nvme_rdma_complete_rq of one of the requests.
pub retire : Ktime → ℕ → Metrics → Request → Flying → Shared → Shared
retire k now m r f s = cleaned ((complete_rq k now f.rq (m, r)).1.cleanups - r.cleanups) f.req s

-- blk_rq_nr_phys_segments counts a payload as a segment.
abbrev pub Segmented : Rq → RqState → Type 0
Segmented rq q = is_special q.payload ≡ true → 0 < rq.phys_segments

pub data Step : World → World → Type 0 where
  submit :
      {w : World} (d : Dispatch)
      → Stale d.ns d.block.op d.req
      → Segmented d.submission.rq (launched d w.shared).req
      → Step w (dispatch d w)
  complete :
      (before after : List Flying) {s : Shared} (f : Flying) (k : Ktime) (now : ℕ) (m : Metrics)
      (r : Request)
      → Step
          (record { flights = before ++ (f ∷ after); shared = s })
          (record { flights = before ++ after; shared = retire k now m r f s })

pub data Reach (w : World) : World → Type 0 where
  here : Reach w w
  next : {t u : World} → Reach w t → Step t u → Reach w u

abbrev pub pages : List Flying → ℕ
pages [] = 0
pages (f ∷ flights) = page_of f.req.payload + pages flights

abbrev pub ranges : List Flying → ℕ
ranges [] = 0
ranges (f ∷ flights) = range_of f.req.payload + ranges flights

-- The page is busy exactly while one request uses it, and every list of ranges that is held is in use.
pub record IsPaged (w : World) : Type 0 where
  pub page : pages w.flights ≡ bit w.shared.page_busy
  pub held : Holds (ranges w.flights) w.shared.ranges
  pub segmented : All (λ (f : Flying). Segmented f.rq f.req) w.flights
