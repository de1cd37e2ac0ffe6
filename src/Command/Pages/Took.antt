-- ===== src/Command/Pages/Took.antt =====
-- What nvme_setup_cmd takes for a request and nvme_cleanup_cmd gives back, of
-- shell/nvme-of_setup/nvme-modified/host/core.c, and how often nvme_rdma_queue_rq and
-- nvme_rdma_complete_rq, of rdma.c, call nvme_cleanup_cmd.
use net_cas.Common.{
  ℕ, zero, suc, ◌+◌, ◌≤◌, ◌<◌, ◌≡◌, ◌⊎◌, inl, inr, refl, sym, ◌∙◌, Bool, true, false, if◌then◌else◌,
  bit, ◌==◌, arith, if_ind,
}
use mathlib.Core.Bool.{false≢true}
use net_cas.Fabrics.{check_ready}
use net_cas.Metrics.{Metrics, Ktime}
use net_cas.Request.{Rq, Request, map_data, map_dma, map_segments, unmap_data}
use net_cas.Request.Submit.{
  Submission, SubmitEnv, is_ok, err_status, submit_send, submit_cmd, queue_rq, complete_rq,
}
use net_cas.Command.{
  Namespace, Op, op_discard, op_write_zeroes, BlockRq, no_payload, op_read, op_write, op_drv,
  op_flush, op_other, Memory, RqState, Shared, Setup, clear_nvme_request,
}
use net_cas.Command.Discard.{finish_discard, setup_discard}
use net_cas.Command.Rw.{setup_write_zeroes, setup_rw, assign_write_stream}
use net_cas.Command.Kinds.{setup_op, setup_cmd, cleanup_cmd}
use net_cas.Command.Extents.{is_special}
use net_cas.Command.Pages.{page_of, range_of, discards, Stale, cleaned}

-- What a setup took: on success what its payload is, else nothing.
pub record Took (q : RqState) (s : Shared) (t : Setup) : Type 0 where
  pub taken :
      is_ok t.status ≡ true
      → (bit t.shared.page_busy ≡ bit s.page_busy + page_of t.req.payload)
        × (t.shared.ranges.gets + s.ranges.puts
            ≡ s.ranges.gets + t.shared.ranges.puts + range_of t.req.payload)
  pub left :
      is_ok t.status ≡ false
      → (bit t.shared.page_busy ≡ bit s.page_busy)
        × (t.shared.ranges.gets + s.ranges.puts ≡ s.ranges.gets + t.shared.ranges.puts)

setup_discard-Took :
    (ns : Namespace) (m : Memory) (b : BlockRq) (q : RqState) (s : Shared)
    → Took q s (setup_discard ns m b q s)
unfolding setup_discard finish_discard
setup_discard-Took ns m b q s = ground arith

setup_rw-Took :
    (ns : Namespace) (b : BlockRq) (write : Bool) (q : RqState) (s : Shared)
    → q.payload ≡ no_payload
    → Took q s (setup_rw ns b write q s)
unfolding setup_rw assign_write_stream
setup_rw-Took ns b write q s h = ground arith

plain-Took :
    (q : RqState) (s : Shared) (t : Setup)
    → q.payload ≡ no_payload
    → t.req ≡ q
    → t.shared ≡ s
    → Took q s t
plain-Took q s t h same kept =
    rw (same, kept, h)
      (record { taken = λ ok. (omega arith, omega arith); left = λ bad. (refl, refl) })

clean :
    (ns : Namespace) (op : Op) (q : RqState)
    → discards ns op ≡ false
    → Stale ns op q
    → q.payload ≡ no_payload
clean ns op q plain h = elim h [
  | inl does ↦ absurd (false≢true (sym plain ∙ does))
  | inr empty ↦ empty
]

setup_op-Took :
    (op : Op) (ns : Namespace) (m : Memory) (b : BlockRq) (q : RqState) (s : Shared)
    → Stale ns op q
    → Took q s (setup_op op ns m b q s)
unfolding setup_op setup_write_zeroes
setup_op-Took op_discard ns m b q s h = setup_discard-Took ns m b q s
setup_op-Took op_write_zeroes ns m b q s h =
    if_ind (Took q s) ns.deallocate _ _ (λ does. setup_discard-Took ns m b q s)
      (λ plain. plain-Took q s _ (clean ns op_write_zeroes q plain h) refl refl)
setup_op-Took op_read ns m b q s h = setup_rw-Took ns b false q s (clean ns op_read q refl h)
setup_op-Took op_write ns m b q s h = setup_rw-Took ns b true q s (clean ns op_write q refl h)
setup_op-Took op_drv ns m b q s h = plain-Took q s _ (clean ns op_drv q refl h) refl refl
setup_op-Took op_flush ns m b q s h = plain-Took q s _ (clean ns op_flush q refl h) refl refl
setup_op-Took op_other ns m b q s h = plain-Took q s _ (clean ns op_other q refl h) refl refl

pub setup_cmd-Took :
    (ns : Namespace) (m : Memory) (b : BlockRq) (q : RqState) (s : Shared)
    → Stale ns b.op q
    → Took q s (setup_cmd ns m b q s)
unfolding setup_cmd clear_nvme_request
setup_cmd-Took ns m b q s h =
    let t = clear_nvme_request q in
    let same : t.payload ≡ q.payload = ground arith in
    let took : Took t s (setup_op b.op ns m b t s) =
      setup_op-Took b.op ns m b t s
        (elim h [ inl does ↦ inl does | inr empty ↦ inr (same ∙ empty) ]) in
    record { taken = took.taken; left = took.left }

-- How often a submission that was tried calls nvme_cleanup_cmd.
pub queue_rq-cleanups :
    (s : Submission) (e : SubmitEnv) (r : Request)
    → check_ready s.ctrl_state s.flags s.queue_live ≡ true
    → e.dma_mapped ≡ true
    → ((is_ok (queue_rq s e r).0 ≡ true)
        × (is_ok e.setup_cmd ≡ true)
        × ((queue_rq s e r).2.cleanups ≡ r.cleanups))
      ⊎ ((is_ok (queue_rq s e r).0 ≡ false)
          × (((is_ok e.setup_cmd ≡ false) × ((queue_rq s e r).2.cleanups ≡ r.cleanups))
              ⊎ ((is_ok e.setup_cmd ≡ true)
                  × (0 < s.rq.phys_segments → (queue_rq s e r).2.cleanups ≡ r.cleanups + 1)
                  × ((queue_rq s e r).2.cleanups ≤ r.cleanups + 1)
                  × (r.cleanups ≤ (queue_rq s e r).2.cleanups))))
unfolding queue_rq submit_cmd submit_send err_status map_data map_dma map_segments unmap_data
queue_rq-cleanups s e r ready mapped = ground arith

pub complete_rq-cleanups :
    (k : Ktime) (now : ℕ) (rq : Rq) (m : Metrics) (r : Request)
    → (complete_rq k now rq (m, r)).1.cleanups
      ≡ r.cleanups + (if rq.phys_segments == 0 then 0 else 1)
unfolding complete_rq unmap_data
complete_rq-cleanups k now rq m r = ground arith

cleanup_cmd-released :
    (q : RqState) (s : Shared)
    → page_of q.payload ≤ bit s.page_busy
    → (bit (cleanup_cmd q s).page_busy + page_of q.payload ≡ bit s.page_busy)
      × ((cleanup_cmd q s).ranges.gets ≡ s.ranges.gets)
      × ((cleanup_cmd q s).ranges.puts ≡ s.ranges.puts + range_of q.payload)
unfolding cleanup_cmd
cleanup_cmd-released q s h = ground arith

pub cleaned_once-released :
    (n : ℕ) (q : RqState) (s : Shared)
    → (is_special q.payload ≡ true → n ≡ 1)
    → n ≤ 1
    → page_of q.payload ≤ bit s.page_busy
    → (bit (cleaned n q s).page_busy + page_of q.payload ≡ bit s.page_busy)
      × ((cleaned n q s).ranges.gets ≡ s.ranges.gets)
      × ((cleaned n q s).ranges.puts ≡ s.ranges.puts + range_of q.payload)
unfolding cleanup_cmd
cleaned_once-released zero q s once few h = ground arith
cleaned_once-released (suc zero) q s once few h = cleanup_cmd-released q s h
cleaned_once-released (suc (suc n)) q s once few h = absurd (omega arith)
