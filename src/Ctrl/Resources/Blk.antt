-- ===== src/Ctrl/Resources/Blk.antt =====
-- The block layer's objects of a controller, when nvme_rdma_delete_ctrl, of
-- shell/nvme-of_setup/nvme-modified/host/rdma.c, tears it down.
use net_cas.Common.{
  ℕ, zero, suc, ◌<◌, ◌+◌, ◌≡◌, refl, ◌∙◌, ap, true, false, if◌then◌else◌, ltb, if_ind, arith,
}
use net_cas.Common.Code.{is_zero, is_pos}
use net_cas.Common.Ledger.{give}
use net_cas.Ring.{free_qe}
use net_cas.Counts.{count_io_queues, set_queue_count}
use net_cas.Ctrl.{Ctrl, Settings, BlkObjects, io_count, each_up, stop_queue_at, free_queue_at}
use net_cas.Ctrl.Admin.{
  destroy_admin_queue, out_free_async_qe, out_free_queue, teardown_admin_queue, has,
}
use net_cas.Ctrl.Io.{
  IoEnv, stop_io_queues, free_io_queues, destroy_io_queues, teardown_io_queues, alloc_io_queues,
  has_tagset,
}
use net_cas.Ctrl.Setup.{shutdown_ctrl, delete_rdma_ctrl}

pub each_up-blk :
    (f : ℕ → Ctrl → Ctrl)
    → ((i : ℕ) (c : Ctrl) → (f i c).blk ≡ c.blk)
    → (n i : ℕ) (c : Ctrl) → (each_up f n i c).blk ≡ c.blk
unfolding each_up
each_up-blk f same zero i c = refl
each_up-blk f same (suc n) i c = each_up-blk f same n (i + 1) (f i c) ∙ same i c

pub stop_queue_at-blk : (i : ℕ) (c : Ctrl) → (stop_queue_at i c).blk ≡ c.blk
unfolding stop_queue_at
stop_queue_at-blk i c = refl

pub free_queue_at-blk : (i : ℕ) (c : Ctrl) → (free_queue_at i c).blk ≡ c.blk
unfolding free_queue_at
free_queue_at-blk i c = refl

abbrev pub without_io : BlkObjects → BlkObjects
without_io b = record b { connect_q = give 1 b.connect_q; tagset = give 1 b.tagset }

abbrev pub without_admin : BlkObjects → BlkObjects
without_admin b = record b {
  admin_q = give 1 b.admin_q;
  fabrics_q = give 1 b.fabrics_q;
  admin_tagset = give 1 b.admin_tagset;
}

pub destroy_io_queues-blk : (c : Ctrl) → (destroy_io_queues true c).blk ≡ without_io c.blk
unfolding destroy_io_queues free_io_queues
destroy_io_queues-blk c =
    let b = c.blk in
    let t = record c {
      blk = record b { connect_q = give 1 b.connect_q; tagset = give 1 b.tagset };
    } in
    each_up-blk free_queue_at free_queue_at-blk (io_count t) 1 t

pub out_free_async_qe-blk : (c : Ctrl) → (out_free_async_qe c).blk ≡ c.blk
unfolding out_free_async_qe out_free_queue
out_free_async_qe-blk c =
    let t = record c { sqe = free_qe c.sqe; async_event = false } in
    if_ind (λ (u : Ctrl). (free_queue_at 0 u).blk ≡ c.blk) c.async_event t c
      (λ set. free_queue_at-blk 0 t) (λ clear. free_queue_at-blk 0 c)

pub destroy_admin_queue-blk : (c : Ctrl) → (destroy_admin_queue true c).blk ≡ without_admin c.blk
unfolding destroy_admin_queue
destroy_admin_queue-blk c = out_free_async_qe-blk (record c { blk = without_admin c.blk })

teardown_admin_queue-blk : (c : Ctrl) → (teardown_admin_queue true c).blk ≡ without_admin c.blk
unfolding teardown_admin_queue
teardown_admin_queue-blk c =
    let t = stop_queue_at 0 (record c { admin_quiesced = true }) in
    let cancelled = if has t.blk.admin_tagset then record t { cancels = t.cancels + 1 } else t in
    let same : cancelled.blk ≡ c.blk =
      if_ind (λ (u : Ctrl). u.blk ≡ c.blk) (has t.blk.admin_tagset)
        (record t { cancels = t.cancels + 1 }) t
        (λ a. stop_queue_at-blk 0 (record c { admin_quiesced = true }))
        (λ b. stop_queue_at-blk 0 (record c { admin_quiesced = true })) in
    destroy_admin_queue-blk (record cancelled { admin_quiesced = false }) ∙ ap without_admin same

teardown_io_queues-blk :
    (c : Ctrl)
    → (teardown_io_queues true c).blk
      ≡ (if ltb 1 c.counts.queue_count then without_io c.blk else c.blk)
unfolding teardown_io_queues stop_io_queues
teardown_io_queues-blk c =
    let quiesced = record c { io_quiesced = true } in
    let t = stop_io_queues quiesced in
    let stopped : t.blk ≡ c.blk =
      each_up-blk stop_queue_at stop_queue_at-blk (io_count quiesced) 1 quiesced in
    let cancelled = if has_tagset t then record t { cancels = t.cancels + 1 } else t in
    let same : cancelled.blk ≡ c.blk =
      if_ind (λ (u : Ctrl). u.blk ≡ c.blk) (has_tagset t) (record t { cancels = t.cancels + 1 }) t
        (λ a. stopped) (λ b. stopped) in
    let down = record cancelled { io_quiesced = false } in
    if_ind (λ (u : Ctrl). u.blk ≡ (if ltb 1 c.counts.queue_count then without_io c.blk else c.blk))
      (ltb 1 c.counts.queue_count) (destroy_io_queues true down) c
      (λ many. rw (many) (destroy_io_queues-blk down ∙ ap without_io same)) (λ few. rw (few) refl)

-- Deleting a controller gives the admin queue's objects back, and the I/O queues' objects exactly
-- when the queue count is above 1.
pub delete_rdma_ctrl-blk :
    (c : Ctrl)
    → (delete_rdma_ctrl c).blk
      ≡ without_admin (if ltb 1 c.counts.queue_count then without_io c.blk else c.blk)
unfolding delete_rdma_ctrl shutdown_ctrl
delete_rdma_ctrl-blk c =
    teardown_admin_queue-blk (record (teardown_io_queues true c) { admin_quiesced = true })
    ∙ ap without_admin (teardown_io_queues-blk c)

-- After a grant of no queue, the queue count is 1 and the block layer's objects are as before.
alloc_io_queues-degraded :
    (o : Settings) (e : IoEnv) (c : Ctrl)
    → is_pos e.granted.status ≡ true
    → (is_zero (alloc_io_queues o e c).0 ≡ true)
      × ((alloc_io_queues o e c).1.counts.queue_count ≡ 1)
      × ((alloc_io_queues o e c).1.blk ≡ c.blk)
unfolding alloc_io_queues count_io_queues set_queue_count
alloc_io_queues-degraded o e c h = ground arith

-- A controller with I/O queues gives the I/O tag set and the connect queue back when it is deleted;
-- but if, before that, nvme_set_queue_count is answered by a positive status, nvme_rdma_alloc_io_queues
-- returns 0 and the deletion gives neither back.
pub delete_rdma_ctrl-alloc_io_queues :
    (o : Settings) (e : IoEnv) (c : Ctrl)
    → 1 < c.counts.queue_count
    → is_pos e.granted.status ≡ true
    → ((delete_rdma_ctrl c).blk.tagset ≡ give 1 c.blk.tagset)
      × ((delete_rdma_ctrl c).blk.connect_q ≡ give 1 c.blk.connect_q)
      × (is_zero (alloc_io_queues o e c).0 ≡ true)
      × ((delete_rdma_ctrl (alloc_io_queues o e c).1).blk.tagset ≡ c.blk.tagset)
      × ((delete_rdma_ctrl (alloc_io_queues o e c).1).blk.connect_q ≡ c.blk.connect_q)
delete_rdma_ctrl-alloc_io_queues o e c many degraded =
    let t = (alloc_io_queues o e c).1 in
    let (ok, one, same) = alloc_io_queues-degraded o e c degraded in
    let k : ltb 1 c.counts.queue_count ≡ true = ground arith in
    let z : ltb 1 t.counts.queue_count ≡ false = rw (one) refl in
    let before : (delete_rdma_ctrl c).blk ≡ without_admin (without_io c.blk) =
      delete_rdma_ctrl-blk c ∙ ap (λ b. without_admin (if b then without_io c.blk else c.blk)) k in
    let after : (delete_rdma_ctrl t).blk ≡ without_admin c.blk =
      delete_rdma_ctrl-blk t
      ∙ ap (λ b. without_admin (if b then without_io t.blk else t.blk)) z
      ∙ ap without_admin same in
    (
      ap (λ b. b.tagset) before,
      ap (λ b. b.connect_q) before,
      ok,
      ap (λ b. b.tagset) after,
      ap (λ b. b.connect_q) after,
    )
