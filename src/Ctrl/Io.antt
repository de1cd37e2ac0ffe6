-- ===== src/Ctrl/Io.antt =====
-- shell/nvme-of_setup/nvme-modified/host/rdma.c: the I/O queues of a controller,
-- nvme_rdma_alloc_io_queues, nvme_rdma_start_io_queues, nvme_rdma_configure_io_queues,
-- nvme_rdma_destroy_io_queues and nvme_rdma_teardown_io_queues.
pub mod Balance
pub mod Connected
use net_cas.Common.{ℕ, zero, suc, ◌+◌, ◌-◌, Bool, true, false, ltb, ◌==◌, if◌then◌else◌}
use net_cas.Common.Code.{ℤ, is_zero, success}
use net_cas.Common.Ledger.{Ledger, gain, give}
use net_cas.Counts.{Granted, QueueCounts, count_io_queues}
use net_cas.Queue.Cm.{AllocEnv}
use net_cas.Ctrl.{
  Ctrl, Settings, BlkObjects, alloc_queue_at, stop_queue_at, free_queue_at, start_queue_at, each_up,
  each_down, io_count,
}

-- What the kernel and the controller answer while the I/O queues are set up.
pub record IoEnv : Type 0 where
  pub num_comp_vectors : ℕ
  pub online : ℕ
  pub granted : Granted
  pub alloc : ℕ → AllocEnv
  pub alloc_tagset : ℤ
  pub init_connect_q : ℤ
  pub connect : ℕ → ℤ

-- The loop of nvme_rdma_alloc_io_queues, with `n` queues to go from `i` on, and where it stopped.
unfoldable pub alloc_loop : Settings → (ℕ → AllocEnv) → ℕ → ℕ → Ctrl → ℤ × ℕ × Ctrl
alloc_loop o e zero i c = (success, i, c)
alloc_loop o e (suc n) i c =
    let (ret, t) = alloc_queue_at o i (c.identified.sqsize + 1) (e i) c in
    let rest = alloc_loop o e n (i + 1) t in if is_zero ret then rest else (ret, i, t)

unfoldable pub alloc_each : Settings → (ℕ → AllocEnv) → Ctrl → ℤ × Ctrl
alloc_each o e c =
    let (ret, i, t) = alloc_loop o e (io_count c) 1 c in
    if is_zero ret then (success, t) else (ret, each_down free_queue_at (i - 1) t)

unfoldable pub alloc_io_queues : Settings → IoEnv → Ctrl → ℤ × Ctrl
alloc_io_queues o e c =
    let (ret, counts) = count_io_queues o.options e.num_comp_vectors e.online e.granted c.counts in
    let t = record c { counts = counts } in
    if is_zero ret
    then if ltb counts.queue_count 2 then (success, t) else alloc_each o e.alloc t
    else (ret, t)

-- The loop of nvme_rdma_start_io_queues.
unfoldable pub start_loop : (ℕ → ℤ) → ℕ → ℕ → Ctrl → ℤ × ℕ × Ctrl
start_loop connect zero i c = (success, i, c)
start_loop connect (suc n) i c =
    let t = start_queue_at i (connect i) c in
    let rest = start_loop connect n (i + 1) t in
    if is_zero (connect i) then rest else (connect i, i, t)

unfoldable pub start_io_queues : (ℕ → ℤ) → Ctrl → ℤ × Ctrl
start_io_queues connect c =
    let (ret, i, t) = start_loop connect (io_count c) 1 c in
    if is_zero ret then (success, t) else (ret, each_down stop_queue_at (i - 1) t)

unfoldable pub free_io_queues : Ctrl → Ctrl
free_io_queues c = each_up free_queue_at (io_count c) 1 c

unfoldable pub stop_io_queues : Ctrl → Ctrl
stop_io_queues c = each_up stop_queue_at (io_count c) 1 c

-- The labels of nvme_rdma_configure_io_queues.
unfoldable pub out_free_tag_set : Bool → Ctrl → Ctrl
out_free_tag_set fresh c =
    free_io_queues
      (if fresh then record c { blk = record (c.blk) { tagset = give 1 c.blk.tagset } } else c)

unfoldable pub out_cleanup_connect_q : Bool → Ctrl → Ctrl
unfolding out_free_tag_set
out_cleanup_connect_q fresh c =
    out_free_tag_set fresh (
      if fresh then record c { blk = record (c.blk) { connect_q = give 1 c.blk.connect_q } } else c)

unfoldable pub start_io : Bool → IoEnv → Ctrl → ℤ × Ctrl
start_io fresh e c =
    let (ret, t) = start_io_queues e.connect c in
    if is_zero ret then (success, t) else (ret, out_cleanup_connect_q fresh t)

unfoldable pub make_io_queues : IoEnv → Ctrl → ℤ × Ctrl
make_io_queues e c =
    let tags = record c { blk = record (c.blk) { tagset = gain 1 c.blk.tagset } } in
    let connected = record tags {
      blk = record (tags.blk) { connect_q = gain 1 tags.blk.connect_q };
    } in
    if is_zero e.alloc_tagset
    then if is_zero e.init_connect_q
      then start_io true e connected
      else (e.init_connect_q, out_free_tag_set true tags)
    else (e.alloc_tagset, free_io_queues c)

-- A controller that is not new only tells the block layer the number of its queues.
unfoldable pub configure_io_queues : Settings → Bool → IoEnv → Ctrl → ℤ × Ctrl
configure_io_queues o fresh e c =
    let (ret, t) = alloc_io_queues o e c in
    if is_zero ret then if fresh then make_io_queues e t else start_io false e t else (ret, t)

unfoldable pub destroy_io_queues : Bool → Ctrl → Ctrl
destroy_io_queues remove c =
    let b = c.blk in
    free_io_queues (
      if remove
      then record c { blk = record b { connect_q = give 1 b.connect_q; tagset = give 1 b.tagset } }
      else c)

-- `tagset` is set once it was made; the test for it is `has_tagset`.
abbrev pub has_tagset : Ctrl → Bool
has_tagset c = if c.blk.tagset.gets == 0 then false else true

unfoldable pub teardown_io_queues : Bool → Ctrl → Ctrl
teardown_io_queues remove c =
    let t = stop_io_queues (record c { io_quiesced = true }) in
    let cancelled = if has_tagset t then record t { cancels = t.cancels + 1 } else t in
    if ltb 1 c.counts.queue_count
    then destroy_io_queues remove
        (if remove then record cancelled { io_quiesced = false } else cancelled)
    else c
