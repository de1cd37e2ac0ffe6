-- ===== src/Ctrl/Admin.antt =====
-- shell/nvme-of_setup/nvme-modified/host/rdma.c: the admin queue of a controller,
-- nvme_rdma_configure_admin_queue, nvme_rdma_destroy_admin_queue and nvme_rdma_teardown_admin_queue.
use net_cas.Common.{ℕ, ◌+◌, ◌*◌, Bool, true, false, ◌==◌, if◌then◌else◌}
use net_cas.Common.Code.{ℤ, is_zero, success}
use net_cas.Common.Ledger.{Ledger, gain, give}
use net_cas.Ring.{QeEnv, alloc_qe, free_qe}
use net_cas.Queue.{get_max_fr_pages}
use net_cas.Queue.Cm.{AllocEnv}
use net_cas.Ctrl.{
  Ctrl, Settings, Identified, alloc_queue_at, stop_queue_at, free_queue_at, start_queue_at,
}

-- What the kernel and the controller answer while the admin queue is set up; `aq_depth` is
-- NVME_AQ_DEPTH.
pub record AdminEnv : Type 0 where
  pub aq_depth : ℕ
  pub alloc : AllocEnv
  pub max_fast_reg_page_list_len : ℕ
  pub async_qe : QeEnv
  pub alloc_tagset : ℤ
  pub init_fabrics_q : ℤ
  pub init_admin_q : ℤ
  pub connect : ℤ
  pub enable_ctrl : ℤ
  pub init_identify : ℤ
  pub identified : Identified

-- The labels of nvme_rdma_configure_admin_queue, each falling through to those below it.
unfoldable pub out_free_queue : Ctrl → Ctrl
out_free_queue c = free_queue_at 0 c

unfoldable pub out_free_async_qe : Ctrl → Ctrl
unfolding out_free_queue
out_free_async_qe c =
    out_free_queue
      (if c.async_event then record c { sqe = free_qe c.sqe; async_event = false } else c)

unfoldable pub out_free_tagset : Bool → Ctrl → Ctrl
unfolding out_free_async_qe
out_free_tagset fresh c = out_free_async_qe (
    if fresh
    then record c { blk = record (c.blk) { admin_tagset = give 1 c.blk.admin_tagset } }
    else c)

unfoldable pub out_cleanup_fabrics_q : Bool → Ctrl → Ctrl
unfolding out_free_tagset
out_cleanup_fabrics_q fresh c =
    out_free_tagset fresh (
      if fresh then record c { blk = record (c.blk) { fabrics_q = give 1 c.blk.fabrics_q } } else c)

unfoldable pub out_cleanup_queue : Bool → Ctrl → Ctrl
unfolding out_cleanup_fabrics_q
out_cleanup_queue fresh c =
    out_cleanup_fabrics_q fresh
      (if fresh then record c { blk = record (c.blk) { admin_q = give 1 c.blk.admin_q } } else c)

unfoldable pub out_stop_queue : Bool → Ctrl → Ctrl
unfolding out_cleanup_queue
out_stop_queue fresh c = out_cleanup_queue fresh (stop_queue_at 0 c)

-- `max_fr_pages << (ilog2(SZ_4K) - 9)`
abbrev pub hw_sectors : ℕ → ℕ
hw_sectors pages = pages * 8

-- From nvme_rdma_start_queue on.
unfoldable pub start_admin : Bool → AdminEnv → Ctrl → ℤ × Ctrl
unfolding out_stop_queue
start_admin fresh e c =
    let t = start_queue_at 0 e.connect c in
    let enabled = record t {
      max_segments = t.max_fr_pages;
      max_hw_sectors = hw_sectors t.max_fr_pages;
      admin_quiesced = false;
    } in
    if is_zero e.connect
    then if is_zero e.enable_ctrl
      then if is_zero e.init_identify
        then (success, record enabled { identified = e.identified })
        else (e.init_identify, out_stop_queue fresh enabled)
      else (e.enable_ctrl, out_stop_queue fresh t)
    else (e.connect, out_cleanup_queue fresh t)

-- The tag set and the two request queues, made for a new controller only.
unfoldable pub make_admin_queues : AdminEnv → Ctrl → ℤ × Ctrl
unfolding out_cleanup_fabrics_q
make_admin_queues e c =
    let tags = record c { blk = record (c.blk) { admin_tagset = gain 1 c.blk.admin_tagset } } in
    let fabrics = record tags {
      blk = record (tags.blk) { fabrics_q = gain 1 tags.blk.fabrics_q };
    } in
    let admin = record fabrics {
      blk = record (fabrics.blk) { admin_q = gain 1 fabrics.blk.admin_q };
    } in
    if is_zero e.alloc_tagset
    then if is_zero e.init_fabrics_q
      then if is_zero e.init_admin_q
        then start_admin true e admin
        else (e.init_admin_q, out_cleanup_fabrics_q true fabrics)
      else (e.init_fabrics_q, out_free_tagset true tags)
    else (e.alloc_tagset, out_free_async_qe c)

-- From the allocation of the asynchronous event's entry on.
unfoldable pub make_async_event : Bool → AdminEnv → Ctrl → ℤ × Ctrl
make_async_event fresh e c =
    let (ret, m) = alloc_qe e.async_qe c.sqe in
    let t = record c { sqe = m; async_event = is_zero ret } in
    if is_zero ret
    then if fresh then make_admin_queues e t else start_admin false e t
    else (ret, out_free_queue t)

unfoldable pub configure_admin_queue : Settings → Bool → AdminEnv → Ctrl → ℤ × Ctrl
configure_admin_queue o fresh e c =
    let (ret, t) = alloc_queue_at o 0 e.aq_depth e.alloc c in
    let u = record t {
      device = (t.queues 0).device;
      max_fr_pages = get_max_fr_pages e.max_fast_reg_page_list_len;
    } in
    if is_zero ret then make_async_event fresh e u else (ret, t)

unfoldable pub destroy_admin_queue : Bool → Ctrl → Ctrl
unfolding out_free_async_qe
destroy_admin_queue remove c =
    let b = c.blk in
    out_free_async_qe (
      if remove
      then record c {
        blk = record b {
          admin_q = give 1 b.admin_q;
          fabrics_q = give 1 b.fabrics_q;
          admin_tagset = give 1 b.admin_tagset;
        };
      }
      else c)

-- `if (ctrl->ctrl.admin_tagset)` holds once the tag set was made.
abbrev pub has : Ledger → Bool
has l = if l.gets == 0 then false else true

unfoldable pub teardown_admin_queue : Bool → Ctrl → Ctrl
teardown_admin_queue remove c =
    let t = stop_queue_at 0 (record c { admin_quiesced = true }) in
    let cancelled = if has t.blk.admin_tagset then record t { cancels = t.cancels + 1 } else t in
    destroy_admin_queue remove
      (if remove then record cancelled { admin_quiesced = false } else cancelled)
