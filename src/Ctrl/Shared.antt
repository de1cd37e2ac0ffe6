-- ===== src/Ctrl/Shared.antt =====
-- shell/nvme-of_setup/nvme-modified/host/rdma.c: the part of a controller that the NVMe core shares
-- with the driver, while the driver sets the admin queue up. Only the recovery from an error, which
-- an event of a connection can start, changes it.
pub mod Io
pub mod Setup
use net_cas.Common.{
  ℕ, ◌+◌, ◌≡◌, refl, Bool, true, false, List, [], ◌∷◌, Option, if◌then◌else◌, ◌==◌, if_ind,
  Bool-cases, inl, inr,
}
use net_cas.Common.Code.{ℤ, is_zero, success}
use net_cas.Common.Ledger.{gain, give}
use net_cas.CtrlState.{NvmeCtrl, error_recovery}
use net_cas.Counts.{IoQueues}
use net_cas.Ring.{alloc_qe, free_qe}
use net_cas.Queue.{get_max_fr_pages}
use net_cas.Queue.Cm.{
  CmEvent, CmEnv, CmState, AllocEnv, addr_resolved, route_resolved, established, rejected,
  route_error, connect_error, unreachable, addr_error, disconnected, addr_change, timewait_exit,
  device_removal, other, recover, cm_handler, handle_events, finish_alloc, wait_for_cm,
  out_destroy_cm_id, init_queue, alloc_queue,
}
use net_cas.Ctrl.{
  Ctrl, Settings, link_at, alloc_queue_at, stop_queue_at, free_queue_at, start_queue_at,
}
use net_cas.Ctrl.Admin.{
  AdminEnv, out_free_queue, out_free_async_qe, out_free_tagset, out_cleanup_fabrics_q,
  out_cleanup_queue, out_stop_queue, start_admin, make_admin_queues, make_async_event,
  configure_admin_queue, destroy_admin_queue, teardown_admin_queue, hw_sectors, has,
}

module _ (P : NvmeCtrl → Type 0) where
  -- What holds of the shared part of a controller.
  abbrev pub Shared : Ctrl → Type 0
  Shared c = P c.nvme

  pub free_queue_at-Shared : (i : ℕ) (c : Ctrl) → Shared c → Shared (free_queue_at i c)
  unfolding free_queue_at
  free_queue_at-Shared i c h = h

  pub stop_queue_at-Shared : (i : ℕ) (c : Ctrl) → Shared c → Shared (stop_queue_at i c)
  unfolding stop_queue_at
  stop_queue_at-Shared i c h = h

  pub start_queue_at-Shared :
      (i : ℕ) (ret : ℤ) (c : Ctrl) → Shared c → Shared (start_queue_at i ret c)
  unfolding start_queue_at
  start_queue_at-Shared i ret c h = h

  out_free_async_qe-Shared : (c : Ctrl) → Shared c → Shared (out_free_async_qe c)
  unfolding out_free_async_qe out_free_queue
  out_free_async_qe-Shared c h =
      if_ind (λ (u : Ctrl). Shared (free_queue_at 0 u)) c.async_event
        (record c { sqe = free_qe c.sqe; async_event = false }) c
        (λ set. free_queue_at-Shared 0 (record c { sqe = free_qe c.sqe; async_event = false }) h)
        (λ clear. free_queue_at-Shared 0 c h)

  out_free_tagset-Shared : (fresh : Bool) (c : Ctrl) → Shared c → Shared (out_free_tagset fresh c)
  unfolding out_free_tagset
  out_free_tagset-Shared true c h =
      out_free_async_qe-Shared
        (record c { blk = record (c.blk) { admin_tagset = give 1 c.blk.admin_tagset } }) h
  out_free_tagset-Shared false c h = out_free_async_qe-Shared c h

  out_cleanup_fabrics_q-Shared :
      (fresh : Bool) (c : Ctrl) → Shared c → Shared (out_cleanup_fabrics_q fresh c)
  unfolding out_cleanup_fabrics_q
  out_cleanup_fabrics_q-Shared true c h =
      out_free_tagset-Shared true
        (record c { blk = record (c.blk) { fabrics_q = give 1 c.blk.fabrics_q } }) h
  out_cleanup_fabrics_q-Shared false c h = out_free_tagset-Shared false c h

  out_cleanup_queue-Shared :
      (fresh : Bool) (c : Ctrl) → Shared c → Shared (out_cleanup_queue fresh c)
  unfolding out_cleanup_queue
  out_cleanup_queue-Shared true c h =
      out_cleanup_fabrics_q-Shared true
        (record c { blk = record (c.blk) { admin_q = give 1 c.blk.admin_q } }) h
  out_cleanup_queue-Shared false c h = out_cleanup_fabrics_q-Shared false c h

  out_stop_queue-Shared : (fresh : Bool) (c : Ctrl) → Shared c → Shared (out_stop_queue fresh c)
  unfolding out_stop_queue
  out_stop_queue-Shared fresh c h =
      out_cleanup_queue-Shared fresh (stop_queue_at 0 c) (stop_queue_at-Shared 0 c h)

  pub destroy_admin_queue-Shared :
      (remove : Bool) (c : Ctrl) → Shared c → Shared (destroy_admin_queue remove c)
  unfolding destroy_admin_queue
  destroy_admin_queue-Shared true c h =
      let b = c.blk in
      out_free_async_qe-Shared
        (record c {
          blk = record b {
            admin_q = give 1 b.admin_q;
            fabrics_q = give 1 b.fabrics_q;
            admin_tagset = give 1 b.admin_tagset;
          };
        })
        h
  destroy_admin_queue-Shared false c h = out_free_async_qe-Shared c h

  pub teardown_admin_queue-Shared :
      (remove : Bool) (c : Ctrl) → Shared c → Shared (teardown_admin_queue remove c)
  unfolding teardown_admin_queue
  teardown_admin_queue-Shared remove c h =
      let t = stop_queue_at 0 (record c { admin_quiesced = true }) in
      let cancelled = if has t.blk.admin_tagset then record t { cancels = t.cancels + 1 } else t in
      let s = stop_queue_at-Shared 0 (record c { admin_quiesced = true }) h in
      let k =
        if_ind Shared (has t.blk.admin_tagset) (record t { cancels = t.cancels + 1 }) t (λ a. s)
          (λ b. s) in
      if_ind (λ (u : Ctrl). Shared (destroy_admin_queue remove u)) remove
        (record cancelled { admin_quiesced = false }) cancelled
        (λ a. destroy_admin_queue-Shared remove (record cancelled { admin_quiesced = false }) k)
        (λ b. destroy_admin_queue-Shared remove cancelled k)

  start_admin-Shared :
      (fresh : Bool) (e : AdminEnv) (c : Ctrl) → Shared c → Shared (start_admin fresh e c).1
  unfolding start_admin
  start_admin-Shared fresh e c h =
      let t = start_queue_at 0 e.connect c in
      let s = start_queue_at-Shared 0 e.connect c h in
      let enabled = record t {
        max_segments = t.max_fr_pages;
        max_hw_sectors = hw_sectors t.max_fr_pages;
        admin_quiesced = false;
      } in
      elim (Bool-cases (is_zero e.connect)) [
        | inr bad ↦ rw (bad) (out_cleanup_queue-Shared fresh t s)
        | inl up ↦ rw (up) (elim (Bool-cases (is_zero e.enable_ctrl)) [
          | inr bad ↦ rw (bad) (out_stop_queue-Shared fresh t s)
          | inl ready ↦ rw (ready) (elim (Bool-cases (is_zero e.init_identify)) [
            | inl ok ↦ rw (ok) s
            | inr bad ↦ rw (bad) (out_stop_queue-Shared fresh enabled s)
          ])
        ])
      ]

  make_admin_queues-Shared : (e : AdminEnv) (c : Ctrl) → Shared c → Shared (make_admin_queues e c).1
  unfolding make_admin_queues
  make_admin_queues-Shared e c h =
      let tags = record c { blk = record (c.blk) { admin_tagset = gain 1 c.blk.admin_tagset } } in
      let fabrics = record tags {
        blk = record (tags.blk) { fabrics_q = gain 1 tags.blk.fabrics_q };
      } in
      let admin = record fabrics {
        blk = record (fabrics.blk) { admin_q = gain 1 fabrics.blk.admin_q };
      } in
      elim (Bool-cases (is_zero e.alloc_tagset)) [
        | inr bad ↦ rw (bad) (out_free_async_qe-Shared c h)
        | inl a ↦ rw (a) (elim (Bool-cases (is_zero e.init_fabrics_q)) [
          | inr bad ↦ rw (bad) (out_free_tagset-Shared true tags h)
          | inl b ↦ rw (b) (elim (Bool-cases (is_zero e.init_admin_q)) [
            | inr bad ↦ rw (bad) (out_cleanup_fabrics_q-Shared true fabrics h)
            | inl d ↦ rw (d) (start_admin-Shared true e admin h)
          ])
        ])
      ]

  make_async_event-Shared :
      (fresh : Bool) (e : AdminEnv) (c : Ctrl) → Shared c → Shared (make_async_event fresh e c).1
  unfolding make_async_event out_free_queue
  make_async_event-Shared fresh e c h =
      let (ret, m) = alloc_qe e.async_qe c.sqe in
      let t = record c { sqe = m; async_event = is_zero ret } in
      if_ind (λ (r : ℤ × Ctrl). Shared r.1) (is_zero ret)
        (if fresh then make_admin_queues e t else start_admin false e t) (ret, out_free_queue t)
        (λ ok.
          if_ind (λ (r : ℤ × Ctrl). Shared r.1) fresh (make_admin_queues e t)
            (start_admin false e t) (λ new. make_admin_queues-Shared e t h)
            (λ old. start_admin-Shared false e t h))
        (λ bad. free_queue_at-Shared 0 t h)

  module _ (recovers : (n : NvmeCtrl) → P n → P (error_recovery n)) where
    cm_handler-Shared :
        (a : Bool) (io : IoQueues) (idx : ℕ) (ev : CmEvent) (e : CmEnv) (s : CmState)
        → P s.ctrl
        → P (cm_handler a io idx ev e s).ctrl
    unfolding cm_handler recover
    cm_handler-Shared a io idx addr_resolved e s h = h
    cm_handler-Shared a io idx route_resolved e s h = h
    cm_handler-Shared a io idx established e s h = h
    cm_handler-Shared a io idx rejected e s h = h
    cm_handler-Shared a io idx route_error e s h = h
    cm_handler-Shared a io idx connect_error e s h = h
    cm_handler-Shared a io idx unreachable e s h = h
    cm_handler-Shared a io idx addr_error e s h = h
    cm_handler-Shared a io idx disconnected e s h = recovers s.ctrl h
    cm_handler-Shared a io idx addr_change e s h = recovers s.ctrl h
    cm_handler-Shared a io idx timewait_exit e s h = recovers s.ctrl h
    cm_handler-Shared a io idx device_removal e s h = h
    cm_handler-Shared a io idx other e s h = recovers s.ctrl h

    handle_events-Shared :
        (a : Bool) (io : IoQueues) (idx : ℕ) (es : List (CmEvent × CmEnv)) (s : CmState)
        → P s.ctrl
        → P (handle_events a io idx es s).ctrl
    unfolding handle_events
    handle_events-Shared a io idx [] s h = h
    handle_events-Shared a io idx ((ev, e) ∷ es) s h =
        handle_events-Shared a io idx es (cm_handler a io idx ev e s)
          (cm_handler-Shared a io idx ev e s h)

    finish_alloc-Shared :
        (interrupted : Option ℕ) (s : CmState) → P s.ctrl → P (finish_alloc interrupted s).1.ctrl
    unfolding finish_alloc out_destroy_cm_id
    finish_alloc-Shared interrupted s h =
        let ret = wait_for_cm interrupted s.link.queue in
        if_ind (λ (r : ℤ × CmState). P r.1.ctrl) (is_zero ret)
          (
            success,
            record s {
              link = record (s.link) { queue = record (s.link.queue) { allocated = true } };
            },
          )
          (ret, out_destroy_cm_id s) (λ ok. h) (λ bad. h)

    alloc_queue-Shared :
        (a : Bool) (io : IoQueues) (ioccsz idx size : ℕ) (e : AllocEnv) (s : CmState)
        → P s.ctrl
        → P (alloc_queue a io ioccsz idx size e s).1.ctrl
    unfolding alloc_queue out_destroy_cm_id
    alloc_queue-Shared a io ioccsz idx size e s h = elim (Bool-cases (is_zero e.create_id)) [
      | inr bad ↦ rw (bad) h
      | inl made ↦ rw (made) (elim (Bool-cases (is_zero e.resolve_addr)) [
        | inr bad ↦ rw (bad) h
        | inl asked ↦
            rw (asked)
              (finish_alloc-Shared e.interrupted _ (handle_events-Shared a io idx e.events _ h))
      ])
    ]

    pub alloc_queue_at-Shared :
        (o : Settings) (i n : ℕ) (e : AllocEnv) (c : Ctrl)
        → Shared c
        → Shared (alloc_queue_at o i n e c).1
    unfolding alloc_queue_at
    alloc_queue_at-Shared o i n e c h =
        alloc_queue-Shared o.register_always c.counts.io_queues c.identified.ioccsz i n e
          (link_at c i) h

    -- Setting the admin queue up keeps what the recovery keeps.
    pub configure_admin_queue-Shared :
        (o : Settings) (fresh : Bool) (e : AdminEnv) (c : Ctrl)
        → Shared c
        → Shared (configure_admin_queue o fresh e c).1
    unfolding configure_admin_queue
    configure_admin_queue-Shared o fresh e c h =
        let (ret, t) = alloc_queue_at o 0 e.aq_depth e.alloc c in
        let u = record t {
          device = (t.queues 0).device;
          max_fr_pages = get_max_fr_pages e.max_fast_reg_page_list_len;
        } in
        let s = alloc_queue_at-Shared o 0 e.aq_depth e.alloc c h in
        if_ind (λ (r : ℤ × Ctrl). Shared r.1) (is_zero ret) (make_async_event fresh e u) (ret, t)
          (λ ok. make_async_event-Shared fresh e u s) (λ bad. s)
