-- ===== src/Ctrl/Shared/Io.antt =====
-- shell/nvme-of_setup/nvme-modified/host/rdma.c: the part of a controller that the NVMe core shares
-- with the driver, while the I/O queues are set up and torn down.
use net_cas.Common.{
  ℕ, zero, suc, ◌+◌, ◌-◌, Bool, true, false, if◌then◌else◌, ltb, if_ind, inl, inr, Bool-cases,
}
use net_cas.Common.Code.{ℤ, is_zero, success}
use net_cas.Common.Ledger.{gain, give}
use net_cas.Counts.{count_io_queues}
use net_cas.CtrlState.{NvmeCtrl, error_recovery}
use net_cas.Queue.Cm.{AllocEnv}
use net_cas.Ctrl.{
  Ctrl, Settings, alloc_queue_at, stop_queue_at, free_queue_at, start_queue_at, each_up, each_down,
  io_count,
}
use net_cas.Ctrl.Io.{
  IoEnv, alloc_loop, alloc_each, alloc_io_queues, start_loop, start_io_queues, free_io_queues,
  stop_io_queues, out_free_tag_set, out_cleanup_connect_q, start_io, make_io_queues,
  configure_io_queues, destroy_io_queues, teardown_io_queues, has_tagset,
}
use net_cas.Ctrl.Setup.{shutdown_ctrl}
use net_cas.Ctrl.Shared.{
  Shared, free_queue_at-Shared, stop_queue_at-Shared, start_queue_at-Shared,
  teardown_admin_queue-Shared, alloc_queue_at-Shared,
}

module _ (P : NvmeCtrl → Type 0) where
  each_up-Shared :
      (f : ℕ → Ctrl → Ctrl)
      → ((i : ℕ) (c : Ctrl) → Shared P c → Shared P (f i c))
      → (n i : ℕ) (c : Ctrl) → Shared P c
      → Shared P (each_up f n i c)
  unfolding each_up
  each_up-Shared f keep zero i c h = h
  each_up-Shared f keep (suc n) i c h = each_up-Shared f keep n (i + 1) (f i c) (keep i c h)

  each_down-Shared :
      (f : ℕ → Ctrl → Ctrl)
      → ((i : ℕ) (c : Ctrl) → Shared P c → Shared P (f i c))
      → (k : ℕ) (c : Ctrl) → Shared P c
      → Shared P (each_down f k c)
  unfolding each_down
  each_down-Shared f keep zero c h = h
  each_down-Shared f keep (suc k) c h = each_down-Shared f keep k (f (suc k) c) (keep (suc k) c h)

  start_loop-Shared :
      (connect : ℕ → ℤ) (n i : ℕ) (c : Ctrl) → Shared P c → Shared P (start_loop connect n i c).2
  unfolding start_loop
  start_loop-Shared connect zero i c h = h
  start_loop-Shared connect (suc n) i c h =
      let t = start_queue_at i (connect i) c in
      let s = start_queue_at-Shared P i (connect i) c h in
      if_ind (λ (r : ℤ × ℕ × Ctrl). Shared P r.2) (is_zero (connect i))
        (start_loop connect n (i + 1) t) (connect i, i, t)
        (λ ok. start_loop-Shared connect n (i + 1) t s) (λ bad. s)

  start_io_queues-Shared :
      (connect : ℕ → ℤ) (c : Ctrl) → Shared P c → Shared P (start_io_queues connect c).1
  unfolding start_io_queues
  start_io_queues-Shared connect c h =
      let (ret, i, t) = start_loop connect (io_count c) 1 c in
      let s = start_loop-Shared connect (io_count c) 1 c h in
      if_ind (λ (r : ℤ × Ctrl). Shared P r.1) (is_zero ret) (success, t)
        (ret, each_down stop_queue_at (i - 1) t) (λ ok. s)
        (λ bad. each_down-Shared stop_queue_at (stop_queue_at-Shared P) (i - 1) t s)

  free_io_queues-Shared : (c : Ctrl) → Shared P c → Shared P (free_io_queues c)
  unfolding free_io_queues
  free_io_queues-Shared c h =
      each_up-Shared free_queue_at (free_queue_at-Shared P) (io_count c) 1 c h

  stop_io_queues-Shared : (c : Ctrl) → Shared P c → Shared P (stop_io_queues c)
  unfolding stop_io_queues
  stop_io_queues-Shared c h =
      each_up-Shared stop_queue_at (stop_queue_at-Shared P) (io_count c) 1 c h

  out_free_tag_set-Shared :
      (fresh : Bool) (c : Ctrl) → Shared P c → Shared P (out_free_tag_set fresh c)
  unfolding out_free_tag_set
  out_free_tag_set-Shared true c h =
      free_io_queues-Shared (record c { blk = record (c.blk) { tagset = give 1 c.blk.tagset } }) h
  out_free_tag_set-Shared false c h = free_io_queues-Shared c h

  out_cleanup_connect_q-Shared :
      (fresh : Bool) (c : Ctrl) → Shared P c → Shared P (out_cleanup_connect_q fresh c)
  unfolding out_cleanup_connect_q
  out_cleanup_connect_q-Shared true c h =
      out_free_tag_set-Shared true
        (record c { blk = record (c.blk) { connect_q = give 1 c.blk.connect_q } }) h
  out_cleanup_connect_q-Shared false c h = out_free_tag_set-Shared false c h

  start_io-Shared :
      (fresh : Bool) (e : IoEnv) (c : Ctrl) → Shared P c → Shared P (start_io fresh e c).1
  unfolding start_io
  start_io-Shared fresh e c h =
      let (ret, t) = start_io_queues e.connect c in
      let s = start_io_queues-Shared e.connect c h in
      if_ind (λ (r : ℤ × Ctrl). Shared P r.1) (is_zero ret) (success, t)
        (ret, out_cleanup_connect_q fresh t) (λ ok. s)
        (λ bad. out_cleanup_connect_q-Shared fresh t s)

  make_io_queues-Shared : (e : IoEnv) (c : Ctrl) → Shared P c → Shared P (make_io_queues e c).1
  unfolding make_io_queues
  make_io_queues-Shared e c h =
      let tags = record c { blk = record (c.blk) { tagset = gain 1 c.blk.tagset } } in
      let connected = record tags {
        blk = record (tags.blk) { connect_q = gain 1 tags.blk.connect_q };
      } in
      elim (Bool-cases (is_zero e.alloc_tagset)) [
        | inr bad ↦ rw (bad) (free_io_queues-Shared c h)
        | inl a ↦ rw (a) (elim (Bool-cases (is_zero e.init_connect_q)) [
          | inr bad ↦ rw (bad) (out_free_tag_set-Shared true tags h)
          | inl b ↦ rw (b) (start_io-Shared true e connected h)
        ])
      ]

  pub destroy_io_queues-Shared :
      (remove : Bool) (c : Ctrl) → Shared P c → Shared P (destroy_io_queues remove c)
  unfolding destroy_io_queues
  destroy_io_queues-Shared true c h =
      let b = c.blk in
      free_io_queues-Shared
        (record c { blk = record b { connect_q = give 1 b.connect_q; tagset = give 1 b.tagset } }) h
  destroy_io_queues-Shared false c h = free_io_queues-Shared c h

  -- Tearing the I/O queues down does not change it at all.
  pub teardown_io_queues-Shared :
      (remove : Bool) (c : Ctrl) → Shared P c → Shared P (teardown_io_queues remove c)
  unfolding teardown_io_queues
  teardown_io_queues-Shared remove c h =
      let t = stop_io_queues (record c { io_quiesced = true }) in
      let s = stop_io_queues-Shared (record c { io_quiesced = true }) h in
      let cancelled = if has_tagset t then record t { cancels = t.cancels + 1 } else t in
      let k =
        if_ind (Shared P) (has_tagset t) (record t { cancels = t.cancels + 1 }) t (λ a. s)
          (λ b. s) in
      let down = if remove then record cancelled { io_quiesced = false } else cancelled in
      let d =
        if_ind (Shared P) remove (record cancelled { io_quiesced = false }) cancelled (λ a. k)
          (λ b. k) in
      if_ind (Shared P) (ltb 1 c.counts.queue_count) (destroy_io_queues remove down) c
        (λ many. destroy_io_queues-Shared remove down d) (λ few. h)

  -- Nor does shutting the controller down.
  pub shutdown_ctrl-Shared :
      (shutdown : Bool) (c : Ctrl) → Shared P c → Shared P (shutdown_ctrl shutdown c)
  unfolding shutdown_ctrl
  shutdown_ctrl-Shared shutdown c h =
      teardown_admin_queue-Shared P shutdown
        (record (teardown_io_queues shutdown c) { admin_quiesced = true })
        (teardown_io_queues-Shared shutdown c h)

  module _ (recovers : (n : NvmeCtrl) → P n → P (error_recovery n)) where
    alloc_loop-Shared :
        (o : Settings) (e : ℕ → AllocEnv) (n i : ℕ) (c : Ctrl)
        → Shared P c
        → Shared P (alloc_loop o e n i c).2
    unfolding alloc_loop
    alloc_loop-Shared o e zero i c h = h
    alloc_loop-Shared o e (suc n) i c h =
        let (ret, t) = alloc_queue_at o i (c.identified.sqsize + 1) (e i) c in
        let s = alloc_queue_at-Shared P recovers o i (c.identified.sqsize + 1) (e i) c h in
        if_ind (λ (r : ℤ × ℕ × Ctrl). Shared P r.2) (is_zero ret) (alloc_loop o e n (i + 1) t)
          (ret, i, t) (λ ok. alloc_loop-Shared o e n (i + 1) t s) (λ bad. s)

    alloc_each-Shared :
        (o : Settings) (e : ℕ → AllocEnv) (c : Ctrl) → Shared P c → Shared P (alloc_each o e c).1
    unfolding alloc_each
    alloc_each-Shared o e c h =
        let (ret, i, t) = alloc_loop o e (io_count c) 1 c in
        let s = alloc_loop-Shared o e (io_count c) 1 c h in
        if_ind (λ (r : ℤ × Ctrl). Shared P r.1) (is_zero ret) (success, t)
          (ret, each_down free_queue_at (i - 1) t) (λ ok. s)
          (λ bad. each_down-Shared free_queue_at (free_queue_at-Shared P) (i - 1) t s)

    alloc_io_queues-Shared :
        (o : Settings) (e : IoEnv) (c : Ctrl) → Shared P c → Shared P (alloc_io_queues o e c).1
    unfolding alloc_io_queues
    alloc_io_queues-Shared o e c h =
        let (ret, counts) =
          count_io_queues o.options e.num_comp_vectors e.online e.granted c.counts in
        let t = record c { counts = counts } in
        if_ind (λ (r : ℤ × Ctrl). Shared P r.1) (is_zero ret)
          (if ltb counts.queue_count 2 then (success, t) else alloc_each o e.alloc t) (ret, t)
          (λ ok.
            if_ind (λ (r : ℤ × Ctrl). Shared P r.1) (ltb counts.queue_count 2) (success, t)
              (alloc_each o e.alloc t) (λ few. h) (λ many. alloc_each-Shared o e.alloc t h))
          (λ bad. h)

    pub configure_io_queues-Shared :
        (o : Settings) (fresh : Bool) (e : IoEnv) (c : Ctrl)
        → Shared P c
        → Shared P (configure_io_queues o fresh e c).1
    unfolding configure_io_queues
    configure_io_queues-Shared o fresh e c h =
        let (ret, t) = alloc_io_queues o e c in
        let s = alloc_io_queues-Shared o e c h in
        if_ind (λ (r : ℤ × Ctrl). Shared P r.1) (is_zero ret)
          (if fresh then make_io_queues e t else start_io false e t) (ret, t)
          (λ ok.
            if_ind (λ (r : ℤ × Ctrl). Shared P r.1) fresh (make_io_queues e t) (start_io false e t)
              (λ new. make_io_queues-Shared e t s) (λ old. start_io-Shared false e t s))
          (λ bad. s)
