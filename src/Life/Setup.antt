-- ===== src/Life/Setup.antt =====
-- shell/nvme-of_setup/nvme-modified/host/rdma.c: what the works of a controller make of the part
-- that it shares with the NVMe core, beside all that they do to its queues.
use net_cas.Common.{
  ◌+◌, ◌≡◌, ◌≢◌, ◌⊎◌, inl, inr, refl, sym, ◌∙◌, Bool, true, false, if◌then◌else◌, if_ind, arith, ap,
}
use mathlib.Core.Path.{subst}
use net_cas.Common.Code.{ℤ, is_zero}
use net_cas.CtrlState.{
  live, resetting, connecting, deleting, new, NvmeCtrl, change_ctrl_state, error_recovery,
  reconnect_or_remove, attempt_failed, same,
}
use net_cas.Ctrl.{Ctrl, Settings}
use net_cas.Ctrl.Admin.{AdminEnv, teardown_admin_queue}
use net_cas.Ctrl.Io.{IoEnv, teardown_io_queues}
use net_cas.Ctrl.Setup.{
  setup_ctrl, error_recovery_work, reconnect_ctrl_work, reset_ctrl_work, shutdown_ctrl,
  delete_rdma_ctrl, do_delete_ctrl, delete_ctrl_sync, timeout, EhReturn, eh_done, eh_reset_timer,
}
use net_cas.Ctrl.Shared.{teardown_admin_queue-Shared}
use net_cas.Ctrl.Shared.Io.{teardown_io_queues-Shared, shutdown_ctrl-Shared}
use net_cas.Ctrl.Shared.Setup.{setup_ctrl-Ends}
use net_cas.Life.{answers}
use net_cas.Life.Table.{Outcome, recovered, attempted, reconnected, was_reset}

-- The error recovery starts from neither of these.
pub error_recovery-settled : (n : NvmeCtrl) → n.state ≢ live → n.state ≢ new → error_recovery n ≡ n
unfolding error_recovery
error_recovery-settled n a b = ground arith

module _ (o : Settings) (admin : AdminEnv) (io : IoEnv) (d q : Bool) where
  pub setup_ctrl-Outcome :
      (fresh : Bool) (c : Ctrl)
      → error_recovery c.nvme ≡ c.nvme
      → Outcome d q c.nvme
          (setup_ctrl o fresh (answers admin io d q) c).0
          (setup_ctrl o fresh (answers admin io d q) c).1.nvme
  setup_ctrl-Outcome fresh c settled =
      let n = c.nvme in
      setup_ctrl-Ends (λ m. m ≡ n) (λ m h. rw (h) settled) (answers admin io d q)
        (λ r. Outcome d q n r.0 r.1) (λ m h ok. rw (h) (inr (rw (h) at (sym ok), refl)))
        (λ m h bad. rw (h) (inr (rw (h) at (sym bad), refl))) (λ ret m h bad. inl h) (n ≡ n)
        (λ ret m u h. inl h) o fresh c (λ ok bad. refl) refl

pub error_recovery_work-nvme :
    (queued : Bool) (c : Ctrl) → (error_recovery_work queued c).nvme ≡ recovered queued c.nvme
unfolding error_recovery_work
error_recovery_work-nvme queued c =
    let stopped = record c { keep_alive_stops = c.keep_alive_stops + 1 } in
    let io_down = record (teardown_io_queues false stopped) { io_quiesced = false } in
    let t = record (teardown_admin_queue false io_down) { admin_quiesced = false } in
    let (n, changed) = change_ctrl_state t.nvme connecting in
    let down : t.nvme ≡ c.nvme =
      teardown_admin_queue-Shared (λ m. m ≡ c.nvme) false io_down
        (teardown_io_queues-Shared (λ m. m ≡ c.nvme) false stopped refl) in
    let ends : (error_recovery_work queued c).nvme ≡ recovered queued t.nvme =
      if_ind (λ (u : Ctrl). u.nvme ≡ recovered queued t.nvme) changed
        (record t { nvme = reconnect_or_remove queued n }) (record t { nvme = n })
        (λ ok. rw (ok) refl) (λ bad. rw (bad) refl) in
    ends ∙ ap (recovered queued) down

shutdown_ctrl-nvme : (shutdown : Bool) (c : Ctrl) → (shutdown_ctrl shutdown c).nvme ≡ c.nvme
shutdown_ctrl-nvme shutdown c = shutdown_ctrl-Shared (λ m. m ≡ c.nvme) shutdown c refl

change_ctrl_state-deleting :
    (n : NvmeCtrl)
    → (change_ctrl_state n deleting).1 ≡ true
    → (change_ctrl_state n deleting).0.state ≡ deleting
unfolding change_ctrl_state
change_ctrl_state-deleting n ok = ground arith

pub do_delete_ctrl-nvme : (c : Ctrl) → (do_delete_ctrl c).nvme ≡ c.nvme
unfolding do_delete_ctrl delete_rdma_ctrl
do_delete_ctrl-nvme c =
    shutdown_ctrl-nvme true (record c { keep_alive_stops = c.keep_alive_stops + 1 })

pub delete_ctrl_sync-state :
    (c : Ctrl)
    → (change_ctrl_state c.nvme deleting).1 ≡ true
    → (delete_ctrl_sync c).1.nvme.state ≡ deleting
unfolding delete_ctrl_sync
delete_ctrl_sync-state c ok =
    let n = (change_ctrl_state c.nvme deleting).0 in
    rw (ok) (
      ap (λ m. m.state) (do_delete_ctrl-nvme (record c { nvme = n }))
      ∙ change_ctrl_state-deleting c.nvme ok)

-- The shared part after a timeout, which starts the recovery of a live controller.
pub timeout-nvme :
    (c : Ctrl)
    → ((timeout (λ t. t) c).1.nvme ≡ c.nvme) ⊎ ((timeout (λ t. t) c).1.nvme ≡ error_recovery c.nvme)
unfolding timeout
timeout-nvme c =
    let down = teardown_admin_queue false (teardown_io_queues false c) in
    let P : EhReturn × Ctrl → Type 0 =
      λ r. (r.1.nvme ≡ c.nvme) ⊎ (r.1.nvme ≡ error_recovery c.nvme) in
    if_ind P (same c.nvme.state resetting) (eh_reset_timer, c)
      (if same c.nvme.state live
        then (eh_reset_timer, record c { nvme = error_recovery c.nvme })
        else (eh_done, down))
      (λ a. inl refl)
      (λ a.
        if_ind P (same c.nvme.state live)
          (eh_reset_timer, record c { nvme = error_recovery c.nvme }) (eh_done, down)
          (λ b. inr refl)
          (λ b. inl (
            teardown_admin_queue-Shared (λ m. m ≡ c.nvme) false (teardown_io_queues false c)
              (teardown_io_queues-Shared (λ m. m ≡ c.nvme) false c refl))))

-- A reconnect that starts in neither of the states from which an error is recovered.
module _ (o : Settings) (admin : AdminEnv) (io : IoEnv) (d q : Bool) where
  pub reconnect_ctrl_work-nvme :
      (c : Ctrl)
      → error_recovery (attempted c.nvme) ≡ attempted c.nvme
      → (ret : ℤ) × (m : NvmeCtrl) × Outcome d q (attempted c.nvme) ret m
        × ((reconnect_ctrl_work o q (answers admin io d q) c).nvme ≡ reconnected q ret m)
  unfolding reconnect_ctrl_work
  reconnect_ctrl_work-nvme c settled =
      let begun = record c { nvme = attempted c.nvme } in
      let (ret, t) = setup_ctrl o false (answers admin io d q) begun in
      (
        ret,
        t.nvme,
        setup_ctrl-Outcome o admin io d q false begun settled,
        if_ind (λ (u : Ctrl). u.nvme ≡ reconnected q ret t.nvme) (is_zero ret)
            (record t { nvme = record (t.nvme) { nr_reconnects = 0 } })
            (record t { nvme = reconnect_or_remove q t.nvme }) (λ ok. rw (ok) refl)
            (λ bad. rw (bad) refl),
      )

  pub reset_ctrl_work-nvme :
      (c : Ctrl)
      → error_recovery (change_ctrl_state c.nvme connecting).0
        ≡ (change_ctrl_state c.nvme connecting).0
      → (ret : ℤ) × (m : NvmeCtrl) × Outcome d q (change_ctrl_state c.nvme connecting).0 ret m
        × ((reset_ctrl_work o q (answers admin io d q) c).nvme ≡ was_reset q c.nvme ret m)
  unfolding reset_ctrl_work
  reset_ctrl_work-nvme c settled =
      let stopped = record c { keep_alive_stops = c.keep_alive_stops + 1 } in
      let t = shutdown_ctrl false stopped in
      let down : t.nvme ≡ c.nvme = shutdown_ctrl-nvme false stopped in
      let (n, changed) = change_ctrl_state t.nvme connecting in
      let (ret, u) = setup_ctrl o false (answers admin io d q) (record t { nvme = n }) in
      let ends : (reset_ctrl_work o q (answers admin io d q) c).nvme
          ≡ was_reset q t.nvme ret u.nvme =
        if_ind (λ (v : Ctrl). v.nvme ≡ was_reset q t.nvme ret u.nvme) changed
          (if is_zero ret then u else record u { nvme = attempt_failed q u.nvme })
          (record t { nvme = n })
          (λ ok.
            if_ind (λ (v : Ctrl). v.nvme ≡ was_reset q t.nvme ret u.nvme) (is_zero ret) u
              (record u { nvme = attempt_failed q u.nvme }) (λ up. rw (ok, up) refl)
              (λ failed. rw (ok, failed) refl))
          (λ bad. rw (bad) refl) in
      (
        ret,
        u.nvme,
        subst (λ k. Outcome d q (change_ctrl_state k connecting).0 ret u.nvme) down
            (setup_ctrl-Outcome o admin io d q false (record t { nvme = n })
              (subst
                (λ k.
                  error_recovery (change_ctrl_state k connecting).0
                  ≡ (change_ctrl_state k connecting).0)
                (sym down) settled)),
        ends ∙ ap (λ k. was_reset q k ret u.nvme) down,
      )
