-- ===== src/Ctrl/Resources/Works.antt =====
-- What the works that recover, reconnect, reset and delete a controller, nvme_rdma_shutdown_ctrl and
-- nvme_rdma_timeout, of shell/nvme-of_setup/nvme-modified/host/rdma.c, leave held.
use net_cas.Common.{◌+◌, ◌≡◌, ◌⊎◌, Bool, true, false, if◌then◌else◌, inl, inr, if_ind, sym, ◌∙◌}
use mathlib.Core.Bool.{false≢true}
use net_cas.Common.Code.{ℤ, is_zero}
use net_cas.CtrlState.{
  live, deleting, connecting, resetting, same, change_ctrl_state, error_recovery,
  reconnect_or_remove, attempt_failed,
}
use net_cas.Ctrl.{Ctrl, Settings}
use net_cas.Ctrl.Admin.{teardown_admin_queue}
use net_cas.Ctrl.Io.{teardown_io_queues}
use net_cas.Ctrl.Setup.{
  SetupEnv, setup_ctrl, reconnect_ctrl_work, error_recovery_work, shutdown_ctrl, delete_rdma_ctrl,
  do_delete_ctrl, delete_ctrl_sync, reset_ctrl_work, timeout, EhReturn, eh_done, eh_reset_timer,
}
use net_cas.Ctrl.Resources.{IsOff, IsSound}
use net_cas.Ctrl.Resources.Admin.{teardown_admin_queue-IsOff}
use net_cas.Ctrl.Resources.Io.{teardown_io_queues-IsHolding}
use net_cas.Ctrl.Resources.Setup.{Resolving, Ready, IsOff-IsSound, setup_ctrl-Ready}

teardown-IsOff :
    (remove : Bool) (c : Ctrl)
    → IsSound c
    → IsOff (teardown_admin_queue remove (teardown_io_queues remove c))
teardown-IsOff remove c h =
    teardown_admin_queue-IsOff remove (teardown_io_queues remove c)
      (teardown_io_queues-IsHolding remove c h)

-- If no I/O queue from the queue count on holds anything, nvme_rdma_error_recovery_work leaves
-- nothing held.
pub error_recovery_work-IsOff :
    (queued : Bool) (c : Ctrl) → IsSound c → IsOff (error_recovery_work queued c)
unfolding error_recovery_work
error_recovery_work-IsOff queued c h =
    let stopped = record c { keep_alive_stops = c.keep_alive_stops + 1 } in
    let io_down = record (teardown_io_queues false stopped) { io_quiesced = false } in
    let t = record (teardown_admin_queue false io_down) { admin_quiesced = false } in
    let (n, changed) = change_ctrl_state t.nvme connecting in
    let down : IsOff t =
      teardown_admin_queue-IsOff false io_down (teardown_io_queues-IsHolding false stopped h) in
    if_ind IsOff changed (record t { nvme = reconnect_or_remove queued n }) (record t { nvme = n })
      (λ ok. down) (λ bad. down)

-- So does nvme_rdma_shutdown_ctrl.
shutdown_ctrl-IsOff : (shutdown : Bool) (c : Ctrl) → IsSound c → IsOff (shutdown_ctrl shutdown c)
unfolding shutdown_ctrl
shutdown_ctrl-IsOff shutdown c h =
    teardown_admin_queue-IsOff shutdown
      (record (teardown_io_queues shutdown c) { admin_quiesced = true })
      (teardown_io_queues-IsHolding shutdown c h)

delete_rdma_ctrl-IsOff : (c : Ctrl) → IsSound c → IsOff (delete_rdma_ctrl c)
unfolding delete_rdma_ctrl
delete_rdma_ctrl-IsOff c h = shutdown_ctrl-IsOff true c h

pub do_delete_ctrl-IsOff : (c : Ctrl) → IsSound c → IsOff (do_delete_ctrl c)
unfolding do_delete_ctrl
do_delete_ctrl-IsOff c h =
    delete_rdma_ctrl-IsOff (record c { keep_alive_stops = c.keep_alive_stops + 1 }) h

pub delete_ctrl_sync-IsOff :
    (c : Ctrl)
    → IsSound c
    → (change_ctrl_state c.nvme deleting).1 ≡ true
    → IsOff (delete_ctrl_sync c).1
unfolding delete_ctrl_sync
delete_ctrl_sync-IsOff c h ok =
    rw (ok) (do_delete_ctrl-IsOff (record c { nvme = (change_ctrl_state c.nvme deleting).0 }) h)

-- nvme_rdma_timeout keeps that no I/O queue from the queue count on holds anything, if the recovery
-- work it waits for does.
pub timeout-IsSound :
    (flushed : Ctrl → Ctrl) (c : Ctrl)
    → (IsSound c → IsSound (flushed c))
    → IsSound c
    → IsSound (timeout flushed c).1
unfolding timeout
timeout-IsSound flushed c keep h =
    let down = teardown_admin_queue false (teardown_io_queues false (flushed c)) in
    if_ind (λ (r : EhReturn × Ctrl). IsSound r.1) (same c.nvme.state resetting) (eh_reset_timer, c)
      (if same c.nvme.state live
        then (eh_reset_timer, record c { nvme = error_recovery c.nvme })
        else (eh_done, down))
      (λ a. h)
      (λ a.
        if_ind (λ (r : EhReturn × Ctrl). IsSound r.1) (same c.nvme.state live)
          (eh_reset_timer, record c { nvme = error_recovery c.nvme }) (eh_done, down) (λ b. h)
          (λ b. IsOff-IsSound down (teardown-IsOff false (flushed c) (keep h))))

pub timeout-IsOff : (c : Ctrl) → IsOff c → IsOff (timeout (λ t. t) c).1
unfolding timeout
timeout-IsOff c h =
    let down = teardown_admin_queue false (teardown_io_queues false c) in
    if_ind (λ (r : EhReturn × Ctrl). IsOff r.1) (same c.nvme.state resetting) (eh_reset_timer, c)
      (if same c.nvme.state live
        then (eh_reset_timer, record c { nvme = error_recovery c.nvme })
        else (eh_done, down))
      (λ a. h)
      (λ a.
        if_ind (λ (r : EhReturn × Ctrl). IsOff r.1) (same c.nvme.state live)
          (eh_reset_timer, record c { nvme = error_recovery c.nvme }) (eh_done, down) (λ b. h)
          (λ b. teardown-IsOff false c (IsOff-IsSound c h)))

-- The states of the controller of a work that ran: live, or nothing held.
abbrev pub Settled : Ctrl → Type 0
Settled c = ((c.nvme.state ≡ live) × IsSound c) ⊎ IsOff c

pub Ready-Settled : (r : ℤ × Ctrl) → Ready r → Settled r.1
Ready-Settled r h = elim h [ inl up ↦ inl (up.1, up.2) | inr down ↦ inr down ]

failed-IsOff : (r : ℤ × Ctrl) → Ready r → is_zero r.0 ≡ false → IsOff r.1
failed-IsOff r h bad = elim h [ inl up ↦ absurd (false≢true (sym bad ∙ up.0)) | inr down ↦ down ]

-- From a controller that holds nothing, nvme_rdma_reconnect_ctrl_work leaves it LIVE, or holding
-- nothing.
pub reconnect_ctrl_work-Settled :
    (o : Settings) (queued : Bool) (e : SetupEnv) (c : Ctrl)
    → Resolving e
    → IsOff c
    → Settled (reconnect_ctrl_work o queued e c)
unfolding reconnect_ctrl_work
reconnect_ctrl_work-Settled o queued e c first h =
    let n = c.nvme in
    let c' = record c { nvme = record n { nr_reconnects = n.nr_reconnects + 1 } } in
    let (ret, t) = setup_ctrl o false e c' in
    let r : Ready (ret, t) = setup_ctrl-Ready o false e c' first h in
    if_ind Settled (is_zero ret) (record t { nvme = record (t.nvme) { nr_reconnects = 0 } })
      (record t { nvme = reconnect_or_remove queued t.nvme }) (λ ok. Ready-Settled (ret, t) r)
      (λ bad. inr (failed-IsOff (ret, t) r bad))

-- If no I/O queue from the queue count on holds anything, nvme_rdma_reset_ctrl_work leaves the
-- controller LIVE, or holding nothing.
pub reset_ctrl_work-Settled :
    (o : Settings) (queued : Bool) (e : SetupEnv) (c : Ctrl)
    → Resolving e
    → IsSound c
    → Settled (reset_ctrl_work o queued e c)
unfolding reset_ctrl_work
reset_ctrl_work-Settled o queued e c first h =
    let stopped = record c { keep_alive_stops = c.keep_alive_stops + 1 } in
    let t = shutdown_ctrl false stopped in
    let down = shutdown_ctrl-IsOff false stopped h in
    let (n, changed) = change_ctrl_state t.nvme connecting in
    let (ret, u) = setup_ctrl o false e (record t { nvme = n }) in
    let r : Ready (ret, u) = setup_ctrl-Ready o false e (record t { nvme = n }) first down in
    if_ind Settled changed
      (if is_zero ret then u else record u { nvme = attempt_failed queued u.nvme })
      (record t { nvme = n })
      (λ allowed.
        if_ind Settled (is_zero ret) u (record u { nvme = attempt_failed queued u.nvme })
          (λ ok. Ready-Settled (ret, u) r) (λ bad. inr (failed-IsOff (ret, u) r bad)))
      (λ refused. inr down)
