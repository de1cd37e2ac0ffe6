-- ===== src/Ctrl/Setup.antt =====
-- shell/nvme-of_setup/nvme-modified/host/rdma.c: bringing a controller up and down:
-- nvme_rdma_setup_ctrl, the works that reconnect, recover and reset it, nvme_rdma_shutdown_ctrl and
-- nvme_rdma_timeout.
pub mod Outcome
use net_cas.Common.{ℕ, zero, suc, ◌+◌, ◌-◌, ◌%◌, Bool, true, false, ltb, ◌==◌, if◌then◌else◌}
use net_cas.Common.Code.{ℤ, is_zero, success, einval, ebusy}
use net_cas.CtrlState.{
  State, live, resetting, connecting, deleting, NvmeCtrl, same, change_ctrl_state, error_recovery,
  reconnect_or_remove, attempt_failed,
}
use net_cas.Ctrl.{Ctrl, Settings, Identified, stop_queue_at}
use net_cas.Ctrl.Admin.{AdminEnv, configure_admin_queue, destroy_admin_queue, teardown_admin_queue}
use net_cas.Ctrl.Io.{IoEnv, configure_io_queues, destroy_io_queues, teardown_io_queues}

-- What is answered during one setup. `before_live` is what other threads do to the state of the
-- controller up to the request to make it live.
pub record SetupEnv : Type 0 where
  pub admin : AdminEnv
  pub io : IoEnv
  pub before_live : NvmeCtrl → NvmeCtrl

-- `if (sqsize + 1 > maxcmd) sqsize = maxcmd - 1`, on 16-bit numbers, and the flag for inline data.
unfoldable pub clamp_sqsize : Ctrl → Ctrl
clamp_sqsize c =
    let d = c.identified in
    let clamped =
      if ltb d.maxcmd (d.sqsize + 1) then record d { sqsize = (d.maxcmd + 65535) % 65536 } else d in
    record c {
      identified = clamped;
      use_inline_data = if d.offset_sgls then true else c.use_inline_data;
    }

-- The labels of nvme_rdma_setup_ctrl.
unfoldable pub destroy_admin : Bool → Ctrl → Ctrl
destroy_admin fresh c = destroy_admin_queue fresh (stop_queue_at 0 c)

unfoldable pub destroy_io : Bool → Ctrl → Ctrl
unfolding destroy_admin
destroy_io fresh c =
    destroy_admin fresh (if ltb 1 c.counts.queue_count then destroy_io_queues fresh c else c)

-- From nvme_change_ctrl_state on; nvme_start_ctrl is counted in `starts`.
unfoldable pub go_live : Bool → SetupEnv → Ctrl → ℤ × Ctrl
go_live fresh e c =
    let (n, changed) = change_ctrl_state (e.before_live c.nvme) live in
    let t = record c { nvme = n } in
    if changed then (success, record t { starts = t.starts + 1 }) else (einval, destroy_io fresh t)

unfoldable pub setup_io : Settings → Bool → SetupEnv → Ctrl → ℤ × Ctrl
setup_io o fresh e c =
    let (ret, t) = configure_io_queues o fresh e.io c in
    if ltb 1 c.counts.queue_count
    then if is_zero ret then go_live fresh e t else (ret, destroy_admin fresh t)
    else go_live fresh e c

-- `ret` is still the 0 of nvme_rdma_configure_admin_queue when the two checks jump to
-- `destroy_admin`.
unfoldable pub setup_ctrl : Settings → Bool → SetupEnv → Ctrl → ℤ × Ctrl
setup_ctrl o fresh e c =
    let (ret, t) = configure_admin_queue o fresh e.admin c in
    if is_zero ret
    then if t.identified.icdoff == 0
      then if t.identified.keyed_sgls
        then setup_io o fresh e (clamp_sqsize t)
        else (ret, destroy_admin fresh t)
      else (ret, destroy_admin fresh t)
    else (ret, t)

-- The delayed work; `queued` answers for the queue_work of nvme_delete_ctrl.
unfoldable pub reconnect_ctrl_work : Settings → Bool → SetupEnv → Ctrl → Ctrl
reconnect_ctrl_work o queued e c =
    let n = c.nvme in
    let (ret, t) =
      setup_ctrl o false e (record c { nvme = record n { nr_reconnects = n.nr_reconnects + 1 } }) in
    if is_zero ret
    then record t { nvme = record (t.nvme) { nr_reconnects = 0 } }
    else record t { nvme = reconnect_or_remove queued t.nvme }

-- The teardown that error recovery and the reset share is ordered I/O queues first.
unfoldable pub error_recovery_work : Bool → Ctrl → Ctrl
error_recovery_work queued c =
    let stopped = record c { keep_alive_stops = c.keep_alive_stops + 1 } in
    let io_down = record (teardown_io_queues false stopped) { io_quiesced = false } in
    let t = record (teardown_admin_queue false io_down) { admin_quiesced = false } in
    let (n, changed) = change_ctrl_state t.nvme connecting in
    if changed then record t { nvme = reconnect_or_remove queued n } else record t { nvme = n }

-- nvme_shutdown_ctrl and nvme_disable_ctrl talk to the controller and change nothing here.
unfoldable pub shutdown_ctrl : Bool → Ctrl → Ctrl
shutdown_ctrl shutdown c =
    let t = teardown_io_queues shutdown c in
    teardown_admin_queue shutdown (record t { admin_quiesced = true })

-- nvme_rdma_delete_ctrl
unfoldable pub delete_rdma_ctrl : Ctrl → Ctrl
unfolding shutdown_ctrl
delete_rdma_ctrl c = shutdown_ctrl true c

-- nvme_do_delete_ctrl of core.c, once the reset has run: nvme_stop_ctrl stops the keep-alive, and
-- what it does to the namespaces and to the device of the controller is left out.
unfoldable pub do_delete_ctrl : Ctrl → Ctrl
unfolding delete_rdma_ctrl
do_delete_ctrl c = delete_rdma_ctrl (record c { keep_alive_stops = c.keep_alive_stops + 1 })

-- nvme_delete_ctrl_sync of core.c, which deletes the controller itself.
unfoldable pub delete_ctrl_sync : Ctrl → ℤ × Ctrl
delete_ctrl_sync c =
    let (n, changed) = change_ctrl_state c.nvme deleting in
    let t = record c { nvme = n } in if changed then (success, do_delete_ctrl t) else (ebusy, t)

-- nvme_stop_ctrl, at its start, stops the keep-alive.
unfoldable pub reset_ctrl_work : Settings → Bool → SetupEnv → Ctrl → Ctrl
reset_ctrl_work o queued e c =
    let t = shutdown_ctrl false (record c { keep_alive_stops = c.keep_alive_stops + 1 }) in
    let (n, changed) = change_ctrl_state t.nvme connecting in
    let (ret, u) = setup_ctrl o false e (record t { nvme = n }) in
    if changed
    then if is_zero ret then u else record u { nvme = attempt_failed queued u.nvme }
    else record t { nvme = n }

-- `enum blk_eh_timer_return`
pub data EhReturn : Type 0 where
  eh_done eh_reset_timer : EhReturn

-- nvme_rdma_timeout; in a state that is neither RESETTING nor LIVE it waits for the recovery work,
-- whose effect is `flushed`, and tears the queues down itself.
unfoldable pub timeout : (Ctrl → Ctrl) → Ctrl → EhReturn × Ctrl
timeout flushed c =
    if same c.nvme.state resetting
    then (eh_reset_timer, c)
    else if same c.nvme.state live
    then (eh_reset_timer, record c { nvme = error_recovery c.nvme })
    else (eh_done, teardown_admin_queue false (teardown_io_queues false (flushed c)))
