-- ===== src/CtrlState.antt =====
-- shell/nvme-of_setup/nvme-modified/host/core.c: the states of a controller and the requests to
-- change them (nvme_change_ctrl_state, nvme_reset_ctrl, nvme_try_sched_reset, nvme_delete_ctrl,
-- nvme_state_terminal); fabrics.c: nvmf_should_reconnect; rdma.c:
-- nvme_rdma_error_recovery, nvme_rdma_wr_error and nvme_rdma_reconnect_or_remove.
pub mod Recovery
use net_cas.Common.{ℕ, ◌+◌, Bool, true, false, not, ◌||◌, ◌&&◌, ltb, ◌==◌, if◌then◌else◌}
use net_cas.Common.Code.{ℤ, pos, negsuc, success, ebusy}

-- `enum nvme_ctrl_state`
pub data State : Type 0 where
  new live resetting connecting deleting dead : State

abbrev pub same : State → State → Bool
same new new = true
same live live = true
same resetting resetting = true
same connecting connecting = true
same deleting deleting = true
same dead dead = true
same _ _ = false

-- The parts of `struct nvme_ctrl` that these functions use. The counters say how often queue_work
-- was called for a work item, and how often the requeue lists were kicked. `max_reconnects` is an `int`.
pub record NvmeCtrl : Type 0 where
  pub state : State
  pub kicks : ℕ
  pub reset_works : ℕ
  pub delete_works : ℕ
  pub err_works : ℕ
  pub reconnect_works : ℕ
  pub nr_reconnects : ℕ
  pub max_reconnects : ℤ

-- The nested `switch` of nvme_change_ctrl_state, by the new state and then the old one.
unfoldable pub allows : State → State → Bool
allows live new = true
allows live resetting = true
allows live connecting = true
allows resetting new = true
allows resetting live = true
allows connecting new = true
allows connecting resetting = true
allows deleting live = true
allows deleting resetting = true
allows deleting connecting = true
allows dead deleting = true
allows _ _ = false

-- The state changes under `ctrl->lock`; entering LIVE kicks the requeue lists.
unfoldable pub change_ctrl_state : NvmeCtrl → State → NvmeCtrl × Bool
unfolding allows
change_ctrl_state c to =
    if allows to c.state
    then (record c { state = to; kicks = if same to live then c.kicks + 1 else c.kicks }, true)
    else (c, false)

unfoldable state_terminal : State → Bool
state_terminal deleting = true
state_terminal dead = true
state_terminal _ = false

-- In the next three, `queued` is what queue_work returns: false if the work was pending already.
unfoldable try_sched_reset : Bool → NvmeCtrl → NvmeCtrl × ℤ
try_sched_reset queued c =
    if same c.state resetting
    then (record c { reset_works = c.reset_works + 1 }, if queued then success else ebusy)
    else (c, ebusy)

unfoldable pub reset_ctrl : Bool → NvmeCtrl → NvmeCtrl × ℤ
unfolding change_ctrl_state
reset_ctrl queued c =
    let (t, changed) = change_ctrl_state c resetting in
    if changed
    then (record t { reset_works = t.reset_works + 1 }, if queued then success else ebusy)
    else (t, ebusy)

unfoldable pub delete_ctrl : Bool → NvmeCtrl → NvmeCtrl × ℤ
unfolding change_ctrl_state
delete_ctrl queued c =
    let (t, changed) = change_ctrl_state c deleting in
    if changed
    then (record t { delete_works = t.delete_works + 1 }, if queued then success else ebusy)
    else (t, ebusy)

-- nvmf_should_reconnect; -1 means for ever.
unfoldable pub should_reconnect : NvmeCtrl → Bool
should_reconnect c = elim c.max_reconnects [ pos n ↦ ltb c.nr_reconnects n | negsuc n ↦ n == 0 ]

unfoldable pub error_recovery : NvmeCtrl → NvmeCtrl
unfolding change_ctrl_state
error_recovery c =
    let (t, changed) = change_ctrl_state c resetting in
    if changed then record t { err_works = t.err_works + 1 } else t

-- nvme_rdma_wr_error logs a message and starts the recovery.
unfoldable pub wr_error : NvmeCtrl → NvmeCtrl
unfolding error_recovery
wr_error c = error_recovery c

-- nvme_rdma_reconnect_or_remove; `queued` is for the queue_work of nvme_delete_ctrl.
unfoldable pub reconnect_or_remove : Bool → NvmeCtrl → NvmeCtrl
unfolding should_reconnect delete_ctrl
reconnect_or_remove queued c =
    if same c.state connecting
    then if should_reconnect c
      then record c { reconnect_works = c.reconnect_works + 1 }
      else (delete_ctrl queued c).0
    else c

-- The path of nvme_rdma_reconnect_ctrl_work on which nvme_rdma_setup_ctrl failed.
unfoldable pub attempt_failed : Bool → NvmeCtrl → NvmeCtrl
unfolding reconnect_or_remove
attempt_failed queued c =
    reconnect_or_remove queued (record c { nr_reconnects = c.nr_reconnects + 1 })
