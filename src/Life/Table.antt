-- ===== src/Life/Table.antt =====
-- shell/nvme-of_setup/nvme-modified/host/core.c and rdma.c: which work items can be pending in which
-- state of a controller.
use net_cas.Common.{◌+◌, ◌≡◌, Bool, true, false, not, ◌&&◌, if◌then◌else◌, arith}
use net_cas.Common.{◌⊎◌}
use net_cas.Common.Code.{ℤ, is_zero}
use net_cas.CtrlState.{
  attempt_failed, State, live, resetting, connecting, deleting, dead, NvmeCtrl, change_ctrl_state,
  error_recovery, reset_ctrl, delete_ctrl, reconnect_or_remove,
}
use net_cas.Life.{Pending, queue, nothing_pending}

-- A controller that is reset has one of the two works that end the reset pending; none can be
-- pending while it is live, only the reconnect while it is connecting, and the deletion
-- only while it is deleting. No work makes it dead.
unfoldable pub fits : State → Pending → Bool
fits resetting p =
    not p.delete_work
    && not p.reconnect_work
    && (if p.err_work then not p.reset_work else p.reset_work)
fits connecting p = not p.delete_work && not p.err_work && not p.reset_work
fits deleting p = true
fits dead p = false
fits _ p = not p.delete_work && not p.err_work && not p.reset_work && not p.reconnect_work

abbrev pub Fits : NvmeCtrl → Pending → Type 0
Fits n p = fits n.state p ≡ true

pub error_recovery-Fits :
    (n : NvmeCtrl) (p : Pending) → Fits n p → Fits (error_recovery n) (queue n (error_recovery n) p)
unfolding fits error_recovery
error_recovery-Fits n p h = ground arith

pub reset_ctrl-Fits :
    (q : Bool) (n : NvmeCtrl) (p : Pending)
    → Fits n p
    → Fits (reset_ctrl q n).0 (queue n (reset_ctrl q n).0 p)
unfolding fits reset_ctrl
reset_ctrl-Fits q n p h = ground arith

pub delete_ctrl-Fits :
    (q : Bool) (n : NvmeCtrl) (p : Pending)
    → Fits n p
    → Fits (delete_ctrl q n).0 (queue n (delete_ctrl q n).0 p)
unfolding fits delete_ctrl
delete_ctrl-Fits q n p h = ground arith

-- nvme_delete_ctrl is called in between, or not.
abbrev pub between : Bool → Bool → NvmeCtrl → NvmeCtrl
between deleted queued n = if deleted then (delete_ctrl queued n).0 else n

-- How nvme_rdma_setup_ctrl leaves the shared part: as it was, or after the request to become live.
abbrev pub Outcome : Bool → Bool → NvmeCtrl → ℤ → NvmeCtrl → Type 0
Outcome deleted queued n ret m =
    (m ≡ n)
    ⊎ ((is_zero ret ≡ (change_ctrl_state (between deleted queued n) live).1)
        × (m ≡ (change_ctrl_state (between deleted queued n) live).0))

-- The shared part after nvme_rdma_error_recovery_work.
abbrev pub recovered : Bool → NvmeCtrl → NvmeCtrl
recovered queued n =
    let (m, changed) = change_ctrl_state n connecting in
    if changed then reconnect_or_remove queued m else m

pub recovered-Fits :
    (q : Bool) (n : NvmeCtrl) (p : Pending)
    → p.err_work ≡ true
    → Fits n p
    → Fits (recovered q n) (queue n (recovered q n) (record p { err_work = false }))
unfolding fits reconnect_or_remove
recovered-Fits q n p e h = ground arith

abbrev pub attempted : NvmeCtrl → NvmeCtrl
attempted n = record n { nr_reconnects = n.nr_reconnects + 1 }

-- The shared part after nvme_rdma_reconnect_ctrl_work.
abbrev pub reconnected : Bool → ℤ → NvmeCtrl → NvmeCtrl
reconnected queued ret m =
    if is_zero ret then record m { nr_reconnects = 0 } else reconnect_or_remove queued m

pub reconnected-Fits :
    (d q : Bool) (n : NvmeCtrl) (p : Pending) (ret : ℤ) (m : NvmeCtrl)
    → p.reconnect_work ≡ true
    → Fits n p
    → Outcome d q (attempted n) ret m
    → Fits
        (reconnected q ret m)
        (queue n (reconnected q ret m) (record p { reconnect_work = false }))
unfolding fits reconnect_or_remove delete_ctrl change_ctrl_state
reconnected-Fits d q n p ret m w h r = ground arith

-- The shared part after nvme_rdma_reset_ctrl_work, if its setup returns `ret` with `m`.
abbrev pub was_reset : Bool → NvmeCtrl → ℤ → NvmeCtrl → NvmeCtrl
was_reset queued n ret m =
    let (t, changed) = change_ctrl_state n connecting in
    if changed then if is_zero ret then m else attempt_failed queued m else t

pub was_reset-Fits :
    (d q : Bool) (n : NvmeCtrl) (p : Pending) (ret : ℤ) (m : NvmeCtrl)
    → p.reset_work ≡ true
    → Fits n p
    → Outcome d q (change_ctrl_state n connecting).0 ret m
    → Fits (was_reset q n ret m) (
        queue n
          (was_reset q n ret m)
          (record p { err_work = false; reconnect_work = false; reset_work = false }))
unfolding fits attempt_failed delete_ctrl change_ctrl_state
was_reset-Fits d q n p ret m w h r = ground arith

pub deleted-Fits :
    (n : NvmeCtrl) (p : Pending)
    → p.delete_work ≡ true
    → Fits n p
    → Fits n
        (queue n n (record p { err_work = false; reconnect_work = false; delete_work = false }))
unfolding fits
deleted-Fits n p w h = ground arith

pub state-Fits : (n : NvmeCtrl) (p : Pending) → n.state ≡ deleting → Fits n p
unfolding fits
state-Fits n p h = ground arith

pub same-Fits : (n : NvmeCtrl) (p : Pending) → Fits n p → Fits n (queue n n p)
unfolding fits
same-Fits n p h = ground arith

-- A setup that starts with nothing pending.
pub created-Fits :
    (d q : Bool) (n : NvmeCtrl) (ret : ℤ) (m : NvmeCtrl)
    → n.state ≡ connecting
    → Outcome d q n ret m
    → Fits m (queue n m nothing_pending)
unfolding fits delete_ctrl change_ctrl_state
created-Fits d q n ret m s r = ground arith
