-- ===== src/Life.antt =====
-- shell/nvme-of_setup/nvme-modified/host/rdma.c and core.c: the life of a controller, as steps of
-- its work items: nvme_rdma_error_recovery_work, nvme_rdma_reconnect_ctrl_work,
-- nvme_rdma_reset_ctrl_work and nvme_delete_ctrl_work, and of what starts them: errors, timeouts and
-- requests to reset or to delete. A work item runs as one step; a request to delete can come within
-- a setup, before the controller is made live.
pub mod Table
pub mod Setup
pub mod Invariant
pub mod Reached
pub mod Accepted
pub mod Attempts
use net_cas.Common.{ℕ, ◌≡◌, Bool, true, false, not, ◌||◌, ltb, if◌then◌else◌}
use net_cas.CtrlState.{
  NvmeCtrl, change_ctrl_state, deleting, error_recovery, reset_ctrl, delete_ctrl,
}
use net_cas.Ctrl.{Ctrl, Settings}
use net_cas.Ctrl.Admin.{AdminEnv}
use net_cas.Ctrl.Io.{IoEnv}
use net_cas.Ctrl.Setup.{
  SetupEnv, error_recovery_work, reconnect_ctrl_work, reset_ctrl_work, do_delete_ctrl,
  delete_ctrl_sync, timeout,
}
use net_cas.Ctrl.Resources.{IsOff}
use net_cas.Ctrl.Resources.Setup.{Resolving}

-- Which work items are queued and have not run yet.
pub record Pending : Type 0 where
  pub err_work : Bool
  pub reconnect_work : Bool
  pub reset_work : Bool
  pub delete_work : Bool

abbrev pub nothing_pending : Pending
nothing_pending = record {
  err_work = false;
  reconnect_work = false;
  reset_work = false;
  delete_work = false;
}

-- The items that a function queues, which took the controller from the first state to the second.
abbrev pub queue : NvmeCtrl → NvmeCtrl → Pending → Pending
queue n m p = record {
  err_work = p.err_work || ltb n.err_works m.err_works;
  reconnect_work = p.reconnect_work || ltb n.reconnect_works m.reconnect_works;
  reset_work = p.reset_work || ltb n.reset_works m.reset_works;
  delete_work = p.delete_work || ltb n.delete_works m.delete_works;
}

pub record System : Type 0 where
  pub ctrl : Ctrl
  pub pending : Pending

abbrev pub after : Pending → Ctrl → Ctrl → System
after p c t = record { ctrl = t; pending = queue c.nvme t.nvme p }

-- A function of the shared part alone.
abbrev pub shared : NvmeCtrl → System → System
shared n s = after s.pending s.ctrl (record (s.ctrl) { nvme = n })

-- The setup's answers; if `deleted`, nvme_delete_ctrl is called before the controller is made live.
abbrev pub answers : AdminEnv → IoEnv → Bool → Bool → SetupEnv
answers admin io deleted queued = record {
  admin = admin;
  io = io;
  before_live = λ n. if deleted then (delete_ctrl queued n).0 else n;
}

-- queue_work succeeds if the item is not pending. nvme_rdma_shutdown_ctrl cancels the error recovery
-- and the reconnect; nvme_do_delete_ctrl waits for the reset and nvme_rdma_timeout for the error
-- recovery first. nvme_delete_ctrl_sync deletes at once, here when no reset is pending.
pub data Step (o : Settings) : System → System → Type 0 where
  error : (s : System) → Step o s (shared (error_recovery s.ctrl.nvme) s)
  ask_reset :
      (s : System) → Step o s (shared (reset_ctrl (not s.pending.reset_work) s.ctrl.nvme).0 s)
  ask_delete :
      (s : System) → Step o s (shared (delete_ctrl (not s.pending.delete_work) s.ctrl.nvme).0 s)
  recover :
      (c : Ctrl) (p : Pending)
      → p.err_work ≡ true
      → Step o
          (record { ctrl = c; pending = p })
          (after (record p { err_work = false }) c (error_recovery_work (not p.delete_work) c))
  reconnect :
      (c : Ctrl) (p : Pending) (admin : AdminEnv) (io : IoEnv) (deleted : Bool)
      → Resolving (answers admin io deleted (not p.delete_work))
      → p.reconnect_work ≡ true
      → Step o
          (record { ctrl = c; pending = p })
          (after
            (record p { reconnect_work = false })
            c
            (reconnect_ctrl_work o
              (not p.delete_work)
              (answers admin io deleted (not p.delete_work))
              c))
  reset :
      (c : Ctrl) (p : Pending) (admin : AdminEnv) (io : IoEnv) (deleted : Bool)
      → Resolving (answers admin io deleted (not p.delete_work))
      → p.reset_work ≡ true
      → Step o
          (record { ctrl = c; pending = p })
          (after
            (record p { err_work = false; reconnect_work = false; reset_work = false })
            c
            (reset_ctrl_work o
              (not p.delete_work)
              (answers admin io deleted (not p.delete_work))
              c))
  delete :
      (c : Ctrl) (p : Pending)
      → p.delete_work ≡ true
      → p.reset_work ≡ false
      → Step o
          (record { ctrl = c; pending = p })
          (after
            (record p { err_work = false; reconnect_work = false; delete_work = false })
            c
            (do_delete_ctrl c))
  delete_now :
      (c : Ctrl) (p : Pending)
      → p.reset_work ≡ false
      → (change_ctrl_state c.nvme deleting).1 ≡ true
      → Step o
          (record { ctrl = c; pending = p })
          (after (record p { err_work = false; reconnect_work = false }) c (delete_ctrl_sync c).1)
  time_out :
      (c : Ctrl) (p : Pending)
      → p.err_work ≡ false
      → Step o (record { ctrl = c; pending = p }) (after p c (timeout (λ t. t) c).1)

-- Any number of steps.
pub data Steps (o : Settings) : System → System → Type 0 where
  done : (s : System) → Steps o s s
  then_one : (r s t : System) → Steps o r s → Step o s t → Steps o r t
