-- ===== src/Life/Reached.antt =====
-- Controllers of shell/nvme-of_setup/nvme-modified/host/rdma.c from their creation on: what holds
-- whenever their works run.
use net_cas.Common.{◌≡◌, refl, Bool, true, false, arith, ◌⊎◌}
use net_cas.CtrlState.{connecting, deleting, change_ctrl_state}
use net_cas.Device.{Devices}
use net_cas.Ctrl.{Ctrl}
use net_cas.Ctrl.Admin.{AdminEnv}
use net_cas.Ctrl.Io.{IoEnv}
use net_cas.Ctrl.Setup.{setup_ctrl, do_delete_ctrl}
use net_cas.Ctrl.Resources.{IsOff}
use net_cas.Ctrl.Resources.Setup.{Resolving, setup_ctrl-Ready}
use net_cas.Ctrl.Resources.Works.{Ready-Settled, do_delete_ctrl-IsOff}
use net_cas.Driver.{CreateEnv, init_fields}
use net_cas.Life.{System, Steps, after, answers, nothing_pending}
use net_cas.Life.Table.{created-Fits, Fits, fits}
use net_cas.Life.Setup.{setup_ctrl-Outcome, error_recovery-settled}
use net_cas.Life.Invariant.{IsGood, Settled-IsGood, Steps-IsGood}

-- The controller of nvme_rdma_create_ctrl before its setup.
abbrev initialised : CreateEnv → Devices → Ctrl
initialised e ds =
    let c = init_fields e ds in record c { nvme = (change_ctrl_state c.nvme connecting).0 }

initialised-IsOff : (e : CreateEnv) (ds : Devices) → IsOff (initialised e ds)
unfolding init_fields
initialised-IsOff e ds = record {
  idle = λ j. ground arith;
  no_event = refl;
  released = (refl, refl);
}

initialised-state : (e : CreateEnv) (ds : Devices) → (initialised e ds).nvme.state ≡ connecting
unfolding init_fields change_ctrl_state
initialised-state e ds = refl

-- The controller after that setup.
abbrev pub created : CreateEnv → Devices → AdminEnv → IoEnv → Bool → System
created e ds admin io d =
    let c = initialised e ds in
    after nothing_pending c (setup_ctrl e.settings true (answers admin io d true) c).1

created-IsGood :
    (e : CreateEnv) (ds : Devices) (admin : AdminEnv) (io : IoEnv) (d : Bool)
    → Resolving (answers admin io d true)
    → IsGood (created e ds admin io d)
created-IsGood e ds admin io d first =
    let c = initialised e ds in
    let r = setup_ctrl e.settings true (answers admin io d true) c in
    let s = initialised-state e ds in
    Settled-IsGood c r.1 nothing_pending
      (Ready-Settled r (
        setup_ctrl-Ready e.settings true (answers admin io d true) c first
          (initialised-IsOff e ds)))
      (created-Fits d true c.nvme r.0 r.1.nvme s (
        setup_ctrl-Outcome e.settings admin io d true true c
          (error_recovery-settled c.nvme (ground arith) (ground arith))))

-- A controller that nvme_rdma_create_ctrl made, after any sequence of steps.
abbrev pub Reached : CreateEnv → Devices → System → Type 0
Reached e ds t =
    (admin : AdminEnv) × (io : IoEnv) × (d : Bool) × Resolving (answers admin io d true)
    × Steps e.settings (created e ds admin io d) t

-- After any sequence of errors, timeouts, requests to reset and to delete, and runs of the works
-- they queue, from the setup of a new controller on, where the connection manager resolves every
-- queue's address and route first: no I/O queue from the queue count on holds anything; a controller
-- that is CONNECTING, or that has a reconnect pending, holds nothing; and only works that fit the
-- controller's state are pending.
pub Reached-IsGood : (e : CreateEnv) (ds : Devices) (t : System) → Reached e ds t → IsGood t
Reached-IsGood e ds t (admin, io, d, first, steps) =
    Steps-IsGood e.settings (created e ds admin io d) t steps (created-IsGood e ds admin io d first)

Fits-refused :
    (s : System)
    → Fits s.ctrl.nvme s.pending
    → (s.pending.err_work ≡ false)
      ⊎ ((change_ctrl_state s.ctrl.nvme connecting).1 ≡ true)
      ⊎ (s.ctrl.nvme.state ≡ deleting)
unfolding fits change_ctrl_state
Fits-refused s h = ground arith

-- Of a controller after such a sequence, no error recovery is pending, or its request for the state
-- CONNECTING succeeds, or the controller is DELETING, which is what the warning of
-- nvme_rdma_error_recovery_work relies on.
change_ctrl_state-Reached :
    (e : CreateEnv) (ds : Devices) (t : System)
    → Reached e ds t
    → (t.pending.err_work ≡ false)
      ⊎ ((change_ctrl_state t.ctrl.nvme connecting).1 ≡ true)
      ⊎ (t.ctrl.nvme.state ≡ deleting)
change_ctrl_state-Reached e ds t r = Fits-refused t (Reached-IsGood e ds t r).fit

-- Deleting a controller after such a sequence leaves nothing held of its queues and of the entry of
-- its asynchronous event.
pub do_delete_ctrl-Reached :
    (e : CreateEnv) (ds : Devices) (t : System) → Reached e ds t → IsOff (do_delete_ctrl t.ctrl)
do_delete_ctrl-Reached e ds t r = do_delete_ctrl-IsOff t.ctrl (Reached-IsGood e ds t r).sound
