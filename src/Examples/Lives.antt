-- ===== src/Examples/Lives.antt =====
-- Lives of controllers of shell/nvme-of_setup/nvme-modified/host/rdma.c: what is answered in them, and
-- the steps of their works.
use net_cas.Common.{◌≡◌, refl, false, true, not, [], ◌∷◌, List, arith}
use net_cas.CtrlState.{error_recovery, delete_ctrl}
use net_cas.Ctrl.Admin.{AdminEnv}
use net_cas.Ctrl.Io.{IoEnv}
use net_cas.Ctrl.Setup.{setup_ctrl, delete_rdma_ctrl, do_delete_ctrl}
use net_cas.Ctrl.Resources.{IsOff}
use net_cas.Ctrl.Resources.Setup.{Resolving, Ready, setup_ctrl-Ready}
use net_cas.Common.Code.{pos, is_zero}
use net_cas.Common.Ledger.{give}
use net_cas.Ctrl.Io.{alloc_io_queues}
use net_cas.Ctrl.Resources.Blk.{delete_rdma_ctrl-alloc_io_queues}
use net_cas.Driver.Zeroed.{no_devices}
use net_cas.Life.{System, done, then_one, error, ask_delete, answers, shared}
use net_cas.Life.Accepted.{Attempt, IsAccepted}
use net_cas.Life.Attempts.{Ended, attempts, attempts-Ended}
use net_cas.Life.Invariant.{IsGood}
use net_cas.Life.Reached.{Reached, created, Reached-IsGood, do_delete_ctrl-Reached}
use net_cas.Examples.{good_alloc, all_granted}
use net_cas.Examples.Ctrls.{
  settings, admin_env, io_env, setup_env, connecting_ctrl, creation, zeroed_queue-IsIdle,
}

connecting_ctrl-IsOff : IsOff connecting_ctrl
connecting_ctrl-IsOff = record {
  idle = λ j. zeroed_queue-IsIdle;
  no_event = refl;
  released = (refl, refl);
}

setup_env-Resolving : Resolving setup_env
setup_env-Resolving = record { admin = ground arith; io = λ j. ground arith }

setup_ctrl-Ready_example : Ready (setup_ctrl settings true setup_env connecting_ctrl)
setup_ctrl-Ready_example =
    setup_ctrl-Ready settings true setup_env connecting_ctrl setup_env-Resolving
      connecting_ctrl-IsOff

-- Answers with which everything succeeds.
abbrev good_admin : AdminEnv
good_admin = record admin_env { identified = record (admin_env.identified) { keyed_sgls = true } }

abbrev good_io : IoEnv
good_io = record io_env { alloc = λ i. good_alloc }

-- The second I/O queue fails twice, and then the controller is deleted.
abbrev tries : List Attempt
tries =
    record { admin = good_admin; io = io_env; deleted = false }
    ∷ record { admin = good_admin; io = io_env; deleted = false }
    ∷ record { admin = good_admin; io = good_io; deleted = true }
    ∷ []

good_admin-Resolving : Resolving (answers good_admin good_io true true)
good_admin-Resolving = record { admin = ground arith; io = λ j. ground arith }

again-IsAccepted : IsAccepted (record { admin = good_admin; io = io_env; deleted = false })
again-IsAccepted = record {
  resolves = record { admin = ground arith; io = λ j. ground arith };
  fits = refl;
  keyed = refl;
}

last-IsAccepted : IsAccepted (record { admin = good_admin; io = good_io; deleted = true })
last-IsAccepted = record { resolves = good_admin-Resolving; fits = refl; keyed = refl }

attempts-Ended_example : Ended (attempts settings tries connecting_ctrl)
attempts-Ended_example =
    attempts-Ended settings 3 tries connecting_ctrl
      (again-IsAccepted, (again-IsAccepted, (last-IsAccepted, tt))) refl refl (omega arith)
      (omega arith) connecting_ctrl-IsOff

abbrev new_system : System
new_system = created creation no_devices good_admin good_io false

abbrev failed_system : System
failed_system = shared (error_recovery new_system.ctrl.nvme) new_system

-- A controller that is created, has an error and is asked to be deleted.
abbrev deleting_system : System
deleting_system =
    shared (delete_ctrl (not failed_system.pending.delete_work) failed_system.ctrl.nvme).0
      failed_system

deleting_system-Reached : Reached creation no_devices deleting_system
deleting_system-Reached = (
  good_admin,
  good_io,
  false,
  record { admin = ground arith; io = λ j. ground arith },
  then_one new_system failed_system deleting_system
      (then_one new_system new_system failed_system (done new_system) (error new_system))
      (ask_delete failed_system),
)

Reached-IsGood_example : IsGood deleting_system
Reached-IsGood_example = Reached-IsGood creation no_devices deleting_system deleting_system-Reached

do_delete_ctrl-Reached_example : IsOff (do_delete_ctrl deleting_system.ctrl)
do_delete_ctrl-Reached_example =
    do_delete_ctrl-Reached creation no_devices deleting_system deleting_system-Reached

-- The controller grants no I/O queue.
abbrev degraded_io : IoEnv
degraded_io = record good_io { granted = record all_granted { status = pos 1 } }

delete_rdma_ctrl-alloc_io_queues_example :
    ((delete_rdma_ctrl connecting_ctrl).blk.tagset ≡ give 1 connecting_ctrl.blk.tagset)
    × ((delete_rdma_ctrl connecting_ctrl).blk.connect_q ≡ give 1 connecting_ctrl.blk.connect_q)
    × (is_zero (alloc_io_queues settings degraded_io connecting_ctrl).0 ≡ true)
    × ((delete_rdma_ctrl (alloc_io_queues settings degraded_io connecting_ctrl).1).blk.tagset
        ≡ connecting_ctrl.blk.tagset)
    × ((delete_rdma_ctrl (alloc_io_queues settings degraded_io connecting_ctrl).1).blk.connect_q
        ≡ connecting_ctrl.blk.connect_q)
delete_rdma_ctrl-alloc_io_queues_example =
    delete_rdma_ctrl-alloc_io_queues settings degraded_io connecting_ctrl (omega arith) refl
