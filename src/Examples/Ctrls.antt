-- ===== src/Examples/Ctrls.antt =====
-- Runs of the routines that set controllers up, and that load the module, of
-- shell/nvme-of_setup/nvme-modified/host/rdma.c.
use net_cas.Common.{◌≡◌, refl, false, true, ◌==◌, if◌then◌else◌, [], ◌∷◌, arith, none}
use net_cas.Common.Code.{pos, negsuc, success, is_zero}
use net_cas.Common.Lists.{All}
use net_cas.Common.Ledger.{nothing}
use net_cas.CtrlState.{State}
use net_cas.Device.{find_get_device, find_get, new_device, dev_get}
use net_cas.Ring.{alloc_qe, alloc_ring, alloc_entries}
use net_cas.Queue.{
  destroy_queue_ib, create_queue_ib, create_cq, create_qp, create_ring, create_mr_pool,
}
use net_cas.Queue.Cm.{
  alloc_queue, init_queue, out_destroy_cm_id, finish_alloc, wait_for_cm, handle_events, cm_handler,
  report, conn_established, complete_established, post_recvs, on_route_resolved, on_addr_resolved,
}
use net_cas.Queue.Cm.Alloc.{IsIdle}
use net_cas.Ctrl.{Ctrl, Settings, alloc_queue_at, io_count}
use net_cas.Ctrl.Arrays.{Split}
use net_cas.Ctrl.Admin.{AdminEnv}
use net_cas.Ctrl.Io.{IoEnv, alloc_io_queues}
use net_cas.Ctrl.Io.Balance.{kept}
use net_cas.Ctrl.Io.Connected.{OrderlyLoop, counted_ctrl, Divided, alloc_io_queues-Divided}
use net_cas.Counts.{count_io_queues, set_queue_count, wanted}
use net_cas.Ctrl.Setup.{SetupEnv, setup_ctrl}
use net_cas.Ctrl.Setup.Outcome.{IsDown, setup_ctrl-rejected, configure_admin_queue-success}
use net_cas.Driver.{Driver, CreateEnv, create_ctrl, is_known, remove_one}
use net_cas.Driver.Zeroed.{zeroed, zeroed_queue, no_devices}
use net_cas.Driver.Load.{Loaded, LoadEnv}
use net_cas.Driver.Balance.{IsBalanced, IsGone, create_ctrl-IsBalanced, remove_one-IsGone}
use net_cas.Examples.{nvme_in, two_queues, all_granted, good_alloc, good_qe}

abbrev pub settings : Settings
settings = record { register_always = true; options = two_queues; queue_size = 4 }

pub zeroed_queue-IsIdle : IsIdle zeroed_queue
zeroed_queue-IsIdle = ground arith

abbrev fresh_ctrl : Ctrl
fresh_ctrl = record zeroed {
  counts = record (zeroed.counts) { queue_count = 3 };
  identified = record (zeroed.identified) { sqsize = 3; ioccsz = 260 };
}

-- The connection of the second I/O queue fails.
abbrev pub io_env : IoEnv
io_env = record {
  num_comp_vectors = 4;
  online = 4;
  granted = all_granted;
  alloc = λ i. if i == 2 then record good_alloc { resolve_addr = negsuc 21 } else good_alloc;
  alloc_tagset = success;
  init_connect_q = success;
  connect = λ i. success;
}

zeroed-Split : Split 1 fresh_ctrl
zeroed-Split j above = (λ below. absurd (omega arith), λ rest. zeroed_queue-IsIdle)

io_env-OrderlyLoop :
    OrderlyLoop settings io_env.alloc
      (io_count (counted_ctrl settings io_env fresh_ctrl))
      1
      (counted_ctrl settings io_env fresh_ctrl)
unfolding alloc_queue_at alloc_queue init_queue out_destroy_cm_id finish_alloc wait_for_cm
    handle_events cm_handler report conn_established complete_established post_recvs
    on_route_resolved on_addr_resolved create_queue_ib destroy_queue_ib find_get_device find_get
    new_device create_cq create_qp create_ring create_mr_pool alloc_ring alloc_entries alloc_qe
    dev_get count_io_queues set_queue_count wanted
io_env-OrderlyLoop = ((refl, (refl, (refl, tt))), ((refl, (refl, (refl, tt))), tt))

alloc_io_queues-Divided_example :
    Divided
      (kept (alloc_io_queues settings io_env fresh_ctrl))
      (alloc_io_queues settings io_env fresh_ctrl).1
alloc_io_queues-Divided_example =
    alloc_io_queues-Divided settings io_env fresh_ctrl (λ j. ground arith) io_env-OrderlyLoop
      zeroed-Split

-- A controller that supports no keyed SGLs.
abbrev pub admin_env : AdminEnv
admin_env = record {
  aq_depth = 2;
  alloc = good_alloc;
  max_fast_reg_page_list_len = 65536;
  async_qe = good_qe;
  alloc_tagset = success;
  init_fabrics_q = success;
  init_admin_q = success;
  connect = success;
  enable_ctrl = success;
  init_identify = success;
  identified = record {
    icdoff = 0;
    keyed_sgls = false;
    offset_sgls = false;
    sqsize = 31;
    maxcmd = 0;
    ioccsz = 4;
  };
}

abbrev pub setup_env : SetupEnv
setup_env = record { admin = admin_env; io = io_env; before_live = λ n. n }

abbrev pub connecting_ctrl : Ctrl
connecting_ctrl = record fresh_ctrl { nvme = nvme_in State.connecting }

admin_env-allocates : is_zero (alloc_queue_at settings 0 2 good_alloc connecting_ctrl).0 ≡ true
unfolding alloc_queue_at alloc_queue init_queue finish_alloc wait_for_cm handle_events cm_handler
    report conn_established complete_established post_recvs on_route_resolved on_addr_resolved
    create_queue_ib find_get_device find_get new_device create_cq create_qp create_ring
    create_mr_pool alloc_ring alloc_entries alloc_qe
admin_env-allocates = refl

setup_ctrl-rejected_example :
    (is_zero (setup_ctrl settings true setup_env connecting_ctrl).0 ≡ true)
    × IsDown (setup_ctrl settings true setup_env connecting_ctrl).1
unfolding alloc_qe
setup_ctrl-rejected_example =
    let s =
      configure_admin_queue-success settings true admin_env connecting_ctrl admin_env-allocates refl
        refl refl refl refl refl refl in
    setup_ctrl-rejected settings true setup_env connecting_ctrl s.0 (rw (s.1) refl)

abbrev no_ctrls : Driver
no_ctrls = record {
  devices = no_devices;
  ctrls = [];
  memory = nothing;
  arrays = nothing;
  flushes = 0;
}

abbrev pub creation : CreateEnv
creation = record {
  settings = settings;
  association = record {
    subsysnqn = 1;
    host_nqn = 2;
    host_id = 3;
    traddr = 4;
    trsvcid = 4420;
    host_traddr = none;
  };
  max_reconnects = pos 3;
  has_trsvcid = true;
  has_host_traddr = false;
  duplicate_connect = false;
  alloc_ctrl = true;
  dup_trsvcid = true;
  address = success;
  host_address = success;
  alloc_queues = true;
  init_ctrl = success;
  setup = setup_env;
}

create_ctrl-IsBalanced_example : IsBalanced (create_ctrl creation no_ctrls).1
create_ctrl-IsBalanced_example = create_ctrl-IsBalanced creation no_ctrls (refl, refl)

abbrev pub unloaded : Loaded
unloaded = record {
  client = nothing;
  transport = nothing;
  kobj = nothing;
  group = nothing;
  kobj_set = false;
  driver = no_ctrls;
}

-- The sysfs object cannot be created.
abbrev pub no_sysfs : LoadEnv
no_sysfs = record {
  register_client = success;
  register_transport = success;
  create_kobj = false;
  create_group = success;
}

abbrev one_ctrl : Driver
one_ctrl = record no_ctrls {
  devices = record no_devices {
    list =
        record {
          dev = 4096;
          ib_device = 5000;
          node_guid = 77;
          ref = 1;
          num_inline_segments = 4;
          unsafe_global_rkey = false;
        }
        ∷ [];
  };
  ctrls =
      record { nvme = nvme_in State.live; association = creation.association; ib_device = 5000 }
      ∷ [];
}

remove_one-IsGone_example : All (IsGone 5000) (remove_one true 5000 one_ctrl).ctrls
unfolding is_known
remove_one-IsGone_example = remove_one-IsGone true 5000 one_ctrl refl
