-- ===== src/Driver/Load.antt =====
-- shell/nvme-of_setup/nvme-modified/host/rdma.c: nvme_rdma_init_module and nvme_rdma_cleanup_module,
-- with the sysfs group of the metrics.
use net_cas.Common.{◌+◌, Bool, true, false, List, [], ◌∷◌, if◌then◌else◌}
use net_cas.Common.Code.{ℤ, is_zero, success}
use net_cas.Common.Ledger.{Ledger, gain, give}
use net_cas.Driver.{Driver, Listed, delete_entry}

-- What is registered; `kobj_set` says whether `rdma_metrics_kobj` is a pointer.
pub record Loaded : Type 0 where
  pub client : Ledger
  pub transport : Ledger
  pub kobj : Ledger
  pub group : Ledger
  pub kobj_set : Bool
  pub driver : Driver

pub record LoadEnv : Type 0 where
  pub register_client : ℤ
  pub register_transport : ℤ
  pub create_kobj : Bool
  pub create_group : ℤ

unfoldable err_unreg_client : Loaded → Loaded
err_unreg_client l = record l { client = give 1 l.client }

-- From kobject_create_and_add on; `ret` is still the 0 of nvmf_register_transport.
unfoldable init_sysfs : LoadEnv → Loaded → ℤ × Loaded
unfolding err_unreg_client
init_sysfs e l =
    let t = record l { kobj = gain 1 l.kobj; kobj_set = true } in
    if e.create_kobj
    then if is_zero e.create_group
      then (success, record t { group = gain 1 t.group })
      else (e.create_group, err_unreg_client (record t { kobj = give 1 t.kobj }))
    else (success, err_unreg_client (record l { kobj_set = false }))

unfoldable pub init_module : LoadEnv → Loaded → ℤ × Loaded
unfolding init_sysfs
init_module e l =
    let t = record l { client = gain 1 l.client } in
    if is_zero e.register_client
    then if is_zero e.register_transport
      then init_sysfs e (record t { transport = gain 1 t.transport })
      else (e.register_transport, err_unreg_client t)
    else (e.register_client, l)

unfoldable pub delete_all : Bool → List Listed → List Listed
delete_all queued [] = []
delete_all queued (c ∷ cs) = delete_entry queued c ∷ delete_all queued cs

unfoldable pub cleanup_module : Bool → Loaded → Loaded
cleanup_module queued l =
    let d = l.driver in
    let t = if l.kobj_set then record l { group = give 1 l.group; kobj = give 1 l.kobj } else l in
    record t {
      transport = give 1 t.transport;
      client = give 1 t.client;
      driver = record d { ctrls = delete_all queued d.ctrls; flushes = d.flushes + 1 };
    }
