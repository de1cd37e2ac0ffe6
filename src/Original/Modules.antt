-- ===== src/Original/Modules.antt =====
-- Loading and unloading the driver that measures, in
-- shell/nvme-of_setup/nvme-modified/host/rdma.c, against the Linux driver it started from, in
-- shell/nvme-of_setup/nvme/host/rdma.c.
use net_cas.Common.{◌≡◌, Bool, not, ◌&&◌, arith, if◌then◌else◌}
use net_cas.Common.Code.{is_zero}
use net_cas.Common.Ledger.{give}
use net_cas.Driver.Load.{Loaded, LoadEnv, init_module, cleanup_module}
use net_cas.Original

-- Both drivers have registered the same, but for the sysfs object of the one that measures.
pub record SameLoaded (l o : Loaded) : Type 0 where
  pub client : l.client ≡ o.client
  pub transport : l.transport ≡ o.transport
  pub driver : l.driver ≡ o.driver

-- The two registrations succeed and the sysfs object or its group fails.
abbrev pub sysfs_fails : LoadEnv → Bool
sysfs_fails e =
    is_zero e.register_client
    && (is_zero e.register_transport && not (e.create_kobj && is_zero e.create_group))

-- nvme_rdma_init_module registers and returns what the original does, unless a step for sysfs fails:
-- then it also unregisters the client, and returns the error of the group if it was the group.
pub init_module-original :
    (e : LoadEnv) (l o : Loaded)
    → SameLoaded l o
    → ((init_module e l).0
        ≡ (if sysfs_fails e && e.create_kobj then e.create_group else (Original.init_module e o).0))
      × ((init_module e l).1.client ≡ (
          if sysfs_fails e
          then give 1 (Original.init_module e o).1.client
          else (Original.init_module e o).1.client))
      × ((init_module e l).1.transport ≡ (Original.init_module e o).1.transport)
      × ((init_module e l).1.driver ≡ (Original.init_module e o).1.driver)
unfolding init_module Original.init_module
init_module-original e l o h = ground (arith, h.client, h.transport, h.driver)

-- nvme_rdma_cleanup_module keeps them the same.
cleanup_module-SameLoaded :
    (queued : Bool) (l o : Loaded)
    → SameLoaded l o
    → SameLoaded (cleanup_module queued l) (Original.cleanup_module queued o)
unfolding cleanup_module Original.cleanup_module
cleanup_module-SameLoaded queued l o h = ground (arith, h.client, h.transport, h.driver)
