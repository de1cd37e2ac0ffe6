-- ===== src/Examples/Originals.antt =====
-- Calls of the driver of shell/nvme-of_setup/nvme-modified/host/rdma.c and of the original in
-- shell/nvme-of_setup/nvme/host/rdma.c.
use net_cas.Common.{ℕ, ◌≡◌, refl, ◌&&◌, if◌then◌else◌, List, [], ◌∷◌}
use net_cas.Common.Ledger.{give}
use net_cas.Metrics.{initial}
use net_cas.Request.{Request}
use net_cas.Driver.Load.{init_module}
use net_cas.Original
use net_cas.Original.Calls.{Call, submit, complete, measured, original, Erased, measured-original}
use net_cas.Original.Modules.{sysfs_fails, SameLoaded, init_module-original}
use net_cas.Examples.{clock}
use net_cas.Examples.Requests.{idle, two_segments, submission, answers}
use net_cas.Examples.Ctrls.{unloaded, no_sysfs}

-- Two requests are submitted, and complete in the other order.
abbrev crossing : List Call
crossing =
    submit 1 submission answers
    ∷ submit 2 submission answers
    ∷ complete 2 90000 two_segments
    ∷ complete 1 95000 two_segments
    ∷ []

abbrev all_idle : ℕ → Request
all_idle i = idle

measured-original_example :
    ((measured clock crossing (initial, all_idle)).0 ≡ (original crossing all_idle).0)
    × Erased (measured clock crossing (initial, all_idle)).2 (original crossing all_idle).1
measured-original_example = measured-original clock crossing initial all_idle all_idle (λ i. refl)

unloaded-SameLoaded : SameLoaded unloaded unloaded
unloaded-SameLoaded = record { client = refl; transport = refl; driver = refl }

init_module-original_example :
    ((init_module no_sysfs unloaded).0 ≡ (
      if sysfs_fails no_sysfs && no_sysfs.create_kobj
      then no_sysfs.create_group
      else (Original.init_module no_sysfs unloaded).0))
    × ((init_module no_sysfs unloaded).1.client ≡ (
        if sysfs_fails no_sysfs
        then give 1 (Original.init_module no_sysfs unloaded).1.client
        else (Original.init_module no_sysfs unloaded).1.client))
    × ((init_module no_sysfs unloaded).1.transport
        ≡ (Original.init_module no_sysfs unloaded).1.transport)
    × ((init_module no_sysfs unloaded).1.driver ≡ (Original.init_module no_sysfs unloaded).1.driver)
init_module-original_example = init_module-original no_sysfs unloaded unloaded unloaded-SameLoaded
