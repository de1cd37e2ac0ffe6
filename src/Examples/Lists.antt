-- ===== src/Examples/Lists.antt =====
-- Runs of the device list, the counts of queues and the list of controllers, of
-- shell/nvme-of_setup/nvme-modified/host/rdma.c and fabrics.c.
use net_cas.Common.{ℕ, ◌≤◌, ◌≡◌, refl, true, List, [], ◌∷◌, arith, none, ◌↔◌}
use net_cas.CtrlState.{State}
use net_cas.Device.{find_get_device, dev_put}
use net_cas.Device.Refs.{refs, IsValid, find_get_device-IsValid, refs-dev_put-find_get_device}
use net_cas.Counts.{
  IoQueues, QueueCounts, TagSetMaps, QueueMap, Wanted, count_io_queues, allocated_queues,
  map_queues, assign,
}
use net_cas.Counts.Partition.{none_assigned, Covers, count_io_queues-bounded, map_queues-stale}
use net_cas.Fabrics.{Association, existing_controller}
use net_cas.Fabrics.Options.{Connected, existing_controller-Connected}
use net_cas.Driver.Zeroed.{no_devices}
use net_cas.Examples.{mellanox, split_queues, all_granted}

no_devices-IsValid : IsValid no_devices
no_devices-IsValid = record { distinct = tt; pds = refl; memory = refl }

find_get_device-IsValid_example : IsValid (find_get_device true mellanox no_devices).1
find_get_device-IsValid_example =
    find_get_device-IsValid true mellanox no_devices no_devices-IsValid tt

refs-dev_put-find_get_device_example :
    refs 4096 (dev_put 4096 (find_get_device true mellanox no_devices).1).list ≡ 0
unfolding find_get_device refs
refs-dev_put-find_get_device_example =
    refs-dev_put-find_get_device true mellanox no_devices 4096 no_devices-IsValid tt refl

abbrev fresh_counts : ℕ → QueueCounts
fresh_counts n = record { queue_count = n; io_queues = none_assigned }

count_io_queues-bounded_example :
    (count_io_queues split_queues 8 4 all_granted (fresh_counts 5)).1.queue_count ≤ 5
unfolding allocated_queues
count_io_queues-bounded_example =
    count_io_queues-bounded split_queues 8 4 all_granted (fresh_counts 5) (omega arith)
      (omega arith)

abbrev no_map : QueueMap
no_map = record { nr_queues = 0; queue_offset = 0 }

abbrev no_maps : TagSetMaps
no_maps = record { default_map = no_map; read_map = no_map; poll_map = no_map }

abbrev one_each : IoQueues
one_each = record { default_queues = 1; read_queues = 2; poll_queues = 1 }

abbrev two_wanted : Wanted
two_wanted = record { read_queues = 2; default_queues = 1; poll_queues = 1 }

map_queues-stale_example :
    ¬ Covers 2 (map_queues split_queues (assign split_queues two_wanted 2 one_each) no_maps)
map_queues-stale_example =
    map_queues-stale split_queues two_wanted one_each no_maps (omega arith) (omega arith)

abbrev target : Association
target = record {
  subsysnqn = 1;
  host_nqn = 2;
  host_id = 3;
  traddr = 4;
  trsvcid = 4420;
  host_traddr = none;
}

abbrev dying : List (State × Association)
dying = (State.deleting, target) ∷ (State.live, target) ∷ []

existing_controller-Connected_example :
    (existing_controller dying target ≡ true) ↔ Connected dying target
existing_controller-Connected_example = existing_controller-Connected dying target
