-- ===== src/Examples/Queues.antt =====
-- Runs of the queues' objects and of the connection manager's events, of
-- shell/nvme-of_setup/nvme-modified/host/rdma.c.
use net_cas.Common.{refl, true, arith}
use net_cas.Queue.Objects.{IsBalanced}
use net_cas.Device.{find_get_device, find_get, new_device}
use net_cas.Ring.{alloc_qe, alloc_ring, alloc_entries}
use net_cas.Queue.{create_queue_ib, create_cq, create_qp, create_ring, create_mr_pool}
use net_cas.Queue.Cm.{
  alloc_queue, init_queue, cm_handler, report, conn_established, complete_established, post_recvs,
  on_route_resolved, on_addr_resolved,
}
use net_cas.Queue.Cm.Alloc.{IsIdle}
use net_cas.Queue.Cm.Connected.{
  Orderly, resolving, connecting_from, Connected, alloc_queue-Connected,
}
use net_cas.Examples.{good_alloc, idle_queue, idle_link, two_shared}

idle_queue-IsBalanced : IsBalanced idle_queue.queue
idle_queue-IsBalanced = ground arith

nothing_held : IsIdle idle_queue.queue
nothing_held = record {
  owned = record { balanced = idle_queue-IsBalanced; cm_ids = refl };
  not_allocated = refl;
  not_ready = refl;
}

good_events-Orderly :
    Orderly true two_shared 1 resolving good_alloc.events (connecting_from 260 1 4 idle_link)
unfolding init_queue cm_handler report conn_established complete_established post_recvs
    on_route_resolved on_addr_resolved create_queue_ib find_get_device find_get new_device create_cq
    create_qp create_ring create_mr_pool alloc_ring alloc_entries alloc_qe
good_events-Orderly = (refl, (refl, (refl, tt)))

alloc_queue-Connected_example :
    Connected
      (alloc_queue true two_shared 260 1 4 good_alloc idle_link).0
      (alloc_queue true two_shared 260 1 4 good_alloc idle_link).1.link.queue
alloc_queue-Connected_example =
    alloc_queue-Connected true two_shared 260 1 4 good_alloc idle_link nothing_held
      good_events-Orderly
