-- ===== src/Examples/Posting.antt =====
-- Work requests, tag sets and the asynchronous event of shell/nvme-of_setup/nvme-modified/host/rdma.c
-- at concrete inputs.
use net_cas.Common.{ℕ, ◌<◌, ◌≡◌, refl, false, true, some, arith}
use net_cas.Common.Ledger.{nothing}
use net_cas.Request.{map_data, map_dma, map_segments}
use net_cas.Request.Posting.Agreement.{Carries, map_data-Carries}
use net_cas.Ctrl.TagSets.{TagLimits, alloc_tagset, init_hctx, init_request, tagset}
use net_cas.Ctrl.TagSets.Indices.{init_hctx-tagset}
use net_cas.Counts.{allocated_queues}
use net_cas.Examples.{two_queues}
use net_cas.Examples.Ctrls.{connecting_ctrl}
use net_cas.Examples.Requests.{idle, two_segments, context, mapping}

map_data-Carries_example :
    Carries 512
      (map_data context mapping two_segments idle).1.dptr.type_of
      (map_data context mapping two_segments idle).1
unfolding map_data map_dma map_segments
map_data-Carries_example = map_data-Carries 512 context mapping two_segments idle refl refl

abbrev limits : TagLimits
limits = record { admin_depth = 31; max_types = 3 }

init_hctx-tagset_example :
    (i : ℕ) × (i < allocated_queues two_queues)
    × (i < 3)
    × (init_hctx connecting_ctrl 1 ≡ some i)
    × ((init_request (alloc_tagset limits two_queues false connecting_ctrl) true 1 nothing).1
        ≡ some i)
    × (tagset i ≡ (false, 1))
unfolding alloc_tagset allocated_queues
init_hctx-tagset_example =
    init_hctx-tagset limits two_queues false connecting_ctrl 1 nothing (omega arith) (omega arith)
      (omega arith)
