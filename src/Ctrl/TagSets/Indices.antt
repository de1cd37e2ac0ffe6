-- ===== src/Ctrl/TagSets/Indices.antt =====
-- The indices of queues, hardware contexts and tags, in
-- shell/nvme-of_setup/nvme-modified/host/rdma.c, against one another.
use net_cas.Common.{ℕ, ◌+◌, ◌≤◌, ◌<◌, ◌≡◌, Bool, true, false, some, arith, if◌then◌else◌}
use net_cas.Common.Ledger.{Ledger}
use net_cas.Counts.{QueueOptions, allocated_queues}
use net_cas.Ctrl.{Ctrl}
use net_cas.Ctrl.TagSets.{TagLimits, alloc_tagset, init_hctx, init_admin_hctx, init_request, tagset}

-- For a controller with at least one queue and no more than its array of queues holds, and each
-- hardware context of either tag set: the context gets a queue inside the array and below the queue
-- count, the requests made for the context get the same queue, and the tags that a response on that
-- queue is looked up in are those of the same set and context.
pub init_hctx-tagset :
    (l : TagLimits) (o : QueueOptions) (admin : Bool) (c : Ctrl) (hctx_idx : ℕ) (buffers : Ledger)
    → 0 < c.counts.queue_count
    → c.counts.queue_count ≤ allocated_queues o
    → hctx_idx < (alloc_tagset l o admin c).nr_hw_queues
    → (i : ℕ) × (i < allocated_queues o)
      × (i < c.counts.queue_count)
      × ((if admin then init_admin_hctx hctx_idx else init_hctx c hctx_idx) ≡ some i)
      × ((init_request (alloc_tagset l o admin c) true hctx_idx buffers).1 ≡ some i)
      × (tagset i ≡ (admin, hctx_idx))
unfolding allocated_queues alloc_tagset init_hctx init_admin_hctx init_request tagset
init_hctx-tagset l o true c hctx_idx buffers some_queue few h =
    (0, ground arith, ground arith, ground arith, ground arith, ground arith)
init_hctx-tagset l o false c hctx_idx buffers some_queue few h =
    (hctx_idx + 1, ground arith, ground arith, ground arith, ground arith, ground arith)

-- The check of nvme_rdma_init_hctx lets one index too many through: for the last index that it
-- accepts, the queue is outside the array.
init_hctx-last :
    (c : Ctrl) (n : ℕ)
    → c.counts.queue_count ≡ n + 1
    → (i : ℕ) × (init_hctx c n ≡ some i) × (c.counts.queue_count ≤ i)
unfolding init_hctx
init_hctx-last c n h = (n + 1, ground arith, omega arith)
