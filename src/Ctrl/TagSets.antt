-- ===== src/Ctrl/TagSets.antt =====
-- shell/nvme-of_setup/nvme-modified/host/rdma.c: the block layer's tag sets
-- (nvme_rdma_alloc_tagset), and which queue a hardware context, a request and a response's tag belong
-- to (nvme_rdma_init_hctx, nvme_rdma_init_admin_hctx, nvme_rdma_init_request, nvme_rdma_exit_request,
-- nvme_rdma_tagset).
pub mod Indices
use net_cas.Common.{
  ℕ, ◌+◌, ◌-◌, ◌%◌, Bool, true, false, leb, ltb, not, ◌==◌, Option, none, some, if◌then◌else◌,
}
use net_cas.Common.Code.{ℤ, success, enomem}
use net_cas.Common.Ledger.{Ledger, gain, give}
use net_cas.Counts.{QueueOptions, u32}
use net_cas.Ctrl.{Ctrl}

-- The fields of `struct blk_mq_tag_set` that depend on the controller; `is_admin` says which of the
-- controller's two sets it is.
pub record TagSet : Type 0 where
  pub is_admin : Bool
  pub queue_depth : ℕ
  pub reserved_tags : ℕ
  pub nr_hw_queues : ℕ
  pub nr_maps : ℕ

-- NVME_AQ_MQ_TAG_DEPTH and HCTX_MAX_TYPES.
pub record TagLimits : Type 0 where
  pub admin_depth : ℕ
  pub max_types : ℕ

unfoldable pub alloc_tagset : TagLimits → QueueOptions → Bool → Ctrl → TagSet
alloc_tagset l o true c = record {
  is_admin = true;
  queue_depth = l.admin_depth;
  reserved_tags = 2;
  nr_hw_queues = 1;
  nr_maps = 0;
}
alloc_tagset l o false c = record {
  is_admin = false;
  queue_depth = c.identified.sqsize + 1;
  reserved_tags = 1;
  nr_hw_queues = u32 (c.counts.queue_count + 4294967295);
  nr_maps = if o.nr_poll_queues == 0 then 2 else l.max_types;
}

-- The index of the queue, or `none` where BUG_ON stops the kernel.
unfoldable pub init_hctx : Ctrl → ℕ → Option ℕ
init_hctx c hctx_idx = if leb c.counts.queue_count hctx_idx then none else some (hctx_idx + 1)

unfoldable pub init_admin_hctx : ℕ → Option ℕ
init_admin_hctx hctx_idx = if hctx_idx == 0 then some 0 else none

-- The return code, the index of `req->queue`, and the buffers for commands.
unfoldable pub init_request : TagSet → Bool → ℕ → Ledger → ℤ × Option ℕ × Ledger
init_request set kzalloc hctx_idx buffers =
    let queue_idx = if set.is_admin then 0 else hctx_idx + 1 in
    if kzalloc then (success, some queue_idx, gain 1 buffers) else (enomem, none, buffers)

unfoldable exit_request : Ledger → Ledger
exit_request buffers = give 1 buffers

-- nvme_rdma_tagset: whether it is the admin set, and the index in `tags`.
unfoldable pub tagset : ℕ → Bool × ℕ
tagset queue_idx = if queue_idx == 0 then (true, queue_idx) else (false, queue_idx - 1)
