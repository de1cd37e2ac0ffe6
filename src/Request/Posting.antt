-- ===== src/Request/Posting.antt =====
-- shell/nvme-of_setup/nvme-modified/host/rdma.c: the work requests that the driver posts
-- (nvme_rdma_post_send, nvme_rdma_post_recv, nvme_rdma_inv_rkey), and the command that asks for
-- asynchronous events (nvme_rdma_submit_async_event).
pub mod Agreement
use net_cas.Common.{ℕ, List, [], ◌∷◌, Option, none, some, Bool, true, if◌then◌else◌}
use net_cas.Common.Lists.{take}
use net_cas.Request.{Request, Sge, Descriptor, key_data, put_le24}

-- IB_WR_SEND with the entries of its list, IB_WR_REG_MR and IB_WR_LOCAL_INV with their key.
pub data SendWr : Type 0 where
  send : List Sge → SendWr
  reg_mr : ℕ → SendWr
  local_inv : ℕ → SendWr

-- `sizeof(struct nvme_command)` and `sizeof(struct nvme_completion)`
abbrev command_bytes : ℕ
command_bytes = 64

abbrev completion_bytes : ℕ
completion_bytes = 16

-- The first entry, which nvme_rdma_post_send fills for the command at the address `dma`.
abbrev pub command_sge : ℕ → Sge
command_sge dma = record { addr = dma; length = command_bytes }

-- The chain that ib_post_send is given; `first` is the key of the registration, if there is one, and
-- `rest` stands for the entries after the first.
unfoldable pub post_send : ℕ → List Sge → ℕ → Option ℕ → List SendWr
post_send dma rest num_sge first =
    let wr = send (take num_sge (command_sge dma ∷ rest)) in
    elim first [ none ↦ wr ∷ [] | some key ↦ reg_mr key ∷ wr ∷ [] ]

-- The call of nvme_rdma_queue_rq: `req->mr ? &req->reg_wr.wr : NULL`.
unfoldable pub post_request : ℕ → Request → List SendWr
unfolding post_send
post_request dma r =
    post_send dma r.sge r.num_sge (elim r.mr [ none ↦ none | some rkey ↦ some r.reg_key ])

-- The buffer of one completion, at the address `dma`.
unfoldable pub post_recv : ℕ → Sge
post_recv dma = record { addr = dma; length = completion_bytes }

-- nvme_rdma_inv_rkey
unfoldable pub post_inv : ℕ → List SendWr
post_inv rkey = local_inv rkey ∷ []

-- The fields of the asynchronous event command that the driver sets; all others are 0.
record EventCommand : Type 0 where
  pub command_id : ℕ
  pub metabuf : Bool
  pub dptr : Descriptor

-- `aq_blk_mq_depth` is NVME_AQ_BLK_MQ_DEPTH, and `dma` the address of `async_event_sqe`.
unfoldable submit_async_event : ℕ → ℕ → EventCommand × List SendWr
unfolding post_send put_le24
submit_async_event aq_blk_mq_depth dma = (
  record {
    command_id = aq_blk_mq_depth;
    metabuf = true;
    dptr = record { addr = 0; length = put_le24 0; key = 0; type_of = key_data };
  },
  post_send dma [] 1 none,
)
