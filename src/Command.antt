-- ===== src/Command.antt =====
-- shell/nvme-of_setup/nvme-modified/host/core.c: nvme_setup_cmd, which nvme_rdma_queue_rq calls for the
-- command of a request, with the routine of each kind of request, and nvme_cleanup_cmd.
pub mod Discard
pub mod Rw
pub mod Kinds
pub mod Pages
pub mod Extents
pub mod Transfers
use net_cas.Common.{
  ℕ, ◌+◌, ◌-◌, ◌/◌, ◌%◌, Bool, true, false, not, ◌&&◌, ◌||◌, List, [], ◌∷◌, ltb, ◌==◌,
  if◌then◌else◌,
}
use Prim.Native.Nat.{◌^◌}
use net_cas.Common.Lists.{update}
use net_cas.Common.Ledger.{Ledger, gain, give}
use net_cas.Fabrics.{BlkStatus, sts_ok, sts_resource, sts_ioerr, sts_notsupp}

-- `pi_type`: no protection information, or one of its three types.
pub data PiType : Type 0 where
  no_pi pi_type1 pi_type2 pi_type3 : PiType

-- The fields of `struct nvme_ns`, and of its controller, that commands depend on: `deallocate` is
-- NVME_QUIRK_DEALLOCATE_ZEROES.
pub record Namespace : Type 0 where
  pub ns_id : ℕ
  pub lba_shift : ℕ
  pub ms : ℕ
  pub pi_type : PiType
  pub deallocate : Bool
  pub nr_streams : ℕ

-- nvme_ns_has_pi; `struct t10_pi_tuple` has 8 bytes.
unfoldable pub has_pi : Namespace → Bool
has_pi ns = elim (ns.pi_type) [ no_pi ↦ false | _ ↦ ns.ms == 8 ]

-- nvme_block_nr
unfoldable pub block_nr : Namespace → ℕ → ℕ
block_nr ns sector = sector / 2 ^ (ns.lba_shift - 9)

pub record Bio : Type 0 where
  pub sector : ℕ
  pub size : ℕ

-- REQ_OP_*; `op_drv` is DRV_IN and DRV_OUT.
pub data Op : Type 0 where
  op_drv op_flush op_write_zeroes op_discard op_read op_write op_other : Op

-- What the block layer says of a request: `cmd` names the command that a passthrough request brings,
-- `segments` is blk_rq_nr_discard_segments, and `hint` its write_hint.
pub record BlockRq : Type 0 where
  pub op : Op
  pub fua : Bool
  pub failfast_dev : Bool
  pub rahead : Bool
  pub hint : ℕ
  pub pos : ℕ
  pub bytes : ℕ
  pub bios : List Bio
  pub segments : ℕ
  pub integrity : Bool
  pub ref_tag : ℕ
  pub cmd : ℕ

-- One entry of the list of ranges of a discard.
pub record Range : Type 0 where
  pub slba : ℕ
  pub nlb : ℕ

-- The bits of `control`, and `dsmgmt`.
pub record Control : Type 0 where
  pub rw_fua : Bool
  pub rw_lr : Bool
  pub dtype_streams : Bool
  pub prinfo_pract : Bool
  pub prchk_guard : Bool
  pub prchk_ref : Bool

pub record Dsmgmt : Type 0 where
  pub freq_prefetch : Bool
  pub stream : ℕ

pub record RwCommand : Type 0 where
  pub write : Bool
  pub ns_id : ℕ
  pub slba : ℕ
  pub length : ℕ
  pub reftag : ℕ
  pub control : Control
  pub dsmgmt : Dsmgmt

-- `struct nvme_command`: all zero, copied from the request, or of one of the kinds.
pub data Command : Type 0 where
  zeroed : Command
  copied : ℕ → Command
  flush : (ns_id : ℕ) → Command
  dsm : (ns_id nr : ℕ) → Command
  write_zeroes : (ns_id slba length : ℕ) → Command
  read_write : RwCommand → Command

-- The buffer for NVME_DSM_MAX_RANGES = 256 entries; `overrun` counts the entries that are written past
-- its end.
pub record Ranges : Type 0 where
  pub entry : ℕ → Range
  pub overrun : ℕ

-- RQF_SPECIAL_PAYLOAD: whether a request has one, and whether it is the discard page of the
-- controller or allocated; with its entries.
pub data Payload : Type 0 where
  no_payload : Payload
  discard_page allocated : Ranges → Payload

-- The request's part in `struct nvme_request` and `rq_flags`.
pub record RqState : Type 0 where
  pub payload : Payload
  pub dontprep : Bool
  pub retries : ℕ
  pub flags : ℕ

-- `discard_page_busy`, the ranges that are allocated, and `write_hints` of the queue.
pub record Shared : Type 0 where
  pub page_busy : Bool
  pub ranges : Ledger
  pub write_hints : ℕ → ℕ

-- Whether kzalloc has memory, and what the memory that is used for the ranges holds.
pub record Memory : Type 0 where
  pub kzalloc : Bool
  pub entries : ℕ → Range

pub record Setup : Type 0 where
  pub status : BlkStatus
  pub command : Command
  pub req : RqState
  pub shared : Shared

unfoldable pub clear_nvme_request : RqState → RqState
clear_nvme_request q =
    if q.dontprep then q else record q { retries = 0; flags = 0; dontprep = true }
