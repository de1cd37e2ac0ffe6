-- ===== src/Request.antt =====
-- shell/nvme-of_setup/nvme-modified/host/rdma.c: the data of one request, nvme_rdma_map_data with its
-- ways to describe the data (nvme_rdma_set_sg_null, nvme_rdma_map_sg_inline, nvme_rdma_map_sg_single,
-- nvme_rdma_map_sg_fr), nvme_rdma_unmap_data and nvme_rdma_inline_data_size.
pub mod Submit
pub mod Flight
pub mod Posting
pub mod Ending
pub mod Mapping
use net_cas.Common.{
  ℕ, zero, suc, ◌+◌, ◌-◌, ◌/◌, ◌%◌, Bool, true, false, not, ◌&&◌, List, [], ◌∷◌, Option, none, some,
  leb, ltb, ◌==◌, if◌then◌else◌,
}
use net_cas.Common.Code.{ℤ, pos, negsuc, is_zero, is_neg, success, enomem, eagain, einval, eio}
use net_cas.Common.Ledger.{Ledger, gain, give}

-- What the block layer says of a request.
pub record Rq : Type 0 where
  pub phys_segments : ℕ
  pub payload_bytes : ℕ
  pub write : Bool

-- The `type` of a descriptor: keyed data, data at an offset of the capsule, or keyed data that the
-- target is to invalidate.
pub data SglType : Type 0 where
  key_data data_offset key_data_invalidate : SglType

-- `dptr` of the command; a length of three bytes in a keyed descriptor, of one number in the other.
pub record Descriptor : Type 0 where
  pub addr : ℕ
  pub length : List ℕ
  pub key : ℕ
  pub type_of : SglType

pub record Sge : Type 0 where
  pub addr : ℕ
  pub length : ℕ

-- The parts of `struct nvme_rdma_request` and of the command that the driver fills, with ledgers for
-- what it takes. `mr` holds the rkey of the region,
-- `reg_key` the key of its registration work request, `cleanups` counts the calls of nvme_cleanup_cmd,
-- and `ended` those of nvme_end_request.
pub record Request : Type 0 where
  pub start_time : ℕ
  pub mr : Option ℕ
  pub status : ℕ
  pub result : ℕ
  pub ref : ℕ
  pub sge : List Sge
  pub num_sge : ℕ
  pub nents : ℕ
  pub metabuf : Bool
  pub dptr : Descriptor
  pub reg_key : ℕ
  pub started : Bool
  pub cleanups : ℕ
  pub ended : ℕ
  pub sqe_dma : Ledger
  pub sg_table : Ledger
  pub sg_dma : Ledger
  pub mrs : Ledger

-- The queue and the controller, as far as the mapping depends on them.
pub record MapContext : Type 0 where
  pub queue_idx : ℕ
  pub cmnd_capsule_len : ℕ
  pub num_inline_segments : ℕ
  pub unsafe_global_rkey : Option ℕ
  pub use_inline_data : Bool
  pub icdoff : ℕ

-- What the kernel answers while one request is mapped: sg_alloc_table_chained, blk_rq_map_sg,
-- ib_dma_map_sg with the DMA segments, ib_mr_pool_get, ib_map_mr_sg, the region's address and
-- length, and its key after ib_inc_rkey.
pub record MapEnv : Type 0 where
  pub alloc_table : ℤ
  pub nents : ℕ
  pub dma_count : ℤ
  pub segments : ℕ → Sge
  pub mr_pool_get : Option ℕ
  pub map_mr : ℤ
  pub iova : ℕ
  pub mr_length : ℕ
  pub inc_rkey : ℕ → ℕ

-- put_unaligned_le24
unfoldable pub put_le24 : ℕ → List ℕ
put_le24 val = val % 256 ∷ val / 256 % 256 ∷ val / 65536 % 256 ∷ []

-- nvme_rdma_set_sg_null
unfoldable set_sg_null : Request → Request
set_sg_null r = record r {
  dptr = record { addr = 0; length = put_le24 0; key = 0; type_of = key_data };
}

-- The `sge` entries from 1 on, for segments `i` up to `i + n`.
unfoldable pub sges : (ℕ → Sge) → ℕ → ℕ → List Sge
sges seg zero i = []
sges seg (suc n) i = seg i ∷ sges seg n (i + 1)

-- `len` of nvme_rdma_map_sg_inline, a `u32`.
unfoldable pub sges_len : List Sge → ℕ → ℕ
sges_len [] len = len
sges_len (s ∷ ss) len = sges_len ss ((len + s.length) % 4294967296)

unfoldable map_sg_inline : MapContext → MapEnv → ℕ → Request → ℤ × Request
unfolding sges sges_len
map_sg_inline c e count r =
    let entries = sges e.segments count 0 in
    (
      success,
      record r {
        sge = entries;
        dptr = record {
          addr = c.icdoff;
          length = sges_len entries 0 ∷ [];
          key = 0;
          type_of = data_offset;
        };
        num_sge = r.num_sge + count;
      },
    )

unfoldable map_sg_single : ℕ → MapEnv → Request → ℤ × Request
map_sg_single rkey e r =
    let seg = e.segments 0 in
    (
      success,
      record r {
        dptr = record {
          addr = seg.addr;
          length = put_le24 seg.length;
          key = rkey;
          type_of = key_data;
        };
      },
    )

-- `nr < count`
abbrev too_few : ℤ → ℕ → Bool
too_few (pos nr) count = ltb nr count
too_few (negsuc n) count = true

-- The region goes back to the pool when it cannot take all segments.
unfoldable register_mr : MapEnv → ℕ → ℕ → Request → ℤ × Request
register_mr e count rkey r =
    let got = record r { mr = some rkey; mrs = gain 1 r.mrs } in
    let back = record got { mr = none; mrs = give 1 got.mrs } in
    let key = e.inc_rkey rkey in
    if too_few e.map_mr count then (if is_neg e.map_mr then e.map_mr else einval, back) else (
      success,
      record got {
        mr = some key;
        reg_key = key;
        dptr = record {
          addr = e.iova;
          length = put_le24 e.mr_length;
          key = key;
          type_of = key_data_invalidate;
        };
      },
    )

unfoldable map_sg_fr : MapEnv → ℕ → Request → ℤ × Request
unfolding register_mr
map_sg_fr e count r = elim e.mr_pool_get [
  | none ↦ (eagain, record r { mr = none })
  | some rkey ↦ register_mr e count rkey r
]

-- nvme_rdma_inline_data_size, with `size_t` wrapping below 64.
unfoldable inline_data_size : ℕ → ℕ
inline_data_size len = (len + 18446744073709551552) % 18446744073709551616

unfoldable fits_inline : MapContext → Rq → ℕ → Bool
unfolding inline_data_size
fits_inline c rq count =
    leb count c.num_inline_segments
    && (rq.write
        && (ltb 0 c.queue_idx
            && (c.use_inline_data && leb rq.payload_bytes (inline_data_size c.cmnd_capsule_len))))

-- The key of the whole memory, if the device has one and a single segment may use it.
unfoldable global_key : MapContext → ℕ → Option ℕ
global_key c count =
    if leb count c.num_inline_segments && count == 1 then c.unsafe_global_rkey else none

unfoldable pub map_segments : MapContext → MapEnv → Rq → ℕ → Request → ℤ × Request
unfolding fits_inline global_key map_sg_inline map_sg_single map_sg_fr
map_segments c e rq count r =
    if fits_inline c rq count then map_sg_inline c e count r else elim (global_key c count) [
      | some rkey ↦ map_sg_single rkey e r
      | none ↦ map_sg_fr e count r
    ]

-- From ib_dma_map_sg on, with the labels `out_unmap_sg` and `out_free_table`.
unfoldable pub map_dma : MapContext → MapEnv → Rq → Request → ℤ × Request
map_dma c e rq r = elim e.dma_count [
  | negsuc n ↦ (eio, record r { sg_table = give 1 r.sg_table })
  | pos count ↦
      if count == 0
      then (eio, record r { sg_table = give 1 r.sg_table })
      else (let (ret, t) = map_segments c e rq count (record r { sg_dma = gain 1 r.sg_dma }) in
          if is_zero ret
          then (success, t)
          else (ret, record t { sg_dma = give 1 t.sg_dma; sg_table = give 1 t.sg_table }))
]

unfoldable pub map_data : MapContext → MapEnv → Rq → Request → ℤ × Request
unfolding set_sg_null
map_data c e rq r =
    let t = record r { num_sge = 1; ref = 2; metabuf = true } in
    if rq.phys_segments == 0
    then (success, set_sg_null t)
    else if is_zero e.alloc_table
    then map_dma c e rq (record t { sg_table = gain 1 t.sg_table; nents = e.nents })
    else (enomem, t)

-- nvme_rdma_unmap_data
abbrev put_mr : Request → Request
put_mr r = elim r.mr [ none ↦ r | some rkey ↦ record r { mr = none; mrs = give 1 r.mrs } ]

unfoldable pub unmap_data : Rq → Request → Request
unmap_data rq r =
    let t = put_mr r in
    if rq.phys_segments == 0 then r else record t {
      sg_dma = give 1 t.sg_dma;
      cleanups = t.cleanups + 1;
      sg_table = give 1 t.sg_table;
    }
