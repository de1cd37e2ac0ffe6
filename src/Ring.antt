-- ===== src/Ring.antt =====
-- shell/nvme-of_setup/nvme-modified/host/rdma.c: queue entries and the ring of them that receives
-- responses (nvme_rdma_alloc_qe, nvme_rdma_free_qe, nvme_rdma_alloc_ring, nvme_rdma_free_ring).
pub mod Balance
use net_cas.Common.{ℕ, zero, suc, ◌+◌, Bool, true, false, ◌&&◌, if◌then◌else◌}
use net_cas.Common.Code.{ℤ, is_zero, success, enomem}
use net_cas.Common.Ledger.{Ledger, gain, give}

-- What the kernel answers for one entry: kzalloc, and the test of ib_dma_map_single's address.
pub record QeEnv : Type 0 where
  pub kzalloc : Bool
  pub dma_mapped : Bool

pub record RingEnv : Type 0 where
  pub kcalloc : Bool
  pub entry : ℕ → QeEnv

-- The buffers, DMA mappings and ring arrays that were taken and given back.
pub record Memory : Type 0 where
  pub buffers : Ledger
  pub mappings : Ledger
  pub rings : Ledger

unfoldable pub free_qe : Memory → Memory
free_qe m = record m { mappings = give 1 m.mappings; buffers = give 1 m.buffers }

unfoldable pub alloc_qe : QeEnv → Memory → ℤ × Memory
alloc_qe e m =
    let t = record m { buffers = gain 1 m.buffers } in
    if e.kzalloc
    then if e.dma_mapped
      then (success, record t { mappings = gain 1 m.mappings })
      else (enomem, record t { buffers = give 1 t.buffers })
    else (enomem, m)

-- `for (i = 0; i < n; i++) nvme_rdma_free_qe(&ring[i])`
unfoldable pub free_entries : ℕ → Memory → Memory
free_entries zero m = m
free_entries (suc n) m = free_entries n (free_qe m)

unfoldable pub free_ring : ℕ → Memory → Memory
unfolding free_entries
free_ring n m = let t = free_entries n m in record t { rings = give 1 t.rings }

-- The loop of nvme_rdma_alloc_ring with `n` entries to go, at entry `i`: whether it went through,
-- and the value of `i` where it stopped.
unfoldable pub alloc_entries : (ℕ → QeEnv) → ℕ → ℕ → Memory → Bool × ℕ × Memory
alloc_entries e zero i m = (true, i, m)
alloc_entries e (suc n) i m =
    let (ret, t) = alloc_qe (e i) m in
    let rest = alloc_entries e n (i + 1) t in if is_zero ret then rest else (false, i, t)

unfoldable pub alloc_ring : RingEnv → ℕ → Memory → Bool × Memory
alloc_ring e n m =
    if e.kcalloc
    then (let (done, i, t) = alloc_entries e.entry n 0 (record m { rings = gain 1 m.rings }) in
        if done then (true, t) else (false, free_ring i t))
    else (false, m)
