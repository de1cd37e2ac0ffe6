-- ===== src/Ring/Balance.antt =====
-- What nvme_rdma_alloc_ring and nvme_rdma_free_ring, of
-- shell/nvme-of_setup/nvme-modified/host/rdma.c, take and give back.
use net_cas.Common.{ℕ, zero, suc, ◌+◌, ◌≡◌, true, arith, if◌then◌else◌}
use net_cas.Common.Ledger.{Holds, gain}
use net_cas.Ring.{
  QeEnv, RingEnv, Memory, free_qe, alloc_qe, free_entries, free_ring, alloc_entries, alloc_ring,
}

-- `n` entries, and `r` ring arrays, are held.
pub record HoldsRing (r n : ℕ) (m : Memory) : Type 0 where
  pub buffers : Holds n m.buffers
  pub mappings : Holds n m.mappings
  pub rings : Holds r m.rings

free_entries-HoldsRing :
    (r k n : ℕ) (m : Memory) → HoldsRing r (n + k) m → HoldsRing r k (free_entries n m)
unfolding free_entries free_qe
free_entries-HoldsRing r k zero m h = omega arith
free_entries-HoldsRing r k (suc n) m h = free_entries-HoldsRing r k n (free_qe m) (omega arith)

pub free_ring-HoldsRing :
    (r k n : ℕ) (m : Memory) → HoldsRing (r + 1) (n + k) m → HoldsRing r k (free_ring n m)
unfolding free_ring
free_ring-HoldsRing r k n m h = let t = free_entries-HoldsRing (r + 1) k n m h in omega arith

alloc_entries-HoldsRing :
    (e : ℕ → QeEnv) (r k n i : ℕ) (m : Memory)
    → HoldsRing r (i + k) m
    → HoldsRing r ((alloc_entries e n i m).1 + k) (alloc_entries e n i m).2
unfolding alloc_entries alloc_qe
alloc_entries-HoldsRing e r k zero i m h = h
alloc_entries-HoldsRing e r k (suc n) i m h =
    ground (arith, alloc_entries-HoldsRing e r k n (i + 1) (alloc_qe (e i) m).1)

alloc_entries-count :
    (e : ℕ → QeEnv) (n i : ℕ) (m : Memory)
    → (alloc_entries e n i m).0 ≡ true
    → (alloc_entries e n i m).1 ≡ i + n
unfolding alloc_entries
alloc_entries-count e zero i m h = omega arith
alloc_entries-count e (suc n) i m h =
    ground (arith, alloc_entries-count e n (i + 1) (alloc_qe (e i) m).1)

-- Whichever of its allocations fails, nvme_rdma_alloc_ring ends with the whole ring or with nothing.
pub alloc_ring-HoldsRing :
    (e : RingEnv) (r k n : ℕ) (m : Memory)
    → HoldsRing r k m
    → HoldsRing
        (if (alloc_ring e n m).0 then r + 1 else r)
        (if (alloc_ring e n m).0 then n + k else k)
        (alloc_ring e n m).1
unfolding alloc_ring
alloc_ring-HoldsRing e r k n m h =
    let t = record m { rings = gain 1 m.rings } in
    ground (
      arith,
      alloc_entries-HoldsRing e.entry (r + 1) k n 0 t,
      alloc_entries-count e.entry n 0 t,
      free_ring-HoldsRing r k (alloc_entries e.entry n 0 t).1 (alloc_entries e.entry n 0 t).2,
    )
