-- ===== src/Request/Mapping.antt =====
-- What nvme_rdma_map_data and nvme_rdma_unmap_data, of
-- shell/nvme-of_setup/nvme-modified/host/rdma.c, take and give back, and what they write.
use net_cas.Common.{
  ℕ, zero, suc, ◌+◌, ◌*◌, ◌≤◌, ◌<◌, ◌≡◌, refl, true, false, List, [], ◌∷◌, Option, none, some,
  arith, if◌then◌else◌, Bool-cases, ◌⊎◌, inl, inr, ◌==◌, ap,
}
use net_cas.Common.Lists.{length}
use net_cas.Common.Code.{pos, negsuc, is_zero}
use net_cas.Common.Ledger.{Holds, gain}
use net_cas.Request.{
  Rq, Sge, Request, MapContext, MapEnv, put_le24, sges, map_segments, map_dma, map_data, unmap_data,
}

abbrev has_mr : Option ℕ → ℕ
has_mr none = 0
has_mr (some rkey) = 1

-- `n` scatter tables and `n` DMA mappings of their segments are held, and a region exactly while `mr`
-- names one.
pub record HoldsData (n : ℕ) (r : Request) : Type 0 where
  pub sg_table : Holds n r.sg_table
  pub sg_dma : Holds n r.sg_dma
  pub mrs : Holds (has_mr r.mr) r.mrs

-- Nothing is mapped.
pub record IsUnmapped (r : Request) : Type 0 where
  pub data_held : HoldsData 0 r
  pub no_mr : r.mr ≡ none

map_segments-HoldsData :
    (c : MapContext) (e : MapEnv) (rq : Rq) (count : ℕ) (r : Request)
    → HoldsData 1 r
    → r.mr ≡ none
    → HoldsData 1 (map_segments c e rq count r).1
      × (is_zero (map_segments c e rq count r).0 ≡ false
          → (map_segments c e rq count r).1.mr ≡ none)
unfolding map_segments
map_segments-HoldsData c e rq count r h m = ground arith

-- What a request with data holds once it is mapped.
abbrev pub tables : Rq → ℕ
tables rq = if rq.phys_segments == 0 then 0 else 1

map_dma-HoldsData :
    (c : MapContext) (e : MapEnv) (rq : Rq) (r : Request)
    → Holds 1 r.sg_table
    → Holds 0 r.sg_dma
    → Holds 0 r.mrs
    → r.mr ≡ none
    → (is_zero (map_dma c e rq r).0 ≡ true → HoldsData 1 (map_dma c e rq r).1)
      × (is_zero (map_dma c e rq r).0 ≡ false → IsUnmapped (map_dma c e rq r).1)
unfolding map_dma
map_dma-HoldsData c e rq r t d m none_held =
    elim e.dma_count
        as (λ n.
          e.dma_count ≡ n
          → (is_zero (map_dma c e rq r).0 ≡ true → HoldsData 1 (map_dma c e rq r).1)
            × (is_zero (map_dma c e rq r).0 ≡ false → IsUnmapped (map_dma c e rq r).1)) [
              | negsuc n ↦ λ x. ground arith
              | pos count ↦ λ x.
                  let h =
                    map_segments-HoldsData c e rq count (record r { sg_dma = gain 1 r.sg_dma })
                      (ground arith) none_held in
                  ground arith
            ]
      refl

-- Mapping the data of a request that has none mapped either succeeds, and holds one table and one
-- DMA mapping if the request has data and none if it has not, or fails and leaves nothing mapped.
pub map_data-HoldsData :
    (c : MapContext) (e : MapEnv) (rq : Rq) (r : Request)
    → IsUnmapped r
    → (is_zero (map_data c e rq r).0 ≡ true → HoldsData (tables rq) (map_data c e rq r).1)
      × (is_zero (map_data c e rq r).0 ≡ false → IsUnmapped (map_data c e rq r).1)
unfolding map_data
map_data-HoldsData c e rq r u =
    let t = record r {
      num_sge = 1;
      ref = 2;
      metabuf = true;
      sg_table = gain 1 r.sg_table;
      nents = e.nents;
    } in
    let h = map_dma-HoldsData c e rq t (omega arith) (omega arith) (ground arith) u.no_mr in
    ground arith

-- From a request with nothing mapped, nvme_rdma_map_data holds one table and one DMA mapping if it
-- returns 0 and the request has data, and none otherwise; and a memory region exactly while `mr`
-- names one.
map_data-Holds :
    (c : MapContext) (e : MapEnv) (rq : Rq) (r : Request)
    → IsUnmapped r
    → HoldsData (if is_zero (map_data c e rq r).0 then tables rq else 0) (map_data c e rq r).1
map_data-Holds c e rq r u =
    let h = map_data-HoldsData c e rq r u in
    elim (Bool-cases (is_zero (map_data c e rq r).0)) [
      | inl ok ↦ rw (ok) (h.0 ok)
      | inr bad ↦ rw (bad) (h.1 bad).data_held
    ]

-- Unmapping gives back all that a mapped request holds.
pub unmap_data-IsUnmapped :
    (rq : Rq) (r : Request)
    → HoldsData (tables rq) r
    → (rq.phys_segments ≡ 0 → r.mr ≡ none)
    → IsUnmapped (unmap_data rq r)
unfolding unmap_data
unmap_data-IsUnmapped rq r h m = ground arith

-- The bytes of put_unaligned_le24, lowest first, are those of the number modulo 2^24.
le24 : List ℕ → ℕ
le24 [] = 0
le24 (b ∷ bs) = b + 256 * le24 bs

le24-put_le24 : (val : ℕ) → val < 16777216 → le24 (put_le24 val) ≡ val
unfolding le24 put_le24
le24-put_le24 val h = omega arith

length-sges : (seg : ℕ → Sge) (n i : ℕ) → length (sges seg n i) ≡ n
unfolding sges
length-sges seg zero i = refl
length-sges seg (suc n) i = ap suc (length-sges seg n (i + 1))

-- The command alone, or as many entries more as were filled in.
abbrev pub SgesFit : MapContext → Request → Type 0
SgesFit c r =
    (r.num_sge ≤ 1 + c.num_inline_segments) × ((r.num_sge ≡ 1) ⊎ (r.num_sge ≡ 1 + length r.sge))

map_segments-SgesFit :
    (c : MapContext) (e : MapEnv) (rq : Rq) (count : ℕ) (r : Request)
    → r.num_sge ≡ 1
    → SgesFit c (map_segments c e rq count r).1
unfolding map_segments
map_segments-SgesFit c e rq count r h = ground (arith, length-sges e.segments count 0)

map_dma-SgesFit :
    (c : MapContext) (e : MapEnv) (rq : Rq) (r : Request)
    → r.num_sge ≡ 1
    → SgesFit c (map_dma c e rq r).1
unfolding map_dma
map_dma-SgesFit c e rq r h =
    elim e.dma_count as (λ n. e.dma_count ≡ n → SgesFit c (map_dma c e rq r).1) [
      | negsuc n ↦ λ x. ground arith
      | pos count ↦ λ x.
          let t = map_segments-SgesFit c e rq count (record r { sg_dma = gain 1 r.sg_dma }) h in
          ground arith
    ]
      refl

-- A mapped request sends its command and at most `num_inline_segments` entries more, each of which
-- was filled in.
pub map_data-SgesFit :
    (c : MapContext) (e : MapEnv) (rq : Rq) (r : Request) → SgesFit c (map_data c e rq r).1
unfolding map_data
map_data-SgesFit c e rq r =
    let t = record r {
      num_sge = 1;
      ref = 2;
      metabuf = true;
      sg_table = gain 1 r.sg_table;
      nents = e.nents;
    } in
    let h = map_dma-SgesFit c e rq t refl in ground arith
