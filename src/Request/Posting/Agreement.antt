-- ===== src/Request/Posting/Agreement.antt =====
-- The command's descriptor against the work requests that are posted for it, in
-- nvme_rdma_map_data and nvme_rdma_queue_rq of shell/nvme-of_setup/nvme-modified/host/rdma.c.
use net_cas.Common.{ℕ, zero, suc, ◌+◌, ◌%◌, ◌≡◌, refl, true, List, [], ◌∷◌, none, arith, ap}
use net_cas.Common.Lists.{take}
use net_cas.Common.Code.{pos, negsuc, is_zero}
use net_cas.Common.Ledger.{gain}
use net_cas.Request.{
  Rq, SglType, key_data, data_offset, key_data_invalidate, Sge, Request, MapContext, MapEnv, sges,
  sges_len, map_segments, map_dma, map_data,
}
use net_cas.Request.Posting.{send, reg_mr, command_sge, post_request}

abbrev bytes_in : List Sge → ℕ
bytes_in [] = 0
bytes_in (s ∷ ss) = s.length + bytes_in ss

-- By the type of the descriptor: inline data is sent after the command, with the length of all its
-- entries; a region is registered before the command is sent, under the descriptor's key; else the
-- command is sent alone.
abbrev pub Carries : ℕ → SglType → Request → Type 0
Carries dma data_offset r =
    (post_request dma r ≡ send (command_sge dma ∷ r.sge) ∷ [])
    × (r.dptr.length ≡ bytes_in r.sge % 4294967296 ∷ [])
Carries dma key_data_invalidate r =
    post_request dma r ≡ reg_mr r.dptr.key ∷ send (command_sge dma ∷ []) ∷ []
Carries dma key_data r = post_request dma r ≡ send (command_sge dma ∷ []) ∷ []

sges_len-bytes_in :
    (ss : List Sge) (n : ℕ) → sges_len ss n % 4294967296 ≡ (n + bytes_in ss) % 4294967296
unfolding sges_len
sges_len-bytes_in [] n = omega arith
sges_len-bytes_in (s ∷ ss) n = omega (arith, sges_len-bytes_in ss ((n + s.length) % 4294967296))

sges_len-small :
    (ss : List Sge) (n : ℕ) → n % 4294967296 ≡ n → sges_len ss n % 4294967296 ≡ sges_len ss n
unfolding sges_len
sges_len-small [] n h = h
sges_len-small (s ∷ ss) n h = sges_len-small ss ((n + s.length) % 4294967296) (omega arith)

take-sges : (seg : ℕ → Sge) (n i : ℕ) → take n (sges seg n i) ≡ sges seg n i
unfolding sges
take-sges seg zero i = refl
take-sges seg (suc n) i = ap (λ ss. seg i ∷ ss) (take-sges seg n (i + 1))

map_segments-Carries :
    (dma : ℕ) (c : MapContext) (e : MapEnv) (rq : Rq) (count : ℕ) (r : Request)
    → r.mr ≡ none
    → r.num_sge ≡ 1
    → is_zero (map_segments c e rq count r).0 ≡ true
    → Carries dma (map_segments c e rq count r).1.dptr.type_of (map_segments c e rq count r).1
unfolding map_segments post_request
map_segments-Carries dma c e rq count r m one ok =
    let ss = sges e.segments count 0 in
    ground (arith, sges_len-bytes_in ss 0, sges_len-small ss 0, take-sges e.segments count 0)

map_dma-Carries :
    (dma : ℕ) (c : MapContext) (e : MapEnv) (rq : Rq) (r : Request)
    → r.mr ≡ none
    → r.num_sge ≡ 1
    → is_zero (map_dma c e rq r).0 ≡ true
    → Carries dma (map_dma c e rq r).1.dptr.type_of (map_dma c e rq r).1
unfolding map_dma post_request
map_dma-Carries dma c e rq r m one =
    elim e.dma_count
        as (λ n.
          e.dma_count ≡ n
          → is_zero (map_dma c e rq r).0 ≡ true
          → Carries dma (map_dma c e rq r).1.dptr.type_of (map_dma c e rq r).1) [
            | negsuc n ↦ λ x ok. ground arith
            | pos count ↦ λ x ok.
                let t = record r { sg_dma = gain 1 r.sg_dma } in
                ground (arith, map_segments-Carries dma c e rq count t m one)
          ]
      refl

-- When nvme_rdma_map_data succeeds for a request that has no memory region yet, what
-- nvme_rdma_post_send then posts agrees with the descriptor in the command: inline data is posted
-- entry by entry after the command, and the descriptor's length is the sum of theirs modulo 2^32; a
-- memory region is registered before the command is sent, under the key in the descriptor; and else
-- the command is posted alone.
pub map_data-Carries :
    (dma : ℕ) (c : MapContext) (e : MapEnv) (rq : Rq) (r : Request)
    → r.mr ≡ none
    → is_zero (map_data c e rq r).0 ≡ true
    → Carries dma (map_data c e rq r).1.dptr.type_of (map_data c e rq r).1
unfolding map_data post_request
map_data-Carries dma c e rq r m ok =
    let t = record r {
      num_sge = 1;
      ref = 2;
      metabuf = true;
      sg_table = gain 1 r.sg_table;
      nents = e.nents;
    } in
    ground (arith, map_dma-Carries dma c e rq t m refl)
