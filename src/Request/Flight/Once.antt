-- ===== src/Request/Flight/Once.antt =====
-- The orders in which the completions of a request can come, of
-- shell/nvme-of_setup/nvme-modified/host/rdma.c.
use net_cas.Common.{
  ℕ, ◌+◌, ◌≤◌, ◌≡◌, ◌↔◌, ◌⊎◌, Bool, true, false, not, ◌&&◌, none, some, arith, bit,
}
use net_cas.Request.{Request}
use net_cas.Request.Flight.{
  Flight, Response, drop_ref, send_done, inv_rkey_done, process_nvme_rsp, answer, remote_invalidate,
  finish_rsp, inv_rkey,
}

-- What has happened to a request: its command was sent, a response came, and a local invalidation of
-- its region is outstanding.
pub record Progress : Type 0 where
  pub sent : Bool
  pub answered : Bool
  pub invalidating : Bool
  pub flight : Flight

-- The response leaves the region to the host.
abbrev needs_inv : Response → Request → Bool
needs_inv rsp r = elim rsp.invalidated [
  | some key ↦ false
  | none ↦ elim r.mr [ none ↦ false | some rkey ↦ true ]
]

-- Each completion of a request comes once: the send, the response that names it, and the local
-- invalidation that was posted for it.
pub data Step (p p' : Progress) : Type 0 where
  send :
      p.sent ≡ false → p' ≡ record p { sent = true; flight = send_done true p.flight } → Step p p'
  respond :
      (rsp : Response) (f : Flight)
      → p.answered ≡ false
      → rsp.found ≡ true
      → process_nvme_rsp rsp p.flight ≡ some f
      → p' ≡ record p { answered = true; invalidating = needs_inv rsp p.flight.req; flight = f }
      → Step p p'
  invalidate :
      p.invalidating ≡ true
      → p' ≡ record p { invalidating = false; flight = inv_rkey_done true p.flight }
      → Step p p'

pub data Reach (p : Progress) : Progress → Type 0 where
  here : Reach p p
  next : {q q' : Progress} → Reach p q → Step q q' → Reach p q'

-- nvme_rdma_map_data left two references and nothing has completed.
abbrev pub start : Flight → Progress
start f = record { sent = false; answered = false; invalidating = false; flight = f }

abbrev pub done : Progress → Bool
done p = p.answered && not p.invalidating

record IsCounted (n : ℕ) (p : Progress) : Type 0 where
  pub refs : p.flight.req.ref + bit p.sent + bit (done p) ≡ 2
  pub ended : p.flight.req.ended ≡ n + bit (p.sent && done p)
  pub pending : p.invalidating ≡ true → p.answered ≡ true

process_nvme_rsp-ref :
    (rsp : Response) (f : Flight) {f' : Flight}
    → rsp.found ≡ true
    → process_nvme_rsp rsp f ≡ some f'
    → (needs_inv rsp f.req ≡ true → (f'.req.ref ≡ f.req.ref) × (f'.req.ended ≡ f.req.ended))
      × (needs_inv rsp f.req ≡ false
          → (f'.req.ref ≡ (drop_ref f.req).ref) × (f'.req.ended ≡ (drop_ref f.req).ended))
unfolding process_nvme_rsp answer remote_invalidate finish_rsp inv_rkey drop_ref
process_nvme_rsp-ref rsp f found e = ground arith

Step-IsCounted : (n : ℕ) (p p' : Progress) → Step p p' → IsCounted n p → IsCounted n p'
unfolding send_done inv_rkey_done drop_ref
Step-IsCounted n p p' (send s e) c = ground arith
Step-IsCounted n p p' (respond rsp f a found r e) c =
    let h = process_nvme_rsp-ref rsp p.flight found r in ground arith
Step-IsCounted n p p' (invalidate i e) c = ground arith

Reach-IsCounted : (n : ℕ) (p : Progress) {q : Progress} → IsCounted n p → Reach p q → IsCounted n q
Reach-IsCounted n p c here = c
Reach-IsCounted n p c (next {q = q} {q' = q'} r s) =
    Step-IsCounted n q q' s (Reach-IsCounted n p c r)

-- In whatever order the completions of a request come, from the two references that mapping its data
-- leaves, it is ended at most once, and it has been
-- ended exactly when its command was sent, a response came and no invalidation is outstanding.
pub Reach-ended :
    (f : Flight) (q : Progress)
    → f.req.ref ≡ 2
    → Reach (start f) q
    → (q.flight.req.ended ≤ f.req.ended + 1)
      × ((q.flight.req.ended ≡ f.req.ended + 1) ↔ ((q.sent && done q) ≡ true))
Reach-ended f q two r =
    let c = Reach-IsCounted f.req.ended (start f) (ground arith) r in ground arith

-- Until it is ended it has been ended as often as before.
pub Reach-ended_cases :
    (f : Flight) (q : Progress)
    → f.req.ref ≡ 2
    → Reach (start f) q
    → (q.flight.req.ended ≡ f.req.ended) ⊎ (q.flight.req.ended ≡ f.req.ended + 1)
Reach-ended_cases f q two r =
    let c = Reach-IsCounted f.req.ended (start f) (ground arith) r in ground arith
