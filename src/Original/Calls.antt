-- ===== src/Original/Calls.antt =====
-- Calls of the block layer for many requests, in any order: the driver that measures, in
-- shell/nvme-of_setup/nvme-modified/host/rdma.c, and the Linux driver it started from, in
-- shell/nvme-of_setup/nvme/host/rdma.c, side by side.
use net_cas.Common.{ℕ, ◌≡◌, refl, ◌∙◌, ap, Bool, List, [], ◌∷◌, ◌==◌, Bool-cases, inl, inr}
use net_cas.Common.Lists.{update}
use net_cas.Fabrics.{BlkStatus}
use net_cas.Metrics.{Metrics, Ktime}
use net_cas.Request.{Rq, Request}
use net_cas.Request.Submit.{Submission, SubmitEnv, queue_rq, complete_rq}
use net_cas.Original
use net_cas.Original.Requests.{started_at, queue_rq-started_at, complete_rq-started_at}

-- A submission, a completion at a time, or whatever else happens to a request and does not look at
-- its start time, as its references are dropped.
pub data Call : Type 0 where
  submit : ℕ → Submission → SubmitEnv → Call
  complete : ℕ → ℕ → Rq → Call
  touch :
      (i : ℕ) (f : Request → Request)
      → ((t : ℕ) (r : Request) → f (started_at t r) ≡ started_at t (f r))
      → Call

-- What the block layer is told of a submission.
abbrev Told : Type 0
Told = BlkStatus × Bool

-- The driver that measures: what it returns, and its metrics and requests after the calls.
pub measured : Ktime → List Call → Metrics × (ℕ → Request) → List Told × Metrics × (ℕ → Request)
measured k [] (m, q) = ([], m, q)
measured k (submit i s e ∷ calls) (m, q) =
    let (status, ended, r) = queue_rq s e (q i) in
    let (told, m', q') = measured k calls (m, update q i r) in ((status, ended) ∷ told, m', q')
measured k (complete i now rq ∷ calls) (m, q) =
    let (m', r) = complete_rq k now rq (m, q i) in measured k calls (m', update q i r)
measured k (touch i f keeps ∷ calls) (m, q) = measured k calls (m, update q i (f (q i)))

-- The original.
pub original : List Call → (ℕ → Request) → List Told × (ℕ → Request)
original [] q = ([], q)
original (submit i s e ∷ calls) q =
    let (status, ended, r) = Original.queue_rq s e (q i) in
    let (told, q') = original calls (update q i r) in ((status, ended) ∷ told, q')
original (complete i now rq ∷ calls) q = original calls (update q i (Original.complete_rq rq (q i)))
original (touch i f keeps ∷ calls) q = original calls (update q i (f (q i)))

-- The same requests but for the start times, which the original leaves at 0.
abbrev pub Erased : (ℕ → Request) → (ℕ → Request) → Type 0
Erased q p = (i : ℕ) → p i ≡ started_at 0 (q i)

update-Erased :
    (q p : ℕ → Request) (i : ℕ) (r s : Request)
    → Erased q p
    → s ≡ started_at 0 r
    → Erased (update q i r) (update p i s)
update-Erased q p i r s h e j = elim (Bool-cases (i == j)) [
  | inl same ↦ rw (same) e
  | inr other ↦ rw (other) (h j)
]

-- Whatever the calls, their order and the answers, the driver that measures tells the block layer
-- what the original tells it, and leaves every request as the original does but for its start time.
pub measured-original :
    (k : Ktime) (calls : List Call) (m : Metrics) (q p : ℕ → Request)
    → Erased q p
    → ((measured k calls (m, q)).0 ≡ (original calls p).0)
      × Erased (measured k calls (m, q)).2 (original calls p).1
unfolding measured original
measured-original k [] m q p h = (refl, h)
measured-original k (submit i s e ∷ calls) m q p h =
    let r = queue_rq s e (q i) in
    let same : Original.queue_rq s e (p i) ≡ (r.0, r.1, started_at 0 r.2) =
      ap (λ x. Original.queue_rq s e x) (h i) ∙ queue_rq-started_at 0 s e (q i) in
    let ih =
      measured-original k calls m (update q i r.2) (update p i (Original.queue_rq s e (p i)).2)
        (update-Erased q p i r.2 (Original.queue_rq s e (p i)).2 h (ap (λ x. x.2) same)) in
    (cc (ih.0, ap (λ x. x.0) same, ap (λ x. x.1) same), ih.1)
measured-original k (complete i now rq ∷ calls) m q p h =
    let r = complete_rq k now rq (m, q i) in
    measured-original k calls r.0 (update q i r.1) (update p i (Original.complete_rq rq (p i))) (
      update-Erased q p i r.1 (Original.complete_rq rq (p i)) h
        (ap (λ x. Original.complete_rq rq x) (h i) ∙ complete_rq-started_at 0 k now rq m (q i)))
measured-original k (touch i f keeps ∷ calls) m q p h =
    measured-original k calls m (update q i (f (q i))) (update p i (f (p i)))
      (update-Erased q p i (f (q i)) (f (p i)) h (ap f (h i) ∙ keeps 0 (q i)))
