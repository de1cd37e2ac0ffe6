-- ===== src/Request/Ending/Retries.antt =====
-- The attempts of one request, of nvme_rdma_complete_rq in
-- shell/nvme-of_setup/nvme-modified/host/rdma.c and nvme_complete_rq in core.c: each is measured, and
-- then the request ends or is queued again.
use net_cas.Common.{
  ℕ, ◌+◌, ◌*◌, ◌≤◌, ◌<◌, ◌≡◌, refl, Bool, true, false, List, [], ◌∷◌, ◌++◌, Option, none, some,
  arith, Bool-cases, inl, inr, if◌then◌else◌,
}
use net_cas.Common.Lists.{All, length}
use net_cas.Fabrics.{RqFlags}
use net_cas.Metrics.{Metrics, Ktime, u64, complete, measure_interval}
use net_cas.Request.Ending.{
  ok, NvmeRequest, EndEnv, Ending, requeued, ended_with, error_status, is_end_ok, end_rq,
}

-- One attempt: when it was submitted and completed, and the status it came back with.
pub record Attempt : Type 0 where
  pub start_time : ℕ
  pub now : ℕ
  pub status : ℕ

abbrev is_requeued : Ending → Bool
is_requeued (requeued delay) = true
is_requeued _ = false

-- The attempts as far as the request needs them; `none` if it is queued again after the last.
pub attempts :
    Ktime
    → EndEnv
    → RqFlags
    → ℕ
    → List Attempt
    → Metrics
    → NvmeRequest
    → Metrics × NvmeRequest × Option Ending
attempts k e flags bytes [] m r = (m, r, none)
attempts k e flags bytes (a ∷ later) m r =
    let m' = complete k m (record { start_time = a.start_time; now = a.now; bytes = bytes }) in
    let (ending, r') = end_rq e flags (record r { status = a.status }) in
    let rest = attempts k e flags bytes later m' r' in
    if is_requeued ending then rest else (m', r', some ending)

abbrev pub is_some : Option Ending → Bool
is_some none = false
is_some (some x) = true

end_rq-requeued :
    (e : EndEnv) (flags : RqFlags) (r : NvmeRequest)
    → e.max_retries < 256
    → is_requeued (end_rq e flags r).0 ≡ true
    → (r.retries < e.max_retries) × ((end_rq e flags r).1.retries ≡ r.retries + 1)
unfolding end_rq
end_rq-requeued e flags r byte h = ground arith

-- A request is queued again at most nvme_max_retries times: it ends, or goes to another path, within
-- that many attempts and one more, less the retries it has had.
pub attempts-end :
    (k : Ktime) (e : EndEnv) (flags : RqFlags) (bytes : ℕ) (tries : List Attempt) (m : Metrics)
    (r : NvmeRequest)
    → e.max_retries < 256
    → e.max_retries < r.retries + length tries
    → 0 < length tries
    → is_some (attempts k e flags bytes tries m r).2 ≡ true
unfolding attempts
attempts-end k e flags bytes [] m r byte enough any = absurd (omega arith)
attempts-end k e flags bytes (a ∷ later) m r byte enough any =
    let t = record r { status = a.status } in
    let m' = complete k m (record { start_time = a.start_time; now = a.now; bytes = bytes }) in
    let r' = (end_rq e flags t).1 in
    elim (Bool-cases (is_requeued (end_rq e flags t).0)) [
      | inr final ↦ rw (final) refl
      | inl again ↦
          let (few, more) = end_rq-requeued e flags t byte again in
          rw (again) (attempts-end k e flags bytes later m' r' byte (omega arith) (omega arith))
    ]

-- An attempt that fails with a status that is tried again, within the interval that is being measured.
pub record FailsAt (k : Ktime) (e : EndEnv) (since : ℕ) (a : Attempt) : Type 0 where
  pub fails : is_end_ok (error_status e.codes a.status) ≡ false
  pub retryable : e.dnr a.status ≡ false
  pub within : k.sub_ms a.now since < measure_interval

complete-within :
    (k : Ktime) (m : Metrics) (start now bytes : ℕ)
    → m.first_time ≡ false
    → k.sub_ms now m.last_print_time < measure_interval
    → ((complete k m (record { start_time = start; now = now; bytes = bytes })).first_time ≡ false)
      × ((complete k m (record { start_time = start; now = now; bytes = bytes })).last_print_time
          ≡ m.last_print_time)
      × ((complete k m (record { start_time = start; now = now; bytes = bytes })).total_bytes
          ≡ u64 (m.total_bytes + bytes))
      × ((complete k m
            (record { start_time = start; now = now; bytes = bytes })).total_latency_count
          ≡ u64 (m.total_latency_count + 1))
unfolding complete
complete-within k m start now bytes first soon = ground arith

end_rq-fails :
    (k : Ktime) (e : EndEnv) (flags : RqFlags) (since : ℕ) (a : Attempt) (r : NvmeRequest)
    → FailsAt k e since a
    → flags.noretry ≡ false
    → flags.mpath ≡ false
    → e.queue_dying ≡ false
    → e.max_retries < 256
    → r.retries < e.max_retries
    → (is_requeued (end_rq e flags (record r { status = a.status })).0 ≡ true)
      × ((end_rq e flags (record r { status = a.status })).1.retries ≡ r.retries + 1)
unfolding end_rq
end_rq-fails k e flags since a r f n p q byte more =
    let x = f.fails in let y = f.retryable in ground arith

end_rq-ok :
    (e : EndEnv) (flags : RqFlags) (r : NvmeRequest)
    → error_status e.codes r.status ≡ ok
    → (end_rq e flags r).0 ≡ ended_with ok
unfolding end_rq
end_rq-ok e flags r h = ground arith

abbrev pub Counted : ℕ → ℕ → Metrics → Metrics × NvmeRequest × Option Ending → Type 0
Counted n bytes m out =
    (out.2 ≡ some (ended_with ok))
    × (out.0.total_bytes ≡ u64 (m.total_bytes + (n + 1) * bytes))
    × (out.0.total_latency_count ≡ u64 (m.total_latency_count + n + 1))

attempts-once :
    (k : Ktime) (e : EndEnv) (flags : RqFlags) (bytes : ℕ) (a : Attempt) (m : Metrics)
    (r : NvmeRequest)
    → error_status e.codes a.status ≡ ok
    → m.first_time ≡ false
    → k.sub_ms a.now m.last_print_time < measure_interval
    → Counted 0 bytes m (attempts k e flags bytes (a ∷ []) m r)
unfolding attempts
attempts-once k e flags bytes a m r good first soon =
    let c = complete-within k m a.start_time a.now bytes first soon in
    let z = end_rq-ok e flags (record r { status = a.status }) good in
    rw (z) (refl, omega (arith, c.2), omega (arith, c.3))

-- A request that fails some times and then succeeds, all within one interval, moves its bytes once
-- but is counted in the throughput and in the latency once for every attempt.
pub attempts-Counted :
    (k : Ktime) (e : EndEnv) (flags : RqFlags) (bytes : ℕ) (failed : List Attempt) (a : Attempt)
    (m : Metrics) (r : NvmeRequest)
    → All (FailsAt k e m.last_print_time) failed
    → error_status e.codes a.status ≡ ok
    → k.sub_ms a.now m.last_print_time < measure_interval
    → m.first_time ≡ false
    → flags.noretry ≡ false
    → flags.mpath ≡ false
    → e.queue_dying ≡ false
    → e.max_retries < 256
    → r.retries + length failed ≤ e.max_retries
    → Counted (length failed) bytes m (attempts k e flags bytes (failed ++ (a ∷ [])) m r)
unfolding attempts
attempts-Counted k e flags bytes [] a m r fs good soon first n p q byte room =
    attempts-once k e flags bytes a m r good first soon
attempts-Counted k e flags bytes (b ∷ later) a m r (f, fs) good soon first n p q byte room =
    let m' = complete k m (record { start_time = b.start_time; now = b.now; bytes = bytes }) in
    let r' = (end_rq e flags (record r { status = b.status })).1 in
    let c = complete-within k m b.start_time b.now bytes first f.within in
    let (again, more) = end_rq-fails k e flags m.last_print_time b r f n p q byte (omega arith) in
    let since : m'.last_print_time ≡ m.last_print_time = c.1 in
    let ih =
      attempts-Counted k e flags bytes later a m' r' (rw (since) fs) good (rw (since) soon) c.0 n p
        q byte (omega arith) in
    rw (again) (ih.0, grind (arith, ih.1, c.2), grind (arith, ih.2, c.3))
