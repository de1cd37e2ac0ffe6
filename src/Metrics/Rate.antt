-- ===== src/Metrics/Rate.antt =====
-- What the two published numbers are worth, in shell/nvme-of_setup/nvme-modified/host/rdma.c:
-- `last_avg_latency_us` as an average, and `last_throughput_mbps`, which is printed as MB/s, as a rate.
use net_cas.Common.{
  ℕ, ◌+◌, ◌*◌, ◌/◌, ◌≤◌, ◌<◌, ◌≡◌, false, List, [], ◌∷◌, arith, ◌==◌, inl, inr, Bool-cases,
}
use native.Mathlib.Nat.{div-le_of_le-mul, le-div_iff_mul-le, div-mul-le_self, mul_comm, mul-le-mul}
use net_cas.Common.Lists.{length, All}
use net_cas.Metrics.{
  Metrics, Ktime, Completion, u64, initial, measure_interval, mbps, avg_latency_us, complete, run,
}
use net_cas.Metrics.Window.{empty, history, latency_of, initial-Refines, run-history-Refines}

-- Mebibytes in a second, for `bytes` in `ms` milliseconds.
abbrev pub mb_per_second : ℕ → ℕ → ℕ
mb_per_second bytes ms = bytes * 1000 / ms / 1024 / 1024

latency-le :
    (k : Ktime) (cs : List Completion) (most : ℕ)
    → All (λ c. k.sub_ns c.now c.start_time ≤ most) cs
    → latency_of k cs ≤ length cs * most
latency-le k [] most h = omega arith
latency-le k (c ∷ cs) most h = grind (arith, latency-le k cs most h.1, h.0)

latency-ge :
    (k : Ktime) (cs : List Completion) (least : ℕ)
    → All (λ c. least ≤ k.sub_ns c.now c.start_time) cs
    → length cs * least ≤ latency_of k cs
latency-ge k [] least h = omega arith
latency-ge k (c ∷ cs) least h = grind (arith, latency-ge k cs least h.1, h.0)

avg_le : (total count most : ℕ) → total ≤ count * most → avg_latency_us total count * 1000 ≤ most
unfolding avg_latency_us
avg_le total count most h = elim (Bool-cases (count == 0)) [
  | inl z ↦ rw z (omega arith)
  | inr nz ↦ rw nz (omega (arith, div-le_of_le-mul count h))
]

avg_ge :
    (total count least : ℕ)
    → 0 < count
    → count * least ≤ total
    → least < (avg_latency_us total count + 1) * 1000
unfolding avg_latency_us
avg_ge total count least pos h =
    ground (arith, (le-div_iff_mul-le {x = least} {y = total} pos).1 (rw (mul_comm least count) h))

mul_mono : (a b c d : ℕ) → a ≤ b → c ≤ d → a * c ≤ b * d
mul_mono a b c d p q = mul-le-mul p q

scaled : (b e : ℕ) → b / 1024 / 1024 * (1000 / e) * 1048576 * e ≤ b * 1000
scaled b e = omega (
  arith,
  mul_mono (b / 1024 / 1024 * 1048576) b (1000 / e * e) 1000 (omega arith) (div-mul-le_self 1000 e),
)

rate-le : (b e : ℕ) → 0 < e → mbps b * (1000 / e) ≤ mb_per_second b e
unfolding mbps
rate-le b e h = omega (
  arith,
  (le-div_iff_mul-le {x = b / 1024 / 1024 * (1000 / e) * 1048576} {y = b * 1000} h).1 (scaled b e),
)

-- The interval that was closed last.
abbrev last_closed : Ktime → List Completion → List Completion
last_closed k cs = (history k empty cs).closed

u64_small : (n : ℕ) → n < 18446744073709551616 → u64 n ≡ n
u64_small n h = omega arith

-- After any completions from the driver's initial state, the published average is at most the
-- longest latency of the interval that was closed last, if the sums over it fit 64 bits.
average-le :
    (k : Ktime) (cs : List Completion) (most : ℕ)
    → All (λ c. k.sub_ns c.now c.start_time ≤ most) (last_closed k cs)
    → latency_of k (last_closed k cs) < 18446744073709551616
    → length (last_closed k cs) < 18446744073709551616
    → (run k initial cs).last_avg_latency_us * 1000 ≤ most
average-le k cs most short small few =
    let r = run-history-Refines k initial empty cs (initial-Refines k) in
    rw (r.average, u64_small _ small, u64_small _ few)
      (avg_le _ _ most (latency-le k (last_closed k cs) most short))

-- After any completions from the driver's initial state, if the interval that was closed last is not
-- empty and the sums over it fit 64 bits, the published average plus one microsecond is above its
-- shortest latency.
average-ge :
    (k : Ktime) (cs : List Completion) (least : ℕ)
    → All (λ c. least ≤ k.sub_ns c.now c.start_time) (last_closed k cs)
    → latency_of k (last_closed k cs) < 18446744073709551616
    → length (last_closed k cs) < 18446744073709551616
    → 0 < length (last_closed k cs)
    → least < ((run k initial cs).last_avg_latency_us + 1) * 1000
average-ge k cs least long small few some_rq =
    let r = run-history-Refines k initial empty cs (initial-Refines k) in
    rw (r.average, u64_small _ small, u64_small _ few)
      (avg_ge _ _ least some_rq (latency-ge k (last_closed k cs) least long))

-- A completion that closes an interval of e milliseconds publishes a number which, multiplied by the
-- whole number of such intervals in a second, is still at most the rate in MB/s.
complete-rate :
    (k : Ktime) (m : Metrics) (c : Completion)
    → m.first_time ≡ false
    → measure_interval ≤ k.sub_ms c.now m.last_print_time
    → (complete k m c).last_throughput_mbps * (1000 / k.sub_ms c.now m.last_print_time)
      ≤ mb_per_second (u64 (m.total_bytes + c.bytes)) (k.sub_ms c.now m.last_print_time)
unfolding complete
complete-rate k m c started long =
    ground (arith, rate-le (u64 (m.total_bytes + c.bytes)) (k.sub_ms c.now m.last_print_time))

-- When the interval lasts exactly `measure_interval` and moved n MiB, the published "MB/s" is n,
-- and the rate is 10 n MB/s.
pub complete-tenth :
    (k : Ktime) (m : Metrics) (c : Completion) (n : ℕ)
    → m.first_time ≡ false
    → k.sub_ms c.now m.last_print_time ≡ measure_interval
    → u64 (m.total_bytes + c.bytes) ≡ n * 1048576
    → ((complete k m c).last_throughput_mbps ≡ n)
      × (mb_per_second (u64 (m.total_bytes + c.bytes)) (k.sub_ms c.now m.last_print_time) ≡ 10 * n)
unfolding complete mbps
complete-tenth k m c n started exact total = (ground arith, rw (exact, total) (omega arith))
