-- ===== src/Metrics.antt =====
-- shell/nvme-of_setup/nvme-modified/host/rdma.c: the RDMA metrics that `nvme_rdma_complete_rq`
-- gathers and that /sys/kernel/rdma_metrics publishes.
pub mod Window
pub mod Rate
pub mod Race
pub mod Versions
use net_cas.Common.{ℕ, ◌+◌, ◌/◌, ◌%◌, Bool, true, false, List, [], ◌∷◌, leb, ◌==◌, if◌then◌else◌}

-- The file's static variables; times are `ktime_t`, in nanoseconds.
pub record Metrics : Type 0 where
  pub total_bytes : ℕ
  pub total_latency_ns : ℕ
  pub total_latency_count : ℕ
  pub last_print_time : ℕ
  pub first_time : Bool
  pub last_throughput_mbps : ℕ
  pub last_avg_latency_us : ℕ

-- The kernel's clock arithmetic as the driver uses it, each result converted to `u64`:
-- `ktime_to_ns(ktime_sub(a, b))` and `ktime_to_ms(ktime_sub(a, b))`.
pub record Ktime : Type 0 where
  pub sub_ns : ℕ → ℕ → ℕ
  pub sub_ms : ℕ → ℕ → ℕ

-- One finished request: `req->start_time`, `ktime_get()` and `blk_rq_payload_bytes(rq)`.
pub record Completion : Type 0 where
  pub start_time : ℕ
  pub now : ℕ
  pub bytes : ℕ

abbrev pub u64 : ℕ → ℕ
u64 n = n % 18446744073709551616

abbrev pub initial : Metrics
initial = record {
  total_bytes = 0;
  total_latency_ns = 0;
  total_latency_count = 0;
  last_print_time = 0;
  first_time = true;
  last_throughput_mbps = 0;
  last_avg_latency_us = 0;
}

abbrev pub measure_interval : ℕ
measure_interval = 100

-- `total_bytes / 1024 / 1024`
unfoldable pub mbps : ℕ → ℕ
mbps n = n / 1024 / 1024

-- `count ? (ns / count) / 1000 : 0`
unfoldable pub avg_latency_us : ℕ → ℕ → ℕ
avg_latency_us ns count = if count == 0 then 0 else ns / count / 1000

-- The two sums that every completion adds to.
unfoldable accumulate : Ktime → Metrics → Completion → Metrics
accumulate k m c = record m {
  total_bytes = u64 (m.total_bytes + c.bytes);
  total_latency_ns = u64 (m.total_latency_ns + k.sub_ns c.now c.start_time);
  total_latency_count = u64 (m.total_latency_count + 1);
}

-- The body of the `else if`: publish, then start a new interval.
unfoldable publish : Metrics → ℕ → Metrics
publish m now = record m {
  total_bytes = 0;
  total_latency_ns = 0;
  total_latency_count = 0;
  last_print_time = now;
  last_throughput_mbps = mbps m.total_bytes;
  last_avg_latency_us = avg_latency_us m.total_latency_ns m.total_latency_count;
}

-- The measuring part of `nvme_rdma_complete_rq`.
unfoldable pub complete : Ktime → Metrics → Completion → Metrics
unfolding accumulate publish
complete k m c =
    let t = accumulate k m c in
    if m.first_time
    then record t { last_print_time = c.now; first_time = false }
    else if leb measure_interval (k.sub_ms c.now m.last_print_time)
    then publish t c.now
    else t

unfoldable pub run : Ktime → Metrics → List Completion → Metrics
run k m [] = m
run k m (c ∷ cs) = run k (complete k m c) cs
