-- ===== src/Metrics/Versions.antt =====
-- The measuring code of the driver's earlier versions, in shell/nvme-of_setup/nvme-modified/host:
-- rdma_throughput.c, rdma_throughput_latency.c, rdma_throughput_latency_2.c and
-- rdma_throughput_laency_3.c. They print what rdma.c publishes.
pub mod Printed
use net_cas.Common.{ℕ, ◌+◌, ◌/◌, Bool, List, [], ◌∷◌, Option, none, some, leb, if◌then◌else◌}
use net_cas.Metrics.{Ktime, Completion, u64, mbps, avg_latency_us}

-- HZ and `time_after`, of the kernel.
pub record Jiffies : Type 0 where
  pub hz : ℕ
  pub after : ℕ → ℕ → Bool

-- The static variables of rdma_throughput.c.
pub record Throughput : Type 0 where
  pub total_bytes : ℕ
  pub last_jiffies : ℕ

-- A request as nvme_rdma_queue_rq sees it: `jiffies` and blk_rq_payload_bytes.
pub record Submitted : Type 0 where
  pub now : ℕ
  pub bytes : ℕ

abbrev pub second_over : Jiffies → ℕ → ℕ → Bool
second_over j now last = j.after now (u64 (last + j.hz))

-- rdma_throughput.c, in nvme_rdma_queue_rq; the number is what it prints.
unfoldable pub measure_submit : Jiffies → Throughput → Submitted → Throughput × Option ℕ
measure_submit j t rq =
    let total = u64 (t.total_bytes + rq.bytes) in
    if second_over j rq.now t.last_jiffies
    then (record { total_bytes = 0; last_jiffies = rq.now }, some (mbps total))
    else (record t { total_bytes = total }, none)

abbrev cons_some : Option ℕ → List ℕ → List ℕ
cons_some none ns = ns
cons_some (some n) ns = n ∷ ns

-- All that is printed for some requests, in order.
unfoldable pub printed : Jiffies → Throughput → List Submitted → List ℕ
printed j t [] = []
printed j t (rq ∷ rqs) = let (t', line) = measure_submit j t rq in cons_some line (printed j t' rqs)

-- rdma_throughput_latency.c, in nvme_rdma_complete_rq: the nanoseconds and microseconds that it
-- prints for each request. The clock does not run backwards, so they are not negative.
unfoldable print_latency : Ktime → Completion → ℕ × ℕ
print_latency k c = let ns = k.sub_ns c.now c.start_time in (ns, ns / 1000)

-- The static variables of rdma_throughput_latency_2.c.
pub record Totals : Type 0 where
  pub total_bytes : ℕ
  pub last_jiffies : ℕ
  pub total_latency_ns : ℕ
  pub total_latency_count : ℕ

-- rdma_throughput_latency_2.c, in nvme_rdma_queue_rq, where the line that prints is commented out.
unfoldable pub count_submit : Jiffies → Totals → Submitted → Totals
count_submit j t rq =
    if second_over j rq.now t.last_jiffies
    then record t { total_bytes = 0; last_jiffies = rq.now }
    else record t { total_bytes = u64 (t.total_bytes + rq.bytes) }

-- rdma_throughput_latency_2.c, in nvme_rdma_complete_rq, at the time `now` in jiffies.
unfoldable pub measure_complete :
    Jiffies → Ktime → ℕ → Totals → Completion → Totals × Option (ℕ × ℕ)
measure_complete j k now t c =
    let ns = u64 (t.total_latency_ns + k.sub_ns c.now c.start_time) in
    let count = u64 (t.total_latency_count + 1) in
    if second_over j now t.last_jiffies
    then (
      record { total_bytes = 0; last_jiffies = now; total_latency_ns = 0; total_latency_count = 0 },
      some (mbps t.total_bytes, avg_latency_us ns count),
    )
    else (record t { total_latency_ns = ns; total_latency_count = count }, none)

-- The static variables of rdma_throughput_laency_3.c.
pub record Sums : Type 0 where
  pub total_bytes : ℕ
  pub total_latency_ns : ℕ
  pub total_latency_count : ℕ
  pub last_print_time : ℕ
  pub first_time : Bool

-- rdma_throughput_laency_3.c, in nvme_rdma_complete_rq.
unfoldable pub print_complete : Ktime → Sums → Completion → Sums × Option (ℕ × ℕ)
print_complete k m c =
    let t : Sums = record m {
      total_bytes = u64 (m.total_bytes + c.bytes);
      total_latency_ns = u64 (m.total_latency_ns + k.sub_ns c.now c.start_time);
      total_latency_count = u64 (m.total_latency_count + 1);
    } in
    if m.first_time
    then (record t { last_print_time = c.now; first_time = Bool.false }, none)
    else if leb 1000 (k.sub_ms c.now m.last_print_time)
    then (
      record t {
        total_bytes = 0;
        total_latency_ns = 0;
        total_latency_count = 0;
        last_print_time = c.now;
      },
      some (mbps t.total_bytes, avg_latency_us t.total_latency_ns t.total_latency_count),
    )
    else (t, none)
