-- ===== src/Metrics/Window.antt =====
-- The specification of the metrics of shell/nvme-of_setup/nvme-modified/host/rdma.c: the completions
-- of the interval that is open and of the last one that was closed.
use net_cas.Common.{ℕ, ◌+◌, ◌≡◌, Bool, true, false, List, [], ◌∷◌, arith, leb, if◌then◌else◌}
use net_cas.Common.Lists.{length}
use net_cas.Metrics.{
  Metrics, Ktime, Completion, u64, initial, measure_interval, mbps, avg_latency_us, complete, run,
}

pub record Window : Type 0 where
  pub started : Bool
  pub since : ℕ
  pub current : List Completion
  pub closed : List Completion

unfoldable pub empty : Window
empty = record { started = false; since = 0; current = []; closed = [] }

-- The interval opens at the first completion; a later one that comes `measure_interval` after its
-- start closes it, and belongs to it.
unfoldable pub advance : Ktime → Window → Completion → Window
advance k w c =
    if w.started
    then if leb measure_interval (k.sub_ms c.now w.since)
      then record w { since = c.now; current = []; closed = c ∷ w.current }
      else record w { current = c ∷ w.current }
    else record w { started = true; since = c.now; current = c ∷ w.current }

unfoldable pub history : Ktime → Window → List Completion → Window
history k w [] = w
history k w (c ∷ cs) = history k (advance k w c) cs

abbrev bytes_of : List Completion → ℕ
bytes_of [] = 0
bytes_of (c ∷ cs) = bytes_of cs + c.bytes

abbrev pub latency_of : Ktime → List Completion → ℕ
latency_of k [] = 0
latency_of k (c ∷ cs) = latency_of k cs + k.sub_ns c.now c.start_time

-- The driver's variables against a window: the sums are those of the open interval, and what sysfs
-- shows is computed from the sums of the closed one, all modulo 2^64.
pub record Refines (k : Ktime) (m : Metrics) (w : Window) : Type 0 where
  pub not_first : m.first_time ≡ (if w.started then false else true)
  pub since : w.started ≡ true → m.last_print_time ≡ w.since
  pub bytes : m.total_bytes ≡ u64 (bytes_of w.current)
  pub latency : m.total_latency_ns ≡ u64 (latency_of k w.current)
  pub count : m.total_latency_count ≡ u64 (length w.current)
  pub throughput : m.last_throughput_mbps ≡ mbps (u64 (bytes_of w.closed))
  pub average :
      m.last_avg_latency_us ≡ avg_latency_us (u64 (latency_of k w.closed)) (u64 (length w.closed))

pub initial-Refines : (k : Ktime) → Refines k initial empty
unfolding empty mbps avg_latency_us
initial-Refines k = ground arith

complete-Refines :
    (k : Ktime) (m : Metrics) (w : Window) (c : Completion)
    → Refines k m w
    → Refines k (complete k m c) (advance k w c)
unfolding complete advance
complete-Refines k m w c r = ground arith

-- After any completions, whatever the clock answers, the driver's variables are those of the
-- specification's window, if they were before: the sums of the open interval, and what sysfs shows
-- computed from the interval that was closed last.
pub run-history-Refines :
    (k : Ktime) (m : Metrics) (w : Window) (cs : List Completion)
    → Refines k m w
    → Refines k (run k m cs) (history k w cs)
unfolding run history
run-history-Refines k m w [] r = r
run-history-Refines k m w (c ∷ cs) r =
    run-history-Refines k (complete k m c) (advance k w c) cs (complete-Refines k m w c r)
