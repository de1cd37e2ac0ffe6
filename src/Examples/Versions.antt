-- ===== src/Examples/Versions.antt =====
-- Runs of the measuring code of the driver's earlier versions and of two processors, in
-- shell/nvme-of_setup/nvme-modified/host.
use net_cas.Common.{Bool, true, false, ◌≡◌, ◌↔◌, refl, [], ◌∷◌, List, ltb, none}
use net_cas.Metrics.{u64, complete, mbps}
use net_cas.Metrics.Race.{Pair, play, both_ready, both_finished, Left, play-Left}
use net_cas.Metrics.Versions.{
  Jiffies, Throughput, Submitted, Totals, Sums, second_over, printed, count_submit,
  measure_complete, print_complete,
}
use net_cas.Metrics.Versions.Printed.{rates, seconds, printed-rates, count_submit-forgets}
use net_cas.Examples.{clock, read_at}

-- The first of the two finds the interval over.
abbrev pair : Pair
pair = record { first_bytes = 4096; second_bytes = 512; first_over = true; second_over = false }

play-Left_example :
    ((w : List Bool) × (play pair w (both_ready 100) ≡ both_finished 612)) ↔ Left 100 pair 612
play-Left_example = play-Left 100 pair 612

-- 1000 ticks in a second, and times that do not wrap.
abbrev ticks : Jiffies
ticks = record { hz = 1000; after = λ a b. ltb b a }

abbrev counted : Throughput
counted = record { total_bytes = 0; last_jiffies = 0 }

abbrev requests : List Submitted
requests =
    record { now = 500; bytes = 1048576 }
    ∷ record { now = 1500; bytes = 2097152 }
    ∷ record { now = 1600; bytes = 4096 }
    ∷ []

printed-rates_example : printed ticks counted requests ≡ rates 0 (seconds ticks 0 requests)
printed-rates_example = printed-rates ticks counted requests

printed_lines : printed ticks counted requests ≡ 3 ∷ []
unfolding printed net_cas.Metrics.Versions.measure_submit mbps
printed_lines = refl

abbrev totals : Totals
totals = record {
  total_bytes = 8192;
  last_jiffies = 0;
  total_latency_ns = 80000;
  total_latency_count = 1;
}

abbrev late : Submitted
late = record { now = 1500; bytes = 4096 }

count_submit-forgets_example :
    (count_submit ticks (record totals { total_bytes = 0 }) late ≡ count_submit ticks totals late)
    × ((measure_complete ticks clock 1500
          (count_submit ticks totals late)
          (read_at 90000)).0.total_bytes
        ≡ 0)
    × ((measure_complete ticks clock 1500 (count_submit ticks totals late) (read_at 90000)).1
        ≡ none)
count_submit-forgets_example =
    count_submit-forgets ticks clock totals late (read_at 90000) 0 refl refl
