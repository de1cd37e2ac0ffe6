-- ===== src/Examples/Rates.antt =====
-- Runs of the measurement in nvme_rdma_complete_rq, of
-- shell/nvme-of_setup/nvme-modified/host/rdma.c.
use net_cas.Common.{◌+◌, ◌*◌, ◌≡◌, refl, false, List, [], ◌∷◌}
use net_cas.Metrics.{Metrics, Completion, initial, run, complete, u64}
use net_cas.Metrics.Window.{empty, history, Refines, initial-Refines, run-history-Refines}
use net_cas.Metrics.Rate.{mb_per_second, complete-tenth}
use net_cas.Examples.{clock, read_at}

-- The second read opens no interval, the third closes the one of the first.
abbrev reads : List Completion
reads = read_at 1000000 ∷ read_at 50000000 ∷ read_at 101000000 ∷ []

abbrev started : Metrics
started = record initial { total_bytes = 102760448; last_print_time = 1000000; first_time = false }

run-history-Refines_example : Refines clock (run clock initial reads) (history clock empty reads)
run-history-Refines_example = run-history-Refines clock initial empty reads (initial-Refines clock)

complete-tenth_example :
    ((complete clock started (read_at 101000000)).last_throughput_mbps ≡ 100)
    × (mb_per_second (u64 (started.total_bytes + 2097152)) 100 ≡ 10 * 100)
complete-tenth_example = complete-tenth clock started (read_at 101000000) 100 refl refl refl
