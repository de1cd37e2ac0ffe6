-- ===== src/Examples/Endings.antt =====
-- Runs of the endings of requests of shell/nvme-of_setup/nvme-modified/host/core.c.
use net_cas.Common.{ℕ, ◌+◌, ◌*◌, ◌≡◌, refl, List, [], ◌∷◌, ◌++◌, true, false, ◌==◌, arith}
use net_cas.CtrlState.{State}
use net_cas.Fabrics.{check_ready}
use net_cas.Metrics.{Metrics, initial}
use net_cas.Request.{map_data, map_dma, map_segments}
use net_cas.Request.Submit.{submit_cmd, submit_send, queue_rq, complete_rq}
use net_cas.Request.Submit.Balance.{IsIdle}
use net_cas.Request.Flight.{send_done}
use net_cas.Request.Flight.Once.{Progress, send, Reach, here, next, start}
use net_cas.Request.Ending.{StatusCodes, EndEnv, NvmeRequest, ok, error_status}
use net_cas.Request.Ending.Retries.{
  Attempt, attempts, is_some, FailsAt, Counted, attempts-end, attempts-Counted,
}
use net_cas.Request.Ending.Drained.{in_flight, drained, queue_rq-complete_rq}
use net_cas.Examples.{clock, nvme_in}
use net_cas.Examples.Requests.{idle, idle-IsIdle, two_segments, submission, answers}

abbrev codes : StatusCodes
codes = record {
  sc_success = 0;
  cap_exceeded = 129;
  lba_range = 128;
  bad_attributes = 384;
  oncs_not_supported = 15;
  invalid_opcode = 1;
  invalid_field = 2;
  invalid_ns = 11;
  write_fault = 640;
  read_error = 641;
  unwritten_block = 647;
  access_denied = 646;
  read_only = 386;
  compare_failed = 645;
  guard_check = 642;
  apptag_check = 643;
  reftag_check = 644;
  invalid_pi = 385;
  reservation_conflict = 131;
  host_path_error = 880;
}

abbrev ending : EndEnv
ending = record {
  codes = codes;
  dnr = λ s. s == 16385;
  crd = λ s. 0;
  path_error = λ s. false;
  queue_dying = false;
  has_ns = true;
  crdt = λ i. 10;
  max_retries = 5;
}

abbrev unretried : NvmeRequest
unretried = record { status = 0; retries = 0 }

-- An attempt that ends some milliseconds after 1 second with a status.
abbrev try_at : ℕ → ℕ → Attempt
try_at ms status = record {
  start_time = 1000000000;
  now = 1000000000 + ms * 1000000;
  status = status;
}

abbrev aborts : List Attempt
aborts = try_at 1 7 ∷ try_at 2 7 ∷ try_at 3 7 ∷ try_at 4 7 ∷ try_at 5 7 ∷ try_at 6 7 ∷ []

attempts-end_example :
    is_some (attempts clock ending submission.flags 8192 aborts initial unretried).2 ≡ true
attempts-end_example =
    attempts-end clock ending submission.flags 8192 aborts initial unretried (omega arith)
      (omega arith) (omega arith)

abbrev measuring : Metrics
measuring = record initial { first_time = false; last_print_time = 1000000000 }

abort-FailsAt : FailsAt clock ending measuring.last_print_time (try_at 1 7)
unfolding error_status
abort-FailsAt = record { fails = refl; retryable = refl; within = omega arith }

good_status : error_status ending.codes (try_at 2 0).status ≡ ok
unfolding error_status
good_status = refl

attempts-Counted_example : Counted 1 8192 measuring (
    attempts clock ending submission.flags 8192
      ((try_at 1 7 ∷ []) ++ (try_at 2 0 ∷ []))
      measuring
      unretried)
attempts-Counted_example =
    attempts-Counted clock ending submission.flags 8192 (try_at 1 7 ∷ []) (try_at 2 0) measuring
      unretried (abort-FailsAt, tt) good_status (omega arith) refl refl refl refl (omega arith)
      (omega arith)

-- The request was sent, and no response comes before its queue is drained.
abbrev sent_alone : Progress
sent_alone = record {
  sent = true;
  answered = false;
  invalidating = false;
  flight = send_done true (in_flight (nvme_in State.live) (queue_rq submission answers idle).2);
}

sent_alone-Reach :
    Reach (start (in_flight (nvme_in State.live) (queue_rq submission answers idle).2)) sent_alone
sent_alone-Reach = next here (send refl refl)

queue_rq-complete_rq_example :
    ((drained 880 idle.ended sent_alone.flight.req).ended ≡ idle.ended + 1)
    × IsIdle
        (complete_rq clock 90000 two_segments
          (initial, drained 880 idle.ended sent_alone.flight.req)).1
unfolding queue_rq check_ready submit_cmd map_data map_dma map_segments submit_send
queue_rq-complete_rq_example =
    queue_rq-complete_rq submission answers idle (nvme_in State.live) sent_alone 880 clock 90000
      initial idle-IsIdle refl refl sent_alone-Reach
