-- ===== src/Fabrics/Parse/Wrap.antt =====
-- The numbers of queues that nvmf_parse_options, of shell/nvme-of_setup/nvme-modified/host/fabrics.c,
-- does not limit, and the array of queues that nvme_rdma_create_ctrl, of rdma.c, allocates by them.
use net_cas.Common.{ℕ, ◌+◌, ◌-◌, ◌≤◌, ◌<◌, ◌≡◌, true, false, min, List, [], ◌∷◌, some, arith}
use net_cas.Common.Code.{pos, is_zero, success}
use net_cas.Counts.{
  QueueOptions, Granted, QueueCounts, allocated_queues, count_io_queues, wanted, set_queue_count,
}
use net_cas.Fabrics.Parse.{
  Token, int, CtrlOptions, ParseEnv, opt_nr_io_queues, opt_nr_write_queues, opt_nr_poll_queues,
}
use net_cas.Fabrics.Parse.Values.{masked, set_nat, set_int}
use net_cas.Fabrics.Parse.Loop.{parse_option, parse_loop, defaults, finish_options, parse_options}
use net_cas.Fabrics.Parse.Limits.{queue_options}

-- A number of I/O queues, and as many write and poll queues as an int can say.
abbrev pub asking : ℕ → List Token
asking n =
    int opt_nr_io_queues (some (pos n))
    ∷ int opt_nr_write_queues (some (pos 2147483647))
    ∷ int opt_nr_poll_queues (some (pos 2147483647))
    ∷ []

asked :
    (e : ParseEnv) (n : ℕ) (o : CtrlOptions)
    → e.kstrdup ≡ true
    → o.discovery_nqn ≡ false
    → 0 < n
    → n ≤ e.online
    → (is_zero (parse_options e (asking n) o).0 ≡ true)
      × ((parse_options e (asking n) o).1.opts.nr_io_queues ≡ n)
      × ((parse_options e (asking n) o).1.opts.nr_write_queues ≡ 2147483647)
      × ((parse_options e (asking n) o).1.opts.nr_poll_queues ≡ 2147483647)
unfolding parse_options parse_loop parse_option set_int set_nat masked defaults finish_options
asked e n o copied plain some_io few = ground arith

wrapped :
    (q : QueueOptions) (n : ℕ)
    → 0 < n
    → n < 1073741824
    → q.nr_io_queues ≡ n
    → q.nr_write_queues ≡ 2147483647
    → q.nr_poll_queues ≡ 2147483647
    → allocated_queues q ≡ n - 1
unfolding allocated_queues
wrapped q n some_io small a b c = rw (a, b, c) (omega arith)

outgrown :
    (q : QueueOptions) (n vectors online : ℕ) (g : Granted) (c : QueueCounts)
    → 0 < n
    → n ≤ online
    → online < 1073741824
    → g.status ≡ success
    → n ≤ min g.nsqa g.ncqa + 1
    → q.nr_io_queues ≡ n
    → q.nr_write_queues ≡ 2147483647
    → q.nr_poll_queues ≡ 2147483647
    → n < (count_io_queues q vectors online g c).1.queue_count
unfolding count_io_queues wanted set_queue_count
outgrown q n vectors online g c some_io few small good granted x y z = ground arith

-- For a subsystem that is not the discovery one, between 1 and the processors' number of I/O queues,
-- and write and poll queues at the limit of an int: nvmf_parse_options returns 0, the length of the
-- array that nvme_rdma_create_ctrl allocates wraps to one less than the I/O queues, and with a grant
-- of that many queues or more nvme_rdma_alloc_io_queues sets a queue count that is beyond the array.
pub parse_options-wraps :
    (e : ParseEnv) (n : ℕ) (o : CtrlOptions) (vectors : ℕ) (g : Granted) (c : QueueCounts)
    → e.kstrdup ≡ true
    → o.discovery_nqn ≡ false
    → 0 < n
    → n ≤ e.online
    → e.online < 1073741824
    → g.status ≡ success
    → n ≤ min g.nsqa g.ncqa + 1
    → (is_zero (parse_options e (asking n) o).0 ≡ true)
      × (allocated_queues (queue_options (parse_options e (asking n) o).1.opts) ≡ n - 1)
      × (n
          < (count_io_queues
              (queue_options (parse_options e (asking n) o).1.opts)
              vectors
              e.online
              g
              c).1.queue_count)
parse_options-wraps e n o vectors g c copied plain some_io few small good granted =
    let (zero_ret, io, write, poll) = asked e n o copied plain some_io few in
    let q = queue_options (parse_options e (asking n) o).1.opts in
    (
      zero_ret,
      wrapped q n some_io (omega arith) io write poll,
      outgrown q n vectors e.online g c some_io few small good granted io write poll,
    )
