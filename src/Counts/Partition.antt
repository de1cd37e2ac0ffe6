-- ===== src/Counts/Partition.antt =====
-- How nvme_rdma_alloc_io_queues and nvme_rdma_map_queues, of
-- shell/nvme-of_setup/nvme-modified/host/rdma.c, split the queues that were granted.
use net_cas.Common.{ℕ, ◌+◌, ◌≤◌, ◌<◌, ◌≡◌, false, arith}
use net_cas.Common.Code.{is_neg, success}
use net_cas.Counts.{
  QueueOptions, IoQueues, Granted, Wanted, QueueCounts, QueueMap, TagSetMaps, set_queue_count,
  wanted, total, assign, count_io_queues, map_queues, allocated_queues,
}

-- The array is long enough for what the options ask for: its length did not wrap.
abbrev pub Fits : QueueOptions → Type 0
Fits o = o.nr_io_queues + o.nr_write_queues + o.nr_poll_queues + 1 < 4294967296

-- Whatever the controller grants, the queues of a controller, the admin queue included, fit in the
-- array that was allocated for them, if they did before and its length did not wrap.
pub count_io_queues-bounded :
    (o : QueueOptions) (vectors online : ℕ) (g : Granted) (c : QueueCounts)
    → Fits o
    → c.queue_count ≤ allocated_queues o
    → (count_io_queues o vectors online g c).1.queue_count ≤ allocated_queues o
unfolding count_io_queues set_queue_count wanted allocated_queues
count_io_queues-bounded o vectors online g c fits h = ground arith

-- No queue is assigned yet, as in a controller that was just allocated.
abbrev pub none_assigned : IoQueues
none_assigned = record { default_queues = 0; read_queues = 0; poll_queues = 0 }

abbrev assigned : IoQueues → ℕ
assigned q = q.default_queues + q.read_queues + q.poll_queues

-- What is granted is dealt out in full: nothing is lost and nothing is dealt twice.
assigned-assign :
    (o : QueueOptions) (w : Wanted) (nr : ℕ)
    → nr ≤ w.read_queues + w.default_queues + w.poll_queues
    → (o.nr_write_queues ≡ 0 → w.default_queues ≡ 0)
    → (o.nr_poll_queues ≡ 0 → w.poll_queues ≡ 0)
    → assigned (assign o w nr none_assigned) ≡ nr
unfolding assign
assigned-assign o w nr h no_write no_poll = ground arith

set_queue_count-le :
    (g : Granted) (n : ℕ) → is_neg (set_queue_count g n).0 ≡ false → (set_queue_count g n).1 ≤ n
unfolding set_queue_count
set_queue_count-le g n ok = ground arith

total-lt :
    (o : QueueOptions) (vectors online : ℕ)
    → Fits o
    → total (wanted o vectors online) + 1 < 4294967296
unfolding wanted
total-lt o vectors online fits = omega arith

-- nvme_rdma_alloc_io_queues after nvme_set_queue_count answered `nr`.
counted-assigned :
    (o : QueueOptions) (vectors online nr : ℕ)
    → Fits o
    → nr ≤ total (wanted o vectors online)
    → assigned (assign o (wanted o vectors online) nr none_assigned) ≡ nr
unfolding wanted
counted-assigned o vectors online nr fits h =
    assigned-assign o (wanted o vectors online) nr (omega arith) (λ e. omega arith)
      (λ e. omega arith)

-- When nvme_rdma_alloc_io_queues is about to allocate the queues of a new controller, the default,
-- read and poll queues and the admin queue together are the queue count, if the array did not wrap.
count_io_queues-assigned :
    (o : QueueOptions) (vectors online : ℕ) (g : Granted) (n : ℕ) {c : QueueCounts}
    → Fits o
    → count_io_queues o vectors online g (record { queue_count = n; io_queues = none_assigned })
      ≡ (success, c)
    → assigned c.io_queues + 1 ≡ c.queue_count
unfolding count_io_queues
count_io_queues-assigned o vectors online g n fits e =
    let nr = (set_queue_count g (total (wanted o vectors online))).1 in
    ground (
      arith,
      set_queue_count-le g (total (wanted o vectors online)),
      total-lt o vectors online fits,
      counted-assigned o vectors online nr fits,
    )

-- The maps of the block layer stay below `queue_count - 1` hardware contexts.
abbrev Within : ℕ → QueueMap → Type 0
Within n m = m.queue_offset + m.nr_queues ≤ n

-- No queue serves both as a poll queue and for interrupts.
abbrev Before : QueueMap → QueueMap → Type 0
Before a b = a.queue_offset + a.nr_queues ≤ b.queue_offset

pub record Covers (n : ℕ) (s : TagSetMaps) : Type 0 where
  pub default_within : Within n s.default_map
  pub read_within : Within n s.read_map
  pub poll_within : Within n s.poll_map

-- All three maps stay within the hardware contexts, if the assigned queues and the poll map that was
-- there do.
map_queues-Covers :
    (o : QueueOptions) (q : IoQueues) (n : ℕ) (s : TagSetMaps)
    → Within n s.poll_map
    → assigned q ≤ n
    → Covers n (map_queues o q s)
unfolding map_queues
map_queues-Covers o q n s p h = ground arith

-- With poll queues asked for and assigned, the queues of the poll map come after those of the default
-- and of the read map, if the sum of the assigned queues does not wrap.
map_queues-poll :
    (o : QueueOptions) (q : IoQueues) (s : TagSetMaps)
    → 0 < o.nr_poll_queues
    → 0 < q.poll_queues
    → assigned q < 4294967296
    → Before (map_queues o q s).default_map (map_queues o q s).poll_map
      × Before (map_queues o q s).read_map (map_queues o q s).poll_map
unfolding map_queues
map_queues-poll o q s a b small = ground arith

-- The shared branch leaves `io_queues[HCTX_TYPE_READ]` as it was.
assign-stale :
    (o : QueueOptions) (w : Wanted) (q : IoQueues)
    → ((assign o w w.read_queues q).read_queues ≡ q.read_queues)
      × ((assign o w w.read_queues q).default_queues ≡ w.read_queues)
unfolding assign
assign-stale o w q = ground arith

-- With write queues asked for, and read queues left in `io_queues` by an earlier connection: if a
-- later one is granted exactly the read queues it wants, they become the default queues, the old
-- number of read queues stays, and the maps pass the hardware contexts that exist.
pub map_queues-stale :
    (o : QueueOptions) (w : Wanted) (q : IoQueues) (s : TagSetMaps)
    → 0 < o.nr_write_queues
    → 0 < q.read_queues
    → ¬ Covers w.read_queues (map_queues o (assign o w w.read_queues q) s)
unfolding map_queues
map_queues-stale o w q s a b cov = ground (arith, assign-stale o w q)
