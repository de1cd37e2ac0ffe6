-- ===== src/Ctrl/Resources/Made/Io.antt =====
-- The block layer's objects of a new controller while nvme_rdma_configure_io_queues, of
-- shell/nvme-of_setup/nvme-modified/host/rdma.c, sets its I/O queues up.
use net_cas.Common.{
  ℕ, zero, suc, ◌+◌, ◌-◌, ◌<◌, ◌≡◌, ◌⊎◌, inl, inr, refl, ◌∙◌, true, false, if◌then◌else◌, ltb,
  if_ind, arith, Bool-cases,
}
use net_cas.Common.Code.{ℤ, is_zero, success}
use net_cas.Common.Ledger.{gain, give}
use net_cas.Queue.Cm.{AllocEnv}
use net_cas.Counts.{count_io_queues}
use net_cas.Ctrl.{
  Ctrl, Settings, io_count, each_down, alloc_queue_at, stop_queue_at, free_queue_at, start_queue_at,
}
use net_cas.Ctrl.Io.{
  IoEnv, alloc_loop, alloc_each, alloc_io_queues, start_loop, start_io_queues, free_io_queues,
  out_free_tag_set, out_cleanup_connect_q, start_io, make_io_queues, configure_io_queues,
}
use net_cas.Ctrl.Resources.Blk.{each_up-blk, free_queue_at-blk, without_io}
use net_cas.Ctrl.Resources.Made.{HasMade, without_io-Made, alloc_queue_at-blk}

-- Neither the block layer's objects nor the counts change.
record Same (c t : Ctrl) : Type 0 where
  blk : t.blk ≡ c.blk
  counts : t.counts ≡ c.counts

same : (c : Ctrl) → Same c c
same c = record { blk = refl; counts = refl }

both : (c t u : Ctrl) → Same c t → Same t u → Same c u
both c t u a b = record { blk = b.blk ∙ a.blk; counts = b.counts ∙ a.counts }

each_down-Same :
    (f : ℕ → Ctrl → Ctrl)
    → ((i : ℕ) (c : Ctrl) → Same c (f i c))
    → (k : ℕ) (c : Ctrl) → Same c (each_down f k c)
unfolding each_down
each_down-Same f keep zero c = same c
each_down-Same f keep (suc k) c =
    both c (f (suc k) c) _ (keep (suc k) c) (each_down-Same f keep k (f (suc k) c))

stop_queue_at-Same : (i : ℕ) (c : Ctrl) → Same c (stop_queue_at i c)
unfolding stop_queue_at
stop_queue_at-Same i c = record { blk = refl; counts = refl }

free_queue_at-Same : (i : ℕ) (c : Ctrl) → Same c (free_queue_at i c)
unfolding free_queue_at
free_queue_at-Same i c = record { blk = refl; counts = refl }

start_queue_at-Same : (i : ℕ) (ret : ℤ) (c : Ctrl) → Same c (start_queue_at i ret c)
unfolding start_queue_at
start_queue_at-Same i ret c = record { blk = refl; counts = refl }

alloc_queue_at-Same :
    (o : Settings) (i n : ℕ) (e : AllocEnv) (c : Ctrl) → Same c (alloc_queue_at o i n e c).1
alloc_queue_at-Same o i n e c =
    let h = alloc_queue_at-blk o i n e c in record { blk = h.0; counts = h.1 }

alloc_loop-Same :
    (o : Settings) (e : ℕ → AllocEnv) (n i : ℕ) (c : Ctrl) → Same c (alloc_loop o e n i c).2
unfolding alloc_loop
alloc_loop-Same o e zero i c = same c
alloc_loop-Same o e (suc n) i c =
    let (ret, t) = alloc_queue_at o i (c.identified.sqsize + 1) (e i) c in
    let a = alloc_queue_at-Same o i (c.identified.sqsize + 1) (e i) c in
    if_ind (λ (r : ℤ × ℕ × Ctrl). Same c r.2) (is_zero ret) (alloc_loop o e n (i + 1) t) (ret, i, t)
      (λ ok. both c t _ a (alloc_loop-Same o e n (i + 1) t)) (λ bad. a)

alloc_each-Same : (o : Settings) (e : ℕ → AllocEnv) (c : Ctrl) → Same c (alloc_each o e c).1
unfolding alloc_each
alloc_each-Same o e c =
    let (ret, i, t) = alloc_loop o e (io_count c) 1 c in
    let a = alloc_loop-Same o e (io_count c) 1 c in
    if_ind (λ (r : ℤ × Ctrl). Same c r.1) (is_zero ret) (success, t)
      (ret, each_down free_queue_at (i - 1) t) (λ ok. a)
      (λ bad. both c t _ a (each_down-Same free_queue_at free_queue_at-Same (i - 1) t))

alloc_io_queues-blk : (o : Settings) (e : IoEnv) (c : Ctrl) → (alloc_io_queues o e c).1.blk ≡ c.blk
unfolding alloc_io_queues
alloc_io_queues-blk o e c =
    let (ret, counts) = count_io_queues o.options e.num_comp_vectors e.online e.granted c.counts in
    let t = record c { counts = counts } in
    if_ind (λ (r : ℤ × Ctrl). r.1.blk ≡ c.blk) (is_zero ret)
      (if ltb counts.queue_count 2 then (success, t) else alloc_each o e.alloc t) (ret, t)
      (λ ok.
        if_ind (λ (r : ℤ × Ctrl). r.1.blk ≡ c.blk) (ltb counts.queue_count 2) (success, t)
          (alloc_each o e.alloc t) (λ few. refl) (λ many. (alloc_each-Same o e.alloc t).blk))
      (λ bad. refl)

-- The counts after nvme_rdma_alloc_io_queues are those it begins with.
pub alloc_io_queues-counts :
    (o : Settings) (e : IoEnv) (c : Ctrl)
    → (alloc_io_queues o e c).1.counts
      ≡ (count_io_queues o.options e.num_comp_vectors e.online e.granted c.counts).1
unfolding alloc_io_queues
alloc_io_queues-counts o e c =
    let (ret, counts) = count_io_queues o.options e.num_comp_vectors e.online e.granted c.counts in
    let t = record c { counts = counts } in
    if_ind (λ (r : ℤ × Ctrl). r.1.counts ≡ counts) (is_zero ret)
      (if ltb counts.queue_count 2 then (success, t) else alloc_each o e.alloc t) (ret, t)
      (λ ok.
        if_ind (λ (r : ℤ × Ctrl). r.1.counts ≡ counts) (ltb counts.queue_count 2) (success, t)
          (alloc_each o e.alloc t) (λ few. refl) (λ many. (alloc_each-Same o e.alloc t).counts))
      (λ bad. refl)

start_loop-Same : (connect : ℕ → ℤ) (n i : ℕ) (c : Ctrl) → Same c (start_loop connect n i c).2
unfolding start_loop
start_loop-Same connect zero i c = same c
start_loop-Same connect (suc n) i c =
    let t = start_queue_at i (connect i) c in
    let a = start_queue_at-Same i (connect i) c in
    if_ind (λ (r : ℤ × ℕ × Ctrl). Same c r.2) (is_zero (connect i)) (start_loop connect n (i + 1) t)
      (connect i, i, t) (λ ok. both c t _ a (start_loop-Same connect n (i + 1) t)) (λ bad. a)

start_io_queues-Same : (connect : ℕ → ℤ) (c : Ctrl) → Same c (start_io_queues connect c).1
unfolding start_io_queues
start_io_queues-Same connect c =
    let (ret, i, t) = start_loop connect (io_count c) 1 c in
    let a = start_loop-Same connect (io_count c) 1 c in
    if_ind (λ (r : ℤ × Ctrl). Same c r.1) (is_zero ret) (success, t)
      (ret, each_down stop_queue_at (i - 1) t) (λ ok. a)
      (λ bad. both c t _ a (each_down-Same stop_queue_at stop_queue_at-Same (i - 1) t))

free_io_queues-blk : (c : Ctrl) → (free_io_queues c).blk ≡ c.blk
unfolding free_io_queues
free_io_queues-blk c = each_up-blk free_queue_at free_queue_at-blk (io_count c) 1 c

out_free_tag_set-blk :
    (c : Ctrl) → (out_free_tag_set true c).blk ≡ record (c.blk) { tagset = give 1 c.blk.tagset }
unfolding out_free_tag_set
out_free_tag_set-blk c =
    free_io_queues-blk (record c { blk = record (c.blk) { tagset = give 1 c.blk.tagset } })

out_cleanup_connect_q-blk : (c : Ctrl) → (out_cleanup_connect_q true c).blk ≡ without_io c.blk
unfolding out_cleanup_connect_q
out_cleanup_connect_q-blk c =
    out_free_tag_set-blk (record c { blk = record (c.blk) { connect_q = give 1 c.blk.connect_q } })

-- A return code with the controller after it: the objects of the I/O queues are made and there is
-- one to be used, or they are not.
abbrev MadeIo : ℕ → ℤ × Ctrl → Type 0
MadeIo a r =
    ((is_zero r.0 ≡ true) × (1 < r.1.counts.queue_count) × HasMade a 1 r.1)
    ⊎ ((is_zero r.0 ≡ false) × HasMade a 0 r.1)

start_io-MadeIo :
    (a : ℕ) (e : IoEnv) (c : Ctrl)
    → 1 < c.counts.queue_count
    → HasMade a 1 c
    → MadeIo a (start_io true e c)
unfolding start_io
start_io-MadeIo a e c many h =
    let (ret, t) = start_io_queues e.connect c in
    let s = start_io_queues-Same e.connect c in
    if_ind (MadeIo a) (is_zero ret) (success, t) (ret, out_cleanup_connect_q true t)
      (λ ok. inl (refl, rw (s.counts) many, rw (s.blk) h))
      (λ bad. inr (bad, rw (out_cleanup_connect_q-blk t, s.blk) (without_io-Made a c.blk h)))

make_io_queues-MadeIo :
    (a : ℕ) (e : IoEnv) (c : Ctrl)
    → (is_zero e.alloc_tagset ≡ true → 1 < c.counts.queue_count)
    → HasMade a 0 c
    → MadeIo a (make_io_queues e c)
unfolding make_io_queues
make_io_queues-MadeIo a e c many h =
    let tags = record c { blk = record (c.blk) { tagset = gain 1 c.blk.tagset } } in
    let connected = record tags {
      blk = record (tags.blk) { connect_q = gain 1 tags.blk.connect_q };
    } in
    let all : HasMade a 1 connected = ground arith in
    elim (Bool-cases (is_zero e.alloc_tagset)) [
      | inr bad ↦ rw (bad) (inr (bad, rw (free_io_queues-blk c) h))
      | inl made ↦ rw (made) (elim (Bool-cases (is_zero e.init_connect_q)) [
        | inr bad ↦ rw (bad) (inr (bad, rw (out_free_tag_set-blk tags) (ground arith)))
        | inl b ↦ rw (b) (start_io-MadeIo a e connected (many made) all)
      ])
    ]

-- blk_mq_alloc_tag_set makes no tag set without hardware queues, of which there are one less than
-- queues.
abbrev pub Refuses : Settings → IoEnv → Type 0
Refuses o e =
    (c : Ctrl) → is_zero e.alloc_tagset ≡ true → 1 < (alloc_io_queues o e c).1.counts.queue_count

-- For a new controller nvme_rdma_configure_io_queues makes the objects of the I/O queues, or leaves
-- none of them.
pub configure_io_queues-MadeIo :
    (o : Settings) (a : ℕ) (e : IoEnv) (c : Ctrl)
    → Refuses o e
    → HasMade a 0 c
    → MadeIo a (configure_io_queues o true e c)
unfolding configure_io_queues
configure_io_queues-MadeIo o a e c refuses h =
    let (ret, t) = alloc_io_queues o e c in
    let s : HasMade a 0 t = rw (alloc_io_queues-blk o e c) h in
    if_ind (MadeIo a) (is_zero ret) (make_io_queues e t) (ret, t)
      (λ ok. make_io_queues-MadeIo a e t (refuses c) s) (λ bad. inr (bad, s))
