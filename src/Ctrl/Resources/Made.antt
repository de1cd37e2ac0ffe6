-- ===== src/Ctrl/Resources/Made.antt =====
-- The block layer's objects of a controller while nvme_rdma_configure_admin_queue and
-- nvme_rdma_configure_io_queues, of shell/nvme-of_setup/nvme-modified/host/rdma.c, set a new one up.
pub mod Io
pub mod Setup
use net_cas.Common.{
  ℕ, zero, suc, ◌+◌, ◌-◌, ◌<◌, ◌≡◌, ◌⊎◌, inl, inr, refl, ◌∙◌, ap, sym, Bool, true, false,
  if◌then◌else◌, ltb, if_ind, arith, Bool-cases,
}
use mathlib.Core.Path.{subst}
use mathlib.Core.Bool.{false≢true}
use net_cas.Common.Code.{ℤ, is_zero, success}
use net_cas.Common.Ledger.{Holds, gain, give}
use net_cas.Ring.{alloc_qe}
use net_cas.Queue.{get_max_fr_pages}
use net_cas.Queue.Cm.{AllocEnv}
use net_cas.Counts.{count_io_queues}
use net_cas.Ctrl.{
  Ctrl, Settings, BlkObjects, io_count, each_down, alloc_queue_at, stop_queue_at, free_queue_at,
  start_queue_at,
}
use net_cas.Ctrl.Admin.{
  AdminEnv, out_free_queue, out_free_async_qe, out_free_tagset, out_cleanup_fabrics_q,
  out_cleanup_queue, out_stop_queue, start_admin, make_admin_queues, make_async_event,
  configure_admin_queue, hw_sectors,
}
use net_cas.Ctrl.Io.{
  IoEnv, alloc_loop, alloc_each, alloc_io_queues, start_loop, start_io_queues, free_io_queues,
  out_free_tag_set, out_cleanup_connect_q, start_io, make_io_queues, configure_io_queues,
}
use net_cas.Ctrl.Resources.Blk.{
  each_up-blk, stop_queue_at-blk, free_queue_at-blk, out_free_async_qe-blk, without_io,
  without_admin,
}

-- `a` of each object of the admin queue and `i` of each of the I/O queues are there.
pub record Made (a i : ℕ) (b : BlkObjects) : Type 0 where
  pub admin_tagset : Holds a b.admin_tagset
  pub fabrics_q : Holds a b.fabrics_q
  pub admin_q : Holds a b.admin_q
  pub tagset : Holds i b.tagset
  pub connect_q : Holds i b.connect_q

abbrev pub HasMade : ℕ → ℕ → Ctrl → Type 0
HasMade a i c = Made a i c.blk

pub without_admin-Made : (i : ℕ) (b : BlkObjects) → Made 1 i b → Made 0 i (without_admin b)
without_admin-Made i b h = ground arith

pub without_io-Made : (a : ℕ) (b : BlkObjects) → Made a 1 b → Made a 0 (without_io b)
without_io-Made a b h = ground arith

-- A return code with the controller after it: what was to be made is made, or is not.
abbrev MadeAdmin : ℕ → ℤ × Ctrl → Type 0
MadeAdmin i r = ((is_zero r.0 ≡ true) × HasMade 1 i r.1) ⊎ ((is_zero r.0 ≡ false) × HasMade 0 i r.1)

out_free_tagset-blk :
    (c : Ctrl)
    → (out_free_tagset true c).blk ≡ record (c.blk) { admin_tagset = give 1 c.blk.admin_tagset }
unfolding out_free_tagset
out_free_tagset-blk c =
    out_free_async_qe-blk
      (record c { blk = record (c.blk) { admin_tagset = give 1 c.blk.admin_tagset } })

out_cleanup_fabrics_q-blk :
    (c : Ctrl)
    → (out_cleanup_fabrics_q true c).blk ≡ record (c.blk) {
      fabrics_q = give 1 c.blk.fabrics_q;
      admin_tagset = give 1 c.blk.admin_tagset;
    }
unfolding out_cleanup_fabrics_q
out_cleanup_fabrics_q-blk c =
    out_free_tagset-blk (record c { blk = record (c.blk) { fabrics_q = give 1 c.blk.fabrics_q } })

out_cleanup_queue-blk : (c : Ctrl) → (out_cleanup_queue true c).blk ≡ without_admin c.blk
unfolding out_cleanup_queue
out_cleanup_queue-blk c =
    out_cleanup_fabrics_q-blk (record c { blk = record (c.blk) { admin_q = give 1 c.blk.admin_q } })

out_stop_queue-blk : (c : Ctrl) → (out_stop_queue true c).blk ≡ without_admin c.blk
unfolding out_stop_queue
out_stop_queue-blk c =
    out_cleanup_queue-blk (stop_queue_at 0 c) ∙ ap without_admin (stop_queue_at-blk 0 c)

start_queue_at-blk : (i : ℕ) (ret : ℤ) (c : Ctrl) → (start_queue_at i ret c).blk ≡ c.blk
unfolding start_queue_at
start_queue_at-blk i ret c = refl

gone : (i : ℕ) (c t : Ctrl) → HasMade 1 i c → t.blk ≡ without_admin c.blk → HasMade 0 i t
gone i c t h e = rw (e) (without_admin-Made i c.blk h)

start_admin-MadeAdmin :
    (i : ℕ) (e : AdminEnv) (c : Ctrl) → HasMade 1 i c → MadeAdmin i (start_admin true e c)
unfolding start_admin
start_admin-MadeAdmin i e c h =
    let t = start_queue_at 0 e.connect c in
    let s : HasMade 1 i t = rw (start_queue_at-blk 0 e.connect c) h in
    let enabled = record t {
      max_segments = t.max_fr_pages;
      max_hw_sectors = hw_sectors t.max_fr_pages;
      admin_quiesced = false;
    } in
    elim (Bool-cases (is_zero e.connect)) [
      | inr bad ↦
          rw (bad) (inr (bad, gone i t (out_cleanup_queue true t) s (out_cleanup_queue-blk t)))
      | inl up ↦ rw (up) (elim (Bool-cases (is_zero e.enable_ctrl)) [
        | inr bad ↦ rw (bad) (inr (bad, gone i t (out_stop_queue true t) s (out_stop_queue-blk t)))
        | inl ready ↦ rw (ready) (elim (Bool-cases (is_zero e.init_identify)) [
          | inl ok ↦ rw (ok) (inl (refl, s))
          | inr bad ↦ rw (bad) (
              inr
                (bad, gone i enabled (out_stop_queue true enabled) s (out_stop_queue-blk enabled)))
        ])
      ])
    ]

make_admin_queues-MadeAdmin :
    (i : ℕ) (e : AdminEnv) (c : Ctrl) → HasMade 0 i c → MadeAdmin i (make_admin_queues e c)
unfolding make_admin_queues
make_admin_queues-MadeAdmin i e c h =
    let tags = record c { blk = record (c.blk) { admin_tagset = gain 1 c.blk.admin_tagset } } in
    let fabrics = record tags {
      blk = record (tags.blk) { fabrics_q = gain 1 tags.blk.fabrics_q };
    } in
    let admin = record fabrics {
      blk = record (fabrics.blk) { admin_q = gain 1 fabrics.blk.admin_q };
    } in
    let all : HasMade 1 i admin = ground arith in
    elim (Bool-cases (is_zero e.alloc_tagset)) [
      | inr bad ↦ rw (bad) (inr (bad, rw (out_free_async_qe-blk c) h))
      | inl a ↦ rw (a) (elim (Bool-cases (is_zero e.init_fabrics_q)) [
        | inr bad ↦ rw (bad) (inr (bad, rw (out_free_tagset-blk tags) (ground arith)))
        | inl b ↦ rw (b) (elim (Bool-cases (is_zero e.init_admin_q)) [
          | inr bad ↦ rw (bad) (inr (bad, rw (out_cleanup_fabrics_q-blk fabrics) (ground arith)))
          | inl d ↦ rw (d) (start_admin-MadeAdmin i e admin all)
        ])
      ])
    ]

make_async_event-MadeAdmin :
    (i : ℕ) (e : AdminEnv) (c : Ctrl) → HasMade 0 i c → MadeAdmin i (make_async_event true e c)
unfolding make_async_event out_free_queue
make_async_event-MadeAdmin i e c h =
    let (ret, m) = alloc_qe e.async_qe c.sqe in
    let t = record c { sqe = m; async_event = is_zero ret } in
    if_ind (MadeAdmin i) (is_zero ret) (make_admin_queues e t) (ret, out_free_queue t)
      (λ ok. make_admin_queues-MadeAdmin i e t h) (λ bad. inr (bad, rw (free_queue_at-blk 0 t) h))

pub alloc_queue_at-blk :
    (o : Settings) (i n : ℕ) (e : AllocEnv) (c : Ctrl)
    → ((alloc_queue_at o i n e c).1.blk ≡ c.blk) × ((alloc_queue_at o i n e c).1.counts ≡ c.counts)
unfolding alloc_queue_at
alloc_queue_at-blk o i n e c = (refl, refl)

-- For a new controller nvme_rdma_configure_admin_queue makes the objects of the admin queue, or
-- leaves none of them.
pub configure_admin_queue-MadeAdmin :
    (o : Settings) (i : ℕ) (e : AdminEnv) (c : Ctrl)
    → HasMade 0 i c
    → MadeAdmin i (configure_admin_queue o true e c)
unfolding configure_admin_queue
configure_admin_queue-MadeAdmin o i e c h =
    let (ret, t) = alloc_queue_at o 0 e.aq_depth e.alloc c in
    let u = record t {
      device = (t.queues 0).device;
      max_fr_pages = get_max_fr_pages e.max_fast_reg_page_list_len;
    } in
    let s : HasMade 0 i t = rw ((alloc_queue_at-blk o 0 e.aq_depth e.alloc c).0) h in
    if_ind (MadeAdmin i) (is_zero ret) (make_async_event true e u) (ret, t)
      (λ ok. make_async_event-MadeAdmin i e u s) (λ bad. inr (bad, s))
