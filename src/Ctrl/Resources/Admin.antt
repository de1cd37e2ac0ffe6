-- ===== src/Ctrl/Resources/Admin.antt =====
-- What nvme_rdma_configure_admin_queue and nvme_rdma_destroy_admin_queue, of
-- shell/nvme-of_setup/nvme-modified/host/rdma.c, leave held.
use net_cas.Common.{
  ℕ, ◌+◌, ◌≡◌, ◌⊎◌, refl, Bool, true, false, arith, if◌then◌else◌, inl, inr, sym, ◌∙◌, Bool-cases,
  if_ind,
}
use mathlib.Core.Path.{subst}
use mathlib.Core.Bool.{false≢true}
use net_cas.Common.Code.{ℤ, is_zero}
use net_cas.Common.Ledger.{gain, give}
use net_cas.Ring.{QeEnv, Memory, alloc_qe, free_qe}
use net_cas.Queue.{Queue, get_max_fr_pages}
use net_cas.Queue.Cm.{AllocEnv}
use net_cas.Queue.Cm.Events.{ResolvesFirst}
use net_cas.Queue.Cm.Alloc.{IsAllocated}
use net_cas.Ctrl.{Ctrl, Settings, alloc_queue_at, stop_queue_at, free_queue_at, start_queue_at}
use net_cas.Ctrl.Arrays.{
  IsFreeable, IsIdle-IsFreeable, alloc_queue_at-IsAllocated, alloc_queue_at-same, eq_cases,
}
use net_cas.Ctrl.Admin.{
  AdminEnv, out_free_queue, out_free_async_qe, out_free_tagset, out_cleanup_fabrics_q,
  out_cleanup_queue, out_stop_queue, start_admin, make_admin_queues, make_async_event,
  configure_admin_queue, destroy_admin_queue, teardown_admin_queue, hw_sectors, has,
}
use net_cas.Ctrl.Resources.{
  EventHeld, IsHolding, IsOff, stop_queue_at-IsHolding, start_queue_at-IsHolding,
  free_queue_at-IsOff,
}

free_qe-EventHeld : (m : Memory) → EventHeld true m → EventHeld false (free_qe m)
unfolding free_qe
free_qe-EventHeld m h = omega arith

out_free_async_qe-IsOff : (c : Ctrl) → IsHolding 1 c → IsOff (out_free_async_qe c)
unfolding out_free_async_qe out_free_queue
out_free_async_qe-IsOff c h =
    let t = record c { sqe = free_qe c.sqe; async_event = false } in
    if_ind (λ (u : Ctrl). IsOff (free_queue_at 0 u)) c.async_event t c
      (λ set.
        free_queue_at-IsOff t
          (record {
            each = h.each;
            beyond = h.beyond;
            event = free_qe-EventHeld c.sqe (subst (λ a. EventHeld a c.sqe) set h.event);
          })
          refl)
      (λ clear. free_queue_at-IsOff c h clear)

out_free_tagset-IsOff : (fresh : Bool) (c : Ctrl) → IsHolding 1 c → IsOff (out_free_tagset fresh c)
unfolding out_free_tagset
out_free_tagset-IsOff true c h =
    out_free_async_qe-IsOff
      (record c { blk = record (c.blk) { admin_tagset = give 1 c.blk.admin_tagset } }) h
out_free_tagset-IsOff false c h = out_free_async_qe-IsOff c h

out_cleanup_fabrics_q-IsOff :
    (fresh : Bool) (c : Ctrl) → IsHolding 1 c → IsOff (out_cleanup_fabrics_q fresh c)
unfolding out_cleanup_fabrics_q
out_cleanup_fabrics_q-IsOff true c h =
    out_free_tagset-IsOff true
      (record c { blk = record (c.blk) { fabrics_q = give 1 c.blk.fabrics_q } }) h
out_cleanup_fabrics_q-IsOff false c h = out_free_tagset-IsOff false c h

out_cleanup_queue-IsOff :
    (fresh : Bool) (c : Ctrl) → IsHolding 1 c → IsOff (out_cleanup_queue fresh c)
unfolding out_cleanup_queue
out_cleanup_queue-IsOff true c h =
    out_cleanup_fabrics_q-IsOff true
      (record c { blk = record (c.blk) { admin_q = give 1 c.blk.admin_q } }) h
out_cleanup_queue-IsOff false c h = out_cleanup_fabrics_q-IsOff false c h

out_stop_queue-IsOff : (fresh : Bool) (c : Ctrl) → IsHolding 1 c → IsOff (out_stop_queue fresh c)
unfolding out_stop_queue
out_stop_queue-IsOff fresh c h =
    out_cleanup_queue-IsOff fresh (stop_queue_at 0 c) (stop_queue_at-IsHolding 1 0 c h)

-- A return code with the controller after it: up to the admin queue, or nothing held.
abbrev Configured : ℤ × Ctrl → Type 0
Configured r = ((is_zero r.0 ≡ true) × IsHolding 1 r.1) ⊎ ((is_zero r.0 ≡ false) × IsOff r.1)

start_admin-Configured :
    (fresh : Bool) (e : AdminEnv) (c : Ctrl) → IsHolding 1 c → Configured (start_admin fresh e c)
unfolding start_admin
start_admin-Configured fresh e c h =
    let t = start_queue_at 0 e.connect c in
    let s = start_queue_at-IsHolding 1 0 e.connect c h in
    let enabled = record t {
      max_segments = t.max_fr_pages;
      max_hw_sectors = hw_sectors t.max_fr_pages;
      admin_quiesced = false;
    } in
    elim (Bool-cases (is_zero e.connect)) [
      | inr bad ↦ rw (bad) (inr (bad, out_cleanup_queue-IsOff fresh t s))
      | inl up ↦ rw (up) (elim (Bool-cases (is_zero e.enable_ctrl)) [
        | inr bad ↦ rw (bad) (inr (bad, out_stop_queue-IsOff fresh t s))
        | inl ready ↦ rw (ready) (elim (Bool-cases (is_zero e.init_identify)) [
          | inl ok ↦ rw (ok) (inl (refl, s))
          | inr bad ↦ rw (bad) (inr (bad, out_stop_queue-IsOff fresh enabled s))
        ])
      ])
    ]

make_admin_queues-Configured :
    (e : AdminEnv) (c : Ctrl) → IsHolding 1 c → Configured (make_admin_queues e c)
unfolding make_admin_queues
make_admin_queues-Configured e c h =
    let tags = record c { blk = record (c.blk) { admin_tagset = gain 1 c.blk.admin_tagset } } in
    let fabrics = record tags {
      blk = record (tags.blk) { fabrics_q = gain 1 tags.blk.fabrics_q };
    } in
    let admin = record fabrics {
      blk = record (fabrics.blk) { admin_q = gain 1 fabrics.blk.admin_q };
    } in
    elim (Bool-cases (is_zero e.alloc_tagset)) [
      | inr bad ↦ rw (bad) (inr (bad, out_free_async_qe-IsOff c h))
      | inl a ↦ rw (a) (elim (Bool-cases (is_zero e.init_fabrics_q)) [
        | inr bad ↦ rw (bad) (inr (bad, out_free_tagset-IsOff true tags h))
        | inl b ↦ rw (b) (elim (Bool-cases (is_zero e.init_admin_q)) [
          | inr bad ↦ rw (bad) (inr (bad, out_cleanup_fabrics_q-IsOff true fabrics h))
          | inl d ↦ rw (d) (start_admin-Configured true e admin h)
        ])
      ])
    ]

alloc_qe-EventHeld :
    (e : QeEnv) (m : Memory)
    → EventHeld false m
    → EventHeld (is_zero (alloc_qe e m).0) (alloc_qe e m).1
unfolding alloc_qe
alloc_qe-EventHeld e m h = ground arith

make_async_event-Configured :
    (fresh : Bool) (e : AdminEnv) (c : Ctrl)
    → IsHolding 1 c
    → c.async_event ≡ false
    → Configured (make_async_event fresh e c)
unfolding make_async_event out_free_queue
make_async_event-Configured fresh e c h off =
    let (ret, m) = alloc_qe e.async_qe c.sqe in
    let t = record c { sqe = m; async_event = is_zero ret } in
    let s : IsHolding 1 t = record {
      each = h.each;
      beyond = h.beyond;
      event = alloc_qe-EventHeld e.async_qe c.sqe (subst (λ a. EventHeld a c.sqe) off h.event);
    } in
    if_ind Configured (is_zero ret) (if fresh then make_admin_queues e t else start_admin false e t)
      (ret, out_free_queue t)
      (λ ok.
        if_ind Configured fresh (make_admin_queues e t) (start_admin false e t)
          (λ new. make_admin_queues-Configured e t s) (λ old. start_admin-Configured false e t s))
      (λ bad. inr (bad, free_queue_at-IsOff t s bad))

IsAllocated-IsFreeable : {ret : ℤ} {q : Queue} → IsAllocated ret q → IsFreeable q
IsAllocated-IsFreeable {ret} {q} a = elim (Bool-cases (is_zero ret)) [
  | inl ok ↦ (a.owned, λ n. absurd (false≢true (sym n ∙ a.outcome ∙ ok)))
  | inr bad ↦ (a.owned, λ n. (a.clean bad).not_ready)
]

alloc_queue_at-event :
    (o : Settings) (i n : ℕ) (e : AllocEnv) (c : Ctrl)
    → ((alloc_queue_at o i n e c).1.async_event ≡ c.async_event)
      × ((alloc_queue_at o i n e c).1.sqe ≡ c.sqe)
unfolding alloc_queue_at
alloc_queue_at-event o i n e c = (refl, refl)

alloc_queue_at-IsHolding :
    (o : Settings) (n : ℕ) (e : AllocEnv) (c : Ctrl)
    → ResolvesFirst e.events
    → IsOff c
    → IsHolding 1 (alloc_queue_at o 0 n e c).1
unfolding alloc_queue_at
alloc_queue_at-IsHolding o n e c first h =
    let a = alloc_queue_at-IsAllocated o 0 n e c (h.idle 0) first in
    record {
      each = λ j. elim (eq_cases 0 j) [
        | inl same ↦ rw (← same) (IsAllocated-IsFreeable a)
        | inr other ↦ rw (alloc_queue_at-same o 0 n e c j other) (IsIdle-IsFreeable (h.idle j))
      ];
      beyond = λ j pos far. rw (alloc_queue_at-same o 0 n e c j (omega arith)) (h.idle j);
      event = subst (λ a. EventHeld a c.sqe) (sym h.no_event) h.released;
    }

alloc_queue_at-IsOff :
    (o : Settings) (n : ℕ) (e : AllocEnv) (c : Ctrl)
    → ResolvesFirst e.events
    → IsOff c
    → is_zero (alloc_queue_at o 0 n e c).0 ≡ false
    → IsOff (alloc_queue_at o 0 n e c).1
unfolding alloc_queue_at
alloc_queue_at-IsOff o n e c first h bad =
    let a = alloc_queue_at-IsAllocated o 0 n e c (h.idle 0) first in
    record {
      idle = λ j. elim (eq_cases 0 j) [
        | inl same ↦ rw (← same) (a.clean bad)
        | inr other ↦ rw (alloc_queue_at-same o 0 n e c j other) (h.idle j)
      ];
      no_event = h.no_event;
      released = h.released;
    }

-- From a controller that holds nothing, nvme_rdma_configure_admin_queue returns 0 and holds at most
-- the admin queue and the entry of the asynchronous event, or returns an error and holds nothing.
pub configure_admin_queue-Configured :
    (o : Settings) (fresh : Bool) (e : AdminEnv) (c : Ctrl)
    → ResolvesFirst e.alloc.events
    → IsOff c
    → Configured (configure_admin_queue o fresh e c)
unfolding configure_admin_queue
configure_admin_queue-Configured o fresh e c first h =
    let (ret, t) = alloc_queue_at o 0 e.aq_depth e.alloc c in
    let u = record t {
      device = (t.queues 0).device;
      max_fr_pages = get_max_fr_pages e.max_fast_reg_page_list_len;
    } in
    if_ind Configured (is_zero ret) (make_async_event fresh e u) (ret, t)
      (λ ok.
        make_async_event-Configured fresh e u
          (alloc_queue_at-IsHolding o e.aq_depth e.alloc c first h)
          ((alloc_queue_at-event o 0 e.aq_depth e.alloc c).0 ∙ h.no_event))
      (λ bad. inr (bad, alloc_queue_at-IsOff o e.aq_depth e.alloc c first h bad))

-- Destroying the admin queue of a controller whose other queues hold nothing leaves it with nothing.
pub destroy_admin_queue-IsOff :
    (remove : Bool) (c : Ctrl) → IsHolding 1 c → IsOff (destroy_admin_queue remove c)
unfolding destroy_admin_queue
destroy_admin_queue-IsOff true c h =
    let b = c.blk in
    out_free_async_qe-IsOff
      (record c {
        blk = record b {
          admin_q = give 1 b.admin_q;
          fabrics_q = give 1 b.fabrics_q;
          admin_tagset = give 1 b.admin_tagset;
        };
      })
      h
destroy_admin_queue-IsOff false c h = out_free_async_qe-IsOff c h

-- So does tearing it down.
pub teardown_admin_queue-IsOff :
    (remove : Bool) (c : Ctrl) → IsHolding 1 c → IsOff (teardown_admin_queue remove c)
unfolding teardown_admin_queue
teardown_admin_queue-IsOff remove c h =
    let t = stop_queue_at 0 (record c { admin_quiesced = true }) in
    let s = stop_queue_at-IsHolding 1 0 (record c { admin_quiesced = true }) h in
    let cancelled = if has t.blk.admin_tagset then record t { cancels = t.cancels + 1 } else t in
    let held =
      if_ind (IsHolding 1) (has t.blk.admin_tagset) (record t { cancels = t.cancels + 1 }) t
        (λ made. s) (λ unmade. s) in
    if_ind (λ u. IsOff (destroy_admin_queue remove u)) remove
      (record cancelled { admin_quiesced = false }) cancelled
      (λ new. destroy_admin_queue-IsOff remove (record cancelled { admin_quiesced = false }) held)
      (λ old. destroy_admin_queue-IsOff remove cancelled held)
