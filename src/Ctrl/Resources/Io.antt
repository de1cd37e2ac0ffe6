-- ===== src/Ctrl/Resources/Io.antt =====
-- What nvme_rdma_configure_io_queues and nvme_rdma_teardown_io_queues, of
-- shell/nvme-of_setup/nvme-modified/host/rdma.c, leave held.
use net_cas.Common.{
  ℕ, ◌+◌, ◌≡◌, ◌⊎◌, refl, Bool, true, false, arith, if◌then◌else◌, ltb, inl, inr, if_ind,
}
use mathlib.Core.Path.{subst}
use net_cas.Common.Code.{ℤ, is_zero, success}
use net_cas.Common.Ledger.{gain, give}
use net_cas.Queue.Cm.Events.{ResolvesFirst}
use net_cas.Ctrl.{Ctrl, Settings, io_count}
use net_cas.Ctrl.Io.{
  IoEnv, alloc_io_queues, start_io_queues, free_io_queues, stop_io_queues, out_free_tag_set,
  out_cleanup_connect_q, start_io, make_io_queues, configure_io_queues, destroy_io_queues,
  teardown_io_queues, has_tagset,
}
use net_cas.Ctrl.Io.Balance.{kept, alloc_io_queues-Split}
use net_cas.Ctrl.Resources.{IsHolding, IsSound}
use net_cas.Ctrl.Resources.Loops.{
  alloc_io_queues-SameAdmin, Split-IsHolding, IsHolding-Split, Started, start_io_queues-Started,
  stop_io_queues-Started, free_io_queues-IsHolding,
}

out_free_tag_set-IsHolding :
    (fresh : Bool) (c : Ctrl) → IsSound c → IsHolding 1 (out_free_tag_set fresh c)
unfolding out_free_tag_set
out_free_tag_set-IsHolding true c h =
    free_io_queues-IsHolding (record c { blk = record (c.blk) { tagset = give 1 c.blk.tagset } }) h
out_free_tag_set-IsHolding false c h = free_io_queues-IsHolding c h

out_cleanup_connect_q-IsHolding :
    (fresh : Bool) (c : Ctrl) → IsSound c → IsHolding 1 (out_cleanup_connect_q fresh c)
unfolding out_cleanup_connect_q
out_cleanup_connect_q-IsHolding true c h =
    out_free_tag_set-IsHolding true
      (record c { blk = record (c.blk) { connect_q = give 1 c.blk.connect_q } }) h
out_cleanup_connect_q-IsHolding false c h = out_free_tag_set-IsHolding false c h

-- A return code with the controller after it: up to the queue count, or the admin queue alone.
abbrev pub Connected : ℤ × Ctrl → Type 0
Connected r = ((is_zero r.0 ≡ true) × IsSound r.1) ⊎ ((is_zero r.0 ≡ false) × IsHolding 1 r.1)

Started-IsSound : (c t : Ctrl) → Started (1 + io_count c) c.counts t → IsSound t
Started-IsSound c t s = rw (s.counted) (s.held)

start_io-Connected :
    (fresh : Bool) (e : IoEnv) (c : Ctrl) → IsSound c → Connected (start_io fresh e c)
unfolding start_io
start_io-Connected fresh e c h =
    let (ret, t) = start_io_queues e.connect c in
    let s = Started-IsSound c t (start_io_queues-Started e.connect (1 + io_count c) c h) in
    if_ind Connected (is_zero ret) (success, t) (ret, out_cleanup_connect_q fresh t)
      (λ ok. inl (refl, s)) (λ bad. inr (bad, out_cleanup_connect_q-IsHolding fresh t s))

make_io_queues-Connected : (e : IoEnv) (c : Ctrl) → IsSound c → Connected (make_io_queues e c)
unfolding make_io_queues
make_io_queues-Connected e c h =
    let tags = record c { blk = record (c.blk) { tagset = gain 1 c.blk.tagset } } in
    let connected = record tags {
      blk = record (tags.blk) { connect_q = gain 1 tags.blk.connect_q };
    } in
    if_ind Connected (is_zero e.alloc_tagset)
      (if is_zero e.init_connect_q
        then start_io true e connected
        else (e.init_connect_q, out_free_tag_set true tags))
      (e.alloc_tagset, free_io_queues c)
      (λ a.
        if_ind Connected (is_zero e.init_connect_q) (start_io true e connected)
          (e.init_connect_q, out_free_tag_set true tags)
          (λ b. start_io-Connected true e connected h)
          (λ bad. inr (bad, out_free_tag_set-IsHolding true tags h)))
      (λ bad. inr (bad, free_io_queues-IsHolding c h))

-- With no I/O queue held before, nvme_rdma_configure_io_queues returns 0 and no I/O queue from the
-- queue count on is held, or it returns an error and no I/O queue is held.
pub configure_io_queues-Connected :
    (o : Settings) (fresh : Bool) (e : IoEnv) (c : Ctrl)
    → ((j : ℕ) → ResolvesFirst (e.alloc j).events)
    → IsHolding 1 c
    → Connected (configure_io_queues o fresh e c)
unfolding configure_io_queues
configure_io_queues-Connected o fresh e c first h =
    let (ret, t) = alloc_io_queues o e c in
    let s =
      Split-IsHolding c t 1 (kept (ret, t)) h (alloc_io_queues-SameAdmin o e c)
        (alloc_io_queues-Split o e c first (IsHolding-Split c h)) in
    if_ind Connected (is_zero ret) (if fresh then make_io_queues e t else start_io false e t)
      (ret, t)
      (λ ok.
        let k : kept (ret, t) ≡ 1 + io_count t = rw (ok) refl in
        let sound : IsSound t = subst (λ n. IsHolding n t) k s in
        if_ind Connected fresh (make_io_queues e t) (start_io false e t)
          (λ new. make_io_queues-Connected e t sound) (λ old. start_io-Connected false e t sound))
      (λ bad.
        let k : kept (ret, t) ≡ 1 = rw (bad) refl in inr (bad, subst (λ n. IsHolding n t) k s))

-- Destroying the I/O queues leaves none of them held, if none from the queue count on was.
pub destroy_io_queues-IsHolding :
    (remove : Bool) (c : Ctrl) → IsSound c → IsHolding 1 (destroy_io_queues remove c)
unfolding destroy_io_queues
destroy_io_queues-IsHolding true c h =
    let b = c.blk in
    free_io_queues-IsHolding
      (record c { blk = record b { connect_q = give 1 b.connect_q; tagset = give 1 b.tagset } }) h
destroy_io_queues-IsHolding false c h = free_io_queues-IsHolding c h

pub few-IsHolding : (c : Ctrl) → ltb 1 c.counts.queue_count ≡ false → IsSound c → IsHolding 1 c
few-IsHolding c few h = let e : 1 + io_count c ≡ 1 = ground arith in subst (λ n. IsHolding n c) e h

-- So does tearing them down.
pub teardown_io_queues-IsHolding :
    (remove : Bool) (c : Ctrl) → IsSound c → IsHolding 1 (teardown_io_queues remove c)
unfolding teardown_io_queues
teardown_io_queues-IsHolding remove c h =
    let t = stop_io_queues (record c { io_quiesced = true }) in
    let s =
      Started-IsSound c t
        (stop_io_queues-Started (1 + io_count c) (record c { io_quiesced = true }) h) in
    let cancelled = if has_tagset t then record t { cancels = t.cancels + 1 } else t in
    let held =
      if_ind IsSound (has_tagset t) (record t { cancels = t.cancels + 1 }) t (λ made. s)
        (λ unmade. s) in
    let down = if remove then record cancelled { io_quiesced = false } else cancelled in
    let sound =
      if_ind IsSound remove (record cancelled { io_quiesced = false }) cancelled (λ new. held)
        (λ old. held) in
    if_ind (IsHolding 1) (ltb 1 c.counts.queue_count) (destroy_io_queues remove down) c
      (λ many. destroy_io_queues-IsHolding remove down sound) (λ few. few-IsHolding c few h)
