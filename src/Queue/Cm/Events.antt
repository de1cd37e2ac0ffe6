-- ===== src/Queue/Cm/Events.antt =====
-- The objects of a queue through the events of nvme_rdma_cm_handler, of
-- shell/nvme-of_setup/nvme-modified/host/rdma.c.
use net_cas.Common.{ℕ, ◌≡◌, refl, ◌≢◌, Bool, false, List, [], ◌∷◌, arith}
use net_cas.Common.Lists.{All}
use net_cas.Counts.{IoQueues}
use net_cas.Queue.{Queue, QueueState, create_queue_ib}
use net_cas.Queue.Objects.{
  IsBalanced, create_queue_ib-IsCreated, destroy_queue_ib-IsBalanced, destroy_queue_ib-IsKept,
}
use net_cas.Queue.Cm.{
  CmEvent, CmEnv, CmState, addr_resolved, route_resolved, established, addr_error, disconnected,
  addr_change, timewait_exit, device_removal, other, on_addr_resolved, on_route_resolved,
  conn_established, post_recvs, report, cm_handler, handle_events,
}

-- The parts that handling an event leaves alone.
pub record IsSteady (q q' : Queue) : Type 0 where
  pub cm_ids : q'.cm_ids ≡ q.cm_ids
  pub allocated : q'.allocated ≡ q.allocated
  pub queue_size : q'.queue_size ≡ q.queue_size

on_addr_resolved-IsBalanced :
    (ra : Bool) (io : IoQueues) (idx : ℕ) (e : CmEnv) (s : QueueState)
    → s.queue.tr_ready ≡ false
    → IsBalanced s.queue
    → IsBalanced (on_addr_resolved ra io idx e s).1.queue
      × IsSteady s.queue (on_addr_resolved ra io idx e s).1.queue
unfolding on_addr_resolved
on_addr_resolved-IsBalanced ra io idx e s off b =
    let c = create_queue_ib-IsCreated ra io idx e.create s off b in
    let t = (create_queue_ib ra io idx e.create s).1 in
    ground (arith, destroy_queue_ib-IsBalanced t c.balanced, destroy_queue_ib-IsKept t)

on_route_resolved-IsBalanced :
    (e : CmEnv) (s : QueueState)
    → IsBalanced s.queue
    → IsBalanced (on_route_resolved e s).1.queue × IsSteady s.queue (on_route_resolved e s).1.queue
unfolding on_route_resolved
on_route_resolved-IsBalanced e s b =
    ground (arith, destroy_queue_ib-IsBalanced s b, destroy_queue_ib-IsKept s)

conn_established-IsBalanced :
    (e : CmEnv) (s : QueueState)
    → IsBalanced s.queue
    → IsBalanced (conn_established e s).1.queue × IsSteady s.queue (conn_established e s).1.queue
unfolding conn_established
conn_established-IsBalanced e s b =
    let t = record s {
      queue = record (s.queue) { recvs_posted = (post_recvs e.post_recv s.queue.queue_size 0).1 };
    } in
    ground (arith, destroy_queue_ib-IsBalanced t (ground arith), destroy_queue_ib-IsKept t)

pub cm_handler-IsBalanced :
    (ra : Bool) (io : IoQueues) (idx : ℕ) (ev : CmEvent) (e : CmEnv) (s : CmState)
    → (ev ≡ addr_resolved → s.link.queue.tr_ready ≡ false)
    → IsBalanced s.link.queue
    → IsBalanced (cm_handler ra io idx ev e s).link.queue
      × IsSteady s.link.queue (cm_handler ra io idx ev e s).link.queue
unfolding cm_handler report
cm_handler-IsBalanced ra io idx addr_resolved e s off b =
    let t = on_addr_resolved-IsBalanced ra io idx e s.link (off refl) b in ground arith
cm_handler-IsBalanced ra io idx route_resolved e s off b =
    let t = on_route_resolved-IsBalanced e s.link b in ground arith
cm_handler-IsBalanced ra io idx established e s off b =
    let t = conn_established-IsBalanced e s.link b in ground arith
cm_handler-IsBalanced ra io idx disconnected e s off b = ground arith
cm_handler-IsBalanced ra io idx addr_change e s off b = ground arith
cm_handler-IsBalanced ra io idx timewait_exit e s off b = ground arith
cm_handler-IsBalanced ra io idx device_removal e s off b = ground arith
cm_handler-IsBalanced ra io idx other e s off b = ground arith
cm_handler-IsBalanced ra io idx addr_error e s off b = ground arith
cm_handler-IsBalanced ra io idx _ e s off b =
    ground (arith, destroy_queue_ib-IsBalanced s.link b, destroy_queue_ib-IsKept s.link)

-- The connection manager resolves the address of a connection once, before anything else.
abbrev NoResolve : List (CmEvent × CmEnv) → Type 0
NoResolve = All λ p. p.0 ≢ addr_resolved

abbrev pub ResolvesFirst : List (CmEvent × CmEnv) → Type 0
ResolvesFirst [] = Unit {0}
ResolvesFirst (p ∷ es) = NoResolve es

handle_events-later :
    (ra : Bool) (io : IoQueues) (idx : ℕ) (es : List (CmEvent × CmEnv)) (s : CmState)
    → NoResolve es
    → IsBalanced s.link.queue
    → IsBalanced (handle_events ra io idx es s).link.queue
      × IsSteady s.link.queue (handle_events ra io idx es s).link.queue
unfolding handle_events
handle_events-later ra io idx [] s h b = ground arith
handle_events-later ra io idx ((ev, e) ∷ es) s h b =
    let t = cm_handler-IsBalanced ra io idx ev e s (λ x. absurd (h.0 x)) b in
    let ih = handle_events-later ra io idx es (cm_handler ra io idx ev e s) h.1 t.0 in ground arith

-- Whatever events arrive in whatever order, from a queue without objects, and as long as the address
-- is resolved first if at all: the objects of the queue stay balanced, and its connection
-- identifier, its flag ALLOCATED and its size stay as they are.
pub handle_events-IsBalanced :
    (ra : Bool) (io : IoQueues) (idx : ℕ) (es : List (CmEvent × CmEnv)) (s : CmState)
    → ResolvesFirst es
    → s.link.queue.tr_ready ≡ false
    → IsBalanced s.link.queue
    → IsBalanced (handle_events ra io idx es s).link.queue
      × IsSteady s.link.queue (handle_events ra io idx es s).link.queue
unfolding handle_events
handle_events-IsBalanced ra io idx [] s h off b = ground arith
handle_events-IsBalanced ra io idx ((ev, e) ∷ es) s h off b =
    let t = cm_handler-IsBalanced ra io idx ev e s (λ x. off) b in
    let ih = handle_events-later ra io idx es (cm_handler ra io idx ev e s) h t.0 in ground arith
