-- ===== src/Queue/Cm/Connected.antt =====
-- A queue that nvme_rdma_alloc_queue, of shell/nvme-of_setup/nvme-modified/host/rdma.c, connects, when
-- the connection manager reports the end of a step only after the driver has started it.
use net_cas.Common.{
  ℕ, ◌≡◌, ◌⊎◌, inl, inr, refl, sym, ◌∙◌, Bool, true, false, List, [], ◌∷◌, Option, if◌then◌else◌,
  if_ind, arith, bit, Bool-cases,
}
use mathlib.Core.Bool.{false≢true}
use mathlib.Core.Path.{subst}
use net_cas.Common.Code.{ℤ, is_zero, etimedout}
use net_cas.Common.Ledger.{Holds, gain}
use net_cas.Counts.{IoQueues}
use net_cas.Queue.{Queue, QueueState}
use net_cas.Queue.Objects.{HoldsObjects, IsBalanced, create_queue_ib-IsCreated}
use net_cas.Queue.Cm.{
  CmEvent, CmEnv, CmState, AllocEnv, addr_resolved, route_resolved, established, rejected,
  route_error, connect_error, unreachable, addr_error, disconnected, addr_change, timewait_exit,
  device_removal, other, on_addr_resolved, on_route_resolved, conn_established,
  complete_established, report, cm_handler, handle_events, wait_for_cm, init_queue,
  out_destroy_cm_id, finish_alloc, alloc_queue,
}
use net_cas.Queue.Cm.Events.{IsSteady, cm_handler-IsBalanced}
use net_cas.Queue.Cm.Alloc.{IsIdle, IsAllocated, out_destroy_cm_id-IsIdle, finish_alloc-IsAllocated}

-- How far a connection has come: rdma_resolve_addr was called, rdma_resolve_route, rdma_connect, it is
-- established, or it has failed.
pub data Stage : Type 0 where
  resolving routing connecting up broken : Stage

-- An address is resolved, a route resolved and a connection established only once each, after the
-- call of the driver that starts it; all else can come at any time.
abbrev permitted : Stage → CmEvent → Bool
permitted resolving addr_resolved = true
permitted _ addr_resolved = false
permitted routing route_resolved = true
permitted _ route_resolved = false
permitted connecting established = true
permitted _ established = false
permitted _ _ = true

-- Whether the call that starts the next step was made and succeeded, by what the driver returns.
abbrev stage_after : Bool → IoQueues → ℕ → Stage → CmEvent → CmEnv → CmState → Stage
stage_after ra io idx stage addr_resolved e s =
    if is_zero (on_addr_resolved ra io idx e s.link).0 then routing else broken
stage_after ra io idx stage route_resolved e s =
    if is_zero (on_route_resolved e s.link).0 then connecting else broken
stage_after ra io idx stage established e s =
    if is_zero (conn_established e s.link).0 then up else broken
stage_after ra io idx stage rejected e s = broken
stage_after ra io idx stage route_error e s = broken
stage_after ra io idx stage connect_error e s = broken
stage_after ra io idx stage unreachable e s = broken
stage_after ra io idx stage addr_error e s = broken
stage_after ra io idx stage _ e s = stage

abbrev pub Orderly : Bool → IoQueues → ℕ → Stage → List (CmEvent × CmEnv) → CmState → Type 0
Orderly ra io idx stage [] s = Unit {0}
Orderly ra io idx stage ((ev, e) ∷ es) s =
    (permitted stage ev ≡ true)
    × Orderly ra io idx (stage_after ra io idx stage ev e s) es (cm_handler ra io idx ev e s)

-- The state in which nvme_rdma_alloc_queue calls rdma_resolve_addr.
abbrev pub connecting_from : ℕ → ℕ → ℕ → CmState → CmState
connecting_from ioccsz idx queue_size s =
    let q = init_queue ioccsz idx queue_size s.link.queue in
    record s {
      link = record (s.link) {
        queue = record q { cm_ids = gain 1 q.cm_ids; cm_error = etimedout };
      };
    }

-- What is so at each stage.
abbrev At : Stage → Queue → Type 0
At resolving q = (q.tr_ready ≡ false) × (q.cm_done ≡ false)
At routing q = (q.tr_ready ≡ true) × (q.cm_done ≡ false)
At connecting q = (q.tr_ready ≡ true) × (q.cm_done ≡ false)
At up q = (q.tr_ready ≡ true) × (is_zero q.cm_error ≡ true)
At broken q = (is_zero q.cm_error ≡ false) × (q.cm_done ≡ true)

on_addr_resolved-At :
    (ra : Bool) (io : IoQueues) (idx : ℕ) (e : CmEnv) (s : QueueState)
    → IsBalanced s.queue
    → At resolving s.queue
    → At
        (if is_zero (on_addr_resolved ra io idx e s).0 then routing else broken)
        (report (on_addr_resolved ra io idx e s)).queue
unfolding on_addr_resolved report
on_addr_resolved-At ra io idx e s b h =
    let c = create_queue_ib-IsCreated ra io idx e.create s h.0 b in
    let k = c.kept in let o = c.outcome in ground arith

on_route_resolved-At :
    (e : CmEnv) (s : QueueState)
    → At routing s.queue
    → At
        (if is_zero (on_route_resolved e s).0 then connecting else broken)
        (report (on_route_resolved e s)).queue
unfolding on_route_resolved report
on_route_resolved-At e s h = ground arith

conn_established-At :
    (e : CmEnv) (s : QueueState)
    → At connecting s.queue
    → At
        (if is_zero (conn_established e s).0 then up else broken)
        (complete_established (conn_established e s)).queue
unfolding conn_established complete_established
conn_established-At e s h = ground arith

cm_handler-At :
    (ra : Bool) (io : IoQueues) (idx : ℕ) (stage : Stage) (ev : CmEvent) (e : CmEnv) (s : CmState)
    → permitted stage ev ≡ true
    → IsBalanced s.link.queue
    → At stage s.link.queue
    → At (stage_after ra io idx stage ev e s) (cm_handler ra io idx ev e s).link.queue
unfolding cm_handler
cm_handler-At ra io idx resolving addr_resolved e s p b h =
    on_addr_resolved-At ra io idx e s.link b h
cm_handler-At ra io idx routing route_resolved e s p b h = on_route_resolved-At e s.link h
cm_handler-At ra io idx connecting established e s p b h = conn_established-At e s.link h
cm_handler-At ra io idx _ addr_resolved e s p b h = absurd (false≢true p)
cm_handler-At ra io idx _ route_resolved e s p b h = absurd (false≢true p)
cm_handler-At ra io idx _ established e s p b h = absurd (false≢true p)
cm_handler-At ra io idx stage rejected e s p b h = (refl, refl)
cm_handler-At ra io idx stage route_error e s p b h = (refl, refl)
cm_handler-At ra io idx stage connect_error e s p b h = (refl, refl)
cm_handler-At ra io idx stage unreachable e s p b h = (refl, refl)
cm_handler-At ra io idx stage addr_error e s p b h = (refl, refl)
cm_handler-At ra io idx stage disconnected e s p b h = h
cm_handler-At ra io idx stage addr_change e s p b h = h
cm_handler-At ra io idx stage timewait_exit e s p b h = h
cm_handler-At ra io idx stage device_removal e s p b h = h
cm_handler-At ra io idx stage other e s p b h = h

stage_ready : (stage : Stage) → permitted stage addr_resolved ≡ true → stage ≡ resolving
stage_ready resolving h = refl
stage_ready routing h = absurd (false≢true h)
stage_ready connecting h = absurd (false≢true h)
stage_ready up h = absurd (false≢true h)
stage_ready broken h = absurd (false≢true h)

-- The event that needs it finds the queue without objects.
permitted-At :
    (stage : Stage) (ev : CmEvent) (q : Queue)
    → permitted stage ev ≡ true
    → At stage q
    → ev ≡ addr_resolved
    → q.tr_ready ≡ false
permitted-At stage ev q p h e =
    let first : stage ≡ resolving = stage_ready stage (subst (λ x. permitted stage x ≡ true) e p) in
    (subst (λ t. At t q) first h).0

-- A queue whose connection is done without an error is ready, at any stage.
done-ready :
    (stage : Stage) (q : Queue)
    → At stage q
    → q.cm_done ≡ true
    → is_zero q.cm_error ≡ true
    → q.tr_ready ≡ true
done-ready resolving q h done ok = absurd (false≢true (sym h.1 ∙ done))
done-ready routing q h done ok = h.0
done-ready connecting q h done ok = h.0
done-ready up q h done ok = h.0
done-ready broken q h done ok = absurd (false≢true (sym h.0 ∙ ok))

handle_events-ready :
    (ra : Bool) (io : IoQueues) (idx : ℕ) (stage : Stage) (es : List (CmEvent × CmEnv))
    (s : CmState)
    → Orderly ra io idx stage es s
    → IsBalanced s.link.queue
    → At stage s.link.queue
    → let q = (handle_events ra io idx es s).link.queue in
      IsBalanced q
      × IsSteady s.link.queue q
      × (q.cm_done ≡ true → is_zero q.cm_error ≡ true → q.tr_ready ≡ true)
unfolding handle_events
handle_events-ready ra io idx stage [] s orderly b h = (
  b,
  record { cm_ids = refl; allocated = refl; queue_size = refl },
  done-ready stage s.link.queue h,
)
handle_events-ready ra io idx stage ((ev, e) ∷ es) s (p, orderly) b h =
    let t = cm_handler-IsBalanced ra io idx ev e s (permitted-At stage ev s.link.queue p h) b in
    let next = cm_handler-At ra io idx stage ev e s p b h in
    let ih =
      handle_events-ready ra io idx (stage_after ra io idx stage ev e s) es
        (cm_handler ra io idx ev e s) orderly t.0 next in
    let a = t.1 in
    let c = ih.1 in
    (
      ih.0,
      record {
        cm_ids = c.cm_ids ∙ a.cm_ids;
        allocated = c.allocated ∙ a.allocated;
        queue_size = c.queue_size ∙ a.queue_size;
      },
      ih.2,
    )

-- Allocated and ready, with the identifier and each object held once.
pub record IsConnected (q : Queue) : Type 0 where
  pub allocated : q.allocated ≡ true
  pub ready : q.tr_ready ≡ true
  pub cm_ids : Holds 1 q.cm_ids
  pub objects : HoldsObjects 1 1 1 1 1 q

-- A return code with the queue after it: connected, or idle.
abbrev pub Connected : ℤ → Queue → Type 0
Connected ret q = ((is_zero ret ≡ true) × IsConnected q) ⊎ ((is_zero ret ≡ false) × IsIdle q)

ready-IsConnected :
    (ret : ℤ) (q : Queue)
    → IsAllocated ret q
    → (is_zero ret ≡ true → q.tr_ready ≡ true)
    → Connected ret q
ready-IsConnected ret q a h = elim (Bool-cases (is_zero ret)) [
  | inl ok ↦
      let t = h ok in
      let on : q.allocated ≡ true = a.outcome ∙ ok in
      let b = a.owned.balanced.objects in
      inl (
        ok,
        record {
          allocated = on;
          ready = t;
          cm_ids = rw (on) at a.owned.cm_ids;
          objects = subst (λ x. HoldsObjects (bit x) (bit x) (bit x) (bit x) (bit x) q) t b;
        },
      )
  | inr bad ↦ inr (bad, a.clean bad)
]

finish_alloc-ready :
    (interrupted : Option ℕ) (s : CmState)
    → (s.link.queue.cm_done ≡ true
        → is_zero s.link.queue.cm_error ≡ true
        → s.link.queue.tr_ready ≡ true)
    → is_zero (finish_alloc interrupted s).0 ≡ true
    → (finish_alloc interrupted s).1.link.queue.tr_ready ≡ true
unfolding finish_alloc wait_for_cm
finish_alloc-ready interrupted s h = ground (arith, h)

-- From an idle queue, whatever the connection manager and the RDMA stack answer, as long as the end
-- of a step is reported only after the driver has started the step: on 0 the queue is allocated and
-- ready, and holds its connection identifier and each object once; on an error, a timeout or an
-- interrupted wait it is idle again, with nothing held.
pub alloc_queue-Connected :
    (ra : Bool) (io : IoQueues) (ioccsz idx queue_size : ℕ) (e : AllocEnv) (s : CmState)
    → IsIdle s.link.queue
    → Orderly ra io idx resolving e.events (connecting_from ioccsz idx queue_size s)
    → Connected
        (alloc_queue ra io ioccsz idx queue_size e s).0
        (alloc_queue ra io ioccsz idx queue_size e s).1.link.queue
unfolding alloc_queue init_queue
alloc_queue-Connected ra io ioccsz idx queue_size e s i orderly =
    let t = connecting_from ioccsz idx queue_size s in
    let b : IsBalanced t.link.queue = ground arith in
    let h = handle_events-ready ra io idx resolving e.events t orderly b (ground arith) in
    let u = handle_events ra io idx e.events t in
    let steady = h.1 in
    let f = finish_alloc-IsAllocated e.interrupted u h.0 (ground arith) (ground arith) in
    let r = ready-IsConnected _ _ f (finish_alloc-ready e.interrupted u h.2) in
    let given_up = out_destroy_cm_id-IsIdle t b (ground arith) (ground arith) in
    let begun = record s {
      link = record (s.link) { queue = init_queue ioccsz idx queue_size s.link.queue };
    } in
    if_ind (λ (x : ℤ × CmState). Connected x.0 x.1.link.queue) (is_zero e.create_id)
      (if is_zero e.resolve_addr
        then finish_alloc e.interrupted u
        else (e.resolve_addr, out_destroy_cm_id t))
      (e.create_id, begun)
      (λ made.
        if_ind (λ (x : ℤ × CmState). Connected x.0 x.1.link.queue) (is_zero e.resolve_addr)
          (finish_alloc e.interrupted u) (e.resolve_addr, out_destroy_cm_id t) (λ started. r)
          (λ failed. inr (failed, given_up)))
      (λ failed. inr (failed, ground arith))
