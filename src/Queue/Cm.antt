-- ===== src/Queue/Cm.antt =====
-- shell/nvme-of_setup/nvme-modified/host/rdma.c: how a queue is connected. nvme_rdma_alloc_queue
-- starts the connection and waits for `cm_done`; the events of the connection manager arrive
-- meanwhile and nvme_rdma_cm_handler drives the connection on.
pub mod Events
pub mod Alloc
pub mod Connected
use net_cas.Common.{
  ℕ, zero, suc, ◌+◌, ◌-◌, ◌*◌, ◌%◌, Bool, true, false, List, [], ◌∷◌, Option, none, some, ◌==◌, ltb,
  if◌then◌else◌,
}
use net_cas.Common.Code.{ℤ, negsuc, is_zero, success, etimedout, econnreset}
use net_cas.Common.Ledger.{Ledger, gain, give}
use net_cas.CtrlState.{NvmeCtrl, error_recovery}
use net_cas.Counts.{IoQueues}
use net_cas.Queue.{Queue, QueueEnv, QueueState, create_queue_ib, destroy_queue_ib}

-- `enum rdma_cm_event_type`, as far as the handler tells it apart.
pub data CmEvent : Type 0 where
  addr_resolved route_resolved established rejected : CmEvent
  route_error connect_error unreachable addr_error : CmEvent
  disconnected addr_change timewait_exit device_removal other : CmEvent

-- What the RDMA stack answers while one event is handled.
pub record CmEnv : Type 0 where
  pub create : QueueEnv
  pub resolve_route : ℤ
  pub connect : ℤ
  pub post_recv : ℕ → ℤ

-- What handling an event can change.
pub record CmState : Type 0 where
  pub link : QueueState
  pub ctrl : NvmeCtrl

-- The fields of `struct nvme_rdma_cm_req` that depend on the queue, as 16-bit numbers.
record CmReq : Type 0 where
  pub qid : ℕ
  pub hrqsize : ℕ
  pub hsqsize : ℕ

-- nvme_rdma_route_resolved: the private data of the connection request. `aq_depth` is NVME_AQ_DEPTH.
unfoldable cm_req : ℕ → ℕ → ℕ → ℕ → CmReq
cm_req aq_depth idx queue_size sqsize =
    let qid = idx % 65536 in
    if qid == 0
    then record { qid = qid; hrqsize = aq_depth; hsqsize = aq_depth - 1 }
    else record { qid = qid; hrqsize = queue_size % 65536; hsqsize = sqsize % 65536 }

-- nvme_rdma_post_recv for the entries of the ring; the index where it stopped.
unfoldable pub post_recvs : (ℕ → ℤ) → ℕ → ℕ → ℤ × ℕ
post_recvs post zero i = (success, i)
post_recvs post (suc n) i =
    let rest = post_recvs post n (i + 1) in if is_zero (post i) then rest else (post i, i)

unfoldable pub conn_established : CmEnv → QueueState → ℤ × QueueState
conn_established e s =
    let (ret, i) = post_recvs e.post_recv s.queue.queue_size 0 in
    let t = record s { queue = record (s.queue) { recvs_posted = i } } in
    if is_zero ret then (success, t) else (ret, destroy_queue_ib t)

-- nvme_rdma_conn_rejected only reports the reason.
unfoldable conn_rejected : ℤ
conn_rejected = econnreset

unfoldable pub on_addr_resolved : Bool → IoQueues → ℕ → CmEnv → QueueState → ℤ × QueueState
on_addr_resolved register_always io idx e s =
    let (ret, t) = create_queue_ib register_always io idx e.create s in
    if is_zero ret
    then if is_zero e.resolve_route then (success, t) else (e.resolve_route, destroy_queue_ib t)
    else (ret, t)

unfoldable pub on_route_resolved : CmEnv → QueueState → ℤ × QueueState
on_route_resolved e s = if is_zero e.connect then (success, s) else (e.connect, destroy_queue_ib s)

-- `if (cm_error) { queue->cm_error = cm_error; complete(&queue->cm_done); }`
unfoldable pub report : ℤ × QueueState → QueueState
report (cm_error, s) =
    if is_zero cm_error
    then s
    else record s { queue = record (s.queue) { cm_error = cm_error; cm_done = true } }

unfoldable pub recover : CmState → CmState
recover s = record s { ctrl = error_recovery s.ctrl }

unfoldable pub fail : ℤ → QueueState → QueueState
unfolding report
fail cm_error s = report (cm_error, s)

unfoldable pub complete_established : ℤ × QueueState → QueueState
complete_established (ret, s) = record s {
  queue = record (s.queue) { cm_error = ret; cm_done = true };
}

-- The `switch` of nvme_rdma_cm_handler.
unfoldable pub cm_handler : Bool → IoQueues → ℕ → CmEvent → CmEnv → CmState → CmState
unfolding recover fail complete_established conn_rejected
cm_handler register_always io idx addr_resolved e s = record s {
  link = report (on_addr_resolved register_always io idx e s.link);
}
cm_handler register_always io idx route_resolved e s = record s {
  link = report (on_route_resolved e s.link);
}
cm_handler register_always io idx established e s = record s {
  link = complete_established (conn_established e s.link);
}
cm_handler register_always io idx rejected e s = record s {
  link = fail conn_rejected (destroy_queue_ib s.link);
}
cm_handler register_always io idx route_error e s = record s {
  link = fail econnreset (destroy_queue_ib s.link);
}
cm_handler register_always io idx connect_error e s = record s {
  link = fail econnreset (destroy_queue_ib s.link);
}
cm_handler register_always io idx unreachable e s = record s {
  link = fail econnreset (destroy_queue_ib s.link);
}
cm_handler register_always io idx addr_error e s = record s { link = fail econnreset s.link }
cm_handler register_always io idx disconnected e s = recover s
cm_handler register_always io idx addr_change e s = recover s
cm_handler register_always io idx timewait_exit e s = recover s
cm_handler register_always io idx device_removal e s = s
cm_handler register_always io idx other e s = recover s

-- The events that arrive until the wait is over, in their order.
unfoldable pub handle_events : Bool → IoQueues → ℕ → List (CmEvent × CmEnv) → CmState → CmState
handle_events register_always io idx [] s = s
handle_events register_always io idx ((ev, e) ∷ es) s =
    handle_events register_always io idx es (cm_handler register_always io idx ev e s)

-- nvme_rdma_wait_for_cm after those events: interrupted by a signal, timed out, or completed.
unfoldable pub wait_for_cm : Option ℕ → Queue → ℤ
wait_for_cm (some n) q = negsuc n
wait_for_cm none q = if q.cm_done then q.cm_error else etimedout

-- What happens while one queue is connected; `interrupted` is there if a signal ends
-- the wait, whose result is then `negsuc` of it.
pub record AllocEnv : Type 0 where
  pub create_id : ℤ
  pub resolve_addr : ℤ
  pub events : List (CmEvent × CmEnv)
  pub interrupted : Option ℕ

-- `sizeof(struct nvme_command)`
abbrev command_size : ℕ
command_size = 64

unfoldable pub out_destroy_cm_id : CmState → CmState
out_destroy_cm_id s =
    let q = s.link.queue in
    record s {
      link = destroy_queue_ib (record (s.link) { queue = record q { cm_ids = give 1 q.cm_ids } });
    }

-- nvme_rdma_alloc_queue up to rdma_create_id, for the queue `idx`.
unfoldable pub init_queue : ℕ → ℕ → ℕ → Queue → Queue
init_queue ioccsz idx queue_size q = record q {
  cm_done = false;
  cmnd_capsule_len = if ltb 0 idx then ioccsz * 16 % 4294967296 else command_size;
  queue_size = queue_size;
}

unfoldable pub finish_alloc : Option ℕ → CmState → ℤ × CmState
finish_alloc interrupted s =
    let ret = wait_for_cm interrupted s.link.queue in
    if is_zero ret
    then (
      success,
      record s { link = record (s.link) { queue = record (s.link.queue) { allocated = true } } },
    )
    else (ret, out_destroy_cm_id s)

unfoldable pub alloc_queue : Bool → IoQueues → ℕ → ℕ → ℕ → AllocEnv → CmState → ℤ × CmState
alloc_queue register_always io ioccsz idx queue_size e s =
    let q = init_queue ioccsz idx queue_size s.link.queue in
    let begun = record s { link = record (s.link) { queue = q } } in
    let connecting = record s {
      link = record (s.link) {
        queue = record q { cm_ids = gain 1 q.cm_ids; cm_error = etimedout };
      };
    } in
    if is_zero e.create_id
    then if is_zero e.resolve_addr
      then finish_alloc e.interrupted (handle_events register_always io idx e.events connecting)
      else (e.resolve_addr, out_destroy_cm_id connecting)
    else (e.create_id, begun)
