-- ===== src/Ctrl/Setup/Outcome.antt =====
-- nvme_rdma_setup_ctrl, of shell/nvme-of_setup/nvme-modified/host/rdma.c: what it leaves behind for
-- each of its return codes.
use net_cas.Common.{
  ◌+◌, ◌≡◌, refl, ◌⊎◌, inl, inr, Bool, true, false, arith, if◌then◌else◌, ◌==◌, Bool-cases,
}
use net_cas.Common.Code.{is_zero}
use net_cas.CtrlState.{State, NvmeCtrl, live, change_ctrl_state}
use net_cas.Ring.{alloc_qe}
use net_cas.Queue.{QueueState, put_device, free_queue, destroy_queue_ib}
use net_cas.Ctrl.{Ctrl, Settings, link_at, free_queue_at, alloc_queue_at}
use net_cas.Ctrl.Admin.{
  AdminEnv, configure_admin_queue, make_async_event, make_admin_queues, start_admin,
  destroy_admin_queue,
}
use net_cas.Ctrl.Setup.{SetupEnv, destroy_admin, destroy_io, go_live, setup_ctrl}

-- The admin queue is not allocated.
unfoldable pub IsDown : Ctrl → Type 0
IsDown c = (c.queues 0).allocated ≡ false

destroy_queue_ib-allocated :
    (s : QueueState) → (destroy_queue_ib s).queue.allocated ≡ s.queue.allocated
unfolding destroy_queue_ib put_device
destroy_queue_ib-allocated s = ground arith

free_queue-allocated : (s : QueueState) → (free_queue s).queue.allocated ≡ false
unfolding free_queue
free_queue-allocated s =
    let t =
      destroy_queue_ib-allocated (record s { queue = record (s.queue) { allocated = false } }) in
    ground arith

free_queue_at-IsDown : (c : Ctrl) → IsDown (free_queue_at 0 c)
unfolding free_queue_at IsDown
free_queue_at-IsDown c = free_queue-allocated (link_at c 0).link

change_ctrl_state-new :
    (n : NvmeCtrl) (s : State)
    → (change_ctrl_state n s).1 ≡ true
    → (change_ctrl_state n s).0.state ≡ s
unfolding change_ctrl_state
change_ctrl_state-new n s h = ground arith

destroy_admin-IsDown : (fresh : Bool) (c : Ctrl) → IsDown (destroy_admin fresh c)
unfolding destroy_admin destroy_admin_queue
destroy_admin-IsDown fresh c = free_queue_at-IsDown _

-- The two checks on what the controller identified itself with.
abbrev pub is_accepted : Ctrl → Bool
is_accepted c = if c.identified.icdoff == 0 then c.identified.keyed_sgls else false

-- When nvme_rdma_configure_admin_queue succeeds, but the controller has an in-capsule data offset or
-- no keyed SGLs, nvme_rdma_setup_ctrl returns 0 and leaves the admin queue not allocated.
pub setup_ctrl-rejected :
    (o : Settings) (fresh : Bool) (e : SetupEnv) (c : Ctrl)
    → is_zero (configure_admin_queue o fresh e.admin c).0 ≡ true
    → is_accepted (configure_admin_queue o fresh e.admin c).1 ≡ false
    → (is_zero (setup_ctrl o fresh e c).0 ≡ true) × IsDown (setup_ctrl o fresh e c).1
unfolding setup_ctrl
setup_ctrl-rejected o fresh e c ok refused =
    let (ret, t) = configure_admin_queue o fresh e.admin c in
    rw (ok) (elim (Bool-cases (t.identified.icdoff == 0)) [
      | inl z ↦
          let k : t.identified.keyed_sgls ≡ false = rw (z) at refused in
          rw (z, k) (ok, destroy_admin-IsDown fresh t)
      | inr z ↦ rw (z) (ok, destroy_admin-IsDown fresh t)
    ])

-- Whatever other threads do to the state before, the end of nvme_rdma_setup_ctrl either returns 0
-- with the state LIVE and the controller started once, or returns an error with the admin queue not
-- allocated.
go_live_cases :
    (fresh : Bool) (e : SetupEnv) (c : Ctrl)
    → ((is_zero (go_live fresh e c).0 ≡ true)
        × ((go_live fresh e c).1.nvme.state ≡ live)
        × ((go_live fresh e c).1.starts ≡ c.starts + 1))
      ⊎ ((is_zero (go_live fresh e c).0 ≡ false) × IsDown (go_live fresh e c).1)
unfolding go_live destroy_io
go_live_cases fresh e c =
    let (n, changed) = change_ctrl_state (e.before_live c.nvme) live in
    elim (Bool-cases changed) [
      | inl ok ↦ rw (ok) (inl (refl, change_ctrl_state-new (e.before_live c.nvme) live ok, refl))
      | inr bad ↦ rw (bad) (inr (refl, destroy_admin-IsDown fresh _))
    ]

-- When every step of nvme_rdma_configure_admin_queue succeeds, so does it, and the controller is what
-- it identified itself as.
pub configure_admin_queue-success :
    (o : Settings) (fresh : Bool) (e : AdminEnv) (c : Ctrl)
    → is_zero (alloc_queue_at o 0 e.aq_depth e.alloc c).0 ≡ true
    → is_zero (alloc_qe e.async_qe (alloc_queue_at o 0 e.aq_depth e.alloc c).1.sqe).0 ≡ true
    → is_zero e.alloc_tagset ≡ true
    → is_zero e.init_fabrics_q ≡ true
    → is_zero e.init_admin_q ≡ true
    → is_zero e.connect ≡ true
    → is_zero e.enable_ctrl ≡ true
    → is_zero e.init_identify ≡ true
    → (is_zero (configure_admin_queue o fresh e c).0 ≡ true)
      × ((configure_admin_queue o fresh e c).1.identified ≡ e.identified)
unfolding configure_admin_queue make_async_event make_admin_queues start_admin
configure_admin_queue-success o fresh e c q a t f d n s i =
    elim fresh
      as (λ b.
        (is_zero (configure_admin_queue o b e c).0 ≡ true)
        × ((configure_admin_queue o b e c).1.identified ≡ e.identified)) [
          | true ↦ rw (q, a, t, f, d, n, s, i) (refl, refl)
          | false ↦ rw (q, a, n, s, i) (refl, refl)
        ]
