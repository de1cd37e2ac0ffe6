-- ===== src/Ctrl/Resources/Made/Setup.antt =====
-- The block layer's objects from nvme_rdma_setup_ctrl to nvme_rdma_delete_ctrl, of
-- shell/nvme-of_setup/nvme-modified/host/rdma.c.
use net_cas.Common.{
  ◌+◌, ◌≡◌, ◌⊎◌, refl, ◌∙◌, ap, Bool, true, false, if◌then◌else◌, ltb, ◌==◌, inl, inr, if_ind,
  Bool-cases, arith,
}
use net_cas.Common.Code.{ℤ, is_zero, success, einval}
use net_cas.CtrlState.{live, change_ctrl_state}
use net_cas.Ctrl.{Ctrl, Settings, BlkObjects, stop_queue_at}
use net_cas.Ctrl.Admin.{configure_admin_queue}
use net_cas.Ctrl.Io.{configure_io_queues, destroy_io_queues}
use net_cas.Ctrl.Setup.{
  SetupEnv, clamp_sqsize, destroy_admin, destroy_io, go_live, setup_io, setup_ctrl,
  delete_rdma_ctrl,
}
use net_cas.Ctrl.Resources.Blk.{
  stop_queue_at-blk, without_io, without_admin, destroy_io_queues-blk, destroy_admin_queue-blk,
  delete_rdma_ctrl-blk,
}
use net_cas.Ctrl.Resources.Setup.{change_ctrl_state-state}
use net_cas.Ctrl.Resources.Made.{
  Made, HasMade, without_io-Made, without_admin-Made, configure_admin_queue-MadeAdmin,
}
use net_cas.Ctrl.Resources.Made.Io.{Refuses, configure_io_queues-MadeIo}

-- The admin queue's objects are made, the I/O queues' when the queue count is above 1.
abbrev IsBuilt : Ctrl → Type 0
IsBuilt c =
    ((ltb 1 c.counts.queue_count ≡ true) × HasMade 1 1 c)
    ⊎ ((ltb 1 c.counts.queue_count ≡ false) × HasMade 1 0 c)

-- A return code with the controller after it: live with what its deletion gives back, or nothing
-- made.
abbrev pub Deletable : ℤ × Ctrl → Type 0
Deletable r =
    ((is_zero r.0 ≡ true)
      × (r.1.nvme.state ≡ live)
      × IsBuilt r.1
      × HasMade 0 0 (delete_rdma_ctrl r.1))
    ⊎ HasMade 0 0 r.1

taken_down : BlkObjects → Bool → BlkObjects
taken_down b many = without_admin (if many then without_io b else b)

taken_down-Made : (c : Ctrl) → IsBuilt c → Made 0 0 (taken_down c.blk (ltb 1 c.counts.queue_count))
unfolding taken_down
taken_down-Made c h = elim h [
  | inl many ↦
      rw (many.0) (without_admin-Made 0 (without_io c.blk) (without_io-Made 1 c.blk many.1))
  | inr few ↦ rw (few.0) (without_admin-Made 0 c.blk few.1)
]

delete_rdma_ctrl-HasMade : (c : Ctrl) → IsBuilt c → HasMade 0 0 (delete_rdma_ctrl c)
unfolding taken_down
delete_rdma_ctrl-HasMade c h = rw (delete_rdma_ctrl-blk c) (taken_down-Made c h)

destroy_admin-blk : (c : Ctrl) → (destroy_admin true c).blk ≡ without_admin c.blk
unfolding destroy_admin
destroy_admin-blk c =
    destroy_admin_queue-blk (stop_queue_at 0 c) ∙ ap without_admin (stop_queue_at-blk 0 c)

destroy_admin-HasMade : (c : Ctrl) → HasMade 1 0 c → HasMade 0 0 (destroy_admin true c)
destroy_admin-HasMade c h = rw (destroy_admin-blk c) (without_admin-Made 0 c.blk h)

destroy_io-blk :
    (c : Ctrl) → (destroy_io true c).blk ≡ taken_down c.blk (ltb 1 c.counts.queue_count)
unfolding destroy_io taken_down
destroy_io-blk c = elim (Bool-cases (ltb 1 c.counts.queue_count)) [
  | inl many ↦
      rw (many)
        (destroy_admin-blk (destroy_io_queues true c) ∙ ap without_admin (destroy_io_queues-blk c))
  | inr few ↦ rw (few) (destroy_admin-blk c)
]

go_live-Deletable : (e : SetupEnv) (c : Ctrl) → IsBuilt c → Deletable (go_live true e c)
unfolding go_live
go_live-Deletable e c h =
    let (n, changed) = change_ctrl_state (e.before_live c.nvme) live in
    let t = record c { nvme = n } in
    let up = record t { starts = t.starts + 1 } in
    if_ind Deletable changed (success, up) (einval, destroy_io true t)
      (λ ok. inl (
        refl,
        change_ctrl_state-state (e.before_live c.nvme) live ok,
        h,
        delete_rdma_ctrl-HasMade up h,
      ))
      (λ bad. inr (rw (destroy_io-blk t) (taken_down-Made t h)))

setup_io-Deletable :
    (o : Settings) (e : SetupEnv) (c : Ctrl)
    → Refuses o e.io
    → HasMade 1 0 c
    → Deletable (setup_io o true e c)
unfolding setup_io
setup_io-Deletable o e c refuses h =
    let (ret, t) = configure_io_queues o true e.io c in
    if_ind Deletable (ltb 1 c.counts.queue_count)
      (if is_zero ret then go_live true e t else (ret, destroy_admin true t)) (go_live true e c)
      (λ many. elim (configure_io_queues-MadeIo o 1 e.io c refuses h) [
        | inl up ↦ rw (up.0) (go_live-Deletable e t (inl (ground arith, up.2)))
        | inr down ↦ rw (down.0) (inr (destroy_admin-HasMade t down.1))
      ])
      (λ few. go_live-Deletable e c (inr (few, h)))

clamp_sqsize-blk : (c : Ctrl) → (clamp_sqsize c).blk ≡ c.blk
unfolding clamp_sqsize
clamp_sqsize-blk c = refl

-- nvme_rdma_setup_ctrl of a new controller without objects of the block layer, where
-- blk_mq_alloc_tag_set refuses a tag set without hardware queues, either leaves none of them, or
-- returns 0 with the controller LIVE; it then has the admin queue's objects, and the I/O queues'
-- exactly when the queue count is above 1, and nvme_rdma_delete_ctrl leaves none of them.
pub setup_ctrl-Deletable :
    (o : Settings) (e : SetupEnv) (c : Ctrl)
    → Refuses o e.io
    → HasMade 0 0 c
    → Deletable (setup_ctrl o true e c)
unfolding setup_ctrl
setup_ctrl-Deletable o e c refuses h =
    let (ret, t) = configure_admin_queue o true e.admin c in
    elim (configure_admin_queue-MadeAdmin o 0 e.admin c h) [
      | inr down ↦ rw (down.0) (inr down.1)
      | inl up ↦
          let rejected : Deletable (ret, destroy_admin true t) =
            inr (destroy_admin-HasMade t up.1) in
          rw (up.0) (
            if_ind Deletable (t.identified.icdoff == 0)
              (if t.identified.keyed_sgls
                then setup_io o true e (clamp_sqsize t)
                else (ret, destroy_admin true t))
              (ret, destroy_admin true t)
              (λ fits.
                if_ind Deletable t.identified.keyed_sgls (setup_io o true e (clamp_sqsize t))
                  (ret, destroy_admin true t)
                  (λ keyed.
                    setup_io-Deletable o e (clamp_sqsize t) refuses (rw (clamp_sqsize-blk t) up.1))
                  (λ bad. rejected))
              (λ bad. rejected))
    ]
