-- ===== src/Ctrl/Resources/Setup.antt =====
-- What nvme_rdma_setup_ctrl, of shell/nvme-of_setup/nvme-modified/host/rdma.c, leaves held.
use net_cas.Common.{
  ℕ, ◌+◌, ◌≡◌, ◌⊎◌, refl, Bool, true, arith, if◌then◌else◌, ◌==◌, ltb, inl, inr, if_ind, sym, ◌∙◌,
}
use mathlib.Core.Bool.{false≢true}
use net_cas.Common.Code.{ℤ, is_zero, success, einval}
use net_cas.Queue.Cm.Events.{ResolvesFirst}
use net_cas.CtrlState.{State, allows, live, NvmeCtrl, change_ctrl_state}
use net_cas.Ctrl.{Ctrl, Settings, stop_queue_at, io_count}
use net_cas.Ctrl.Admin.{configure_admin_queue}
use net_cas.Ctrl.Io.{configure_io_queues, destroy_io_queues}
use net_cas.Ctrl.Setup.{
  SetupEnv, clamp_sqsize, destroy_admin, destroy_io, go_live, setup_io, setup_ctrl,
}
use net_cas.Ctrl.Resources.{
  IsHolding, IsOff, IsSound, IsOff-IsHolding, Holding-le, stop_queue_at-IsHolding,
}
use net_cas.Ctrl.Resources.Admin.{configure_admin_queue-Configured, destroy_admin_queue-IsOff}
use net_cas.Ctrl.Resources.Io.{
  configure_io_queues-Connected, destroy_io_queues-IsHolding, few-IsHolding,
}

-- The connection manager resolves the address and the route of every queue.
pub record Resolving (e : SetupEnv) : Type 0 where
  pub admin : ResolvesFirst e.admin.alloc.events
  pub io : (j : ℕ) → ResolvesFirst (e.io.alloc j).events

-- A return code with the controller after it: live, or nothing held.
abbrev pub Ready : ℤ × Ctrl → Type 0
Ready r = ((is_zero r.0 ≡ true) × (r.1.nvme.state ≡ live) × IsSound r.1) ⊎ IsOff r.1

pub IsOff-IsSound : (c : Ctrl) → IsOff c → IsSound c
IsOff-IsSound c h = IsOff-IsHolding (1 + io_count c) c h

one-IsSound : (c : Ctrl) → IsHolding 1 c → IsSound c
one-IsSound c h = Holding-le 1 (1 + io_count c) c (omega arith) h

Ready-IsSound : (r : ℤ × Ctrl) → Ready r → IsSound r.1
Ready-IsSound r h = elim h [ inl up ↦ up.2 | inr down ↦ IsOff-IsSound r.1 down ]

destroy_admin-IsOff : (fresh : Bool) (c : Ctrl) → IsHolding 1 c → IsOff (destroy_admin fresh c)
unfolding destroy_admin
destroy_admin-IsOff fresh c h =
    destroy_admin_queue-IsOff fresh (stop_queue_at 0 c) (stop_queue_at-IsHolding 1 0 c h)

destroy_io-IsOff : (fresh : Bool) (c : Ctrl) → IsSound c → IsOff (destroy_io fresh c)
unfolding destroy_io
destroy_io-IsOff fresh c h =
    if_ind (λ (t : Ctrl). IsOff (destroy_admin fresh t)) (ltb 1 c.counts.queue_count)
      (destroy_io_queues fresh c) c
      (λ many.
        destroy_admin-IsOff fresh (destroy_io_queues fresh c)
          (destroy_io_queues-IsHolding fresh c h))
      (λ few. destroy_admin-IsOff fresh c (few-IsHolding c few h))

pub change_ctrl_state-state :
    (c : NvmeCtrl) (to : State)
    → (change_ctrl_state c to).1 ≡ true
    → (change_ctrl_state c to).0.state ≡ to
unfolding change_ctrl_state
change_ctrl_state-state c to ok =
    if_ind (λ (r : NvmeCtrl × Bool). r.1 ≡ true → r.0.state ≡ to) (allows to c.state) _ _
      (λ yes h. refl) (λ no h. absurd (false≢true h)) ok

go_live-Ready : (fresh : Bool) (e : SetupEnv) (c : Ctrl) → IsSound c → Ready (go_live fresh e c)
unfolding go_live
go_live-Ready fresh e c h =
    let (n, changed) = change_ctrl_state (e.before_live c.nvme) live in
    let t = record c { nvme = n } in
    if_ind Ready changed (success, record t { starts = t.starts + 1 }) (einval, destroy_io fresh t)
      (λ ok. inl (refl, change_ctrl_state-state (e.before_live c.nvme) live ok, h))
      (λ bad. inr (destroy_io-IsOff fresh t h))

setup_io-Ready :
    (o : Settings) (fresh : Bool) (e : SetupEnv) (c : Ctrl)
    → Resolving e
    → IsHolding 1 c
    → Ready (setup_io o fresh e c)
unfolding setup_io
setup_io-Ready o fresh e c first h =
    let (ret, t) = configure_io_queues o fresh e.io c in
    if_ind Ready (ltb 1 c.counts.queue_count)
      (if is_zero ret then go_live fresh e t else (ret, destroy_admin fresh t)) (go_live fresh e c)
      (λ many. elim (configure_io_queues-Connected o fresh e.io c first.io h) [
        | inl up ↦ rw (up.0) (go_live-Ready fresh e t up.1)
        | inr down ↦ rw (down.0) (inr (destroy_admin-IsOff fresh t down.1))
      ])
      (λ few. go_live-Ready fresh e c (one-IsSound c h))

clamp_sqsize-IsHolding : (n : ℕ) (c : Ctrl) → IsHolding n c → IsHolding n (clamp_sqsize c)
unfolding clamp_sqsize
clamp_sqsize-IsHolding n c h = record { each = h.each; beyond = h.beyond; event = h.event }

-- From a controller that holds nothing, nvme_rdma_setup_ctrl, with answers that resolve every
-- queue's address and route first, leaves the controller holding nothing, or it returns 0, leaves it
-- LIVE, and no I/O queue from the queue count on holds anything.
pub setup_ctrl-Ready :
    (o : Settings) (fresh : Bool) (e : SetupEnv) (c : Ctrl)
    → Resolving e
    → IsOff c
    → Ready (setup_ctrl o fresh e c)
unfolding setup_ctrl
setup_ctrl-Ready o fresh e c first h =
    let (ret, t) = configure_admin_queue o fresh e.admin c in
    let rejected : IsHolding 1 t → Ready (ret, destroy_admin fresh t) =
      λ s. inr (destroy_admin-IsOff fresh t s) in
    elim (configure_admin_queue-Configured o fresh e.admin c first.admin h) [
      | inr down ↦ rw (down.0) (inr down.1)
      | inl up ↦
          if_ind Ready (is_zero ret)
            (if t.identified.icdoff == 0
              then if t.identified.keyed_sgls
                then setup_io o fresh e (clamp_sqsize t)
                else (ret, destroy_admin fresh t)
              else (ret, destroy_admin fresh t))
            (ret, t)
            (λ ok.
              if_ind Ready (t.identified.icdoff == 0)
                (if t.identified.keyed_sgls
                  then setup_io o fresh e (clamp_sqsize t)
                  else (ret, destroy_admin fresh t))
                (ret, destroy_admin fresh t)
                (λ fits.
                  if_ind Ready t.identified.keyed_sgls (setup_io o fresh e (clamp_sqsize t))
                    (ret, destroy_admin fresh t)
                    (λ keyed.
                      setup_io-Ready o fresh e (clamp_sqsize t) first
                        (clamp_sqsize-IsHolding 1 t up.1))
                    (λ bad. rejected up.1))
                (λ bad. rejected up.1))
            (λ bad. absurd (false≢true (sym bad ∙ up.0)))
    ]
