-- ===== src/Ctrl/Shared/Setup.antt =====
-- shell/nvme-of_setup/nvme-modified/host/rdma.c: the part of a controller that the NVMe core shares
-- with the driver, while nvme_rdma_setup_ctrl runs.
use net_cas.Common.{◌+◌, ◌≡◌, refl, Bool, true, false, if◌then◌else◌, ltb, ◌==◌, if_ind}
use net_cas.Common.Code.{ℤ, is_zero, success, einval}
use net_cas.CtrlState.{NvmeCtrl, error_recovery, live, change_ctrl_state}
use net_cas.Ctrl.{Ctrl, Settings, stop_queue_at}
use net_cas.Ctrl.Admin.{configure_admin_queue}
use net_cas.Ctrl.Io.{configure_io_queues, destroy_io_queues}
use net_cas.Ctrl.Setup.{
  SetupEnv, clamp_sqsize, destroy_admin, destroy_io, go_live, setup_io, setup_ctrl,
}
use net_cas.Ctrl.Setup.Outcome.{is_accepted}
use net_cas.Ctrl.Shared.{
  Shared, stop_queue_at-Shared, destroy_admin_queue-Shared, configure_admin_queue-Shared,
}
use net_cas.Ctrl.Shared.Io.{destroy_io_queues-Shared, configure_io_queues-Shared}

module _ (P : NvmeCtrl → Type 0) where
  destroy_admin-Shared : (fresh : Bool) (c : Ctrl) → Shared P c → Shared P (destroy_admin fresh c)
  unfolding destroy_admin
  destroy_admin-Shared fresh c h =
      destroy_admin_queue-Shared P fresh (stop_queue_at 0 c) (stop_queue_at-Shared P 0 c h)

  destroy_io-Shared : (fresh : Bool) (c : Ctrl) → Shared P c → Shared P (destroy_io fresh c)
  unfolding destroy_io
  destroy_io-Shared fresh c h =
      if_ind (λ (t : Ctrl). Shared P (destroy_admin fresh t)) (ltb 1 c.counts.queue_count)
        (destroy_io_queues fresh c) c
        (λ many.
          destroy_admin-Shared fresh (destroy_io_queues fresh c)
            (destroy_io_queues-Shared P fresh c h))
        (λ few. destroy_admin-Shared fresh c h)

clamp_sqsize-Shared : (P : NvmeCtrl → Type 0) (c : Ctrl) → Shared P c → Shared P (clamp_sqsize c)
unfolding clamp_sqsize
clamp_sqsize-Shared P c h = h

-- A setup that fails keeps what the recovery keeps, and one that returns 0 keeps it or ends with the
-- request to become live.
module _ (P : NvmeCtrl → Type 0) (recovers : (n : NvmeCtrl) → P n → P (error_recovery n))
    (e : SetupEnv) (R : ℤ × NvmeCtrl → Type 0)
    (lives : (n : NvmeCtrl)
      → P n
      → (change_ctrl_state (e.before_live n) live).1 ≡ true
      → R (success, (change_ctrl_state (e.before_live n) live).0))
    (refused : (n : NvmeCtrl)
      → P n
      → (change_ctrl_state (e.before_live n) live).1 ≡ false
      → R (einval, (change_ctrl_state (e.before_live n) live).0))
    (fails : (ret : ℤ) (n : NvmeCtrl) → P n → is_zero ret ≡ false → R (ret, n)) (Rejected : Type 0)
    (rejects : (ret : ℤ) (n : NvmeCtrl) → Rejected → P n → R (ret, n)) where
  abbrev Ends : ℤ × Ctrl → Type 0
  Ends r = R (r.0, r.1.nvme)

  go_live-Ends : (fresh : Bool) (c : Ctrl) → Shared P c → Ends (go_live fresh e c)
  unfolding go_live
  go_live-Ends fresh c h =
      let (n, changed) = change_ctrl_state (e.before_live c.nvme) live in
      let t = record c { nvme = n } in
      if_ind Ends changed (success, record t { starts = t.starts + 1 }) (einval, destroy_io fresh t)
        (λ ok. lives c.nvme h ok)
        (λ bad. destroy_io-Shared (λ m. R (einval, m)) fresh t (refused c.nvme h bad))

  setup_io-Ends :
      (o : Settings) (fresh : Bool) (c : Ctrl) → Shared P c → Ends (setup_io o fresh e c)
  unfolding setup_io
  setup_io-Ends o fresh c h =
      let (ret, t) = configure_io_queues o fresh e.io c in
      let s = configure_io_queues-Shared P recovers o fresh e.io c h in
      if_ind Ends (ltb 1 c.counts.queue_count)
        (if is_zero ret then go_live fresh e t else (ret, destroy_admin fresh t))
        (go_live fresh e c)
        (λ many.
          if_ind Ends (is_zero ret) (go_live fresh e t) (ret, destroy_admin fresh t)
            (λ ok. go_live-Ends fresh t s)
            (λ bad. destroy_admin-Shared (λ m. R (ret, m)) fresh t (fails ret t.nvme s bad)))
        (λ few. go_live-Ends fresh c h)

  pub setup_ctrl-Ends :
      (o : Settings) (fresh : Bool) (c : Ctrl)
      → (is_zero (configure_admin_queue o fresh e.admin c).0 ≡ true
          → is_accepted (configure_admin_queue o fresh e.admin c).1 ≡ false
          → Rejected)
      → Shared P c
      → Ends (setup_ctrl o fresh e c)
  unfolding setup_ctrl
  setup_ctrl-Ends o fresh c reject h =
      let (ret, t) = configure_admin_queue o fresh e.admin c in
      let s = configure_admin_queue-Shared P recovers o fresh e.admin c h in
      let turned_away : Rejected → Ends (ret, destroy_admin fresh t) =
        λ x. destroy_admin-Shared (λ m. R (ret, m)) fresh t (rejects ret t.nvme x s) in
      if_ind Ends (is_zero ret)
        (if t.identified.icdoff == 0
          then if t.identified.keyed_sgls
            then setup_io o fresh e (clamp_sqsize t)
            else (ret, destroy_admin fresh t)
          else (ret, destroy_admin fresh t))
        (ret, t)
        (λ ok.
          if_ind Ends (t.identified.icdoff == 0)
            (if t.identified.keyed_sgls
              then setup_io o fresh e (clamp_sqsize t)
              else (ret, destroy_admin fresh t))
            (ret, destroy_admin fresh t)
            (λ fits.
              if_ind Ends t.identified.keyed_sgls (setup_io o fresh e (clamp_sqsize t))
                (ret, destroy_admin fresh t)
                (λ keyed. setup_io-Ends o fresh (clamp_sqsize t) (clamp_sqsize-Shared P t s))
                (λ bad. turned_away (reject ok (rw (fits, bad) refl))))
            (λ bad. turned_away (reject ok (rw (bad) refl))))
        (λ bad. fails ret t.nvme s bad)
