-- ===== src/Life/Invariant.antt =====
-- What holds of a controller of shell/nvme-of_setup/nvme-modified/host/rdma.c after any sequence of
-- steps: what it holds, and which works can be pending.
use net_cas.Common.{◌≡◌, inl, inr, sym, ◌∙◌, Bool, true, false, not, ◌||◌, arith}
use mathlib.Core.Path.{subst}
use mathlib.Core.Bool.{false≢true}
use net_cas.CtrlState.{
  live, connecting, NvmeCtrl, change_ctrl_state, error_recovery, delete_ctrl, reset_ctrl, same,
}
use net_cas.Ctrl.{Ctrl, Settings}
use net_cas.Ctrl.Setup.{
  error_recovery_work, reconnect_ctrl_work, reset_ctrl_work, do_delete_ctrl, delete_ctrl_sync,
  timeout,
}
use net_cas.Ctrl.Resources.{IsOff, IsSound}
use net_cas.Ctrl.Resources.Setup.{IsOff-IsSound}
use net_cas.Ctrl.Resources.Works.{
  Settled, error_recovery_work-IsOff, do_delete_ctrl-IsOff, delete_ctrl_sync-IsOff,
  reconnect_ctrl_work-Settled, reset_ctrl_work-Settled, timeout-IsSound, timeout-IsOff,
}
use net_cas.Life.{
  Pending, System, Step, Steps, error, ask_reset, ask_delete, recover, reconnect, reset, delete,
  time_out, delete_now, done, then_one, queue, after, answers,
}
use net_cas.Life.Table.{
  Fits, fits, error_recovery-Fits, reset_ctrl-Fits, delete_ctrl-Fits, recovered-Fits,
  reconnected-Fits, was_reset-Fits, deleted-Fits, state-Fits, same-Fits, attempted,
}
use net_cas.Life.Setup.{
  error_recovery_work-nvme, reconnect_ctrl_work-nvme, reset_ctrl_work-nvme, do_delete_ctrl-nvme,
  delete_ctrl_sync-state, timeout-nvme,
}

-- The controller waits to be connected.
abbrev pub waits : NvmeCtrl → Pending → Bool
waits n p = same n.state connecting || p.reconnect_work

-- No I/O queue from the queue count on holds anything, a controller that waits to be connected holds
-- nothing at all, and only the works that fit its state are pending.
pub record IsGood (s : System) : Type 0 where
  pub sound : IsSound s.ctrl
  pub off : waits s.ctrl.nvme s.pending ≡ true → IsOff s.ctrl
  pub fit : Fits s.ctrl.nvme s.pending

-- Steps that leave the queues alone make no controller wait.
error_recovery-waits :
    (n : NvmeCtrl) (p : Pending)
    → waits (error_recovery n) (queue n (error_recovery n) p) ≡ true
    → waits n p ≡ true
unfolding error_recovery
error_recovery-waits n p h = ground arith

reset_ctrl-waits :
    (q : Bool) (n : NvmeCtrl) (p : Pending)
    → waits (reset_ctrl q n).0 (queue n (reset_ctrl q n).0 p) ≡ true
    → waits n p ≡ true
unfolding reset_ctrl
reset_ctrl-waits q n p h = ground arith

delete_ctrl-waits :
    (q : Bool) (n : NvmeCtrl) (p : Pending)
    → waits (delete_ctrl q n).0 (queue n (delete_ctrl q n).0 p) ≡ true
    → waits n p ≡ true
unfolding delete_ctrl
delete_ctrl-waits q n p h = ground arith

live-waits : (n : NvmeCtrl) (p : Pending) → Fits n p → n.state ≡ live → waits n p ≡ false
unfolding fits
live-waits n p h l = ground arith

-- After a step that ends live or with nothing held.
pub Settled-IsGood :
    (c t : Ctrl) (p : Pending)
    → Settled t
    → Fits t.nvme (queue c.nvme t.nvme p)
    → IsGood (after p c t)
Settled-IsGood c t p h fit = elim h [
  | inl up ↦ record {
    sound = up.1;
    off = λ w. absurd (false≢true (sym (live-waits t.nvme (queue c.nvme t.nvme p) fit up.0) ∙ w));
    fit = fit;
  }
  | inr down ↦ record { sound = IsOff-IsSound t down; off = λ w. down; fit = fit }
]

reconnect-settled :
    (n : NvmeCtrl) (p : Pending)
    → p.reconnect_work ≡ true
    → Fits n p
    → error_recovery (attempted n) ≡ attempted n
unfolding fits error_recovery
reconnect-settled n p w h = ground arith

reset-settled :
    (n : NvmeCtrl) (p : Pending)
    → p.reset_work ≡ true
    → Fits n p
    → error_recovery (change_ctrl_state n connecting).0 ≡ (change_ctrl_state n connecting).0
unfolding fits error_recovery
reset-settled n p w h = ground arith

reconnect-waits : (n : NvmeCtrl) (p : Pending) → p.reconnect_work ≡ true → waits n p ≡ true
reconnect-waits n p w = ground arith

same-waits : (n : NvmeCtrl) (p : Pending) → waits n (queue n n p) ≡ true → waits n p ≡ true
same-waits n p h = ground arith

timeout-waits :
    (c : Ctrl) (p : Pending)
    → waits (timeout (λ t. t) c).1.nvme (queue c.nvme (timeout (λ t. t) c).1.nvme p) ≡ true
    → waits c.nvme p ≡ true
timeout-waits c p w = elim (timeout-nvme c) [
  | inl e ↦ same-waits c.nvme p (subst (λ m. waits m (queue c.nvme m p) ≡ true) e w)
  | inr e ↦ error_recovery-waits c.nvme p (subst (λ m. waits m (queue c.nvme m p) ≡ true) e w)
]

timeout-Fits :
    (c : Ctrl) (p : Pending)
    → Fits c.nvme p
    → Fits (timeout (λ t. t) c).1.nvme (queue c.nvme (timeout (λ t. t) c).1.nvme p)
timeout-Fits c p h = elim (timeout-nvme c) [
  | inl e ↦ rw (e) (same-Fits c.nvme p h)
  | inr e ↦ rw (e) (error_recovery-Fits c.nvme p h)
]

Step-IsGood : (o : Settings) (s t : System) → Step o s t → IsGood s → IsGood t
Step-IsGood o _ _ (error s) h = record {
  sound = h.sound;
  off = λ w. h.off (error_recovery-waits s.ctrl.nvme s.pending w);
  fit = error_recovery-Fits s.ctrl.nvme s.pending h.fit;
}
Step-IsGood o _ _ (ask_reset s) h = record {
  sound = h.sound;
  off = λ w. h.off (reset_ctrl-waits (not s.pending.reset_work) s.ctrl.nvme s.pending w);
  fit = reset_ctrl-Fits (not s.pending.reset_work) s.ctrl.nvme s.pending h.fit;
}
Step-IsGood o _ _ (ask_delete s) h = record {
  sound = h.sound;
  off = λ w. h.off (delete_ctrl-waits (not s.pending.delete_work) s.ctrl.nvme s.pending w);
  fit = delete_ctrl-Fits (not s.pending.delete_work) s.ctrl.nvme s.pending h.fit;
}
Step-IsGood o _ _ (recover c p w) h =
    let q = not p.delete_work in
    Settled-IsGood c (error_recovery_work q c) (record p { err_work = false })
      (inr (error_recovery_work-IsOff q c h.sound))
      (rw (error_recovery_work-nvme q c) (recovered-Fits q c.nvme p w h.fit))
Step-IsGood o _ _ (reconnect c p admin io d first w) h =
    let q = not p.delete_work in
    let (ret, m, r, same) =
      reconnect_ctrl_work-nvme o admin io d q c (reconnect-settled c.nvme p w h.fit) in
    Settled-IsGood c (reconnect_ctrl_work o q (answers admin io d q) c)
      (record p { reconnect_work = false })
      (reconnect_ctrl_work-Settled o q (answers admin io d q) c first
        (h.off (reconnect-waits c.nvme p w)))
      (rw (same) (reconnected-Fits d q c.nvme p ret m w h.fit r))
Step-IsGood o _ _ (reset c p admin io d first w) h =
    let q = not p.delete_work in
    let (ret, m, r, same) =
      reset_ctrl_work-nvme o admin io d q c (reset-settled c.nvme p w h.fit) in
    Settled-IsGood c (reset_ctrl_work o q (answers admin io d q) c)
      (record p { err_work = false; reconnect_work = false; reset_work = false })
      (reset_ctrl_work-Settled o q (answers admin io d q) c first h.sound)
      (rw (same) (was_reset-Fits d q c.nvme p ret m w h.fit r))
Step-IsGood o _ _ (delete c p w idle) h =
    Settled-IsGood c (do_delete_ctrl c)
      (record p { err_work = false; reconnect_work = false; delete_work = false })
      (inr (do_delete_ctrl-IsOff c h.sound))
      (rw (do_delete_ctrl-nvme c) (deleted-Fits c.nvme p w h.fit))
Step-IsGood o _ _ (delete_now c p idle ok) h =
    Settled-IsGood c (delete_ctrl_sync c).1 (record p { err_work = false; reconnect_work = false })
      (inr (delete_ctrl_sync-IsOff c h.sound ok))
      (state-Fits (delete_ctrl_sync c).1.nvme _ (delete_ctrl_sync-state c ok))
Step-IsGood o _ _ (time_out c p idle) h =
    let t = (timeout (λ t. t) c).1 in
    record {
      sound = timeout-IsSound (λ t. t) c (λ s. s) h.sound;
      off = λ w. timeout-IsOff c (h.off (timeout-waits c p w));
      fit = timeout-Fits c p h.fit;
    }

-- Any sequence of steps keeps it.
pub Steps-IsGood : (o : Settings) (s t : System) → Steps o s t → IsGood s → IsGood t
Steps-IsGood o _ _ (done s) h = h
Steps-IsGood o _ _ (then_one r s t before step) h =
    Step-IsGood o s t step (Steps-IsGood o r s before h)
