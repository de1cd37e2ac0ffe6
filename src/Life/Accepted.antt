-- ===== src/Life/Accepted.antt =====
-- shell/nvme-of_setup/nvme-modified/host/rdma.c: one run of nvme_rdma_reconnect_ctrl_work on a
-- controller that the driver accepts, and what it makes of the state and of the attempts left.
use net_cas.Common.{
  ℕ, ◌+◌, ◌<◌, ◌≡◌, ◌⊎◌, inl, inr, refl, sym, ◌∙◌, Bool, true, false, arith, if◌then◌else◌, ◌==◌,
  if_ind, Bool-cases,
}
use mathlib.Core.Bool.{false≢true}
use net_cas.Common.Code.{ℤ, pos, is_zero}
use net_cas.CtrlState.{
  live, connecting, deleting, NvmeCtrl, change_ctrl_state, error_recovery, reconnect_or_remove,
  delete_ctrl,
}
use net_cas.Queue.{get_max_fr_pages}
use net_cas.Ctrl.{Ctrl, Settings, alloc_queue_at}
use net_cas.Ring.{alloc_qe}
use net_cas.Ctrl.Admin.{
  AdminEnv, configure_admin_queue, make_async_event, start_admin, out_free_queue,
}
use net_cas.Ctrl.Io.{IoEnv}
use net_cas.Ctrl.Setup.{setup_ctrl}
use net_cas.Ctrl.Resources.Setup.{Resolving}
use net_cas.Ctrl.Shared.Setup.{setup_ctrl-Ends}
use net_cas.Life.{answers}
use net_cas.Life.Table.{between, attempted, reconnected}

abbrev Accepts : AdminEnv → ℤ × Ctrl → Type 0
Accepts e r = is_zero r.0 ≡ true → r.1.identified ≡ e.identified

start_admin-Accepts : (fresh : Bool) (e : AdminEnv) (c : Ctrl) → Accepts e (start_admin fresh e c)
unfolding start_admin
start_admin-Accepts fresh e c = elim (Bool-cases (is_zero e.connect)) [
  | inr bad ↦ rw (bad) (λ ok. absurd (false≢true (sym bad ∙ ok)))
  | inl up ↦ rw (up) (elim (Bool-cases (is_zero e.enable_ctrl)) [
    | inr bad ↦ rw (bad) (λ ok. absurd (false≢true (sym bad ∙ ok)))
    | inl ready ↦ rw (ready) (elim (Bool-cases (is_zero e.init_identify)) [
      | inr bad ↦ rw (bad) (λ ok. absurd (false≢true (sym bad ∙ ok)))
      | inl fine ↦ rw (fine) (λ ok. refl)
    ])
  ])
]

make_async_event-Accepts : (e : AdminEnv) (c : Ctrl) → Accepts e (make_async_event false e c)
unfolding make_async_event out_free_queue
make_async_event-Accepts e c =
    let (ret, m) = alloc_qe e.async_qe c.sqe in
    let t = record c { sqe = m; async_event = is_zero ret } in
    if_ind (Accepts e) (is_zero ret) (start_admin false e t) (ret, out_free_queue t)
      (λ ok. start_admin-Accepts false e t) (λ bad ok. absurd (false≢true (sym bad ∙ ok)))

-- On success the controller is what it identified itself as.
configure_admin_queue-Accepts :
    (o : Settings) (e : AdminEnv) (c : Ctrl) → Accepts e (configure_admin_queue o false e c)
unfolding configure_admin_queue
configure_admin_queue-Accepts o e c =
    let (ret, t) = alloc_queue_at o 0 e.aq_depth e.alloc c in
    let u = record t {
      device = (t.queues 0).device;
      max_fr_pages = get_max_fr_pages e.max_fast_reg_page_list_len;
    } in
    if_ind (Accepts e) (is_zero ret) (make_async_event false e u) (ret, t)
      (λ ok. make_async_event-Accepts e u) (λ bad ok. absurd (false≢true (sym bad ∙ ok)))

-- What is answered in one attempt.
pub record Attempt : Type 0 where
  pub admin : AdminEnv
  pub io : IoEnv
  pub deleted : Bool

-- In an attempt the connection manager resolves every queue's address and route, and the controller
-- identifies itself as one that the driver accepts.
pub record IsAccepted (a : Attempt) : Type 0 where
  pub resolves : Resolving (answers a.admin a.io a.deleted true)
  pub fits : a.admin.identified.icdoff ≡ 0
  pub keyed : a.admin.identified.keyed_sgls ≡ true

-- A setup that returns 0 requested the state LIVE.
abbrev Tried : Bool → NvmeCtrl → ℤ → NvmeCtrl → Type 0
Tried deleted n ret m =
    ((is_zero ret ≡ false) × (m ≡ n))
    ⊎ ((is_zero ret ≡ (change_ctrl_state (between deleted true n) live).1)
        × (m ≡ (change_ctrl_state (between deleted true n) live).0))

accepted :
    (a : Attempt)
    → IsAccepted a
    → (if a.admin.identified.icdoff == 0 then a.admin.identified.keyed_sgls else false) ≡ true
accepted a h = let f = h.fits in let k = h.keyed in ground arith

pub setup_ctrl-Tried :
    (o : Settings) (a : Attempt) (c : Ctrl)
    → IsAccepted a
    → error_recovery c.nvme ≡ c.nvme
    → Tried a.deleted c.nvme
        (setup_ctrl o false (answers a.admin a.io a.deleted true) c).0
        (setup_ctrl o false (answers a.admin a.io a.deleted true) c).1.nvme
setup_ctrl-Tried o a c h settled =
    let n = c.nvme in
    setup_ctrl-Ends (λ m. m ≡ n) (λ m h. rw (h) settled) (answers a.admin a.io a.deleted true)
      (λ r. Tried a.deleted n r.0 r.1) (λ m h ok. rw (h) (inr (rw (h) at (sym ok), refl)))
      (λ m h bad. rw (h) (inr (rw (h) at (sym bad), refl))) (λ ret m h bad. inl (bad, h))
      (false ≡ true) (λ ret m x h. absurd (false≢true x)) o false c
      (λ ok bad.
        let same = configure_admin_queue-Accepts o a.admin c ok in
        absurd (false≢true (sym (rw (same) at bad) ∙ accepted a h)))
      refl

-- Still connecting, with one attempt less to go.
abbrev pub Again : ℕ → NvmeCtrl → NvmeCtrl → Type 0
Again max n m =
    (m.state ≡ connecting)
    × (m.max_reconnects ≡ pos max)
    × (m.nr_reconnects ≡ n.nr_reconnects + 1)
    × (n.nr_reconnects + 1 < max)

pub reconnected-cases :
    (d : Bool) (max : ℕ) (n : NvmeCtrl) (ret : ℤ) (m : NvmeCtrl)
    → n.state ≡ connecting
    → n.max_reconnects ≡ pos max
    → Tried d (attempted n) ret m
    → ((reconnected true ret m).state ≡ live)
      ⊎ ((reconnected true ret m).state ≡ deleting)
      ⊎ Again max n (reconnected true ret m)
unfolding reconnect_or_remove delete_ctrl change_ctrl_state
reconnected-cases d max n ret m s limit r = ground arith
