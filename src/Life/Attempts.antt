-- ===== src/Life/Attempts.antt =====
-- shell/nvme-of_setup/nvme-modified/host/rdma.c: runs of nvme_rdma_reconnect_ctrl_work, one after
-- the other, on a controller with a limit on the attempts.
use net_cas.Common.{
  ℕ, ap, ◌≢◌, ◌+◌, ◌≤◌, ◌<◌, ◌≡◌, ◌⊎◌, inl, inr, refl, ◌∙◌, true, false, List, [], ◌∷◌, arith,
  if◌then◌else◌, if_ind,
}
use net_cas.Common.Lists.{All, length}
use net_cas.Common.Code.{pos, is_zero}
use net_cas.CtrlState.{live, connecting, deleting, same, reconnect_or_remove}
use net_cas.Ctrl.{Ctrl, Settings}
use net_cas.Ctrl.Setup.{SetupEnv, setup_ctrl, reconnect_ctrl_work}
use net_cas.Ctrl.Resources.{IsOff, IsSound}
use net_cas.Ctrl.Resources.Setup.{IsOff-IsSound}
use net_cas.Ctrl.Resources.Works.{Settled, reconnect_ctrl_work-Settled}
use net_cas.Life.{answers}
use net_cas.Life.Table.{attempted, reconnected}
use net_cas.Life.Setup.{error_recovery-settled}
use net_cas.Life.Accepted.{Attempt, IsAccepted, Again, setup_ctrl-Tried, reconnected-cases}

-- The work runs while the controller is connecting.
pub attempts : Settings → List Attempt → Ctrl → Ctrl
attempts o [] c = c
attempts o (a ∷ later) c =
    let t = reconnect_ctrl_work o true (answers a.admin a.io a.deleted true) c in
    let rest = attempts o later t in if same c.nvme.state connecting then rest else c

-- Live, or deleting with nothing held.
abbrev pub Ended : Ctrl → Type 0
Ended c = ((c.nvme.state ≡ live) × IsSound c) ⊎ ((c.nvme.state ≡ deleting) × IsOff c)

abbrev Unended : ℕ → Ctrl → Ctrl → Type 0
Unended max c t = Again max c.nvme t.nvme × IsOff t

reconnect_ctrl_work-ends :
    (o : Settings) (e : SetupEnv) (c : Ctrl)
    → (reconnect_ctrl_work o true e c).nvme
      ≡ reconnected true
          (setup_ctrl o false e (record c { nvme = attempted c.nvme })).0
          (setup_ctrl o false e (record c { nvme = attempted c.nvme })).1.nvme
unfolding reconnect_ctrl_work
reconnect_ctrl_work-ends o e c =
    let (ret, t) = setup_ctrl o false e (record c { nvme = attempted c.nvme }) in
    if_ind (λ (u : Ctrl). u.nvme ≡ reconnected true ret t.nvme) (is_zero ret)
      (record t { nvme = record (t.nvme) { nr_reconnects = 0 } })
      (record t { nvme = reconnect_or_remove true t.nvme }) (λ ok. rw (ok) refl)
      (λ bad. rw (bad) refl)

Settled-IsSound : (c : Ctrl) → Settled c → IsSound c
Settled-IsSound c h = elim h [ inl up ↦ up.1 | inr down ↦ IsOff-IsSound c down ]

Settled-IsOff : (c : Ctrl) → Settled c → c.nvme.state ≢ live → IsOff c
Settled-IsOff c h other = elim h [ inl up ↦ absurd (other up.0) | inr down ↦ down ]

attempt-cases :
    (o : Settings) (a : Attempt) (max : ℕ) (c : Ctrl)
    → IsAccepted a
    → c.nvme.state ≡ connecting
    → c.nvme.max_reconnects ≡ pos max
    → IsOff c
    → Ended (reconnect_ctrl_work o true (answers a.admin a.io a.deleted true) c)
      ⊎ Unended max c (reconnect_ctrl_work o true (answers a.admin a.io a.deleted true) c)
attempt-cases o a max c h s limit off =
    let e = answers a.admin a.io a.deleted true in
    let begun = record c { nvme = attempted c.nvme } in
    let r = setup_ctrl o false e begun in
    let t = reconnect_ctrl_work o true e c in
    let held : Settled t = reconnect_ctrl_work-Settled o true e c h.resolves off in
    let tried =
      setup_ctrl-Tried o a begun h
        (error_recovery-settled begun.nvme (ground arith) (ground arith)) in
    let ends = reconnect_ctrl_work-ends o e c in
    elim (reconnected-cases a.deleted max c.nvme r.0 r.1.nvme s limit tried) [
      | inl up ↦ inl (inl (ap (λ n. n.state) ends ∙ up, Settled-IsSound t held))
      | inr (inl gone) ↦
          let d : t.nvme.state ≡ deleting = ap (λ n. n.state) ends ∙ gone in
          inl (inr (d, Settled-IsOff t held (ground arith)))
      | inr (inr again) ↦
          let k : Again max c.nvme t.nvme = rw (ends) again in
          inr (k, Settled-IsOff t held (let z = k.0 in ground arith))
    ]

attempts-idle :
    (o : Settings) (runs : List Attempt) (c : Ctrl)
    → c.nvme.state ≢ connecting
    → attempts o runs c ≡ c
unfolding attempts
attempts-idle o [] c h = refl
attempts-idle o (a ∷ later) c h =
    let k : same c.nvme.state connecting ≡ false = ground arith in rw (k) refl

Ended-idle : (c : Ctrl) → Ended c → c.nvme.state ≢ connecting
Ended-idle c h = ground arith

-- A controller is CONNECTING and holds nothing, and its attempts are limited. If in each attempt the
-- connection manager resolves every queue's address and route first, and the controller, whenever it
-- identifies itself, is one that the driver accepts, then at least one and as many attempts as are
-- left leave it LIVE with no I/O queue from the queue count on held, or DELETING and holding nothing,
-- whatever else is answered in them.
pub attempts-Ended :
    (o : Settings) (max : ℕ) (runs : List Attempt) (c : Ctrl)
    → All IsAccepted runs
    → c.nvme.state ≡ connecting
    → c.nvme.max_reconnects ≡ pos max
    → max ≤ c.nvme.nr_reconnects + length runs
    → 0 < length runs
    → IsOff c
    → Ended (attempts o runs c)
unfolding attempts
attempts-Ended o max [] c hs s limit enough any off = absurd (omega arith)
attempts-Ended o max (a ∷ later) c (h, hs) s limit enough any off =
    let t = reconnect_ctrl_work o true (answers a.admin a.io a.deleted true) c in
    let k : same c.nvme.state connecting ≡ true = ground arith in
    rw (k) (elim (attempt-cases o a max c h s limit off) [
      | inl ended ↦ rw (attempts-idle o later t (Ended-idle t ended)) ended
      | inr (k, down) ↦
          attempts-Ended o max later t hs k.0 k.1 (let z = k.2 in omega arith)
            (let z = k.2 in let y = k.3 in omega arith) down
    ])
