-- ===== src/CtrlState/Recovery.antt =====
-- Error recovery and reconnection, of shell/nvme-of_setup/nvme-modified/host/rdma.c, over several
-- errors and several attempts.
use net_cas.Common.{ℕ, zero, suc, ◌+◌, ◌≤◌, ◌<◌, ◌≡◌, refl, ◌≢◌, ◌⊎◌, Bool, true, false, arith}
use net_cas.Common.Code.{pos}
use net_cas.CtrlState.{
  live, resetting, connecting, deleting, NvmeCtrl, error_recovery, reconnect_or_remove,
  should_reconnect, attempt_failed,
}

-- `n` calls, one after the other under the controller's lock.
recoveries : ℕ → NvmeCtrl → NvmeCtrl
recoveries zero c = c
recoveries (suc n) c = recoveries n (error_recovery c)

error_recovery-resetting : (c : NvmeCtrl) → c.state ≡ resetting → error_recovery c ≡ c
unfolding error_recovery
error_recovery-resetting c h = ground arith

recoveries-resetting : (n : ℕ) (c : NvmeCtrl) → c.state ≡ resetting → recoveries n c ≡ c
unfolding recoveries
recoveries-resetting zero c h = refl
recoveries-resetting (suc n) c h = rw (error_recovery-resetting c h) (recoveries-resetting n c h)

error_recovery-live :
    (c : NvmeCtrl)
    → c.state ≡ live
    → error_recovery c ≡ record c { state = resetting; err_works = c.err_works + 1 }
unfolding error_recovery
error_recovery-live c h = ground arith

-- Of any number of errors that are reported while the controller is live, the first alone queues
-- the recovery work, and all of them leave the controller resetting.
recoveries-live :
    (n : ℕ) (c : NvmeCtrl)
    → c.state ≡ live
    → recoveries (suc n) c ≡ record c { state = resetting; err_works = c.err_works + 1 }
unfolding recoveries
recoveries-live n c h =
    rw (error_recovery-live c h)
      (recoveries-resetting n (record c { state = resetting; err_works = c.err_works + 1 }) refl)

-- In CONNECTING exactly one of two things happens: a reconnect is scheduled if attempts are left,
-- else the deletion is; in every other state nothing does.
reconnect_or_remove_cases :
    (queued : Bool) (c : NvmeCtrl)
    → ((c.state ≢ connecting) × (reconnect_or_remove queued c ≡ c))
      ⊎ ((c.state ≡ connecting)
          × (should_reconnect c ≡ true)
          × (reconnect_or_remove queued c ≡ record c { reconnect_works = c.reconnect_works + 1 }))
      ⊎ ((c.state ≡ connecting)
          × (should_reconnect c ≡ false)
          × (reconnect_or_remove queued c
              ≡ record c { state = deleting; delete_works = c.delete_works + 1 }))
unfolding reconnect_or_remove
reconnect_or_remove_cases queued c = ground arith

attempts_failed : ℕ → NvmeCtrl → NvmeCtrl
attempts_failed zero c = c
attempts_failed (suc n) c = attempts_failed n (attempt_failed true c)

attempt_failed-again :
    (c : NvmeCtrl) (max : ℕ)
    → c.state ≡ connecting
    → c.max_reconnects ≡ pos max
    → c.nr_reconnects + 1 < max
    → attempt_failed true c
      ≡ record c { nr_reconnects = c.nr_reconnects + 1; reconnect_works = c.reconnect_works + 1 }
unfolding attempt_failed
attempt_failed-again c max s m h = ground arith

attempt_failed-last :
    (c : NvmeCtrl) (max : ℕ)
    → c.state ≡ connecting
    → c.max_reconnects ≡ pos max
    → max ≤ c.nr_reconnects + 1
    → attempt_failed true c ≡ record c {
      nr_reconnects = c.nr_reconnects + 1;
      state = deleting;
      delete_works = c.delete_works + 1;
    }
unfolding attempt_failed
attempt_failed-last c max s m h = ground arith

-- With a limit on the attempts, a connecting controller whose attempts all fail is deleted: the
-- k + 1 attempts that are left schedule k further ones, and the last one queues the deletion.
attempts_failed-deleting :
    (k : ℕ) (c : NvmeCtrl) (max : ℕ)
    → c.state ≡ connecting
    → c.max_reconnects ≡ pos max
    → c.nr_reconnects + suc k ≡ max
    → ((attempts_failed (suc k) c).state ≡ deleting)
      × ((attempts_failed (suc k) c).reconnect_works ≡ c.reconnect_works + k)
      × ((attempts_failed (suc k) c).delete_works ≡ c.delete_works + 1)
unfolding attempts_failed
attempts_failed-deleting zero c max s m h =
    rw (attempt_failed-last c max s m (omega arith), attempts_failed) (refl, omega arith, refl)
attempts_failed-deleting (suc k) c max s m h =
    rw (attempt_failed-again c max s m (omega arith), attempts_failed)
      (let ih =
          attempts_failed-deleting k
            (record c {
              nr_reconnects = c.nr_reconnects + 1;
              reconnect_works = c.reconnect_works + 1;
            })
            max s m (omega arith) in
        (ih.0, omega arith, ih.2))
