-- ===== src/Fabrics/Ready.antt =====
-- What nvmf_check_ready, of shell/nvme-of_setup/nvme-modified/host/fabrics.h and fabrics.c, lets
-- through in each state.
use net_cas.Common.{◌≡◌, ◌≢◌, ◌⊎◌, ◌↔◌, Bool, true, false, arith}
use net_cas.CtrlState.{State, new, live, connecting, deleting, dead}
use net_cas.Fabrics.{sts_ok, sts_resource, RqFlags, check_ready, fail_nonready_command}

-- A request that does not come from the driver itself passes exactly when the controller is live.
check_ready-live :
    (s : State) (f : RqFlags) (queue_live : Bool)
    → (f.passthrough ≡ false) ⊎ (f.usercmd ≡ true)
    → (check_ready s f queue_live ≡ true) ↔ (s ≡ live)
unfolding check_ready
check_ready-live s f queue_live h = ground arith

-- On a queue that is not live, a controller that is not live lets nothing but its own Connect command
-- through, and that only while it is new or connecting.
check_ready-connect :
    (s : State) (f : RqFlags)
    → s ≢ live
    → check_ready s f false ≡ true
    → (f.is_connect ≡ true)
      × (f.passthrough ≡ true)
      × (f.usercmd ≡ false)
      × ((s ≡ new) ⊎ (s ≡ connecting))
unfolding check_ready
check_ready-connect s f n h = ground arith

-- A request that is not let through is either left to be tried again, or ended at once: ended
-- exactly if the controller is going away or the request may not wait.
fail_nonready_command_cases :
    (s : State) (f : RqFlags)
    → ((fail_nonready_command s f ≡ (sts_resource, false))
        × (s ≢ deleting)
        × (s ≢ dead)
        × (f.noretry ≡ false)
        × (f.mpath ≡ false))
      ⊎ ((fail_nonready_command s f ≡ (sts_ok, true))
          × ((s ≡ deleting) ⊎ (s ≡ dead) ⊎ (f.noretry ≡ true) ⊎ (f.mpath ≡ true)))
unfolding fail_nonready_command
fail_nonready_command_cases s f = ground arith
