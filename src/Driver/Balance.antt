-- ===== src/Driver/Balance.antt =====
-- What creating a controller and loading the module take and give back, in
-- shell/nvme-of_setup/nvme-modified/host/rdma.c.
use net_cas.Common.{
  ℕ, ◌+◌, ◌≡◌, refl, Bool, true, not, ◌&&◌, ◌||◌, arith, List, [], ◌∷◌, ◌++◌, bit, Bool-cases, inl,
  inr, ◌⊎◌, ◌≢◌,
}
use net_cas.Common.Lists.{length, All}
use net_cas.Common.Code.{is_zero}
use net_cas.Common.Ledger.{Holds, gain}
use net_cas.CtrlState.{State, connecting, deleting, dead, change_ctrl_state, delete_ctrl}
use net_cas.Ctrl.Setup.{setup_ctrl}
use net_cas.Driver.{
  Driver, Listed, CreateEnv, out_free_ctrl, out_uninit_ctrl, init_fields, start_ctrl, device_of,
  make_ctrl, parse_addresses, create_ctrl, delete_using, delete_entry, remove_one, is_known,
}
use net_cas.Driver.Load.{Loaded, LoadEnv, init_module, cleanup_module}

-- As many controllers and arrays of queues are allocated as the list has entries.
abbrev pub IsBalanced : Driver → Type 0
IsBalanced d = Holds (length d.ctrls) d.memory × Holds (length d.ctrls) d.arrays

length-add : (xs : List Listed) (x : Listed) → length (xs ++ (x ∷ [])) ≡ length xs + 1
length-add [] x = refl
length-add (y ∷ xs) x = let h = length-add xs x in omega arith

-- Inside nvme_rdma_create_ctrl, with the memory for the new controller, and with its queues.
abbrev Owns : ℕ → ℕ → Driver → Type 0
Owns a b d = Holds (length d.ctrls + a) d.memory × Holds (length d.ctrls + b) d.arrays

start_ctrl-IsBalanced : (e : CreateEnv) (d : Driver) → Owns 1 1 d → IsBalanced (start_ctrl e d).1
unfolding start_ctrl out_uninit_ctrl
start_ctrl-IsBalanced e d h =
    let (n, changed) = change_ctrl_state (init_fields e d.devices).nvme connecting in
    let (ret, t) =
      setup_ctrl e.settings true e.setup (record (init_fields e d.devices) { nvme = n }) in
    let l =
      length-add d.ctrls
        (record { nvme = t.nvme; association = e.association; ib_device = device_of t }) in
    elim (Bool-cases (is_zero e.init_ctrl)) [
      | inl init ↦ rw (init) (elim (Bool-cases (is_zero ret)) [
        | inl ok ↦ rw (ok, l) h
        | inr bad ↦ rw (bad) (omega arith, omega arith)
      ])
      | inr bad ↦ rw (bad) (omega arith, omega arith)
    ]

make_ctrl-IsBalanced : (e : CreateEnv) (d : Driver) → Owns 1 0 d → IsBalanced (make_ctrl e d).1
unfolding make_ctrl out_free_ctrl
make_ctrl-IsBalanced e d h =
    let t = start_ctrl-IsBalanced e (record d { arrays = gain 1 d.arrays }) (ground arith) in
    ground arith

-- nvme_rdma_create_ctrl keeps the memory in balance on every path: there is one controller and one
-- array of queues for each entry of the list, whether a new entry was added or an error returned.
pub create_ctrl-IsBalanced :
    (e : CreateEnv) (d : Driver) → IsBalanced d → IsBalanced (create_ctrl e d).1
unfolding create_ctrl parse_addresses out_free_ctrl
create_ctrl-IsBalanced e d h =
    let t = make_ctrl-IsBalanced e (record d { memory = gain 1 d.memory }) (ground arith) in
    ground arith

-- All four steps of nvme_rdma_init_module succeed.
abbrev loads : LoadEnv → Bool
loads e =
    is_zero e.register_client
    && (is_zero e.register_transport && (e.create_kobj && is_zero e.create_group))

-- Started with nothing registered, nvme_rdma_init_module leaves the client, the sysfs object and its
-- group registered exactly when all four steps succeed; the transport stays registered whenever its
-- own step succeeded, also if a later one fails; and the result is 0 also when only the sysfs object
-- could not be created.
init_module_outcome :
    (e : LoadEnv) (l : Loaded)
    → Holds 0 l.client
    → Holds 0 l.transport
    → Holds 0 l.kobj
    → Holds 0 l.group
    → Holds (bit (loads e)) (init_module e l).1.client
      × Holds
          (bit (is_zero e.register_client && is_zero e.register_transport))
          (init_module e l).1.transport
      × Holds (bit (loads e)) (init_module e l).1.kobj
      × Holds (bit (loads e)) (init_module e l).1.group
      × (is_zero (init_module e l).0 ≡ (
          is_zero e.register_client
          && (is_zero e.register_transport && (not e.create_kobj || is_zero e.create_group))))
unfolding init_module
init_module_outcome e l a b c d = ground arith

-- After nvme_rdma_init_module succeeded in all its steps, nvme_rdma_cleanup_module leaves nothing
-- registered.
cleanup_module-init_module :
    (queued : Bool) (e : LoadEnv) (l : Loaded)
    → loads e ≡ true
    → Holds 0 l.client
    → Holds 0 l.transport
    → Holds 0 l.kobj
    → Holds 0 l.group
    → Holds 0 (cleanup_module queued (init_module e l).1).client
      × Holds 0 (cleanup_module queued (init_module e l).1).transport
      × Holds 0 (cleanup_module queued (init_module e l).1).kobj
      × Holds 0 (cleanup_module queued (init_module e l).1).group
unfolding init_module cleanup_module
cleanup_module-init_module queued e l ok a b c d = ground arith

-- No new request can start on the controller, if it uses the device: it is DELETING, or it was NEW
-- or DEAD already.
abbrev pub IsGone : ℕ → Listed → Type 0
IsGone dev c =
    (c.ib_device ≢ dev)
    ⊎ (c.nvme.state ≡ deleting)
    ⊎ (c.nvme.state ≡ dead)
    ⊎ (c.nvme.state ≡ State.new)

delete_using-IsGone :
    (queued : Bool) (dev : ℕ) (cs : List Listed) → All (IsGone dev) (delete_using queued dev cs)
unfolding delete_using delete_entry delete_ctrl change_ctrl_state
delete_using-IsGone queued dev [] = tt
delete_using-IsGone queued dev (c ∷ cs) = (ground arith, delete_using-IsGone queued dev cs)

-- When nvme_rdma_remove_one is called for a device in the list, no controller of the list that uses
-- the device is left LIVE, RESETTING or CONNECTING.
pub remove_one-IsGone :
    (queued : Bool) (dev : ℕ) (d : Driver)
    → is_known dev d.devices.list ≡ true
    → All (IsGone dev) (remove_one queued dev d).ctrls
unfolding remove_one
remove_one-IsGone queued dev d known = rw (known) (delete_using-IsGone queued dev d.ctrls)
