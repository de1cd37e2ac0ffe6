-- ===== src/Driver.antt =====
-- shell/nvme-of_setup/nvme-modified/host/rdma.c: the list of controllers and nvme_rdma_create_ctrl,
-- nvme_rdma_free_ctrl and nvme_rdma_remove_one.
pub mod Zeroed
pub mod Load
pub mod Balance
use net_cas.Common.{
  ℕ, zero, suc, ◌+◌, ◌%◌, Bool, true, false, not, ◌&&◌, List, [], ◌∷◌, ◌++◌, map, none, some, ◌==◌,
  if◌then◌else◌,
}
use net_cas.Common.Code.{ℤ, is_zero, is_pos, success, enomem, eio, ealready}
use net_cas.Common.Ledger.{Ledger, gain, give}
use net_cas.CtrlState.{State, connecting, NvmeCtrl, change_ctrl_state, delete_ctrl}
use net_cas.Device.{Device, Devices}
use net_cas.Fabrics.{Association, existing_controller}
use net_cas.Ctrl.{Ctrl, Settings}
use net_cas.Ctrl.Setup.{SetupEnv, setup_ctrl}
use net_cas.Driver.Zeroed.{zeroed}

-- An entry of `nvme_rdma_ctrl_list`; `ib_device` is `ctrl->device->dev`.
pub record Listed : Type 0 where
  pub nvme : NvmeCtrl
  pub association : Association
  pub ib_device : ℕ

-- The list, the memory taken for controllers and for their arrays of queues, and the calls that
-- flush `nvme_delete_wq`.
pub record Driver : Type 0 where
  pub devices : Devices
  pub ctrls : List Listed
  pub memory : Ledger
  pub arrays : Ledger
  pub flushes : ℕ

-- The options, and what the kernel answers; `address` and `host_address` are the results of
-- inet_pton_with_scope.
pub record CreateEnv : Type 0 where
  pub settings : Settings
  pub association : Association
  pub max_reconnects : ℤ
  pub has_trsvcid : Bool
  pub has_host_traddr : Bool
  pub duplicate_connect : Bool
  pub alloc_ctrl : Bool
  pub dup_trsvcid : Bool
  pub address : ℤ
  pub host_address : ℤ
  pub alloc_queues : Bool
  pub init_ctrl : ℤ
  pub setup : SetupEnv

-- The fields that are set before nvme_init_ctrl; the queue count is a sum of 32-bit numbers.
unfoldable pub init_fields : CreateEnv → Devices → Ctrl
init_fields e ds =
    let o = e.settings.options in
    let z = zeroed in
    record z {
      nvme = record (z.nvme) { max_reconnects = e.max_reconnects };
      devices = ds;
      counts = record (z.counts) {
        queue_count = (o.nr_io_queues + o.nr_write_queues + o.nr_poll_queues + 1) % 4294967296;
      };
      identified = record (z.identified) { sqsize = (e.settings.queue_size + 65535) % 65536 };
    }

-- The labels of nvme_rdma_create_ctrl.
unfoldable pub out_free_ctrl : Driver → Driver
out_free_ctrl d = record d { memory = give 1 d.memory }

unfoldable pub out_kfree_queues : Driver → Driver
unfolding out_free_ctrl
out_kfree_queues d = out_free_ctrl (record d { arrays = give 1 d.arrays })

-- nvme_put_ctrl drops the last reference, as no one else refers to a controller that is not listed, and nvme_rdma_free_ctrl, for a controller that is not in
-- the list, frees both.
unfoldable pub out_uninit_ctrl : Driver → Driver
unfolding out_kfree_queues
out_uninit_ctrl d = out_kfree_queues d

-- `ctrl->device->dev`: the device of the admin queue, whose reference the queue holds.
unfoldable pub ib_device_of : ℕ → List Device → ℕ
ib_device_of address [] = 0
ib_device_of address (d ∷ ds) = if d.dev == address then d.ib_device else ib_device_of address ds

abbrev pub device_of : Ctrl → ℕ
device_of c = elim (c.device) [ none ↦ 0 | some address ↦ ib_device_of address c.devices.list ]

-- From nvme_init_ctrl on. The result is 0 for the pointer that is returned.
unfoldable pub start_ctrl : CreateEnv → Driver → ℤ × Driver
start_ctrl e d =
    let c = init_fields e d.devices in
    let (n, changed) = change_ctrl_state c.nvme connecting in
    let (ret, t) = setup_ctrl e.settings true e.setup (record c { nvme = n }) in
    let u = record d { devices = t.devices } in
    let entry : Listed = record {
      nvme = t.nvme;
      association = e.association;
      ib_device = device_of t;
    } in
    if is_zero e.init_ctrl
    then if is_zero ret
      then (success, record u { ctrls = u.ctrls ++ (entry ∷ []) })
      else (if is_pos ret then eio else ret, out_uninit_ctrl u)
    else (e.init_ctrl, out_kfree_queues d)

abbrev pub entries : List Listed → List (State × Association)
entries [] = []
entries (c ∷ cs) = (c.nvme.state, c.association) ∷ entries cs

-- From the test for an existing controller on.
unfoldable pub make_ctrl : CreateEnv → Driver → ℤ × Driver
make_ctrl e d =
    if not e.duplicate_connect && existing_controller (entries d.ctrls) e.association
    then (ealready, out_free_ctrl d)
    else if e.alloc_queues
    then start_ctrl e (record d { arrays = gain 1 d.arrays })
    else (enomem, out_free_ctrl d)

-- The addresses: the default port is copied when none is given.
unfoldable pub parse_addresses : CreateEnv → Driver → ℤ × Driver
parse_addresses e d =
    if is_zero e.address
    then if e.has_host_traddr
      then if is_zero e.host_address then make_ctrl e d else (e.host_address, out_free_ctrl d)
      else make_ctrl e d
    else (e.address, out_free_ctrl d)

unfoldable pub create_ctrl : CreateEnv → Driver → ℤ × Driver
create_ctrl e d =
    let t = record d { memory = gain 1 d.memory } in
    if e.alloc_ctrl
    then if e.has_trsvcid
      then parse_addresses e t
      else if e.dup_trsvcid
      then parse_addresses e t
      else (enomem, out_free_ctrl t)
    else (enomem, d)

-- nvme_rdma_free_ctrl for the controller at a place of the list.
unfoldable remove_at : ℕ → List Listed → List Listed
remove_at i [] = []
remove_at zero (c ∷ cs) = cs
remove_at (suc i) (c ∷ cs) = c ∷ remove_at i cs

unfoldable free_ctrl : ℕ → Driver → Driver
free_ctrl i d = record d {
  ctrls = remove_at i d.ctrls;
  arrays = give 1 d.arrays;
  memory = give 1 d.memory;
}

unfoldable pub is_known : ℕ → List Device → Bool
is_known dev [] = false
is_known dev (x ∷ xs) = if x.ib_device == dev then true else is_known dev xs

-- nvme_delete_ctrl on an entry of the list; `queued` answers for its queue_work.
unfoldable pub delete_entry : Bool → Listed → Listed
delete_entry queued c = record c { nvme = (delete_ctrl queued c.nvme).0 }

unfoldable pub delete_using : Bool → ℕ → List Listed → List Listed
unfolding delete_entry
delete_using queued dev [] = []
delete_using queued dev (c ∷ cs) =
    (if c.ib_device == dev then delete_entry queued c else c) ∷ delete_using queued dev cs

unfoldable pub remove_one : Bool → ℕ → Driver → Driver
remove_one queued dev d =
    if is_known dev d.devices.list
    then record d { ctrls = delete_using queued dev d.ctrls; flushes = d.flushes + 1 }
    else d
