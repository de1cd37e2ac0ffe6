-- ===== src/Device.antt =====
-- shell/nvme-of_setup/nvme-modified/host/rdma.c: `struct nvme_rdma_device` and the reference-counted
-- `device_list` (nvme_rdma_find_get_device, nvme_rdma_dev_get, nvme_rdma_dev_put,
-- nvme_rdma_free_dev). The lookup runs under `device_list_mutex`, and so does the removal of an entry
-- from the list; a call is one step here, also nvme_rdma_dev_put, whose kref_put is not under the lock.
pub mod Refs
use net_cas.Common.{
  ℕ, zero, suc, ◌+◌, ◌-◌, Bool, true, false, ◌&&◌, List, [], ◌∷◌, Option, none, some, ltb, ◌==◌,
  if◌then◌else◌, min,
}
use net_cas.Common.Ledger.{Ledger, gain, give}

-- `dev` stands for the address of the structure, `ib_device` for `ndev->dev`, and `node_guid` for
-- `ndev->dev->node_guid`.
pub record Device : Type 0 where
  pub dev : ℕ
  pub ib_device : ℕ
  pub node_guid : ℕ
  pub ref : ℕ
  pub num_inline_segments : ℕ
  pub unsafe_global_rkey : Bool

-- The list, and what was taken from the kernel for its entries.
pub record Devices : Type 0 where
  pub list : List Device
  pub pds : Ledger
  pub memory : Ledger

-- What the kernel answers to one call of `nvme_rdma_find_get_device`: the device of the `cm_id`, which
-- is `ib_device`, and
-- the outcomes of kzalloc and ib_alloc_pd.
pub record DeviceEnv : Type 0 where
  pub ib_device : ℕ
  pub node_guid : ℕ
  pub mem_mgt_extensions : Bool
  pub max_send_sge : ℕ
  pub max_fast_reg_page_list_len : ℕ
  pub kzalloc : Option ℕ
  pub alloc_pd : Bool

abbrev max_inline_segments : ℕ
max_inline_segments = 4

-- kref_get_unless_zero
unfoldable pub dev_get : Device → Option Device
dev_get d = if ltb 0 d.ref then some (record d { ref = d.ref + 1 }) else none

-- The `list_for_each_entry` of nvme_rdma_find_get_device.
unfoldable pub find_get : ℕ → List Device → Option (Device × List Device)
find_get guid [] = none
find_get guid (d ∷ ds) =
    let later : Option (Device × List Device) = elim (find_get guid ds) [
      | none ↦ none
      | some (e, es) ↦ some (e, d ∷ es)
    ] in
    if d.node_guid == guid
    then elim (dev_get d) [ some d' ↦ some (d', d' ∷ ds) | none ↦ later ]
    else later

-- `min(NVME_RDMA_MAX_INLINE_SEGMENTS, max_send_sge - 1)` is taken on `int` and stored as `unsigned`.
unfoldable pub inline_segments : ℕ → ℕ
inline_segments zero = 4294967295
inline_segments (suc n) = min max_inline_segments n

-- The labels below `kzalloc`.
unfoldable pub new_device : Bool → DeviceEnv → Devices → Option Device × Devices
new_device register_always e s = elim e.kzalloc [
  | none ↦ (none, s)
  | some address ↦
      let kept = record s { memory = gain 1 s.memory } in
      let freed = record kept { memory = give 1 kept.memory } in
      let with_pd = record kept { pds = gain 1 s.pds } in
      let d : Device = record {
        dev = address;
        ib_device = e.ib_device;
        node_guid = e.node_guid;
        ref = 1;
        num_inline_segments = inline_segments e.max_send_sge;
        unsafe_global_rkey = if register_always then false else true;
      } in
      if e.alloc_pd
      then if e.mem_mgt_extensions
        then (some d, record with_pd { list = d ∷ s.list })
        else (none, record freed { pds = give 1 with_pd.pds })
      else (none, freed)
]

unfoldable pub find_get_device : Bool → DeviceEnv → Devices → Option Device × Devices
unfolding find_get new_device
find_get_device register_always e s = elim (find_get e.node_guid s.list) [
  | some (d, ds) ↦ (some d, record s { list = ds })
  | none ↦ new_device register_always e s
]

-- kref_put of the entry at an address; at zero nvme_rdma_free_dev unlinks it. The flag says so.
unfoldable pub put : ℕ → List Device → List Device × Bool
put address [] = ([], false)
put address (d ∷ ds) =
    let (es, freed) = put address ds in
    if d.dev == address
    then if d.ref == 1 then (ds, true) else (record d { ref = d.ref - 1 } ∷ ds, false)
    else (d ∷ es, freed)

unfoldable pub free_dev : Devices → Devices
free_dev s = record s { pds = give 1 s.pds; memory = give 1 s.memory }

unfoldable pub dev_put : ℕ → Devices → Devices
unfolding put free_dev
dev_put address s =
    let (ds, freed) = put address s.list in
    let t = record s { list = ds } in if freed then free_dev t else t
