-- ===== src/Device/Refs.antt =====
-- The invariant of device_list, of shell/nvme-of_setup/nvme-modified/host/rdma.c, and its reference
-- counts.
use net_cas.Common.{
  ℕ, ◌+◌, ◌-◌, ◌<◌, ◌≡◌, refl, ◌≢◌, inl, inr, Bool, List, [], ◌∷◌, Option, none, some, arith, ◌==◌,
  if◌then◌else◌, bit, Option-cases,
}
use net_cas.Common.Lists.{length, All}
use net_cas.Common.Ledger.{Holds}
use net_cas.Device.{
  Device, Devices, DeviceEnv, dev_get, find_get, new_device, find_get_device, put, free_dev,
  dev_put,
}

-- The references on the devices with an address.
unfoldable pub refs : ℕ → List Device → ℕ
refs address [] = 0
refs address (d ∷ ds) = (if d.dev == address then d.ref else 0) + refs address ds

-- No entry has this address or this GUID.
abbrev Apart : ℕ → ℕ → List Device → Type 0
Apart address guid = All λ d. (d.dev ≢ address) × (d.node_guid ≢ guid)

abbrev Distinct : List Device → Type 0
Distinct [] = Unit {0}
Distinct (d ∷ ds) = (0 < d.ref) × Apart d.dev d.node_guid ds × Distinct ds

pub record IsValid (s : Devices) : Type 0 where
  pub distinct : Distinct s.list
  pub pds : Holds (length s.list) s.pds
  pub memory : Holds (length s.list) s.memory

find_get-guid :
    (guid : ℕ) (ds : List Device)
    → Distinct ds
    → find_get guid ds ≡ none
    → All (λ d. d.node_guid ≢ guid) ds
unfolding find_get dev_get
find_get-guid guid [] v e = tt
find_get-guid guid (d ∷ ds) v e = ground (arith, find_get-guid guid ds v.2)

-- The list after `find_get`.
abbrev list_of : List Device → Option (Device × List Device) → List Device
list_of ds none = ds
list_of ds (some (d, es)) = es

-- One reference more on the device that was found.
abbrev taken : ℕ → Option (Device × List Device) → ℕ
taken y none = 0
taken y (some (d, es)) = if d.dev == y then 1 else 0

find_get-Apart :
    (address g guid : ℕ) (ds : List Device)
    → Apart address g ds
    → Apart address g (list_of ds (find_get guid ds))
unfolding find_get dev_get
find_get-Apart address g guid [] a = tt
find_get-Apart address g guid (x ∷ ds) a = ground (arith, find_get-Apart address g guid ds a.1)

find_get-Distinct :
    (guid : ℕ) (ds : List Device) → Distinct ds → Distinct (list_of ds (find_get guid ds))
unfolding find_get dev_get
find_get-Distinct guid [] v = tt
find_get-Distinct guid (d ∷ ds) v =
    ground (arith, find_get-Distinct guid ds v.2, find_get-Apart d.dev d.node_guid guid ds v.1)

find_get-length : (guid : ℕ) (ds : List Device) → length (list_of ds (find_get guid ds)) ≡ length ds
unfolding find_get dev_get
find_get-length guid [] = refl
find_get-length guid (d ∷ ds) = ground (arith, find_get-length guid ds)

refs-find_get :
    (y guid : ℕ) (ds : List Device)
    → refs y (list_of ds (find_get guid ds)) ≡ refs y ds + taken y (find_get guid ds)
unfolding refs find_get dev_get
refs-find_get y guid [] = refl
refs-find_get y guid (d ∷ ds) = ground (arith, refs-find_get y guid ds)

put-Apart : (address g x : ℕ) (ds : List Device) → Apart address g ds → Apart address g (put x ds).0
unfolding put
put-Apart address g x [] a = tt
put-Apart address g x (d ∷ ds) a = ground (arith, put-Apart address g x ds a.1)

put-Distinct : (x : ℕ) (ds : List Device) → Distinct ds → Distinct (put x ds).0
unfolding put
put-Distinct x [] v = tt
put-Distinct x (d ∷ ds) v =
    ground (arith, put-Distinct x ds v.2, put-Apart d.dev d.node_guid x ds v.1)

put-length : (x : ℕ) (ds : List Device) → length (put x ds).0 + bit (put x ds).1 ≡ length ds
unfolding put
put-length x [] = refl
put-length x (d ∷ ds) = ground (arith, put-length x ds)

refs-Apart : (x g : ℕ) (ds : List Device) → Apart x g ds → refs x ds ≡ 0
unfolding refs
refs-Apart x g [] a = refl
refs-Apart x g (d ∷ ds) a = ground (arith, refs-Apart x g ds a.1)

refs-put :
    (y x : ℕ) (ds : List Device)
    → Distinct ds
    → refs y (put x ds).0 ≡ (if x == y then refs y ds - 1 else refs y ds)
unfolding refs put
refs-put y x [] v = ground arith
refs-put y x (d ∷ ds) v = ground (arith, refs-put y x ds v.2, refs-Apart d.dev d.node_guid ds v.1)

-- The address that kzalloc returns is that of no device in the list.
abbrev IsFresh : Option ℕ → List Device → Type 0
IsFresh none ds = Unit {0}
IsFresh (some address) ds = All (λ d. d.dev ≢ address) ds

away_from_both :
    (address guid : ℕ) (ds : List Device)
    → All (λ d. d.dev ≢ address) ds
    → All (λ d. d.node_guid ≢ guid) ds
    → Apart address guid ds
away_from_both address guid [] a g = tt
away_from_both address guid (d ∷ ds) a g = ((a.0, g.0), away_from_both address guid ds a.1 g.1)

new_device-IsValid :
    (register_always : Bool) (e : DeviceEnv) (s : Devices)
    → IsValid s
    → IsFresh e.kzalloc s.list
    → All (λ d. d.node_guid ≢ e.node_guid) s.list
    → IsValid (new_device register_always e s).1
unfolding new_device
new_device-IsValid register_always e s v fresh other = elim (Option-cases e.kzalloc) [
  | inl n ↦ ground arith
  | inr (x, n) ↦ ground (arith, away_from_both x e.node_guid s.list (rw n at fresh) other)
]

-- Whatever the kernel answers, if kzalloc returns no address that is in use, looking a device up
-- keeps the list valid: one entry for each GUID, every count positive, and exactly one protection
-- domain and one allocation held for each entry.
pub find_get_device-IsValid :
    (register_always : Bool) (e : DeviceEnv) (s : Devices)
    → IsValid s
    → IsFresh e.kzalloc s.list
    → IsValid (find_get_device register_always e s).1
unfolding find_get_device
find_get_device-IsValid register_always e s v fresh =
    elim (Option-cases (find_get e.node_guid s.list)) [
      | inl n ↦
          rw (n, find_get_device)
            (new_device-IsValid register_always e s v fresh
              (find_get-guid e.node_guid s.list v.distinct n))
      | inr ((d, es), f) ↦ ground (
        arith,
        find_get-Distinct e.node_guid s.list v.distinct,
        find_get-length e.node_guid s.list,
      )
    ]

-- Dropping a reference keeps the list valid; the last one takes the entry out, and gives its
-- protection domain and its allocation back.
dev_put-IsValid : (address : ℕ) (s : Devices) → IsValid s → IsValid (dev_put address s)
unfolding dev_put free_dev
dev_put-IsValid address s v =
    ground (arith, put-Distinct address s.list v.distinct, put-length address s.list)

-- The reference that a successful look-up adds.
abbrev added : ℕ → Option Device → ℕ
added y none = 0
added y (some d) = if d.dev == y then 1 else 0

refs-find_get_device :
    (register_always : Bool) (e : DeviceEnv) (s : Devices) (y : ℕ)
    → refs y (find_get_device register_always e s).1.list
      ≡ refs y s.list + added y (find_get_device register_always e s).0
unfolding find_get_device new_device refs
refs-find_get_device register_always e s y = ground (arith, refs-find_get y e.node_guid s.list)

-- From a valid list, and if kzalloc returns no address that is in use, a device that is looked up and
-- dropped again has the references it had before, as has every other.
pub refs-dev_put-find_get_device :
    (register_always : Bool) (e : DeviceEnv) (s : Devices) (y : ℕ) {d : Device}
    → IsValid s
    → IsFresh e.kzalloc s.list
    → (find_get_device register_always e s).0 ≡ some d
    → refs y (dev_put d.dev (find_get_device register_always e s).1).list ≡ refs y s.list
unfolding dev_put
refs-dev_put-find_get_device register_always e s y {d} v fresh found = ground (
  arith,
  refs-find_get_device register_always e s y,
  refs-put y d.dev (find_get_device register_always e s).1.list
      (find_get_device-IsValid register_always e s v fresh).distinct,
)
