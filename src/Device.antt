-- ===== src/Device.antt =====
-- components/zb_device_mgr/zb_device_mgr.c: the device registry. A pointer that `find_by_ieee`,
-- `find_by_nwk` or `find_free_slot` returns stands for the first slot that matches, so a read
-- through it is `find` and a write through it is `modify`, by the same test.
pub mod Registry
pub mod Uniqueness
pub mod Capabilities
pub mod Inheritance
pub mod Slots
pub mod History
pub mod Restore
use zigbee_hub.Base.{
  ℕ, zero, suc, ◌+◌, ◌%◌, ◌^◌, Bool, true, false, not, ◌&&◌, List, [], ◌∷◌, ◌++◌, Option, none,
  some, ltb, leb, ◌==◌, if◌then◌else◌, length, set, take, replicate, EspErr, ok, no_mem, not_found,
}
use zigbee_hub.Zcl.{cap_id}
use zigbee_hub.Storage.{DeviceRecord, Endpoint, ClusterCache}

abbrev pub max_devices : ℕ
max_devices = 100

abbrev pub max_caps : ℕ
max_caps = 64

-- `zb_dev_t`
pub record Dev : Type 0 where
  pub active : Bool
  pub ieee_addr : ℕ
  pub nwk_addr : ℕ
  pub num_caps : ℕ
  pub caps : List ℕ

unfoldable pub find : (Dev → Bool) → List Dev → Option Dev
find p [] = none
find p (d ∷ ds) = let rest = find p ds in if p d then some d else rest

unfoldable pub modify : (Dev → Bool) → (Dev → Dev) → List Dev → List Dev
modify p f [] = []
modify p f (d ∷ ds) = let rest = modify p f ds in if p d then f d ∷ ds else d ∷ rest

abbrev pub has_ieee : ℕ → Dev → Bool
has_ieee ieee d = d.active && d.ieee_addr == ieee

abbrev pub has_nwk : ℕ → Dev → Bool
has_nwk nwk d = d.active && d.nwk_addr == nwk

abbrev pub is_free : Dev → Bool
is_free d = not d.active

unfoldable pub find_by_ieee : ℕ → List Dev → Option Dev
find_by_ieee ieee = find (has_ieee ieee)

unfoldable pub find_by_nwk : ℕ → List Dev → Option Dev
find_by_nwk nwk = find (has_nwk nwk)

unfoldable pub find_free_slot : List Dev → Option Dev
find_free_slot = find is_free

-- `memset(s_devices, 0, sizeof(s_devices))`
unfoldable pub blank : Dev
blank = record {
  active = false;
  ieee_addr = 0;
  nwk_addr = 0;
  num_caps = 0;
  caps = replicate max_caps 0;
}

unfoldable pub empty : List Dev
empty = replicate max_devices blank

-- The test by which `zb_dev_mgr_join` and `on_pb_device_loaded` choose a slot: that of the device,
-- else the first free one; `none` is a full registry.
unfoldable pub choose_slot : ℕ → List Dev → Option (Dev → Bool)
choose_slot ieee ds = elim (find_by_ieee ieee ds) [
  | some d ↦ some (has_ieee ieee)
  | none ↦ elim (find_free_slot ds) [ some d ↦ some is_free | none ↦ none ]
]

abbrev pub occupy : ℕ → ℕ → Dev → Dev
occupy ieee nwk d = record d { active = true; ieee_addr = ieee; nwk_addr = nwk }

-- The part of `zb_dev_mgr_join` under the mutex; `none` is ESP_ERR_NO_MEM.
unfoldable pub join_slot : ℕ → ℕ → List Dev → Option (List Dev)
join_slot ieee nwk ds = elim (choose_slot ieee ds) [
  | none ↦ none
  | some p ↦ some (modify p (occupy ieee nwk) ds)
]

-- The part of `zb_dev_mgr_leave` under the mutex.
unfoldable pub leave_slot : ℕ → List Dev → List Dev
leave_slot ieee = modify (has_ieee ieee) (λ d. record d { active = false })

-- `zb_dev_mgr_get_nwk`
unfoldable pub get_nwk : ℕ → List Dev → ℕ
get_nwk ieee ds = elim (find_by_ieee ieee ds) [ some d ↦ d.nwk_addr | none ↦ 0xFFFF ]

-- The loop of `zb_dev_mgr_learn_cap` over `caps[0 .. num_caps)`.
pub has_cap : ℕ → List ℕ → Bool
has_cap cap [] = false
has_cap cap (c ∷ cs) = let rest = has_cap cap cs in if c == cap then true else rest

abbrev pub known : Dev → List ℕ
known d = take d.num_caps d.caps

abbrev pub push_cap : ℕ → Dev → Dev
push_cap cap d = record d { caps = set d.caps d.num_caps cap; num_caps = (d.num_caps + 1) % 2 ^ 8 }

unfoldable pub add_cap : ℕ → Dev → Dev
add_cap cap d =
    if has_cap cap (known d) then d else if ltb d.num_caps max_caps then push_cap cap d else d

-- `zb_dev_mgr_learn_cap`
unfoldable pub learn_cap : ℕ → ℕ → List Dev → EspErr × List Dev
learn_cap ieee cap ds = elim (find_by_ieee ieee ds) [
  | none ↦ (not_found, ds)
  | some d ↦ (ok, modify (has_ieee ieee) (add_cap cap) ds)
]

-- `zb_dev_get_caps`: the status, the list copied out, of length `*count`.
unfoldable pub get_caps : ℕ → ℕ → List Dev → EspErr × List ℕ
get_caps ieee count ds = elim (find_by_ieee ieee ds) [
  | none ↦ (not_found, [])
  | some d ↦ (ok, take (if ltb d.num_caps count then d.num_caps else count) d.caps)
]

-- `zb_dev_mgr_count`, once the mutex exists.
pub count_active : List Dev → ℕ
count_active [] = 0
count_active (d ∷ ds) = let rest = count_active ds in if d.active then suc rest else rest

-- The inner loop of `on_pb_device_loaded`, which breaks when the array is full.
pub load_clusters : ℕ → List ClusterCache → Dev → Dev
load_clusters ep [] d = d
load_clusters ep (c ∷ cs) d =
    let rest = load_clusters ep cs (push_cap (cap_id (ep % 2 ^ 8) c.cluster_id) d) in
    if leb max_caps d.num_caps then d else rest

pub load_endpoints : List Endpoint → Dev → Dev
load_endpoints [] d = d
load_endpoints (e ∷ es) d = load_endpoints es (load_clusters e.ep_id e.clusters d)

-- `on_pb_device_loaded`, with the counter behind `ctx`.
unfoldable pub load_device : DeviceRecord → List Dev × ℕ → List Dev × ℕ
load_device pb (ds, count) = elim (choose_slot pb.ieee_addr ds) [
  | none ↦ (ds, count)
  | some p ↦ (
    modify p
        (λ d. load_endpoints pb.endpoints (record d {
          active = true;
          ieee_addr = pb.ieee_addr;
          nwk_addr = pb.network_addr % 2 ^ 16;
          num_caps = 0;
        }))
        ds,
    count + 1,
  )
]
