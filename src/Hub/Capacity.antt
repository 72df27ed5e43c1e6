-- ===== src/Hub/Capacity.antt =====
-- The store needs no more room than the registry has slots (zb_device_mgr.c).
use zigbee_hub.Base.{
  ℕ, suc, ◌≤◌, ◌≡◌, refl, ◌∙◌, inl, inr, arith, false, List, [], ◌∷◌, none, some, ◌==◌, length, ◌<◌,
  ◌^◌, All, Bool-cases,
}
use zigbee_hub.Storage.{DeviceRecord, StorageCall}
use zigbee_hub.Storage.Devices.{lookup, remove, Distinct, lookup-remove, Distinct-remove}
use zigbee_hub.Znp.Frame.{Frame, IsFrame}
use zigbee_hub.Hub.{Hub}
use zigbee_hub.Hub.Ranges.{NarrowCall, get_nwk-lt}
use zigbee_hub.Hub.Messages.{on_areqs, on_areqs-IsMirror, on_areqs-IsNarrow}
use zigbee_hub.Device.{empty, get_nwk, Dev, find, find_by_ieee, max_devices}
use zigbee_hub.Device.Registry.{nwk_of}
use zigbee_hub.Hub.Mirror.{IsMirror, records, recorded, records-Distinct}

-- Only registered devices have records.
abbrev Covers : List Dev → List DeviceRecord → Type 0
Covers ds rs = (ieee : ℕ) → nwk_of ieee ds ≡ none → lookup ieee rs ≡ none

length-remove : (ieee : ℕ) (rs : List DeviceRecord) → length rs ≤ suc (length (remove ieee rs))
unfolding remove
length-remove ieee [] = omega arith
length-remove ieee (r ∷ rs) = ground (arith, length-remove ieee rs)

nwk_of_other :
    (ieee : ℕ) (d : Dev) (ds : List Dev)
    → (d.ieee_addr == ieee) ≡ false
    → nwk_of ieee (d ∷ ds) ≡ nwk_of ieee ds
unfolding nwk_of find_by_ieee find
nwk_of_other ieee d ds e = ground arith

Covers-remove :
    (d : Dev) (ds : List Dev) (rs : List DeviceRecord)
    → Distinct rs
    → Covers (d ∷ ds) rs
    → Covers ds (remove d.ieee_addr rs)
Covers-remove d ds rs u c ieee unknown = elim (Bool-cases (d.ieee_addr == ieee)) [
  | inl same ↦ lookup-remove ieee d.ieee_addr rs u ∙ rw same refl
  | inr other ↦
      lookup-remove ieee d.ieee_addr rs u
      ∙ rw other (c ieee (nwk_of_other ieee d ds other ∙ unknown))
]

-- Records of different addresses that are all registered are no more than the slots.
length-le :
    (ds : List Dev) (rs : List DeviceRecord) → Distinct rs → Covers ds rs → length rs ≤ length ds
unfolding nwk_of find_by_ieee find lookup
length-le [] [] u c = omega arith
length-le [] (r ∷ rs) u c = absurd (ground (arith, c r.ieee_addr refl))
length-le (d ∷ ds) rs u c = omega (
  arith,
  length-remove d.ieee_addr rs,
  length-le ds (remove d.ieee_addr rs) (Distinct-remove d.ieee_addr rs u)
      (Covers-remove d ds rs u c),
)

-- A store that mirrors the registry has at most 100 records.
pub length-records :
    (ds : List Dev) (calls : List StorageCall)
    → IsMirror ds calls
    → length (records calls []) ≤ max_devices
unfolding recorded
length-records ds calls m = omega (
  arith,
  m.registry.slots,
  length-le ds (records calls []) (records-Distinct calls [] tt)
      (λ ieee unknown. ground (arith, m.same ieee)),
)

-- From a cleared registry and an empty store on, after any received frames that the device manager
-- handles without a read behind an array, the store holds at most 100 records, no two for one
-- address, every call of the store named an IEEE address of 64 bits, and zb_dev_mgr_get_nwk gives a
-- network address of 16 bits for every address.
pub on_areqs-bounds :
    (fs : List Frame) (h h' : Hub) (ieee : ℕ)
    → All IsFrame fs
    → h.devices ≡ empty
    → h.storage_calls ≡ []
    → on_areqs fs h ≡ some h'
    → (length (records h'.storage_calls []) ≤ 100)
      × Distinct (records h'.storage_calls [])
      × All NarrowCall h'.storage_calls
      × (get_nwk ieee h'.devices < 2 ^ 16)
on_areqs-bounds fs h h' ieee v d c e =
    let narrow = on_areqs-IsNarrow fs h h' d c v e in
    (
      length-records h'.devices h'.storage_calls (on_areqs-IsMirror fs h h' d c e),
      records-Distinct h'.storage_calls [] tt,
      narrow.called,
      get_nwk-lt ieee h'.devices h'.storage_calls narrow,
    )
