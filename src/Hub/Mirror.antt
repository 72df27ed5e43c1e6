-- ===== src/Hub/Mirror.antt =====
-- The registry of devices and the calls of the store that it makes (zb_device_mgr.c).
use zigbee_hub.Base.{
  ℕ, zero, suc, ◌≡◌, ◌≢◌, refl, sym, ap, ◌∙◌, inl, inr, arith, false, List, [], ◌∷◌, ◌++◌, Option,
  none, some, ◌==◌, if◌then◌else◌, Option-cases, Bool-cases, replicate,
}
use zigbee_hub.Storage.{DeviceRecord, StorageCall, save, delete, init_zero}
use zigbee_hub.Storage.Devices.{lookup, store, Distinct, lookup-insert, lookup-remove}
use zigbee_hub.Storage.Refinement.{Distinct-store}
use zigbee_hub.Device.{
  Dev, empty, blank, find, has_ieee, has_nwk, find_by_ieee, learn_cap, join_slot,
}
use zigbee_hub.Device.Registry.{nwk_of, nwk_of-join_slot}
use zigbee_hub.Device.Uniqueness.{IsUnique, Absent}
use zigbee_hub.Device.History.{
  IsRegistry, empty-IsRegistry, learn-IsRegistry, join_slot-IsRegistry, leave_slot-IsRegistry,
  nwk_of-leave_slot,
}
use zigbee_hub.Device.Capabilities.{nwk_of-learn_cap}
use zigbee_hub.Hub.{Hub, join, leave, after_join, send_zdo_active_ep_req}
use zigbee_hub.Hub.Persistence.{Keeps}

-- The records that these calls leave in a store.
unfoldable pub records : List StorageCall → List DeviceRecord → List DeviceRecord
records [] ds = ds
records (c ∷ calls) ds = records calls (store c ds)

records-append :
    (calls : List StorageCall) (c : StorageCall) (ds : List DeviceRecord)
    → records (calls ++ c ∷ []) ds ≡ store c (records calls ds)
unfolding records
records-append [] c ds = refl
records-append (x ∷ calls) c ds = records-append calls c (store x ds)

pub records-Distinct :
    (calls : List StorageCall) (ds : List DeviceRecord) → Distinct ds → Distinct (records calls ds)
unfolding records
records-Distinct [] ds u = u
records-Distinct (c ∷ calls) ds u = records-Distinct calls (store c ds) (Distinct-store c ds u)

-- The network address that a record gives.
unfoldable pub recorded : Option DeviceRecord → Option ℕ
recorded none = none
recorded (some d) = some d.network_addr

-- The store has a record exactly of the devices that are registered, with their network addresses.
pub record IsMirror (ds : List Dev) (calls : List StorageCall) : Type 0 where
  pub registry : IsRegistry ds
  pub same : (ieee : ℕ) → nwk_of ieee ds ≡ recorded (lookup ieee (records calls []))

nwk_of-replicate : (n ieee : ℕ) (d : Dev) → d.active ≡ false → nwk_of ieee (replicate n d) ≡ none
unfolding nwk_of find_by_ieee find
nwk_of-replicate zero ieee d off = refl
nwk_of-replicate (suc n) ieee d off = ground (arith, nwk_of-replicate n ieee d off)

pub empty-IsMirror : IsMirror empty []
unfolding empty blank records recorded lookup
empty-IsMirror = record {
  registry = empty-IsRegistry;
  same = λ ieee. nwk_of-replicate 100 ieee blank refl;
}

lookup_saved :
    (ieee nwk other : ℕ) (calls : List StorageCall)
    → recorded (
        lookup other (
          records
            (calls ++ save (record init_zero { ieee_addr = ieee; network_addr = nwk }) ∷ [])
            []))
      ≡ (if other == ieee then some nwk else recorded (lookup other (records calls [])))
unfolding store recorded
lookup_saved ieee nwk other calls =
    let r : DeviceRecord = record init_zero { ieee_addr = ieee; network_addr = nwk } in
    ap (λ ds. recorded (lookup other ds)) (records-append calls (save r) [])
    ∙ ap recorded (lookup-insert other r (records calls []))
    ∙ ground arith

lookup_deleted :
    (ieee other : ℕ) (calls : List StorageCall)
    → recorded (lookup other (records (calls ++ delete ieee ∷ []) []))
      ≡ (if other == ieee then none else recorded (lookup other (records calls [])))
unfolding store recorded
lookup_deleted ieee other calls =
    ap (λ ds. recorded (lookup other ds)) (records-append calls (delete ieee) [])
    ∙ ap recorded (lookup-remove other ieee (records calls []) (records-Distinct calls [] tt))
    ∙ ground arith

learn-IsMirror :
    (ieee cap : ℕ) (ds : List Dev) (calls : List StorageCall)
    → IsMirror ds calls
    → IsMirror (learn_cap ieee cap ds).1 calls
learn-IsMirror ieee cap ds calls m = record {
  registry = learn-IsRegistry ieee cap ds m.registry;
  same = λ other. nwk_of-learn_cap ieee cap other ds ∙ m.same other;
}

join-IsMirror :
    (ieee nwk : ℕ) (h : Hub)
    → IsMirror h.devices h.storage_calls
    → IsMirror (join ieee nwk h).1.devices (join ieee nwk h).1.storage_calls
unfolding join after_join send_zdo_active_ep_req
join-IsMirror ieee nwk h m = elim (Option-cases (join_slot ieee nwk h.devices)) [
  | inl n ↦ rw n m
  | inr (ds, e) ↦ rw e (record {
    registry = join_slot-IsRegistry ieee nwk h.devices ds e m.registry;
    same = λ other.
        nwk_of-join_slot ieee nwk other h.devices ds e
        ∙ ap (λ k. if other == ieee then some nwk else k) (m.same other)
        ∙ sym (lookup_saved ieee nwk other h.storage_calls);
  })
]

leave-IsMirror :
    (ieee : ℕ) (h : Hub)
    → IsMirror h.devices h.storage_calls
    → IsMirror (leave ieee h).devices (leave ieee h).storage_calls
unfolding leave
leave-IsMirror ieee h m = record {
  registry = leave_slot-IsRegistry ieee h.devices m.registry;
  same = λ other.
      nwk_of-leave_slot ieee other h.devices m.registry
      ∙ ap (λ k. if other == ieee then none else k) (m.same other)
      ∙ sym (lookup_deleted ieee other h.storage_calls);
}

-- In a well-formed registry, the slot that is found by a network address is the slot of its device.
ieee_addr-Absent :
    (n : ℕ) (ds : List Dev) (d : Dev) (ieee : ℕ)
    → Absent ieee ds
    → find (has_nwk n) ds ≡ some d
    → d.ieee_addr ≢ ieee
unfolding find
ieee_addr-Absent n [] d ieee a e = ground arith
ieee_addr-Absent n (x ∷ ds) d ieee a e = ground (arith, ieee_addr-Absent n ds d ieee a.1)

found_nwk :
    (n : ℕ) (ds : List Dev) (d : Dev)
    → IsUnique ds
    → find (has_nwk n) ds ≡ some d
    → nwk_of d.ieee_addr ds ≡ some n
unfolding find nwk_of find_by_ieee
found_nwk n [] d u e = ground arith
found_nwk n (x ∷ ds) d u e = elim (Bool-cases (has_nwk n x)) [
  | inl y ↦ let s : x ≡ d = ground arith in rw (← s) (ground arith)
  | inr away ↦
      let later : find (has_nwk n) ds ≡ some d = ground arith in
      elim (Bool-cases (has_ieee d.ieee_addr x)) [
        | inl same ↦
            absurd (ieee_addr-Absent n ds d x.ieee_addr (u.0 (ground arith)) later (ground arith))
        | inr other ↦ rw (other, nwk_of) (found_nwk n ds d u.1 later)
      ]
]

-- A record that is saved again for a device that has it changes nothing.
save-IsMirror :
    (nwk : ℕ) (d : Dev) (ds : List Dev) (calls : List StorageCall)
    → find (has_nwk nwk) ds ≡ some d
    → IsMirror ds calls
    → IsMirror ds
        (calls ++ save (record init_zero { ieee_addr = d.ieee_addr; network_addr = nwk }) ∷ [])
save-IsMirror nwk d ds calls found m = record {
  registry = m.registry;
  same = λ other. same_again other ∙ sym (lookup_saved d.ieee_addr nwk other calls);
}
  where
    same_again :
        (other : ℕ)
        → nwk_of other ds
          ≡ (if other == d.ieee_addr then some nwk else recorded (lookup other (records calls [])))
    same_again other = elim (Bool-cases (other == d.ieee_addr)) [
      | inl y ↦
          let o : other ≡ d.ieee_addr = ground arith in
          rw y (ap (λ i. nwk_of i ds) o ∙ found_nwk nwk ds d m.registry.unique found)
      | inr n ↦ rw n (m.same other)
    ]

-- Whatever addresses a message names.
abbrev pub Any : ℕ → ℕ → Type 0
Any ieee nwk = Unit {0}

pub IsMirror-Keeps : Keeps IsMirror Any
IsMirror-Keeps = record {
  learns = learn-IsMirror;
  joins = λ ieee nwk h named. join-IsMirror ieee nwk h;
  leaves = λ ieee nwk h named. leave-IsMirror ieee h;
  saves = save-IsMirror;
}
