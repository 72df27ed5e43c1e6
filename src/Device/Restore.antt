-- ===== src/Device/Restore.antt =====
-- Restoring the registry from records (on_pb_device_loaded of zb_device_mgr.c).
use zigbee_hub.Base.{
  ℕ, suc, ◌%◌, ◌^◌, ◌≤◌, ◌<◌, ◌≡◌, refl, ap, ◌∙◌, Bool, true, List, [], ◌∷◌, none, some, arith,
  ◌==◌, if◌then◌else◌, Option-cases, inl, inr,
}
use zigbee_hub.Storage.{DeviceRecord}
use zigbee_hub.Device.{
  Dev, find, modify, has_ieee, is_free, find_by_ieee, find_free_slot, choose_slot, occupy,
  join_slot, get_nwk, load_device,
}
use zigbee_hub.Device.Registry.{get_nwk-join_slot}
use zigbee_hub.Device.Slots.{load_endpoints-Loads}
use zigbee_hub.Device.History.{restored}

-- Two writes that agree on the address, the network address and the state of the slot.
abbrev Agree : (Dev → Dev) → (Dev → Dev) → Type 0
Agree f g =
    (d : Dev)
    → ((f d).active ≡ (g d).active)
      × ((f d).ieee_addr ≡ (g d).ieee_addr)
      × ((f d).nwk_addr ≡ (g d).nwk_addr)

get_nwk-modify-Agree :
    (p : Dev → Bool) (f g : Dev → Dev) (other : ℕ) (ds : List Dev)
    → Agree f g
    → get_nwk other (modify p f ds) ≡ get_nwk other (modify p g ds)
unfolding get_nwk find_by_ieee find modify
get_nwk-modify-Agree p f g other [] a = refl
get_nwk-modify-Agree p f g other (d ∷ ds) a =
    ground (arith, a d, get_nwk-modify-Agree p f g other ds a)

-- The slots that are free.
unfoldable pub free_slots : List Dev → ℕ
free_slots [] = 0
free_slots (d ∷ ds) = let rest = free_slots ds in if d.active then rest else suc rest

free_slots-modify :
    (p : Dev → Bool) (f : Dev → Dev) (ds : List Dev)
    → free_slots ds ≤ suc (free_slots (modify p f ds))
unfolding free_slots modify
free_slots-modify p f [] = omega arith
free_slots-modify p f (d ∷ ds) = ground (arith, free_slots-modify p f ds)

free_slots-find : (ds : List Dev) → find is_free ds ≡ none → free_slots ds ≡ 0
unfolding free_slots find
free_slots-find [] e = refl
free_slots-find (d ∷ ds) e = ground (arith, free_slots-find ds)

choose_slot-free :
    (ieee : ℕ) (ds : List Dev)
    → 0 < free_slots ds
    → (p : Dev → Bool) × (choose_slot ieee ds ≡ some p)
unfolding choose_slot find_free_slot
choose_slot-free ieee ds room = elim (Option-cases (find_by_ieee ieee ds)) [
  | inr (d, e) ↦ (has_ieee ieee, rw (e, choose_slot) refl)
  | inl n ↦ elim (Option-cases (find is_free ds)) [
    | inr (d, e) ↦ (is_free, rw (n, choose_slot, e) refl)
    | inl m ↦ absurd (omega (arith, free_slots-find ds m))
  ]
]

-- With a free slot, a record restores its device with 16 bits of its network address, no other
-- device, and takes at most one slot.
pub load_device_lem :
    (pb : DeviceRecord) (ds : List Dev) (n other : ℕ)
    → 0 < free_slots ds
    → (get_nwk other (load_device pb (ds, n)).0
        ≡ (if other == pb.ieee_addr then pb.network_addr % 2 ^ 16 else get_nwk other ds))
      × (free_slots ds ≤ suc (free_slots (load_device pb (ds, n)).0))
load_device_lem pb ds n other room =
    let (p, chosen) = choose_slot-free pb.ieee_addr ds room in
    let nwk = pb.network_addr % 2 ^ 16 in
    let here : (load_device pb (ds, n)).0 ≡ modify p (restored pb) ds =
      unfold load_device in ground arith in
    let joined : join_slot pb.ieee_addr nwk ds ≡ some (modify p (occupy pb.ieee_addr nwk) ds) =
      unfold join_slot in ground arith in
    (
      ap (λ x. get_nwk other x) here
          ∙ get_nwk-modify-Agree p (restored pb) (occupy pb.ieee_addr nwk) other ds agree
          ∙ get_nwk-join_slot pb.ieee_addr nwk other ds (modify p (occupy pb.ieee_addr nwk) ds)
              joined,
      rw here (free_slots-modify p (restored pb) ds),
    )
  where
    agree : Agree (restored pb) (occupy pb.ieee_addr (pb.network_addr % 2 ^ 16))
    agree d =
        let l = load_endpoints-Loads pb.endpoints (record d {
          active = true;
          ieee_addr = pb.ieee_addr;
          nwk_addr = pb.network_addr % 2 ^ 16;
          num_caps = 0;
        }) in
        (l.1, l.2, l.3)
