-- ===== src/Device/History.antt =====
-- The registry through histories of calls (zb_device_mgr.c).
use zigbee_hub.Base.{
  ℕ, zero, suc, ◌%◌, ◌^◌, ◌≡◌, refl, ◌∙◌, ◌≢◌, Bool, true, false, List, [], ◌∷◌, Option, none, some,
  arith, length, ◌==◌, if◌then◌else◌, Option-cases, inl, inr, All, replicate, length-replicate,
}
use mathlib.Core.Path.{subst, ap}
use zigbee_hub.Storage.{DeviceRecord}
use zigbee_hub.Device.{
  Dev, modify, has_ieee, find_by_ieee, choose_slot, occupy, join_slot, leave_slot, learn_cap,
  add_cap, load_device, load_endpoints, blank, empty, max_devices,
}
use zigbee_hub.Device.Registry.{find-modify_apart, nwk_of}
use zigbee_hub.Device.Uniqueness.{
  IsUnique, Absent-find, IsUnique-modify_same, IsUnique-choose_slot, Absent-leave,
}
use zigbee_hub.Device.Slots.{
  IsDev, length-modify, All-modify, add_cap-IsDev, load_endpoints-Loads, All-replicate, blank-IsDev,
}

pub record IsRegistry (ds : List Dev) : Type 0 where
  pub unique : IsUnique ds
  pub slots : length ds ≡ max_devices
  pub devs : All IsDev ds

-- The calls that change the registry; what a call returns is left out.
pub data Op : Type 0 where
  join : ℕ → ℕ → Op
  leave : ℕ → Op
  learn : ℕ → ℕ → Op
  restore : DeviceRecord → Op

pub kept : List Dev → Option (List Dev) → List Dev
kept ds none = ds
kept ds (some ds') = ds'

pub apply : Op → List Dev → List Dev
apply (join ieee nwk) ds = kept ds (join_slot ieee nwk ds)
apply (leave ieee) ds = leave_slot ieee ds
apply (learn ieee cap) ds = (learn_cap ieee cap ds).1
apply (restore pb) ds = (load_device pb (ds, 0)).0

pub run : List Op → List Dev → List Dev
run [] ds = ds
run (op ∷ ops) ds = run ops (apply op ds)

-- The result of writing a slot that the registry chose.
choose_slot-IsRegistry :
    (ieee : ℕ) (f : Dev → Dev) (ds : List Dev) (p : Dev → Bool)
    → ((d : Dev) → (f d).ieee_addr ≡ ieee)
    → ((d : Dev) → IsDev d → IsDev (f d))
    → choose_slot ieee ds ≡ some p
    → IsRegistry ds
    → IsRegistry (modify p f ds)
choose_slot-IsRegistry ieee f ds p named keeps e r = record {
  unique = IsUnique-choose_slot ieee f ds p named e r.unique;
  slots = length-modify p f ds ∙ r.slots;
  devs = All-modify IsDev p f keeps ds r.devs;
}

modify_same-IsRegistry :
    (p : Dev → Bool) (f : Dev → Dev) (ds : List Dev)
    → ((d : Dev) (ieee : ℕ) → has_ieee ieee d ≡ false → has_ieee ieee (f d) ≡ false)
    → ((d : Dev) → IsDev d → IsDev (f d))
    → IsRegistry ds
    → IsRegistry (modify p f ds)
modify_same-IsRegistry p f ds same keeps r = record {
  unique = IsUnique-modify_same p f same ds r.unique;
  slots = length-modify p f ds ∙ r.slots;
  devs = All-modify IsDev p f keeps ds r.devs;
}

add_cap_same :
    (cap : ℕ) (d : Dev) (ieee : ℕ) → has_ieee ieee d ≡ false → has_ieee ieee (add_cap cap d) ≡ false
unfolding add_cap
add_cap_same cap d ieee h = ground arith

pub join-IsRegistry :
    (ieee nwk : ℕ) (ds : List Dev) → IsRegistry ds → IsRegistry (kept ds (join_slot ieee nwk ds))
unfolding kept
join-IsRegistry ieee nwk ds r = elim (Option-cases (choose_slot ieee ds)) [
  | inl n ↦
      let e : join_slot ieee nwk ds ≡ none = unfold join_slot in ground arith in rw (e, kept) r
  | inr (p, h) ↦
      let e : join_slot ieee nwk ds ≡ some (modify p (occupy ieee nwk) ds) =
        unfold join_slot in ground arith in
      rw (e, kept)
        (choose_slot-IsRegistry ieee (occupy ieee nwk) ds p (λ d. refl) (λ d v. omega arith) h r)
]

pub learn-IsRegistry :
    (ieee c : ℕ) (ds : List Dev) → IsRegistry ds → IsRegistry (learn_cap ieee c ds).1
learn-IsRegistry ieee c ds r = elim (Option-cases (find_by_ieee ieee ds)) [
  | inl n ↦ let e : (learn_cap ieee c ds).1 ≡ ds = unfold learn_cap in ground arith in rw e r
  | inr (d, h) ↦
      let e : (learn_cap ieee c ds).1 ≡ modify (has_ieee ieee) (add_cap c) ds =
        unfold learn_cap in ground arith in
      rw e
        (modify_same-IsRegistry (has_ieee ieee) (add_cap c) ds (add_cap_same c) (add_cap-IsDev c) r)
]

abbrev pub restored : DeviceRecord → Dev → Dev
restored pb d = load_endpoints pb.endpoints (record d {
  active = true;
  ieee_addr = pb.ieee_addr;
  nwk_addr = pb.network_addr % 2 ^ 16;
  num_caps = 0;
})

restore-IsRegistry :
    (pb : DeviceRecord) (ds : List Dev) → IsRegistry ds → IsRegistry (load_device pb (ds, 0)).0
restore-IsRegistry pb ds r = elim (Option-cases (choose_slot pb.ieee_addr ds)) [
  | inl n ↦ let e : (load_device pb (ds, 0)).0 ≡ ds = unfold load_device in ground arith in rw e r
  | inr (p, h) ↦
      let e : (load_device pb (ds, 0)).0 ≡ modify p (restored pb) ds =
        unfold load_device in ground arith in
      rw e (
        choose_slot-IsRegistry pb.ieee_addr (restored pb) ds p
          (λ d. (load_endpoints-Loads pb.endpoints _).2)
          (λ d v. (load_endpoints-Loads pb.endpoints _).0 (omega arith)) h r)
]

-- Every call keeps the registry well formed.
apply-IsRegistry : (op : Op) (ds : List Dev) → IsRegistry ds → IsRegistry (apply op ds)
unfolding apply leave_slot
apply-IsRegistry (join ieee nwk) ds r = join-IsRegistry ieee nwk ds r
apply-IsRegistry (leave ieee) ds r =
    modify_same-IsRegistry (has_ieee ieee) (λ d. record d { active = false }) ds (λ d a h. refl)
      (λ d v. omega arith) r
apply-IsRegistry (learn ieee c) ds r = learn-IsRegistry ieee c ds r
apply-IsRegistry (restore pb) ds r = restore-IsRegistry pb ds r

IsUnique-replicate : (n : ℕ) (d : Dev) → d.active ≡ false → IsUnique (replicate n d)
IsUnique-replicate zero d e = tt
IsUnique-replicate (suc n) d e = (λ on. absurd (ground arith), IsUnique-replicate n d e)

pub empty-IsRegistry : IsRegistry empty
unfolding empty blank
empty-IsRegistry = record {
  unique = IsUnique-replicate max_devices blank refl;
  slots = length-replicate max_devices blank;
  devs = All-replicate IsDev max_devices blank blank-IsDev;
}

run-IsRegistry : (ops : List Op) (ds : List Dev) → IsRegistry ds → IsRegistry (run ops ds)
unfolding run
run-IsRegistry [] ds r = r
run-IsRegistry (op ∷ ops) ds r = run-IsRegistry ops (apply op ds) (apply-IsRegistry op ds r)

-- After any history of joins, leaves, learned capabilities and restored records, the registry that
-- `zb_dev_mgr_init` cleared has its 100 slots, no address in two active slots, and in every slot a
-- count of capabilities that stays within the array.
pub run-empty-IsRegistry : (ops : List Op) → IsRegistry (run ops empty)
run-empty-IsRegistry ops = run-IsRegistry ops empty empty-IsRegistry

gone :
    (ieee other : ℕ) (ds : List Dev)
    → IsUnique ds
    → other ≡ ieee
    → find_by_ieee other (leave_slot ieee ds) ≡ none
unfolding find_by_ieee
gone ieee other ds u e = rw e (Absent-find ieee (leave_slot ieee ds) (Absent-leave ieee ds u))

-- In a well-formed registry, leaving forgets exactly the device that left.
pub nwk_of-leave_slot :
    (ieee other : ℕ) (ds : List Dev)
    → IsRegistry ds
    → nwk_of other (leave_slot ieee ds) ≡ (if other == ieee then none else nwk_of other ds)
unfolding nwk_of find_by_ieee leave_slot
nwk_of-leave_slot ieee other ds r = ground (
  arith,
  λ (e : other ≡ ieee). gone ieee other ds r.unique e,
  λ (ne : other ≢ ieee).
      find-modify_apart (has_ieee ieee) (has_ieee other) (λ d. record d { active = false })
        (λ d h. ground arith) (λ d h. refl) ds,
)

pub join_slot-IsRegistry :
    (ieee nwk : ℕ) (ds ds' : List Dev)
    → join_slot ieee nwk ds ≡ some ds'
    → IsRegistry ds
    → IsRegistry ds'
unfolding kept
join_slot-IsRegistry ieee nwk ds ds' e r =
    subst IsRegistry (ap (λ o. kept ds o) e) (join-IsRegistry ieee nwk ds r)

pub leave_slot-IsRegistry :
    (ieee : ℕ) (ds : List Dev) → IsRegistry ds → IsRegistry (leave_slot ieee ds)
unfolding apply
leave_slot-IsRegistry ieee ds r = apply-IsRegistry (leave ieee) ds r
