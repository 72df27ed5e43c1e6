-- ===== src/Tests/Devices.antt =====
-- A device joins, is learned about and leaves; a callback subscribes.
use zigbee_hub.Base.{
  ℕ, ◌≡◌, ◌≢◌, refl, true, false, [], ◌∷◌, ◌++◌, none, some, arith, replicate, ok, ltb,
}
use zigbee_hub.Device.{
  Dev, find, modify, find_by_ieee, find_free_slot, join_slot, leave_slot, learn_cap, get_caps,
  known, max_caps, empty, choose_slot, occupy,
}
use zigbee_hub.Device.Capabilities.{learned, NoRepeat, learn_cap_lem}
use zigbee_hub.Device.Inheritance.{join_slot-leave_slot_inherits}
use zigbee_hub.Device.Slots.{IsDev}
use zigbee_hub.Device.History.{IsRegistry, join, leave, learn, run, run-empty-IsRegistry}

abbrev plug : Dev
plug = record {
  active = true;
  ieee_addr = 7;
  nwk_addr = 0x1234;
  num_caps = 1;
  caps = 0x10006 ∷ replicate 63 0;
}

abbrev free : Dev
free = record { active = false; ieee_addr = 0; nwk_addr = 0; num_caps = 0; caps = replicate 64 0 }

plug-IsDev : IsDev plug
plug-IsDev = record { whole = refl; counted = omega arith }

plug_found : find_by_ieee 7 (plug ∷ free ∷ []) ≡ some plug
unfolding find_by_ieee find
plug_found = refl

joined : join_slot 9 0x2222 (plug ∷ free ∷ []) ≡ some (plug ∷ occupy 9 0x2222 free ∷ [])
unfolding join_slot choose_slot find_by_ieee find_free_slot find modify
joined = refl

run-empty-IsRegistry_example :
    IsRegistry (run (join 7 0x1234 ∷ learn 7 0x10006 ∷ join 7 0x4321 ∷ leave 7 ∷ []) empty)
run-empty-IsRegistry_example =
    run-empty-IsRegistry (join 7 0x1234 ∷ learn 7 0x10006 ∷ join 7 0x4321 ∷ leave 7 ∷ [])

learn_cap_lem_example :
    let ds' = (learn_cap 7 0x10008 (plug ∷ free ∷ [])).1 in
    ((learn_cap 7 0x10008 (plug ∷ free ∷ [])).0 ≡ ok)
    × ((d' : Dev) × (find_by_ieee 7 ds' ≡ some d')
        × (known d' ≡ learned 0x10008 (known plug) (ltb 1 max_caps))
        × (d'.nwk_addr ≡ 0x1234))
    × (NoRepeat (known plug) → NoRepeat (learned 0x10008 (known plug) (ltb 1 max_caps)))
    × ((other : ℕ) → other ≢ 7 → find_by_ieee other ds' ≡ find_by_ieee other (plug ∷ free ∷ []))
learn_cap_lem_example = learn_cap_lem 7 0x10008 (plug ∷ free ∷ []) plug plug_found plug-IsDev

plug_left : leave_slot 7 (plug ∷ free ∷ []) ≡ record plug { active = false } ∷ free ∷ []
unfolding leave_slot modify
plug_left = refl

replaced :
    join_slot 9 0x2222 (leave_slot 7 ([] ++ plug ∷ free ∷ []))
    ≡ some (occupy 9 0x2222 plug ∷ free ∷ [])
unfolding join_slot choose_slot find_by_ieee find_free_slot find modify leave_slot
replaced = refl

stranger : find_by_ieee 9 ([] ++ plug ∷ free ∷ []) ≡ none
unfolding find_by_ieee find
stranger = refl

alone : find_by_ieee 7 [] ≡ none
unfolding find_by_ieee find
alone = refl

join_slot-leave_slot_inherits_example :
    get_caps 9 64 (occupy 9 0x2222 plug ∷ free ∷ []) ≡ get_caps 7 64 (plug ∷ free ∷ [])
join_slot-leave_slot_inherits_example =
    join_slot-leave_slot_inherits [] (free ∷ []) plug tt 9 0x2222 64
      (occupy 9 0x2222 plug ∷ free ∷ []) alone refl stranger (omega arith) replaced
