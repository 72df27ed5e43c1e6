-- ===== src/Device/Inheritance.antt =====
-- The capabilities in a slot of the registry that is used again (zb_dev_mgr_join).
use zigbee_hub.Base.{
  ℕ, ◌≡◌, refl, ◌∙◌, ◌≢◌, true, false, List, [], ◌∷◌, ◌++◌, none, some, arith, All,
}
use zigbee_hub.Device.{
  Dev, find, modify, has_ieee, is_free, find_by_ieee, find_free_slot, occupy, join_slot, leave_slot,
  get_caps,
}
use zigbee_hub.Device.Registry.{join_slot_new, find-modify_apart, find-modify_hit}

abbrev pub off : Dev → Dev
off d = record d { active = false }

module _ (front back : List Dev) (d : Dev) (busy : All (λ x. x.active ≡ true) front) where
  leave_slot_at :
      (front' : List Dev)
      → All (λ x. x.active ≡ true) front'
      → find (has_ieee d.ieee_addr) front' ≡ none
      → d.active ≡ true
      → (leave_slot d.ieee_addr (front' ++ d ∷ back) ≡ front' ++ off d ∷ back)
        × (find (has_ieee d.ieee_addr) (front' ++ d ∷ back) ≡ some d)
        × (find is_free (front' ++ off d ∷ back) ≡ some (off d))
  unfolding leave_slot modify find
  leave_slot_at [] b n on = ground arith
  leave_slot_at (x ∷ xs) b n on = ground (arith, leave_slot_at xs b.1)

  -- If a device leaves while every slot before its own is in use, then the next new device, which
  -- takes that slot, is reported with the capabilities of the one that left.
  pub join_slot-leave_slot_inherits :
      (ieee nwk count : ℕ) (ds' : List Dev)
      → find_by_ieee d.ieee_addr front ≡ none
      → d.active ≡ true
      → find_by_ieee ieee (front ++ d ∷ back) ≡ none
      → ieee ≢ d.ieee_addr
      → join_slot ieee nwk (leave_slot d.ieee_addr (front ++ d ∷ back)) ≡ some ds'
      → get_caps ieee count ds' ≡ get_caps d.ieee_addr count (front ++ d ∷ back)
  unfolding get_caps find_by_ieee find_free_slot
  join_slot-leave_slot_inherits ieee nwk count ds' alone on new ne j =
      let at = leave_slot_at front busy alone on in
      let gone : find (has_ieee ieee) (leave_slot d.ieee_addr (front ++ d ∷ back)) ≡ none =
        unfold leave_slot in
        find-modify_apart (has_ieee d.ieee_addr) (has_ieee ieee) off (λ x h. ground arith)
          (λ x h. refl) (front ++ d ∷ back)
        ∙ new in
      let gone_at : find (has_ieee ieee) (front ++ off d ∷ back) ≡ none = rw (← at.0) gone in
      let s : ds' ≡ modify is_free (occupy ieee nwk) (front ++ off d ∷ back) =
        ground (arith, join_slot_new ieee nwk (front ++ off d ∷ back) (off d) gone_at at.2, at.0) in
      let found : find (has_ieee ieee) ds' ≡ some (occupy ieee nwk (off d)) = rw s (
        find-modify_hit is_free (has_ieee ieee) (occupy ieee nwk) (λ x h. ground arith)
          (front ++ off d ∷ back) (off d) gone_at at.2) in
      ground (arith, found, at.1)
