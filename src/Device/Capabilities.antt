-- ===== src/Device/Capabilities.antt =====
-- The capability list of a device (zb_dev_mgr_learn_cap).
use zigbee_hub.Base.{
  ℕ, suc, ◌+◌, ◌%◌, ◌^◌, ◌<◌, ◌≡◌, refl, ◌∙◌, ◌≢◌, Bool, false, not, ◌||◌, List, [], ◌∷◌, ◌++◌,
  some, arith, ◌==◌, ltb, if◌then◌else◌, ok, take-set, Option-cases, inl, inr,
}
use zigbee_hub.Device.{
  Dev, find, modify, has_ieee, find_by_ieee, learn_cap, add_cap, push_cap, has_cap, known, max_caps,
}
use zigbee_hub.Device.Registry.{find-modify_self, find-modify_apart, nwk_of}
use zigbee_hub.Device.Slots.{IsDev}

-- The list that a capability makes of a list.
abbrev pub learned : ℕ → List ℕ → Bool → List ℕ
learned cap cs room = if has_cap cap cs || not room then cs else cs ++ cap ∷ []

-- No capability twice.
abbrev pub NoRepeat : List ℕ → Type 0
NoRepeat [] = Unit {0}
NoRepeat (c ∷ cs) = (has_cap c cs ≡ false) × NoRepeat cs

has_cap-append : (c cap : ℕ) (cs : List ℕ) → has_cap c (cs ++ cap ∷ []) ≡ (has_cap c cs || cap == c)
unfolding has_cap
has_cap-append c cap [] = ground arith
has_cap-append c cap (x ∷ cs) = ground (arith, has_cap-append c cap cs)

NoRepeat-append :
    (cap : ℕ) (cs : List ℕ) → has_cap cap cs ≡ false → NoRepeat cs → NoRepeat (cs ++ cap ∷ [])
unfolding has_cap
NoRepeat-append cap [] h u = (refl, tt)
NoRepeat-append cap (c ∷ cs) h u = ground (arith, has_cap-append c cap cs, NoRepeat-append cap cs)

known-push_cap :
    (cap : ℕ) (d : Dev)
    → IsDev d
    → d.num_caps < max_caps
    → known (push_cap cap d) ≡ known d ++ cap ∷ []
known-push_cap cap d v h =
    let e : (d.num_caps + 1) % 2 ^ 8 ≡ suc d.num_caps = omega arith in
    rw e (take-set d.caps d.num_caps cap (omega arith))

known-add_cap :
    (cap : ℕ) (d : Dev)
    → IsDev d
    → known (add_cap cap d) ≡ learned cap (known d) (ltb d.num_caps max_caps)
unfolding add_cap
known-add_cap cap d v = ground (arith, known-push_cap cap d v)

add_cap_keeps : (cap ieee : ℕ) (d : Dev) → has_ieee ieee (add_cap cap d) ≡ has_ieee ieee d
unfolding add_cap
add_cap_keeps cap ieee d = ground arith

-- Learning a capability of a known device with a well-formed record succeeds. It is put at the end
-- of the device's list unless it is there or the list has 64 entries, so no capability comes in
-- twice; and no other device's record changes.
pub learn_cap_lem :
    (ieee cap : ℕ) (ds : List Dev) (d : Dev)
    → find_by_ieee ieee ds ≡ some d
    → IsDev d
    → let ds' = (learn_cap ieee cap ds).1 in
      ((learn_cap ieee cap ds).0 ≡ ok)
      × ((d' : Dev) × (find_by_ieee ieee ds' ≡ some d')
          × (known d' ≡ learned cap (known d) (ltb d.num_caps max_caps))
          × (d'.nwk_addr ≡ d.nwk_addr))
      × (NoRepeat (known d) → NoRepeat (learned cap (known d) (ltb d.num_caps max_caps)))
      × ((other : ℕ) → other ≢ ieee → find_by_ieee other ds' ≡ find_by_ieee other ds)
unfolding find_by_ieee
learn_cap_lem ieee cap ds d e v =
    let s : learn_cap ieee cap ds ≡ (ok, modify (has_ieee ieee) (add_cap cap) ds) =
      unfold learn_cap in ground arith in
    rw s (
      refl,
      (
        add_cap cap d,
        find-modify_self (has_ieee ieee) (add_cap cap) (λ x h. add_cap_keeps cap ieee x ∙ h) ds d e,
        known-add_cap cap d v,
        unfold add_cap in ground arith,
      ),
      λ u. ground (arith, NoRepeat-append cap (known d)),
      λ other ne.
          find-modify_apart (has_ieee ieee) (has_ieee other) (add_cap cap) (λ x h. ground arith)
            (λ x h. add_cap_keeps cap other x ∙ ground arith) ds,
    )

add_cap_nwk : (cap : ℕ) (d : Dev) → (add_cap cap d).nwk_addr ≡ d.nwk_addr
unfolding add_cap
add_cap_nwk cap d = ground arith

nwk_of-modify_cap :
    (p : Dev → Bool) (cap other : ℕ) (ds : List Dev)
    → nwk_of other (modify p (add_cap cap) ds) ≡ nwk_of other ds
unfolding nwk_of find_by_ieee find modify
nwk_of-modify_cap p cap other [] = refl
nwk_of-modify_cap p cap other (d ∷ ds) =
    ground (arith, add_cap_nwk cap d, add_cap_keeps cap other d, nwk_of-modify_cap p cap other ds)

-- Learning a capability changes no network address and registers no device.
pub nwk_of-learn_cap :
    (ieee cap other : ℕ) (ds : List Dev) → nwk_of other (learn_cap ieee cap ds).1 ≡ nwk_of other ds
nwk_of-learn_cap ieee cap other ds = elim (Option-cases (find_by_ieee ieee ds)) [
  | inl n ↦ let e : (learn_cap ieee cap ds).1 ≡ ds = unfold learn_cap in ground arith in rw e refl
  | inr (d, h) ↦
      let e : (learn_cap ieee cap ds).1 ≡ modify (has_ieee ieee) (add_cap cap) ds =
        unfold learn_cap in ground arith in
      rw e (nwk_of-modify_cap (has_ieee ieee) cap other ds)
]
