-- ===== src/Device/Registry.antt =====
-- The registry as a map from IEEE addresses: what joining and leaving change, and what they leave.
use zigbee_hub.Base.{
  ℕ, ◌≡◌, refl, ◌≢◌, Bool, true, false, List, [], ◌∷◌, Option, none, some, arith, ◌==◌,
  if◌then◌else◌, Option-cases, inl, inr, ◌⊎◌, ◌↔◌,
}
use zigbee_hub.Device.{
  Dev, find, modify, has_ieee, is_free, find_by_ieee, find_free_slot, choose_slot, occupy,
  join_slot, get_nwk,
}

module _ (p q : Dev → Bool) (f : Dev → Dev) where
  -- A search that neither meets a slot before nor after it is changed does not see the change.
  pub find-modify_apart :
      ((d : Dev) → p d ≡ true → q d ≡ false)
      → ((d : Dev) → p d ≡ true → q (f d) ≡ false)
      → (ds : List Dev) → find q (modify p f ds) ≡ find q ds
  unfolding find modify
  find-modify_apart before after [] = refl
  find-modify_apart before after (d ∷ ds) =
      ground (arith, before d, after d, find-modify_apart before after ds)

  -- A search by a test that only the changed slot passes finds that slot.
  pub find-modify_hit :
      ((d : Dev) → p d ≡ true → q (f d) ≡ true)
      → (ds : List Dev) (d : Dev) → find q ds ≡ none
      → find p ds ≡ some d
      → find q (modify p f ds) ≡ some (f d)
  unfolding find modify
  find-modify_hit after [] d e h = ground arith
  find-modify_hit after (x ∷ ds) d e h = ground (arith, after x, find-modify_hit after ds d)

pub find-modify_self :
    (p : Dev → Bool) (f : Dev → Dev)
    → ((d : Dev) → p d ≡ true → p (f d) ≡ true)
    → (ds : List Dev) (d : Dev) → find p ds ≡ some d
    → find p (modify p f ds) ≡ some (f d)
unfolding find modify
find-modify_self p f after [] d h = ground arith
find-modify_self p f after (x ∷ ds) d h = ground (arith, after x, find-modify_self p f after ds d)

module _ (ieee nwk : ℕ) (ds : List Dev) where
  join_slot_known :
      (d : Dev)
      → find_by_ieee ieee ds ≡ some d
      → join_slot ieee nwk ds ≡ some (modify (has_ieee ieee) (occupy ieee nwk) ds)
  unfolding join_slot choose_slot
  join_slot_known d e = ground arith

  pub join_slot_new :
      (d : Dev)
      → find_by_ieee ieee ds ≡ none
      → find_free_slot ds ≡ some d
      → join_slot ieee nwk ds ≡ some (modify is_free (occupy ieee nwk) ds)
  unfolding join_slot choose_slot
  join_slot_new d n e = ground arith

  join_slot_full :
      find_by_ieee ieee ds ≡ none → find_free_slot ds ≡ none → join_slot ieee nwk ds ≡ none
  unfolding join_slot choose_slot
  join_slot_full n e = ground arith

has_ieee_same : (a b : ℕ) (d : Dev) → a ≢ b → has_ieee a d ≡ true → has_ieee b d ≡ false
has_ieee_same a b d ne h = ground arith

-- After a join, a search for the device finds the slot it had, else the first free one, with the
-- address and the capability list of that slot.
find_by_ieee-join_slot_self :
    (ieee nwk : ℕ) (ds ds' : List Dev)
    → join_slot ieee nwk ds ≡ some ds'
    → (d : Dev) × (find_by_ieee ieee ds' ≡ some (occupy ieee nwk d))
      × ((find_by_ieee ieee ds ≡ some d)
          ⊎ ((find_by_ieee ieee ds ≡ none) × (find_free_slot ds ≡ some d)))
unfolding find_by_ieee find_free_slot
find_by_ieee-join_slot_self ieee nwk ds ds' j = elim (Option-cases (find (has_ieee ieee) ds)) [
  | inr (d, e) ↦
      let s : ds' ≡ modify (has_ieee ieee) (occupy ieee nwk) ds =
        ground (arith, join_slot_known ieee nwk ds d e) in
      (
        d,
        rw s (find-modify_self (has_ieee ieee) (occupy ieee nwk) (λ x h. ground arith) ds d e),
        inl e,
      )
  | inl n ↦ elim (Option-cases (find is_free ds)) [
    | inr (d, e) ↦
        let s : ds' ≡ modify is_free (occupy ieee nwk) ds =
          ground (arith, join_slot_new ieee nwk ds d n e) in
        (
          d,
          rw s (
              find-modify_hit is_free (has_ieee ieee) (occupy ieee nwk) (λ x h. ground arith) ds d n
                e),
          inr (n, e),
        )
    | inl m ↦ ground (arith, join_slot_full ieee nwk ds n m)
  ]
]

find_by_ieee-join_slot_ne :
    (ieee nwk other : ℕ) (ds ds' : List Dev)
    → join_slot ieee nwk ds ≡ some ds'
    → other ≢ ieee
    → find_by_ieee other ds' ≡ find_by_ieee other ds
unfolding find_by_ieee find_free_slot
find_by_ieee-join_slot_ne ieee nwk other ds ds' j ne =
    elim (Option-cases (find (has_ieee ieee) ds)) [
      | inr (d, e) ↦
          let s : ds' ≡ modify (has_ieee ieee) (occupy ieee nwk) ds =
            ground (arith, join_slot_known ieee nwk ds d e) in
          rw s (
            find-modify_apart (has_ieee ieee) (has_ieee other) (occupy ieee nwk)
              (λ x h. ground arith) (λ x h. ground arith) ds)
      | inl n ↦ elim (Option-cases (find is_free ds)) [
        | inr (d, e) ↦
            let s : ds' ≡ modify is_free (occupy ieee nwk) ds =
              ground (arith, join_slot_new ieee nwk ds d n e) in
            rw s (
              find-modify_apart is_free (has_ieee other) (occupy ieee nwk) (λ x h. ground arith)
                (λ x h. ground arith) ds)
        | inl m ↦ ground (arith, join_slot_full ieee nwk ds n m)
      ]
    ]

-- The network address of a registered device; `none` is an unknown one.
unfoldable pub nwk_of : ℕ → List Dev → Option ℕ
nwk_of ieee ds = elim (find_by_ieee ieee ds) [ some d ↦ some d.nwk_addr | none ↦ none ]

-- What zb_dev_mgr_get_nwk makes of it.
abbrev pub or_unknown : Option ℕ → ℕ
or_unknown none = 0xFFFF
or_unknown (some nwk) = nwk

pub get_nwk-nwk_of : (ieee : ℕ) (ds : List Dev) → get_nwk ieee ds ≡ or_unknown (nwk_of ieee ds)
unfolding get_nwk nwk_of
get_nwk-nwk_of ieee ds = ground arith

nwk_of_found :
    (ieee : ℕ) (ds : List Dev) (d : Dev)
    → find_by_ieee ieee ds ≡ some d
    → nwk_of ieee ds ≡ some d.nwk_addr
unfolding nwk_of
nwk_of_found ieee ds d e = ground arith

nwk_of_cong :
    (ieee : ℕ) (ds ds' : List Dev)
    → find_by_ieee ieee ds' ≡ find_by_ieee ieee ds
    → nwk_of ieee ds' ≡ nwk_of ieee ds
unfolding nwk_of
nwk_of_cong ieee ds ds' e = rw (e, nwk_of)

-- After a join that found a slot, the device that joined has the new network address, and every
-- other what it had.
pub nwk_of-join_slot :
    (ieee nwk other : ℕ) (ds ds' : List Dev)
    → join_slot ieee nwk ds ≡ some ds'
    → nwk_of other ds' ≡ (if other == ieee then some nwk else nwk_of other ds)
nwk_of-join_slot ieee nwk other ds ds' j =
    let self = find_by_ieee-join_slot_self ieee nwk ds ds' j in
    ground (
      arith,
      nwk_of_found ieee ds' (occupy ieee nwk self.0) self.1,
      λ (ne : other ≢ ieee).
          nwk_of_cong other ds ds' (find_by_ieee-join_slot_ne ieee nwk other ds ds' j ne),
    )

-- The same of `zb_dev_mgr_get_nwk`.
pub get_nwk-join_slot :
    (ieee nwk other : ℕ) (ds ds' : List Dev)
    → join_slot ieee nwk ds ≡ some ds'
    → get_nwk other ds' ≡ (if other == ieee then nwk else get_nwk other ds)
get_nwk-join_slot ieee nwk other ds ds' j = ground (
  arith,
  get_nwk-nwk_of other ds,
  get_nwk-nwk_of other ds',
  nwk_of-join_slot ieee nwk other ds ds' j,
)

-- A join fails exactly when the device is unknown and no slot is free.
join_slot-eq_none_iff :
    (ieee nwk : ℕ) (ds : List Dev)
    → (join_slot ieee nwk ds ≡ none) ↔ ((find_by_ieee ieee ds ≡ none) × (find_free_slot ds ≡ none))
unfolding join_slot choose_slot
join_slot-eq_none_iff ieee nwk ds = ground arith
