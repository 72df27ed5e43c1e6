-- ===== src/Device/Uniqueness.antt =====
-- IEEE addresses in active slots of the registry (zb_device_mgr.c).
use zigbee_hub.Base.{
  ℕ, ◌≡◌, refl, sym, Bool, true, false, List, [], ◌∷◌, none, some, arith, Option-cases, Bool-cases,
  inl, inr, All,
}
use zigbee_hub.Device.{
  Dev, find, modify, has_ieee, is_free, find_by_ieee, find_free_slot, choose_slot, leave_slot,
}

abbrev pub Absent : ℕ → List Dev → Type 0
Absent ieee = All (λ d. has_ieee ieee d ≡ false)

abbrev pub IsUnique : List Dev → Type 0
IsUnique [] = Unit {0}
IsUnique (d ∷ ds) = (d.active ≡ true → Absent d.ieee_addr ds) × IsUnique ds

pub Absent-find : (ieee : ℕ) (ds : List Dev) → Absent ieee ds → find (has_ieee ieee) ds ≡ none
unfolding find
Absent-find ieee [] a = refl
Absent-find ieee (d ∷ ds) a = ground (arith, Absent-find ieee ds a.1)

find-Absent : (ieee : ℕ) (ds : List Dev) → find (has_ieee ieee) ds ≡ none → Absent ieee ds
unfolding find
find-Absent ieee [] e = tt
find-Absent ieee (d ∷ ds) e = ground (arith, find-Absent ieee ds)

Absent-modify :
    (p : Dev → Bool) (f : Dev → Dev) (ieee : ℕ)
    → ((d : Dev) → p d ≡ true → has_ieee ieee d ≡ false → has_ieee ieee (f d) ≡ false)
    → (ds : List Dev) → Absent ieee ds
    → Absent ieee (modify p f ds)
unfolding modify
Absent-modify p f ieee after [] a = tt
Absent-modify p f ieee after (d ∷ ds) a =
    ground (arith, after d, Absent-modify p f ieee after ds a.1)

Absent-of_eq : (a b : ℕ) (ds : List Dev) → a ≡ b → Absent a ds → Absent b ds
Absent-of_eq a b ds e h = rw (← e) h

-- A change that gives no slot an address which it had not.
pub IsUnique-modify_same :
    (p : Dev → Bool) (f : Dev → Dev)
    → ((d : Dev) (ieee : ℕ) → has_ieee ieee d ≡ false → has_ieee ieee (f d) ≡ false)
    → (ds : List Dev) → IsUnique ds
    → IsUnique (modify p f ds)
unfolding modify
IsUnique-modify_same p f keeps [] u = tt
IsUnique-modify_same p f keeps (d ∷ ds) u = elim (Bool-cases (p d)) [
  | inl h ↦ rw h (kept, u.1)
  | inr h ↦ rw h (
    λ on. Absent-modify p f d.ieee_addr (λ x hit. keeps x d.ieee_addr) ds (u.0 on),
    IsUnique-modify_same p f keeps ds u.1,
  )
]
  where
    kept : (f d).active ≡ true → Absent (f d).ieee_addr ds
    kept on = elim (Bool-cases (has_ieee (f d).ieee_addr d)) [
      | inl same ↦ Absent-of_eq d.ieee_addr (f d).ieee_addr ds (ground arith) (u.0 (ground arith))
      | inr other ↦ ground (arith, keeps d (f d).ieee_addr other)
    ]

-- Occupying a free slot by a new address.
IsUnique-modify_new :
    (f : Dev → Dev) (ieee : ℕ)
    → ((d : Dev) → (f d).ieee_addr ≡ ieee)
    → (ds : List Dev) → Absent ieee ds
    → IsUnique ds
    → IsUnique (modify is_free f ds)
unfolding modify
IsUnique-modify_new f ieee named [] a u = tt
IsUnique-modify_new f ieee named (d ∷ ds) a u = elim (Bool-cases (is_free d)) [
  | inl h ↦ rw h (λ on. Absent-of_eq ieee (f d).ieee_addr ds (sym (named d)) a.1, u.1)
  | inr h ↦ rw h (
    λ on.
        Absent-modify is_free f d.ieee_addr (λ x free away. ground (arith, named x, a.0)) ds
          (u.0 on),
    IsUnique-modify_new f ieee named ds a.1 u.1,
  )
]

module _ (ieee : ℕ) (f : Dev → Dev) (named : (d : Dev) → (f d).ieee_addr ≡ ieee) where
  IsUnique-modify_known : (ds : List Dev) → IsUnique ds → IsUnique (modify (has_ieee ieee) f ds)
  unfolding modify
  IsUnique-modify_known [] u = tt
  IsUnique-modify_known (d ∷ ds) u = elim (Bool-cases (has_ieee ieee d)) [
    | inl h ↦ rw h (
      λ on.
          Absent-of_eq d.ieee_addr (f d).ieee_addr ds (ground (arith, named d))
            (u.0 (ground arith)),
      u.1,
    )
    | inr h ↦ rw h (
      λ on.
          Absent-modify (has_ieee ieee) f d.ieee_addr (λ x hit away. ground (arith, named x)) ds
            (u.0 on),
      IsUnique-modify_known ds u.1,
    )
  ]

-- The write of `zb_dev_mgr_join` or `on_pb_device_loaded` through the slot that they chose.
pub IsUnique-choose_slot :
    (ieee : ℕ) (f : Dev → Dev) (ds : List Dev) (p : Dev → Bool)
    → ((d : Dev) → (f d).ieee_addr ≡ ieee)
    → choose_slot ieee ds ≡ some p
    → IsUnique ds
    → IsUnique (modify p f ds)
unfolding choose_slot find_by_ieee find_free_slot
IsUnique-choose_slot ieee f ds p named e u = elim (Option-cases (find (has_ieee ieee) ds)) [
  | inr (d, k) ↦
      let s : p ≡ has_ieee ieee = ground arith in rw s (IsUnique-modify_known ieee f named ds u)
  | inl n ↦
      let s : p ≡ is_free = ground arith in
      rw s (IsUnique-modify_new f ieee named ds (find-Absent ieee ds n) u)
]

-- With unique addresses, switching off the slot of an address leaves no slot with it.
pub Absent-leave : (ieee : ℕ) (ds : List Dev) → IsUnique ds → Absent ieee (leave_slot ieee ds)
unfolding leave_slot modify
Absent-leave ieee [] u = tt
Absent-leave ieee (d ∷ ds) u = elim (Bool-cases (has_ieee ieee d)) [
  | inl h ↦ rw h (refl, Absent-of_eq d.ieee_addr ieee ds (ground arith) (u.0 (ground arith)))
  | inr h ↦ rw h (h, Absent-leave ieee ds u.1)
]
