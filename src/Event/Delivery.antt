-- ===== src/Event/Delivery.antt =====
-- The calls that subscribers get for an event (zb_subscribe.c).
use zigbee_hub.Base.{
  ℕ, ◌<◌, ◌≡◌, refl, sym, ap, ◌≢◌, true, false, List, [], ◌∷◌, ◌++◌, some, arith, length, get_or,
  set, get_or-set_self, get_or-set_ne, ok, Bool-cases, inl, inr, Option-cases,
}
use zigbee_hub.Event.{Slot, Bus, Event, Call, take_slot, subscribe, calls, event_type_max}

abbrev pub call : ℕ → Event → ℕ → Call
call cb event ctx = record { cb = cb; event = event; ctx = ctx }

-- `new` is `old` with one call put in somewhere.
abbrev pub Inserted : Call → List Call → List Call → Type 0
Inserted c old new = (xs : List Call) × (ys : List Call) × (old ≡ xs ++ ys) × (new ≡ xs ++ c ∷ ys)

pub Inserted-cons :
    (c d : Call) {old new : List Call} → Inserted c old new → Inserted c (d ∷ old) (d ∷ new)
Inserted-cons c d (xs, ys, p, q) = (d ∷ xs, ys, ap (◌∷◌ d) p, ap (◌∷◌ d) q)

pub calls_active :
    (s : Slot) (row : List Slot) (event : Event)
    → s.active ≡ true
    → calls (s ∷ row) event ≡ call s.cb event s.ctx ∷ calls row event
unfolding calls
calls_active s row event a = ground arith

pub calls_inactive :
    (s : Slot) (row : List Slot) (event : Event)
    → s.active ≡ false
    → calls (s ∷ row) event ≡ calls row event
unfolding calls
calls_inactive s row event a = ground arith

take_slot_active :
    (s : Slot) (row row' : List Slot) (cb ctx : ℕ)
    → s.active ≡ true
    → take_slot (s ∷ row) cb ctx ≡ some row'
    → (rest : List Slot) × (take_slot row cb ctx ≡ some rest) × (row' ≡ s ∷ rest)
unfolding take_slot
take_slot_active s row row' cb ctx a e = elim (Option-cases (take_slot row cb ctx)) [
  | inl n ↦ ground arith
  | inr (rest, f) ↦ (rest, f, ground arith)
]

take_slot_inactive :
    (s : Slot) (row row' : List Slot) (cb ctx : ℕ)
    → s.active ≡ false
    → take_slot (s ∷ row) cb ctx ≡ some row'
    → row' ≡ record { active = true; cb = cb; ctx = ctx } ∷ row
unfolding take_slot
take_slot_inactive s row row' cb ctx a e = ground arith

take_slot-calls :
    (row row' : List Slot) (cb ctx : ℕ) (event : Event)
    → take_slot row cb ctx ≡ some row'
    → Inserted (call cb event ctx) (calls row event) (calls row' event)
take_slot-calls [] row' cb ctx event e = absurd (unfold take_slot in cc)
take_slot-calls (s ∷ row) row' cb ctx event e = elim (Bool-cases s.active) [
  | inl a ↦
      let kept = take_slot_active s row row' cb ctx a e in
      rw (kept.2, calls_active s row event a, calls_active s kept.0 event a)
        (Inserted-cons (call cb event ctx) (call s.cb event s.ctx)
          (take_slot-calls row kept.0 cb ctx event kept.1))
  | inr a ↦
      let new : Slot = record { active = true; cb = cb; ctx = ctx } in
      rw
        (
          take_slot_inactive s row row' cb ctx a e,
          calls_active new row event refl,
          calls_inactive s row event a,
        )
        ([], calls row event, refl, refl)
]

-- The calls that an event would lead to now.
abbrev pub deliveries : Bus → Event → List Call
deliveries b event = calls (get_or b.table event.type []) event

pub subscribe_ok :
    (b b' : Bus) (t cb ctx : ℕ)
    → subscribe b t cb ctx ≡ (ok, b')
    → (row : List Slot) × (take_slot (get_or b.table t []) cb ctx ≡ some row)
      × (b' ≡ record b { table = set b.table t row })
      × (t < event_type_max)
      × (0 < cb)
unfolding subscribe
subscribe_ok b b' t cb ctx e = elim (Option-cases (take_slot (get_or b.table t []) cb ctx)) [
  | inl n ↦ ground arith
  | inr (row, f) ↦ (row, f, ground arith, ground arith, ground arith)
]

row_set :
    (table : List (List Slot)) (t i : ℕ) (row : List Slot)
    → i ≡ t
    → t < length table
    → get_or (set table t row) i [] ≡ row
row_set table t i row e h = rw e (get_or-set_self table t row [] h)

-- After a successful subscription in a whole table an event of that type leads to one call more,
-- the new callback's with its context; the calls for it that there were keep their order, the calls
-- for any other type are what they were, and no waiting event is lost.
pub subscribe-deliveries :
    (b b' : Bus) (t cb ctx : ℕ)
    → length b.table ≡ event_type_max
    → subscribe b t cb ctx ≡ (ok, b')
    → ((event : Event)
        → event.type ≡ t
        → Inserted (call cb event ctx) (deliveries b event) (deliveries b' event))
      × ((event : Event) → event.type ≢ t → deliveries b' event ≡ deliveries b event)
      × (b'.notify_queue ≡ b.notify_queue)
subscribe-deliveries b b' t cb ctx size e =
    let parts = subscribe_ok b b' t cb ctx e in
    let row = parts.0 in
    (
      λ event same.
          rw
            (
              parts.2,
              row_set b.table t event.type row same (omega (arith, parts.3)),
              ap (λ i. get_or b.table i []) same,
            )
            (take_slot-calls (get_or b.table t []) row cb ctx event parts.1),
      λ event other.
          rw (parts.2, get_or-set_ne b.table t event.type row [] (λ s. other (sym s))) refl,
      rw parts.2 refl,
    )
