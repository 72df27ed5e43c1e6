-- ===== src/Event/Removal.antt =====
-- What `zb_unsubscribe` changes of the calls (zb_subscribe.c).
use zigbee_hub.Base.{
  ℕ, ◌<◌, ◌≡◌, refl, sym, ◌≢◌, true, false, ◌&&◌, List, [], ◌∷◌, arith, length, get_or,
  get_or-set_self, get_or-set_ne, leb, ◌==◌, ok, Bool-cases, inl, inr, ◌⊎◌, All,
}
use zigbee_hub.Event.{Slot, Bus, Event, Call, clear_slot, unsubscribe, calls, event_type_max}
use zigbee_hub.Event.Delivery.{
  call, Inserted, Inserted-cons, calls_active, calls_inactive, deliveries,
}

abbrev pub Unlisted : ℕ → List Slot → Type 0
Unlisted cb = All (λ s. s.active ≡ true → s.cb ≢ cb)

clear_slot_hit :
    (s : Slot) (row : List Slot) (cb : ℕ)
    → s.active ≡ true
    → s.cb ≡ cb
    → clear_slot (s ∷ row) cb ≡ record s { active = false } ∷ row
unfolding clear_slot
clear_slot_hit s row cb a e = ground arith

clear_slot_miss :
    (s : Slot) (row : List Slot) (cb : ℕ)
    → (s.active && s.cb == cb) ≡ false
    → clear_slot (s ∷ row) cb ≡ s ∷ clear_slot row cb
unfolding clear_slot
clear_slot_miss s row cb e = ground arith

-- What clearing does to the calls of a row: it takes out one call of the callback if there is one.
abbrev pub Cleared : List Slot → List Slot → ℕ → Type 0
Cleared row row' cb =
    (((event : Event) → calls row' event ≡ calls row event) × Unlisted cb row)
    ⊎ ((ctx : ℕ) × ((event : Event)
          → Inserted (call cb event ctx) (calls row' event) (calls row event)))

calls_front :
    (s : Slot) (row row' : List Slot) (event : Event)
    → calls row' event ≡ calls row event
    → calls (s ∷ row') event ≡ calls (s ∷ row) event
unfolding calls
calls_front s row row' event e = rw e

Inserted-front :
    (s : Slot) (row row' : List Slot) (c : Call) (event : Event)
    → Inserted c (calls row' event) (calls row event)
    → Inserted c (calls (s ∷ row') event) (calls (s ∷ row) event)
Inserted-front s row row' c event i = elim (Bool-cases s.active) [
  | inl a ↦
      rw (calls_active s row event a, calls_active s row' event a)
        (Inserted-cons c (call s.cb event s.ctx) i)
  | inr a ↦ rw (calls_inactive s row event a, calls_inactive s row' event a) i
]

Cleared-front :
    (s : Slot) (row row' : List Slot) (cb : ℕ)
    → (s.active ≡ true → s.cb ≢ cb)
    → Cleared row row' cb
    → Cleared (s ∷ row) (s ∷ row') cb
Cleared-front s row row' cb miss (inl (same, none_left)) =
    inl (λ event. calls_front s row row' event (same event), (miss, none_left))
Cleared-front s row row' cb miss (inr (ctx, ins)) =
    inr (ctx, λ event. Inserted-front s row row' (call cb event ctx) event (ins event))

clear_slot-Cleared : (row : List Slot) (cb : ℕ) → Cleared row (clear_slot row cb) cb
clear_slot-Cleared [] cb = inl (λ event. unfold clear_slot in refl, tt)
clear_slot-Cleared (s ∷ row) cb = elim (Bool-cases (s.active && s.cb == cb)) [
  | inl hit ↦
      let a : s.active ≡ true = ground arith in
      let same : s.cb ≡ cb = ground arith in
      rw (clear_slot_hit s row cb a same) (
        inr (
          s.ctx,
          λ event.
              rw
                (
                  calls_active s row event a,
                  calls_inactive (record s { active = false }) row event refl,
                  same,
                )
                ([], calls row event, refl, refl),
        ))
  | inr miss ↦
      rw (clear_slot_miss s row cb miss) (
        Cleared-front s row (clear_slot row cb) cb (λ a e. ground arith)
          (clear_slot-Cleared row cb))
]

-- `zb_unsubscribe` of a known type takes one call of the callback out of those for that type; if it
-- changes none, no active slot of the type has the callback. Other types and the waiting events
-- are left alone.
pub unsubscribe-deliveries :
    (b : Bus) (t cb : ℕ)
    → length b.table ≡ event_type_max
    → t < event_type_max
    → let b' = (unsubscribe b t cb).1 in
      Cleared (get_or b.table t []) (get_or b'.table t []) cb
      × ((event : Event) → event.type ≢ t → deliveries b' event ≡ deliveries b event)
      × (b'.notify_queue ≡ b.notify_queue)
      × ((unsubscribe b t cb).0 ≡ ok)
unfolding unsubscribe
unsubscribe-deliveries b t cb size h =
    let row = clear_slot (get_or b.table t []) cb in
    let in_range : leb event_type_max t ≡ false = ground arith in
    rw in_range (
      rw (get_or-set_self b.table t row [] (omega arith))
          (clear_slot-Cleared (get_or b.table t []) cb),
      λ event other. rw (get_or-set_ne b.table t event.type row [] (λ s. other (sym s))) refl,
      refl,
      refl,
    )
