-- ===== src/Event.antt =====
-- components/zb_device_mgr/zb_subscribe.c: the event bus. A callback and its context are pointers,
-- here numbers, with 0 for NULL. Each call runs under the mutex or on the queue, so a history is a
-- sequence of calls.
pub mod Delivery
pub mod Removal
pub mod Listener
pub mod Order
use zigbee_hub.Base.{
  ℕ, zero, suc, ◌+◌, ◌≤◌, Bool, true, false, not, ◌&&◌, ◌||◌, List, [], ◌∷◌, ◌++◌, Option, none,
  some, ltb, leb, ◌==◌, if◌then◌else◌, length, get_or, set, replicate, EspErr, ok, no_mem,
  invalid_arg,
}
use zigbee_hub.Zcl.{CapEvent}

-- `zb_button_event_kind_t`, the kinds that are emitted.
pub data ButtonKind : Type 0 where
  single double long : ButtonKind

-- The union `data` of `zb_event_t`.
pub data EventData : Type 0 where
  no_data : EventData
  device : ℕ → ℕ → EventData
  cap_report : CapEvent → EventData
  button : ButtonKind → EventData

-- `zb_event_t`; the type is an enum that C does not confine to its members.
pub record Event : Type 0 where
  pub type : ℕ
  pub payload : EventData

-- `zb_event_type_t`
abbrev pub event_network_ready : ℕ
event_network_ready = 0

abbrev pub event_network_lost : ℕ
event_network_lost = 1

abbrev pub event_device_joined : ℕ
event_device_joined = 2

abbrev pub event_device_left : ℕ
event_device_left = 3

abbrev pub event_cap_report : ℕ
event_cap_report = 4

abbrev pub event_button : ℕ
event_button = 6

abbrev pub event_type_max : ℕ
event_type_max = 7

abbrev pub max_event_subscribers : ℕ
max_event_subscribers = 16

abbrev pub notify_queue_depth : ℕ
notify_queue_depth = 32

-- `sub_slot_t`
pub record Slot : Type 0 where
  pub active : Bool
  pub cb : ℕ
  pub ctx : ℕ

pub record Bus : Type 0 where
  pub table : List (List Slot)
  pub notify_queue : List Event

-- `zb_subscribe_init`, when the FreeRTOS objects could be made.
unfoldable pub init : Bus
init = record {
  table =
      replicate event_type_max
        (replicate max_event_subscribers (record { active = false; cb = 0; ctx = 0 }));
  notify_queue = [];
}

-- The loop of `zb_subscribe` over the row of an event; `none` is a full row.
unfoldable pub take_slot : List Slot → ℕ → ℕ → Option (List Slot)
take_slot [] cb ctx = none
take_slot (s ∷ row) cb ctx =
    let rest = take_slot row cb ctx in
    if not s.active
    then some (record { active = true; cb = cb; ctx = ctx } ∷ row)
    else elim rest [ none ↦ none | some row' ↦ some (s ∷ row') ]

unfoldable pub store_row : Bus → ℕ → Option (List Slot) → EspErr × Bus
store_row b event none = (no_mem, b)
store_row b event (some row) = (ok, record b { table = set b.table event row })

unfoldable pub subscribe : Bus → ℕ → ℕ → ℕ → EspErr × Bus
unfolding store_row
subscribe b event cb ctx =
    if leb event_type_max event || cb == 0
    then (invalid_arg, b)
    else store_row b event (take_slot (get_or b.table event []) cb ctx)

-- The loop of `zb_unsubscribe`, which stops at the first match.
unfoldable pub clear_slot : List Slot → ℕ → List Slot
clear_slot [] cb = []
clear_slot (s ∷ row) cb =
    let rest = clear_slot row cb in
    if s.active && s.cb == cb then record s { active = false } ∷ row else s ∷ rest

unfoldable pub unsubscribe : Bus → ℕ → ℕ → EspErr × Bus
unsubscribe b event cb =
    if leb event_type_max event
    then (invalid_arg, b)
    else (ok, record b { table = set b.table event (clear_slot (get_or b.table event []) cb) })

-- `zb_event_emit`: what does not fit into the queue is dropped.
unfoldable pub emit : Event → Bus → Bus
emit event b =
    if leb event_type_max event.type
    then b
    else if ltb (length b.notify_queue) notify_queue_depth
    then record b { notify_queue = b.notify_queue ++ event ∷ [] }
    else b

-- A call of a callback with an event and its context.
pub record Call : Type 0 where
  pub cb : ℕ
  pub event : Event
  pub ctx : ℕ

unfoldable pub calls : List Slot → Event → List Call
calls [] event = []
calls (s ∷ row) event =
    let rest = calls row event in
    if s.active then record { cb = s.cb; event = event; ctx = s.ctx } ∷ rest else rest

unfoldable pub notify_next : Bus → List Event → List Call × Bus
notify_next b [] = ([], b)
notify_next b (event ∷ rest) = (
  if leb event_type_max event.type then [] else calls (get_or b.table event.type []) event,
  record b { notify_queue = rest },
)

-- One round of `notify_task`: the calls that it makes. An empty queue leaves it waiting.
unfoldable pub notify : Bus → List Call × Bus
unfolding notify_next
notify b = notify_next b b.notify_queue
