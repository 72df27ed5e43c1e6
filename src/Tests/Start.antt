-- ===== src/Tests/Start.antt =====
-- The application subscribes to the bus of a hub that has just started.
use zigbee_hub.Base.{
  ℕ, zero, suc, ◌≤◌, ◌≡◌, refl, arith, length, get_or, ◌++◌, ◌∷◌, true, false, fail, List, [], some,
  ok, set, replicate,
}
use zigbee_hub.Event.Delivery.{deliveries}
use zigbee_hub.Event.Listener.{calls_of, expected}
use zigbee_hub.Event.Order.{
  Act, emits, notifies, subscribes, act, acts_on, accepted, acts_on-in_order,
}
use zigbee_hub.Event.{
  calls, Event, init, notify_next, Bus, Slot, subscribe, take_slot, store_row, emit, notify,
  event_network_ready,
}
use zigbee_hub.Command.{cmd_permit_join}
use zigbee_hub.Framework.Ready.{ready_event, lost_event}
use zigbee_hub.Framework.{forming, ready}
use zigbee_hub.Framework.Api.{SetUp}
use zigbee_hub.App.Boot.{Nvs, nvs_ok, no_free_pages, Booted, app_main, app_main_lem}
use zigbee_hub.App.{network_cb, run_calls, notify-subscribe}

abbrev row : List Slot
row = replicate 16 (record { active = false; cb = 0; ctx = 0 })

abbrev quiet : Bus
quiet = record { table = replicate 7 row; notify_queue = [] }

abbrev subscribed : Bus
subscribed = record quiet {
  table = set quiet.table 0 (set row 0 (record { active = true; cb = network_cb; ctx = 0 }));
}

takes : subscribe quiet event_network_ready network_cb 0 ≡ (ok, subscribed)
unfolding subscribe take_slot store_row
takes = refl

notify-subscribe_example :
    (run_calls (notify (emit ready_event quiet)).0 (some []) ≡ some [])
    × (run_calls (notify (emit ready_event subscribed)).0 (some [])
        ≡ (cmd_permit_join 60 (some [])).1)
notify-subscribe_example =
    notify-subscribe quiet subscribed (some []) refl refl (unfold calls in refl) takes

abbrev history : List Act
history =
    emits ready_event
    ∷ subscribes event_network_ready 5 0
    ∷ notifies
    ∷ emits lost_event
    ∷ emits ready_event
    ∷ []

quiet_calls : (event : Event) → calls_of network_cb (deliveries quiet event) ≡ []
unfolding calls calls_of
quiet_calls event = no_calls event.type
  where
    no_calls : (i : ℕ) → calls_of network_cb (calls (get_or quiet.table i []) event) ≡ []
    no_calls zero = refl
    no_calls (suc zero) = refl
    no_calls (suc (suc zero)) = refl
    no_calls (suc (suc (suc zero))) = refl
    no_calls (suc (suc (suc (suc zero)))) = refl
    no_calls (suc (suc (suc (suc (suc zero))))) = refl
    no_calls (suc (suc (suc (suc (suc (suc zero)))))) = refl
    no_calls (suc (suc (suc (suc (suc (suc (suc i))))))) = refl

acts_on-in_order_example :
    (expected event_network_ready network_cb 0 (accepted 0 history)
      ≡ calls_of network_cb (acts_on history subscribed).0
        ++ expected event_network_ready network_cb 0 (acts_on history subscribed).1.notify_queue)
    × (length (acts_on history subscribed).1.notify_queue ≤ 32)
acts_on-in_order_example =
    acts_on-in_order quiet subscribed event_network_ready network_cb 0 history refl refl quiet_calls
      takes (tt, (omega arith, (tt, (tt, (tt, tt)))))

-- The subscriber is called for the first of the two events; the second waits.
heard :
    (calls_of network_cb (acts_on history subscribed).0
      ≡ record { cb = network_cb; event = ready_event; ctx = 0 } ∷ [])
    × ((acts_on history subscribed).1.notify_queue ≡ lost_event ∷ ready_event ∷ [])
unfolding acts_on act emit notify notify_next subscribe take_slot store_row calls calls_of
heard = (refl, refl)

-- NVS asks for an erase, and the button is missing.
abbrev erased : Nvs
erased = record { first = no_free_pages; erased = true; second = nvs_ok }

abbrev no_button : SetUp
no_button = record {
  app_desc = some (0x31 ∷ 0x2E ∷ 0x30 ∷ []);
  storage = ok;
  cmd = ok;
  dev_mgr = ok;
  button = fail;
  transport = ok;
}

app_main_lem_example :
    Booted erased no_button fail true
      (forming ∷ ready ∷ [])
      (app_main erased no_button fail true (forming ∷ ready ∷ []) init)
app_main_lem_example = app_main_lem erased no_button fail true (forming ∷ ready ∷ [])
