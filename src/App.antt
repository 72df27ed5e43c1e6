-- ===== src/App.antt =====
-- main/main.c: the callbacks and the subscriptions of `app_main`. What the callbacks print is left
-- out.
pub mod Boot
use zigbee_hub.Base.{ℕ, ◌≡◌, refl, ap, ◌∙◌, arith, List, [], ◌∷◌, ◌==◌, if◌then◌else◌, length, ok}
use mathlib.Core.Path.{subst}
use zigbee_hub.Event.{
  Bus, Event, Call, subscribe, emit, notify, notify_next, event_network_ready, event_network_lost,
  event_device_joined, event_device_left, event_cap_report, event_type_max,
}
use zigbee_hub.Event.Delivery.{deliveries, subscribe-deliveries, Inserted, call}
use zigbee_hub.Command.{Commands, cmd_permit_join}
use zigbee_hub.Framework.Ready.{ready_event}

abbrev pub network_cb : ℕ
network_cb = 2

abbrev pub cap_cb : ℕ
cap_cb = 3

-- `on_network_event`, which does not look at the result of zb_cmd_permit_join.
unfoldable pub on_network_event : Event → Commands → Commands
on_network_event e q = if e.type == event_network_ready then (cmd_permit_join 60 q).1 else q

-- The subscriptions at the end of `app_main`, whose results are not looked at.
unfoldable pub app_subscribe : Bus → Bus
app_subscribe b =
    let b1 = (subscribe b event_network_ready network_cb 0).1 in
    let b2 = (subscribe b1 event_network_lost network_cb 0).1 in
    let b3 = (subscribe b2 event_device_joined network_cb 0).1 in
    let b4 = (subscribe b3 event_device_left network_cb 0).1 in
    (subscribe b4 event_cap_report cap_cb 0).1

-- What calls of callbacks do to the command queue, where they are those of the application.
unfoldable pub run_calls : List Call → Commands → Commands
run_calls [] q = q
run_calls (c ∷ cs) q = run_calls cs (if c.cb == network_cb then on_network_event c.event q else q)

only_call : (c : Call) (new : List Call) → Inserted c [] new → new ≡ c ∷ []
only_call c new ([], [], p, q) = q
only_call c new ([], y ∷ ys, p, q) = ground arith
only_call c new (x ∷ xs, ys, p, q) = ground arith

notify_one :
    (b : Bus) → b.notify_queue ≡ [] → (notify (emit ready_event b)).0 ≡ deliveries b ready_event
unfolding notify notify_next
notify_one b e =
    let sent : emit ready_event b ≡ record b { notify_queue = ready_event ∷ [] } =
      unfold emit in ground arith in
    ap (λ x. (notify x).0) sent

-- The order of the first NETWORK_READY and of the subscription decides: with no subscriber and no
-- event waiting, an event that is delivered before `on_network_event` is subscribed leaves the
-- command queue as it is, and one that comes after a subscription that succeeds asks for a join
-- window of 60 seconds.
pub notify-subscribe :
    (b b' : Bus) (q : Commands)
    → length b.table ≡ event_type_max
    → b.notify_queue ≡ []
    → deliveries b ready_event ≡ []
    → subscribe b event_network_ready network_cb 0 ≡ (ok, b')
    → (run_calls (notify (emit ready_event b)).0 q ≡ q)
      × (run_calls (notify (emit ready_event b')).0 q ≡ (cmd_permit_join 60 q).1)
unfolding run_calls on_network_event
notify-subscribe b b' q size idle quiet e =
    let (more, others, waiting) =
      subscribe-deliveries b b' event_network_ready network_cb 0 size e in
    let one : Inserted (call network_cb ready_event 0) [] (deliveries b' ready_event) =
      subst (λ old. Inserted (call network_cb ready_event 0) old (deliveries b' ready_event)) quiet
        (more ready_event refl) in
    (
      ap (λ cs. run_calls cs q) (notify_one b idle ∙ quiet),
      ap (λ cs. run_calls cs q)
          (notify_one b' (waiting ∙ idle) ∙ only_call (call network_cb ready_event 0) _ one),
    )
