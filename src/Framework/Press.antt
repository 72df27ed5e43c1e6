-- ===== src/Framework/Press.antt =====
-- A press of the button (zb_framework.c).
use zigbee_hub.Base.{
  ℕ, ◌+◌, ◌-◌, ◌/◌, ◌^◌, ◌≤◌, ◌<◌, ◌≡◌, refl, ap, ◌∙◌, arith, true, false, [], ◌∷◌, ◌++◌, none,
  some, ok,
}
use zigbee_hub.Znp.Mt.{subsys_zdo, zdo_mgmt_permit_join_cmd}
use zigbee_hub.Event.{Event, button, single}
use zigbee_hub.Znp.Frame.{Frame, request, make_cmd_type, frame_type_sreq}
use zigbee_hub.Znp.Session.{Session, sent-send_sreq}
use zigbee_hub.Command.{permit_join, cmd_permit_join, cmd_permit_join_room}
use zigbee_hub.Network.{send, permit_join as net_permit_join}
use zigbee_hub.Framework.{
  ready, permit_join as joining, permit_join_deadline, status_of, permit_join_ttl,
  permit_join_ttl-permit_join_deadline,
}
use zigbee_hub.Framework.Ready.{
  ConfigStore, World, process_cmd, open_window, drain, drain_queue, take_areq, turn,
}
use zigbee_hub.Framework.Api.{
  is_single, button_permit_join_seconds, network_info_get, is_ready, default_button_handler,
}

-- The request that opens the window for the duration of a button press.
abbrev pub button_request : Frame
button_request =
    request (make_cmd_type subsys_zdo frame_type_sreq) zdo_mgmt_permit_join_cmd
      (0x0F ∷ 0xFC ∷ 0xFF ∷ button_permit_join_seconds ∷ 0x01 ∷ [])

permit_join-sent : (s : Session) → (net_permit_join 60 s).1.sent ≡ s.sent ++ button_request ∷ []
unfolding net_permit_join send
permit_join-sent s = sent-send_sreq button_request s (unfold request in omega arith)

window_left :
    (now elapsed : ℕ)
    → now + 60000 < 2 ^ 32 - 1
    → elapsed ≤ 59000
    → permit_join_ttl (now + elapsed) (permit_join_deadline now 60) ≡ (60000 - elapsed) / 1000
window_left now elapsed range left =
    permit_join_ttl-permit_join_deadline now 60 elapsed (omega arith) (omega arith) (omega arith)
      (omega arith)

press_queues :
    {S : Type 0} (e : Event) (w : World S)
    → e.payload ≡ button single
    → w.state ≡ ready
    → w.commands ≡ some []
    → default_button_handler e w ≡ record w { commands = some (permit_join 60 ∷ []) }
unfolding default_button_handler
press_queues e w press up empty =
    let one : is_single e.payload ≡ true = ap is_single press in
    let is_up : is_ready w.state ≡ true = ap is_ready up in
    let queued : cmd_permit_join 60 w.commands ≡ (ok, some (permit_join 60 ∷ [])) =
      ap (λ c. cmd_permit_join 60 c) empty ∙ cmd_permit_join_room 60 [] (omega arith) in
    ground (arith, one, is_up, queued)

module _ {S : Type 0} (C : ConfigStore S) where
  -- A single press in READY, with no command waiting and no AREQ in the next turn: that turn sends
  -- the broadcast that opens the network for 60 seconds, stays READY, and from then on
  -- zb_network_info_get shows an open window with the whole seconds that are left, as long as the
  -- ticks do not wrap and at least a second is left.
  pub default_button_handler-turn :
      (now elapsed : ℕ) (e : Event) (w : World S)
      → e.payload ≡ button single
      → w.state ≡ ready
      → w.commands ≡ some []
      → now + 60000 < 2 ^ 32 - 1
      → elapsed ≤ 59000
      → (w' : World S) × (turn C now none (default_button_handler e w) ≡ some (false, w'))
        × (w'.hub.session.sent ≡ w.hub.session.sent ++ button_request ∷ [])
        × ((network_info_get (now + elapsed) w').status ≡ joining)
        × ((network_info_get (now + elapsed) w').ttl ≡ (60000 - elapsed) / 1000)
  unfolding turn drain_queue drain process_cmd open_window take_areq network_info_get
  default_button_handler-turn now elapsed e w press up empty range left =
      let ttl = window_left now elapsed range left in
      let waiting : World S = record w { commands = some [] } in
      (
        record (open_window C now 60 waiting) { commands = some [] },
        rw (press_queues e w press up empty) refl,
        permit_join-sent w.hub.session,
        rw (up, ttl) (unfold status_of in ground arith),
        ttl,
      )
