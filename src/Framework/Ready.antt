-- ===== src/Framework/Ready.antt =====
-- components/zb_framework/zb_framework.c: the commands, the loop of `handle_ready`. The
-- configuration store is an interface.
use zigbee_hub.Base.{
  ℕ, Bool, true, false, ◌&&◌, List, [], ◌∷◌, Option, none, some, ◌==◌, if◌then◌else◌, replicate,
  EspErr,
}
use zigbee_hub.Znp.Mt.{subsys_sys_areq, sys_reset_ind_cmd}
use zigbee_hub.Storage.{NetConfig}
use zigbee_hub.Event.{Event, event_network_ready, event_network_lost, no_data}
use zigbee_hub.Znp.Frame.{Frame}
use zigbee_hub.Command.{Cmd, permit_join, change_channel, reconfigure, Commands}
use zigbee_hub.Network as Network
use zigbee_hub.Hub.{Hub, emit_event}
use zigbee_hub.Hub.Inbound.{on_areq}
use zigbee_hub.Framework.{State, ready, permit_join_deadline}

-- `zb_storage_config_load`, with what its argument points to, and `zb_storage_config_save`.
pub record ConfigStore (S : Type 0) : Type 0 where
  pub load : S → NetConfig → EspErr × NetConfig
  pub save : NetConfig → S → EspErr × S

-- `zb_versions_t`: two arrays of characters.
pub record Versions : Type 0 where
  pub esp32_fw : List ℕ
  pub cc26xx_fw : List ℕ

-- As the static arrays start.
abbrev pub no_versions : Versions
no_versions = record { esp32_fw = replicate 32 0; cc26xx_fw = replicate 64 0 }

-- The static state of the file, the device manager, the command queue and the store.
pub record World (S : Type 0) : Type 0 where
  pub hub : Hub
  pub commands : Commands
  pub store : S
  pub state : State
  pub deadline : ℕ
  pub active_pan_id : ℕ
  pub active_channel : ℕ
  pub versions : Versions

-- `zb_net_config_t cfg = {0};`
abbrev pub zero_config : NetConfig
zero_config = record { pan_id = 0; channel = 0; nwk_key = replicate 16 0; uart_baud = 0 }

abbrev pub ready_event : Event
ready_event = record { type = event_network_ready; payload = no_data }

abbrev pub lost_event : Event
lost_event = record { type = event_network_lost; payload = no_data }

abbrev pub is_reset_ind : Frame → Bool
is_reset_ind f = f.cmd_type == subsys_sys_areq && f.cmd_id == sys_reset_ind_cmd

module _ {S : Type 0} (C : ConfigStore S) where
  abbrev pub announce : Event → World S → World S
  announce e w = record w { hub = emit_event e w.hub }

  -- The result of zb_net_permit_join is not looked at.
  unfoldable pub open_window : ℕ → ℕ → World S → World S
  open_window now dur w = record w {
    hub = record w.hub { session = (Network.permit_join dur w.hub.session).1 };
    deadline = permit_join_deadline now dur;
  }

  -- The results of the load and of the save are not looked at.
  unfoldable pub store_channel : ℕ → World S → World S
  store_channel ch w =
      let cfg = (C.load w.store zero_config).1 in
      record w { store = (C.save (record cfg { channel = ch }) w.store).1 }

  -- `process_cmd`, at a tick count: whether to start again.
  unfoldable pub process_cmd : ℕ → Cmd → World S → Bool × World S
  process_cmd now (permit_join dur) w = (false, open_window now dur w)
  process_cmd now (change_channel ch) w = (true, store_channel ch w)
  process_cmd now reconfigure w = (true, w)

  -- What `handle_ready` does before it asks to start again.
  unfoldable pub lose : World S → World S
  lose w = announce lost_event (record w { deadline = 0 })

  -- The loop that drains the queue; a command that comes while it runs is taken for one that came
  -- before.
  unfoldable pub drain : ℕ → List Cmd → World S → Bool × World S
  drain now [] w = (false, record w { commands = some [] })
  drain now (c ∷ q) w =
      let (again, w') = process_cmd now c (record w { commands = some q }) in
      let rest = drain now q w' in if again then (true, lose w') else rest

  unfoldable pub drain_queue : ℕ → Commands → World S → Bool × World S
  drain_queue now none w = (false, w)
  drain_queue now (some q) w = drain now q w

  abbrev pub put_hub : World S → Option Hub → Option (Bool × World S)
  put_hub w none = none
  put_hub w (some h) = some (false, record w { hub = h })

  -- What is done with the AREQ that the round received within its time, if one came.
  unfoldable pub take_areq : Option Frame → World S → Option (Bool × World S)
  take_areq none w = some (false, w)
  take_areq (some f) w = if is_reset_ind f then some (true, lose w) else put_hub w (on_areq f w.hub)

  -- A round of the loop of `handle_ready`; `none` is a read behind an array in the device manager.
  unfoldable pub turn : ℕ → Option Frame → World S → Option (Bool × World S)
  turn now areq w =
      let (again, w') = drain_queue now w.commands w in
      if again then some (true, w') else take_areq areq w'

  unfoldable pub enter_ready : World S → World S
  enter_ready w = announce ready_event (record w { state = ready })
