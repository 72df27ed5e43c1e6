-- ===== src/Framework/Api.antt =====
-- components/zb_framework/zb_framework.c: the calls that other tasks make, and the set-up. What the
-- set-up of the other parts answers is an argument, in the order of the calls.
use zigbee_hub.Base.{
  ℕ, ◌%◌, ◌^◌, Bool, true, false, not, ◌&&◌, ◌||◌, Option, none, some, ◌==◌, if◌then◌else◌, EspErr,
  ok, no_mem, invalid_arg, invalid_state, is_ok, first_error,
}
use zigbee_hub.Storage.{NetConfig}
use zigbee_hub.Event.{Bus, Event, EventData, button, single, subscribe, event_button}
use zigbee_hub.Command.{cmd_permit_join, cmd_reconfigure}
use zigbee_hub.Device.{count_active}
use zigbee_hub.Framework.{State, Status, ready, permit_join_ttl, status_of}
use zigbee_hub.Base.{List}
use zigbee_hub.Base.Strings.{strncpy}
use zigbee_hub.Framework.Ready.{Versions, ConfigStore, World}

abbrev pub is_ready : State → Bool
is_ready ready = true
is_ready s = false

-- `zb_network_info_t`
pub record NetworkInfo : Type 0 where
  pub status : Status
  pub fw_state : State
  pub pan_id : ℕ
  pub channel : ℕ
  pub device_count : ℕ
  pub ttl : ℕ

-- `CONFIG_ZB_BUTTON_PERMIT_JOIN_SECONDS`
abbrev pub button_permit_join_seconds : ℕ
button_permit_join_seconds = 60

abbrev pub is_single : EventData → Bool
is_single (button single) = true
is_single d = false

module _ {S : Type 0} where
  -- `zb_network_info_get` at a tick count, with a place to write to.
  unfoldable pub network_info_get : ℕ → World S → NetworkInfo
  network_info_get now w = record {
    status = status_of w.state (permit_join_ttl now w.deadline);
    fw_state = w.state;
    pan_id = w.active_pan_id;
    channel = w.active_channel;
    device_count = count_active w.hub.devices % 2 ^ 16;
    ttl = permit_join_ttl now w.deadline;
  }

  -- `zb_framework_get_state`
  unfoldable pub framework_get_state : World S → State
  framework_get_state w = w.state

  -- `default_button_handler`; the result of zb_cmd_permit_join is not looked at.
  unfoldable pub default_button_handler : Event → World S → World S
  default_button_handler e w =
      if is_single e.payload && is_ready w.state
      then record w { commands = (cmd_permit_join button_permit_join_seconds w.commands).1 }
      else w

  module _ (C : ConfigStore S) where
    -- `zb_network_param_set`; `none` is NULL.
    unfoldable pub network_param_set : Option NetConfig → World S → EspErr × World S
    network_param_set none w = (invalid_arg, w)
    network_param_set (some cfg) w =
        let (e, store) = C.save cfg w.store in
        let saved = record w { store = store } in
        let (sent, commands) = cmd_reconfigure w.commands in
        let changed =
          not (cfg.pan_id == w.active_pan_id) || not (cfg.channel == w.active_channel) in
        if not (is_ok e)
        then (e, saved)
        else if is_ready w.state && changed
        then (sent, record saved { commands = commands })
        else (ok, saved)

-- What the parts of `zb_framework_init` answer.
-- `app_desc` is the version in what esp_app_get_description answers; `none` is NULL.
pub record SetUp : Type 0 where
  pub app_desc : Option (List ℕ)
  pub storage : EspErr
  pub cmd : EspErr
  pub dev_mgr : EspErr
  pub button : EspErr
  pub transport : EspErr

unfoldable pub copy_desc : Option (List ℕ) → Versions → Versions
copy_desc none v = v
copy_desc (some version) v = record v { esp32_fw = strncpy v.esp32_fw version 31 }

-- `zb_framework_init`, with `s_initialized` and `s_versions`; the button is not needed.
unfoldable pub framework_init : SetUp → Bool × Versions → EspErr × (Bool × Versions)
framework_init s (true, v) = (invalid_state, (true, v))
framework_init s (false, v) =
    let e = first_error s.storage (first_error s.cmd (first_error s.dev_mgr s.transport)) in
    (e, (is_ok e, copy_desc s.app_desc v))

-- `zb_framework_get_versions`: whether there is a place to write to, and what is written.
unfoldable pub framework_get_versions : Bool → Versions → EspErr × Option Versions
framework_get_versions false v = (invalid_arg, none)
framework_get_versions true v = (ok, some v)

-- The default handler, as a callback.
abbrev pub button_cb : ℕ
button_cb = 1

-- `zb_framework_start`: `btn` is what zb_button_start answers, `created` whether the task was.
unfoldable pub framework_start : EspErr → Bool → Bool → Bus → EspErr × Bus
framework_start btn created false b = (invalid_state, b)
framework_start btn created true b =
    let subscribed = (subscribe b event_button button_cb 0).1 in
    (if created then ok else no_mem, if is_ok btn then subscribed else b)
