-- ===== src/Tests/Running.antt =====
-- A framework with a store that is one configuration, and runs of READY.
use zigbee_hub.Base.{
  ◌+◌, ◌≡◌, refl, arith, false, List, [], ◌∷◌, ◌⊎◌, none, some, replicate, ok, znp_reset_timeout,
  inr,
}
use zigbee_hub.Storage.{NetConfig}
use zigbee_hub.Storage.Config.{IsConfig}
use zigbee_hub.Event.{Event, button, single}
use zigbee_hub.Znp.Frame.{Frame}
use zigbee_hub.Command.{Cmd, permit_join, cmd_change_channel}
use zigbee_hub.Hub.{Hub}
use zigbee_hub.Framework.{ready, znp_init, count_retry, permit_join as joining}
use zigbee_hub.Framework.Bringup.{Defaults}
use zigbee_hub.Framework.Ready.{no_versions, ConfigStore, World, turn}
use zigbee_hub.Framework.Api.{network_info_get, network_param_set, default_button_handler}
use zigbee_hub.Framework.Task.{pass, handle_znp_init, Pass, task}
use zigbee_hub.Framework.Window.{task-closed}
use zigbee_hub.Framework.Restart.{turn_lem, TurnOutcome, any_restarts}
use zigbee_hub.Framework.Orders.{
  IsConfigStore, EndsReady, cmd_change_channel-turn, network_param_set-turn,
}
use zigbee_hub.Framework.Press.{default_button_handler-turn, button_request}

abbrev pub one_config : ConfigStore NetConfig
one_config = record { load = λ s out. (ok, s); save = λ cfg s. (ok, cfg) }

one_config-IsConfigStore : IsConfigStore one_config
one_config-IsConfigStore = record { load_saved = λ s cfg out v size e. refl }

abbrev pub home : NetConfig
home = record { pan_id = 0x1A62; channel = 15; nwk_key = replicate 16 0x0B; uart_baud = 115200 }

home-IsConfig : IsConfig home
home-IsConfig = record {
  pan_fits = omega arith;
  channel_fits = omega arith;
  baud_fits = omega arith;
  key_size = refl;
  key_bytes = ground arith;
}

abbrev pub still : Hub
still = record {
  devices = [];
  bus = record { table = []; notify_queue = [] };
  session = record { sent = []; answers = [] };
  storage_calls = [];
  zcl_seq = 0;
}

abbrev pub running : List Cmd → World NetConfig
running q = record {
  hub = still;
  commands = some q;
  store = home;
  state = ready;
  deadline = 0;
  active_pan_id = 0x1A62;
  active_channel = 15;
  versions = no_versions;
}

abbrev pub reset_ind : Frame
reset_ind = record { cmd_type = 0x41; cmd_id = 0x80; payload = []; payload_len = 0 }

turn_lem_example :
    TurnOutcome one_config 5 (some reset_ind) (permit_join 60 ∷ []) (running (permit_join 60 ∷ []))
turn_lem_example =
    turn_lem one_config 5 (some reset_ind) (permit_join 60 ∷ []) (running (permit_join 60 ∷ []))
      refl

accepted : (cmd_change_channel 20 (some (permit_join 9 ∷ []))).0 ≡ ok
unfolding cmd_change_channel
accepted = refl

opens_only : any_restarts (permit_join 9 ∷ []) ≡ false
unfolding any_restarts
opens_only = refl

cmd_change_channel-turn_example :
    EndsReady one_config 5 none
      (record (running (permit_join 9 ∷ [])) {
        commands = (cmd_change_channel 20 (some (permit_join 9 ∷ []))).1;
      })
      (λ s. one_config.load s home ≡ (ok, record home { channel = 20 }))
cmd_change_channel-turn_example =
    cmd_change_channel-turn one_config one_config-IsConfigStore 5 20 none (permit_join 9 ∷ [])
      (running (permit_join 9 ∷ [])) home home refl accepted opens_only refl home-IsConfig refl refl

none_restarts : any_restarts [] ≡ false
unfolding any_restarts
none_restarts = refl

moved-IsConfig : IsConfig (record home { channel = 20 })
moved-IsConfig = record {
  pan_fits = omega arith;
  channel_fits = omega arith;
  baud_fits = omega arith;
  key_size = refl;
  key_bytes = ground arith;
}

network_param_set-turn_example :
    ((network_param_set one_config (some (record home { channel = 20 })) (running [])).0 ≡ ok)
    × EndsReady one_config 5 none
        (network_param_set one_config (some (record home { channel = 20 })) (running [])).1
        (λ s. one_config.load s home ≡ (ok, record home { channel = 20 }))
network_param_set-turn_example =
    network_param_set-turn one_config one_config-IsConfigStore 5 none [] (running [])
      (record home { channel = 20 }) home refl (omega arith) none_restarts refl
      (inr (λ e. ground arith)) moved-IsConfig refl refl

abbrev press : Event
press = record { type = 6; payload = button single }

default_button_handler-turn_example :
    (w' : World NetConfig) × (turn one_config 5 none (default_button_handler press (running []))
      ≡ some (false, w'))
    × (w'.hub.session.sent ≡ button_request ∷ [])
    × ((network_info_get (5 + 10000) w').status ≡ joining)
    × ((network_info_get (5 + 10000) w').ttl ≡ 50)
default_button_handler-turn_example =
    default_button_handler-turn one_config 5 10000 press (running []) refl refl refl (omega arith)
      (omega arith)

-- A pass in which the coprocessor does not come out of reset.
abbrev silent : Pass
silent = record { reset = znp_reset_timeout; areqs = []; turns = [] }

abbrev factory : Defaults
factory = record { default_pan_id = 0x1111; default_channel = 15 }

abbrev lost : World NetConfig
lost = record (running []) { state = znp_init }

silent_runs : task one_config factory home (silent ∷ []) 0 (running []) ≡ some lost
unfolding task pass handle_znp_init count_retry
silent_runs = refl

task-closed_example : (lost.state ≡ ready) ⊎ ((network_info_get 9 lost).ttl ≡ 0)
task-closed_example =
    task-closed one_config factory home (silent ∷ []) 0 9 (running []) lost refl silent_runs
