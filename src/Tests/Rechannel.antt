-- ===== src/Tests/Rechannel.antt =====
-- A channel change, up to the network on the new channel.
use zigbee_hub.Tests.Object.{add_number_to, add_text_to, lacking, is_missing, is_missing_text}
use zigbee_hub.Base.{Option, List, ℕ, ◌≡◌, refl, arith, true, [], none, some, ok}
use zigbee_hub.Command.{cmd_change_channel}
use zigbee_hub.Framework.Bringup.{key_set}
use zigbee_hub.Framework.Ready.{World, turn}
use zigbee_hub.Framework.Task.{pass, serving}
use zigbee_hub.Framework.Reform.{Answers}
use zigbee_hub.Framework.Coprocessor.{Coprocessor, Cooperates, pass_of, script}
use zigbee_hub.Framework.Rechannel.{OnChannel, cmd_change_channel-pass}
use zigbee_hub.Tests.Coordinator.{accepting, coordinator_up, factory}
use zigbee_hub.Base.Names.{same}
use zigbee_hub.Storage.Config.{config_save, save_object, write_config, config_object, key_to_hex}
use zigbee_hub.Framework.{ready}
use zigbee_hub.Framework.Ready.{zero_config, no_versions}
use zigbee_hub.Framework.ConfigFile.{config_file, config_file-IsConfigStore}
use zigbee_hub.Tests.Object.{
  blank, same_number, same_text, same_object, read_object, or_zero, or_empty, spelled, tokens,
  tokens-IsJson,
}
use zigbee_hub.Tests.Configured.{good, created, home, home-IsConfig, home_saves, every-Prints}
use zigbee_hub.Tests.Running.{still}

abbrev agrees : Answers
agrees = record {
  cleared_pan = accepting;
  cleared_mask = accepting;
  cleared_key = accepting;
  role = accepting;
  pan = accepting;
  mask = accepting;
  keys_on = accepting;
  key = accepting;
  start = accepting;
}

abbrev chip : Coprocessor
chip = record {
  pan_id = 0x1A62;
  channel = 15;
  stale = [];
  more = [];
  pong = accepting;
  version = accepting;
  registered = accepting;
  answers = agrees;
  before = [];
  start_areq = coordinator_up;
  rest = [];
}

chip-Cooperates : Cooperates chip
chip-Cooperates = record {
  pan_small = omega arith;
  channel_low = omega arith;
  channel_high = omega arith;
  accepts = record {
    role_in = refl;
    pan_in = refl;
    mask_in = refl;
    keys_on_in = refl;
    key_in = refl;
  };
  others = tt;
  starts = refl;
  version_bytes = omega arith;
}

-- READY with the configuration in config.json.
abbrev stored : Option (List ℕ)
stored = (config_save tokens good home none).1

abbrev before : World (Option (List ℕ))
before = record {
  hub = record still { session = record { sent = []; answers = script chip } };
  commands = some [];
  store = stored;
  state = ready;
  deadline = 0;
  active_pan_id = 0x1A62;
  active_channel = 15;
  versions = no_versions;
}

home_loads : (config_file tokens good).load stored zero_config ≡ (ok, home)
unfolding config_file
home_loads =
    (config_file-IsConfigStore tokens good blank tokens-IsJson refl created every-Prints).load_saved
      none home zero_config home-IsConfig refl home_saves

change_saves : ((config_file tokens good).save (record home { channel = 20 }) stored).0 ≡ ok
unfolding config_file config_save save_object write_config tokens config_object same_object
    read_object spelled or_zero or_empty same_number same_text same key_to_hex blank add_number_to
    add_text_to lacking is_missing is_missing_text
change_saves = refl

may_move : (cmd_change_channel 20 (some [])).0 ≡ ok
unfolding cmd_change_channel
may_move = refl

home_key : key_set home.nwk_key ≡ true
unfolding key_set
home_key = refl

cmd_change_channel-pass_example :
    (w1 : World (Option (List ℕ))) × (w2 : World (Option (List ℕ))) × (turn
        (config_file tokens good)
        5
        none
        (record before { commands = (cmd_change_channel 20 (some [])).1 })
      ≡ some (true, w1))
    × (pass (config_file tokens good) factory home (pass_of chip) w1 ≡ some (serving, w2))
    × OnChannel (config_file tokens good) factory home 20 home chip [] before w2
cmd_change_channel-pass_example =
    cmd_change_channel-pass (config_file tokens good) factory home
      (config_file-IsConfigStore tokens good blank tokens-IsJson refl created every-Prints) 5 20
      none home chip [] before refl refl may_move refl home_loads home-IsConfig (λ e. ground arith)
      home_key change_saves chip-Cooperates (λ e. ground arith)
