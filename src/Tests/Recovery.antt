-- ===== src/Tests/Recovery.antt =====
-- A reset of the coprocessor in READY, up to READY again.
use zigbee_hub.Base.{◌≡◌, refl, arith, true, [], ◌∷◌, some, replicate}
use zigbee_hub.Storage.{NetConfig}
use zigbee_hub.Framework.Bringup.{load_net_config, key_set}
use zigbee_hub.Framework.Ready.{World, turn}
use zigbee_hub.Framework.Task.{pass, serving, stored_config}
use zigbee_hub.Framework.Recovery.{
  Rejoining, Recovers, rejoin_script, rejoin_pass, pass-turn_resumes,
}
use zigbee_hub.Tests.Coordinator.{accepting, announced, coordinator_up, factory}
use zigbee_hub.Tests.Running.{one_config, home, running, reset_ind}

abbrev chip_back : Rejoining
chip_back = record {
  pong = accepting;
  version = accepting;
  registered = accepting;
  stale = [];
  more = [];
  resp = accepting;
  before = announced ∷ [];
  start_areq = coordinator_up;
  rest = [];
}

abbrev serving_home : World NetConfig
serving_home = record (running []) {
  hub = record (running []).hub {
    session = record { sent = []; answers = rejoin_script 0x1A62 15 chip_back };
  };
}

home_loaded :
    load_net_config factory home (stored_config one_config factory home home)
    ≡ (0x1A62, 15, replicate 16 0x0B)
unfolding load_net_config stored_config key_set
home_loaded = refl

pass-turn_resumes_example :
    (w1 : World NetConfig) × (w2 : World NetConfig) × (turn one_config 5
        (some reset_ind)
        serving_home
      ≡ some (true, w1))
    × (pass one_config factory home (rejoin_pass chip_back) w1 ≡ some (serving, w2))
    × Recovers one_config factory home 0x1A62 15 [] serving_home w2
pass-turn_resumes_example =
    pass-turn_resumes one_config factory home 5 0x1A62 15 (replicate 16 0x0B) reset_ind chip_back []
      serving_home refl refl refl home_loaded (omega arith) (omega arith) (omega arith) (refl, tt)
      refl
