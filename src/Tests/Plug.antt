-- ===== src/Tests/Plug.antt =====
-- A registry of a plug and a free slot.
use zigbee_hub.Base.{true, false, [], ◌∷◌, replicate}
use zigbee_hub.Event.{init}
use zigbee_hub.Device.{Dev}
use zigbee_hub.Hub.{Hub}

abbrev pub plug : Dev
plug = record {
  active = true;
  ieee_addr = 7;
  nwk_addr = 0x1234;
  num_caps = 0;
  caps = replicate 64 0;
}

abbrev pub spare : Dev
spare = record { active = false; ieee_addr = 0; nwk_addr = 0; num_caps = 0; caps = replicate 64 0 }

abbrev pub hub : Hub
hub = record {
  devices = plug ∷ spare ∷ [];
  bus = init;
  session = record { sent = []; answers = [] };
  storage_calls = [];
  zcl_seq = 0;
}
