-- ===== src/Tests/Configured.antt =====
-- A concrete JSON object, and runs on config.json.
use zigbee_hub.Tests.Object.{
  add_number_to, add_text_to, lacking, is_missing, is_missing_text, Object,
}
use zigbee_hub.Storage.Config.{IsBuilt}
use zigbee_hub.Base.{ℕ, ◌≡◌, refl, arith, true, List, ◌∷◌, none, some, ok, replicate, ==_refl}
use zigbee_hub.Base.Names.{same, same_iff}
use zigbee_hub.Storage.{NetConfig}
use zigbee_hub.Storage.Files.{Conditions}
use zigbee_hub.Storage.Config.{
  IsConfig, config_load, config_save, config_object, key_to_hex, save_object, write_config,
}
use zigbee_hub.Framework.ConfigFile.{Prints}
use zigbee_hub.Storage.RoundTrip.{config_load-config_save}
use zigbee_hub.Tests.Object.{
  blank, same_number, same_text, same_object, read_object, or_zero, or_empty, spelled, tokens,
  tokens-IsJson,
}

abbrev pub home : NetConfig
home = record { pan_id = 0x1A62; channel = 15; nwk_key = replicate 16 0x0B; uart_baud = 115200 }

abbrev pub good : Conditions
good = record {
  memory = true;
  opens = true;
  taken = 4096;
  closed = λ bytes old. some bytes;
  removes = true;
}

pub created : tokens.create ≡ some blank
unfolding tokens
created = refl

pub home-IsConfig : IsConfig home
home-IsConfig = record {
  pan_fits = omega arith;
  channel_fits = omega arith;
  baud_fits = omega arith;
  key_size = refl;
  key_bytes = ground arith;
}

pub home_saves : (config_save tokens good home none).0 ≡ ok
unfolding config_save save_object write_config tokens config_object same_object read_object spelled
    or_zero or_empty same_number same_text same key_to_hex blank add_number_to add_text_to lacking
    is_missing is_missing_text
home_saves = refl

same_self : (xs : List ℕ) → same xs xs ≡ true
same_self xs = (same_iff xs xs).1 refl

-- The four members of a configuration in a new object.
filled : NetConfig → Object
filled cfg = record blank {
  pan_number = some cfg.pan_id;
  channel_number = some cfg.channel;
  key_text = some (key_to_hex cfg.nwk_key);
  baud_number = some cfg.uart_baud;
}

config_object-IsBuilt :
    (cfg : NetConfig)
    → IsBuilt tokens cfg blank (cfg.pan_id ∷ cfg.channel ∷ cfg.uart_baud ∷ key_to_hex cfg.nwk_key)
unfolding tokens same_object read_object spelled or_zero or_empty same_number same_text blank
    add_number_to add_text_to lacking is_missing is_missing_text filled
config_object-IsBuilt cfg = record {
  with_pan = record blank { pan_number = some cfg.pan_id };
  with_channel = record blank { pan_number = some cfg.pan_id; channel_number = some cfg.channel };
  with_key = record blank {
    pan_number = some cfg.pan_id;
    channel_number = some cfg.channel;
    key_text = some (key_to_hex cfg.nwk_key);
  };
  whole = filled cfg;
  pan_in = refl;
  channel_in = refl;
  key_in = refl;
  baud_in = refl;
  printed =
      rw
        (
          ==_refl cfg.pan_id,
          ==_refl cfg.channel,
          ==_refl cfg.uart_baud,
          same_self (key_to_hex cfg.nwk_key),
        )
        refl;
}

pub every-Prints : (cfg : NetConfig) → IsConfig cfg → Prints tokens good blank cfg
every-Prints cfg v = record {
  json = cfg.pan_id ∷ cfg.channel ∷ cfg.uart_baud ∷ key_to_hex cfg.nwk_key;
  built = config_object-IsBuilt cfg;
  stored = λ file. refl;
}

config_load-config_save_example :
    config_load tokens good (config_save tokens good home none).1 home ≡ (ok, home)
config_load-config_save_example =
    config_load-config_save tokens tokens-IsJson good good home home none blank
      (home.pan_id ∷ home.channel ∷ home.uart_baud ∷ key_to_hex home.nwk_key) home-IsConfig refl
      refl created (config_object-IsBuilt home) refl home_saves
