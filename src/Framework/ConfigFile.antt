-- ===== src/Framework/ConfigFile.antt =====
-- config.json as the store of the framework (zb_storage_config.c behind zb_framework.c).
use zigbee_hub.Base.{ℕ, ◌≡◌, true, List, Option, some}
use zigbee_hub.Storage.{NetConfig}
use zigbee_hub.Storage.Files.{Conditions}
use zigbee_hub.Storage.Config.{Json, IsJson, IsConfig, IsBuilt, config_load, config_save}
use zigbee_hub.Storage.RoundTrip.{config_load-config_save}
use zigbee_hub.Framework.Ready.{ConfigStore}
use zigbee_hub.Framework.Orders.{IsConfigStore}

module _ {J N : Type 0} (D : Json J N) (c : Conditions) where
  -- The file under conditions that stay the same.
  unfoldable pub config_file : ConfigStore (Option (List ℕ))
  config_file = record {
    load = λ file out. config_load D c file out;
    save = λ cfg file. config_save D c cfg file;
  }

  -- A configuration is built and printed, in a text that is whole in the file once it is closed.
  pub record Prints (root : J) (cfg : NetConfig) : Type 0 where
    pub json : List ℕ
    pub built : IsBuilt D cfg root json
    pub stored : (file : Option (List ℕ)) → c.closed json file ≡ some json

  -- With memory, and where every configuration is built, printed and stored whole, config.json is a
  -- configuration store as the framework relies on it: what is saved with success is loaded.
  pub config_file-IsConfigStore :
      (root : J)
      → IsJson D
      → c.memory ≡ true
      → D.create ≡ some root
      → ((cfg : NetConfig) → IsConfig cfg → Prints root cfg)
      → IsConfigStore config_file
  unfolding config_file
  config_file-IsConfigStore root L m cr prints = record {
    load_saved = λ s cfg out v size e.
        let p = prints cfg v in
        config_load-config_save D L c c cfg out s root p.json v size m cr p.built (p.stored s) e;
  }
