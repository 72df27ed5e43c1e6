-- ===== src/Hub/Table.antt =====
-- components/zb_device_mgr/zb_cap_clusters.c: the schemas, constants that hold a cluster and the
-- functions that set and get its value, `none` for NULL. The names, which are for logs, are left
-- out.
use zigbee_hub.Base.{ℕ, List, Option, none, some, EspErr}
use zigbee_hub.Zcl.{
  cluster_onoff, cluster_level, cluster_color, cluster_temperature, cluster_humidity,
  cluster_illuminance, cluster_pressure, cluster_occupancy, cluster_ias_zone, cluster_metering,
  cluster_electrical, cluster_analog_input, cluster_binary_input, cluster_binary_output,
}
use zigbee_hub.Hub.{Hub}
use zigbee_hub.Hub.Clusters.{
  onoff_set, level_set, color_set, binary_output_set, onoff_get, level_get, sensor_get,
  pressure_get, occupancy_get, analog_input_get, binary_input_get, binary_output_get, ias_zone_get,
  metering_get, electrical_get,
}

-- `zb_cluster_schema_t`
pub record Entry : Type 0 where
  pub cluster_id : ℕ
  pub setter : Option (ℕ → ℕ → Option (List ℕ) → Hub → EspErr × Hub)
  pub getter : Option (ℕ → ℕ → Hub → EspErr × Hub)

abbrev pub schema_onoff : Entry
schema_onoff = record {
  cluster_id = cluster_onoff;
  setter = some onoff_set;
  getter = some onoff_get;
}

abbrev pub schema_level : Entry
schema_level = record {
  cluster_id = cluster_level;
  setter = some level_set;
  getter = some level_get;
}

abbrev pub schema_color : Entry
schema_color = record { cluster_id = cluster_color; setter = some color_set; getter = none }

abbrev pub schema_temperature : Entry
schema_temperature = record {
  cluster_id = cluster_temperature;
  setter = none;
  getter = some sensor_get;
}

abbrev pub schema_humidity : Entry
schema_humidity = record { cluster_id = cluster_humidity; setter = none; getter = some sensor_get }

abbrev pub schema_illuminance : Entry
schema_illuminance = record {
  cluster_id = cluster_illuminance;
  setter = none;
  getter = some sensor_get;
}

abbrev pub schema_pressure : Entry
schema_pressure = record {
  cluster_id = cluster_pressure;
  setter = none;
  getter = some pressure_get;
}

abbrev pub schema_occupancy : Entry
schema_occupancy = record {
  cluster_id = cluster_occupancy;
  setter = none;
  getter = some occupancy_get;
}

abbrev pub schema_ias_zone : Entry
schema_ias_zone = record {
  cluster_id = cluster_ias_zone;
  setter = none;
  getter = some ias_zone_get;
}

abbrev pub schema_metering : Entry
schema_metering = record {
  cluster_id = cluster_metering;
  setter = none;
  getter = some metering_get;
}

abbrev pub schema_electrical : Entry
schema_electrical = record {
  cluster_id = cluster_electrical;
  setter = none;
  getter = some electrical_get;
}

abbrev pub schema_analog_input : Entry
schema_analog_input = record {
  cluster_id = cluster_analog_input;
  setter = none;
  getter = some analog_input_get;
}

abbrev pub schema_binary_input : Entry
schema_binary_input = record {
  cluster_id = cluster_binary_input;
  setter = none;
  getter = some binary_input_get;
}

abbrev pub schema_binary_output : Entry
schema_binary_output = record {
  cluster_id = cluster_binary_output;
  setter = some binary_output_set;
  getter = some binary_output_get;
}
