-- ===== src/Storage.antt =====
-- components/zb_storage: the records of the device store (zb_device.pb.h). The calls of the store
-- are listed in order; no caller modelled here looks at their result.
pub mod Files
pub mod Config
pub mod RoundTrip
pub mod Devices
pub mod Listing
pub mod Calls
pub mod Refinement
use zigbee_hub.Base.{ℕ, List, []}

-- `ZbAttrCache`
pub record AttrCache : Type 0 where
  pub attr_id : ℕ
  pub data_type : ℕ
  pub value : List ℕ
  pub updated_ms : ℕ

-- `ZbClusterCache`; a list is an array with its `_count`.
pub record ClusterCache : Type 0 where
  pub cluster_id : ℕ
  pub attrs : List AttrCache

-- `ZbEndpoint`
pub record Endpoint : Type 0 where
  pub ep_id : ℕ
  pub profile_id : ℕ
  pub device_id : ℕ
  pub clusters : List ClusterCache

-- `ZbDeviceRecord`
pub record DeviceRecord : Type 0 where
  pub ieee_addr : ℕ
  pub network_addr : ℕ
  pub endpoints : List Endpoint
  pub last_seen_ms : ℕ

-- `ZbDeviceRecord_init_zero`
unfoldable pub init_zero : DeviceRecord
init_zero = record { ieee_addr = 0; network_addr = 0; endpoints = []; last_seen_ms = 0 }

-- `zb_storage_device_save` and `zb_storage_device_delete`
pub data StorageCall : Type 0 where
  save : DeviceRecord → StorageCall
  delete : ℕ → StorageCall

-- `zb_net_config_t`, and the fields of `zb_config_t` that the framework reads.
pub record NetConfig : Type 0 where
  pub pan_id : ℕ
  pub channel : ℕ
  pub nwk_key : List ℕ
  pub uart_baud : ℕ
