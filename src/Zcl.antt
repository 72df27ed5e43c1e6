-- ===== src/Zcl.antt =====
-- components/zb_device_mgr/include/zb_cap.h: capability handles, cluster ids and the typed values
-- of a capability report.
use zigbee_hub.Base.{ℕ, ◌*◌, ◌/◌, ◌%◌, ◌^◌, ◌<◌, ◌≡◌, Bool, List, bit_or, arith}
use zigbee_hub.Base.Integers.{ℤ}
use zigbee_hub.Base.Bits.{shifted_or}

-- `ZB_CAP_ID(ep, cluster)`, `ZB_CAP_EP(cap)` and `ZB_CAP_CLUSTER(cap)`
pub cap_id : ℕ → ℕ → ℕ
cap_id ep cluster = bit_or (ep * 2 ^ 16) (cluster % 2 ^ 16)

pub cap_ep : ℕ → ℕ
cap_ep cap = cap / 2 ^ 16 % 2 ^ 8

pub cap_cluster : ℕ → ℕ
cap_cluster cap = cap % 2 ^ 16

-- A handle keeps its endpoint and its cluster apart, and fits in 32 bits.
pub cap_id_parts :
    (ep cluster : ℕ)
    → ep < 2 ^ 8
    → cluster < 2 ^ 16
    → (cap_ep (cap_id ep cluster) ≡ ep)
      × (cap_cluster (cap_id ep cluster) ≡ cluster)
      × (cap_id ep cluster < 2 ^ 32)
unfolding cap_id cap_ep cap_cluster
cap_id_parts ep cluster p q = omega (arith, shifted_or 16 ep (cluster % 2 ^ 16))

-- `ZCL_CLUSTER_*`
abbrev pub cluster_onoff : ℕ
cluster_onoff = 0x0006

abbrev pub cluster_level : ℕ
cluster_level = 0x0008

abbrev pub cluster_color : ℕ
cluster_color = 0x0300

abbrev pub cluster_temperature : ℕ
cluster_temperature = 0x0402

abbrev pub cluster_humidity : ℕ
cluster_humidity = 0x0405

abbrev pub cluster_illuminance : ℕ
cluster_illuminance = 0x0400

abbrev pub cluster_analog_input : ℕ
cluster_analog_input = 0x000C

abbrev pub cluster_binary_input : ℕ
cluster_binary_input = 0x000F

abbrev pub cluster_binary_output : ℕ
cluster_binary_output = 0x0010

abbrev pub cluster_pressure : ℕ
cluster_pressure = 0x0403

abbrev pub cluster_occupancy : ℕ
cluster_occupancy = 0x0406

abbrev pub cluster_ias_zone : ℕ
cluster_ias_zone = 0x0500

abbrev pub cluster_metering : ℕ
cluster_metering = 0x0702

abbrev pub cluster_electrical : ℕ
cluster_electrical = 0x0B04

-- The union `value` of `zb_cap_event_t`, by the member that was written. A member that is a struct
-- has its other fields zero, and `untouched` is the union as the initializer cleared it. The
-- float is kept as its bit pattern.
pub data CapValue : Type 0 where
  untouched : CapValue
  on_off : Bool → CapValue
  level : ℕ → CapValue
  color_x color_y : ℕ → CapValue
  temperature_hundredths : ℤ → CapValue
  humidity_hundredths : ℕ → CapValue
  illuminance_lux : ℕ → CapValue
  pressure_hpa : ℤ → CapValue
  occupancy : Bool → CapValue
  zone_state zone_type zone_status : ℕ → CapValue
  summation_delivered summation_received : ℕ → CapValue
  instantaneous_demand : ℤ → CapValue
  rms_voltage rms_current : ℕ → CapValue
  active_power power_factor : ℤ → CapValue
  analog_input : ℕ → CapValue
  binary_input binary_output : Bool → CapValue
  raw : ℕ → ℕ → List ℕ → CapValue

-- `zb_cap_event_t`
pub record CapEvent : Type 0 where
  pub ieee_addr : ℕ
  pub cap : ℕ
  pub value : CapValue

pub cap_cluster-lt : (cap : ℕ) → cap_cluster cap < 2 ^ 16
unfolding cap_cluster
cap_cluster-lt cap = omega arith
