-- ===== src/Hub/Typed.antt =====
-- components/zb_device_mgr/zb_cap_clusters.c: the functions of the API for one cluster each. A
-- value that one of them passes on by its address is the list of its bytes in memory.
use zigbee_hub.Base.{
  ℕ, ◌^◌, ◌<◌, ◌≡◌, refl, ap, ◌∙◌, arith, Bool, [], ◌∷◌, some, EspErr, if◌then◌else◌, not_supported,
}
use zigbee_hub.Base.Words.{low_byte, high_byte}
use zigbee_hub.Zcl.{
  cap_id, cap_cluster, cap_id_parts, cluster_onoff, cluster_level, cluster_color,
  cluster_binary_output,
}
use zigbee_hub.Hub.{Hub}
use zigbee_hub.Hub.Clusters.{
  onoff_set, level_set, color_set, binary_output_set, read_attr, onoff_get, level_get, sensor_get,
  pressure_get, occupancy_get, ias_zone_get, metering_get, electrical_get, analog_input_get,
  binary_input_get, binary_output_get,
}
use zigbee_hub.Hub.Schema.{
  Schema, schema_find, cap_init, cap_set, cap_get, call_get, call_set, cluster_of,
  schema_find-cap_init, onoff, level, color, temperature, humidity, illuminance, pressure,
  occupancy, ias_zone, metering, electrical, analog_input, binary_input, binary_output,
}
use zigbee_hub.Hub.Commands.{cap_set_by}

-- `zb_cap_onoff_get`
unfoldable pub cap_onoff_get : ℕ → ℕ → Hub → EspErr × Hub
cap_onoff_get ieee cap h = onoff_get ieee cap h

-- `zb_cap_level_get`
unfoldable pub cap_level_get : ℕ → ℕ → Hub → EspErr × Hub
cap_level_get ieee cap h = level_get ieee cap h

-- `zb_cap_temp_get`
unfoldable pub cap_temp_get : ℕ → ℕ → Hub → EspErr × Hub
cap_temp_get ieee cap h = read_attr ieee cap 0x0000 h

-- `zb_cap_humidity_get`
unfoldable pub cap_humidity_get : ℕ → ℕ → Hub → EspErr × Hub
cap_humidity_get ieee cap h = read_attr ieee cap 0x0000 h

-- `zb_cap_illuminance_get`
unfoldable pub cap_illuminance_get : ℕ → ℕ → Hub → EspErr × Hub
cap_illuminance_get ieee cap h = read_attr ieee cap 0x0000 h

-- `zb_cap_pressure_get`
unfoldable pub cap_pressure_get : ℕ → ℕ → Hub → EspErr × Hub
cap_pressure_get ieee cap h = pressure_get ieee cap h

-- `zb_cap_occupancy_get`
unfoldable pub cap_occupancy_get : ℕ → ℕ → Hub → EspErr × Hub
cap_occupancy_get ieee cap h = occupancy_get ieee cap h

-- `zb_cap_ias_zone_get`
unfoldable pub cap_ias_zone_get : ℕ → ℕ → Hub → EspErr × Hub
cap_ias_zone_get ieee cap h = ias_zone_get ieee cap h

-- `zb_cap_metering_get`
unfoldable pub cap_metering_get : ℕ → ℕ → Hub → EspErr × Hub
cap_metering_get ieee cap h = metering_get ieee cap h

-- `zb_cap_electrical_get`
unfoldable pub cap_electrical_get : ℕ → ℕ → Hub → EspErr × Hub
cap_electrical_get ieee cap h = electrical_get ieee cap h

-- `zb_cap_analog_input_get`
unfoldable pub cap_analog_input_get : ℕ → ℕ → Hub → EspErr × Hub
cap_analog_input_get ieee cap h = analog_input_get ieee cap h

-- `zb_cap_binary_input_get`
unfoldable pub cap_binary_input_get : ℕ → ℕ → Hub → EspErr × Hub
cap_binary_input_get ieee cap h = binary_input_get ieee cap h

-- `zb_cap_binary_output_get`
unfoldable pub cap_binary_output_get : ℕ → ℕ → Hub → EspErr × Hub
cap_binary_output_get ieee cap h = binary_output_get ieee cap h

-- A `bool` in memory.
abbrev pub bool_byte : Bool → ℕ
bool_byte b = if b then 1 else 0

-- `zb_cap_onoff_set`
unfoldable pub cap_onoff_set : ℕ → ℕ → Bool → Hub → EspErr × Hub
cap_onoff_set ieee cap on h = onoff_set ieee cap (some (bool_byte on ∷ [])) h

-- `zb_cap_level_set`
unfoldable pub cap_level_set : ℕ → ℕ → ℕ → Hub → EspErr × Hub
cap_level_set ieee cap v h = level_set ieee cap (some (v ∷ [])) h

-- `zb_cap_color_xy_set`
unfoldable pub cap_color_xy_set : ℕ → ℕ → ℕ → ℕ → Hub → EspErr × Hub
cap_color_xy_set ieee cap x y h =
    color_set ieee cap (some (low_byte x ∷ high_byte x ∷ low_byte y ∷ high_byte y ∷ [])) h

-- `zb_cap_binary_output_set`
unfoldable pub cap_binary_output_set : ℕ → ℕ → Bool → Hub → EspErr × Hub
cap_binary_output_set ieee cap b h = binary_output_set ieee cap (some (bool_byte b ∷ [])) h

-- The function that reads a cluster; there is none for colors.
unfoldable pub typed_get : Schema → ℕ → ℕ → Hub → EspErr × Hub
typed_get color ieee cap h = (not_supported, h)
typed_get onoff ieee cap h = cap_onoff_get ieee cap h
typed_get level ieee cap h = cap_level_get ieee cap h
typed_get temperature ieee cap h = cap_temp_get ieee cap h
typed_get humidity ieee cap h = cap_humidity_get ieee cap h
typed_get illuminance ieee cap h = cap_illuminance_get ieee cap h
typed_get pressure ieee cap h = cap_pressure_get ieee cap h
typed_get occupancy ieee cap h = cap_occupancy_get ieee cap h
typed_get ias_zone ieee cap h = cap_ias_zone_get ieee cap h
typed_get metering ieee cap h = cap_metering_get ieee cap h
typed_get electrical ieee cap h = cap_electrical_get ieee cap h
typed_get analog_input ieee cap h = cap_analog_input_get ieee cap h
typed_get binary_input ieee cap h = cap_binary_input_get ieee cap h
typed_get binary_output ieee cap h = cap_binary_output_get ieee cap h

cluster_of-lt : (s : Schema) → cluster_of s < 2 ^ 16
unfolding cluster_of
cluster_of-lt onoff = omega arith
cluster_of-lt level = omega arith
cluster_of-lt color = omega arith
cluster_of-lt temperature = omega arith
cluster_of-lt humidity = omega arith
cluster_of-lt illuminance = omega arith
cluster_of-lt pressure = omega arith
cluster_of-lt occupancy = omega arith
cluster_of-lt ias_zone = omega arith
cluster_of-lt metering = omega arith
cluster_of-lt electrical = omega arith
cluster_of-lt analog_input = omega arith
cluster_of-lt binary_input = omega arith
cluster_of-lt binary_output = omega arith

call_get-typed :
    (s : Schema) (ieee cap : ℕ) (h : Hub) → call_get s ieee cap h ≡ typed_get s ieee cap h
unfolding call_get typed_get sensor_get cap_onoff_get cap_level_get cap_temp_get cap_humidity_get
    cap_illuminance_get cap_pressure_get cap_occupancy_get cap_ias_zone_get cap_metering_get
    cap_electrical_get cap_analog_input_get cap_binary_input_get cap_binary_output_get
call_get-typed onoff ieee cap h = refl
call_get-typed level ieee cap h = refl
call_get-typed color ieee cap h = refl
call_get-typed temperature ieee cap h = refl
call_get-typed humidity ieee cap h = refl
call_get-typed illuminance ieee cap h = refl
call_get-typed pressure ieee cap h = refl
call_get-typed occupancy ieee cap h = refl
call_get-typed ias_zone ieee cap h = refl
call_get-typed metering ieee cap h = refl
call_get-typed electrical ieee cap h = refl
call_get-typed analog_input ieee cap h = refl
call_get-typed binary_input ieee cap h = refl
call_get-typed binary_output ieee cap h = refl

cap_get_by :
    (s : Schema) (ieee ep : ℕ) (h : Hub)
    → ep < 2 ^ 8
    → cap_get (cap_init []) ieee (cap_id ep (cluster_of s)) h
      ≡ call_get s ieee (cap_id ep (cluster_of s)) h
unfolding cap_get
cap_get_by s ieee ep h small =
    let c : cap_cluster (cap_id ep (cluster_of s)) ≡ cluster_of s =
      (cap_id_parts ep (cluster_of s) small (cluster_of-lt s)).1 in
    let found : schema_find (cap_cluster (cap_id ep (cluster_of s))) (cap_init []) ≡ some s =
      ap (λ k. schema_find k (cap_init [])) c ∙ schema_find-cap_init s in
    rw (found, cap_get) refl

-- At an endpoint of one byte, the generic calls do what the call for the cluster of the handle
-- does: zb_cap_get what the function does that reads that cluster (ESP_ERR_NOT_SUPPORTED for
-- colors), and zb_cap_set, given the bytes of the value, what the function does that sets it.
pub cap_get-typed_get :
    (s : Schema) (ieee ep v x y : ℕ) (on : Bool) (h : Hub)
    → ep < 2 ^ 8
    → (cap_get (cap_init []) ieee (cap_id ep (cluster_of s)) h
        ≡ typed_get s ieee (cap_id ep (cluster_of s)) h)
      × (cap_set (cap_init []) ieee (cap_id ep cluster_onoff) (some (bool_byte on ∷ [])) h
          ≡ cap_onoff_set ieee (cap_id ep cluster_onoff) on h)
      × (cap_set (cap_init []) ieee (cap_id ep cluster_level) (some (v ∷ [])) h
          ≡ cap_level_set ieee (cap_id ep cluster_level) v h)
      × (cap_set
            (cap_init [])
            ieee
            (cap_id ep cluster_color)
            (some (low_byte x ∷ high_byte x ∷ low_byte y ∷ high_byte y ∷ []))
            h
          ≡ cap_color_xy_set ieee (cap_id ep cluster_color) x y h)
      × (cap_set (cap_init []) ieee (cap_id ep cluster_binary_output) (some (bool_byte on ∷ [])) h
          ≡ cap_binary_output_set ieee (cap_id ep cluster_binary_output) on h)
unfolding cap_onoff_set cap_level_set cap_color_xy_set cap_binary_output_set call_set cluster_of
cap_get-typed_get s ieee ep v x y on h small = (
  cap_get_by s ieee ep h small ∙ call_get-typed s ieee (cap_id ep (cluster_of s)) h,
  cap_set_by onoff ieee ep (some (bool_byte on ∷ [])) h small (omega arith),
  cap_set_by level ieee ep (some (v ∷ [])) h small (omega arith),
  cap_set_by color ieee ep (some (low_byte x ∷ high_byte x ∷ low_byte y ∷ high_byte y ∷ [])) h small
      (omega arith),
  cap_set_by binary_output ieee ep (some (bool_byte on ∷ [])) h small (omega arith),
)
