-- ===== src/Hub/Schema.antt =====
-- components/zb_device_mgr/zb_cap.c: the schema table and the generic setter and getter. A schema
-- is a pointer to one of the constants of zb_cap_clusters.c; the program registers no other.
use zigbee_hub.Base.{
  ℕ, ◌≡◌, refl, List, [], ◌∷◌, ◌++◌, Option, none, some, leb, ◌==◌, if◌then◌else◌, length, EspErr,
  ok, no_mem, not_supported,
}
use zigbee_hub.Zcl.{cap_cluster}
use zigbee_hub.Hub.{Hub}
use zigbee_hub.Hub.Table.{
  Entry, schema_onoff, schema_level, schema_color, schema_temperature, schema_humidity,
  schema_illuminance, schema_pressure, schema_occupancy, schema_ias_zone, schema_metering,
  schema_electrical, schema_analog_input, schema_binary_input, schema_binary_output,
}

pub data Schema : Type 0 where
  onoff level color temperature humidity illuminance : Schema
  pressure occupancy ias_zone metering electrical : Schema
  analog_input binary_input binary_output : Schema

-- What the pointer points to.
abbrev pub entry : Schema → Entry
entry onoff = schema_onoff
entry level = schema_level
entry color = schema_color
entry temperature = schema_temperature
entry humidity = schema_humidity
entry illuminance = schema_illuminance
entry pressure = schema_pressure
entry occupancy = schema_occupancy
entry ias_zone = schema_ias_zone
entry metering = schema_metering
entry electrical = schema_electrical
entry analog_input = schema_analog_input
entry binary_input = schema_binary_input
entry binary_output = schema_binary_output

-- The field `cluster_id` of each schema.
unfoldable pub cluster_of : Schema → ℕ
cluster_of s = (entry s).cluster_id

-- A call of the field `set`; a NULL field is ESP_ERR_NOT_SUPPORTED.
unfoldable pub call_set : Schema → ℕ → ℕ → Option (List ℕ) → Hub → EspErr × Hub
call_set s ieee cap value h = elim (entry s).setter [
  | none ↦ (not_supported, h)
  | some set ↦ set ieee cap value h
]

-- A call of the field `get`.
unfoldable pub call_get : Schema → ℕ → ℕ → Hub → EspErr × Hub
call_get s ieee cap h = elim (entry s).getter [
  | none ↦ (not_supported, h)
  | some get ↦ get ieee cap h
]

abbrev pub max_schemas : ℕ
max_schemas = 32

-- `zb_schema_register`
unfoldable pub register : Schema → List Schema → EspErr × List Schema
register s table = if leb max_schemas (length table) then (no_mem, table) else (ok, table ++ s ∷ [])

-- `zb_schema_find`
unfoldable pub schema_find : ℕ → List Schema → Option Schema
schema_find cluster [] = none
schema_find cluster (s ∷ table) =
    let rest = schema_find cluster table in if cluster_of s == cluster then some s else rest

register_all : List Schema → List Schema → List Schema
register_all [] table = table
register_all (s ∷ ss) table = register_all ss (register s table).1

-- `zb_cap_init`, on the table that it finds.
unfoldable pub cap_init : List Schema → List Schema
unfolding register_all register
cap_init table =
    register_all
      (onoff ∷ level ∷ color ∷ temperature ∷ humidity ∷ illuminance ∷ pressure ∷ occupancy
        ∷ ias_zone ∷ metering ∷ electrical ∷ analog_input ∷ binary_input ∷ binary_output ∷ [])
      table

-- `zb_cap_set` and `zb_cap_get`
unfoldable pub cap_set : List Schema → ℕ → ℕ → Option (List ℕ) → Hub → EspErr × Hub
cap_set table ieee cap value h = elim (schema_find (cap_cluster cap) table) [
  | none ↦ (not_supported, h)
  | some s ↦ call_set s ieee cap value h
]

unfoldable pub cap_get : List Schema → ℕ → ℕ → Hub → EspErr × Hub
cap_get table ieee cap h = elim (schema_find (cap_cluster cap) table) [
  | none ↦ (not_supported, h)
  | some s ↦ call_get s ieee cap h
]

-- On a cleared table `zb_cap_init` registers every built-in schema, and each is found by the
-- cluster that it is for.
pub schema_find-cap_init : (s : Schema) → schema_find (cluster_of s) (cap_init []) ≡ some s
unfolding schema_find cap_init register_all register cluster_of
schema_find-cap_init onoff = refl
schema_find-cap_init level = refl
schema_find-cap_init color = refl
schema_find-cap_init temperature = refl
schema_find-cap_init humidity = refl
schema_find-cap_init illuminance = refl
schema_find-cap_init pressure = refl
schema_find-cap_init occupancy = refl
schema_find-cap_init ias_zone = refl
schema_find-cap_init metering = refl
schema_find-cap_init electrical = refl
schema_find-cap_init analog_input = refl
schema_find-cap_init binary_input = refl
schema_find-cap_init binary_output = refl
