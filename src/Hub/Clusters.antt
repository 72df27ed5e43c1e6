-- ===== src/Hub/Clusters.antt =====
-- components/zb_device_mgr/zb_cap_clusters.c: the ZCL frames of each cluster. The `value` pointer
-- of a setter is an option (NULL is `none`) on the bytes behind it, `len` many.
use zigbee_hub.Base.{
  ℕ, ◌+◌, ◌%◌, ◌^◌, Bool, true, not, ◌||◌, List, [], ◌∷◌, Option, none, some, ltb, ◌==◌,
  if◌then◌else◌, length, get_or, EspErr, invalid_arg,
}
use zigbee_hub.Base.Words.{low_byte, high_byte, le16}
use zigbee_hub.Hub.{Hub, zcl_send}

-- `s_zcl_seq++`
abbrev pub next_seq : Hub → Hub
next_seq h = record h { zcl_seq = (h.zcl_seq + 1) % 2 ^ 8 }

-- The flags `ZCL_FRAME_PROFILE_WIDE | ZCL_DISABLE_DEFAULT_RSP` and those of a cluster command.
abbrev pub profile_wide : ℕ
profile_wide = 0x10

abbrev pub cluster_specific : ℕ
cluster_specific = 0x11

unfoldable pub read_attr : ℕ → ℕ → ℕ → Hub → EspErr × Hub
read_attr ieee cap attr h =
    zcl_send ieee cap (profile_wide ∷ h.zcl_seq ∷ 0x00 ∷ low_byte attr ∷ high_byte attr ∷ [])
      (next_seq h)

unfoldable pub attr_bytes : List ℕ → List ℕ
attr_bytes [] = []
attr_bytes (a ∷ attrs) = low_byte a ∷ high_byte a ∷ attr_bytes attrs

unfoldable pub read_attrs : ℕ → ℕ → List ℕ → Hub → EspErr × Hub
read_attrs ieee cap attrs h =
    if length attrs == 0 || ltb 8 (length attrs)
    then (invalid_arg, h)
    else zcl_send ieee cap (profile_wide ∷ h.zcl_seq ∷ 0x00 ∷ attr_bytes attrs) (next_seq h)

unfoldable pub write_attr : ℕ → ℕ → ℕ → ℕ → List ℕ → Hub → EspErr × Hub
write_attr ieee cap attr dtype val h =
    if length val == 0 || ltb 8 (length val)
    then (invalid_arg, h)
    else zcl_send ieee cap
        (profile_wide ∷ h.zcl_seq ∷ 0x02 ∷ low_byte attr ∷ high_byte attr ∷ dtype ∷ val)
        (next_seq h)

-- `!value || len < n`
abbrev pub too_short : ℕ → Option (List ℕ) → Bool
too_short n none = true
too_short n (some bytes) = ltb (length bytes) n

abbrev pub bytes_of : Option (List ℕ) → List ℕ
bytes_of none = []
bytes_of (some bytes) = bytes

-- `*(const bool *)value`
abbrev pub is_set : List ℕ → Bool
is_set bytes = not (get_or bytes 0 0 == 0)

unfoldable pub onoff_set : ℕ → ℕ → Option (List ℕ) → Hub → EspErr × Hub
onoff_set ieee cap value h =
    if too_short 1 value
    then (invalid_arg, h)
    else zcl_send ieee cap
        (cluster_specific ∷ h.zcl_seq ∷ (if is_set (bytes_of value) then 0x01 else 0x00) ∷ [])
        (next_seq h)

unfoldable pub level_set : ℕ → ℕ → Option (List ℕ) → Hub → EspErr × Hub
level_set ieee cap value h =
    if too_short 1 value
    then (invalid_arg, h)
    else zcl_send ieee cap
        (cluster_specific ∷ h.zcl_seq ∷ 0x04 ∷ get_or (bytes_of value) 0 0 ∷ 0x00 ∷ 0x00 ∷ [])
        (next_seq h)

-- `color_xy_t` is two little-endian 16-bit words.
unfoldable pub color_set : ℕ → ℕ → Option (List ℕ) → Hub → EspErr × Hub
color_set ieee cap value h =
    if too_short 4 value
    then (invalid_arg, h)
    else let x = le16 (get_or (bytes_of value) 0 0) (get_or (bytes_of value) 1 0) in
      let y = le16 (get_or (bytes_of value) 2 0) (get_or (bytes_of value) 3 0) in
      zcl_send ieee cap
        (cluster_specific
          ∷ h.zcl_seq
          ∷ 0x07
          ∷ low_byte x
          ∷ high_byte x
          ∷ low_byte y
          ∷ high_byte y
          ∷ 0x00
          ∷ 0x00
          ∷ [])
        (next_seq h)

unfoldable pub binary_output_set : ℕ → ℕ → Option (List ℕ) → Hub → EspErr × Hub
binary_output_set ieee cap value h =
    if too_short 1 value
    then (invalid_arg, h)
    else write_attr ieee cap 0x0055 0x10 ((if is_set (bytes_of value) then 0x01 else 0x00) ∷ []) h

pub onoff_get : ℕ → ℕ → Hub → EspErr × Hub
onoff_get ieee cap h = read_attr ieee cap 0x0000 h

pub level_get : ℕ → ℕ → Hub → EspErr × Hub
level_get ieee cap h = read_attr ieee cap 0x0000 h

unfoldable pub sensor_get : ℕ → ℕ → Hub → EspErr × Hub
sensor_get ieee cap h = read_attr ieee cap 0x0000 h

pub pressure_get : ℕ → ℕ → Hub → EspErr × Hub
pressure_get ieee cap h = read_attr ieee cap 0x0000 h

pub occupancy_get : ℕ → ℕ → Hub → EspErr × Hub
occupancy_get ieee cap h = read_attr ieee cap 0x0000 h

pub analog_input_get : ℕ → ℕ → Hub → EspErr × Hub
analog_input_get ieee cap h = read_attr ieee cap 0x0055 h

pub binary_input_get : ℕ → ℕ → Hub → EspErr × Hub
binary_input_get ieee cap h = read_attr ieee cap 0x0055 h

pub binary_output_get : ℕ → ℕ → Hub → EspErr × Hub
binary_output_get ieee cap h = read_attr ieee cap 0x0055 h

pub ias_zone_get : ℕ → ℕ → Hub → EspErr × Hub
ias_zone_get ieee cap h = read_attrs ieee cap (0x0000 ∷ 0x0001 ∷ 0x0002 ∷ []) h

pub metering_get : ℕ → ℕ → Hub → EspErr × Hub
metering_get ieee cap h = read_attrs ieee cap (0x0000 ∷ 0x0001 ∷ 0x0400 ∷ 0x0301 ∷ 0x0302 ∷ []) h

pub electrical_get : ℕ → ℕ → Hub → EspErr × Hub
electrical_get ieee cap h = read_attrs ieee cap (0x0505 ∷ 0x0508 ∷ 0x050B ∷ 0x0510 ∷ []) h
