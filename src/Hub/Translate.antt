-- ===== src/Hub/Translate.antt =====
-- components/zb_device_mgr/zb_cap.c: from the bytes of an attribute to a typed report on the event
-- bus. `v` has `vlen` bytes; what is emitted is the event that subscribers see.
use zigbee_hub.Base.{
  ℕ, zero, suc, ap, ◌*◌, ◌/◌, ◌^◌, ◌<◌, ◌≡◌, refl, arith, not, ◌&&◌, List, [], ◌∷◌, ltb, leb, ◌==◌,
  if◌then◌else◌, length, get_or, take, bit_and, bit_or, EspErr, ok, invalid_size,
}
use zigbee_hub.Base.Words.{
  le16, or_bytes, low_byte, high_byte, le16-bytes, word_bytes, or_bytes-word_bytes,
}
use zigbee_hub.Base.Integers.{ℤ, to_signed, bits_of, IsSigned, to_signed-bits_of}
use zigbee_hub.Base.Queue.{take_short}
use zigbee_hub.Zcl.{
  cap_id, CapValue, untouched, on_off, level, color_x, color_y, temperature_hundredths,
  humidity_hundredths, illuminance_lux, pressure_hpa, occupancy, zone_state, zone_type, zone_status,
  summation_delivered, summation_received, instantaneous_demand, rms_voltage, rms_current,
  active_power, power_factor, analog_input, binary_input, binary_output, raw, cluster_onoff,
  cluster_level, cluster_color, cluster_temperature, cluster_humidity, cluster_illuminance,
  cluster_pressure, cluster_occupancy, cluster_ias_zone, cluster_metering, cluster_electrical,
  cluster_analog_input, cluster_binary_input, cluster_binary_output,
}
use zigbee_hub.Event.{Event, event_cap_report, cap_report}
use zigbee_hub.Hub.{Hub, emit_event}

abbrev first : List ℕ → ℕ
first v = get_or v 0 0

-- `(uint16_t)(v[0] | (v[1] << 8))`
abbrev word : List ℕ → ℕ
word v = le16 (get_or v 0 0) (get_or v 1 0)

-- A 24-bit number, sign-extended to 32 bits.
demand : List ℕ → ℤ
demand v =
    let s = or_bytes 0 0 (take 3 v) in
    to_signed 31 (if bit_and s 0x00800000 == 0 then s else bit_or s 0xFF000000)

translate_color : ℕ → List ℕ → CapValue
translate_color attr v =
    if attr == 0x0003 && leb 2 (length v)
    then color_x (word v)
    else if attr == 0x0004 && leb 2 (length v)
    then color_y (word v)
    else untouched

translate_ias_zone : ℕ → List ℕ → CapValue
translate_ias_zone attr v =
    if ltb (length v) 1
    then untouched
    else if attr == 0x0000
    then zone_state (first v)
    else if attr == 0x0001 && leb 2 (length v)
    then zone_type (word v)
    else if attr == 0x0002 && leb 2 (length v)
    then zone_status (word v)
    else untouched

translate_metering : ℕ → List ℕ → CapValue
unfolding demand
translate_metering attr v =
    if attr == 0x0000 && leb 6 (length v)
    then summation_delivered (or_bytes 0 0 (take 6 v))
    else if attr == 0x0001 && leb 6 (length v)
    then summation_received (or_bytes 0 0 (take 6 v))
    else if attr == 0x0400 && leb 3 (length v)
    then instantaneous_demand (demand v)
    else untouched

translate_electrical : ℕ → List ℕ → CapValue
translate_electrical attr v =
    if ltb (length v) 2
    then untouched
    else if attr == 0x0505
    then rms_voltage (word v)
    else if attr == 0x0508
    then rms_current (word v)
    else if attr == 0x050B
    then active_power (to_signed 15 (word v))
    else if attr == 0x0510 && leb 1 (length v)
    then power_factor (to_signed 7 (first v))
    else untouched

-- `translate_to_typed`; the event comes in with its union cleared.
unfoldable pub translate_to_typed : ℕ → ℕ → ℕ → List ℕ → CapValue
unfolding translate_color translate_ias_zone translate_metering translate_electrical
translate_to_typed cluster attr dtype v =
    if cluster == cluster_onoff
    then on_off (not (first v == 0))
    else if cluster == cluster_level
    then level (first v)
    else if cluster == cluster_color
    then translate_color attr v
    else if cluster == cluster_temperature
    then (if leb 2 (length v) then temperature_hundredths (to_signed 15 (word v)) else untouched)
    else if cluster == cluster_humidity
    then (if leb 2 (length v) then humidity_hundredths (word v) else untouched)
    else if cluster == cluster_illuminance
    then (if leb 2 (length v) then illuminance_lux (word v) else untouched)
    else if cluster == cluster_pressure
    then (if attr == 0x0000 && leb 2 (length v)
        then pressure_hpa (to_signed 15 (word v))
        else untouched)
    else if cluster == cluster_occupancy
    then (if attr == 0x0000 && leb 1 (length v)
        then occupancy (not (bit_and (first v) 0x01 == 0))
        else untouched)
    else if cluster == cluster_ias_zone
    then translate_ias_zone attr v
    else if cluster == cluster_metering
    then translate_metering attr v
    else if cluster == cluster_electrical
    then translate_electrical attr v
    else if cluster == cluster_analog_input
    then (if attr == 0x0055 && leb 4 (length v)
        then analog_input (or_bytes 0 0 (take 4 v))
        else untouched)
    else if cluster == cluster_binary_input
    then (if attr == 0x0055 && leb 1 (length v)
        then binary_input (not (first v == 0))
        else untouched)
    else if cluster == cluster_binary_output
    then (if attr == 0x0055 && leb 1 (length v)
        then binary_output (not (first v == 0))
        else untouched)
    else raw attr dtype (take 8 v)

abbrev pub report_event : ℕ → ℕ → CapValue → Event
report_event ieee cap value = record {
  type = event_cap_report;
  payload = cap_report (record { ieee_addr = ieee; cap = cap; value = value });
}

-- `zb_cap_dispatch_attr`; the schema that it looks up is only logged.
unfoldable pub dispatch_attr : ℕ → ℕ → ℕ → ℕ → ℕ → List ℕ → Hub → Hub
dispatch_attr ieee ep cluster attr dtype v h =
    emit_event (report_event ieee (cap_id ep cluster) (translate_to_typed cluster attr dtype v)) h

-- `zb_cap_dispatch_ias_status_change`
unfoldable pub dispatch_ias_status_change : ℕ → ℕ → List ℕ → ℕ → Hub → EspErr × Hub
dispatch_ias_status_change ieee ep cmd_payload cmd_len h =
    if ltb cmd_len 2 then (invalid_size, h) else (
      ok,
      emit_event (report_event ieee (cap_id ep cluster_ias_zone) (zone_status (word cmd_payload)))
          h,
    )

-- The power factor (attribute 0x0510, one signed byte) does not reach its branch: a value of one
-- byte leaves the report untouched, whatever the byte and the electrical attribute.
translate_to_typed_electrical_byte :
    (attr dtype x : ℕ) → translate_to_typed cluster_electrical attr dtype (x ∷ []) ≡ untouched
unfolding translate_to_typed translate_electrical
translate_to_typed_electrical_byte attr dtype x = refl

word-bits :
    (z : ℤ)
    → IsSigned 15 z
    → word (low_byte (bits_of 15 z) ∷ high_byte (bits_of 15 z) ∷ []) ≡ bits_of 15 z
word-bits z h = le16-bytes (bits_of 15 z) (omega (arith, (to_signed-bits_of 15 z h).1))

-- A signed 16-bit measurement that a device sends in two's complement, low byte first, is emitted
-- as an event of that device and capability with the signed number: temperature for any attribute,
-- pressure for its measured value, active power for its attribute.
pub dispatch_attr-bits_of :
    (ieee ep attr dtype : ℕ) (z : ℤ) (h : Hub)
    → IsSigned 15 z
    → let v = low_byte (bits_of 15 z) ∷ high_byte (bits_of 15 z) ∷ [] in
      (dispatch_attr ieee ep cluster_temperature attr dtype v h
        ≡ emit_event
            (report_event ieee (cap_id ep cluster_temperature) (temperature_hundredths z))
            h)
      × (dispatch_attr ieee ep cluster_pressure 0x0000 dtype v h
          ≡ emit_event (report_event ieee (cap_id ep cluster_pressure) (pressure_hpa z)) h)
      × (dispatch_attr ieee ep cluster_electrical 0x050B dtype v h
          ≡ emit_event (report_event ieee (cap_id ep cluster_electrical) (active_power z)) h)
unfolding dispatch_attr translate_to_typed translate_electrical
dispatch_attr-bits_of ieee ep attr dtype z h s =
    rw (word-bits z s, (to_signed-bits_of 15 z s).0) (refl, refl, refl)

length-word_bytes : (n w : ℕ) → length (word_bytes n w) ≡ n
unfolding word_bytes
length-word_bytes zero w = refl
length-word_bytes (suc n) w = ap suc (length-word_bytes n (w / 256))

unsplit : (n w : ℕ) → w < 2 ^ (8 * n) → or_bytes 0 0 (take n (word_bytes n w)) ≡ w
unsplit n w h =
    rw (take_short n (word_bytes n w) (omega (arith, length-word_bytes n w)))
      (omega (arith, or_bytes-word_bytes n 0 0 w (omega arith) h))

-- A 48-bit meter reading and a 32-bit analog value reach subscribers with all their bits.
translate_to_typed-wide :
    (dtype w x : ℕ)
    → w < 2 ^ 48
    → x < 2 ^ 32
    → (translate_to_typed cluster_metering 0x0000 dtype (word_bytes 6 w) ≡ summation_delivered w)
      × (translate_to_typed cluster_metering 0x0001 dtype (word_bytes 6 w) ≡ summation_received w)
      × (translate_to_typed cluster_analog_input 0x0055 dtype (word_bytes 4 x) ≡ analog_input x)
unfolding translate_to_typed translate_metering
translate_to_typed-wide dtype w x p q =
    rw (length-word_bytes 6 w, length-word_bytes 4 x, unsplit 6 w p, unsplit 4 x q)
      (refl, refl, refl)
