-- ===== src/Tests/Inbound.antt =====
-- Announcements, descriptors and reports of a device.
use zigbee_hub.Base.Integers.{negsuc, bits_of}
use zigbee_hub.Zcl.{cap_id, cluster_electrical, active_power}
use zigbee_hub.Hub.{emit_event}
use zigbee_hub.Base.{
  ℕ, zero, suc, ◌≡◌, ◌<◌, ◌⊎◌, refl, [], ◌∷◌, ◌++◌, some, arith, length, replicate, ok, no_mem,
  ◌==◌, if◌then◌else◌, All,
}
use zigbee_hub.Zcl.{cluster_temperature, cluster_pressure, temperature_hundredths, pressure_hpa}
use zigbee_hub.Storage.{save, init_zero}
use zigbee_hub.Znp.Frame.{Frame, IsFrame}
use zigbee_hub.Device.{get_nwk}
use zigbee_hub.Hub.{Hub, join}
use zigbee_hub.Hub.Translate.{dispatch_attr, report_event, dispatch_attr-bits_of}
use zigbee_hub.Hub.Inbound.{word_at, reports, report_size, on_areq}
use zigbee_hub.Hub.Reports.{
  Report, IsReport, report_bytes, dispatch_each, reports-report_bytes, reports_end,
}
use zigbee_hub.Hub.Descriptors.{StaysInside, on_areq_end, laid_out}
use zigbee_hub.Hub.Membership.{join_lem}
use zigbee_hub.Tests.Plug.{hub}

abbrev warm : Report
warm = record { attr = 0x0000; dtype = 0x29; value = 0x34 ∷ 0x08 ∷ [] }

warm-IsReport : IsReport warm
unfolding report_size
warm-IsReport = record { id_word = omega arith; sized = refl; known_type = ground arith }

reports-report_bytes_example :
    reports 10 7 1 0x0402
      (report_bytes (warm ∷ warm ∷ []) ++ 0xAA ∷ [])
      (length (report_bytes (warm ∷ warm ∷ [])))
      hub
    ≡ some (dispatch_each 7 1 0x0402 (warm ∷ warm ∷ []) hub)
reports-report_bytes_example =
    reports-report_bytes 10 7 1 0x0402 (warm ∷ warm ∷ []) (0xAA ∷ []) hub
      (warm-IsReport, (warm-IsReport, tt)) (unfold report_bytes in omega arith)

reports_end_example :
    (h' : Hub) × (reports 5 7 1 0x0402 (0 ∷ 0 ∷ 0x29 ∷ 1 ∷ 2 ∷ 3 ∷ []) 5 hub ≡ some h')
reports_end_example =
    reports_end 5 7 1 0x0402 (0 ∷ 0 ∷ 0x29 ∷ 1 ∷ 2 ∷ 3 ∷ []) 5 hub (omega arith) (omega arith)

join_lem_example :
    (join 9 0x2222 hub ≡ (no_mem, hub))
    ⊎ (((join 9 0x2222 hub).0 ≡ ok)
        × ((other : ℕ)
            → get_nwk other (join 9 0x2222 hub).1.devices
              ≡ (if other == 9 then 0x2222 else get_nwk other hub.devices))
        × ((join 9 0x2222 hub).1.storage_calls
            ≡ save (record init_zero { ieee_addr = 9; network_addr = 0x2222 }) ∷ [])
        × ((req : Frame) × ((join 9 0x2222 hub).1.session.sent ≡ req ∷ [])
            × (word_at req 0 ≡ 0x2222)
            × (word_at req 2 ≡ 0x2222)))
join_lem_example = join_lem 9 0x2222 hub (omega arith)

All-replicate : (n : ℕ) → All (λ x. x < 256) (replicate n 0)
All-replicate zero = tt
All-replicate (suc n) = (omega arith, All-replicate n)

abbrev message : Frame
message = record {
  cmd_type = 0x44;
  cmd_id = 0x81;
  payload =
      0
      ∷ 0
      ∷ 2
      ∷ 4
      ∷ 0x34
      ∷ 0x12
      ∷ 1
      ∷ 1
      ∷ 0
      ∷ 0
      ∷ 0
      ∷ 0
      ∷ 0
      ∷ 0
      ∷ 0
      ∷ 0
      ∷ 8
      ∷ 0x18
      ∷ 0
      ∷ 0x0A
      ∷ replicate 230 0;
  payload_len = 25;
}

message-IsFrame : IsFrame message
message-IsFrame = record {
  whole = refl;
  fits = omega arith;
  type_byte = omega arith;
  id_byte = omega arith;
  bytes = omega arith;
}

message-StaysInside : StaysInside message
message-StaysInside = record {
  few_data = λ here this. omega arith;
  few_endpoints = λ here this. absurd (omega arith);
}

on_areq_end_example : (h' : Hub) × (on_areq message hub ≡ some h')
on_areq_end_example = on_areq_end message hub message-IsFrame message-StaysInside

abbrev descriptor : Frame
descriptor = record {
  cmd_type = 0x45;
  cmd_id = 0x84;
  payload = laid_out 0x1234 1 (6 ∷ 8 ∷ []) (25 ∷ []) (replicate 231 0);
  payload_len = 19;
}

-- 5.00 degrees below zero.
dispatch_attr-bits_of_example :
    (dispatch_attr 7 1 cluster_temperature 0 0x29 (0x0C ∷ 0xFE ∷ []) hub
      ≡ emit_event
          (report_event 7 (cap_id 1 cluster_temperature) (temperature_hundredths (negsuc 499)))
          hub)
    × (dispatch_attr 7 1 cluster_pressure 0x0000 0x29 (0x0C ∷ 0xFE ∷ []) hub
        ≡ emit_event (report_event 7 (cap_id 1 cluster_pressure) (pressure_hpa (negsuc 499))) hub)
    × (dispatch_attr 7 1 cluster_electrical 0x050B 0x29 (0x0C ∷ 0xFE ∷ []) hub
        ≡ emit_event (report_event 7 (cap_id 1 cluster_electrical) (active_power (negsuc 499))) hub)
unfolding bits_of
dispatch_attr-bits_of_example = dispatch_attr-bits_of 7 1 0 0x29 (negsuc 499) hub (omega arith)
