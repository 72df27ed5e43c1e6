-- ===== src/Tests/Transport.antt =====
-- A SYS_PING request, the bytes of its frame and its answer, through the transport.
use zigbee_hub.Base.{if◌then◌else◌, ok, znp_reset_timeout}
use zigbee_hub.Znp.Link.Reset.{reset_coprocessor, any_reset_ind, reset_coprocessor_lem}
use zigbee_hub.Base.{
  ℕ, zero, suc, ◌≡◌, ◌<◌, refl, true, false, List, [], ◌∷◌, ◌++◌, some, arith, length, take,
  replicate, length-replicate, All, invalid_crc,
}
use zigbee_hub.Znp.Frame.{Frame, IsFrame, SameFrame, sof, max_payload}
use zigbee_hub.Znp.Codec.{
  wire, encode, decode, fcs_calculate, fcs_loop, wrote, accepted, rejected, finish_encode,
  finish_decode, store_decoded,
}
use zigbee_hub.Znp.Codec.Check.{frame_sum}
use zigbee_hub.Znp.Codec.RoundTrip.{decode-encode}
use zigbee_hub.Znp.Codec.Detection.{decode_change}
use zigbee_hub.Znp.Link.{
  Link, Sent, hunt_sof, read_payload, areq_queue_depth, rx_bytes, send_sreq_timeout, srsp_type,
}
use zigbee_hub.Znp.Link.Safety.{IsLink, IsSafe, rx_bytes-IsSafe}
use zigbee_hub.Znp.Link.Stall.{rx_bytes_long}
use zigbee_hub.Znp.Link.Stream.{wires, AllSame, rx_bytes-wires}
use zigbee_hub.Znp.Link.Requests.{send_sreq_timeout_lem, Outcome, last_answer, areqs}

All-replicate : (n : ℕ) → All (λ x. x < 256) (replicate n 0)
All-replicate zero = tt
All-replicate (suc n) = (omega arith, All-replicate n)

abbrev ping : Frame
ping = record {
  cmd_type = 0x21;
  cmd_id = 0x01;
  payload = 0x59 ∷ 0x06 ∷ replicate 248 0;
  payload_len = 2;
}

abbrev ping_answer : Frame
ping_answer = record {
  cmd_type = 0x61;
  cmd_id = 0x01;
  payload = 0x59 ∷ 0x06 ∷ replicate 248 0;
  payload_len = 2;
}

abbrev idle_frame : Frame
idle_frame = record { cmd_type = 0; cmd_id = 0; payload = replicate 250 0; payload_len = 0 }

abbrev idle : Link
idle = record {
  initialized = true;
  rx_state = hunt_sof;
  rx_frame = idle_frame;
  payload_idx = 0;
  raw_queue = [];
  areq_queue = [];
  pending_cmd_type = 0;
  pending_cmd_id = 0;
  srsp_sem = false;
  srsp_frame = idle_frame;
  reset_ind_sem = false;
  error_count = 0;
}

room : length {A = ℕ} (replicate 250 0) ≡ max_payload
room = length-replicate {A = ℕ} 250 0

ping-IsFrame : IsFrame ping
ping-IsFrame = record {
  whole = refl;
  fits = omega arith;
  type_byte = omega arith;
  id_byte = omega arith;
  bytes = (omega arith, (omega arith, All-replicate 248));
}

ping_bytes : encode ping 255 ≡ wrote (wire ping 0x7D)
unfolding encode fcs_calculate finish_encode fcs_loop
ping_bytes = refl

decode-encode_example :
    (g : Frame) × (decode (wire ping 0x7D) idle_frame ≡ accepted g) × SameFrame ping g
decode-encode_example =
    decode-encode ping idle_frame 255 (wire ping 0x7D) ping-IsFrame room ping_bytes

ping_decoded :
    decode (sof ∷ 2 ∷ (0x21 ∷ 0x01 ∷ []) ++ 0x59 ∷ 0x06 ∷ 0x7D ∷ []) idle_frame
    ≡ accepted (store_decoded (wire ping 0x7D) 2 idle_frame)
unfolding decode fcs_calculate fcs_loop finish_decode store_decoded
ping_decoded = refl

decode_change_example :
    (g : Frame) × (decode (sof ∷ 2 ∷ (0x21 ∷ 0x01 ∷ []) ++ 0x58 ∷ 0x06 ∷ 0x7D ∷ []) idle_frame
      ≡ rejected invalid_crc g)
decode_change_example =
    decode_change 2 0x59 0x58 (0x21 ∷ 0x01 ∷ []) (0x06 ∷ 0x7D ∷ []) idle_frame
      (store_decoded (wire ping 0x7D) 2 idle_frame) refl (omega arith) room ping_decoded
      (omega arith)

rx_bytes-wires_example :
    (l' : Link) × (gs : List Frame) × (rx_bytes idle (wires (ping ∷ ping ∷ [])) ≡ some l')
    × AllSame (ping ∷ ping ∷ []) gs
    × (l'.raw_queue ≡ gs)
    × (l'.rx_state ≡ hunt_sof)
    × (l'.error_count ≡ 0)
rx_bytes-wires_example =
    rx_bytes-wires idle (ping ∷ ping ∷ []) (ping-IsFrame, (ping-IsFrame, tt)) refl room
      (omega arith)

idle-IsLink : IsLink idle
idle-IsLink = record {
  array = room;
  index = omega arith;
  checkable = λ e. ground arith;
  queued = omega arith;
}

rx_bytes-IsSafe_example : IsSafe (rx_bytes idle (0xFE ∷ 0xFF ∷ 0xFE ∷ 0x02 ∷ 0x21 ∷ []))
rx_bytes-IsSafe_example = rx_bytes-IsSafe idle (0xFE ∷ 0xFF ∷ 0xFE ∷ 0x02 ∷ 0x21 ∷ []) idle-IsLink

rx_bytes_long_example :
    (l' : Link) × (rx_bytes idle (sof ∷ 251 ∷ 0x44 ∷ 0x81 ∷ wire ping 0x7D) ≡ some l')
    × (l'.rx_state ≡ read_payload)
    × (l'.raw_queue ≡ [])
rx_bytes_long_example = rx_bytes_long idle 251 0x44 0x81 (wire ping 0x7D) refl (omega arith)

send_sreq_timeout_lem_example :
    (r : Sent) × (send_sreq_timeout idle ping true (ping_answer ∷ []) ≡ some r)
    × (r.written ≡ wire ping (frame_sum ping))
    × Outcome (last_answer (srsp_type 0x21) 0x01 (ping_answer ∷ [])) r
    × (r.link.areq_queue ≡ take areq_queue_depth ([] ++ areqs (ping_answer ∷ [])))
send_sreq_timeout_lem_example =
    send_sreq_timeout_lem areq_queue_depth idle ping (ping_answer ∷ []) refl refl ping-IsFrame
      (omega arith)

abbrev reset_ind : Frame
reset_ind = record {
  cmd_type = 0x41;
  cmd_id = 0x80;
  payload = 0 ∷ replicate 249 0;
  payload_len = 1;
}

reset_coprocessor_lem_example :
    ((reset_coprocessor idle (ping_answer ∷ reset_ind ∷ [])).0
      ≡ (if any_reset_ind (ping_answer ∷ reset_ind ∷ []) then ok else znp_reset_timeout))
    × ((reset_coprocessor idle (ping_answer ∷ reset_ind ∷ [])).1.reset_ind_sem ≡ false)
reset_coprocessor_lem_example = reset_coprocessor_lem idle (ping_answer ∷ reset_ind ∷ []) refl
