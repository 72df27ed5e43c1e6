-- ===== src/Znp/Codec.antt =====
-- components/znp_transport/znp_mt_protocol.c: the frame check sequence, `znp_frame_encode` and
-- `znp_frame_decode`.
pub mod Check
pub mod RoundTrip
pub mod Detection
use zigbee_hub.Base.{
  ℕ, zero, suc, ◌+◌, Bool, not, ◌||◌, List, [], ◌∷◌, ◌++◌, Option, none, some, bit_xor, ltb, ◌==◌,
  if◌then◌else◌, length, get_or, take, drop, overwrite, EspErr, invalid_arg, invalid_size,
  invalid_crc,
}
use zigbee_hub.Znp.Frame.{Frame, sof, max_payload, content}

-- `for (i = 0; i < payload_len; i++) fcs ^= payload[i];`; `none` is a read behind the array.
unfoldable pub fcs_loop : ℕ → List ℕ → ℕ → Option ℕ
fcs_loop zero payload fcs = some fcs
fcs_loop (suc left) [] fcs = none
fcs_loop (suc left) (x ∷ payload) fcs = fcs_loop left payload (bit_xor fcs x)

unfoldable pub fcs_calculate : Frame → Option ℕ
fcs_calculate f =
    fcs_loop f.payload_len f.payload (bit_xor (bit_xor f.payload_len f.cmd_type) f.cmd_id)

-- What `znp_frame_encode` leaves: the first `*out_len` bytes of `buf`, with the status ESP_OK; or
-- the status alone; `fault` is a read behind the payload array.
pub data Encoded : Type 0 where
  wrote : List ℕ → Encoded
  refused : EspErr → Encoded
  fault : Encoded

abbrev pub wire : Frame → ℕ → List ℕ
wire f fcs = sof ∷ f.payload_len ∷ f.cmd_type ∷ f.cmd_id ∷ content f ++ fcs ∷ []

unfoldable pub finish_encode : Frame → Option ℕ → Encoded
finish_encode f none = fault
finish_encode f (some fcs) = wrote (wire f fcs)

unfoldable pub encode : Frame → ℕ → Encoded
unfolding finish_encode
encode f buf_len =
    if ltb buf_len (f.payload_len + 5)
    then refused invalid_size
    else finish_encode f (fcs_calculate f)

-- What `znp_frame_decode` leaves: its status and `*frame`; `overrun` is a write behind the payload
-- array, which a length byte above 250 brings about.
pub data Decoded : Type 0 where
  accepted : Frame → Decoded
  rejected : EspErr → Frame → Decoded
  overrun : Decoded

unfoldable pub finish_decode : Frame → ℕ → Option ℕ → Decoded
finish_decode f received none = overrun
finish_decode f received (some expected) =
    if expected == received then accepted f else rejected invalid_crc f

unfoldable pub store_decoded : List ℕ → ℕ → Frame → Frame
store_decoded buf payload_len old = record {
  cmd_type = get_or buf 2 0;
  cmd_id = get_or buf 3 0;
  payload = overwrite (take payload_len (drop 4 buf)) old.payload;
  payload_len = payload_len;
}

-- `buf` holds the `len` bytes that may be read.
unfoldable pub decode : List ℕ → Frame → Decoded
unfolding finish_decode store_decoded
decode buf old =
    if ltb (length buf) 5 || not (get_or buf 0 0 == sof)
    then rejected invalid_arg old
    else let payload_len = get_or buf 1 0 in
      if ltb (length buf) (payload_len + 5)
      then rejected invalid_size old
      else if ltb max_payload payload_len
      then overrun
      else let f = store_decoded buf payload_len old in
        finish_decode f (get_or buf (4 + payload_len) 0) (fcs_calculate f)
