-- ===== src/Znp/Frame.antt =====
-- components/znp_transport/include/znp_types.h: the MT frame and its constants, and the command
-- bytes of znp_mt_protocol.h that the program uses.
use zigbee_hub.Base.{
  ℕ, ◌≤◌, ◌<◌, ◌≡◌, List, bit_and, bit_or, length, take, replicate, overwrite, All,
}

-- `znp_frame_t`
pub record Frame : Type 0 where
  pub cmd_type : ℕ
  pub cmd_id : ℕ
  pub payload : List ℕ
  pub payload_len : ℕ

abbrev pub sof : ℕ
sof = 0xFE

abbrev pub max_payload : ℕ
max_payload = 250

abbrev pub frame_type_sreq : ℕ
frame_type_sreq = 0x20

abbrev pub frame_type_areq : ℕ
frame_type_areq = 0x40

abbrev pub frame_type_srsp : ℕ
frame_type_srsp = 0x60

abbrev pub frame_type_mask : ℕ
frame_type_mask = 0xE0

-- `ZNP_CMD_TYPE(subsys, ftype)`
abbrev pub make_cmd_type : ℕ → ℕ → ℕ
make_cmd_type subsys ftype = bit_or (bit_and subsys 0x1F) ftype

-- The declared contents of a frame that is in use: a whole array, a length within it, bytes.
pub record IsFrame (f : Frame) : Type 0 where
  pub whole : length f.payload ≡ max_payload
  pub fits : f.payload_len ≤ max_payload
  pub type_byte : f.cmd_type < 256
  pub id_byte : f.cmd_id < 256
  pub bytes : All (λ x. x < 256) f.payload

-- The bytes of the array that belong to the frame; those behind them are stale.
abbrev pub content : Frame → List ℕ
content f = take f.payload_len f.payload

-- Two frames that a receiver cannot tell apart.
pub record SameFrame (f g : Frame) : Type 0 where
  pub same_type : f.cmd_type ≡ g.cmd_type
  pub same_id : f.cmd_id ≡ g.cmd_id
  pub same_len : f.payload_len ≡ g.payload_len
  pub same_content : content f ≡ content g

-- `znp_frame_t req = { .cmd_type, .cmd_id, .payload_len }; memcpy(req.payload, p, n);`: the
-- initializer clears what it does not name.
unfoldable pub request : ℕ → ℕ → List ℕ → Frame
request cmd_type cmd_id bytes = record {
  cmd_type = cmd_type;
  cmd_id = cmd_id;
  payload = overwrite bytes (replicate max_payload 0);
  payload_len = length bytes;
}
