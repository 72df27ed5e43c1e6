-- ===== src/Znp/Codec/RoundTrip.antt =====
-- Encoding a frame and decoding the bytes.
use zigbee_hub.Base.{
  ℕ, suc, ◌+◌, ◌≤◌, ◌≡◌, refl, sym, List, [], ◌∷◌, ◌++◌, arith, length, length-append, get_or,
  overwrite, take-append, take-overwrite, length-take, length-overwrite, ◌==◌, if◌then◌else◌,
  invalid_crc, ltb, invalid_size,
}
use zigbee_hub.Znp.Frame.{Frame, sof, content, max_payload, IsFrame, SameFrame}
use zigbee_hub.Znp.Codec.{encode, decode, wire, wrote, refused, accepted, rejected}
use zigbee_hub.Znp.Codec.Check.{xor_all, frame_sum, fcs_calculate_lem}

length-content : (f : Frame) → IsFrame f → length (content f) ≡ f.payload_len
length-content f v = omega (arith, length-take f.payload_len f.payload)

pub length-wire : (f : Frame) (fcs : ℕ) → IsFrame f → length (wire f fcs) ≡ f.payload_len + 5
length-wire f fcs v = omega (arith, length-append (content f) (fcs ∷ []), length-content f v)

-- `znp_frame_encode` writes the wire form exactly when the buffer holds it, and otherwise reports
-- ESP_ERR_INVALID_SIZE; it reads no byte behind the payload.
pub encode_lem :
    (f : Frame) (buf_len : ℕ)
    → IsFrame f
    → encode f buf_len ≡ (
        if ltb buf_len (f.payload_len + 5)
        then refused invalid_size
        else wrote (wire f (frame_sum f)))
unfolding encode
encode_lem f buf_len v = ground (arith, fcs_calculate_lem f (omega arith))

get_or-append : (xs : List ℕ) (c : ℕ) → get_or (xs ++ c ∷ []) (length xs) 0 ≡ c
get_or-append [] c = refl
get_or-append (x ∷ xs) c = get_or-append xs c

check_at :
    (cmd_type cmd_id : ℕ) (ps : List ℕ) (c : ℕ)
    → get_or (sof ∷ length ps ∷ cmd_type ∷ cmd_id ∷ ps ++ c ∷ []) (4 + length ps) 0 ≡ c
check_at cmd_type cmd_id ps c =
    let e : 4 + length ps ≡ suc (suc (suc (suc (length ps)))) = omega arith in
    rw e (get_or-append ps c)

abbrev pub received : ℕ → ℕ → List ℕ → Frame → Frame
received cmd_type cmd_id ps old = record {
  cmd_type = cmd_type;
  cmd_id = cmd_id;
  payload = overwrite ps old.payload;
  payload_len = length ps;
}

-- `znp_frame_decode` on bytes of the right shape.
pub decode_lem :
    (cmd_type cmd_id : ℕ) (ps : List ℕ) (c : ℕ) (old : Frame)
    → length ps ≤ max_payload
    → length old.payload ≡ max_payload
    → decode (sof ∷ length ps ∷ cmd_type ∷ cmd_id ∷ ps ++ c ∷ []) old ≡ (
        if xor_all (length ps) (cmd_type ∷ cmd_id ∷ ps) == c
        then accepted (received cmd_type cmd_id ps old)
        else rejected invalid_crc (received cmd_type cmd_id ps old))
unfolding decode
decode_lem cmd_type cmd_id ps c old short room = ground (
  arith,
  length-append ps (c ∷ []),
  take-append ps (c ∷ []),
  check_at cmd_type cmd_id ps c,
  fcs_calculate_lem (received cmd_type cmd_id ps old),
  take-overwrite ps old.payload,
  length-overwrite ps old.payload,
)

-- What `znp_frame_encode` wrote, `znp_frame_decode` accepts, whatever frame it decodes into, as a
-- frame of the same type, id, length and content.
pub decode-encode :
    (f old : Frame) (buf_len : ℕ) (w : List ℕ)
    → IsFrame f
    → length old.payload ≡ max_payload
    → encode f buf_len ≡ wrote w
    → (g : Frame) × (decode w old ≡ accepted g) × SameFrame f g
decode-encode f old buf_len w v room e =
    let len : length (content f) ≡ f.payload_len = length-content f v in
    let written : wire f (frame_sum f) ≡ w = ground (arith, encode_lem f buf_len v) in
    let g : Frame = received f.cmd_type f.cmd_id (content f) old in
    let got : decode (wire f (frame_sum f)) old ≡ accepted g =
      ground (arith, decode_lem f.cmd_type f.cmd_id (content f) (frame_sum f) old) in
    (
      g,
      rw (← written) got,
      record {
        same_type = refl;
        same_id = refl;
        same_len = sym len;
        same_content = sym (take-overwrite (content f) old.payload (omega arith));
      },
    )
