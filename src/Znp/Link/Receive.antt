-- ===== src/Znp/Link/Receive.antt =====
-- What the receive task makes of the wire form of a frame.
use zigbee_hub.Base.{
  ℕ, suc, ◌+◌, ◌≤◌, ◌<◌, ◌≡◌, refl, sym, ap, ◌∙◌, List, [], ◌∷◌, ◌++◌, some, arith, length,
  length-set, take, take-set, set, ltb, if◌then◌else◌, length-take,
}
use mathlib.Core.List.{append_assoc, append-nil}
use zigbee_hub.Znp.Frame.{Frame, sof, max_payload, content, IsFrame, SameFrame}
use zigbee_hub.Znp.Codec.{wire}
use zigbee_hub.Znp.Codec.Check.{frame_sum, fcs_calculate_lem}
use zigbee_hub.Znp.Link.{Link, hunt_sof, read_payload, read_fcs, rx_byte, rx_bytes, raw_queue_depth}

-- The state behind SOF, length, type and id.
abbrev pub headed : Link → ℕ → ℕ → ℕ → Link
headed l len t i = record l {
  rx_state = if ltb 0 len then read_payload else read_fcs;
  payload_idx = 0;
  rx_frame = record (l.rx_frame) { cmd_type = t; cmd_id = i; payload_len = len };
}

pub rx_bytes_header :
    (l : Link) (len t i : ℕ) (bytes : List ℕ)
    → l.rx_state ≡ hunt_sof
    → rx_bytes l (sof ∷ len ∷ t ∷ i ∷ bytes) ≡ rx_bytes (headed l len t i) bytes
unfolding rx_bytes rx_byte
rx_bytes_header l len t i bytes e = rw (e, rx_bytes)

abbrev stored : Link → ℕ → Link
stored l x = record l {
  rx_frame = record (l.rx_frame) { payload = set l.rx_frame.payload l.payload_idx x };
  payload_idx = l.payload_idx + 1;
}

rx_byte_more :
    (l : Link) (x : ℕ)
    → l.rx_state ≡ read_payload
    → l.payload_idx + 1 < l.rx_frame.payload_len
    → l.rx_frame.payload_len ≤ max_payload
    → rx_byte l x ≡ some (stored l x)
unfolding rx_byte
rx_byte_more l x e h short = rw (e, rx_byte) (ground arith)

rx_byte_last :
    (l : Link) (x : ℕ)
    → l.rx_state ≡ read_payload
    → l.payload_idx + 1 ≡ l.rx_frame.payload_len
    → l.rx_frame.payload_len ≤ max_payload
    → rx_byte l x ≡ some (record (stored l x) { rx_state = read_fcs })
unfolding rx_byte
rx_byte_last l x e h short = rw (e, rx_byte) (ground arith)

abbrev write_at : List ℕ → ℕ → List ℕ → List ℕ
write_at payload i [] = payload
write_at payload i (x ∷ xs) = write_at (set payload i x) (i + 1) xs

take-write_at :
    (payload : List ℕ) (i : ℕ) (xs : List ℕ)
    → i + length xs ≤ length payload
    → take (i + length xs) (write_at payload i xs) ≡ take i payload ++ xs
take-write_at payload i [] h =
    let e : i + 0 ≡ i = omega arith in rw (e, append-nil (take i payload))
take-write_at payload i (x ∷ xs) h =
    let e : i + suc (length xs) ≡ i + 1 + length xs = omega arith in
    let s : i + 1 ≡ suc i = omega arith in
    rw e (
      take-write_at (set payload i x) (i + 1) xs (omega (arith, length-set payload i x))
      ∙ rw s (rw (take-set payload i x (omega arith)) (append_assoc (take i payload) (x ∷ []) xs)))

length-write_at :
    (payload : List ℕ) (i : ℕ) (xs : List ℕ) → length (write_at payload i xs) ≡ length payload
length-write_at payload i [] = refl
length-write_at payload i (x ∷ xs) =
    length-write_at (set payload i x) (i + 1) xs ∙ length-set payload i x

-- The state behind the payload.
abbrev filled : Link → List ℕ → Link
filled l xs = record l {
  rx_state = read_fcs;
  payload_idx = l.payload_idx + length xs;
  rx_frame = record (l.rx_frame) { payload = write_at l.rx_frame.payload l.payload_idx xs };
}

rx_bytes_payload :
    (l : Link) (x : ℕ) (xs rest : List ℕ)
    → l.rx_state ≡ read_payload
    → l.payload_idx + length (x ∷ xs) ≡ l.rx_frame.payload_len
    → l.rx_frame.payload_len ≤ max_payload
    → rx_bytes l (x ∷ xs ++ rest) ≡ rx_bytes (filled l (x ∷ xs)) rest
unfolding rx_bytes
rx_bytes_payload l x [] rest e h short =
    rw (rx_byte_last l x e (omega arith) short, rx_bytes)
      (ap (λ (k : Link). rx_bytes k rest) (ground arith))
rx_bytes_payload l x (y ∷ ys) rest e h short =
    rw (rx_byte_more l x e (omega arith) short, rx_bytes)
      (rx_bytes_payload (stored l x) y ys rest e (omega arith) short
        ∙ ap (λ (k : Link). rx_bytes k rest) (ground arith))

-- The frame that the task assembles from the wire form of `f`.
abbrev pub assembled : Frame → Frame → Frame
assembled f old = record {
  cmd_type = f.cmd_type;
  cmd_id = f.cmd_id;
  payload = write_at old.payload 0 (content f);
  payload_len = f.payload_len;
}

pub length-assembled : (f old : Frame) → length (assembled f old).payload ≡ length old.payload
length-assembled f old = length-write_at old.payload 0 (content f)

pub assembled-SameFrame :
    (f old : Frame) → IsFrame f → length old.payload ≡ max_payload → SameFrame f (assembled f old)
assembled-SameFrame f old v room =
    let len : length (content f) ≡ f.payload_len =
      omega (arith, length-take f.payload_len f.payload) in
    let zero_plus : 0 + length (content f) ≡ f.payload_len = omega (arith, len) in
    record {
      same_type = refl;
      same_id = refl;
      same_len = refl;
      same_content =
          sym (rw zero_plus at (take-write_at old.payload 0 (content f) (omega (arith, len))));
    }

-- The state after a frame that the raw queue has room for.
abbrev pub after_frame : Link → Frame → Link
after_frame l f = record l {
  rx_state = hunt_sof;
  payload_idx = f.payload_len;
  rx_frame = assembled f l.rx_frame;
  raw_queue = l.raw_queue ++ assembled f l.rx_frame ∷ [];
}

-- The last state before the check byte.
abbrev before_check : Link → Frame → Link
before_check l f = record l {
  rx_state = read_fcs;
  payload_idx = f.payload_len;
  rx_frame = assembled f l.rx_frame;
}

rx_bytes-content :
    (l : Link) (f : Frame) (cs rest : List ℕ)
    → content f ≡ cs
    → length cs ≡ f.payload_len
    → f.payload_len ≤ max_payload
    → rx_bytes (headed l f.payload_len f.cmd_type f.cmd_id) (cs ++ rest)
      ≡ rx_bytes (before_check l f) rest
rx_bytes-content l f [] rest e len short = ap (λ (k : Link). rx_bytes k rest) (ground arith)
rx_bytes-content l f (x ∷ xs) rest e len short =
    rx_bytes_payload (headed l f.payload_len f.cmd_type f.cmd_id) x xs rest (ground arith)
      (omega arith) short
    ∙ ap (λ (k : Link). rx_bytes k rest) (ground arith)

-- The check of the assembled frame is that of the frame.
sum-assembled :
    (f old : Frame) → SameFrame f (assembled f old) → frame_sum (assembled f old) ≡ frame_sum f
sum-assembled f old s = rw (← s.same_content)

rx_byte_check :
    (l : Link) (f : Frame)
    → IsFrame f
    → length l.rx_frame.payload ≡ max_payload
    → length l.raw_queue < raw_queue_depth
    → rx_byte (before_check l f) (frame_sum f) ≡ some (after_frame l f)
unfolding rx_byte
rx_byte_check l f v room space = ground (
  arith,
  length-write_at l.rx_frame.payload 0 (content f),
  fcs_calculate_lem (assembled f l.rx_frame),
  sum-assembled f l.rx_frame (assembled-SameFrame f l.rx_frame v room),
)

-- In step with the sender, the task takes the wire form of a frame for that frame.
pub rx_bytes-wire :
    (l : Link) (f : Frame) (rest : List ℕ)
    → IsFrame f
    → l.rx_state ≡ hunt_sof
    → length l.rx_frame.payload ≡ max_payload
    → length l.raw_queue < raw_queue_depth
    → rx_bytes l (wire f (frame_sum f) ++ rest) ≡ rx_bytes (after_frame l f) rest
unfolding rx_bytes
rx_bytes-wire l f rest v e room space =
    let len : length (content f) ≡ f.payload_len =
      omega (arith, length-take f.payload_len f.payload) in
    rw (append_assoc (content f) (frame_sum f ∷ []) rest) (
      rx_bytes_header l f.payload_len f.cmd_type f.cmd_id _ e
      ∙ rx_bytes-content l f (content f) (frame_sum f ∷ rest) refl len v.fits
      ∙ rw (rx_byte_check l f v room space, rx_bytes) refl)
