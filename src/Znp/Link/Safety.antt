-- ===== src/Znp/Link/Safety.antt =====
-- Array bounds and queue bounds of the receive task (znp_rx_task).
use zigbee_hub.Base.{
  ℕ, ◌≤◌, ◌≡◌, refl, Option, none, List, [], ◌∷◌, some, arith, length, length-set, length-append,
}
use zigbee_hub.Znp.Frame.{max_payload}
use zigbee_hub.Znp.Codec.Check.{fcs_calculate_lem}
use zigbee_hub.Znp.Link.{
  Link, RxState, hunt_sof, read_len, read_cmd_type, read_cmd_id, read_payload, read_fcs, rx_in,
  rx_byte, rx_bytes, raw_queue_depth,
}

pub record IsLink (l : Link) : Type 0 where
  pub array : length l.rx_frame.payload ≡ max_payload
  pub index : l.payload_idx ≤ max_payload
  pub checkable : l.rx_state ≡ read_fcs → l.rx_frame.payload_len ≤ max_payload
  pub queued : length l.raw_queue ≤ raw_queue_depth

-- No fault, and the next state is within its bounds again.
abbrev pub IsSafe : Option Link → Type 0
IsSafe none = ⊥
IsSafe (some l) = IsLink l

rx_in-IsSafe :
    (s : RxState) (l : Link) (byte : ℕ) → l.rx_state ≡ s → IsLink l → IsSafe (rx_in s l byte)
unfolding rx_byte
rx_in-IsSafe hunt_sof l byte e v = ground arith
rx_in-IsSafe read_len l byte e v = ground arith
rx_in-IsSafe read_cmd_type l byte e v = ground arith
rx_in-IsSafe read_cmd_id l byte e v = ground arith
rx_in-IsSafe read_payload l byte e v =
    ground (arith, length-set l.rx_frame.payload l.payload_idx byte)
rx_in-IsSafe read_fcs l byte e v =
    rw (fcs_calculate_lem l.rx_frame (omega (arith, v.checkable e)))
      (ground (arith, length-append l.raw_queue (l.rx_frame ∷ [])))

rx_byte-IsSafe : (l : Link) (byte : ℕ) → IsLink l → IsSafe (rx_byte l byte)
unfolding rx_byte
rx_byte-IsSafe l byte v = rx_in-IsSafe l.rx_state l byte refl v

rx_bytes-step :
    (r : Option Link) (bytes : List ℕ)
    → IsSafe r
    → ((l : Link) → IsLink l → IsSafe (rx_bytes l bytes))
    → IsSafe (elim r [ none ↦ none | some l ↦ rx_bytes l bytes ])
rx_bytes-step none bytes v next = v
rx_bytes-step (some l) bytes v next = next l v

-- From a state within its bounds, the receive task faults on no sequence of bytes: it never writes
-- or reads behind the payload array, and its state, the raw queue's depth included, stays in
-- bounds.
pub rx_bytes-IsSafe : (l : Link) (bytes : List ℕ) → IsLink l → IsSafe (rx_bytes l bytes)
unfolding rx_bytes
rx_bytes-IsSafe l [] v = v
rx_bytes-IsSafe l (byte ∷ bytes) v =
    rx_bytes-step (rx_byte l byte) bytes (rx_byte-IsSafe l byte v)
      λ l' v'. rx_bytes-IsSafe l' bytes v'
