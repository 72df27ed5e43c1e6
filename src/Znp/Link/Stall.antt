-- ===== src/Znp/Link/Stall.antt =====
-- Length bytes above ZNP_MAX_PAYLOAD in the receive task (znp_rx_task).
use zigbee_hub.Base.{ℕ, ◌≤◌, ◌<◌, ◌≡◌, refl, List, [], ◌∷◌, Option, none, some, arith}
use zigbee_hub.Znp.Frame.{sof, max_payload}
use zigbee_hub.Znp.Link.Receive.{headed, rx_bytes_header}
use zigbee_hub.Znp.Link.{Link, hunt_sof, read_payload, rx_byte, rx_bytes}

record IsStalled (l : Link) (start : Link) : Type 0 where
  reading : l.rx_state ≡ read_payload
  long : max_payload < l.rx_frame.payload_len
  index : l.payload_idx ≤ max_payload
  queue : l.raw_queue ≡ start.raw_queue

abbrev Stalls : Link → Option Link → Type 0
Stalls start none = ⊥
Stalls start (some l) = IsStalled l start

of_Stalls :
    (start : Link) (r : Option Link)
    → Stalls start r
    → (l : Link) × (r ≡ some l) × (l.rx_state ≡ read_payload) × (l.raw_queue ≡ start.raw_queue)
of_Stalls start none v = absurd v
of_Stalls start (some l) v = (l, refl, v.reading, v.queue)

rx_byte-Stalls : (l start : Link) (byte : ℕ) → IsStalled l start → Stalls start (rx_byte l byte)
unfolding rx_byte
rx_byte-Stalls l start byte v = rw (v.reading) (ground arith)

rx_bytes-Stalls :
    (l start : Link) (bytes : List ℕ) → IsStalled l start → Stalls start (rx_bytes l bytes)
unfolding rx_bytes
rx_bytes-Stalls l start [] v = v
rx_bytes-Stalls l start (byte ∷ bytes) v =
    next (rx_byte l byte) (rx_byte-Stalls l start byte v) (λ l'. rx_bytes-Stalls l' start bytes)
  where
    next :
        (r : Option Link)
        → Stalls start r
        → ((l' : Link) → IsStalled l' start → Stalls start (rx_bytes l' bytes))
        → Stalls start (elim r [ none ↦ none | some l' ↦ rx_bytes l' bytes ])
    next none v' k = v'
    next (some l') v' k = k l' v'

-- After SOF and a length byte above 250 the receive task reads payload bytes for ever: whatever
-- comes after the header, it does not fault, and it passes no further frame on.
pub rx_bytes_long :
    (l : Link) (len t i : ℕ) (bytes : List ℕ)
    → l.rx_state ≡ hunt_sof
    → max_payload < len
    → (l' : Link) × (rx_bytes l (sof ∷ len ∷ t ∷ i ∷ bytes) ≡ some l')
      × (l'.rx_state ≡ read_payload)
      × (l'.raw_queue ≡ l.raw_queue)
rx_bytes_long l len t i bytes e h =
    let run = rx_bytes_header l len t i bytes e in
    of_Stalls l (rx_bytes l (sof ∷ len ∷ t ∷ i ∷ bytes))
      (rw run (rx_bytes-Stalls (headed l len t i) l bytes (ground arith)))
