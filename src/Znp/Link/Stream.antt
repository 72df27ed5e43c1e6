-- ===== src/Znp/Link/Stream.antt =====
-- A stream of encoded frames through the receive task.
use zigbee_hub.Base.{
  ℕ, ◌+◌, ◌≤◌, ◌≡◌, refl, sym, ◌∙◌, List, [], ◌∷◌, ◌++◌, some, arith, length, length-append, All,
}
use mathlib.Core.List.{append_assoc, append-nil}
use zigbee_hub.Znp.Frame.{Frame, max_payload, IsFrame, SameFrame}
use zigbee_hub.Znp.Codec.{wire}
use zigbee_hub.Znp.Codec.Check.{frame_sum}
use zigbee_hub.Znp.Link.{Link, hunt_sof, rx_bytes, raw_queue_depth}
use zigbee_hub.Znp.Link.Receive.{
  after_frame, assembled, rx_bytes-wire, assembled-SameFrame, length-assembled,
}

-- The bytes that the coprocessor sends for `frames`.
abbrev pub wires : List Frame → List ℕ
wires [] = []
wires (f ∷ fs) = wire f (frame_sum f) ++ wires fs

abbrev pub AllSame : List Frame → List Frame → Type 0
AllSame [] [] = Unit {0}
AllSame [] (g ∷ gs) = ⊥
AllSame (f ∷ fs) [] = ⊥
AllSame (f ∷ fs) (g ∷ gs) = SameFrame f g × AllSame fs gs

-- In step with the sender and with room in the raw queue, the receive task turns the bytes of
-- frames of the declared form into the same frames in the same order behind those that wait, and
-- ends in step.
pub rx_bytes-wires :
    (l : Link) (fs : List Frame)
    → All IsFrame fs
    → l.rx_state ≡ hunt_sof
    → length l.rx_frame.payload ≡ max_payload
    → length l.raw_queue + length fs ≤ raw_queue_depth
    → (l' : Link) × (gs : List Frame) × (rx_bytes l (wires fs) ≡ some l')
      × AllSame fs gs
      × (l'.raw_queue ≡ l.raw_queue ++ gs)
      × (l'.rx_state ≡ hunt_sof)
      × (l'.error_count ≡ l.error_count)
unfolding rx_bytes
rx_bytes-wires l [] v e room space = (l, [], refl, tt, sym (append-nil l.raw_queue), e, refl)
rx_bytes-wires l (f ∷ fs) v e room space =
    let rest =
      rx_bytes-wires (after_frame l f) fs v.1 refl (length-assembled f l.rx_frame ∙ room)
        (omega (arith, length-append l.raw_queue (assembled f l.rx_frame ∷ []))) in
    (
      rest.0,
      assembled f l.rx_frame ∷ rest.1,
      rx_bytes-wire l f (wires fs) v.0 e room (omega arith) ∙ rest.2,
      (assembled-SameFrame f l.rx_frame v.0 room, rest.3),
      rest.4 ∙ append_assoc l.raw_queue (assembled f l.rx_frame ∷ []) rest.1,
      rest.5,
      rest.6,
    )
