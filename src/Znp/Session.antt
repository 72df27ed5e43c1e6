-- ===== src/Znp/Session.antt =====
-- `znp_transport_send_sreq` as its callers see it: the requests that they send, in order, and the
-- answers that come, in order. An answer is the SRSP, or nothing within the time (ZNP_ERR_TIMEOUT);
-- where the list of answers has ended, nothing comes. `Znp.Link` has the mechanism.
use zigbee_hub.Base.{
  ◌≤◌, ◌≡◌, refl, false, arith, List, [], ◌∷◌, ◌++◌, Option, none, some, ltb, if◌then◌else◌, EspErr,
  invalid_size, znp_timeout,
}
use zigbee_hub.Znp.Frame.{Frame, max_payload}

pub record Session : Type 0 where
  pub sent : List Frame
  pub answers : List (Option Frame)

-- The status, with `resp` where it was written.
pub data Reply : Type 0 where
  got : Frame → Reply
  failed : EspErr → Reply

unfoldable pub take_answer : List Frame → List (Option Frame) → Reply × Session
take_answer sent [] = (failed znp_timeout, record { sent = sent; answers = [] })
take_answer sent (none ∷ rest) = (failed znp_timeout, record { sent = sent; answers = rest })
take_answer sent (some f ∷ rest) = (got f, record { sent = sent; answers = rest })

-- A frame that the encoder refuses is not sent.
unfoldable pub send_sreq : Frame → Session → Reply × Session
unfolding take_answer
send_sreq req s =
    if ltb max_payload req.payload_len
    then (failed invalid_size, s)
    else take_answer (s.sent ++ req ∷ []) s.answers

-- A request that fits is sent, whatever the answer.
pub sent-send_sreq :
    (req : Frame) (s : Session)
    → req.payload_len ≤ max_payload
    → (send_sreq req s).1.sent ≡ s.sent ++ req ∷ []
unfolding send_sreq take_answer
sent-send_sreq req s h =
    let fits : ltb max_payload req.payload_len ≡ false = ground arith in
    rw fits (by_answer (s.sent ++ req ∷ []) s.answers)
  where
    by_answer :
        (sent : List Frame) (answers : List (Option Frame))
        → (take_answer sent answers).1.sent ≡ sent
    by_answer sent [] = refl
    by_answer sent (none ∷ rest) = refl
    by_answer sent (some f ∷ rest) = refl
