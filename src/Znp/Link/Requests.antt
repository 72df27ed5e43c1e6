-- ===== src/Znp/Link/Requests.antt =====
-- A request (SREQ), the frames that come while it waits, and its answer (SRSP).
use zigbee_hub.Base.{
  ℕ, ◌+◌, ◌≤◌, ◌<◌, ◌≡◌, refl, sym, ◌∙◌, Bool, true, false, ◌&&◌, List, [], ◌∷◌, ◌++◌, Option, none,
  some, arith, length, bit_and, ◌==◌, ==_iff, if◌then◌else◌, take, ok, znp_timeout, Bool-cases, inl,
  inr,
}
use mathlib.Core.List.{append-nil}
use zigbee_hub.Base.Bits.{all_below, all_below_sound}
use zigbee_hub.Base.Queue.{offer, take_short, take-offer, length-offer}
use zigbee_hub.Znp.Frame.{
  Frame, frame_type_mask, frame_type_srsp, frame_type_areq, max_payload, IsFrame,
}
use zigbee_hub.Znp.Codec.{wire}
use zigbee_hub.Znp.Codec.Check.{frame_sum}
use zigbee_hub.Znp.Codec.RoundTrip.{encode_lem}
use zigbee_hub.Znp.Link.{
  Link, Sent, areq_queue_depth, dispatch_frame, dispatch_all, srsp_type, exchange, collect,
  send_sreq_timeout,
}

-- The SRSP of a command: the same command id, the same subsystem, the type bits of an SRSP.
abbrev pub answers : ℕ → ℕ → Frame → Bool
answers t i frame = frame.cmd_type == t && frame.cmd_id == i

-- The last of the frames that answers a command.
abbrev pub last_answer : ℕ → ℕ → List Frame → Option Frame
last_answer t i [] = none
last_answer t i (f ∷ fs) = elim (last_answer t i fs) [
  | some g ↦ some g
  | none ↦ if answers t i f then some f else none
]

abbrev pub areqs : List Frame → List Frame
areqs [] = []
areqs (f ∷ fs) =
    let rest = areqs fs in
    if bit_and f.cmd_type frame_type_mask == frame_type_areq then f ∷ rest else rest

srsp_table : all_below 256 (λ t. bit_and (srsp_type t) frame_type_mask == frame_type_srsp) ≡ true
unfolding all_below
srsp_table = refl

srsp_type-masked : (t : ℕ) → t < 256 → bit_and (srsp_type t) frame_type_mask ≡ frame_type_srsp
srsp_type-masked t h = (==_iff _ _).0 (all_below_sound 256 _ t srsp_table h)

module _ (t i : ℕ) (masked : bit_and t frame_type_mask ≡ frame_type_srsp) where
  dispatch_frame_answer :
      (l : Link) (f : Frame)
      → l.pending_cmd_type ≡ t
      → l.pending_cmd_id ≡ i
      → ((dispatch_frame l f).srsp_sem ≡ (if answers t i f then true else l.srsp_sem))
        × ((dispatch_frame l f).srsp_frame ≡ (if answers t i f then f else l.srsp_frame))
        × ((dispatch_frame l f).pending_cmd_type ≡ t)
        × ((dispatch_frame l f).pending_cmd_id ≡ i)
        × ((dispatch_frame l f).initialized ≡ l.initialized)
  unfolding dispatch_frame
  dispatch_frame_answer l f p q = elim (Bool-cases (f.cmd_type == t)) [
    | inl e ↦
        let s : f.cmd_type ≡ t = (==_iff f.cmd_type t).0 e in rw (p, q, s, masked) (ground arith)
    | inr e ↦ ground arith
  ]

  dispatch_all_answer :
      (l : Link) (fs : List Frame)
      → l.pending_cmd_type ≡ t
      → l.pending_cmd_id ≡ i
      → ((dispatch_all l fs).srsp_sem
          ≡ elim (last_answer t i fs) [ none ↦ l.srsp_sem | some g ↦ true ])
        × ((dispatch_all l fs).srsp_frame
            ≡ elim (last_answer t i fs) [ none ↦ l.srsp_frame | some g ↦ g ])
  unfolding dispatch_all
  dispatch_all_answer l [] p q = (refl, refl)
  dispatch_all_answer l (f ∷ fs) p q =
      let here = dispatch_frame_answer l f p q in
      let there = dispatch_all_answer (dispatch_frame l f) fs here.2 here.3 in ground arith

abbrev is_areq : Frame → Bool
is_areq f = bit_and f.cmd_type frame_type_mask == frame_type_areq

dispatch_frame-offer :
    (l : Link) (f : Frame)
    → (dispatch_frame l f).areq_queue
      ≡ (if is_areq f then offer areq_queue_depth l.areq_queue f else l.areq_queue)
unfolding dispatch_frame
dispatch_frame-offer l f = ground arith

-- The AREQ queue keeps what comes first.
dispatch_all-areqs :
    (n : ℕ) (l : Link) (fs : List Frame)
    → n ≡ areq_queue_depth
    → length l.areq_queue ≤ n
    → (dispatch_all l fs).areq_queue ≡ take n (l.areq_queue ++ areqs fs)
unfolding dispatch_all
dispatch_all-areqs n l [] e h = sym (rw (append-nil l.areq_queue) (take_short n l.areq_queue h))
dispatch_all-areqs n l (f ∷ fs) e h = elim (Bool-cases (is_areq f)) [
  | inl a ↦
      let queued : (dispatch_frame l f).areq_queue ≡ offer n l.areq_queue f =
        ground (arith, dispatch_frame-offer l f) in
      dispatch_all-areqs n (dispatch_frame l f) fs e (rw queued (length-offer n l.areq_queue f h))
      ∙ rw (queued, a) (take-offer n l.areq_queue f (areqs fs) h)
  | inr a ↦
      let same : (dispatch_frame l f).areq_queue ≡ l.areq_queue =
        ground (arith, dispatch_frame-offer l f) in
      dispatch_all-areqs n (dispatch_frame l f) fs e (rw same h) ∙ rw (same, a)
]

-- What the caller gets from the last answer among the frames that came.
abbrev pub Outcome : Option Frame → Sent → Type 0
Outcome none r = (r.status ≡ znp_timeout) × (r.resp ≡ none)
Outcome (some f) r = (r.status ≡ ok) × (r.resp ≡ some f)

collect_keeps :
    (l : Link) (wire : List ℕ)
    → ((collect l wire).written ≡ wire) × ((collect l wire).link.areq_queue ≡ l.areq_queue)
unfolding collect
collect_keeps l wire = ground arith

collect-Outcome :
    (l k : Link) (wire : List ℕ) (answer : Option Frame)
    → k.srsp_sem ≡ false
    → (l.srsp_sem ≡ elim answer [ none ↦ k.srsp_sem | some g ↦ true ])
    → (l.srsp_frame ≡ elim answer [ none ↦ k.srsp_frame | some g ↦ g ])
    → Outcome answer (collect l wire)
unfolding collect
collect-Outcome l k wire none z p q = ground arith
collect-Outcome l k wire (some f) z p q = ground arith

exchange-Outcome :
    (l : Link) (req : Frame) (wire : List ℕ) (arrivals : List Frame)
    → req.cmd_type < 256
    → Outcome
        (last_answer (srsp_type req.cmd_type) req.cmd_id arrivals)
        (exchange l req wire arrivals)
unfolding exchange
exchange-Outcome l req wire arrivals h =
    let begun : Link = record l {
      pending_cmd_type = srsp_type req.cmd_type;
      pending_cmd_id = req.cmd_id;
      srsp_sem = false;
    } in
    let found =
      dispatch_all_answer (srsp_type req.cmd_type) req.cmd_id (srsp_type-masked req.cmd_type h)
        begun arrivals refl refl in
    collect-Outcome (dispatch_all begun arrivals) begun wire
      (last_answer (srsp_type req.cmd_type) req.cmd_id arrivals) refl found.0 found.1

-- A request on an initialized link whose mutex came free, for a frame of the declared form: its
-- wire form is written; it returns ESP_OK with the last frame that answers it (the SRSP type of its
-- own type, its own id) among those that came, and ZNP_ERR_TIMEOUT if there is none; and the AREQs
-- that came are queued in their order, as far as the AREQ queue has room.
pub send_sreq_timeout_lem :
    (n : ℕ) (l : Link) (req : Frame) (arrivals : List Frame)
    → n ≡ areq_queue_depth
    → l.initialized ≡ true
    → IsFrame req
    → length l.areq_queue ≤ n
    → (r : Sent) × (send_sreq_timeout l req true arrivals ≡ some r)
      × (r.written ≡ wire req (frame_sum req))
      × Outcome (last_answer (srsp_type req.cmd_type) req.cmd_id arrivals) r
      × (r.link.areq_queue ≡ take n (l.areq_queue ++ areqs arrivals))
unfolding send_sreq_timeout exchange
send_sreq_timeout_lem n l req arrivals e init v h = (
  exchange l req (wire req (frame_sum req)) arrivals,
  ground (arith, encode_lem req (max_payload + 5) v),
  (collect_keeps _ _).0,
  exchange-Outcome l req (wire req (frame_sum req)) arrivals v.type_byte,
  (collect_keeps _ _).1 ∙ dispatch_all-areqs n _ arrivals e h,
)
