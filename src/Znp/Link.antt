-- ===== src/Znp/Link.antt =====
-- components/znp_transport/znp_transport.c: the receive task (`znp_rx_task`), the dispatch task
-- (`znp_dispatch_task`) and the request side (`znp_transport_send_sreq_timeout`), over the static
-- state that they share. Bytes come one at a time; a queue of FreeRTOS is a list with a depth, a
-- binary semaphore a Boolean.
pub mod Receive
pub mod Stream
pub mod Safety
pub mod Stall
pub mod Requests
pub mod Reset
use zigbee_hub.Base.{
  ℕ, suc, ◌+◌, ◌%◌, ◌^◌, Bool, true, false, not, ◌&&◌, List, [], ◌∷◌, ◌++◌, Option, none, some,
  bit_and, bit_or, ltb, leb, ◌==◌, if◌then◌else◌, length, set, replicate, EspErr, ok, znp_not_init,
  znp_timeout, znp_reset_timeout,
}
use zigbee_hub.Znp.Mt.{subsys_sys_areq, sys_reset_ind_cmd}
use zigbee_hub.Znp.Frame.{
  Frame, sof, max_payload, frame_type_mask, frame_type_srsp, frame_type_areq,
}
use zigbee_hub.Znp.Codec.{fcs_calculate, encode, wrote, refused, fault}

-- `rx_state_t`
pub data RxState : Type 0 where
  hunt_sof read_len read_cmd_type read_cmd_id read_payload read_fcs : RxState

-- The static variables of the file and the locals of `znp_rx_task`.
pub record Link : Type 0 where
  pub initialized : Bool
  pub rx_state : RxState
  pub rx_frame : Frame
  pub payload_idx : ℕ
  pub raw_queue : List Frame
  pub areq_queue : List Frame
  pub pending_cmd_type : ℕ
  pub pending_cmd_id : ℕ
  pub srsp_sem : Bool
  pub srsp_frame : Frame
  pub reset_ind_sem : Bool
  pub error_count : ℕ

-- `RAW_QUEUE_DEPTH`, and the default of `CONFIG_ZNP_AREQ_QUEUE_DEPTH`.
abbrev pub raw_queue_depth : ℕ
raw_queue_depth = 16

abbrev pub areq_queue_depth : ℕ
areq_queue_depth = 32

-- `s_error_count++` on a `uint32_t`.
abbrev pub count_error : Link → Link
count_error l = record l { error_count = (l.error_count + 1) % 2 ^ 32 }

-- `case RX_READ_PAYLOAD`
rx_payload : Link → ℕ → Link
rx_payload l byte =
    let stored =
      (if ltb l.payload_idx max_payload
        then record l {
          rx_frame = record (l.rx_frame) { payload = set l.rx_frame.payload l.payload_idx byte };
          payload_idx = l.payload_idx + 1;
        }
        else l) in
    if leb l.rx_frame.payload_len stored.payload_idx
    then record stored { rx_state = read_fcs }
    else stored

-- Posting a checked frame to the raw queue with `xQueueSend(s_raw_queue, &frame, 0)`.
rx_post : Link → Link
rx_post l =
    if ltb (length l.raw_queue) raw_queue_depth
    then record l { raw_queue = l.raw_queue ++ l.rx_frame ∷ []; rx_state = hunt_sof }
    else record (count_error l) { rx_state = hunt_sof }

-- `case RX_READ_FCS`; `none` where `znp_fcs_calculate` would read behind the payload array.
rx_fcs : Link → ℕ → Option ℕ → Option Link
rx_fcs l byte none = none
rx_fcs l byte (some expected) =
    some (if byte == expected then rx_post l else record (count_error l) { rx_state = hunt_sof })

rx_in : RxState → Link → ℕ → Option Link
rx_in hunt_sof l byte = some (if byte == sof then record l { rx_state = read_len } else l)
rx_in read_len l byte =
    some
      (record l { rx_frame = record (l.rx_frame) { payload_len = byte }; rx_state = read_cmd_type })
rx_in read_cmd_type l byte =
    some (record l { rx_frame = record (l.rx_frame) { cmd_type = byte }; rx_state = read_cmd_id })
rx_in read_cmd_id l byte = some (record l {
  rx_frame = record (l.rx_frame) { cmd_id = byte };
  payload_idx = 0;
  rx_state = if ltb 0 l.rx_frame.payload_len then read_payload else read_fcs;
})
rx_in read_payload l byte = some (rx_payload l byte)
rx_in read_fcs l byte = rx_fcs l byte (fcs_calculate l.rx_frame)

-- One round of the loop of `znp_rx_task`, for a byte that `uart_read_bytes` returned.
unfoldable pub rx_byte : Link → ℕ → Option Link
unfolding rx_in rx_payload rx_post rx_fcs
rx_byte l byte = rx_in l.rx_state l byte

unfoldable pub rx_bytes : Link → List ℕ → Option Link
rx_bytes l [] = some l
rx_bytes l (byte ∷ bytes) = elim (rx_byte l byte) [ none ↦ none | some l' ↦ rx_bytes l' bytes ]

-- `xQueueSend(s_areq_queue, &frame, 0)`
queue_areq : Link → Frame → Link
queue_areq l frame =
    if ltb (length l.areq_queue) areq_queue_depth
    then record l { areq_queue = l.areq_queue ++ frame ∷ [] }
    else count_error l

-- One round of the loop of `znp_dispatch_task`, for a frame taken from the raw queue.
unfoldable pub dispatch_frame : Link → Frame → Link
unfolding queue_areq
dispatch_frame l frame =
    let frame_type = bit_and frame.cmd_type frame_type_mask in
    if frame_type == frame_type_srsp
    then (if frame.cmd_type == l.pending_cmd_type && frame.cmd_id == l.pending_cmd_id
        then record l { srsp_frame = frame; srsp_sem = true }
        else l)
    else if frame_type == frame_type_areq
    then (if frame.cmd_type == subsys_sys_areq && frame.cmd_id == sys_reset_ind_cmd
        then queue_areq (record l { reset_ind_sem = true }) frame
        else queue_areq l frame)
    else l

pub dispatch_all : Link → List Frame → Link
dispatch_all l [] = l
dispatch_all l (frame ∷ frames) = dispatch_all (dispatch_frame l frame) frames

dispatch_next : Link → List Frame → Link
dispatch_next l [] = l
dispatch_next l (frame ∷ rest) = dispatch_frame (record l { raw_queue = rest }) frame

-- The same with `xQueueReceive(s_raw_queue, ...)`; an empty queue leaves the task waiting.
unfoldable pub dispatch : Link → Link
unfolding dispatch_next
dispatch l = dispatch_next l l.raw_queue

-- The SRSP that a request waits for: `(cmd_type & ~ZNP_FRAME_TYPE_MASK) | ZNP_FRAME_TYPE_SRSP`.
abbrev pub srsp_type : ℕ → ℕ
srsp_type cmd_type = bit_or (bit_and cmd_type 0x1F) frame_type_srsp

-- What a caller of `znp_transport_send_sreq_timeout` gets, with the bytes written to the UART.
pub record Sent : Type 0 where
  pub status : EspErr
  pub resp : Option Frame
  pub written : List ℕ
  pub link : Link

-- From the second `xSemaphoreTake` on.
pub collect : Link → List ℕ → Sent
collect l wire =
    if l.srsp_sem
    then record {
      status = ok;
      resp = some l.srsp_frame;
      written = wire;
      link = record l { srsp_sem = false };
    }
    else record { status = znp_timeout; resp = none; written = wire; link = count_error l }

-- From the record of the expected SRSP on; `arrivals` are the frames that the dispatch task handles
-- while the caller waits.
pub exchange : Link → Frame → List ℕ → List Frame → Sent
exchange l req wire arrivals =
    collect
      (dispatch_all
        (record l {
          pending_cmd_type = srsp_type req.cmd_type;
          pending_cmd_id = req.cmd_id;
          srsp_sem = false;
        })
        arrivals)
      wire

failed : Link → EspErr → Option Sent
failed l e = some (record { status = e; resp = none; written = []; link = l })

-- `got_mutex` says whether `s_sreq_mutex` came free in time; `none` is a fault of the encoder. The
-- buffer `wire` has `ZNP_MAX_PAYLOAD + 5` bytes.
unfoldable pub send_sreq_timeout : Link → Frame → Bool → List Frame → Option Sent
unfolding failed
send_sreq_timeout l req got_mutex arrivals =
    if not l.initialized then failed l znp_not_init else elim (encode req (max_payload + 5)) [
      | refused e ↦ failed l e
      | fault ↦ none
      | wrote wire ↦
          if not got_mutex
          then failed (count_error l) znp_timeout
          else some (exchange l req wire arrivals)
    ]

-- `znp_transport_receive_areq`: the head of the queue, or a timeout.
pub receive_areq : Link → Option Frame × Link
receive_areq l = elim l.areq_queue [
  | [] ↦ (none, l)
  | frame ∷ rest ↦ (some frame, record l { areq_queue = rest })
]
