-- ===== src/Hub.antt =====
-- The state that the components of zb_device_mgr share, and the sending side of
-- components/zb_device_mgr/zb_device_mgr.c: discovery requests and `zb_zcl_send`.
pub mod Clusters
pub mod Table
pub mod Schema
pub mod Translate
pub mod Inbound
pub mod Sending
pub mod Reports
pub mod Descriptors
pub mod Membership
pub mod Commands
pub mod Typed
pub mod Unchanged
pub mod Persistence
pub mod Mirror
pub mod Ranges
pub mod Capacity
pub mod Messages
pub mod Start
use zigbee_hub.Base.{
  ℕ, zero, suc, ◌+◌, ◌%◌, ◌^◌, List, [], ◌∷◌, ◌++◌, Option, none, some, Bool, ◌==◌, if◌then◌else◌,
  length, get_or, EspErr, ok, fail, not_found, no_mem,
}
use zigbee_hub.Znp.Mt.{
  subsys_zdo, subsys_af, zdo_active_ep_req_cmd, zdo_simple_desc_req_cmd, af_data_request_cmd,
}
use zigbee_hub.Base.Words.{low_byte, high_byte}
use zigbee_hub.Zcl.{cap_ep, cap_cluster}
use zigbee_hub.Event.{Bus, Event, emit, event_device_joined, event_device_left, device}
use zigbee_hub.Storage.{StorageCall, save, delete, DeviceRecord, init_zero}
use zigbee_hub.Device.{Dev, join_slot, leave_slot, get_nwk}
use zigbee_hub.Znp.Frame.{Frame, request, make_cmd_type, frame_type_sreq}
use zigbee_hub.Znp.Session.{Session, Reply, got, failed, send_sreq}

pub record Hub : Type 0 where
  pub devices : List Dev
  pub bus : Bus
  pub session : Session
  pub storage_calls : List StorageCall
  pub zcl_seq : ℕ

abbrev pub emit_event : Event → Hub → Hub
emit_event event h = record h { bus = emit event h.bus }

abbrev pub call_storage : StorageCall → Hub → Hub
call_storage c h = record h { storage_calls = h.storage_calls ++ c ∷ [] }

-- `znp_transport_send_sreq` on the hub's link.
abbrev pub exchange : Frame → Hub → Reply × Hub
exchange req h = let (r, s) = send_sreq req h.session in (r, record h { session = s })

-- The callers of the two discovery requests do not look at the answer.
abbrev pub active_ep_req : ℕ → Frame
active_ep_req nwk =
    request (make_cmd_type subsys_zdo frame_type_sreq) zdo_active_ep_req_cmd
      (low_byte nwk ∷ high_byte nwk ∷ low_byte nwk ∷ high_byte nwk ∷ [])

unfoldable pub send_zdo_active_ep_req : ℕ → Hub → Hub
send_zdo_active_ep_req nwk h = (exchange (active_ep_req nwk) h).1

unfoldable pub send_zdo_simple_desc_req : ℕ → ℕ → Hub → Hub
send_zdo_simple_desc_req nwk ep h =
    (exchange
      (request (make_cmd_type subsys_zdo frame_type_sreq) zdo_simple_desc_req_cmd
        (low_byte nwk ∷ high_byte nwk ∷ low_byte nwk ∷ high_byte nwk ∷ ep ∷ []))
      h).1

-- The payload of AF_DATA_REQUEST that `zb_zcl_send` builds.
abbrev pub af_payload : ℕ → ℕ → List ℕ → List ℕ
af_payload nwk cap zcl =
    low_byte nwk
    ∷ high_byte nwk
    ∷ cap_ep cap
    ∷ 0x01
    ∷ low_byte (cap_cluster cap)
    ∷ high_byte (cap_cluster cap)
    ∷ 0x01
    ∷ 0x00
    ∷ 0x0F
    ∷ length zcl % 2 ^ 8
    ∷ zcl

pub af_status : Reply → EspErr
af_status (failed e) = e
af_status (got resp) = if get_or resp.payload 0 0 == 0x00 then ok else fail

-- `zb_zcl_send`, for the ZCL frames of the program, which have at most 19 bytes.
unfoldable pub zcl_send : ℕ → ℕ → List ℕ → Hub → EspErr × Hub
unfolding af_status
zcl_send ieee cap zcl h =
    let nwk = get_nwk ieee h.devices in
    if nwk == 0xFFFF
    then (not_found, h)
    else let (r, h') =
        exchange
          (request (make_cmd_type subsys_af frame_type_sreq) af_data_request_cmd
            (af_payload nwk cap zcl))
          h in
      (af_status r, h')

unfoldable pub after_join : ℕ → ℕ → Hub → Option (List Dev) → EspErr × Hub
after_join ieee nwk h none = (no_mem, h)
after_join ieee nwk h (some ds) =
    let saved =
      call_storage (save (record init_zero { ieee_addr = ieee; network_addr = nwk }))
        (record h { devices = ds }) in
    let joined =
      emit_event (record { type = event_device_joined; payload = device ieee nwk }) saved in
    (ok, send_zdo_active_ep_req nwk joined)

-- `zb_dev_mgr_join`
unfoldable pub join : ℕ → ℕ → Hub → EspErr × Hub
unfolding after_join
join ieee nwk h = after_join ieee nwk h (join_slot ieee nwk h.devices)

-- `zb_dev_mgr_leave`
unfoldable pub leave : ℕ → Hub → Hub
leave ieee h =
    emit_event (record { type = event_device_left; payload = device ieee 0xFFFF })
      (call_storage (delete ieee) (record h { devices = leave_slot ieee h.devices }))
