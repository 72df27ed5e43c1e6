-- ===== src/Network.antt =====
-- components/zb_framework/zb_network.c: the commands to the coprocessor, over the requests of
-- `znp_transport_send_sreq`.
pub mod Formation
pub mod Clock
use zigbee_hub.Base.{
  ℕ, zero, suc, ◌+◌, ◌%◌, ◌^◌, ◌/◌, Bool, true, false, not, ◌&&◌, ◌||◌, List, [], ◌∷◌, ◌++◌, Option,
  none, some, bit_and, ltb, ◌==◌, if◌then◌else◌, length, get_or, take, drop, overwrite, EspErr, ok,
  fail, not_found, not_finished, esp_timeout, is_not_found,
}
use zigbee_hub.Znp.Mt.{
  subsys_sys, subsys_zdo, subsys_af, subsys_zdo_areq, sys_ping_cmd, sys_version_cmd,
  sys_osal_nv_read_cmd, sys_osal_nv_write_cmd, zdo_mgmt_permit_join_cmd, zdo_startup_from_app_cmd,
  zdo_state_change_ind_cmd, af_register_cmd, nv_logical_type, nv_precfgkeys_en, nv_precfgkey,
  nv_panid, nv_chanlist, device_type_coordinator, dev_zb_coord,
}
use zigbee_hub.Base.Strings.{snprintf, decimal}
use zigbee_hub.Base.Words.{low_byte, high_byte, le16, or_bytes}
use zigbee_hub.Znp.Frame.{Frame, request, make_cmd_type, frame_type_sreq}
use zigbee_hub.Znp.Session.{Session, Reply, got, failed, send_sreq}

-- `send_sreq` of the file, for frames of type SREQ.
unfoldable pub send : ℕ → ℕ → List ℕ → Session → Reply × Session
send subsys cmd_id payload s =
    send_sreq (request (make_cmd_type subsys frame_type_sreq) cmd_id payload) s

-- A caller that looks at the status only.
status : Reply → EspErr
status (failed e) = e
status (got resp) = ok

-- A caller for which a first byte other than 0 is a failure.
unfoldable pub checked : Reply → EspErr
checked (failed e) = e
checked (got resp) = if get_or resp.payload 0 0 == 0x00 then ok else fail

unfoldable pub ping : Session → EspErr × Session
unfolding status
ping s = let (r, s') = send subsys_sys sys_ping_cmd [] s in (status r, s')

-- The pieces of "Z-Stack %d.%d (TransRev=%d HW=%d)".
abbrev pub z_stack_piece : List ℕ
z_stack_piece = 0x5A ∷ 0x2D ∷ 0x53 ∷ 0x74 ∷ 0x61 ∷ 0x63 ∷ 0x6B ∷ 0x20 ∷ []

abbrev pub dot_piece : List ℕ
dot_piece = 0x2E ∷ []

abbrev pub trans_rev_piece : List ℕ
trans_rev_piece = 0x20 ∷ 0x28 ∷ 0x54 ∷ 0x72 ∷ 0x61 ∷ 0x6E ∷ 0x73 ∷ 0x52 ∷ 0x65 ∷ 0x76 ∷ 0x3D ∷ []

abbrev pub hw_piece : List ℕ
hw_piece = 0x20 ∷ 0x48 ∷ 0x57 ∷ 0x3D ∷ []

abbrev pub last_piece : List ℕ
last_piece = 0x29 ∷ []

-- The text from a piece on; `d` is `%d` of a byte of the answer.
abbrev pub from_hw : (ℕ → List ℕ) → List ℕ
from_hw d = hw_piece ++ (d 4 ++ last_piece)

abbrev pub from_trans_rev : (ℕ → List ℕ) → List ℕ
from_trans_rev d = trans_rev_piece ++ (d 0 ++ from_hw d)

abbrev pub from_dot : (ℕ → List ℕ) → List ℕ
from_dot d = dot_piece ++ (d 3 ++ from_trans_rev d)

abbrev pub version_text : List ℕ → List ℕ
version_text payload =
    let d : ℕ → List ℕ = λ i. decimal (get_or payload i 0) in z_stack_piece ++ (d 2 ++ from_dot d)

-- The status, and the array for the text.
unfoldable pub version_out : List ℕ → Reply → EspErr × List ℕ
version_out out (failed e) = (e, out)
version_out out (got resp) = (ok, snprintf (version_text resp.payload) out)

-- `zb_net_get_version`, with an array for the text.
unfoldable pub get_version : List ℕ → Session → (EspErr × List ℕ) × Session
get_version out s = let (r, s') = send subsys_sys sys_version_cmd [] s in (version_out out r, s')

-- The status and the bytes copied to `buf`.
unfoldable pub nv_read : ℕ → Reply → EspErr × List ℕ
nv_read len (failed e) = (e, [])
nv_read len (got resp) =
    if not (get_or resp.payload 0 0 == 0x00)
    then (not_found, [])
    else let rlen = get_or resp.payload 1 0 in
      (ok, take (if ltb rlen len then rlen else len) (drop 2 resp.payload))

unfoldable pub read_nv : ℕ → ℕ → Session → (EspErr × List ℕ) × Session
read_nv id len s =
    let (r, s') =
      send subsys_sys sys_osal_nv_read_cmd (low_byte id ∷ high_byte id ∷ 0 ∷ len ∷ []) s in
    (nv_read len r, s')

abbrev pub nv_write_payload : ℕ → List ℕ → List ℕ
nv_write_payload id buf = low_byte id ∷ high_byte id ∷ 0 ∷ length buf % 2 ^ 8 ∷ buf

unfoldable pub write_nv : ℕ → List ℕ → Session → EspErr × Session
write_nv id buf s =
    let (r, s') = send subsys_sys sys_osal_nv_write_cmd (nv_write_payload id buf) s in
    (checked r, s')

-- The loop of `zb_net_check_nv_state` over the channels from `c` on: the first whose bit is set.
unfoldable pub scan_channels : ℕ → ℕ → ℕ → ℕ
scan_channels zero c chanlist = 0
scan_channels (suc left) c chanlist =
    let rest = scan_channels left (suc c) chanlist in
    if bit_and chanlist (2 ^ c) == 0 then rest else c

unfoldable pub judge : ℕ → ℕ → EspErr × List ℕ → EspErr × List ℕ → EspErr
judge desired_pan_id desired_channel (err_pan, pan) (err_chan, chan) =
    if is_not_found err_pan || is_not_found err_chan
    then ok
    else let nv_pan_id = overwrite pan (0 ∷ 0 ∷ []) in
      let stored_pan_id = le16 (get_or nv_pan_id 0 0) (get_or nv_pan_id 1 0) in
      let stored_channel =
        scan_channels 16 11 (or_bytes 0 0 (overwrite chan (0 ∷ 0 ∷ 0 ∷ 0 ∷ []))) in
      if stored_pan_id == desired_pan_id && stored_channel == desired_channel
      then not_finished
      else not_found

-- `zb_net_check_nv_state`
unfoldable pub check_nv_state : ℕ → ℕ → Session → EspErr × Session
check_nv_state desired_pan_id desired_channel s =
    let (pan, s1) = read_nv nv_panid 2 s in
    let (chan, s2) = read_nv nv_chanlist 4 s1 in (judge desired_pan_id desired_channel pan chan, s2)

-- `err = zb_net_write_nv(...); if (err != ESP_OK) { return err; }`, and what follows.
unfoldable pub write_then : EspErr × Session → (Session → EspErr × Session) → EspErr × Session
write_then (ok, s) next = next s
write_then (e, s) next = (e, s)

-- `chan_bytes`
abbrev pub mask_bytes : ℕ → List ℕ
mask_bytes chanlist =
    (chanlist % 256)
    ∷ (chanlist / 2 ^ 8 % 256)
    ∷ (chanlist / 2 ^ 16 % 256)
    ∷ (chanlist / 2 ^ 24 % 256)
    ∷ []

-- `zb_net_form_network`; the mask `1UL << channel` has 32 bits.
unfoldable pub form_network : ℕ → ℕ → List ℕ → Session → EspErr × Session
form_network pan_id channel nwk_key s =
    write_then (write_nv nv_logical_type (device_type_coordinator ∷ []) s) λ s1.
      write_then (write_nv nv_panid (low_byte pan_id ∷ high_byte pan_id ∷ []) s1) λ s2.
        write_then (write_nv nv_chanlist (mask_bytes (2 ^ channel % 2 ^ 32)) s2) λ s3.
          write_then (write_nv nv_precfgkeys_en (0x01 ∷ []) s3)
            λ s4. write_nv nv_precfgkey nwk_key s4

unfoldable pub permit_join : ℕ → Session → EspErr × Session
permit_join duration s =
    let (r, s') =
      send subsys_zdo zdo_mgmt_permit_join_cmd (0x0F ∷ 0xFC ∷ 0xFF ∷ duration ∷ 0x01 ∷ []) s in
    (checked r, s')

unfoldable pub af_register : ℕ → Session → EspErr × Session
af_register ep s =
    let (r, s') =
      send subsys_af af_register_cmd
        (ep ∷ 0x04 ∷ 0x01 ∷ 0x05 ∷ 0x00 ∷ 0x00 ∷ 0x00 ∷ 0x00 ∷ 0x00 ∷ []) s in
    (checked r, s')

-- The wait of `zb_net_startup_and_wait` for the AREQs that come before the deadline: the status,
-- and those that are left in the queue. What it takes before the one it waits for is dropped.
unfoldable pub await_coordinator : List Frame → EspErr × List Frame
await_coordinator [] = (esp_timeout, [])
await_coordinator (areq ∷ rest) =
    let later = await_coordinator rest in
    if areq.cmd_type == subsys_zdo_areq
      && areq.cmd_id == zdo_state_change_ind_cmd
      && get_or areq.payload 0 0 == dev_zb_coord
    then (ok, rest)
    else later

after_startup : List Frame → Reply → EspErr × List Frame
after_startup areqs (failed e) = (e, areqs)
after_startup areqs (got resp) = await_coordinator areqs

unfoldable pub startup_and_wait : List Frame → Session → (EspErr × List Frame) × Session
unfolding after_startup
startup_and_wait areqs s =
    let (r, s') = send subsys_zdo zdo_startup_from_app_cmd (0 ∷ 0 ∷ []) s in
    (after_startup areqs r, s')
