-- ===== src/Hub/Inbound.antt =====
-- components/zb_device_mgr/zb_device_mgr.c: `zb_dev_mgr_on_areq` and the parsers that it calls.
-- `none` is a read behind the payload array of the frame.
use zigbee_hub.Base.{
  ℕ, zero, suc, ◌+◌, ◌-◌, ◌*◌, ◌%◌, ◌^◌, Bool, not, ◌&&◌, ◌||◌, List, Option, none, some, ltb, leb,
  ◌==◌, if◌then◌else◌, length, get_or, get_elem?, take, drop, bit_and,
}
use zigbee_hub.Znp.Mt.{
  subsys_zdo_areq, subsys_af_areq, zdo_tc_dev_ind_cmd, zdo_end_device_annce_ind_cmd,
  zdo_leave_ind_cmd, zdo_active_ep_rsp_cmd, zdo_simple_desc_rsp_cmd, af_incoming_msg_cmd,
}
use zigbee_hub.Base.Words.{le16, or_bytes}
use zigbee_hub.Zcl.{cap_id}
use zigbee_hub.Storage.{save, init_zero}
use zigbee_hub.Device.{Dev, find_by_nwk, learn_cap}
use zigbee_hub.Znp.Frame.{Frame}
use zigbee_hub.Hub.{Hub, call_storage, join, leave, send_zdo_simple_desc_req}
use zigbee_hub.Hub.Translate.{dispatch_attr, dispatch_ias_status_change}

abbrev pub byte_at : Frame → ℕ → ℕ
byte_at f i = get_or f.payload i 0

abbrev pub word_at : Frame → ℕ → ℕ
word_at f i = le16 (byte_at f i) (byte_at f (i + 1))

-- The loop over the eight bytes of an IEEE address.
abbrev pub ieee_at : Frame → ℕ → ℕ
ieee_at f i = or_bytes 0 0 (take 8 (drop i f.payload))

unfoldable pub parse_tc_dev_ind : Frame → Hub → Hub
parse_tc_dev_ind f h = if ltb f.payload_len 12 then h else (join (ieee_at f 2) (word_at f 0) h).1

unfoldable pub parse_end_device_annce : Frame → Hub → Hub
parse_end_device_annce f h =
    if ltb f.payload_len 13 then h else (join (ieee_at f 4) (word_at f 2) h).1

unfoldable pub parse_leave_ind : Frame → Hub → Hub
parse_leave_ind f h = if ltb f.payload_len 12 then h else leave (ieee_at f 2) h

-- The `switch` of `parse_af_incoming` on a data type.
unfoldable pub report_size : ℕ → ℕ
report_size dtype =
    if dtype == 0x10 || dtype == 0x18 || dtype == 0x20 || dtype == 0x28
    then 1
    else if dtype == 0x19 || dtype == 0x21 || dtype == 0x29
    then 2
    else if dtype == 0x22 || dtype == 0x2A
    then 3
    else if dtype == 0x23 || dtype == 0x2B || dtype == 0x39
    then 4
    else if dtype == 0x25 || dtype == 0x2D
    then 6
    else 0

-- The `while (remaining >= 4)` loop of `parse_af_incoming`, on fuel; each round takes at least four
-- bytes. `rp` is the rest of the payload array.
unfoldable pub reports : ℕ → ℕ → ℕ → ℕ → List ℕ → ℕ → Hub → Option Hub
reports zero ieee ep cluster rp remaining h = if leb 4 remaining then none else some h
reports (suc fuel) ieee ep cluster rp remaining h =
    let dtype = get_or rp 2 0 in
    let sz = report_size dtype in
    let attr = le16 (get_or rp 0 0) (get_or rp 1 0) in
    let rest =
      reports fuel ieee ep cluster (drop sz (drop 3 rp)) (remaining - (3 + sz))
        (dispatch_attr ieee ep cluster attr dtype (take sz (drop 3 rp)) h) in
    if ltb remaining 4
    then some h
    else if ltb (length rp) 3
    then none
    else if sz == 0 || ltb remaining ((3 + sz) % 2 ^ 8)
    then some h
    else if ltb (length rp) (3 + sz)
    then none
    else rest

-- From the decoding of the ZCL frame on; `zcl` is the rest of the payload array.
unfoldable pub af_zcl : ℕ → ℕ → ℕ → List ℕ → ℕ → Hub → Option Hub
af_zcl ieee ep cluster zcl data_len h =
    if ltb data_len 3
    then some h
    else if ltb (length zcl) 3
    then none
    else if cluster == 0x0500 && bit_and (get_or zcl 0 0) 0x01 == 0x01 && get_or zcl 2 0 == 0x00
    then (if leb 5 data_len && ltb (length zcl) 5
        then none
        else some (dispatch_ias_status_change ieee ep (drop 3 zcl) (data_len - 3) h).1)
    else if get_or zcl 2 0 == 0x0A
    then reports data_len ieee ep cluster (drop 3 zcl) (data_len - 3) h
    else some h

-- `areq->payload_len < (uint8_t)(17 + data_len)`: the sum is cut to eight bits.
abbrev pub af_incomplete : Frame → Bool
af_incomplete f = ltb f.payload_len ((17 + byte_at f 16) % 2 ^ 8)

unfoldable pub af_from : Frame → Hub → Option Dev → Option Hub
af_from f h none = some h
af_from f h (some d) =
    let cluster = word_at f 2 in
    let src_ep = byte_at f 6 in
    af_zcl d.ieee_addr src_ep cluster (drop 17 f.payload) (byte_at f 16)
      (record h { devices = (learn_cap d.ieee_addr (cap_id src_ep cluster) h.devices).1 })

unfoldable pub parse_af_incoming : Frame → Hub → Option Hub
unfolding af_from
parse_af_incoming f h =
    if ltb f.payload_len 17
    then some h
    else if af_incomplete f
    then some h
    else af_from f h (find_by_nwk (word_at f 4) h.devices)

-- The loop over `eps[0 .. cnt)`, from index `i` of the payload array on.
unfoldable pub request_each : ℕ → ℕ → Frame → ℕ → Hub → Option Hub
request_each zero i f nwk h = some h
request_each (suc left) i f nwk h = elim (get_elem? f.payload i) [
  | none ↦ none
  | some ep ↦ request_each left (suc i) f nwk (send_zdo_simple_desc_req nwk ep h)
]

unfoldable pub parse_active_ep_rsp : Frame → Hub → Option Hub
parse_active_ep_rsp f h =
    if ltb f.payload_len 6 || not (byte_at f 2 == 0x00)
    then some h
    else let cnt = byte_at f 5 in
      if ltb f.payload_len ((6 + cnt) % 2 ^ 8) then some h else request_each cnt 6 f (word_at f 3) h

-- The loops over `in_c` and `out_c`, from index `i` of the payload array on; a cluster that is not
-- whole within the payload ends them.
unfoldable pub learn_clusters : ℕ → ℕ → Frame → ℕ → ℕ → List Dev → Option (List Dev)
learn_clusters zero i f ieee ep ds = some ds
learn_clusters (suc left) i f ieee ep ds =
    let rest =
      learn_clusters left (i + 2) f ieee ep (learn_cap ieee (cap_id ep (word_at f i)) ds).1 in
    if leb f.payload_len (i + 1)
    then some ds
    else if leb (length f.payload) (i + 1)
    then none
    else rest

-- `uint8_t in_end = 12 + num_in * 2;`
abbrev pub in_end : Frame → ℕ
in_end f = (12 + byte_at f 11 * 2) % 2 ^ 8

-- From the number of output clusters on.
abbrev out_from : Frame → ℕ → List Dev → Option ℕ → Option (List Dev)
out_from f ieee ds none = none
out_from f ieee ds (some num_out) = learn_clusters num_out (in_end f + 1) f ieee (byte_at f 6) ds

unfoldable pub learn_out : Frame → ℕ → List Dev → Option (List Dev)
learn_out f ieee ds =
    if ltb (in_end f) f.payload_len
    then out_from f ieee ds (get_elem? f.payload (in_end f))
    else some ds

abbrev learn_all : Frame → ℕ → Option (List Dev) → Option (List Dev)
learn_all f ieee none = none
learn_all f ieee (some ds) = learn_out f ieee ds

-- What is done once the clusters are learned.
abbrev pub persist : Frame → ℕ → Hub → Option (List Dev) → Option Hub
persist f ieee h none = none
persist f ieee h (some ds) = some (
    call_storage (save (record init_zero { ieee_addr = ieee; network_addr = word_at f 3 }))
      (record h { devices = ds }))

unfoldable pub described : Frame → Hub → Option Dev → Option Hub
described f h none = some h
described f h (some d) = persist f d.ieee_addr h (
    learn_all f d.ieee_addr
      (learn_clusters (byte_at f 11) 12 f d.ieee_addr (byte_at f 6) h.devices))

unfoldable pub parse_simple_desc_rsp : Frame → Hub → Option Hub
parse_simple_desc_rsp f h =
    if ltb f.payload_len 12 || not (byte_at f 2 == 0x00)
    then some h
    else described f h (find_by_nwk (word_at f 3) h.devices)

-- `zb_dev_mgr_on_areq`
unfoldable pub on_areq : Frame → Hub → Option Hub
on_areq f h =
    if f.cmd_type == subsys_zdo_areq
    then (if f.cmd_id == zdo_tc_dev_ind_cmd
        then some (parse_tc_dev_ind f h)
        else if f.cmd_id == zdo_end_device_annce_ind_cmd
        then some (parse_end_device_annce f h)
        else if f.cmd_id == zdo_leave_ind_cmd
        then some (parse_leave_ind f h)
        else if f.cmd_id == zdo_active_ep_rsp_cmd
        then parse_active_ep_rsp f h
        else if f.cmd_id == zdo_simple_desc_rsp_cmd
        then parse_simple_desc_rsp f h
        else some h)
    else if f.cmd_type == subsys_af_areq
    then (if f.cmd_id == af_incoming_msg_cmd then parse_af_incoming f h else some h)
    else some h
