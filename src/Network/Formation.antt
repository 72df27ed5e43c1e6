-- ===== src/Network/Formation.antt =====
-- What is written to the coprocessor's NV memory, and what is read back from it.
use zigbee_hub.Base.{
  ℕ, suc, ◌+◌, ◌-◌, ◌%◌, ◌^◌, ◌≤◌, ◌<◌, ◌≡◌, refl, ap, ◌∙◌, arith, Bool, true, false, ◌&&◌, List,
  [], ◌∷◌, ◌++◌, Option, some, ltb, ◌==◌, ==_iff, if◌then◌else◌, length, get_or, ok, not_found,
  not_finished, esp_timeout, All,
}
use zigbee_hub.Znp.Mt.{
  subsys_sys, subsys_zdo_areq, sys_osal_nv_write_cmd, zdo_state_change_ind_cmd, nv_logical_type,
  nv_precfgkeys_en, nv_precfgkey, nv_panid, nv_chanlist, device_type_coordinator, dev_zb_coord,
}
use zigbee_hub.Base.Bits.{all_below, all_below_sound}
use zigbee_hub.Base.Words.{low_byte, high_byte, le16-bytes, or_bytes}
use zigbee_hub.Znp.Frame.{Frame, request, make_cmd_type, frame_type_sreq}
use zigbee_hub.Znp.Session.{send_sreq}
use zigbee_hub.Network.{
  scan_channels, mask_bytes, judge, check_nv_state, read_nv, nv_read, write_nv, form_network,
  write_then, await_coordinator, send, checked, nv_write_payload,
}

mask_table :
    all_below 16
      (λ k. scan_channels 16 11 (or_bytes 0 0 (mask_bytes (2 ^ (11 + k) % 2 ^ 32))) == 11 + k)
    ≡ true
unfolding all_below scan_channels or_bytes
mask_table = refl

-- The channel that is read back from the mask of a channel is that channel.
pub scan_channels-mask_bytes :
    (channel : ℕ)
    → 11 ≤ channel
    → channel ≤ 26
    → scan_channels 16 11 (or_bytes 0 0 (mask_bytes (2 ^ channel % 2 ^ 32))) ≡ channel
scan_channels-mask_bytes channel low high =
    let at : 11 + (channel - 11) ≡ channel = omega arith in
    let here = (==_iff _ _).0 (all_below_sound 16 _ (channel - 11) mask_table (omega arith)) in
    rw (← ap (λ c. scan_channels 16 11 (or_bytes 0 0 (mask_bytes (2 ^ c % 2 ^ 32)))) at) (here ∙ at)

-- The answer to an NV read of these bytes, in an array with these bytes behind them.
abbrev pub nv_answer : List ℕ → List ℕ → Frame
nv_answer buf stale = record {
  cmd_type = 0x61;
  cmd_id = 0x08;
  payload = 0x00 ∷ length buf ∷ buf ++ stale;
  payload_len = 2 + length buf;
}

-- If the coprocessor answers with the PAN id and the channel mask that `zb_net_form_network` writes
-- for a network, `zb_net_check_nv_state` says that it can be resumed (ESP_ERR_NOT_FINISHED) exactly
-- when that network is the desired one, and else that it does not match (ESP_ERR_NOT_FOUND).
check_nv_state-formed :
    (pan_id channel desired_pan_id desired_channel : ℕ) (stale more : List ℕ) (sent : List Frame)
    → pan_id < 2 ^ 16
    → 11 ≤ channel
    → channel ≤ 26
    → (check_nv_state desired_pan_id desired_channel (record {
      sent = sent;
      answers =
          some (nv_answer (low_byte pan_id ∷ high_byte pan_id ∷ []) stale)
          ∷ some (nv_answer (mask_bytes (2 ^ channel % 2 ^ 32)) more)
          ∷ [];
    })).0
      ≡ (if pan_id == desired_pan_id && channel == desired_channel then not_finished else not_found)
unfolding check_nv_state read_nv send send_sreq request nv_read judge
check_nv_state-formed pan_id channel desired_pan_id desired_channel stale more sent small low high =
    rw (le16-bytes pan_id small, scan_channels-mask_bytes channel low high) refl

-- An AREQ that tells that the coordinator has started.
abbrev pub started : Frame → Bool
started areq =
    areq.cmd_type == subsys_zdo_areq
    && areq.cmd_id == zdo_state_change_ind_cmd
    && get_or areq.payload 0 0 == dev_zb_coord

-- The wait for the coordinator ends at the first AREQ that tells of its start. The AREQs before it
-- are taken from the queue and not kept for anyone; without such an AREQ all are, and the wait
-- times out.
pub await_coordinator_drops :
    (before rest : List Frame) (areq : Frame)
    → All (λ a. started a ≡ false) before
    → started areq ≡ true
    → (await_coordinator (before ++ areq ∷ rest) ≡ (ok, rest))
      × (await_coordinator before ≡ (esp_timeout, []))
unfolding await_coordinator
await_coordinator_drops [] rest areq others at = (rw at refl, refl)
await_coordinator_drops (a ∷ before) rest areq others at =
    rw others.0 (await_coordinator_drops before rest areq others.1 at)

abbrev pub IsAccepted : Frame → Type 0
IsAccepted answer = get_or answer.payload 0 0 ≡ 0x00

abbrev pub nv_write_request : ℕ → List ℕ → Frame
nv_write_request id buf =
    request (make_cmd_type subsys_sys frame_type_sreq) sys_osal_nv_write_cmd
      (nv_write_payload id buf)

write_nv_ok :
    (id : ℕ) (buf : List ℕ) (sent : List Frame) (a : Frame) (rest : List (Option Frame))
    → length buf ≤ 16
    → IsAccepted a
    → write_nv id buf (record { sent = sent; answers = some a ∷ rest })
      ≡ (ok, record { sent = sent ++ nv_write_request id buf ∷ []; answers = rest })
unfolding write_nv send send_sreq checked request
write_nv_ok id buf sent a rest size e =
    let fits : ltb 250 (suc (suc (suc (suc (length buf))))) ≡ false = ground arith in
    rw (fits, e) refl

-- A write whose result is not looked at.
pub write_nv_sent :
    (id : ℕ) (buf : List ℕ) (sent : List Frame) (a : Frame) (rest : List (Option Frame))
    → length buf ≤ 16
    → (write_nv id buf (record { sent = sent; answers = some a ∷ rest })).1
      ≡ record { sent = sent ++ nv_write_request id buf ∷ []; answers = rest }
unfolding write_nv send send_sreq checked request
write_nv_sent id buf sent a rest size =
    let fits : ltb 250 (suc (suc (suc (suc (length buf))))) ≡ false = ground arith in rw fits refl

-- When the coprocessor accepts every write, forming a network succeeds, and it has written, in this
-- order: the coordinator role, the PAN id, the channel mask, the flag for the configured key, and
-- the network key, and nothing else.
pub form_network_lem :
    (pan_id channel : ℕ) (nwk_key : List ℕ) (sent : List Frame) (a b c d e : Frame)
    (rest : List (Option Frame))
    → length nwk_key ≡ 16
    → IsAccepted a
    → IsAccepted b
    → IsAccepted c
    → IsAccepted d
    → IsAccepted e
    → form_network pan_id channel nwk_key
        (record { sent = sent; answers = some a ∷ some b ∷ some c ∷ some d ∷ some e ∷ rest })
      ≡ (
        ok,
        record {
          sent =
              sent
              ++ nv_write_request nv_logical_type (device_type_coordinator ∷ []) ∷ []
              ++ nv_write_request nv_panid (low_byte pan_id ∷ high_byte pan_id ∷ []) ∷ []
              ++ nv_write_request nv_chanlist (mask_bytes (2 ^ channel % 2 ^ 32)) ∷ []
              ++ nv_write_request nv_precfgkeys_en (0x01 ∷ []) ∷ []
              ++ nv_write_request nv_precfgkey nwk_key ∷ [];
          answers = rest;
        },
      )
unfolding form_network write_then
form_network_lem pan_id channel nwk_key sent a b c d e rest key pa pb pc pd pe =
    rw
      (
        write_nv_ok nv_logical_type (device_type_coordinator ∷ []) sent a _ (omega arith) pa,
        write_nv_ok nv_panid (low_byte pan_id ∷ high_byte pan_id ∷ []) _ b _ (omega arith) pb,
        write_nv_ok nv_chanlist (mask_bytes (2 ^ channel % 2 ^ 32)) _ c _ (omega arith) pc,
        write_nv_ok nv_precfgkeys_en (0x01 ∷ []) _ d _ (omega arith) pd,
        write_nv_ok nv_precfgkey nwk_key _ e _ (omega arith) pe,
      )
      refl
