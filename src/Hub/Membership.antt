-- ===== src/Hub/Membership.antt =====
-- Devices that are announced, join and leave.
use zigbee_hub.Base.{
  ℕ, ◌^◌, ◌<◌, ◌≡◌, ◌⊎◌, inl, inr, refl, ap, List, [], ◌∷◌, ◌++◌, some, arith, ◌==◌, if◌then◌else◌,
  length, Option-cases, ok, no_mem,
}
use zigbee_hub.Base.Words.{
  low_byte, high_byte, le16-bytes, word_bytes, or_bytes, or_bytes-word_bytes,
}
use zigbee_hub.Znp.Frame.{Frame, request}
use zigbee_hub.Znp.Session.{sent-send_sreq}
use zigbee_hub.Storage.{save, init_zero}
use zigbee_hub.Device.{join_slot, get_nwk}
use zigbee_hub.Device.Registry.{get_nwk-join_slot}
use zigbee_hub.Hub.{Hub, join, leave, after_join, active_ep_req, send_zdo_active_ep_req}
use zigbee_hub.Hub.Inbound.{
  on_areq, parse_tc_dev_ind, parse_end_device_annce, parse_leave_ind, word_at,
}

-- An AREQ of the ZDO subsystem with these payload bytes, in an array with these bytes behind them.
abbrev pub zdo_areq : ℕ → List ℕ → List ℕ → Frame
zdo_areq id bytes stale = record {
  cmd_type = 0x45;
  cmd_id = id;
  payload = bytes ++ stale;
  payload_len = length bytes;
}

join_with :
    {ieee ieee' nwk nwk' : ℕ}
    → nwk' ≡ nwk
    → ieee' ≡ ieee
    → (h : Hub) → (join ieee' nwk' h).1 ≡ (join ieee nwk h).1
join_with p q h = rw (p, q) refl

pub on_areq-membership :
    (ieee nwk a b : ℕ) (stale : List ℕ) (h : Hub)
    → ieee < 2 ^ 64
    → nwk < 2 ^ 16
    → (on_areq
          (zdo_areq 0xCA (low_byte nwk ∷ high_byte nwk ∷ word_bytes 8 ieee ++ a ∷ b ∷ []) stale)
          h
        ≡ some (join ieee nwk h).1)
      × (on_areq
            (zdo_areq 0xC1
              (a ∷ b ∷ low_byte nwk ∷ high_byte nwk ∷ word_bytes 8 ieee ++ a ∷ [])
              stale)
            h
          ≡ some (join ieee nwk h).1)
      × (on_areq (zdo_areq 0xC9 (a ∷ b ∷ word_bytes 8 ieee ++ a ∷ b ∷ []) stale) h
          ≡ some (leave ieee h))
unfolding on_areq parse_tc_dev_ind parse_end_device_annce parse_leave_ind
on_areq-membership ieee nwk a b stale h p q =
    let spelled : or_bytes 0 0 (word_bytes 8 ieee) ≡ ieee =
      omega (arith, or_bytes-word_bytes 8 0 0 ieee (omega arith) p) in
    unfold word_bytes in
    (
      ap (λ r. some r) (join_with (le16-bytes nwk q) spelled h),
      ap (λ r. some r) (join_with (le16-bytes nwk q) spelled h),
      ap (λ i. some (leave i h)) spelled,
    )

-- With a 16-bit network address, a join fails with ESP_ERR_NO_MEM and changes nothing, or it
-- succeeds: then the device has its new network address and every other device the one that it had,
-- a record with the two addresses is saved, and exactly one request goes out, which carries the
-- network address twice.
pub join_lem :
    (ieee nwk : ℕ) (h : Hub)
    → nwk < 2 ^ 16
    → (join ieee nwk h ≡ (no_mem, h))
      ⊎ (((join ieee nwk h).0 ≡ ok)
          × ((other : ℕ)
              → get_nwk other (join ieee nwk h).1.devices
                ≡ (if other == ieee then nwk else get_nwk other h.devices))
          × ((join ieee nwk h).1.storage_calls
              ≡ h.storage_calls
                ++ save (record init_zero { ieee_addr = ieee; network_addr = nwk }) ∷ [])
          × ((req : Frame) × ((join ieee nwk h).1.session.sent ≡ h.session.sent ++ req ∷ [])
              × (word_at req 0 ≡ nwk)
              × (word_at req 2 ≡ nwk)))
unfolding join after_join send_zdo_active_ep_req
join_lem ieee nwk h q = elim (Option-cases (join_slot ieee nwk h.devices)) [
  | inl n ↦ rw n (inl refl)
  | inr (ds, e) ↦ rw e (
      inr (
        refl,
        λ other. get_nwk-join_slot ieee nwk other h.devices ds e,
        refl,
        (
          active_ep_req nwk,
          sent-send_sreq (active_ep_req nwk) h.session (unfold request in omega arith),
          unfold request in le16-bytes nwk q,
          unfold request in le16-bytes nwk q,
        ),
      ))
]
