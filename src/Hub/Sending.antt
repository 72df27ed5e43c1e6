-- ===== src/Hub/Sending.antt =====
-- What `zb_zcl_send` puts on the wire.
use zigbee_hub.Base.{
  ℕ, ◌+◌, ◌^◌, ◌≤◌, ◌<◌, ◌≡◌, ◌≢◌, ◌⊎◌, inl, inr, refl, List, [], ◌∷◌, ◌++◌, arith, ◌==◌, length,
  take, drop, replicate, take-overwrite, length-replicate, Bool-cases, not_found,
}
use zigbee_hub.Base.Words.{le16-bytes}
use zigbee_hub.Zcl.{cap_ep, cap_cluster, cap_cluster-lt}
use zigbee_hub.Znp.Frame.{Frame, request, make_cmd_type, frame_type_sreq}
use zigbee_hub.Znp.Session.{sent-send_sreq}
use zigbee_hub.Device.{get_nwk}
use zigbee_hub.Hub.{Hub, zcl_send, af_payload}
use zigbee_hub.Hub.Inbound.{word_at, byte_at}

-- For a ZCL frame of at most 240 bytes and a 16-bit network address: for a device that is not
-- registered (address 0xFFFF) nothing is sent and nothing changes. For a registered one,
-- exactly one AF_DATA_REQUEST goes out: to its network address, to the endpoint and the cluster of
-- the capability, with the ZCL frame whole at the end of the payload, behind its length.
pub zcl_send_lem :
    (ieee cap nwk : ℕ) (zcl : List ℕ) (h : Hub)
    → get_nwk ieee h.devices ≡ nwk
    → nwk < 2 ^ 16
    → length zcl ≤ 240
    → ((nwk ≡ 0xFFFF) × (zcl_send ieee cap zcl h ≡ (not_found, h)))
      ⊎ ((nwk ≢ 0xFFFF)
          × (req : Frame) × ((zcl_send ieee cap zcl h).1.session.sent ≡ h.session.sent ++ req ∷ [])
          × (word_at req 0 ≡ nwk)
          × (byte_at req 2 ≡ cap_ep cap)
          × (word_at req 4 ≡ cap_cluster cap)
          × (byte_at req 9 ≡ length zcl)
          × (req.payload_len ≡ 10 + length zcl)
          × (take (length zcl) (drop 10 req.payload) ≡ zcl))
unfolding zcl_send
zcl_send_lem ieee cap nwk zcl h e q size = elim (Bool-cases (nwk == 0xFFFF)) [
  | inl y ↦ inl (ground arith, rw (e, y) refl)
  | inr n ↦
      let req = request (make_cmd_type 0x24 frame_type_sreq) 0x01 (af_payload nwk cap zcl) in
      inr (
        (λ z. ground arith),
        req,
        rw (e, n) (sent-send_sreq req h.session (unfold request in omega arith)),
        unfold request in le16-bytes nwk q,
        unfold request in refl,
        unfold request in le16-bytes (cap_cluster cap) (cap_cluster-lt cap),
        unfold request in omega arith,
        unfold request in omega arith,
        unfold request in
            take-overwrite zcl (replicate 240 0) (omega (arith, length-replicate {A = ℕ} 240 0)),
      )
]
