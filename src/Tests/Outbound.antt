-- ===== src/Tests/Outbound.antt =====
-- Requests to a device through the capability layer.
use zigbee_hub.Base.{
  ◌≢◌, ℕ, ◌≡◌, ◌⊎◌, refl, true, [], ◌∷◌, some, arith, take, drop, not_found, not_supported,
}
use zigbee_hub.Base.Words.{low_byte, high_byte}
use zigbee_hub.Zcl.{cap_id, cluster_onoff, cluster_level, cluster_color, cluster_binary_output}
use zigbee_hub.Zcl.{cap_ep, cap_cluster, cluster_temperature}
use zigbee_hub.Znp.Frame.{Frame}
use zigbee_hub.Device.{find, get_nwk, find_by_ieee}
use zigbee_hub.Hub.{zcl_send}
use zigbee_hub.Hub.Clusters.{next_seq}
use zigbee_hub.Hub.Typed.{
  cap_get-typed_get, typed_get, cap_onoff_set, cap_level_set, cap_color_xy_set,
  cap_binary_output_set,
}
use zigbee_hub.Hub.Commands.{cap_set_lem}
use zigbee_hub.Hub.Schema.{metering, cluster_of, cap_init, cap_set, cap_get}
use zigbee_hub.Hub.Inbound.{byte_at, word_at}
use zigbee_hub.Hub.Sending.{zcl_send_lem}
use zigbee_hub.Tests.Plug.{plug, spare, hub}

pub plug_nwk : get_nwk 7 (plug ∷ spare ∷ []) ≡ 0x1234
unfolding get_nwk find_by_ieee find
plug_nwk = refl

zcl_send_lem_example :
    ((◌≡◌ {A = ℕ} 0x1234 0xFFFF) × (zcl_send 7 0x10006 (0x11 ∷ 0 ∷ 1 ∷ []) hub ≡ (not_found, hub)))
    ⊎ ((◌≢◌ {A = ℕ} 0x1234 0xFFFF)
        × (req : Frame) × ((zcl_send 7 0x10006 (0x11 ∷ 0 ∷ 1 ∷ []) hub).1.session.sent ≡ req ∷ [])
        × (word_at req 0 ≡ 0x1234)
        × (byte_at req 2 ≡ cap_ep 0x10006)
        × (word_at req 4 ≡ cap_cluster 0x10006)
        × (byte_at req 9 ≡ 3)
        × (req.payload_len ≡ 13)
        × (take 3 (drop 10 req.payload) ≡ 0x11 ∷ 0 ∷ 1 ∷ []))
zcl_send_lem_example =
    zcl_send_lem 7 0x10006 0x1234 (0x11 ∷ 0 ∷ 1 ∷ []) hub plug_nwk (omega arith) (omega arith)

cap_set_lem_example :
    (cap_set (cap_init []) 7 (cap_id 1 cluster_onoff) (some (1 ∷ [])) hub
      ≡ zcl_send 7 (cap_id 1 cluster_onoff) (0x11 ∷ 0 ∷ 0x01 ∷ []) (next_seq hub))
    × (cap_set (cap_init []) 7 (cap_id 1 cluster_onoff) (some (0 ∷ [])) hub
        ≡ zcl_send 7 (cap_id 1 cluster_onoff) (0x11 ∷ 0 ∷ 0x00 ∷ []) (next_seq hub))
    × (cap_set (cap_init []) 7 (cap_id 1 cluster_level) (some (200 ∷ [])) hub
        ≡ zcl_send 7 (cap_id 1 cluster_level) (0x11 ∷ 0 ∷ 0x04 ∷ 200 ∷ 0 ∷ 0 ∷ []) (next_seq hub))
    × (cap_set
          (cap_init [])
          7
          (cap_id 1 cluster_color)
          (some (low_byte 24939 ∷ high_byte 24939 ∷ low_byte 24701 ∷ high_byte 24701 ∷ []))
          hub
        ≡ zcl_send 7
            (cap_id 1 cluster_color)
            (0x11
              ∷ 0
              ∷ 0x07
              ∷ low_byte 24939
              ∷ high_byte 24939
              ∷ low_byte 24701
              ∷ high_byte 24701
              ∷ 0
              ∷ 0
              ∷ [])
            (next_seq hub))
    × (cap_set (cap_init []) 7 (cap_id 1 cluster_binary_output) (some (1 ∷ [])) hub
        ≡ zcl_send 7
            (cap_id 1 cluster_binary_output)
            (0x10 ∷ 0 ∷ 0x02 ∷ 0x55 ∷ 0x00 ∷ 0x10 ∷ 0x01 ∷ [])
            (next_seq hub))
    × (cap_set (cap_init []) 7 (cap_id 1 cluster_temperature) (some (200 ∷ [])) hub
        ≡ (not_supported, hub))
cap_set_lem_example = cap_set_lem 7 1 200 24939 24701 hub (omega arith) (omega arith) (omega arith)

cap_get-typed_get_example :
    (cap_get (cap_init []) 7 (cap_id 1 (cluster_of metering)) hub
      ≡ typed_get metering 7 (cap_id 1 (cluster_of metering)) hub)
    × (cap_set (cap_init []) 7 (cap_id 1 cluster_onoff) (some (1 ∷ [])) hub
        ≡ cap_onoff_set 7 (cap_id 1 cluster_onoff) true hub)
    × (cap_set (cap_init []) 7 (cap_id 1 cluster_level) (some (128 ∷ [])) hub
        ≡ cap_level_set 7 (cap_id 1 cluster_level) 128 hub)
    × (cap_set
          (cap_init [])
          7
          (cap_id 1 cluster_color)
          (some (low_byte 0x1234 ∷ high_byte 0x1234 ∷ low_byte 0x5678 ∷ high_byte 0x5678 ∷ []))
          hub
        ≡ cap_color_xy_set 7 (cap_id 1 cluster_color) 0x1234 0x5678 hub)
    × (cap_set (cap_init []) 7 (cap_id 1 cluster_binary_output) (some (1 ∷ [])) hub
        ≡ cap_binary_output_set 7 (cap_id 1 cluster_binary_output) true hub)
cap_get-typed_get_example = cap_get-typed_get metering 7 1 128 0x1234 0x5678 true hub (omega arith)
