-- ===== src/Hub/Commands.antt =====
-- The ZCL frames that setting a capability sends, through the table of built-in schemas.
use zigbee_hub.Base.{
  ℕ, ◌^◌, ◌<◌, ◌≡◌, refl, ap, ◌∙◌, arith, List, [], ◌∷◌, Option, some, not_supported,
}
use zigbee_hub.Base.Words.{low_byte, high_byte, le16-bytes}
use zigbee_hub.Zcl.{
  cap_id, cap_cluster, cap_id_parts, cluster_onoff, cluster_level, cluster_color,
  cluster_temperature, cluster_binary_output,
}
use zigbee_hub.Hub.{Hub, zcl_send}
use zigbee_hub.Hub.Clusters.{
  next_seq, onoff_set, level_set, color_set, binary_output_set, write_attr,
}
use zigbee_hub.Hub.Schema.{
  Schema, schema_find, cap_init, cap_set, call_set, onoff, level, color, temperature, binary_output,
  schema_find-cap_init, cluster_of,
}

-- Setting goes to the setter of the schema for the cluster of the handle.
pub cap_set_by :
    (s : Schema) (ieee ep : ℕ) (value : Option (List ℕ)) (h : Hub)
    → ep < 2 ^ 8
    → cluster_of s < 2 ^ 16
    → cap_set (cap_init []) ieee (cap_id ep (cluster_of s)) value h
      ≡ call_set s ieee (cap_id ep (cluster_of s)) value h
unfolding cap_set call_set
cap_set_by s ieee ep value h small word =
    let c : cap_cluster (cap_id ep (cluster_of s)) ≡ cluster_of s =
      (cap_id_parts ep (cluster_of s) small word).1 in
    let found : schema_find (cap_cluster (cap_id ep (cluster_of s))) (cap_init []) ≡ some s =
      ap (λ k. schema_find k (cap_init [])) c ∙ schema_find-cap_init s in
    rw (found, cap_set) refl

-- At an endpoint of one byte and for coordinates of 16 bits, setting a capability sends the ZCL
-- frame of its cluster, with the next sequence number, to the device: On or Off, Move to Level,
-- Move to Color with both coordinates as given, or a write of PresentValue; a temperature cannot be
-- set, and nothing is sent.
pub cap_set_lem :
    (ieee ep v x y : ℕ) (h : Hub)
    → ep < 2 ^ 8
    → x < 2 ^ 16
    → y < 2 ^ 16
    → (cap_set (cap_init []) ieee (cap_id ep cluster_onoff) (some (1 ∷ [])) h
        ≡ zcl_send ieee (cap_id ep cluster_onoff) (0x11 ∷ h.zcl_seq ∷ 0x01 ∷ []) (next_seq h))
      × (cap_set (cap_init []) ieee (cap_id ep cluster_onoff) (some (0 ∷ [])) h
          ≡ zcl_send ieee (cap_id ep cluster_onoff) (0x11 ∷ h.zcl_seq ∷ 0x00 ∷ []) (next_seq h))
      × (cap_set (cap_init []) ieee (cap_id ep cluster_level) (some (v ∷ [])) h
          ≡ zcl_send ieee
              (cap_id ep cluster_level)
              (0x11 ∷ h.zcl_seq ∷ 0x04 ∷ v ∷ 0 ∷ 0 ∷ [])
              (next_seq h))
      × (cap_set
            (cap_init [])
            ieee
            (cap_id ep cluster_color)
            (some (low_byte x ∷ high_byte x ∷ low_byte y ∷ high_byte y ∷ []))
            h
          ≡ zcl_send ieee
              (cap_id ep cluster_color)
              (0x11
                ∷ h.zcl_seq
                ∷ 0x07
                ∷ low_byte x
                ∷ high_byte x
                ∷ low_byte y
                ∷ high_byte y
                ∷ 0
                ∷ 0
                ∷ [])
              (next_seq h))
      × (cap_set (cap_init []) ieee (cap_id ep cluster_binary_output) (some (1 ∷ [])) h
          ≡ zcl_send ieee
              (cap_id ep cluster_binary_output)
              (0x10 ∷ h.zcl_seq ∷ 0x02 ∷ 0x55 ∷ 0x00 ∷ 0x10 ∷ 0x01 ∷ [])
              (next_seq h))
      × (cap_set (cap_init []) ieee (cap_id ep cluster_temperature) (some (v ∷ [])) h
          ≡ (not_supported, h))
unfolding call_set onoff_set level_set color_set binary_output_set write_attr cluster_of
cap_set_lem ieee ep v x y h small p q =
    let small_cluster = λ (s : Schema) (c : cluster_of s < 2 ^ 16) (value : Option (List ℕ)).
      cap_set_by s ieee ep value h small c in
    (
      small_cluster onoff (omega arith) (some (1 ∷ [])),
      small_cluster onoff (omega arith) (some (0 ∷ [])),
      small_cluster level (omega arith) (some (v ∷ [])),
      small_cluster color (omega arith)
            (some (low_byte x ∷ high_byte x ∷ low_byte y ∷ high_byte y ∷ []))
          ∙ rw (le16-bytes x p, le16-bytes y q) refl,
      small_cluster binary_output (omega arith) (some (1 ∷ [])),
      small_cluster temperature (omega arith) (some (v ∷ [])),
    )
