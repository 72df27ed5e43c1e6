-- ===== src/Hub/Descriptors.antt =====
-- What incoming AREQs may read, and how simple descriptors are taken apart.
use zigbee_hub.Znp.Mt.{subsys_af_areq, af_incoming_msg_cmd, subsys_zdo_areq, zdo_active_ep_rsp_cmd}
use zigbee_hub.Base.{
  ◌%◌, Option, some, Bool-cases, ℕ, zero, suc, ◌+◌, ◌-◌, ◌*◌, ◌^◌, ◌≤◌, ◌<◌, ◌≡◌, ◌≢◌, inl, inr,
  List, [], ◌∷◌, ◌++◌, none, some, arith, ltb, length, get_elem?-eq_some, drop, Option-cases,
}
use zigbee_hub.Base.Words.{low_byte, high_byte}
use zigbee_hub.Zcl.{cap_id}
use zigbee_hub.Znp.Frame.{Frame, IsFrame}
use zigbee_hub.Device.{Dev, find_by_nwk, learn_cap}
use zigbee_hub.Hub.{Hub, send_zdo_simple_desc_req}
use zigbee_hub.Hub.Clusters.{attr_bytes}
use zigbee_hub.Hub.Reports.{reports_end, length-drop}
use zigbee_hub.Hub.Inbound.{
  byte_at, word_at, in_end, af_incomplete, af_zcl, parse_af_incoming, parse_active_ep_rsp,
  parse_simple_desc_rsp, request_each, on_areq, learn_clusters, reports, learn_out, described,
}

reports_safe :
    (ieee ep cluster fuel : ℕ) (rp : List ℕ) (remaining : ℕ) (h : Hub)
    → remaining ≤ fuel
    → remaining ≤ length rp
    → reports fuel ieee ep cluster rp remaining h ≢ none
reports_safe ieee ep cluster fuel rp remaining h f l =
    rw (reports_end fuel ieee ep cluster rp remaining h f l).1 (ground arith)

af_zcl_safe :
    (ieee ep cluster : ℕ) (zcl : List ℕ) (data_len : ℕ) (h : Hub)
    → data_len ≤ length zcl
    → af_zcl ieee ep cluster zcl data_len h ≢ none
unfolding af_zcl
af_zcl_safe ieee ep cluster zcl data_len h there = ground (
  arith,
  reports_safe ieee ep cluster data_len (drop 3 zcl) (data_len - 3) h (omega arith)
      (omega (arith, length-drop 3 zcl)),
)

request_each_safe :
    (left i : ℕ) (f : Frame) (nwk : ℕ) (h : Hub)
    → i + left ≤ length f.payload
    → request_each left i f nwk h ≢ none
unfolding request_each
request_each_safe zero i f nwk h there = ground arith
request_each_safe (suc left) i f nwk h there =
    let (ep, e) = get_elem?-eq_some f.payload i (omega arith) in
    rw (e, request_each)
      (request_each_safe left (suc i) f nwk (send_zdo_simple_desc_req nwk ep h) (omega arith))

parse_active_ep_rsp_safe :
    (f : Frame) (h : Hub) → IsFrame f → byte_at f 5 < 250 → parse_active_ep_rsp f h ≢ none
unfolding parse_active_ep_rsp
parse_active_ep_rsp_safe f h v eps =
    elim (Bool-cases (ltb f.payload_len ((6 + byte_at f 5) % 2 ^ 8))) [
      | inl short ↦ rw short (ground arith)
      | inr long ↦
          let there : 6 + byte_at f 5 ≤ length f.payload = ground (arith, v.whole, v.fits) in
          ground (arith, request_each_safe (byte_at f 5) 6 f (word_at f 3) h there)
    ]

-- The data of an AF message are read within the payload array.
af_data_safe :
    (f : Frame) (ieee : ℕ) (h : Hub)
    → IsFrame f
    → 17 + byte_at f 16 ≤ f.payload_len
    → af_zcl ieee (byte_at f 6) (word_at f 2) (drop 17 f.payload) (byte_at f 16) h ≢ none
af_data_safe f ieee h v within =
    af_zcl_safe ieee (byte_at f 6) (word_at f 2) (drop 17 f.payload) (byte_at f 16) h
      (omega (arith, v.whole, v.fits, length-drop 17 f.payload))

parse_af_incoming_safe :
    (f : Frame) (h : Hub) → IsFrame f → byte_at f 16 < 239 → parse_af_incoming f h ≢ none
unfolding parse_af_incoming
parse_af_incoming_safe f h v size = elim (Bool-cases (af_incomplete f)) [
  | inl short ↦ rw short (ground arith)
  | inr long ↦
      let within : 17 + byte_at f 16 ≤ f.payload_len = ground arith in
      elim (Option-cases (find_by_nwk (word_at f 4) h.devices)) [
        | inl n ↦ rw n (ground arith)
        | inr (d, found) ↦ rw found (
            ground (
              arith,
              af_data_safe f d.ieee_addr
                  (record h {
                    devices =
                        (learn_cap d.ieee_addr (cap_id (byte_at f 6) (word_at f 2)) h.devices).1;
                  })
                  v within,
            ))
      ]
]

learn_clusters_safe :
    (left i : ℕ) (f : Frame) (ieee ep : ℕ) (ds : List Dev)
    → f.payload_len ≤ length f.payload
    → learn_clusters left i f ieee ep ds ≢ none
unfolding learn_clusters
learn_clusters_safe zero i f ieee ep ds h = ground arith
learn_clusters_safe (suc left) i f ieee ep ds h = ground (
  arith,
  learn_clusters_safe left (i + 2) f ieee ep (learn_cap ieee (cap_id ep (word_at f i)) ds).1 h,
)

learn_out_safe :
    (f : Frame) (ieee : ℕ) (ds : List Dev)
    → f.payload_len ≤ length f.payload
    → learn_out f ieee ds ≢ none
unfolding learn_out
learn_out_safe f ieee ds h = elim (Bool-cases (ltb (in_end f) f.payload_len)) [
  | inr over ↦ rw over (ground arith)
  | inl more ↦
      let (n, there) = get_elem?-eq_some f.payload (in_end f) (ground arith) in
      rw (more, there) (learn_clusters_safe n (in_end f + 1) f ieee (byte_at f 6) ds h)
]

described_safe :
    (f : Frame) (h : Hub) (d : Option Dev)
    → f.payload_len ≤ length f.payload
    → described f h d ≢ none
unfolding described
described_safe f h none w = ground arith
described_safe f h (some d) w =
    elim (Option-cases (learn_clusters (byte_at f 11) 12 f d.ieee_addr (byte_at f 6) h.devices)) [
      | inl n ↦
          absurd (learn_clusters_safe (byte_at f 11) 12 f d.ieee_addr (byte_at f 6) h.devices w n)
      | inr (ins, e) ↦ elim (Option-cases (learn_out f d.ieee_addr ins)) [
        | inl n ↦ absurd (learn_out_safe f d.ieee_addr ins w n)
        | inr (ds, e') ↦ rw (e, e') (ground arith)
      ]
    ]

parse_simple_desc_rsp_safe : (f : Frame) (h : Hub) → IsFrame f → parse_simple_desc_rsp f h ≢ none
unfolding parse_simple_desc_rsp
parse_simple_desc_rsp_safe f h v = ground (
  arith,
  described_safe f h (find_by_nwk (word_at f 3) h.devices) (omega (arith, v.whole, v.fits)),
)

-- What the two inner lengths may be that the code's eight-bit tests do not bound: the data of an AF
-- message and the endpoints of an active endpoint response, in the messages that have them.
pub record StaysInside (f : Frame) : Type 0 where
  pub few_data : f.cmd_type ≡ subsys_af_areq → f.cmd_id ≡ af_incoming_msg_cmd → byte_at f 16 < 239
  pub few_endpoints :
      f.cmd_type ≡ subsys_zdo_areq → f.cmd_id ≡ zdo_active_ep_rsp_cmd → byte_at f 5 < 250

on_areq_safe : (f : Frame) (h : Hub) → IsFrame f → StaysInside f → on_areq f h ≢ none
unfolding on_areq
on_areq_safe f h v inside = ground (
  arith,
  inside.few_data,
  inside.few_endpoints,
  parse_active_ep_rsp_safe f h v,
  parse_af_incoming_safe f h v,
  parse_simple_desc_rsp_safe f h v,
)

-- A received frame is handled without a read behind its payload array, whatever it is, but for two
-- kinds, where the eight-bit sums of the code wrap: an AF message must say that it has fewer than
-- 239 bytes of data, and an active endpoint response that it has fewer than 250 endpoints. Nothing
-- is asked of other messages.
pub on_areq_end :
    (f : Frame) (h : Hub) → IsFrame f → StaysInside f → (h' : Hub) × (on_areq f h ≡ some h')
on_areq_end f h v inside = elim (Option-cases (on_areq f h)) [
  | inl n ↦ absurd (on_areq_safe f h v inside n)
  | inr found ↦ found
]

-- The clusters of a list, learned one after the other.
pub learn_each : ℕ → ℕ → List ℕ → List Dev → List Dev
learn_each ieee ep [] ds = ds
learn_each ieee ep (c ∷ cs) ds = learn_each ieee ep cs (learn_cap ieee (cap_id ep c) ds).1

-- The bytes up to the number of input clusters, as the code reads them: status 0, and the number at
-- index 11.
abbrev pub up_to_ins : ℕ → ℕ → ℕ → List ℕ
up_to_ins nwk ep n =
    0 ∷ 0 ∷ 0x00 ∷ low_byte nwk ∷ high_byte nwk ∷ 0 ∷ ep ∷ 0x04 ∷ 0x01 ∷ 0 ∷ 0 ∷ n ∷ []

-- A simple descriptor with its input clusters and its output clusters, each behind their number.
abbrev pub laid_out : ℕ → ℕ → List ℕ → List ℕ → List ℕ → List ℕ
laid_out nwk ep ins outs stale =
    up_to_ins nwk ep (length ins) ++ (attr_bytes ins ++ (length outs ∷ (attr_bytes outs ++ stale)))

module _ (f : Frame) (nwk ep : ℕ) (ins outs stale : List ℕ) (v : IsFrame f)
    (e : f.payload ≡ laid_out nwk ep ins outs stale)
    (room : 13 + 2 * length ins + 2 * length outs ≤ f.payload_len) where
  behind_ins : List ℕ
  behind_ins = length outs ∷ (attr_bytes outs ++ stale)

  front_outs : List ℕ
  front_outs = up_to_ins nwk ep (length ins) ++ attr_bytes ins
