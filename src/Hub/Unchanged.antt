-- ===== src/Hub/Unchanged.antt =====
-- The parts of messages that leave the registry and the store alone (zb_device_mgr.c).
use zigbee_hub.Base.{
  ℕ, zero, suc, ◌+◌, ◌-◌, ◌≡◌, refl, inl, inr, arith, List, some, Option-cases, get_elem?, get_or,
  take, drop,
}
use zigbee_hub.Base.Words.{le16}
use zigbee_hub.Znp.Frame.{Frame}
use zigbee_hub.Hub.{Hub, send_zdo_simple_desc_req}
use zigbee_hub.Hub.Translate.{dispatch_attr, dispatch_ias_status_change}
use zigbee_hub.Hub.Inbound.{reports, report_size, af_zcl, request_each}

-- The registry and the store are as they were.
abbrev pub Same : Hub → Hub → Type 0
Same h h' = (h'.devices ≡ h.devices) × (h'.storage_calls ≡ h.storage_calls)

pub dispatch_attr-Same :
    (ieee ep cluster attr dtype : ℕ) (v : List ℕ) (h : Hub)
    → Same h (dispatch_attr ieee ep cluster attr dtype v h)
unfolding dispatch_attr
dispatch_attr-Same ieee ep cluster attr dtype v h = (refl, refl)

pub dispatch_ias-Same :
    (ieee ep n : ℕ) (bytes : List ℕ) (h : Hub)
    → Same h (dispatch_ias_status_change ieee ep bytes n h).1
unfolding dispatch_ias_status_change
dispatch_ias-Same ieee ep n bytes h = ground arith

pub reports-Same :
    (fuel ieee ep cluster : ℕ) (rp : List ℕ) (remaining : ℕ) (h h' : Hub)
    → reports fuel ieee ep cluster rp remaining h ≡ some h'
    → Same h h'
unfolding reports
reports-Same zero ieee ep cluster rp remaining h h' e = ground arith
reports-Same (suc fuel) ieee ep cluster rp remaining h h' e =
    let sz = report_size (get_or rp 2 0) in
    let attr = le16 (get_or rp 0 0) (get_or rp 1 0) in
    let bytes = take sz (drop 3 rp) in
    let next = dispatch_attr ieee ep cluster attr (get_or rp 2 0) bytes h in
    let later =
      reports-Same fuel ieee ep cluster (drop sz (drop 3 rp)) (remaining - (3 + sz)) next h' in
    let here = dispatch_attr-Same ieee ep cluster attr (get_or rp 2 0) bytes h in
    ground (arith, later, here)

pub request_each-Same :
    (left i : ℕ) (f : Frame) (nwk : ℕ) (h h' : Hub)
    → request_each left i f nwk h ≡ some h'
    → Same h h'
unfolding request_each send_zdo_simple_desc_req
request_each-Same zero i f nwk h h' e = ground arith
request_each-Same (suc left) i f nwk h h' e = elim (Option-cases (get_elem? f.payload i)) [
  | inl n ↦ absurd (ground arith)
  | inr (ep, g) ↦
      request_each-Same left (suc i) f nwk (send_zdo_simple_desc_req nwk ep h) h' (ground arith)
]

pub af_zcl-Same :
    (ieee ep cluster : ℕ) (zcl : List ℕ) (n : ℕ) (h h' : Hub)
    → af_zcl ieee ep cluster zcl n h ≡ some h'
    → Same h h'
unfolding af_zcl
af_zcl-Same ieee ep cluster zcl n h h' e = ground (
  arith,
  dispatch_ias-Same ieee ep (n - 3) (drop 3 zcl) h,
  reports-Same n ieee ep cluster (drop 3 zcl) (n - 3) h h',
)
