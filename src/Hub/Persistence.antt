-- ===== src/Hub/Persistence.antt =====
-- What every message keeps of the registry and of the calls of the store (zb_device_mgr.c).
use zigbee_hub.Base.{
  get_elem?, Option-cases, ℕ, zero, suc, ◌+◌, ◌≡◌, refl, inl, inr, arith, Bool, true, false, not,
  ◌||◌, List, [], ◌∷◌, ◌++◌, Option, none, some, ltb, leb, ◌==◌, if◌then◌else◌, Bool-cases, drop,
}
use zigbee_hub.Znp.Frame.{Frame}
use zigbee_hub.Zcl.{cap_id}
use zigbee_hub.Storage.{StorageCall, save, init_zero}
use zigbee_hub.Device.{Dev, find, has_nwk, find_by_nwk, learn_cap}
use zigbee_hub.Hub.{Hub, join, leave}
use zigbee_hub.Hub.Inbound.{
  on_areq, parse_tc_dev_ind, parse_end_device_annce, parse_leave_ind, af_from, af_incomplete,
  parse_af_incoming, parse_active_ep_rsp, learn_clusters, learn_out, described, persist,
  parse_simple_desc_rsp, word_at, byte_at, ieee_at, in_end,
}
use zigbee_hub.Hub.Unchanged.{Same, request_each-Same, af_zcl-Same}

-- A property of the registry and the calls that the four changes of zb_device_mgr.c keep: learning,
-- joining and leaving, for addresses that may come, and saving the record of a device again.
pub record Keeps (P : List Dev → List StorageCall → Type 0) (Named : ℕ → ℕ → Type 0) : Type 0 where
  pub learns :
      (ieee cap : ℕ) (ds : List Dev) (calls : List StorageCall)
      → P ds calls
      → P (learn_cap ieee cap ds).1 calls
  pub joins :
      (ieee nwk : ℕ) (h : Hub)
      → Named ieee nwk
      → P h.devices h.storage_calls
      → P (join ieee nwk h).1.devices (join ieee nwk h).1.storage_calls
  pub leaves :
      (ieee nwk : ℕ) (h : Hub)
      → Named ieee nwk
      → P h.devices h.storage_calls
      → P (leave ieee h).devices (leave ieee h).storage_calls
  pub saves :
      (nwk : ℕ) (d : Dev) (ds : List Dev) (calls : List StorageCall)
      → find (has_nwk nwk) ds ≡ some d
      → P ds calls
      → P ds (calls ++ save (record init_zero { ieee_addr = d.ieee_addr; network_addr = nwk }) ∷ [])

module _ {P : List Dev → List StorageCall → Type 0} {Named : ℕ → ℕ → Type 0}
    (k : Keeps P Named) where
  abbrev pub Holds : Hub → Type 0
  Holds h = P h.devices h.storage_calls

  -- The addresses that the fields of a message can spell.
  abbrev pub NamedBy : Frame → Type 0
  NamedBy f = (i j : ℕ) → Named (ieee_at f i) (word_at f j)

  pub this_one : (h h' : Hub) → Holds h → some h ≡ some h' → Holds h'
  this_one h h' m e = let s : h ≡ h' = ground arith in rw (← s) m

  pub Same-Holds : (h h' : Hub) → Same h h' → Holds h → Holds h'
  Same-Holds h h' (p, q) m = rw (p, q) m

  learn_clusters-Holds :
      (left i : ℕ) (f : Frame) (ieee ep : ℕ) (ds ds' : List Dev) (calls : List StorageCall)
      → learn_clusters left i f ieee ep ds ≡ some ds'
      → P ds calls
      → P ds' calls
  unfolding learn_clusters
  learn_clusters-Holds zero i f ieee ep ds ds' calls e m =
      let s : ds ≡ ds' = ground arith in rw (← s) m
  learn_clusters-Holds (suc left) i f ieee ep ds ds' calls e m =
      elim (Bool-cases (leb f.payload_len (i + 1))) [
        | inl out ↦ let s : ds ≡ ds' = ground arith in rw (← s) m
        | inr here ↦
            let taught = (learn_cap ieee (cap_id ep (word_at f i)) ds).1 in
            let next : learn_clusters left (i + 2) f ieee ep taught ≡ some ds' = ground arith in
            learn_clusters-Holds left (i + 2) f ieee ep taught ds' calls next
              (k.learns ieee (cap_id ep (word_at f i)) ds calls m)
      ]

  af_from-Holds :
      (f : Frame) (h h' : Hub) (d : Option Dev) → af_from f h d ≡ some h' → Holds h → Holds h'
  unfolding af_from
  af_from-Holds f h h' none e m = let s : h ≡ h' = ground arith in rw (← s) m
  af_from-Holds f h h' (some d) e m =
      let cap = cap_id (byte_at f 6) (word_at f 2) in
      let taught : Hub = record h { devices = (learn_cap d.ieee_addr cap h.devices).1 } in
      Same-Holds taught h'
        (af_zcl-Same d.ieee_addr (byte_at f 6) (word_at f 2) (drop 17 f.payload) (byte_at f 16)
          taught h' e)
        (k.learns d.ieee_addr cap h.devices h.storage_calls m)

  parse_af_incoming-Holds :
      (f : Frame) (h h' : Hub) → parse_af_incoming f h ≡ some h' → Holds h → Holds h'
  unfolding parse_af_incoming
  parse_af_incoming-Holds f h h' e m = elim (Bool-cases (ltb f.payload_len 17 || af_incomplete f)) [
    | inl short ↦ let s : h ≡ h' = ground arith in rw (← s) m
    | inr whole ↦ af_from-Holds f h h' (find_by_nwk (word_at f 4) h.devices) (ground arith) m
  ]

  parse_active_ep_rsp-Holds :
      (f : Frame) (h h' : Hub) → parse_active_ep_rsp f h ≡ some h' → Holds h → Holds h'
  unfolding parse_active_ep_rsp
  parse_active_ep_rsp-Holds f h h' e m =
      Same-Holds h h' (ground (arith, request_each-Same (byte_at f 5) 6 f (word_at f 3) h h')) m

  learn_out-Holds :
      (f : Frame) (ieee : ℕ) (ds ds' : List Dev) (calls : List StorageCall)
      → learn_out f ieee ds ≡ some ds'
      → P ds calls
      → P ds' calls
  unfolding learn_out
  learn_out-Holds f ieee ds ds' calls e m = elim (Bool-cases (ltb (in_end f) f.payload_len)) [
    | inr none_left ↦ let s : ds ≡ ds' = ground arith in rw (← s) m
    | inl more ↦ elim (Option-cases (get_elem? f.payload (in_end f))) [
      | inl behind ↦ absurd (ground arith)
      | inr (n, there) ↦
          learn_clusters-Holds n (in_end f + 1) f ieee (byte_at f 6) ds ds' calls (ground arith) m
    ]
  ]

  described-Holds :
      (f : Frame) (h h' : Hub) (d : Option Dev)
      → find_by_nwk (word_at f 3) h.devices ≡ d
      → described f h d ≡ some h'
      → Holds h
      → Holds h'
  unfolding described find_by_nwk
  described-Holds f h h' none e done m = let s : h ≡ h' = ground arith in rw (← s) m
  described-Holds f h h' (some d) e done m =
      let calls =
        h.storage_calls
        ++ save (record init_zero { ieee_addr = d.ieee_addr; network_addr = word_at f 3 }) ∷ [] in
      let saved = k.saves (word_at f 3) d h.devices h.storage_calls e m in
      let loop = learn_clusters (byte_at f 11) 12 f d.ieee_addr (byte_at f 6) h.devices in
      elim (Option-cases loop) [
        | inl behind ↦ absurd (ground arith)
        | inr (ins, first) ↦ elim (Option-cases (learn_out f d.ieee_addr ins)) [
          | inl behind ↦ absurd (ground arith)
          | inr (ds, second) ↦
              let last : persist f d.ieee_addr h (some ds) ≡ some h' = ground arith in
              this_one _ h'
                (learn_out-Holds f d.ieee_addr ins ds calls second (
                  learn_clusters-Holds (byte_at f 11) 12 f d.ieee_addr (byte_at f 6) h.devices ins
                    calls first saved))
                last
        ]
      ]

  parse_simple_desc_rsp-Holds :
      (f : Frame) (h h' : Hub) → parse_simple_desc_rsp f h ≡ some h' → Holds h → Holds h'
  unfolding parse_simple_desc_rsp
  parse_simple_desc_rsp-Holds f h h' e m =
      elim (Bool-cases (ltb f.payload_len 12 || not (byte_at f 2 == 0x00))) [
        | inl short ↦ let s : h ≡ h' = ground arith in rw (← s) m
        | inr whole ↦
            described-Holds f h h' (find_by_nwk (word_at f 3) h.devices) refl (ground arith) m
      ]

  membership-Holds :
      (f : Frame) (h : Hub)
      → NamedBy f
      → Holds h
      → Holds (parse_tc_dev_ind f h)
        × Holds (parse_end_device_annce f h)
        × Holds (parse_leave_ind f h)
  unfolding parse_tc_dev_ind parse_end_device_annce parse_leave_ind
  membership-Holds f h named m = (
    guarded (ltb f.payload_len 12) (join (ieee_at f 2) (word_at f 0) h).1
        (k.joins (ieee_at f 2) (word_at f 0) h (named 2 0) m),
    guarded (ltb f.payload_len 13) (join (ieee_at f 4) (word_at f 2) h).1
        (k.joins (ieee_at f 4) (word_at f 2) h (named 4 2) m),
    guarded (ltb f.payload_len 12) (leave (ieee_at f 2) h)
        (k.leaves (ieee_at f 2) (word_at f 0) h (named 2 0) m),
  )
    where
      guarded : (b : Bool) (next : Hub) → Holds next → Holds (if b then h else next)
      guarded true next n = m
      guarded false next n = n

  -- Either result of a test.
  either :
      (b : Bool) (x y : Option Hub) (h' : Hub)
      → (x ≡ some h' → Holds h')
      → (y ≡ some h' → Holds h')
      → (if b then x else y) ≡ some h'
      → Holds h'
  either true x y h' f g e = f e
  either false x y h' f g e = g e

  pub on_areq-Holds :
      (f : Frame) (h h' : Hub) → NamedBy f → Holds h → on_areq f h ≡ some h' → Holds h'
  unfolding on_areq
  on_areq-Holds f h h' named m =
      let (joins, announces, leaves) = membership-Holds f h named m in
      either (f.cmd_type == 0x45) _ _ h'
        (either (f.cmd_id == 0xCA) _ _ h' (this_one _ h' joins) (
          either (f.cmd_id == 0xC1) _ _ h' (this_one _ h' announces) (
            either (f.cmd_id == 0xC9) _ _ h' (this_one _ h' leaves) (
              either (f.cmd_id == 0x85) _ _ h' (λ e. parse_active_ep_rsp-Holds f h h' e m)
                (either (f.cmd_id == 0x84) _ _ h' (λ e. parse_simple_desc_rsp-Holds f h h' e m)
                  (this_one h h' m))))))
        (either (f.cmd_type == 0x44) _ _ h'
          (either (f.cmd_id == 0x81) _ _ h' (λ e. parse_af_incoming-Holds f h h' e m)
            (this_one h h' m))
          (this_one h h' m))
