-- ===== src/Device/Slots.antt =====
-- The array of capabilities of a slot, and writing a slot (zb_device_mgr.c).
use zigbee_hub.Base.{
  ℕ, zero, suc, ◌%◌, ◌^◌, ◌≤◌, ◌<◌, ◌≡◌, refl, ◌∙◌, Bool, List, [], ◌∷◌, arith, length, leb,
  Bool-cases, inl, inr, All, replicate, length-replicate, length-set,
}
use zigbee_hub.Zcl.{cap_id}
use zigbee_hub.Storage.{Endpoint, ClusterCache}
use zigbee_hub.Device.{
  Dev, modify, add_cap, push_cap, load_endpoints, load_clusters, blank, max_caps,
}

-- The array of capabilities is whole, and the count stays inside it.
pub record IsDev (d : Dev) : Type 0 where
  pub whole : length d.caps ≡ max_caps
  pub counted : d.num_caps ≤ max_caps

pub length-modify :
    (p : Dev → Bool) (f : Dev → Dev) (ds : List Dev) → length (modify p f ds) ≡ length ds
unfolding modify
length-modify p f [] = refl
length-modify p f (d ∷ ds) = ground (arith, length-modify p f ds)

pub All-modify :
    (P : Dev → Type 0) (p : Dev → Bool) (f : Dev → Dev)
    → ((d : Dev) → P d → P (f d))
    → (ds : List Dev) → All P ds
    → All P (modify p f ds)
unfolding modify
All-modify P p f keeps [] a = tt
All-modify P p f keeps (d ∷ ds) a = elim (Bool-cases (p d)) [
  | inl h ↦ rw h (keeps d a.0, a.1)
  | inr h ↦ rw h (a.0, All-modify P p f keeps ds a.1)
]

push_cap-IsDev : (cap : ℕ) (d : Dev) → IsDev d → d.num_caps < max_caps → IsDev (push_cap cap d)
push_cap-IsDev cap d v h = record {
  whole = length-set d.caps d.num_caps cap ∙ v.whole;
  counted = omega arith;
}

pub add_cap-IsDev : (cap : ℕ) (d : Dev) → IsDev d → IsDev (add_cap cap d)
unfolding add_cap
add_cap-IsDev cap d v = ground (arith, length-set d.caps d.num_caps cap)

-- Loading capabilities touches nothing else of the slot, and stays inside the array.
abbrev pub Loads : Dev → Dev → Type 0
Loads d d' =
    (IsDev d → IsDev d')
    × (d'.active ≡ d.active)
    × (d'.ieee_addr ≡ d.ieee_addr)
    × (d'.nwk_addr ≡ d.nwk_addr)

load_clusters-Loads : (ep : ℕ) (cs : List ClusterCache) (d : Dev) → Loads d (load_clusters ep cs d)
unfolding load_clusters
load_clusters-Loads ep [] d = (λ v. v, refl, refl, refl)
load_clusters-Loads ep (c ∷ cs) d =
    let cap = cap_id (ep % 2 ^ 8) c.cluster_id in
    let rest = load_clusters-Loads ep cs (push_cap cap d) in
    elim (Bool-cases (leb max_caps d.num_caps)) [
      | inl full ↦ rw full (λ v. v, refl, refl, refl)
      | inr room ↦
          rw room (λ v. rest.0 (push_cap-IsDev cap d v (ground arith)), rest.1, rest.2, rest.3)
    ]

pub load_endpoints-Loads : (es : List Endpoint) (d : Dev) → Loads d (load_endpoints es d)
unfolding load_endpoints
load_endpoints-Loads [] d = (λ v. v, refl, refl, refl)
load_endpoints-Loads (e ∷ es) d =
    let here = load_clusters-Loads e.ep_id e.clusters d in
    let there = load_endpoints-Loads es (load_clusters e.ep_id e.clusters d) in
    (λ v. there.0 (here.0 v), there.1 ∙ here.1, there.2 ∙ here.2, there.3 ∙ here.3)

pub All-replicate : (P : Dev → Type 0) (n : ℕ) (d : Dev) → P d → All P (replicate n d)
All-replicate P zero d v = tt
All-replicate P (suc n) d v = (v, All-replicate P n d v)

pub blank-IsDev : IsDev blank
unfolding blank
blank-IsDev = record { whole = length-replicate {A = ℕ} max_caps 0; counted = omega arith }
