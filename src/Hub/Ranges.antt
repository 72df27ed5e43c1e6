-- ===== src/Hub/Ranges.antt =====
-- The widths of the addresses that messages bring into the registry and the store
-- (zb_device_mgr.c).
use zigbee_hub.Base.{
  ℕ, ◌+◌, ◌<◌, ◌^◌, ◌≡◌, inl, inr, arith, Bool, false, List, [], ◌∷◌, ◌++◌, none, some,
  Option-cases, All,
}
use zigbee_hub.Base.Words.{or_bytes-take, le16-lt}
use zigbee_hub.Znp.Frame.{Frame, IsFrame}
use zigbee_hub.Storage.{StorageCall, save, delete, init_zero}
use zigbee_hub.Storage.Calls.{address}
use zigbee_hub.Device.{
  Dev, find, has_ieee, has_nwk, find_by_ieee, choose_slot, occupy, modify, learn_cap, add_cap,
  join_slot, leave_slot, get_nwk, empty, blank,
}
use zigbee_hub.Device.Slots.{All-modify, All-replicate}
use zigbee_hub.Hub.{Hub, join, leave, after_join, send_zdo_active_ep_req}
use zigbee_hub.Hub.Inbound.{ieee_at, word_at, byte_at}
use zigbee_hub.Hub.Persistence.{Keeps}

-- An IEEE address of 64 bits and a network address of 16.
abbrev pub Narrow : ℕ → ℕ → Type 0
Narrow ieee nwk = (ieee < 2 ^ 64) × (nwk < 2 ^ 16)

abbrev NarrowDev : Dev → Type 0
NarrowDev d = Narrow d.ieee_addr d.nwk_addr

abbrev pub NarrowCall : StorageCall → Type 0
NarrowCall c = address c < 2 ^ 64

-- Every slot and every call of the store holds addresses of their widths.
pub record IsNarrow (ds : List Dev) (calls : List StorageCall) : Type 0 where
  pub slots : All NarrowDev ds
  pub called : All NarrowCall calls

pub empty-IsNarrow : IsNarrow empty []
unfolding empty blank
empty-IsNarrow = record { slots = All-replicate NarrowDev 100 blank (omega arith); called = tt }

All-append :
    (c : StorageCall) (calls : List StorageCall)
    → NarrowCall c
    → All NarrowCall calls
    → All NarrowCall (calls ++ c ∷ [])
All-append c [] here a = (here, tt)
All-append c (x ∷ calls) here a = (a.0, All-append c calls here a.1)

add_cap-Narrow : (cap : ℕ) (d : Dev) → NarrowDev d → NarrowDev (add_cap cap d)
unfolding add_cap
add_cap-Narrow cap d n = ground arith

learn-IsNarrow :
    (ieee cap : ℕ) (ds : List Dev) (calls : List StorageCall)
    → IsNarrow ds calls
    → IsNarrow (learn_cap ieee cap ds).1 calls
unfolding learn_cap
learn-IsNarrow ieee cap ds calls n = elim (Option-cases (find_by_ieee ieee ds)) [
  | inl unknown ↦ rw (learn_cap, unknown) n
  | inr (d, known) ↦
      rw (learn_cap, known)
        (record {
          slots =
              All-modify NarrowDev (has_ieee ieee) (add_cap cap) (add_cap-Narrow cap) ds n.slots;
          called = n.called;
        })
]

join-IsNarrow :
    (ieee nwk : ℕ) (h : Hub)
    → Narrow ieee nwk
    → IsNarrow h.devices h.storage_calls
    → IsNarrow (join ieee nwk h).1.devices (join ieee nwk h).1.storage_calls
unfolding join after_join send_zdo_active_ep_req
join-IsNarrow ieee nwk h w n = elim (Option-cases (choose_slot ieee h.devices)) [
  | inl full ↦
      let e : join_slot ieee nwk h.devices ≡ none = unfold join_slot in ground arith in rw e n
  | inr (p, chosen) ↦
      let e : join_slot ieee nwk h.devices ≡ some (modify p (occupy ieee nwk) h.devices) =
        unfold join_slot in ground arith in
      rw e (record {
        slots = All-modify NarrowDev p (occupy ieee nwk) (λ d here. w) h.devices n.slots;
        called = All-append _ h.storage_calls w.0 n.called;
      })
]

leave-IsNarrow :
    (ieee nwk : ℕ) (h : Hub)
    → Narrow ieee nwk
    → IsNarrow h.devices h.storage_calls
    → IsNarrow (leave ieee h).devices (leave ieee h).storage_calls
unfolding leave leave_slot
leave-IsNarrow ieee nwk h w n = record {
  slots =
      All-modify NarrowDev (has_ieee ieee) (λ d. record d { active = false }) (λ d here. here)
        h.devices n.slots;
  called = All-append (delete ieee) h.storage_calls w.0 n.called;
}

found-Narrow :
    (p : Dev → Bool) (ds : List Dev) (d : Dev) → All NarrowDev ds → find p ds ≡ some d → NarrowDev d
unfolding find
found-Narrow p [] d n e = ground arith
found-Narrow p (x ∷ ds) d n e = ground (arith, found-Narrow p ds d n.1)

save-IsNarrow :
    (nwk : ℕ) (d : Dev) (ds : List Dev) (calls : List StorageCall)
    → find (has_nwk nwk) ds ≡ some d
    → IsNarrow ds calls
    → IsNarrow ds
        (calls ++ save (record init_zero { ieee_addr = d.ieee_addr; network_addr = nwk }) ∷ [])
save-IsNarrow nwk d ds calls e n = record {
  slots = n.slots;
  called = All-append _ calls (found-Narrow (has_nwk nwk) ds d n.slots e).0 n.called;
}

pub IsNarrow-Keeps : Keeps IsNarrow Narrow
IsNarrow-Keeps = record {
  learns = learn-IsNarrow;
  joins = join-IsNarrow;
  leaves = leave-IsNarrow;
  saves = save-IsNarrow;
}

-- What the fields of a frame spell has the widths of addresses.
pub IsFrame-Narrow : (f : Frame) → IsFrame f → (i j : ℕ) → Narrow (ieee_at f i) (word_at f j)
IsFrame-Narrow f v i j =
    (or_bytes-take i f.payload v.bytes, le16-lt (byte_at f j) (byte_at f (j + 1)))

pub get_nwk-lt :
    (ieee : ℕ) (ds : List Dev) (calls : List StorageCall)
    → IsNarrow ds calls
    → get_nwk ieee ds < 2 ^ 16
unfolding get_nwk find_by_ieee
get_nwk-lt ieee ds calls n = elim (Option-cases (find (has_ieee ieee) ds)) [
  | inl unknown ↦ rw (get_nwk, unknown) (omega arith)
  | inr (d, known) ↦ rw (get_nwk, known) ((found-Narrow (has_ieee ieee) ds d n.slots known).1)
]
