-- ===== src/Hub/Messages.antt =====
-- Sequences of messages (zb_device_mgr.c).
use zigbee_hub.Base.{ℕ, ◌≡◌, inl, inr, arith, List, [], ◌∷◌, Option, none, some, Option-cases, All}
use zigbee_hub.Znp.Frame.{Frame, IsFrame}
use zigbee_hub.Storage.{StorageCall}
use zigbee_hub.Storage.Devices.{lookup}
use zigbee_hub.Device.{Dev, empty}
use zigbee_hub.Device.Registry.{nwk_of}
use zigbee_hub.Hub.{Hub}
use zigbee_hub.Hub.Inbound.{on_areq}
use zigbee_hub.Hub.Persistence.{Keeps, Holds, NamedBy, this_one, on_areq-Holds, Same-Holds}
use zigbee_hub.Hub.Mirror.{IsMirror, IsMirror-Keeps, empty-IsMirror, records, recorded}
use zigbee_hub.Hub.Ranges.{IsNarrow, IsNarrow-Keeps, IsFrame-Narrow, empty-IsNarrow}

-- The messages, one after the other.
unfoldable pub on_areqs : List Frame → Hub → Option Hub
on_areqs [] h = some h
on_areqs (f ∷ fs) h = elim (on_areq f h) [ none ↦ none | some h' ↦ on_areqs fs h' ]

module _ {P : List Dev → List StorageCall → Type 0} {Named : ℕ → ℕ → Type 0}
    (k : Keeps P Named) where
  on_areqs-Holds :
      (fs : List Frame) (h h' : Hub)
      → All (NamedBy k) fs
      → Holds k h
      → on_areqs fs h ≡ some h'
      → Holds k h'
  unfolding on_areqs
  on_areqs-Holds [] h h' named m e = this_one k h h' m e
  on_areqs-Holds (f ∷ fs) h h' named m e = elim (Option-cases (on_areq f h)) [
    | inl fault ↦ absurd (ground arith)
    | inr (next, g) ↦
        on_areqs-Holds fs next h' named.1 (on_areq-Holds k f h next named.0 m g) (ground arith)
  ]

  -- What holds of a cleared registry and an empty store holds after the messages.
  from_start :
      P empty []
      → (fs : List Frame) (h h' : Hub) → All (NamedBy k) fs
      → h.devices ≡ empty
      → h.storage_calls ≡ []
      → on_areqs fs h ≡ some h'
      → P h'.devices h'.storage_calls
  from_start m fs h h' named d c e =
      on_areqs-Holds fs h h' named
        (Same-Holds k (record h { devices = empty; storage_calls = [] }) h (d, c) m) e

any_named : (fs : List Frame) → All (NamedBy IsMirror-Keeps) fs
any_named [] = tt
any_named (f ∷ fs) = (λ i j. tt, any_named fs)

frames_named : (fs : List Frame) → All IsFrame fs → All (NamedBy IsNarrow-Keeps) fs
frames_named [] v = tt
frames_named (f ∷ fs) v = (IsFrame-Narrow f v.0, frames_named fs v.1)

module _ (fs : List Frame) (h h' : Hub) (d : h.devices ≡ empty) (c : h.storage_calls ≡ []) where
  pub on_areqs-IsMirror : on_areqs fs h ≡ some h' → IsMirror h'.devices h'.storage_calls
  on_areqs-IsMirror = from_start IsMirror-Keeps empty-IsMirror fs h h' (any_named fs) d c

  pub on_areqs-IsNarrow :
      All IsFrame fs → on_areqs fs h ≡ some h' → IsNarrow h'.devices h'.storage_calls
  on_areqs-IsNarrow v = from_start IsNarrow-Keeps empty-IsNarrow fs h h' (frames_named fs v) d c

-- From a cleared registry and an empty store on, after any messages, short, long or of unknown
-- kinds, that the device manager handles without a read behind an array: the records that its calls
-- leave in the store are those of the registered devices, each with the network address that the
-- registry has for it, and no others.
pub on_areqs-mirror :
    (fs : List Frame) (h h' : Hub) (ieee : ℕ)
    → h.devices ≡ empty
    → h.storage_calls ≡ []
    → on_areqs fs h ≡ some h'
    → nwk_of ieee h'.devices ≡ recorded (lookup ieee (records h'.storage_calls []))
on_areqs-mirror fs h h' ieee d c e = (on_areqs-IsMirror fs h h' d c e).same ieee
