-- ===== src/Tests/Messages.antt =====
-- A device is announced to a hub that has just started.
use zigbee_hub.Base.{
  ◌≡◌, refl, [], ◌∷◌, ◌++◌, some, arith, map, true, ok, replicate, length, All, ◌≤◌, ◌<◌, ◌^◌,
}
use zigbee_hub.Base.Words.{low_byte, high_byte, word_bytes}
use zigbee_hub.Znp.Frame.{Frame, IsFrame}
use zigbee_hub.Device.Registry.{nwk_of}
use zigbee_hub.Storage.Devices.{lookup, Distinct}
use zigbee_hub.Device.{
  get_nwk, empty, blank, join_slot, choose_slot, find_by_ieee, find_free_slot, find, modify,
}
use zigbee_hub.Hub.{Hub, join, after_join, send_zdo_active_ep_req}
use zigbee_hub.Hub.Membership.{zdo_areq, on_areq-membership}
use zigbee_hub.Hub.Mirror.{records, recorded}
use zigbee_hub.Hub.Messages.{on_areqs, on_areqs-mirror}
use zigbee_hub.Hub.Ranges.{NarrowCall}
use zigbee_hub.Hub.Capacity.{on_areqs-bounds}
use zigbee_hub.Hub.Start.{dev_mgr_init, dev_mgr_init-on_areqs}
use mathlib.Core.List.Permᴰ
use zigbee_hub.Tests.Stored.{
  good-IsFlushed, plain, plain-IsFormats, good, seven_saves, seven_dir, seven_runs,
}

abbrev started : Hub
started = record {
  devices = empty;
  bus = record { table = []; notify_queue = [] };
  session = record { sent = []; answers = [] };
  storage_calls = [];
  zcl_seq = 0;
}

abbrev announcement : Frame
announcement =
    zdo_areq 0xCA (low_byte 0x1234 ∷ high_byte 0x1234 ∷ word_bytes 8 7 ++ 0 ∷ 0 ∷ [])
      (replicate 238 0)

announcement-IsFrame : IsFrame announcement
unfolding word_bytes
announcement-IsFrame = record {
  whole = refl;
  fits = omega arith;
  type_byte = omega arith;
  id_byte = omega arith;
  bytes = omega arith;
}

announced : on_areqs (announcement ∷ []) started ≡ some (join 7 0x1234 started).1
unfolding on_areqs
announced =
    rw
      (
        (on_areq-membership 7 0x1234 0 0 (replicate 238 0) started (omega arith) (omega arith)).0,
        on_areqs,
      )
      refl

on_areqs-mirror_example :
    nwk_of 7 (join 7 0x1234 started).1.devices
    ≡ recorded (lookup 7 (records (join 7 0x1234 started).1.storage_calls []))
on_areqs-mirror_example =
    on_areqs-mirror (announcement ∷ []) started (join 7 0x1234 started).1 7 refl refl announced

saved : map (λ x. x.1) seven_saves ≡ (join 7 0x1234 started).1.storage_calls
unfolding join after_join join_slot choose_slot find_by_ieee find_free_slot find modify empty blank
    send_zdo_active_ep_req
saved = refl

dev_mgr_init-on_areqs_example :
    ((dev_mgr_init plain good true ok (some seven_dir) seven_dir started).0 ≡ ok)
    × (get_nwk 7 (dev_mgr_init plain good true ok (some seven_dir) seven_dir started).1.devices
        ≡ get_nwk 7 (join 7 0x1234 started).1.devices)
dev_mgr_init-on_areqs_example =
    dev_mgr_init-on_areqs plain plain-IsFormats (announcement ∷ []) started
      (join 7 0x1234 started).1 started seven_saves seven_dir seven_dir good 7
      (announcement-IsFrame, tt) refl refl announced saved seven_runs (good-IsFlushed, tt)
      (Permᴰ.refl seven_dir) refl

on_areqs-bounds_example :
    (length (records (join 7 0x1234 started).1.storage_calls []) ≤ 100)
    × Distinct (records (join 7 0x1234 started).1.storage_calls [])
    × All NarrowCall (join 7 0x1234 started).1.storage_calls
    × (get_nwk 7 (join 7 0x1234 started).1.devices < 2 ^ 16)
on_areqs-bounds_example =
    on_areqs-bounds (announcement ∷ []) started (join 7 0x1234 started).1 7
      (announcement-IsFrame, tt) refl refl announced
