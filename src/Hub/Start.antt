-- ===== src/Hub/Start.antt =====
-- components/zb_device_mgr/zb_device_mgr.c: `zb_dev_mgr_init`, and the registry before and after a
-- restart.
use zigbee_hub.Base.{
  ℕ, ◌%◌, ◌^◌, ◌≤◌, ◌≡◌, refl, sym, ap, ◌∙◌, Bool, true, not, List, [], ◌∷◌, Option, none, some,
  arith, length, ◌==◌, if◌then◌else◌, Bool-cases, inl, inr, EspErr, ok, no_mem, is_ok, All, map,
}
use zigbee_hub.Storage.{DeviceRecord}
use zigbee_hub.Storage.Files.{Formats, IsFormats, IsFlushed, Conditions, Dir, load_all}
use zigbee_hub.Storage.Devices.{lookup, Distinct, store}
use mathlib.Core.List.{Permᴰ}
use zigbee_hub.Storage.Listing.{lookup-Permᴰ, length-Permᴰ}
use zigbee_hub.Storage.Calls.{Performed, InRange, perform_all, store_all}
use zigbee_hub.Storage.Refinement.{fold, Distinct-store_all, load_all-perform_all}
use zigbee_hub.Event as Event
use zigbee_hub.Znp.Frame.{Frame, IsFrame}
use zigbee_hub.Device.{Dev, get_nwk, load_device, empty, blank}
use zigbee_hub.Device.Restore.{free_slots, load_device_lem}
use zigbee_hub.Device.Registry.{or_unknown, get_nwk-nwk_of}
use zigbee_hub.Hub.{Hub}
use zigbee_hub.Hub.Mirror.{records, recorded, empty-IsMirror}
use zigbee_hub.Hub.Ranges.{NarrowCall, get_nwk-lt}
use zigbee_hub.Hub.Capacity.{length-records}
use zigbee_hub.Hub.Messages.{on_areqs, on_areqs-IsMirror, on_areqs-IsNarrow}

-- `zb_dev_mgr_init`: whether the mutex could be made, what zb_cap_init answers, and the directory
-- that the devices are restored from, with its entries in the order of readdir.
unfoldable pub dev_mgr_init :
    Formats → Conditions → Bool → EspErr → Option Dir → Dir → Hub → EspErr × Hub
dev_mgr_init F c mutex cap_err dir listing h =
    let cleared = record h { devices = empty; bus = Event.init } in
    let restored = (load_all F c dir listing load_device (empty, 0)).1.0 in
    if not mutex
    then (no_mem, h)
    else if not (is_ok cap_err)
    then (cap_err, cleared)
    else (ok, record cleared { devices = restored })

abbrev restored_nwk : ℕ → Option DeviceRecord → ℕ
restored_nwk old none = old
restored_nwk old (some d) = d.network_addr % 2 ^ 16

fold-load_device :
    (rs : List DeviceRecord) (ds : List Dev) (n other : ℕ)
    → length rs ≤ free_slots ds
    → Distinct rs
    → get_nwk other (fold load_device rs (ds, n)).0
      ≡ restored_nwk (get_nwk other ds) (lookup other rs)
unfolding fold lookup
fold-load_device [] ds n other room u = refl
fold-load_device (r ∷ rs) ds n other room u =
    let (here, taken) = load_device_lem r ds n other (omega arith) in
    let next = load_device r (ds, n) in
    let later = fold-load_device rs next.0 next.1 other (omega arith) u.1 in
    elim (Bool-cases (r.ieee_addr == other)) [
      | inl y ↦
          let same : r.ieee_addr ≡ other = ground arith in
          let gone : lookup other rs ≡ none = ap (λ i. lookup i rs) (sym same) ∙ u.0 in
          rw y (later ∙ ap (λ o. restored_nwk (get_nwk other next.0) o) gone ∙ here ∙ ground arith)
      | inr ne ↦
          let old : get_nwk other next.0 ≡ get_nwk other ds = here ∙ ground arith in
          rw ne (later ∙ ap (λ k. restored_nwk k (lookup other rs)) old)
    ]

free_slots-empty : free_slots empty ≡ 100
unfolding free_slots empty blank
free_slots-empty = refl

store_all-records :
    (calls : List Performed) (ds : List DeviceRecord)
    → store_all calls ds ≡ records (map (λ c. c.1) calls) ds
unfolding store_all records
store_all-records [] ds = refl
store_all-records ((c, call) ∷ calls) ds = store_all-records calls (store call ds)

InRange-map : (calls : List Performed) → All NarrowCall (map (λ c. c.1) calls) → All InRange calls
InRange-map [] n = tt
InRange-map ((c, call) ∷ calls) n = (n.0, InRange-map calls n.1)

get_nwk-empty : (other : ℕ) → get_nwk other empty ≡ 0xFFFF
unfolding records lookup recorded
get_nwk-empty other = get_nwk-nwk_of other empty ∙ ap or_unknown (empty-IsMirror.same other)

restored_recorded :
    (o : Option DeviceRecord) → restored_nwk 0xFFFF o ≡ or_unknown (recorded o) % 2 ^ 16
unfolding recorded
restored_recorded none = refl
restored_recorded (some d) = refl

-- A restart keeps the network. Take any received frames that the device manager handled from a
-- cleared registry on, and a directory in which each call of the store that it made succeeded, in
-- order, and closing a file stored what fwrite took. Then zb_dev_mgr_init, with its parts set up
-- and with memory, succeeds on that directory, in whatever order its files are listed, and
-- zb_dev_mgr_get_nwk gives for each address what it gave before the restart, the 0xFFFF of an
-- unknown device included.
pub dev_mgr_init-on_areqs :
    (F : Formats) (L : IsFormats F) (fs : List Frame) (h h' fresh : Hub) (calls : List Performed)
    (dir listing : Dir) (c : Conditions) (ieee : ℕ)
    → All IsFrame fs
    → h.devices ≡ empty
    → h.storage_calls ≡ []
    → on_areqs fs h ≡ some h'
    → map (λ x. x.1) calls ≡ h'.storage_calls
    → perform_all F calls [] ≡ some dir
    → All (λ x. IsFlushed x.0) calls
    → Permᴰ dir listing
    → c.memory ≡ true
    → ((dev_mgr_init F c true ok (some dir) listing fresh).0 ≡ ok)
      × (get_nwk ieee (dev_mgr_init F c true ok (some dir) listing fresh).1.devices
          ≡ get_nwk ieee h'.devices)
unfolding dev_mgr_init
dev_mgr_init-on_areqs F L fs h h' fresh calls dir listing c ieee v d s e made done flushed listed
      m =
    let ds = store_all calls [] in
    let mirror = on_areqs-IsMirror fs h h' d s e in
    let narrow = on_areqs-IsNarrow fs h h' d s v e in
    let there : ds ≡ records h'.storage_calls [] =
      store_all-records calls [] ∙ ap (λ cs. records cs []) made in
    let few : length ds ≤ 100 = rw there (length-records h'.devices h'.storage_calls mirror) in
    let inside : All InRange calls = InRange-map calls (rw made narrow.called) in
    let (rs, order, loaded) =
      (load_all-perform_all F L calls dir listing c load_device (empty, 0) 0 inside flushed done
        listed m (omega arith)).0 in
    let (apart, same) = lookup-Permᴰ ds rs order (Distinct-store_all calls [] tt) in
    let before : get_nwk ieee h'.devices ≡ or_unknown (recorded (lookup ieee rs)) =
      get_nwk-nwk_of ieee h'.devices
      ∙ ap or_unknown (
          mirror.same ieee
          ∙ ap (λ x. recorded (lookup ieee x)) (sym there)
          ∙ ap recorded (sym (same ieee))) in
    (
      refl,
      ap (λ (r : EspErr × (List Dev × ℕ)). get_nwk ieee r.1.0) loaded
          ∙ fold-load_device rs empty 0 ieee
              (omega (arith, free_slots-empty, length-Permᴰ ds rs order)) apart
          ∙ ap (λ k. restored_nwk k (lookup ieee rs)) (get_nwk-empty ieee)
          ∙ restored_recorded (lookup ieee rs)
          ∙ omega (arith, before, get_nwk-lt ieee h'.devices h'.storage_calls narrow),
    )
