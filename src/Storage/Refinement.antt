-- ===== src/Storage/Refinement.antt =====
-- Histories of calls of the device store, and the start that follows (zb_storage_device.c).
use zigbee_hub.Base.{
  ℕ, ◌<◌, ◌^◌, ◌≡◌, refl, sym, ap, ◌∙◌, inl, inr, arith, true, List, [], ◌∷◌, ◌++◌, Option, none,
  some, ◌==◌, ok, not_found, Bool-cases, All,
}
use zigbee_hub.Base.Names.{same, hex_digits}
use zigbee_hub.Storage.{DeviceRecord, StorageCall, save, delete}
use zigbee_hub.Storage.Files.{
  Formats, IsFormats, IsFlushed, Conditions, Dir, device_name, Loaded, loaded, not_loaded,
  read_device, device_load, decoded, extension, is_pb, load_entry, load_entries, load_all,
}
use zigbee_hub.Storage.Devices.{
  lookup, store, Distinct, Represents, contents-lookup, Distinct-insert, Distinct-remove,
}
use mathlib.Core.List.{Permᴰ}
use zigbee_hub.Storage.Listing.{Represents-Permᴰ, All-Permᴰ}
use zigbee_hub.Storage.Calls.{Performed, InRange, perform_all, store_all, perform_all-store_all}

extension_of : (xs : List ℕ) → extension (xs ++ 46 ∷ 112 ∷ 98 ∷ []) ≡ some (112 ∷ 98 ∷ [])
unfolding extension
extension_of [] = refl
extension_of (x ∷ xs) = rw (extension_of xs) refl

is_pb-device_name : (ieee : ℕ) → is_pb (device_name ieee) ≡ true
unfolding is_pb same
is_pb-device_name ieee =
    let e : extension (device_name ieee) ≡ some (112 ∷ 98 ∷ []) =
      unfold device_name in extension_of (hex_digits 16 ieee) in
    rw (e, is_pb) refl

-- What a search of the abstract store says to a caller.
unfoldable pub view : Option DeviceRecord → Loaded
view none = not_loaded not_found
view (some d) = loaded d

unfoldable pub fold {ℓ} : {A : Type ℓ} → (DeviceRecord → A → A) → List DeviceRecord → A → A
fold cb [] a = a
fold cb (d ∷ ds) a = fold cb ds (cb d a)

pub Distinct-store :
    (call : StorageCall) (ds : List DeviceRecord) → Distinct ds → Distinct (store call ds)
unfolding store
Distinct-store (save d) ds u = Distinct-insert d ds u
Distinct-store (delete ieee) ds u = Distinct-remove ieee ds u

pub Distinct-store_all :
    (calls : List Performed) (ds : List DeviceRecord) → Distinct ds → Distinct (store_all calls ds)
unfolding store_all
Distinct-store_all [] ds u = u
Distinct-store_all ((c, call) ∷ calls) ds u =
    Distinct-store_all calls (store call ds) (Distinct-store call ds u)

-- Behind a record of another address, a search goes on as before.
lookup_behind :
    (d : DeviceRecord) (all ds : List DeviceRecord)
    → lookup d.ieee_addr all ≡ none
    → All (λ x. lookup x.ieee_addr all ≡ some x) ds
    → All (λ x. lookup x.ieee_addr (d ∷ all) ≡ some x) ds
unfolding lookup
lookup_behind d all [] n h = tt
lookup_behind d all (x ∷ ds) n h = (
  elim (Bool-cases (d.ieee_addr == x.ieee_addr)) [
    | inl y ↦
        let s : d.ieee_addr ≡ x.ieee_addr = ground arith in
        absurd (ground (arith, ap (λ i. lookup i all) s))
    | inr other ↦ rw other h.0
  ],
  lookup_behind d all ds n h.1,
)

Distinct-lookup :
    (ds : List DeviceRecord) → Distinct ds → All (λ d. lookup d.ieee_addr ds ≡ some d) ds
unfolding lookup
Distinct-lookup [] u = tt
Distinct-lookup (d ∷ ds) u = (ground arith, lookup_behind d ds ds u.0 (Distinct-lookup ds u.1))

module _ (F : Formats) (L : IsFormats F) where
  entry_loads :
      (c : Conditions) (ieee : ℕ) (dir : Dir) (ds : List DeviceRecord) (d : DeviceRecord)
      → c.memory ≡ true
      → ieee < 2 ^ 64
      → Represents F dir ds
      → lookup ieee ds ≡ some d
      → load_entry F c dir (device_name ieee) ≡ some d
  unfolding load_entry device_load read_device decoded
  entry_loads c ieee dir ds d m p r e = elim (contents-lookup F L ieee dir ds p r) [
    | inl (none_there, n) ↦ absurd (ground arith)
    | inr (bytes, d', found, l, dec) ↦
        let same_one : some d' ≡ some d = sym l ∙ e in
        rw (is_pb-device_name ieee, L.scans ieee p, device_load, found, m, dec) same_one
  ]

  -- The loop over the entries hands over each record, wherever it stands.
  load_entries-fold {ℓ} :
      {A : Type ℓ} (c : Conditions) (cb : DeviceRecord → A → A) (a : A) (dir : Dir)
      (all : List DeviceRecord) (left : Dir) (ds : List DeviceRecord)
      → c.memory ≡ true
      → Represents F dir all
      → Represents F left ds
      → All (λ d. lookup d.ieee_addr all ≡ some d) ds
      → load_entries F c dir cb left a ≡ fold cb ds a
  unfolding load_entries fold
  load_entries-fold c cb a dir all [] [] m r q h = refl
  load_entries-fold c cb a dir all [] (d ∷ ds) m r q h = absurd (ground arith)
  load_entries-fold c cb a dir all (f ∷ left) [] m r q h = absurd (ground arith)
  load_entries-fold c cb a dir all ((n, bytes) ∷ left) (d ∷ ds) m r q h =
      let named : n ≡ device_name d.ieee_addr = q.0.named in
      let one : load_entry F c dir n ≡ some d =
        rw named (entry_loads c d.ieee_addr dir all d m q.0.small r h.0) in
      rw (load_entries, one) (load_entries-fold c cb (cb d a) dir all left ds m r q.1 h.1)

  -- After any history of saves and deletes of 64-bit addresses that starts with an empty directory
  -- and in which each call succeeds (a delete of nothing counts) and closing a file stores what
  -- fwrite took, and with memory: in whatever order readdir lists the files, loading all devices
  -- hands the callback each record of the abstract store once, in some order; and loading one
  -- address gives the record that was saved last for it and not deleted since, or
  -- ESP_ERR_NOT_FOUND.
  pub load_all-perform_all {ℓ} :
      {A : Type ℓ} (calls : List Performed) (dir listing : Dir) (c : Conditions)
      (cb : DeviceRecord → A → A) (a : A) (ieee : ℕ)
      → All InRange calls
      → All (λ x. IsFlushed x.0) calls
      → perform_all F calls [] ≡ some dir
      → Permᴰ dir listing
      → c.memory ≡ true
      → ieee < 2 ^ 64
      → ((rs : List DeviceRecord) × Permᴰ (store_all calls []) rs
          × (load_all F c (some dir) listing cb a ≡ (ok, fold cb rs a)))
        × (device_load F c ieee dir ≡ view (lookup ieee (store_all calls [])))
  unfolding load_all view device_load read_device decoded
  load_all-perform_all calls dir listing c cb a ieee inside flushed e listed m p =
      let r = perform_all-store_all F L calls [] dir [] inside flushed tt e in
      let ds = store_all calls [] in
      let known = Distinct-lookup ds (Distinct-store_all calls [] tt) in
      let (rs, there, q) = Represents-Permᴰ F dir listing ds listed r in
      let found_all = All-Permᴰ (λ d. lookup d.ieee_addr ds ≡ some d) ds rs q known in
      (
        (rs, q, ap (λ x. (ok, x)) (load_entries-fold c cb a dir ds listing rs m r there found_all)),
        elim (contents-lookup F L ieee dir ds p r) [
          | inl (gone, n) ↦ rw (n, device_load, gone, read_device) refl
          | inr (bytes, d, found, l, dec) ↦
              rw (l, device_load, found, read_device, m, dec, decoded) refl
        ],
      )
