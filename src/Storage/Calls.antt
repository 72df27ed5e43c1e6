-- ===== src/Storage/Calls.antt =====
-- Saves and deletes, one by one and in a row (zb_storage_device.c).
use zigbee_hub.Base.{
  ==_refl, leb, ◌==◌, false, ℕ, ◌≤◌, ◌<◌, ◌^◌, ◌≡◌, refl, sym, ap, ◌∙◌, ◌⊎◌, inl, inr, arith, true,
  length-take, List, [], ◌∷◌, Option, none, some, length, take, EspErr, ok, fail, no_mem, not_found,
  Bool-cases, Option-cases, All,
}
use zigbee_hub.Storage.{DeviceRecord, StorageCall, save, delete}
use zigbee_hub.Storage.Files.{
  Formats, IsFormats, Conditions, IsFlushed, settle, contents, Dir, device_name, put, without,
  device_save, device_delete, perform, pb_buf_size, save_encoded, write_file,
}
use zigbee_hub.Storage.Devices.{
  lookup, insert, remove, store, Represents, take_all, contents-lookup, Represents-put,
  Represents-without,
}

-- A call and the conditions that it meets.
abbrev pub Performed : Type 0
Performed = Conditions × StorageCall

abbrev pub address : StorageCall → ℕ
address (save d) = d.ieee_addr
address (delete ieee) = ieee

abbrev pub InRange : Performed → Type 0
InRange (c, call) = address call < 2 ^ 64

-- The calls, as long as each succeeds; that there is nothing to delete counts as success.
unfoldable pub go_on : EspErr × Dir → Option Dir
go_on (ok, dir) = some dir
go_on (not_found, dir) = some dir
go_on (e, dir) = none

module _ (F : Formats) where
  unfoldable pub perform_all : List Performed → Dir → Option Dir
  perform_all [] dir = some dir
  perform_all ((c, call) ∷ calls) dir = elim (go_on (perform F c call dir)) [
    | none ↦ none
    | some dir' ↦ perform_all calls dir'
  ]

unfoldable pub store_all : List Performed → List DeviceRecord → List DeviceRecord
store_all [] ds = ds
store_all ((c, call) ∷ calls) ds = store_all calls (store call ds)

-- The directory once the file of the device is closed behind these bytes.
abbrev pub closed_dir : Conditions → DeviceRecord → List ℕ → Dir → Dir
closed_dir c d bytes dir =
    settle (device_name d.ieee_addr) (c.closed bytes (contents (device_name d.ieee_addr) dir)) dir

-- How a save ends: all bytes taken, some of them, or refused before a byte is written.
abbrev pub SaveOutcome : Formats → Conditions → DeviceRecord → Dir → Type 0
SaveOutcome F c d dir =
    ((c.memory ≡ false) × (device_save F c d dir ≡ (no_mem, dir)))
    ⊎ ((c.memory ≡ true)
        × ((F.pb_encode pb_buf_size d ≡ none) ⊎ (c.opens ≡ false))
        × (device_save F c d dir ≡ (fail, dir)))
    ⊎ ((c.memory ≡ true)
        × (bytes : List ℕ) × (F.pb_encode pb_buf_size d ≡ some bytes)
        × (c.opens ≡ true)
        × (((length bytes ≤ c.taken) × (device_save F c d dir ≡ (ok, closed_dir c d bytes dir)))
            ⊎ ((c.taken < length bytes)
                × (device_save F c d dir ≡ (fail, closed_dir c d (take c.taken bytes) dir)))))

remove_missing : (ieee : ℕ) (ds : List DeviceRecord) → lookup ieee ds ≡ none → remove ieee ds ≡ ds
unfolding remove lookup
remove_missing ieee [] e = refl
remove_missing ieee (d ∷ ds) e = ground (arith, remove_missing ieee ds)

module _ (F : Formats) (L : IsFormats F) where
  -- A save answers ESP_ERR_NO_MEM exactly without memory, and ESP_OK exactly with memory, an
  -- encoding within the buffer, a file that opens, and a fwrite that takes all bytes; every other
  -- save answers ESP_FAIL. Without memory, an encoding or an open file the directory is as it was.
  -- Otherwise the file holds what closing it leaves there of the bytes that fwrite took: ESP_OK
  -- does not say that it is the record.
  pub device_save_lem : (c : Conditions) (d : DeviceRecord) (dir : Dir) → SaveOutcome F c d dir
  unfolding device_save save_encoded write_file
  device_save_lem c d dir = elim (Bool-cases c.memory) [
    | inr off ↦ rw off (inl (refl, refl))
    | inl on ↦ elim (Option-cases (F.pb_encode pb_buf_size d)) [
      | inl n ↦ rw (on, n) (inr (inl (refl, inl refl, refl)))
      | inr (bytes, e) ↦ elim (Bool-cases c.opens) [
        | inr shut ↦ rw (on, e, shut) (inr (inl (refl, inr refl, refl)))
        | inl o ↦ elim (Bool-cases (leb (length bytes) c.taken)) [
          | inl whole ↦
              let all : take c.taken bytes ≡ bytes = take_all c.taken bytes (ground arith) in
              rw (on, e, o, all, ==_refl (length bytes))
                (inr (inr (refl, bytes, refl, refl, inl (ground arith, refl))))
          | inr short ↦
              let cut : length (take c.taken bytes) == length bytes ≡ false =
                ground (arith, length-take c.taken bytes) in
              rw (on, e, o, cut) (inr (inr (refl, bytes, refl, refl, inr (ground arith, refl))))
        ]
      ]
    ]
  ]

  device_save_ok :
      (c : Conditions) (d : DeviceRecord) (dir dir' : Dir) (ds : List DeviceRecord) (bytes : List ℕ)
      → IsFlushed c
      → d.ieee_addr < 2 ^ 64
      → Represents F dir ds
      → F.pb_encode pb_buf_size d ≡ some bytes
      → length bytes ≤ c.taken
      → closed_dir c d bytes dir ≡ dir'
      → Represents F dir' (insert d ds)
  unfolding settle
  device_save_ok c d dir dir' ds bytes flushed p r enc taken s =
      let name = device_name d.ieee_addr in
      let there : put name bytes dir ≡ dir' =
        sym (ap (λ o. settle name o dir) (flushed.stores bytes (contents name dir) taken)) ∙ s in
      let whole : take pb_buf_size bytes ≡ bytes =
        take_all pb_buf_size bytes (L.fits pb_buf_size d bytes enc) in
      rw (← there) (
        Represents-put F L bytes d dir ds
          (record {
            named = refl;
            read = ap F.pb_decode whole ∙ L.decodes pb_buf_size d bytes enc;
            small = p;
          })
          r)

  -- A call that succeeds does to the directory what the abstract store does to its records.
  perform-store :
      (c : Conditions) (call : StorageCall) (dir dir' : Dir) (ds : List DeviceRecord)
      → IsFlushed c
      → address call < 2 ^ 64
      → Represents F dir ds
      → go_on (perform F c call dir) ≡ some dir'
      → Represents F dir' (store call ds)
  unfolding store go_on perform device_delete
  perform-store c (save d) dir dir' ds flushed p r e = elim (device_save_lem c d dir) [
    | inl (m, w) ↦ absurd (ground arith)
    | inr (inl (m, why, w)) ↦ absurd (ground arith)
    | inr (inr (m, bytes, enc, o, inr (short, w))) ↦ absurd (ground arith)
    | inr (inr (m, bytes, enc, o, inl (taken, w))) ↦
        device_save_ok c d dir dir' ds bytes flushed p r enc taken (ground arith)
  ]
  perform-store c (delete ieee) dir dir' ds flushed p r e =
      elim (contents-lookup F L ieee dir ds p r) [
        | inl (gone, n) ↦
            let left : device_delete c ieee dir ≡ (not_found, dir) =
              rw (device_delete, gone) refl in
            let s : dir ≡ dir' = ground arith in rw (← s, remove_missing ieee ds n) r
        | inr (bytes, d, found, l, dec) ↦ elim (Bool-cases c.removes) [
          | inl y ↦
              let left : device_delete c ieee dir ≡ (ok, without (device_name ieee) dir) =
                rw (device_delete, found, y) refl in
              let s : without (device_name ieee) dir ≡ dir' = ground arith in
              rw (← s) (Represents-without F L ieee dir ds p r)
          | inr n ↦
              let left : device_delete c ieee dir ≡ (fail, dir) =
                rw (device_delete, found, n) refl in
              absurd (ground arith)
        ]
      ]

  pub perform_all-store_all :
      (calls : List Performed) (dir dir' : Dir) (ds : List DeviceRecord)
      → All InRange calls
      → All (λ x. IsFlushed x.0) calls
      → Represents F dir ds
      → perform_all F calls dir ≡ some dir'
      → Represents F dir' (store_all calls ds)
  unfolding perform_all store_all
  perform_all-store_all [] dir dir' ds a fl r e = let s : dir ≡ dir' = ground arith in rw (← s) r
  perform_all-store_all ((c, call) ∷ calls) dir dir' ds a fl r e =
      elim (Option-cases (go_on (perform F c call dir))) [
        | inl n ↦ absurd (ground arith)
        | inr (next, g) ↦
            perform_all-store_all calls next dir' (store call ds) a.1 fl.1
              (perform-store c call dir next ds fl.0 a.0 r g) (ground arith)
      ]
