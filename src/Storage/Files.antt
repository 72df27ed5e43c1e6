-- ===== src/Storage/Files.antt =====
-- components/zb_storage/zb_storage.c and zb_storage_device.c: the files below devices/, and the
-- calls of the store on them. A text is the list of its characters. What nanopb and sscanf answer
-- is a record of functions, and what memory and the file system do at a call is a record of its
-- own.
use zigbee_hub.Base.{
  true, false, ℕ, ◌≤◌, ◌<◌, ◌^◌, ◌≡◌, Bool, not, List, [], ◌∷◌, ◌++◌, Option, none, some, ◌==◌,
  if◌then◌else◌, length, take, EspErr, ok, fail, no_mem, not_found,
}
use zigbee_hub.Base.Names.{same, hex_digits}
use zigbee_hub.Storage.{DeviceRecord, StorageCall, save, delete}

pub record Formats : Type 0 where
  pub pb_encode : ℕ → DeviceRecord → Option (List ℕ)
  pub pb_decode : List ℕ → Option DeviceRecord
  pub scan_name : List ℕ → Option ℕ

-- Whether malloc and fopen succeed, how many bytes fwrite takes into its buffer, what the file
-- holds once it is closed, by what was written to the stream and what the file held before (`none`
-- is a file that is missing), and whether remove succeeds.
pub record Conditions : Type 0 where
  pub memory : Bool
  pub opens : Bool
  pub taken : ℕ
  pub closed : List ℕ → Option (List ℕ) → Option (List ℕ)
  pub removes : Bool

-- Closing a file stores what fwrite has taken whole; no result of fclose is looked at in the code.
pub record IsFlushed (c : Conditions) : Type 0 where
  pub stores :
      (bytes : List ℕ) (old : Option (List ℕ))
      → length bytes ≤ c.taken
      → c.closed bytes old ≡ some bytes

abbrev DirEntry : Type 0
DirEntry = List ℕ × List ℕ

-- The files of the directory. Their order here means nothing: `readdir` lists them in one of its
-- own, an argument of what reads the directory. `none` is a directory that is missing.
abbrev pub Dir : Type 0
Dir = List DirEntry

-- `CONFIG_ZB_DEV_PB_MAX_SIZE`
abbrev pub pb_buf_size : ℕ
pb_buf_size = 1024

-- `device_path`, behind the directory.
unfoldable pub device_name : ℕ → List ℕ
device_name ieee = hex_digits 16 ieee ++ 46 ∷ 112 ∷ 98 ∷ []

-- What `fopen` for reading finds.
unfoldable pub contents : List ℕ → Dir → Option (List ℕ)
contents name [] = none
contents name ((n, bytes) ∷ dir) =
    let rest = contents name dir in if same n name then some bytes else rest

-- The directory when the file holds these bytes.
unfoldable pub put : List ℕ → List ℕ → Dir → Dir
put name bytes [] = (name, bytes) ∷ []
put name bytes ((n, old) ∷ dir) =
    let rest = put name bytes dir in if same n name then (n, bytes) ∷ dir else (n, old) ∷ rest

-- `remove` of a file that is there.
unfoldable pub without : List ℕ → Dir → Dir
without name [] = []
without name ((n, old) ∷ dir) =
    let rest = without name dir in if same n name then dir else (n, old) ∷ rest

-- The directory when the file holds this, or is missing.
unfoldable pub settle : List ℕ → Option (List ℕ) → Dir → Dir
settle name none dir = without name dir
settle name (some bytes) dir = put name bytes dir

-- What `fwrite` took, against `stream.bytes_written`, and the file once it is closed.
unfoldable pub write_file : Conditions → List ℕ → List ℕ → Dir → EspErr × Dir
write_file c name bytes dir =
    let written = take c.taken bytes in
    (
      if length written == length bytes then ok else fail,
      settle name (c.closed written (contents name dir)) dir,
    )

unfoldable pub save_encoded : Conditions → ℕ → Option (List ℕ) → Dir → EspErr × Dir
save_encoded c ieee none dir = (fail, dir)
save_encoded c ieee (some bytes) dir =
    if c.opens then write_file c (device_name ieee) bytes dir else (fail, dir)

-- The record is left out where the status is an error.
pub data Loaded : Type 0 where
  loaded : DeviceRecord → Loaded
  not_loaded : EspErr → Loaded

unfoldable pub decoded : Option DeviceRecord → Loaded
decoded none = not_loaded fail
decoded (some d) = loaded d

-- `zb_storage_device_delete`
unfoldable pub device_delete : Conditions → ℕ → Dir → EspErr × Dir
device_delete c ieee dir = elim (contents (device_name ieee) dir) [
  | none ↦ (not_found, dir)
  | some old ↦ if c.removes then (ok, without (device_name ieee) dir) else (fail, dir)
]

-- `strrchr(name, '.')`, behind the dot.
unfoldable pub extension : List ℕ → Option (List ℕ)
extension [] = none
extension (c ∷ cs) = elim (extension cs) [
  | some e ↦ some e
  | none ↦ if c == 46 then some cs else none
]

unfoldable pub is_pb : List ℕ → Bool
is_pb name = elim (extension name) [ none ↦ false | some e ↦ same e (112 ∷ 98 ∷ []) ]

module _ (F : Formats) where
  -- `zb_storage_device_save`
  unfoldable pub device_save : Conditions → DeviceRecord → Dir → EspErr × Dir
  device_save c d dir =
      if c.memory then save_encoded c d.ieee_addr (F.pb_encode pb_buf_size d) dir else (no_mem, dir)

  unfoldable pub read_device : Conditions → Option (List ℕ) → Loaded
  read_device c none = not_loaded not_found
  read_device c (some bytes) =
      if c.memory then decoded (F.pb_decode (take pb_buf_size bytes)) else not_loaded no_mem

  -- `zb_storage_device_load`
  unfoldable pub device_load : Conditions → ℕ → Dir → Loaded
  device_load c ieee dir = read_device c (contents (device_name ieee) dir)

  -- A round of the loop of `zb_storage_device_load_all`: the record for the callback.
  unfoldable pub load_entry : Conditions → Dir → List ℕ → Option DeviceRecord
  load_entry c dir name = if not (is_pb name) then none else elim (F.scan_name name) [
    | none ↦ none
    | some ieee ↦ elim (device_load c ieee dir) [ loaded d ↦ some d | not_loaded e ↦ none ]
  ]

  -- The loop over the entries that are left; the callback changes what `ctx` points to.
  unfoldable pub load_entries {ℓ} :
      {A : Type ℓ} → Conditions → Dir → (DeviceRecord → A → A) → Dir → A → A
  load_entries c dir cb [] a = a
  load_entries c dir cb ((name, bytes) ∷ left) a = elim (load_entry c dir name) [
    | none ↦ load_entries c dir cb left a
    | some d ↦ load_entries c dir cb left (cb d a)
  ]

  -- `zb_storage_device_load_all`, with the entries in the order of `readdir`.
  unfoldable pub load_all {ℓ} :
      {A : Type ℓ} → Conditions → Option Dir → Dir → (DeviceRecord → A → A) → A → EspErr × A
  load_all c none listing cb a = (ok, a)
  load_all c (some dir) listing cb a = (ok, load_entries c dir cb listing a)

  -- A call of the store.
  unfoldable pub perform : Conditions → StorageCall → Dir → EspErr × Dir
  perform c (save d) dir = device_save c d dir
  perform c (delete ieee) dir = device_delete c ieee dir

-- What the store relies on: nanopb decodes what it encoded within the buffer, and sscanf reads the
-- number that snprintf printed.
pub record IsFormats (F : Formats) : Type 0 where
  pub fits :
      (n : ℕ) (d : DeviceRecord) (bytes : List ℕ) → F.pb_encode n d ≡ some bytes → length bytes ≤ n
  pub decodes :
      (n : ℕ) (d : DeviceRecord) (bytes : List ℕ)
      → F.pb_encode n d ≡ some bytes
      → F.pb_decode bytes ≡ some d
  pub scans : (ieee : ℕ) → ieee < 2 ^ 64 → F.scan_name (device_name ieee) ≡ some ieee

-- `zb_storage_init`: what esp_vfs_littlefs_register answers, and whether mkdir succeeds or finds
-- the directory there. The directory is `none` where stat does not find it.
unfoldable pub storage_init : EspErr → Bool → Option Dir → EspErr × Option Dir
storage_init ok made (some dir) = (ok, some dir)
storage_init ok true none = (ok, some [])
storage_init ok false none = (fail, none)
storage_init e made dir = (e, dir)
