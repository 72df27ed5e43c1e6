-- ===== src/Storage/Devices.antt =====
-- The device store against a list of records (zb_storage_device.c).
use zigbee_hub.Base.{
  ℕ, zero, suc, ◌≤◌, ◌<◌, ◌^◌, ◌≡◌, refl, sym, ap, ◌∙◌, ◌⊎◌, inl, inr, arith, true, false, List, [],
  ◌∷◌, Option, none, some, ◌==◌, if◌then◌else◌, length, take, Bool-cases,
}
use zigbee_hub.Base.Names.{same, same_iff}
use zigbee_hub.Storage.{DeviceRecord, StorageCall, save, delete}
use zigbee_hub.Storage.Files.{
  Formats, IsFormats, Dir, device_name, contents, put, without, pb_buf_size,
}

-- The abstract store: at most one record for an address, in the order in which they came.
unfoldable pub lookup : ℕ → List DeviceRecord → Option DeviceRecord
lookup ieee [] = none
lookup ieee (d ∷ ds) = let rest = lookup ieee ds in if d.ieee_addr == ieee then some d else rest

unfoldable pub insert : DeviceRecord → List DeviceRecord → List DeviceRecord
insert d [] = d ∷ []
insert d (x ∷ ds) =
    let rest = insert d ds in if x.ieee_addr == d.ieee_addr then d ∷ ds else x ∷ rest

unfoldable pub remove : ℕ → List DeviceRecord → List DeviceRecord
remove ieee [] = []
remove ieee (x ∷ ds) = let rest = remove ieee ds in if x.ieee_addr == ieee then ds else x ∷ rest

unfoldable pub store : StorageCall → List DeviceRecord → List DeviceRecord
store (save d) ds = insert d ds
store (delete ieee) ds = remove ieee ds

abbrev pub Distinct : List DeviceRecord → Type 0
Distinct [] = Unit {0}
Distinct (d ∷ ds) = (lookup d.ieee_addr ds ≡ none) × Distinct ds

pub lookup-insert :
    (ieee : ℕ) (d : DeviceRecord) (ds : List DeviceRecord)
    → lookup ieee (insert d ds) ≡ (if d.ieee_addr == ieee then some d else lookup ieee ds)
unfolding lookup insert
lookup-insert ieee d [] = refl
lookup-insert ieee d (x ∷ ds) = ground (arith, lookup-insert ieee d ds)

pub lookup-remove :
    (ieee other : ℕ) (ds : List DeviceRecord)
    → Distinct ds
    → lookup ieee (remove other ds) ≡ (if other == ieee then none else lookup ieee ds)
unfolding lookup remove
lookup-remove ieee other [] u = ground arith
lookup-remove ieee other (x ∷ ds) u =
    ground (arith, lookup-remove ieee other ds u.1, lookup_at x.ieee_addr ieee ds)
  where
    lookup_at : (a b : ℕ) (ds : List DeviceRecord) → a ≡ b → lookup a ds ≡ lookup b ds
    lookup_at a b ds e = rw e refl

pub Distinct-insert :
    (d : DeviceRecord) (ds : List DeviceRecord) → Distinct ds → Distinct (insert d ds)
unfolding insert lookup
Distinct-insert d [] u = (refl, tt)
Distinct-insert d (x ∷ ds) u = elim (Bool-cases (x.ieee_addr == d.ieee_addr)) [
  | inl e ↦ rw e (let s : x.ieee_addr ≡ d.ieee_addr = ground arith in rw (← s) u)
  | inr n ↦ rw n (lookup-insert x.ieee_addr d ds ∙ ground arith, Distinct-insert d ds u.1)
]

pub Distinct-remove : (ieee : ℕ) (ds : List DeviceRecord) → Distinct ds → Distinct (remove ieee ds)
unfolding remove
Distinct-remove ieee [] u = tt
Distinct-remove ieee (x ∷ ds) u = elim (Bool-cases (x.ieee_addr == ieee)) [
  | inl e ↦ rw e u.1
  | inr n ↦ rw n (lookup-remove x.ieee_addr ieee ds u.1 ∙ ground arith, Distinct-remove ieee ds u.1)
]

pub take_all : (n : ℕ) (xs : List ℕ) → length xs ≤ n → take n xs ≡ xs
take_all zero [] h = refl
take_all zero (x ∷ xs) h = absurd (omega arith)
take_all (suc n) [] h = refl
take_all (suc n) (x ∷ xs) h = ap (◌∷◌ x) (take_all n xs (omega arith))

same-cong : (a b c : List ℕ) → a ≡ b → same a c ≡ same b c
same-cong a b c e = rw e refl

module _ (F : Formats) where
  -- The file holds the record, under the name of its address.
  pub record Holds (d : DeviceRecord) (file : List ℕ × List ℕ) : Type 0 where
    pub named : file.0 ≡ device_name d.ieee_addr
    pub read : F.pb_decode (take pb_buf_size file.1) ≡ some d
    pub small : d.ieee_addr < 2 ^ 64

  -- The files of the directory hold the records, in order.
  abbrev pub Represents : Dir → List DeviceRecord → Type 0
  Represents [] [] = Unit
  Represents [] (d ∷ ds) = true ≡ false
  Represents (f ∷ dir) [] = true ≡ false
  Represents (f ∷ dir) (d ∷ ds) = Holds d f × Represents dir ds

  module _ (L : IsFormats F) where
    same-device_name :
        (a b : ℕ) → a < 2 ^ 64 → b < 2 ^ 64 → same (device_name a) (device_name b) ≡ (a == b)
    same-device_name a b p q = elim (Bool-cases (same (device_name a) (device_name b))) [
      | inl e ↦
          let names : device_name a ≡ device_name b = (same_iff _ _).0 e in
          let one : some a ≡ some b = sym (L.scans a p) ∙ ap F.scan_name names ∙ L.scans b q in
          e ∙ ground arith
      | inr n ↦ n ∙ ground (arith, names a b, same_iff (device_name a) (device_name b))
    ]
      where
        names : (a b : ℕ) → a ≡ b → device_name a ≡ device_name b
        names a b e = rw e refl

    same_file :
        (d : DeviceRecord) (n bytes : List ℕ) (ieee : ℕ)
        → Holds d (n, bytes)
        → ieee < 2 ^ 64
        → same n (device_name ieee) ≡ (d.ieee_addr == ieee)
    same_file d n bytes ieee h p =
        same-cong n (device_name d.ieee_addr) (device_name ieee) h.named
        ∙ same-device_name d.ieee_addr ieee h.small p

    -- What the file of an address holds is the record of that address.
    pub contents-lookup :
        (ieee : ℕ) (dir : Dir) (ds : List DeviceRecord)
        → ieee < 2 ^ 64
        → Represents dir ds
        → ((contents (device_name ieee) dir ≡ none) × (lookup ieee ds ≡ none))
          ⊎ ((bytes : List ℕ) × (d : DeviceRecord) × (contents (device_name ieee) dir ≡ some bytes)
              × (lookup ieee ds ≡ some d)
              × (F.pb_decode (take pb_buf_size bytes) ≡ some d))
    unfolding contents lookup
    contents-lookup ieee [] [] p r = inl (refl, refl)
    contents-lookup ieee [] (d ∷ ds) p r = ground arith
    contents-lookup ieee (f ∷ dir) [] p r = ground arith
    contents-lookup ieee ((n, bytes) ∷ dir) (d ∷ ds) p r =
        let e = same_file d n bytes ieee r.0 p in
        elim (Bool-cases (d.ieee_addr == ieee)) [
          | inl y ↦ rw (e, y) (inr (bytes, d, refl, refl, r.0.read))
          | inr no_match ↦ rw (e, no_match) (contents-lookup ieee dir ds p r.1)
        ]

    pub Represents-put :
        (bytes : List ℕ) (d : DeviceRecord) (dir : Dir) (ds : List DeviceRecord)
        → Holds d (device_name d.ieee_addr, bytes)
        → Represents dir ds
        → Represents (put (device_name d.ieee_addr) bytes dir) (insert d ds)
    unfolding put insert
    Represents-put bytes d [] [] h r = (h, tt)
    Represents-put bytes d [] (x ∷ ds) h r = ground arith
    Represents-put bytes d (f ∷ dir) [] h r = ground arith
    Represents-put bytes d ((n, old) ∷ dir) (x ∷ ds) h r =
        let e = same_file x n old d.ieee_addr r.0 h.small in
        elim (Bool-cases (x.ieee_addr == d.ieee_addr)) [
          | inl y ↦
              let named : n ≡ device_name d.ieee_addr =
                (same_iff n (device_name d.ieee_addr)).0 (e ∙ y) in
              rw (e, y) (record { named = named; read = h.read; small = h.small }, r.1)
          | inr no_match ↦ rw (e, no_match) (r.0, Represents-put bytes d dir ds h r.1)
        ]

    pub Represents-without :
        (ieee : ℕ) (dir : Dir) (ds : List DeviceRecord)
        → ieee < 2 ^ 64
        → Represents dir ds
        → Represents (without (device_name ieee) dir) (remove ieee ds)
    unfolding without remove
    Represents-without ieee [] [] p r = tt
    Represents-without ieee [] (x ∷ ds) p r = ground arith
    Represents-without ieee (f ∷ dir) [] p r = ground arith
    Represents-without ieee ((n, old) ∷ dir) (x ∷ ds) p r =
        let e = same_file x n old ieee r.0 p in
        elim (Bool-cases (x.ieee_addr == ieee)) [
          | inl y ↦ rw (e, y) r.1
          | inr no_match ↦ rw (e, no_match) (r.0, Represents-without ieee dir ds p r.1)
        ]
