-- ===== src/Tests/Stored.antt =====
-- A concrete encoding of device records, and runs of the device store.
use zigbee_hub.Base.{
  ℕ, zero, suc, ◌+◌, ◌-◌, ◌*◌, ◌/◌, ◌%◌, ◌^◌, ◌≤◌, ◌<◌, ◌≡◌, refl, sym, ap, ◌∙◌, arith, Bool, true,
  false, ◌&&◌, List, [], ◌∷◌, ◌++◌, none, some, ltb, leb, if◌then◌else◌, length, take, drop,
  take-append, length-append, ok, Bool-cases, inl, inr,
}
use zigbee_hub.Base.Names.{same, hex_digits, hex_char}
use zigbee_hub.Base.Words.{word_bytes, or_bytes, or_bytes-word_bytes}
use zigbee_hub.Storage.{DeviceRecord, Endpoint, save, delete, init_zero}
use zigbee_hub.Storage.Files.{
  Formats, IsFormats, Conditions, Dir, device_name, device_load, perform, device_delete,
  save_encoded, write_file, put, settle, IsFlushed, without, contents, load_all, device_save,
}
use zigbee_hub.Storage.Devices.{lookup, insert, remove, store}
use zigbee_hub.Storage.Calls.{
  go_on, store_all, perform_all, Performed, SaveOutcome, device_save_lem,
}
use mathlib.Core.List.{Permᴰ}
use zigbee_hub.Storage.Refinement.{fold, view, load_all-perform_all}

hex_of : ℕ → ℕ
hex_of c = if ltb c 58 then c - 48 else c - 87

hex_from : ℕ → List ℕ → ℕ
hex_from acc [] = acc
hex_from acc (c ∷ cs) = hex_from (acc * 16 + hex_of c) cs

hex_from-append :
    (acc c : ℕ) (cs : List ℕ) → hex_from acc (cs ++ c ∷ []) ≡ hex_from acc cs * 16 + hex_of c
unfolding hex_from
hex_from-append acc c [] = refl
hex_from-append acc c (x ∷ cs) = hex_from-append (acc * 16 + hex_of x) c cs

hex_of-hex_char : (d : ℕ) → d < 16 → hex_of (hex_char d) ≡ d
unfolding hex_of
hex_of-hex_char d h = ground arith

hex_from-hex_digits : (n w : ℕ) → w < 16 ^ n → hex_from 0 (hex_digits n w) ≡ w
unfolding hex_digits hex_from
hex_from-hex_digits zero w h = omega arith
hex_from-hex_digits (suc n) w h =
    hex_from-append 0 (hex_char (w % 16)) (hex_digits n (w / 16))
    ∙ omega (
      arith,
      hex_from-hex_digits n (w / 16) (omega arith),
      hex_of-hex_char (w % 16) (omega arith),
    )

length-hex_digits : (n w : ℕ) → length (hex_digits n w) ≡ n
unfolding hex_digits
length-hex_digits zero w = refl
length-hex_digits (suc n) w = omega (
  arith,
  length-append (hex_digits n (w / 16)) (hex_char (w % 16) ∷ []),
  length-hex_digits n (w / 16),
)

no_endpoints : List Endpoint → Bool
no_endpoints [] = true
no_endpoints (e ∷ es) = false

fits_widths : DeviceRecord → Bool
fits_widths d =
    ltb d.ieee_addr (2 ^ 64)
    && ltb d.network_addr (2 ^ 32)
    && ltb d.last_seen_ms (2 ^ 64)
    && no_endpoints d.endpoints

pub plain_bytes : DeviceRecord → List ℕ
plain_bytes d =
    word_bytes 8 d.ieee_addr ++ (word_bytes 4 d.network_addr ++ word_bytes 8 d.last_seen_ms)

read_plain : List ℕ → DeviceRecord
read_plain bs = record {
  ieee_addr = or_bytes 0 0 (take 8 bs);
  network_addr = or_bytes 0 0 (take 4 (drop 8 bs));
  endpoints = [];
  last_seen_ms = or_bytes 0 0 (drop 12 bs);
}

pub plain : Formats
plain = record {
  pb_encode = λ n d. if leb 20 n && fits_widths d then some (plain_bytes d) else none;
  pb_decode = λ bs. some (read_plain bs);
  scan_name = λ name. some (hex_from 0 (take 16 name));
}

no_endpoints_lem : (es : List Endpoint) → no_endpoints es ≡ true → [] ≡ es
unfolding no_endpoints
no_endpoints_lem [] h = refl
no_endpoints_lem (e ∷ es) h = ground arith

same_record :
    (ieee nwk seen : ℕ) (eps : List Endpoint) (d : DeviceRecord)
    → ieee ≡ d.ieee_addr
    → nwk ≡ d.network_addr
    → eps ≡ d.endpoints
    → seen ≡ d.last_seen_ms
    → record { ieee_addr = ieee; network_addr = nwk; endpoints = eps; last_seen_ms = seen } ≡ d
same_record ieee nwk seen eps d a b c e = rw (a, b, c, e) refl

spelled : (n w : ℕ) → w < 2 ^ (8 * n) → or_bytes 0 0 (word_bytes n w) ≡ w
spelled n w h = omega (arith, or_bytes-word_bytes n 0 0 w (omega arith) h)

read_plain-plain_bytes : (d : DeviceRecord) → fits_widths d ≡ true → read_plain (plain_bytes d) ≡ d
unfolding read_plain plain_bytes fits_widths word_bytes
read_plain-plain_bytes d h =
    same_record _ _ _ _ d (spelled 8 d.ieee_addr (ground arith))
      (spelled 4 d.network_addr (ground arith)) (no_endpoints_lem d.endpoints (ground arith))
      (spelled 8 d.last_seen_ms (ground arith))

fits_bound : (n : ℕ) (d : DeviceRecord) → 20 ≤ n → length (plain_bytes d) ≤ n
unfolding plain_bytes word_bytes
fits_bound n d h = omega arith

taken : (ieee : ℕ) → take 16 (device_name ieee) ≡ hex_digits 16 ieee
unfolding device_name
taken ieee =
    ap (λ n. take n (hex_digits 16 ieee ++ 46 ∷ 112 ∷ 98 ∷ [])) (sym (length-hex_digits 16 ieee))
    ∙ take-append (hex_digits 16 ieee) (46 ∷ 112 ∷ 98 ∷ [])

pub plain-IsFormats : IsFormats plain
unfolding plain
plain-IsFormats = record {
  fits = λ n d bytes e. elim (Bool-cases (leb 20 n && fits_widths d)) [
    | inl y ↦
        let s : plain_bytes d ≡ bytes = ground arith in rw (← s) (fits_bound n d (ground arith))
    | inr z ↦ absurd (ground arith)
  ];
  decodes = λ n d bytes e. elim (Bool-cases (leb 20 n && fits_widths d)) [
    | inl y ↦
        let s : plain_bytes d ≡ bytes = ground arith in
        rw (← s) (ap (λ r. some r) (read_plain-plain_bytes d (ground arith)))
    | inr z ↦ absurd (ground arith)
  ];
  scans = λ ieee h.
      ap (λ v. some v)
        (ap (λ t. hex_from 0 t) (taken ieee) ∙ hex_from-hex_digits 16 ieee (omega (arith)));
}

abbrev pub good : Conditions
good = record {
  memory = true;
  opens = true;
  taken = 4096;
  closed = λ bytes old. some bytes;
  removes = true;
}

pub good-IsFlushed : IsFlushed good
good-IsFlushed = record { stores = λ bytes old h. refl }

abbrev lamp_record : DeviceRecord
lamp_record = record init_zero { ieee_addr = 0x00124B0001020304; network_addr = 0x1234 }

abbrev lamp_history : List Performed
lamp_history =
    (good, save (record lamp_record { network_addr = 1 }))
    ∷ (good, save (record init_zero { ieee_addr = 7 }))
    ∷ (good, save lamp_record)
    ∷ (good, save (record init_zero { ieee_addr = 8 }))
    ∷ (good, delete 8)
    ∷ (good, delete 9)
    ∷ []

abbrev lamp_file : List ℕ × List ℕ
lamp_file = (device_name lamp_record.ieee_addr, plain_bytes lamp_record)

abbrev seven_file : List ℕ × List ℕ
seven_file = (device_name 7, plain_bytes (record init_zero { ieee_addr = 7 }))

abbrev lamp_dir : Dir
lamp_dir = lamp_file ∷ seven_file ∷ []

-- readdir lists the files by their names.
abbrev by_name : Dir
by_name = seven_file ∷ lamp_file ∷ []

device_save_lem_example : SaveOutcome plain good lamp_record []
device_save_lem_example = device_save_lem plain plain-IsFormats good lamp_record []

lamp_history_runs : perform_all plain lamp_history [] ≡ some lamp_dir
unfolding perform_all go_on perform device_save device_delete save_encoded write_file settle put
    without contents device_name hex_digits plain plain_bytes fits_widths no_endpoints word_bytes
    same init_zero
lamp_history_runs = refl

load_all-perform_all_example :
    ((rs : List DeviceRecord) × Permᴰ (store_all lamp_history []) rs
      × (load_all plain good (some lamp_dir) by_name (λ d n. n + d.network_addr) 0
          ≡ (ok, fold (λ d n. n + d.network_addr) rs 0)))
    × (device_load plain good 7 lamp_dir ≡ view (lookup 7 (store_all lamp_history [])))
load_all-perform_all_example =
    load_all-perform_all plain plain-IsFormats lamp_history lamp_dir by_name good
      (λ d n. n + d.network_addr) 0 7
      (omega arith, (omega arith, (omega arith, (omega arith, (omega arith, (omega arith, tt))))))
      (
        good-IsFlushed,
        (
          good-IsFlushed,
          (good-IsFlushed, (good-IsFlushed, (good-IsFlushed, (good-IsFlushed, tt)))),
        ),
      )
      lamp_history_runs (Permᴰ.swap refl refl) refl (omega arith)

-- What is left after the history are the records that were saved last.
store_all-lamp_history :
    store_all lamp_history [] ≡ lamp_record ∷ record init_zero { ieee_addr = 7 } ∷ []
unfolding store_all store insert remove
store_all-lamp_history = refl

abbrev pub seven_saves : List Performed
seven_saves = (good, save (record init_zero { ieee_addr = 7; network_addr = 0x1234 })) ∷ []

abbrev pub seven_dir : Dir
seven_dir =
    (device_name 7, plain_bytes (record init_zero { ieee_addr = 7; network_addr = 0x1234 })) ∷ []

pub seven_runs : perform_all plain seven_saves [] ≡ some seven_dir
unfolding perform_all go_on perform device_save save_encoded write_file settle put contents
    device_name hex_digits plain plain_bytes fits_widths no_endpoints word_bytes same init_zero
seven_runs = refl
