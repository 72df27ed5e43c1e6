-- ===== src/Storage/Config.antt =====
-- components/zb_storage/zb_storage_config.c: config.json. The calls of cJSON and sscanf, and the
-- conversions between integers and doubles, are a record of functions.
use zigbee_hub.Base.{
  ℕ, zero, suc, ◌+◌, ◌*◌, ◌/◌, ◌%◌, ◌^◌, ◌<◌, ◌≡◌, ◌≤◌, ◌≢◌, Bool, true, false, List, [], ◌∷◌,
  Option, none, some, ltb, if◌then◌else◌, length, drop, set, EspErr, ok, fail, no_mem, not_found,
  invalid_state, All,
}
use zigbee_hub.Base.Names.{hex_char}
use zigbee_hub.Storage.{NetConfig}
use zigbee_hub.Storage.Files.{Conditions}

-- The keys "pan_id", "channel", "nwk_key" and "uart_baud".
pub data Key : Type 0 where
  pan_id_key channel_key nwk_key_key uart_baud_key : Key

-- `J` is the type of objects, `N` that of doubles. Adding a member and printing need memory; `cast`
-- is the conversion of a double to an unsigned integer of so many bits.
pub record Json (J N : Type 0) : Type 0 where
  pub parse : List ℕ → Option J
  pub print : J → Option (List ℕ)
  pub create : Option J
  pub add_number : Key → N → J → Option J
  pub add_string : Key → List ℕ → J → Option J
  pub number : Key → J → Option N
  pub text : Key → J → Option (List ℕ)
  pub double : ℕ → N
  pub cast : ℕ → N → ℕ
  pub scan_byte : List ℕ → Option ℕ

-- `key_to_hex`
unfoldable pub key_to_hex : List ℕ → List ℕ
key_to_hex [] = []
key_to_hex (b ∷ key) = hex_char (b / 16) ∷ hex_char (b % 16) ∷ key_to_hex key

module _ {J N : Type 0} (D : Json J N) where
  -- The loop of `hex_to_key` from index `i` on, over what is left of the text.
  unfoldable pub hex_loop : ℕ → ℕ → List ℕ → List ℕ → Bool × List ℕ
  hex_loop zero i hex key = (true, key)
  hex_loop (suc left) i hex key = elim (D.scan_byte hex) [
    | none ↦ (false, key)
    | some byte ↦ hex_loop left (suc i) (drop 2 hex) (set key i (byte % 2 ^ 8))
  ]

  -- `hex_to_key`: the result, and the key with the bytes that were written.
  unfoldable pub hex_to_key : List ℕ → List ℕ → Bool × List ℕ
  hex_to_key hex key = if ltb (length hex) 32 then (false, key) else hex_loop 16 0 hex key

  abbrev judge_key : Bool × List ℕ → NetConfig → EspErr × NetConfig
  judge_key (good, key) cfg = (if good then ok else invalid_state, record cfg { nwk_key = key })

  -- The fields of the parsed text, with what `cfg` points to before the call.
  unfoldable pub fill :
      Option N → Option N → Option (List ℕ) → Option N → NetConfig → EspErr × NetConfig
  fill (some pan) (some chan) (some hex) (some baud) cfg =
      judge_key (hex_to_key hex cfg.nwk_key)
        (record cfg { pan_id = D.cast 16 pan; channel = D.cast 8 chan; uart_baud = D.cast 32 baud })
  fill pan chan hex baud cfg = (invalid_state, cfg)

  unfoldable pub read_root : Option J → NetConfig → EspErr × NetConfig
  read_root none cfg = (invalid_state, cfg)
  read_root (some root) cfg =
      fill (D.number pan_id_key root) (D.number channel_key root) (D.text nwk_key_key root)
        (D.number uart_baud_key root) cfg

  -- `zb_storage_config_load`: the status, and what `cfg` points to afterwards.
  unfoldable pub config_load : Conditions → Option (List ℕ) → NetConfig → EspErr × NetConfig
  config_load c none cfg = (not_found, cfg)
  config_load c (some file) cfg = if c.memory then read_root (D.parse file) cfg else (no_mem, cfg)

  -- An object when a member was to be added; where that failed it is as it was.
  abbrev after : J → Option J → J
  after j none = j
  after j (some j') = j'

  -- The results of the four calls are not looked at.
  unfoldable pub config_object : NetConfig → J → J
  config_object cfg root =
      let j1 = after root (D.add_number pan_id_key (D.double cfg.pan_id) root) in
      let j2 = after j1 (D.add_number channel_key (D.double cfg.channel) j1) in
      let j3 = after j2 (D.add_string nwk_key_key (key_to_hex cfg.nwk_key) j2) in
      after j3 (D.add_number uart_baud_key (D.double cfg.uart_baud) j3)

  -- The results of `fputs` and `fclose` are not looked at.
  unfoldable pub write_config :
      Conditions → Option (List ℕ) → Option (List ℕ) → EspErr × Option (List ℕ)
  write_config c none file = (no_mem, file)
  write_config c (some json) file = if c.opens then (ok, c.closed json file) else (fail, file)

  unfoldable pub save_object :
      Conditions → NetConfig → Option (List ℕ) → Option J → EspErr × Option (List ℕ)
  save_object c cfg file none = (no_mem, file)
  save_object c cfg file (some root) = write_config c (D.print (config_object cfg root)) file

  -- `zb_storage_config_save`
  unfoldable pub config_save : Conditions → NetConfig → Option (List ℕ) → EspErr × Option (List ℕ)
  config_save c cfg file = save_object c cfg file D.create

abbrev pub IsPrintable : ℕ → Type 0
IsPrintable c = (32 ≤ c) × (c < 127)

-- What the file relies on of cJSON, conversions and sscanf. A new object lacks every key. A key
-- that was lacking gives what was added for it; adding for a key says nothing of another one.
-- Parsing what was printed gives an object with the same numbers, where they are integers of 32
-- bits, and the same texts of printable characters. An integer of up to 32 bits comes back from its
-- double, and sscanf reads two digits.
pub record IsJson {J N : Type 0} (D : Json J N) : Type 1 where
  pub Lacks : Key → J → Type 0
  pub fresh : (k : Key) (j : J) → D.create ≡ some j → Lacks k j
  pub number_self :
      (k : Key) (n : N) (j j' : J)
      → Lacks k j
      → D.add_number k n j ≡ some j'
      → D.number k j' ≡ some n
  pub text_self :
      (k : Key) (t : List ℕ) (j j' : J)
      → Lacks k j
      → D.add_string k t j ≡ some j'
      → D.text k j' ≡ some t
  pub by_number :
      (k l : Key) (n : N) (j j' : J)
      → k ≢ l
      → D.add_number l n j ≡ some j'
      → (D.number k j' ≡ D.number k j) × (D.text k j' ≡ D.text k j) × (Lacks k j → Lacks k j')
  pub by_string :
      (k l : Key) (t : List ℕ) (j j' : J)
      → k ≢ l
      → D.add_string l t j ≡ some j'
      → (D.number k j' ≡ D.number k j) × (D.text k j' ≡ D.text k j) × (Lacks k j → Lacks k j')
  pub parses :
      (j : J) (t : List ℕ)
      → D.print j ≡ some t
      → (i : J) × (D.parse t ≡ some i)
        × ((k : Key) (n : ℕ)
            → n < 2 ^ 32
            → D.number k j ≡ some (D.double n)
            → D.number k i ≡ some (D.double n))
        × ((k : Key) (s : List ℕ) → All IsPrintable s → D.text k j ≡ some s → D.text k i ≡ some s)
  pub casts : (w n : ℕ) → w ≤ 32 → n < 2 ^ w → D.cast w (D.double n) ≡ n
  pub scans :
      (a b : ℕ) (rest : List ℕ)
      → a < 16
      → b < 16
      → D.scan_byte (hex_char a ∷ hex_char b ∷ rest) ≡ some (a * 16 + b)

-- cJSON finds memory for the four members and for the text.
pub record IsBuilt {J N : Type 0} (D : Json J N) (cfg : NetConfig) (root : J) (json : List ℕ)
    : Type 0 where
  pub with_pan : J
  pub with_channel : J
  pub with_key : J
  pub whole : J
  pub pan_in : D.add_number pan_id_key (D.double cfg.pan_id) root ≡ some with_pan
  pub channel_in : D.add_number channel_key (D.double cfg.channel) with_pan ≡ some with_channel
  pub key_in : D.add_string nwk_key_key (key_to_hex cfg.nwk_key) with_channel ≡ some with_key
  pub baud_in : D.add_number uart_baud_key (D.double cfg.uart_baud) with_key ≡ some whole
  pub printed : D.print whole ≡ some json

-- A configuration whose fields have the widths of `zb_net_config_t`.
pub record IsConfig (cfg : NetConfig) : Type 0 where
  pub pan_fits : cfg.pan_id < 2 ^ 16
  pub channel_fits : cfg.channel < 2 ^ 8
  pub baud_fits : cfg.uart_baud < 2 ^ 32
  pub key_size : length cfg.nwk_key ≡ 16
  pub key_bytes : All (λ b. b < 256) cfg.nwk_key
