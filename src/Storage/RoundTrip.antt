-- ===== src/Storage/RoundTrip.antt =====
-- Saving and loading config.json (zb_storage_config.c).
use zigbee_hub.Base.{
  ◌≢◌, ℕ, suc, ◌+◌, ◌*◌, ◌/◌, ◌%◌, ◌^◌, ◌<◌, ◌≡◌, refl, ap, ◌∙◌, arith, true, false, List, [], ◌∷◌,
  ◌++◌, Option, some, ltb, if◌then◌else◌, length, set, ok, fail, All, length-append,
}
use zigbee_hub.Base.Names.{hex_char}
use zigbee_hub.Storage.{NetConfig}
use zigbee_hub.Storage.Files.{Conditions}
use zigbee_hub.Storage.Config.{
  Json, IsJson, IsConfig, IsBuilt, IsPrintable, Key, key_to_hex, hex_loop, hex_to_key, config_load,
  config_save, config_object, read_root, fill, write_config, save_object, pan_id_key, channel_key,
  nwk_key_key, uart_baud_key,
}

pub length-key_to_hex : (key : List ℕ) → length (key_to_hex key) ≡ 2 * length key
unfolding key_to_hex
length-key_to_hex [] = refl
length-key_to_hex (b ∷ key) = omega (arith, length-key_to_hex key)

set_behind :
    (written old : List ℕ) (x b : ℕ)
    → set (written ++ x ∷ old) (length written) b ≡ (written ++ b ∷ []) ++ old
set_behind [] old x b = refl
set_behind (w ∷ written) old x b = ap (◌∷◌ w) (set_behind written old x b)

behind_one :
    (written : List ℕ) (b : ℕ) (key : List ℕ) → (written ++ b ∷ []) ++ key ≡ written ++ b ∷ key
behind_one [] b key = refl
behind_one (w ∷ written) b key = ap (◌∷◌ w) (behind_one written b key)

key_to_hex-IsPrintable : (key : List ℕ) → All (λ b. b < 256) key → All IsPrintable (key_to_hex key)
unfolding key_to_hex
key_to_hex-IsPrintable [] a = tt
key_to_hex-IsPrintable (b ∷ key) a =
    let high : IsPrintable (hex_char (b / 16)) = ground (arith, a.0) in
    let low : IsPrintable (hex_char (b % 16)) = ground arith in
    (high, (low, key_to_hex-IsPrintable key a.1))

module _ {J N : Type 0} (D : Json J N) (L : IsJson D) where
  hex_loop-key_to_hex :
      (key written old : List ℕ)
      → length old ≡ length key
      → All (λ b. b < 256) key
      → hex_loop D (length key) (length written) (key_to_hex key) (written ++ old)
        ≡ (true, written ++ key)
  unfolding hex_loop key_to_hex
  hex_loop-key_to_hex [] written [] size bytes = refl
  hex_loop-key_to_hex [] written (x ∷ old) size bytes = absurd (omega arith)
  hex_loop-key_to_hex (b ∷ key) written [] size bytes = absurd (omega arith)
  hex_loop-key_to_hex (b ∷ key) written (x ∷ old) size bytes =
      let read =
        L.scans (b / 16) (b % 16) (key_to_hex key) (omega (arith, bytes.0)) (omega arith) in
      let joined : (b / 16 * 16 + b % 16) % 2 ^ 8 ≡ b = omega (arith, bytes.0) in
      let next : suc (length written) ≡ length (written ++ b ∷ []) =
        omega (arith, length-append written (b ∷ [])) in
      rw (read, joined, set_behind written old x b, next)
        (hex_loop-key_to_hex key (written ++ b ∷ []) old (omega arith) bytes.1
          ∙ ap (λ k. (true, k)) (behind_one written b key))

  hex_to_key-key_to_hex :
      (key old : List ℕ)
      → length key ≡ 16
      → length old ≡ 16
      → All (λ b. b < 256) key
      → hex_to_key D (key_to_hex key) old ≡ (true, key)
  unfolding hex_to_key
  hex_to_key-key_to_hex key old size size' bytes =
      let long : ltb (length (key_to_hex key)) 32 ≡ false = ground (arith, length-key_to_hex key) in
      rw (long, ← size) (hex_loop-key_to_hex key [] old (omega arith) bytes)

  -- What an object says of the four keys.
  pub Says : NetConfig → J → Type 0
  Says cfg j =
      (D.number pan_id_key j ≡ some (D.double cfg.pan_id))
      × (D.number channel_key j ≡ some (D.double cfg.channel))
      × (D.text nwk_key_key j ≡ some (key_to_hex cfg.nwk_key))
      × (D.number uart_baud_key j ≡ some (D.double cfg.uart_baud))

  IsBuilt-Says :
      (cfg : NetConfig) (root : J) (json : List ℕ) (b : IsBuilt D cfg root json)
      → D.create ≡ some root
      → Says cfg b.whole
  unfolding Says
  IsBuilt-Says cfg root json b cr =
      let pan = L.number_self pan_id_key _ root b.with_pan (L.fresh pan_id_key root cr) b.pan_in in
      let chan1 =
        L.by_number channel_key pan_id_key _ root b.with_pan (λ e. ground arith) b.pan_in in
      let key1 =
        L.by_number nwk_key_key pan_id_key _ root b.with_pan (λ e. ground arith) b.pan_in in
      let baud1 =
        L.by_number uart_baud_key pan_id_key _ root b.with_pan (λ e. ground arith) b.pan_in in
      let chan =
        L.number_self channel_key _ b.with_pan b.with_channel
          (chan1.2 (L.fresh channel_key root cr)) b.channel_in in
      let pan2 =
        L.by_number pan_id_key channel_key _ b.with_pan b.with_channel (λ e. ground arith)
          b.channel_in in
      let key2 =
        L.by_number nwk_key_key channel_key _ b.with_pan b.with_channel (λ e. ground arith)
          b.channel_in in
      let baud2 =
        L.by_number uart_baud_key channel_key _ b.with_pan b.with_channel (λ e. ground arith)
          b.channel_in in
      let key =
        L.text_self nwk_key_key _ b.with_channel b.with_key
          (key2.2 (key1.2 (L.fresh nwk_key_key root cr))) b.key_in in
      let pan3 =
        L.by_string pan_id_key nwk_key_key _ b.with_channel b.with_key (λ e. ground arith)
          b.key_in in
      let chan3 =
        L.by_string channel_key nwk_key_key _ b.with_channel b.with_key (λ e. ground arith)
          b.key_in in
      let baud3 =
        L.by_string uart_baud_key nwk_key_key _ b.with_channel b.with_key (λ e. ground arith)
          b.key_in in
      let baud =
        L.number_self uart_baud_key _ b.with_key b.whole
          (baud3.2 (baud2.2 (baud1.2 (L.fresh uart_baud_key root cr)))) b.baud_in in
      let last = λ (k : Key) (ne : k ≢ uart_baud_key).
        L.by_number k uart_baud_key _ b.with_key b.whole ne b.baud_in in
      (
        (last pan_id_key (λ e. ground arith)).0 ∙ pan3.0 ∙ pan2.0 ∙ pan,
        (last channel_key (λ e. ground arith)).0 ∙ chan3.0 ∙ chan,
        (last nwk_key_key (λ e. ground arith)).1 ∙ key,
        baud,
      )

  -- What is parsed back from the text says the same.
  parsed_Says :
      (cfg : NetConfig) (j : J) (json : List ℕ)
      → IsConfig cfg
      → D.print j ≡ some json
      → Says cfg j
      → (i : J) × (D.parse json ≡ some i) × Says cfg i
  unfolding Says
  parsed_Says cfg j json v pr (pan, chan, key, baud) =
      let (i, e, numbers, texts) = L.parses j json pr in
      (
        i,
        e,
        (
          numbers pan_id_key cfg.pan_id (omega (arith, v.pan_fits)) pan,
          numbers channel_key cfg.channel (omega (arith, v.channel_fits)) chan,
          texts nwk_key_key _ (key_to_hex-IsPrintable cfg.nwk_key v.key_bytes) key,
          numbers uart_baud_key cfg.uart_baud v.baud_fits baud,
        ),
      )

  config_save_object :
      (c : Conditions) (cfg : NetConfig) (file : Option (List ℕ)) (root : J) (json : List ℕ)
      → D.create ≡ some root
      → IsBuilt D cfg root json
      → config_save D c cfg file ≡ (if c.opens then (ok, c.closed json file) else (fail, file))
  unfolding config_save save_object write_config config_object
  config_save_object c cfg file root json cr b =
      rw (cr, b.pan_in, b.channel_in, b.key_in, b.baud_in, b.printed) refl

  fill_ok :
      (cfg out : NetConfig)
      → IsConfig cfg
      → length out.nwk_key ≡ 16
      → fill D
          (some (D.double cfg.pan_id))
          (some (D.double cfg.channel))
          (some (key_to_hex cfg.nwk_key))
          (some (D.double cfg.uart_baud))
          out
        ≡ (ok, cfg)
  unfolding fill
  fill_ok cfg out v size =
      rw
        (
          hex_to_key-key_to_hex cfg.nwk_key out.nwk_key v.key_size size v.key_bytes,
          L.casts 16 cfg.pan_id (omega arith) v.pan_fits,
          L.casts 8 cfg.channel (omega arith) v.channel_fits,
          L.casts 32 cfg.uart_baud (omega arith) v.baud_fits,
        )
        refl

  read_root-Says :
      (cfg out : NetConfig) (j : J)
      → IsConfig cfg
      → length out.nwk_key ≡ 16
      → Says cfg j
      → read_root D (some j) out ≡ (ok, cfg)
  unfolding read_root Says
  read_root-Says cfg out j v size (pan, chan, key, baud) =
      rw (pan, chan, key, baud) (fill_ok cfg out v size)

  -- A configuration of the widths of the struct that was saved with success is what loading gives
  -- afterwards, with memory and whatever is in the 16-byte key of the struct loaded into, if cJSON
  -- found memory for the members and the text, and the text is whole in the file once it is closed.
  pub config_load-config_save :
      (c c' : Conditions) (cfg out : NetConfig) (file : Option (List ℕ)) (root : J) (json : List ℕ)
      → IsConfig cfg
      → length out.nwk_key ≡ 16
      → c'.memory ≡ true
      → D.create ≡ some root
      → IsBuilt D cfg root json
      → c.closed json file ≡ some json
      → (config_save D c cfg file).0 ≡ ok
      → config_load D c' (config_save D c cfg file).1 out ≡ (ok, cfg)
  unfolding config_load
  config_load-config_save c c' cfg out file root json v size m cr b stored e =
      let saved = config_save_object c cfg file root json cr b in
      let whole : config_save D c cfg file ≡ (ok, some json) = ground arith in
      let (i, back, says) =
        parsed_Says cfg b.whole json v b.printed (IsBuilt-Says cfg root json b cr) in
      rw (whole, m) (ap (λ o. read_root D o out) back ∙ read_root-Says cfg out i v size says)

  -- Once the file is open, saving answers ESP_OK whatever closing it leaves there.
  config_save_short :
      (c : Conditions) (cfg : NetConfig) (file : Option (List ℕ)) (root : J) (json : List ℕ)
      → D.create ≡ some root
      → IsBuilt D cfg root json
      → c.opens ≡ true
      → config_save D c cfg file ≡ (ok, c.closed json file)
  config_save_short c cfg file root json cr b o =
      let saved = config_save_object c cfg file root json cr b in ground arith
