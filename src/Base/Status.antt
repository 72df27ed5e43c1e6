-- ===== src/Base/Status.antt =====
-- `esp_err_t`: the codes of ESP-IDF that the program returns or tests, and those that
-- components/znp_transport/include/znp_types.h adds.
use mathlib.Core.Bool.{Bool, true, false}
use mathlib.Core.Path.{◌≡◌, refl}
use native.Mathlib.Omega.{arith}

pub data EspErr : Type 0 where
  ok fail no_mem invalid_arg invalid_state invalid_size : EspErr
  not_found not_supported esp_timeout invalid_response invalid_crc not_finished : EspErr
  znp_timeout znp_reset_timeout znp_not_init : EspErr

-- `err == ESP_OK`
abbrev pub is_ok : EspErr → Bool
is_ok ok = true
is_ok _ = false

pub is_ok_lem : (e : EspErr) → is_ok e ≡ true → e ≡ ok
is_ok_lem ok h = refl
is_ok_lem e h = ground arith

-- `err == ESP_ERR_NOT_FOUND`
abbrev pub is_not_found : EspErr → Bool
is_not_found not_found = true
is_not_found _ = false

-- `if (err != ESP_OK) return err;` and the next step: the first code that is not ESP_OK.
abbrev pub first_error : EspErr → EspErr → EspErr
first_error ok next = next
first_error e next = e
