-- ===== src/App/Boot.antt =====
-- main/main.c: `app_main`, from its start to the subscriptions. What NVS answers is an argument,
-- and so is what the parts answer to zb_framework_init and zb_framework_start.
use zigbee_hub.Base.{
  ℕ, none, ◌≡◌, ◌≢◌, refl, ◌⊎◌, inl, inr, arith, Bool, true, false, not, ◌&&◌, ◌||◌, List, [], ◌∷◌,
  if◌then◌else◌, EspErr, ok, is_ok, is_ok_lem, first_error, Bool-cases, get_or, zero, suc, ltb,
  ◌==◌,
}
use zigbee_hub.Event.{
  Bus, Event, Call, calls, subscribe, take_slot, store_row, event_button, event_cap_report,
}
use zigbee_hub.Event as Event
use zigbee_hub.Event.Delivery.{deliveries, call}
use zigbee_hub.Framework.{State}
use zigbee_hub.Storage.{NetConfig}
use zigbee_hub.Framework.Bringup.{Defaults, load_net_config}
use zigbee_hub.Framework.Ready.{no_versions}
use zigbee_hub.Framework.Api.{SetUp, framework_init, framework_start, is_ready, button_cb}
use zigbee_hub.App.{app_subscribe, network_cb, cap_cb}

-- The answers of nvs_flash_init that `app_main` tells apart.
pub data NvsErr : Type 0 where
  nvs_ok no_free_pages new_version_found nvs_other : NvsErr

abbrev pub nvs_is_ok : NvsErr → Bool
nvs_is_ok nvs_ok = true
nvs_is_ok _ = false

abbrev pub wants_erase : NvsErr → Bool
wants_erase no_free_pages = true
wants_erase new_version_found = true
wants_erase _ = false

-- nvs_flash_init, nvs_flash_erase (whether it is ESP_OK) and nvs_flash_init again.
pub record Nvs : Type 0 where
  pub first : NvsErr
  pub erased : Bool
  pub second : NvsErr

-- Whether NVS is there; otherwise ESP_ERROR_CHECK aborts.
unfoldable pub nvs_ready : Nvs → Bool
nvs_ready n = if wants_erase n.first then n.erased && nvs_is_ok n.second else nvs_is_ok n.first

abbrev pub default_nwk_key : List ℕ
default_nwk_key =
    0x01 ∷ 0x03 ∷ 0x05 ∷ 0x07 ∷ 0x09 ∷ 0x0B ∷ 0x0D ∷ 0x0F ∷ 0x00 ∷ 0x02 ∷ 0x04 ∷ 0x06 ∷ 0x08 ∷ 0x0A
    ∷ 0x0C ∷ 0x0D ∷ []

-- The fields of `cfg` that the framework looks at; the others go to the drivers.
unfoldable pub app_config : Defaults → ℕ → NetConfig
app_config d uart_baud = record {
  pan_id = d.default_pan_id;
  channel = d.default_channel;
  nwk_key = default_nwk_key;
  uart_baud = uart_baud;
}

-- Without a stored configuration the framework asks for the network of Kconfig with that key.
load_net_config-app_config :
    (d : Defaults) (uart_baud : ℕ)
    → load_net_config d (app_config d uart_baud) none
      ≡ (d.default_pan_id, d.default_channel, default_nwk_key)
unfolding load_net_config app_config
load_net_config-app_config d uart_baud = ground arith

-- How far `app_main` comes: it aborts, it still polls the state, or it has subscribed.
pub data Boot : Type 0 where
  aborted : Boot
  polling : Bus → Boot
  running : Bus → Boot

-- The loop that polls zb_framework_get_state every 500 ms: whether READY is seen.
unfoldable pub sees_ready : List State → Bool
sees_ready [] = false
sees_ready (s ∷ ss) = let later = sees_ready ss in if is_ready s then true else later

-- `app_main`: `btn` is what zb_button_start answers, `created` whether the framework's task could
-- be made, `states` what the polls see.
unfoldable pub app_main : Nvs → SetUp → EspErr → Bool → List State → Bus → Boot
app_main n parts btn created states b =
    let (init_err, (initialized, versions)) = framework_init parts (false, no_versions) in
    let (start_err, started) = framework_start btn created initialized b in
    if not (nvs_ready n) || not (is_ok init_err)
    then aborted
    else if not (is_ok start_err)
    then aborted
    else if sees_ready states
    then running (app_subscribe started)
    else polling started

-- The parts that the hub cannot do without; the button is none of them.
unfoldable pub parts_err : SetUp → EspErr
parts_err parts =
    first_error parts.storage (first_error parts.cmd (first_error parts.dev_mgr parts.transport))

-- Who hears an event: the application, and for the button the framework if its task runs.
unfoldable pub heard_by : EspErr → Event → List Call
heard_by btn event =
    if ltb event.type event_cap_report
    then call network_cb event 0 ∷ []
    else if event.type == event_cap_report
    then call cap_cb event 0 ∷ []
    else if event.type == event_button && is_ok btn
    then call button_cb event 0 ∷ []
    else []

deliveries-subscribed :
    (btn : Bool) (i : ℕ) (event : Event)
    → calls
        (get_or
          (app_subscribe
            (if btn then (subscribe Event.init event_button button_cb 0).1 else Event.init)).table
          i
          [])
        event
      ≡ (if ltb i event_cap_report
          then call network_cb event 0 ∷ []
          else if i == event_cap_report
          then call cap_cb event 0 ∷ []
          else if i == event_button && btn
          then call button_cb event 0 ∷ []
          else [])
unfolding app_subscribe subscribe take_slot store_row Event.init calls
deliveries-subscribed true zero event = refl
deliveries-subscribed true (suc zero) event = refl
deliveries-subscribed true (suc (suc zero)) event = refl
deliveries-subscribed true (suc (suc (suc zero))) event = refl
deliveries-subscribed true (suc (suc (suc (suc zero)))) event = refl
deliveries-subscribed true (suc (suc (suc (suc (suc zero))))) event = refl
deliveries-subscribed true (suc (suc (suc (suc (suc (suc zero)))))) event = refl
deliveries-subscribed true (suc (suc (suc (suc (suc (suc (suc i))))))) event = ground arith
deliveries-subscribed false zero event = refl
deliveries-subscribed false (suc zero) event = refl
deliveries-subscribed false (suc (suc zero)) event = refl
deliveries-subscribed false (suc (suc (suc zero))) event = refl
deliveries-subscribed false (suc (suc (suc (suc zero)))) event = refl
deliveries-subscribed false (suc (suc (suc (suc (suc zero))))) event = refl
deliveries-subscribed false (suc (suc (suc (suc (suc (suc zero)))))) event = refl
deliveries-subscribed false (suc (suc (suc (suc (suc (suc (suc i))))))) event = ground arith

-- How `app_main` ends on the bus that zb_subscribe_init makes.
abbrev pub Booted : Nvs → SetUp → EspErr → Bool → List State → Boot → Type 0
Booted n parts btn created states out =
    (((nvs_ready n ≡ false) ⊎ (parts_err parts ≢ ok) ⊎ (created ≡ false)) × (out ≡ aborted))
    ⊎ ((nvs_ready n ≡ true)
        × (parts_err parts ≡ ok)
        × (created ≡ true)
        × (((sees_ready states ≡ false) × (b : Bus) × (out ≡ polling b))
            ⊎ ((sees_ready states ≡ true)
                × (b : Bus) × (out ≡ running b)
                × ((event : Event) → deliveries b event ≡ heard_by btn event))))

-- `app_main` aborts exactly if NVS cannot be set up, even after an erase where NVS asks for one, or
-- a part other than the button fails, or the framework's task cannot be made. Otherwise it polls
-- until it sees READY, and then subscribes: from then on an event of each type is heard by exactly
-- the callbacks that are meant for it, and a button event by none if the button's task could not
-- start.
pub app_main_lem :
    (n : Nvs) (parts : SetUp) (btn : EspErr) (created : Bool) (states : List State)
    → Booted n parts btn created states (app_main n parts btn created states Event.init)
unfolding app_main framework_init framework_start heard_by parts_err
app_main_lem n parts btn created states =
    let e = parts_err parts in
    elim (Bool-cases (nvs_ready n)) [
      | inr off ↦ rw off (inl (inl refl, refl))
      | inl on ↦ elim (Bool-cases (is_ok e)) [
        | inr bad ↦ rw (on, bad) (inl (inr (inl (λ z. ground arith)), refl))
        | inl fine ↦ elim (Bool-cases created) [
          | inr no_task ↦ rw (on, fine, no_task) (inl (inr (inr refl), refl))
          | inl made ↦ elim (Bool-cases (sees_ready states)) [
            | inr waits ↦
                rw (on, fine, made, waits) (inr (refl, is_ok_lem e fine, refl, inl (refl, _, refl)))
            | inl seen ↦
                rw (on, fine, made, seen)
                  (inr (
                    refl,
                    is_ok_lem e fine,
                    refl,
                    inr (
                      refl,
                      _,
                      refl,
                      λ event. deliveries-subscribed (is_ok btn) event.type event,
                    ),
                  ))
          ]
        ]
      ]
    ]
