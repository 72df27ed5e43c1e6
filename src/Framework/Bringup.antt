-- ===== src/Framework/Bringup.antt =====
-- components/zb_framework/zb_framework.c: the configuration in use and the handlers between
-- ZNP_INIT and READY. What zb_storage_config_load answers is an argument: `none` where it fails.
use zigbee_hub.Base.{
  ℕ, ◌≡◌, ◌≢◌, arith, Bool, true, false, List, [], ◌∷◌, Option, none, some, ◌==◌, if◌then◌else◌,
  replicate, EspErr, ok, not_finished,
}
use zigbee_hub.Znp.Mt.{nv_panid, nv_chanlist, nv_precfgkey}
use zigbee_hub.Znp.Frame.{Frame}
use zigbee_hub.Znp.Session.{Session}
use zigbee_hub.Network.{write_nv, check_nv_state, form_network, startup_and_wait}
use zigbee_hub.Storage.{NetConfig}
use zigbee_hub.Framework.{State, forming}

-- `CONFIG_ZB_DEFAULT_PAN_ID` and `CONFIG_ZB_DEFAULT_CHANNEL`
pub record Defaults : Type 0 where
  pub default_pan_id : ℕ
  pub default_channel : ℕ

abbrev nonzero_or : ℕ → ℕ → ℕ
nonzero_or v fallback = if v == 0 then fallback else v

unfoldable pub key_set : List ℕ → Bool
key_set [] = false
key_set (k ∷ ks) = let rest = key_set ks in if k == 0 then rest else true

-- `load_net_config`: the PAN id, the channel and the key.
unfoldable pub load_net_config : Defaults → NetConfig → Option NetConfig → ℕ × ℕ × List ℕ
load_net_config d cfg none =
    (nonzero_or cfg.pan_id d.default_pan_id, nonzero_or cfg.channel d.default_channel, cfg.nwk_key)
load_net_config d cfg (some stored) = (
  nonzero_or stored.pan_id (nonzero_or cfg.pan_id d.default_pan_id),
  nonzero_or stored.channel (nonzero_or cfg.channel d.default_channel),
  if key_set stored.nwk_key then stored.nwk_key else cfg.nwk_key,
)

-- What `save_net_config` hands to zb_storage_config_save.
unfoldable pub saved_config : NetConfig → ℕ → ℕ → List ℕ → NetConfig
saved_config cfg pan_id channel nwk_key = record {
  pan_id = pan_id;
  channel = channel;
  nwk_key = nwk_key;
  uart_baud = cfg.uart_baud;
}

-- What a round leaves: the status, the state, the requests and answers, the AREQs that still wait,
-- and the configurations saved.
pub record Outcome : Type 0 where
  pub status : EspErr
  pub state : State
  pub session : Session
  pub areqs : List Frame
  pub saved : List NetConfig

-- From zb_net_startup_and_wait on, in state FORMING; `saving` is saved on success.
started : List NetConfig → (EspErr × List Frame) × Session → Outcome
started saving ((ok, areqs), s) = record {
  status = ok;
  state = forming;
  session = s;
  areqs = areqs;
  saved = saving;
}
started saving ((e, areqs), s) = record {
  status = e;
  state = forming;
  session = s;
  areqs = areqs;
  saved = [];
}

formed : List NetConfig → List Frame → EspErr × Session → Outcome
formed saving areqs (ok, s) = started saving (startup_and_wait areqs s)
formed saving areqs (e, s) = record {
  status = e;
  state = forming;
  session = s;
  areqs = areqs;
  saved = [];
}

unfoldable pub handle_forming : NetConfig → ℕ → ℕ → List ℕ → List Frame → Session → Outcome
unfolding formed started
handle_forming cfg pan_id channel nwk_key areqs s =
    formed (saved_config cfg pan_id channel nwk_key ∷ []) areqs
      (form_network pan_id channel nwk_key s)

-- The results of the three writes are not looked at.
unfoldable pub handle_reconfiguring : NetConfig → ℕ → ℕ → List ℕ → List Frame → Session → Outcome
handle_reconfiguring cfg pan_id channel nwk_key areqs s =
    let s1 = (write_nv nv_panid (replicate 2 0) s).1 in
    let s2 = (write_nv nv_chanlist (replicate 4 0) s1).1 in
    let s3 = (write_nv nv_precfgkey (replicate 16 0) s2).1 in
    handle_forming cfg pan_id channel nwk_key areqs s3

unfoldable pub by_nv_status : NetConfig → ℕ → ℕ → List ℕ → List Frame → EspErr × Session → Outcome
unfolding started
by_nv_status cfg pan_id channel nwk_key areqs (ok, s) =
    handle_forming cfg pan_id channel nwk_key areqs s
by_nv_status cfg pan_id channel nwk_key areqs (not_finished, s) =
    started [] (startup_and_wait areqs s)
by_nv_status cfg pan_id channel nwk_key areqs (e, s) =
    handle_reconfiguring cfg pan_id channel nwk_key areqs s

-- `handle_network_check` and the branches of `framework_task` after it.
unfoldable pub bring_up : Defaults → NetConfig → Option NetConfig → List Frame → Session → Outcome
unfolding by_nv_status
bring_up d cfg stored areqs s =
    let (pan_id, channel, nwk_key) = load_net_config d cfg stored in
    by_nv_status cfg pan_id channel nwk_key areqs (check_nv_state pan_id channel s)

-- The configuration that is saved when a network was formed is the one in use after a restart,
-- whatever the defaults are, if its PAN id, its channel and its key are set.
load_net_config-saved_config :
    (d : Defaults) (cfg : NetConfig) (pan_id channel : ℕ) (nwk_key : List ℕ)
    → pan_id ≢ 0
    → channel ≢ 0
    → key_set nwk_key ≡ true
    → load_net_config d cfg (some (saved_config cfg pan_id channel nwk_key))
      ≡ (pan_id, channel, nwk_key)
unfolding load_net_config saved_config
load_net_config-saved_config d cfg pan_id channel nwk_key p c k = ground arith
