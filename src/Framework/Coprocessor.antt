-- ===== src/Framework/Coprocessor.antt =====
-- What the coprocessor has and says during a pass of framework_task (zb_framework.c), and what the
-- start of the pass makes of it.
use mathlib.Core.List.{append_assoc}
use zigbee_hub.Base.{
  ℕ, ◌%◌, ◌^◌, ◌≤◌, ◌<◌, ◌≡◌, ◌≢◌, arith, true, false, List, [], ◌∷◌, ◌++◌, Option, some, length,
  ok, All,
}
use zigbee_hub.Base.Words.{low_byte, high_byte, IsByte}
use zigbee_hub.Znp.Mt.{subsys_sys, subsys_af, sys_ping_cmd, sys_version_cmd, af_register_cmd}
use zigbee_hub.Znp.Frame.{Frame, request, make_cmd_type, frame_type_sreq}
use zigbee_hub.Znp.Session.{send_sreq, take_answer}
use zigbee_hub.Storage.{NetConfig}
use zigbee_hub.Network.{mask_bytes, ping, get_version, af_register, send, version_text, version_out}
use zigbee_hub.Base.Strings.{snprintf}
use zigbee_hub.Network.Formation.{nv_answer, started}
use zigbee_hub.Framework.Bringup.{Defaults, load_net_config, key_set}
use zigbee_hub.Framework.Task.{Pass, handle_znp_init, after_reset}
use zigbee_hub.Framework.Reform.{Answers, AllAccepted, answers_of}

abbrev pub init_requests : List Frame
init_requests =
    request (make_cmd_type subsys_sys frame_type_sreq) sys_ping_cmd []
    ∷ request (make_cmd_type subsys_sys frame_type_sreq) sys_version_cmd []
    ∷ request (make_cmd_type subsys_af frame_type_sreq) af_register_cmd
        (1 ∷ 0x04 ∷ 0x01 ∷ 0x05 ∷ 0x00 ∷ 0x00 ∷ 0x00 ∷ 0x00 ∷ 0x00 ∷ [])
    ∷ []

pub handle_znp_init_ok :
    (text : List ℕ) (sent : List Frame) (pong version registered : Frame)
    (rest : List (Option Frame))
    → handle_znp_init ok text
        (record { sent = sent; answers = some pong ∷ some version ∷ some registered ∷ rest })
      ≡ (
        (ok, snprintf (version_text version.payload) text),
        record { sent = sent ++ init_requests; answers = rest },
      )
unfolding handle_znp_init after_reset ping get_version version_out af_register send send_sreq
    take_answer request
handle_znp_init_ok text sent pong version registered rest = simp append_assoc

pub load_set :
    (d : Defaults) (own cfg : NetConfig)
    → cfg.pan_id ≢ 0
    → cfg.channel ≢ 0
    → key_set cfg.nwk_key ≡ true
    → load_net_config d own (some cfg) ≡ (cfg.pan_id, cfg.channel, cfg.nwk_key)
unfolding load_net_config
load_set d own cfg p c k = ground arith

-- What the coprocessor has and says during a pass: its network, with the bytes behind it in the
-- answers, its answers to the three commands of ZNP_INIT and to the requests behind them, and the
-- AREQ that tells of the start, with those before and behind it.
pub record Coprocessor : Type 0 where
  pub pan_id : ℕ
  pub channel : ℕ
  pub stale : List ℕ
  pub more : List ℕ
  pub pong : Frame
  pub version : Frame
  pub registered : Frame
  pub answers : Answers
  pub before : List Frame
  pub start_areq : Frame
  pub rest : List Frame

abbrev pub nv_script : Coprocessor → List (Option Frame)
nv_script p =
    some (nv_answer (low_byte p.pan_id ∷ high_byte p.pan_id ∷ []) p.stale)
    ∷ some (nv_answer (mask_bytes (2 ^ p.channel % 2 ^ 32)) p.more)
    ∷ answers_of p.answers

abbrev pub script : Coprocessor → List (Option Frame)
script p = some p.pong ∷ some p.version ∷ some p.registered ∷ nv_script p

-- A pass in which the reset succeeds; no turn of READY is looked at.
abbrev pub pass_of : Coprocessor → Pass
pass_of p = record { reset = ok; areqs = p.before ++ p.start_areq ∷ p.rest; turns = [] }

-- Its network is one that the hub forms, it accepts writes, and it tells of its start.
pub record Cooperates (p : Coprocessor) : Type 0 where
  pub pan_small : p.pan_id < 2 ^ 16
  pub channel_low : 11 ≤ p.channel
  pub channel_high : p.channel ≤ 26
  pub accepts : AllAccepted p.answers
  pub others : All (λ x. started x ≡ false) p.before
  pub starts : started p.start_areq ≡ true
  pub version_bytes : All IsByte p.version.payload

-- A configuration with a PAN id, a channel and a key.
pub record IsComplete (cfg : NetConfig) : Type 0 where
  pub pan_set : cfg.pan_id ≢ 0
  pub channel_set : cfg.channel ≢ 0
  pub key_there : key_set cfg.nwk_key ≡ true
  pub key_size : length cfg.nwk_key ≡ 16
