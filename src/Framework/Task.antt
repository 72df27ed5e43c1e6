-- ===== src/Framework/Task.antt =====
-- components/zb_framework/zb_framework.c: `framework_task`, round by round. A round takes what its
-- environment does from a list.
use zigbee_hub.Base.{
  ℕ, Bool, true, false, List, [], ◌∷◌, Option, none, some, if◌then◌else◌, EspErr, ok, is_ok,
}
use zigbee_hub.Storage.{NetConfig}
use zigbee_hub.Znp.Frame.{Frame}
use zigbee_hub.Znp.Session.{Session}
use zigbee_hub.Command.{Commands}
use zigbee_hub.Network.{ping, get_version, af_register}
use zigbee_hub.Framework.{znp_init, Round, init_failed, bring_up_failed, served, count_retry}
use zigbee_hub.Framework.Bringup.{Defaults, load_net_config, bring_up}
use zigbee_hub.Framework.Ready.{ConfigStore, World, zero_config, enter_ready, turn}

-- The rest of `handle_znp_init` after the reset; only the ping is needed.
unfoldable pub after_reset : List ℕ → Session → (EspErr × List ℕ) × Session
after_reset text s =
    let (e, s1) = ping s in
    let ((err, text'), s2) = get_version text s1 in
    if is_ok e then ((ok, text'), (af_register 1 s2).1) else ((e, text), s1)

-- `handle_znp_init`, with the answer of znp_transport_reset_coprocessor and the array for the
-- version of the coprocessor.
unfoldable pub handle_znp_init : EspErr → List ℕ → Session → (EspErr × List ℕ) × Session
handle_znp_init ok text s = after_reset text s
handle_znp_init e text s = ((e, text), s)

-- A pass through the loop of `handle_ready`: the tick count, the commands that other tasks have
-- queued since, and the AREQ that is received.
pub record Turn : Type 0 where
  pub now : ℕ
  pub queued : Commands → Commands
  pub areq : Option Frame

-- A pass through the loop of `framework_task`.
pub record Pass : Type 0 where
  pub reset : EspErr
  pub areqs : List Frame
  pub turns : List Turn

-- How a pass ends; `serving` is a task that is still in `handle_ready`.
pub data Progress : Type 0 where
  serving : Progress
  over : Round → Progress

module _ {S : Type 0} where
  abbrev pub with_session : Session → World S → World S
  with_session s w = record w { hub = record w.hub { session = s } }

  abbrev pub started_init : List ℕ → World S → World S
  started_init text w = record w {
    state = znp_init;
    versions = record w.versions { cc26xx_fw = text };
  }

  abbrev pub serve : Option (Bool × World S) → Option (Progress × World S)
  serve none = none
  serve (some (again, w)) = some (if again then over served else serving, w)

  abbrev pub after_round : Round → ℕ → (ℕ → Option (World S)) → World S → Option (World S)
  after_round r retry more w =
      let (retry', suspended) = count_retry r retry in
      let later = more retry' in if suspended then some w else later

module _ {S : Type 0} (C : ConfigStore S) (d : Defaults) (cfg : NetConfig) where
  -- `handle_ready` without its entry: whether it returns to start again within these turns.
  unfoldable pub turns_of : List Turn → World S → Option (Bool × World S)
  turns_of [] w = some (false, w)
  turns_of (t ∷ ts) w = elim (turn C t.now t.areq (record w { commands = t.queued w.commands })) [
    | none ↦ none
    | some (again, w') ↦ if again then some (true, w') else turns_of ts w'
  ]

  -- What `load_net_config` finds in the store.
  unfoldable pub stored_config : S → Option NetConfig
  stored_config s = let (e, found) = C.load s zero_config in if is_ok e then some found else none

  -- The results of the saves are not looked at.
  unfoldable pub save_all : List NetConfig → S → S
  save_all [] s = s
  save_all (c ∷ cs) s = save_all cs (C.save c s).1

  -- From NETWORK_CHECK to FORMING or RECONFIGURING.
  unfoldable pub come_up : List Frame → World S → EspErr × World S
  come_up areqs w =
      let stored = stored_config w.store in
      let (pan_id, channel, key) = load_net_config d cfg stored in
      let out = bring_up d cfg stored areqs w.hub.session in
      (
        out.status,
        record (with_session out.session w) {
          state = out.state;
          store = save_all out.saved w.store;
          active_pan_id = pan_id;
          active_channel = channel;
        },
      )

  abbrev pub up : List Turn → EspErr × World S → Option (Progress × World S)
  up ts (e, w) =
      let served_now = serve (turns_of ts (enter_ready C w)) in
      if is_ok e then served_now else some (over bring_up_failed, w)

  -- A round of `framework_task`; `none` is a read behind an array in the device manager.
  unfoldable pub pass : Pass → World S → Option (Progress × World S)
  pass p w =
      let ((e, text), s) = handle_znp_init p.reset w.versions.cc26xx_fw w.hub.session in
      let w' = with_session s (started_init text w) in
      let rest = up p.turns (come_up p.areqs w') in
      if is_ok e then rest else some (over init_failed, w')

  -- `framework_task` from a value of `retry` on: the world when it is suspended, when it is still
  -- ready, or when the passes have run out.
  unfoldable pub task : List Pass → ℕ → World S → Option (World S)
  task [] retry w = some w
  task (p ∷ ps) retry w = elim (pass p w) [
    | none ↦ none
    | some (serving, w') ↦ some w'
    | some (over r, w') ↦ after_round r retry (λ k. task ps k w') w'
  ]
