-- ===== src/Framework/Orders.antt =====
-- From a call of the API to what READY makes of it (zb_framework.c).
use zigbee_hub.Base.{
  ℕ, ◌≤◌, ◌<◌, ◌≡◌, ◌≢◌, refl, ap, ◌∙◌, ◌⊎◌, inl, inr, arith, true, false, List, [], ◌∷◌, ◌++◌,
  Option, some, length, EspErr, ok,
}
use zigbee_hub.Storage.{NetConfig}
use zigbee_hub.Storage.Config.{IsConfig}
use zigbee_hub.Znp.Frame.{Frame}
use zigbee_hub.Command.{
  Cmd, change_channel, reconfigure, cmd_change_channel, cmd_reconfigure, cmd_reconfigure_room,
  cmd_change_channel_lem, cmd_queue_depth,
}
use zigbee_hub.Framework.{ready}
use zigbee_hub.Framework.Ready.{
  ConfigStore, World, process_cmd, store_channel, turn, lose, zero_config,
}
use zigbee_hub.Framework.Api.{is_ready, network_param_set}
use zigbee_hub.Framework.Restart.{restarts, any_restarts, drain-last, turn_eq}

-- What the framework relies on: a configuration that was saved with success is loaded, whatever the
-- struct that is loaded into holds.
pub record IsConfigStore {S : Type 0} (C : ConfigStore S) : Type 0 where
  pub load_saved :
      (s : S) (cfg out : NetConfig)
      → IsConfig cfg
      → length out.nwk_key ≡ 16
      → (C.save cfg s).0 ≡ ok
      → C.load (C.save cfg s).1 out ≡ (ok, cfg)

-- With this queue, the next turn ends READY, with the window closed, and leaves this store.
abbrev pub EndsReady :
    {S : Type 0} → ConfigStore S → ℕ → Option Frame → World S → (S → Type 0) → Type 0
EndsReady {S = S} C now areq w P =
    (w' : World S) × (turn C now areq w ≡ some (true, w')) × (w'.deadline ≡ 0) × P w'.store

pub channel-IsConfig :
    (ch : ℕ) (cfg : NetConfig)
    → 11 ≤ ch
    → ch ≤ 26
    → IsConfig cfg
    → IsConfig (record cfg { channel = ch })
channel-IsConfig ch cfg low high v = record {
  pan_fits = v.pan_fits;
  channel_fits = omega arith;
  baud_fits = v.baud_fits;
  key_size = v.key_size;
  key_bytes = v.key_bytes;
}

module _ {S : Type 0} (C : ConfigStore S) (L : IsConfigStore C) where
  -- The command at the end of the queue is executed by the next turn.
  turn-last :
      (now : ℕ) (areq : Option Frame) (q : List Cmd) (c : Cmd) (w : World S)
      → w.commands ≡ some (q ++ c ∷ [])
      → any_restarts q ≡ false
      → restarts c ≡ true
      → (before : World S) × (turn C now areq w
          ≡ some (true, lose C (process_cmd C now c before).1))
        × (before.store ≡ w.store)
  turn-last now areq q c w e n y =
      let (before, d, s) = drain-last C now q c w n y in
      (before, turn_eq C now areq (q ++ c ∷ []) w e ∙ rw d refl, s)

  stored :
      (now ch : ℕ) (before : World S) (s : S) (cfg : NetConfig)
      → before.store ≡ s
      → C.load s zero_config ≡ (ok, cfg)
      → (lose C (process_cmd C now (change_channel ch) before).1).store
        ≡ (C.save (record cfg { channel = ch }) s).1
  unfolding lose process_cmd store_channel
  stored now ch before s cfg e l =
      ap (λ (st : S). (C.save (record (C.load st zero_config).1 { channel = ch }) st).1) e
      ∙ ap (λ (r : EspErr × NetConfig). (C.save (record r.1 { channel = ch }) s).1) l

  stored_reconfigure :
      (now : ℕ) (before : World S)
      → (lose C (process_cmd C now reconfigure before).1).store ≡ before.store
  unfolding lose process_cmd
  stored_reconfigure now before = refl

  -- A channel change that was accepted behind commands that do not end READY is carried out by the
  -- next turn, whatever AREQ comes: if the configuration can be loaded and saved, the one that is
  -- loaded from then on is that with the new channel, its other fields as they were; the turn ends
  -- READY with the window closed.
  pub cmd_change_channel-turn :
      (now ch : ℕ) (areq : Option Frame) (q : List Cmd) (w : World S) (cfg out : NetConfig)
      → w.commands ≡ some q
      → (cmd_change_channel ch (some q)).0 ≡ ok
      → any_restarts q ≡ false
      → C.load w.store zero_config ≡ (ok, cfg)
      → IsConfig cfg
      → length out.nwk_key ≡ 16
      → (C.save (record cfg { channel = ch }) w.store).0 ≡ ok
      → EndsReady C now areq
          (record w { commands = (cmd_change_channel ch w.commands).1 })
          (λ s. C.load s out ≡ (ok, record cfg { channel = ch }))
  cmd_change_channel-turn now ch areq q w cfg out e acc n l v size sv =
      elim (cmd_change_channel_lem ch q) [
        | inr (refused, why, same) ↦ absurd (refused acc)
        | inl (fine, low, high, room, put) ↦
            let queued : World S = record w { commands = (cmd_change_channel ch w.commands).1 } in
            let waits : queued.commands ≡ some (q ++ change_channel ch ∷ []) =
              ap (λ c. (cmd_change_channel ch c).1) e ∙ put in
            let (before, t, s) = turn-last now areq q (change_channel ch) queued waits n refl in
            (
              lose C (process_cmd C now (change_channel ch) before).1,
              t,
              unfold lose in refl,
              ap (λ st. C.load st out) (stored now ch before w.store cfg s l)
                  ∙ L.load_saved w.store (record cfg { channel = ch }) out
                      (channel-IsConfig ch cfg low high v) size sv,
            )
      ]

  param_set_changed :
      (q : List Cmd) (w : World S) (cfg : NetConfig)
      → w.commands ≡ some q
      → length q < cmd_queue_depth
      → w.state ≡ ready
      → (cfg.pan_id ≢ w.active_pan_id) ⊎ (cfg.channel ≢ w.active_channel)
      → (C.save cfg w.store).0 ≡ ok
      → network_param_set C (some cfg) w
        ≡ (ok, record w { store = (C.save cfg w.store).1; commands = some (q ++ reconfigure ∷ []) })
  unfolding network_param_set
  param_set_changed q w cfg e room st ch sv =
      let queued : cmd_reconfigure w.commands ≡ (ok, some (q ++ reconfigure ∷ [])) =
        ap cmd_reconfigure e ∙ cmd_reconfigure_room q room in
      let is_up : is_ready w.state ≡ true = ap is_ready st in ground (arith, queued, is_up)

  -- Parameters of which the PAN id or the channel differs from the active one, set in READY with
  -- room in the queue and saved with success, are in the store from then on, and the next turn ends
  -- READY, whatever AREQ comes, if no command before does.
  pub network_param_set-turn :
      (now : ℕ) (areq : Option Frame) (q : List Cmd) (w : World S) (cfg out : NetConfig)
      → w.commands ≡ some q
      → length q < cmd_queue_depth
      → any_restarts q ≡ false
      → w.state ≡ ready
      → (cfg.pan_id ≢ w.active_pan_id) ⊎ (cfg.channel ≢ w.active_channel)
      → IsConfig cfg
      → length out.nwk_key ≡ 16
      → (C.save cfg w.store).0 ≡ ok
      → ((network_param_set C (some cfg) w).0 ≡ ok)
        × EndsReady C now areq (network_param_set C (some cfg) w).1 (λ s. C.load s out ≡ (ok, cfg))
  network_param_set-turn now areq q w cfg out e room n st ch v size sv =
      let after : World S = record w {
        store = (C.save cfg w.store).1;
        commands = some (q ++ reconfigure ∷ []);
      } in
      let set : network_param_set C (some cfg) w ≡ (ok, after) =
        param_set_changed q w cfg e room st ch sv in
      let (before, t, s) = turn-last now areq q reconfigure after refl n refl in
      rw set (
        refl,
        (
          lose C (process_cmd C now reconfigure before).1,
          t,
          unfold lose in refl,
          ap (λ x. C.load x out) (stored_reconfigure now before ∙ s)
              ∙ L.load_saved w.store cfg out v size sv,
        ),
      )
