-- ===== src/Framework/Rechannel.antt =====
-- From a channel change in READY to READY on the new channel (zb_framework.c).
use zigbee_hub.Base.{
  ℕ, ◌≡◌, ◌≢◌, refl, ap, ◌∙◌, inl, inr, arith, true, List, [], ◌∷◌, ◌++◌, Option, some, length, ok,
}
use zigbee_hub.Znp.Frame.{Frame}
use zigbee_hub.Storage.{NetConfig}
use zigbee_hub.Storage.Config.{IsConfig}
use zigbee_hub.Command.{change_channel, cmd_change_channel, cmd_change_channel_lem}
use zigbee_hub.Network.{version_text}
use zigbee_hub.Base.Strings.{snprintf, string_of}
use zigbee_hub.Framework.Versions.{string_of-version_text}
use zigbee_hub.Framework.{ready, forming}
use zigbee_hub.Framework.Bringup.{Defaults, key_set, saved_config}
use zigbee_hub.Framework.Ready.{
  ConfigStore, World, zero_config, turn, drain, drain_queue, process_cmd, store_channel, lose,
  enter_ready, ready_event, lost_event,
}
use zigbee_hub.Framework.Task.{serving, pass, come_up, turns_of, stored_config, save_all}
use zigbee_hub.Framework.Orders.{IsConfigStore, channel-IsConfig}
use zigbee_hub.Event.{emit}
use zigbee_hub.Framework.Reform.{reforming, bring_up_reforms, Differs}
use zigbee_hub.Framework.Coprocessor.{
  init_requests, handle_znp_init_ok, load_set, Coprocessor, nv_script, script, pass_of, Cooperates,
  IsComplete,
}

module _ {S : Type 0} (C : ConfigStore S) (d : Defaults) (own : NetConfig) where
  -- The world after a pass that formed the network of a configuration anew.
  abbrev pub formed_anew : NetConfig → List ℕ → List Frame → World S → World S
  formed_anew cfg version sent w = enter_ready C (record w {
    hub = record w.hub {
      session = record {
        sent = sent ++ init_requests ++ reforming cfg.pan_id cfg.channel cfg.nwk_key;
        answers = [];
      };
    };
    state = forming;
    store = (C.save (saved_config own cfg.pan_id cfg.channel cfg.nwk_key) w.store).1;
    active_pan_id = cfg.pan_id;
    active_channel = cfg.channel;
    versions = record w.versions {
      cc26xx_fw = snprintf (version_text version) w.versions.cc26xx_fw;
    };
  })

  pass_reforms :
      (cfg : NetConfig) (p : Coprocessor) (sent : List Frame) (w : World S)
      → w.hub.session ≡ record { sent = sent; answers = script p }
      → C.load w.store zero_config ≡ (ok, cfg)
      → IsComplete cfg
      → Cooperates p
      → Differs cfg.pan_id cfg.channel p.pan_id p.channel
      → pass C d own (pass_of p) w ≡ some (serving, formed_anew cfg p.version.payload sent w)
  unfolding pass come_up turns_of stored_config save_all enter_ready
  pass_reforms cfg p sent w at loaded set good differs =
      let init =
        handle_znp_init_ok w.versions.cc26xx_fw sent p.pong p.version p.registered (nv_script p) in
      let up =
        bring_up_reforms d own (some cfg) cfg.pan_id cfg.channel p.pan_id p.channel cfg.nwk_key
          p.stale p.more p.answers p.start_areq p.before p.rest (sent ++ init_requests)
          (load_set d own cfg set.pan_set set.channel_set set.key_there) set.key_size good.pan_small
          good.channel_low good.channel_high differs good.accepts good.others good.starts in
      rw (at, init, loaded, load_set d own cfg set.pan_set set.channel_set set.key_there, up) refl

  -- The world after the turn that carries out a channel change.
  abbrev pub moved : ℕ → NetConfig → World S → World S
  moved ch cfg w =
      lose C
        (record w { commands = some []; store = (C.save (record cfg { channel = ch }) w.store).1 })

  turn_moves :
      (now ch : ℕ) (areq : Option Frame) (cfg : NetConfig) (w : World S)
      → w.commands ≡ some (change_channel ch ∷ [])
      → C.load w.store zero_config ≡ (ok, cfg)
      → turn C now areq w ≡ some (true, moved ch cfg w)
  unfolding turn drain_queue drain process_cmd store_channel
  turn_moves now ch areq cfg w e loaded = rw (e, loaded) refl

  -- READY on the channel: what the framework shows, what was sent, and what is told.
  abbrev pub OnChannel : ℕ → NetConfig → Coprocessor → List Frame → World S → World S → Type 0
  OnChannel ch cfg p sent w w' =
      (w'.state ≡ ready)
      × (w'.active_channel ≡ ch)
      × (w'.active_pan_id ≡ cfg.pan_id)
      × (w'.hub.session.sent ≡ sent ++ init_requests ++ reforming cfg.pan_id ch cfg.nwk_key)
      × (w'.hub.bus ≡ emit ready_event (emit lost_event w.hub.bus))
      × (w'.hub.devices ≡ w.hub.devices)
      × (string_of w'.versions.cc26xx_fw ≡ version_text p.version.payload)

  -- A channel change takes the hub from READY to READY on the new channel. With no other command
  -- waiting, a stored configuration whose PAN id and key are set, saves that succeed, and a
  -- coprocessor that has a network on another channel, accepts the writes and starts in time: once
  -- zb_cmd_change_channel has accepted the channel, the next turn ends READY, and the pass after it
  -- is in READY on the new channel with the PAN id as it was. It has sent the three commands of
  -- ZNP_INIT, read and cleared the old network, written the new one and started it, and nothing
  -- else. Subscribers are told that the network was lost, then that it is ready; the registry is as
  -- it was, and the version text is, in full, that of the coprocessor's answer.
  pub cmd_change_channel-pass :
      IsConfigStore C
      → (now ch : ℕ) (areq : Option Frame) (cfg : NetConfig) (p : Coprocessor) (sent : List Frame)
        (w : World S)
      → w.commands ≡ some []
      → length w.versions.cc26xx_fw ≡ 64
      → (cmd_change_channel ch (some [])).0 ≡ ok
      → w.hub.session ≡ record { sent = sent; answers = script p }
      → C.load w.store zero_config ≡ (ok, cfg)
      → IsConfig cfg
      → cfg.pan_id ≢ 0
      → key_set cfg.nwk_key ≡ true
      → (C.save (record cfg { channel = ch }) w.store).0 ≡ ok
      → Cooperates p
      → p.channel ≢ ch
      → (w1 : World S) × (w2 : World S) × (turn C now areq
            (record w { commands = (cmd_change_channel ch w.commands).1 })
          ≡ some (true, w1))
        × (pass C d own (pass_of p) w1 ≡ some (serving, w2))
        × OnChannel ch cfg p sent w w2
  unfolding enter_ready lose
  cmd_change_channel-pass L now ch areq cfg p sent w idle array accepted at loaded v pan key saved
        good other =
      elim (cmd_change_channel_lem ch []) [
        | inr (refused, why, same) ↦ absurd (refused accepted)
        | inl (fine, low, high, room, put) ↦
            let new : NetConfig = record cfg { channel = ch } in
            let w1 = moved ch cfg w in
            let queued : World S = record w { commands = (cmd_change_channel ch w.commands).1 } in
            let waits : queued.commands ≡ some (change_channel ch ∷ []) =
              ap (λ c. (cmd_change_channel ch c).1) idle ∙ put in
            (
              w1,
              formed_anew new p.version.payload sent w1,
              turn_moves now ch areq cfg queued waits loaded,
              pass_reforms new p sent w1 at
                  (L.load_saved w.store new zero_config (channel-IsConfig ch cfg low high v) refl
                    saved)
                  (record {
                    pan_set = pan;
                    channel_set = omega arith;
                    key_there = key;
                    key_size = v.key_size;
                  })
                  good (inr other),
              (
                refl,
                refl,
                refl,
                refl,
                refl,
                refl,
                string_of-version_text p.version.payload w.versions.cc26xx_fw good.version_bytes
                    array,
              ),
            )
      ]
