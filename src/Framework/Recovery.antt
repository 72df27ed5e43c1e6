-- ===== src/Framework/Recovery.antt =====
-- From a reset of the coprocessor in READY to READY on the same network (zb_framework.c).
use mathlib.Core.List.{append_assoc}
use zigbee_hub.Base.{
  ℕ, ◌%◌, ◌^◌, ◌≤◌, ◌<◌, ◌≡◌, refl, true, false, List, [], ◌∷◌, ◌++◌, Option, some, ok, All,
}
use zigbee_hub.Base.Strings.{snprintf}
use zigbee_hub.Base.Words.{low_byte, high_byte}
use zigbee_hub.Znp.Mt.{nv_panid, nv_chanlist}
use zigbee_hub.Znp.Frame.{Frame}
use zigbee_hub.Storage.{NetConfig}
use zigbee_hub.Network.{mask_bytes, version_text}
use zigbee_hub.Network.Formation.{nv_answer, started}
use zigbee_hub.Event.{emit}
use zigbee_hub.Framework.{ready, forming}
use zigbee_hub.Framework.Bringup.{Defaults, load_net_config}
use zigbee_hub.Framework.Ready.{
  ConfigStore, World, turn, drain, drain_queue, take_areq, is_reset_ind, lose, enter_ready,
  ready_event, lost_event,
}
use zigbee_hub.Framework.Task.{Pass, serving, pass, come_up, turns_of, stored_config, save_all}
use zigbee_hub.Framework.Coprocessor.{init_requests, handle_znp_init_ok}
use zigbee_hub.Framework.Resume.{nv_read_request, startup_request, bring_up_resumes}

-- What a coprocessor that has kept its network says during a pass: its answers to the commands of
-- ZNP_INIT, the bytes behind those of its network, its answer to the start, and the AREQs.
pub record Rejoining : Type 0 where
  pub pong : Frame
  pub version : Frame
  pub registered : Frame
  pub stale : List ℕ
  pub more : List ℕ
  pub resp : Frame
  pub before : List Frame
  pub start_areq : Frame
  pub rest : List Frame

abbrev kept_network : ℕ → ℕ → Rejoining → List (Option Frame)
kept_network pan_id channel p =
    some (nv_answer (low_byte pan_id ∷ high_byte pan_id ∷ []) p.stale)
    ∷ some (nv_answer (mask_bytes (2 ^ channel % 2 ^ 32)) p.more)
    ∷ some p.resp
    ∷ []

abbrev pub rejoin_script : ℕ → ℕ → Rejoining → List (Option Frame)
rejoin_script pan_id channel p =
    some p.pong ∷ some p.version ∷ some p.registered ∷ kept_network pan_id channel p

abbrev pub rejoin_pass : Rejoining → Pass
rejoin_pass p = record { reset = ok; areqs = p.before ++ p.start_areq ∷ p.rest; turns = [] }

abbrev pub resuming : List Frame
resuming = nv_read_request nv_panid 2 ∷ nv_read_request nv_chanlist 4 ∷ startup_request ∷ []

joined :
    (sent : List Frame)
    → sent
        ++ nv_read_request nv_panid 2 ∷ []
        ++ nv_read_request nv_chanlist 4 ∷ []
        ++ startup_request ∷ []
      ≡ sent ++ resuming
joined sent = simp append_assoc

module _ {S : Type 0} (C : ConfigStore S) (d : Defaults) (own : NetConfig) where
  -- The world after a pass that resumed a network.
  abbrev resumed : ℕ → ℕ → Rejoining → List Frame → World S → World S
  resumed pan_id channel p sent w = enter_ready C (record w {
    hub = record w.hub {
      session = record { sent = sent ++ init_requests ++ resuming; answers = [] };
    };
    state = forming;
    active_pan_id = pan_id;
    active_channel = channel;
    versions = record w.versions {
      cc26xx_fw = snprintf (version_text p.version.payload) w.versions.cc26xx_fw;
    };
  })

  pass_resumes :
      (pan_id channel : ℕ) (key : List ℕ) (p : Rejoining) (sent : List Frame) (w : World S)
      → w.hub.session ≡ record { sent = sent; answers = rejoin_script pan_id channel p }
      → load_net_config d own (stored_config C d own w.store) ≡ (pan_id, channel, key)
      → pan_id < 2 ^ 16
      → 11 ≤ channel
      → channel ≤ 26
      → All (λ a. started a ≡ false) p.before
      → started p.start_areq ≡ true
      → pass C d own (rejoin_pass p) w ≡ some (serving, resumed pan_id channel p sent w)
  unfolding pass come_up turns_of save_all enter_ready
  pass_resumes pan_id channel key p sent w at loaded small low high others starts =
      let init =
        handle_znp_init_ok w.versions.cc26xx_fw sent p.pong p.version p.registered
          (kept_network pan_id channel p) in
      let up =
        bring_up_resumes d own (stored_config C d own w.store) pan_id channel key p.stale p.more
          p.resp p.start_areq p.before p.rest (sent ++ init_requests) loaded small low high others
          starts in
      rw (at, init, loaded, up, joined (sent ++ init_requests)) refl

  turn_loses :
      (now : ℕ) (areq : Frame) (w : World S)
      → w.commands ≡ some []
      → is_reset_ind areq ≡ true
      → turn C now (some areq) w ≡ some (true, lose C (record w { commands = some [] }))
  unfolding turn drain_queue drain take_areq
  turn_loses now areq w idle y = rw (idle, y) refl

  -- READY on the network as it was, and only what the code says in between.
  abbrev pub Recovers : ℕ → ℕ → List Frame → World S → World S → Type 0
  Recovers pan_id channel sent w w' =
      (w'.state ≡ ready)
      × (w'.active_pan_id ≡ pan_id)
      × (w'.active_channel ≡ channel)
      × (w'.deadline ≡ 0)
      × (w'.store ≡ w.store)
      × (w'.hub.session.sent ≡ sent ++ init_requests ++ resuming)
      × (w'.hub.bus ≡ emit ready_event (emit lost_event w.hub.bus))
      × (w'.hub.devices ≡ w.hub.devices)

  -- A reset of the coprocessor in READY ends in READY on the network of the configuration. With no
  -- command waiting, and a coprocessor that comes out of reset with that network still in its NV
  -- memory, answers, and tells of its start in time: the turn that receives the reset indication
  -- ends READY, and the pass after it is in READY again. It has sent the three commands of
  -- ZNP_INIT, the two NV reads and the start command, so it has written nothing to the NV memory.
  -- The configuration store and the registry are as they were, the join window is closed, and
  -- subscribers are told that the network was lost, then that it is ready.
  pub pass-turn_resumes :
      (now pan_id channel : ℕ) (key : List ℕ) (areq : Frame) (p : Rejoining) (sent : List Frame)
      (w : World S)
      → w.commands ≡ some []
      → is_reset_ind areq ≡ true
      → w.hub.session ≡ record { sent = sent; answers = rejoin_script pan_id channel p }
      → load_net_config d own (stored_config C d own w.store) ≡ (pan_id, channel, key)
      → pan_id < 2 ^ 16
      → 11 ≤ channel
      → channel ≤ 26
      → All (λ a. started a ≡ false) p.before
      → started p.start_areq ≡ true
      → (w1 : World S) × (w2 : World S) × (turn C now (some areq) w ≡ some (true, w1))
        × (pass C d own (rejoin_pass p) w1 ≡ some (serving, w2))
        × Recovers pan_id channel sent w w2
  unfolding enter_ready lose
  pass-turn_resumes now pan_id channel key areq p sent w idle y at loaded small low high others
        starts =
      let w1 = lose C (record w { commands = some [] }) in
      (
        w1,
        resumed pan_id channel p sent w1,
        turn_loses now areq w idle y,
        pass_resumes pan_id channel key p sent w1 at loaded small low high others starts,
        (refl, refl, refl, refl, refl, refl, refl, refl),
      )
