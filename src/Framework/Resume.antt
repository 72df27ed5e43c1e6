-- ===== src/Framework/Resume.antt =====
-- Bringing up a network that the coprocessor already has.
use zigbee_hub.Base.{
  ℕ, ◌%◌, ◌^◌, ◌≤◌, ◌<◌, ◌≡◌, refl, arith, true, false, List, [], ◌∷◌, ◌++◌, Option, some, ◌==◌, ok,
  not_finished, All,
}
use zigbee_hub.Znp.Mt.{
  subsys_sys, subsys_zdo, sys_osal_nv_read_cmd, zdo_startup_from_app_cmd, nv_panid, nv_chanlist,
}
use zigbee_hub.Base.Words.{low_byte, high_byte, le16-bytes}
use zigbee_hub.Znp.Frame.{Frame, request, make_cmd_type, frame_type_sreq}
use zigbee_hub.Znp.Session.{send_sreq, take_answer}
use zigbee_hub.Network.{check_nv_state, read_nv, nv_read, judge, send, startup_and_wait, mask_bytes}
use zigbee_hub.Network.Formation.{
  nv_answer, scan_channels-mask_bytes, started, await_coordinator_drops,
}
use zigbee_hub.Framework.{forming}
use zigbee_hub.Storage.{NetConfig}
use zigbee_hub.Framework.Bringup.{Defaults, load_net_config, bring_up}

abbrev pub nv_read_request : ℕ → ℕ → Frame
nv_read_request id len =
    request (make_cmd_type subsys_sys frame_type_sreq) sys_osal_nv_read_cmd
      (low_byte id ∷ high_byte id ∷ 0 ∷ len ∷ [])

abbrev pub startup_request : Frame
startup_request =
    request (make_cmd_type subsys_zdo frame_type_sreq) zdo_startup_from_app_cmd (0 ∷ 0 ∷ [])

check_nv_state_resume :
    (pan_id channel : ℕ) (stale more : List ℕ) (sent : List Frame) (rest : List (Option Frame))
    → pan_id < 2 ^ 16
    → 11 ≤ channel
    → channel ≤ 26
    → check_nv_state pan_id channel (record {
      sent = sent;
      answers =
          some (nv_answer (low_byte pan_id ∷ high_byte pan_id ∷ []) stale)
          ∷ some (nv_answer (mask_bytes (2 ^ channel % 2 ^ 32)) more)
          ∷ rest;
    })
      ≡ (
        not_finished,
        record {
          sent = sent ++ nv_read_request nv_panid 2 ∷ [] ++ nv_read_request nv_chanlist 4 ∷ [];
          answers = rest;
        },
      )
unfolding check_nv_state read_nv send send_sreq take_answer request nv_read judge
check_nv_state_resume pan_id channel stale more sent rest small low high =
    rw (le16-bytes pan_id small, scan_channels-mask_bytes channel low high)
      (let p : pan_id == pan_id ≡ true = ground arith in
        let c : channel == channel ≡ true = ground arith in rw (p, c) refl)

pub startup_and_wait_ok :
    (resp areq : Frame) (before rest sent : List Frame)
    → All (λ a. started a ≡ false) before
    → started areq ≡ true
    → startup_and_wait (before ++ areq ∷ rest) (record { sent = sent; answers = some resp ∷ [] })
      ≡ ((ok, rest), record { sent = sent ++ startup_request ∷ []; answers = [] })
unfolding startup_and_wait send send_sreq take_answer request
startup_and_wait_ok resp areq before rest sent others at =
    rw (await_coordinator_drops before rest areq others at).0 refl

-- If the coprocessor has the network that the configuration asks for, answers, and tells of its
-- start in time, then the network comes up by two NV reads and the start command alone: nothing is
-- written to the NV memory, no configuration is saved, and the AREQs behind the one that told of
-- the start still wait.
pub bring_up_resumes :
    (d : Defaults) (cfg : NetConfig) (stored : Option NetConfig) (pan_id channel : ℕ)
    (nwk_key stale more : List ℕ) (resp areq : Frame) (before rest sent : List Frame)
    → load_net_config d cfg stored ≡ (pan_id, channel, nwk_key)
    → pan_id < 2 ^ 16
    → 11 ≤ channel
    → channel ≤ 26
    → All (λ a. started a ≡ false) before
    → started areq ≡ true
    → bring_up d cfg stored (before ++ areq ∷ rest) (record {
      sent = sent;
      answers =
          some (nv_answer (low_byte pan_id ∷ high_byte pan_id ∷ []) stale)
          ∷ some (nv_answer (mask_bytes (2 ^ channel % 2 ^ 32)) more)
          ∷ some resp
          ∷ [];
    })
      ≡ record {
        status = ok;
        state = forming;
        session = record {
          sent =
              sent
              ++ nv_read_request nv_panid 2 ∷ []
              ++ nv_read_request nv_chanlist 4 ∷ []
              ++ startup_request ∷ [];
          answers = [];
        };
        areqs = rest;
        saved = [];
      }
unfolding bring_up
bring_up_resumes d cfg stored pan_id channel nwk_key stale more resp areq before rest sent e small
      low high others at =
    let checked =
      check_nv_state_resume pan_id channel stale more sent (some resp ∷ []) small low high in
    rw (e, checked, startup_and_wait_ok resp areq before rest _ others at) refl
