-- ===== src/Framework/Reform.antt =====
-- Forming a network anew where the coprocessor has another one.
use mathlib.Core.List.{append_assoc}
use zigbee_hub.Base.{
  ℕ, ◌%◌, ◌^◌, ◌≤◌, ◌<◌, ◌≡◌, ◌≢◌, ◌⊎◌, refl, arith, true, false, ◌&&◌, List, [], ◌∷◌, ◌++◌, Option,
  some, ◌==◌, length, replicate, ok, not_found, All,
}
use zigbee_hub.Base.Words.{low_byte, high_byte, le16-bytes}
use zigbee_hub.Znp.Mt.{
  nv_panid, nv_chanlist, nv_precfgkey, nv_precfgkeys_en, nv_logical_type, device_type_coordinator,
}
use zigbee_hub.Znp.Frame.{Frame, request}
use zigbee_hub.Znp.Session.{send_sreq, take_answer}
use zigbee_hub.Storage.{NetConfig}
use zigbee_hub.Network.{check_nv_state, read_nv, nv_read, judge, send, mask_bytes}
use zigbee_hub.Network.Formation.{
  nv_answer, nv_write_request, scan_channels-mask_bytes, started, IsAccepted, write_nv_sent,
  form_network_lem,
}
use zigbee_hub.Framework.{forming}
use zigbee_hub.Framework.Bringup.{
  Defaults, load_net_config, saved_config, bring_up, handle_reconfiguring, handle_forming,
}
use zigbee_hub.Framework.Resume.{nv_read_request, startup_request, startup_and_wait_ok}

-- The desired network is not the one that the coprocessor has.
abbrev pub Differs : ℕ → ℕ → ℕ → ℕ → Type 0
Differs pan_id channel old_pan old_channel = (old_pan ≢ pan_id) ⊎ (old_channel ≢ channel)

check_nv_state_mismatch :
    (pan_id channel old_pan old_channel : ℕ) (stale more : List ℕ) (sent : List Frame)
    (rest : List (Option Frame))
    → old_pan < 2 ^ 16
    → 11 ≤ old_channel
    → old_channel ≤ 26
    → Differs pan_id channel old_pan old_channel
    → check_nv_state pan_id channel (record {
      sent = sent;
      answers =
          some (nv_answer (low_byte old_pan ∷ high_byte old_pan ∷ []) stale)
          ∷ some (nv_answer (mask_bytes (2 ^ old_channel % 2 ^ 32)) more)
          ∷ rest;
    })
      ≡ (
        not_found,
        record {
          sent = sent ++ nv_read_request nv_panid 2 ∷ [] ++ nv_read_request nv_chanlist 4 ∷ [];
          answers = rest;
        },
      )
unfolding check_nv_state read_nv send send_sreq take_answer request nv_read judge
check_nv_state_mismatch pan_id channel old_pan old_channel stale more sent rest small low high d =
    rw (le16-bytes old_pan small, scan_channels-mask_bytes old_channel low high)
      (let other : (old_pan == pan_id && old_channel == channel) ≡ false = ground arith in
        rw other refl)

-- The requests that clear the network of the coprocessor, and those that write another.
abbrev pub clearing : List Frame
clearing =
    nv_write_request nv_panid (replicate 2 0)
    ∷ nv_write_request nv_chanlist (replicate 4 0)
    ∷ nv_write_request nv_precfgkey (replicate 16 0)
    ∷ []

abbrev pub writing : ℕ → ℕ → List ℕ → List Frame
writing pan_id channel nwk_key =
    nv_write_request nv_logical_type (device_type_coordinator ∷ [])
    ∷ nv_write_request nv_panid (low_byte pan_id ∷ high_byte pan_id ∷ [])
    ∷ nv_write_request nv_chanlist (mask_bytes (2 ^ channel % 2 ^ 32))
    ∷ nv_write_request nv_precfgkeys_en (0x01 ∷ [])
    ∷ nv_write_request nv_precfgkey nwk_key
    ∷ []

-- All requests by which another network takes the place of the one that the coprocessor has.
abbrev pub reforming : ℕ → ℕ → List ℕ → List Frame
reforming pan_id channel nwk_key =
    nv_read_request nv_panid 2 ∷ nv_read_request nv_chanlist 4 ∷ clearing
    ++ (writing pan_id channel nwk_key ++ (startup_request ∷ []))

-- The answers of a coprocessor: to three writes, whatever they say, to five that it accepts, and to
-- the start.
pub record Answers : Type 0 where
  pub cleared_pan : Frame
  pub cleared_mask : Frame
  pub cleared_key : Frame
  pub role : Frame
  pub pan : Frame
  pub mask : Frame
  pub keys_on : Frame
  pub key : Frame
  pub start : Frame

pub record AllAccepted (a : Answers) : Type 0 where
  pub role_in : IsAccepted a.role
  pub pan_in : IsAccepted a.pan
  pub mask_in : IsAccepted a.mask
  pub keys_on_in : IsAccepted a.keys_on
  pub key_in : IsAccepted a.key

abbrev pub answers_of : Answers → List (Option Frame)
answers_of a =
    some a.cleared_pan
    ∷ some a.cleared_mask
    ∷ some a.cleared_key
    ∷ some a.role
    ∷ some a.pan
    ∷ some a.mask
    ∷ some a.keys_on
    ∷ some a.key
    ∷ some a.start
    ∷ []

handle_reconfiguring_ok :
    (cfg : NetConfig) (pan_id channel : ℕ) (nwk_key : List ℕ) (a : Answers) (areq : Frame)
    (before rest sent : List Frame)
    → length nwk_key ≡ 16
    → AllAccepted a
    → All (λ x. started x ≡ false) before
    → started areq ≡ true
    → handle_reconfiguring cfg pan_id channel nwk_key
        (before ++ areq ∷ rest)
        (record { sent = sent; answers = answers_of a })
      ≡ record {
        status = ok;
        state = forming;
        session = record {
          sent = sent ++ clearing ++ writing pan_id channel nwk_key ++ startup_request ∷ [];
          answers = [];
        };
        areqs = rest;
        saved = saved_config cfg pan_id channel nwk_key ∷ [];
      }
unfolding handle_reconfiguring handle_forming
handle_reconfiguring_ok cfg pan_id channel nwk_key a areq before rest sent size v others at =
    rw
      (
        write_nv_sent nv_panid (replicate 2 0) sent a.cleared_pan _ (omega arith),
        write_nv_sent nv_chanlist (replicate 4 0) _ a.cleared_mask _ (omega arith),
        write_nv_sent nv_precfgkey (replicate 16 0) _ a.cleared_key _ (omega arith),
        form_network_lem pan_id channel nwk_key _ a.role a.pan a.mask a.keys_on a.key
            (some a.start ∷ []) size v.role_in v.pan_in v.mask_in v.keys_on_in v.key_in,
        startup_and_wait_ok a.start areq before rest _ others at,
      )
      (simp append_assoc)

-- If the coprocessor has another network than the one that the configuration asks for, accepts the
-- five writes and tells of its start in time, then the network comes up anew: the old one is
-- cleared, the one asked for is written, started and saved.
pub bring_up_reforms :
    (d : Defaults) (cfg : NetConfig) (stored : Option NetConfig)
    (pan_id channel old_pan old_channel : ℕ) (nwk_key stale more : List ℕ) (a : Answers)
    (areq : Frame) (before rest sent : List Frame)
    → load_net_config d cfg stored ≡ (pan_id, channel, nwk_key)
    → length nwk_key ≡ 16
    → old_pan < 2 ^ 16
    → 11 ≤ old_channel
    → old_channel ≤ 26
    → Differs pan_id channel old_pan old_channel
    → AllAccepted a
    → All (λ x. started x ≡ false) before
    → started areq ≡ true
    → bring_up d cfg stored (before ++ areq ∷ rest) (record {
      sent = sent;
      answers =
          some (nv_answer (low_byte old_pan ∷ high_byte old_pan ∷ []) stale)
          ∷ some (nv_answer (mask_bytes (2 ^ old_channel % 2 ^ 32)) more)
          ∷ answers_of a;
    })
      ≡ record {
        status = ok;
        state = forming;
        session = record { sent = sent ++ reforming pan_id channel nwk_key; answers = [] };
        areqs = rest;
        saved = saved_config cfg pan_id channel nwk_key ∷ [];
      }
unfolding bring_up
bring_up_reforms d cfg stored pan_id channel old_pan old_channel nwk_key stale more a areq before
      rest sent e size small low high differs v others at =
    rw
      (
        e,
        check_nv_state_mismatch pan_id channel old_pan old_channel stale more sent (answers_of a)
            small low high differs,
        handle_reconfiguring_ok cfg pan_id channel nwk_key a areq before rest _ size v others at,
      )
      (simp append_assoc)
