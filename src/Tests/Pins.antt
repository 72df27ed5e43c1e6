-- ===== src/Tests/Pins.antt =====
-- An expander whose registers are four numbers, and the set-up of the transport on it.
use zigbee_hub.Base.{
  ℕ, ◌≡◌, ◌≢◌, ◌⊎◌, refl, arith, true, false, List, [], ◌∷◌, set, get_or, ok, invalid_state,
  get_or-set_ne,
}
use zigbee_hub.Znp.Frame.{Frame}
use zigbee_hub.Znp.Link.{Link, hunt_sof}
use zigbee_hub.Znp.Expander.{
  I2c, Pca, IsChip, is_high, set_bit, pulse_reset, pulse_reset_lem, with_bit, write_reg_verify,
}
use zigbee_hub.Znp.Setup.{TransportSetUp, transport_init, SetUpOutcome, transport_init_lem}

abbrev chip : I2c (List ℕ)
chip = record {
  transmit = λ reg val b. (ok, set b reg val);
  receive = λ reg b. ((ok, get_or b reg 0), b);
}

abbrev register : ℕ → List ℕ → ℕ
register reg b = get_or b reg 0

chip-IsChip : IsChip chip register
chip-IsChip = record {
  reads = λ reg b wr e. refl;
  keeps = λ reg other b wr. refl;
  writes_one = λ reg other val b wr ne. get_or-set_ne b reg other val 0 (λ e. ground arith);
}

abbrev idle : Pca (List ℕ)
idle = record { bus = 0 ∷ 0xFF ∷ 0 ∷ 0xF3 ∷ []; output = 0xFF }

released : (set_bit chip 2 true (set_bit chip 2 false (set_bit chip 3 true idle).1).1).0 ≡ ok
unfolding set_bit with_bit write_reg_verify
released = refl

pulse_reset_lem_example :
    (is_high 2 (pulse_reset chip 3 2 idle).output ≡ true)
    × (is_high 2 (set_bit chip 2 false (set_bit chip 3 true idle).1).1.output ≡ false)
    × (((set_bit chip 2 true (set_bit chip 2 false (set_bit chip 3 true idle).1).1).0 ≢ ok)
        ⊎ (register 1 (pulse_reset chip 3 2 idle).bus ≡ (pulse_reset chip 3 2 idle).output))
pulse_reset_lem_example =
    pulse_reset_lem chip register chip-IsChip 3 2 2 idle (omega arith) (omega arith) (omega arith)
      (omega arith)

abbrev all_fine : TransportSetUp
all_fine = record {
  install = ok;
  param = ok;
  set_pin = ok;
  pca = record { wired = true; gpio = ok; new_bus = ok; add_device = ok };
  queues = true;
  rx_task = true;
  dispatch_task = true;
}

abbrev no_frame : Frame
no_frame = record { cmd_type = 0; cmd_id = 0; payload = []; payload_len = 0 }

abbrev fresh : Link
fresh = record {
  initialized = false;
  rx_state = hunt_sof;
  rx_frame = no_frame;
  payload_idx = 0;
  raw_queue = [];
  areq_queue = [];
  pending_cmd_type = 0;
  pending_cmd_id = 0;
  srsp_sem = false;
  srsp_frame = no_frame;
  reset_ind_sem = false;
  error_count = 0;
}

transport_init_lem_example :
    SetUpOutcome chip register chip-IsChip 2 3 (transport_init chip 2 3 all_fine fresh idle)
    × (transport_init chip 2 3 all_fine (record fresh { initialized = true }) idle
        ≡ (invalid_state, record fresh { initialized = true }, idle))
transport_init_lem_example =
    transport_init_lem chip register chip-IsChip 2 3 all_fine all_fine fresh
      (record fresh { initialized = true }) idle idle refl refl
