-- ===== src/Tests/Coordinator.antt =====
-- The button, and what the coprocessor says.
use zigbee_hub.Base.{◌≡◌, refl, true, false, [], ◌∷◌, arith}
use zigbee_hub.Event.{Bus, single, emit}
use zigbee_hub.Button.Task.{
  button_task, button_round, button_event, emit_button, read_pressed, click, button_task-click,
}
use zigbee_hub.Znp.Frame.{Frame}
use zigbee_hub.Button.{Button, idle, Windows, poll}
use zigbee_hub.Framework.Bringup.{Defaults}

abbrev windows : Windows
windows = record { debounce_ticks = 20; long_press_ticks = 1500; multi_press_ticks = 400 }

abbrev no_rows : Bus
no_rows = record { table = []; notify_queue = [] }

abbrev resting : Button
resting = record { state = idle; state_enter = 0; press_count = 0; long_fired = false }

-- The pin is active low; the task has polled before.
button_task-click_example :
    button_task true windows
      (click true windows 100 130 300 330 740
        (110 ∷ 115 ∷ [])
        (140 ∷ 200 ∷ [])
        (310 ∷ [])
        (340 ∷ 700 ∷ []))
      (resting, no_rows)
    ≡ (
      record { state = idle; state_enter = 330; press_count = 0; long_fired = false },
      emit (button_event single) no_rows,
    )
button_task-click_example =
    button_task-click true windows resting no_rows 100 130 300 330 740 (110 ∷ 115 ∷ [])
      (140 ∷ 200 ∷ []) (310 ∷ []) (340 ∷ 700 ∷ []) refl refl (omega arith) (ground arith)
      (omega arith) (ground arith) (omega arith) (omega arith) (ground arith) (omega arith)
      (ground arith) (omega arith)

-- The level of the pin that the driver gives decides.
button_task_emits :
    (button_task false windows
      (record { now = 100; level = 1 }
        ∷ record { now = 130; level = 1 }
        ∷ record { now = 300; level = 0 }
        ∷ record { now = 330; level = 0 }
        ∷ record { now = 740; level = 0 }
        ∷ [])
      (resting, no_rows)).1
    ≡ record { table = []; notify_queue = button_event single ∷ [] }
unfolding button_task button_round poll read_pressed emit_button emit
button_task_emits = refl

abbrev pub accepting : Frame
accepting = record { cmd_type = 0x61; cmd_id = 0x09; payload = 0x00 ∷ []; payload_len = 1 }

abbrev pub announced : Frame
announced = record { cmd_type = 0x45; cmd_id = 0xC1; payload = 1 ∷ 2 ∷ []; payload_len = 2 }

abbrev pub coordinator_up : Frame
coordinator_up = record { cmd_type = 0x45; cmd_id = 0xC0; payload = 0x09 ∷ []; payload_len = 1 }

abbrev pub factory : Defaults
factory = record { default_pan_id = 0x1111; default_channel = 15 }
