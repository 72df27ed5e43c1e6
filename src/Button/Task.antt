-- ===== src/Button/Task.antt =====
-- components/zb_button/zb_button.c: the pin, the events that `button_task` emits, and the set-up.
-- What the GPIO driver and FreeRTOS answer is an argument.
use zigbee_hub.Base.{
  ℕ, ◌+◌, ◌^◌, ◌≤◌, ◌<◌, ◌≡◌, refl, ap, ◌∙◌, arith, Bool, true, false, List, [], ◌∷◌, ◌++◌, ◌==◌,
  if◌then◌else◌, map, EspErr, ok, no_mem,
}
use zigbee_hub.Event.{Bus, Event, ButtonKind, single, button, emit, event_button}
use zigbee_hub.Base.{All}
use zigbee_hub.Button.{
  debounce_press, held, debounce_release, inter_press, Button, Windows, idle, Sample, poll, at_tick,
  press_begins, press_stays, press_taken, held_stays, release_begins, release_stays, release_taken,
  count_stays, count_reported,
}

-- `read_pressed`, with `CONFIG_ZB_BUTTON_ACTIVE_LOW`.
unfoldable pub read_pressed : Bool → ℕ → Bool
read_pressed active_low level = if active_low then level == 0 else level == 1

abbrev pub button_event : ButtonKind → Event
button_event kind = record { type = event_button; payload = button kind }

unfoldable pub emit_button : ButtonKind → Bus → Bus
emit_button kind b = emit (button_event kind) b

abbrev emit_all : List ButtonKind → Bus → Bus
emit_all [] b = b
emit_all (kind ∷ kinds) b = emit_all kinds (emit_button kind b)

-- The tick count and the level of the pin at a round.
pub record Reading : Type 0 where
  pub now : ℕ
  pub level : ℕ

module _ (active_low : Bool) (w : Windows) where
  abbrev sample : Reading → Sample
  sample r = at_tick r.now (read_pressed active_low r.level)

  -- A round of the loop of `button_task`, on its locals and the bus.
  unfoldable pub button_round : Reading → Button × Bus → Button × Bus
  button_round r (b, bus) = let (b', kinds) = poll w b (sample r) in (b', emit_all kinds bus)

  unfoldable pub button_task : List Reading → Button × Bus → Button × Bus
  button_task [] s = s
  button_task (r ∷ rs) s = button_task rs (button_round r s)

-- The level of a pin that is pressed, and of one that is not.
abbrev pub level_of : Bool → Bool → ℕ
level_of true true = 0
level_of true false = 1
level_of false true = 1
level_of false false = 0

read_pressed-level_of :
    (active_low pressed : Bool) → read_pressed active_low (level_of active_low pressed) ≡ pressed
unfolding read_pressed
read_pressed-level_of true true = refl
read_pressed-level_of true false = refl
read_pressed-level_of false true = refl
read_pressed-level_of false false = refl

abbrev pub reading : Bool → ℕ → Bool → Reading
reading active_low now pressed = record { now = now; level = level_of active_low pressed }

-- The readings of one level at these ticks.
abbrev pub readings : Bool → Bool → List ℕ → List Reading
readings active_low pressed ts = map (λ t. reading active_low t pressed) ts

abbrev pub Within : ℕ → ℕ → List ℕ → Type 0
Within from until ts = All (λ t. (from ≤ t) × (t < until)) ts

module _ (active_low : Bool) (w : Windows) where
  after_poll : Bus → Button × List ButtonKind → Button × Bus
  after_poll bus (b, kinds) = (b, emit_all kinds bus)

  round_lem :
      (pressed : Bool) (t : ℕ) (b b' : Button) (kinds : List ButtonKind) (bus : Bus)
      → poll w b (at_tick t pressed) ≡ (b', kinds)
      → button_round active_low w (reading active_low t pressed) (b, bus) ≡ (b', emit_all kinds bus)
  unfolding button_round after_poll
  round_lem pressed t b b' kinds bus e =
      ap (λ x. after_poll bus (poll w b (at_tick t x))) (read_pressed-level_of active_low pressed)
      ∙ ap (after_poll bus) e

  one_round :
      (pressed : Bool) (t : ℕ) (rest : List Reading) (b b' : Button) (kinds : List ButtonKind)
      (bus : Bus)
      → poll w b (at_tick t pressed) ≡ (b', kinds)
      → button_task active_low w (reading active_low t pressed ∷ rest) (b, bus)
        ≡ button_task active_low w rest (b', emit_all kinds bus)
  unfolding button_task
  one_round pressed t rest b b' kinds bus e =
      ap (button_task active_low w rest) (round_lem pressed t b b' kinds bus e)

  -- Rounds that change nothing.
  rounds_stay :
      (pressed : Bool) (from until : ℕ) (ts : List ℕ) (rest : List Reading) (b : Button) (bus : Bus)
      → ((t : ℕ) → (from ≤ t) × (t < until) → poll w b (at_tick t pressed) ≡ (b, []))
      → Within from until ts
      → button_task active_low w (readings active_low pressed ts ++ rest) (b, bus)
        ≡ button_task active_low w rest (b, bus)
  rounds_stay pressed from until [] rest b bus stays a = refl
  rounds_stay pressed from until (t ∷ ts) rest b bus stays a =
      one_round pressed t (readings active_low pressed ts ++ rest) b b [] bus (stays t a.0)
      ∙ rounds_stay pressed from until ts rest b bus stays a.1

  -- The readings of a click, as often as the task polls in each phase.
  abbrev pub click : ℕ → ℕ → ℕ → ℕ → ℕ → List ℕ → List ℕ → List ℕ → List ℕ → List Reading
  click t0 t1 t2 t3 t4 pressing holding releasing waiting =
      reading active_low t0 true
      ∷ (readings active_low true pressing
          ++ (reading active_low t1 true
              ∷ (readings active_low true holding
                  ++ (reading active_low t2 false
                      ∷ (readings active_low false releasing
                          ++ (reading active_low t3 false
                              ∷ (readings active_low false waiting
                                  ++ (reading active_low t4 false ∷ []))))))))

  -- A click at the pin, active low or high, however often the task polls during it: the press is
  -- seen at t0 and on until the debounce window has passed at t1, held for less than the long
  -- window, released at t2 and on until the debounce window has passed at t3, and left alone until
  -- the multi-press window has passed at t4. It emits one event, a single press, and leaves the
  -- button idle with no press counted.
  pub button_task-click :
      (b : Button) (bus : Bus) (t0 t1 t2 t3 t4 : ℕ) (pressing holding releasing waiting : List ℕ)
      → b.state ≡ idle
      → b.press_count ≡ 0
      → t4 < 2 ^ 32
      → Within t0 (t0 + w.debounce_ticks) pressing
      → t0 + w.debounce_ticks ≤ t1
      → Within t1 t2 holding
      → t1 ≤ t2
      → t2 < t1 + w.long_press_ticks
      → Within t2 (t2 + w.debounce_ticks) releasing
      → t2 + w.debounce_ticks ≤ t3
      → Within t3 (t3 + w.multi_press_ticks) waiting
      → t3 + w.multi_press_ticks ≤ t4
      → button_task active_low w (click t0 t1 t2 t3 t4 pressing holding releasing waiting) (b, bus)
        ≡ (
          record { state = idle; state_enter = t3; press_count = 0; long_fired = false },
          emit (button_event single) bus,
        )
  unfolding button_task emit_button
  button_task-click b bus t0 t1 t2 t3 t4 pressing holding releasing waiting i c range w0 d0 w1 d1 d2
        w2 d3 w3 d4 =
      let b0 : Button = record b { state = debounce_press; state_enter = t0 } in
      let b1 : Button = record b { state = held; state_enter = t1; long_fired = false } in
      let b2 : Button = record b1 { state = debounce_release; state_enter = t2 } in
      let b3 : Button = record b2 {
        press_count = b.press_count + 1;
        state = inter_press;
        state_enter = t3;
      } in
      let r4 : List Reading = reading active_low t4 false ∷ [] in
      let q3 : List Reading = readings active_low false waiting ++ r4 in
      let r3 : List Reading = reading active_low t3 false ∷ q3 in
      let q2 : List Reading = readings active_low false releasing ++ r3 in
      let r2 : List Reading = reading active_low t2 false ∷ q2 in
      let q1 : List Reading = readings active_low true holding ++ r2 in
      let r1 : List Reading = reading active_low t1 true ∷ q1 in
      let q0 : List Reading = readings active_low true pressing ++ r1 in
      one_round true t0 q0 b b0 [] bus (press_begins w b t0 i)
      ∙ rounds_stay true t0 (t0 + w.debounce_ticks) pressing r1 b0 bus
          (λ t a. press_stays w b0 t refl (omega (arith, a.1)) a) w0
      ∙ one_round true t1 q1 b0 b1 [] bus (press_taken w b0 t1 refl (omega arith) d0)
      ∙ rounds_stay true t1 t2 holding r2 b1 bus
          (λ t a. held_stays w b1 t refl (omega (arith, a.1)) (a.0, omega (arith, a.1))) w1
      ∙ one_round false t2 q2 b1 b2 [] bus (release_begins w b1 t2 refl (omega arith) (d1, d2))
      ∙ rounds_stay false t2 (t2 + w.debounce_ticks) releasing r3 b2 bus
          (λ t a. release_stays w b2 t refl (omega (arith, a.1)) a) w2
      ∙ one_round false t3 q3 b2 b3 [] bus (release_taken w b2 t3 refl refl (omega arith) d3)
      ∙ rounds_stay false t3 (t3 + w.multi_press_ticks) waiting r4 b3 bus
          (λ t a. count_stays w b3 t refl (omega (arith, a.1)) a) w3
      ∙ one_round false t4 [] b3 _ _ bus (count_reported w b3 t4 refl range d4)
      ∙ ground arith

-- `gpio_config_t`, as `zb_button_init` fills it.
pub record GpioConfig : Type 0 where
  pub pin_bit_mask : ℕ
  pub input : Bool
  pub pull_up : Bool
  pub pull_down : Bool
  pub interrupt : Bool

-- `zb_button_init`, over the driver's `gpio_config`.
unfoldable pub button_init : (GpioConfig → EspErr) → ℕ → EspErr
button_init gpio_config pin = gpio_config (record {
  pin_bit_mask = 2 ^ pin;
  input = true;
  pull_up = false;
  pull_down = false;
  interrupt = false;
})

-- `zb_button_start`: whether the task could be made.
unfoldable pub button_start : Bool → EspErr
button_start created = if created then ok else no_mem
