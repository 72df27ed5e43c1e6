-- ===== src/Button.antt =====
-- components/zb_button/zb_button.c: the state machine of `button_task`. Ticks are those of
-- FreeRTOS, 32 bits wide; a sample is the tick and whether the pin is active.
pub mod Task
use zigbee_hub.Base.{
  ℕ, ◌+◌, ◌-◌, ◌%◌, ◌^◌, ◌≤◌, ◌<◌, ◌≡◌, ◌⊎◌, arith, Bool, true, false, not, ◌&&◌, List, [], ◌∷◌,
  ◌++◌, leb, ◌==◌, if◌then◌else◌,
}
use zigbee_hub.Event.{ButtonKind, single, double, long}

-- `btn_fsm_t`
pub data State : Type 0 where
  idle debounce_press held debounce_release inter_press : State

-- The locals of `button_task`.
pub record Button : Type 0 where
  pub state : State
  pub state_enter : ℕ
  pub press_count : ℕ
  pub long_fired : Bool

-- The windows of the configuration, in ticks.
pub record Windows : Type 0 where
  pub debounce_ticks : ℕ
  pub long_press_ticks : ℕ
  pub multi_press_ticks : ℕ

pub record Sample : Type 0 where
  pub now : ℕ
  pub pressed : Bool

-- `now - state_enter` on `TickType_t`.
abbrev pub ticks_since : ℕ → ℕ → ℕ
ticks_since enter now = (now + 2 ^ 32 - enter) % 2 ^ 32

-- `case BTN_HELD`, after the long press was looked at.
held_next : Sample → Button → Button
held_next s b = if s.pressed then b else record b { state = debounce_release; state_enter = s.now }

released : Sample → Button → Button
released s b =
    if b.long_fired
    then record b { press_count = 0; long_fired = false; state = idle }
    else record b { press_count = b.press_count + 1; state = inter_press; state_enter = s.now }

abbrev pub kind_of : ℕ → ButtonKind
kind_of count = if count == 2 then double else single

button_in : State → Windows → Sample → ℕ → Button → Button × List ButtonKind
unfolding held_next released
button_in idle w s in_state b =
    (if s.pressed then record b { state = debounce_press; state_enter = s.now } else b, [])
button_in debounce_press w s in_state b =
    if not s.pressed
    then (record b { state = idle }, [])
    else if leb w.debounce_ticks in_state
    then (record b { state = held; state_enter = s.now; long_fired = false }, [])
    else (b, [])
button_in held w s in_state b =
    if not b.long_fired && leb w.long_press_ticks in_state
    then (held_next s (record b { long_fired = true }), long ∷ [])
    else (held_next s b, [])
button_in debounce_release w s in_state b =
    if s.pressed
    then (record b { state = held; state_enter = s.now }, [])
    else if leb w.debounce_ticks in_state
    then (released s b, [])
    else (b, [])
button_in inter_press w s in_state b =
    if s.pressed
    then (record b { state = debounce_press; state_enter = s.now }, [])
    else if leb w.multi_press_ticks in_state
    then (record b { press_count = 0; state = idle }, kind_of b.press_count ∷ [])
    else (b, [])

-- One round of the loop of `button_task`, with the events that it emits.
unfoldable pub poll : Windows → Button → Sample → Button × List ButtonKind
unfolding button_in
poll w b s = button_in b.state w s (ticks_since b.state_enter s.now) b

unfoldable pub polls : Windows → Button → List Sample → Button × List ButtonKind
polls w b [] = (b, [])
polls w b (s ∷ ss) =
    let (b', kinds) = poll w b s in let (b'', more) = polls w b' ss in (b'', kinds ++ more)

-- Once a long press was reported, nothing more is reported until the button is idle again, with no
-- press counted.
poll_long_fired :
    (w : Windows) (b : Button) (s : Sample)
    → (b.state ≡ held) ⊎ (b.state ≡ debounce_release)
    → b.long_fired ≡ true
    → ((poll w b s).1 ≡ [])
      × (((((poll w b s).0.state ≡ held) ⊎ ((poll w b s).0.state ≡ debounce_release))
            × ((poll w b s).0.long_fired ≡ true))
          ⊎ (((poll w b s).0.state ≡ idle)
              × ((poll w b s).0.press_count ≡ 0)
              × ((poll w b s).0.long_fired ≡ false)))
unfolding poll button_in held_next released
poll_long_fired w b s at fired = ground arith

abbrev pub at_tick : ℕ → Bool → Sample
at_tick now pressed = record { now = now; pressed = pressed }

-- The polls of a click: those that start and end a phase, and those that change nothing.
module _ (w : Windows) where
  pub press_begins :
      (b : Button) (t : ℕ)
      → b.state ≡ idle
      → poll w b (at_tick t true) ≡ (record b { state = debounce_press; state_enter = t }, [])
  unfolding poll button_in
  press_begins b t e = ground arith

  pub press_stays :
      (b : Button) (t : ℕ)
      → b.state ≡ debounce_press
      → t < 2 ^ 32
      → (b.state_enter ≤ t) × (t < b.state_enter + w.debounce_ticks)
      → poll w b (at_tick t true) ≡ (b, [])
  unfolding poll button_in
  press_stays b t e r a = ground arith

  pub press_taken :
      (b : Button) (t : ℕ)
      → b.state ≡ debounce_press
      → t < 2 ^ 32
      → b.state_enter + w.debounce_ticks ≤ t
      → poll w b (at_tick t true)
        ≡ (record b { state = held; state_enter = t; long_fired = false }, [])
  unfolding poll button_in
  press_taken b t e r a = ground arith

  pub held_stays :
      (b : Button) (t : ℕ)
      → b.state ≡ held
      → t < 2 ^ 32
      → (b.state_enter ≤ t) × (t < b.state_enter + w.long_press_ticks)
      → poll w b (at_tick t true) ≡ (b, [])
  unfolding poll button_in held_next
  held_stays b t e r a = ground arith

  pub release_begins :
      (b : Button) (t : ℕ)
      → b.state ≡ held
      → t < 2 ^ 32
      → (b.state_enter ≤ t) × (t < b.state_enter + w.long_press_ticks)
      → poll w b (at_tick t false) ≡ (record b { state = debounce_release; state_enter = t }, [])
  unfolding poll button_in held_next
  release_begins b t e r a = ground arith

  pub release_stays :
      (b : Button) (t : ℕ)
      → b.state ≡ debounce_release
      → t < 2 ^ 32
      → (b.state_enter ≤ t) × (t < b.state_enter + w.debounce_ticks)
      → poll w b (at_tick t false) ≡ (b, [])
  unfolding poll button_in
  release_stays b t e r a = ground arith

  pub release_taken :
      (b : Button) (t : ℕ)
      → b.state ≡ debounce_release
      → b.long_fired ≡ false
      → t < 2 ^ 32
      → b.state_enter + w.debounce_ticks ≤ t
      → poll w b (at_tick t false)
        ≡ (record b { press_count = b.press_count + 1; state = inter_press; state_enter = t }, [])
  unfolding poll button_in released
  release_taken b t e l r a = ground arith

  pub count_stays :
      (b : Button) (t : ℕ)
      → b.state ≡ inter_press
      → t < 2 ^ 32
      → (b.state_enter ≤ t) × (t < b.state_enter + w.multi_press_ticks)
      → poll w b (at_tick t false) ≡ (b, [])
  unfolding poll button_in
  count_stays b t e r a = ground arith

  pub count_reported :
      (b : Button) (t : ℕ)
      → b.state ≡ inter_press
      → t < 2 ^ 32
      → b.state_enter + w.multi_press_ticks ≤ t
      → poll w b (at_tick t false)
        ≡ (record b { press_count = 0; state = idle }, kind_of b.press_count ∷ [])
  unfolding poll button_in
  count_reported b t e r a = ground arith

-- Noise after a release, a sample that is active and one that is not, takes the button from the
-- wait for a further press to idle: the presses so far are not reported and stay counted, so that
-- they are added to the next ones.
polls_bounce :
    (w : Windows) (b : Button) (t0 t1 : ℕ)
    → b.state ≡ inter_press
    → polls w b (at_tick t0 true ∷ at_tick t1 false ∷ [])
      ≡ (record b { state = idle; state_enter = t0 }, [])
unfolding polls poll button_in
polls_bounce w b t0 t1 at = ground arith
