-- ===== src/Framework/Window.antt =====
-- The join window through the passes of `framework_task` (zb_framework.c).
use zigbee_hub.Base.{
  ℕ, ◌≡◌, refl, ◌∙◌, ◌⊎◌, inl, inr, arith, Bool, true, false, List, [], ◌∷◌, Option, none, some,
  is_ok, Bool-cases, Option-cases,
}
use zigbee_hub.Storage.{NetConfig}
use zigbee_hub.Znp.Frame.{Frame}
use zigbee_hub.Command.{Cmd, permit_join, change_channel, reconfigure, Commands}
use zigbee_hub.Framework.{ready, permit_join_ttl, count_retry, init_failed, bring_up_failed, served}
use zigbee_hub.Framework.Bringup.{Defaults}
use zigbee_hub.Hub.Inbound.{on_areq}
use zigbee_hub.Framework.Ready.{
  ConfigStore, World, process_cmd, open_window, store_channel, drain, drain_queue, take_areq, turn,
  lose, enter_ready, is_reset_ind,
}
use zigbee_hub.Framework.Api.{network_info_get}
use zigbee_hub.Framework.Task.{
  Turn, Pass, Progress, serving, over, serve, with_session, turns_of, come_up, pass, task,
  handle_znp_init, started_init,
}

-- What a turn keeps: the state, and when it asks to start again, a closed window.
abbrev Kept : {S : Type 0} → World S → Bool × World S → Type 0
Kept w (again, w') = (w'.state ≡ w.state) × (again ≡ true → w'.deadline ≡ 0)

-- What a pass leaves: a task that is ready, or a window that stays closed.
abbrev After : {S : Type 0} → World S → Progress × World S → Type 0
After w (serving, w') = w'.state ≡ ready
After w (over r, w') = w.deadline ≡ 0 → w'.deadline ≡ 0

closed : {S : Type 0} (now : ℕ) (w : World S) → w.deadline ≡ 0 → (network_info_get now w).ttl ≡ 0
unfolding network_info_get permit_join_ttl
closed now w z = rw z refl

module _ {S : Type 0} (C : ConfigStore S) where
  process_cmd-state : (now : ℕ) (c : Cmd) (w : World S) → (process_cmd C now c w).1.state ≡ w.state
  unfolding process_cmd open_window store_channel
  process_cmd-state now (permit_join dur) w = refl
  process_cmd-state now (change_channel ch) w = refl
  process_cmd-state now reconfigure w = refl

  drain-Kept : (now : ℕ) (q : List Cmd) (w : World S) → Kept w (drain C now q w)
  unfolding drain lose
  drain-Kept now [] w = (refl, λ e. ground arith)
  drain-Kept now (c ∷ q) w =
      let waiting : World S = record w { commands = some q } in
      let same = process_cmd-state now c waiting in
      let rest = drain-Kept now q (process_cmd C now c waiting).1 in
      elim (Bool-cases (process_cmd C now c waiting).0) [
        | inl again ↦ rw again (same, λ e. refl)
        | inr stays ↦ rw stays (rest.0 ∙ same, rest.1)
      ]

  drain_queue-Kept : (now : ℕ) (q : Commands) (w : World S) → Kept w (drain_queue C now q w)
  unfolding drain_queue
  drain_queue-Kept now none w = (refl, λ e. ground arith)
  drain_queue-Kept now (some q) w = drain-Kept now q w

  take_areq-Kept :
      (areq : Option Frame) (w : World S) (r : Bool × World S)
      → take_areq C areq w ≡ some r
      → Kept w r
  unfolding take_areq lose
  take_areq-Kept none w r e =
      let s : (false, w) ≡ r = ground arith in rw (← s) (refl, λ a. ground arith)
  take_areq-Kept (some f) w r e = elim (Bool-cases (is_reset_ind f)) [
    | inl y ↦ let s : (true, lose C w) ≡ r = ground arith in rw (← s) (refl, λ a. refl)
    | inr n ↦ elim (Option-cases (on_areq f w.hub)) [
      | inl fault ↦ absurd (ground arith)
      | inr (h, fine) ↦
          let s : (false, record w { hub = h }) ≡ r = ground arith in
          rw (← s) (refl, λ a. ground arith)
    ]
  ]

  turn-Kept :
      (now : ℕ) (areq : Option Frame) (w : World S) (r : Bool × World S)
      → turn C now areq w ≡ some r
      → Kept w r
  unfolding turn
  turn-Kept now areq w r e =
      let kept = drain_queue-Kept now w.commands w in
      elim (Bool-cases (drain_queue C now w.commands w).0) [
        | inl again ↦
            let s : (true, (drain_queue C now w.commands w).1) ≡ r = ground arith in
            rw (← s) (kept.0, λ a. kept.1 again)
        | inr stays ↦
            let later = take_areq-Kept areq (drain_queue C now w.commands w).1 r (ground arith) in
            (later.0 ∙ kept.0, later.1)
      ]

  module _ (d : Defaults) (cfg : NetConfig) where
    turns_of-Kept :
        (ts : List Turn) (w : World S) (r : Bool × World S)
        → turns_of C d cfg ts w ≡ some r
        → Kept w r
    unfolding turns_of
    turns_of-Kept [] w r e =
        let s : (false, w) ≡ r = ground arith in rw (← s) (refl, λ a. ground arith)
    turns_of-Kept (t ∷ ts) w r e =
        let start : World S = record w { commands = t.queued w.commands } in
        elim (Option-cases (turn C t.now t.areq start)) [
          | inl fault ↦ absurd (ground arith)
          | inr ((again, w'), done) ↦
              let first = turn-Kept t.now t.areq start (again, w') done in
              elim (Bool-cases again) [
                | inl y ↦
                    let s : (true, w') ≡ r = ground arith in rw (← s) (first.0, λ a. first.1 y)
                | inr n ↦
                    let later = turns_of-Kept ts w' r (ground arith) in (later.0 ∙ first.0, later.1)
              ]
        ]

    come_up-deadline :
        (areqs : List Frame) (w : World S) → (come_up C d cfg areqs w).1.deadline ≡ w.deadline
    unfolding come_up
    come_up-deadline areqs w = refl

    served_After :
        (ts : List Turn) (w0 w : World S) (r : Progress × World S)
        → serve (turns_of C d cfg ts (enter_ready C w)) ≡ some r
        → After w0 r
    unfolding enter_ready
    served_After ts w0 w r e = elim (Option-cases (turns_of C d cfg ts (enter_ready C w))) [
      | inl fault ↦ absurd (ground arith)
      | inr ((again, w'), done) ↦
          let kept = turns_of-Kept ts (enter_ready C w) (again, w') done in
          elim (Bool-cases again) [
            | inl y ↦ let s : (over served, w') ≡ r = ground arith in rw (← s) (λ z. kept.1 y)
            | inr n ↦ let s : (serving, w') ≡ r = ground arith in rw (← s) kept.0
          ]
    ]

    pass-After :
        (p : Pass) (w : World S) (r : Progress × World S) → pass C d cfg p w ≡ some r → After w r
    unfolding pass
    pass-After p w r e =
        let ((code, text), s) = handle_znp_init p.reset w.versions.cc26xx_fw w.hub.session in
        let w1 : World S = with_session s (started_init text w) in
        let (status, w2) = come_up C d cfg p.areqs w1 in
        elim (Bool-cases (is_ok code)) [
          | inr n ↦ let out : (over init_failed, w1) ≡ r = ground arith in rw (← out) (λ z. z)
          | inl y ↦ elim (Bool-cases (is_ok status)) [
            | inr n ↦
                let out : (over bring_up_failed, w2) ≡ r = ground arith in
                rw (← out) (λ z. come_up-deadline p.areqs w1 ∙ z)
            | inl up ↦ served_After p.turns w w2 r (ground arith)
          ]
        ]

    -- Whatever its environment does, from a start with a closed join window on: when
    -- `framework_task` is not in READY, the join window is closed, and zb_network_info_get shows a
    -- time to live of 0 at any time. A task that has been ready leaves no window open behind it.
    pub task-closed :
        (ps : List Pass) (retry now : ℕ) (w w' : World S)
        → w.deadline ≡ 0
        → task C d cfg ps retry w ≡ some w'
        → (w'.state ≡ ready) ⊎ ((network_info_get now w').ttl ≡ 0)
    unfolding task
    task-closed [] retry now w w' z e =
        inr (closed now w' (let s : w ≡ w' = ground arith in rw (← s) z))
    task-closed (p ∷ ps) retry now w w' z e = elim (Option-cases (pass C d cfg p w)) [
      | inl fault ↦ absurd (ground arith)
      | inr ((serving, w1), done) ↦
          let s : w1 ≡ w' = ground arith in rw (← s) (inl (pass-After p w (serving, w1) done))
      | inr ((over r, w1), done) ↦
          let z1 = pass-After p w (over r, w1) done z in
          elim (Bool-cases (count_retry r retry).1) [
            | inl halted ↦ let s : w1 ≡ w' = ground arith in rw (← s) (inr (closed now w1 z1))
            | inr runs ↦ task-closed ps (count_retry r retry).0 now w1 w' z1 (ground arith)
          ]
    ]
