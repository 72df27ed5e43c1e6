-- ===== src/Framework/Restart.antt =====
-- What queued commands and AREQs make of READY (zb_framework.c).
use zigbee_hub.Base.{
  ℕ, ◌≡◌, refl, ap, ◌∙◌, ◌⊎◌, inl, inr, arith, Bool, true, false, ◌||◌, List, [], ◌∷◌, ◌++◌, Option,
  none, some, Bool-cases, Option-cases, if◌then◌else◌,
}
use zigbee_hub.Event.{emit}
use zigbee_hub.Znp.Frame.{Frame}
use zigbee_hub.Command.{Cmd, permit_join, change_channel, reconfigure}
use zigbee_hub.Hub.Inbound.{on_areq}
use zigbee_hub.Framework.Ready.{
  ConfigStore, World, process_cmd, open_window, store_channel, drain, drain_queue, take_areq, turn,
  lose, is_reset_ind, lost_event,
}

abbrev pub restarts : Cmd → Bool
restarts (permit_join dur) = false
restarts (change_channel ch) = true
restarts reconfigure = true

unfoldable pub any_restarts : List Cmd → Bool
any_restarts [] = false
any_restarts (c ∷ q) = let rest = any_restarts q in restarts c || rest

abbrev pub resets : Option Frame → Bool
resets none = false
resets (some f) = is_reset_ind f

-- The world when `handle_ready` returns to start again.
abbrev pub IsLost : {S : Type 0} → World S → World S → Type 0
IsLost w w' =
    (w'.state ≡ w.state)
    × (w'.deadline ≡ 0)
    × (w'.hub.bus ≡ emit lost_event w.hub.bus)
    × (w'.hub.devices ≡ w.hub.devices)

-- What executing commands keeps of the device manager.
abbrev Same : {S : Type 0} → World S → World S → Type 0
Same w w' = (w'.state ≡ w.state) × (w'.hub.bus ≡ w.hub.bus) × (w'.hub.devices ≡ w.hub.devices)

module _ {S : Type 0} (C : ConfigStore S) where
  process_cmd-restarts :
      (now : ℕ) (c : Cmd) (w : World S)
      → ((process_cmd C now c w).0 ≡ restarts c) × Same w (process_cmd C now c w).1
  unfolding process_cmd open_window store_channel
  process_cmd-restarts now (permit_join dur) w = (refl, (refl, refl, refl))
  process_cmd-restarts now (change_channel ch) w = (refl, (refl, refl, refl))
  process_cmd-restarts now reconfigure w = (refl, (refl, refl, refl))

  -- The queue is drained up to the first command that starts again.
  drain-restarts :
      (now : ℕ) (q : List Cmd) (w : World S)
      → ((any_restarts q ≡ true) × ((drain C now q w).0 ≡ true) × IsLost w (drain C now q w).1)
        ⊎ ((any_restarts q ≡ false)
            × ((drain C now q w).0 ≡ false)
            × Same w (drain C now q w).1
            × ((drain C now q w).1.commands ≡ some []))
  unfolding drain any_restarts lose
  drain-restarts now [] w = inr (refl, refl, (refl, refl, refl), refl)
  drain-restarts now (c ∷ q) w =
      let waiting : World S = record w { commands = some q } in
      let done = process_cmd-restarts now c waiting in
      let next = (process_cmd C now c waiting).1 in
      elim (Bool-cases (restarts c)) [
        | inl y ↦
            let again : (process_cmd C now c waiting).0 ≡ true = done.0 ∙ y in
            rw (again, y)
              (inl (refl, refl, (done.1.0, refl, ap (λ b. emit lost_event b) done.1.1, done.1.2)))
        | inr n ↦
            let stays : (process_cmd C now c waiting).0 ≡ false = done.0 ∙ n in
            rw (stays, n)
              (elim (drain-restarts now q next) [
                | inl (any, again, lost) ↦ inl (
                  any,
                  again,
                  (
                    lost.0 ∙ done.1.0,
                    lost.1,
                    lost.2 ∙ ap (λ b. emit lost_event b) done.1.1,
                    lost.3 ∙ done.1.2,
                  ),
                )
                | inr (any, stay, same, empty) ↦
                    inr
                      (any, stay, (same.0 ∙ done.1.0, same.1 ∙ done.1.1, same.2 ∙ done.1.2), empty)
              ])
      ]

  pub turn_eq :
      (now : ℕ) (areq : Option Frame) (q : List Cmd) (w : World S)
      → w.commands ≡ some q
      → turn C now areq w ≡ (
          if (drain C now q w).0
          then some (true, (drain C now q w).1)
          else take_areq C areq (drain C now q w).1)
  unfolding turn drain_queue
  turn_eq now areq q w e =
      ap (λ (r : Bool × World S). if r.0 then some (true, r.1) else take_areq C areq r.1)
        (ap (λ c. drain_queue C now c w) e)

  take_areq_lem :
      (areq : Option Frame) (w : World S)
      → ((resets areq ≡ true) × (take_areq C areq w ≡ some (true, lose C w)))
        ⊎ ((resets areq ≡ false)
            × ((take_areq C areq w ≡ none)
                ⊎ ((w' : World S) × (take_areq C areq w ≡ some (false, w'))
                    × (w'.commands ≡ w.commands))))
  unfolding take_areq
  take_areq_lem none w = inr (refl, inr (w, refl, refl))
  take_areq_lem (some f) w = elim (Bool-cases (is_reset_ind f)) [
    | inl y ↦ inl (y, rw y refl)
    | inr n ↦ elim (Option-cases (on_areq f w.hub)) [
      | inl fault ↦ inr (n, inl (rw (n, fault) refl))
      | inr (h, fine) ↦ inr (n, inr (record w { hub = h }, rw (n, fine) refl, refl))
    ]
  ]

  -- How a turn ends: it starts again exactly for a command in the queue that does so or for a reset
  -- indication.
  abbrev pub TurnOutcome : ℕ → Option Frame → List Cmd → World S → Type 0
  TurnOutcome now areq q w =
      ((any_restarts q || resets areq ≡ true)
        × ((w' : World S) × (turn C now areq w ≡ some (true, w')) × IsLost w w'))
      ⊎ ((any_restarts q || resets areq ≡ false)
          × ((turn C now areq w ≡ none)
              ⊎ ((w' : World S) × (turn C now areq w ≡ some (false, w'))
                  × (w'.commands ≡ some []))))

  -- With these commands in the queue, a pass through the loop of READY ends READY exactly when one
  -- of them changes the channel or reconfigures, or the AREQ is a reset indication. Then the join
  -- window is closed and NETWORK_LOST is put on the bus, behind what was there, and the registry is
  -- as it was. Else the queue is empty afterwards, unless the device manager reads behind an array.
  pub turn_lem :
      (now : ℕ) (areq : Option Frame) (q : List Cmd) (w : World S)
      → w.commands ≡ some q
      → TurnOutcome now areq q w
  turn_lem now areq q w e = elim (drain-restarts now q w) [
    | inl (any, again, lost) ↦
        inl (rw any refl, ((drain C now q w).1, turn_eq now areq q w e ∙ rw again refl, lost))
    | inr (any, stays, same, empty) ↦ elim (take_areq_lem areq (drain C now q w).1) [
      | inl (y, t) ↦ inl (
        rw any y,
        (
          lose C (drain C now q w).1,
          turn_eq now areq q w e ∙ rw stays t,
          unfold lose in (same.0, refl, ap (λ b. emit lost_event b) same.1, same.2),
        ),
      )
      | inr (n, inl t) ↦ inr (rw any n, inl (turn_eq now areq q w e ∙ rw stays t))
      | inr (n, inr (w', t, c)) ↦
          inr (rw any n, inr (w', turn_eq now areq q w e ∙ rw stays t, c ∙ empty))
    ]
  ]

  -- Commands that only open or close the window leave the store as it is.
  pub drain-last :
      (now : ℕ) (q : List Cmd) (c : Cmd) (w : World S)
      → any_restarts q ≡ false
      → restarts c ≡ true
      → (before : World S) × (drain C now (q ++ c ∷ []) w
          ≡ (true, lose C (process_cmd C now c before).1))
        × (before.store ≡ w.store)
  unfolding drain any_restarts process_cmd open_window
  drain-last now [] c w n y =
      let waiting : World S = record w { commands = some [] } in
      let again : (process_cmd C now c waiting).0 ≡ true =
        (process_cmd-restarts now c waiting).0 ∙ y in
      (waiting, rw again refl, refl)
  drain-last now (permit_join dur ∷ q) c w n y =
      let (before, e, s) =
        drain-last now q c (open_window C now dur (record w { commands = some (q ++ c ∷ []) }))
          (ground arith) y in
      (before, e, s)
  drain-last now (change_channel ch ∷ q) c w n y = absurd (ground arith)
  drain-last now (reconfigure ∷ q) c w n y = absurd (ground arith)
