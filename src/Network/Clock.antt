-- ===== src/Network/Clock.antt =====
-- The wait of zb_net_startup_and_wait by the tick count (zb_network.c). The code's own steps take
-- no ticks here; xQueueReceive takes as many as it waits.
use zigbee_hub.Base.{
  ℕ, ◌+◌, ◌-◌, ◌%◌, ◌^◌, Bool, ◌&&◌, List, [], ◌∷◌, map, ltb, leb, if◌then◌else◌, EspErr, ok,
  esp_timeout,
}
use zigbee_hub.Znp.Mt.{subsys_zdo, zdo_startup_from_app_cmd}
use zigbee_hub.Znp.Frame.{Frame}
use zigbee_hub.Znp.Session.{Session, Reply, got, failed}
use zigbee_hub.Network.{send}
use zigbee_hub.Network.Formation.{started}
use zigbee_hub.Framework.{ms_to_ticks}

-- An AREQ and the tick at which it is in the queue.
pub record Arrival : Type 0 where
  pub tick : ℕ
  pub areq : Frame

abbrev later_of : ℕ → ℕ → ℕ
later_of a b = if ltb a b then b else a

-- Whether xQueueReceive with the ticks that remain gives an AREQ.
abbrev comes : ℕ → ℕ → Arrival → Bool
comes deadline now a = ltb now deadline && leb a.tick (now + (deadline - now))

-- The loop from a tick on: the status, and what is left for the queue.
unfoldable pub wait_until : ℕ → ℕ → List Arrival → EspErr × List Arrival
wait_until deadline now [] = (esp_timeout, [])
wait_until deadline now (a ∷ rest) =
    let later = wait_until deadline (later_of now a.tick) rest in
    if comes deadline now a
    then if started a.areq then (ok, rest) else later
    else (esp_timeout, a ∷ rest)

-- `STARTUP_TIMEOUT_MS`, the argument of both calls.
abbrev startup_timeout_ms : ℕ
startup_timeout_ms = 10000

abbrev pub startup_deadline : ℕ → ℕ
startup_deadline now = (now + ms_to_ticks startup_timeout_ms) % 2 ^ 32

after_startup_at : ℕ → List Arrival → Reply → EspErr × List Arrival
after_startup_at now arrivals (failed e) = (e, arrivals)
after_startup_at now arrivals (got resp) = wait_until (startup_deadline now) now arrivals

-- `zb_net_startup_and_wait`, with the tick count when the answer to the start is there.
unfoldable pub startup_and_wait_at : ℕ → List Arrival → Session → (EspErr × List Arrival) × Session
unfolding after_startup_at
startup_and_wait_at now arrivals s =
    let (r, s') = send subsys_zdo zdo_startup_from_app_cmd (0 ∷ 0 ∷ []) s in
    (after_startup_at now arrivals r, s')

-- The AREQs that come in time, and those that do not.
unfoldable pub in_time : ℕ → ℕ → List Arrival → List Frame × List Arrival
in_time deadline now [] = ([], [])
in_time deadline now (a ∷ rest) =
    let (early, late) = in_time deadline (later_of now a.tick) rest in
    if comes deadline now a then (a.areq ∷ early, late) else ([], a ∷ rest)

abbrev pub frames : List Arrival → List Frame
frames = map (λ a. a.areq)
