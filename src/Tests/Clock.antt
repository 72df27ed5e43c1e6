-- ===== src/Tests/Clock.antt =====
-- A start of the coordinator whose indication comes in time, with an AREQ before and one too late.
use zigbee_hub.Base.{List, [], ◌∷◌, some}
use zigbee_hub.Znp.Session.{Session}
use zigbee_hub.Network.Clock.{Arrival}
use zigbee_hub.Tests.Coordinator.{accepting, announced, coordinator_up}

abbrev arrivals : List Arrival
arrivals =
    record { tick = 8; areq = announced }
    ∷ record { tick = 20; areq = coordinator_up }
    ∷ record { tick = 50000; areq = announced }
    ∷ []

abbrev answering : Session
answering = record { sent = []; answers = some accepting ∷ [] }
