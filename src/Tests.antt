-- ===== src/Tests.antt =====
-- Runs of the models at concrete inputs.
mod Transport
mod Devices
mod Plug
mod Inbound
mod Outbound
mod Coordinator
mod Stored
mod Object
mod Configured
mod Running
mod Pins
mod Messages
mod Start
mod Rechannel
mod Recovery
mod Clock
