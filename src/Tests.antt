-- ===== src/Tests.antt =====
-- The theorems at concrete inputs, and runs of the definitions.
mod Recovery
mod Frame
mod Journal
mod Schedule
mod Sessions
mod Tasks
mod Route
mod Traffic
mod Stun
mod Device
mod Charge
mod Ubus
