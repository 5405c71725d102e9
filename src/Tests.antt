-- ===== src/Tests.antt =====
-- Runs of the model on concrete inputs, and the theorems at inputs that meet their hypotheses.
mod Windows
mod Clicks
mod Connect
mod Device
mod Cycle
mod Auth
mod Refund
mod Session
mod Money
mod Monitor
mod Edge
mod Ops
