-- ===== src/Tests.antt =====
-- Runs of the models on concrete inputs, and each theorem with hypotheses at an input that meets
-- them.
mod Samples
mod Policy
mod Packets
mod Flows
mod Checks
mod Guard
mod Nat
mod Reload
mod Wg
mod Status
mod Secrets
mod Device
mod Listen
mod Machine
