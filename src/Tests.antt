-- ===== src/Tests.antt =====
-- The theorems applied at concrete inputs.
mod Console
mod Edge
mod Monitor
mod Size
mod Start
mod Transfer
