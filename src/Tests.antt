-- ===== src/Tests.antt =====
-- Tests, and the theorems at concrete inputs.
mod Sample
mod Hypervisor
mod Process
mod Marks
mod Bundle
mod Provision
mod Runner
mod Run
mod Timing
mod Whole
