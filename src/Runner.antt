-- ===== src/Runner.antt =====
-- builtin/vmrun.go: the process of one VM.
pub mod ConfigFile
pub mod Machine
pub mod Parts
pub mod Build
pub mod Launch
pub mod Run
pub mod Reboot
