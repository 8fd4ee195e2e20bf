-- ===== src/Runner/Launch.antt =====
-- builtin/vmrun.go: `RunVMGraphic` up to `machine.Start`, and the command `vz-vm-run`.
--
-- A log is what `record` was called with, which hands it to `onEvent` unless that is nil.
pub mod Laws
use weft_driver_vz.Common.{
  ℕ, zero, suc, ◌+◌, ◌-◌, ◌*◌, ◌/◌, ◌%◌, ◌^◌, ◌≤◌, ◌<◌, String, ◌≡◌, refl, sym, ap, ◌∙◌, subst,
  fun_ext, ◌≢◌, ◌↔◌, ◌⊎◌, inl, inr, Bool, true, false, not, ◌&&◌, ◌||◌, Option, none, some, List,
  [], ◌∷◌, ◌++◌, map, foldl, reverse, append-nil, append_assoc, reverse-append, reverse-reverse,
  arith, ltb, leb, ◌==◌, if◌then◌else◌, ==_iff, Bool-cases, Option-cases, length, take, drop,
  length-append, take-append-drop, drop-append, take-append, length-take, length-drop, take-nil,
  take-all, take_past, drop_past, All, All-append, Bytes, codes, bytes_eq, bytes_eq_iff,
}
use weft_driver_vz.Golang.FilePath.{join}
use weft_driver_vz.Os.Tree.{Tree}
use weft_driver_vz.Os.Calls.{Host, Change, did, broke, truncate}
use weft_driver_vz.Os.World.{World, Error, Outcome, done, fail}
use weft_driver_vz.Marks.Watch.{Event}
use weft_driver_vz.Runner.ConfigFile.{read_microvm_flag}
use weft_driver_vz.Runner.Machine.{Machine, Virtualization}
use weft_driver_vz.Runner.Build.{build}

abbrev pub event : String → Event
event kind = record { kind = codes kind; meta = none }

abbrev pub failure : String → Bytes → Event
failure kind text = record { kind = codes kind; meta = some ((codes "err", text) ∷ []) }

-- The errors that the function wraps, with their cause.
pub data RunError : Type 0 where
  build_config : Error → RunError
  new_vm : Bytes → RunError
  flags_missing : RunError

-- The function up to `NewVirtualMachine`: the machine and the flag `micro`, or an error.
pub data Launch : Type 0 where
  launched : Machine → Bool → List Event → World → Launch
  gave_up : RunError → List Event → World → Launch

-- What is left of a call whose error is dropped.
abbrev pub changed : Change → Tree
changed (did t) = t
changed (broke e t) = t

-- `text` is `err.Error()`.
module _ (v : Virtualization) (h : Host) (text : Error → Bytes) where
  pub instantiate : Bool → Machine → Option Bytes → World → Launch
  instantiate micro m (some e) w =
      gave_up (new_vm e)
        (event "vz_vm_run.entered"
          ∷ event "vz_vm_run.vm_configured"
          ∷ failure "vz_vm_run.new_vm_failed" e
          ∷ [])
        w
  instantiate micro m none w =
      launched m micro
        (event "vz_vm_run.entered"
          ∷ event "vz_vm_run.vm_configured"
          ∷ event "vz_vm_run.vm_instantiated"
          ∷ [])
        w

  pub configured : Bool → Outcome Machine → Launch
  configured micro (fail e w) =
      gave_up (build_config e)
        (event "vz_vm_run.entered" ∷ failure "vz_vm_run.config_failed" (text e) ∷ []) w
  configured micro (done m w) = instantiate micro m (v.new_refusal m w.tree) w

  unfoldable pub launch : Bytes → World → Launch
  unfolding configured instantiate
  launch vm_dir w =
      let console = join vm_dir (codes "console.log") in
      let t = changed (truncate h console w.tree) in
      let micro = read_microvm_flag h vm_dir t in
      configured micro (build v h vm_dir console (not micro) (record w { tree = t }))

  -- The command `vz-vm-run`, on the values of its flags.
  unfoldable pub run_vm : Bytes → Bytes → World → Launch
  run_vm vm_dir name w =
      if bytes_eq vm_dir [] || bytes_eq name [] then gave_up flags_missing [] w else launch vm_dir w
