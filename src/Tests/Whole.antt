-- ===== src/Tests/Whole.antt =====
-- builtin/vmrun.go: a whole run of a microVM.
use weft_driver_vz.Common.{
  ◌≡◌, refl, inr, true, false, none, List, [], ◌∷◌, ◌++◌, Bytes, codes, bytes_eq,
}
use weft_driver_vz.Os.Tree.{file, folder}
use weft_driver_vz.Os.World.{World, Error}
use weft_driver_vz.Marks.Watch.{Event}
use weft_driver_vz.Runner.Machine.{Machine, efi}
use weft_driver_vz.Runner.Launch.{event, launched, launch}
use weft_driver_vz.Runner.Run.{
  Process, exited, main, states, state_event, stopped_state, returns, notifies, receives, logs,
  passes, takes_signal, asks, takes_stop, exits, reports, starts, signals, begun, Reach, here,
  moved, struck,
}
use weft_driver_vz.Runner.Run.Whole.{IsWhole, launched-IsWhole}
use weft_driver_vz.Tests.Sample.{host, world_of}
use weft_driver_vz.Tests.Runner.{virtualization}

abbrev text : Error → Bytes
text e = codes "error"

abbrev world : Bytes → World
world log = world_of (
    (codes "vm" ∷ [], folder)
    ∷ (codes "nvram.bin" ∷ codes "vm" ∷ [], file (codes "efi"))
    ∷ (codes "machine-id.bin" ∷ codes "vm" ∷ [], file (codes "id"))
    ∷ (codes "config.json" ∷ codes "vm" ∷ [], file (codes "{\"microvm\":true}"))
    ∷ (codes "console.log" ∷ codes "vm" ∷ [], file log)
    ∷ [])

abbrev machine : Machine
machine = record {
  boot = efi (codes "/vm/nvram.bin");
  cpu = 2;
  memory = 2147483648;
  identifier = codes "id";
  storage = [];
  mac = none;
  entropy = true;
  socket = true;
  shares = [];
  serial = none;
  screen = none;
  keyboard = false;
  pointer = false;
}

abbrev events : List Event
events =
    event "vz_vm_run.entered"
    ∷ event "vz_vm_run.vm_configured"
    ∷ event "vz_vm_run.vm_instantiated"
    ∷ []

-- The log of the run before is cut.
launch_microvm_test :
    launch virtualization host text (codes "/vm") (world (codes "old"))
    ≡ launched machine true events (world [])
unfolding launch weft_driver_vz.Runner.Build.build weft_driver_vz.Os.Calls.stat
    weft_driver_vz.Golang.FilePath.join weft_driver_vz.Os.Tree.reach_with
    weft_driver_vz.Golang.FilePath.resolve weft_driver_vz.Os.Calls.truncate
    weft_driver_vz.Os.Tree.write weft_driver_vz.Os.Calls.read_file weft_driver_vz.Provision.abs_path
    weft_driver_vz.Golang.FilePath.abs weft_driver_vz.Runner.ConfigFile.read_config
    weft_driver_vz.Runner.ConfigFile.unmarshal_config weft_driver_vz.Golang.Utf8.decode_rune
    weft_driver_vz.Tests.Sample.make_at weft_driver_vz.Runner.ConfigFile.read_microvm_flag
launch_microvm_test = refl

-- A signal makes the function ask for the stop.
abbrev at_end : Process
at_end = record (begun events []) {
  stage = exited;
  history = stopped_state ∷ [];
  notified = true;
  requests = 1;
  log =
      (begun (events ++ event "vz_vm_run.start_returned" ∷ []) []).log
      ++ record { author = states; event = state_event stopped_state }
        ∷ record { author = main; event = event "vz_vm_run.microvm_exited" }
        ∷ [];
}

at_end-reached : Reach true (begun events []) at_end
unfolding bytes_eq
at_end-reached =
    moved
      (moved
        (moved
          (moved
            (moved
              (struck
                (moved
                  (moved
                    (struck
                      (moved (moved (struck here refl (starts refl refl)) refl (returns refl refl))
                        refl (notifies refl refl refl))
                      refl (signals refl refl))
                    refl (takes_signal refl refl refl))
                  refl (asks refl refl))
                refl (reports stopped_state refl))
              refl (receives stopped_state [] refl refl refl))
            refl (logs stopped_state refl refl))
          refl (passes stopped_state refl refl))
        refl (takes_stop (inr refl) refl refl))
      refl (exits refl refl)

launched-IsWhole_example : IsWhole at_end
launched-IsWhole_example =
    launched-IsWhole virtualization host text (codes "/vm") (world (codes "old")) (world []) machine
      true events [] at_end launch_microvm_test at_end-reached refl
