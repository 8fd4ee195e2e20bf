-- ===== src/Runner/Run/Whole.antt =====
-- builtin/vmrun.go: a whole run of `RunVMGraphic` for a microVM.
use weft_driver_vz.Common.{◌≡◌, ap, ◌∙◌, Bool, List, [], ◌∷◌, Bytes}
use weft_driver_vz.Os.Calls.{Host}
use weft_driver_vz.Os.World.{World, Error}
use weft_driver_vz.Marks.Watch.{Event}
use weft_driver_vz.Runner.Machine.{Machine, Virtualization}
use weft_driver_vz.Runner.Launch.{event, launched, launch}
use weft_driver_vz.Runner.Run.{exited, main, Process, begun, Reach}
use weft_driver_vz.Runner.Run.Defs.{said, spoken, IsClosing}
use weft_driver_vz.Runner.Run.Laws.{Reach-IsRecorded}
use weft_driver_vz.Runner.Run.Stop.{exited-IsClosing}
use weft_driver_vz.Runner.Launch.Laws.{configured-launched}

-- What the log of a run that has ended holds.
pub record IsWhole (p : Process) : Type 0 where
  pub events :
      said main p.log
      ≡ event "vz_vm_run.entered"
        ∷ event "vz_vm_run.vm_configured"
        ∷ event "vz_vm_run.vm_instantiated"
        ∷ event "vz_vm_run.start_returned"
        ∷ event "vz_vm_run.microvm_exited"
        ∷ []
  pub stop : IsClosing p.log

-- A run of a VM that starts as `launch` leaves it and ends as a microVM's has recorded the five events
-- of the function, each once and in their order, with the machine's stop in front of the last.
pub launched-IsWhole :
    (z : Virtualization) (h : Host) (text : Error → Bytes) (vm_dir : Bytes) (w v : World)
    (m : Machine) (micro : Bool) (log ms : List Event) (p : Process)
    → launch z h text vm_dir w ≡ launched m micro log v
    → Reach micro (begun log ms) p
    → p.stage ≡ exited
    → IsWhole p
unfolding launch
launched-IsWhole z h text vm_dir w v m micro log ms p d r x =
    let (_, _, c) = configured-launched z h text _ _ m micro log v d in
    let e = (Reach-IsRecorded micro log ms p r).by_main in
    record {
      events = e ∙ (ap (spoken log) x ∙ ap (λ (l : List Event). spoken l exited) c);
      stop = exited-IsClosing micro log ms p r x;
    }
