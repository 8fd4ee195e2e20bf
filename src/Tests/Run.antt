-- ===== src/Tests/Run.antt =====
-- builtin/vmrun.go and builtin/consoletab.go: runs of a VM's process, and the theorems about it at
-- concrete inputs.
use weft_driver_vz.Common.{
  ℕ, ◌≡◌, refl, inl, inr, Bool, true, false, some, List, [], ◌∷◌, ◌++◌, Bytes, codes, bytes_eq,
}
use mathlib.Core.List.{Memᴰ}
use weft_driver_vz.Golang.FilePath.{join, base}
use weft_driver_vz.Os.Calls.{stat}
use weft_driver_vz.Os.World.{Error}
use weft_driver_vz.Marks.Watch.{Event}
use weft_driver_vz.Runner.Parts.{missing}
use weft_driver_vz.Runner.Launch.{event, launched, launch}
use weft_driver_vz.Runner.Run.{
  Process, signalled, exited, main, states, state_event, stopped_state, returns, notifies, receives,
  logs, passes, takes_stop, takes_signal, exits, reports, starts, signals, begun, Reach, here,
  moved, struck,
}
use weft_driver_vz.Runner.Run.Defs.{IsRecorded, IsClosing}
use weft_driver_vz.Runner.Run.Laws.{Reach-IsRecorded}
use weft_driver_vz.Runner.Run.Stop.{exited-IsClosing}
use weft_driver_vz.Runner.Run.Ending.{Ends, waiting-Ends}
use weft_driver_vz.Runner.Launch.Laws.{cut, IsLaunched, launch-IsLaunched}
use weft_driver_vz.Runner.Reboot.{Look, Act, saw, request_stop, hard_stop, start, patience, reboot}
use weft_driver_vz.Runner.Reboot.Laws.{IsRebooted, reboot-IsRebooted}
use weft_driver_vz.Runner.Reboot.Returning.{reboot_returns}
use weft_driver_vz.Tests.Sample.{make_at, host}
use weft_driver_vz.Tests.Runner.{virtualization, before, built, after}

abbrev text : Error → Bytes
text e = codes "error"

abbrev events : List Event
events =
    event "vz_vm_run.entered"
    ∷ event "vz_vm_run.vm_configured"
    ∷ event "vz_vm_run.vm_instantiated"
    ∷ []

launch_test :
    launch virtualization host text (codes "/vm") before ≡ launched built false events after
unfolding launch weft_driver_vz.Runner.Build.build stat join weft_driver_vz.Os.Tree.reach_with
    weft_driver_vz.Golang.FilePath.resolve weft_driver_vz.Os.Calls.truncate
    weft_driver_vz.Os.Calls.read_file weft_driver_vz.Provision.abs_path
    weft_driver_vz.Golang.FilePath.abs weft_driver_vz.Runner.ConfigFile.read_config
    weft_driver_vz.Runner.ConfigFile.unmarshal_config weft_driver_vz.Golang.Utf8.decode_rune make_at
    weft_driver_vz.Golang.Net.parse_mac weft_driver_vz.Runner.ConfigFile.read_microvm_flag
    weft_driver_vz.Os.Tree.write weft_driver_vz.Golang.Strings.trim_space
launch_test = refl

store_kept :
    missing
      (stat host (join (codes "/vm") (codes "nvram.bin")) (cut host (codes "/vm") before.tree))
    ≡ false
unfolding stat join weft_driver_vz.Os.Tree.reach_with weft_driver_vz.Golang.FilePath.resolve
    weft_driver_vz.Os.Calls.truncate
store_kept = refl

launch-IsLaunched_example :
    IsLaunched virtualization host
      (codes "/vm")
      (cut host (codes "/vm") before.tree)
      built
      false
      events
launch-IsLaunched_example =
    launch-IsLaunched virtualization host text (codes "/vm") before after built false events
      store_kept launch_test

abbrev first_mark : Event
first_mark = event "guest.init"

-- A signal is taken although the machine has stopped; its stop is still in the channel.
abbrev waiting : Process
waiting = record (begun events (first_mark ∷ [])) {
  stage = signalled;
  history = stopped_state ∷ [];
  queue = stopped_state ∷ [];
  notified = true;
  log = (begun (events ++ event "vz_vm_run.start_returned" ∷ []) []).log;
}

waiting-reached : Reach true (begun events (first_mark ∷ [])) waiting
waiting-reached =
    moved
      (struck
        (struck
          (moved (moved (struck here refl (starts refl refl)) refl (returns refl refl)) refl
            (notifies refl refl refl))
          refl (signals refl refl))
        refl (reports stopped_state refl))
      refl (takes_signal refl refl refl)

waiting-Ends_example : Ends true waiting
waiting-Ends_example =
    waiting-Ends true events (first_mark ∷ []) waiting waiting-reached (inr refl) (Memᴰ.head refl)

Reach-IsRecorded_example : IsRecorded events (first_mark ∷ []) waiting
Reach-IsRecorded_example = Reach-IsRecorded true events (first_mark ∷ []) waiting waiting-reached

-- The stop is logged and passed on in front of the signal.
abbrev at_end : Process
at_end = record (begun events []) {
  stage = exited;
  history = stopped_state ∷ [];
  notified = true;
  log =
      (begun (events ++ event "vz_vm_run.start_returned" ∷ []) []).log
      ++ record { author = states; event = state_event stopped_state }
        ∷ record { author = main; event = event "vz_vm_run.microvm_exited" }
        ∷ [];
}

at_end-reached : Reach true (begun events []) at_end
unfolding bytes_eq
at_end-reached =
    moved
      (moved
        (moved
          (moved
            (moved
              (struck
                (moved (moved (struck here refl (starts refl refl)) refl (returns refl refl)) refl
                  (notifies refl refl refl))
                refl (reports stopped_state refl))
              refl (receives stopped_state [] refl refl refl))
            refl (logs stopped_state refl refl))
          refl (passes stopped_state refl refl))
        refl (takes_stop (inl refl) refl refl))
      refl (exits refl refl)

exited-IsClosing_example : IsClosing at_end.log
exited-IsClosing_example = exited-IsClosing true events [] at_end at_end-reached refl

abbrev look : Bool → ℕ → Look
look stopped now = record { stopped = stopped; now = now }

-- The machine does not stop within 30 s, and is stopped hard.
abbrev looks : List Look
looks =
    look false 1_000_000_000
    ∷ look false 31_000_000_000
    ∷ look false 31_200_000_000
    ∷ look true 31_400_000_000
    ∷ []

abbrev forced : List Act
forced =
    request_stop
    ∷ saw (look false 1_000_000_000)
    ∷ saw (look false 31_000_000_000)
    ∷ hard_stop
    ∷ saw (look false 31_200_000_000)
    ∷ saw (look true 31_400_000_000)
    ∷ start
    ∷ []

reboot_test : reboot true 0 looks ≡ some forced
unfolding reboot
reboot_test = refl

reboot-IsRebooted_example : IsRebooted patience looks forced
reboot-IsRebooted_example = reboot-IsRebooted 0 looks forced reboot_test

reboot_returns_example : (acts : List Act) × (reboot true 0 looks ≡ some acts)
reboot_returns_example =
    reboot_returns 0 (look false 1_000_000_000 ∷ []) (look false 31_200_000_000 ∷ []) []
      (look false 31_000_000_000) (look true 31_400_000_000) (inr refl) refl
