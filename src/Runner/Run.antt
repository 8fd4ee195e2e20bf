-- ===== src/Runner/Run.antt =====
-- builtin/vmrun.go: `RunVMGraphic` from `machine.Start` on. Its goroutines run beside each other, in the
-- steps of `Move`, and what the machine, the window and the system do are the steps of `Outside`. The
-- channel of states is never closed.
--
-- A log is what `record` was called with, which hands it to `onEvent` unless that is nil.
pub mod Defs
pub mod Laws
pub mod Stop
pub mod Ending
pub mod Whole
use weft_driver_vz.Common.{
  ℕ, zero, suc, ◌+◌, ◌-◌, ◌*◌, ◌/◌, ◌%◌, ◌^◌, ◌≤◌, ◌<◌, String, ◌≡◌, refl, sym, ap, ◌∙◌, subst,
  fun_ext, ◌≢◌, ◌↔◌, ◌⊎◌, inl, inr, Bool, true, false, not, ◌&&◌, ◌||◌, Option, none, some, List,
  [], ◌∷◌, ◌++◌, map, foldl, reverse, append-nil, append_assoc, reverse-append, reverse-reverse,
  arith, ltb, leb, ◌==◌, if◌then◌else◌, ==_iff, Bool-cases, Option-cases, length, take, drop,
  length-append, take-append-drop, drop-append, take-append, length-take, length-drop, take-nil,
  take-all, take_past, drop_past, All, All-append, Bytes, codes, bytes_eq, bytes_eq_iff,
}
use weft_driver_vz.Golang.FilePath.{join}
use weft_driver_vz.Os.Tree.{Tree}
use weft_driver_vz.Os.Calls.{Host, Change, did, broke, truncate}
use weft_driver_vz.Os.World.{World, Error, Outcome, done, fail}
use weft_driver_vz.Marks.Watch.{Event}
use weft_driver_vz.Runner.ConfigFile.{read_microvm_flag}
use weft_driver_vz.Runner.Machine.{Machine, Virtualization}
use weft_driver_vz.Runner.Build.{build}
use weft_driver_vz.Runner.Launch.{event, failure}

-- Where the function stands.
pub data Stage : Type 0 where
  -- In `machine.Start`; and after it, with its error or without.
  starting : Stage
  refused : Bytes → Stage
  started : Stage
  -- `start_returned` is recorded.
  recorded : Stage
  -- A microVM: in the select; a signal was taken; in the receive behind `RequestStop`; behind either
  -- receive.
  choosing signalled stopping woken : Stage
  -- In `StartGraphicApplication`.
  window : Stage
  -- Returned: with the error of Start, from a microVM, with the window's result. Or killed
  -- where it stood.
  start_failed : Bytes → Stage
  exited : Stage
  closed : Option Bytes → Stage
  killed : Stage → Stage

abbrev pub ended : Stage → Bool
ended (start_failed e) = true
ended exited = true
ended (closed r) = true
ended (killed s) = true
ended _ = false

-- The goroutine that logs the machine's states, by their text.
pub data Listener : Type 0 where
  ready : Listener
  received logged : Bytes → Listener

-- The goroutines that record events: the function, the listener, and the watch of the console log.
pub data Author : Type 0 where
  main states watch : Author

pub record Entry : Type 0 where
  pub author : Author
  pub event : Event

pub record Process : Type 0 where
  pub stage : Stage
  -- What the machine has reported, and what of it stands in `stateCh`.
  pub history : List Bytes
  pub queue : List Bytes
  pub listener : Listener
  -- Whether `stoppedCh` and `sigCh` hold their one value, and whether `Notify` was called.
  pub token : Bool
  pub caught : Bool
  pub notified : Bool
  -- How often a stop was requested of the machine.
  pub requests : ℕ
  -- What the watch has yet to record.
  pub marks : List Event
  pub log : List Entry

abbrev pub stopped_state : Bytes
stopped_state = codes "VirtualMachineStateStopped"

abbrev pub state_event : Bytes → Event
state_event s = record { kind = codes "vz.state." ++ s; meta = none }

abbrev pub recording : Author → Event → Process → Process
recording a e p = record p { log = p.log ++ record { author = a; event = e } ∷ [] }

-- The select with a default sends unless the channel is full.
abbrev pub sent : Bytes → Bool → Bool
sent s token = bytes_eq s stopped_state || token

-- A step of one of the goroutines.
pub data Move (micro : Bool) (p q : Process) : Type 0 where
  fails :
      (e : Bytes)
      → p.stage ≡ refused e
      → q
        ≡ record (recording main (failure "vz_vm_run.start_failed" e) p) { stage = start_failed e }
      → Move micro p q
  returns :
      p.stage ≡ started
      → q ≡ record (recording main (event "vz_vm_run.start_returned") p) { stage = recorded }
      → Move micro p q
  notifies :
      p.stage ≡ recorded
      → micro ≡ true
      → q ≡ record p { stage = choosing; notified = true }
      → Move micro p q
  opens : p.stage ≡ recorded → micro ≡ false → q ≡ record p { stage = window } → Move micro p q
  takes_stop :
      (p.stage ≡ choosing) ⊎ (p.stage ≡ stopping)
      → p.token ≡ true
      → q ≡ record p { stage = woken; token = false }
      → Move micro p q
  takes_signal :
      p.stage ≡ choosing
      → p.caught ≡ true
      → q ≡ record p { stage = signalled; caught = false }
      → Move micro p q
  asks :
      p.stage ≡ signalled
      → q ≡ record p { stage = stopping; requests = p.requests + 1 }
      → Move micro p q
  exits :
      p.stage ≡ woken
      → q ≡ record (recording main (event "vz_vm_run.microvm_exited") p) { stage = exited }
      → Move micro p q
  receives :
      (s : Bytes) (rest : List Bytes)
      → p.listener ≡ ready
      → p.queue ≡ s ∷ rest
      → q ≡ record p { listener = received s; queue = rest }
      → Move micro p q
  logs :
      (s : Bytes)
      → p.listener ≡ received s
      → q ≡ record (recording states (state_event s) p) { listener = logged s }
      → Move micro p q
  passes :
      (s : Bytes)
      → p.listener ≡ logged s
      → q ≡ record p { listener = ready; token = sent s p.token }
      → Move micro p q
  tails :
      (e : Event) (rest : List Event)
      → p.marks ≡ e ∷ rest
      → q ≡ record (recording watch e p) { marks = rest }
      → Move micro p q

-- A step of the machine, of the window or of the system. `SIGTERM` and `SIGINT` kill a process that
-- has not asked for them; a signal that finds `sigCh` full is lost.
pub data Outside (p q : Process) : Type 0 where
  reports :
      (s : Bytes)
      → q ≡ record p { history = p.history ++ s ∷ []; queue = p.queue ++ s ∷ [] }
      → Outside p q
  starts : p.stage ≡ starting → q ≡ record p { stage = started } → Outside p q
  refuses : (e : Bytes) → p.stage ≡ starting → q ≡ record p { stage = refused e } → Outside p q
  signals : p.notified ≡ true → q ≡ record p { caught = true } → Outside p q
  kills : p.notified ≡ false → q ≡ record p { stage = killed p.stage } → Outside p q
  closes : (r : Option Bytes) → p.stage ≡ window → q ≡ record p { stage = closed r } → Outside p q

-- The process at `machine.Start`, when `log` was recorded and the watch is going to record `marks`.
abbrev pub entries : List Event → List Entry
entries [] = []
entries (e ∷ es) = record { author = main; event = e } ∷ entries es

abbrev pub begun : List Event → List Event → Process
begun log marks = record {
  stage = starting;
  history = [];
  queue = [];
  listener = ready;
  token = false;
  caught = false;
  notified = false;
  requests = 0;
  marks = marks;
  log = entries log;
}

-- What is reached from `u`; nothing moves in a process that has ended.
pub data Reach (micro : Bool) (u : Process) : Process → Type 0 where
  here : Reach micro u u
  moved :
      {p q : Process} → Reach micro u p → ended p.stage ≡ false → Move micro p q → Reach micro u q
  struck : {p q : Process} → Reach micro u p → ended p.stage ≡ false → Outside p q → Reach micro u q

-- What the goroutines alone can reach.
pub data Moves (micro : Bool) : Process → Process → Type 0 where
  stay : {p : Process} → Moves micro p p
  go :
      {p q r : Process} → ended p.stage ≡ false → Move micro p q → Moves micro q r → Moves micro p r
