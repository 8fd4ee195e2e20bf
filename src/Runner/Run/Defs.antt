-- ===== src/Runner/Run/Defs.antt =====
-- builtin/vmrun.go: what holds of the process of `RunVMGraphic` at every moment.
use weft_driver_vz.Common.{
  ◌≡◌, refl, ap, ◌∙◌, ◌⊎◌, Bool, true, false, List, [], ◌∷◌, ◌++◌, map, append-nil, Bytes,
}
use mathlib.Core.List.{Memᴰ}
use weft_driver_vz.Marks.Watch.{Event}
use weft_driver_vz.Runner.Launch.{event, failure}
use weft_driver_vz.Runner.Run.{
  Stage, starting, refused, started, woken, start_failed, exited, killed, Listener, ready, received,
  logged, Author, main, states, watch, Entry, Process, stopped_state, state_event,
}

-- The events of one goroutine.
abbrev same : Author → Author → Bool
same main main = true
same states states = true
same watch watch = true
same _ _ = false

abbrev keep : Bool → Event → List Event → List Event
keep true e es = e ∷ es
keep false e es = es

abbrev pub said : Author → List Entry → List Event
said a [] = []
said a (e ∷ es) = keep (same a e.author) e.event (said a es)

keep-append : (b : Bool) (e : Event) (xs ys : List Event) → keep b e (xs ++ ys) ≡ keep b e xs ++ ys
keep-append true e xs ys = refl
keep-append false e xs ys = refl

pub said-append : (a : Author) (xs ys : List Entry) → said a (xs ++ ys) ≡ said a xs ++ said a ys
said-append a [] ys = refl
said-append a (e ∷ xs) ys =
    ap (keep (same a e.author) e.event) (said-append a xs ys)
    ∙ keep-append (same a e.author) e.event (said a xs) (said a ys)

-- A log that another goroutine has added to.
pub said_other :
    (a b : Author) (e : Event) (log : List Entry)
    → same a b ≡ false
    → said a (log ++ record { author = b; event = e } ∷ []) ≡ said a log
said_other a b e log d = said-append a log _ ∙ (rw d (append-nil (said a log)))

pub said_own :
    (a : Author) (e : Event) (log : List Entry)
    → said a (log ++ record { author = a; event = e } ∷ []) ≡ said a log ++ e ∷ []
said_own main e log = said-append main log _
said_own states e log = said-append states log _
said_own watch e log = said-append watch log _

-- What the function has recorded at a stage, `l` before `machine.Start`.
abbrev pub spoken : List Event → Stage → List Event
spoken l starting = l
spoken l (refused e) = l
spoken l started = l
spoken l (start_failed e) = l ++ failure "vz_vm_run.start_failed" e ∷ []
spoken l exited =
    (l ++ event "vz_vm_run.start_returned" ∷ []) ++ event "vz_vm_run.microvm_exited" ∷ []
spoken l (killed s) = spoken l s
spoken l _ = l ++ event "vz_vm_run.start_returned" ∷ []

-- The function has received from `stoppedCh`.
abbrev pub is_woken : Stage → Bool
is_woken woken = true
is_woken exited = true
is_woken (killed s) = is_woken s
is_woken _ = false

-- The states that are received and not yet logged; and not yet passed on.
abbrev pub unlogged : Listener → List Bytes
unlogged ready = []
unlogged (received s) = s ∷ []
unlogged (logged s) = []

abbrev pub in_hand : Listener → List Bytes
in_hand ready = []
in_hand (received s) = s ∷ []
in_hand (logged s) = s ∷ []

-- The exit is recorded, with the machine's stop in front of it.
pub record IsClosing (log : List Entry) : Type 0 where
  pub before : List Entry
  pub after : List Entry
  pub splits :
      log ≡ before ++ record { author = main; event = event "vz_vm_run.microvm_exited" } ∷ after
  pub stop : Memᴰ (state_event stopped_state) (said states before)

-- `l` is what was recorded before `machine.Start`, `ms` all that the watch is going to record.
pub record Recorded (l ms : List Event) (s : Stage) (history queue : List Bytes) (k : Listener)
    (marks : List Event) (log : List Entry) : Type 0 where
  pub by_main : said main log ≡ spoken l s
  pub by_states : said states log ++ map state_event (unlogged k ++ queue) ≡ map state_event history
  pub by_watch : said watch log ++ marks ≡ ms

-- A value in `stoppedCh` stands for a logged stop, and a stop that was reported is not lost.
pub record Sound (s : Stage) (history queue : List Bytes) (k : Listener) (token : Bool)
    (log : List Entry) : Type 0 where
  pub logged_stop :
      (token ≡ true) ⊎ (is_woken s ≡ true) → Memᴰ (state_event stopped_state) (said states log)
  pub logged_state : (t : Bytes) → k ≡ logged t → Memᴰ (state_event t) (said states log)
  pub due :
      Memᴰ stopped_state history
      → (is_woken s ≡ true) ⊎ ((token ≡ true) ⊎ Memᴰ stopped_state (in_hand k ++ queue))
  pub closing : s ≡ exited → IsClosing log

abbrev pub IsRecorded : List Event → List Event → Process → Type 0
IsRecorded l ms p = Recorded l ms p.stage p.history p.queue p.listener p.marks p.log

abbrev pub IsSound : Process → Type 0
IsSound p = Sound p.stage p.history p.queue p.listener p.token p.log
