-- ===== src/Runner/Run/Laws.antt =====
-- builtin/vmrun.go: what the log of `RunVMGraphic` holds, whatever the order of its goroutines' steps.
use weft_driver_vz.Common.{
  ◌≡◌, refl, sym, ap, ◌∙◌, ◌≢◌, inl, inr, Bool, List, [], ◌∷◌, ◌++◌, map, append_assoc, Bytes,
}
use mathlib.Core.List.{map-append}
use weft_driver_vz.Marks.Watch.{Event}
use weft_driver_vz.Runner.Run.{
  Stage, Listener, Author, main, states, watch, Entry, Process, state_event, Move, fails, returns,
  notifies, opens, takes_stop, takes_signal, asks, exits, receives, logs, passes, tails, Outside,
  reports, starts, refuses, signals, kills, closes, entries, begun, Reach, here, moved, struck,
}
use weft_driver_vz.Runner.Run.Defs.{
  said, said_own, said_other, spoken, unlogged, Recorded, IsRecorded,
}

reported_lem :
    (es : List Event) (u k h : List Bytes) (s : Bytes)
    → es ++ map state_event (u ++ k) ≡ map state_event h
    → es ++ map state_event (u ++ (k ++ s ∷ [])) ≡ map state_event (h ++ s ∷ [])
reported_lem es u k h s e =
    rw
      (
        sym (append_assoc u k (s ∷ [])),
        map-append state_event (u ++ k) (s ∷ []),
        map-append state_event h (s ∷ []),
        sym (append_assoc es (map state_event (u ++ k)) (state_event s ∷ [])),
        e,
      )
      refl

said-entries : (l : List Event) → said main (entries l) ≡ l
said-entries [] = refl
said-entries (e ∷ l) = ap (λ (es : List Event). e ∷ es) (said-entries l)

silent_entries : (a : Author) (l : List Event) → a ≢ main → said a (entries l) ≡ []
silent_entries a [] n = refl
silent_entries main (e ∷ l) n = absurd (n refl)
silent_entries states (e ∷ l) n = silent_entries states l n
silent_entries watch (e ∷ l) n = silent_entries watch l n

module _ (l ms : List Event) where
  -- The function records an event on its way from one stage to another.
  by_main_lem :
      (s s' : Stage) (e : Event) (history queue : List Bytes) (k : Listener) (marks : List Event)
      (log : List Entry)
      → spoken l s' ≡ spoken l s ++ e ∷ []
      → Recorded l ms s history queue k marks log
      → Recorded l ms s' history queue k marks (log ++ record { author = main; event = e } ∷ [])
  by_main_lem s s' e history queue k marks log d r = record {
    by_main = said_own main e log ∙ (ap (λ (es : List Event). es ++ e ∷ []) r.by_main ∙ sym d);
    by_states = rw (said_other states main e log refl) r.by_states;
    by_watch = rw (said_other watch main e log refl) r.by_watch;
  }

  silent_lem :
      (s s' : Stage) (history queue : List Bytes) (k : Listener) (marks : List Event)
      (log : List Entry)
      → spoken l s ≡ spoken l s'
      → Recorded l ms s history queue k marks log
      → Recorded l ms s' history queue k marks log
  silent_lem s s' history queue k marks log d r = record {
    by_main = r.by_main ∙ d;
    by_states = r.by_states;
    by_watch = r.by_watch;
  }

  Move-IsRecorded :
      (micro : Bool) (p q : Process) → Move micro p q → IsRecorded l ms p → IsRecorded l ms q
  Move-IsRecorded micro p q (fails e a d) r = rw d (by_main_lem p.stage _ _ _ _ _ _ _ (rw a refl) r)
  Move-IsRecorded micro p q (returns a d) r = rw d (by_main_lem p.stage _ _ _ _ _ _ _ (rw a refl) r)
  Move-IsRecorded micro p q (notifies a m d) r = rw d (silent_lem p.stage _ _ _ _ _ _ (rw a refl) r)
  Move-IsRecorded micro p q (opens a m d) r = rw d (silent_lem p.stage _ _ _ _ _ _ (rw a refl) r)
  Move-IsRecorded micro p q (takes_stop (inl a) t d) r =
      rw d (silent_lem p.stage _ _ _ _ _ _ (rw a refl) r)
  Move-IsRecorded micro p q (takes_stop (inr a) t d) r =
      rw d (silent_lem p.stage _ _ _ _ _ _ (rw a refl) r)
  Move-IsRecorded micro p q (takes_signal a t d) r =
      rw d (silent_lem p.stage _ _ _ _ _ _ (rw a refl) r)
  Move-IsRecorded micro p q (asks a d) r = rw d (silent_lem p.stage _ _ _ _ _ _ (rw a refl) r)
  Move-IsRecorded micro p q (exits a d) r = rw d (by_main_lem p.stage _ _ _ _ _ _ _ (rw a refl) r)
  Move-IsRecorded micro p q (receives s rest a b d) r = rw d (record {
    by_main = r.by_main;
    by_states = (let e = r.by_states in rw (a, b) at e);
    by_watch = r.by_watch;
  })
  Move-IsRecorded micro p q (logs s a d) r = rw d (record {
    by_main = rw (said_other main states (state_event s) p.log refl) r.by_main;
    by_states =
        (let e = r.by_states in
          let e' = rw a at e in
          rw (said_own states (state_event s) p.log)
            (append_assoc (said states p.log) (state_event s ∷ []) _ ∙ e'));
    by_watch = rw (said_other watch states (state_event s) p.log refl) r.by_watch;
  })
  Move-IsRecorded micro p q (passes s a d) r = rw d (record {
    by_main = r.by_main;
    by_states = (let e = r.by_states in rw a at e);
    by_watch = r.by_watch;
  })
  Move-IsRecorded micro p q (tails e rest a d) r = rw d (record {
    by_main = rw (said_other main watch e p.log refl) r.by_main;
    by_states = rw (said_other states watch e p.log refl) r.by_states;
    by_watch =
        (let x = r.by_watch in
          let x' = rw a at x in
          rw (said_own watch e p.log) (append_assoc (said watch p.log) (e ∷ []) rest ∙ x'));
  })

  Outside-IsRecorded : (p q : Process) → Outside p q → IsRecorded l ms p → IsRecorded l ms q
  Outside-IsRecorded p q (reports s d) r = rw d (record {
    by_main = r.by_main;
    by_states =
        reported_lem (said states p.log) (unlogged p.listener) p.queue p.history s r.by_states;
    by_watch = r.by_watch;
  })
  Outside-IsRecorded p q (starts a d) r = rw d (silent_lem p.stage _ _ _ _ _ _ (rw a refl) r)
  Outside-IsRecorded p q (refuses e a d) r = rw d (silent_lem p.stage _ _ _ _ _ _ (rw a refl) r)
  Outside-IsRecorded p q (signals a d) r = rw d r
  Outside-IsRecorded p q (kills a d) r = rw d (silent_lem p.stage _ _ _ _ _ _ refl r)
  Outside-IsRecorded p q (closes e a d) r = rw d (silent_lem p.stage _ _ _ _ _ _ (rw a refl) r)

  begun-IsRecorded : IsRecorded l ms (begun l ms)
  begun-IsRecorded = record {
    by_main = said-entries l;
    by_states = ap (λ (es : List Event). es ++ []) (silent_entries states l (λ e. cc));
    by_watch = ap (λ (es : List Event). es ++ ms) (silent_entries watch l (λ e. cc));
  }

-- Whatever the order of the steps, the log has from the function exactly the events of its stage,
-- behind those from before `machine.Start`; from the listener the states that the machine has
-- reported, in their order, up to those not yet logged; and from the watch of the console its marks
-- in their order, up to those not yet recorded.
pub Reach-IsRecorded :
    (micro : Bool) (l ms : List Event) (p : Process)
    → Reach micro (begun l ms) p
    → IsRecorded l ms p
Reach-IsRecorded micro l ms _ here = begun-IsRecorded l ms
Reach-IsRecorded micro l ms q (moved {p} r n m) =
    Move-IsRecorded l ms micro p q m (Reach-IsRecorded micro l ms p r)
Reach-IsRecorded micro l ms q (struck {p} r n o) =
    Outside-IsRecorded l ms p q o (Reach-IsRecorded micro l ms p r)
