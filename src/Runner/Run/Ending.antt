-- ===== src/Runner/Run/Ending.antt =====
-- builtin/vmrun.go: the end of a microVM's `RunVMGraphic` behind the machine's stop.
use weft_driver_vz.Common.{
  ◌≡◌, refl, subst, ◌⊎◌, inl, inr, Bool, true, false, List, [], ◌∷◌, ◌++◌, Bytes,
}
use mathlib.Core.List.{Memᴰ}
use mathlib.Core.List.Memᴰ
use weft_driver_vz.Marks.Watch.{Event}
use weft_driver_vz.Runner.Run.{
  Stage, choosing, signalled, stopping, woken, exited, ended, Listener, ready, received, logged,
  Process, stopped_state, sent, Move, takes_stop, asks, exits, receives, logs, passes, begun, Reach,
  moved, Moves, stay, go,
}
use weft_driver_vz.Runner.Run.Defs.{is_woken, in_hand, IsSound}
use weft_driver_vz.Runner.Run.Stop.{sent-stopped, Reach-IsSound}

-- In the select or in the receive from `stoppedCh` alone; or between the two.
abbrev pub IsReceiving : Stage → Type 0
IsReceiving s = (s ≡ choosing) ⊎ (s ≡ stopping)

abbrev pub IsWaiting : Stage → Type 0
IsWaiting s = IsReceiving s ⊎ (s ≡ signalled)

-- The goroutines can take the process to its end without a step from outside.
pub record Ends (micro : Bool) (p : Process) : Type 0 where
  pub last : Process
  pub moves : Moves micro p last
  pub exits : last.stage ≡ exited

receiving-ended : (s : Stage) → IsReceiving s → ended s ≡ false
receiving-ended s (inl e) = rw e refl
receiving-ended s (inr e) = rw e refl

receiving-woken : (s : Stage) → IsReceiving s → is_woken s ≡ false
receiving-woken s (inl e) = rw e refl
receiving-woken s (inr e) = rw e refl

module _ (micro : Bool) where
  go-Ends : (p q : Process) → ended p.stage ≡ false → Move micro p q → Ends micro q → Ends micro p
  go-Ends p q n m e = record { last = e.last; moves = go n m e.moves; exits = e.exits }

  woken-Ends : (p : Process) → p.stage ≡ woken → Ends micro p
  woken-Ends p e =
      go-Ends p _ (rw e refl) (exits e refl) (record { last = _; moves = stay; exits = refl })

  token-Ends : (p : Process) → IsReceiving p.stage → p.token ≡ true → Ends micro p
  token-Ends p r t =
      go-Ends p _ (receiving-ended p.stage r) (takes_stop r t refl) (woken-Ends _ refl)

  passes-Ends :
      (s : Bytes) (p : Process)
      → p.listener ≡ logged s
      → IsReceiving p.stage
      → Memᴰ stopped_state (s ∷ p.queue)
      → ((t : Bool)
          → Memᴰ stopped_state p.queue
          → Ends micro (record p { listener = ready; token = t }))
      → Ends micro p
  passes-Ends s p l r m rest =
      go-Ends p _ (receiving-ended p.stage r) (passes s l refl) (elim (Memᴰ.cases_cons m) [
        | inl e ↦
            token-Ends _ r (subst (λ (u : Bytes). sent u p.token ≡ true) e (sent-stopped p.token))
        | inr n ↦ rest _ n
      ])

  logs-Ends :
      (s : Bytes) (p : Process)
      → p.listener ≡ received s
      → IsReceiving p.stage
      → Memᴰ stopped_state (s ∷ p.queue)
      → ((q : Process)
          → q.queue ≡ p.queue
          → q.listener ≡ ready
          → IsReceiving q.stage
          → Memᴰ stopped_state p.queue
          → Ends micro q)
      → Ends micro p
  logs-Ends s p l r m rest =
      go-Ends p _ (receiving-ended p.stage r) (logs s l refl)
        (passes-Ends s _ refl r m (λ t n. rest _ refl refl r n))

  ready-Ends :
      (qs : List Bytes) (p : Process)
      → p.queue ≡ qs
      → p.listener ≡ ready
      → IsReceiving p.stage
      → Memᴰ stopped_state qs
      → Ends micro p
  ready-Ends [] p e l r m = absurd (Memᴰ.not-nil m)
  ready-Ends (s ∷ qs) p e l r m =
      go-Ends p _ (receiving-ended p.stage r) (receives s qs l e refl)
        (logs-Ends s _ refl r m (λ q d k x n. ready-Ends qs q d k x n))

  listener-Ends :
      (k : Listener) (p : Process)
      → p.listener ≡ k
      → IsReceiving p.stage
      → Memᴰ stopped_state (in_hand k ++ p.queue)
      → Ends micro p
  listener-Ends ready p l r m = ready-Ends p.queue p refl l r m
  listener-Ends (received s) p l r m =
      logs-Ends s p l r m (λ q d k x n. ready-Ends p.queue q d k x n)
  listener-Ends (logged s) p l r m =
      passes-Ends s p l r m (λ t n. ready-Ends p.queue _ refl refl r n)

  due-Ends :
      (p : Process) → IsReceiving p.stage → IsSound p → Memᴰ stopped_state p.history → Ends micro p
  due-Ends p r i m = elim (i.due m) [
    | inl e ↦ let f = receiving-woken p.stage r in absurd (cc (e, f))
    | inr (inl t) ↦ token-Ends p r t
    | inr (inr n) ↦ listener-Ends p.listener p refl r n
  ]

-- Once the machine has reported the state Stopped, a microVM's process that waits can come to its
-- end by steps of its own goroutines, whatever came before: the stop is not lost, not even if it
-- came before the function's receive or a signal was taken first.
pub waiting-Ends :
    (micro : Bool) (l ms : List Event) (p : Process)
    → Reach micro (begun l ms) p
    → IsWaiting p.stage
    → Memᴰ stopped_state p.history
    → Ends micro p
waiting-Ends micro l ms p r (inl x) m = due-Ends micro p x (Reach-IsSound micro l ms p r) m
waiting-Ends micro l ms p r (inr e) m =
    let i = Reach-IsSound micro l ms p r in
    go-Ends micro p _ (rw e refl) (asks e refl) (
      due-Ends micro _ (inr refl) (Reach-IsSound micro l ms _ (moved r (rw e refl) (asks e refl)))
        m)
