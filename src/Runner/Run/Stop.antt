-- ===== src/Runner/Run/Stop.antt =====
-- builtin/vmrun.go: the machine's stop, from `stateCh` over `stoppedCh` to the end of `RunVMGraphic`.
use weft_driver_vz.Common.{
  ◌≡◌, refl, sym, ap, ◌∙◌, subst, ◌≢◌, ◌⊎◌, inl, inr, Bool, true, false, List, [], ◌∷◌, ◌++◌,
  append_assoc, Bool-cases, Bytes, bytes_eq, bytes_eq_iff,
}
use mathlib.Core.List.{Memᴰ}
use mathlib.Core.List.Memᴰ
use weft_driver_vz.Marks.Watch.{Event}
use weft_driver_vz.Runner.Launch.{event}
use weft_driver_vz.Runner.Run.{
  Stage, exited, woken, Listener, ready, received, logged, main, states, Entry, Process,
  stopped_state, state_event, sent, Move, fails, returns, notifies, opens, takes_stop, takes_signal,
  asks, exits, receives, logs, passes, tails, Outside, reports, starts, refuses, signals, kills,
  closes, begun, Reach, here, moved, struck,
}
use weft_driver_vz.Runner.Run.Defs.{
  said, said-append, said_own, is_woken, in_hand, IsClosing, Sound, IsSound,
}

restage_lem :
    (s s' : Stage) (h q : List Bytes) (k : Listener) (t : Bool) (log : List Entry)
    → is_woken s' ≡ is_woken s
    → s' ≢ exited
    → Sound s h q k t log
    → Sound s' h q k t log
restage_lem s s' h q k t log d n i = record {
  logged_stop = (let f = i.logged_stop in rw (sym d) at f);
  logged_state = i.logged_state;
  due = (let f = i.due in rw (sym d) at f);
  closing = λ e. absurd (n e);
}

said_more :
    (e : Event) (log : List Entry) (ys : List Entry)
    → Memᴰ e (said states log)
    → Memᴰ e (said states (log ++ ys))
said_more e log ys m = rw (said-append states log ys) (Memᴰ.append_left (said states ys) m)

IsClosing-more : (log ys : List Entry) → IsClosing log → IsClosing (log ++ ys)
IsClosing-more log ys c = record {
  before = c.before;
  after = c.after ++ ys;
  splits = ap (λ (es : List Entry). es ++ ys) c.splits ∙ append_assoc c.before _ ys;
  stop = c.stop;
}

grow_lem :
    (s : Stage) (h q : List Bytes) (k : Listener) (t : Bool) (log ys : List Entry)
    → Sound s h q k t log
    → Sound s h q k t (log ++ ys)
grow_lem s h q k t log ys i = record {
  logged_stop = λ x. said_more _ log ys (i.logged_stop x);
  logged_state = λ u e. said_more _ log ys (i.logged_state u e);
  due = i.due;
  closing = λ e. IsClosing-more log ys (i.closing e);
}

exits-Sound :
    (s : Stage) (h q : List Bytes) (k : Listener) (t : Bool) (log : List Entry)
    → s ≡ woken
    → Sound s h q k t log
    → Sound exited h q k t
        (log ++ record { author = main; event = event "vz_vm_run.microvm_exited" } ∷ [])
exits-Sound s h q k t log a i = record {
  logged_stop = λ x. said_more _ log _ (i.logged_stop (inr (rw a refl)));
  logged_state = λ u e. said_more _ log _ (i.logged_state u e);
  due = λ m. inl refl;
  closing = λ e. record {
    before = log;
    after = [];
    splits = refl;
    stop = i.logged_stop (inr (rw a refl));
  };
}

sent-cases : (s : Bytes) (t : Bool) → sent s t ≡ true → (s ≡ stopped_state) ⊎ (t ≡ true)
sent-cases s t e = elim (Bool-cases (bytes_eq s stopped_state)) [
  | inl b ↦ inl ((bytes_eq_iff s stopped_state).0 b)
  | inr b ↦ inr (rw b at e)
]

pub sent-stopped : (t : Bool) → sent stopped_state t ≡ true
unfolding bytes_eq
sent-stopped t = refl

sent_kept : (s : Bytes) (t : Bool) → t ≡ true → sent s t ≡ true
sent_kept s t e = elim (Bool-cases (bytes_eq s stopped_state)) [
  | inl b ↦ rw b refl
  | inr b ↦ rw b e
]

passes-Sound :
    (s : Bytes) (g : Stage) (h q : List Bytes) (t : Bool) (log : List Entry)
    → Sound g h q (logged s) t log
    → Sound g h q ready (sent s t) log
passes-Sound s g h q t log i = record {
  logged_stop = λ x. elim x [
    | inl e ↦ elim (sent-cases s t e) [
      | inl d ↦
          subst (λ (u : Bytes). Memᴰ (state_event u) (said states log)) d (i.logged_state s refl)
      | inr d ↦ i.logged_stop (inl d)
    ]
    | inr e ↦ i.logged_stop (inr e)
  ];
  logged_state = λ u e. cc e;
  due = λ m. elim (i.due m) [
    | inl e ↦ inl e
    | inr (inl e) ↦ inr (inl (sent_kept s t e))
    | inr (inr n) ↦ elim (Memᴰ.cases_cons n) [
      | inl e ↦ inr (inl (subst (λ (u : Bytes). sent u t ≡ true) e (sent-stopped t)))
      | inr n' ↦ inr (inr n')
    ]
  ];
  closing = i.closing;
}

reports-Sound :
    (s : Bytes) (g : Stage) (h q : List Bytes) (k : Listener) (t : Bool) (log : List Entry)
    → Sound g h q k t log
    → Sound g (h ++ s ∷ []) (q ++ s ∷ []) k t log
reports-Sound s g h q k t log i = record {
  logged_stop = i.logged_stop;
  logged_state = i.logged_state;
  due = λ m. elim (Memᴰ.append_cases h m) [
    | inl n ↦ elim (i.due n) [
      | inl e ↦ inl e
      | inr (inl e) ↦ inr (inl e)
      | inr (inr n') ↦
          inr (inr (rw (sym (append_assoc (in_hand k) q (s ∷ []))) (Memᴰ.append_left (s ∷ []) n')))
    ]
    | inr n ↦ inr (inr (Memᴰ.append_right (in_hand k) (Memᴰ.append_right q n)))
  ];
  closing = i.closing;
}

receives-Sound :
    (s : Bytes) (g : Stage) (h q : List Bytes) (t : Bool) (log : List Entry)
    → Sound g h (s ∷ q) ready t log
    → Sound g h q (received s) t log
receives-Sound s g h q t log i = record {
  logged_stop = i.logged_stop;
  logged_state = λ u e. cc e;
  due = i.due;
  closing = i.closing;
}

logs-Sound :
    (s : Bytes) (g : Stage) (h q : List Bytes) (t : Bool) (log : List Entry)
    → Sound g h q (received s) t log
    → Sound g h q (logged s) t (log ++ record { author = states; event = state_event s } ∷ [])
logs-Sound s g h q t log i = record {
  logged_stop = λ x. said_more _ log _ (i.logged_stop x);
  logged_state = λ u e. rw (said_own states (state_event s) log) (
      Memᴰ.append_right (said states log)
        (Memᴰ.head (let d : s ≡ u = cc e in ap state_event (sym d))));
  due = i.due;
  closing = λ e. IsClosing-more log _ (i.closing e);
}

takes_stop-Sound :
    (g : Stage) (h q : List Bytes) (k : Listener) (t : Bool) (log : List Entry)
    → t ≡ true
    → Sound g h q k t log
    → Sound woken h q k false log
takes_stop-Sound g h q k t log e i = record {
  logged_stop = λ x. i.logged_stop (inl e);
  logged_state = i.logged_state;
  due = λ m. inl refl;
  closing = λ c. cc c;
}

-- Every step keeps a stop that was reported.
Move-IsSound : (micro : Bool) (p q : Process) → Move micro p q → IsSound p → IsSound q
Move-IsSound micro p q (fails e a d) i =
    rw d (grow_lem _ _ _ _ _ _ _ (restage_lem p.stage _ _ _ _ _ _ (rw a refl) (λ c. cc c) i))
Move-IsSound micro p q (returns a d) i =
    rw d (grow_lem _ _ _ _ _ _ _ (restage_lem p.stage _ _ _ _ _ _ (rw a refl) (λ c. cc c) i))
Move-IsSound micro p q (notifies a m d) i =
    rw d (restage_lem p.stage _ _ _ _ _ _ (rw a refl) (λ c. cc c) i)
Move-IsSound micro p q (opens a m d) i =
    rw d (restage_lem p.stage _ _ _ _ _ _ (rw a refl) (λ c. cc c) i)
Move-IsSound micro p q (takes_stop a t d) i = rw d (takes_stop-Sound p.stage _ _ _ p.token _ t i)
Move-IsSound micro p q (takes_signal a t d) i =
    rw d (restage_lem p.stage _ _ _ _ _ _ (rw a refl) (λ c. cc c) i)
Move-IsSound micro p q (asks a d) i =
    rw d (restage_lem p.stage _ _ _ _ _ _ (rw a refl) (λ c. cc c) i)
Move-IsSound micro p q (exits a d) i = rw d (exits-Sound p.stage _ _ _ _ _ a i)
Move-IsSound micro p q (receives s rest a b d) i =
    let i' = rw (a, b) at i in rw d (receives-Sound s p.stage _ rest _ _ i')
Move-IsSound micro p q (logs s a d) i = let i' = rw a at i in rw d (logs-Sound s p.stage _ _ _ _ i')
Move-IsSound micro p q (passes s a d) i =
    let i' = rw a at i in rw d (passes-Sound s p.stage _ _ _ _ i')
Move-IsSound micro p q (tails e rest a d) i = rw d (grow_lem p.stage _ _ _ _ _ _ i)

Outside-IsSound : (p q : Process) → Outside p q → IsSound p → IsSound q
Outside-IsSound p q (reports s d) i = rw d (reports-Sound s p.stage _ _ _ _ _ i)
Outside-IsSound p q (starts a d) i =
    rw d (restage_lem p.stage _ _ _ _ _ _ (rw a refl) (λ c. cc c) i)
Outside-IsSound p q (refuses e a d) i =
    rw d (restage_lem p.stage _ _ _ _ _ _ (rw a refl) (λ c. cc c) i)
Outside-IsSound p q (signals a d) i = rw d i
Outside-IsSound p q (kills a d) i = rw d (restage_lem p.stage _ _ _ _ _ _ refl (λ c. cc c) i)
Outside-IsSound p q (closes r a d) i =
    rw d (restage_lem p.stage _ _ _ _ _ _ (rw a refl) (λ c. cc c) i)

begun-IsSound : (l ms : List Event) → IsSound (begun l ms)
begun-IsSound l ms = record {
  logged_stop = λ x. elim x [ inl e ↦ absurd (cc e) | inr e ↦ absurd (cc e) ];
  logged_state = λ u e. cc e;
  due = λ m. absurd (Memᴰ.not-nil m);
  closing = λ e. cc e;
}

pub Reach-IsSound :
    (micro : Bool) (l ms : List Event) (p : Process) → Reach micro (begun l ms) p → IsSound p
Reach-IsSound micro l ms _ here = begun-IsSound l ms
Reach-IsSound micro l ms q (moved {p} r n m) =
    Move-IsSound micro p q m (Reach-IsSound micro l ms p r)
Reach-IsSound micro l ms q (struck {p} r n o) = Outside-IsSound p q o (Reach-IsSound micro l ms p r)

-- A microVM's process returns without an error only behind the machine's stop: the log has
-- `microvm_exited`, and in front of it the listener's event of the state Stopped.
pub exited-IsClosing :
    (micro : Bool) (l ms : List Event) (p : Process)
    → Reach micro (begun l ms) p
    → p.stage ≡ exited
    → IsClosing p.log
exited-IsClosing micro l ms p r e = (Reach-IsSound micro l ms p r).closing e
