-- ===== src/Runner/Reboot/Laws.antt =====
-- builtin/consoletab.go: when `goVMReboot` stops the machine hard and starts it again.
use weft_driver_vz.Common.{
  ℕ, ◌+◌, ◌≡◌, refl, sym, ap, ◌∙◌, ◌⊎◌, inl, inr, true, false, none, some, List, [], ◌∷◌, ◌++◌, map,
  append_assoc, ltb, Bool-cases, All,
}
use weft_driver_vz.Runner.Reboot.{
  Look, Act, saw, request_stop, hard_stop, start, patience, Trace, behind, await_round, await_stop,
  down_round, await_down, start_again, go_down, reboot,
}

-- The machine runs and there is time left.
abbrev pub IsPatient : ℕ → Look → Type 0
IsPatient deadline l = (l.stopped ≡ false) × (ltb deadline l.now ≡ false)

-- Whether the last look of the first loop is followed by a hard stop.
abbrev pub IsLast : ℕ → Look → List Act → Type 0
IsLast deadline l acts =
    ((l.stopped ≡ true) × (acts ≡ []))
    ⊎ ((l.stopped ≡ false) × (ltb deadline l.now ≡ true) × (acts ≡ hard_stop ∷ []))

-- The looks `first` and `last` of the first loop, with what its end does, and `second` and `down` of
-- the second one.
pub record IsRebooted (deadline : ℕ) (looks : List Look) (acts : List Act) : Type 0 where
  pub first : List Look
  pub last : Look
  pub forced : List Act
  pub second : List Look
  pub down : Look
  pub rest : List Look
  pub taken : looks ≡ first ++ last ∷ (second ++ down ∷ rest)
  pub order :
      acts
      ≡ request_stop
        ∷ (map saw first ++ saw last ∷ (forced ++ (map saw second ++ saw down ∷ start ∷ [])))
  pub patient : All (IsPatient deadline) first
  pub ends : IsLast deadline last forced
  pub running : All (λ (l : Look). l.stopped ≡ false) second
  pub stopped : down.stopped ≡ true

record IsAwaited (deadline : ℕ) (looks : List Look) (acts : List Act) (rest : List Look)
    : Type 0 where
  first : List Look
  last : Look
  forced : List Act
  taken : looks ≡ first ++ last ∷ rest
  order : acts ≡ map saw first ++ saw last ∷ forced
  patient : All (IsPatient deadline) first
  ends : IsLast deadline last forced

record IsDown (looks : List Look) (acts : List Act) (rest : List Look) : Type 0 where
  second : List Look
  down : Look
  taken : looks ≡ second ++ down ∷ rest
  order : acts ≡ map saw second ++ saw down ∷ []
  running : All (λ (l : Look). l.stopped ≡ false) second
  stopped : down.stopped ≡ true

-- What is done behind an act is what is left of the whole.
behind-some :
    (a : Act) (t : Trace) (acts : List Act) (rest : List Look)
    → behind a t ≡ some (acts, rest)
    → (more : List Act) × (t ≡ some (more, rest)) × (acts ≡ a ∷ more)
unfolding behind
behind-some a none acts rest e = cc e
behind-some a (some (more, left)) acts rest e =
    let p : a ∷ more ≡ acts = cc in
    let q : left ≡ rest = cc in (more, ap (λ (x : List Look). some (more, x)) q, sym p)

await_stop-IsAwaited :
    (deadline : ℕ) (looks : List Look) (acts : List Act) (rest : List Look)
    → await_stop deadline looks ≡ some (acts, rest)
    → IsAwaited deadline looks acts rest
unfolding await_stop await_round
await_stop-IsAwaited deadline [] acts rest e = cc e
await_stop-IsAwaited deadline (l ∷ ls) acts rest e =
    let (more, e1, q) = behind-some (saw l) _ acts rest e in
    elim (Bool-cases l.stopped) [
      | inl s ↦
          let e2 = rw s at e1 in
          let a : [] ≡ more = cc in
          let b : ls ≡ rest = cc in
          record {
            first = [];
            last = l;
            forced = [];
            taken = ap (λ (x : List Look). l ∷ x) b;
            order = q ∙ ap (λ (x : List Act). saw l ∷ x) (sym a);
            patient = tt;
            ends = inl (s, refl);
          }
      | inr s ↦ elim (Bool-cases (ltb deadline l.now)) [
        | inl t ↦
            let e2 = rw (s, t) at e1 in
            let a : hard_stop ∷ [] ≡ more = cc in
            let b : ls ≡ rest = cc in
            record {
              first = [];
              last = l;
              forced = hard_stop ∷ [];
              taken = ap (λ (x : List Look). l ∷ x) b;
              order = q ∙ ap (λ (x : List Act). saw l ∷ x) (sym a);
              patient = tt;
              ends = inr (s, t, refl);
            }
        | inr t ↦
            let e2 = rw (s, t) at e1 in
            let i = await_stop-IsAwaited deadline ls more rest e2 in
            record {
              first = l ∷ i.first;
              last = i.last;
              forced = i.forced;
              taken = ap (λ (x : List Look). l ∷ x) i.taken;
              order = q ∙ ap (λ (x : List Act). saw l ∷ x) i.order;
              patient = ((s, t), i.patient);
              ends = i.ends;
            }
      ]
    ]

await_down-IsDown :
    (looks : List Look) (acts : List Act) (rest : List Look)
    → await_down looks ≡ some (acts, rest)
    → IsDown looks acts rest
unfolding await_down down_round
await_down-IsDown [] acts rest e = cc e
await_down-IsDown (l ∷ ls) acts rest e =
    let (more, e1, q) = behind-some (saw l) _ acts rest e in
    elim (Bool-cases l.stopped) [
      | inl s ↦
          let e2 = rw s at e1 in
          let a : [] ≡ more = cc in
          let b : ls ≡ rest = cc in
          record {
            second = [];
            down = l;
            taken = ap (λ (x : List Look). l ∷ x) b;
            order = q ∙ ap (λ (x : List Act). saw l ∷ x) (sym a);
            running = tt;
            stopped = s;
          }
      | inr s ↦
          let e2 = rw s at e1 in
          let i = await_down-IsDown ls more rest e2 in
          record {
            second = l ∷ i.second;
            down = i.down;
            taken = ap (λ (x : List Look). l ∷ x) i.taken;
            order = q ∙ ap (λ (x : List Act). saw l ∷ x) i.order;
            running = (s, i.running);
            stopped = i.stopped;
          }
    ]

start_again-some :
    (before : List Act) (t : Trace) (acts : List Act)
    → start_again before t ≡ some acts
    → (more : List Act) × (rest : List Look) × (t ≡ some (more, rest))
      × (acts ≡ request_stop ∷ (before ++ (more ++ start ∷ [])))
unfolding start_again
start_again-some before none acts e = cc e
start_again-some before (some (more, rest)) acts e = (more, rest, refl, cc)

go_down-some :
    (t : Trace) (acts : List Act)
    → go_down t ≡ some acts
    → (before : List Act) × (rest : List Look) × (t ≡ some (before, rest))
      × (start_again before (await_down rest) ≡ some acts)
unfolding go_down
go_down-some none acts e = cc e
go_down-some (some (before, rest)) acts e = (before, rest, refl, e)

-- A reboot that runs to its end first requests a stop. It then looks at the machine again and again
-- while it runs and at most 30 s have passed; the look at which it does not go on either sees the
-- machine stopped, or sees it run after the 30 s, and then, and only then, the machine is stopped
-- hard. After that it looks on while the machine runs, and starts it directly behind the first look
-- that sees it stopped, which is its last act.
pub reboot-IsRebooted :
    (began : ℕ) (looks : List Look) (acts : List Act)
    → reboot true began looks ≡ some acts
    → IsRebooted (began + patience) looks acts
unfolding reboot
reboot-IsRebooted began looks acts e =
    let (before, left, e1, e2) = go_down-some (await_stop (began + patience) looks) acts e in
    let (more, rest, e3, e4) = start_again-some before (await_down left) acts e2 in
    let a = await_stop-IsAwaited (began + patience) looks before left e1 in
    let d = await_down-IsDown left more rest e3 in
    record {
      first = a.first;
      last = a.last;
      forced = a.forced;
      second = d.second;
      down = d.down;
      rest = rest;
      taken = a.taken ∙ ap (λ (x : List Look). a.first ++ a.last ∷ x) d.taken;
      order =
          e4
          ∙ ap (λ (x : List Act). request_stop ∷ x)
              (rw
                (
                  a.order,
                  d.order,
                  append_assoc (map saw a.first) (saw a.last ∷ a.forced)
                      ((map saw d.second ++ saw d.down ∷ []) ++ start ∷ []),
                  append_assoc (map saw d.second) (saw d.down ∷ []) (start ∷ []),
                )
                refl);
      patient = a.patient;
      ends = a.ends;
      running = d.running;
      stopped = d.stopped;
    }
