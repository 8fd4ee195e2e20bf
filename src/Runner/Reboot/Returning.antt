-- ===== src/Runner/Reboot/Returning.antt =====
-- builtin/consoletab.go: when `goVMReboot` comes to its end.
use weft_driver_vz.Common.{
  ℕ, ◌+◌, ◌≡◌, refl, sym, ◌⊎◌, inl, inr, true, some, List, [], ◌∷◌, ◌++◌, append_assoc, ltb,
  Bool-cases,
}
use weft_driver_vz.Runner.Reboot.{
  Look, Act, saw, request_stop, hard_stop, start, patience, Trace, behind, await_round, await_stop,
  down_round, await_down, start_again, go_down, reboot,
}

-- A wait that comes to its end.
abbrev Ended : Trace → Type 0
Ended t = (acts : List Act) × (rest : List Look) × (t ≡ some (acts, rest))

behind-Ended : (a : Act) (t : Trace) → Ended t → Ended (behind a t)
unfolding behind
behind-Ended a t (acts, rest, e) = (a ∷ acts, rest, rw e refl)

await_down_later :
    (xs : List Look) (l : Look) (ys : List Look)
    → l.stopped ≡ true
    → Ended (await_down (xs ++ l ∷ ys))
unfolding await_down down_round
await_down_later [] l ys s = behind-Ended (saw l) _ ([], ys, rw s refl)
await_down_later (x ∷ xs) l ys s = behind-Ended (saw x) _ (elim (Bool-cases x.stopped) [
  | inl t ↦ ([], xs ++ l ∷ ys, rw t refl)
  | inr t ↦ let (a, r, e) = await_down_later xs l ys s in (a, r, rw t e)
])

later_still :
    (xs : List Look) (l m : Look) (ys zs : List Look)
    → m.stopped ≡ true
    → Ended (await_down (xs ++ l ∷ (ys ++ m ∷ zs)))
later_still xs l m ys zs d =
    rw (sym (append_assoc xs (l ∷ ys) (m ∷ zs))) (await_down_later (xs ++ l ∷ ys) m zs d)

-- A first loop that ends and leaves looks with which the second one ends.
record Ends (t : Trace) : Type 0 where
  acts : List Act
  rest : List Look
  runs : t ≡ some (acts, rest)
  down : Ended (await_down rest)

behind-Ends : (a : Act) (t : Trace) → Ends t → Ends (behind a t)
unfolding behind
behind-Ends a t e = record {
  acts = a ∷ e.acts;
  rest = e.rest;
  runs = rw e.runs refl;
  down = e.down;
}

-- At the latest the look `l` ends the first loop, so that what follows it is still to come.
await_stop_later :
    (deadline : ℕ) (xs : List Look) (l m : Look) (ys zs : List Look)
    → (l.stopped ≡ true) ⊎ (ltb deadline l.now ≡ true)
    → m.stopped ≡ true
    → Ends (await_stop deadline (xs ++ l ∷ (ys ++ m ∷ zs)))
unfolding await_stop await_round
await_stop_later deadline [] l m ys zs h d =
    let after = await_down_later ys m zs d in
    behind-Ends (saw l) _ (elim (Bool-cases l.stopped) [
      | inl s ↦ record { acts = []; rest = _; runs = rw s refl; down = after }
      | inr s ↦ elim h [
        | inl t ↦ absurd (cc (s, t))
        | inr t ↦ record { acts = hard_stop ∷ []; rest = _; runs = rw (s, t) refl; down = after }
      ]
    ])
await_stop_later deadline (x ∷ xs) l m ys zs h d =
    let after = later_still xs l m ys zs d in
    behind-Ends (saw x) _ (elim (Bool-cases x.stopped) [
      | inl s ↦ record { acts = []; rest = _; runs = rw s refl; down = after }
      | inr s ↦ elim (Bool-cases (ltb deadline x.now)) [
        | inl t ↦ record { acts = hard_stop ∷ []; rest = _; runs = rw (s, t) refl; down = after }
        | inr t ↦
            let e = await_stop_later deadline xs l m ys zs h d in
            record { acts = e.acts; rest = e.rest; runs = rw (s, t) e.runs; down = e.down }
      ]
    ])

-- A reboot comes to its end: it is enough that the machine is seen stopped, or is looked at after
-- the deadline, and that it is seen stopped once more after that.
pub reboot_returns :
    (began : ℕ) (xs ys zs : List Look) (l m : Look)
    → (l.stopped ≡ true) ⊎ (ltb (began + patience) l.now ≡ true)
    → m.stopped ≡ true
    → (acts : List Act) × (reboot true began (xs ++ l ∷ (ys ++ m ∷ zs)) ≡ some acts)
unfolding reboot go_down start_again
reboot_returns began xs ys zs l m h d =
    let e = await_stop_later (began + patience) xs l m ys zs h d in
    let (acts, rest, f) = e.down in
    (request_stop ∷ (e.acts ++ (acts ++ start ∷ [])), rw (e.runs, f) refl)
