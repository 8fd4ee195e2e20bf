-- ===== src/Runner/Reboot.antt =====
-- builtin/consoletab.go: `goVMReboot`, which the console tab's button calls.
--
-- A round of either loop asks the machine for its state, and may read the clock: a `Look`. The result
-- lists the looks and the calls in the order in which they are made. What the calls of the machine
-- return is printed and has no further effect.
pub mod Laws
pub mod Returning
use weft_driver_vz.Common.{
  ℕ, zero, suc, ◌+◌, ◌-◌, ◌*◌, ◌/◌, ◌%◌, ◌^◌, ◌≤◌, ◌<◌, String, ◌≡◌, refl, sym, ap, ◌∙◌, subst,
  fun_ext, ◌≢◌, ◌↔◌, ◌⊎◌, inl, inr, Bool, true, false, not, ◌&&◌, ◌||◌, Option, none, some, List,
  [], ◌∷◌, ◌++◌, map, foldl, reverse, append-nil, append_assoc, reverse-append, reverse-reverse,
  arith, ltb, leb, ◌==◌, if◌then◌else◌, ==_iff, Bool-cases, Option-cases, length, take, drop,
  length-append, take-append-drop, drop-append, take-append, length-take, length-drop, take-nil,
  take-all, take_past, drop_past, All, All-append, Bytes, codes, bytes_eq, bytes_eq_iff,
}

pub record Look : Type 0 where
  -- The state is `VirtualMachineStateStopped`.
  pub stopped : Bool
  -- Nanoseconds.
  pub now : ℕ

-- What the goroutine does with the machine: it looks at its state, or calls it.
pub data Act : Type 0 where
  saw : Look → Act
  request_stop hard_stop start : Act

-- 30 s in ns.
abbrev pub patience : ℕ
patience = 30 * 1_000_000_000

-- What is done, and the looks left; `none` means that the looks have run out.
abbrev pub Trace : Type 0
Trace = Option (List Act × List Look)

pub behind : Act → Trace → Trace
behind a none = none
behind a (some (acts, rest)) = some (a ∷ acts, rest)

-- A round of the first loop: whether the machine is stopped, whether the deadline has passed, the
-- looks that are left, and the loop's next round.
pub await_round : Bool → Bool → List Look → Trace → Trace
await_round true late rest next = some ([], rest)
await_round false true rest next = some (hard_stop ∷ [], rest)
await_round false false rest next = next

pub await_stop : ℕ → List Look → Trace
unfolding await_round behind
await_stop deadline [] = none
await_stop deadline (l ∷ ls) =
    behind (saw l) (await_round l.stopped (ltb deadline l.now) ls (await_stop deadline ls))

-- A round of the second loop.
pub down_round : Bool → List Look → Trace → Trace
down_round true rest next = some ([], rest)
down_round false rest next = next

pub await_down : List Look → Trace
unfolding down_round behind
await_down [] = none
await_down (l ∷ ls) = behind (saw l) (down_round l.stopped ls (await_down ls))

pub start_again : List Act → Trace → Option (List Act)
start_again before none = none
start_again before (some (acts, rest)) = some (request_stop ∷ (before ++ (acts ++ start ∷ [])))

pub go_down : Trace → Option (List Act)
unfolding start_again
go_down none = none
go_down (some (acts, rest)) = start_again acts (await_down rest)

-- The goroutine that is started at `began`, where there is a machine, if the looks that it gets
-- bring it to its end.
unfoldable pub reboot : Bool → ℕ → List Look → Option (List Act)
unfolding go_down start_again await_stop await_round await_down down_round behind
reboot false began looks = some []
reboot true began looks = go_down (await_stop (began + patience) looks)
