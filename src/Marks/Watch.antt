-- ===== src/Marks/Watch.antt =====
-- builtin/vmrun.go: `watchConsoleForMarks`, the loop that tails the console log.
--
-- The file system and the clock enter as one `Poll` for each round of the loop: the content of the
-- log at that moment (`none` if it cannot be opened), and the clock's reading in that round. The
-- buffer holds 64 KiB, so a round reads at most so many bytes from the offset.
pub mod Lines
pub mod Laws
use weft_driver_vz.Common.{
  ℕ, zero, suc, ◌+◌, ◌-◌, ◌*◌, ◌/◌, ◌%◌, ◌^◌, ◌≤◌, ◌<◌, String, ◌≡◌, refl, sym, ap, ◌∙◌, subst,
  fun_ext, ◌≢◌, ◌↔◌, ◌⊎◌, inl, inr, Bool, true, false, not, ◌&&◌, ◌||◌, Option, none, some, List,
  [], ◌∷◌, ◌++◌, map, foldl, reverse, append-nil, append_assoc, reverse-append, reverse-reverse,
  arith, ltb, leb, ◌==◌, if◌then◌else◌, ==_iff, Bool-cases, Option-cases, length, take, drop,
  length-append, take-append-drop, drop-append, take-append, length-take, length-drop, take-nil,
  take-all, take_past, drop_past, All, All-append, Bytes, codes, bytes_eq, bytes_eq_iff,
}
use weft_driver_vz.Marks.Search.{index_nl}
use weft_driver_vz.Marks.Parse.{Mark, Meta, parse_mark}

-- An event as `record` receives it.
pub record Event : Type 0 where
  pub kind : Bytes
  pub meta : Option Meta

-- 30 s in ns.
abbrev pub idle_quit : ℕ
idle_quit = 30 * 1_000_000_000

abbrev pub buffer : ℕ
buffer = 64 * 1024

pub record Poll : Type 0 where
  pub content : Option Bytes
  pub now : ℕ

-- The loop's variables.
pub record Tail : Type 0 where
  pub off : ℕ
  pub idle_start : ℕ
  pub pending : Bytes

abbrev pub event_of : Mark → Event
event_of m = record { kind = codes "guest." ++ m.stage; meta = m.meta }

pub emit : Option Mark → List Event → List Event
emit none out = out
emit (some m) out = out ++ event_of m ∷ []

-- The body of the inner loop, `loop` being its next round.
pub drain_at :
    (Bytes → List Event → Option (List Event × Bytes))
    → Option ℕ
    → Bytes
    → List Event
    → Option (List Event × Bytes)
drain_at loop none chunk out = some (out, chunk)
drain_at loop (some i) chunk out = loop (drop (i + 1) chunk) (emit (parse_mark (take i chunk)) out)

-- The inner loop. Its result is what was recorded and the new `pending`; `none` means that the fuel
-- ran out.
pub drain : ℕ → Bytes → List Event → Option (List Event × Bytes)
drain zero chunk out = none
drain (suc fuel) chunk out = drain_at (drain fuel) (index_nl chunk) chunk out

-- What the function has recorded, its variables, and whether it has returned.
pub record Outcome : Type 0 where
  pub events : List Event
  pub tail : Tail
  pub quit : Bool

pub idle : ℕ → Tail → List Event → Option Outcome
idle now s out = some (record { events = out; tail = s; quit = ltb (s.idle_start + idle_quit) now })

pub settle : ℕ → ℕ → Option (List Event × Bytes) → Option Outcome
settle off now none = none
settle off now (some (out, pending)) = some (record {
  events = out;
  tail = record { off = off; idle_start = now; pending = pending };
  quit = false;
})

-- `got` is what `Read` put into the buffer.
pub advance : ℕ → Bytes → Tail → List Event → Option Outcome
advance now [] s out = idle now s out
advance now (b ∷ got) s out =
    let chunk = s.pending ++ b ∷ got in
    settle (s.off + length (b ∷ got)) now (drain (length chunk + 1) chunk out)

pub round_at : Option Bytes → ℕ → Tail → List Event → Option Outcome
round_at none now s out = idle now s out
round_at (some content) now s out = advance now (take buffer (drop s.off content)) s out

pub round : Poll → Tail → List Event → Option Outcome
round p s out = round_at p.content p.now s out

pub continue : (Tail → List Event → Option Outcome) → Option Outcome → Option Outcome
continue loop none = none
continue loop (some o) = let next = loop o.tail o.events in if o.quit then some o else next

-- The rounds that the polls stand for.
pub watch_from : List Poll → Tail → List Event → Option Outcome
watch_from [] s out = some (record { events = out; tail = s; quit = false })
watch_from (p ∷ ps) s out = continue (watch_from ps) (round p s out)

abbrev pub start : ℕ → Tail
start now = record { off = 0; idle_start = now; pending = [] }

-- The function, called at time `now`.
unfoldable pub watch : ℕ → List Poll → Option Outcome
unfolding watch_from continue round round_at advance settle idle drain drain_at emit
watch now polls = watch_from polls (start now) []
