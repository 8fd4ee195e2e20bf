-- ===== src/Marks/Watch/Laws.antt =====
-- builtin/vmrun.go: what `watchConsoleForMarks` records of a log that grows while it is read.
use weft_driver_vz.Common.{
  ℕ, zero, suc, ◌+◌, ◌-◌, ◌*◌, ◌≤◌, ◌<◌, ◌≡◌, refl, sym, ap, ◌∙◌, inl, inr, true, false, Option,
  none, some, List, [], ◌∷◌, ◌++◌, append-nil, append_assoc, arith, Bool-cases, Option-cases,
  length, take, drop, length-take, length-drop, take-nil, take-all, All, Bytes,
}
use Prim.Native.Nat.{min}
use native.Mathlib.Nat.{suc-add, zero-add, add-zero}
use weft_driver_vz.Marks.Search.{index_nl}
use weft_driver_vz.Marks.Parse.{Mark, parse_mark}
use weft_driver_vz.Marks.Watch.{
  Event, Poll, Tail, Outcome, event_of, emit, drain, drain_at, idle, settle, advance, round_at,
  round, continue, watch_from, watch, start, buffer,
}
use weft_driver_vz.Marks.Watch.Lines.{
  lines, rest, lines_from, rest_from, lines_from-append, rest_from-append, lines_from-Lacks,
  rest_from-Lacks, index_nl-none, index_nl-some, lines-nil, rest-nil,
}

-- The events of the marks among some lines, in order.
abbrev pub mark_event : Option Mark → List Event
mark_event none = []
mark_event (some m) = event_of m ∷ []

abbrev pub marks_of : List Bytes → List Event
marks_of [] = []
marks_of (l ∷ ls) = mark_event (parse_mark l) ++ marks_of ls

emit_lem : (m : Option Mark) (out : List Event) → emit m out ≡ out ++ mark_event m
unfolding emit
emit_lem none out = sym (append-nil out)
emit_lem (some m) out = refl

marks_of-append : (a b : List Bytes) → marks_of (a ++ b) ≡ marks_of a ++ marks_of b
marks_of-append [] b = refl
marks_of-append (l ∷ a) b = rw (marks_of-append a b, append_assoc)

-- With more fuel than there are bytes, the inner loop consumes every complete line of the chunk,
-- records the marks among them in order, and keeps the open line.
pub drain-lines :
    (fuel : ℕ) (chunk : Bytes) (out : List Event)
    → length chunk < fuel
    → drain fuel chunk out ≡ some (out ++ marks_of (lines chunk), rest chunk)
unfolding drain drain_at
drain-lines zero chunk out h = absurd (omega arith)
drain-lines (suc fuel) chunk out h = elim (Option-cases (index_nl chunk)) [
  | inl e ↦ let (p, q) = index_nl-none chunk e in rw (e, p, q, append-nil) refl
  | inr (i, e) ↦
      let f = index_nl-some chunk i e in
      rw (e, f.line, f.open_line)
        (drain-lines fuel (drop (i + 1) chunk) (emit (parse_mark (take i chunk)) out)
            (omega (arith, f.inside, length-drop (i + 1) chunk))
          ∙ rw (emit_lem, append_assoc))
]

-- Reading at `off` from a part of the log that is there already.
take_read :
    (off n : ℕ) (c r : Bytes)
    → take (off + length (take n (drop off c))) (c ++ r) ≡ take off (c ++ r) ++ take n (drop off c)
take_read zero zero c r = refl
take_read zero (suc n) [] r = refl
take_read zero (suc n) (x ∷ c) r =
    rw zero-add (ap (λ l. x ∷ l) (rw zero-add at (take_read zero n c r)))
take_read (suc off) n [] r = rw (take-nil, add-zero, append-nil)
take_read (suc off) n (x ∷ c) r =
    rw (suc-add off (length (take n (drop off c)))) (ap (λ l. x ∷ l) (take_read off n c r))

-- `c` is what the log held at an earlier moment.
abbrev pub PrefixOf : Bytes → Bytes → Type 0
PrefixOf c log = (r : Bytes) × (log ≡ c ++ r)

-- What was recorded, and the carry-over, are those of the part of the log up to the offset.
pub record Reads (log : Bytes) (s : Tail) (out : List Event) : Type 0 where
  pub recorded : out ≡ marks_of (lines (take s.off log))
  pub carried : s.pending ≡ rest (take s.off log)

chunk_lines :
    (a got : Bytes)
    → (lines (rest a ++ got) ≡ lines_from (rest a) got)
      × (rest (rest a ++ got) ≡ rest_from (rest a) got)
chunk_lines a got = lines_from-Lacks [] (rest a) got (rest_from-Lacks [] a tt)

-- A round that read `n` bytes.
record Stepped (log : Bytes) (n : ℕ) (s : Tail) (o : Outcome) : Type 0 where
  reads : Reads log o.tail o.events
  moved : o.tail.off ≡ s.off + n
  stops : o.quit ≡ true → n ≡ 0

advance-Stepped :
    (log got : Bytes) (now : ℕ) (s : Tail) (out : List Event)
    → Reads log s out
    → take (s.off + length got) log ≡ take s.off log ++ got
    → (o : Outcome) × (advance now got s out ≡ some o) × Stepped log (length got) s o
unfolding advance settle idle
advance-Stepped log [] now s out h e =
    (_, refl, record { reads = h; moved = omega arith; stops = λ _. refl })
advance-Stepped log (b ∷ got) now s out h e =
    let chunk = s.pending ++ b ∷ got in
    let (p, q) = chunk_lines (take s.off log) (b ∷ got) in
    (
      record {
        events = out ++ marks_of (lines chunk);
        tail = record { off = s.off + length (b ∷ got); idle_start = now; pending = rest chunk };
        quit = false;
      },
      rw (drain-lines (length chunk + 1) chunk out (omega arith)),
      record {
        moved = refl;
        stops = λ q. cc;
        reads = record {
          recorded = rw (e, h.recorded, h.carried, p, lines_from-append, marks_of-append);
          carried = rw (e, h.carried, q, rest_from-append);
        };
      },
    )

-- Every content that a poll shows is a part of the log that ends up in the file.
abbrev pub Grows : Bytes → List Poll → Type 0
Grows log = All (λ p. (c : Bytes) → p.content ≡ some c → PrefixOf c log)

round_at-Reads :
    (log : Bytes) (content : Option Bytes) (now : ℕ) (s : Tail) (out : List Event)
    → Reads log s out
    → ((c : Bytes) → content ≡ some c → PrefixOf c log)
    → (o : Outcome) × (round_at content now s out ≡ some o) × Reads log o.tail o.events
unfolding round_at idle
round_at-Reads log none now s out h g = (_, refl, h)
round_at-Reads log (some c) now s out h g =
    let (r, e) = g c refl in
    let (o, q, f) =
      advance-Stepped log (take buffer (drop s.off c)) now s out h
        (rw e (take_read s.off buffer c r)) in
    (o, q, f.reads)

continue-quit :
    (loop : Tail → List Event → Option Outcome) (p : Poll) (s : Tail) (out : List Event)
    (o : Outcome)
    → round_at p.content p.now s out ≡ some o
    → o.quit ≡ true
    → continue loop (round p s out) ≡ some o
unfolding continue round
continue-quit loop p s out o e q = rw e (rw q)

continue-go :
    (loop : Tail → List Event → Option Outcome) (p : Poll) (s : Tail) (out : List Event)
    (o : Outcome)
    → round_at p.content p.now s out ≡ some o
    → o.quit ≡ false
    → continue loop (round p s out) ≡ loop o.tail o.events
unfolding continue round
continue-go loop p s out o e q = rw e (rw q)

watch_from-Reads :
    (log : Bytes) (ps : List Poll) (s : Tail) (out : List Event)
    → Reads log s out
    → Grows log ps
    → (o : Outcome) × (watch_from ps s out ≡ some o) × Reads log o.tail o.events
unfolding watch_from
watch_from-Reads log [] s out h g = (_, refl, h)
watch_from-Reads log (p ∷ ps) s out h (gp, g) =
    let (o, e, h') = round_at-Reads log p.content p.now s out h gp in
    let (o', e', h2) = watch_from-Reads log ps o.tail o.events h' g in
    elim (Bool-cases o.quit) [
      | inl quits ↦ (o, continue-quit (watch_from ps) p s out o e quits, h')
      | inr goes ↦ (o', continue-go (watch_from ps) p s out o e goes ∙ e', h2)
    ]

-- However a log's growth falls into reads, and whether or not it can be opened, the function
-- records exactly the marks on the complete lines among the bytes that it has read, in order, each
-- once; its loops end. What each round sees must be the log's beginning.
pub watch-Reads :
    (log : Bytes) (now : ℕ) (polls : List Poll)
    → Grows log polls
    → (o : Outcome) × (watch now polls ≡ some o)
      × (o.events ≡ marks_of (lines (take o.tail.off log)))
unfolding watch
watch-Reads log now polls g =
    let (o, e, h) =
      watch_from-Reads log polls (start now) []
        (record { recorded = rw lines-nil; carried = sym rest-nil }) g in
    (o, e, h.recorded)

-- With enough rounds that see the whole log, none of it is left unread.
whole :
    (log : Bytes) (p : Poll) (s : Tail) (out : List Event)
    → Reads log s out
    → p.content ≡ some log
    → (o : Outcome) × (round_at p.content p.now s out ≡ some o)
      × Stepped log (length (take buffer (drop s.off log))) s o
unfolding round_at
whole log p s out h e = rw e (
    advance-Stepped log (take buffer (drop s.off log)) p.now s out h
      (rw append-nil at (take_read s.off buffer log [])))

watch_from_complete :
    (log : Bytes) (ps : List Poll) (s : Tail) (out : List Event)
    → Reads log s out
    → s.off ≤ length log
    → All (λ p. p.content ≡ some log) ps
    → length log ≤ s.off + length ps * buffer
    → (o : Outcome) × (watch_from ps s out ≡ some o)
      × Reads log o.tail o.events
      × (o.tail.off ≡ length log)
unfolding watch_from
watch_from_complete log [] s out h le g enough = (_, refl, h, omega arith)
watch_from_complete log (p ∷ ps) s out h le (gp, g) enough =
    let (o, e, f) = whole log p s out h gp in
    let far : length (take buffer (drop s.off log)) ≡ min buffer (length log - s.off) =
      rw (length-take, length-drop) in
    let (o', e', f', q') =
      watch_from_complete log ps o.tail o.events f.reads (omega (arith, f.moved)) g
        (omega (arith, f.moved)) in
    elim (Bool-cases o.quit) [
      | inl quits ↦ (
        o,
        continue-quit (watch_from ps) p s out o e quits,
        f.reads,
        omega (arith, f.stops quits, f.moved),
      )
      | inr goes ↦ (o', continue-go (watch_from ps) p s out o e goes ∙ e', f', q')
    ]

-- Where every round sees the whole log, and the log has at most as many bytes as the rounds can
-- read, the function records every mark on the log's complete lines, in order, and nothing else.
pub watch_complete :
    (log : Bytes) (now : ℕ) (polls : List Poll)
    → All (λ p. p.content ≡ some log) polls
    → length log ≤ length polls * buffer
    → (o : Outcome) × (watch now polls ≡ some o) × (o.events ≡ marks_of (lines log))
unfolding watch
watch_complete log now polls g enough =
    let (o, e, h, q) =
      watch_from_complete log polls (start now) []
        (record { recorded = rw lines-nil; carried = sym rest-nil }) (omega arith) g
        (omega arith) in
    (o, e, rw (h.recorded, q, take-all (length log) log (omega arith)))
