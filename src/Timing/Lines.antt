-- ===== src/Timing/Lines.antt =====
-- cmd/weft-driver-vz/main_darwin.go: the log of timings as lines of JSON.
use weft_driver_vz.Common.{
  ℕ, suc, ◌≡◌, refl, ap, ◌∙◌, inl, inr, Option, none, some, List, [], ◌∷◌, ◌++◌, map, append_assoc,
  if◌then◌else◌, Bool-cases, Bytes, bytes_eq,
}
use mathlib.Core.List.{map-append}
use weft_driver_vz.Golang.Json.{Value}
use weft_driver_vz.Golang.Json.Marshal.{marshal}
use weft_driver_vz.Golang.Json.Marshal.Printed.{sorted-MembersPrinted}
use weft_driver_vz.Golang.Json.Marshal.RoundTrip.{parse-marshal}
use weft_driver_vz.Golang.Json.Marshal.OneLine.{marshal-IsLine}
use weft_driver_vz.Golang.Json.Parse.{parse}
use weft_driver_vz.Golang.Json.Parse.Printed.{reread, IsPrinted, MembersPrinted}
use weft_driver_vz.Os.Tree.{Tree}
use weft_driver_vz.Os.Calls.{Host, ok, read_file}
use weft_driver_vz.Marks.Search.{Lacks}
use weft_driver_vz.Marks.Parse.{Meta}
use weft_driver_vz.Marks.Watch.{Event}
use weft_driver_vz.Marks.Watch.Lines.{
  lines, lines_from, lines_from-append, lines_from-Lacks, rest, rest_from, rest_from-append,
}
use weft_driver_vz.Timing.{meta_member, timing_event, line, timings, record_all}
use weft_driver_vz.Timing.Laws.{lines_of, IsOpen, record_all-lines_of}

meta-MembersPrinted : (depth : ℕ) (m : Option Meta) → MembersPrinted (suc depth) (meta_member m)
unfolding meta_member IsPrinted
meta-MembersPrinted depth none = tt
meta-MembersPrinted depth (some []) = tt
meta-MembersPrinted depth (some (p ∷ m)) = (sorted-MembersPrinted depth (p ∷ m), tt)

timing_event-IsPrinted : (now : ℕ) (e : Event) → IsPrinted 10000 (timing_event now e)
unfolding timing_event IsPrinted
timing_event-IsPrinted now e = (tt, ((now, refl), meta-MembersPrinted 9998 e.meta))

-- The events that are not dropped, as JSON.
abbrev pub entries : List (ℕ × Event) → List Value
entries [] = []
entries ((now, e) ∷ es) = if bytes_eq e.kind [] then entries es else timing_event now e ∷ entries es

line-lines :
    (s t : Bytes)
    → Lacks b'\n' s
    → (lines (s ++ b'\n' ∷ t) ≡ s ∷ lines t) × (rest (s ++ b'\n' ∷ t) ≡ rest t)
unfolding lines_from rest_from
line-lines s t l = lines_from-Lacks [] s (b'\n' ∷ t) l

lines_of-lines :
    (es : List (ℕ × Event))
    → (lines (lines_of es) ≡ map marshal (entries es)) × (rest (lines_of es) ≡ [])
unfolding line lines_from rest_from
lines_of-lines [] = (refl, refl)
lines_of-lines ((now, e) ∷ es) = elim (Bool-cases (bytes_eq e.kind [])) [
  | inl k ↦ rw k (lines_of-lines es)
  | inr k ↦
      let v = timing_event now e in
      let (ih, ir) = lines_of-lines es in
      let (a, b) =
        line-lines (marshal v) (lines_of es) (marshal-IsLine v (timing_event-IsPrinted now e)) in
      let q = append_assoc (marshal v) (b'\n' ∷ []) (lines_of es) in
      rw k (ap (lines_from []) q ∙ a ∙ ap (λ x. marshal v ∷ x) ih, ap (rest_from []) q ∙ b ∙ ir)
]

entries-parse :
    (es : List (ℕ × Event))
    → map parse (map marshal (entries es)) ≡ map (λ v. some (reread v)) (entries es)
entries-parse [] = refl
entries-parse ((now, e) ∷ es) = elim (Bool-cases (bytes_eq e.kind [])) [
  | inl k ↦ rw k (entries-parse es)
  | inr k ↦
      rw (k, parse-marshal (timing_event now e) (timing_event-IsPrinted now e), entries-parse es)
        refl
]

-- To a log of timings that ends with a complete line, or is empty, and that can be opened, written
-- and read, recording events adds one complete line for each event that has a kind, in their order;
-- each, read as JSON, is the object of the event's name, time and metadata, its texts mended where
-- they are not UTF-8.
pub record_all-parse :
    (h : Host) (vm_dir old : Bytes) (es : List (ℕ × Event)) (t : Tree)
    → IsOpen h vm_dir
    → read_file h (timings vm_dir) t ≡ ok old
    → rest old ≡ []
    → (b : Bytes) × (read_file h (timings vm_dir) (record_all h vm_dir es t) ≡ ok b)
      × (rest b ≡ [])
      × (map parse (lines b) ≡ map parse (lines old) ++ map (λ v. some (reread v)) (entries es))
record_all-parse h vm_dir old es t o q r =
    let (a, z) = lines_of-lines es in
    (
      old ++ lines_of es,
      record_all-lines_of h vm_dir old es t o q,
      rest_from-append [] old (lines_of es) ∙ (ap (λ x. rest_from x (lines_of es)) r ∙ z),
      ap (map parse) (
            lines_from-append [] old (lines_of es)
            ∙ (ap (λ x. lines old ++ lines_from x (lines_of es)) r ∙ ap (λ x. lines old ++ x) a))
          ∙ (map-append parse (lines old) (map marshal (entries es))
              ∙ ap (λ x. map parse (lines old) ++ x) (entries-parse es)),
    )
