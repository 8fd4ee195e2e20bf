-- ===== src/Timing/Laws.antt =====
-- cmd/weft-driver-vz/main_darwin.go: the log of timings.
use weft_driver_vz.Common.{
  ℕ, ◌≡◌, sym, inl, inr, false, none, List, [], ◌∷◌, ◌++◌, append-nil, append_assoc, if◌then◌else◌,
  Bool-cases, Bytes, bytes_eq,
}
use weft_driver_vz.Os.Tree.{Tree}
use weft_driver_vz.Os.Calls.{Host, read_call, append_call, append_write_call, ok, at, read_file}
use weft_driver_vz.Os.Calls.Append.{read_file-append_file}
use weft_driver_vz.Marks.Watch.{Event}
use weft_driver_vz.Timing.{line, timings, record_timing_event, record_all}

-- The lines of events, those without a kind left out.
abbrev pub lines_of : List (ℕ × Event) → Bytes
lines_of [] = []
lines_of ((now, e) ∷ es) = (if bytes_eq e.kind [] then [] else line now e) ++ lines_of es

-- The log can be opened, written and read.
pub record IsOpen (h : Host) (vm_dir : Bytes) : Type 0 where
  pub named : bytes_eq vm_dir [] ≡ false
  pub reads : h.faults read_call (at h (timings vm_dir)) ≡ none
  pub opens : h.faults append_call (at h (timings vm_dir)) ≡ none
  pub writes : h.faults append_write_call (at h (timings vm_dir)) ≡ none

record_timing_event-line :
    (h : Host) (vm_dir old : Bytes) (now : ℕ) (e : Event) (t : Tree)
    → IsOpen h vm_dir
    → read_file h (timings vm_dir) t ≡ ok old
    → read_file h (timings vm_dir) (record_timing_event h vm_dir now e t)
      ≡ ok (old ++ (if bytes_eq e.kind [] then [] else line now e))
unfolding record_timing_event
record_timing_event-line h vm_dir old now e t o q = elim (Bool-cases (bytes_eq e.kind [])) [
  | inl k ↦ rw (o.named, k, append-nil old) q
  | inr k ↦
      rw (o.named, k)
        (read_file-append_file h (timings vm_dir) (line now e) old t o.reads o.opens o.writes q)
]

-- Recording events keeps all that stands in the log of timings and puts one line behind it for each
-- event that has a kind, in the events' order.
pub record_all-lines_of :
    (h : Host) (vm_dir old : Bytes) (es : List (ℕ × Event)) (t : Tree)
    → IsOpen h vm_dir
    → read_file h (timings vm_dir) t ≡ ok old
    → read_file h (timings vm_dir) (record_all h vm_dir es t) ≡ ok (old ++ lines_of es)
unfolding record_all
record_all-lines_of h vm_dir old [] t o q = rw (append-nil old) q
record_all-lines_of h vm_dir old ((now, e) ∷ es) t o q =
    let x = if bytes_eq e.kind [] then [] else line now e in
    rw (sym (append_assoc old x (lines_of es))) (
      record_all-lines_of h vm_dir (old ++ x) es _ o
        (record_timing_event-line h vm_dir old now e t o q))
