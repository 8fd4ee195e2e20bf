-- ===== src/Tests/Timing.antt =====
-- cmd/weft-driver-vz/main_darwin.go and builtin/vmrun.go: the log of timings and the reading of
-- config.json at concrete inputs.
use weft_driver_vz.Common.{
  ℕ, ◌≡◌, refl, false, none, some, List, [], ◌∷◌, ◌++◌, map, Bytes, codes, bytes_eq,
}
use weft_driver_vz.Os.Tree.{Tree, Node, file, folder}
use weft_driver_vz.Os.Calls.{ok, read_file}
use weft_driver_vz.Marks.Watch.{Event, event_of}
use weft_driver_vz.Golang.Json.Parse.{parse}
use mathlib.Core.List.{Nodup}
use mathlib.Core.List.Permᴰ.{swap}
use weft_driver_vz.Golang.Json.Parse.Printed.{reread}
use weft_driver_vz.Golang.Json.Marshal.Order.{keys}
use weft_driver_vz.Marks.Parse.{Meta, Mark, parse_mark}
use weft_driver_vz.Marks.Watch.Lines.{lines, rest, rest_from}
use weft_driver_vz.Timing.Lines.{entries, record_all-parse}
use weft_driver_vz.Timing.Order.{record_timing_event-parse_mark}
use weft_driver_vz.Timing.{timings, record_all, record_timing_event}
use weft_driver_vz.Timing.Laws.{lines_of, IsOpen}
use weft_driver_vz.Tests.Sample.{host}

abbrev entered : Event
entered = record { kind = codes "vz_vm_run.entered"; meta = none }

abbrev failed : Event
failed = record {
  kind = codes "vz_vm_run.start_failed";
  meta = some ((codes "err", codes "no\n") ∷ (codes "at", codes "2") ∷ []);
}

abbrev events : List (ℕ × Event)
events = (1700, entered) ∷ (1800, failed) ∷ []

abbrev tree : Tree
tree =
    (codes "vm" ∷ [], folder) ∷ (codes "timings.jsonl" ∷ codes "vm" ∷ [], file (codes "{}\n")) ∷ []

lines_test :
    lines_of events
    ≡ codes
        "{\"name\":\"vz_vm_run.entered\",\"ts_unix_ns\":1700}\n{\"name\":\"vz_vm_run.start_failed\",\"ts_unix_ns\":1800,\"meta\":{\"at\":\"2\",\"err\":\"no\\n\"}}\n"
unfolding bytes_eq weft_driver_vz.Timing.line weft_driver_vz.Golang.Json.Marshal.marshal
    weft_driver_vz.Timing.timing_event weft_driver_vz.Golang.Strconv.itoa
    weft_driver_vz.Golang.Json.Marshal.sorted
lines_test = refl

named_lem : bytes_eq (codes "/vm") [] ≡ false
unfolding bytes_eq
named_lem = refl

vm-IsOpen : IsOpen host (codes "/vm")
vm-IsOpen = record { named = named_lem; reads = refl; opens = refl; writes = refl }

old_lines : read_file host (timings (codes "/vm")) tree ≡ ok (codes "{}\n")
unfolding read_file weft_driver_vz.Golang.FilePath.join weft_driver_vz.Os.Tree.reach_with
    weft_driver_vz.Golang.FilePath.resolve
old_lines = refl

old_complete : rest (codes "{}\n") ≡ []
unfolding rest_from
old_complete = refl

record_all-parse_example :
    (b : Bytes) × (read_file host
        (timings (codes "/vm"))
        (record_all host (codes "/vm") events tree)
      ≡ ok b)
    × (rest b ≡ [])
    × (map parse (lines b)
        ≡ map parse (lines (codes "{}\n")) ++ map (λ v. some (reread v)) (entries events))
record_all-parse_example =
    record_all-parse host (codes "/vm") (codes "{}\n") events tree vm-IsOpen old_lines old_complete

abbrev mark_line : Bytes
mark_line = codes "WEFT_MARK up err=no at=2"

abbrev one_order : Meta
one_order = (codes "err", codes "no") ∷ (codes "at", codes "2") ∷ []

abbrev other_order : Meta
other_order = (codes "at", codes "2") ∷ (codes "err", codes "no") ∷ []

abbrev mark : Mark
mark = record { stage = codes "up"; meta = some one_order }

mark_test : parse_mark mark_line ≡ some mark
unfolding parse_mark weft_driver_vz.Marks.Search.index_substr
    weft_driver_vz.Marks.Fields.split_fields weft_driver_vz.Golang.Utf8.runes
    weft_driver_vz.Marks.Search.index_byte_str bytes_eq
mark_test = refl

record_timing_event-parse_mark_example :
    Nodup (keys one_order)
    × (record_timing_event host (codes "/vm") 1800 (event_of mark) tree
        ≡ record_timing_event host
            (codes "/vm")
            1800
            (event_of (record mark { meta = some other_order }))
            tree)
record_timing_event-parse_mark_example =
    record_timing_event-parse_mark host (codes "/vm") 1800 mark_line mark one_order other_order tree
      mark_test refl ∣ swap refl refl ∣₁
