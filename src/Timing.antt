-- ===== src/Timing.antt =====
-- cmd/weft-driver-vz/main_darwin.go: `recordTimingEvent`, which appends an event to a VM's log of
-- timings. What it prints on stderr is left out.
pub mod Laws
pub mod Lines
pub mod Order
use weft_driver_vz.Common.{
  ℕ, zero, suc, ◌+◌, ◌-◌, ◌*◌, ◌/◌, ◌%◌, ◌^◌, ◌≤◌, ◌<◌, String, ◌≡◌, refl, sym, ap, ◌∙◌, subst,
  fun_ext, ◌≢◌, ◌↔◌, ◌⊎◌, inl, inr, Bool, true, false, not, ◌&&◌, ◌||◌, Option, none, some, List,
  [], ◌∷◌, ◌++◌, map, foldl, reverse, append-nil, append_assoc, reverse-append, reverse-reverse,
  arith, ltb, leb, ◌==◌, if◌then◌else◌, ==_iff, Bool-cases, Option-cases, length, take, drop,
  length-append, take-append-drop, drop-append, take-append, length-take, length-drop, take-nil,
  take-all, take_past, drop_past, All, All-append, Bytes, codes, bytes_eq, bytes_eq_iff,
}
use weft_driver_vz.Golang.FilePath.{join}
use weft_driver_vz.Golang.Strconv.{itoa}
use weft_driver_vz.Golang.Json.{Value, number, text, object, Members, no_members, member}
use weft_driver_vz.Golang.Json.Marshal.{marshal, sorted}
use weft_driver_vz.Os.Tree.{Tree}
use weft_driver_vz.Os.Calls.{Host, append_file}
use weft_driver_vz.Os.Calls.Laws.{left}
use weft_driver_vz.Marks.Parse.{Meta}
use weft_driver_vz.Marks.Watch.{Event}

-- The field `meta` is left out where the map is nil or empty.
pub meta_member : Option Meta → Members
meta_member none = no_members
meta_member (some []) = no_members
meta_member (some (p ∷ m)) = member (codes "meta") (object (sorted (p ∷ m))) no_members

-- `timingEvent`, at `now` in nanoseconds since 1970.
unfoldable pub timing_event : ℕ → Event → Value
unfolding meta_member
timing_event now e = object (
    member (codes "name") (text e.kind)
      (member (codes "ts_unix_ns") (number (itoa now)) (meta_member e.meta)))

unfoldable pub line : ℕ → Event → Bytes
line now e = marshal (timing_event now e) ++ b'\n' ∷ []

abbrev pub timings : Bytes → Bytes
timings vm_dir = join vm_dir (codes "timings.jsonl")

-- An event without a kind or a directory is dropped, as are all errors.
unfoldable pub record_timing_event : Host → Bytes → ℕ → Event → Tree → Tree
unfolding line
record_timing_event h vm_dir now e t =
    if bytes_eq vm_dir [] || bytes_eq e.kind []
    then t
    else left (append_file h (timings vm_dir) (line now e) t)

-- Events one after the other, each with its time.
unfoldable pub record_all : Host → Bytes → List (ℕ × Event) → Tree → Tree
record_all h vm_dir [] t = t
record_all h vm_dir ((now, e) ∷ es) t =
    record_all h vm_dir es (record_timing_event h vm_dir now e t)
