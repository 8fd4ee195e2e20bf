-- ===== src/Timing/Order.antt =====
-- cmd/weft-driver-vz/main_darwin.go: the log of timings and the order of a Go map.
use weft_driver_vz.Common.{
  ℕ, ◌≡◌, refl, ap, ◌∙◌, ◌||◌, some, [], ◌∷◌, ◌++◌, if◌then◌else◌, Bytes, codes, bytes_eq,
}
use mathlib.Core.List.{Perm, Nodup}
use mathlib.Core.List.Perm
use weft_driver_vz.Golang.Strconv.{itoa}
use weft_driver_vz.Golang.Json.{Members, number, text, object, member, no_members}
use weft_driver_vz.Golang.Json.Marshal.{marshal}
use weft_driver_vz.Golang.Json.Marshal.Order.{keys, marshal-Perm}
use weft_driver_vz.Os.Tree.{Tree}
use weft_driver_vz.Os.Calls.{Host, append_file}
use weft_driver_vz.Os.Calls.Laws.{left}
use weft_driver_vz.Marks.Parse.{Meta, Mark, parse_mark}
use weft_driver_vz.Marks.Parse.Keys.{parse_mark-Nodup}
use weft_driver_vz.Marks.Watch.{event_of}
use weft_driver_vz.Timing.{meta_member, timing_event, line, timings, record_timing_event}

meta_member-Perm :
    (f : Members → Bytes) (m m' : Meta)
    → Nodup (keys m)
    → Perm m m'
    → f (meta_member (some m)) ≡ f (meta_member (some m'))
unfolding meta_member
meta_member-Perm f [] [] n p = refl
meta_member-Perm f [] (x ∷ m') n p = let q = Perm.nil-eq p in cc
meta_member-Perm f (x ∷ m) [] n p = let q = Perm.eq-nil p in cc
meta_member-Perm f (x ∷ m) (y ∷ m') n p =
    marshal-Perm (λ ms. f (member (codes "meta") (object ms) no_members)) (x ∷ m) (y ∷ m') n p

pub record_timing_event-Perm :
    (h : Host) (vm_dir : Bytes) (now : ℕ) (kind : Bytes) (m m' : Meta) (t : Tree)
    → Nodup (keys m)
    → Perm m m'
    → record_timing_event h vm_dir now (record { kind = kind; meta = some m }) t
      ≡ record_timing_event h vm_dir now (record { kind = kind; meta = some m' }) t
unfolding record_timing_event line timing_event
record_timing_event-Perm h vm_dir now kind m m' t n p =
    let e =
      meta_member-Perm
        (λ ms.
          marshal (
            object (
              member (codes "name") (text kind)
                (member (codes "ts_unix_ns") (number (itoa now)) ms)))
          ++ b'\n' ∷ [])
        m m' n p in
    ap
      (λ x.
        if bytes_eq vm_dir [] || bytes_eq kind []
        then t
        else left (append_file h (timings vm_dir) x t))
      e

-- The metadata of a mark that is read from a line has each key once, and in whatever order it is
-- given, a Go map having none, the same is recorded of the mark.
pub record_timing_event-parse_mark :
    (h : Host) (vm_dir : Bytes) (now : ℕ) (mark_text : Bytes) (k : Mark) (m m' : Meta) (t : Tree)
    → parse_mark mark_text ≡ some k
    → k.meta ≡ some m
    → Perm m m'
    → Nodup (keys m)
      × (record_timing_event h vm_dir now (event_of k) t
          ≡ record_timing_event h vm_dir now (event_of (record k { meta = some m' })) t)
record_timing_event-parse_mark h vm_dir now mark_text k m m' t r q p =
    let n = parse_mark-Nodup mark_text k m r q in
    (
      n,
      ap
            (λ x.
              record_timing_event h vm_dir now
                (record { kind = codes "guest." ++ k.stage; meta = x }) t)
            q
          ∙ record_timing_event-Perm h vm_dir now (codes "guest." ++ k.stage) m m' t n p,
    )
