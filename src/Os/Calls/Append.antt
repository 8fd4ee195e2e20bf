-- ===== src/Os/Calls/Append.antt =====
-- Appending to a file and reading it again.
use weft_driver_vz.Common.{◌≡◌, refl, Option, none, some, [], ◌∷◌, ◌++◌, Bytes}
use weft_driver_vz.Os.Tree.{
  file, folder, link, Fault, Tree, Reached, failed, vacant, found, reach, write,
}
use weft_driver_vz.Os.Calls.{
  Host, read_call, append_call, append_write_call, ok, did, at, fault_at, read_found, read_at,
  read_file, write_found, write_at, append_found, append_at, append_file,
}
use weft_driver_vz.Golang.FilePath.{Place}
use weft_driver_vz.Os.Calls.Laws.{left}
use weft_driver_vz.Os.Calls.Writing.{read_write_at}

append_found-content :
    (r : Reached) (b old : Bytes) (t : Tree)
    → read_found r ≡ ok old
    → (u : Tree) × (append_found r b t ≡ did u) × (write_found r (old ++ b) t ≡ did u)
unfolding read_found append_found write_found
append_found-content (failed e) b old t q = cc q
append_found-content (vacant k) b old t q = cc q
append_found-content (found k (file o)) b old t q =
    let e : o ≡ old = cc in (write k (file (o ++ b)) t, refl, rw e refl)
append_found-content (found k folder) b old t q = cc q
append_found-content (found k (link i)) b old t q = cc q

read_append_at :
    (f g : Option Fault) (b old : Bytes) (t : Tree) (k : Place)
    → f ≡ none
    → g ≡ none
    → read_at (fault_at f) t k ≡ ok old
    → read_at (fault_at f) (left (append_at (fault_at g) b t k)) k ≡ ok (old ++ b)
unfolding read_at append_at write_at
read_append_at (some f) g b old t k x y q = cc x
read_append_at none (some g) b old t k x y q = cc y
read_append_at none none b old t k x y q =
    let (u, e, w) = append_found-content (reach t k) b old t q in
    rw e (read_write_at none none (old ++ b) t u k refl w)

-- Where neither the opening nor the writing nor the reading fails, the file keeps its content, with
-- the new bytes behind it.
pub read_file-append_file :
    (h : Host) (p b old : Bytes) (t : Tree)
    → h.faults read_call (at h p) ≡ none
    → h.faults append_call (at h p) ≡ none
    → h.faults append_write_call (at h p) ≡ none
    → read_file h p t ≡ ok old
    → read_file h p (left (append_file h p b t)) ≡ ok (old ++ b)
unfolding read_file append_file
read_file-append_file h [] b old t x y z q = cc q
read_file-append_file h (c ∷ p) b old t x y z q = rw z (
    read_append_at (h.faults read_call (at h (c ∷ p))) (h.faults append_call (at h (c ∷ p))) b old t
      (at h (c ∷ p)) x y q)
