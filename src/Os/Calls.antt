-- ===== src/Os/Calls.antt =====
-- Go's file calls over the file tree: `os.Stat`, `os.Lstat`, `os.ReadFile`, `os.WriteFile`, `os.Create`,
-- `os.MkdirAll`, `os.Remove`, `os.RemoveAll`, `os.Symlink`, `os.Truncate`, `os.Open`
-- and `io.Copy`.
--
-- A call on the empty path fails as one on a missing file. `Host` says which calls fail for a reason
-- outside the tree, and what a failing `RemoveAll`, `io.Copy` or
-- `os.WriteFile` has done by then.
pub mod Laws
pub mod Folders
pub mod Writing
pub mod Removal
pub mod Missing
pub mod Replace
pub mod Links
pub mod Append
use weft_driver_vz.Common.{
  ℕ, zero, suc, ◌+◌, ◌-◌, ◌*◌, ◌/◌, ◌%◌, ◌^◌, ◌≤◌, ◌<◌, String, ◌≡◌, refl, sym, ap, ◌∙◌, subst,
  fun_ext, ◌≢◌, ◌↔◌, ◌⊎◌, inl, inr, Bool, true, false, not, ◌&&◌, ◌||◌, Option, none, some, List,
  [], ◌∷◌, ◌++◌, map, foldl, reverse, append-nil, append_assoc, reverse-append, reverse-reverse,
  arith, ltb, leb, ◌==◌, if◌then◌else◌, ==_iff, Bool-cases, Option-cases, length, take, drop,
  length-append, take-append-drop, drop-append, take-append, length-take, length-drop, take-nil,
  take-all, take_past, drop_past, All, All-append, Bytes, codes, bytes_eq, bytes_eq_iff,
}
use weft_driver_vz.Golang.FilePath.{Place, resolve}
use weft_driver_vz.Os.Tree.{
  Node, file, folder, link, Fault, Tree, Errno, enoent, eisdir, enotdir, eexist, enotempty, einval,
  fault, is_not_exist, node, write, prune, under, has_child, way_error, Reached, failed, vacant,
  found, reach, reach_at, place_eq,
}

pub data Call : Type 0 where
  stat_call lstat_call read_call write_call mkdir_call remove_call remove_all_call symlink_call
        copy_call fill_call truncate_call append_call append_write_call :
      Call

pub record Host : Type 0 where
  pub cwd : Place
  pub faults : Call → Place → Option Fault
  pub swept : Place → Bool
  -- How many bytes a failing `io.Copy`, `Write` or `os.WriteFile` has written to a place.
  pub copied : Place → ℕ

pub data Answer {ℓ} (A : Type ℓ) : Type ℓ where
  ok : A → Answer A
  err : Errno → Answer A

-- What a call that changes the tree leaves.
pub data Change : Type 0 where
  did : Tree → Change
  broke : Errno → Tree → Change

abbrev pub fault_at : Option Fault → Option Errno
fault_at none = none
fault_at (some f) = some (fault f)

module _ (h : Host) where
  -- The place of a path, and what the host says of a call on it; an empty path names no file.
  abbrev pub at : Bytes → Place
  at = resolve h.cwd

  abbrev pub trouble : Call → Bytes → Option Errno
  trouble c [] = some enoent
  trouble c (b ∷ p) = fault_at (h.faults c (resolve h.cwd (b ∷ p)))

unfoldable pub stat_found : Reached → Answer Node
stat_found (failed e) = err e
stat_found (vacant k) = err enoent
stat_found (found k n) = ok n

unfoldable pub stat_at : Option Errno → Tree → Place → Answer Node
stat_at (some e) t k = err e
stat_at none t k = stat_found (reach t k)

-- `os.Stat`
unfoldable pub stat : Host → Bytes → Tree → Answer Node
unfolding stat_at stat_found
stat h p t = stat_at (trouble h stat_call p) t (at h p)

pub read_found : Reached → Answer Bytes
read_found (failed e) = err e
read_found (vacant k) = err enoent
read_found (found k (file b)) = ok b
read_found (found k _) = err eisdir

pub read_at : Option Errno → Tree → Place → Answer Bytes
read_at (some e) t k = err e
read_at none t k = read_found (reach t k)

-- `os.ReadFile`
unfoldable pub read_file : Host → Bytes → Tree → Answer Bytes
unfolding read_at read_found
read_file h p t = read_at (trouble h read_call p) t (at h p)

pub write_found : Reached → Bytes → Tree → Change
write_found (failed e) b t = broke e t
write_found (vacant k) b t = did (write k (file b) t)
write_found (found k (file old)) b t = did (write k (file b) t)
write_found (found k _) b t = broke eisdir t

pub write_at : Option Errno → Bytes → Tree → Place → Change
write_at (some e) b t k = broke e t
write_at none b t k = write_found (reach t k) b t

-- A file opened with `O_CREATE|O_TRUNC`, as `os.Create` does, and filled.
unfoldable pub put_file : Host → Bytes → Bytes → Tree → Change
unfolding write_at write_found
put_file h p b t = write_at (trouble h write_call p) b t (at h p)

pub truncate_found : Reached → Tree → Change
truncate_found (failed e) t = broke e t
truncate_found (vacant k) t = broke enoent t
truncate_found (found k (file old)) t = did (write k (file []) t)
truncate_found (found k _) t = broke eisdir t

pub truncate_at : Option Errno → Tree → Place → Change
truncate_at (some e) t k = broke e t
truncate_at none t k = truncate_found (reach t k) t

-- `os.Truncate(path, 0)`
unfoldable pub truncate : Host → Bytes → Tree → Change
unfolding truncate_at truncate_found
truncate h p t = truncate_at (trouble h truncate_call p) t (at h p)

pub append_found : Reached → Bytes → Tree → Change
append_found (failed e) b t = broke e t
append_found (vacant k) b t = did (write k (file b) t)
append_found (found k (file old)) b t = did (write k (file (old ++ b)) t)
append_found (found k _) b t = broke eisdir t

pub append_at : Option Errno → Bytes → Tree → Place → Change
append_at (some e) b t k = broke e t
append_at none b t k = append_found (reach t k) b t

-- What a `Write` writes.
abbrev pub written : Option Fault → ℕ → Bytes → Bytes
written none n b = b
written (some f) n b = take n b

-- `os.OpenFile` with `O_CREATE|O_WRONLY|O_APPEND`, and the `Write` of `b`, whose error is dropped.
unfoldable pub append_file : Host → Bytes → Bytes → Tree → Change
unfolding append_at append_found
append_file h p b t =
    append_at (trouble h append_call p)
      (written (h.faults append_write_call (at h p)) (h.copied (at h p)) b) t (at h p)

-- `Mkdir`, and the `Lstat` that forgives its failure at a folder.
pub mkdir_at : Option Errno → Option Fault → Option Fault → Option Node → Place → Tree → Change
mkdir_at (some e) f l n k t = broke e t
mkdir_at none f none (some folder) k t = did t
mkdir_at none f (some _) (some folder) k t = broke eexist t
mkdir_at none f l (some _) k t = broke eexist t
mkdir_at none (some f) l none k t = broke (fault f) t
mkdir_at none none l none k t = did (write k folder t)

pub mkdir : Host → Place → Tree → Change
mkdir h k t =
    mkdir_at (way_error t k) (h.faults mkdir_call k) (h.faults lstat_call k) (node t k) k t

pub then_mkdir : (Tree → Change) → Change → Change
then_mkdir make (broke e t) = broke e t
then_mkdir make (did t) = make t

-- `os.MkdirAll` at a place: `seen` is what `Stat` says of it, and `up` is the call on its parent.
pub mkdirs_at : Host → Answer Node → Place → Change → Tree → Change
mkdirs_at h (ok folder) k up t = did t
mkdirs_at h (ok _) k up t = broke enotdir t
mkdirs_at h (err e) k up t = then_mkdir (mkdir h k) up

pub mkdirs : Host → Place → Tree → Change
mkdirs h [] t = did t
mkdirs h (c ∷ k) t =
    mkdirs_at h (stat_at (fault_at (h.faults stat_call (c ∷ k))) t (c ∷ k)) (c ∷ k) (mkdirs h k t) t

unfoldable pub mkdir_all : Host → Bytes → Tree → Change
unfolding mkdirs mkdirs_at then_mkdir mkdir mkdir_at
mkdir_all h [] t = broke enoent t
mkdir_all h (b ∷ p) t = mkdirs h (at h (b ∷ p)) t

pub remove_at : Option Errno → Option Errno → Option Node → Place → Tree → Change
remove_at (some e) w n k t = broke e t
remove_at none (some e) n k t = broke e t
remove_at none none none k t = broke enoent t
remove_at none none (some folder) k t =
    if has_child k t then broke enotempty t else did (prune (place_eq k) t)
remove_at none none (some _) k t = did (prune (place_eq k) t)

-- `os.Remove`: the link itself, not what it leads to.
unfoldable pub remove : Host → Bytes → Tree → Change
unfolding remove_at
remove h p t =
    remove_at (trouble h remove_call p) (way_error t (at h p)) (node t (at h p)) (at h p) t

pub ends_with_dot : Bytes → Bool
ends_with_dot [] = false
ends_with_dot (c ∷ []) = c == b'.'
ends_with_dot (c ∷ d ∷ []) = c == b'/' && d == b'.'
ends_with_dot (c ∷ d ∷ e ∷ s) = ends_with_dot (d ∷ e ∷ s)

pub remove_all_at : Option Errno → Option Errno → (Place → Bool) → Place → Tree → Change
remove_all_at (some e) w swept k t = broke e (prune (λ q. under k q && swept q) t)
remove_all_at none (some enoent) swept k t = did t
remove_all_at none (some e) swept k t = broke e t
remove_all_at none none swept k t = did (prune (under k) t)

-- `os.RemoveAll`
unfoldable pub remove_all : Host → Bytes → Tree → Change
unfolding remove_all_at ends_with_dot
remove_all h [] t = did t
remove_all h (b ∷ p) t =
    if ends_with_dot (b ∷ p)
    then broke einval t
    else remove_all_at (trouble h remove_all_call (b ∷ p)) (way_error t (at h (b ∷ p))) h.swept
        (at h (b ∷ p)) t

pub symlink_at : Option Errno → Option Errno → Option Node → Place → Place → Tree → Change
symlink_at (some e) w n target k t = broke e t
symlink_at none (some e) n target k t = broke e t
symlink_at none none (some _) target k t = broke eexist t
symlink_at none none none target k t = did (write k (link target) t)

-- `os.Symlink`, the target given by its place.
unfoldable pub symlink : Host → Place → Bytes → Tree → Change
unfolding symlink_at
symlink h target p t =
    symlink_at (trouble h symlink_call p) (way_error t (at h p)) (node t (at h p)) target (at h p) t

pub opened : Reached → Answer Place
opened (failed e) = err e
opened (vacant k) = err enoent
opened (found k n) = ok k

pub open_at : Option Errno → Tree → Place → Answer Place
open_at (some e) t k = err e
open_at none t k = opened (reach t k)

-- `os.Open`: the place of what is opened.
unfoldable pub open_file : Host → Bytes → Tree → Answer Place
unfolding open_at opened
open_file h p t = open_at (trouble h read_call p) t (at h p)

pub failing : Errno → Change → Change
failing e (did t) = broke e t
failing e (broke d t) = broke d t

pub filled : Option Fault → Host → Bytes → Bytes → Tree → Change
filled none h p b t = put_file h p b t
filled (some f) h p b t = failing (fault f) (put_file h p (take (h.copied (at h p)) b) t)

-- `os.WriteFile`, whose `Write` may fail once the file is created or cut.
unfoldable pub write_file : Host → Bytes → Bytes → Tree → Change
unfolding filled failing
write_file h p b t = filled (h.faults fill_call (at h p)) h p b t

pub copy_at : Option Fault → Host → Option Node → Bytes → Tree → Change
copy_at none h (some (file b)) p t = put_file h p b t
copy_at (some f) h (some (file b)) p t =
    failing (fault f) (put_file h p (take (h.copied (at h p)) b) t)
copy_at f h _ p t = broke eisdir t

-- `io.Copy` from what is opened at `k` to the file `p`, which is opened and empty.
unfoldable pub copy : Host → Place → Bytes → Tree → Change
unfolding copy_at failing
copy h k p t = copy_at (h.faults copy_call (at h p)) h (node t k) p t
