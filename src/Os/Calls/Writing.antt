-- ===== src/Os/Calls/Writing.antt =====
-- What `WriteFile` keeps, and what is read of it again.
use weft_driver_vz.Common.{suc, ◌≡◌, refl, Option, none, some, [], ◌∷◌, take, Bytes}
use weft_driver_vz.Golang.FilePath.{Place}
use weft_driver_vz.Os.Tree.{
  Node, file, folder, link, Fault, fault, Tree, Errno, enoent, write, Reached, failed, vacant,
  found, reach, max_links,
}
use weft_driver_vz.Os.Tree.Laws.{Extends, Extends-refl, write-Extends, reach_with-vacant}
use weft_driver_vz.Os.Tree.Kinds.{HasKinds, reach_with-HasKinds, write-HasKinds}
use weft_driver_vz.Os.Tree.Overwrite.{target, write-target}
use weft_driver_vz.Os.Calls.{
  read_call, read_found, read_at, read_file, stat_call, write_call, Host, ok, err, did, trouble, at,
  fault_at, filled, fill_call, write_file, stat_found, stat_at, stat, write_found, write_at,
  put_file,
}
use weft_driver_vz.Os.Calls.Laws.{left, left-failing, write_file-put_file}

write_at-left :
    (f g : Option Fault) (b : Bytes) (t : Tree) (k : Place)
    → stat_at (fault_at f) t k ≡ err enoent
    → Extends t (left (write_at (fault_at g) b t k))
unfolding stat_at write_at stat_found write_found
write_at-left (some f) g b t k s = cc
write_at-left none (some g) b t k s = Extends-refl t
write_at-left none none b t k s = go (reach t k) refl s
  where
    go :
        (r : Reached)
        → reach t k ≡ r
        → stat_found r ≡ err enoent
        → Extends t (left (write_found r b t))
    go (failed e) q s = Extends-refl t
    go (vacant j) q s = write-Extends t j (file b) (reach_with-vacant (suc max_links) t k j q).0
    go (found j n) q s = cc s

-- A `WriteFile` where `Stat` found nothing loses nothing, also where it fails.
pub put_file-Extends :
    (h : Host) (p b : Bytes) (t : Tree)
    → stat h p t ≡ err enoent
    → Extends t (left (put_file h p b t))
unfolding stat put_file write_at
put_file-Extends h [] b t s = Extends-refl t
put_file-Extends h (c ∷ p) b t s =
    write_at-left (h.faults stat_call (at h (c ∷ p))) (h.faults write_call (at h (c ∷ p))) b t
      (at h (c ∷ p)) s

write_found-target :
    (r : Reached) (b : Bytes) (t t' : Tree)
    → write_found r b t ≡ did t'
    → (j : Place) × (target r ≡ some j) × (t' ≡ write j (file b) t)
unfolding write_found
write_found-target (failed e) b t t' w = cc
write_found-target (vacant j) b t t' w = (j, refl, cc)
write_found-target (found j (file old)) b t t' w = (j, refl, cc)
write_found-target (found j folder) b t t' w = cc
write_found-target (found j (link i)) b t t' w = cc

pub read_write_at :
    (f g : Option Fault) (b : Bytes) (t t' : Tree) (k : Place)
    → f ≡ none
    → write_at (fault_at g) b t k ≡ did t'
    → read_at (fault_at f) t' k ≡ ok b
unfolding write_at read_at
read_write_at (some f) g b t t' k q w = cc
read_write_at none (some g) b t t' k q w = cc
read_write_at none none b t t' k q w =
    let (j, r, e) = write_found-target (reach t k) b t t' w in
    rw (e, write-target (suc max_links) t k j b r) (unfold read_found in refl)

-- What `WriteFile` wrote, `ReadFile` reads, where the file may be read.
pub read_file-put_file :
    (h : Host) (p b : Bytes) (t t' : Tree)
    → h.faults read_call (at h p) ≡ none
    → put_file h p b t ≡ did t'
    → read_file h p t' ≡ ok b
unfolding read_file put_file write_at
read_file-put_file h [] b t t' q w = cc
read_file-put_file h (c ∷ p) b t t' q w =
    read_write_at (h.faults read_call (at h (c ∷ p))) (h.faults write_call (at h (c ∷ p))) b t t'
      (at h (c ∷ p)) q w

write_at-HasKinds :
    (g : Option Errno) (b : Bytes) (t t' : Tree) (k : Place)
    → write_at g b t k ≡ did t'
    → HasKinds t t'
unfolding write_at
write_at-HasKinds (some f) b t t' k w = cc
write_at-HasKinds none b t t' k w =
    let (j, r, e) = write_found-target (reach t k) b t t' w in
    rw e (write-HasKinds (suc max_links) t k j b r)

stat_at-HasKinds :
    (f : Option Errno) (t t' : Tree) (k : Place) (n : Node)
    → HasKinds t t'
    → stat_at f t k ≡ ok n
    → (m : Node) × (stat_at f t' k ≡ ok m)
unfolding stat_at
stat_at-HasKinds (some f) t t' k n x s = cc
stat_at-HasKinds none t t' k n x s = go (reach t k) refl s
  where
    go :
        (r : Reached)
        → reach t k ≡ r
        → stat_found r ≡ ok n
        → (m : Node) × (stat_found (reach t' k) ≡ ok m)
    go (failed e) q s = unfold stat_found in cc s
    go (vacant j) q s = unfold stat_found in cc s
    go (found j i) q s =
        let (m, e) = reach_with-HasKinds (suc max_links) t t' k j i x q in
        (m, rw e (unfold stat_found in refl))

-- What `Stat` finds in front of a `WriteFile` that succeeds, it finds behind it, at whatever path.
pub stat-put_file :
    (h : Host) (p q b : Bytes) (t t' : Tree) (n : Node)
    → put_file h p b t ≡ did t'
    → stat h q t ≡ ok n
    → (m : Node) × (stat h q t' ≡ ok m)
unfolding stat put_file
stat-put_file h p q b t t' n w s =
    stat_at-HasKinds (trouble h stat_call q) t t' (at h q) n
      (write_at-HasKinds (trouble h write_call p) b t t' (at h p) w) s

filled-left :
    (f : Option Fault) (h : Host) (p b : Bytes) (t : Tree)
    → stat h p t ≡ err enoent
    → Extends t (left (filled f h p b t))
unfolding filled
filled-left none h p b t s = put_file-Extends h p b t s
filled-left (some f) h p b t s =
    rw (left-failing (fault f) (put_file h p (take (h.copied (at h p)) b) t))
      (put_file-Extends h p (take (h.copied (at h p)) b) t s)

-- A `WriteFile` where `Stat` found nothing loses nothing, also where it fails half-way.
pub write_file-Extends :
    (h : Host) (p b : Bytes) (t : Tree)
    → stat h p t ≡ err enoent
    → Extends t (left (write_file h p b t))
unfolding write_file
write_file-Extends h p b t s = filled-left (h.faults fill_call (at h p)) h p b t s

pub read_file-write_file :
    (h : Host) (p b : Bytes) (t t' : Tree)
    → h.faults read_call (at h p) ≡ none
    → write_file h p b t ≡ did t'
    → read_file h p t' ≡ ok b
read_file-write_file h p b t t' q w =
    read_file-put_file h p b t t' q (write_file-put_file h p b t t' w)

pub stat-write_file :
    (h : Host) (p q b : Bytes) (t t' : Tree) (n : Node)
    → write_file h p b t ≡ did t'
    → stat h q t ≡ ok n
    → (m : Node) × (stat h q t' ≡ ok m)
stat-write_file h p q b t t' n w = stat-put_file h p q b t t' n (write_file-put_file h p b t t' w)
