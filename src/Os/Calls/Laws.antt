-- ===== src/Os/Calls/Laws.antt =====
-- What the file calls guarantee: a file that was written is found, and nothing that stood in the tree is
-- lost by making more.
use weft_driver_vz.Common.{suc, ◌≡◌, refl, ◌≢◌, Option, none, some, [], ◌∷◌, Bytes}
use weft_driver_vz.Golang.FilePath.{Place}
use weft_driver_vz.Os.Tree.{
  fault, Node, file, Fault, Tree, Errno, enoent, node, write, way_error, Reached, failed, vacant,
  found, reach, max_links,
}
use weft_driver_vz.Os.Tree.Laws.{
  Extends, write-Extends, reach_with-Extends, reach_with-vacant, reach_with-put, node-write_self,
  reach-file,
}
use weft_driver_vz.Os.Calls.{
  Change, failing, filled, fill_call, write_file, stat_call, write_call, Host, ok, err, did, broke,
  at, trouble, fault_at, stat_found, stat_at, stat, write_found, write_at, put_file,
}

-- The tree that a call leaves.
abbrev pub left : Change → Tree
left (did t) = t
left (broke e t) = t

stat_found-ok : (r : Reached) (n : Node) → stat_found r ≡ ok n → (j : Place) × (r ≡ found j n)
unfolding stat_found
stat_found-ok (failed e) n h = cc
stat_found-ok (vacant k) n h = cc
stat_found-ok (found k m) n h = (k, cc)

pub stat_at-Extends :
    (e : Option Errno) (t t' : Tree) (k : Place) (n : Node)
    → Extends t t'
    → stat_at e t k ≡ ok n
    → stat_at e t' k ≡ ok n
unfolding stat_at
stat_at-Extends (some e) t t' k n x h = cc
stat_at-Extends none t t' k n x h =
    let (j, q) = stat_found-ok (reach t k) n h in
    rw (reach_with-Extends (suc max_links) t t' k j n x q) (unfold stat_found in refl)

-- What `Stat` finds, it still finds in a tree that has more.
pub stat-Extends :
    (h : Host) (p : Bytes) (t t' : Tree) (n : Node)
    → Extends t t'
    → stat h p t ≡ ok n
    → stat h p t' ≡ ok n
unfolding stat
stat-Extends h p t t' n x e = stat_at-Extends (trouble h stat_call p) t t' (at h p) n x e

fault_at-enoent : (f : Option Fault) → fault_at f ≢ some enoent
fault_at-enoent none e = cc
fault_at-enoent (some f) e = cc

-- Where `Stat` found nothing, a tree that has gained a file at the vacant place.
put_at :
    (f : Option Fault) (t t' : Tree) (k j : Place) (b : Bytes)
    → Extends t t'
    → node t' j ≡ some (file b)
    → stat_at (fault_at f) t k ≡ err enoent
    → reach t k ≡ vacant j
    → stat_at (fault_at f) t' k ≡ ok (file b)
unfolding stat_at stat_found
put_at none t t' k j b x made h r = rw (reach_with-put (suc max_links) t t' k j b x made r)
put_at (some f) t t' k j b x made h r = cc

write_found-did :
    (r : Reached) (b : Bytes) (t t' : Tree)
    → stat_found r ≡ err enoent
    → write_found r b t ≡ did t'
    → (j : Place) × (r ≡ vacant j) × (t' ≡ write j (file b) t)
unfolding stat_found write_found
write_found-did (failed e) b t t' h w = cc
write_found-did (vacant j) b t t' h w = (j, refl, cc)
write_found-did (found k n) b t t' h w = cc

-- A file written where `Stat` found nothing is found by `Stat`, and nothing else changes.
pub record Created (h : Host) (p : Bytes) (t t' : Tree) : Type 0 where
  pub extends : Extends t t'
  pub content : Bytes
  pub there : stat h p t' ≡ ok (file content)

put_file_new :
    (f g : Option Fault) (b : Bytes) (t t' : Tree) (k : Place)
    → stat_at (fault_at f) t k ≡ err enoent
    → write_at (fault_at g) b t k ≡ did t'
    → Extends t t' × (stat_at (fault_at f) t' k ≡ ok (file b))
unfolding stat_at write_at
put_file_new none none b t t' k s w =
    let (j, r, q) = write_found-did (reach t k) b t t' s w in
    let (v, _) = reach_with-vacant (suc max_links) t k j r in
    let x : Extends t t' = rw q (write-Extends t j (file b) v) in
    (x, put_at none t t' k j b x (rw q (node-write_self t j (file b) v)) s r)
put_file_new none (some g) b t t' k s w = cc
put_file_new (some f) g b t t' k s w = cc

pub put_file-Created :
    (h : Host) (p b : Bytes) (t t' : Tree)
    → stat h p t ≡ err enoent
    → put_file h p b t ≡ did t'
    → Created h p t t'
unfolding stat put_file write_at
put_file-Created h [] b t t' s w = cc
put_file-Created h (c ∷ p) b t t' s w =
    let (x, q) =
      put_file_new (h.faults stat_call (at h (c ∷ p))) (h.faults write_call (at h (c ∷ p))) b t t'
        (at h (c ∷ p)) s w in
    record { extends = x; content = b; there = q }

pub stat_at-found :
    (e : Option Errno) (t : Tree) (k : Place) (n : Node)
    → stat_at e t k ≡ ok n
    → (j : Place) × (reach t k ≡ found j n)
unfolding stat_at
stat_at-found (some e) t k n h = cc
stat_at-found none t k n h = stat_found-ok (reach t k) n h

stat_at-file :
    (f : Option Fault) (t t' : Tree) (k : Place) (b : Bytes)
    → stat_at (fault_at f) t k ≡ err enoent
    → way_error t' k ≡ none
    → node t' k ≡ some (file b)
    → stat_at (fault_at f) t' k ≡ ok (file b)
unfolding stat_at
stat_at-file (some f) t t' k b s w n = cc
stat_at-file none t t' k b s w n = rw (reach-file t' k b w n) (unfold stat_found in refl)

-- A file that stands at a path's own place is found.
pub stat-file :
    (h : Host) (p : Bytes) (t t' : Tree) (b : Bytes)
    → p ≢ []
    → stat h p t ≡ err enoent
    → way_error t' (at h p) ≡ none
    → node t' (at h p) ≡ some (file b)
    → stat h p t' ≡ ok (file b)
unfolding stat
stat-file h [] t t' b e s w n = absurd (e refl)
stat-file h (c ∷ p) t t' b e s w n =
    stat_at-file (h.faults stat_call (at h (c ∷ p))) t t' (at h (c ∷ p)) b s w n

-- A call that fails at its end.
pub failing_lem : (e : Errno) (x : Change) (v : Tree) → failing e x ≢ did v
unfolding failing
failing_lem e (did t) v d = cc
failing_lem e (broke f t) v d = cc

pub left-failing : (e : Errno) (x : Change) → left (failing e x) ≡ left x
unfolding failing
left-failing e (did t) = refl
left-failing e (broke f t) = refl

filled-put_file :
    (f : Option Fault) (h : Host) (p b : Bytes) (t t' : Tree)
    → filled f h p b t ≡ did t'
    → put_file h p b t ≡ did t'
unfolding filled
filled-put_file none h p b t t' d = d
filled-put_file (some f) h p b t t' d = absurd (failing_lem (fault f) _ t' d)

-- A `WriteFile` that succeeds has written all of its bytes.
pub write_file-put_file :
    (h : Host) (p b : Bytes) (t t' : Tree) → write_file h p b t ≡ did t' → put_file h p b t ≡ did t'
unfolding write_file
write_file-put_file h p b t t' d = filled-put_file (h.faults fill_call (at h p)) h p b t t' d

pub write_file-Created :
    (h : Host) (p b : Bytes) (t t' : Tree)
    → stat h p t ≡ err enoent
    → write_file h p b t ≡ did t'
    → Created h p t t'
write_file-Created h p b t t' s w = put_file-Created h p b t t' s (write_file-put_file h p b t t' w)
