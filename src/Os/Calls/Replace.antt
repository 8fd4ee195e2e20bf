-- ===== src/Os/Calls/Replace.antt =====
-- A file that `os.Remove` and then `os.OpenFile` with O_TRUNC put in the place of an old one.
use weft_driver_vz.Common.{
  ℕ, suc, ◌≡◌, refl, ◌∙◌, ◌≢◌, inl, inr, Bool, Option, none, some, [], ◌∷◌, Bool-cases, take, Bytes,
}
use weft_driver_vz.Golang.FilePath.{Place}
use weft_driver_vz.Os.Tree.{
  Node, file, folder, link, Tree, Errno, prune, node, place_eq, way_error, has_child, write, vacant,
  failed, found, Reached, Fault, fault, max_links, reach,
}
use weft_driver_vz.Os.Tree.Laws.{
  Extends, Extends-refl, write-Extends, place_eq_refl, reach-vacant, reach-folder, reach-failed,
  reach_with-node, reach_with-Extends,
}
use weft_driver_vz.Os.Calls.Laws.{failing_lem}
use weft_driver_vz.Os.Calls.Writing.{read_file-put_file}
use weft_driver_vz.Os.Tree.Overwrite.{node-prune}
use weft_driver_vz.Os.Calls.{
  Host, at, did, trouble, write_call, remove_call, remove, remove_at, copy, copy_at, open_at,
  opened, open_file, ok, read_call, read_file, read_at, read_found, put_file, write_at, write_found,
}
use weft_driver_vz.Os.Calls.Missing.{way_error-prune}
use weft_driver_vz.Os.Calls.Laws.{left}

prune-Extends : (gone : Place → Bool) (t : Tree) → Extends (prune gone t) t
unfolding node prune
prune-Extends gone t [] n h = h
prune-Extends gone t (c ∷ k) n h =
    let e = node-prune gone t (c ∷ k) (λ q. cc q) in
    elim (Bool-cases (gone (c ∷ k))) [
      | inl g ↦ let e' = rw g at e in cc
      | inr g ↦ let e' = rw g at e in cc
    ]

remove_at-Extends :
    (e w : Option Errno) (n : Option Node) (k : Place) (t : Tree)
    → Extends (left (remove_at e w n k t)) t
unfolding remove_at
remove_at-Extends (some e) w n k t = Extends-refl t
remove_at-Extends none (some e) n k t = Extends-refl t
remove_at-Extends none none none k t = Extends-refl t
remove_at-Extends none none (some (file b)) k t = prune-Extends (place_eq k) t
remove_at-Extends none none (some (link i)) k t = prune-Extends (place_eq k) t
remove_at-Extends none none (some folder) k t = elim (Bool-cases (has_child k t)) [
  | inl full ↦ rw full (Extends-refl t)
  | inr empty ↦ rw empty (prune-Extends (place_eq k) t)
]

-- Whatever `Remove` does, what is there behind it was there in front of it.
pub remove-Extends : (h : Host) (p : Bytes) (t : Tree) → Extends (left (remove h p t)) t
unfolding remove
remove-Extends h p t =
    remove_at-Extends (trouble h remove_call p) (way_error t (at h p)) (node t (at h p)) (at h p) t

-- A place where a file can be made, and none stands.
pub record IsVacant (t : Tree) (k : Place) : Type 0 where
  pub way : way_error t k ≡ none
  pub bare : node t k ≡ none

pruned-IsVacant :
    (k : Place) (t : Tree) → k ≢ [] → way_error t k ≡ none → IsVacant (prune (place_eq k) t) k
pruned-IsVacant k t ne w = record {
  way = way_error-prune k t w;
  bare = node-prune (place_eq k) t k ne ∙ rw (place_eq_refl k) refl;
}

write_at-lost :
    (e : Option Errno) (b : Bytes) (t t' : Tree) (k : Place) (x : Errno)
    → way_error t k ≡ some x
    → write_at e b t k ≢ did t'
unfolding write_at
write_at-lost (some f) b t t' k x q d = cc
write_at-lost none b t t' k x q d =
    let d' = rw (reach-failed t k x q) at d in absurd (unfold write_found in cc d')

write_at-folder :
    (e : Option Errno) (b : Bytes) (t t' : Tree) (k : Place)
    → reach t k ≡ found k folder
    → write_at e b t k ≢ did t'
unfolding write_at
write_at-folder (some f) b t t' k q d = cc
write_at-folder none b t t' k q d = let d' = rw q at d in absurd (unfold write_found in cc d')

removed-IsVacant :
    (w : Option Errno) (n : Option Node) (e : Option Errno) (b : Bytes) (k : Place) (t t' : Tree)
    → k ≢ []
    → way_error t k ≡ w
    → node t k ≡ n
    → write_at e b (left (remove_at none w n k t)) k ≡ did t'
    → IsVacant (left (remove_at none w n k t)) k
unfolding remove_at
removed-IsVacant (some x) n e b k t t' ne q r d = absurd (write_at-lost e b t t' k x q d)
removed-IsVacant none none e b k t t' ne q r d = record { way = q; bare = r }
removed-IsVacant none (some (file c)) e b k t t' ne q r d = pruned-IsVacant k t ne q
removed-IsVacant none (some (link i)) e b k t t' ne q r d = pruned-IsVacant k t ne q
removed-IsVacant none (some folder) e b k t t' ne q r d = elim (Bool-cases (has_child k t)) [
  | inl full ↦ absurd (write_at-folder e b t t' k (reach-folder t k q r) (rw full at d))
  | inr empty ↦ rw empty (pruned-IsVacant k t ne q)
]

opened-found : (r : Reached) (j : Place) → opened r ≡ ok j → (n : Node) × (r ≡ found j n)
unfolding opened
opened-found (failed e) j o = cc
opened-found (vacant i) j o = cc
opened-found (found i n) j o = (n, cc)

open_at-found :
    (e : Option Errno) (t : Tree) (k j : Place)
    → open_at e t k ≡ ok j
    → (e ≡ none) × (n : Node) × (reach t k ≡ found j n)
unfolding open_at
open_at-found (some f) t k j o = cc
open_at-found none t k j o = let (n, r) = opened-found (reach t k) j o in (refl, n, r)

read_at-file :
    (e : Option Errno) (t : Tree) (k j : Place) (b : Bytes)
    → e ≡ none
    → reach t k ≡ found j (file b)
    → read_at e t k ≡ ok b
unfolding read_at
read_at-file e t k j b q r = rw (q, r) (unfold read_found in refl)

copy_at-write :
    (f : Option Fault) (h : Host) (n : Option Node) (p : Bytes) (t v : Tree)
    → copy_at f h n p t ≡ did v
    → (b : Bytes) × (n ≡ some (file b)) × (put_file h p b t ≡ did v)
unfolding copy_at
copy_at-write none h (some (file b)) p t v d = (b, refl, d)
copy_at-write (some f) h (some (file b)) p t v d =
    absurd (failing_lem (fault f) (put_file h p (take (h.copied (at h p)) b) t) v d)
copy_at-write none h (some folder) p t v d = cc
copy_at-write none h (some (link i)) p t v d = cc
copy_at-write none h none p t v d = cc
copy_at-write (some f) h (some folder) p t v d = cc
copy_at-write (some f) h (some (link i)) p t v d = cc
copy_at-write (some f) h none p t v d = cc

write_at-vacant :
    (e : Option Errno) (b : Bytes) (t t' : Tree) (k : Place)
    → IsVacant t k
    → write_at e b t k ≡ did t'
    → t' ≡ write k (file b) t
unfolding write_at
write_at-vacant (some f) b t t' k i d = cc
write_at-vacant none b t t' k i d =
    let d' = rw (reach-vacant t k i.way i.bare) at d in unfold write_found in cc d'

remove-IsVacant :
    (h : Host) (c : ℕ) (p b : Bytes) (t t' : Tree)
    → at h (c ∷ p) ≢ []
    → h.faults remove_call (at h (c ∷ p)) ≡ none
    → put_file h (c ∷ p) b (left (remove h (c ∷ p) t)) ≡ did t'
    → IsVacant (left (remove h (c ∷ p) t)) (at h (c ∷ p))
unfolding remove put_file
remove-IsVacant h c p b t t' ne removable w =
    let k = at h (c ∷ p) in
    rw removable (
      removed-IsVacant (way_error t k) (node t k) (trouble h write_call (c ∷ p)) b k t t' ne refl
        refl (rw removable at w))

module _ (h : Host) (src : Bytes) (c : ℕ) (dst : Bytes) (t : Tree) where
  -- A file that takes the place of what stood at a path, filled from what another path opens, holds
  -- what that other path read in front of it all.
  pub replaced-copy :
      (k : Place) (t' v : Tree)
      → at h (c ∷ dst) ≢ []
      → h.faults remove_call (at h (c ∷ dst)) ≡ none
      → h.faults read_call (at h (c ∷ dst)) ≡ none
      → open_file h src (left (remove h (c ∷ dst) t)) ≡ ok k
      → put_file h (c ∷ dst) [] (left (remove h (c ∷ dst) t)) ≡ did t'
      → copy h k (c ∷ dst) t' ≡ did v
      → (b : Bytes) × (read_file h src t ≡ ok b) × (read_file h (c ∷ dst) v ≡ ok b)
  unfolding open_file copy
  replaced-copy k t' v ne removable readable o w d =
      let t0 = left (remove h (c ∷ dst) t) in
      let i = remove-IsVacant h c dst [] t t' ne removable w in
      let (e, n, r) = open_at-found (trouble h read_call src) t0 (at h src) k o in
      let (b, q, z) = copy_at-write _ h (node t' k) (c ∷ dst) t' v d in
      let y : t' ≡ write (at h (c ∷ dst)) (file []) t0 =
        unfold put_file in
        write_at-vacant (trouble h write_call (c ∷ dst)) [] t0 t' (at h (c ∷ dst)) i w in
      let x : node t' k ≡ some n = rw y (
        write-Extends t0 (at h (c ∷ dst)) (file []) i.bare k n
          (reach_with-node (suc max_links) t0 (at h src) k n r)) in
      let m : n ≡ file b = cc in
      (
        b,
        unfold read_file in
            read_at-file (trouble h read_call src) t (at h src) k b e (
              reach_with-Extends (suc max_links) t0 t (at h src) k (file b)
                (remove-Extends h (c ∷ dst) t) (rw m at r)),
        read_file-put_file h (c ∷ dst) b t' v readable z,
      )
