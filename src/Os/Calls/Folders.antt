-- ===== src/Os/Calls/Folders.antt =====
-- What `MkdirAll` makes: folders, and nothing else.
use weft_driver_vz.Common.{◌≡◌, refl, ◌≢◌, Option, none, some, [], ◌∷◌, Bytes}
use weft_driver_vz.Golang.FilePath.{Place}
use weft_driver_vz.Os.Tree.{
  Node, file, folder, link, Fault, Tree, Errno, node, write, way_error, found, reach,
}
use weft_driver_vz.Os.Tree.Laws.{
  Extends, Extends-refl, Extends-trans, write-Extends, node-write_self, reach-folder, reach-root,
  way_error-Extends,
}
use weft_driver_vz.Os.Calls.{
  stat_call, Host, Answer, ok, err, Change, did, broke, at, fault_at, stat_found, stat_at, mkdir_at,
  mkdir, then_mkdir, mkdirs_at, mkdirs, mkdir_all,
}
use weft_driver_vz.Os.Calls.Laws.{left, stat_at-found}

pub mkdir_at-Extends :
    (w : Option Errno) (f l : Option Fault) (n : Option Node) (k : Place) (t : Tree)
    → node t k ≡ n
    → Extends t (left (mkdir_at w f l n k t))
unfolding mkdir_at
mkdir_at-Extends (some e) f l n k t q = Extends-refl t
mkdir_at-Extends none f none (some folder) k t q = Extends-refl t
mkdir_at-Extends none f (some _) (some folder) k t q = Extends-refl t
mkdir_at-Extends none f none (some (file b)) k t q = Extends-refl t
mkdir_at-Extends none f (some _) (some (file b)) k t q = Extends-refl t
mkdir_at-Extends none f none (some (link j)) k t q = Extends-refl t
mkdir_at-Extends none f (some _) (some (link j)) k t q = Extends-refl t
mkdir_at-Extends none (some f) l none k t q = Extends-refl t
mkdir_at-Extends none none l none k t q = write-Extends t k folder q

pub mkdir_at-found :
    (w : Option Errno) (f l : Option Fault) (n : Option Node) (k : Place) (t t' : Tree)
    → way_error t k ≡ w
    → node t k ≡ n
    → mkdir_at w f l n k t ≡ did t'
    → reach t' k ≡ found k folder
unfolding mkdir_at
mkdir_at-found (some e) f l n k t t' w q d = cc
mkdir_at-found none f none (some folder) k t t' w q d =
    let e : t ≡ t' = cc in rw (← e) (reach-folder t k w q)
mkdir_at-found none f (some _) (some folder) k t t' w q d = cc
mkdir_at-found none f none (some (file b)) k t t' w q d = cc
mkdir_at-found none f (some _) (some (file b)) k t t' w q d = cc
mkdir_at-found none f none (some (link j)) k t t' w q d = cc
mkdir_at-found none f (some _) (some (link j)) k t t' w q d = cc
mkdir_at-found none (some f) l none k t t' w q d = cc
mkdir_at-found none none l none k t t' w q d =
    let e : write k folder t ≡ t' = cc in
    rw (← e) (
      reach-folder (write k folder t) k
        (way_error-Extends t (write k folder t) k (write-Extends t k folder q) w)
        (node-write_self t k folder q))

pub mkdirs_at-Extends :
    (h : Host) (seen : Answer Node) (k : Place) (up : Change) (t : Tree)
    → Extends t (left up)
    → Extends t (left (mkdirs_at h seen k up t))
unfolding mkdirs_at then_mkdir mkdir
mkdirs_at-Extends h (ok folder) k up t x = Extends-refl t
mkdirs_at-Extends h (ok (file b)) k up t x = Extends-refl t
mkdirs_at-Extends h (ok (link j)) k up t x = Extends-refl t
mkdirs_at-Extends h (err e) k (broke e' t2) t x = x
mkdirs_at-Extends h (err e) k (did t2) t x =
    Extends-trans t t2 _ x (mkdir_at-Extends (way_error t2 k) _ _ (node t2 k) k t2 refl)

pub mkdirs-Extends : (h : Host) (k : Place) (t : Tree) → Extends t (left (mkdirs h k t))
unfolding mkdirs
mkdirs-Extends h [] t = Extends-refl t
mkdirs-Extends h (c ∷ k) t = mkdirs_at-Extends h _ (c ∷ k) (mkdirs h k t) t (mkdirs-Extends h k t)

pub mkdirs_at-found :
    (h : Host) (seen : Answer Node) (k : Place) (up : Change) (t t' : Tree)
    → (seen ≡ ok folder → (j : Place) × (reach t k ≡ found j folder))
    → mkdirs_at h seen k up t ≡ did t'
    → (j : Place) × (reach t' k ≡ found j folder)
unfolding mkdirs_at then_mkdir mkdir
mkdirs_at-found h (ok folder) k up t t' s d =
    let (j, r) = s refl in let e : t ≡ t' = cc in (j, rw (← e) r)
mkdirs_at-found h (ok (file b)) k up t t' s d = cc
mkdirs_at-found h (ok (link j)) k up t t' s d = cc
mkdirs_at-found h (err e) k (broke e' t2) t t' s d = cc
mkdirs_at-found h (err e) k (did t2) t t' s d =
    (k, mkdir_at-found (way_error t2 k) _ _ (node t2 k) k t2 t' refl refl d)

pub mkdirs-found :
    (h : Host) (k : Place) (t t' : Tree)
    → mkdirs h k t ≡ did t'
    → (j : Place) × (reach t' k ≡ found j folder)
unfolding mkdirs
mkdirs-found h [] t t' d = ([], reach-root t')
mkdirs-found h (c ∷ k) t t' d =
    mkdirs_at-found h _ (c ∷ k) (mkdirs h k t) t t' (stat_at-found _ t (c ∷ k) folder) d

pub stat_at-again :
    (f : Option Fault) (t : Tree) (k j : Place)
    → f ≡ none
    → reach t k ≡ found j folder
    → stat_at (fault_at f) t k ≡ ok folder
unfolding stat_at stat_found
stat_at-again none t k j q r = rw r
stat_at-again (some f) t k j q r = cc

pub mkdirs-again :
    (h : Host) (k j : Place) (t : Tree)
    → h.faults stat_call k ≡ none
    → reach t k ≡ found j folder
    → mkdirs h k t ≡ did t
unfolding mkdirs
mkdirs-again h [] j t q r = refl
mkdirs-again h (c ∷ k) j t q r =
    rw (stat_at-again (h.faults stat_call (c ∷ k)) t (c ∷ k) j q r) (unfold mkdirs_at in refl)

-- `MkdirAll` only adds folders, also where it fails.
pub mkdir_all-Extends : (h : Host) (p : Bytes) (t : Tree) → Extends t (left (mkdir_all h p t))
unfolding mkdir_all
mkdir_all-Extends h [] t = Extends-refl t
mkdir_all-Extends h (c ∷ p) t = mkdirs-Extends h (at h (c ∷ p)) t

-- After a `MkdirAll` that succeeds, the path leads to a folder.
pub mkdir_all-found :
    (h : Host) (p : Bytes) (t t' : Tree)
    → mkdir_all h p t ≡ did t'
    → (j : Place) × (reach t' (at h p) ≡ found j folder)
unfolding mkdir_all
mkdir_all-found h [] t t' d = cc
mkdir_all-found h (c ∷ p) t t' d = mkdirs-found h (at h (c ∷ p)) t t' d

-- `MkdirAll` on a folder that can be looked at changes nothing.
pub mkdir_all-again :
    (h : Host) (p : Bytes) (j : Place) (t : Tree)
    → p ≢ []
    → h.faults stat_call (at h p) ≡ none
    → reach t (at h p) ≡ found j folder
    → mkdir_all h p t ≡ did t
unfolding mkdir_all
mkdir_all-again h [] j t e q r = absurd (e refl)
mkdir_all-again h (c ∷ p) j t e q r = mkdirs-again h (at h (c ∷ p)) j t q r
