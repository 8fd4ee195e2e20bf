-- ===== src/Os/Calls/Links.antt =====
-- What `os.Symlink` leaves, and how a link to itself is followed.
use weft_driver_vz.Common.{ℕ, zero, suc, ◌≡◌, refl, subst, Option, none, some, Bytes}
use weft_driver_vz.Golang.FilePath.{Place}
use weft_driver_vz.Os.Tree.{
  Tree, Node, link, Errno, eloop, node, write, way_error, reach_with, failed,
}
use weft_driver_vz.Os.Tree.Laws.{write-Extends, node-write_self, way_error-Extends}
use weft_driver_vz.Os.Calls.{Host, at, did, symlink, symlink_at}

-- A link was made at `k`, where nothing stood.
pub record Linked (target k : Place) (t : Tree) : Type 0 where
  pub there : node t k ≡ some (link target)
  pub way : way_error t k ≡ none

symlink_at-Linked :
    (e w : Option Errno) (n : Option Node) (target k : Place) (t t' : Tree)
    → symlink_at e w n target k t ≡ did t'
    → way_error t k ≡ w
    → node t k ≡ n
    → Linked target k t'
unfolding symlink_at
symlink_at-Linked (some e) w n target k t t' s p q = cc
symlink_at-Linked none (some e) n target k t t' s p q = cc
symlink_at-Linked none none (some n) target k t t' s p q = cc
symlink_at-Linked none none none target k t t' s p q =
    let e : write k (link target) t ≡ t' = cc in
    subst (Linked target k) e (record {
      there = node-write_self t k (link target) q;
      way = way_error-Extends t _ k (write-Extends t k (link target) q) p;
    })

pub symlink-Linked :
    (h : Host) (target : Place) (p : Bytes) (t t' : Tree)
    → symlink h target p t ≡ did t'
    → Linked target (at h p) t'
unfolding symlink
symlink-Linked h target p t t' s =
    symlink_at-Linked _ (way_error t (at h p)) (node t (at h p)) target (at h p) t t' s refl refl

-- A link to itself cannot be followed.
pub reach_with_self :
    (fuel : ℕ) (k : Place) (t : Tree) → Linked k k t → reach_with fuel t k ≡ failed eloop
unfolding reach_with
reach_with_self zero k t l = refl
reach_with_self (suc fuel) k t l = rw (l.way, l.there) (reach_with_self fuel k t l)
