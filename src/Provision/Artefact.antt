-- ===== src/Provision/Artefact.antt =====
-- cmd/weft-driver-vz/provision_darwin.go: what `placeArtefact` leaves where it makes a link.
use weft_driver_vz.Common.{ℕ, suc, ◌≡◌, refl, subst, false, none, some, ◌∷◌, Bytes}
use weft_driver_vz.Golang.FilePath.{Place}
use weft_driver_vz.Os.Tree.{Tree, Node, link, eloop, node, max_links}
use weft_driver_vz.Os.Calls.{Host, stat_call, Answer, ok, err, at, stat, remove}
use weft_driver_vz.Os.Calls.Laws.{left}
use weft_driver_vz.Os.Calls.Links.{Linked, symlink-Linked, reach_with_self}
use weft_driver_vz.Os.World.{World, done}
use weft_driver_vz.Hypervisor.Create.Stages.{change-done}
use weft_driver_vz.Provision.{Cloned, abs_path, wipe, place_fresh, place_at, place_artefact}

module _ (clone : Place → Place → Tree → Cloned) (h : Host) where
  place_at-Linked :
      (from dst : Bytes) (a : Answer Node) (w v : World)
      → place_at clone h from dst false a w ≡ done tt v
      → Linked (at h from) (at h dst) v.tree
  unfolding place_at place_fresh wipe
  place_at-Linked from dst (err e) w v d = cc
  place_at-Linked from dst (ok n) w v d =
      symlink-Linked h (at h from) dst (left (remove h dst w.tree)) v.tree (change-done _ _ _ v d)

  -- When `placeArtefact` succeeds in placing a link, what stands at the destination is a link to the
  -- place of the source.
  pub place_artefact-link :
      (src dst : Bytes) (w v : World)
      → place_artefact clone h src dst false w ≡ done tt v
      → node v.tree (at h dst) ≡ some (link (at h (abs_path h src)))
  unfolding place_artefact
  place_artefact-link src dst w v d =
      (place_at-Linked (abs_path h src) dst (stat h (abs_path h src) w.tree) w v d).there

  -- Where the destination is the source itself, an artefact that `placeArtefact` has placed as a link
  -- is lost: the link leads to itself, so that looking at it fails with ELOOP.
  pub place_artefact_self :
      (src : Bytes) (c : ℕ) (dst : Bytes) (w v : World)
      → h.faults stat_call (at h (c ∷ dst)) ≡ none
      → at h (abs_path h src) ≡ at h (c ∷ dst)
      → place_artefact clone h src (c ∷ dst) false w ≡ done tt v
      → stat h (c ∷ dst) v.tree ≡ err eloop
  unfolding place_artefact stat
  place_artefact_self src c dst w v sees same d =
      let l = place_at-Linked (abs_path h src) (c ∷ dst) (stat h (abs_path h src) w.tree) w v d in
      let k = at h (c ∷ dst) in
      rw (sees, reach_with_self (suc max_links) k v.tree (subst (λ j. Linked j k v.tree) same l))
        refl
