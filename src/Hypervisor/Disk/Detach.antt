-- ===== src/Hypervisor/Disk/Detach.antt =====
-- builtin/hypervisor.go: what `DetachDisk` leaves on the host.
use weft_driver_vz.Common.{
  ◌≡◌, refl, sym, ap, ◌∙◌, ◌≢◌, inl, inr, false, [], ◌∷◌, Bool-cases, Bytes,
}
use weft_driver_vz.Golang.FilePath.{Place}
use weft_driver_vz.Os.Tree.{Node, node, place_eq, is_not_exist, enoent}
use weft_driver_vz.Os.Calls.{Host, at, ok, Change, did, broke, stat, remove}
use weft_driver_vz.Os.Calls.Laws.{left}
use weft_driver_vz.Os.Calls.Removal.{remove-outside, remove-lost, remove-gone}
use weft_driver_vz.Os.World.{World, Outcome, done, final}
use weft_driver_vz.Hypervisor.Create.Stages.{is_not_exist_lem}
use weft_driver_vz.Hypervisor.Disk.{detached, detach_disk}

detached-tree : (c : Change) (w : World) → (final (detached c w)).tree ≡ left c
unfolding detached
detached-tree (did t) w = refl
detached-tree (broke e t) w = elim (Bool-cases (is_not_exist e)) [
  | inl missing ↦ rw missing refl
  | inr other ↦ rw other refl
]

detached-gone :
    (h : Host) (p : Bytes) (c : Change) (w v : World) (n : Node)
    → p ≢ []
    → at h p ≢ []
    → remove h p w.tree ≡ c
    → detached c w ≡ done tt v
    → stat h p v.tree ≢ ok n
unfolding detached
detached-gone h p (did t) w v n e ne q d =
    let r : t ≡ v.tree = ap (λ (x : Outcome (Unit {0})). (final x).tree) d in
    remove-gone h p w.tree v.tree n ne (q ∙ ap did r)
detached-gone h p (broke x t) w v n e ne q d = elim (Bool-cases (is_not_exist x)) [
  | inr other ↦ let d' = rw other at d in cc d'
  | inl missing ↦
      let d' = rw missing at d in
      let r : t ≡ v.tree = ap (λ (x : Outcome (Unit {0})). (final x).tree) d' in
      remove-lost h p w.tree v.tree n e
        (q ∙ (ap (λ y. broke y t) (is_not_exist_lem x missing) ∙ ap (broke enoent) r))
]

-- When `DetachDisk` succeeds, nothing is found at the file's path, be it removed now or missing
-- before, and nothing differs at any other place; the path is not the root's.
pub detach_disk-gone :
    (h : Host) (uuid volume : Bytes) (w v : World) (n : Node) (j : Place)
    → at h volume ≢ []
    → detach_disk h uuid volume w ≡ done tt v
    → place_eq (at h volume) j ≡ false
    → j ≢ []
    → (stat h volume v.tree ≢ ok n) × (node v.tree j ≡ node w.tree j)
unfolding detach_disk
detach_disk-gone h uuid [] w v n j ne d q nj = cc d
detach_disk-gone h uuid (c ∷ p) w v n j ne d q nj =
    let e : v.tree ≡ left (remove h (c ∷ p) w.tree) =
      sym (ap (λ (x : Outcome (Unit {0})). (final x).tree) d)
      ∙ detached-tree (remove h (c ∷ p) w.tree) w in
    (
      detached-gone h (c ∷ p) (remove h (c ∷ p) w.tree) w v n (λ e. cc e) ne refl d,
      ap (λ t. node t j) e ∙ remove-outside h (c ∷ p) w.tree j q nj,
    )
