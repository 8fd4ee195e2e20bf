-- ===== src/Hypervisor/Disk/Laws.antt =====
-- builtin/hypervisor.go: what `DeleteVM`, `AttachDisk` and `DetachDisk` leave on the host.
use weft_driver_vz.Common.{
  ℕ, ◌+◌, ◌*◌, ◌^◌, ◌<◌, ◌≡◌, refl, ap, ◌≢◌, inl, inr, [], ◌∷◌, arith, ◌==◌, Bool-cases, Bytes,
}
use weft_driver_vz.Golang.FilePath.{dir}
use weft_driver_vz.Os.Tree.{Node, enoent, file, is_not_exist}
use weft_driver_vz.Os.Tree.Laws.{Extends, Extends-refl}
use weft_driver_vz.Os.Calls.{
  Host, at, Answer, ok, err, Change, did, broke, stat, remove_all, mkdir_all,
}
use weft_driver_vz.Os.Calls.Laws.{left, stat-file}
use weft_driver_vz.Os.Calls.Folders.{mkdir_all-Extends}
use weft_driver_vz.Os.Calls.Removal.{SameOutside, remove_all-outside, remove_all-gone}
use weft_driver_vz.Os.World.{World, Outcome, done, final, bind-done}
use weft_driver_vz.Framework.{Framework, IsFramework}
use weft_driver_vz.Hypervisor.Create.{change}
use weft_driver_vz.Hypervisor.Create.Stages.{
  Exists, change-Extends, store-Extends, store-done, is_not_exist_lem,
}
use weft_driver_vz.Hypervisor.Create.Laws.{bind-Extends}
use weft_driver_vz.Hypervisor.Disk.{
  DiskSpec, size_bytes, unwrapped, delete_vm, create_disk, attach_at, attach_path, attach_disk,
}

-- A size of n GiB below 2^33 is passed on exactly, as an int64 that is not negative, and a size of
-- n + 2^34 GiB becomes the same number of bytes as n.
pub size_bytes_exact :
    (n : ℕ)
    → n < 2 ^ 33
    → (size_bytes n ≡ n * 2 ^ 30)
      × (size_bytes n < 2 ^ 63)
      × (size_bytes (n + 2 ^ 34) ≡ size_bytes n)
unfolding size_bytes
size_bytes_exact n h = (omega arith, omega arith, omega arith)

unwrapped-tree : (c : Change) (w : World) → (final (unwrapped c w)).tree ≡ left c
unfolding unwrapped
unwrapped-tree (did t) w = refl
unwrapped-tree (broke e t) w = refl

unwrapped-done : (c : Change) (w v : World) → unwrapped c w ≡ done tt v → c ≡ did v.tree
unfolding unwrapped
unwrapped-done (did t) w v d = ap (λ (x : Outcome (Unit {0})). did (final x).tree) d
unwrapped-done (broke e t) w v d = cc

-- `DeleteVM` changes nothing outside the VM directory, whether it succeeds or fails.
pub delete_vm-outside :
    (h : Host) (uuid : Bytes) (w : World)
    → SameOutside (at h uuid) w.tree (final (delete_vm h uuid w)).tree
unfolding delete_vm
delete_vm-outside h [] w j u = refl
delete_vm-outside h (c ∷ uuid) w j u =
    rw (unwrapped-tree (remove_all h (c ∷ uuid) w.tree) w)
      (remove_all-outside h (c ∷ uuid) w.tree j u)

-- After a `DeleteVM` that succeeds on a directory other than the root, nothing is found there.
pub delete_vm-gone :
    (h : Host) (uuid : Bytes) (w v : World) (n : Node)
    → at h uuid ≢ []
    → delete_vm h uuid w ≡ done tt v
    → stat h uuid v.tree ≢ ok n
unfolding delete_vm
delete_vm-gone h [] w v n ne d s = cc d
delete_vm-gone h (c ∷ uuid) w v n ne d s =
    remove_all-gone h (c ∷ uuid) w.tree v.tree n (λ e. cc e) ne
      (unwrapped-done (remove_all h (c ∷ uuid) w.tree) w v d) s

module _ (f : Framework) (k : IsFramework f) (h : Host) where
  create_disk-Extends :
      (d : DiskSpec) (w : World) → Extends w.tree (final (create_disk f h d w)).tree
  unfolding create_disk
  create_disk-Extends d w =
      bind-Extends w (change "AttachDisk: mkdir parent" (mkdir_all h (dir d.backing_path) w.tree) w)
        _
        (change-Extends "AttachDisk: mkdir parent" (mkdir_all h (dir d.backing_path) w.tree) w
          (mkdir_all-Extends h (dir d.backing_path) w.tree))
        λ _ v.
          store-Extends _ _ v (k.disk_keeps (at h d.backing_path) (size_bytes d.size_gib) v.tree)

  create_disk-makes :
      (d : DiskSpec) (w v : World)
      → d.backing_path ≢ []
      → stat h d.backing_path w.tree ≡ err enoent
      → create_disk f h d w ≡ done tt v
      → Exists h d.backing_path v
  unfolding create_disk
  create_disk-makes d w v ne missing e =
      let (_, u, e1, e2) =
        bind-done (change "AttachDisk: mkdir parent" (mkdir_all h (dir d.backing_path) w.tree) w) _
          tt v e in
      let (b, n, way) =
        k.disk_makes (at h d.backing_path) (size_bytes d.size_gib) u.tree v.tree
          (store-done _ _ u v e2) in
      (file b, stat-file h d.backing_path w.tree v.tree b ne missing way n)

  attach_at-Extends :
      (d : DiskSpec) (a : Answer Node) (w : World)
      → Extends w.tree (final (attach_at f h d a w)).tree
  unfolding attach_at
  attach_at-Extends d (ok n) w = Extends-refl w.tree
  attach_at-Extends d (err e) w = elim (Bool-cases (is_not_exist e)) [
    | inr other ↦ rw other (Extends-refl w.tree)
    | inl missing ↦ elim (Bool-cases (d.size_gib == 0)) [
      | inl z ↦ rw (missing, z) (Extends-refl w.tree)
      | inr z ↦ rw (missing, z) (create_disk-Extends d w)
    ]
  ]

  attach_at-makes :
      (d : DiskSpec) (a : Answer Node) (w v : World)
      → d.backing_path ≢ []
      → stat h d.backing_path w.tree ≡ a
      → attach_at f h d a w ≡ done tt v
      → Exists h d.backing_path v
  unfolding attach_at
  attach_at-makes d (ok n) w v ne q e = let s : w ≡ v = cc in (n, rw (← s) q)
  attach_at-makes d (err x) w v ne q e = elim (Bool-cases (is_not_exist x)) [
    | inr other ↦ let e' = rw other at e in cc e'
    | inl missing ↦ elim (Bool-cases (d.size_gib == 0)) [
      | inl z ↦ let e' = rw (missing, z) at e in cc e'
      | inr z ↦
          create_disk-makes d w v ne (rw (is_not_exist_lem x missing) at q) (rw (missing, z) at e)
    ]
  ]

  attach_path-Extends :
      (d : DiskSpec) (p : Bytes) (w : World) → Extends w.tree (final (attach_path f h d p w)).tree
  unfolding attach_path
  attach_path-Extends d [] w = Extends-refl w.tree
  attach_path-Extends d (c ∷ p) w = attach_at-Extends d (stat h (c ∷ p) w.tree) w

  attach_path-makes :
      (d : DiskSpec) (p : Bytes) (w v : World)
      → d.backing_path ≡ p
      → attach_path f h d p w ≡ done tt v
      → (p ≢ []) × Exists h d.backing_path v
  unfolding attach_path
  attach_path-makes d [] w v q e = cc
  attach_path-makes d (c ∷ p) w v q e =
      (λ z. cc z, attach_at-makes d (stat h (c ∷ p) w.tree) w v (λ z. cc (q, z)) (rw q) e)

  attach_path-again :
      (d : DiskSpec) (p : Bytes) (v : World)
      → p ≢ []
      → Exists h p v
      → attach_path f h d p v ≡ done tt v
  unfolding attach_path attach_at
  attach_path-again d [] v ne x = absurd (ne refl)
  attach_path-again d (c ∷ p) v ne (n, s) = rw s

  -- With a framework as `IsFramework` asks, `AttachDisk`, whether it succeeds or fails, changes
  -- nothing that exists.
  pub attach_disk-Extends :
      (uuid : Bytes) (d : DiskSpec) (w : World)
      → Extends w.tree (final (attach_disk f h uuid d w)).tree
  unfolding attach_disk
  attach_disk-Extends [] d w = Extends-refl w.tree
  attach_disk-Extends (c ∷ uuid) d w = attach_path-Extends d d.backing_path w

  -- With a framework as `IsFramework` asks: when `AttachDisk` succeeds, the backing file is there,
  -- and a second call succeeds and changes nothing, whatever size it asks for.
  pub attach_disk_idempotent :
      (uuid : Bytes) (d : DiskSpec) (size : ℕ) (w v : World)
      → attach_disk f h uuid d w ≡ done tt v
      → Exists h d.backing_path v
        × (attach_disk f h uuid (record d { size_gib = size }) v ≡ done tt v)
  unfolding attach_disk
  attach_disk_idempotent [] d size w v e = cc
  attach_disk_idempotent (c ∷ uuid) d size w v e =
      let (ne, x) = attach_path-makes d d.backing_path w v refl e in
      (x, attach_path-again (record d { size_gib = size }) d.backing_path v ne x)
