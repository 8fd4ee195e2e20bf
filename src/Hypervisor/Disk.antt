-- ===== src/Hypervisor/Disk.antt =====
-- builtin/hypervisor.go: `DeleteVM`, `AttachDisk`, `DetachDisk`, `AttachNIC`, `DetachNIC` and
-- `ValidatePCIPassthrough`. A size is a number of GiB; those that Go's int holds and that are not
-- positive are the number 0.
pub mod Laws
pub mod Detach
use weft_driver_vz.Common.{
  ℕ, zero, suc, ◌+◌, ◌-◌, ◌*◌, ◌/◌, ◌%◌, ◌^◌, ◌≤◌, ◌<◌, String, ◌≡◌, refl, sym, ap, ◌∙◌, subst,
  fun_ext, ◌≢◌, ◌↔◌, ◌⊎◌, inl, inr, Bool, true, false, not, ◌&&◌, ◌||◌, Option, none, some, List,
  [], ◌∷◌, ◌++◌, map, foldl, reverse, append-nil, append_assoc, reverse-append, reverse-reverse,
  arith, ltb, leb, ◌==◌, if◌then◌else◌, ==_iff, Bool-cases, Option-cases, length, take, drop,
  length-append, take-append-drop, drop-append, take-append, length-take, length-drop, take-nil,
  take-all, take_past, drop_past, All, All-append, Bytes, codes, bytes_eq, bytes_eq_iff,
}
use weft_driver_vz.Golang.FilePath.{Place, dir}
use weft_driver_vz.Os.Tree.{Node, Tree, Errno, is_not_exist}
use weft_driver_vz.Os.Calls.{
  Host, at, Answer, ok, err, Change, did, broke, stat, mkdir_all, remove, remove_all,
}
use weft_driver_vz.Os.World.{
  World, M, Outcome, done, fail, Error, unsupported, failed, Cause, os, no_cause, bind, ◌>>=◌, ◌>>◌,
}
use weft_driver_vz.Framework.{Framework}
use weft_driver_vz.Hypervisor.Create.{change, store}

pub record DiskSpec : Type 0 where
  pub backing_path : Bytes
  pub size_gib : ℕ

-- `int64(disk.SizeGiB) * 1024 * 1024 * 1024`, as the bits of an int64.
unfoldable pub size_bytes : ℕ → ℕ
size_bytes gib = (gib % 2 ^ 64 * 1024 * 1024 * 1024) % 2 ^ 64

-- `os.RemoveAll(vmUUID)`, its error as it is.
pub unwrapped : Change → M (Unit {0})
unwrapped (did t) w = done tt (record w { tree = t })
unwrapped (broke e t) w = fail (failed "" (os e)) (record w { tree = t })

unfoldable pub delete_vm : Host → Bytes → M (Unit {0})
unfolding unwrapped
delete_vm h [] w = fail (failed "DeleteVM: empty vmUUID" no_cause) w
delete_vm h (c ∷ uuid) w = unwrapped (remove_all h (c ∷ uuid) w.tree) w

module _ (f : Framework) (h : Host) where
  pub create_disk : DiskSpec → M (Unit {0})
  create_disk d = do
    λ w. change "AttachDisk: mkdir parent" (mkdir_all h (dir d.backing_path) w.tree) w
    λ w.
        store "AttachDisk: create disk image"
          (f.create_disk_image (at h d.backing_path) (size_bytes d.size_gib) w.tree) w

  pub attach_at : DiskSpec → Answer Node → M (Unit {0})
  attach_at d (ok n) w = done tt w
  attach_at d (err e) w =
      if not (is_not_exist e)
      then fail (failed "AttachDisk: stat" (os e)) w
      else if d.size_gib == 0
      then fail (failed "AttachDisk: missing and no SizeGiB to create it" no_cause) w
      else create_disk d w

  pub attach_path : DiskSpec → Bytes → M (Unit {0})
  attach_path d [] w = fail (failed "AttachDisk: empty BackingPath" no_cause) w
  attach_path d (c ∷ p) w = attach_at d (stat h (c ∷ p) w.tree) w

  unfoldable pub attach_disk : Bytes → DiskSpec → M (Unit {0})
  unfolding attach_path attach_at create_disk change store
  attach_disk [] d w = fail (failed "AttachDisk: empty vmUUID" no_cause) w
  attach_disk (c ∷ uuid) d w = attach_path d d.backing_path w

pub detached : Change → M (Unit {0})
detached (did t) w = done tt (record w { tree = t })
detached (broke e t) w =
    if is_not_exist e
    then done tt (record w { tree = t })
    else fail (failed "DetachDisk: remove" (os e)) (record w { tree = t })

-- The first argument is the VM's, which the method does not use.
unfoldable pub detach_disk : Host → Bytes → Bytes → M (Unit {0})
unfolding detached
detach_disk h uuid [] w = fail (failed "DetachDisk: empty volumeUUID" no_cause) w
detach_disk h uuid (c ∷ volume) w = detached (remove h (c ∷ volume) w.tree) w

unfoldable pub attach_nic : Bytes → Bytes → M (Unit {0})
attach_nic uuid nic w = fail unsupported w

unfoldable pub detach_nic : Bytes → Bytes → M (Unit {0})
detach_nic uuid device w = fail unsupported w

-- Its result is the error, if any.
unfoldable pub validate_pci_passthrough : List Bytes → Option Error
validate_pci_passthrough [] = none
validate_pci_passthrough (bdf ∷ bdfs) =
    some (failed "vz: PCI passthrough not supported by Apple Virtualization framework" no_cause)
