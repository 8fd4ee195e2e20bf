-- ===== src/Tests/Hypervisor.antt =====
-- builtin/hypervisor.go: the theorems about the driver at concrete inputs.
use weft_driver_vz.Common.{
  ◌+◌, ◌*◌, ◌^◌, ◌<◌, ◌≡◌, refl, ◌≢◌, false, [], ◌∷◌, ◌++◌, arith, codes, bytes_eq,
}
use weft_driver_vz.Os.World.{World, done, final}
use weft_driver_vz.Os.Tree.{Tree, Node, file, folder}
use weft_driver_vz.Hypervisor.Create.{create_vm}
use weft_driver_vz.Hypervisor.Create.Laws.{create_vm_idempotent, create_vm-IsCreated, IsCreated}
use weft_driver_vz.Os.Calls.{at, stat, ok, did, write_file, read_file, remove}
use weft_driver_vz.Os.Calls.Removal.{SameOutside}
use weft_driver_vz.Os.Tree.Laws.{Extends}
use weft_driver_vz.Hypervisor.Create.Stages.{Exists}
use weft_driver_vz.Os.Tree.{node, place_eq}
use weft_driver_vz.Hypervisor.Disk.{detach_disk}
use weft_driver_vz.Hypervisor.Disk.Detach.{detach_disk-gone}
use weft_driver_vz.Hypervisor.Disk.{DiskSpec, attach_disk, delete_vm, size_bytes}
use weft_driver_vz.Hypervisor.Disk.Laws.{
  attach_disk_idempotent, attach_disk-Extends, delete_vm-gone, delete_vm-outside, size_bytes_exact,
}
use weft_driver_vz.Tests.Sample.{framework, framework-IsFramework, host, world_of, empty_world}

-- The world after a `CreateVM` in a new folder.
abbrev pub created : World
created = record empty_world {
  draws = 2;
  tree =
      (codes "vm" ∷ [], folder)
      ∷ (codes "nvram.bin" ∷ codes "vm" ∷ [], file (codes "efi"))
      ∷ (codes "machine-id.bin" ∷ codes "vm" ∷ [], file (codes "id" ++ 0 ∷ []))
      ∷ (codes "mac.txt" ∷ codes "vm" ∷ [], file (codes "mac" ++ 1 ∷ []))
      ∷ [];
}

create_vm_test : create_vm framework host (codes "/vm") empty_world ≡ done tt created
unfolding create_vm weft_driver_vz.Os.Calls.mkdir_all weft_driver_vz.Golang.FilePath.resolve
    bytes_eq weft_driver_vz.Os.Calls.stat_at weft_driver_vz.Os.Calls.stat_found
    weft_driver_vz.Os.Tree.reach_with weft_driver_vz.Os.Calls.stat
    weft_driver_vz.Golang.FilePath.join weft_driver_vz.Os.Tree.write
    weft_driver_vz.Tests.Sample.make_at weft_driver_vz.Os.Calls.write_file
    weft_driver_vz.Os.Calls.put_file
create_vm_test = refl

create_vm_idempotent_example : create_vm framework host (codes "/vm") created ≡ done tt created
create_vm_idempotent_example =
    create_vm_idempotent framework framework-IsFramework host (codes "/vm") empty_world created refl
      create_vm_test

create_vm-IsCreated_example : IsCreated host (codes "/vm") created
create_vm-IsCreated_example =
    create_vm-IsCreated framework framework-IsFramework host (codes "/vm") empty_world created
      create_vm_test

abbrev disk : DiskSpec
disk = record { backing_path = codes "/vm/data.img"; size_gib = 2 }

abbrev attached : World
attached =
    world_of
      ((codes "vm" ∷ [], folder) ∷ (codes "data.img" ∷ codes "vm" ∷ [], file (codes "disk")) ∷ [])

attach_disk_test : attach_disk framework host (codes "/vm") disk empty_world ≡ done tt attached
unfolding attach_disk stat weft_driver_vz.Os.Tree.reach_with weft_driver_vz.Golang.FilePath.resolve
    weft_driver_vz.Os.Calls.mkdir_all weft_driver_vz.Golang.FilePath.dir
    weft_driver_vz.Tests.Sample.make_at weft_driver_vz.Os.Tree.write
attach_disk_test = refl

attach_disk_idempotent_example :
    Exists host disk.backing_path attached
    × (attach_disk framework host (codes "/vm") (record disk { size_gib = 7 }) attached
        ≡ done tt attached)
attach_disk_idempotent_example =
    attach_disk_idempotent framework framework-IsFramework host (codes "/vm") disk 7 empty_world
      attached attach_disk_test

attach_disk-Extends_example :
    Extends created.tree (final (attach_disk framework host (codes "/vm") disk created)).tree
attach_disk-Extends_example =
    attach_disk-Extends framework framework-IsFramework host (codes "/vm") disk created

delete_vm_test : delete_vm host (codes "/vm") created ≡ done tt (record empty_world { draws = 2 })
unfolding delete_vm weft_driver_vz.Os.Calls.remove_all weft_driver_vz.Os.Tree.way_error
    weft_driver_vz.Golang.FilePath.resolve weft_driver_vz.Os.Tree.prune weft_driver_vz.Os.Tree.under
delete_vm_test = refl

vm-ne-root : at host (codes "/vm") ≢ []
unfolding bytes_eq weft_driver_vz.Golang.FilePath.resolve
vm-ne-root e = cc e

delete_vm-gone_example : stat host (codes "/vm") empty_world.tree ≢ ok folder
delete_vm-gone_example =
    delete_vm-gone host (codes "/vm") created (record empty_world { draws = 2 }) folder vm-ne-root
      delete_vm_test

data-ne-root : at host (codes "/vm/data.img") ≢ []
unfolding bytes_eq weft_driver_vz.Golang.FilePath.resolve
data-ne-root e = cc e

detach_disk_test :
    detach_disk host (codes "/vm") (codes "/vm/data.img") attached
    ≡ done tt (world_of ((codes "vm" ∷ [], folder) ∷ []))
unfolding detach_disk remove weft_driver_vz.Os.Tree.way_error weft_driver_vz.Golang.FilePath.resolve
    weft_driver_vz.Os.Tree.prune
detach_disk_test = refl

vm-is_other : place_eq (at host (codes "/vm/data.img")) (codes "vm" ∷ []) ≡ false
unfolding place_eq weft_driver_vz.Golang.FilePath.resolve
vm-is_other = refl

detach_disk-gone_example :
    (stat host (codes "/vm/data.img") ((codes "vm" ∷ [], folder) ∷ []) ≢ ok folder)
    × (node ((codes "vm" ∷ [], folder) ∷ []) (codes "vm" ∷ [])
        ≡ node attached.tree (codes "vm" ∷ []))
detach_disk-gone_example =
    detach_disk-gone host (codes "/vm") (codes "/vm/data.img") attached
      (world_of ((codes "vm" ∷ [], folder) ∷ [])) folder (codes "vm" ∷ []) data-ne-root
      detach_disk_test vm-is_other (λ e. cc e)

delete_vm-outside_example :
    SameOutside
      (at host (codes "/vm"))
      created.tree
      (final (delete_vm host (codes "/vm") created)).tree
delete_vm-outside_example = delete_vm-outside host (codes "/vm") created

size_bytes_exact_example :
    (size_bytes 3 ≡ 3 * 2 ^ 30) × (size_bytes 3 < 2 ^ 63) × (size_bytes (3 + 2 ^ 34) ≡ size_bytes 3)
size_bytes_exact_example = size_bytes_exact 3 (omega arith)
