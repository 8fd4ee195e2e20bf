-- ===== src/Tests/Provision.antt =====
-- cmd/weft-driver-vz: the theorem about `placeArtefact` and runs of `provision` and `serve`.
use weft_driver_vz.Common.{
  ◌≡◌, refl, ◌≢◌, true, false, some, [], ◌∷◌, ◌++◌, arith, Bytes, codes, bytes_eq,
}
use weft_driver_vz.Golang.FilePath.{Place, join}
use weft_driver_vz.Os.Tree.{Tree, Node, file, folder, link, Errno, eloop, node}
use weft_driver_vz.Os.Calls.{Answer, ok, err, at, stat, read_file}
use weft_driver_vz.Os.World.{World, done}
use weft_driver_vz.HostInfo.{command}
use weft_driver_vz.Framework.{made}
use weft_driver_vz.Serve.{spawn_vm_command}
use weft_driver_vz.Provision.{Cloned, cannot_clone, abs_path, place_artefact, Flags, provision}
use weft_driver_vz.Provision.Artefact.{place_artefact-link, place_artefact_self}
use weft_driver_vz.Provision.Copy.{place_artefact-copy}
use weft_driver_vz.Provision.Config.{disk_names, read_config-provision, build-provision}
use weft_driver_vz.Runner.ConfigFile.{read_config, read_microvm_flag}
use weft_driver_vz.Runner.ConfigFile.Written.{asked_for}
use weft_driver_vz.Runner.Machine.{Machine}
use weft_driver_vz.Runner.Build.{build}
use weft_driver_vz.Runner.Build.Described.{IsBuilt}
use weft_driver_vz.Runner.Build.Returning.{IsWilling}
use weft_driver_vz.Tests.Runner.{virtualization}
use weft_driver_vz.Tests.Sample.{framework, framework-IsFramework, host, world_of}

spawn_vm_command_test :
    spawn_vm_command (made (codes "/bin/w")) (codes "/vms/a")
    ≡ command (codes "/bin/w" ∷ codes "vz-vm-run" ∷ codes "--vmdir=/vms/a" ∷ codes "--name=a" ∷ [])
unfolding spawn_vm_command weft_driver_vz.Golang.FilePath.base bytes_eq
spawn_vm_command_test = refl

abbrev no_clone : Place → Place → Tree → Cloned
no_clone a b t = cannot_clone

-- A VM directory whose image is to be placed onto itself.
abbrev before : World
before =
    world_of
      ((codes "vm" ∷ [], folder) ∷ (codes "disk.img" ∷ codes "vm" ∷ [], file (codes "os")) ∷ [])

abbrev after : World
after = world_of (
    (codes "vm" ∷ [], folder)
    ∷ (codes "disk.img" ∷ codes "vm" ∷ [], link (codes "disk.img" ∷ codes "vm" ∷ []))
    ∷ [])

place_artefact_test :
    place_artefact no_clone host (codes "/vm/disk.img") (codes "/vm/disk.img") false before
    ≡ done tt after
unfolding place_artefact stat abs_path weft_driver_vz.Golang.FilePath.abs
    weft_driver_vz.Os.Tree.reach_with weft_driver_vz.Golang.FilePath.resolve
    weft_driver_vz.Provision.wipe weft_driver_vz.Os.Calls.symlink weft_driver_vz.Os.Calls.remove
    weft_driver_vz.Os.Tree.prune weft_driver_vz.Os.Tree.write
place_artefact_test = refl

place_artefact-link_example :
    node after.tree (at host (codes "/vm/disk.img"))
    ≡ some (link (at host (abs_path host (codes "/vm/disk.img"))))
place_artefact-link_example =
    place_artefact-link no_clone host (codes "/vm/disk.img") (codes "/vm/disk.img") before after
      place_artefact_test

same_place : at host (abs_path host (codes "/vm/disk.img")) ≡ at host (codes "/vm/disk.img")
unfolding abs_path weft_driver_vz.Golang.FilePath.abs weft_driver_vz.Golang.FilePath.resolve
    bytes_eq
same_place = refl

place_artefact_self_example : stat host (codes "/vm/disk.img") after.tree ≡ err eloop
place_artefact_self_example =
    place_artefact_self no_clone host (codes "/vm/disk.img") b'/' (codes "vm/disk.img") before after
      refl same_place place_artefact_test

-- A destination that is a link to the source.
abbrev linked : World
linked = world_of (
    (codes "os.iso" ∷ [], file (codes "os"))
    ∷ (codes "vm" ∷ [], folder)
    ∷ (codes "disk.img" ∷ codes "vm" ∷ [], link (codes "os.iso" ∷ []))
    ∷ [])

abbrev copied : World
copied = world_of (
    (codes "os.iso" ∷ [], file (codes "os"))
    ∷ (codes "vm" ∷ [], folder)
    ∷ (codes "disk.img" ∷ codes "vm" ∷ [], file (codes "os"))
    ∷ [])

copy_test :
    place_artefact no_clone host (codes "/os.iso") (codes "/vm/disk.img") true linked
    ≡ done tt copied
unfolding place_artefact stat abs_path weft_driver_vz.Golang.FilePath.abs
    weft_driver_vz.Os.Tree.reach_with weft_driver_vz.Golang.FilePath.resolve
    weft_driver_vz.Provision.wipe weft_driver_vz.Os.Calls.open_file weft_driver_vz.Os.Calls.remove
    weft_driver_vz.Os.Calls.copy weft_driver_vz.Os.Calls.write_file weft_driver_vz.Os.Calls.put_file
    weft_driver_vz.Os.Tree.prune weft_driver_vz.Os.Tree.write
copy_test = refl

disk-ne-root : at host (codes "/vm/disk.img") ≢ []
unfolding bytes_eq weft_driver_vz.Golang.FilePath.resolve
disk-ne-root e = cc e

place_artefact-copy_example :
    (b : Bytes) × (read_file host (abs_path host (codes "/os.iso")) linked.tree ≡ ok b)
    × (read_file host (codes "/vm/disk.img") copied.tree ≡ ok b)
place_artefact-copy_example =
    place_artefact-copy no_clone host (codes "/os.iso") b'/' (codes "vm/disk.img") linked copied
      disk-ne-root refl refl (λ t. refl) copy_test

abbrev flags : Flags
flags = record {
  vm_dir = codes "/vm";
  image = codes "/os<1>.iso";
  data_disks = codes "/d" ∷ [];
  cidata = [];
  cpu = 2;
  mem_gib = 4;
  copy_mode = true;
}

abbrev downloaded : World
downloaded =
    world_of
      ((codes "os<1>.iso" ∷ [], file (codes "os")) ∷ (codes "d" ∷ [], file (codes "data")) ∷ [])

abbrev laid_out : World
laid_out =
    record (world_of (
      (codes "os<1>.iso" ∷ [], file (codes "os"))
      ∷ (codes "d" ∷ [], file (codes "data"))
      ∷ (codes "vm" ∷ [], folder)
      ∷ (codes "disk.img" ∷ codes "vm" ∷ [], file (codes "os"))
      ∷ (codes "data-0.img" ∷ codes "vm" ∷ [], file (codes "data"))
      ∷ (codes "nvram.bin" ∷ codes "vm" ∷ [], file (codes "efi"))
      ∷ (codes "machine-id.bin" ∷ codes "vm" ∷ [], file (codes "id" ++ 0 ∷ []))
      ∷ (codes "mac.txt" ∷ codes "vm" ∷ [], file (codes "mac" ++ 1 ∷ []))
      ∷ (
        codes "config.json" ∷ codes "vm" ∷ [],
        file (
            codes
              "{\n  \"cpu\": 2,\n  \"data_disks\": [\n    {\n      \"name\": \"data-0.img\"\n    }\n  ],\n  \"image\": \"os\\u003c1\\u003e.iso\",\n  \"mem_gib\": 4\n}"),
      )
      ∷ [])) { draws = 2 }

provision_test : provision framework no_clone host flags downloaded ≡ done tt laid_out
unfolding provision bytes_eq weft_driver_vz.Os.Calls.mkdir_all
    weft_driver_vz.Golang.FilePath.resolve weft_driver_vz.Os.Calls.stat_at
    weft_driver_vz.Os.Calls.stat_found weft_driver_vz.Os.Tree.reach_with stat abs_path
    weft_driver_vz.Golang.FilePath.abs weft_driver_vz.Os.Tree.write
    weft_driver_vz.Os.Calls.open_file weft_driver_vz.Os.Calls.remove
    weft_driver_vz.Os.Calls.write_file weft_driver_vz.Os.Calls.put_file weft_driver_vz.Os.Calls.copy
    weft_driver_vz.Golang.Strconv.itoa weft_driver_vz.Tests.Sample.make_at
    weft_driver_vz.Golang.FilePath.base
provision_test = refl

read_config-provision_example :
    (read_config host (codes "/vm") laid_out.tree ≡ asked_for flags (disk_names 0 flags.data_disks))
    × (read_microvm_flag host (codes "/vm") laid_out.tree ≡ false)
read_config-provision_example =
    read_config-provision framework no_clone host flags downloaded laid_out (omega arith)
      (omega arith) refl provision_test

virtualization-IsWilling : IsWilling virtualization
virtualization-IsWilling = record { makes = λ p t. refl; validates = λ m t. refl }

identifier_there :
    read_file host (join (codes "/vm") (codes "machine-id.bin")) laid_out.tree
    ≡ ok (codes "id" ++ 0 ∷ [])
unfolding read_file join weft_driver_vz.Os.Tree.reach_with weft_driver_vz.Golang.FilePath.resolve
identifier_there = refl

build-provision_example :
    (m : Machine) × (u : World) × (build virtualization host
        (codes "/vm")
        (codes "/vm/console.log")
        true
        laid_out
      ≡ done m u)
    × IsBuilt virtualization host
        (codes "/vm")
        (codes "/vm/console.log")
        true
        laid_out.tree
        (asked_for flags (disk_names 0 flags.data_disks))
        m
build-provision_example =
    build-provision framework no_clone host virtualization flags (codes "/vm/console.log")
      (codes "id" ++ 0 ∷ []) true downloaded laid_out framework-IsFramework virtualization-IsWilling
      (omega arith) (omega arith) refl identifier_there provision_test
