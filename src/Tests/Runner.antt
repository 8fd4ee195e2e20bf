-- ===== src/Tests/Runner.antt =====
-- builtin/vmrun.go: runs of the VM runner, and the theorems about it at concrete inputs.
use weft_driver_vz.Common.{
  ℕ, ◌+◌, ◌*◌, ◌^◌, ◌≤◌, ◌<◌, ◌≡◌, refl, ◌⊎◌, true, false, none, some, [], ◌∷◌, arith,
  if◌then◌else◌, All, codes,
}
use weft_driver_vz.Golang.FilePath.{Place}
use weft_driver_vz.Golang.Net.{parse_mac}
use weft_driver_vz.Os.Tree.{file, folder, node, way_error}
use weft_driver_vz.Os.World.{World, done}
use weft_driver_vz.Runner.ConfigFile.{VmConfig, ShareSpec, unmarshal_config, flag_of_value}
use weft_driver_vz.Runner.Machine.{efi, Machine, Virtualization}
use weft_driver_vz.Golang.FilePath.{join}
use weft_driver_vz.Os.Calls.{at, ok, stat, read_file}
use weft_driver_vz.Runner.ConfigFile.{read_config}
use weft_driver_vz.Runner.Parts.{missing}
use weft_driver_vz.Runner.Build.{build}
use weft_driver_vz.Runner.Build.{memory_bytes}
use weft_driver_vz.Runner.Build.Laws.{build-IsBuilt, memory_bytes_exact}
use weft_driver_vz.Runner.Build.Described.{IsBuilt}
use weft_driver_vz.Runner.Build.Keeping.{IsKeeping, build-Extends}
use weft_driver_vz.Runner.Parts.Steps.{IsComplete}
use weft_driver_vz.Runner.Build.Returning.{IsWilling, spelled, build_returns}
use weft_driver_vz.Os.Tree.Laws.{Extends}
use weft_driver_vz.Os.World.{final}
use weft_driver_vz.Tests.Sample.{make_at, make_at-Extends, host, world_of}

unmarshal_config_test :
    unmarshal_config (
      codes
        "{\"CPU\": 4, \"mem_gib\" :8,\"x\":[{},-1.5e3,\"\\u00e9\\ud83d\\ude00\"],\"mem_gib\":\"no\",\n \"data_disks\":[{\"name\":\"a\\n\"},{}], \"shares\":[{\"tag\":\"t\",\"path\":\"/p\",\"read_only\":true}]}")
    ≡ record {
      data_disks = codes "a\n" ∷ [] ∷ [];
      cpu = 4;
      mem_gib = 8;
      cmdline = [];
      shares = record { tag = codes "t"; path = codes "/p"; read_only = true } ∷ [];
    }
unfolding unmarshal_config weft_driver_vz.Golang.Utf8.decode_rune
unmarshal_config_test = refl

parse_mac_test : parse_mac (codes "0a:1B:2c:3d:4e:5f") ≡ some (10 ∷ 27 ∷ 44 ∷ 61 ∷ 78 ∷ 95 ∷ [])
unfolding parse_mac
parse_mac_test = refl

abbrev pub virtualization : Virtualization
virtualization = record {
  refusal = λ p t. none;
  create_efi_store = λ k t. make_at (way_error t k) (node t k) (codes "efi") k t;
  serial_attachment =
      λ append k t. make_at (way_error t k) (if append then node t k else none) [] k t;
  valid = λ m t. true;
  new_refusal = λ m t. none;
}

abbrev pub before : World
before = world_of (
    (codes "vm" ∷ [], folder)
    ∷ (codes "nvram.bin" ∷ codes "vm" ∷ [], file (codes "efi"))
    ∷ (codes "machine-id.bin" ∷ codes "vm" ∷ [], file (codes "id"))
    ∷ (codes "mac.txt" ∷ codes "vm" ∷ [], file (codes "0a:1b:2c:3d:4e:5f\n"))
    ∷ (codes "disk.img" ∷ codes "vm" ∷ [], file (codes "os"))
    ∷ (codes "cloud-init.iso" ∷ codes "vm" ∷ [], file (codes "seed"))
    ∷ (
      codes "config.json" ∷ codes "vm" ∷ [],
      file (codes "{\"cpu\":3,\"data_disks\":[{\"name\":\"d.img\"}]}"),
    )
    ∷ [])

abbrev pub built : Machine
built = record {
  boot = efi (codes "/vm/nvram.bin");
  cpu = 3;
  memory = 2147483648;
  identifier = codes "id";
  storage =
      record { path = codes "/vm/disk.img"; read_only = false }
      ∷ record { path = codes "/vm/d.img"; read_only = false }
      ∷ record { path = codes "/vm/cloud-init.iso"; read_only = true }
      ∷ [];
  mac = some (10 ∷ 27 ∷ 44 ∷ 61 ∷ 78 ∷ 95 ∷ []);
  entropy = true;
  socket = true;
  shares = [];
  serial = some (codes "/vm/console.log");
  screen = some (record { width = 1280; height = 800 });
  keyboard = true;
  pointer = true;
}

abbrev pub after : World
after = world_of (
    (codes "vm" ∷ [], folder)
    ∷ (codes "nvram.bin" ∷ codes "vm" ∷ [], file (codes "efi"))
    ∷ (codes "machine-id.bin" ∷ codes "vm" ∷ [], file (codes "id"))
    ∷ (codes "mac.txt" ∷ codes "vm" ∷ [], file (codes "0a:1b:2c:3d:4e:5f\n"))
    ∷ (codes "disk.img" ∷ codes "vm" ∷ [], file (codes "os"))
    ∷ (codes "cloud-init.iso" ∷ codes "vm" ∷ [], file (codes "seed"))
    ∷ (
      codes "config.json" ∷ codes "vm" ∷ [],
      file (codes "{\"cpu\":3,\"data_disks\":[{\"name\":\"d.img\"}]}"),
    )
    ∷ (codes "console.log" ∷ codes "vm" ∷ [], file [])
    ∷ [])

build_test :
    build virtualization host (codes "/vm") (codes "/vm/console.log") true before ≡ done built after
unfolding build weft_driver_vz.Os.Calls.stat weft_driver_vz.Golang.FilePath.join
    weft_driver_vz.Os.Tree.reach_with weft_driver_vz.Golang.FilePath.resolve
    weft_driver_vz.Os.Calls.read_file weft_driver_vz.Provision.abs_path
    weft_driver_vz.Golang.FilePath.abs weft_driver_vz.Runner.ConfigFile.read_config unmarshal_config
    weft_driver_vz.Golang.Utf8.decode_rune make_at parse_mac weft_driver_vz.Os.Tree.write
    weft_driver_vz.Golang.Strings.trim_space
build_test = refl

store_there : missing (stat host (join (codes "/vm") (codes "nvram.bin")) before.tree) ≡ false
unfolding weft_driver_vz.Os.Calls.stat weft_driver_vz.Golang.FilePath.join
    weft_driver_vz.Os.Tree.reach_with weft_driver_vz.Golang.FilePath.resolve
store_there = refl

build-IsBuilt_example :
    IsBuilt virtualization host
      (codes "/vm")
      (codes "/vm/console.log")
      true
      before.tree
      (read_config host (codes "/vm") before.tree)
      built
build-IsBuilt_example =
    build-IsBuilt virtualization host (codes "/vm") (codes "/vm/console.log") true before after
      built store_there build_test

virtualization-IsKeeping : IsKeeping virtualization host
virtualization-IsKeeping = record {
  store_keeps = λ p t _.
      make_at-Extends (way_error t (at host p)) (node t (at host p)) (codes "efi") (at host p) t
        refl;
  serial_keeps = λ k t. make_at-Extends (way_error t k) (node t k) [] k t refl;
}

build-Extends_example :
    Extends before.tree
      (final (build virtualization host (codes "/vm") (codes "/vm/console.log") true before)).tree
build-Extends_example =
    build-Extends virtualization host virtualization-IsKeeping (codes "/vm")
      (codes "/vm/console.log") true before

abbrev gib : ℕ
gib = 3

memory_bytes_exact_example :
    (((gib ≡ 0) × (memory_bytes gib ≡ 2 * 2 ^ 30)) ⊎ (memory_bytes gib ≡ gib * 2 ^ 30))
    × (2 ^ 30 ≤ memory_bytes gib)
    × (memory_bytes gib < 2 ^ 64)
    × (memory_bytes (2 ^ 34 + gib) ≡ gib * 2 ^ 30)
memory_bytes_exact_example = memory_bytes_exact gib (omega arith)

virtualization-IsWilling : IsWilling virtualization
virtualization-IsWilling = record { makes = λ p t. refl; validates = λ m t. refl }

identifier_there :
    read_file host (join (codes "/vm") (codes "machine-id.bin")) before.tree ≡ ok (codes "id")
unfolding read_file join weft_driver_vz.Os.Tree.reach_with weft_driver_vz.Golang.FilePath.resolve
identifier_there = refl

shares_there : All IsComplete (read_config host (codes "/vm") before.tree).shares
unfolding read_config read_file join weft_driver_vz.Os.Tree.reach_with
    weft_driver_vz.Golang.FilePath.resolve unmarshal_config weft_driver_vz.Golang.Utf8.decode_rune
shares_there = tt

build_returns_example :
    (m : Machine) × (v : World) × (build virtualization host
        (codes "/vm")
        (codes "/vm/console.log")
        true
        before
      ≡ done m v)
    × IsBuilt virtualization host
        (codes "/vm")
        (codes "/vm/console.log")
        true
        before.tree
        (read_config host (codes "/vm") before.tree)
        m
    × (m.mac ≡ spelled (read_file host (join (codes "/vm") (codes "mac.txt")) before.tree))
build_returns_example =
    build_returns virtualization host virtualization-IsWilling (codes "/vm")
      (codes "/vm/console.log") (codes "id") true before store_there identifier_there shares_there
