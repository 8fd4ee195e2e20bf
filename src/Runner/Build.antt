-- ===== src/Runner/Build.antt =====
-- builtin/vmrun.go: `buildVZConfigFromDir`, which makes a VM's configuration from its directory.
pub mod Described
pub mod Laws
pub mod Reading
pub mod Keeping
pub mod Returning
use weft_driver_vz.Common.{
  ℕ, zero, suc, ◌+◌, ◌-◌, ◌*◌, ◌/◌, ◌%◌, ◌^◌, ◌≤◌, ◌<◌, String, ◌≡◌, refl, sym, ap, ◌∙◌, subst,
  fun_ext, ◌≢◌, ◌↔◌, ◌⊎◌, inl, inr, Bool, true, false, not, ◌&&◌, ◌||◌, Option, none, some, List,
  [], ◌∷◌, ◌++◌, map, foldl, reverse, append-nil, append_assoc, reverse-append, reverse-reverse,
  arith, ltb, leb, ◌==◌, if◌then◌else◌, ==_iff, Bool-cases, Option-cases, length, take, drop,
  length-append, take-append-drop, drop-append, take-append, length-take, length-drop, take-nil,
  take-all, take_past, drop_past, All, All-append, Bytes, codes, bytes_eq, bytes_eq_iff,
}
use weft_driver_vz.Golang.FilePath.{join}
use weft_driver_vz.Golang.Strings.{trim_space}
use weft_driver_vz.Golang.Net.{parse_mac}
use weft_driver_vz.Os.Tree.{Tree, Node, Errno, is_not_exist}
use weft_driver_vz.Os.Calls.{Host, Answer, ok, err, at, stat, read_file}
use weft_driver_vz.Os.World.{
  World, M, Outcome, done, fail, failed, Cause, os, foreign, no_cause, bind, ◌>>=◌, ◌>>◌,
}
use weft_driver_vz.Framework.{Stored, stored, spoiled}
use weft_driver_vz.Hypervisor.Create.{store}
use weft_driver_vz.Provision.{abs_path}
use weft_driver_vz.Runner.ConfigFile.{VmConfig, ShareSpec, read_config}
use weft_driver_vz.Runner.Machine.{
  Boot, efi, linux, Disk, Share, Screen, Machine, Part, efi_store, efi_boot_loader,
  linux_boot_loader, machine_identifier, platform, disk_attachment, block_device, nat_attachment,
  network_device, mac_address, configuration, entropy_device, socket_device, shared_directory,
  directory_share, file_system_device, serial_port, graphics_device, keyboard_device,
  pointing_device, scanout, Virtualization,
}
use weft_driver_vz.Runner.Parts.{
  found, missing, pure, asked, given, tree_of, command_line, when, ask, gets, efi_store_at,
  efi_loader, boot_loader, read_at, read_identifier, attach, primary_disk, attach_primary,
  attach_data, attach_seed, seed_disk, storage_devices, accepted_mac, mac_of, network, offered,
  complete, attach_shares, serial_at, serial_console, screen_of, screen, input, validated,
}

-- 2, unless config.json has a number.
unfoldable pub cpu_count : ℕ → ℕ
cpu_count n = if n == 0 then 2 else n

-- 2 GiB, unless config.json has a number of GiB; in a uint64.
unfoldable pub memory_bytes : ℕ → ℕ
memory_bytes gib = if gib == 0 then 2 * 1024 * 1024 * 1024 else (gib * 1024 * 1024 * 1024) % 2 ^ 64

-- What is made in front of the configuration, and the devices that are set on it.
pub record Sources : Type 0 where
  pub boot : Boot
  pub identifier : Bytes
  pub storage : List Disk
  pub mac : Option Bytes

pub record Devices : Type 0 where
  pub entropy : Bool
  pub socket : Bool
  pub shares : List Share
  pub serial : Option Bytes
  pub screen : Option Screen
  pub keyboard : Bool
  pub pointer : Bool

abbrev pub machine_of : VmConfig → Sources → Devices → Machine
machine_of c s d = record {
  boot = s.boot;
  cpu = cpu_count c.cpu;
  memory = memory_bytes c.mem_gib;
  identifier = s.identifier;
  storage = s.storage;
  mac = s.mac;
  entropy = d.entropy;
  socket = d.socket;
  shares = d.shares;
  serial = d.serial;
  screen = d.screen;
  keyboard = d.keyboard;
  pointer = d.pointer;
}

module _ (v : Virtualization) (h : Host) where
  pub sources : Bool → Bytes → VmConfig → M Sources
  sources creating dir c = do
    boot ← boot_loader v h creating dir c.cmdline
    mid ← read_identifier v h dir
    disks ← storage_devices v h dir c.data_disks
    mac ← network v h dir
    ask v h "vm config" (configuration boot (cpu_count c.cpu) (memory_bytes c.mem_gib))
    pure (record { boot = boot; identifier = mid; storage = disks; mac = mac })

  pub devices : Bytes → Bool → VmConfig → M Devices
  devices console graphics c = do
    entropy ← offered v h entropy_device
    socket ← offered v h socket_device
    shares ← attach_shares v h c.shares
    serial ← serial_console v h console
    screen ← screen v h graphics
    keyboard ← input v h graphics keyboard_device
    pointer ← input v h graphics pointing_device
    pure (record {
      entropy = entropy;
      socket = socket;
      shares = shares;
      serial = serial;
      screen = screen;
      keyboard = keyboard;
      pointer = pointer;
    })

  pub build_with : Bool → VmConfig → Bytes → Bytes → Bool → M Machine
  build_with creating c dir console graphics = do
    s ← sources creating dir c
    d ← devices console graphics c
    validated v h (machine_of c s d)

  unfoldable pub build : Bytes → Bytes → Bool → M Machine
  unfolding build_with sources devices boot_loader efi_loader efi_store_at ask asked given
      read_identifier read_at storage_devices attach_primary attach_data attach_seed attach
      primary_disk seed_disk network mac_of accepted_mac command_line offered attach_shares complete
      serial_console serial_at screen screen_of input validated cpu_count memory_bytes store
  build dir console graphics w =
      build_with (missing (stat h (join dir (codes "nvram.bin")) w.tree)) (read_config h dir w.tree)
        dir console graphics w
