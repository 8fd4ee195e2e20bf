-- ===== src/Runner/Parts.antt =====
-- builtin/vmrun.go: the steps of `buildVZConfigFromDir`.
--
-- A configuration that stops after a failure is dropped, so the parts are put together at the end.
-- What the function prints on stderr is left out, and error texts stand without what they print of
-- paths and names.
pub mod Steps
pub mod Booting
pub mod Address
pub mod Disks
use weft_driver_vz.Common.{
  ℕ, zero, suc, ◌+◌, ◌-◌, ◌*◌, ◌/◌, ◌%◌, ◌^◌, ◌≤◌, ◌<◌, String, ◌≡◌, refl, sym, ap, ◌∙◌, subst,
  fun_ext, ◌≢◌, ◌↔◌, ◌⊎◌, inl, inr, Bool, true, false, not, ◌&&◌, ◌||◌, Option, none, some, List,
  [], ◌∷◌, ◌++◌, map, foldl, reverse, append-nil, append_assoc, reverse-append, reverse-reverse,
  arith, ltb, leb, ◌==◌, if◌then◌else◌, ==_iff, Bool-cases, Option-cases, length, take, drop,
  length-append, take-append-drop, drop-append, take-append, length-take, length-drop, take-nil,
  take-all, take_past, drop_past, All, All-append, Bytes, codes, bytes_eq, bytes_eq_iff,
}
use weft_driver_vz.Golang.FilePath.{join}
use weft_driver_vz.Golang.Strings.{trim_space}
use weft_driver_vz.Golang.Net.{parse_mac}
use weft_driver_vz.Os.Tree.{Tree, Node, Errno, is_not_exist}
use weft_driver_vz.Os.Calls.{Host, Answer, ok, err, at, stat, read_file}
use weft_driver_vz.Os.World.{
  World, M, Outcome, done, fail, failed, Cause, os, foreign, no_cause, bind, ◌>>=◌, ◌>>◌,
}
use weft_driver_vz.Framework.{Stored, stored, spoiled}
use weft_driver_vz.Hypervisor.Create.{store}
use weft_driver_vz.Provision.{abs_path}
use weft_driver_vz.Runner.ConfigFile.{VmConfig, ShareSpec, read_config}
use weft_driver_vz.Runner.Machine.{
  Boot, efi, linux, Disk, Share, Screen, Machine, Part, efi_store, efi_boot_loader,
  linux_boot_loader, machine_identifier, platform, disk_attachment, block_device, nat_attachment,
  network_device, mac_address, configuration, entropy_device, socket_device, shared_directory,
  directory_share, file_system_device, serial_port, graphics_device, keyboard_device,
  pointing_device, scanout, Virtualization,
}

-- `err == nil`
abbrev pub found : Answer Node → Bool
found (ok n) = true
found (err e) = false

abbrev pub missing : Answer Node → Bool
missing (ok n) = false
missing (err e) = is_not_exist e

abbrev pub pure : {A : Type 0} → A → M A
pure a w = done a w

unfoldable pub asked : String → Option Bytes → M (Unit {0})
asked text none w = done tt w
asked text (some e) w = fail (failed text (foreign e)) w

unfoldable pub given : Option Bytes → Bool
given none = true
given (some e) = false

abbrev pub tree_of : M Tree
tree_of w = done w.tree w

-- `console=hvc0 root=/dev/vda2 rw`, unless config.json has a command line.
unfoldable pub command_line : Bytes → Bytes
command_line [] = codes "console=hvc0 root=/dev/vda2 rw"
command_line (c ∷ s) = c ∷ s

abbrev pub when : {A : Type 0} → Bool → A → Option A
when true a = some a
when false a = none

module _ (v : Virtualization) (h : Host) where
  -- A call that the function gives up at, and one whose failure it passes over.
  unfoldable pub ask : String → Part → M (Unit {0})
  ask text p w = asked text (v.refusal p w.tree) w

  abbrev pub gets : Part → Tree → Bool
  gets p t = given (v.refusal p t)

  -- `creating` says whether the store was missing at the function's start.
  unfoldable pub efi_store_at : Bool → Bytes → M (Unit {0})
  efi_store_at true nvram w = store "efi store" (v.create_efi_store (at h nvram) w.tree) w
  efi_store_at false nvram w = ask "efi store" (efi_store nvram) w

  unfoldable pub efi_loader : Bool → Bytes → M Boot
  efi_loader creating nvram = do
    efi_store_at creating nvram
    ask "efi boot loader" (efi_boot_loader nvram)
    pure (efi nvram)

  -- A kernel in the directory is preferred; where its loader is refused, EFI is the fallback.
  unfoldable pub boot_loader : Bool → Bytes → Bytes → M Boot
  boot_loader creating dir cmdline w =
      let kernel = join dir (codes "kernel") in
      let initrd = join dir (codes "initrd") in
      let nvram = join dir (codes "nvram.bin") in
      let line = command_line cmdline in
      let ram = when (found (stat h initrd w.tree)) initrd in
      if found (stat h kernel w.tree) && gets (linux_boot_loader kernel line ram) w.tree
      then done (linux kernel line ram) w
      else efi_loader creating nvram w

  unfoldable pub read_at : String → Answer Bytes → M Bytes
  read_at text (err e) w = fail (failed text (os e)) w
  read_at text (ok b) w = done b w

  unfoldable pub read_identifier : Bytes → M Bytes
  read_identifier dir = do
    mid ← λ w. read_at "read machine-id" (read_file h (join dir (codes "machine-id.bin")) w.tree) w
    ask "machine identifier" (machine_identifier mid)
    ask "platform config" (platform mid)
    pure mid

  unfoldable pub attach : String → String → Disk → M (Unit {0})
  attach attachment device d = do ask attachment (disk_attachment d); ask device (block_device d)

  -- The writable `disk.img`, else the read-only `boot.iso`, else none.
  unfoldable pub primary_disk : Bytes → Tree → Option Disk
  primary_disk dir t =
      let disk = abs_path h (join dir (codes "disk.img")) in
      let iso = abs_path h (join dir (codes "boot.iso")) in
      if found (stat h disk t)
      then some (record { path = disk; read_only = false })
      else when (found (stat h iso t)) (record { path = iso; read_only = true })

  unfoldable pub attach_primary : Option Disk → M (List Disk)
  attach_primary none = pure []
  attach_primary (some d) = do attach "primary attachment" "block device config" d; pure (d ∷ [])

  unfoldable pub attach_data : Bytes → List Bytes → M (List Disk)
  attach_data dir [] = pure []
  attach_data dir (name ∷ names) = do
    let d : Disk = record { path = join dir name; read_only = false }
    attach "data disk attachment" "data disk config" d
    ds ← attach_data dir names
    pure (d ∷ ds)

  unfoldable pub attach_seed : Option Disk → M (List Disk)
  attach_seed none = pure []
  attach_seed (some d) = do
    attach "cloud-init iso attachment" "cloud-init iso device config" d
    pure (d ∷ [])

  unfoldable pub seed_disk : Bytes → Tree → Option Disk
  seed_disk dir t =
      let iso = join dir (codes "cloud-init.iso") in
      when (found (stat h iso t)) (record { path = iso; read_only = true })

  unfoldable pub storage_devices : Bytes → List Bytes → M (List Disk)
  storage_devices dir names = do
    t ← tree_of
    primary ← attach_primary (primary_disk dir t)
    extra ← attach_data dir names
    t' ← tree_of
    seed ← attach_seed (seed_disk dir t')
    pure (primary ++ (extra ++ seed))

  -- What does not read as an address, or is refused, is not set.
  unfoldable pub accepted_mac : Option Bytes → Tree → Option Bytes
  accepted_mac none t = none
  accepted_mac (some hw) t = when (gets (mac_address hw) t) hw

  unfoldable pub mac_of : Answer Bytes → Tree → Option Bytes
  mac_of (err e) t = none
  mac_of (ok text) t = accepted_mac (parse_mac (trim_space text)) t

  unfoldable pub network : Bytes → M (Option Bytes)
  network dir = do
    ask "nat attachment" nat_attachment
    ask "net device config" network_device
    λ w. done (mac_of (read_file h (join dir (codes "mac.txt")) w.tree) w.tree) w

  -- A device that is left out where it is refused.
  unfoldable pub offered : Part → M Bool
  offered p w = done (gets p w.tree) w

  unfoldable pub complete : ShareSpec → M (Unit {0})
  complete s w =
      if bytes_eq s.tag [] || bytes_eq s.path []
      then fail (failed "share entry needs both `tag` and `path`" no_cause) w
      else done tt w

  unfoldable pub attach_shares : List ShareSpec → M (List Share)
  attach_shares [] = pure []
  attach_shares (s ∷ ss) = do
    complete s
    ask "shared directory" (shared_directory s.path s.read_only)
    ask "single directory share" (directory_share s.path s.read_only)
    ask "virtio-fs device" (file_system_device s.tag)
    rest ← attach_shares ss
    pure (record { tag = s.tag; path = s.path; read_only = s.read_only } ∷ rest)

  unfoldable pub serial_at : Bytes → Stored → M (Option Bytes)
  serial_at console (stored t) w =
      done (when (gets (serial_port console) t) console) (record w { tree = t })
  serial_at console (spoiled e t) w = done none (record w { tree = t })

  unfoldable pub serial_console : Bytes → M (Option Bytes)
  serial_console console w = serial_at console (v.serial_attachment true (at h console) w.tree) w

  -- 1280×800, where both the device and its scanout are to be had.
  unfoldable pub screen_of : Bool → Tree → Option Screen
  screen_of graphics t =
      when (graphics && (gets graphics_device t && gets (scanout 1280 800) t))
        (record { width = 1280; height = 800 })

  unfoldable pub screen : Bool → M (Option Screen)
  screen graphics w = done (screen_of graphics w.tree) w

  unfoldable pub input : Bool → Part → M Bool
  input graphics p w = done (graphics && gets p w.tree) w

  unfoldable pub validated : Machine → M Machine
  validated m w =
      if v.valid m w.tree then done m w else fail (failed "vm config invalid" no_cause) w
