-- ===== src/Runner/Build/Described.antt =====
-- builtin/vmrun.go: the machine that a directory and its config.json describe.
use weft_driver_vz.Common.{
  ◌≡◌, ◌⊎◌, Bool, true, false, ◌&&◌, Option, none, some, List, ◌++◌, ◌==◌, if◌then◌else◌, All,
  Bytes, codes,
}
use weft_driver_vz.Golang.FilePath.{join}
use weft_driver_vz.Os.Tree.{Tree}
use weft_driver_vz.Os.Calls.{Host, ok, at, read_file}
use weft_driver_vz.Runner.ConfigFile.{VmConfig}
use weft_driver_vz.Framework.{Stored, stored, spoiled, stored_tree}
use weft_driver_vz.Runner.Machine.{
  Disk, Machine, Screen, keyboard_device, pointing_device, entropy_device, socket_device,
  serial_port, graphics_device, scanout, Virtualization,
}
use weft_driver_vz.Runner.Parts.{given}
use weft_driver_vz.Runner.Build.{memory_bytes, Sources, Devices}
use weft_driver_vz.Runner.Parts.Steps.{shares_of, IsComplete}
use weft_driver_vz.Runner.Parts.Booting.{booted}
use weft_driver_vz.Runner.Parts.Address.{IsRead}
use weft_driver_vz.Runner.Parts.Disks.{data_disks, primary_of, seed_of}

-- The disks of a machine: the primary one, the data disks in the order of config.json, and the seed.
abbrev pub disks_of : Host → Bytes → List Bytes → Tree → List Disk
disks_of h dir names t = primary_of h dir t ++ (data_disks dir names ++ seed_of h dir t)

-- The serial port's file, where the attachment is made and the port is.
abbrev pub serial_of : Virtualization → Bytes → Stored → Option Bytes
serial_of z console (stored t) =
    if given (z.refusal (serial_port console) t) then some console else none
serial_of z console (spoiled e t) = none

-- The graphics device, where it is asked for and to be had with its scanout.
abbrev pub screen_in : Virtualization → Bool → Tree → Option Screen
screen_in z graphics t =
    if graphics && (given (z.refusal graphics_device t) && given (z.refusal (scanout 1280 800) t))
    then some (record { width = 1280; height = 800 })
    else none

-- What stands in the directory `dir` of the tree `t`, with `c` read from its config.json.
pub record AreDescribed (z : Virtualization) (h : Host) (dir : Bytes) (t : Tree) (c : VmConfig)
    (s : Sources) : Type 0 where
  pub boot : s.boot ≡ booted z h dir c.cmdline t
  pub identifier : read_file h (join dir (codes "machine-id.bin")) t ≡ ok s.identifier
  pub storage : s.storage ≡ disks_of h dir c.data_disks t
  pub mac : IsRead z h (read_file h (join dir (codes "mac.txt")) t) t s.mac

-- The devices that a framework has when the tree is `t`, and `t'` once the log is opened.
pub record AreAttached (z : Virtualization) (h : Host) (console : Bytes) (graphics : Bool)
    (t : Tree) (c : VmConfig) (d : Devices) : Type 0 where
  pub entropy : d.entropy ≡ given (z.refusal entropy_device t)
  pub socket : d.socket ≡ given (z.refusal socket_device t)
  pub shares : d.shares ≡ shares_of c.shares
  pub complete : All IsComplete c.shares
  pub serial : d.serial ≡ serial_of z console (z.serial_attachment true (at h console) t)
  pub screen :
      d.screen ≡ screen_in z graphics (stored_tree (z.serial_attachment true (at h console) t))
  pub keyboard :
      d.keyboard
      ≡ graphics
        && given
            (z.refusal keyboard_device (stored_tree (z.serial_attachment true (at h console) t)))
  pub pointer :
      d.pointer
      ≡ graphics
        && given
            (z.refusal pointing_device (stored_tree (z.serial_attachment true (at h console) t)))

-- The machine that is described by a directory and its config.json.
pub record IsBuilt (z : Virtualization) (h : Host) (dir console : Bytes) (graphics : Bool)
    (t : Tree) (c : VmConfig) (m : Machine) : Type 0 where
  pub boot : m.boot ≡ booted z h dir c.cmdline t
  pub cpu : m.cpu ≡ (if c.cpu == 0 then 2 else c.cpu)
  pub memory : m.memory ≡ memory_bytes c.mem_gib
  pub identifier : read_file h (join dir (codes "machine-id.bin")) t ≡ ok m.identifier
  pub storage : m.storage ≡ disks_of h dir c.data_disks t
  pub mac : IsRead z h (read_file h (join dir (codes "mac.txt")) t) t m.mac
  pub entropy : m.entropy ≡ given (z.refusal entropy_device t)
  pub socket : m.socket ≡ given (z.refusal socket_device t)
  pub shares : m.shares ≡ shares_of c.shares
  pub complete : All IsComplete c.shares
  pub serial : m.serial ≡ serial_of z console (z.serial_attachment true (at h console) t)
  pub screen :
      m.screen ≡ screen_in z graphics (stored_tree (z.serial_attachment true (at h console) t))
  pub keyboard :
      m.keyboard
      ≡ graphics
        && given
            (z.refusal keyboard_device (stored_tree (z.serial_attachment true (at h console) t)))
  pub pointer :
      m.pointer
      ≡ graphics
        && given
            (z.refusal pointing_device (stored_tree (z.serial_attachment true (at h console) t)))
  pub headless :
      (graphics ≡ true) ⊎ ((m.screen ≡ none) × (m.keyboard ≡ false) × (m.pointer ≡ false))
