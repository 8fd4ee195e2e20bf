-- ===== src/Runner/Machine.antt =====
-- Apple's Virtualization.framework as the VM runner calls it through github.com/Code-Hex/vz, which
-- is not part of the repository. A configuration is what the program asked for.
use weft_driver_vz.Common.{ℕ, Bool, Option, List, Bytes}
use weft_driver_vz.Golang.FilePath.{Place}
use weft_driver_vz.Os.Tree.{Tree}
use weft_driver_vz.Framework.{Stored}

pub data Boot : Type 0 where
  -- `NewEFIBootLoader` over the variable store at a path.
  efi : Bytes → Boot
  -- `NewLinuxBootLoader`: the kernel, its command line, and the initial RAM disk.
  linux : Bytes → Bytes → Option Bytes → Boot

pub record Disk : Type 0 where
  pub path : Bytes
  pub read_only : Bool

pub record Share : Type 0 where
  pub tag : Bytes
  pub path : Bytes
  pub read_only : Bool

pub record Screen : Type 0 where
  pub width : ℕ
  pub height : ℕ

pub record Machine : Type 0 where
  pub boot : Boot
  pub cpu : ℕ
  pub memory : ℕ
  pub identifier : Bytes
  pub storage : List Disk
  -- The hardware address of the network device, if one was set.
  pub mac : Option Bytes
  pub entropy : Bool
  pub socket : Bool
  pub shares : List Share
  pub serial : Option Bytes
  pub screen : Option Screen
  pub keyboard : Bool
  pub pointer : Bool

-- The calls that make a part or refuse to.
pub data Part : Type 0 where
  -- An existing variable store.
  efi_store : Bytes → Part
  efi_boot_loader : Bytes → Part
  linux_boot_loader : Bytes → Bytes → Option Bytes → Part
  machine_identifier platform : Bytes → Part
  disk_attachment block_device : Disk → Part
  nat_attachment network_device : Part
  mac_address : Bytes → Part
  configuration : Boot → ℕ → ℕ → Part
  entropy_device socket_device : Part
  shared_directory directory_share : Bytes → Bool → Part
  file_system_device : Bytes → Part
  serial_port : Bytes → Part
  graphics_device keyboard_device pointing_device : Part
  scanout : ℕ → ℕ → Part

pub record Virtualization : Type 0 where
  -- The error with which a call is refused, if it is.
  pub refusal : Part → Tree → Option Bytes
  -- `NewEFIVariableStore(path, WithCreatingEFIVariableStore())`, by the path's place.
  pub create_efi_store : Place → Tree → Stored
  -- `NewFileSerialPortAttachment(path, append)`, by the path's place.
  pub serial_attachment : Bool → Place → Tree → Stored
  -- `Validate`: whether it is valid, or an error.
  pub valid : Machine → Tree → Bool
  -- `NewVirtualMachine`.
  pub new_refusal : Machine → Tree → Option Bytes
