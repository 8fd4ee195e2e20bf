-- ===== src/HostInfo.antt =====
-- builtin/host_info.go: the options of the drivers, and the `HostInfo` that they all report.
use weft_driver_vz.Common.{Bool, Option, none, some, List, Bytes, codes}

-- What `SpawnVMCommand` returns: a command by its arguments, nil, or an error's text.
pub data Built : Type 0 where
  command : List Bytes → Built
  nil_command : Built
  not_built : Bytes → Built

-- `on_exit` and `on_event` say whether the callbacks `OnVMExit` and `OnEvent` are set.
pub record Options : Type 0 where
  pub host_uuid : Bytes
  pub hostname : Bytes
  pub az : Bytes
  pub spawn_vm_command : Option (Bytes → Built)
  pub on_exit : Bool
  pub on_event : Bool

-- What the build fixes: `runtime.GOARCH`, and the version if one is stamped at link time.
pub record Build : Type 0 where
  pub goarch : Bytes
  pub stamp : Option Bytes

pub record HostInfo : Type 0 where
  pub uuid : Bytes
  pub hostname : Bytes
  pub az : Bytes
  pub hypervisor : Bytes
  pub architecture : Bytes
  pub version : Bytes

-- The variable `Version`.
unfoldable pub version : Option Bytes → Bytes
version none = codes "dev"
version (some v) = v

unfoldable pub host_info_for : Build → Options → HostInfo
unfolding version
host_info_for b o = record {
  uuid = o.host_uuid;
  hostname = o.hostname;
  az = o.az;
  hypervisor = codes "apple-vz";
  architecture = b.goarch;
  version = version b.stamp;
}
