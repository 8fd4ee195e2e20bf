-- ===== src/Hypervisor.antt =====
-- builtin/hypervisor.go: the driver `Hypervisor` and its methods.
pub mod Create
pub mod Process
pub mod Disk
use weft_driver_vz.HostInfo.{Options, Build, HostInfo, host_info_for}

pub record Hypervisor : Type 0 where
  pub opts : Options

unfoldable pub new_hypervisor : Options → Hypervisor
new_hypervisor o = record { opts = o }

unfoldable pub host_info : Build → Hypervisor → HostInfo
unfolding host_info_for
host_info b h = host_info_for b h.opts
