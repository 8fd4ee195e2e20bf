-- ===== src/Network.antt =====
-- builtin/network.go: the driver `Network`, whose actions are not supported. The types of their
-- arguments and results are those of the drivers module, which is not part of the repository.
use weft_driver_vz.Common.{Bytes}
use weft_driver_vz.HostInfo.{Options, Build, HostInfo, host_info_for}
use weft_driver_vz.Os.World.{M, fail, unsupported}

pub record Network : Type 0 where
  pub opts : Options

unfoldable pub new_network : Options → Network
new_network o = record { opts = o }

unfoldable pub host_info : Build → Network → HostInfo
unfolding host_info_for
host_info b n = host_info_for b n.opts

unfoldable pub ensure_network : {NetworkSpec : Type 0} → Network → NetworkSpec → M (Unit {0})
ensure_network n spec w = fail unsupported w

unfoldable pub destroy_network : Network → Bytes → M (Unit {0})
destroy_network n network_uuid w = fail unsupported w

unfoldable pub attach_port : {PortSpec NicHandle : Type 0} → Network → PortSpec → M NicHandle
attach_port n spec w = fail unsupported w

unfoldable pub detach_port : Network → Bytes → M (Unit {0})
detach_port n port_uuid w = fail unsupported w

unfoldable pub rotate_mesh_peer : {PortSpec : Type 0} → Network → PortSpec → M (Unit {0})
rotate_mesh_peer n spec w = fail unsupported w
