-- ===== src/Volume.antt =====
-- builtin/volume.go: the driver `Volume`, whose actions are not supported. The types of their
-- arguments and results are those of the drivers module, which is not part of the repository.
use weft_driver_vz.Common.{Bool, true, List, Bytes, codes}
use weft_driver_vz.HostInfo.{Options, Build, HostInfo, host_info_for}
use weft_driver_vz.Os.World.{M, fail, unsupported}

pub record VolumeOptions : Type 0 where
  pub options : Options
  pub state_dir : Bytes

pub record Volume : Type 0 where
  pub opts : Options
  pub state_dir : Bytes

unfoldable pub new_volume : VolumeOptions → Volume
new_volume o = record { opts = o.options; state_dir = o.state_dir }

unfoldable pub name : Volume → Bytes
name v = codes "file"

unfoldable pub is_local : Volume → Bool
is_local v = true

unfoldable pub host_info : Build → Volume → HostInfo
unfolding host_info_for
host_info b v = host_info_for b v.opts

unfoldable pub ensure_volume : {VolumeSpec : Type 0} → Volume → VolumeSpec → M (Unit {0})
ensure_volume v spec w = fail unsupported w

unfoldable pub destroy_volume : Volume → Bytes → M (Unit {0})
destroy_volume v volume_uuid w = fail unsupported w

unfoldable pub attach_volume : {AttachedVolume : Type 0} → Volume → Bytes → Bytes → M AttachedVolume
attach_volume v volume_uuid host_uuid w = fail unsupported w

unfoldable pub detach_volume : Volume → Bytes → Bytes → M (Unit {0})
detach_volume v volume_uuid host_uuid w = fail unsupported w

unfoldable pub create_snapshot :
    {SnapshotSpec Snapshot : Type 0} → Volume → SnapshotSpec → M Snapshot
create_snapshot v spec w = fail unsupported w

unfoldable pub list_snapshots : {Snapshot : Type 0} → Volume → Bytes → M (List Snapshot)
list_snapshots v volume w = fail unsupported w

unfoldable pub delete_snapshot : Volume → Bytes → Bytes → M (Unit {0})
delete_snapshot v volume snapshot w = fail unsupported w

unfoldable pub revert_snapshot : Volume → Bytes → Bytes → M (Unit {0})
revert_snapshot v volume snapshot w = fail unsupported w

unfoldable pub create_backup : {BackupSpec Backup : Type 0} → Volume → BackupSpec → M Backup
create_backup v spec w = fail unsupported w

unfoldable pub list_backups : {Backup : Type 0} → Volume → Bytes → Bytes → M (List Backup)
list_backups v a b w = fail unsupported w

unfoldable pub delete_backup : Volume → Bytes → M (Unit {0})
delete_backup v backup w = fail unsupported w

unfoldable pub restore_backup : {VolumeSpec : Type 0} → Volume → Bytes → VolumeSpec → M (Unit {0})
restore_backup v backup spec w = fail unsupported w
