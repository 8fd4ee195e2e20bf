-- ===== src/Image.antt =====
-- builtin/image.go: the driver `Image`, whose actions are not supported.
use weft_driver_vz.Common.{Bool, Bytes}
use weft_driver_vz.HostInfo.{Options, Build, HostInfo, host_info_for}
use weft_driver_vz.Os.World.{M, fail, unsupported}

pub record ImageOptions : Type 0 where
  pub options : Options
  pub cache_dir : Bytes

pub record Image : Type 0 where
  pub opts : Options
  pub cache_dir : Bytes

unfoldable pub new_image : ImageOptions → Image
new_image o = record { opts = o.options; cache_dir = o.cache_dir }

unfoldable pub host_info : Build → Image → HostInfo
unfolding host_info_for
host_info b i = host_info_for b i.opts

module _ (i : Image) where
  unfoldable pub pull : Bytes → M (Unit {0})
  pull ref w = fail unsupported w

  unfoldable pub local_path : Bytes → M Bytes
  local_path ref w = fail unsupported w

  unfoldable pub delete : Bytes → M (Unit {0})
  delete ref w = fail unsupported w

  unfoldable pub in_cache : Bytes → M Bool
  in_cache ref w = fail unsupported w
