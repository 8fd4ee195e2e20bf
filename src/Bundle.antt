-- ===== src/Bundle.antt =====
-- builtin/bundle.go: the four drivers of a host, made by `New`.
pub mod Laws
use weft_driver_vz.Common.{
  ℕ, zero, suc, ◌+◌, ◌-◌, ◌*◌, ◌/◌, ◌%◌, ◌^◌, ◌≤◌, ◌<◌, String, ◌≡◌, refl, sym, ap, ◌∙◌, subst,
  fun_ext, ◌≢◌, ◌↔◌, ◌⊎◌, inl, inr, Bool, true, false, not, ◌&&◌, ◌||◌, Option, none, some, List,
  [], ◌∷◌, ◌++◌, map, foldl, reverse, append-nil, append_assoc, reverse-append, reverse-reverse,
  arith, ltb, leb, ◌==◌, if◌then◌else◌, ==_iff, Bool-cases, Option-cases, length, take, drop,
  length-append, take-append-drop, drop-append, take-append, length-take, length-drop, take-nil,
  take-all, take_past, drop_past, All, All-append, Bytes, codes, bytes_eq, bytes_eq_iff,
}
use weft_driver_vz.Golang.FilePath.{join}
use weft_driver_vz.HostInfo.{Options}
use weft_driver_vz.Hypervisor.{Hypervisor, new_hypervisor}
use weft_driver_vz.Network.{Network, new_network}
use weft_driver_vz.Volume.{Volume, new_volume}
use weft_driver_vz.Image.{Image, new_image}

pub record Bundle : Type 0 where
  pub hypervisor : Hypervisor
  pub network : Network
  pub volume : Volume
  pub image : Image

pub record BundleOptions : Type 0 where
  pub options : Options
  pub state_dir : Bytes

-- The state directory, with its default.
pub state_dir_or_default : Bytes → Bytes
state_dir_or_default [] = codes ".weft-agent"
state_dir_or_default (c ∷ s) = c ∷ s

unfoldable pub new : BundleOptions → Bundle
unfolding state_dir_or_default new_hypervisor new_network new_volume new_image
new o =
    let state_dir = state_dir_or_default o.state_dir in
    record {
      hypervisor = new_hypervisor o.options;
      network = new_network o.options;
      volume =
          new_volume (record { options = o.options; state_dir = join state_dir (codes "volumes") });
      image =
          new_image (record { options = o.options; cache_dir = join state_dir (codes "cache") });
    }
