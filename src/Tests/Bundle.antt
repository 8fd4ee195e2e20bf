-- ===== src/Tests/Bundle.antt =====
-- builtin/bundle.go: the theorems about a bundle at a concrete input.
use weft_driver_vz.Common.{◌≡◌, false, none, [], ◌∷◌, codes}
use weft_driver_vz.Golang.FilePath.{resolve}
use weft_driver_vz.Bundle.{BundleOptions, new}
use weft_driver_vz.Bundle.Laws.{new-places}

abbrev options : BundleOptions
options = record {
  options = record {
    host_uuid = codes "h1";
    hostname = codes "mac";
    az = codes "a";
    spawn_vm_command = none;
    on_exit = false;
    on_event = false;
  };
  state_dir = [];
}

new-places_example :
    (resolve (codes "srv" ∷ []) (new options).volume.state_dir
      ≡ codes "volumes" ∷ codes ".weft-agent" ∷ codes "srv" ∷ [])
    × (resolve (codes "srv" ∷ []) (new options).image.cache_dir
        ≡ codes "cache" ∷ codes ".weft-agent" ∷ codes "srv" ∷ [])
new-places_example = new-places (codes "srv" ∷ []) options
