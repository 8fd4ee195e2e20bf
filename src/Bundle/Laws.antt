-- ===== src/Bundle/Laws.antt =====
-- builtin/bundle.go: which directories the drivers of one bundle get.
use weft_driver_vz.Common.{◌≡◌, refl, ap, ◌∙◌, ◌≢◌, [], ◌∷◌, arith, Bytes, codes, bytes_eq}
use weft_driver_vz.Golang.FilePath.{Place, IsName, resolve}
use weft_driver_vz.Golang.FilePath.Laws.{resolve-join}
use weft_driver_vz.Bundle.{BundleOptions, state_dir_or_default, new}

volumes-IsName : IsName (codes "volumes")
unfolding bytes_eq
volumes-IsName = record { plain = ground arith; nonempty = refl; not_dot = refl; not_dotdot = refl }

cache-IsName : IsName (codes "cache")
unfolding bytes_eq
cache-IsName = record { plain = ground arith; nonempty = refl; not_dot = refl; not_dotdot = refl }

state_dir-ne-nil : (s : Bytes) → state_dir_or_default s ≢ []
unfolding state_dir_or_default
state_dir-ne-nil [] e = cc
state_dir-ne-nil (c ∷ s) e = cc

-- The place of the state directory, described on its own.
abbrev pub state_place : Place → Bytes → Place
state_place cwd [] = codes ".weft-agent" ∷ cwd
state_place cwd (c ∷ s) = resolve cwd (c ∷ s)

resolve-state_dir :
    (cwd : Place) (s : Bytes) → resolve cwd (state_dir_or_default s) ≡ state_place cwd s
unfolding state_dir_or_default resolve bytes_eq
resolve-state_dir cwd [] = refl
resolve-state_dir cwd (c ∷ s) = refl

-- From whatever working directory the process runs in, the volumes and the image cache of a bundle
-- are the folders `volumes` and `cache` in one folder: the state directory, or `.weft-agent` in the
-- working directory where no state directory is set.
pub new-places :
    (cwd : Place) (o : BundleOptions)
    → (resolve cwd (new o).volume.state_dir ≡ codes "volumes" ∷ state_place cwd o.state_dir)
      × (resolve cwd (new o).image.cache_dir ≡ codes "cache" ∷ state_place cwd o.state_dir)
unfolding new
new-places cwd o =
    let s = state_dir_or_default o.state_dir in
    let ne = state_dir-ne-nil o.state_dir in
    let e = resolve-state_dir cwd o.state_dir in
    (
      resolve-join cwd s (codes "volumes") ne volumes-IsName ∙ ap (λ p. codes "volumes" ∷ p) e,
      resolve-join cwd s (codes "cache") ne cache-IsName ∙ ap (λ p. codes "cache" ∷ p) e,
    )
