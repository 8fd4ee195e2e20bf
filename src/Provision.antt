-- ===== src/Provision.antt =====
-- cmd/weft-driver-vz/provision_darwin.go: the command `provision`, which lays out a VM directory.
--
-- `unix.Clonefile` is a parameter. Of an error that is wrapped more than once, the innermost text is
-- kept. What the command prints at its end is left out.
pub mod Artefact
pub mod Copy
pub mod Config
use weft_driver_vz.Common.{
  ℕ, zero, suc, ◌+◌, ◌-◌, ◌*◌, ◌/◌, ◌%◌, ◌^◌, ◌≤◌, ◌<◌, String, ◌≡◌, refl, sym, ap, ◌∙◌, subst,
  fun_ext, ◌≢◌, ◌↔◌, ◌⊎◌, inl, inr, Bool, true, false, not, ◌&&◌, ◌||◌, Option, none, some, List,
  [], ◌∷◌, ◌++◌, map, foldl, reverse, append-nil, append_assoc, reverse-append, reverse-reverse,
  arith, ltb, leb, ◌==◌, if◌then◌else◌, ==_iff, Bool-cases, Option-cases, length, take, drop,
  length-append, take-append-drop, drop-append, take-append, length-take, length-drop, take-nil,
  take-all, take_past, drop_past, All, All-append, Bytes, codes, bytes_eq, bytes_eq_iff,
}
use weft_driver_vz.Golang.FilePath.{Place, join, base, abs}
use weft_driver_vz.Golang.Strconv.{itoa}
use weft_driver_vz.Golang.Json.{
  Value, number, text, array, object, Values, no_values, value, no_members, member, marshal_indent,
}
use weft_driver_vz.Os.Tree.{Tree, Node}
use weft_driver_vz.Os.Calls.{
  Host, Answer, ok, err, at, stat, open_file, put_file, write_file, mkdir_all, remove, symlink,
  copy,
}
use weft_driver_vz.Os.Calls.Laws.{left}
use weft_driver_vz.Os.World.{
  World, M, Outcome, done, fail, Error, failed, Cause, os, foreign, no_cause, bind, ◌>>=◌, ◌>>◌,
}
use weft_driver_vz.Framework.{Framework}
use weft_driver_vz.HostInfo.{Options}
use weft_driver_vz.Bundle.{new}
use weft_driver_vz.Hypervisor.Create.{change, create_vm}

-- What `clonefile(2)` does; `cannot_clone` is for ENOTSUP and EXDEV.
pub data Cloned : Type 0 where
  cloned : Tree → Cloned
  cannot_clone : Cloned
  not_cloned : Bytes → Tree → Cloned

-- The path of a place.
pub path_of : Place → Bytes
path_of [] = []
path_of (c ∷ k) = path_of k ++ b'/' ∷ c

-- `filepath.Abs`; the working directory can be read.
unfoldable pub abs_path : Host → Bytes → Bytes
unfolding path_of
abs_path h src = abs (b'/' ∷ path_of h.cwd) src

-- `_ = os.Remove(path)`
unfoldable pub wipe : Host → Bytes → M (Unit {0})
wipe h p w = done tt (record w { tree = left (remove h p w.tree) })

module _ (clone : Place → Place → Tree → Cloned) (h : Host) where
  -- The byte copy, from what is opened.
  pub copy_from : Bytes → Answer Place → M (Unit {0})
  copy_from dst (err e) = λ w. fail (failed "" (os e)) w
  copy_from dst (ok k) = do
    λ w. change "" (put_file h dst [] w.tree) w
    λ w. change "" (copy h k dst w.tree) w

  pub place_clone : Bytes → Bytes → Cloned → M (Unit {0})
  place_clone from dst (cloned t) w = done tt (record w { tree = t })
  place_clone from dst cannot_clone w = copy_from dst (open_file h from w.tree) w
  place_clone from dst (not_cloned e t) w =
      fail (failed "clonefile" (foreign e)) (record w { tree = t })

  pub place_fresh : Bytes → Bytes → Bool → M (Unit {0})
  place_fresh from dst false w = change "" (symlink h (at h from) dst w.tree) w
  place_fresh from dst true w = place_clone from dst (clone (at h from) (at h dst) w.tree) w

  pub place_at : Bytes → Bytes → Bool → Answer Node → M (Unit {0})
  place_at from dst copy_mode (err e) = λ w. fail (failed "source" (os e)) w
  place_at from dst copy_mode (ok n) = do wipe h dst; place_fresh from dst copy_mode

  unfoldable pub place_artefact : Bytes → Bytes → Bool → M (Unit {0})
  unfolding place_at place_fresh place_clone copy_from change
  place_artefact src dst copy_mode w =
      place_at (abs_path h src) dst copy_mode (stat h (abs_path h src) w.tree) w

  -- The i-th data disk and those behind it; the result is their names.
  pub place_data_disks : Bytes → Bool → ℕ → List Bytes → M (List Bytes)
  place_data_disks vm_dir copy_mode i [] = λ w. done [] w
  place_data_disks vm_dir copy_mode i (src ∷ srcs) = do
    let name : Bytes = codes "data-" ++ itoa i ++ codes ".img"
    place_artefact src (join vm_dir name) copy_mode
    names ← place_data_disks vm_dir copy_mode (i + 1) srcs
    λ w. done (name ∷ names) w

  pub place_cidata : Bytes → Bool → Bytes → M (Unit {0})
  place_cidata vm_dir copy_mode [] = λ w. done tt w
  place_cidata vm_dir copy_mode (c ∷ src) =
      place_artefact (c ∷ src) (join vm_dir (codes "cloud-init.iso")) copy_mode

-- The command's flags.
pub record Flags : Type 0 where
  pub vm_dir : Bytes
  pub image : Bytes
  pub data_disks : List Bytes
  pub cidata : Bytes
  pub cpu : ℕ
  pub mem_gib : ℕ
  pub copy_mode : Bool

unfoldable pub disk_entries : List Bytes → Values
disk_entries [] = no_values
disk_entries (name ∷ names) =
    value (object (member (codes "name") (text name) no_members)) (disk_entries names)

-- What is written to config.json; `MarshalIndent` sorts a map's keys.
unfoldable pub config : Flags → List Bytes → Bytes
unfolding disk_entries marshal_indent
config o names = marshal_indent (
    object (
      member (codes "cpu") (number (itoa o.cpu)) (
        member (codes "data_disks") (array (disk_entries names)) (
          member (codes "image") (text (base o.image))
            (member (codes "mem_gib") (number (itoa o.mem_gib)) no_members)))))

module _ (f : Framework) (clone : Place → Place → Tree → Cloned) (h : Host) where
  pub lay_out : Flags → M (Unit {0})
  lay_out o = do
    λ w. change "mkdir" (mkdir_all h o.vm_dir w.tree) w
    place_artefact clone h o.image (join o.vm_dir (codes "disk.img")) o.copy_mode
    names ← place_data_disks clone h o.vm_dir o.copy_mode 0 o.data_disks
    place_cidata clone h o.vm_dir o.copy_mode o.cidata
    wipe h (join o.vm_dir (codes "nvram.bin"))
    wipe h (join o.vm_dir (codes "machine-id.bin"))
    wipe h (join o.vm_dir (codes "mac.txt"))
    create_vm f h o.vm_dir
    λ w.
        change "write config.json"
          (write_file h (join o.vm_dir (codes "config.json")) (config o names) w.tree) w

  -- The command's `RunE`.
  unfoldable pub provision : Flags → M (Unit {0})
  unfolding lay_out place_data_disks place_cidata place_artefact change wipe config create_vm
  provision o w =
      if bytes_eq o.vm_dir [] || bytes_eq o.image []
      then fail (failed "provision: --vmdir and --image are required" no_cause) w
      else lay_out o w
