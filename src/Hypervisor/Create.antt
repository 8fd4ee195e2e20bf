-- ===== src/Hypervisor/Create.antt =====
-- builtin/hypervisor.go: `CreateVM`. The UUID is the VM directory's path. Error texts stand without
-- the paths that they print.
pub mod Stages
pub mod Laws
use weft_driver_vz.Common.{
  ℕ, zero, suc, ◌+◌, ◌-◌, ◌*◌, ◌/◌, ◌%◌, ◌^◌, ◌≤◌, ◌<◌, String, ◌≡◌, refl, sym, ap, ◌∙◌, subst,
  fun_ext, ◌≢◌, ◌↔◌, ◌⊎◌, inl, inr, Bool, true, false, not, ◌&&◌, ◌||◌, Option, none, some, List,
  [], ◌∷◌, ◌++◌, map, foldl, reverse, append-nil, append_assoc, reverse-append, reverse-reverse,
  arith, ltb, leb, ◌==◌, if◌then◌else◌, ==_iff, Bool-cases, Option-cases, length, take, drop,
  length-append, take-append-drop, drop-append, take-append, length-take, length-drop, take-nil,
  take-all, take_past, drop_past, All, All-append, Bytes, codes, bytes_eq, bytes_eq_iff,
}
use weft_driver_vz.Golang.FilePath.{join}
use weft_driver_vz.Os.Tree.{Node, Tree, is_not_exist}
use weft_driver_vz.Os.Calls.{
  Host, Answer, ok, err, Change, did, broke, at, stat, write_file, mkdir_all,
}
use weft_driver_vz.Os.World.{
  World, M, Outcome, done, fail, Error, failed, Cause, os, foreign, no_cause, bind, ◌>>=◌, ◌>>◌,
}
use weft_driver_vz.Framework.{Framework, Made, made, refused, Stored, stored, spoiled}

-- A change of the tree by a call of package `os`, its error wrapped by `text`.
unfoldable pub change : String → Change → M (Unit {0})
change text (did t) w = done tt (record w { tree = t })
change text (broke e t) w = fail (failed text (os e)) (record w { tree = t })

unfoldable pub store : String → Stored → M (Unit {0})
store text (stored t) w = done tt (record w { tree = t })
store text (spoiled e t) w = fail (failed text (foreign e)) (record w { tree = t })

pub drawn : String → Made Bytes → M Bytes
drawn text (made b) w = done b w
drawn text (refused e) w = fail (failed text (foreign e)) w

-- A random value, drawn.
pub draw : String → (ℕ → Made Bytes) → M Bytes
draw text make w = drawn text (make w.draws) (record w { draws = w.draws + 1 })

-- `if _, err := os.Stat(path); os.IsNotExist(err) { make } else if err != nil { return … }`
pub ensure : String → M (Unit {0}) → Answer Node → M (Unit {0})
ensure text make (ok n) w = done tt w
ensure text make (err e) w = if is_not_exist e then make w else fail (failed text (os e)) w

module _ (f : Framework) (h : Host) where
  pub make_nvram : Bytes → M (Unit {0})
  make_nvram p w = store "CreateVM: nvram" (f.new_efi_variable_store (at h p) w.tree) w

  pub make_machine_id : Bytes → M (Unit {0})
  make_machine_id p = do
    mid ← draw "CreateVM: machine identifier" f.new_machine_identifier
    λ w. change "CreateVM: write machine-id" (write_file h p mid w.tree) w

  pub make_mac : Bytes → M (Unit {0})
  make_mac p = do
    mac ← draw "CreateVM: mac" f.new_mac_address
    λ w. change "CreateVM: write mac" (write_file h p mac w.tree) w

  pub nvram : Bytes → M (Unit {0})
  nvram p w = ensure "CreateVM: stat nvram" (make_nvram p) (stat h p w.tree) w

  pub machine_id : Bytes → M (Unit {0})
  machine_id p w = ensure "CreateVM: stat machine-id" (make_machine_id p) (stat h p w.tree) w

  pub mac_txt : Bytes → M (Unit {0})
  mac_txt p w = ensure "CreateVM: stat mac" (make_mac p) (stat h p w.tree) w

  pub create_in : Bytes → M (Unit {0})
  create_in vm_dir = do
    λ w. change "CreateVM: mkdir" (mkdir_all h vm_dir w.tree) w
    nvram (join vm_dir (codes "nvram.bin"))
    machine_id (join vm_dir (codes "machine-id.bin"))
    mac_txt (join vm_dir (codes "mac.txt"))

  unfoldable pub create_vm : Bytes → M (Unit {0})
  unfolding create_in nvram machine_id mac_txt make_nvram make_machine_id make_mac ensure draw drawn
      store change
  create_vm [] w = fail (failed "CreateVM: empty UUID" no_cause) w
  create_vm (c ∷ uuid) w = create_in (c ∷ uuid) w
