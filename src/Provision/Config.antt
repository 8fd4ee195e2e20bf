-- ===== src/Provision/Config.antt =====
-- cmd/weft-driver-vz/provision_darwin.go and builtin/vmrun.go: the VM that the runner builds from a
-- directory that the command `provision` laid out.
use weft_driver_vz.Common.{
  ℕ, ◌+◌, ◌^◌, ◌<◌, String, ◌≡◌, refl, sym, ap, ◌∙◌, subst, inl, inr, Bool, false, ◌||◌, none, List,
  [], ◌∷◌, ◌++◌, arith, Bool-cases, All, All-append, Bytes, codes, bytes_eq,
}
use weft_driver_vz.Golang.FilePath.{Place, join}
use weft_driver_vz.Golang.Strconv.{itoa, itoa-digits, IsDigit}
use weft_driver_vz.Golang.Json.Texts.Quote.{IsAscii}
use weft_driver_vz.Os.Tree.{Tree}
use weft_driver_vz.Os.Calls.{Host, ok, did, read_call, at, stat, mkdir_all, write_file, read_file}
use weft_driver_vz.Os.Calls.Writing.{read_file-write_file, stat-write_file}
use weft_driver_vz.Os.World.{World, done, bind-done}
use weft_driver_vz.Framework.{Framework, IsFramework}
use weft_driver_vz.Hypervisor.Create.{change, create_vm}
use weft_driver_vz.Hypervisor.Create.Stages.{change-done}
use weft_driver_vz.Hypervisor.Create.Laws.{create_vm-IsCreated}
use weft_driver_vz.Provision.{
  Cloned, place_artefact, place_data_disks, place_cidata, wipe, Flags, config, lay_out, provision,
}
use weft_driver_vz.Runner.ConfigFile.{VmConfig, read_config, read_microvm_flag, config_of, flag_of}
use weft_driver_vz.Runner.ConfigFile.Written.{
  asked_for, unmarshal_config-config, flag_of_value-config,
}
use weft_driver_vz.Runner.Machine.{Machine, Virtualization}
use weft_driver_vz.Runner.Parts.{missing}
use weft_driver_vz.Runner.Parts.Steps.{IsComplete}
use weft_driver_vz.Runner.Build.{build}
use weft_driver_vz.Runner.Build.Described.{IsBuilt}
use weft_driver_vz.Runner.Build.Returning.{IsWilling, build_returns}

-- The names of the data disks that the command places: `data-0.img`, `data-1.img` and so on.
pub disk_name : ℕ → Bytes
disk_name i = codes "data-" ++ itoa i ++ codes ".img"

pub disk_names : ℕ → List Bytes → List Bytes
disk_names i [] = []
disk_names i (src ∷ srcs) = disk_name i ∷ disk_names (i + 1) srcs

IsDigit-IsAscii : (s : Bytes) → All IsDigit s → All IsAscii s
IsDigit-IsAscii [] a = tt
IsDigit-IsAscii (c ∷ s) ((l, m), a) = (omega arith, IsDigit-IsAscii s a)

disk_name-IsAscii : (i : ℕ) → All IsAscii (disk_name i)
unfolding disk_name
disk_name-IsAscii i = All-append IsAscii (codes "data-") (itoa i ++ codes ".img") (omega arith) (
    All-append IsAscii (itoa i) (codes ".img") (IsDigit-IsAscii (itoa i) (itoa-digits i))
      (omega arith))

disk_names-AreAscii : (i : ℕ) (srcs : List Bytes) → All (All IsAscii) (disk_names i srcs)
unfolding disk_names
disk_names-AreAscii i [] = tt
disk_names-AreAscii i (src ∷ srcs) = (disk_name-IsAscii i, disk_names-AreAscii (i + 1) srcs)

module _ (clone : Place → Place → Tree → Cloned) (h : Host) where
  place_data_disks-names :
      (vm_dir : Bytes) (copy_mode : Bool) (i : ℕ) (srcs : List Bytes) (w v : World)
      (names : List Bytes)
      → place_data_disks clone h vm_dir copy_mode i srcs w ≡ done names v
      → names ≡ disk_names i srcs
  unfolding place_data_disks disk_names disk_name
  place_data_disks-names vm_dir copy_mode i [] w v names d = cc
  place_data_disks-names vm_dir copy_mode i (src ∷ srcs) w v names d =
      let (_, u, d1, e1) =
        bind-done (place_artefact clone h src (join vm_dir (disk_name i)) copy_mode w) _ names v
          d in
      let (more, x, d2, e2) =
        bind-done (place_data_disks clone h vm_dir copy_mode (i + 1) srcs u) _ names v e1 in
      let q = place_data_disks-names vm_dir copy_mode (i + 1) srcs u x more d2 in cc

-- How the command ends: it has made the VM, and then written config.json.
record IsLaidOut (f : Framework) (h : Host) (o : Flags) (v : World) : Type 0 where
  earlier : World
  made : World
  creates : create_vm f h o.vm_dir earlier ≡ done tt made
  writes :
      write_file h
        (join o.vm_dir (codes "config.json"))
        (config o (disk_names 0 o.data_disks))
        made.tree
      ≡ did v.tree

module _ (f : Framework) (clone : Place → Place → Tree → Cloned) (h : Host) where
  lay_out-IsLaidOut :
      (o : Flags) (w v : World) → lay_out f clone h o w ≡ done tt v → IsLaidOut f h o v
  unfolding lay_out
  lay_out-IsLaidOut o w v d =
      let at_name = λ (name : String). join o.vm_dir (codes name) in
      let (_, w1, _, e1) = bind-done (change "mkdir" (mkdir_all h o.vm_dir w.tree) w) _ tt v d in
      let (_, w2, _, e2) =
        bind-done (place_artefact clone h o.image (at_name "disk.img") o.copy_mode w1) _ tt v e1 in
      let (names, w3, d3, e3) =
        bind-done (place_data_disks clone h o.vm_dir o.copy_mode 0 o.data_disks w2) _ tt v e2 in
      let (_, w4, _, e4) =
        bind-done (place_cidata clone h o.vm_dir o.copy_mode o.cidata w3) _ tt v e3 in
      let (_, w5, _, e5) = bind-done (wipe h (at_name "nvram.bin") w4) _ tt v e4 in
      let (_, w6, _, e6) = bind-done (wipe h (at_name "machine-id.bin") w5) _ tt v e5 in
      let (_, w7, _, e7) = bind-done (wipe h (at_name "mac.txt") w6) _ tt v e6 in
      let (_, w8, d8, e8) = bind-done (create_vm f h o.vm_dir w7) _ tt v e7 in
      let q = place_data_disks-names clone h o.vm_dir o.copy_mode 0 o.data_disks w2 w3 names d3 in
      record {
        earlier = w7;
        made = w8;
        creates = d8;
        writes =
            subst
              (λ (l : List Bytes).
                write_file h (at_name "config.json") (config o l) w8.tree ≡ did v.tree)
              q (change-done _ _ w8 v e8);
      }

  provision-IsLaidOut :
      (o : Flags) (w v : World) → provision f clone h o w ≡ done tt v → IsLaidOut f h o v
  unfolding provision
  provision-IsLaidOut o w v d = elim (Bool-cases (bytes_eq o.vm_dir [] || bytes_eq o.image [])) [
    | inl e ↦ let d' = rw e at d in cc d'
    | inr e ↦ let d' = rw e at d in lay_out-IsLaidOut o w v d'
  ]

  -- After a `provision` that succeeds, the runner reads in config.json the CPUs and GiB of the flags
  -- and one data disk for each that was given, `data-0.img` onwards in the order of the flags; it
  -- reads no kernel command line, no share and no flag `microvm`. The numbers must fit a uint64, and
  -- the file must be readable.
  pub read_config-provision :
      (o : Flags) (w v : World)
      → o.cpu < 2 ^ 64
      → o.mem_gib < 2 ^ 64
      → h.faults read_call (at h (join o.vm_dir (codes "config.json"))) ≡ none
      → provision f clone h o w ≡ done tt v
      → (read_config h o.vm_dir v.tree ≡ asked_for o (disk_names 0 o.data_disks))
        × (read_microvm_flag h o.vm_dir v.tree ≡ false)
  unfolding read_config read_microvm_flag
  read_config-provision o w v cpu mem readable d =
      let l = provision-IsLaidOut o w v d in
      let names = disk_names 0 o.data_disks in
      let q =
        read_file-write_file h (join o.vm_dir (codes "config.json")) (config o names) l.made.tree
          v.tree readable l.writes in
      (
        ap config_of q
            ∙ unmarshal_config-config o names cpu mem (disk_names-AreAscii 0 o.data_disks),
        ap flag_of q ∙ flag_of_value-config o names,
      )

  stat-provision :
      (o : Flags) (w v : World)
      → IsFramework f
      → provision f clone h o w ≡ done tt v
      → missing (stat h (join o.vm_dir (codes "nvram.bin")) v.tree) ≡ false
  stat-provision o w v k d =
      let l = provision-IsLaidOut o w v d in
      let (n, s) = (create_vm-IsCreated f k h o.vm_dir l.earlier l.made l.creates).nvram in
      let (m, e) =
        stat-write_file h (join o.vm_dir (codes "config.json")) (join o.vm_dir (codes "nvram.bin"))
          (config o (disk_names 0 o.data_disks)) l.made.tree v.tree n l.writes s in
      rw e refl

  -- From a directory that `provision` laid out with success, `buildVZConfigFromDir` returns a
  -- configuration, the one that the flags ask for: their CPUs and GiB, each 2 where it is 0, the GiB
  -- as bytes in 64 bits, and behind the primary disk one data disk for each that was given, in their
  -- order; it has no share. The numbers must fit a uint64, config.json and the machine identifier be
  -- readable, and the framework be as `IsFramework` asks, make every part and validate every
  -- configuration.
  pub build-provision :
      (z : Virtualization) (o : Flags) (console mid : Bytes) (graphics : Bool) (w v : World)
      → IsFramework f
      → IsWilling z
      → o.cpu < 2 ^ 64
      → o.mem_gib < 2 ^ 64
      → h.faults read_call (at h (join o.vm_dir (codes "config.json"))) ≡ none
      → read_file h (join o.vm_dir (codes "machine-id.bin")) v.tree ≡ ok mid
      → provision f clone h o w ≡ done tt v
      → (m : Machine) × (u : World) × (build z h o.vm_dir console graphics v ≡ done m u)
        × IsBuilt z h o.vm_dir console graphics v.tree (asked_for o (disk_names 0 o.data_disks)) m
  build-provision z o console mid graphics w v k willing cpu mem readable id d =
      let q = (read_config-provision o w v cpu mem readable d).0 in
      let (m, u, e, b, _) =
        build_returns z h willing o.vm_dir console mid graphics v (stat-provision o w v k d) id
          (subst (λ (c : VmConfig). All IsComplete c.shares) (sym q) tt) in
      (m, u, e, subst (λ (c : VmConfig). IsBuilt z h o.vm_dir console graphics v.tree c m) q b)
