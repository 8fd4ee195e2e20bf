-- ===== src/Runner/Launch/Laws.antt =====
-- builtin/vmrun.go: `RunVMGraphic` up to `machine.Start`.
use weft_driver_vz.Common.{
  ◌≡◌, refl, sym, subst, ◌⊎◌, inl, inr, Bool, true, false, not, Option, none, some, List, [], ◌∷◌,
  Bytes, codes,
}
use weft_driver_vz.Golang.FilePath.{join}
use weft_driver_vz.Os.Tree.{Tree}
use weft_driver_vz.Os.Calls.{Host, stat, truncate}
use weft_driver_vz.Os.World.{World, Error, Outcome, done, fail}
use weft_driver_vz.Marks.Watch.{Event}
use weft_driver_vz.Runner.ConfigFile.{read_config, read_microvm_flag}
use weft_driver_vz.Runner.Machine.{Machine, Virtualization}
use weft_driver_vz.Runner.Parts.{missing}
use weft_driver_vz.Runner.Build.Laws.{build-IsBuilt}
use weft_driver_vz.Runner.Build.Described.{IsBuilt}
use weft_driver_vz.Runner.Launch.{event, launched, changed, instantiate, configured, launch}

-- The tree in which the configuration is built.
abbrev pub cut : Host → Bytes → Tree → Tree
cut h vm_dir t = changed (truncate h (join vm_dir (codes "console.log")) t)

pub record IsLaunched (z : Virtualization) (h : Host) (vm_dir : Bytes) (t : Tree) (m : Machine)
    (micro : Bool) (log : List Event) : Type 0 where
  pub events :
      log
      ≡ event "vz_vm_run.entered"
        ∷ event "vz_vm_run.vm_configured"
        ∷ event "vz_vm_run.vm_instantiated"
        ∷ []
  pub flag : micro ≡ read_microvm_flag h vm_dir t
  pub machine :
      IsBuilt z h vm_dir
        (join vm_dir (codes "console.log"))
        (not micro)
        t
        (read_config h vm_dir t)
        m
  pub headless : (micro ≡ false) ⊎ ((m.screen ≡ none) × (m.keyboard ≡ false) × (m.pointer ≡ false))

without_graphics : (micro : Bool) (A : Type 0) → (not micro ≡ true) ⊎ A → (micro ≡ false) ⊎ A
without_graphics true A (inl e) = cc e
without_graphics true A (inr a) = inr a
without_graphics false A x = inl refl

abbrev pub begun_events : List Event
begun_events =
    event "vz_vm_run.entered"
    ∷ event "vz_vm_run.vm_configured"
    ∷ event "vz_vm_run.vm_instantiated"
    ∷ []

module _ (z : Virtualization) (h : Host) (text : Error → Bytes) where
  instantiate-launched :
      (i : Bool) (m n : Machine) (micro : Bool) (log : List Event) (r : Option Bytes) (w v : World)
      → instantiate z h text i m r w ≡ launched n micro log v
      → (m ≡ n) × (i ≡ micro) × (log ≡ begun_events) × (w ≡ v)
  unfolding instantiate
  instantiate-launched i m n micro log (some e) w v d = cc d
  instantiate-launched i m n micro log none w v d = (cc, cc, cc, cc)

  pub configured-launched :
      (i : Bool) (o : Outcome Machine) (n : Machine) (micro : Bool) (log : List Event) (v : World)
      → configured z h text i o ≡ launched n micro log v
      → (o ≡ done n v) × (i ≡ micro) × (log ≡ begun_events)
  unfolding configured
  configured-launched i (fail e w) n micro log v d = cc d
  configured-launched i (done m w) n micro log v d =
      let (a, b, c, e) = instantiate-launched i m n micro log _ w v d in (cc, b, c)

  -- Where `RunVMGraphic` comes to `machine.Start`, in a directory that has its variable store, it has
  -- recorded its three events in order, the machine is the one that the directory describes once the
  -- console log is cut, and a microVM's has neither a screen nor input devices.
  pub launch-IsLaunched :
      (vm_dir : Bytes) (w v : World) (m : Machine) (micro : Bool) (log : List Event)
      → missing (stat h (join vm_dir (codes "nvram.bin")) (cut h vm_dir w.tree)) ≡ false
      → launch z h text vm_dir w ≡ launched m micro log v
      → IsLaunched z h vm_dir (cut h vm_dir w.tree) m micro log
  unfolding launch
  launch-IsLaunched vm_dir w v m micro log there d =
      let t = cut h vm_dir w.tree in
      let flag = read_microvm_flag h vm_dir t in
      let console = join vm_dir (codes "console.log") in
      let (a, b, c) = configured-launched flag _ m micro log v d in
      let built : IsBuilt z h vm_dir (join vm_dir (codes "console.log")) (not flag) t
          (read_config h vm_dir t) m =
        build-IsBuilt z h vm_dir console (not flag) (record w { tree = t }) v m there a in
      let built' : IsBuilt z h vm_dir (join vm_dir (codes "console.log")) (not micro) t
          (read_config h vm_dir t) m =
        subst
          (λ (x : Bool).
            IsBuilt z h vm_dir (join vm_dir (codes "console.log")) (not x) t
              (read_config h vm_dir t) m)
          b built in
      record {
        events = c;
        flag = sym b;
        machine = built';
        headless = without_graphics micro _ built'.headless;
      }
