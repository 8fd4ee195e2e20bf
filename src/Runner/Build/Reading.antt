-- ===== src/Runner/Build/Reading.antt =====
-- builtin/vmrun.go: the steps of `buildVZConfigFromDir` that only read.
use weft_driver_vz.Common.{
  String, ◌≡◌, refl, inl, inr, Bool, ◌||◌, Option, none, some, List, [], ◌∷◌, Bool-cases, Bytes,
  codes, bytes_eq,
}
use weft_driver_vz.Golang.FilePath.{join}
use weft_driver_vz.Os.Tree.Laws.{Extends, Extends-refl}
use weft_driver_vz.Os.Calls.{Host, Answer, ok, err, read_file}
use weft_driver_vz.Os.World.{World, M, final, ◌>>=◌}
use weft_driver_vz.Framework.{Stored, stored, spoiled, stored_tree}
use weft_driver_vz.Hypervisor.Create.Laws.{bind-Extends}
use weft_driver_vz.Runner.ConfigFile.{ShareSpec}
use weft_driver_vz.Runner.Machine.{Disk, Machine, Part, Virtualization}
use weft_driver_vz.Runner.Parts.{
  pure, asked, tree_of, ask, read_at, read_identifier, attach, primary_disk, attach_primary,
  attach_data, attach_seed, seed_disk, storage_devices, network, offered, complete, attach_shares,
  serial_at, screen, input, validated,
}

-- A step that leaves all that exists as it was.
pub record Keeps {A : Type 0} (m : M A) : Type 0 where
  pub keeps : (w : World) → Extends w.tree (final (m w)).tree

pub then-Keeps :
    {A B : Type 0} (m : M A) (f : A → M B) → Keeps m → ((a : A) → Keeps (f a)) → Keeps (m >>= f)
then-Keeps m f k g = record {
  keeps = λ w. bind-Extends w (m w) f (k.keeps w) (λ a v. (g a).keeps v);
}

pub pure-Keeps : {A : Type 0} (a : A) → Keeps (pure a)
pure-Keeps a = record { keeps = λ w. Extends-refl w.tree }

asked-Keeps : (text : String) (o : Option Bytes) → Keeps (asked text o)
unfolding asked
asked-Keeps text none = record { keeps = λ w. Extends-refl w.tree }
asked-Keeps text (some e) = record { keeps = λ w. Extends-refl w.tree }

module _ (z : Virtualization) (h : Host) where
  read_at-Keeps : (text : String) (a : Answer Bytes) → Keeps (read_at z h text a)
  unfolding read_at
  read_at-Keeps text (ok b) = record { keeps = λ w. Extends-refl w.tree }
  read_at-Keeps text (err e) = record { keeps = λ w. Extends-refl w.tree }

  complete-Keeps : (s : ShareSpec) → Keeps (complete z h s)
  unfolding complete
  complete-Keeps s = record {
    keeps = λ w. elim (Bool-cases (bytes_eq s.tag [] || bytes_eq s.path [])) [
      | inl e ↦ rw e (Extends-refl w.tree)
      | inr e ↦ rw e (Extends-refl w.tree)
    ];
  }

  pub ask-Keeps : (text : String) (p : Part) → Keeps (ask z h text p)
  unfolding ask
  ask-Keeps text p = record { keeps = λ w. (asked-Keeps text (z.refusal p w.tree)).keeps w }

  pub read_identifier-Keeps : (dir : Bytes) → Keeps (read_identifier z h dir)
  unfolding read_identifier
  read_identifier-Keeps dir =
      then-Keeps
        (λ w.
          read_at z h "read machine-id" (read_file h (join dir (codes "machine-id.bin")) w.tree) w)
        _ (record { keeps = λ w. (read_at-Keeps _ _).keeps w })
        (λ mid.
          then-Keeps (ask z h _ _) _ (ask-Keeps _ _)
            (λ _. then-Keeps (ask z h _ _) _ (ask-Keeps _ _) (λ _. pure-Keeps _)))

  attach-Keeps : (s t : String) (d : Disk) → Keeps (attach z h s t d)
  unfolding attach
  attach-Keeps s t d = then-Keeps (ask z h s _) _ (ask-Keeps _ _) (λ _. ask-Keeps _ _)

  attach_primary-Keeps : (o : Option Disk) → Keeps (attach_primary z h o)
  unfolding attach_primary
  attach_primary-Keeps none = record { keeps = λ w. Extends-refl w.tree }
  attach_primary-Keeps (some d) =
      then-Keeps (attach z h _ _ d) _ (attach-Keeps _ _ d) (λ _. pure-Keeps _)

  attach_seed-Keeps : (o : Option Disk) → Keeps (attach_seed z h o)
  unfolding attach_seed
  attach_seed-Keeps none = record { keeps = λ w. Extends-refl w.tree }
  attach_seed-Keeps (some d) =
      then-Keeps (attach z h _ _ d) _ (attach-Keeps _ _ d) (λ _. pure-Keeps _)

  attach_data-Keeps : (dir : Bytes) (names : List Bytes) → Keeps (attach_data z h dir names)
  unfolding attach_data
  attach_data-Keeps dir [] = record { keeps = λ w. Extends-refl w.tree }
  attach_data-Keeps dir (name ∷ names) = then-Keeps (attach z h _ _ _) _ (attach-Keeps _ _ _) (λ _.
      then-Keeps (attach_data z h dir names) _ (attach_data-Keeps dir names) (λ _. pure-Keeps _))

  pub storage_devices-Keeps :
      (dir : Bytes) (names : List Bytes) → Keeps (storage_devices z h dir names)
  unfolding storage_devices
  storage_devices-Keeps dir names =
      then-Keeps tree_of _ (record { keeps = λ w. Extends-refl w.tree })
        (λ t.
          then-Keeps (attach_primary z h (primary_disk z h dir t)) _ (attach_primary-Keeps _) (λ _.
            then-Keeps (attach_data z h dir names) _ (attach_data-Keeps dir names) (λ _.
              then-Keeps tree_of _ (record { keeps = λ w. Extends-refl w.tree })
                (λ t'.
                  then-Keeps (attach_seed z h (seed_disk z h dir t')) _ (attach_seed-Keeps _)
                    (λ _. pure-Keeps _)))))

  pub network-Keeps : (dir : Bytes) → Keeps (network z h dir)
  unfolding network
  network-Keeps dir = then-Keeps (ask z h _ _) _ (ask-Keeps _ _) (λ _.
      then-Keeps (ask z h _ _) _ (ask-Keeps _ _) (λ _. record { keeps = λ w. Extends-refl w.tree }))

  pub attach_shares-Keeps : (ss : List ShareSpec) → Keeps (attach_shares z h ss)
  unfolding attach_shares
  attach_shares-Keeps [] = record { keeps = λ w. Extends-refl w.tree }
  attach_shares-Keeps (s ∷ ss) = then-Keeps (complete z h s) _ (complete-Keeps s) (λ _.
      then-Keeps (ask z h _ _) _ (ask-Keeps _ _) (λ _.
        then-Keeps (ask z h _ _) _ (ask-Keeps _ _) (λ _.
          then-Keeps (ask z h _ _) _ (ask-Keeps _ _) (λ _.
            then-Keeps (attach_shares z h ss) _ (attach_shares-Keeps ss) (λ _. pure-Keeps _)))))

  pub serial_at-tree :
      (console : Bytes) (s : Stored) (w : World)
      → (final (serial_at z h console s w)).tree ≡ stored_tree s
  unfolding serial_at
  serial_at-tree console (stored t) w = refl
  serial_at-tree console (spoiled e t) w = refl

  pub validated-Keeps : (m : Machine) → Keeps (validated z h m)
  unfolding validated
  validated-Keeps m = record {
    keeps = λ w. elim (Bool-cases (z.valid m w.tree)) [
      | inl e ↦ rw e (Extends-refl w.tree)
      | inr e ↦ rw e (Extends-refl w.tree)
    ];
  }

  pub offered-Keeps : (p : Part) → Keeps (offered z h p)
  unfolding offered
  offered-Keeps p = record { keeps = λ w. Extends-refl w.tree }

  pub screen-Keeps : (graphics : Bool) → Keeps (screen z h graphics)
  unfolding screen
  screen-Keeps graphics = record { keeps = λ w. Extends-refl w.tree }

  pub input-Keeps : (graphics : Bool) (p : Part) → Keeps (input z h graphics p)
  unfolding input
  input-Keeps graphics p = record { keeps = λ w. Extends-refl w.tree }
