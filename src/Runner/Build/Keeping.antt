-- ===== src/Runner/Build/Keeping.antt =====
-- builtin/vmrun.go: what `buildVZConfigFromDir` leaves of the file tree, on every branch.
use weft_driver_vz.Common.{◌≡◌, refl, inl, inr, Bool, true, false, ◌&&◌, Bool-cases, Bytes, codes}
use weft_driver_vz.Golang.FilePath.{join, Place}
use weft_driver_vz.Os.Tree.{Tree}
use weft_driver_vz.Os.Tree.Laws.{Extends, Extends-refl}
use weft_driver_vz.Os.Calls.{Host, at, stat}
use weft_driver_vz.Os.World.{World, final}
use weft_driver_vz.Framework.{stored_tree}
use weft_driver_vz.Hypervisor.Create.Laws.{bind-Extends}
use weft_driver_vz.Hypervisor.Create.Stages.{store-Extends}
use weft_driver_vz.Runner.ConfigFile.{VmConfig, read_config}
use weft_driver_vz.Runner.Machine.{linux_boot_loader, Virtualization}
use weft_driver_vz.Runner.Parts.{
  found, missing, command_line, when, ask, gets, efi_store_at, efi_loader, boot_loader,
  read_identifier, storage_devices, network, offered, attach_shares, serial_console, screen, input,
}
use weft_driver_vz.Runner.Build.{sources, devices, build_with, build}
use weft_driver_vz.Runner.Build.Reading.{
  Keeps, then-Keeps, pure-Keeps, ask-Keeps, read_identifier-Keeps, storage_devices-Keeps,
  network-Keeps, attach_shares-Keeps, serial_at-tree, validated-Keeps, offered-Keeps, screen-Keeps,
  input-Keeps,
}

-- To make a variable store where nothing is, and to open the log so that it is appended to, touches
-- nothing that exists. Nothing is assumed of a store that is made over an existing file, or of a log
-- that is opened otherwise.
pub record IsKeeping (z : Virtualization) (h : Host) : Type 0 where
  pub store_keeps :
      (p : Bytes) (t : Tree)
      → missing (stat h p t) ≡ true
      → Extends t (stored_tree (z.create_efi_store (at h p) t))
  pub serial_keeps : (k : Place) (t : Tree) → Extends t (stored_tree (z.serial_attachment true k t))

module _ (z : Virtualization) (h : Host) (keeping : IsKeeping z h) where
  -- A store is made only in a world where there is none.
  abbrev IsMissing : Bool → Bytes → World → Type 0
  IsMissing creating nvram w = creating ≡ true → missing (stat h nvram w.tree) ≡ true

  efi_store_at-Extends :
      (creating : Bool) (nvram : Bytes) (w : World)
      → IsMissing creating nvram w
      → Extends w.tree (final (efi_store_at z h creating nvram w)).tree
  unfolding efi_store_at
  efi_store_at-Extends true nvram w none_there =
      store-Extends "efi store" (z.create_efi_store (at h nvram) w.tree) w
        (keeping.store_keeps nvram w.tree (none_there refl))
  efi_store_at-Extends false nvram w none_there = (ask-Keeps z h "efi store" _).keeps w

  efi_loader-Extends :
      (creating : Bool) (nvram : Bytes) (w : World)
      → IsMissing creating nvram w
      → Extends w.tree (final (efi_loader z h creating nvram w)).tree
  unfolding efi_loader
  efi_loader-Extends creating nvram w none_there =
      bind-Extends w (efi_store_at z h creating nvram w) _
        (efi_store_at-Extends creating nvram w none_there)
        (λ _ v.
          (then-Keeps (ask z h "efi boot loader" _) _ (ask-Keeps z h _ _) (λ _. pure-Keeps _)).keeps
            v)

  boot_loader-Extends :
      (creating : Bool) (dir cmdline : Bytes) (w : World)
      → IsMissing creating (join dir (codes "nvram.bin")) w
      → Extends w.tree (final (boot_loader z h creating dir cmdline w)).tree
  unfolding boot_loader
  boot_loader-Extends creating dir cmdline w none_there =
      let b : Bool =
        found (stat h (join dir (codes "kernel")) w.tree)
        && gets z h
            (linux_boot_loader (join dir (codes "kernel")) (command_line cmdline) (
              when (found (stat h (join dir (codes "initrd")) w.tree)) (join dir (codes "initrd"))))
            w.tree in
      elim (Bool-cases b) [
        | inl e ↦ rw e (Extends-refl w.tree)
        | inr e ↦ rw e (efi_loader-Extends creating (join dir (codes "nvram.bin")) w none_there)
      ]

  serial_console-Keeps : (console : Bytes) → Keeps (serial_console z h console)
  unfolding serial_console
  serial_console-Keeps console = record {
    keeps = λ w.
        rw (serial_at-tree z h console (z.serial_attachment true (at h console) w.tree) w)
          (keeping.serial_keeps (at h console) w.tree);
  }

  sources-Extends :
      (creating : Bool) (dir : Bytes) (c : VmConfig) (w : World)
      → IsMissing creating (join dir (codes "nvram.bin")) w
      → Extends w.tree (final (sources z h creating dir c w)).tree
  unfolding sources
  sources-Extends creating dir c w none_there =
      bind-Extends w (boot_loader z h creating dir c.cmdline w) _
        (boot_loader-Extends creating dir c.cmdline w none_there)
        (λ _ v.
          (then-Keeps (read_identifier z h dir) _ (read_identifier-Keeps z h dir) (λ _.
              then-Keeps (storage_devices z h dir c.data_disks) _
                (storage_devices-Keeps z h dir c.data_disks)
                (λ _.
                  then-Keeps (network z h dir) _ (network-Keeps z h dir) (λ _.
                    then-Keeps (ask z h _ _) _ (ask-Keeps z h _ _) (λ _. pure-Keeps _))))).keeps
            v)

  devices-Keeps :
      (console : Bytes) (graphics : Bool) (c : VmConfig) → Keeps (devices z h console graphics c)
  unfolding devices
  devices-Keeps console graphics c = then-Keeps (offered z h _) _ (offered-Keeps z h _) (λ _.
      then-Keeps (offered z h _) _ (offered-Keeps z h _) (λ _.
        then-Keeps (attach_shares z h c.shares) _ (attach_shares-Keeps z h c.shares) (λ _.
          then-Keeps (serial_console z h console) _ (serial_console-Keeps console) (λ _.
            then-Keeps (screen z h graphics) _ (screen-Keeps z h graphics) (λ _.
              then-Keeps (input z h graphics _) _ (input-Keeps z h graphics _) (λ _.
                then-Keeps (input z h graphics _) _ (input-Keeps z h graphics _)
                  (λ _. pure-Keeps _)))))))

  -- Whether it returns a configuration or an error, `buildVZConfigFromDir` changes and removes
  -- nothing that stands in the file tree: it has a variable store made only where it has seen none,
  -- and opens the log to append to it, and the framework keeps what is there in these two cases.
  pub build-Extends :
      (dir console : Bytes) (graphics : Bool) (w : World)
      → Extends w.tree (final (build z h dir console graphics w)).tree
  unfolding build build_with
  build-Extends dir console graphics w =
      let c : VmConfig = read_config h dir w.tree in
      let creating = missing (stat h (join dir (codes "nvram.bin")) w.tree) in
      bind-Extends w (sources z h creating dir c w) _ (sources-Extends creating dir c w (λ e. e))
        (λ s v.
          (then-Keeps (devices z h console graphics c) _ (devices-Keeps console graphics c)
              (λ d. validated-Keeps z h _)).keeps
            v)
