-- ===== src/Runner/Build/Returning.antt =====
-- builtin/vmrun.go: when `buildVZConfigFromDir` returns a configuration.
use weft_driver_vz.Common.{
  String, ◌≡◌, refl, sym, ap, ◌∙◌, ◌≢◌, inl, inr, Bool, true, false, Option, none, some, List, [],
  ◌∷◌, Bool-cases, All, Bytes, codes, bytes_eq,
}
use weft_driver_vz.Golang.FilePath.{join}
use weft_driver_vz.Golang.Strings.{trim_space}
use weft_driver_vz.Golang.Net.{parse_mac}
use weft_driver_vz.Os.Tree.{Tree}
use weft_driver_vz.Os.Calls.{Host, Answer, err, ok, at, stat, read_file}
use weft_driver_vz.Os.World.{World, M, Outcome, done, bind, ◌>>=◌}
use weft_driver_vz.Framework.{Stored, stored, spoiled}
use weft_driver_vz.Runner.ConfigFile.{VmConfig, ShareSpec, read_config}
use weft_driver_vz.Runner.Machine.{
  Disk, Machine, Part, efi, efi_store, efi_boot_loader, mac_address, Virtualization,
}
use weft_driver_vz.Runner.Parts.{
  missing, asked, ask, efi_store_at, efi_loader, boot_loader, read_at, read_identifier, attach,
  primary_disk, attach_primary, attach_data, attach_seed, seed_disk, storage_devices, mac_of,
  network, offered, complete, attach_shares, serial_at, serial_console, screen, input, validated,
}
use weft_driver_vz.Runner.Build.{machine_of, sources, devices, build_with, build}
use weft_driver_vz.Runner.Parts.Steps.{boot_of, is_direct, shares_of, IsComplete}
use weft_driver_vz.Runner.Parts.Address.{IsRead}
use weft_driver_vz.Runner.Parts.Disks.{
  list_of, primary_disk-primary_of, seed_disk-seed_of, data_disks,
}
use weft_driver_vz.Runner.Build.Laws.{build-IsBuilt}
use weft_driver_vz.Runner.Build.Described.{disks_of, IsBuilt}

-- The framework makes every part, and every configuration is valid to it.
pub record IsWilling (z : Virtualization) : Type 0 where
  pub makes : (p : Part) (t : Tree) → z.refusal p t ≡ none
  pub validates : (m : Machine) (t : Tree) → z.valid m t ≡ true

-- The address that the file spells.
abbrev pub spelled : Answer Bytes → Option Bytes
spelled (err e) = none
spelled (ok text) = parse_mac (trim_space text)

-- Where the framework takes every address, it is the one that is set.
willing-spelled :
    (z : Virtualization) (h : Host) (a : Answer Bytes) (t : Tree) (mac : Option Bytes)
    → IsWilling z
    → IsRead z h a t mac
    → mac ≡ spelled a
willing-spelled z h a t (some hw) willing (text, e, p, _) = sym (rw e p)
willing-spelled z h a t none willing (inl (e, q)) = rw q refl
willing-spelled z h a t none willing (inr (text, q, inl p)) = sym (rw q p)
willing-spelled z h a t none willing (inr (text, q, inr (hw, _, refused))) =
    absurd (refused (willing.makes (mac_address hw) t))

-- A step that succeeds.
record Returns {A : Type 0} (m : M A) (w : World) : Type 0 where
  result : A
  left : World
  runs : m w ≡ done result left

then_done :
    {A B : Type 0} (m : M A) (f : A → M B) (a : A) (w v : World)
    → m w ≡ done a v
    → (m >>= f) w ≡ f a v
then_done {A = A} m f a w v e = ap (λ (o : Outcome A). bind o f) e

then-Returns :
    {A B : Type 0} (m : M A) (f : A → M B) (w : World) (r : Returns m w)
    → Returns (f r.result) r.left
    → Returns (m >>= f) w
then-Returns m f w r q = record {
  result = q.result;
  left = q.left;
  runs = then_done m f r.result w r.left r.runs ∙ q.runs;
}

nonempty_lem : (s : Bytes) → s ≢ [] → bytes_eq s [] ≡ false
unfolding bytes_eq
nonempty_lem [] n = absurd (n refl)
nonempty_lem (c ∷ s) n = refl

module _ (z : Virtualization) (h : Host) (willing : IsWilling z) where
  ask_done : (text : String) (p : Part) (w : World) → ask z h text p w ≡ done tt w
  unfolding ask asked
  ask_done text p w = rw (willing.makes p w.tree) refl

  attach_done : (s t : String) (d : Disk) (w : World) → attach z h s t d w ≡ done tt w
  unfolding attach
  attach_done s t d w = then_done (ask z h s _) _ tt w w (ask_done s _ w) ∙ ask_done t _ w

  attach_primary_done : (o : Option Disk) (w : World) → attach_primary z h o w ≡ done (list_of o) w
  unfolding attach_primary
  attach_primary_done none w = refl
  attach_primary_done (some d) w = then_done (attach z h _ _ d) _ tt w w (attach_done _ _ d w)

  attach_seed_done : (o : Option Disk) (w : World) → attach_seed z h o w ≡ done (list_of o) w
  unfolding attach_seed
  attach_seed_done none w = refl
  attach_seed_done (some d) w = then_done (attach z h _ _ d) _ tt w w (attach_done _ _ d w)

  attach_data_done :
      (dir : Bytes) (names : List Bytes) (w : World)
      → attach_data z h dir names w ≡ done (data_disks dir names) w
  unfolding attach_data
  attach_data_done dir [] w = refl
  attach_data_done dir (name ∷ names) w =
      then_done (attach z h _ _ _) _ tt w w (attach_done _ _ _ w)
      ∙ then_done (attach_data z h dir names) _ (data_disks dir names) w w
          (attach_data_done dir names w)

  storage_devices_done :
      (dir : Bytes) (names : List Bytes) (w : World)
      → storage_devices z h dir names w ≡ done (disks_of h dir names w.tree) w
  unfolding storage_devices
  storage_devices_done dir names w =
      rw (sym (primary_disk-primary_of z h dir w.tree), sym (seed_disk-seed_of z h dir w.tree))
        (then_done (attach_primary z h (primary_disk z h dir w.tree)) _ _ w w
            (attach_primary_done _ w)
          ∙ (then_done (attach_data z h dir names) _ (data_disks dir names) w w
                (attach_data_done dir names w)
              ∙ then_done (attach_seed z h (seed_disk z h dir w.tree)) _ _ w w
                  (attach_seed_done _ w)))

  complete_done : (s : ShareSpec) (w : World) → IsComplete s → complete z h s w ≡ done tt w
  unfolding complete
  complete_done s w (t, p) = rw (nonempty_lem s.tag t, nonempty_lem s.path p) refl

  attach_shares_done :
      (ss : List ShareSpec) (w : World)
      → All IsComplete ss
      → attach_shares z h ss w ≡ done (shares_of ss) w
  unfolding attach_shares
  attach_shares_done [] w a = refl
  attach_shares_done (s ∷ ss) w (c, a) =
      then_done (complete z h s) _ tt w w (complete_done s w c)
      ∙ (then_done (ask z h _ _) _ tt w w (ask_done _ _ w)
          ∙ (then_done (ask z h _ _) _ tt w w (ask_done _ _ w)
              ∙ (then_done (ask z h _ _) _ tt w w (ask_done _ _ w)
                  ∙ then_done (attach_shares z h ss) _ (shares_of ss) w w
                      (attach_shares_done ss w a))))

  efi_loader_done : (nvram : Bytes) (w : World) → efi_loader z h false nvram w ≡ done (efi nvram) w
  unfolding efi_loader efi_store_at
  efi_loader_done nvram w =
      then_done (ask z h "efi store" (efi_store nvram)) _ tt w w (ask_done _ _ w)
      ∙ then_done (ask z h "efi boot loader" (efi_boot_loader nvram)) _ tt w w (ask_done _ _ w)

  boot_loader_done :
      (dir cmdline : Bytes) (w : World)
      → boot_loader z h false dir cmdline w
        ≡ done (boot_of z h (is_direct z h dir cmdline w.tree) dir cmdline w.tree) w
  unfolding boot_loader
  boot_loader_done dir cmdline w = elim (Bool-cases (is_direct z h dir cmdline w.tree)) [
    | inl e ↦ rw e refl
    | inr e ↦ rw e (efi_loader_done (join dir (codes "nvram.bin")) w)
  ]

  read_identifier_done :
      (dir mid : Bytes) (w : World)
      → read_file h (join dir (codes "machine-id.bin")) w.tree ≡ ok mid
      → read_identifier z h dir w ≡ done mid w
  unfolding read_identifier read_at
  read_identifier_done dir mid w e = rw e (
      then_done (ask z h _ _) _ tt w w (ask_done _ _ w)
      ∙ then_done (ask z h _ _) _ tt w w (ask_done _ _ w))

  network_done :
      (dir : Bytes) (w : World)
      → network z h dir w
        ≡ done (mac_of z h (read_file h (join dir (codes "mac.txt")) w.tree) w.tree) w
  unfolding network
  network_done dir w =
      then_done (ask z h _ _) _ tt w w (ask_done _ _ w)
      ∙ then_done (ask z h _ _) _ tt w w (ask_done _ _ w)

  sources-Returns :
      (dir mid : Bytes) (c : VmConfig) (w : World)
      → read_file h (join dir (codes "machine-id.bin")) w.tree ≡ ok mid
      → Returns (sources z h false dir c) w
  unfolding sources
  sources-Returns dir mid c w e = record {
    result = _;
    left = w;
    runs =
        then_done (boot_loader z h false dir c.cmdline) _ _ w w (boot_loader_done dir c.cmdline w)
        ∙ (then_done (read_identifier z h dir) _ mid w w (read_identifier_done dir mid w e)
            ∙ (then_done (storage_devices z h dir c.data_disks) _ _ w w
                  (storage_devices_done dir c.data_disks w)
                ∙ (then_done (network z h dir) _ _ w w (network_done dir w)
                    ∙ then_done (ask z h _ _) _ tt w w (ask_done _ _ w))));
  }

  serial_at-Returns :
      (console : Bytes) (s : Stored) (w : World) → Returns (serial_at z h console s) w
  unfolding serial_at
  serial_at-Returns console (stored t) w = record { result = _; left = _; runs = refl }
  serial_at-Returns console (spoiled e t) w = record { result = _; left = _; runs = refl }

  serial_console-Returns : (console : Bytes) (w : World) → Returns (serial_console z h console) w
  unfolding serial_console
  serial_console-Returns console w =
      let r = serial_at-Returns console (z.serial_attachment true (at h console) w.tree) w in
      record { result = r.result; left = r.left; runs = r.runs }

  devices-Returns :
      (console : Bytes) (graphics : Bool) (c : VmConfig) (w : World)
      → All IsComplete c.shares
      → Returns (devices z h console graphics c) w
  unfolding devices offered screen input
  devices-Returns console graphics c w a =
      let r = serial_console-Returns console w in
      record {
        result = _;
        left = r.left;
        runs =
            then_done (attach_shares z h c.shares) _ (shares_of c.shares) w w
              (attach_shares_done c.shares w a)
            ∙ then_done (serial_console z h console) _ r.result w r.left r.runs;
      }

  -- In a directory that has its variable store and its machine identifier, and whose config.json
  -- names no share without a tag or a path, a framework that makes every part and validates every
  -- configuration gets the function to return a configuration, the one that the directory describes;
  -- its hardware address is then the one that mac.txt spells, if it spells one.
  pub build_returns :
      (dir console mid : Bytes) (graphics : Bool) (w : World)
      → missing (stat h (join dir (codes "nvram.bin")) w.tree) ≡ false
      → read_file h (join dir (codes "machine-id.bin")) w.tree ≡ ok mid
      → All IsComplete (read_config h dir w.tree).shares
      → (m : Machine) × (v : World) × (build z h dir console graphics w ≡ done m v)
        × IsBuilt z h dir console graphics w.tree (read_config h dir w.tree) m
        × (m.mac ≡ spelled (read_file h (join dir (codes "mac.txt")) w.tree))
  unfolding build build_with validated
  build_returns dir console mid graphics w there id all =
      let c : VmConfig = read_config h dir w.tree in
      let s = sources-Returns dir mid c w id in
      let d = devices-Returns console graphics c s.left all in
      let m = machine_of c s.result d.result in
      let e : build z h dir console graphics w ≡ done m d.left = rw there (
        then_done (sources z h false dir c) _ s.result w s.left s.runs
        ∙ (then_done (devices z h console graphics c) _ d.result s.left d.left d.runs
            ∙ (rw (willing.validates m d.left.tree) refl))) in
      let b = build-IsBuilt z h dir console graphics w d.left m there e in
      (m, d.left, e, b, willing-spelled z h _ w.tree m.mac willing b.mac)
