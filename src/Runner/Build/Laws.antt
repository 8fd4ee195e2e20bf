-- ===== src/Runner/Build/Laws.antt =====
-- builtin/vmrun.go: the configuration that `buildVZConfigFromDir` gives, against a description of it.
use weft_driver_vz.Common.{
  ℕ, ◌+◌, ◌*◌, ◌%◌, ◌^◌, ◌≤◌, ◌<◌, ◌≡◌, refl, sym, ap, ◌∙◌, subst, ◌⊎◌, inl, inr, Bool, true, false,
  ◌&&◌, Option, none, some, List, arith, ◌==◌, if◌then◌else◌, ==_iff, Bool-cases, Bytes, codes,
}
use weft_driver_vz.Golang.FilePath.{join}
use weft_driver_vz.Os.Tree.{Tree}
use weft_driver_vz.Os.Calls.{Host, ok, at, stat, read_file}
use weft_driver_vz.Os.World.{World, done, bind-done}
use weft_driver_vz.Runner.ConfigFile.{VmConfig, read_config}
use weft_driver_vz.Framework.{Stored, stored, spoiled, stored_tree}
use weft_driver_vz.Runner.Machine.{
  Boot, Disk, Machine, keyboard_device, pointing_device, entropy_device, socket_device, serial_port,
  graphics_device, scanout, Virtualization,
}
use weft_driver_vz.Runner.Parts.{
  missing, ask, gets, boot_loader, given, when, serial_at, read_identifier, storage_devices,
  network, offered, attach_shares, serial_console, screen, screen_of, input, validated,
}
use weft_driver_vz.Runner.Build.{
  cpu_count, memory_bytes, Sources, Devices, machine_of, sources, devices, build_with, build,
}
use weft_driver_vz.Runner.Parts.Booting.{boot_of-booted}
use weft_driver_vz.Runner.Parts.Steps.{
  done_inj, ask-done, boot_of, is_direct, boot_loader-done, read_identifier-done,
  attach_shares-done,
}
use weft_driver_vz.Runner.Parts.Address.{IsRead, network-done}
use weft_driver_vz.Runner.Parts.Disks.{storage_devices-done}
use weft_driver_vz.Runner.Build.Described.{
  disks_of, serial_of, screen_in, AreDescribed, AreAttached, IsBuilt,
}

when-if : {A : Type 0} (b : Bool) (a : A) → when b a ≡ (if b then some a else none)
when-if true a = refl
when-if false a = refl

module _ (z : Virtualization) (h : Host) where
  validated-done : (m r : Machine) (w v : World) → validated z h m w ≡ done r v → m ≡ r
  unfolding validated
  validated-done m r w v d = elim (Bool-cases (z.valid m w.tree)) [
    | inl e ↦ let d' = rw e at d in (done_inj m r w v d').0
    | inr e ↦ let d' = rw e at d in cc d'
  ]

  headless_lem :
      (g : Bool) (t : Tree) (m : Machine)
      → m.screen ≡ screen_in z g t
      → m.keyboard ≡ (g && given (z.refusal keyboard_device t))
      → m.pointer ≡ (g && given (z.refusal pointing_device t))
      → (g ≡ true) ⊎ ((m.screen ≡ none) × (m.keyboard ≡ false) × (m.pointer ≡ false))
  headless_lem true t m s k p = inl refl
  headless_lem false t m s k p = inr (s, k, p)

  screen_of-screen_in : (g : Bool) (t : Tree) → screen_of z h g t ≡ screen_in z g t
  unfolding screen_of
  screen_of-screen_in g t =
      when-if (g && (gets z h graphics_device t && gets z h (scanout 1280 800) t)) _

  -- The log is opened, and what is left of the tree.
  serial_at-done :
      (console : Bytes) (o : Stored) (w v : World) (r : Option Bytes)
      → serial_at z h console o w ≡ done r v
      → (r ≡ serial_of z console o) × (v.tree ≡ stored_tree o)
  unfolding serial_at
  serial_at-done console (stored t) w v r d =
      let (a, b) = done_inj _ r _ v d in
      (
        sym a ∙ when-if (gets z h (serial_port console) t) console,
        sym (ap (λ (x : World). x.tree) b),
      )
  serial_at-done console (spoiled e t) w v r d =
      let (a, b) = done_inj _ r _ v d in (sym a, sym (ap (λ (x : World). x.tree) b))

  sources_same :
      (dir : Bytes) (c : VmConfig) (w w1 w2 w3 w4 w5 v : World) (s : Sources) (boot : Boot)
      (mid : Bytes) (disks : List Disk) (mac : Option Bytes)
      → (boot_of z h (is_direct z h dir c.cmdline w.tree) dir c.cmdline w.tree ≡ boot) × (w ≡ w1)
      → (read_file h (join dir (codes "machine-id.bin")) w1.tree ≡ ok mid) × (w1 ≡ w2)
      → (disks_of h dir c.data_disks w2.tree ≡ disks) × (w2 ≡ w3)
      → IsRead z h (read_file h (join dir (codes "mac.txt")) w3.tree) w3.tree mac × (w3 ≡ w4)
      → w4 ≡ w5
      → (record { boot = boot; identifier = mid; storage = disks; mac = mac } ≡ s) × (w5 ≡ v)
      → AreDescribed z h dir w.tree c s × (w ≡ v)
  sources_same dir c w w1 w2 w3 w4 w5 v s boot mid disks mac (a, p) (b, q) (e, r) (f, x) y (k, o) =
      (
        subst (AreDescribed z h dir w.tree c) k (record {
          boot = sym a ∙ boot_of-booted z h dir c.cmdline w.tree;
          identifier =
              subst (λ (u : World). read_file h (join dir (codes "machine-id.bin")) u.tree ≡ ok mid)
                (sym p) b;
          storage =
              subst (λ (u : World). disks ≡ disks_of h dir c.data_disks u.tree) (sym (p ∙ q))
                (sym e);
          mac =
              subst
                (λ (u : World).
                  IsRead z h (read_file h (join dir (codes "mac.txt")) u.tree) u.tree mac)
                (sym (p ∙ (q ∙ r))) f;
        }),
        p ∙ (q ∙ (r ∙ (x ∙ (y ∙ o)))),
      )

  sources-done :
      (dir : Bytes) (c : VmConfig) (w v : World) (s : Sources)
      → sources z h false dir c w ≡ done s v
      → AreDescribed z h dir w.tree c s × (w ≡ v)
  unfolding sources
  sources-done dir c w v s d =
      let (boot, w1, d1, e1) = bind-done (boot_loader z h false dir c.cmdline w) _ s v d in
      let (mid, w2, d2, e2) = bind-done (read_identifier z h dir w1) _ s v e1 in
      let (disks, w3, d3, e3) = bind-done (storage_devices z h dir c.data_disks w2) _ s v e2 in
      let (mac, w4, d4, e4) = bind-done (network z h dir w3) _ s v e3 in
      let (_, w5, d5, e5) = bind-done (ask z h _ _ w4) _ s v e4 in
      sources_same dir c w w1 w2 w3 w4 w5 v s boot mid disks mac
        (boot_loader-done z h dir c.cmdline w w1 boot d1)
        (read_identifier-done z h dir w1 w2 mid d2)
        (storage_devices-done z h dir c.data_disks w2 w3 disks d3)
        (network-done z h dir w3 w4 mac d4) (ask-done z h _ _ w4 w5 d5) (done_inj _ s w5 v e5)

  devices-done :
      (console : Bytes) (graphics : Bool) (c : VmConfig) (w v : World) (r : Devices)
      → devices z h console graphics c w ≡ done r v
      → AreAttached z h console graphics w.tree c r
  unfolding devices offered screen input serial_console
  devices-done console graphics c w v r d =
      let (shares, u, d1, e1) = bind-done (attach_shares z h c.shares w) _ r v d in
      let (serial, x, d2, e2) = bind-done (serial_console z h console u) _ r v e1 in
      let (a, all, q) = attach_shares-done z h c.shares w u shares d1 in
      let (b, y) =
        serial_at-done console (z.serial_attachment true (at h console) u.tree) u x serial d2 in
      subst (λ (k : Tree). AreAttached z h console graphics k c r)
        (sym (ap (λ (k : World). k.tree) q))
        (subst (AreAttached z h console graphics u.tree c) (done_inj _ r x v e2).0 (record {
          entropy = ap (λ (k : World). given (z.refusal entropy_device k.tree)) q;
          socket = ap (λ (k : World). given (z.refusal socket_device k.tree)) q;
          shares = sym a;
          complete = all;
          serial = b;
          screen = screen_of-screen_in graphics x.tree ∙ ap (screen_in z graphics) y;
          keyboard = ap (λ k. graphics && given (z.refusal keyboard_device k)) y;
          pointer = ap (λ k. graphics && given (z.refusal pointing_device k)) y;
        }))

  described :
      (dir console : Bytes) (graphics : Bool) (t : Tree) (c : VmConfig) (s : Sources) (r : Devices)
      → AreDescribed z h dir t c s
      → AreAttached z h console graphics t c r
      → IsBuilt z h dir console graphics t c (machine_of c s r)
  unfolding cpu_count
  described dir console graphics t c s r f g = record {
    boot = f.boot;
    cpu = refl;
    memory = refl;
    identifier = f.identifier;
    storage = f.storage;
    mac = f.mac;
    entropy = g.entropy;
    socket = g.socket;
    shares = g.shares;
    complete = g.complete;
    serial = g.serial;
    screen = g.screen;
    keyboard = g.keyboard;
    pointer = g.pointer;
    headless =
        headless_lem graphics (stored_tree (z.serial_attachment true (at h console) t))
          (machine_of c s r) g.screen g.keyboard g.pointer;
  }

  -- In a directory that has its variable store, a configuration that the function returns is the one
  -- that its files describe: boot loader, CPUs, memory, identifier, the disks in order and which of
  -- them are read-only, the shares, each of which has a tag and a path. The hardware address is set
  -- where mac.txt spells one that the framework takes, and otherwise left out. The log's port, and
  -- with graphics the screen and the input devices, are there as far as the framework makes them;
  -- without graphics it has no screen and no input devices.
  pub build-IsBuilt :
      (dir console : Bytes) (graphics : Bool) (w v : World) (m : Machine)
      → missing (stat h (join dir (codes "nvram.bin")) w.tree) ≡ false
      → build z h dir console graphics w ≡ done m v
      → IsBuilt z h dir console graphics w.tree (read_config h dir w.tree) m
  unfolding build build_with
  build-IsBuilt dir console graphics w v m there d =
      let c : VmConfig = read_config h dir w.tree in
      let d' = rw there at d in
      let (s, u, d1, e1) = bind-done (sources z h false dir c w) _ m v d' in
      let (r, x, d2, e2) = bind-done (devices z h console graphics c u) _ m v e1 in
      let (f, q) = sources-done dir c w u s d1 in
      let g =
        subst (λ (k : World). AreAttached z h console graphics k.tree c r) (sym q)
          (devices-done console graphics c u x r d2) in
      subst (IsBuilt z h dir console graphics w.tree c) (validated-done (machine_of c s r) m x v e2)
        (described dir console graphics w.tree c s r f g)

memory_cases :
    (gib : ℕ) → (gib ≡ 0) ⊎ ((0 < gib) × (memory_bytes gib ≡ (gib * 1024 * 1024 * 1024) % 2 ^ 64))
unfolding memory_bytes
memory_cases gib = elim (Bool-cases (gib == 0)) [
  | inl e ↦ inl ((==_iff gib 0).0 e)
  | inr e ↦ inr (ground arith, rw e refl)
]

none_is_two : memory_bytes 0 ≡ 2 * 2 ^ 30
unfolding memory_bytes
none_is_two = refl

-- A number of GiB from 1 to 2^34 - 1 is exact in bytes, and 0 or none counts as 2; so a machine has
-- at least 1 GiB. From 2^34 on the bytes wrap around in their 64 bits.
pub memory_bytes_exact :
    (gib : ℕ)
    → gib < 2 ^ 34
    → (((gib ≡ 0) × (memory_bytes gib ≡ 2 * 2 ^ 30)) ⊎ (memory_bytes gib ≡ gib * 2 ^ 30))
      × (2 ^ 30 ≤ memory_bytes gib)
      × (memory_bytes gib < 2 ^ 64)
      × (memory_bytes (2 ^ 34 + gib) ≡ gib * 2 ^ 30)
memory_bytes_exact gib small = elim (memory_cases (2 ^ 34 + gib)) [
  | inl e ↦ absurd (omega arith)
  | inr (_, e) ↦ elim (memory_cases gib) [
    | inl z ↦
        let f : memory_bytes gib ≡ 2 * 2 ^ 30 =
          subst (λ (n : ℕ). memory_bytes n ≡ 2 * 2 ^ 30) (sym z) none_is_two in
        (inl (z, f), omega arith, omega arith, omega arith)
    | inr (p, f) ↦ (inr (omega arith), omega arith, omega arith, omega arith)
  ]
]
