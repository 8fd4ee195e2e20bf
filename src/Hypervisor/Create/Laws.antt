-- ===== src/Hypervisor/Create/Laws.antt =====
-- builtin/hypervisor.go: what `CreateVM` leaves on the host.
use weft_driver_vz.Common.{ℕ, suc, ◌≡◌, ◌≢◌, none, [], ◌∷◌, Bytes, codes}
use weft_driver_vz.Golang.FilePath.{Place, join}
use weft_driver_vz.Golang.FilePath.Laws.{join-ne-nil}
use weft_driver_vz.Os.Tree.{folder, found, reach, max_links}
use weft_driver_vz.Os.Tree.Laws.{Extends, Extends-trans, reach_with-Extends}
use weft_driver_vz.Os.Calls.{Host, stat_call, at, mkdir_all}
use weft_driver_vz.Os.Calls.Laws.{stat-Extends}
use weft_driver_vz.Os.Calls.Folders.{mkdir_all-found, mkdir_all-again}
use weft_driver_vz.Os.World.{World, M, Outcome, done, fail, bind, bind-done, final}
use weft_driver_vz.Framework.{Framework, IsFramework}
use weft_driver_vz.Hypervisor.Create.{change, nvram, machine_id, mac_txt, create_in, create_vm}
use weft_driver_vz.Hypervisor.Create.Stages.{
  Exists, IsStage, change-done, nvram-IsStage, machine_id-IsStage, mac_txt-IsStage,
}

pub bind-Extends :
    {A B : Type 0} (w : World) (m : Outcome A) (g : A → M B)
    → Extends w.tree (final m).tree
    → ((a : A) (v : World) → Extends v.tree (final (g a v)).tree)
    → Extends w.tree (final (bind m g)).tree
bind-Extends w (done a v) g x y = Extends-trans w.tree v.tree _ x (y a v)
bind-Extends w (fail e v) g x y = x

Exists-Extends :
    (h : Host) (p : Bytes) (w w' : World) → Extends w.tree w'.tree → Exists h p w → Exists h p w'
Exists-Extends h p w w' x (n, q) = (n, stat-Extends h p w.tree w'.tree n x q)

final-done :
    {A : Type 0} (m : Outcome A) (a : A) (w w' : World)
    → m ≡ done a w'
    → Extends w.tree (final m).tree
    → Extends w.tree w'.tree
final-done m a w w' d x = rw d at x

-- The three files of a VM directory, and the directory.
pub record IsCreated (h : Host) (vm_dir : Bytes) (w : World) : Type 0 where
  pub directory : (j : Place) × (reach w.tree (at h vm_dir) ≡ found j folder)
  pub nvram : Exists h (join vm_dir (codes "nvram.bin")) w
  pub machine_id : Exists h (join vm_dir (codes "machine-id.bin")) w
  pub mac : Exists h (join vm_dir (codes "mac.txt")) w

module _ (f : Framework) (k : IsFramework f) (h : Host) (c : ℕ) (uuid : Bytes) where
  abbrev vm_dir : Bytes
  vm_dir = c ∷ uuid

  joined : (name : Bytes) → join vm_dir name ≢ []
  joined name = join-ne-nil vm_dir name (λ e. cc e)

  first : IsStage h (join vm_dir (codes "nvram.bin")) (nvram f h (join vm_dir (codes "nvram.bin")))
  first = nvram-IsStage f k h _ (joined (codes "nvram.bin"))

  second :
      IsStage h
        (join vm_dir (codes "machine-id.bin"))
        (machine_id f h (join vm_dir (codes "machine-id.bin")))
  second = machine_id-IsStage f h _

  third : IsStage h (join vm_dir (codes "mac.txt")) (mac_txt f h (join vm_dir (codes "mac.txt")))
  third = mac_txt-IsStage f h _

  create_in-IsCreated : (w w' : World) → create_in f h vm_dir w ≡ done tt w' → IsCreated h vm_dir w'
  unfolding create_in
  create_in-IsCreated w w' d =
      let (_, w1, d1, e1) =
        bind-done (change "CreateVM: mkdir" (mkdir_all h vm_dir w.tree) w) _ tt w' d in
      let (_, w2, d2, e2) = bind-done (nvram f h (join vm_dir (codes "nvram.bin")) w1) _ tt w' e1 in
      let (_, w3, d3, d4) =
        bind-done (machine_id f h (join vm_dir (codes "machine-id.bin")) w2) _ tt w' e2 in
      let x2 = final-done _ tt w1 w2 d2 (first.extends w1) in
      let x3 = final-done _ tt w2 w3 d3 (second.extends w2) in
      let x4 = final-done _ tt w3 w' d4 (third.extends w3) in
      let x24 = Extends-trans w2.tree w3.tree w'.tree x3 x4 in
      let (j, r) = mkdir_all-found h vm_dir w.tree w1.tree (change-done _ _ w w1 d1) in
      record {
        directory = (
          j,
          reach_with-Extends (suc max_links) w1.tree w'.tree (at h vm_dir) j folder
              (Extends-trans w1.tree w2.tree w'.tree x2 x24) r,
        );
        nvram = Exists-Extends h _ w2 w' x24 (first.there w1 w2 d2);
        machine_id = Exists-Extends h _ w3 w' x4 (second.there w2 w3 d3);
        mac = third.there w3 w' d4;
      }

  create_in-again :
      (w : World)
      → h.faults stat_call (at h vm_dir) ≡ none
      → IsCreated h vm_dir w
      → create_in f h vm_dir w ≡ done tt w
  unfolding create_in
  create_in-again w sees i =
      rw (mkdir_all-again h vm_dir i.directory.0 w.tree (λ e. cc e) sees i.directory.1) (
        unfold change in
        rw (first.again w i.nvram, second.again w i.machine_id) (third.again w i.mac))

module _ (f : Framework) (k : IsFramework f) (h : Host) where
  -- With a framework as `IsFramework` asks: when `CreateVM` succeeds, the VM directory is a folder,
  -- and the variable store, the machine identifier and the MAC address are found in it.
  pub create_vm-IsCreated :
      (uuid : Bytes) (w w' : World) → create_vm f h uuid w ≡ done tt w' → IsCreated h uuid w'
  unfolding create_vm
  create_vm-IsCreated [] w w' d = cc
  create_vm-IsCreated (c ∷ uuid) w w' d = create_in-IsCreated f k h c uuid w w' d

  -- With a framework as `IsFramework` asks, a second `CreateVM` after one that succeeded succeeds
  -- and changes nothing at all: it draws no new identifier and no new MAC address. The host must
  -- let the directory be looked at.
  pub create_vm_idempotent :
      (uuid : Bytes) (w w' : World)
      → h.faults stat_call (at h uuid) ≡ none
      → create_vm f h uuid w ≡ done tt w'
      → create_vm f h uuid w' ≡ done tt w'
  unfolding create_vm
  create_vm_idempotent [] w w' sees d = cc
  create_vm_idempotent (c ∷ uuid) w w' sees d =
      create_in-again f k h c uuid w' sees (create_in-IsCreated f k h c uuid w w' d)
