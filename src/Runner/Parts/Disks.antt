-- ===== src/Runner/Parts/Disks.antt =====
-- builtin/vmrun.go: the disks that `buildVZConfigFromDir` attaches.
use weft_driver_vz.Common.{
  String, ◌≡◌, refl, sym, ap, ◌∙◌, Bool, true, false, Option, none, some, List, [], ◌∷◌, ◌++◌,
  if◌then◌else◌, Bytes, codes,
}
use weft_driver_vz.Golang.FilePath.{join}
use weft_driver_vz.Os.Tree.{Tree, Node}
use weft_driver_vz.Provision.{abs_path}
use weft_driver_vz.Os.Calls.{Host, Answer, ok, err, stat}
use weft_driver_vz.Os.World.{World, done, bind-done}
use weft_driver_vz.Runner.Machine.{Disk, Virtualization}
use weft_driver_vz.Runner.Parts.{
  found, when, ask, attach, primary_disk, attach_primary, attach_data, attach_seed, seed_disk,
  storage_devices,
}
use weft_driver_vz.Runner.Parts.Steps.{done_inj, ask-done}

abbrev pub list_of : Option Disk → List Disk
list_of none = []
list_of (some d) = d ∷ []

abbrev pub is_there : Answer Node → Bool
is_there (ok n) = true
is_there (err e) = false

abbrev pub data_disks : Bytes → List Bytes → List Disk
data_disks dir [] = []
data_disks dir (name ∷ names) =
    record { path = join dir name; read_only = false } ∷ data_disks dir names

-- The disk that a directory has: `disk.img` to write to, or else `boot.iso` to read, or none.
abbrev pub primary_of : Host → Bytes → Tree → List Disk
primary_of h dir t =
    let disk = abs_path h (join dir (codes "disk.img")) in
    let iso = abs_path h (join dir (codes "boot.iso")) in
    if is_there (stat h disk t)
    then record { path = disk; read_only = false } ∷ []
    else if is_there (stat h iso t)
    then record { path = iso; read_only = true } ∷ []
    else []

-- The seed, to read.
abbrev pub seed_of : Host → Bytes → Tree → List Disk
seed_of h dir t =
    let iso = join dir (codes "cloud-init.iso") in
    if is_there (stat h iso t) then record { path = iso; read_only = true } ∷ [] else []

when_iso :
    (p : Bytes) (a : Answer Node)
    → list_of (when (found a) (record { path = p; read_only = true }))
      ≡ (if is_there a then record { path = p; read_only = true } ∷ [] else [])
when_iso p (ok n) = refl
when_iso p (err e) = refl

when_there :
    (p q : Bytes) (a b : Answer Node)
    → list_of (
        if found a
        then some (record { path = p; read_only = false })
        else when (found b) (record { path = q; read_only = true }))
      ≡ (if is_there a
          then record { path = p; read_only = false } ∷ []
          else if is_there b
          then record { path = q; read_only = true } ∷ []
          else [])
when_there p q (ok n) b = refl
when_there p q (err e) b = when_iso q b

module _ (z : Virtualization) (h : Host) where
  attach-done : (s t : String) (k : Disk) (w v : World) → attach z h s t k w ≡ done tt v → w ≡ v
  unfolding attach
  attach-done s t k w v d =
      let (_, u, d1, d2) = bind-done (ask z h s _ w) _ tt v d in
      ask-done z h s _ w u d1 ∙ ask-done z h t _ u v d2

  attach_primary-done :
      (o : Option Disk) (w v : World) (ds : List Disk)
      → attach_primary z h o w ≡ done ds v
      → (list_of o ≡ ds) × (w ≡ v)
  unfolding attach_primary
  attach_primary-done none w v ds d = done_inj [] ds w v d
  attach_primary-done (some k) w v ds d =
      let (_, u, d1, d2) = bind-done (attach z h _ _ k w) _ ds v d in
      let (e, q) = done_inj (k ∷ []) ds u v d2 in (e, attach-done _ _ k w u d1 ∙ q)

  attach_seed-done :
      (o : Option Disk) (w v : World) (ds : List Disk)
      → attach_seed z h o w ≡ done ds v
      → (list_of o ≡ ds) × (w ≡ v)
  unfolding attach_seed
  attach_seed-done none w v ds d = done_inj [] ds w v d
  attach_seed-done (some k) w v ds d =
      let (_, u, d1, d2) = bind-done (attach z h _ _ k w) _ ds v d in
      let (e, q) = done_inj (k ∷ []) ds u v d2 in (e, attach-done _ _ k w u d1 ∙ q)

  attach_data-done :
      (dir : Bytes) (names : List Bytes) (w v : World) (ds : List Disk)
      → attach_data z h dir names w ≡ done ds v
      → (data_disks dir names ≡ ds) × (w ≡ v)
  unfolding attach_data
  attach_data-done dir [] w v ds d = done_inj [] ds w v d
  attach_data-done dir (name ∷ names) w v ds d =
      let k : Disk = record { path = join dir name; read_only = false } in
      let (_, u, d1, d2) = bind-done (attach z h _ _ k w) _ ds v d in
      let (rest, x, d3, d4) = bind-done (attach_data z h dir names u) _ ds v d2 in
      let (e, q) = attach_data-done dir names u x rest d3 in
      let (e', q') = done_inj (k ∷ rest) ds x v d4 in
      (ap (λ l. k ∷ l) e ∙ e', attach-done _ _ k w u d1 ∙ (q ∙ q'))

  pub primary_disk-primary_of :
      (dir : Bytes) (t : Tree) → list_of (primary_disk z h dir t) ≡ primary_of h dir t
  unfolding primary_disk
  primary_disk-primary_of dir t =
      let disk = abs_path h (join dir (codes "disk.img")) in
      let iso = abs_path h (join dir (codes "boot.iso")) in
      when_there disk iso (stat h disk t) (stat h iso t)

  pub seed_disk-seed_of : (dir : Bytes) (t : Tree) → list_of (seed_disk z h dir t) ≡ seed_of h dir t
  unfolding seed_disk
  seed_disk-seed_of dir t =
      let iso = join dir (codes "cloud-init.iso") in when_iso iso (stat h iso t)

  pub storage_devices-done :
      (dir : Bytes) (names : List Bytes) (w v : World) (ds : List Disk)
      → storage_devices z h dir names w ≡ done ds v
      → (primary_of h dir w.tree ++ (data_disks dir names ++ seed_of h dir w.tree) ≡ ds) × (w ≡ v)
  unfolding storage_devices
  storage_devices-done dir names w v ds d =
      let (p, u, d1, e1) =
        bind-done (attach_primary z h (primary_disk z h dir w.tree) w) _ ds v d in
      let (x, y, d2, e2) = bind-done (attach_data z h dir names u) _ ds v e1 in
      let (s, y', d3, e3) = bind-done (attach_seed z h (seed_disk z h dir y.tree) y) _ ds v e2 in
      let (a1, q1) = attach_primary-done _ w u p d1 in
      let (a2, q2) = attach_data-done dir names u y x d2 in
      let (a3, q3) = attach_seed-done _ y y' s d3 in
      let (a4, q4) = done_inj _ ds y' v e3 in
      (
        rw
            (
              sym (primary_disk-primary_of dir w.tree),
              sym (seed_disk-seed_of dir w.tree),
              a1,
              a2,
              ap (λ (o : World). o.tree) (q1 ∙ q2),
              a3,
            )
            a4,
        q1 ∙ (q2 ∙ (q3 ∙ q4)),
      )
