-- ===== src/Runner/Parts/Steps.antt =====
-- builtin/vmrun.go: what the steps of `buildVZConfigFromDir` return where they succeed. All but two of
-- them leave the world as it is.
use weft_driver_vz.Common.{
  String, ◌≡◌, ap, ◌∙◌, ◌≢◌, inl, inr, Bool, false, ◌&&◌, ◌||◌, Option, none, some, List, [], ◌∷◌,
  arith, if◌then◌else◌, Bool-cases, All, Bytes, codes, bytes_eq, bytes_eq_iff,
}
use weft_driver_vz.Golang.FilePath.{join}
use weft_driver_vz.Os.Tree.{Tree}
use weft_driver_vz.Os.Calls.{Host, Answer, ok, err, stat, read_file}
use weft_driver_vz.Os.World.{World, done, bind-done}
use weft_driver_vz.Runner.ConfigFile.{ShareSpec}
use weft_driver_vz.Runner.Machine.{Boot, efi, linux, Share, Part, Virtualization, linux_boot_loader}
use weft_driver_vz.Runner.Parts.{
  asked, found, when, ask, gets, command_line, efi_store_at, efi_loader, boot_loader, read_at,
  read_identifier, complete, attach_shares,
}

pub done_inj : {A : Type 0} (a b : A) (w v : World) → done a w ≡ done b v → (a ≡ b) × (w ≡ v)
done_inj a b w v e = (cc, cc)

abbrev pub share_of : ShareSpec → Share
share_of s = record { tag = s.tag; path = s.path; read_only = s.read_only }

abbrev pub shares_of : List ShareSpec → List Share
shares_of [] = []
shares_of (s ∷ ss) = share_of s ∷ shares_of ss

abbrev pub IsComplete : ShareSpec → Type 0
IsComplete s = (s.tag ≢ []) × (s.path ≢ [])

asked-done : (text : String) (o : Option Bytes) (w v : World) → asked text o w ≡ done tt v → w ≡ v
unfolding asked
asked-done text none w v d = cc
asked-done text (some e) w v d = cc

module _ (z : Virtualization) (h : Host) where
  pub ask-done : (text : String) (p : Part) (w v : World) → ask z h text p w ≡ done tt v → w ≡ v
  unfolding ask
  ask-done text p w v d = asked-done text (z.refusal p w.tree) w v d

  complete-done :
      (s : ShareSpec) (w v : World) → complete z h s w ≡ done tt v → IsComplete s × (w ≡ v)
  unfolding complete
  complete-done s w v d = elim (Bool-cases (bytes_eq s.tag [] || bytes_eq s.path [])) [
    | inl lacks ↦ let d' = rw lacks at d in cc d'
    | inr full ↦
        let d' = rw full at d in
        (ground (arith, bytes_eq_iff s.tag [], bytes_eq_iff s.path []), (done_inj tt tt w v d').1)
  ]

  pub attach_shares-done :
      (ss : List ShareSpec) (w v : World) (r : List Share)
      → attach_shares z h ss w ≡ done r v
      → (shares_of ss ≡ r) × All IsComplete ss × (w ≡ v)
  unfolding attach_shares
  attach_shares-done [] w v r d = let (e, q) = done_inj [] r w v d in (e, tt, q)
  attach_shares-done (s ∷ ss) w v r d =
      let (_, w1, d1, e1) = bind-done (complete z h s w) _ r v d in
      let (_, w2, d2, e2) = bind-done (ask z h _ _ w1) _ r v e1 in
      let (_, w3, d3, e3) = bind-done (ask z h _ _ w2) _ r v e2 in
      let (_, w4, d4, e4) = bind-done (ask z h _ _ w3) _ r v e3 in
      let (rest, w5, d5, e5) = bind-done (attach_shares z h ss w4) _ r v e4 in
      let (full, q1) = complete-done s w w1 d1 in
      let (a, all, q5) = attach_shares-done ss w4 w5 rest d5 in
      let (b, q6) = done_inj _ r w5 v e5 in
      (
        ap (λ l. share_of s ∷ l) a ∙ b,
        (full, all),
        q1
            ∙ (ask-done _ _ w1 w2 d2
                ∙ (ask-done _ _ w2 w3 d3 ∙ (ask-done _ _ w3 w4 d4 ∙ (q5 ∙ q6)))),
      )

  read_at-done :
      (text : String) (a : Answer Bytes) (w v : World) (b : Bytes)
      → read_at z h text a w ≡ done b v
      → (a ≡ ok b) × (w ≡ v)
  unfolding read_at
  read_at-done text (err e) w v b d = cc
  read_at-done text (ok c) w v b d = let (e, q) = done_inj c b w v d in (ap ok e, q)

  pub read_identifier-done :
      (dir : Bytes) (w v : World) (mid : Bytes)
      → read_identifier z h dir w ≡ done mid v
      → (read_file h (join dir (codes "machine-id.bin")) w.tree ≡ ok mid) × (w ≡ v)
  unfolding read_identifier
  read_identifier-done dir w v mid d =
      let (b, w1, d1, e1) =
        bind-done (read_at z h _ (read_file h (join dir (codes "machine-id.bin")) w.tree) w) _ mid v
          d in
      let (_, w2, d2, e2) = bind-done (ask z h _ _ w1) _ mid v e1 in
      let (_, w3, d3, e3) = bind-done (ask z h _ _ w2) _ mid v e2 in
      let (a, q) = read_at-done _ _ w w1 b d1 in
      let (e, q') = done_inj b mid w3 v e3 in
      (a ∙ ap ok e, q ∙ (ask-done _ _ w1 w2 d2 ∙ (ask-done _ _ w2 w3 d3 ∙ q')))

  efi_loader-done :
      (nvram : Bytes) (w v : World) (b : Boot)
      → efi_loader z h false nvram w ≡ done b v
      → (efi nvram ≡ b) × (w ≡ v)
  unfolding efi_loader efi_store_at
  efi_loader-done nvram w v b d =
      let (_, w1, d1, e1) = bind-done (ask z h _ _ w) _ b v d in
      let (_, w2, d2, e2) = bind-done (ask z h _ _ w1) _ b v e1 in
      let (e, q) = done_inj (efi nvram) b w2 v e2 in
      (e, ask-done _ _ w w1 d1 ∙ (ask-done _ _ w1 w2 d2 ∙ q))

  -- A kernel in the directory, with the command line and the RAM disk that go with it, or EFI.
  abbrev pub kernel_boot : Bytes → Bytes → Tree → Boot
  kernel_boot dir cmdline t =
      linux (join dir (codes "kernel")) (command_line cmdline)
        (when (found (stat h (join dir (codes "initrd")) t)) (join dir (codes "initrd")))

  abbrev pub boot_of : Bool → Bytes → Bytes → Tree → Boot
  boot_of direct dir cmdline t =
      if direct then kernel_boot dir cmdline t else efi (join dir (codes "nvram.bin"))

  abbrev pub is_direct : Bytes → Bytes → Tree → Bool
  is_direct dir cmdline t =
      found (stat h (join dir (codes "kernel")) t)
      && gets z h
          (linux_boot_loader (join dir (codes "kernel")) (command_line cmdline)
            (when (found (stat h (join dir (codes "initrd")) t)) (join dir (codes "initrd"))))
          t

  pub boot_loader-done :
      (dir cmdline : Bytes) (w v : World) (b : Boot)
      → boot_loader z h false dir cmdline w ≡ done b v
      → (boot_of (is_direct dir cmdline w.tree) dir cmdline w.tree ≡ b) × (w ≡ v)
  unfolding boot_loader
  boot_loader-done dir cmdline w v b d = elim (Bool-cases (is_direct dir cmdline w.tree)) [
    | inl e ↦ let d' = rw e at d in rw e (done_inj _ b w v d')
    | inr e ↦ let d' = rw e at d in rw e (efi_loader-done _ w v b d')
  ]
