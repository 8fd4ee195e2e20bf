-- ===== src/Runner/Parts/Address.antt =====
-- builtin/vmrun.go: the hardware address that `buildVZConfigFromDir` sets.
use weft_driver_vz.Common.{
  ◌≡◌, refl, sym, ◌∙◌, subst, ◌≢◌, ◌⊎◌, inl, inr, true, false, not, Option, none, some, Bool-cases,
  Bytes, codes,
}
use weft_driver_vz.Golang.FilePath.{join}
use weft_driver_vz.Golang.Strings.{trim_space}
use weft_driver_vz.Golang.Net.{parse_mac}
use weft_driver_vz.Os.Tree.{Tree, Errno}
use weft_driver_vz.Os.Calls.{Host, Answer, ok, err, read_file}
use weft_driver_vz.Os.World.{World, done, bind-done}
use weft_driver_vz.Runner.Machine.{Virtualization, mac_address}
use weft_driver_vz.Runner.Parts.{given, ask, gets, accepted_mac, mac_of, network}
use weft_driver_vz.Runner.Parts.Steps.{done_inj, ask-done}

module _ (z : Virtualization) (h : Host) where
  -- The address that goes with what reading the file gave: one that its text spells and the framework
  -- takes is set, and none is set only if the file was not read, its text spells none, or the
  -- framework refuses the one that it spells.
  abbrev pub IsRead : Answer Bytes → Tree → Option Bytes → Type 0
  IsRead a t (some hw) =
      (text : Bytes) × (a ≡ ok text)
      × (parse_mac (trim_space text) ≡ some hw)
      × (z.refusal (mac_address hw) t ≡ none)
  IsRead a t none =
      ((e : Errno) × (a ≡ err e))
      ⊎ ((text : Bytes) × (a ≡ ok text)
          × ((parse_mac (trim_space text) ≡ none)
              ⊎ ((hw : Bytes) × (parse_mac (trim_space text) ≡ some hw)
                  × (z.refusal (mac_address hw) t ≢ none))))

  given-none : (o : Option Bytes) → given o ≡ true → o ≡ none
  unfolding given
  given-none none e = refl
  given-none (some b) e = cc e

  given-some : (o : Option Bytes) → given o ≡ false → o ≢ none
  unfolding given
  given-some none e = λ _. cc e
  given-some (some b) e = λ q. cc q

  accepted_mac-IsRead :
      (o : Option Bytes) (t : Tree) (text : Bytes)
      → parse_mac (trim_space text) ≡ o
      → IsRead (ok text) t (accepted_mac z h o t)
  unfolding accepted_mac
  accepted_mac-IsRead none t text e = inr (text, refl, inl e)
  accepted_mac-IsRead (some hw) t text e = elim (Bool-cases (gets z h (mac_address hw) t)) [
    | inl takes ↦ rw takes (text, refl, e, given-none _ takes)
    | inr not ↦ rw not (inr (text, refl, inr (hw, e, given-some _ not)))
  ]

  mac_of-IsRead : (a : Answer Bytes) (t : Tree) → IsRead a t (mac_of z h a t)
  unfolding mac_of
  mac_of-IsRead (err e) t = inl (e, refl)
  mac_of-IsRead (ok text) t = accepted_mac-IsRead (parse_mac (trim_space text)) t text refl

  pub network-done :
      (dir : Bytes) (w v : World) (mac : Option Bytes)
      → network z h dir w ≡ done mac v
      → IsRead (read_file h (join dir (codes "mac.txt")) w.tree) w.tree mac × (w ≡ v)
  unfolding network
  network-done dir w v mac d =
      let (_, w1, d1, e1) = bind-done (ask z h _ _ w) _ mac v d in
      let (_, w2, d2, e2) = bind-done (ask z h _ _ w1) _ mac v e1 in
      let (e, q) = done_inj _ mac w2 v e2 in
      let same = ask-done z h _ _ w w1 d1 ∙ ask-done z h _ _ w1 w2 d2 in
      (
        subst (λ (x : World). IsRead (read_file h (join dir (codes "mac.txt")) x.tree) x.tree mac)
            (sym same)
            (subst (IsRead _ _) e
              (mac_of-IsRead (read_file h (join dir (codes "mac.txt")) w2.tree) w2.tree)),
        same ∙ q,
      )
