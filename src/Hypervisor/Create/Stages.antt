-- ===== src/Hypervisor/Create/Stages.antt =====
-- builtin/hypervisor.go: the three stages of `CreateVM` that make a file unless it is there.
use weft_driver_vz.Common.{
  ℕ, ◌+◌, String, ◌≡◌, refl, ap, ◌≢◌, inl, inr, true, [], arith, Bool-cases, Bytes,
}
use weft_driver_vz.Os.Tree.{Node, file, Errno, enoent, is_not_exist}
use weft_driver_vz.Os.Tree.Laws.{Extends, Extends-refl}
use weft_driver_vz.Os.Calls.{Host, Answer, ok, err, Change, did, broke, at, stat, write_file}
use weft_driver_vz.Os.Calls.Laws.{left, write_file-Created, stat-file}
use weft_driver_vz.Os.Calls.Writing.{write_file-Extends}
use weft_driver_vz.Os.World.{World, M, done, bind, final, ◌>>=◌}
use weft_driver_vz.Framework.{
  Framework, IsFramework, Made, made, refused, Stored, stored, spoiled, stored_tree,
}
use weft_driver_vz.Hypervisor.Create.{
  change, store, drawn, draw, ensure, make_nvram, make_machine_id, make_mac, nvram, machine_id,
  mac_txt,
}

-- `Stat` finds something at a path.
abbrev pub Exists : Host → Bytes → World → Type 0
Exists h p w = (n : Node) × (stat h p w.tree ≡ ok n)

-- What an action that makes a file must do where the file is missing.
pub record IsMaker (h : Host) (p : Bytes) (make : M (Unit {0})) : Type 0 where
  extends : (w : World) → stat h p w.tree ≡ err enoent → Extends w.tree (final (make w)).tree
  makes : (w w' : World) → stat h p w.tree ≡ err enoent → make w ≡ done tt w' → Exists h p w'

-- A stage loses nothing, leaves its file there when it succeeds, and leaves a file alone that is
-- there.
pub record IsStage (h : Host) (p : Bytes) (stage : M (Unit {0})) : Type 0 where
  pub extends : (w : World) → Extends w.tree (final (stage w)).tree
  pub there : (w w' : World) → stage w ≡ done tt w' → Exists h p w'
  pub again : (w : World) → Exists h p w → stage w ≡ done tt w

pub is_not_exist_lem : (e : Errno) → is_not_exist e ≡ true → e ≡ enoent
is_not_exist_lem e h = ground arith

module _ (h : Host) (p : Bytes) (text : String) (make : M (Unit {0})) (k : IsMaker h p make) where
  abbrev stage : M (Unit {0})
  stage w = ensure text make (stat h p w.tree) w

  ensure-Extends :
      (w : World) (a : Answer Node)
      → stat h p w.tree ≡ a
      → Extends w.tree (final (ensure text make a w)).tree
  unfolding ensure
  ensure-Extends w (ok n) q = Extends-refl w.tree
  ensure-Extends w (err e) q = elim (Bool-cases (is_not_exist e)) [
    | inl missing ↦ rw missing (k.extends w (rw (is_not_exist_lem e missing) at q))
    | inr other ↦ rw other (Extends-refl w.tree)
  ]

  ensure-there :
      (w w' : World) (a : Answer Node)
      → stat h p w.tree ≡ a
      → ensure text make a w ≡ done tt w'
      → Exists h p w'
  unfolding ensure
  ensure-there w w' (ok n) q d = let e : w ≡ w' = cc in (n, rw (← e) q)
  ensure-there w w' (err e) q d = elim (Bool-cases (is_not_exist e)) [
    | inl missing ↦ k.makes w w' (rw (is_not_exist_lem e missing) at q) (rw missing at d)
    | inr other ↦ let d' = rw other at d in cc d'
  ]

  ensure-IsStage : IsStage h p stage
  ensure-IsStage = record {
    extends = λ w. ensure-Extends w (stat h p w.tree) refl;
    there = λ w w' d. ensure-there w w' (stat h p w.tree) refl d;
    again = λ w (n, q). rw q (unfold ensure in refl);
  }

pub change-Extends :
    (text : String) (c : Change) (w : World)
    → Extends w.tree (left c)
    → Extends w.tree (final (change text c w)).tree
unfolding change
change-Extends text (did t) w x = x
change-Extends text (broke e t) w x = x

pub change-done :
    (text : String) (c : Change) (w w' : World) → change text c w ≡ done tt w' → c ≡ did w'.tree
unfolding change
change-done text (did t) w w' d =
    let e : record w { tree = t } ≡ w' = cc in ap (λ (v : World). did v.tree) e
change-done text (broke e t) w w' d = cc

pub store-Extends :
    (text : String) (s : Stored) (w : World)
    → Extends w.tree (stored_tree s)
    → Extends w.tree (final (store text s w)).tree
unfolding store
store-Extends text (stored t) w x = x
store-Extends text (spoiled e t) w x = x

pub store-done :
    (text : String) (s : Stored) (w w' : World) → store text s w ≡ done tt w' → s ≡ stored w'.tree
unfolding store
store-done text (stored t) w w' d =
    let e : record w { tree = t } ≡ w' = cc in ap (λ (v : World). stored v.tree) e
store-done text (spoiled e t) w w' d = cc

module _ (f : Framework) (k : IsFramework f) (h : Host) (p : Bytes) (named : p ≢ []) where
  make_nvram-IsMaker : IsMaker h p (make_nvram f h p)
  unfolding make_nvram
  make_nvram-IsMaker = record {
    extends = λ w missing. store-Extends _ _ w (k.store_keeps (at h p) w.tree);
    makes = λ w w' missing d.
        let (b, n, way) = k.store_makes (at h p) w.tree w'.tree (store-done _ _ w w' d) in
        (file b, stat-file h p w.tree w'.tree b named missing way n);
  }

  pub nvram-IsStage : IsStage h p (nvram f h p)
  unfolding nvram
  nvram-IsStage = ensure-IsStage h p _ _ make_nvram-IsMaker

-- A value is drawn, then written.
module _ (h : Host) (p : Bytes) (text : String) (value : ℕ → Made Bytes) (text' : String) where
  abbrev draw_and_write : M (Unit {0})
  draw_and_write = do b ← draw text value; λ w. change text' (write_file h p b w.tree) w

  drawn-Extends :
      (m : Made Bytes) (w : World)
      → stat h p w.tree ≡ err enoent
      → Extends w.tree
          (final (bind (drawn text m w) (λ b w. change text' (write_file h p b w.tree) w))).tree
  unfolding drawn
  drawn-Extends (made b) w missing =
      change-Extends text' _ w (write_file-Extends h p b w.tree missing)
  drawn-Extends (refused e) w missing = Extends-refl w.tree

  drawn-makes :
      (m : Made Bytes) (w w' : World)
      → stat h p w.tree ≡ err enoent
      → bind (drawn text m w) (λ b w. change text' (write_file h p b w.tree) w) ≡ done tt w'
      → Exists h p w'
  unfolding drawn
  drawn-makes (made b) w w' missing d =
      let c = write_file-Created h p b w.tree w'.tree missing (change-done text' _ w w' d) in
      (file c.content, c.there)
  drawn-makes (refused e) w w' missing d = cc

  draw_and_write-IsMaker : IsMaker h p draw_and_write
  unfolding draw
  draw_and_write-IsMaker = record {
    extends = λ w missing. drawn-Extends (value w.draws) (record w { draws = w.draws + 1 }) missing;
    makes = λ w w' missing d.
        drawn-makes (value w.draws) (record w { draws = w.draws + 1 }) w' missing d;
  }

module _ (f : Framework) (h : Host) (p : Bytes) where
  pub machine_id-IsStage : IsStage h p (machine_id f h p)
  unfolding machine_id make_machine_id
  machine_id-IsStage = ensure-IsStage h p _ _ (draw_and_write-IsMaker h p _ _ _)

  pub mac_txt-IsStage : IsStage h p (mac_txt f h p)
  unfolding mac_txt make_mac
  mac_txt-IsStage = ensure-IsStage h p _ _ (draw_and_write-IsMaker h p _ _ _)
