-- ===== src/Os/Tree/Kinds.antt =====
-- What a path finds, it finds again where nothing but the content of files has changed.
use weft_driver_vz.Common.{
  ℕ, zero, suc, ◌≡◌, refl, ◌∙◌, inl, inr, Option, none, some, Bool-cases, Bytes,
}
use weft_driver_vz.Golang.FilePath.{Place}
use weft_driver_vz.Os.Tree.{
  Node, file, folder, link, Tree, Errno, place_eq, place_eq_iff, node, write, way_error, Reached,
  found, reach_at, reach_with,
}
use weft_driver_vz.Os.Tree.Overwrite.{HasWays, target, way_error-HasWays, write-HasWays, write_spot}

-- `t'` has the folders, the links and, whatever they hold, the files of `t`.
pub record HasKinds (t t' : Tree) : Type 0 where
  pub ways : HasWays t t'
  pub files :
      (k : Place) (b : Bytes) → node t k ≡ some (file b) → (c : Bytes) × (node t' k ≡ some (file c))

reach_at-found :
    (loop loop' : Place → Reached) (e e' : Option Errno) (n n' : Option Node) (k j : Place)
    (m : Node)
    → ((i : Place) → loop i ≡ found j m → (m' : Node) × (loop' i ≡ found j m'))
    → (e ≡ none → e' ≡ none)
    → ((i : Place) → n ≡ some (link i) → n' ≡ some (link i))
    → (n ≡ some folder → n' ≡ some folder)
    → ((b : Bytes) → n ≡ some (file b) → (c : Bytes) × (n' ≡ some (file c)))
    → reach_at loop e n k ≡ found j m
    → (m' : Node) × (reach_at loop' e' n' k ≡ found j m')
unfolding reach_at
reach_at-found loop loop' (some e) e' n n' k j m l p q r f h = cc
reach_at-found loop loop' none e' none n' k j m l p q r f h = cc
reach_at-found loop loop' none e' (some (link i)) n' k j m l p q r f h =
    rw (p refl, q i refl) (l i h)
reach_at-found loop loop' none e' (some (file b)) n' k j m l p q r f h =
    let (c, y) = f b refl in rw (p refl, y) (file c, cc)
reach_at-found loop loop' none e' (some folder) n' k j m l p q r f h =
    rw (p refl, r refl) (folder, cc)

pub reach_with-HasKinds :
    (fuel : ℕ) (t t' : Tree) (k j : Place) (m : Node)
    → HasKinds t t'
    → reach_with fuel t k ≡ found j m
    → (m' : Node) × (reach_with fuel t' k ≡ found j m')
unfolding reach_with
reach_with-HasKinds zero t t' k j m x h = cc
reach_with-HasKinds (suc fuel) t t' k j m x h =
    reach_at-found _ _ (way_error t k) (way_error t' k) (node t k) (node t' k) k j m
      (λ i e. reach_with-HasKinds fuel t t' i j m x e) (way_error-HasWays t t' k x.ways)
      (λ i e. x.ways.links k i e) (λ e. x.ways.folders k e) (λ b e. x.files k b e) h

pub write-HasKinds :
    (fuel : ℕ) (t : Tree) (k j : Place) (b : Bytes)
    → target (reach_with fuel t k) ≡ some j
    → HasKinds t (write j (file b) t)
write-HasKinds fuel t k j b h =
    let w = write_spot fuel t k j b h in
    record {
      ways = write-HasWays fuel t k j b h;
      files = λ i c e. elim (Bool-cases (place_eq i j)) [
        | inl q ↦ (b, rw ((place_eq_iff i j).0 q) w.0)
        | inr q ↦ (c, w.1 i (λ y. let z = (place_eq_iff i j).1 y in cc) ∙ e)
      ];
    }
