-- ===== src/Os/Tree/Overwrite.antt =====
-- A file written where a path leads, over an old one or at a vacant place, is what the path reaches.
use weft_driver_vz.Common.{
  ℕ, zero, suc, ◌≡◌, refl, sym, ◌∙◌, ◌≢◌, inl, inr, Bool, Option, none, some, [], ◌∷◌, arith,
  if◌then◌else◌, Bool-cases, Bytes,
}
use weft_driver_vz.Golang.FilePath.{Place}
use weft_driver_vz.Os.Tree.{
  Node, file, folder, link, Tree, Errno, place_eq, place_eq_iff, node, write, folder_error,
  way_error, Reached, failed, vacant, found, reach_at, reach_with, reach, find, prune, max_links,
}
use weft_driver_vz.Os.Tree.Laws.{node-write, place_eq_refl, enter-none}

-- `t'` has the folders and the links of `t`.
pub record HasWays (t t' : Tree) : Type 0 where
  pub folders : (k : Place) → node t k ≡ some folder → node t' k ≡ some folder
  pub links : (k j : Place) → node t k ≡ some (link j) → node t' k ≡ some (link j)

folder_error-HasWays :
    (t t' : Tree) (k : Place) → HasWays t t' → folder_error t k ≡ none → folder_error t' k ≡ none
unfolding folder_error
folder_error-HasWays t t' [] x h = refl
folder_error-HasWays t t' (c ∷ k) x h =
    let (e, n) = enter-none (folder_error t k) (node t (c ∷ k)) h in
    rw (folder_error-HasWays t t' k x e, x.folders (c ∷ k) n)

pub way_error-HasWays :
    (t t' : Tree) (k : Place) → HasWays t t' → way_error t k ≡ none → way_error t' k ≡ none
unfolding way_error
way_error-HasWays t t' [] x h = refl
way_error-HasWays t t' (c ∷ k) x h = folder_error-HasWays t t' k x h

-- What a path leads to: a vacant place, or a file there.
abbrev pub target : Reached → Option Place
target (failed e) = none
target (vacant k) = some k
target (found k (file b)) = some k
target (found k _) = none

reach_at-target :
    (loop loop' : Place → Reached) (e e' : Option Errno) (n n' : Option Node) (k j : Place)
    (b : Bytes)
    → ((i : Place) → target (loop i) ≡ some j → loop' i ≡ found j (file b))
    → (e ≡ none → e' ≡ none)
    → ((i : Place) → n ≡ some (link i) → n' ≡ some (link i))
    → (k ≡ j → n' ≡ some (file b))
    → target (reach_at loop e n k) ≡ some j
    → reach_at loop' e' n' k ≡ found j (file b)
unfolding reach_at
reach_at-target loop loop' (some e) e' n n' k j b l p q r h = cc
reach_at-target loop loop' none e' none n' k j b l p q r h =
    let e : k ≡ j = cc in rw (p refl, r e, e)
reach_at-target loop loop' none e' (some (link i)) n' k j b l p q r h =
    rw (p refl, q i refl) (l i h)
reach_at-target loop loop' none e' (some (file b')) n' k j b l p q r h =
    let e : k ≡ j = cc in rw (p refl, r e, e)
reach_at-target loop loop' none e' (some folder) n' k j b l p q r h = cc

-- A file put where a path leads is reached by the path.
pub reach_with-target :
    (fuel : ℕ) (t t' : Tree) (k j : Place) (b : Bytes)
    → HasWays t t'
    → node t' j ≡ some (file b)
    → target (reach_with fuel t k) ≡ some j
    → reach_with fuel t' k ≡ found j (file b)
unfolding reach_with
reach_with-target zero t t' k j b x made h = cc
reach_with-target (suc fuel) t t' k j b x made h =
    reach_at-target _ _ (way_error t k) (way_error t' k) (node t k) (node t' k) k j b
      (λ i e. reach_with-target fuel t t' i j b x made e) (way_error-HasWays t t' k x)
      (λ i e. x.links k i e) (λ e. rw e made) h

-- What a path leads to is no folder and no link.
abbrev IsSpot : Option Node → Type 0
IsSpot n = (n ≢ some folder) × ((j : Place) → n ≢ some (link j))

target_at :
    (loop : Place → Reached) (e : Option Errno) (n : Option Node) (m : Place → Option Node)
    (k j : Place)
    → m k ≡ n
    → ((i : Place) → target (loop i) ≡ some j → IsSpot (m j))
    → target (reach_at loop e n k) ≡ some j
    → IsSpot (m j)
unfolding reach_at
target_at loop (some e) n m k j q l h = cc
target_at loop none none m k j q l h = let e : k ≡ j = cc in rw (← e, q) ((λ p. cc p), λ i p. cc p)
target_at loop none (some (link i)) m k j q l h = l i h
target_at loop none (some (file b)) m k j q l h =
    let e : k ≡ j = cc in rw (← e, q) ((λ p. cc p), λ i p. cc p)
target_at loop none (some folder) m k j q l h = cc

target-IsSpot :
    (fuel : ℕ) (t : Tree) (k j : Place) → target (reach_with fuel t k) ≡ some j → IsSpot (node t j)
unfolding reach_with
target-IsSpot zero t k j h = cc
target-IsSpot (suc fuel) t k j h =
    target_at (reach_with fuel t) (way_error t k) (node t k) (node t) k j refl
      (λ i e. target-IsSpot fuel t i j e) h

spot-ne-nil : (t : Tree) (j : Place) → IsSpot (node t j) → j ≢ []
unfolding node
spot-ne-nil t [] s = absurd (s.0 refl)
spot-ne-nil t (c ∷ j) s = λ e. cc e

-- Writing a file where a path leads keeps every other node, and puts the file there.
pub write_spot :
    (fuel : ℕ) (t : Tree) (k j : Place) (b : Bytes)
    → target (reach_with fuel t k) ≡ some j
    → (node (write j (file b) t) j ≡ some (file b))
      × ((i : Place) → i ≢ j → node (write j (file b) t) i ≡ node t i)
write_spot fuel t k j b h =
    let n = spot-ne-nil t j (target-IsSpot fuel t k j h) in
    (
      rw (node-write j (file b) t j n, place_eq_refl j),
      λ i ne. rw (node-write j (file b) t i n) (elim (Bool-cases (place_eq j i)) [
        | inl q ↦ absurd (ne (sym ((place_eq_iff j i).0 q)))
        | inr q ↦ rw q refl
      ]),
    )

pub write-HasWays :
    (fuel : ℕ) (t : Tree) (k j : Place) (b : Bytes)
    → target (reach_with fuel t k) ≡ some j
    → HasWays t (write j (file b) t)
write-HasWays fuel t k j b h =
    let s = target-IsSpot fuel t k j h in
    let w = write_spot fuel t k j b h in
    record {
      folders = λ i e. w.1 i (λ q. s.0 (rw q at e)) ∙ e;
      links = λ i l e. w.1 i (λ q. s.1 l (rw q at e)) ∙ e;
    }

pub write-target :
    (fuel : ℕ) (t : Tree) (k j : Place) (b : Bytes)
    → target (reach_with fuel t k) ≡ some j
    → reach_with fuel (write j (file b) t) k ≡ found j (file b)
write-target fuel t k j b h =
    reach_with-target fuel t (write j (file b) t) k j b (write-HasWays fuel t k j b h)
      (write_spot fuel t k j b h).0 h

find-prune :
    (gone : Place → Bool) (k : Place) (t : Tree)
    → find k (prune gone t) ≡ (if gone k then none else find k t)
unfolding find prune
find-prune gone k [] = ground arith
find-prune gone k ((j, n) ∷ t) = elim (Bool-cases (place_eq j k)) [
  | inl e ↦
      let q = (place_eq_iff j k).0 e in rw q (ground (arith, find-prune gone k t, place_eq_iff k k))
  | inr e ↦ ground (arith, find-prune gone k t)
]

-- A removal takes away the places that are gone, and nothing else.
pub node-prune :
    (gone : Place → Bool) (t : Tree) (k : Place)
    → k ≢ []
    → node (prune gone t) k ≡ (if gone k then none else node t k)
unfolding node
node-prune gone t [] h = absurd (h refl)
node-prune gone t (c ∷ k) h = find-prune gone (c ∷ k) t

-- A path to a place without a node finds nothing.
pub reach-none : (t : Tree) (k j : Place) (n : Node) → node t k ≡ none → reach t k ≢ found j n
unfolding reach_with
reach-none t k j n e r = go (way_error t k) (rw e at r)
  where
    go : (w : Option Errno) → reach_at (reach_with max_links t) w none k ≡ found j n → ⊥
    go none q = unfold reach_at in cc q
    go (some x) q = unfold reach_at in cc q

-- A path whose way is broken finds nothing.
pub reach-lost :
    (t : Tree) (k j : Place) (n : Node) (e : Errno) → way_error t k ≡ some e → reach t k ≢ found j n
unfolding reach_with
reach-lost t k j n e w r = let r' = rw w at r in unfold reach_at in cc r'
