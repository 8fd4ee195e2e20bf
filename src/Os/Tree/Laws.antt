-- ===== src/Os/Tree/Laws.antt =====
-- What stays reachable when a tree grows.
use weft_driver_vz.Common.{
  ℕ, zero, suc, ◌≡◌, refl, ◌≢◌, inl, inr, true, Option, none, some, [], ◌∷◌, arith, if◌then◌else◌,
  Bool-cases, Bytes,
}
use weft_driver_vz.Golang.FilePath.{Place}
use weft_driver_vz.Os.Tree.{
  Node, file, folder, link, Tree, Errno, place_eq, place_eq_iff, find, node, write, enter,
  folder_error, way_error, Reached, failed, vacant, found, reach_at, reach_with, reach,
}

pub place_eq_refl : (k : Place) → place_eq k k ≡ true
place_eq_refl k = (place_eq_iff k k).1 refl

find-write :
    (k : Place) (n : Node) (j : Place) (t : Tree)
    → find j (write k n t) ≡ (if place_eq k j then some n else find j t)
unfolding find write
find-write k n j [] = refl
find-write k n j ((i, m) ∷ t) =
    ground (arith, find-write k n j t, place_eq_iff i k, place_eq_iff i j, place_eq_iff k j)

-- A write changes what stands at its place, and nothing else.
pub node-write :
    (k : Place) (n : Node) (t : Tree) (j : Place)
    → k ≢ []
    → node (write k n t) j ≡ (if place_eq k j then some n else node t j)
unfolding node place_eq
node-write [] n t j h = absurd (h refl)
node-write (c ∷ k) n t [] h = refl
node-write (c ∷ k) n t (d ∷ j) h = find-write (c ∷ k) n (d ∷ j) t

-- Whatever stands somewhere in `t` stands there in `t'`.
abbrev pub Extends : Tree → Tree → Type 0
Extends t t' = (k : Place) (n : Node) → node t k ≡ some n → node t' k ≡ some n

pub Extends-refl : (t : Tree) → Extends t t
Extends-refl t k n h = h

pub Extends-trans : (t u v : Tree) → Extends t u → Extends u v → Extends t v
Extends-trans t u v f g k n h = g k n (f k n h)

pub write-Extends : (t : Tree) (k : Place) (n : Node) → node t k ≡ none → Extends t (write k n t)
write-Extends t [] n h j m e = absurd (unfold node in cc h)
write-Extends t (c ∷ k) n h j m e =
    rw (node-write (c ∷ k) n t j (λ q. cc q)) (elim (Bool-cases (place_eq (c ∷ k) j)) [
      | inl q ↦ let p = (place_eq_iff (c ∷ k) j).0 q in absurd (cc (p, h, e))
      | inr q ↦ rw q e
    ])

pub enter-none :
    (e : Option Errno) (n : Option Node) → enter e n ≡ none → (e ≡ none) × (n ≡ some folder)
unfolding enter
enter-none e n h = ground arith

pub folder_error-Extends :
    (t t' : Tree) (k : Place) → Extends t t' → folder_error t k ≡ none → folder_error t' k ≡ none
unfolding folder_error
folder_error-Extends t t' [] x h = refl
folder_error-Extends t t' (c ∷ k) x h =
    let (e, n) = enter-none (folder_error t k) (node t (c ∷ k)) h in
    rw (folder_error-Extends t t' k x e, x (c ∷ k) folder n)

pub way_error-Extends :
    (t t' : Tree) (k : Place) → Extends t t' → way_error t k ≡ none → way_error t' k ≡ none
unfolding way_error
way_error-Extends t t' [] x h = refl
way_error-Extends t t' (c ∷ k) x h = folder_error-Extends t t' k x h

reach_at-found :
    (loop loop' : Place → Reached) (e e' : Option Errno) (n n' : Option Node) (k j : Place)
    (m : Node)
    → ((i : Place) → loop i ≡ found j m → loop' i ≡ found j m)
    → (e ≡ none → e' ≡ none)
    → ((x : Node) → n ≡ some x → n' ≡ some x)
    → reach_at loop e n k ≡ found j m
    → reach_at loop' e' n' k ≡ found j m
unfolding reach_at
reach_at-found loop loop' (some e) e' n n' k j m l p q h = cc
reach_at-found loop loop' none e' none n' k j m l p q h = cc
reach_at-found loop loop' none e' (some (link i)) n' k j m l p q h =
    rw (p refl, q (link i) refl) (l i h)
reach_at-found loop loop' none e' (some (file b)) n' k j m l p q h = rw (p refl, q (file b) refl) h
reach_at-found loop loop' none e' (some folder) n' k j m l p q h = rw (p refl, q folder refl) h

-- What a path reaches stays reachable.
pub reach_with-Extends :
    (fuel : ℕ) (t t' : Tree) (k j : Place) (m : Node)
    → Extends t t'
    → reach_with fuel t k ≡ found j m
    → reach_with fuel t' k ≡ found j m
unfolding reach_with
reach_with-Extends zero t t' k j m x h = cc
reach_with-Extends (suc fuel) t t' k j m x h =
    reach_at-found _ _ (way_error t k) (way_error t' k) (node t k) (node t' k) k j m
      (λ i e. reach_with-Extends fuel t t' i j m x e) (way_error-Extends t t' k x) (x k) h

-- What is vacant has no node, and can be reached.
pub reach_with-vacant :
    (fuel : ℕ) (t : Tree) (k j : Place)
    → reach_with fuel t k ≡ vacant j
    → (node t j ≡ none) × (way_error t j ≡ none)
unfolding reach_with
reach_with-vacant zero t k j h = cc
reach_with-vacant (suc fuel) t k j h =
    vacant_at (way_error t k) (node t k) refl refl h (λ i. reach_with-vacant fuel t i j)
  where
    vacant_at :
        (e : Option Errno) (n : Option Node)
        → way_error t k ≡ e
        → node t k ≡ n
        → reach_at (reach_with fuel t) e n k ≡ vacant j
        → ((i : Place)
            → reach_with fuel t i ≡ vacant j
            → (node t j ≡ none) × (way_error t j ≡ none))
        → (node t j ≡ none) × (way_error t j ≡ none)
    vacant_at (some e) n p q h ih = cc
    vacant_at none none p q h ih = let e : k ≡ j = cc in rw (← e) (q, p)
    vacant_at none (some (link i)) p q h ih = ih i h
    vacant_at none (some (file b)) p q h ih = cc
    vacant_at none (some folder) p q h ih = cc

reach_at-write :
    (loop loop' : Place → Reached) (e e' : Option Errno) (n n' : Option Node) (k j : Place)
    (b : Bytes)
    → ((i : Place) → loop i ≡ vacant j → loop' i ≡ found j (file b))
    → (e ≡ none → e' ≡ none)
    → ((x : Node) → n ≡ some x → n' ≡ some x)
    → (k ≡ j → n' ≡ some (file b))
    → reach_at loop e n k ≡ vacant j
    → reach_at loop' e' n' k ≡ found j (file b)
unfolding reach_at
reach_at-write loop loop' (some e) e' n n' k j b l p q r h = cc
reach_at-write loop loop' none e' none n' k j b l p q r h =
    let e : k ≡ j = cc in rw (p refl, r e, e)
reach_at-write loop loop' none e' (some (link i)) n' k j b l p q r h =
    rw (p refl, q (link i) refl) (l i h)
reach_at-write loop loop' none e' (some (file b')) n' k j b l p q r h = cc
reach_at-write loop loop' none e' (some folder) n' k j b l p q r h = cc

-- A file put at a vacant place is reached there by whatever led to the place.
pub reach_with-put :
    (fuel : ℕ) (t t' : Tree) (k j : Place) (b : Bytes)
    → Extends t t'
    → node t' j ≡ some (file b)
    → reach_with fuel t k ≡ vacant j
    → reach_with fuel t' k ≡ found j (file b)
unfolding reach_with
reach_with-put zero t t' k j b x made h = cc
reach_with-put (suc fuel) t t' k j b x made h =
    reach_at-write _ _ (way_error t k) (way_error t' k) (node t k) (node t' k) k j b
      (λ i e. reach_with-put fuel t t' i j b x made e) (way_error-Extends t t' k x) (x k)
      (λ e. rw e made) h

-- A write at a place without a node puts one there.
pub node-write_self :
    (t : Tree) (k : Place) (n : Node) → node t k ≡ none → node (write k n t) k ≡ some n
node-write_self t [] n h = absurd (unfold node in cc h)
node-write_self t (c ∷ k) n h =
    rw (node-write (c ∷ k) n t (c ∷ k) (λ q. cc q), place_eq_refl (c ∷ k))

-- A folder that can be entered is reached at its own place.
pub reach-folder :
    (t : Tree) (k : Place)
    → way_error t k ≡ none
    → node t k ≡ some folder
    → reach t k ≡ found k folder
unfolding reach_with
reach-folder t k w n = rw (w, n) (unfold reach_at in refl)

pub reach-root : (t : Tree) → reach t [] ≡ found [] folder
reach-root t = reach-folder t [] (unfold way_error in refl) (unfold node in refl)

pub reach-file :
    (t : Tree) (k : Place) (b : Bytes)
    → way_error t k ≡ none
    → node t k ≡ some (file b)
    → reach t k ≡ found k (file b)
unfolding reach_with
reach-file t k b w n = rw (w, n) (unfold reach_at in refl)

pub reach-vacant :
    (t : Tree) (k : Place) → way_error t k ≡ none → node t k ≡ none → reach t k ≡ vacant k
unfolding reach_with
reach-vacant t k w n = rw (w, n) (unfold reach_at in refl)

reach_at-node :
    (loop : Place → Reached) (e : Option Errno) (n : Option Node) (m : Place → Option Node)
    (k j : Place) (x : Node)
    → m k ≡ n
    → ((i : Place) → loop i ≡ found j x → m j ≡ some x)
    → reach_at loop e n k ≡ found j x
    → m j ≡ some x
unfolding reach_at
reach_at-node loop (some e) n m k j x q l h = cc
reach_at-node loop none none m k j x q l h = cc
reach_at-node loop none (some (link i)) m k j x q l h = l i h
reach_at-node loop none (some (file b)) m k j x q l h = cc
reach_at-node loop none (some folder) m k j x q l h = cc

-- What a path reaches stands where it is reached.
pub reach_with-node :
    (fuel : ℕ) (t : Tree) (k j : Place) (x : Node)
    → reach_with fuel t k ≡ found j x
    → node t j ≡ some x
unfolding reach_with
reach_with-node zero t k j x h = cc
reach_with-node (suc fuel) t k j x h =
    reach_at-node (reach_with fuel t) (way_error t k) (node t k) (node t) k j x refl
      (λ i e. reach_with-node fuel t i j x e) h

pub reach-failed :
    (t : Tree) (k : Place) (e : Errno) → way_error t k ≡ some e → reach t k ≡ failed e
unfolding reach_with
reach-failed t k e w = rw w (unfold reach_at in refl)
