-- ===== src/Os/Calls/Removal.antt =====
-- What `os.Remove` and `os.RemoveAll` take away.
use weft_driver_vz.Common.{
  ◌≡◌, refl, ◌∙◌, ◌≢◌, ◌⊎◌, inl, inr, Bool, true, false, ◌&&◌, Option, none, some, [], ◌∷◌, arith,
  if◌then◌else◌, Bool-cases, Bytes, bytes_eq_iff,
}
use weft_driver_vz.Golang.FilePath.{Place}
use weft_driver_vz.Os.Tree.{
  Node, Tree, Errno, Fault, enoent, enotdir, file, folder, link, prune, under, node, place_eq,
  way_error, has_child,
}
use weft_driver_vz.Os.Tree.Laws.{place_eq_refl}
use weft_driver_vz.Os.Tree.Overwrite.{node-prune, reach-none, reach-lost}
use weft_driver_vz.Os.Calls.{
  Host, at, ok, did, broke, fault_at, stat, trouble, remove, remove_at, remove_all, remove_all_at,
  remove_all_call, remove_call, ends_with_dot,
}
use weft_driver_vz.Os.Tree.Laws.{place_eq_refl}
use weft_driver_vz.Os.Calls.Laws.{left, stat_at-found}

-- Nothing outside `k` differs.
abbrev pub SameOutside : Place → Tree → Tree → Type 0
SameOutside k t t' = (j : Place) → under k j ≡ false → node t' j ≡ node t j

prune-outside :
    (k : Place) (gone : Place → Bool) (t : Tree)
    → ((j : Place) → under k j ≡ false → gone j ≡ false)
    → SameOutside k t (prune gone t)
prune-outside k gone t g [] h = unfold node in refl
prune-outside k gone t g (c ∷ j) h = rw (node-prune gone t (c ∷ j) (λ e. cc e), g (c ∷ j) h)

remove_all_at-outside :
    (e w : Option Errno) (swept : Place → Bool) (k : Place) (t : Tree)
    → SameOutside k t (left (remove_all_at e w swept k t))
unfolding remove_all_at
remove_all_at-outside (some e) w swept k t j h =
    prune-outside k (λ q. under k q && swept q) t (λ i u. rw u) j h
remove_all_at-outside none (some enoent) swept k t j h = refl
remove_all_at-outside none (some _) swept k t j h = refl
remove_all_at-outside none none swept k t j h = prune-outside k (under k) t (λ i u. u) j h

-- `RemoveAll`, also where it fails half way, changes nothing outside its path.
pub remove_all-outside :
    (h : Host) (p : Bytes) (t : Tree) → SameOutside (at h p) t (left (remove_all h p t))
unfolding remove_all
remove_all-outside h [] t j u = refl
remove_all-outside h (c ∷ p) t j u = elim (Bool-cases (ends_with_dot (c ∷ p))) [
  | inl e ↦ rw e
  | inr e ↦ rw e (
      remove_all_at-outside (trouble h remove_all_call (c ∷ p)) (way_error t (at h (c ∷ p))) h.swept
        (at h (c ∷ p)) t j u)
]

under_refl : (k : Place) → under k k ≡ true
unfolding under place_eq
under_refl [] = refl
under_refl (c ∷ k) = ground (arith, bytes_eq_iff c c, place_eq_refl k)

remove_all_at-gone :
    (e w : Option Errno) (swept : Place → Bool) (k : Place) (t t' : Tree)
    → k ≢ []
    → way_error t k ≡ w
    → remove_all_at e w swept k t ≡ did t'
    → (way_error t' k ≡ some enoent) ⊎ (node t' k ≡ none)
unfolding remove_all_at
remove_all_at-gone (some e) w swept k t t' ne q d = cc
remove_all_at-gone none (some enoent) swept k t t' ne q d = let e : t ≡ t' = cc in inl (rw (← e) q)
remove_all_at-gone none (some enotdir) swept k t t' ne q d = cc
remove_all_at-gone none (some _) swept k t t' ne q d = cc
remove_all_at-gone none none swept k t t' ne q d =
    let e : prune (under k) t ≡ t' = cc in inr (rw (← e, node-prune (under k) t k ne, under_refl k))

-- After a `RemoveAll` that succeeds on a path other than the root's, nothing is found there.
pub remove_all-gone :
    (h : Host) (p : Bytes) (t t' : Tree) (n : Node)
    → p ≢ []
    → at h p ≢ []
    → remove_all h p t ≡ did t'
    → stat h p t' ≢ ok n
unfolding remove_all stat
remove_all-gone h [] t t' n e ne d s = absurd (e refl)
remove_all-gone h (c ∷ p) t t' n e ne d s = elim (Bool-cases (ends_with_dot (c ∷ p))) [
  | inl q ↦ let d' = rw q at d in cc d'
  | inr q ↦
      let (j, r) = stat_at-found _ t' (at h (c ∷ p)) n s in
      elim (remove_all_at-gone _ _ h.swept (at h (c ∷ p)) t t' ne refl (rw q at d)) [
        | inl x ↦ reach-lost t' (at h (c ∷ p)) j n enoent x r
        | inr x ↦ reach-none t' (at h (c ∷ p)) j n x r
      ]
]

pub remove_at-did :
    (e w : Option Errno) (n : Option Node) (k : Place) (t t' : Tree)
    → node t k ≡ n
    → k ≢ []
    → remove_at e w n k t ≡ did t'
    → t' ≡ prune (place_eq k) t
unfolding remove_at
remove_at-did (some e) w n k t t' q ne d = cc
remove_at-did none (some e) n k t t' q ne d = cc
remove_at-did none none none k t t' q ne d = cc
remove_at-did none none (some folder) k t t' q ne d = elim (Bool-cases (has_child k t)) [
  | inl c ↦ let d' = rw c at d in cc d'
  | inr c ↦ let d' = rw c at d in cc d'
]
remove_at-did none none (some (file b)) k t t' q ne d = cc
remove_at-did none none (some (link i)) k t t' q ne d = cc

-- A `Remove` that succeeds takes away what stands at the path itself, and nothing else.
pub remove-node :
    (h : Host) (p : Bytes) (t t' : Tree) (j : Place)
    → at h p ≢ []
    → j ≢ []
    → remove h p t ≡ did t'
    → node t' j ≡ (if place_eq (at h p) j then none else node t j)
unfolding remove
remove-node h p t t' j ne nj d =
    let e =
      remove_at-did (trouble h remove_call p) (way_error t (at h p)) (node t (at h p)) (at h p) t t'
        refl ne d in
    rw e (node-prune (place_eq (at h p)) t j nj)

remove_at-outside :
    (e w : Option Errno) (n : Option Node) (k : Place) (t : Tree) (j : Place)
    → place_eq k j ≡ false
    → j ≢ []
    → node (left (remove_at e w n k t)) j ≡ node t j
unfolding remove_at
remove_at-outside (some e) w n k t j q nj = refl
remove_at-outside none (some e) n k t j q nj = refl
remove_at-outside none none none k t j q nj = refl
remove_at-outside none none (some (file b)) k t j q nj = node-prune (place_eq k) t j nj ∙ rw q
remove_at-outside none none (some (link i)) k t j q nj = node-prune (place_eq k) t j nj ∙ rw q
remove_at-outside none none (some folder) k t j q nj = elim (Bool-cases (has_child k t)) [
  | inl full ↦ rw full
  | inr empty ↦ rw empty (node-prune (place_eq k) t j nj ∙ rw q)
]

-- `os.Remove` changes nothing at another place.
pub remove-outside :
    (h : Host) (p : Bytes) (t : Tree) (j : Place)
    → place_eq (at h p) j ≡ false
    → j ≢ []
    → node (left (remove h p t)) j ≡ node t j
unfolding remove
remove-outside h p t j q nj = remove_at-outside _ _ _ (at h p) t j q nj

remove_at-lost :
    (f : Option Fault) (w : Option Errno) (n : Option Node) (k : Place) (t t' : Tree)
    → remove_at (fault_at f) w n k t ≡ broke enoent t'
    → ((w ≡ some enoent) ⊎ (n ≡ none)) × (t ≡ t')
unfolding remove_at
remove_at-lost (some f) w n k t t' b = cc
remove_at-lost none (some x) n k t t' b = let q : x ≡ enoent = cc in (inl (rw q refl), cc)
remove_at-lost none none none k t t' b = (inr refl, cc)
remove_at-lost none none (some folder) k t t' b = elim (Bool-cases (has_child k t)) [
  | inl full ↦ let b' = rw full at b in cc b'
  | inr empty ↦ let b' = rw empty at b in cc b'
]
remove_at-lost none none (some (file c)) k t t' b = cc
remove_at-lost none none (some (link i)) k t t' b = cc

-- A `Remove` that finds nothing leaves nothing to be found.
pub remove-lost :
    (h : Host) (p : Bytes) (t t' : Tree) (n : Node)
    → p ≢ []
    → remove h p t ≡ broke enoent t'
    → stat h p t' ≢ ok n
unfolding remove stat
remove-lost h [] t t' n e b s = absurd (e refl)
remove-lost h (c ∷ p) t t' n e b s =
    let (lost, q) =
      remove_at-lost (h.faults remove_call (at h (c ∷ p))) (way_error t (at h (c ∷ p)))
        (node t (at h (c ∷ p))) (at h (c ∷ p)) t t' b in
    let (j, r) = stat_at-found _ t (at h (c ∷ p)) n (rw (← q) at s) in
    elim lost [
      | inl x ↦ reach-lost t (at h (c ∷ p)) j n enoent x r
      | inr x ↦ reach-none t (at h (c ∷ p)) j n x r
    ]

pub remove-gone :
    (h : Host) (p : Bytes) (t t' : Tree) (n : Node)
    → at h p ≢ []
    → remove h p t ≡ did t'
    → stat h p t' ≢ ok n
unfolding stat
remove-gone h p t t' n ne d s =
    let (j, r) = stat_at-found _ t' (at h p) n s in
    reach-none t' (at h p) j n
      (remove-node h p t t' (at h p) ne ne d ∙ rw (place_eq_refl (at h p)) refl) r
