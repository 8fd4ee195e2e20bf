-- ===== src/Os/Tree.antt =====
-- The file tree: what stands at each place, and how a place is reached.
--
-- A symbolic link is followed where it stands last in a path; one in front of a further name counts
-- as a file there (the links that the program makes lead to files).
pub mod Laws
pub mod Overwrite
pub mod Kinds
use weft_driver_vz.Common.{
  ℕ, zero, suc, ◌+◌, ◌-◌, ◌*◌, ◌/◌, ◌%◌, ◌^◌, ◌≤◌, ◌<◌, String, ◌≡◌, refl, sym, ap, ◌∙◌, subst,
  fun_ext, ◌≢◌, ◌↔◌, ◌⊎◌, inl, inr, Bool, true, false, not, ◌&&◌, ◌||◌, Option, none, some, List,
  [], ◌∷◌, ◌++◌, map, foldl, reverse, append-nil, append_assoc, reverse-append, reverse-reverse,
  arith, ltb, leb, ◌==◌, if◌then◌else◌, ==_iff, Bool-cases, Option-cases, length, take, drop,
  length-append, take-append-drop, drop-append, take-append, length-take, length-drop, take-nil,
  take-all, take_past, drop_past, All, All-append, Bytes, codes, bytes_eq, bytes_eq_iff,
}
use weft_driver_vz.Golang.FilePath.{Place}

pub data Node : Type 0 where
  file : Bytes → Node
  folder : Node
  -- A link to a place.
  link : Place → Node

-- Reasons outside the tree for which a call fails: permissions, a full or broken disk.
pub data Fault : Type 0 where
  eacces eio enospc erofs : Fault

pub data Errno : Type 0 where
  enoent enotdir eisdir eexist enotempty eloop einval : Errno
  fault : Fault → Errno

-- `os.IsNotExist`
abbrev pub is_not_exist : Errno → Bool
is_not_exist enoent = true
is_not_exist _ = false

abbrev pub Tree : Type 0
Tree = List (Place × Node)

unfoldable pub place_eq : Place → Place → Bool
unfolding bytes_eq
place_eq [] [] = true
place_eq (a ∷ x) (b ∷ y) = bytes_eq a b && place_eq x y
place_eq _ _ = false

pub place_eq_iff : (x y : Place) → (place_eq x y ≡ true) ↔ (x ≡ y)
unfolding place_eq
place_eq_iff [] [] = ground arith
place_eq_iff [] (_ ∷ _) = ground arith
place_eq_iff (_ ∷ _) [] = ground arith
place_eq_iff (a ∷ x) (b ∷ y) = ground (arith, bytes_eq_iff a b, place_eq_iff x y)

unfoldable pub find : Place → Tree → Option Node
unfolding place_eq
find k [] = none
find k ((j, n) ∷ t) = if place_eq j k then some n else find k t

-- The root is always a folder.
unfoldable pub node : Tree → Place → Option Node
unfolding find
node t [] = some folder
node t (c ∷ k) = find (c ∷ k) t

unfoldable pub write : Place → Node → Tree → Tree
unfolding place_eq
write k n [] = (k, n) ∷ []
write k n ((j, m) ∷ t) = if place_eq j k then (k, n) ∷ t else (j, m) ∷ write k n t

-- Whether `k` is `top` or lies below it.
unfoldable pub under : Place → Place → Bool
unfolding place_eq
under top [] = place_eq top []
under top (c ∷ k) = place_eq top (c ∷ k) || under top k

-- The tree without the places that `gone` holds of.
unfoldable pub prune : (Place → Bool) → Tree → Tree
prune gone [] = []
prune gone ((j, n) ∷ t) = if gone j then prune gone t else (j, n) ∷ prune gone t

unfoldable pub has_child : Place → Tree → Bool
unfolding place_eq
has_child k [] = false
has_child k (([], n) ∷ t) = has_child k t
has_child k ((c ∷ j, n) ∷ t) = place_eq j k || has_child k t

-- Whether `k` is a folder that can be entered, as are all above it.
pub enter : Option Errno → Option Node → Option Errno
enter (some e) n = some e
enter none none = some enoent
enter none (some folder) = none
enter none (some _) = some enotdir

unfoldable pub folder_error : Tree → Place → Option Errno
unfolding enter node
folder_error t [] = none
folder_error t (c ∷ k) = enter (folder_error t k) (node t (c ∷ k))

-- The error that the way to `k` gives, if any.
unfoldable pub way_error : Tree → Place → Option Errno
unfolding folder_error
way_error t [] = none
way_error t (c ∷ k) = folder_error t k

-- What a call reaches: an error, nothing at a place where a file may be made, or a node.
pub data Reached : Type 0 where
  failed : Errno → Reached
  vacant : Place → Reached
  found : Place → Node → Reached

-- MAXSYMLINKS
abbrev pub max_links : ℕ
max_links = 32

pub reach_at : (Place → Reached) → Option Errno → Option Node → Place → Reached
reach_at loop (some e) n k = failed e
reach_at loop none none k = vacant k
reach_at loop none (some (link j)) k = loop j
reach_at loop none (some (file b)) k = found k (file b)
reach_at loop none (some folder) k = found k folder

-- Follows at most as many links as the fuel says.
unfoldable pub reach_with : ℕ → Tree → Place → Reached
unfolding reach_at way_error
reach_with zero t k = failed eloop
reach_with (suc fuel) t k = reach_at (reach_with fuel t) (way_error t k) (node t k) k

abbrev pub reach : Tree → Place → Reached
reach = reach_with (suc max_links)
