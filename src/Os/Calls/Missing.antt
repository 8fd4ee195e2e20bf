-- ===== src/Os/Calls/Missing.antt =====
-- What `os.Remove` took away cannot be read.
use weft_driver_vz.Common.{
  ◌<◌, ◌≡◌, refl, ◌∙◌, ◌≢◌, false, Option, none, some, [], ◌∷◌, arith, length, Bytes,
}
use weft_driver_vz.Golang.FilePath.{Place}
use weft_driver_vz.Os.Tree.{
  Node, Tree, Errno, enoent, prune, node, place_eq, folder_error, way_error,
}
use weft_driver_vz.Os.Tree.Laws.{place_eq_refl, enter-none, reach-vacant}
use weft_driver_vz.Os.Tree.Overwrite.{node-prune}
use weft_driver_vz.Os.Calls.{
  Host, at, err, did, remove, remove_at, read_call, read_found, read_at, read_file,
}
use weft_driver_vz.Os.Calls.Removal.{remove_at-did, remove-node}

shorter-place_eq : (k j : Place) → length j < length k → place_eq k j ≡ false
unfolding place_eq
shorter-place_eq [] j l = absurd (omega arith)
shorter-place_eq (a ∷ k) [] l = refl
shorter-place_eq (a ∷ k) (b ∷ j) l = let e = shorter-place_eq k j (omega arith) in ground arith

folder_error-prune :
    (k j : Place) (t : Tree)
    → length j < length k
    → folder_error t j ≡ none
    → folder_error (prune (place_eq k) t) j ≡ none
unfolding folder_error
folder_error-prune k [] t l h = refl
folder_error-prune k (c ∷ j) t l h =
    let (e, n) = enter-none (folder_error t j) (node t (c ∷ j)) h in
    rw
      (
        folder_error-prune k j t (omega arith) e,
        node-prune (place_eq k) t (c ∷ j) (λ q. cc q),
        shorter-place_eq k (c ∷ j) l,
        n,
      )
      refl

remove_at-way :
    (e w : Option Errno) (n : Option Node) (k : Place) (t t' : Tree)
    → remove_at e w n k t ≡ did t'
    → (e ≡ none) × (w ≡ none)
unfolding remove_at
remove_at-way (some e) w n k t t' d = cc
remove_at-way none (some e) n k t t' d = cc
remove_at-way none none n k t t' d = (refl, refl)

pub way_error-prune :
    (k : Place) (t : Tree) → way_error t k ≡ none → way_error (prune (place_eq k) t) k ≡ none
unfolding way_error
way_error-prune [] t h = refl
way_error-prune (c ∷ k) t h = folder_error-prune (c ∷ k) k t (omega arith) h

remove-way :
    (h : Host) (p : Bytes) (t t' : Tree)
    → at h p ≢ []
    → remove h p t ≡ did t'
    → (way_error t' (at h p) ≡ none) × (node t' (at h p) ≡ none)
unfolding remove
remove-way h p t t' ne d =
    let k = at h p in
    let (_, w) = remove_at-way _ (way_error t k) (node t k) k t t' d in
    let e = remove_at-did _ (way_error t k) (node t k) k t t' refl ne d in
    (rw e (way_error-prune k t w), remove-node h p t t' k ne ne d ∙ rw (place_eq_refl k) refl)

-- What `Remove` took away, `ReadFile` reports as missing.
pub read_file-remove :
    (h : Host) (p : Bytes) (t t' : Tree)
    → at h p ≢ []
    → h.faults read_call (at h p) ≡ none
    → remove h p t ≡ did t'
    → read_file h p t' ≡ err enoent
unfolding read_file read_at
read_file-remove h [] t t' ne readable d = refl
read_file-remove h (c ∷ p) t t' ne readable d =
    let (y, n) = remove-way h (c ∷ p) t t' ne d in
    rw (readable, reach-vacant t' (at h (c ∷ p)) y n) (unfold read_found in refl)
