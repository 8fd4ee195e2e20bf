-- ===== src/Provision/Copy.antt =====
-- cmd/weft-driver-vz/provision_darwin.go: what `placeArtefact` leaves where it copies bytes.
use weft_driver_vz.Common.{ℕ, ◌≡◌, refl, sym, ap, ◌∙◌, ◌≢◌, true, none, [], ◌∷◌, Bytes}
use weft_driver_vz.Golang.FilePath.{Place}
use weft_driver_vz.Os.Tree.{Tree, Node}
use weft_driver_vz.Os.Calls.{
  Host, Answer, ok, err, at, stat, remove, remove_call, read_call, read_file, open_file, put_file,
  copy,
}
use weft_driver_vz.Os.Calls.Laws.{left}
use weft_driver_vz.Os.Calls.Replace.{replaced-copy}
use weft_driver_vz.Os.World.{World, done, bind-done}
use weft_driver_vz.Hypervisor.Create.{change}
use weft_driver_vz.Hypervisor.Create.Stages.{change-done}
use weft_driver_vz.Provision.{
  Cloned, cannot_clone, abs_path, wipe, copy_from, place_clone, place_fresh, place_at,
  place_artefact,
}

module _ (clone : Place → Place → Tree → Cloned) (h : Host) (src : Bytes) (c : ℕ)
    (dst : Bytes) where
  copy_from-copies :
      (a : Answer Place) (t : Tree) (w v : World)
      → at h (c ∷ dst) ≢ []
      → h.faults remove_call (at h (c ∷ dst)) ≡ none
      → h.faults read_call (at h (c ∷ dst)) ≡ none
      → open_file h src (left (remove h (c ∷ dst) t)) ≡ a
      → w.tree ≡ left (remove h (c ∷ dst) t)
      → copy_from clone h (c ∷ dst) a w ≡ done tt v
      → (b : Bytes) × (read_file h src t ≡ ok b) × (read_file h (c ∷ dst) v.tree ≡ ok b)
  unfolding copy_from
  copy_from-copies (err e) t w v ne removable readable o q d = cc
  copy_from-copies (ok k) t w v ne removable readable o q d =
      let (_, u, d1, e1) = bind-done (change "" (put_file h (c ∷ dst) [] w.tree) w) _ tt v d in
      replaced-copy h src c dst t k u.tree v.tree ne removable readable o
        (ap (put_file h (c ∷ dst) []) (sym q)
          ∙ change-done "" (put_file h (c ∷ dst) [] w.tree) w u d1)
        (change-done "" (copy h k (c ∷ dst) u.tree) u v e1)

module _ (clone : Place → Place → Tree → Cloned) (h : Host) where
  place_at-copies :
      (from : Bytes) (c : ℕ) (dst : Bytes) (a : Answer Node) (w v : World)
      → at h (c ∷ dst) ≢ []
      → h.faults remove_call (at h (c ∷ dst)) ≡ none
      → h.faults read_call (at h (c ∷ dst)) ≡ none
      → ((t : Tree) → clone (at h from) (at h (c ∷ dst)) t ≡ cannot_clone)
      → place_at clone h from (c ∷ dst) true a w ≡ done tt v
      → (b : Bytes) × (read_file h from w.tree ≡ ok b) × (read_file h (c ∷ dst) v.tree ≡ ok b)
  unfolding place_at place_fresh place_clone wipe
  place_at-copies from c dst (err e) w v ne removable readable no_clone d = cc
  place_at-copies from c dst (ok n) w v ne removable readable no_clone d =
      let t = left (remove h (c ∷ dst) w.tree) in
      copy_from-copies clone h from c dst (open_file h from t) w.tree (record w { tree = t }) v ne
        removable readable refl refl (rw (no_clone t) at d)

  -- Where the file system cannot clone, a copy that `placeArtefact` makes with success holds the
  -- bytes that the source read before, whatever stood at the destination, be it a link to the source.
  -- The destination is not the root; it must be readable, and no fault may keep what stood there from
  -- being removed.
  pub place_artefact-copy :
      (src : Bytes) (c : ℕ) (dst : Bytes) (w v : World)
      → at h (c ∷ dst) ≢ []
      → h.faults remove_call (at h (c ∷ dst)) ≡ none
      → h.faults read_call (at h (c ∷ dst)) ≡ none
      → ((t : Tree) → clone (at h (abs_path h src)) (at h (c ∷ dst)) t ≡ cannot_clone)
      → place_artefact clone h src (c ∷ dst) true w ≡ done tt v
      → (b : Bytes) × (read_file h (abs_path h src) w.tree ≡ ok b)
        × (read_file h (c ∷ dst) v.tree ≡ ok b)
  unfolding place_artefact
  place_artefact-copy src c dst w v ne removable readable no_clone d =
      place_at-copies (abs_path h src) c dst (stat h (abs_path h src) w.tree) w v ne removable
        readable no_clone d
