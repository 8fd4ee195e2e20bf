-- ===== src/Tests/Sample.antt =====
-- A framework, a host and a world to test with.
use weft_driver_vz.Common.{◌≡◌, refl, subst, false, Option, none, some, [], ◌∷◌, ◌++◌, Bytes, codes}
use weft_driver_vz.Golang.FilePath.{Place}
use weft_driver_vz.Os.Tree.{Tree, Node, file, Errno, node, write, way_error}
use weft_driver_vz.Os.Tree.Laws.{
  Extends, Extends-refl, write-Extends, node-write_self, way_error-Extends,
}
use weft_driver_vz.Os.Calls.{Host}
use weft_driver_vz.Os.World.{World}
use weft_driver_vz.Framework.{Framework, IsFramework, made, Stored, stored, spoiled, stored_tree}

-- Makes a file where none stands and a folder does.
unfoldable pub make_at : Option Errno → Option Node → Bytes → Place → Tree → Stored
make_at none none b k t = stored (write k (file b) t)
make_at none (some n) b k t = spoiled (codes "it exists") t
make_at (some e) n b k t = spoiled (codes "no folder") t

pub make_at-Extends :
    (e : Option Errno) (n : Option Node) (b : Bytes) (k : Place) (t : Tree)
    → node t k ≡ n
    → Extends t (stored_tree (make_at e n b k t))
unfolding make_at
make_at-Extends none none b k t q = write-Extends t k (file b) q
make_at-Extends none (some n) b k t q = Extends-refl t
make_at-Extends (some e) n b k t q = Extends-refl t

make_at-file :
    (e : Option Errno) (n : Option Node) (b : Bytes) (k : Place) (t t' : Tree)
    → way_error t k ≡ e
    → node t k ≡ n
    → make_at e n b k t ≡ stored t'
    → (c : Bytes) × (node t' k ≡ some (file c)) × (way_error t' k ≡ none)
unfolding make_at
make_at-file none none b k t t' w q s =
    let e : write k (file b) t ≡ t' = cc in
    subst (λ (u : Tree). (c : Bytes) × (node u k ≡ some (file c)) × (way_error u k ≡ none)) e
      (b, node-write_self t k (file b) q, way_error-Extends t _ k (write-Extends t k (file b) q) w)
make_at-file none (some n) b k t t' w q s = cc
make_at-file (some e) n b k t t' w q s = cc

abbrev pub framework : Framework
framework = record {
  new_efi_variable_store = λ k t. make_at (way_error t k) (node t k) (codes "efi") k t;
  new_machine_identifier = λ n. made (codes "id" ++ n ∷ []);
  new_mac_address = λ n. made (codes "mac" ++ n ∷ []);
  create_disk_image = λ k n t. make_at (way_error t k) (node t k) (codes "disk") k t;
}

pub framework-IsFramework : IsFramework framework
framework-IsFramework = record {
  store_keeps = λ k t. make_at-Extends (way_error t k) (node t k) (codes "efi") k t refl;
  store_makes =
      λ k t t' e. make_at-file (way_error t k) (node t k) (codes "efi") k t t' refl refl e;
  disk_keeps = λ k n t. make_at-Extends (way_error t k) (node t k) (codes "disk") k t refl;
  disk_makes =
      λ k n t t' e. make_at-file (way_error t k) (node t k) (codes "disk") k t t' refl refl e;
}

-- A host on which no call fails for a reason outside the tree, that works in the root.
abbrev pub host : Host
host = record { cwd = []; faults = λ c k. none; swept = λ k. false; copied = λ k. 0 }

abbrev pub world_of : Tree → World
world_of t = record { tree = t; draws = 0; alive = []; waiting = []; signals = []; exits = [] }

abbrev pub empty_world : World
empty_world = world_of []
