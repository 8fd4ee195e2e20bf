-- ===== src/Framework.antt =====
-- Apple's Virtualization.framework as the driver calls it through github.com/Code-Hex/vz, which is
-- not part of the repository: each call is a parameter. `IsFramework` states what the driver relies
-- on.
use weft_driver_vz.Common.{ℕ, ◌≡◌, none, some, Bytes}
use weft_driver_vz.Golang.FilePath.{Place}
use weft_driver_vz.Os.Tree.{Tree, file, node, way_error}
use weft_driver_vz.Os.Tree.Laws.{Extends}

-- A result of a call that makes a value, or its error's text.
pub data Made {ℓ} (A : Type ℓ) : Type ℓ where
  made : A → Made A
  refused : Bytes → Made A

-- What a call that writes a file leaves in the tree.
pub data Stored : Type 0 where
  stored : Tree → Stored
  spoiled : Bytes → Tree → Stored

abbrev pub stored_tree : Stored → Tree
stored_tree (stored t) = t
stored_tree (spoiled e t) = t

pub record Framework : Type 0 where
  -- `NewEFIVariableStore(path, WithCreatingEFIVariableStore())`
  pub new_efi_variable_store : Place → Tree → Stored
  -- `NewGenericMachineIdentifier().DataRepresentation()`, and
  -- `NewRandomLocallyAdministeredMACAddress().String()`, at the n-th draw.
  pub new_machine_identifier : ℕ → Made Bytes
  pub new_mac_address : ℕ → Made Bytes
  -- `CreateDiskImage(path, size)`
  pub create_disk_image : Place → ℕ → Tree → Stored

-- Creating a store, which is not told to overwrite, and creating a disk image touch nothing that
-- exists, and where they succeed they leave a file at their place.
pub record IsFramework (f : Framework) : Type 0 where
  pub store_keeps : (k : Place) (t : Tree) → Extends t (stored_tree (f.new_efi_variable_store k t))
  pub store_makes :
      (k : Place) (t t' : Tree)
      → f.new_efi_variable_store k t ≡ stored t'
      → (b : Bytes) × (node t' k ≡ some (file b)) × (way_error t' k ≡ none)
  pub disk_keeps :
      (k : Place) (n : ℕ) (t : Tree) → Extends t (stored_tree (f.create_disk_image k n t))
  pub disk_makes :
      (k : Place) (n : ℕ) (t t' : Tree)
      → f.create_disk_image k n t ≡ stored t'
      → (b : Bytes) × (node t' k ≡ some (file b)) × (way_error t' k ≡ none)
