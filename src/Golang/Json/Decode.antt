-- ===== src/Golang/Json/Decode.antt =====
-- encoding/json: storing a value in a Go variable by its type. A null leaves the variable as it is,
-- and a value that does not fit leaves it too, an error being kept for the end.
use weft_driver_vz.Common.{
  ℕ, ◌-◌, Bool, true, false, ◌&&◌, [], ◌∷◌, leb, ◌==◌, if◌then◌else◌, Bytes, bytes_eq,
}
use weft_driver_vz.Golang.Json.{Value, null, boolean, number, text}
use weft_driver_vz.Golang.Strconv.{Scanned, scan, magnitude, bad_syntax, overflow}

-- A variable's new value, and whether the JSON value fitted.
pub record Stored {ℓ} (A : Type ℓ) : Type ℓ where
  pub now : A
  pub fits : Bool

abbrev pub kept {ℓ} : {A : Type ℓ} → A → Stored A
kept a = record { now = a; fits = false }

abbrev pub set_to {ℓ} : {A : Type ℓ} → A → Stored A
set_to a = record { now = a; fits = true }

pub store_scanned : ℕ → Scanned → Stored ℕ
store_scanned old (magnitude n) = set_to n
store_scanned old bad_syntax = kept old
store_scanned old overflow = kept old

-- A `uint64`, or a `uint` of 64 bits; of a number's literal, `ParseUint` takes digits only.
unfoldable pub store_uint : ℕ → Value → Stored ℕ
unfolding store_scanned scan
store_uint old null = set_to old
store_uint old (number s) = store_scanned old (scan s 0)
store_uint old _ = kept old

unfoldable pub store_text : Bytes → Value → Stored Bytes
store_text old null = set_to old
store_text old (text s) = set_to s
store_text old _ = kept old

unfoldable pub store_bool : Bool → Value → Stored Bool
store_bool old null = set_to old
store_bool old (boolean b) = set_to b
store_bool old _ = kept old

abbrev fold_byte : ℕ → ℕ
fold_byte c = if leb b'a' c && leb c b'z' then c - 32 else c

-- A key, folded as the search for a field's name folds it: capital letters for ASCII ones, and for
-- U+017F and U+212A, which fold to S and K.
unfoldable pub fold_name : Bytes → Bytes
fold_name [] = []
fold_name (c ∷ []) = fold_byte c ∷ []
fold_name (c ∷ d ∷ []) =
    if c == 0xC5 && d == 0xBF then b'S' ∷ [] else fold_byte c ∷ fold_byte d ∷ []
fold_name (c ∷ d ∷ e ∷ s) =
    let one = fold_byte c ∷ fold_name (d ∷ e ∷ s) in
    let two = b'S' ∷ fold_name (e ∷ s) in
    let three = b'K' ∷ fold_name s in
    if c == 0xC5 && d == 0xBF
    then two
    else if c == 0xE2 && (d == 0x84 && e == 0xAA)
    then three
    else one

-- Whether a key names the field `name`.
unfoldable pub names_field : Bytes → Bytes → Bool
unfolding fold_name bytes_eq
names_field name key = bytes_eq (fold_name name) (fold_name key)
