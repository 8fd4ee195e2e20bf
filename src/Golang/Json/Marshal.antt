-- ===== src/Golang/Json/Marshal.antt =====
-- `json.Marshal`: the text of a value without space, and a map's keys in their order.
pub mod RoundTrip
pub mod Order
pub mod OneLine
pub mod Printed
use weft_driver_vz.Common.{
  ℕ, zero, suc, ◌+◌, ◌-◌, ◌*◌, ◌/◌, ◌%◌, ◌^◌, ◌≤◌, ◌<◌, String, ◌≡◌, refl, sym, ap, ◌∙◌, subst,
  fun_ext, ◌≢◌, ◌↔◌, ◌⊎◌, inl, inr, Bool, true, false, not, ◌&&◌, ◌||◌, Option, none, some, List,
  [], ◌∷◌, ◌++◌, map, foldl, reverse, append-nil, append_assoc, reverse-append, reverse-reverse,
  arith, ltb, leb, ◌==◌, if◌then◌else◌, ==_iff, Bool-cases, Option-cases, length, take, drop,
  length-append, take-append-drop, drop-append, take-append, length-take, length-drop, take-nil,
  take-all, take_past, drop_past, All, All-append, Bytes, codes, bytes_eq, bytes_eq_iff,
}
use weft_driver_vz.Golang.Json.{
  Value, null, boolean, number, text, array, object, Values, no_values, value, Members, no_members,
  member, quote,
}

mutual
  pub compact : Value → Bytes
  compact null = codes "null"
  compact (boolean true) = codes "true"
  compact (boolean false) = codes "false"
  compact (number s) = s
  compact (text s) = quote s
  compact (array no_values) = codes "[]"
  compact (array (value v vs)) = b'[' ∷ compact v ++ compact_values vs
  compact (object no_members) = codes "{}"
  compact (object (member k v ms)) = b'{' ∷ quote k ++ b':' ∷ compact v ++ compact_members ms

  pub compact_values : Values → Bytes
  compact_values no_values = b']' ∷ []
  compact_values (value v vs) = b',' ∷ compact v ++ compact_values vs

  pub compact_members : Members → Bytes
  compact_members no_members = b'}' ∷ []
  compact_members (member k v ms) = b',' ∷ quote k ++ b':' ∷ compact v ++ compact_members ms

unfoldable pub marshal : Value → Bytes
unfolding compact compact_values compact_members quote
marshal v = compact v

-- The order of texts by their bytes.
pub before : Bytes → Bytes → Bool
before [] [] = false
before [] (b ∷ y) = true
before (a ∷ x) [] = false
before (a ∷ x) (b ∷ y) = ltb a b || (a == b && before x y)

pub place : Bytes → Value → Members → Members
place k v no_members = member k v no_members
place k v (member j u ms) =
    let rest = place k v ms in if before k j then member k v (member j u ms) else member j u rest

-- The members of a map, which has each key once.
unfoldable pub sorted : List (Bytes × Bytes) → Members
unfolding place before
sorted [] = no_members
sorted ((k, s) ∷ m) = place k (text s) (sorted m)
