-- ===== src/Golang/Json/Parse.antt =====
-- encoding/json: reading a value. Each value, and each element or member, costs a unit of
-- fuel.
pub mod Sizes
pub mod Fuel
pub mod Printed
pub mod Layout
pub mod Steps
pub mod Flat
pub mod RoundTrip
pub mod Indented
use weft_driver_vz.Common.{
  ℕ, zero, suc, ◌+◌, ◌-◌, ◌*◌, ◌/◌, ◌%◌, ◌^◌, ◌≤◌, ◌<◌, String, ◌≡◌, refl, sym, ap, ◌∙◌, subst,
  fun_ext, ◌≢◌, ◌↔◌, ◌⊎◌, inl, inr, Bool, true, false, not, ◌&&◌, ◌||◌, Option, none, some, List,
  [], ◌∷◌, ◌++◌, map, foldl, reverse, append-nil, append_assoc, reverse-append, reverse-reverse,
  arith, ltb, leb, ◌==◌, if◌then◌else◌, ==_iff, Bool-cases, Option-cases, length, take, drop,
  length-append, take-append-drop, drop-append, take-append, length-take, length-drop, take-nil,
  take-all, take_past, drop_past, All, All-append, Bytes, codes, bytes_eq, bytes_eq_iff,
}
use weft_driver_vz.Golang.Json.{
  Value, null, boolean, number, text, array, object, Values, no_values, value, Members, no_members,
  member,
}
use weft_driver_vz.Golang.Json.Texts.{read_text, read_number}

abbrev pub is_space : ℕ → Bool
is_space c = c == b' ' || (c == b'\t' || (c == b'\r' || c == b'\n'))

pub skip_space : Bytes → Bytes
skip_space [] = []
skip_space (c ∷ s) = if is_space c then skip_space s else c ∷ s

-- `s` behind the text `w`, if `w` stands in front.
pub behind : Bytes → Bytes → Option Bytes
behind [] s = some s
behind (a ∷ w) [] = none
behind (a ∷ w) (b ∷ s) = if a == b then behind w s else none

abbrev pub Read : Type 0
Read = Option (Value × Bytes)

pub literal : Value → Option Bytes → Read
literal v none = none
literal v (some r) = some (v, r)

pub as_text : Option (Bytes × Bytes) → Read
as_text none = none
as_text (some (s, r)) = some (text s, r)

pub as_number : Option (Bytes × Bytes) → Read
as_number none = none
as_number (some (s, r)) = some (number s, r)

pub as_array : Option (Values × Bytes) → Read
as_array none = none
as_array (some (vs, r)) = some (array vs, r)

pub as_object : Option (Members × Bytes) → Read
as_object none = none
as_object (some (ms, r)) = some (object ms, r)

-- A value that starts with byte `c`; `array_at` and `object_at` read what stands behind a bracket.
pub start_at :
    (Bytes → Option (Values × Bytes)) → (Bytes → Option (Members × Bytes)) → ℕ → Bytes → Read
start_at array_at object_at c s =
    if c == b'{'
    then as_object (object_at s)
    else if c == b'['
    then as_array (array_at s)
    else if c == b'"'
    then as_text (read_text s)
    else if c == b't'
    then literal (boolean true) (behind (codes "rue") s)
    else if c == b'f'
    then literal (boolean false) (behind (codes "alse") s)
    else if c == b'n'
    then literal null (behind (codes "ull") s)
    else as_number (read_number (c ∷ s))

pub value_at : (Bytes → Option (Values × Bytes)) → (Bytes → Option (Members × Bytes)) → Bytes → Read
value_at array_at object_at [] = none
value_at array_at object_at (c ∷ s) = start_at array_at object_at c s

pub put_value : Value → Option (Values × Bytes) → Option (Values × Bytes)
put_value v none = none
put_value v (some (vs, r)) = some (value v vs, r)

pub put_member : Bytes → Value → Option (Members × Bytes) → Option (Members × Bytes)
put_member k v none = none
put_member k v (some (ms, r)) = some (member k v ms, r)

-- Behind an element: the closing bracket, or a comma and further elements.
pub values_tail : (Bytes → Option (Values × Bytes)) → Value → Bytes → Option (Values × Bytes)
values_tail more v [] = none
values_tail more v (c ∷ s) =
    if c == b']'
    then some (value v no_values, s)
    else if c == b','
    then put_value v (more s)
    else none

pub values_behind : (Bytes → Option (Values × Bytes)) → Read → Option (Values × Bytes)
values_behind more none = none
values_behind more (some (v, r)) = values_tail more v (skip_space r)

pub members_tail :
    (Bytes → Option (Members × Bytes)) → Bytes → Value → Bytes → Option (Members × Bytes)
members_tail more k v [] = none
members_tail more k v (c ∷ s) =
    if c == b'}'
    then some (member k v no_members, s)
    else if c == b','
    then put_member k v (more s)
    else none

pub members_behind : (Bytes → Option (Members × Bytes)) → Bytes → Read → Option (Members × Bytes)
members_behind more k none = none
members_behind more k (some (v, r)) = members_tail more k v (skip_space r)

-- Behind a key: the colon and the value.
pub colon_at :
    (Bytes → Read) → (Bytes → Option (Members × Bytes)) → Bytes → Bytes → Option (Members × Bytes)
colon_at read more k [] = none
colon_at read more k (c ∷ s) = if c == b':' then members_behind more k (read s) else none

pub key_behind :
    (Bytes → Read)
    → (Bytes → Option (Members × Bytes))
    → Option (Bytes × Bytes)
    → Option (Members × Bytes)
key_behind read more none = none
key_behind read more (some (k, r)) = colon_at read more k (skip_space r)

pub key_at : (Bytes → Read) → (Bytes → Option (Members × Bytes)) → Bytes → Option (Members × Bytes)
key_at read more [] = none
key_at read more (c ∷ s) = if c == b'"' then key_behind read more (read_text s) else none

-- Behind an opening bracket: the closing one, or the first element.
pub open_array : (Bytes → Option (Values × Bytes)) → Bytes → Option (Values × Bytes)
open_array more [] = none
open_array more (c ∷ s) = if c == b']' then some (no_values, s) else more (c ∷ s)

pub open_object : (Bytes → Option (Members × Bytes)) → Bytes → Option (Members × Bytes)
open_object more [] = none
open_object more (c ∷ s) = if c == b'}' then some (no_members, s) else more (c ∷ s)

-- Go allows a nesting of 10,000 brackets: `depth` is what is left of it.
unfoldable mutual
  pub parse_value : ℕ → ℕ → Bytes → Read
  parse_value zero depth s = none
  parse_value (suc fuel) zero s = value_at (λ r. none) (λ r. none) (skip_space s)
  parse_value (suc fuel) (suc depth) s =
      value_at (λ r. open_array (parse_values fuel depth) (skip_space r))
        (λ r. open_object (parse_members fuel depth) (skip_space r)) (skip_space s)

  pub parse_values : ℕ → ℕ → Bytes → Option (Values × Bytes)
  parse_values zero depth s = none
  parse_values (suc fuel) depth s =
      values_behind (parse_values fuel depth) (parse_value fuel depth s)

  pub parse_members : ℕ → ℕ → Bytes → Option (Members × Bytes)
  parse_members zero depth s = none
  parse_members (suc fuel) depth s =
      key_at (parse_value fuel depth) (parse_members fuel depth) (skip_space s)

-- Nothing but space may follow.
pub end_at : Read → Option Value
end_at none = none
end_at (some (v, r)) = if bytes_eq (skip_space r) [] then some v else none

-- The value that a text holds; `none` is a syntax error.
unfoldable pub parse : Bytes → Option Value
unfolding parse_value end_at skip_space value_at start_at as_text as_number as_array as_object
    literal behind open_array open_object values_behind values_tail key_at key_behind colon_at
    members_behind members_tail put_value put_member read_text read_number
parse s = end_at (parse_value (2 * length s + 1) 10000 s)
