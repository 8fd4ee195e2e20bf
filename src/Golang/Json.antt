-- ===== src/Golang/Json.antt =====
-- encoding/json: values, and `MarshalIndent` with the prefix "" and the indent "  ".
pub mod Texts
pub mod Parse
pub mod Decode
pub mod Marshal
use weft_driver_vz.Common.{
  ℕ, zero, suc, ◌+◌, ◌-◌, ◌*◌, ◌/◌, ◌%◌, ◌^◌, ◌≤◌, ◌<◌, String, ◌≡◌, refl, sym, ap, ◌∙◌, subst,
  fun_ext, ◌≢◌, ◌↔◌, ◌⊎◌, inl, inr, Bool, true, false, not, ◌&&◌, ◌||◌, Option, none, some, List,
  [], ◌∷◌, ◌++◌, map, foldl, reverse, append-nil, append_assoc, reverse-append, reverse-reverse,
  arith, ltb, leb, ◌==◌, if◌then◌else◌, ==_iff, Bool-cases, Option-cases, length, take, drop,
  length-append, take-append-drop, drop-append, take-append, length-take, length-drop, take-nil,
  take-all, take_past, drop_past, All, All-append, Bytes, codes, bytes_eq, bytes_eq_iff,
}
use weft_driver_vz.Golang.Utf8.{decode_rune}

mutual
  -- A value; the keys of an object are given in order.
  pub data Value : Type 0 where
    null : Value
    boolean : Bool → Value
    -- A number by its literal.
    number : Bytes → Value
    text : Bytes → Value
    array : Values → Value
    object : Members → Value

  pub data Values : Type 0 where
    no_values : Values
    value : Value → Values → Values

  pub data Members : Type 0 where
    no_members : Members
    member : Bytes → Value → Members → Members

abbrev pub hex : ℕ → ℕ
hex n = if ltb n 10 then b'0' + n else b'a' + (n - 10)

pub escape_hex : ℕ → Bytes
escape_hex b = codes "\\u00" ++ hex (b / 16) ∷ hex (b % 16) ∷ []

-- One ASCII byte of a string.
pub ascii : ℕ → Bytes
unfolding escape_hex
ascii b =
    if b == b'"' || b == b'\\'
    then b'\\' ∷ b ∷ []
    else if b == 8
    then codes "\\b"
    else if b == 12
    then codes "\\f"
    else if b == b'\n'
    then codes "\\n"
    else if b == b'\r'
    then codes "\\r"
    else if b == b'\t'
    then codes "\\t"
    else if ltb b 0x20 || (b == b'<' || (b == b'>' || b == b'&'))
    then escape_hex b
    else b ∷ []

-- The rune that starts with byte `b`, `s` behind it: an invalid byte, U+2028 and U+2029 are escaped.
pub one_rune : ℕ → Bytes → Bytes
one_rune b s =
    let r = decode_rune b s in
    if r.width == 1
    then (if ltb b 0x80 then ascii b else codes "\\ufffd")
    else if r.value == 0x2028
    then codes "\\u2028"
    else if r.value == 0x2029
    then codes "\\u2029"
    else take r.width (b ∷ s)

pub escaped : ℕ → Bytes → Bytes
escaped skip [] = []
escaped (suc skip) (b ∷ s) = escaped skip s
escaped zero (b ∷ s) = one_rune b s ++ escaped ((decode_rune b s).width - 1) s

unfoldable pub quote : Bytes → Bytes
unfolding escaped one_rune ascii decode_rune
quote s = b'"' ∷ escaped 0 s ++ b'"' ∷ []

-- A line break and the indent of depth `d`.
pub break : ℕ → Bytes
break zero = b'\n' ∷ []
break (suc d) = break d ++ codes "  "

mutual
  pub render : ℕ → Value → Bytes
  render d null = codes "null"
  render d (boolean true) = codes "true"
  render d (boolean false) = codes "false"
  render d (number s) = s
  render d (text s) = quote s
  render d (array no_values) = codes "[]"
  render d (array (value v vs)) =
      b'[' ∷ break (suc d) ++ render (suc d) v ++ render_values (suc d) vs ++ break d ++ b']' ∷ []
  render d (object no_members) = codes "{}"
  render d (object (member k v ms)) =
      b'{' ∷ break (suc d)
      ++ quote k
      ++ codes ": "
      ++ render (suc d) v
      ++ render_members (suc d) ms
      ++ break d
      ++ b'}' ∷ []

  pub render_values : ℕ → Values → Bytes
  render_values d no_values = []
  render_values d (value v vs) = b',' ∷ break d ++ render d v ++ render_values d vs

  pub render_members : ℕ → Members → Bytes
  render_members d no_members = []
  render_members d (member k v ms) =
      b',' ∷ break d ++ quote k ++ codes ": " ++ render d v ++ render_members d ms

unfoldable pub marshal_indent : Value → Bytes
unfolding render render_values render_members break quote
marshal_indent v = render 0 v
