-- ===== src/Golang/Json/Marshal/OneLine.antt =====
-- `json.Marshal`: what it writes holds no line feed.
use weft_driver_vz.Common.{
  ℕ, zero, suc, ◌-◌, ◌/◌, ◌%◌, ◌≤◌, ◌<◌, ◌≡◌, ◌≢◌, inl, inr, true, false, [], ◌∷◌, ◌++◌, arith, ltb,
  ◌==◌, Bool-cases, take, All, All-append, Bytes,
}
use native.Mathlib.Numerals.{unary_clauses}
use weft_driver_vz.Golang.Strconv.{itoa, IsDigit, itoa-digits}
use weft_driver_vz.Golang.Utf8.{decode_rune, decode_rune-IsHigh, IsHigh}
use weft_driver_vz.Golang.Json.{
  Value, null, boolean, number, text, array, object, Values, no_values, value, Members, no_members,
  member, hex, escape_hex, ascii, one_rune, escaped, quote,
}
use weft_driver_vz.Golang.Json.Marshal.{compact, compact_values, compact_members, marshal}
use weft_driver_vz.Golang.Json.Parse.Printed.{IsPrinted, ArePrinted, MembersPrinted}
use weft_driver_vz.Marks.Search.{Lacks}

abbrev IsLine : Bytes → Type 0
IsLine = Lacks b'\n'

hex-ne : (n : ℕ) → n < 16 → hex n ≢ b'\n'
hex-ne n l = ground arith

escape_hex-IsLine : (b : ℕ) → b < 0x80 → IsLine (escape_hex b)
unfolding escape_hex
escape_hex-IsLine b l =
    let e = hex-ne (b / 16) (omega arith) in let f = hex-ne (b % 16) (omega arith) in ground arith

ascii-IsLine : (b : ℕ) → b < 0x80 → IsLine (ascii b)
unfolding ascii
ascii-IsLine b l = let e = escape_hex-IsLine b l in ground arith

high-IsLine : (s : Bytes) → All IsHigh s → IsLine s
high-IsLine [] a = tt
high-IsLine (c ∷ s) (h, a) = (ground arith, high-IsLine s a)

take-IsLine :
    (n b : ℕ) (s : Bytes) → 0x80 ≤ b → All IsHigh (take (n - 1) s) → IsLine (take n (b ∷ s))
take-IsLine zero b s l a = tt
take-IsLine (suc n) b s l a = (omega arith, high-IsLine (take n s) (simp unary_clauses at a))

-- A rune that takes more than one byte does not start with ASCII.
wide_high : (b : ℕ) (s : Bytes) → ((decode_rune b s).width == 1) ≡ false → 0x80 ≤ b
unfolding decode_rune
wide_high b s e = elim (Bool-cases (ltb b 0x80)) [
  | inl l ↦ let e' = rw l at e in cc e'
  | inr l ↦ ground arith
]

one_rune-IsLine : (b : ℕ) (s : Bytes) → IsLine (one_rune b s)
unfolding one_rune
one_rune-IsLine b s = elim (Bool-cases ((decode_rune b s).width == 1)) [
  | inl e ↦ elim (Bool-cases (ltb b 0x80)) [
    | inl l ↦ rw (e, l) (ascii-IsLine b (ground arith))
    | inr l ↦ rw (e, l) (omega arith)
  ]
  | inr e ↦ elim (Bool-cases ((decode_rune b s).value == 0x2028)) [
    | inl x ↦ rw (e, x) (omega arith)
    | inr x ↦ elim (Bool-cases ((decode_rune b s).value == 0x2029)) [
      | inl y ↦ rw (e, x, y) (omega arith)
      | inr y ↦
          rw (e, x, y)
            (take-IsLine (decode_rune b s).width b s (wide_high b s e) (decode_rune-IsHigh b s))
    ]
  ]
]

escaped-IsLine : (skip : ℕ) (s : Bytes) → IsLine (escaped skip s)
unfolding escaped
escaped-IsLine skip [] = tt
escaped-IsLine (suc skip) (b ∷ s) = escaped-IsLine skip s
escaped-IsLine zero (b ∷ s) =
    All-append _ (one_rune b s) (escaped ((decode_rune b s).width - 1) s) (one_rune-IsLine b s)
      (escaped-IsLine ((decode_rune b s).width - 1) s)

quote-IsLine : (s : Bytes) → IsLine (quote s)
unfolding quote
quote-IsLine s =
    (omega arith, All-append _ (escaped 0 s) (b'"' ∷ []) (escaped-IsLine 0 s) (omega arith))

digits-IsLine : (s : Bytes) → All IsDigit s → IsLine s
digits-IsLine [] a = tt
digits-IsLine (c ∷ s) (d, a) = (ground arith, digits-IsLine s a)

lines_join : (a b : Bytes) → IsLine a → IsLine b → IsLine (a ++ b)
lines_join a b x y = All-append _ a b x y

member-IsLine : (k s t : Bytes) → IsLine s → IsLine t → IsLine (quote k ++ b':' ∷ s ++ t)
member-IsLine k s t x y =
    lines_join (quote k ++ b':' ∷ s) t
      (lines_join (quote k) (b':' ∷ s) (quote-IsLine k) (omega arith, x)) y

mutual
  unfolding compact IsPrinted

  compact-IsLine : (depth : ℕ) (v : Value) → IsPrinted depth v → IsLine (compact v)
  compact-IsLine depth null p = omega arith
  compact-IsLine depth (boolean true) p = omega arith
  compact-IsLine depth (boolean false) p = omega arith
  compact-IsLine depth (number s) (n, p) = rw p (digits-IsLine (itoa n) (itoa-digits n))
  compact-IsLine depth (text s) p = quote-IsLine s
  compact-IsLine depth (array no_values) p = omega arith
  compact-IsLine depth (object no_members) p = omega arith
  compact-IsLine zero (array (value v vs)) p = absurd p
  compact-IsLine zero (object (member k v ms)) p = absurd p
  compact-IsLine (suc depth) (array (value v vs)) (p, ps) = (
    omega arith,
    lines_join (compact v) (compact_values vs) (compact-IsLine depth v p)
        (compact_values-IsLine depth vs ps),
  )
  compact-IsLine (suc depth) (object (member k v ms)) (p, ps) = (
    omega arith,
    member-IsLine k (compact v) (compact_members ms) (compact-IsLine depth v p)
        (compact_members-IsLine depth ms ps),
  )

  compact_values-IsLine :
      (depth : ℕ) (vs : Values) → ArePrinted depth vs → IsLine (compact_values vs)
  compact_values-IsLine depth no_values p = omega arith
  compact_values-IsLine depth (value v vs) (p, ps) = (
    omega arith,
    lines_join (compact v) (compact_values vs) (compact-IsLine depth v p)
        (compact_values-IsLine depth vs ps),
  )

  compact_members-IsLine :
      (depth : ℕ) (ms : Members) → MembersPrinted depth ms → IsLine (compact_members ms)
  compact_members-IsLine depth no_members p = omega arith
  compact_members-IsLine depth (member k v ms) (p, ps) = (
    omega arith,
    member-IsLine k (compact v) (compact_members ms) (compact-IsLine depth v p)
        (compact_members-IsLine depth ms ps),
  )

pub marshal-IsLine : (v : Value) → IsPrinted 10000 v → Lacks b'\n' (marshal v)
unfolding marshal
marshal-IsLine v p = compact-IsLine 10000 v p
