-- ===== src/Golang/Json/Texts/Escapes.antt =====
-- encoding/json: the escapes of ASCII in a string are read back.
use weft_driver_vz.Common.{
  ℕ, ◌/◌, ◌%◌, ◌≤◌, ◌<◌, ◌≡◌, refl, ap, inl, inr, true, false, ◌||◌, some, [], ◌∷◌, ◌++◌, arith,
  ltb, ◌==◌, ==_iff, Bool-cases, Option-cases, Bytes,
}
use weft_driver_vz.Golang.Utf8.{decode_rune}
use weft_driver_vz.Golang.Json.{hex, escape_hex, ascii}
use weft_driver_vz.Golang.Json.Texts.{
  Reader, push, hex_digit, hex_join, hex4, second_half, lone, encode_rune, is_high, is_low, pair_at,
  unicode_at, hex_at, unescape, simple_at, escape_at, plain_at, read_text,
}
use weft_driver_vz.Golang.Json.Texts.Fuel.{read_text_step}

pub encode_rune_ascii : (b : ℕ) → b < 0x80 → encode_rune b ≡ b ∷ []
unfolding encode_rune
encode_rune_ascii b l = ground arith

pub decode_rune_low :
    (b : ℕ) (s : Bytes) → b < 0x80 → decode_rune b s ≡ record { value = b; width = 1 }
unfolding decode_rune
decode_rune_low b s l = let e : ltb b 0x80 ≡ true = ground arith in rw e refl

pub hex_digit-hex : (n : ℕ) → n < 16 → hex_digit (hex n) ≡ some n
unfolding hex_digit
hex_digit-hex n l = ground arith

pub hex4-hex : (b : ℕ) → b < 0x80 → hex4 b'0' b'0' (hex (b / 16)) (hex (b % 16)) ≡ some b
unfolding hex4 hex_join
hex4-hex b l =
    let z : hex_digit b'0' ≡ some 0 = unfold hex_digit in refl in
    rw (z, hex_digit-hex (b / 16) (omega arith), hex_digit-hex (b % 16) (omega arith))
      (ap some (omega arith))

-- A number that is no half of a surrogate pair.
pub unicode_at-plain :
    (k : Reader) (b : ℕ) (s : Bytes)
    → is_high b ≡ false
    → is_low b ≡ false
    → unicode_at k (some b) s ≡ push (encode_rune b) (k s)
unfolding unicode_at pair_at lone
unicode_at-plain k b s x y = elim (Option-cases (second_half s)) [
  | inl e ↦ rw (e, x, y) refl
  | inr (lo, e) ↦ rw (e, x, y) refl
]

pub read_ascii-plain :
    (b : ℕ) (s : Bytes)
    → b < 0x80
    → 0x20 ≤ b
    → (b == b'"') ≡ false
    → (b == b'\\') ≡ false
    → read_text (b ∷ s) ≡ push (b ∷ []) (read_text s)
unfolding plain_at
read_ascii-plain b s l m x y =
    let z : ltb b 0x20 ≡ false = ground arith in
    rw (read_text_step b s, x, y, z, decode_rune_low b s l, encode_rune_ascii b l) refl

pub read_escape : (c : ℕ) (s : Bytes) → read_text (b'\\' ∷ c ∷ s) ≡ escape_at read_text (c ∷ s)
read_escape c s = rw (read_text_step b'\\' (c ∷ s)) refl

pub low_no_surrogate : (b : ℕ) → b < 0x80 → (is_high b ≡ false) × (is_low b ≡ false)
unfolding is_high is_low
low_no_surrogate b l = (ground arith, ground arith)

pub read_unicode :
    (a b c d n : ℕ) (s : Bytes)
    → hex4 a b c d ≡ some n
    → is_high n ≡ false
    → is_low n ≡ false
    → read_text (b'\\' ∷ b'u' ∷ a ∷ b ∷ c ∷ d ∷ s) ≡ push (encode_rune n) (read_text s)
unfolding escape_at hex_at
read_unicode a b c d n s e x y =
    rw (read_escape b'u' (a ∷ b ∷ c ∷ d ∷ s), e) (unicode_at-plain read_text n s x y)

pub read_hex :
    (b : ℕ) (s : Bytes) → b < 0x80 → read_text (escape_hex b ++ s) ≡ push (b ∷ []) (read_text s)
unfolding escape_hex
read_hex b s l =
    let (x, y) = low_no_surrogate b l in
    rw
      (
        read_unicode b'0' b'0' (hex (b / 16)) (hex (b % 16)) b s (hex4-hex b l) x y,
        encode_rune_ascii b l,
      )
      refl

pub read_simple :
    (c n : ℕ) (s : Bytes)
    → unescape c ≡ some n
    → (c == b'u') ≡ false
    → read_text (b'\\' ∷ c ∷ s) ≡ push (n ∷ []) (read_text s)
unfolding escape_at simple_at
read_simple c n s u x = rw (read_escape c s, x, u) refl

pub read_ascii :
    (b : ℕ) (s : Bytes) → b < 0x80 → read_text (ascii b ++ s) ≡ push (b ∷ []) (read_text s)
unfolding ascii unescape
read_ascii b s l = elim (Bool-cases (b == b'"')) [
  | inl e ↦ let q : b ≡ b'"' = (==_iff b b'"').0 e in rw q (read_simple b'"' b'"' s refl refl)
  | inr e1 ↦ elim (Bool-cases (b == b'\\')) [
    | inl e ↦ let q : b ≡ b'\\' = (==_iff b b'\\').0 e in rw q (read_simple b'\\' b'\\' s refl refl)
    | inr e2 ↦ elim (Bool-cases (b == 8)) [
      | inl e ↦ let q : b ≡ 8 = (==_iff b 8).0 e in rw q (read_simple b'b' 8 s refl refl)
      | inr e3 ↦ elim (Bool-cases (b == 12)) [
        | inl e ↦ let q : b ≡ 12 = (==_iff b 12).0 e in rw q (read_simple b'f' 12 s refl refl)
        | inr e4 ↦ elim (Bool-cases (b == b'\n')) [
          | inl e ↦
              let q : b ≡ b'\n' = (==_iff b b'\n').0 e in rw q (read_simple b'n' b'\n' s refl refl)
          | inr e5 ↦ elim (Bool-cases (b == b'\r')) [
            | inl e ↦
                let q : b ≡ b'\r' = (==_iff b b'\r').0 e in
                rw q (read_simple b'r' b'\r' s refl refl)
            | inr e6 ↦ elim (Bool-cases (b == b'\t')) [
              | inl e ↦
                  let q : b ≡ b'\t' = (==_iff b b'\t').0 e in
                  rw q (read_simple b't' b'\t' s refl refl)
              | inr e7 ↦ elim (Bool-cases (ltb b 0x20 || (b == b'<' || (b == b'>' || b == b'&')))) [
                | inl e ↦ rw (e1, e2, e3, e4, e5, e6, e7, e) (read_hex b s l)
                | inr e ↦
                    rw (e1, e2, e3, e4, e5, e6, e7, e) (read_ascii-plain b s l (ground arith) e1 e2)
              ]
            ]
          ]
        ]
      ]
    ]
  ]
]
