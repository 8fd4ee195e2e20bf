-- ===== src/Golang/Strings.antt =====
-- `strings.TrimSpace`: the white space of Unicode, as its UTF-8 bytes, at both ends of a text.
use weft_driver_vz.Common.{
  ℕ, zero, suc, ◌-◌, ◌≤◌, ◌≡◌, refl, Bool, true, false, ◌&&◌, ◌||◌, [], ◌∷◌, reverse,
  reverse-reverse, arith, leb, ◌==◌, if◌then◌else◌, All, All-append, Bytes,
}
use mathlib.Core.List.{reverse-cons}

abbrev is_ascii_space : ℕ → Bool
is_ascii_space c = (leb 0x09 c && leb c 0x0D) || c == 0x20

-- The last byte of U+2000 to U+200A, U+2028, U+2029 and U+202F.
abbrev is_general : ℕ → Bool
is_general c = (leb 0x80 c && leb c 0x8A) || (c == 0xA8 || (c == 0xA9 || c == 0xAF))

space2 : ℕ → ℕ → Bool
space2 a b = a == 0xC2 && (b == 0x85 || b == 0xA0)

space3 : ℕ → ℕ → ℕ → Bool
space3 a b c =
    (a == 0xE1 && (b == 0x9A && c == 0x80))
    || ((a == 0xE2 && ((b == 0x80 && is_general c) || (b == 0x81 && c == 0x9F)))
        || (a == 0xE3 && (b == 0x80 && c == 0x80)))

-- The number of bytes of the white space at the front, 0 if there is none; `flip` is true for a
-- text that is read from its end.
width_tail : Bool → ℕ → Bytes → ℕ
width_tail flip a [] = 0
width_tail false a (b ∷ []) = if space2 a b then 2 else 0
width_tail true a (b ∷ []) = if space2 b a then 2 else 0
width_tail false a (b ∷ c ∷ s) = if space2 a b then 2 else if space3 a b c then 3 else 0
width_tail true a (b ∷ c ∷ s) = if space2 b a then 2 else if space3 c b a then 3 else 0

space_width : Bool → ℕ → Bytes → ℕ
space_width flip a s = if is_ascii_space a then 1 else width_tail flip a s

-- `skip` bytes belong to a white space that has been seen.
trim_front : Bool → ℕ → Bytes → Bytes
trim_front flip skip [] = []
trim_front flip (suc skip) (a ∷ s) = trim_front flip skip s
trim_front flip zero (a ∷ s) =
    let more = trim_front flip (space_width flip a s - 1) s in
    if space_width flip a s == 0 then a ∷ s else more

unfoldable pub trim_space : Bytes → Bytes
unfolding trim_front space_width width_tail space2 space3
trim_space s = reverse (trim_front true 0 (reverse (trim_front false 0 s)))

-- Printable ASCII.
abbrev pub IsGraph : ℕ → Type 0
IsGraph c = (0x21 ≤ c) × (c ≤ 0x7E)

space_width-IsGraph : (flip : Bool) (a : ℕ) (s : Bytes) → IsGraph a → space_width flip a s ≡ 0
unfolding space_width width_tail space2 space3
space_width-IsGraph flip a [] h = ground arith
space_width-IsGraph false a (b ∷ []) h = ground arith
space_width-IsGraph true a (b ∷ []) h = ground arith
space_width-IsGraph false a (b ∷ c ∷ s) h = ground arith
space_width-IsGraph true a (b ∷ c ∷ s) h = ground arith

trim_front-IsGraph : (flip : Bool) (s : Bytes) → All IsGraph s → trim_front flip 0 s ≡ s
unfolding trim_front
trim_front-IsGraph flip [] h = refl
trim_front-IsGraph flip (a ∷ s) (ha, h) = rw (space_width-IsGraph flip a s ha)

reverse-IsGraph : (s : Bytes) → All IsGraph s → All IsGraph (reverse s)
reverse-IsGraph [] h = tt
reverse-IsGraph (c ∷ s) (hc, h) =
    rw (reverse-cons c s) (All-append IsGraph (reverse s) (c ∷ []) (reverse-IsGraph s h) (hc, tt))

-- A text without white space is left alone.
pub trim_space-IsGraph : (s : Bytes) → All IsGraph s → trim_space s ≡ s
unfolding trim_space
trim_space-IsGraph s h = rw (
  trim_front-IsGraph false s h,
  trim_front-IsGraph true (reverse s) (reverse-IsGraph s h),
  reverse-reverse,
)
