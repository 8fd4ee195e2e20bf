-- ===== src/Golang/Utf8.antt =====
-- `for i, c := range s` over a Go string: the runes of its UTF-8 text with their byte indices.
pub mod Whole
use weft_driver_vz.Common.{
  ℕ, zero, suc, ◌+◌, ◌-◌, ◌*◌, ◌/◌, ◌%◌, ◌^◌, ◌≤◌, ◌<◌, String, ◌≡◌, refl, sym, ap, ◌∙◌, subst,
  fun_ext, ◌≢◌, ◌↔◌, ◌⊎◌, inl, inr, Bool, true, false, not, ◌&&◌, ◌||◌, Option, none, some, List,
  [], ◌∷◌, ◌++◌, map, foldl, reverse, append-nil, append_assoc, reverse-append, reverse-reverse,
  arith, ltb, leb, ◌==◌, if◌then◌else◌, ==_iff, Bool-cases, Option-cases, length, take, drop,
  length-append, take-append-drop, drop-append, take-append, length-take, length-drop, take-nil,
  take-all, take_past, drop_past, All, All-append, Bytes, codes, bytes_eq, bytes_eq_iff,
}

-- A rune and the number of bytes it takes.
pub record Rune : Type 0 where
  pub value : ℕ
  pub width : ℕ

-- An invalid byte counts as U+FFFD and takes one byte.
abbrev pub invalid : Rune
invalid = record { value = 0xFFFD; width = 1 }

abbrev pub within : ℕ → ℕ → ℕ → Bool
within lo hi c = leb lo c && leb c hi

pub two : ℕ → Bytes → Rune
two b (c ∷ _) =
    if within 0x80 0xBF c
    then record { value = (b - 0xC0) * 64 + (c - 0x80); width = 2 }
    else invalid
two b _ = invalid

-- `lo` and `hi` bound the second byte: they keep overlong forms and surrogates out.
pub three : ℕ → ℕ → ℕ → Bytes → Rune
three lo hi b (c ∷ d ∷ _) =
    if within lo hi c && within 0x80 0xBF d
    then record { value = (b - 0xE0) * 4096 + (c - 0x80) * 64 + (d - 0x80); width = 3 }
    else invalid
three lo hi b _ = invalid

pub four : ℕ → ℕ → ℕ → Bytes → Rune
four lo hi b (c ∷ d ∷ e ∷ _) =
    if within lo hi c && (within 0x80 0xBF d && within 0x80 0xBF e)
    then record {
      value = (b - 0xF0) * 262144 + (c - 0x80) * 4096 + (d - 0x80) * 64 + (e - 0x80);
      width = 4;
    }
    else invalid
four lo hi b _ = invalid

-- The rune that starts with byte `b`, with the bytes `s` behind it.
unfoldable pub decode_rune : ℕ → Bytes → Rune
decode_rune b s =
    if ltb b 0x80
    then record { value = b; width = 1 }
    else if ltb b 0xC2
    then invalid
    else if ltb b 0xE0
    then two b s
    else if ltb b 0xF0
    then three (if b == 0xE0 then 0xA0 else 0x80) (if b == 0xED then 0x9F else 0xBF) b s
    else if ltb b 0xF5
    then four (if b == 0xF0 then 0x90 else 0x80) (if b == 0xF4 then 0x8F else 0xBF) b s
    else invalid

-- The indices and runes of `s`, whose first byte stands at index `i`; `skip` bytes of it belong to
-- the rune before.
unfoldable pub runes_from : ℕ → ℕ → Bytes → List (ℕ × ℕ)
runes_from i skip [] = []
runes_from i (suc skip) (b ∷ s) = runes_from (i + 1) skip s
runes_from i zero (b ∷ s) =
    (i, (decode_rune b s).value) ∷ runes_from (i + 1) ((decode_rune b s).width - 1) s

unfoldable pub runes : Bytes → List (ℕ × ℕ)
unfolding runes_from decode_rune two three four
runes s = runes_from 0 0 s

abbrev pub IsHigh : ℕ → Type 0
IsHigh b = 0x80 ≤ b

two-IsHigh : (b : ℕ) (s : Bytes) → All IsHigh (take ((two b s).width - 1) s)
unfolding two
two-IsHigh b [] = ground arith
two-IsHigh b (c ∷ s) = ground arith

three-IsHigh :
    (lo hi b : ℕ) (s : Bytes) → 0x80 ≤ lo → All IsHigh (take ((three lo hi b s).width - 1) s)
unfolding three
three-IsHigh lo hi b [] h = tt
three-IsHigh lo hi b (c ∷ []) h = ground arith
three-IsHigh lo hi b (c ∷ d ∷ s) h = ground arith

four-IsHigh :
    (lo hi b : ℕ) (s : Bytes) → 0x80 ≤ lo → All IsHigh (take ((four lo hi b s).width - 1) s)
unfolding four
four-IsHigh lo hi b [] h = tt
four-IsHigh lo hi b (c ∷ []) h = ground arith
four-IsHigh lo hi b (c ∷ d ∷ []) h = ground arith
four-IsHigh lo hi b (c ∷ d ∷ e ∷ s) h = ground arith

-- The bytes of a rune behind its first one are not ASCII.
pub decode_rune-IsHigh : (b : ℕ) (s : Bytes) → All IsHigh (take ((decode_rune b s).width - 1) s)
unfolding decode_rune
decode_rune-IsHigh b s = ground (
  arith,
  two-IsHigh b s,
  three-IsHigh (if b == 0xE0 then 0xA0 else 0x80) (if b == 0xED then 0x9F else 0xBF) b s,
  four-IsHigh (if b == 0xF0 then 0x90 else 0x80) (if b == 0xF4 then 0x8F else 0xBF) b s,
)

two-high : (b : ℕ) (s : Bytes) → 0xC2 ≤ b → 0x80 ≤ (two b s).value
unfolding two
two-high b [] h = omega arith
two-high b (c ∷ s) h = ground arith

three-high :
    (lo hi b : ℕ) (s : Bytes) → (b ≡ 0xE0 → 0xA0 ≤ lo) → 0xE0 ≤ b → 0x80 ≤ (three lo hi b s).value
unfolding three
three-high lo hi b [] k h = omega arith
three-high lo hi b (c ∷ []) k h = omega arith
three-high lo hi b (c ∷ d ∷ s) k h = ground arith

four-high :
    (lo hi b : ℕ) (s : Bytes) → (b ≡ 0xF0 → 0x90 ≤ lo) → 0xF0 ≤ b → 0x80 ≤ (four lo hi b s).value
unfolding four
four-high lo hi b [] k h = omega arith
four-high lo hi b (c ∷ []) k h = omega arith
four-high lo hi b (c ∷ d ∷ []) k h = omega arith
four-high lo hi b (c ∷ d ∷ e ∷ s) k h = ground arith

-- An ASCII byte is its own rune, and any other byte starts a rune that is not ASCII.
pub decode_rune_ascii :
    (b : ℕ) (s : Bytes)
    → ((decode_rune b s).value ≡ b) ⊎ (IsHigh b × IsHigh (decode_rune b s).value)
unfolding decode_rune
decode_rune_ascii b s = ground (
  arith,
  two-high b s,
  three-high (if b == 0xE0 then 0xA0 else 0x80) (if b == 0xED then 0x9F else 0xBF) b s,
  four-high (if b == 0xF0 then 0x90 else 0x80) (if b == 0xF4 then 0x8F else 0xBF) b s,
)

pub decode_rune_width : (b : ℕ) (s : Bytes) → suc b ≤ 0x80 → (decode_rune b s).width ≡ 1
unfolding decode_rune
decode_rune_width b s h = ground arith
