-- ===== src/Golang/Json/Texts/Quote.antt =====
-- encoding/json: a string that was written is read back, an invalid byte as U+FFFD.
use weft_driver_vz.Common.{
  ℕ, zero, suc, ◌-◌, ◌≤◌, ◌<◌, ◌≡◌, refl, sym, ap, ◌∙◌, subst, inl, inr, false, Option, none, some,
  [], ◌∷◌, ◌++◌, append_assoc, arith, ltb, ◌==◌, ==_iff, Bool-cases, length, take, drop,
  drop-append, length-take, All, Bytes, codes,
}
use weft_driver_vz.Golang.Utf8.{decode_rune}
use weft_driver_vz.Golang.Utf8.Whole.{IsWhole, decode_rune-cases}
use weft_driver_vz.Golang.Json.{one_rune, escaped, quote}
use weft_driver_vz.Golang.Json.Texts.{
  push, hex_digit, hex_join, hex4, encode_rune, is_high, is_low, plain_at, read_text,
}
use weft_driver_vz.Golang.Json.Texts.Fuel.{read_text_step}
use weft_driver_vz.Golang.Json.Texts.Escapes.{
  encode_rune_ascii, decode_rune_low, read_unicode, read_ascii,
}

-- What a text becomes by being written and read; `skip` bytes belong to the rune before.
pub mended_from : ℕ → Bytes → Bytes
mended_from skip [] = []
mended_from (suc skip) (b ∷ s) = mended_from skip s
mended_from zero (b ∷ s) =
    encode_rune (decode_rune b s).value ++ mended_from ((decode_rune b s).width - 1) s

unfoldable pub mended : Bytes → Bytes
unfolding mended_from encode_rune decode_rune
mended s = mended_from 0 s

read_invalid :
    (s : Bytes) → read_text (codes "\\ufffd" ++ s) ≡ push (encode_rune 0xFFFD) (read_text s)
unfolding hex4 hex_join hex_digit is_high is_low
read_invalid s = read_unicode b'f' b'f' b'f' b'd' 0xFFFD s refl refl refl

read_first :
    (s : Bytes) → read_text (codes "\\u2028" ++ s) ≡ push (encode_rune 0x2028) (read_text s)
unfolding hex4 hex_join hex_digit is_high is_low
read_first s = read_unicode b'2' b'0' b'2' b'8' 0x2028 s refl refl refl

read_second :
    (s : Bytes) → read_text (codes "\\u2029" ++ s) ≡ push (encode_rune 0x2029) (read_text s)
unfolding hex4 hex_join hex_digit is_high is_low
read_second s = read_unicode b'2' b'0' b'2' b'9' 0x2029 s refl refl refl

length-take_lem : (n : ℕ) (s : Bytes) → n ≤ length s → length (take n s) ≡ n
length-take_lem n s l = omega (arith, length-take n s)

-- The bytes that `one_rune` keeps of a rune that is not ASCII.
read_wide :
    (b : ℕ) (s rest : Bytes)
    → 0x80 ≤ b
    → IsWhole (decode_rune b) s
    → read_text (take (decode_rune b s).width (b ∷ s) ++ rest)
      ≡ push (encode_rune (decode_rune b s).value) (read_text rest)
unfolding plain_at
read_wide b s rest l i =
    let w = (decode_rune b s).width in
    let t = take (w - 1) s in
    let e1 : (b == b'"') ≡ false = ground arith in
    let e2 : (b == b'\\') ≡ false = ground arith in
    let e3 : ltb b 0x20 ≡ false = ground arith in
    let n : length t ≡ w - 1 = length-take_lem (w - 1) s i.has in
    let d : drop (w - 1) (t ++ rest) ≡ rest =
      subst (λ (k : ℕ). drop k (t ++ rest) ≡ rest) n (drop-append t rest) in
    let e : w ≡ suc (w - 1) = let x = i.wide in omega arith in
    ap (λ (k : ℕ). read_text (take k (b ∷ s) ++ rest)) e
    ∙ (read_text_step b (t ++ rest) ∙ rw (e1, e2, e3, i.same rest) (rw d refl))

read_rune :
    (b : ℕ) (s rest : Bytes)
    → read_text (one_rune b s ++ rest) ≡ push (encode_rune (decode_rune b s).value) (read_text rest)
unfolding one_rune
read_rune b s rest = elim (Bool-cases (ltb b 0x80)) [
  | inl e ↦
      let l : b < 0x80 = ground arith in
      rw (decode_rune_low b s l, e, encode_rune_ascii b l) (read_ascii b rest l)
  | inr e ↦
      let l : 0x80 ≤ b = ground arith in
      elim (decode_rune-cases b s l) [
        | inl q ↦ rw (q, e) (read_invalid rest)
        | inr q ↦
            let w : ((decode_rune b s).width == 1) ≡ false = let x = q.wide in ground arith in
            elim (Bool-cases ((decode_rune b s).value == 0x2028)) [
              | inl x ↦ rw (w, x, (==_iff (decode_rune b s).value 0x2028).0 x) (read_first rest)
              | inr x ↦ elim (Bool-cases ((decode_rune b s).value == 0x2029)) [
                | inl y ↦
                    rw (w, x, y, (==_iff (decode_rune b s).value 0x2029).0 y) (read_second rest)
                | inr y ↦ rw (w, x, y) (read_wide b s rest l q)
              ]
            ]
      ]
]

push-push : (x y : Bytes) (o : Option (Bytes × Bytes)) → push x (push y o) ≡ push (x ++ y) o
push-push x y none = refl
push-push x y (some (s, r)) = ap (λ (t : Bytes). some (t, r)) (sym (append_assoc x y s))

read_escaped :
    (skip : ℕ) (s rest : Bytes)
    → read_text (escaped skip s ++ b'"' ∷ rest) ≡ some (mended_from skip s, rest)
unfolding escaped mended_from
read_escaped skip [] rest = read_text_step b'"' rest
read_escaped (suc skip) (b ∷ s) rest = read_escaped skip s rest
read_escaped zero (b ∷ s) rest =
    let k = (decode_rune b s).width - 1 in
    ap read_text (append_assoc (one_rune b s) (escaped k s) (b'"' ∷ rest))
    ∙ (read_rune b s (escaped k s ++ b'"' ∷ rest) ∙ rw (read_escaped k s rest) refl)

-- The text behind the opening quote.
abbrev pub quoted : Bytes → Bytes
quoted s = escaped 0 s ++ b'"' ∷ []

pub quote_lem : (s : Bytes) → quote s ≡ b'"' ∷ quoted s
unfolding quote
quote_lem s = refl

-- A text that was written is read back as `mended` has it.
pub read_text-quoted : (s rest : Bytes) → read_text (quoted s ++ rest) ≡ some (mended s, rest)
unfolding mended
read_text-quoted s rest =
    ap read_text (append_assoc (escaped 0 s) (b'"' ∷ []) rest) ∙ read_escaped 0 s rest

-- ASCII is kept.
abbrev pub IsAscii : ℕ → Type 0
IsAscii b = b < 0x80

mended_from-ascii : (s : Bytes) → All IsAscii s → mended_from 0 s ≡ s
unfolding mended_from
mended_from-ascii [] a = refl
mended_from-ascii (b ∷ s) (l, a) =
    rw (decode_rune_low b s l, encode_rune_ascii b l, mended_from-ascii s a) refl

pub mended_ascii : (s : Bytes) → All IsAscii s → mended s ≡ s
unfolding mended
mended_ascii s a = mended_from-ascii s a
