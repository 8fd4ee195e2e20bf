-- ===== src/Golang/Json/Texts.antt =====
-- encoding/json: reading a string or a number. The result has what is left of the input; `none` is a
-- syntax error.
pub mod Sizes
pub mod Fuel
pub mod Quote
pub mod Escapes
pub mod Numbers
use weft_driver_vz.Common.{
  ℕ, zero, suc, ◌+◌, ◌-◌, ◌*◌, ◌/◌, ◌%◌, ◌^◌, ◌≤◌, ◌<◌, String, ◌≡◌, refl, sym, ap, ◌∙◌, subst,
  fun_ext, ◌≢◌, ◌↔◌, ◌⊎◌, inl, inr, Bool, true, false, not, ◌&&◌, ◌||◌, Option, none, some, List,
  [], ◌∷◌, ◌++◌, map, foldl, reverse, append-nil, append_assoc, reverse-append, reverse-reverse,
  arith, ltb, leb, ◌==◌, if◌then◌else◌, ==_iff, Bool-cases, Option-cases, length, take, drop,
  length-append, take-append-drop, drop-append, take-append, length-take, length-drop, take-nil,
  take-all, take_past, drop_past, All, All-append, Bytes, codes, bytes_eq, bytes_eq_iff,
}
use weft_driver_vz.Golang.Utf8.{decode_rune, Rune}

abbrev pub Reader : Type 0
Reader = Bytes → Option (Bytes × Bytes)

-- What is read has `b` in front.
abbrev pub push : Bytes → Option (Bytes × Bytes) → Option (Bytes × Bytes)
push b none = none
push b (some (s, r)) = some (b ++ s, r)

unfoldable pub hex_digit : ℕ → Option ℕ
hex_digit c =
    if leb b'0' c && leb c b'9'
    then some (c - b'0')
    else if leb b'a' c && leb c b'f'
    then some (c - b'a' + 10)
    else if leb b'A' c && leb c b'F'
    then some (c - b'A' + 10)
    else none

pub hex_join : Option ℕ → Option ℕ → Option ℕ
hex_join (some n) (some d) = some (n * 16 + d)
hex_join _ _ = none

-- `getu4`
pub hex4 : ℕ → ℕ → ℕ → ℕ → Option ℕ
unfolding hex_digit hex_join
hex4 a b c d =
    hex_join (hex_join (hex_join (hex_digit a) (hex_digit b)) (hex_digit c)) (hex_digit d)

-- The UTF-8 of a rune.
pub encode_rune : ℕ → Bytes
encode_rune r =
    if ltb r 0x80
    then r ∷ []
    else if ltb r 0x800
    then (0xC0 + r / 64) ∷ (0x80 + r % 64) ∷ []
    else if ltb r 0x10000
    then (0xE0 + r / 4096) ∷ (0x80 + r / 64 % 64) ∷ (0x80 + r % 64) ∷ []
    else (0xF0 + r / 262144) ∷ (0x80 + r / 4096 % 64) ∷ (0x80 + r / 64 % 64) ∷ (0x80 + r % 64) ∷ []

-- The number behind `\u` at the front of `s`: the second half of a surrogate pair, perhaps.
pub second_half : Bytes → Option ℕ
second_half (a ∷ b ∷ c ∷ d ∷ e ∷ f ∷ s) = if a == b'\\' && b == b'u' then hex4 c d e f else none
second_half _ = none

pub is_high : ℕ → Bool
is_high r = leb 0xD800 r && ltb r 0xDC00

pub is_low : ℕ → Bool
is_low r = leb 0xDC00 r && ltb r 0xE000

-- A surrogate that is no half of a pair counts as U+FFFD.
pub lone : ℕ → Bytes
lone r = encode_rune (if is_high r || is_low r then 0xFFFD else r)

pub pair_at : Reader → ℕ → Option ℕ → Bytes → Option (Bytes × Bytes)
pair_at k hi none s = push (lone hi) (k s)
pair_at k hi (some lo) s =
    let pair = push (encode_rune ((hi - 0xD800) * 1024 + (lo - 0xDC00) + 0x10000)) (k (drop 6 s)) in
    let single = push (lone hi) (k s) in if is_high hi && is_low lo then pair else single

pub unicode_at : Reader → Option ℕ → Bytes → Option (Bytes × Bytes)
unicode_at k none s = none
unicode_at k (some r) s = pair_at k r (second_half s) s

pub hex_at : Reader → Bytes → Option (Bytes × Bytes)
hex_at k (a ∷ b ∷ c ∷ d ∷ s) = unicode_at k (hex4 a b c d) s
hex_at k _ = none

-- What a backslash and `c` stand for.
pub unescape : ℕ → Option ℕ
unescape c =
    if c == b'"' || (c == b'\\' || c == b'/')
    then some c
    else if c == b'b'
    then some 8
    else if c == b'f'
    then some 12
    else if c == b'n'
    then some b'\n'
    else if c == b'r'
    then some b'\r'
    else if c == b't'
    then some b'\t'
    else none

pub simple_at : Reader → Option ℕ → Bytes → Option (Bytes × Bytes)
simple_at k none s = none
simple_at k (some c) s = push (c ∷ []) (k s)

pub escape_at : Reader → Bytes → Option (Bytes × Bytes)
escape_at k [] = none
escape_at k (c ∷ s) =
    let unicode = hex_at k s in
    let simple = simple_at k (unescape c) s in if c == b'u' then unicode else simple

-- An unescaped rune; invalid UTF-8 counts as U+FFFD.
pub plain_at : Reader → ℕ → Bytes → Option (Bytes × Bytes)
plain_at k c s = push (encode_rune r.value) (k (drop (r.width - 1) s))
  where
    r : Rune
    r = decode_rune c s

-- A string behind its opening quote.
pub chars : ℕ → Reader
chars zero s = none
chars (suc fuel) [] = none
chars (suc fuel) (c ∷ s) =
    let escaped = escape_at (chars fuel) s in
    let plain = plain_at (chars fuel) c s in
    if c == b'"'
    then some ([], s)
    else if c == b'\\'
    then escaped
    else if ltb c 0x20
    then none
    else plain

unfoldable pub read_text : Reader
unfolding chars escape_at simple_at unescape hex_at hex4 unicode_at pair_at lone is_high is_low
    second_half encode_rune plain_at
read_text s = chars (length s + 1) s

abbrev pub is_digit : ℕ → Bool
is_digit c = leb b'0' c && leb c b'9'

-- The digits at the front.
pub digits : Bytes → Bytes × Bytes
digits [] = ([], [])
digits (c ∷ s) = if is_digit c then (c ∷ (digits s).0, (digits s).1) else ([], c ∷ s)

-- At least one digit.
pub some_digits : Bytes × Bytes → Option (Bytes × Bytes)
some_digits ([], r) = none
some_digits (c ∷ ds, r) = some (c ∷ ds, r)

pub sign_and_digits : Bytes → Option (Bytes × Bytes)
unfolding digits some_digits
sign_and_digits [] = none
sign_and_digits (c ∷ s) =
    if c == b'+' || c == b'-'
    then push (c ∷ []) (some_digits (digits s))
    else some_digits (digits (c ∷ s))

pub exponent : Reader
exponent [] = some ([], [])
exponent (c ∷ s) =
    if c == b'e' || c == b'E' then push (c ∷ []) (sign_and_digits s) else some ([], c ∷ s)

pub then_read : Reader → Option (Bytes × Bytes) → Option (Bytes × Bytes)
then_read k none = none
then_read k (some (s, r)) = push s (k r)

pub fraction : Reader
fraction [] = some ([], [])
fraction (c ∷ s) = if c == b'.' then push (c ∷ []) (some_digits (digits s)) else some ([], c ∷ s)

-- No digit follows a leading zero.
pub whole : Reader
whole [] = none
whole (c ∷ s) = if c == b'0' then some (c ∷ [], s) else some_digits (digits (c ∷ s))

pub magnitude : Reader
magnitude s = then_read exponent (then_read fraction (whole s))

unfoldable pub read_number : Reader
unfolding magnitude whole fraction then_read exponent sign_and_digits some_digits digits
read_number [] = none
read_number (c ∷ s) = if c == b'-' then push (c ∷ []) (magnitude s) else magnitude (c ∷ s)
