-- ===== src/Golang/Json/Parse/Steps.antt =====
-- encoding/json: the steps of reading what was written.
use weft_driver_vz.Common.{
  ℕ, zero, suc, ◌≤◌, ◌≡◌, refl, ap, ◌∙◌, ◌≢◌, false, Option, none, some, [], ◌∷◌, ◌++◌, arith, ◌==◌,
  All, Bytes,
}
use weft_driver_vz.Golang.Strconv.{itoa, IsDigit, itoa-digits, itoa-ne-nil}
use weft_driver_vz.Golang.Json.{number, text, Values, Members, quote}
use weft_driver_vz.Golang.Json.Texts.{read_number}
use weft_driver_vz.Golang.Json.Texts.Quote.{mended, quote_lem, read_text-quoted}
use weft_driver_vz.Golang.Json.Texts.Numbers.{IsEnd, read_number-itoa}
use weft_driver_vz.Golang.Json.Parse.{
  skip_space, Read, as_text, as_number, as_array, as_object, start_at, value_at, members_behind,
  colon_at, key_behind, key_at, open_array, open_object, parse_value, parse_values, parse_members,
}

-- A value that holds no other.
number_at :
    (f : Bytes → Option (Values × Bytes)) (g : Bytes → Option (Members × Bytes)) (s t : Bytes)
    → s ≢ []
    → All IsDigit s
    → value_at f g (s ++ t) ≡ as_number (read_number (s ++ t))
unfolding value_at start_at
number_at f g [] t n a = absurd (n refl)
number_at f g (c ∷ s) t n (x, a) =
    let e1 : (c == b'{') ≡ false = ground arith in
    let e2 : (c == b'[') ≡ false = ground arith in
    let e3 : (c == b'"') ≡ false = ground arith in
    let e4 : (c == b't') ≡ false = ground arith in
    let e5 : (c == b'f') ≡ false = ground arith in
    let e6 : (c == b'n') ≡ false = ground arith in rw (e1, e2, e3, e4, e5, e6) refl

pub itoa_at :
    (f : Bytes → Option (Values × Bytes)) (g : Bytes → Option (Members × Bytes)) (n : ℕ)
    (rest : Bytes)
    → IsEnd rest
    → value_at f g (itoa n ++ rest) ≡ some (number (itoa n), rest)
unfolding as_number
itoa_at f g n rest e =
    number_at f g (itoa n) rest (itoa-ne-nil n) (itoa-digits n)
    ∙ ap as_number (read_number-itoa n rest e)

pub quote_at :
    (f : Bytes → Option (Values × Bytes)) (g : Bytes → Option (Members × Bytes)) (s rest : Bytes)
    → value_at f g (quote s ++ rest) ≡ some (text (mended s), rest)
unfolding value_at start_at as_text
quote_at f g s rest = rw (quote_lem s, read_text-quoted s rest) refl

pub array_at :
    (f depth : ℕ) (s t : Bytes)
    → skip_space s ≡ b'[' ∷ t
    → parse_value (suc f) (suc depth) s
      ≡ as_array (open_array (parse_values f depth) (skip_space t))
unfolding parse_value value_at start_at
array_at f depth s t e = rw e refl

pub object_at :
    (f depth : ℕ) (s t : Bytes)
    → skip_space s ≡ b'{' ∷ t
    → parse_value (suc f) (suc depth) s
      ≡ as_object (open_object (parse_members f depth) (skip_space t))
unfolding parse_value value_at start_at
object_at f depth s t e = rw e refl

-- A key, its colon, and what the value's reader is handed.
pub member_at :
    (f depth : ℕ) (k s t : Bytes)
    → skip_space s ≡ quote k ++ b':' ∷ t
    → parse_members (suc f) depth s
      ≡ members_behind (parse_members f depth) (mended k) (parse_value f depth t)
unfolding parse_members key_at key_behind colon_at skip_space
member_at f depth k s t e = rw (e, quote_lem k, read_text-quoted k (b':' ∷ t)) refl

-- A value that holds no other takes a unit of fuel, at whatever depth.
pub flat_at :
    (fuel depth : ℕ) (s : Bytes) (r : Read)
    → 1 ≤ fuel
    → ((f : Bytes → Option (Values × Bytes)) (g : Bytes → Option (Members × Bytes))
        → value_at f g (skip_space s) ≡ r)
    → parse_value fuel depth s ≡ r
unfolding parse_value
flat_at zero depth s r l h = absurd (omega arith)
flat_at (suc fuel) zero s r l h = h (λ x. none) (λ x. none)
flat_at (suc fuel) (suc depth) s r l h =
    h (λ x. open_array (parse_values fuel depth) (skip_space x))
      (λ x. open_object (parse_members fuel depth) (skip_space x))
