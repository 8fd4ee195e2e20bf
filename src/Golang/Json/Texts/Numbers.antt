-- ===== src/Golang/Json/Texts/Numbers.antt =====
-- encoding/json: a number that was written is read back.
use weft_driver_vz.Common.{
  ℕ, ◌≡◌, refl, ◌∙◌, subst, ◌≢◌, ◌⊎◌, inl, inr, true, false, some, [], ◌∷◌, ◌++◌, append-nil, arith,
  ◌==◌, All, Bytes,
}
use weft_driver_vz.Golang.Strconv.{itoa, IsDigit, itoa-digits, itoa-ne-nil, itoa-IsLed}
use weft_driver_vz.Golang.Json.Texts.{
  is_digit, digits, some_digits, exponent, then_read, fraction, whole, magnitude, read_number,
}

-- What stands behind a value: a comma, a line break, a closing bracket, or nothing.
abbrev pub IsEnd : Bytes → Type 0
IsEnd [] = Unit
IsEnd (c ∷ s) = (c ≡ b',') ⊎ ((c ≡ b'\n') ⊎ ((c ≡ b']') ⊎ (c ≡ b'}')))

digits_end : (s : Bytes) → IsEnd s → digits s ≡ ([], s)
unfolding digits
digits_end [] e = refl
digits_end (c ∷ s) (inl q) = rw q refl
digits_end (c ∷ s) (inr (inl q)) = rw q refl
digits_end (c ∷ s) (inr (inr (inl q))) = rw q refl
digits_end (c ∷ s) (inr (inr (inr q))) = rw q refl

digits_lem : (ds rest : Bytes) → All IsDigit ds → IsEnd rest → digits (ds ++ rest) ≡ (ds, rest)
unfolding digits
digits_lem [] rest a e = digits_end rest e
digits_lem (d ∷ ds) rest (x, a) e =
    let q : is_digit d ≡ true = ground arith in rw (q, digits_lem ds rest a e) refl

fraction_end : (s : Bytes) → IsEnd s → fraction s ≡ some ([], s)
unfolding fraction
fraction_end [] e = refl
fraction_end (c ∷ s) (inl q) = rw q refl
fraction_end (c ∷ s) (inr (inl q)) = rw q refl
fraction_end (c ∷ s) (inr (inr (inl q))) = rw q refl
fraction_end (c ∷ s) (inr (inr (inr q))) = rw q refl

exponent_end : (s : Bytes) → IsEnd s → exponent s ≡ some ([], s)
unfolding exponent
exponent_end [] e = refl
exponent_end (c ∷ s) (inl q) = rw q refl
exponent_end (c ∷ s) (inr (inl q)) = rw q refl
exponent_end (c ∷ s) (inr (inr (inl q))) = rw q refl
exponent_end (c ∷ s) (inr (inr (inr q))) = rw q refl

whole_led :
    (c : ℕ) (s rest : Bytes)
    → (c == b'0') ≡ false
    → All IsDigit (c ∷ s)
    → IsEnd rest
    → whole (c ∷ (s ++ rest)) ≡ some (c ∷ s, rest)
unfolding whole some_digits
whole_led c s rest z a e = rw (z, digits_lem (c ∷ s) rest a e) refl

whole-itoa : (n : ℕ) (rest : Bytes) → IsEnd rest → whole (itoa n ++ rest) ≡ some (itoa n, rest)
whole-itoa n rest e = elim (itoa-IsLed n) [
  | inl q ↦ rw q (unfold whole in refl)
  | inr i ↦
      let a : All IsDigit (i.first ∷ i.others) = subst (All IsDigit) i.splits (itoa-digits n) in
      rw i.splits (whole_led i.first i.others rest i.leads a e)
]

magnitude-itoa :
    (n : ℕ) (rest : Bytes) → IsEnd rest → magnitude (itoa n ++ rest) ≡ some (itoa n, rest)
unfolding magnitude then_read
magnitude-itoa n rest e =
    rw
      (
        whole-itoa n rest e,
        fraction_end rest e,
        exponent_end rest e,
        append-nil (itoa n),
        append-nil (itoa n),
      )
      refl

unsigned_lem : (s t : Bytes) → s ≢ [] → All IsDigit s → read_number (s ++ t) ≡ magnitude (s ++ t)
unfolding read_number
unsigned_lem [] t n a = absurd (n refl)
unsigned_lem (c ∷ s) t n (x, a) = let q : (c == b'-') ≡ false = ground arith in rw q refl

pub read_number-itoa :
    (n : ℕ) (rest : Bytes) → IsEnd rest → read_number (itoa n ++ rest) ≡ some (itoa n, rest)
read_number-itoa n rest e =
    unsigned_lem (itoa n) rest (itoa-ne-nil n) (itoa-digits n) ∙ magnitude-itoa n rest e
