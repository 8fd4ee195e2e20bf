-- ===== src/Golang/Strconv.antt =====
-- `strconv.Itoa`, for the numbers from 0 up, and `strconv.Atoi`, into 64-bit integers.
use weft_driver_vz.Common.{
  ℕ, zero, suc, ◌+◌, ◌-◌, ◌*◌, ◌/◌, ◌%◌, ◌^◌, ◌≤◌, ◌<◌, ◌≡◌, refl, ◌∙◌, ◌≢◌, ◌⊎◌, inl, inr, Bool,
  true, false, ◌||◌, [], ◌∷◌, arith, ltb, leb, ◌==◌, if◌then◌else◌, ==_iff, Bool-cases, All, Bytes,
}
use weft_driver_vz.Common.Int.{ℤ, pos, negsuc}

-- The digits of `n` in front of `out`; as many rounds as the fuel says.
pub emit : ℕ → ℕ → Bytes → Bytes
emit zero n out = out
emit (suc fuel) n out =
    let more = emit fuel (n / 10) ((b'0' + n % 10) ∷ out) in if n == 0 then out else more

unfoldable pub itoa : ℕ → Bytes
unfolding emit
itoa n = if n == 0 then b'0' ∷ [] else emit n n []

pub data Parsed : Type 0 where
  number : ℤ → Parsed
  syntax : Parsed
  out_of_range : Parsed

pub data Scanned : Type 0 where
  magnitude : ℕ → Scanned
  bad_syntax : Scanned
  overflow : Scanned

-- The loop of `ParseUint`, in uint64.
unfoldable pub scan : Bytes → ℕ → Scanned
scan [] n = magnitude n
scan (c ∷ s) n =
    let more = scan s ((n * 10 + (c - b'0')) % 2 ^ 64) in
    if ltb c b'0' || ltb b'9' c
    then bad_syntax
    else if leb ((2 ^ 64 - 1) / 10 + 1) n
    then overflow
    else if ltb ((n * 10 + (c - b'0')) % 2 ^ 64) (n * 10)
    then overflow
    else more

pub signed : Bool → Scanned → Parsed
signed neg bad_syntax = syntax
signed neg overflow = out_of_range
signed false (magnitude n) = if leb (2 ^ 63) n then out_of_range else number (pos n)
signed true (magnitude zero) = number (pos 0)
signed true (magnitude (suc n)) = if ltb (2 ^ 63) (suc n) then out_of_range else number (negsuc n)

pub parse_digits : Bool → Bytes → Parsed
parse_digits neg [] = syntax
parse_digits neg (c ∷ s) = signed neg (scan (c ∷ s) 0)

unfoldable pub atoi : Bytes → Parsed
unfolding scan signed parse_digits
atoi [] = syntax
atoi (c ∷ s) =
    if c == b'-'
    then parse_digits true s
    else if c == b'+'
    then parse_digits false s
    else parse_digits false (c ∷ s)

abbrev pub IsDigit : ℕ → Type 0
IsDigit c = (b'0' ≤ c) × (c ≤ b'9')

emit-digits : (fuel n : ℕ) (out : Bytes) → All IsDigit out → All IsDigit (emit fuel n out)
unfolding emit
emit-digits zero n out h = h
emit-digits (suc fuel) n out h = elim (Bool-cases (n == 0)) [
  | inl e ↦ rw e h
  | inr e ↦ rw e (emit-digits fuel (n / 10) ((b'0' + n % 10) ∷ out) ((omega arith, omega arith), h))
]

scan_digit : (n : ℕ) (out : Bytes) → n < 2 ^ 64 → scan ((b'0' + n % 10) ∷ out) (n / 10) ≡ scan out n
unfolding scan
scan_digit n out lt = ground arith

-- The digits that were put in front are read back.
scan-emit :
    (fuel n : ℕ) (out : Bytes) → n ≤ fuel → n < 2 ^ 64 → scan (emit fuel n out) 0 ≡ scan out n
unfolding emit
scan-emit zero n out h lt = let e : n ≡ 0 = omega arith in rw e
scan-emit (suc fuel) n out h lt = elim (Bool-cases (n == 0)) [
  | inl e ↦ let q : n ≡ 0 = ground arith in rw q
  | inr e ↦ rw e (
      scan-emit fuel (n / 10) ((b'0' + n % 10) ∷ out) (ground arith) (omega arith)
      ∙ scan_digit n out lt)
]

emit-ne-nil : (fuel n : ℕ) (out : Bytes) → out ≢ [] → emit fuel n out ≢ []
unfolding emit
emit-ne-nil zero n out h = h
emit-ne-nil (suc fuel) n out h = elim (Bool-cases (n == 0)) [
  | inl e ↦ rw e h
  | inr e ↦ rw e (emit-ne-nil fuel (n / 10) ((b'0' + n % 10) ∷ out) (λ q. cc q))
]

pub itoa-digits : (n : ℕ) → All IsDigit (itoa n)
unfolding itoa
itoa-digits n = elim (Bool-cases (n == 0)) [
  | inl e ↦ rw e ((omega arith, omega arith), tt)
  | inr e ↦ rw e (emit-digits n n [] tt)
]

pub itoa-ne-nil : (n : ℕ) → itoa n ≢ []
unfolding itoa emit
itoa-ne-nil zero = λ e. cc e
itoa-ne-nil (suc n) =
    let e : (suc n == 0) ≡ false = ground arith in
    rw e (emit-ne-nil n (suc n / 10) ((b'0' + suc n % 10) ∷ []) (λ q. cc q))

pub scan-itoa : (n : ℕ) → n < 2 ^ 64 → scan (itoa n) 0 ≡ magnitude n
unfolding itoa
scan-itoa n h = elim (Bool-cases (n == 0)) [
  | inl e ↦ let q : n ≡ 0 = ground arith in rw q (unfold scan in refl)
  | inr e ↦ rw e (scan-emit n n [] (omega arith) h ∙ unfold scan in refl)
]

parse_digits_lem : (neg : Bool) (s : Bytes) → s ≢ [] → parse_digits neg s ≡ signed neg (scan s 0)
unfolding parse_digits
parse_digits_lem neg [] h = absurd (h refl)
parse_digits_lem neg (c ∷ s) h = refl

atoi_unsigned : (s : Bytes) → s ≢ [] → All IsDigit s → atoi s ≡ signed false (scan s 0)
unfolding atoi
atoi_unsigned [] h d = absurd (h refl)
atoi_unsigned (c ∷ s) h (dc, d) = ground (arith, parse_digits_lem false (c ∷ s) h)

-- `Atoi` undoes `Itoa` on the nonnegative int64.
pub atoi-itoa : (n : ℕ) → n < 2 ^ 63 → atoi (itoa n) ≡ number (pos n)
unfolding signed
atoi-itoa n h =
    atoi_unsigned (itoa n) (itoa-ne-nil n) (itoa-digits n)
    ∙ rw (scan-itoa n (omega arith)) (ground arith)

-- A minus sign in front of digits is read as one.
pub atoi-negative : (n : ℕ) → n < 2 ^ 63 → atoi (b'-' ∷ itoa (suc n)) ≡ number (negsuc n)
unfolding atoi signed
atoi-negative n h =
    parse_digits_lem true (itoa (suc n)) (itoa-ne-nil (suc n))
    ∙ rw (scan-itoa (suc n) (omega arith)) (ground arith)

emit_zero : (fuel : ℕ) (out : Bytes) → emit fuel 0 out ≡ out
unfolding emit
emit_zero zero out = refl
emit_zero (suc fuel) out = refl

-- Digits that do not start with a zero.
pub record IsLed (s : Bytes) : Type 0 where
  pub first : ℕ
  pub others : Bytes
  pub splits : s ≡ first ∷ others
  pub leads : (first == b'0') ≡ false

emit-IsLed : (fuel n : ℕ) (out : Bytes) → n ≤ fuel → 0 < n → IsLed (emit fuel n out)
unfolding emit
emit-IsLed zero n out l p = absurd (omega arith)
emit-IsLed (suc fuel) n out l p =
    let e : (n == 0) ≡ false = ground arith in
    elim (Bool-cases (n / 10 == 0)) [
      | inl q ↦
          let z : n / 10 ≡ 0 = (==_iff (n / 10) 0).0 q in
          record {
            first = b'0' + n % 10;
            others = out;
            splits = rw (e, z) (emit_zero fuel ((b'0' + n % 10) ∷ out));
            leads = ground arith;
          }
      | inr q ↦
          let i : IsLed (emit fuel (n / 10) ((b'0' + n % 10) ∷ out)) =
            emit-IsLed fuel (n / 10) ((b'0' + n % 10) ∷ out) (omega arith) (ground arith) in
          record { first = i.first; others = i.others; splits = rw e i.splits; leads = i.leads }
    ]

pub itoa-IsLed : (n : ℕ) → (itoa n ≡ b'0' ∷ []) ⊎ IsLed (itoa n)
unfolding itoa
itoa-IsLed n = elim (Bool-cases (n == 0)) [
  | inl e ↦ inl (rw e refl)
  | inr e ↦ inr (rw e (emit-IsLed n n [] (omega arith) (ground arith)))
]
