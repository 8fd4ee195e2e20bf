-- ===== src/Golang/Json/Texts/Sizes.antt =====
-- encoding/json: what a reader leaves is no longer than what it was given.
use weft_driver_vz.Common.{
  ℕ, zero, suc, ◌+◌, ◌-◌, ◌≤◌, inl, inr, Bool, true, false, ◌&&◌, ◌||◌, Option, none, some, [], ◌∷◌,
  arith, ltb, ◌==◌, if◌then◌else◌, Bool-cases, length, drop, length-drop, Bytes,
}
use weft_driver_vz.Golang.Utf8.{decode_rune}
use weft_driver_vz.Golang.Json.Texts.{
  Reader, push, hex4, second_half, is_high, is_low, pair_at, unicode_at, hex_at, unescape,
  simple_at, escape_at, plain_at, chars, read_text, digits, some_digits, sign_and_digits, exponent,
  then_read, fraction, whole, is_digit, magnitude, read_number,
}

-- What is left, if anything was read, has at most `n` bytes.
abbrev pub Fits : {A : Type 0} → ℕ → Option (A × Bytes) → Type 0
Fits n none = Unit
Fits n (some (a, r)) = length r ≤ n

pub Fits-mono : {A : Type 0} (n m : ℕ) (o : Option (A × Bytes)) → n ≤ m → Fits n o → Fits m o
Fits-mono n m none l f = tt
Fits-mono n m (some (a, r)) l f = omega arith

pub Fits-if :
    {A : Type 0} (n : ℕ) (b : Bool) (x y : Option (A × Bytes))
    → Fits n x
    → Fits n y
    → Fits n (if b then x else y)
Fits-if n true x y f g = f
Fits-if n false x y f g = g

push-Fits : (n : ℕ) (b : Bytes) (o : Option (Bytes × Bytes)) → Fits n o → Fits n (push b o)
push-Fits n b none f = tt
push-Fits n b (some (s, r)) f = f

digits-length : (s : Bytes) → length (digits s).1 ≤ length s
unfolding digits
digits-length [] = omega arith
digits-length (c ∷ s) = elim (Bool-cases (is_digit c)) [
  | inl e ↦ rw e (omega (arith, digits-length s))
  | inr e ↦ rw e (omega arith)
]

abbrev pub Shrinks : Reader → Type 0
Shrinks k = (s : Bytes) → Fits (length s) (k s)

some_digits-Fits : (n : ℕ) (p : Bytes × Bytes) → length p.1 ≤ n → Fits n (some_digits p)
unfolding some_digits
some_digits-Fits n ([], r) l = tt
some_digits-Fits n (c ∷ ds, r) l = l

digits-Fits : (n : ℕ) (s : Bytes) → length s ≤ n → Fits n (some_digits (digits s))
digits-Fits n s l = some_digits-Fits n (digits s) (omega (arith, digits-length s))

sign_and_digits-Shrinks : Shrinks sign_and_digits
unfolding sign_and_digits
sign_and_digits-Shrinks [] = tt
sign_and_digits-Shrinks (c ∷ s) =
    Fits-if (length (c ∷ s)) (c == b'+' || c == b'-') _ _
      (push-Fits (length (c ∷ s)) (c ∷ []) (some_digits (digits s))
        (digits-Fits (length (c ∷ s)) s (omega arith)))
      (digits-Fits (length (c ∷ s)) (c ∷ s) (omega arith))

exponent-Shrinks : Shrinks exponent
unfolding exponent
exponent-Shrinks [] = omega arith
exponent-Shrinks (c ∷ s) =
    Fits-if (length (c ∷ s)) (c == b'e' || c == b'E') _ _
      (push-Fits (length (c ∷ s)) (c ∷ []) (sign_and_digits s) (
        Fits-mono (length s) (length (c ∷ s)) (sign_and_digits s) (omega arith)
          (sign_and_digits-Shrinks s)))
      (omega arith)

fraction-Shrinks : Shrinks fraction
unfolding fraction
fraction-Shrinks [] = omega arith
fraction-Shrinks (c ∷ s) =
    Fits-if (length (c ∷ s)) (c == b'.') _ _
      (push-Fits (length (c ∷ s)) (c ∷ []) (some_digits (digits s))
        (digits-Fits (length (c ∷ s)) s (omega arith)))
      (omega arith)

whole-Shrinks : Shrinks whole
unfolding whole
whole-Shrinks [] = tt
whole-Shrinks (c ∷ s) =
    Fits-if (length (c ∷ s)) (c == b'0') _ _ (omega arith)
      (digits-Fits (length (c ∷ s)) (c ∷ s) (omega arith))

then_read-Fits :
    (n : ℕ) (k : Reader) (o : Option (Bytes × Bytes))
    → Shrinks k
    → Fits n o
    → Fits n (then_read k o)
unfolding then_read
then_read-Fits n k none x f = tt
then_read-Fits n k (some (s, r)) x f = push-Fits n s (k r) (Fits-mono _ _ (k r) f (x r))

magnitude-Shrinks : Shrinks magnitude
unfolding magnitude
magnitude-Shrinks s =
    then_read-Fits _ exponent (then_read fraction (whole s)) exponent-Shrinks
      (then_read-Fits _ fraction (whole s) fraction-Shrinks (whole-Shrinks s))

pub read_number-Shrinks : Shrinks read_number
unfolding read_number
read_number-Shrinks [] = tt
read_number-Shrinks (c ∷ s) =
    Fits-if (length (c ∷ s)) (c == b'-') _ _
      (push-Fits (length (c ∷ s)) (c ∷ []) (magnitude s)
        (Fits-mono (length s) (length (c ∷ s)) (magnitude s) (omega arith) (magnitude-Shrinks s)))
      (magnitude-Shrinks (c ∷ s))

pair_at-Fits : (k : Reader) (hi : ℕ) (lo : Option ℕ) → Shrinks k → Shrinks (pair_at k hi lo)
unfolding pair_at
pair_at-Fits k hi none x s = push-Fits _ _ (k s) (x s)
pair_at-Fits k hi (some lo) x s =
    Fits-if _ (is_high hi && is_low lo) _ _
      (push-Fits _ _ (k (drop 6 s))
        (Fits-mono _ _ (k (drop 6 s)) (omega (arith, length-drop 6 s)) (x (drop 6 s))))
      (push-Fits _ _ (k s) (x s))

unicode_at-Shrinks : (k : Reader) (o : Option ℕ) → Shrinks k → Shrinks (unicode_at k o)
unfolding unicode_at
unicode_at-Shrinks k none x s = tt
unicode_at-Shrinks k (some r) x s = pair_at-Fits k r (second_half s) x s

hex_at-Shrinks : (k : Reader) → Shrinks k → Shrinks (hex_at k)
unfolding hex_at
hex_at-Shrinks k x (a ∷ b ∷ c ∷ d ∷ s) =
    Fits-mono _ _ (unicode_at k (hex4 a b c d) s) (omega arith)
      (unicode_at-Shrinks k (hex4 a b c d) x s)
hex_at-Shrinks k x (a ∷ b ∷ c ∷ []) = tt
hex_at-Shrinks k x (a ∷ b ∷ []) = tt
hex_at-Shrinks k x (a ∷ []) = tt
hex_at-Shrinks k x [] = tt

simple_at-Shrinks : (k : Reader) (o : Option ℕ) → Shrinks k → Shrinks (simple_at k o)
unfolding simple_at
simple_at-Shrinks k none x s = tt
simple_at-Shrinks k (some c) x s = push-Fits (length s) (c ∷ []) (k s) (x s)

escape_at-Shrinks : (k : Reader) → Shrinks k → Shrinks (escape_at k)
unfolding escape_at
escape_at-Shrinks k x [] = tt
escape_at-Shrinks k x (c ∷ s) =
    Fits-if (length (c ∷ s)) (c == b'u') _ _
      (Fits-mono (length s) (length (c ∷ s)) (hex_at k s) (omega arith) (hex_at-Shrinks k x s))
      (Fits-mono (length s) (length (c ∷ s)) (simple_at k (unescape c) s) (omega arith)
        (simple_at-Shrinks k (unescape c) x s))

plain_at-Fits : (k : Reader) (c : ℕ) → Shrinks k → Shrinks (plain_at k c)
unfolding plain_at
plain_at-Fits k c x s =
    let t : Bytes = drop ((decode_rune c s).width - 1) s in
    push-Fits _ _ (k t)
      (Fits-mono _ _ (k t) (omega (arith, length-drop ((decode_rune c s).width - 1) s)) (x t))

chars-Shrinks : (fuel : ℕ) → Shrinks (chars fuel)
unfolding chars
chars-Shrinks zero s = tt
chars-Shrinks (suc fuel) [] = tt
chars-Shrinks (suc fuel) (c ∷ s) =
    let k = chars-Shrinks fuel in
    Fits-if (length (c ∷ s)) (c == b'"') _ _ (omega arith) (
      Fits-if (length (c ∷ s)) (c == b'\\') _ _
        (Fits-mono (length s) (length (c ∷ s)) (escape_at (chars fuel) s) (omega arith)
          (escape_at-Shrinks (chars fuel) k s))
        (Fits-if (length (c ∷ s)) (ltb c 0x20) _ _ tt (
          Fits-mono (length s) (length (c ∷ s)) (plain_at (chars fuel) c s) (omega arith)
            (plain_at-Fits (chars fuel) c k s))))

pub read_text-Shrinks : Shrinks read_text
unfolding read_text
read_text-Shrinks s = chars-Shrinks (length s + 1) s
