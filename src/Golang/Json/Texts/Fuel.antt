-- ===== src/Golang/Json/Texts/Fuel.antt =====
-- encoding/json: the fuel that reading a string is given is enough.
use weft_driver_vz.Common.{
  ℕ, zero, suc, ◌+◌, ◌-◌, ◌≤◌, ◌≡◌, refl, sym, ◌∙◌, Option, none, some, [], ◌∷◌, arith, ltb, ◌==◌,
  if◌then◌else◌, length, drop, length-drop, Bytes,
}
use weft_driver_vz.Golang.Utf8.{decode_rune}
use weft_driver_vz.Golang.Json.Texts.{
  Reader, hex4, second_half, pair_at, unicode_at, hex_at, unescape, simple_at, escape_at, plain_at,
  chars, read_text,
}

-- Two readers that agree on what has at most `n` bytes.
abbrev Agree : ℕ → (f g : Reader) → Type 0
Agree n f g = (s : Bytes) → length s ≤ n → f s ≡ g s

drop_same :
    (n i : ℕ) (f g : Reader) (s : Bytes) → length s ≤ n → Agree n f g → f (drop i s) ≡ g (drop i s)
drop_same n i f g s l x = x (drop i s) (omega (arith, length-drop i s))

pair_at_same :
    (n : ℕ) (f g : Reader) (hi : ℕ) (o : Option ℕ) (s : Bytes)
    → length s ≤ n
    → Agree n f g
    → pair_at f hi o s ≡ pair_at g hi o s
unfolding pair_at
pair_at_same n f g hi none s l x = rw (x s l) refl
pair_at_same n f g hi (some lo) s l x = rw (x s l, drop_same n 6 f g s l x) refl

unicode_at_same :
    (n : ℕ) (f g : Reader) (o : Option ℕ) (s : Bytes)
    → length s ≤ n
    → Agree n f g
    → unicode_at f o s ≡ unicode_at g o s
unfolding unicode_at
unicode_at_same n f g none s l x = refl
unicode_at_same n f g (some r) s l x = pair_at_same n f g r (second_half s) s l x

hex_at_same :
    (n : ℕ) (f g : Reader) (s : Bytes) → length s ≤ n → Agree n f g → hex_at f s ≡ hex_at g s
unfolding hex_at
hex_at_same n f g (a ∷ b ∷ c ∷ d ∷ s) l x = unicode_at_same n f g (hex4 a b c d) s (omega arith) x
hex_at_same n f g (a ∷ b ∷ c ∷ []) l x = refl
hex_at_same n f g (a ∷ b ∷ []) l x = refl
hex_at_same n f g (a ∷ []) l x = refl
hex_at_same n f g [] l x = refl

simple_at_same :
    (n : ℕ) (f g : Reader) (o : Option ℕ) (s : Bytes)
    → length s ≤ n
    → Agree n f g
    → simple_at f o s ≡ simple_at g o s
unfolding simple_at
simple_at_same n f g none s l x = refl
simple_at_same n f g (some c) s l x = rw (x s l) refl

escape_at_same :
    (n : ℕ) (f g : Reader) (s : Bytes) → length s ≤ n → Agree n f g → escape_at f s ≡ escape_at g s
unfolding escape_at
escape_at_same n f g [] l x = refl
escape_at_same n f g (c ∷ s) l x =
    rw (hex_at_same n f g s (omega arith) x, simple_at_same n f g (unescape c) s (omega arith) x)
      refl

plain_at_same :
    (n : ℕ) (f g : Reader) (c : ℕ) (s : Bytes)
    → length s ≤ n
    → Agree n f g
    → plain_at f c s ≡ plain_at g c s
unfolding plain_at
plain_at_same n f g c s l x = rw (drop_same n ((decode_rune c s).width - 1) f g s l x) refl

chars_same : (m n : ℕ) (s : Bytes) → length s + 1 ≤ m → length s + 1 ≤ n → chars m s ≡ chars n s
unfolding chars
chars_same zero n s x y = absurd (omega arith)
chars_same (suc m) zero s x y = absurd (omega arith)
chars_same (suc m) (suc n) [] x y = refl
chars_same (suc m) (suc n) (c ∷ s) x y =
    let agree : Agree (length s) (chars m) (chars n) =
      λ t l. chars_same m n t (omega arith) (omega arith) in
    rw
      (
        escape_at_same (length s) (chars m) (chars n) s (omega arith) agree,
        plain_at_same (length s) (chars m) (chars n) c s (omega arith) agree,
      )
      refl

pub read_text_fuel : (n : ℕ) (s : Bytes) → length s + 1 ≤ n → chars n s ≡ read_text s
unfolding read_text
read_text_fuel n s l = chars_same n (length s + 1) s l (omega arith)

-- The first byte of a string that is read, and the rest of it.
pub read_text_step :
    (c : ℕ) (s : Bytes)
    → read_text (c ∷ s) ≡ (
        if c == b'"'
        then some ([], s)
        else if c == b'\\'
        then escape_at read_text s
        else if ltb c 0x20
        then none
        else plain_at read_text c s)
unfolding chars
read_text_step c s =
    let m = length s + 1 in
    let agree : Agree (length s) (chars m) read_text = λ t l. read_text_fuel m t (omega arith) in
    sym (read_text_fuel (suc m) (c ∷ s) (omega arith))
    ∙ rw
        (
          escape_at_same (length s) (chars m) read_text s (omega arith) agree,
          plain_at_same (length s) (chars m) read_text c s (omega arith) agree,
        )
        refl
