-- ===== src/Golang/Json/Parse/Printed.antt =====
-- encoding/json: what a value becomes by being written and read back.
use weft_driver_vz.Common.{
  ℕ, zero, suc, ◌+◌, ◌≡◌, refl, ◌≢◌, false, Option, [], ◌∷◌, arith, ◌==◌, All, Bytes,
}
use weft_driver_vz.Golang.Strconv.{itoa, IsDigit}
use weft_driver_vz.Golang.Json.{
  Value, null, boolean, number, text, array, object, Values, no_values, value, Members, no_members,
  member,
}
use weft_driver_vz.Golang.Json.Texts.Quote.{mended}
use weft_driver_vz.Golang.Json.Parse.{is_space, skip_space, open_array}

unfoldable mutual
  pub reread : Value → Value
  reread (text s) = text (mended s)
  reread (array vs) = array (reread_values vs)
  reread (object ms) = object (reread_members ms)
  reread null = null
  reread (boolean b) = boolean b
  reread (number s) = number s

  pub reread_values : Values → Values
  reread_values no_values = no_values
  reread_values (value v vs) = value (reread v) (reread_values vs)

  pub reread_members : Members → Members
  reread_members no_members = no_members
  reread_members (member k v ms) = member (mended k) (reread v) (reread_members ms)

-- The fuel that a value takes.
unfoldable mutual
  pub cost : Value → ℕ
  cost (array vs) = 1 + cost_values vs
  cost (object ms) = 1 + cost_members ms
  cost _ = 1

  pub cost_values : Values → ℕ
  cost_values no_values = 0
  cost_values (value v vs) = 1 + cost v + cost_values vs

  pub cost_members : Members → ℕ
  cost_members no_members = 0
  cost_members (member k v ms) = 1 + cost v + cost_members ms

-- Brackets are nested at most as deep as said, and numbers are written as `itoa` writes them.
unfoldable mutual
  pub IsPrinted : ℕ → Value → Type 0
  IsPrinted depth null = Unit
  IsPrinted depth (boolean b) = Unit
  IsPrinted depth (text s) = Unit
  IsPrinted depth (number s) = (n : ℕ) × (s ≡ itoa n)
  IsPrinted zero (array vs) = ⊥
  IsPrinted zero (object ms) = ⊥
  IsPrinted (suc depth) (array vs) = ArePrinted depth vs
  IsPrinted (suc depth) (object ms) = MembersPrinted depth ms

  pub ArePrinted : ℕ → Values → Type 0
  ArePrinted depth no_values = Unit
  ArePrinted depth (value v vs) = IsPrinted depth v × ArePrinted depth vs

  pub MembersPrinted : ℕ → Members → Type 0
  MembersPrinted depth no_members = Unit
  MembersPrinted depth (member k v ms) = IsPrinted depth v × MembersPrinted depth ms

-- A text that neither space nor a closing bracket begins.
abbrev pub IsOpening : Bytes → Type 0
IsOpening [] = ⊥
IsOpening (c ∷ s) = (is_space c ≡ false) × ((c == b']') ≡ false)

pub digits-IsOpening : (s : Bytes) → s ≢ [] → All IsDigit s → IsOpening s
digits-IsOpening [] n a = absurd (n refl)
digits-IsOpening (c ∷ s) n (x, a) = ground arith

pub opening_stays : (s : Bytes) → IsOpening s → skip_space s ≡ s
unfolding skip_space
opening_stays [] h = absurd h
opening_stays (c ∷ s) (h, g) = rw h refl

pub open_array_more :
    (more : Bytes → Option (Values × Bytes)) (s : Bytes) → IsOpening s → open_array more s ≡ more s
unfolding open_array
open_array_more more [] h = absurd h
open_array_more more (c ∷ s) (h, g) = rw g refl
