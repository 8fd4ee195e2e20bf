-- ===== src/Golang/Json/Parse/Layout.antt =====
-- encoding/json: how a value is laid out, with `br d` for the line break and indent of depth `d` and
-- `gap` behind a colon; `rest` follows the value.
use weft_driver_vz.Common.{ℕ, suc, ◌≡◌, refl, inl, true, false, [], ◌∷◌, ◌++◌, Bytes, codes}
use weft_driver_vz.Golang.Strconv.{itoa, itoa-digits, itoa-ne-nil}
use weft_driver_vz.Golang.Json.{
  Value, null, boolean, number, text, array, object, Values, no_values, value, Members, no_members,
  member, quote,
}
use weft_driver_vz.Golang.Json.Texts.Numbers.{IsEnd}
use weft_driver_vz.Golang.Json.Parse.{skip_space}
use weft_driver_vz.Golang.Json.Parse.Printed.{IsPrinted, IsOpening, digits-IsOpening}

module _ (br : ℕ → Bytes) (gap : Bytes) where
  unfoldable mutual
    pub laid : ℕ → Value → Bytes → Bytes
    laid d null rest = codes "null" ++ rest
    laid d (boolean true) rest = codes "true" ++ rest
    laid d (boolean false) rest = codes "false" ++ rest
    laid d (number s) rest = s ++ rest
    laid d (text s) rest = quote s ++ rest
    laid d (array no_values) rest = codes "[]" ++ rest
    laid d (array (value v vs)) rest =
        b'[' ∷ (br (suc d) ++ laid (suc d) v (laid_values (suc d) vs (br d ++ b']' ∷ rest)))
    laid d (object no_members) rest = codes "{}" ++ rest
    laid d (object (member k v ms)) rest =
        b'{'
        ∷ (br (suc d)
            ++ (quote k
                ++ b':' ∷ (gap ++ laid (suc d) v (laid_members (suc d) ms (br d ++ b'}' ∷ rest)))))

    pub laid_values : ℕ → Values → Bytes → Bytes
    laid_values d no_values rest = rest
    laid_values d (value v vs) rest = b',' ∷ (br d ++ laid d v (laid_values d vs rest))

    pub laid_members : ℕ → Members → Bytes → Bytes
    laid_members d no_members rest = rest
    laid_members d (member k v ms) rest =
        b',' ∷ (br d ++ (quote k ++ b':' ∷ (gap ++ laid d v (laid_members d ms rest))))

  -- Only space is put in, and a closing bracket behind it ends a value.
  pub record IsLayout : Type 0 where
    pub skips : (d : ℕ) (s : Bytes) → skip_space (br d ++ s) ≡ skip_space s
    pub skips_gap : (s : Bytes) → skip_space (gap ++ s) ≡ skip_space s
    pub ends_array : (d : ℕ) (s : Bytes) → IsEnd (br d ++ b']' ∷ s)
    pub ends_object : (d : ℕ) (s : Bytes) → IsEnd (br d ++ b'}' ∷ s)

append-IsOpening : (s t : Bytes) → IsOpening s → IsOpening (s ++ t)
append-IsOpening [] t h = absurd h
append-IsOpening (c ∷ s) t h = h

pub laid-IsOpening :
    (br : ℕ → Bytes) (gap : Bytes) (depth d : ℕ) (v : Value) (rest : Bytes)
    → IsPrinted depth v
    → IsOpening (laid br gap d v rest)
unfolding laid IsPrinted quote
laid-IsOpening br gap depth d null rest p = (refl, refl)
laid-IsOpening br gap depth d (boolean true) rest p = (refl, refl)
laid-IsOpening br gap depth d (boolean false) rest p = (refl, refl)
laid-IsOpening br gap depth d (text s) rest p = (refl, refl)
laid-IsOpening br gap depth d (number s) rest (n, p) =
    rw p
      (append-IsOpening (itoa n) rest (digits-IsOpening (itoa n) (itoa-ne-nil n) (itoa-digits n)))
laid-IsOpening br gap depth d (array no_values) rest p = (refl, refl)
laid-IsOpening br gap depth d (array (value v vs)) rest p = (refl, refl)
laid-IsOpening br gap depth d (object no_members) rest p = (refl, refl)
laid-IsOpening br gap depth d (object (member k v ms)) rest p = (refl, refl)

pub values-IsEnd :
    (br : ℕ → Bytes) (gap : Bytes) (d : ℕ) (vs : Values) (rest : Bytes)
    → IsEnd rest
    → IsEnd (laid_values br gap d vs rest)
unfolding laid
values-IsEnd br gap d no_values rest e = e
values-IsEnd br gap d (value v vs) rest e = inl refl

pub members-IsEnd :
    (br : ℕ → Bytes) (gap : Bytes) (d : ℕ) (ms : Members) (rest : Bytes)
    → IsEnd rest
    → IsEnd (laid_members br gap d ms rest)
unfolding laid
members-IsEnd br gap d no_members rest e = e
members-IsEnd br gap d (member k v ms) rest e = inl refl
