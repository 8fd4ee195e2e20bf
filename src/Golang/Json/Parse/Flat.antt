-- ===== src/Golang/Json/Parse/Flat.antt =====
-- encoding/json: a value that holds no other is read back.
use weft_driver_vz.Common.{
  ℕ, suc, ◌≤◌, ◌≡◌, refl, sym, ap, ◌∙◌, subst, Bool, true, false, Option, some, ◌∷◌, ◌++◌, Bytes,
}
use weft_driver_vz.Golang.Json.{
  Value, null, boolean, number, text, array, object, Values, no_values, Members, no_members,
}
use weft_driver_vz.Golang.Strconv.{itoa}
use weft_driver_vz.Golang.Json.Texts.Quote.{mended}
use weft_driver_vz.Golang.Json.Texts.Numbers.{IsEnd}
use weft_driver_vz.Golang.Json.Parse.{
  skip_space, as_array, as_object, open_array, open_object, start_at, literal, behind, value_at,
  parse_value,
}
use weft_driver_vz.Golang.Json.Parse.Printed.{reread}
use weft_driver_vz.Golang.Json.Parse.Layout.{laid}
use weft_driver_vz.Golang.Json.Parse.Steps.{itoa_at, quote_at, array_at, object_at, flat_at}

module _ (br : ℕ → Bytes) (gap : Bytes) where
  -- The goal of `flat_at` at a text that is known.
  flat_step :
      (fuel depth d : ℕ) (v : Value) (s rest : Bytes)
      → 1 ≤ fuel
      → skip_space s ≡ laid br gap d v rest
      → ((f : Bytes → Option (Values × Bytes)) (g : Bytes → Option (Members × Bytes))
          → value_at f g (laid br gap d v rest) ≡ some (reread v, rest))
      → parse_value fuel depth s ≡ some (reread v, rest)
  flat_step fuel depth d v s rest l q h =
      flat_at fuel depth s (some (reread v, rest)) l (λ f g. ap (value_at f g) q ∙ h f g)

  pub null_back :
      (fuel depth d : ℕ) (s rest : Bytes)
      → 1 ≤ fuel
      → skip_space s ≡ laid br gap d null rest
      → parse_value fuel depth s ≡ some (null, rest)
  unfolding laid value_at start_at literal behind reread
  null_back fuel depth d s rest l q = flat_step fuel depth d null s rest l q (λ f g. refl)

  pub boolean_back :
      (fuel depth d : ℕ) (b : Bool) (s rest : Bytes)
      → 1 ≤ fuel
      → skip_space s ≡ laid br gap d (boolean b) rest
      → parse_value fuel depth s ≡ some (boolean b, rest)
  unfolding laid value_at start_at literal behind reread
  boolean_back fuel depth d true s rest l q =
      flat_step fuel depth d (boolean true) s rest l q (λ f g. refl)
  boolean_back fuel depth d false s rest l q =
      flat_step fuel depth d (boolean false) s rest l q (λ f g. refl)

  pub text_back :
      (fuel depth d : ℕ) (t s rest : Bytes)
      → 1 ≤ fuel
      → skip_space s ≡ laid br gap d (text t) rest
      → parse_value fuel depth s ≡ some (text (mended t), rest)
  unfolding laid reread
  text_back fuel depth d t s rest l q =
      flat_step fuel depth d (text t) s rest l q (λ f g. quote_at f g t rest)

  pub number_back :
      (fuel depth d : ℕ) (t s rest : Bytes)
      → 1 ≤ fuel
      → (n : ℕ) × (t ≡ itoa n)
      → IsEnd rest
      → skip_space s ≡ laid br gap d (number t) rest
      → parse_value fuel depth s ≡ some (number t, rest)
  unfolding laid reread
  number_back fuel depth d t s rest l (n, p) e q =
      flat_step fuel depth d (number t) s rest l q (λ f g.
        subst (λ x. value_at f g (x ++ rest) ≡ some (number x, rest)) (sym p)
          (itoa_at f g n rest e))

  pub no_array_back :
      (fuel depth d : ℕ) (s rest : Bytes)
      → skip_space s ≡ laid br gap d (array no_values) rest
      → parse_value (suc fuel) (suc depth) s ≡ some (array no_values, rest)
  unfolding laid open_array as_array skip_space
  no_array_back fuel depth d s rest q = array_at fuel depth s (b']' ∷ rest) q

  pub no_object_back :
      (fuel depth d : ℕ) (s rest : Bytes)
      → skip_space s ≡ laid br gap d (object no_members) rest
      → parse_value (suc fuel) (suc depth) s ≡ some (object no_members, rest)
  unfolding laid open_object as_object skip_space
  no_object_back fuel depth d s rest q = object_at fuel depth s (b'}' ∷ rest) q
