-- ===== src/Golang/Json/Parse/Indented.antt =====
-- encoding/json: what `MarshalIndent` writes is read back.
use weft_driver_vz.Common.{
  ℕ, zero, suc, ◌≡◌, refl, sym, ap, ◌∙◌, inl, inr, true, false, some, [], ◌∷◌, ◌++◌, append-nil,
  append_assoc, Bytes, codes,
}
use weft_driver_vz.Golang.Json.{
  Value, null, boolean, number, text, array, object, Values, no_values, value, Members, no_members,
  member, break, render, render_values, render_members, quote, marshal_indent,
}
use weft_driver_vz.Golang.Json.Texts.Numbers.{IsEnd}
use weft_driver_vz.Golang.Json.Parse.{skip_space, parse}
use weft_driver_vz.Golang.Json.Parse.Printed.{reread, IsPrinted}
use weft_driver_vz.Golang.Json.Parse.Layout.{laid, laid_values, laid_members, IsLayout}
use weft_driver_vz.Golang.Json.Parse.RoundTrip.{parse-laid}

abbrev gap : Bytes
gap = b' ' ∷ []

skip-break : (d : ℕ) (s : Bytes) → skip_space (break d ++ s) ≡ skip_space s
unfolding skip_space break
skip-break zero s = refl
skip-break (suc d) s = rw (append_assoc (break d) (codes "  ") s) (skip-break d (codes "  " ++ s))

break-IsEnd : (d : ℕ) (s : Bytes) → IsEnd (break d ++ s)
unfolding break
break-IsEnd zero s = inr (inl refl)
break-IsEnd (suc d) s = rw (append_assoc (break d) (codes "  ") s) (break-IsEnd d (codes "  " ++ s))

break-IsLayout : IsLayout break gap
unfolding skip_space
break-IsLayout = record {
  skips = skip-break;
  skips_gap = λ s. refl;
  ends_array = λ d s. break-IsEnd d (b']' ∷ s);
  ends_object = λ d s. break-IsEnd d (b'}' ∷ s);
}

-- How an array and an object are written, and what stands behind their first parts.
array_text :
    (d : ℕ) (v : Value) (vs : Values) (rest : Bytes)
    → render d (array (value v vs)) ++ rest
      ≡ b'['
        ∷ (break (suc d)
            ++ (render (suc d) v ++ (render_values (suc d) vs ++ (break d ++ b']' ∷ rest))))
unfolding render
array_text d v vs rest = simp append_assoc

object_text :
    (d : ℕ) (k : Bytes) (v : Value) (ms : Members) (rest : Bytes)
    → render d (object (member k v ms)) ++ rest
      ≡ b'{'
        ∷ (break (suc d)
            ++ (quote k
                ++ b':'
                  ∷ b' '
                  ∷ (render (suc d) v ++ (render_members (suc d) ms ++ (break d ++ b'}' ∷ rest)))))
unfolding render
object_text d k v ms rest = simp append_assoc

values_text :
    (d : ℕ) (v : Value) (vs : Values) (rest : Bytes)
    → render_values d (value v vs) ++ rest
      ≡ b',' ∷ (break d ++ (render d v ++ (render_values d vs ++ rest)))
unfolding render
values_text d v vs rest = simp append_assoc

members_text :
    (d : ℕ) (k : Bytes) (v : Value) (ms : Members) (rest : Bytes)
    → render_members d (member k v ms) ++ rest
      ≡ b',' ∷ (break d ++ (quote k ++ b':' ∷ b' ' ∷ (render d v ++ (render_members d ms ++ rest))))
unfolding render
members_text d k v ms rest = simp append_assoc

mutual
  unfolding render laid

  render-laid : (d : ℕ) (v : Value) (rest : Bytes) → render d v ++ rest ≡ laid break gap d v rest
  render-laid d null rest = refl
  render-laid d (boolean true) rest = refl
  render-laid d (boolean false) rest = refl
  render-laid d (number s) rest = refl
  render-laid d (text s) rest = refl
  render-laid d (array no_values) rest = refl
  render-laid d (array (value v vs)) rest =
      let t = break d ++ b']' ∷ rest in
      array_text d v vs rest
      ∙ ap (λ x. b'[' ∷ (break (suc d) ++ x))
          (render-laid (suc d) v (render_values (suc d) vs ++ t)
            ∙ ap (laid break gap (suc d) v) (render_values-laid (suc d) vs t))
  render-laid d (object no_members) rest = refl
  render-laid d (object (member k v ms)) rest =
      let t = break d ++ b'}' ∷ rest in
      object_text d k v ms rest
      ∙ ap (λ x. b'{' ∷ (break (suc d) ++ (quote k ++ b':' ∷ b' ' ∷ x)))
          (render-laid (suc d) v (render_members (suc d) ms ++ t)
            ∙ ap (laid break gap (suc d) v) (render_members-laid (suc d) ms t))

  render_values-laid :
      (d : ℕ) (vs : Values) (rest : Bytes)
      → render_values d vs ++ rest ≡ laid_values break gap d vs rest
  render_values-laid d no_values rest = refl
  render_values-laid d (value v vs) rest =
      values_text d v vs rest
      ∙ ap (λ x. b',' ∷ (break d ++ x))
          (render-laid d v (render_values d vs ++ rest)
            ∙ ap (laid break gap d v) (render_values-laid d vs rest))

  render_members-laid :
      (d : ℕ) (ms : Members) (rest : Bytes)
      → render_members d ms ++ rest ≡ laid_members break gap d ms rest
  render_members-laid d no_members rest = refl
  render_members-laid d (member k v ms) rest =
      members_text d k v ms rest
      ∙ ap (λ x. b',' ∷ (break d ++ (quote k ++ b':' ∷ b' ' ∷ x)))
          (render-laid d v (render_members d ms ++ rest)
            ∙ ap (laid break gap d v) (render_members-laid d ms rest))

-- What `marshal_indent` writes is read back, its texts mended.
pub parse-marshal_indent :
    (v : Value) → IsPrinted 10000 v → parse (marshal_indent v) ≡ some (reread v)
unfolding marshal_indent
parse-marshal_indent v p =
    ap parse (sym (append-nil (render 0 v)) ∙ render-laid 0 v [])
    ∙ parse-laid break gap break-IsLayout v p
