-- ===== src/Golang/Json/Marshal/RoundTrip.antt =====
-- encoding/json: what `Marshal` writes is read back, and is one line.
use weft_driver_vz.Common.{
  ℕ, suc, ◌≡◌, refl, sym, ap, ◌∙◌, inl, inr, true, false, some, [], ◌∷◌, ◌++◌, append-nil,
  append_assoc, Bytes,
}
use weft_driver_vz.Golang.Json.{
  Value, null, boolean, number, text, array, object, Values, no_values, value, Members, no_members,
  member, quote,
}
use weft_driver_vz.Golang.Json.Marshal.{compact, compact_values, compact_members, marshal}
use weft_driver_vz.Golang.Json.Parse.{parse}
use weft_driver_vz.Golang.Json.Parse.Printed.{reread, IsPrinted}
use weft_driver_vz.Golang.Json.Parse.Layout.{laid, laid_values, laid_members, IsLayout}
use weft_driver_vz.Golang.Json.Parse.RoundTrip.{parse-laid}

abbrev no_break : ℕ → Bytes
no_break d = []

no_break-IsLayout : IsLayout no_break []
no_break-IsLayout = record {
  skips = λ d s. refl;
  skips_gap = λ s. refl;
  ends_array = λ d s. inr (inr (inl refl));
  ends_object = λ d s. inr (inr (inr refl));
}

-- How an array and an object are written, and what stands behind their first parts.
array_text :
    (v : Value) (vs : Values) (rest : Bytes)
    → compact (array (value v vs)) ++ rest ≡ b'[' ∷ (compact v ++ (compact_values vs ++ rest))
unfolding compact
array_text v vs rest = simp append_assoc

object_text :
    (k : Bytes) (v : Value) (ms : Members) (rest : Bytes)
    → compact (object (member k v ms)) ++ rest
      ≡ b'{' ∷ (quote k ++ b':' ∷ (compact v ++ (compact_members ms ++ rest)))
unfolding compact
object_text k v ms rest = simp append_assoc

values_text :
    (v : Value) (vs : Values) (rest : Bytes)
    → compact_values (value v vs) ++ rest ≡ b',' ∷ (compact v ++ (compact_values vs ++ rest))
unfolding compact
values_text v vs rest = simp append_assoc

members_text :
    (k : Bytes) (v : Value) (ms : Members) (rest : Bytes)
    → compact_members (member k v ms) ++ rest
      ≡ b',' ∷ (quote k ++ b':' ∷ (compact v ++ (compact_members ms ++ rest)))
unfolding compact
members_text k v ms rest = simp append_assoc

mutual
  unfolding compact laid

  compact-laid : (d : ℕ) (v : Value) (rest : Bytes) → compact v ++ rest ≡ laid no_break [] d v rest
  compact-laid d null rest = refl
  compact-laid d (boolean true) rest = refl
  compact-laid d (boolean false) rest = refl
  compact-laid d (number s) rest = refl
  compact-laid d (text s) rest = refl
  compact-laid d (array no_values) rest = refl
  compact-laid d (array (value v vs)) rest =
      array_text v vs rest
      ∙ ap (λ x. b'[' ∷ x)
          (compact-laid (suc d) v (compact_values vs ++ rest)
            ∙ ap (laid no_break [] (suc d) v) (compact_values-laid (suc d) vs rest))
  compact-laid d (object no_members) rest = refl
  compact-laid d (object (member k v ms)) rest =
      object_text k v ms rest
      ∙ ap (λ x. b'{' ∷ (quote k ++ b':' ∷ x))
          (compact-laid (suc d) v (compact_members ms ++ rest)
            ∙ ap (laid no_break [] (suc d) v) (compact_members-laid (suc d) ms rest))

  compact_values-laid :
      (d : ℕ) (vs : Values) (rest : Bytes)
      → compact_values vs ++ rest ≡ laid_values no_break [] d vs (b']' ∷ rest)
  compact_values-laid d no_values rest = refl
  compact_values-laid d (value v vs) rest =
      values_text v vs rest
      ∙ ap (λ x. b',' ∷ x)
          (compact-laid d v (compact_values vs ++ rest)
            ∙ ap (laid no_break [] d v) (compact_values-laid d vs rest))

  compact_members-laid :
      (d : ℕ) (ms : Members) (rest : Bytes)
      → compact_members ms ++ rest ≡ laid_members no_break [] d ms (b'}' ∷ rest)
  compact_members-laid d no_members rest = refl
  compact_members-laid d (member k v ms) rest =
      members_text k v ms rest
      ∙ ap (λ x. b',' ∷ (quote k ++ b':' ∷ x))
          (compact-laid d v (compact_members ms ++ rest)
            ∙ ap (laid no_break [] d v) (compact_members-laid d ms rest))

-- What `marshal` writes is read back, its texts mended.
pub parse-marshal : (v : Value) → IsPrinted 10000 v → parse (marshal v) ≡ some (reread v)
unfolding marshal
parse-marshal v p =
    ap parse (sym (append-nil (compact v)) ∙ compact-laid 0 v [])
    ∙ parse-laid no_break [] no_break-IsLayout v p
