-- ===== src/Golang/Json/Parse/RoundTrip.antt =====
-- encoding/json: a value that was written is read back, its texts mended, however it is laid out.
use weft_driver_vz.Common.{
  ℕ, zero, suc, ◌+◌, ◌*◌, ◌≤◌, ◌≡◌, refl, sym, ap, ◌∙◌, Option, some, [], ◌∷◌, ◌++◌, arith, length,
  Bytes, bytes_eq,
}
use weft_driver_vz.Golang.Json.{
  Value, null, boolean, number, text, array, object, Values, no_values, value, Members, no_members,
  member, quote,
}
use weft_driver_vz.Golang.Json.Texts.Quote.{mended, quote_lem}
use weft_driver_vz.Golang.Json.Texts.Numbers.{IsEnd}
use weft_driver_vz.Golang.Json.Parse.{
  skip_space, as_array, as_object, open_array, open_object, put_value, put_member, values_behind,
  values_tail, members_behind, members_tail, parse_value, parse_values, parse_members, end_at,
  parse,
}
use weft_driver_vz.Golang.Json.Parse.Fuel.{parse_fuel}
use weft_driver_vz.Golang.Json.Parse.Printed.{
  reread, reread_values, reread_members, cost, cost_values, cost_members, IsPrinted, ArePrinted,
  MembersPrinted, opening_stays, open_array_more,
}
use weft_driver_vz.Golang.Json.Parse.Layout.{
  laid, laid_values, laid_members, IsLayout, laid-IsOpening, values-IsEnd, members-IsEnd,
}
use weft_driver_vz.Golang.Json.Parse.Steps.{array_at, object_at, member_at}
use weft_driver_vz.Golang.Json.Parse.Flat.{
  null_back, boolean_back, text_back, number_back, no_array_back, no_object_back,
}

skip-quote : (k t : Bytes) → skip_space (quote k ++ t) ≡ quote k ++ t
unfolding skip_space
skip-quote k t = rw (quote_lem k) refl

open_object_more :
    (more : Bytes → Option (Members × Bytes)) (k t : Bytes)
    → open_object more (quote k ++ t) ≡ more (quote k ++ t)
unfolding open_object
open_object_more more k t = rw (quote_lem k) refl

end_whole : (v : Value) → end_at (some (v, [])) ≡ some v
unfolding end_at skip_space bytes_eq
end_whole v = refl

module _ (br : ℕ → Bytes) (gap : Bytes) (y : IsLayout br gap) where
  skip-laid :
      (depth d : ℕ) (v : Value) (rest : Bytes)
      → IsPrinted depth v
      → skip_space (laid br gap d v rest) ≡ laid br gap d v rest
  skip-laid depth d v rest p =
      opening_stays (laid br gap d v rest) (laid-IsOpening br gap depth d v rest p)

  array_open :
      (fuel depth d : ℕ) (v : Value) (vs : Values) (s rest : Bytes)
      → IsPrinted depth v
      → skip_space s ≡ laid br gap d (array (value v vs)) rest
      → parse_value (suc (suc fuel)) (suc depth) s
        ≡ as_array (
            values_behind (parse_values fuel depth) (
              parse_value fuel depth
                (laid br gap (suc d) v (laid_values br gap (suc d) vs (br d ++ b']' ∷ rest)))))
  unfolding parse_values laid
  array_open fuel depth d v vs s rest p q =
      let t = laid br gap (suc d) v (laid_values br gap (suc d) vs (br d ++ b']' ∷ rest)) in
      array_at (suc fuel) depth s (br (suc d) ++ t) q
      ∙ ap (λ x. as_array (open_array (parse_values (suc fuel) depth) x))
          (y.skips (suc d) t ∙ skip-laid depth (suc d) v _ p)
      ∙ ap as_array (
          open_array_more (parse_values (suc fuel) depth) t
            (laid-IsOpening br gap depth (suc d) v _ p))

  object_open :
      (fuel depth d : ℕ) (k : Bytes) (v : Value) (ms : Members) (s rest : Bytes)
      → skip_space s ≡ laid br gap d (object (member k v ms)) rest
      → parse_value (suc (suc fuel)) (suc depth) s
        ≡ as_object (
            members_behind (parse_members fuel depth) (mended k) (
              parse_value fuel depth (
                gap
                ++ laid br gap (suc d) v (laid_members br gap (suc d) ms (br d ++ b'}' ∷ rest)))))
  unfolding laid
  object_open fuel depth d k v ms s rest q =
      let x = gap ++ laid br gap (suc d) v (laid_members br gap (suc d) ms (br d ++ b'}' ∷ rest)) in
      let t = quote k ++ b':' ∷ x in
      object_at (suc fuel) depth s (br (suc d) ++ t) q
      ∙ ap (λ w. as_object (open_object (parse_members (suc fuel) depth) w))
          (y.skips (suc d) t ∙ skip-quote k (b':' ∷ x))
      ∙ ap as_object (
          open_object_more (parse_members (suc fuel) depth) k (b':' ∷ x)
          ∙ member_at fuel depth k t x (skip-quote k (b':' ∷ x)))

  -- Behind the elements, and behind the members, that were read.
  no_values_behind :
      (more : Bytes → Option (Values × Bytes)) (d e : ℕ) (v : Value) (rest : Bytes)
      → values_behind more (some (v, laid_values br gap d no_values (br e ++ b']' ∷ rest)))
        ≡ some (value v no_values, rest)
  unfolding values_behind values_tail skip_space laid
  no_values_behind more d e v rest = rw (y.skips e (b']' ∷ rest)) refl

  no_members_behind :
      (more : Bytes → Option (Members × Bytes)) (d e : ℕ) (k : Bytes) (v : Value) (rest : Bytes)
      → members_behind more k (some (v, laid_members br gap d no_members (br e ++ b'}' ∷ rest)))
        ≡ some (member k v no_members, rest)
  unfolding members_behind members_tail skip_space laid
  no_members_behind more d e k v rest = rw (y.skips e (b'}' ∷ rest)) refl

  next_value :
      (more : Bytes → Option (Values × Bytes)) (d : ℕ) (v w : Value) (ws : Values) (t : Bytes)
      → values_behind more (some (v, laid_values br gap d (value w ws) t))
        ≡ put_value v (more (br d ++ laid br gap d w (laid_values br gap d ws t)))
  unfolding values_behind values_tail skip_space laid
  next_value more d v w ws t = refl

  next_member :
      (more : Bytes → Option (Members × Bytes)) (d : ℕ) (k : Bytes) (v : Value) (l : Bytes)
      (w : Value) (ws : Members) (t : Bytes)
      → members_behind more k (some (v, laid_members br gap d (member l w ws) t))
        ≡ put_member k v (
            more
              (br d ++ (quote l ++ b':' ∷ (gap ++ laid br gap d w (laid_members br gap d ws t)))))
  unfolding members_behind members_tail skip_space laid
  next_member more d k v l w ws t = refl

  mutual
    unfolding cost IsPrinted reread as_array as_object put_value put_member parse_value

    value_back :
        (fuel depth d : ℕ) (v : Value) (s rest : Bytes)
        → cost v ≤ fuel
        → IsPrinted depth v
        → IsEnd rest
        → skip_space s ≡ laid br gap d v rest
        → parse_value fuel depth s ≡ some (reread v, rest)
    value_back fuel depth d null s rest l p e q = null_back br gap fuel depth d s rest l q
    value_back fuel depth d (boolean b) s rest l p e q =
        boolean_back br gap fuel depth d b s rest l q
    value_back fuel depth d (text t) s rest l p e q = text_back br gap fuel depth d t s rest l q
    value_back fuel depth d (number t) s rest l p e q =
        number_back br gap fuel depth d t s rest l p e q
    value_back zero depth d (array vs) s rest l p e q = absurd (omega arith)
    value_back zero depth d (object ms) s rest l p e q = absurd (omega arith)
    value_back (suc fuel) zero d (array vs) s rest l p e q = absurd p
    value_back (suc fuel) zero d (object ms) s rest l p e q = absurd p
    value_back (suc fuel) (suc depth) d (array no_values) s rest l p e q =
        no_array_back br gap fuel depth d s rest q
    value_back (suc fuel) (suc depth) d (object no_members) s rest l p e q =
        no_object_back br gap fuel depth d s rest q
    value_back (suc zero) (suc depth) d (array (value v vs)) s rest l p e q = absurd (omega arith)
    value_back (suc zero) (suc depth) d (object (member k v ms)) s rest l p e q =
        absurd (omega arith)
    value_back (suc (suc fuel)) (suc depth) d (array (value v vs)) s rest l (p, ps) e q =
        let t = laid_values br gap (suc d) vs (br d ++ b']' ∷ rest) in
        array_open fuel depth d v vs s rest p q
        ∙ ap (λ x. as_array (values_behind (parse_values fuel depth) x))
            (value_back fuel depth (suc d) v (laid br gap (suc d) v t) t (omega arith) p
              (values-IsEnd br gap (suc d) vs _ (y.ends_array d rest))
              (skip-laid depth (suc d) v t p))
        ∙ ap as_array (values_back fuel depth (suc d) d (reread v) vs rest (omega arith) ps)
    value_back (suc (suc fuel)) (suc depth) d (object (member k v ms)) s rest l (p, ps) e q =
        let t = laid_members br gap (suc d) ms (br d ++ b'}' ∷ rest) in
        object_open fuel depth d k v ms s rest q
        ∙ ap (λ x. as_object (members_behind (parse_members fuel depth) (mended k) x))
            (value_back fuel depth (suc d) v (gap ++ laid br gap (suc d) v t) t (omega arith) p
              (members-IsEnd br gap (suc d) ms _ (y.ends_object d rest))
              (y.skips_gap (laid br gap (suc d) v t) ∙ skip-laid depth (suc d) v t p))
        ∙ ap as_object
            (members_back fuel depth (suc d) d (mended k) (reread v) ms rest (omega arith) ps)

    values_back :
        (fuel depth d e : ℕ) (v : Value) (vs : Values) (rest : Bytes)
        → cost_values vs ≤ fuel
        → ArePrinted depth vs
        → values_behind
            (parse_values fuel depth)
            (some (v, laid_values br gap d vs (br e ++ b']' ∷ rest)))
          ≡ some (value v (reread_values vs), rest)
    values_back fuel depth d e v no_values rest l p =
        no_values_behind (parse_values fuel depth) d e v rest
    values_back zero depth d e v (value w ws) rest l p = absurd (omega arith)
    values_back (suc fuel) depth d e v (value w ws) rest l (p, ps) =
        let t = laid_values br gap d ws (br e ++ b']' ∷ rest) in
        next_value (parse_values (suc fuel) depth) d v w ws (br e ++ b']' ∷ rest)
        ∙ ap (λ x. put_value v (values_behind (parse_values fuel depth) x))
            (value_back fuel depth d w (br d ++ laid br gap d w t) t (omega arith) p
              (values-IsEnd br gap d ws _ (y.ends_array e rest))
              (y.skips d (laid br gap d w t) ∙ skip-laid depth d w t p))
        ∙ ap (put_value v) (values_back fuel depth d e (reread w) ws rest (omega arith) ps)

    members_back :
        (fuel depth d e : ℕ) (k : Bytes) (v : Value) (ms : Members) (rest : Bytes)
        → cost_members ms ≤ fuel
        → MembersPrinted depth ms
        → members_behind
            (parse_members fuel depth)
            k
            (some (v, laid_members br gap d ms (br e ++ b'}' ∷ rest)))
          ≡ some (member k v (reread_members ms), rest)
    members_back fuel depth d e k v no_members rest l p =
        no_members_behind (parse_members fuel depth) d e k v rest
    members_back zero depth d e k v (member m w ws) rest l p = absurd (omega arith)
    members_back (suc fuel) depth d e k v (member m w ws) rest l (p, ps) =
        let t = laid_members br gap d ws (br e ++ b'}' ∷ rest) in
        let x = gap ++ laid br gap d w t in
        next_member (parse_members (suc fuel) depth) d k v m w ws (br e ++ b'}' ∷ rest)
        ∙ ap (put_member k v) (
            member_at fuel depth m (br d ++ (quote m ++ b':' ∷ x)) x
              (y.skips d (quote m ++ b':' ∷ x) ∙ skip-quote m (b':' ∷ x)))
        ∙ ap (λ r. put_member k v (members_behind (parse_members fuel depth) (mended m) r))
            (value_back fuel depth d w x t (omega arith) p
              (members-IsEnd br gap d ws _ (y.ends_object e rest))
              (y.skips_gap (laid br gap d w t) ∙ skip-laid depth d w t p))
        ∙ ap (put_member k v)
            (members_back fuel depth d e (mended m) (reread w) ws rest (omega arith) ps)

  -- What is laid out, with nothing behind it, is read back, its texts mended.
  pub parse-laid : (v : Value) → IsPrinted 10000 v → parse (laid br gap 0 v []) ≡ some (reread v)
  parse-laid v p =
      let s = laid br gap 0 v [] in
      let n = cost v + (2 * length s + 1) in
      sym (parse_fuel n s (omega arith))
      ∙ ap end_at (value_back n 10000 0 v s [] (omega arith) p tt (skip-laid 10000 0 v [] p))
      ∙ end_whole (reread v)
