-- ===== src/Golang/Json/Parse/Sizes.antt =====
-- encoding/json: what stands behind a value is no longer than what it was read from.
use weft_driver_vz.Common.{
  ℕ, zero, suc, ◌≤◌, inl, inr, true, false, Option, none, some, [], ◌∷◌, arith, ◌==◌, Bool-cases,
  length, Bytes, codes,
}
use weft_driver_vz.Golang.Json.{
  Value, null, boolean, Values, no_values, value, Members, no_members, member,
}
use weft_driver_vz.Golang.Json.Texts.{read_text, read_number}
use weft_driver_vz.Golang.Json.Texts.Sizes.{
  Fits, Fits-mono, Fits-if, read_text-Shrinks, read_number-Shrinks,
}
use weft_driver_vz.Golang.Json.Parse.{
  is_space, skip_space, behind, Read, literal, as_text, as_number, as_array, as_object, start_at,
  value_at, put_value, put_member, values_tail, values_behind, members_tail, members_behind,
  colon_at, key_behind, key_at, open_array, open_object, parse_value, parse_values, parse_members,
}

pub skip_space-length : (s : Bytes) → length (skip_space s) ≤ length s
unfolding skip_space
skip_space-length [] = omega arith
skip_space-length (c ∷ s) = elim (Bool-cases (is_space c)) [
  | inl e ↦ rw e (omega (arith, skip_space-length s))
  | inr e ↦ rw e (omega arith)
]

literal-Fits : (v : Value) (w s : Bytes) → Fits (length s) (literal v (behind w s))
unfolding literal behind
literal-Fits v [] s = omega arith
literal-Fits v (a ∷ w) [] = tt
literal-Fits v (a ∷ w) (b ∷ s) = elim (Bool-cases (a == b)) [
  | inl e ↦ rw e (
      Fits-mono (length s) (length (b ∷ s)) (literal v (behind w s)) (omega arith)
        (literal-Fits v w s))
  | inr e ↦ rw e tt
]

as_text-Fits : (n : ℕ) (o : Option (Bytes × Bytes)) → Fits n o → Fits n (as_text o)
unfolding as_text
as_text-Fits n none f = tt
as_text-Fits n (some (s, r)) f = f

as_number-Fits : (n : ℕ) (o : Option (Bytes × Bytes)) → Fits n o → Fits n (as_number o)
unfolding as_number
as_number-Fits n none f = tt
as_number-Fits n (some (s, r)) f = f

as_array-Fits : (n : ℕ) (o : Option (Values × Bytes)) → Fits n o → Fits n (as_array o)
unfolding as_array
as_array-Fits n none f = tt
as_array-Fits n (some (s, r)) f = f

as_object-Fits : (n : ℕ) (o : Option (Members × Bytes)) → Fits n o → Fits n (as_object o)
unfolding as_object
as_object-Fits n none f = tt
as_object-Fits n (some (s, r)) f = f

-- A reader of bytes that leaves no more than it was given.
abbrev pub Keeps : {A : Type 0} → (Bytes → Option (A × Bytes)) → Type 0
Keeps k = (s : Bytes) → Fits (length s) (k s)

start_at-Fits :
    (f : Bytes → Option (Values × Bytes)) (g : Bytes → Option (Members × Bytes)) (c : ℕ) (s : Bytes)
    → Fits (length s) (f s)
    → Fits (length s) (g s)
    → Fits (length (c ∷ s)) (start_at f g c s)
unfolding start_at
start_at-Fits f g c s x y =
    let n = length (c ∷ s) in
    let lit : (v : Value) (w : Bytes) → Fits n (literal v (behind w s)) =
      λ v w. Fits-mono (length s) n (literal v (behind w s)) (omega arith) (literal-Fits v w s) in
    Fits-if n (c == b'{') _ _
      (Fits-mono (length s) n (as_object (g s)) (omega arith) (as_object-Fits (length s) (g s) y))
      (Fits-if n (c == b'[') _ _
        (Fits-mono (length s) n (as_array (f s)) (omega arith) (as_array-Fits (length s) (f s) x))
        (Fits-if n (c == b'"') _ _
          (Fits-mono (length s) n (as_text (read_text s)) (omega arith)
            (as_text-Fits (length s) (read_text s) (read_text-Shrinks s)))
          (Fits-if n (c == b't') _ _ (lit (boolean true) (codes "rue")) (
            Fits-if n (c == b'f') _ _ (lit (boolean false) (codes "alse")) (
              Fits-if n (c == b'n') _ _ (lit null (codes "ull"))
                (as_number-Fits n (read_number (c ∷ s)) (read_number-Shrinks (c ∷ s))))))))

value_at-Keeps :
    (f : Bytes → Option (Values × Bytes)) (g : Bytes → Option (Members × Bytes))
    → Keeps f
    → Keeps g
    → Keeps (value_at f g)
unfolding value_at
value_at-Keeps f g x y [] = tt
value_at-Keeps f g x y (c ∷ s) = start_at-Fits f g c s (x s) (y s)

put_value-Fits :
    (n : ℕ) (v : Value) (o : Option (Values × Bytes)) → Fits n o → Fits n (put_value v o)
unfolding put_value
put_value-Fits n v none f = tt
put_value-Fits n v (some (vs, r)) f = f

put_member-Fits :
    (n : ℕ) (k : Bytes) (v : Value) (o : Option (Members × Bytes))
    → Fits n o
    → Fits n (put_member k v o)
unfolding put_member
put_member-Fits n k v none f = tt
put_member-Fits n k v (some (ms, r)) f = f

values_tail-Keeps :
    (more : Bytes → Option (Values × Bytes)) (v : Value) → Keeps more → Keeps (values_tail more v)
unfolding values_tail
values_tail-Keeps more v x [] = tt
values_tail-Keeps more v x (c ∷ s) =
    let n = length (c ∷ s) in
    Fits-if n (c == b']') (some (value v no_values, s)) _ (omega arith) (
      Fits-if n (c == b',') _ none
        (Fits-mono (length s) n (put_value v (more s)) (omega arith)
          (put_value-Fits (length s) v (more s) (x s)))
        tt)

members_tail-Keeps :
    (more : Bytes → Option (Members × Bytes)) (k : Bytes) (v : Value)
    → Keeps more
    → Keeps (members_tail more k v)
unfolding members_tail
members_tail-Keeps more k v x [] = tt
members_tail-Keeps more k v x (c ∷ s) =
    let n = length (c ∷ s) in
    Fits-if n (c == b'}') (some (member k v no_members, s)) _ (omega arith) (
      Fits-if n (c == b',') _ none
        (Fits-mono (length s) n (put_member k v (more s)) (omega arith)
          (put_member-Fits (length s) k v (more s) (x s)))
        tt)

-- A reader behind the space in front.
space-Keeps :
    {A : Type 0} (k : Bytes → Option (A × Bytes)) → Keeps k → Keeps (λ s. k (skip_space s))
space-Keeps k x s =
    Fits-mono (length (skip_space s)) (length s) (k (skip_space s)) (skip_space-length s)
      (x (skip_space s))

values_behind-Fits :
    (n : ℕ) (more : Bytes → Option (Values × Bytes)) (o : Read)
    → Keeps more
    → Fits n o
    → Fits n (values_behind more o)
unfolding values_behind
values_behind-Fits n more none x f = tt
values_behind-Fits n more (some (v, r)) x f =
    Fits-mono (length r) n (values_tail more v (skip_space r)) f
      (space-Keeps (values_tail more v) (values_tail-Keeps more v x) r)

members_behind-Fits :
    (n : ℕ) (more : Bytes → Option (Members × Bytes)) (k : Bytes) (o : Read)
    → Keeps more
    → Fits n o
    → Fits n (members_behind more k o)
unfolding members_behind
members_behind-Fits n more k none x f = tt
members_behind-Fits n more k (some (v, r)) x f =
    Fits-mono (length r) n (members_tail more k v (skip_space r)) f
      (space-Keeps (members_tail more k v) (members_tail-Keeps more k v x) r)

colon_at-Keeps :
    (read : Bytes → Read) (more : Bytes → Option (Members × Bytes)) (k : Bytes)
    → Keeps read
    → Keeps more
    → Keeps (colon_at read more k)
unfolding colon_at
colon_at-Keeps read more k x y [] = tt
colon_at-Keeps read more k x y (c ∷ s) =
    Fits-if (length (c ∷ s)) (c == b':') _ none
      (members_behind-Fits (length (c ∷ s)) more k (read s) y
        (Fits-mono (length s) (length (c ∷ s)) (read s) (omega arith) (x s)))
      tt

key_behind-Fits :
    (n : ℕ) (read : Bytes → Read) (more : Bytes → Option (Members × Bytes))
    (o : Option (Bytes × Bytes))
    → Keeps read
    → Keeps more
    → Fits n o
    → Fits n (key_behind read more o)
unfolding key_behind
key_behind-Fits n read more none x y f = tt
key_behind-Fits n read more (some (k, r)) x y f =
    Fits-mono (length r) n (colon_at read more k (skip_space r)) f
      (space-Keeps (colon_at read more k) (colon_at-Keeps read more k x y) r)

key_at-Keeps :
    (read : Bytes → Read) (more : Bytes → Option (Members × Bytes))
    → Keeps read
    → Keeps more
    → Keeps (key_at read more)
unfolding key_at
key_at-Keeps read more x y [] = tt
key_at-Keeps read more x y (c ∷ s) =
    Fits-if (length (c ∷ s)) (c == b'"') _ none
      (Fits-mono (length s) (length (c ∷ s)) (key_behind read more (read_text s)) (omega arith)
        (key_behind-Fits (length s) read more (read_text s) x y (read_text-Shrinks s)))
      tt

open_array-Keeps : (more : Bytes → Option (Values × Bytes)) → Keeps more → Keeps (open_array more)
unfolding open_array
open_array-Keeps more x [] = tt
open_array-Keeps more x (c ∷ s) =
    Fits-if (length (c ∷ s)) (c == b']') (some (no_values, s)) _ (omega arith) (x (c ∷ s))

open_object-Keeps :
    (more : Bytes → Option (Members × Bytes)) → Keeps more → Keeps (open_object more)
unfolding open_object
open_object-Keeps more x [] = tt
open_object-Keeps more x (c ∷ s) =
    Fits-if (length (c ∷ s)) (c == b'}') (some (no_members, s)) _ (omega arith) (x (c ∷ s))

mutual
  unfolding parse_value parse_values parse_members

  pub parse_value-Keeps : (fuel depth : ℕ) → Keeps (parse_value fuel depth)
  parse_value-Keeps zero depth s = tt
  parse_value-Keeps (suc fuel) zero s =
      space-Keeps (value_at (λ r. none) (λ r. none))
        (value_at-Keeps (λ r. none) (λ r. none) (λ r. tt) (λ r. tt)) s
  parse_value-Keeps (suc fuel) (suc depth) s =
      space-Keeps _
        (value_at-Keeps (λ r. open_array (parse_values fuel depth) (skip_space r))
          (λ r. open_object (parse_members fuel depth) (skip_space r))
          (space-Keeps (open_array (parse_values fuel depth))
            (open_array-Keeps (parse_values fuel depth) (parse_values-Keeps fuel depth)))
          (space-Keeps (open_object (parse_members fuel depth))
            (open_object-Keeps (parse_members fuel depth) (parse_members-Keeps fuel depth))))
        s

  parse_values-Keeps : (fuel depth : ℕ) → Keeps (parse_values fuel depth)
  parse_values-Keeps zero depth s = tt
  parse_values-Keeps (suc fuel) depth s =
      values_behind-Fits (length s) (parse_values fuel depth) (parse_value fuel depth s)
        (parse_values-Keeps fuel depth) (parse_value-Keeps fuel depth s)

  parse_members-Keeps : (fuel depth : ℕ) → Keeps (parse_members fuel depth)
  parse_members-Keeps zero depth s = tt
  parse_members-Keeps (suc fuel) depth s =
      space-Keeps (key_at (parse_value fuel depth) (parse_members fuel depth))
        (key_at-Keeps (parse_value fuel depth) (parse_members fuel depth)
          (parse_value-Keeps fuel depth) (parse_members-Keeps fuel depth))
        s
