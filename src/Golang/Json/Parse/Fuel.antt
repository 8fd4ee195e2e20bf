-- ===== src/Golang/Json/Parse/Fuel.antt =====
-- encoding/json: the fuel that reading a value is given is enough.
use weft_driver_vz.Common.{
  ℕ, zero, suc, ◌+◌, ◌*◌, ◌≤◌, ◌<◌, ◌≡◌, refl, ap, Option, none, some, [], ◌∷◌, arith, length,
  Bytes,
}
use weft_driver_vz.Golang.Json.{Value, Values, Members}
use weft_driver_vz.Golang.Json.Texts.{read_text}
use weft_driver_vz.Golang.Json.Texts.Sizes.{Fits, read_text-Shrinks}
use weft_driver_vz.Golang.Json.Parse.{
  skip_space, Read, start_at, value_at, values_tail, values_behind, members_tail, members_behind,
  colon_at, key_behind, key_at, open_array, open_object, parse_value, parse_values, parse_members,
  end_at, parse,
}
use weft_driver_vz.Golang.Json.Parse.Sizes.{Keeps, skip_space-length, parse_value-Keeps}

-- Two readers that agree on what has fewer than `n` bytes.
abbrev Agree : {A : Type 0} → ℕ → (f g : Bytes → Option (A × Bytes)) → Type 0
Agree n f g = (s : Bytes) → length s < n → f s ≡ g s

value_at_same :
    (f f' : Bytes → Option (Values × Bytes)) (g g' : Bytes → Option (Members × Bytes)) (s : Bytes)
    → Agree (length s) f f'
    → Agree (length s) g g'
    → value_at f g s ≡ value_at f' g' s
unfolding value_at start_at
value_at_same f f' g g' [] x y = refl
value_at_same f f' g g' (c ∷ s) x y = rw (x s (omega arith), y s (omega arith)) refl

open_array_same :
    (f f' : Bytes → Option (Values × Bytes)) (s : Bytes)
    → Agree (length s + 1) f f'
    → open_array f s ≡ open_array f' s
unfolding open_array
open_array_same f f' [] x = refl
open_array_same f f' (c ∷ s) x = rw (x (c ∷ s) (omega arith)) refl

open_object_same :
    (f f' : Bytes → Option (Members × Bytes)) (s : Bytes)
    → Agree (length s + 1) f f'
    → open_object f s ≡ open_object f' s
unfolding open_object
open_object_same f f' [] x = refl
open_object_same f f' (c ∷ s) x = rw (x (c ∷ s) (omega arith)) refl

values_tail_same :
    (f f' : Bytes → Option (Values × Bytes)) (v : Value) (s : Bytes)
    → Agree (length s) f f'
    → values_tail f v s ≡ values_tail f' v s
unfolding values_tail
values_tail_same f f' v [] x = refl
values_tail_same f f' v (c ∷ s) x = rw (x s (omega arith)) refl

members_tail_same :
    (f f' : Bytes → Option (Members × Bytes)) (k : Bytes) (v : Value) (s : Bytes)
    → Agree (length s) f f'
    → members_tail f k v s ≡ members_tail f' k v s
unfolding members_tail
members_tail_same f f' k v [] x = refl
members_tail_same f f' k v (c ∷ s) x = rw (x s (omega arith)) refl

values_behind_same :
    (n : ℕ) (f f' : Bytes → Option (Values × Bytes)) (o : Read)
    → Agree n f f'
    → Fits n o
    → values_behind f o ≡ values_behind f' o
unfolding values_behind
values_behind_same n f f' none x l = refl
values_behind_same n f f' (some (v, r)) x l =
    values_tail_same f f' v (skip_space r) (λ s m. x s (omega (arith, skip_space-length r)))

members_behind_same :
    (n : ℕ) (f f' : Bytes → Option (Members × Bytes)) (k : Bytes) (o : Read)
    → Agree n f f'
    → Fits n o
    → members_behind f k o ≡ members_behind f' k o
unfolding members_behind
members_behind_same n f f' k none x l = refl
members_behind_same n f f' k (some (v, r)) x l =
    members_tail_same f f' k v (skip_space r) (λ s m. x s (omega (arith, skip_space-length r)))

colon_at_same :
    (n : ℕ) (read read' : Bytes → Read) (f f' : Bytes → Option (Members × Bytes)) (k s : Bytes)
    → length s ≤ n
    → Keeps read'
    → Agree n read read'
    → Agree n f f'
    → colon_at read f k s ≡ colon_at read' f' k s
unfolding colon_at
colon_at_same n read read' f f' k [] l z x y = refl
colon_at_same n read read' f f' k (c ∷ s) l z x y =
    rw
      (
        x s (omega arith),
        members_behind_same (length s) f f' k (read' s) (λ t m. y t (omega arith)) (z s),
      )
      refl

key_behind_same :
    (n : ℕ) (read read' : Bytes → Read) (f f' : Bytes → Option (Members × Bytes))
    (o : Option (Bytes × Bytes))
    → Keeps read'
    → Agree n read read'
    → Agree n f f'
    → Fits n o
    → key_behind read f o ≡ key_behind read' f' o
unfolding key_behind
key_behind_same n read read' f f' none z x y l = refl
key_behind_same n read read' f f' (some (k, r)) z x y l =
    colon_at_same n read read' f f' k (skip_space r) (omega (arith, skip_space-length r)) z x y

key_at_same :
    (read read' : Bytes → Read) (f f' : Bytes → Option (Members × Bytes)) (s : Bytes)
    → Keeps read'
    → Agree (length s) read read'
    → Agree (length s) f f'
    → key_at read f s ≡ key_at read' f' s
unfolding key_at
key_at_same read read' f f' [] z x y = refl
key_at_same read read' f f' (c ∷ s) z x y =
    rw
      (key_behind_same (length s) read read' f f' (read_text s) z (λ t m. x t (omega arith))
        (λ t m. y t (omega arith)) (read_text-Shrinks s))
      refl

mutual
  unfolding parse_value parse_values parse_members

  parse_value_same :
      (m n depth : ℕ) (s : Bytes)
      → 2 * length s + 1 ≤ m
      → 2 * length s + 1 ≤ n
      → parse_value m depth s ≡ parse_value n depth s
  parse_value_same zero n depth s x y = absurd (omega arith)
  parse_value_same (suc m) zero depth s x y = absurd (omega arith)
  parse_value_same (suc m) (suc n) zero s x y = refl
  parse_value_same (suc m) (suc n) (suc depth) s x y =
      value_at_same (λ r. open_array (parse_values m depth) (skip_space r))
        (λ r. open_array (parse_values n depth) (skip_space r))
        (λ r. open_object (parse_members m depth) (skip_space r))
        (λ r. open_object (parse_members n depth) (skip_space r)) (skip_space s)
        (λ r l. open_array_same (parse_values m depth) (parse_values n depth) (skip_space r) (λ t k.
          parse_values_same m n depth t (omega (arith, skip_space-length s, skip_space-length r))
            (omega (arith, skip_space-length s, skip_space-length r))))
        (λ r l.
          open_object_same (parse_members m depth) (parse_members n depth) (skip_space r) (λ t k.
            parse_members_same m n depth t (omega (arith, skip_space-length s, skip_space-length r))
              (omega (arith, skip_space-length s, skip_space-length r))))

  parse_values_same :
      (m n depth : ℕ) (s : Bytes)
      → 2 * length s + 2 ≤ m
      → 2 * length s + 2 ≤ n
      → parse_values m depth s ≡ parse_values n depth s
  parse_values_same zero n depth s x y = absurd (omega arith)
  parse_values_same (suc m) zero depth s x y = absurd (omega arith)
  parse_values_same (suc m) (suc n) depth s x y =
      rw (parse_value_same m n depth s (omega arith) (omega arith)) (
        values_behind_same (length s) (parse_values m depth) (parse_values n depth)
          (parse_value n depth s) (λ t k. parse_values_same m n depth t (omega arith) (omega arith))
          (parse_value-Keeps n depth s))

  parse_members_same :
      (m n depth : ℕ) (s : Bytes)
      → 2 * length s + 2 ≤ m
      → 2 * length s + 2 ≤ n
      → parse_members m depth s ≡ parse_members n depth s
  parse_members_same zero n depth s x y = absurd (omega arith)
  parse_members_same (suc m) zero depth s x y = absurd (omega arith)
  parse_members_same (suc m) (suc n) depth s x y =
      key_at_same (parse_value m depth) (parse_value n depth) (parse_members m depth)
        (parse_members n depth) (skip_space s) (parse_value-Keeps n depth)
        (λ t k.
          parse_value_same m n depth t (omega (arith, skip_space-length s))
            (omega (arith, skip_space-length s)))
        (λ t k.
          parse_members_same m n depth t (omega (arith, skip_space-length s))
            (omega (arith, skip_space-length s)))

pub parse_fuel :
    (n : ℕ) (s : Bytes) → 2 * length s + 1 ≤ n → end_at (parse_value n 10000 s) ≡ parse s
unfolding parse
parse_fuel n s l = ap end_at (parse_value_same n (2 * length s + 1) 10000 s l (omega arith))
