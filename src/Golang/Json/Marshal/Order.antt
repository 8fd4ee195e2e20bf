-- ===== src/Golang/Json/Marshal/Order.antt =====
-- `json.Marshal`: the order in which a map's pairs come makes no difference.
use weft_driver_vz.Common.{
  ◌≡◌, refl, sym, ap, ◌∙◌, ◌≢◌, ◌⊎◌, inl, inr, true, false, ◌&&◌, List, [], ◌∷◌, map, arith, ltb,
  Bool-cases, Bytes,
}
use mathlib.Core.List.{Perm, Nodup, Permᴰ, Nodup-cons, mem-cons_self}
use mathlib.Core.List.Perm
use mathlib.Core.Logic.{∥∥₁_elim}
use mathlib.Core.List.Permᴰ.{nil, cons, swap, trans}
use weft_driver_vz.Golang.Json.{Value, text, Members, no_members, member}
use weft_driver_vz.Golang.Json.Marshal.{before, place, sorted}

-- `before` is a strict order of texts.
Ordered : Bytes → Bytes → Type 0
Ordered x y = (before x y ≡ true) × (before y x ≡ false)

before-cases : (x y : Bytes) → Ordered x y ⊎ ((x ≡ y) ⊎ Ordered y x)
unfolding before Ordered
before-cases [] [] = inr (inl refl)
before-cases [] (b ∷ y) = inl (refl, refl)
before-cases (a ∷ x) [] = inr (inr (refl, refl))
before-cases (a ∷ x) (b ∷ y) = elim (Bool-cases (ltb a b)) [
  | inl l ↦ inl (ground arith, ground arith)
  | inr l ↦ elim (Bool-cases (ltb b a)) [
    | inl m ↦ inr (inr (ground arith, ground arith))
    | inr m ↦ elim (before-cases x y) [
      | inl (p, q) ↦ inl (ground arith, ground arith)
      | inr (inl e) ↦ let n : a ≡ b = ground arith in inr (inl cc)
      | inr (inr (p, q)) ↦ inr (inr (ground arith, ground arith))
    ]
  ]
]

before_trans : (x y z : Bytes) → before x y ≡ true → before y z ≡ true → before x z ≡ true
unfolding before
before_trans [] [] z p q = cc
before_trans [] (b ∷ y) [] p q = cc
before_trans [] (b ∷ y) (c ∷ z) p q = refl
before_trans (a ∷ x) [] z p q = cc
before_trans (a ∷ x) (b ∷ y) [] p q = cc
before_trans (a ∷ x) (b ∷ y) (c ∷ z) p q = elim (Bool-cases (before x y && before y z)) [
  | inl e ↦ let ih = before_trans x y z (ground arith) (ground arith) in ground arith
  | inr e ↦ ground arith
]

place_first :
    (k j : Bytes) (v u : Value) (ms : Members)
    → Ordered k j
    → place k v (place j u ms) ≡ place j u (place k v ms)
unfolding place Ordered
place_first k j v u no_members (p, q) = rw (p, q) refl
place_first k j v u (member i w ms) (p, q) = elim (Bool-cases (before j i)) [
  | inl x ↦ rw (x, before_trans k j i p x) (rw (p, q) (rw x refl))
  | inr x ↦ elim (Bool-cases (before k i)) [
    | inl z ↦ rw (x, z) (rw q (rw x refl))
    | inr z ↦ rw (x, z) (rw x (ap (member i w) (place_first k j v u ms (p, q))))
  ]
]

place_swap :
    (k j : Bytes) (v u : Value) (ms : Members)
    → k ≢ j
    → place k v (place j u ms) ≡ place j u (place k v ms)
place_swap k j v u ms n = elim (before-cases k j) [
  | inl o ↦ place_first k j v u ms o
  | inr (inl e) ↦ absurd (n e)
  | inr (inr o) ↦ sym (place_first j k u v ms o)
]

-- The keys of pairs.
abbrev pub keys : List (Bytes × Bytes) → List Bytes
keys m = map (λ (p : Bytes × Bytes). p.0) m

sorted-Permᴰ : {m m' : List (Bytes × Bytes)} → Permᴰ m m' → Nodup (keys m) → sorted m ≡ sorted m'
unfolding sorted
sorted-Permᴰ nil n = refl
sorted-Permᴰ (cons {a} {b} {l₁} {l₂} e d) n =
    let ih = sorted-Permᴰ d ((Nodup-cons).0 n).1 in
    ap (λ (x : Bytes × Bytes). place x.0 (text x.1) (sorted l₁)) e ∙ ap (place b.0 (text b.1)) ih
sorted-Permᴰ (swap {a} {b} {a'} {b'} {l} e f) n =
    let ne : a.0 ≢ b.0 = λ q. ((Nodup-cons).0 n).0 (rw q mem-cons_self) in
    place_swap a.0 b.0 (text a.1) (text b.1) (sorted l) ne ∙ rw (e, f) refl
sorted-Permᴰ (trans {l₁} {l₂} {l₃} d d') n =
    sorted-Permᴰ d n ∙ sorted-Permᴰ d' (Perm.nodup (Perm.map (λ (p : Bytes × Bytes). p.0) ∣ d ∣₁) n)

-- The order of a map's pairs makes no difference to what is marshalled of it.
pub marshal-Perm :
    (f : Members → Bytes) (m m' : List (Bytes × Bytes))
    → Nodup (keys m)
    → Perm m m'
    → f (sorted m) ≡ f (sorted m')
marshal-Perm f m m' n p = ∥∥₁_elim p (hlevel) (λ d. ap f (sorted-Permᴰ d n))
