-- ===== src/Golang/FilePath/Walk.antt =====
-- `path/filepath`: walking over the parts of a path, where `..` steps back.
use weft_driver_vz.Common.{
  ◌≡◌, refl, sym, ◌∙◌, ◌≢◌, inl, inr, Bool, true, false, List, [], ◌∷◌, ◌++◌, foldl, reverse,
  reverse-append, arith, ◌==◌, Bool-cases, All, All-append, Bytes, bytes_eq,
}
use mathlib.Core.List.{foldl-append}
use weft_driver_vz.Golang.FilePath.{slash, dot, dotdot, Place, split_from, up, push}

-- What `Clean` keeps of a path, the last part first: no empty part and no `.`, and `..` at most
-- in front of a path that is not rooted.
pub record IsPart (c : Bytes) : Type 0 where
  pub plain : All (λ b. b ≢ slash) c
  pub nonempty : bytes_eq c [] ≡ false
  pub not_dot : bytes_eq c dot ≡ false

abbrev pub IsClean : Bool → Place → Type 0
IsClean rooted [] = Unit
IsClean rooted (c ∷ st) =
    IsPart c
    × (bytes_eq c dotdot ≡ true → (rooted ≡ false) × All (λ d. bytes_eq d dotdot ≡ true) st)
    × IsClean rooted st

pub dotdot-IsPart : IsPart dotdot
unfolding bytes_eq
dotdot-IsPart = record { plain = omega arith; nonempty = refl; not_dot = refl }

abbrev pub IsUp : Bytes → Type 0
IsUp d = bytes_eq d dotdot ≡ true

pub up-IsClean : (rooted : Bool) (st : Place) → IsClean rooted st → IsClean rooted (up rooted st)
unfolding up
up-IsClean true [] h = tt
up-IsClean true (c ∷ st) h = h.2
up-IsClean false [] h = (dotdot-IsPart, λ _. (refl, tt), tt)
up-IsClean false (c ∷ st) h = elim (Bool-cases (bytes_eq c dotdot)) [
  | inl e ↦ rw e (dotdot-IsPart, λ _. (refl, (e, (h.1 e).1)), h)
  | inr e ↦ rw e h.2
]

pub push-IsClean :
    (rooted : Bool) (st : Place) (c : Bytes)
    → All (λ b. b ≢ slash) c
    → IsClean rooted st
    → IsClean rooted (push rooted st c)
unfolding push
push-IsClean rooted st c hc h = elim (Bool-cases (bytes_eq c [])) [
  | inl e ↦ rw e h
  | inr e ↦ elim (Bool-cases (bytes_eq c dot)) [
    | inl f ↦ rw (e, f) h
    | inr f ↦ elim (Bool-cases (bytes_eq c dotdot)) [
      | inl g ↦ rw (e, f, g) (up-IsClean rooted st h)
      | inr g ↦ rw (e, f, g) (record { plain = hc; nonempty = e; not_dot = f }, λ q. absurd (cc), h)
    ]
  ]
]

pub split_from-Lacks :
    (cur s : Bytes) → All (λ b. b ≢ slash) cur → All (All (λ b. b ≢ slash)) (split_from cur s)
unfolding split_from
split_from-Lacks cur [] h = (h, tt)
split_from-Lacks cur (c ∷ s) h = elim (Bool-cases (c == slash)) [
  | inl e ↦ rw e (h, split_from-Lacks [] s tt)
  | inr e ↦ rw e (split_from-Lacks (cur ++ c ∷ []) s (All-append _ cur (c ∷ []) h (ground arith)))
]

pub foldl-IsClean :
    (rooted : Bool) (cs : List Bytes) (st : Place)
    → All (All (λ b. b ≢ slash)) cs
    → IsClean rooted st
    → IsClean rooted (foldl (push rooted) st cs)
foldl-IsClean rooted [] st hc h = h
foldl-IsClean rooted (c ∷ cs) st (hc, hcs) h =
    foldl-IsClean rooted cs (push rooted st c) hcs (push-IsClean rooted st c hc h)

-- Walking on from `base` over a kept list of parts, where `..` steps back.
abbrev pub walk : Place → Place → Place
walk base st = foldl (push true) base (reverse st)

pub walk-cons :
    (base : Place) (c : Bytes) (st : Place) → walk base (c ∷ st) ≡ push true (walk base st) c
walk-cons base c st = rw (reverse-append (c ∷ []) st, foldl-append)

pub push-name :
    (rooted : Bool) (st : Place) (c : Bytes)
    → bytes_eq c [] ≡ false
    → bytes_eq c dot ≡ false
    → bytes_eq c dotdot ≡ false
    → push rooted st c ≡ c ∷ st
unfolding push
push-name rooted st c e f g = rw (e, f, g)

pub up-back :
    (base : Place) (c : Bytes) (st : Place)
    → IsPart c
    → bytes_eq c dotdot ≡ false
    → up true (walk base (c ∷ st)) ≡ walk base st
unfolding up
up-back base c st h e = rw (walk-cons, push-name true (walk base st) c h.nonempty h.not_dot e)

pub push-dotdot : (st : Place) → push true st dotdot ≡ up true st
unfolding push bytes_eq
push-dotdot st = refl

pub walk-up :
    (base st : Place) → IsClean false st → walk base (up false st) ≡ up true (walk base st)
unfolding up
walk-up base [] h = push-dotdot base
walk-up base (c ∷ st) h = elim (Bool-cases (bytes_eq c dotdot)) [
  | inl e ↦ rw e (walk-cons base dotdot (c ∷ st) ∙ push-dotdot (walk base (c ∷ st)))
  | inr e ↦ rw e (sym (up-back base c st h.0 e))
]

pub walk-push :
    (base st : Place) (c : Bytes)
    → IsClean false st
    → walk base (push false st c) ≡ push true (walk base st) c
unfolding push
walk-push base st c h = elim (Bool-cases (bytes_eq c [])) [
  | inl e ↦ rw e
  | inr e ↦ elim (Bool-cases (bytes_eq c dot)) [
    | inl f ↦ rw (e, f)
    | inr f ↦ elim (Bool-cases (bytes_eq c dotdot)) [
      | inl g ↦ rw (e, f, g) (walk-up base st h)
      | inr g ↦ rw (e, f, g) (walk-cons base c st ∙ rw (push, e, f, g))
    ]
  ]
]

-- A relative path, cleaned first, leads to the same place.
pub walk-foldl :
    (base : Place) (cs : List Bytes) (st : Place)
    → All (All (λ b. b ≢ slash)) cs
    → IsClean false st
    → walk base (foldl (push false) st cs) ≡ foldl (push true) (walk base st) cs
walk-foldl base [] st hc h = refl
walk-foldl base (c ∷ cs) st (hc, hcs) h =
    walk-foldl base cs (push false st c) hcs (push-IsClean false st c hc h)
    ∙ rw (walk-push base st c h)

-- The parts of a cleaned rooted path, walked again from the root.
pub walk-IsClean : (st : Place) → IsClean true st → walk [] st ≡ st
walk-IsClean [] h = refl
walk-IsClean (c ∷ st) h =
    walk-cons [] c st
    ∙ (rw (walk-IsClean st h.2) (
        push-name true st c h.0.nonempty h.0.not_dot
          (elim (Bool-cases (bytes_eq c dotdot)) [ inl e ↦ absurd (cc (h.1 e).0) | inr e ↦ e ])))
