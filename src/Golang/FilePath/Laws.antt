-- ===== src/Golang/FilePath/Laws.antt =====
-- `path/filepath`: `Clean` and `Join` name the places that they should.
use weft_driver_vz.Common.{
  ℕ, ◌≡◌, refl, ap, ◌∙◌, ◌≢◌, Bool, true, false, List, [], ◌∷◌, ◌++◌, foldl, reverse, append-nil,
  append_assoc, arith, if◌then◌else◌, All, All-append, Bytes, bytes_eq,
}
use mathlib.Core.List.{foldl-append, reverse-cons}
use weft_driver_vz.Golang.FilePath.{
  slash, dot, Place, split_from, parts, push, is_abs, join_parts, render, clean, join, resolve,
  IsName,
}
use weft_driver_vz.Golang.FilePath.Walk.{
  IsClean, split_from-Lacks, foldl-IsClean, push-name, walk-foldl, walk-IsClean,
}

abbrev IsKept : Bytes → Type 0
IsKept c = All (λ b. b ≢ slash) c × (bytes_eq c [] ≡ false)

IsClean-IsKept : (rooted : Bool) (st : Place) → IsClean rooted st → All IsKept st
IsClean-IsKept rooted [] h = tt
IsClean-IsKept rooted (c ∷ st) h = ((h.0.plain, h.0.nonempty), IsClean-IsKept rooted st h.2)

reverse-IsKept : (st : Place) → All IsKept st → All IsKept (reverse st)
reverse-IsKept [] h = tt
reverse-IsKept (c ∷ st) (hc, h) =
    rw (reverse-cons c st) (All-append IsKept (reverse st) (c ∷ []) (reverse-IsKept st h) (hc, tt))

split_from-part : (cur p : Bytes) → All (λ b. b ≢ slash) p → split_from cur p ≡ (cur ++ p) ∷ []
unfolding split_from
split_from-part cur [] h = rw append-nil
split_from-part cur (x ∷ p) (hx, h) =
    ground (arith, split_from-part (cur ++ x ∷ []) p h, append_assoc cur (x ∷ []) p)

split_from-slash :
    (cur p s : Bytes) → split_from cur (p ++ slash ∷ s) ≡ split_from cur p ++ split_from [] s
unfolding split_from
split_from-slash cur [] s = refl
split_from-slash cur (x ∷ p) s =
    ground (arith, split_from-slash [] p s, split_from-slash (cur ++ x ∷ []) p s)

parts-join_parts :
    (c : Bytes) (cs : List Bytes) → All IsKept (c ∷ cs) → parts (join_parts (c ∷ cs)) ≡ c ∷ cs
unfolding join_parts
parts-join_parts c [] (hc, h) = split_from-part [] c hc.0
parts-join_parts c (d ∷ cs) (hc, h) =
    split_from-slash [] c (join_parts (d ∷ cs))
    ∙ rw (split_from-part [] c hc.0, parts-join_parts d cs h)

push-skip : (st : Place) → (push true st [] ≡ st) × (push true st dot ≡ st)
unfolding push bytes_eq
push-skip st = (refl, refl)

walk-join_parts :
    (base : Place) (cs : List Bytes)
    → All IsKept cs
    → foldl (push true) base (parts (join_parts cs)) ≡ foldl (push true) base cs
walk-join_parts base [] h = unfold join_parts split_from in (push-skip base).0
walk-join_parts base (c ∷ cs) h = rw (parts-join_parts c cs h)

walk-render :
    (rooted : Bool) (base : Place) (cs : List Bytes)
    → All IsKept cs
    → foldl (push true) base (parts (render rooted cs)) ≡ foldl (push true) base cs
unfolding render split_from
walk-render true base cs h =
    ap (λ st. foldl (push true) st (parts (join_parts cs))) (push-skip base).0
    ∙ walk-join_parts base cs h
walk-render false base [] h = (push-skip base).1
walk-render false base (c ∷ cs) h = walk-join_parts base (c ∷ cs) h

is_abs-join_parts : (c : Bytes) (cs : List Bytes) → IsKept c → is_abs (join_parts (c ∷ cs)) ≡ false
unfolding is_abs join_parts bytes_eq
is_abs-join_parts [] cs h = cc h.1
is_abs-join_parts (x ∷ c) [] h = ground arith
is_abs-join_parts (x ∷ c) (d ∷ cs) h = ground arith

is_abs-render :
    (rooted : Bool) (cs : List Bytes) → All IsKept cs → is_abs (render rooted cs) ≡ rooted
unfolding render
is_abs-render true cs h = unfold is_abs in refl
is_abs-render false [] h = unfold is_abs in refl
is_abs-render false (c ∷ cs) h = is_abs-join_parts c cs h.0

-- What `clean` renders.
abbrev cleaned : Bytes → Place
cleaned s = foldl (push (is_abs s)) [] (parts s)

cleaned-IsClean : (s : Bytes) → IsClean (is_abs s) (cleaned s)
cleaned-IsClean s = foldl-IsClean (is_abs s) (parts s) [] (split_from-Lacks [] s tt) tt

cleaned-IsKept : (s : Bytes) → All IsKept (reverse (cleaned s))
cleaned-IsKept s =
    reverse-IsKept (cleaned s) (IsClean-IsKept (is_abs s) (cleaned s) (cleaned-IsClean s))

walk-cleaned :
    (rooted : Bool) (cwd : Place) (cs : List Bytes)
    → All (All (λ b. b ≢ slash)) cs
    → foldl (push true) (if rooted then [] else cwd) (reverse (foldl (push rooted) [] cs))
      ≡ foldl (push true) (if rooted then [] else cwd) cs
walk-cleaned true cwd cs h = walk-IsClean _ (foldl-IsClean true cs [] h tt)
walk-cleaned false cwd cs h = walk-foldl cwd cs [] h tt

-- `Clean` keeps the place that a path names, from every working directory.
pub resolve-clean : (cwd : Place) (s : Bytes) → resolve cwd (clean s) ≡ resolve cwd s
unfolding resolve clean
resolve-clean cwd s =
    rw
      (
        is_abs-render (is_abs s) (reverse (cleaned s)) (cleaned-IsKept s),
        walk-render (is_abs s) _ (reverse (cleaned s)) (cleaned-IsKept s),
      )
      (walk-cleaned (is_abs s) cwd (parts s) (split_from-Lacks [] s tt))

resolve-slash :
    (cwd : Place) (c : ℕ) (a name : Bytes)
    → IsName name
    → resolve cwd ((c ∷ a) ++ slash ∷ name) ≡ name ∷ resolve cwd (c ∷ a)
unfolding resolve is_abs
resolve-slash cwd c a name n =
    rw (split_from-slash [] (c ∷ a) name, split_from-part [] name n.plain, foldl-append)
      (push-name true _ name n.nonempty n.not_dot n.not_dotdot)

-- Joining a file's name to a directory names the file in the directory's place.
pub resolve-join :
    (cwd : Place) (a name : Bytes)
    → a ≢ []
    → IsName name
    → resolve cwd (join a name) ≡ name ∷ resolve cwd a
unfolding join
resolve-join cwd [] name h n = absurd (h refl)
resolve-join cwd (c ∷ a) name h n =
    resolve-clean cwd ((c ∷ a) ++ slash ∷ name) ∙ resolve-slash cwd c a name n

render-ne-nil : (rooted : Bool) (cs : List Bytes) → All IsKept cs → render rooted cs ≢ []
unfolding render join_parts bytes_eq
render-ne-nil true cs h e = cc
render-ne-nil false [] h e = cc
render-ne-nil false ([] ∷ cs) h e = cc h.0.1
render-ne-nil false ((x ∷ c) ∷ []) h e = cc
render-ne-nil false ((x ∷ c) ∷ d ∷ cs) h e = cc

-- A joined path is empty only if both of its parts are.
pub join-ne-nil : (a b : Bytes) → a ≢ [] → join a b ≢ []
unfolding join
join-ne-nil [] b h e = absurd (h refl)
join-ne-nil (c ∷ a) b h e =
    let s = (c ∷ a) ++ slash ∷ b in
    unfold clean in render-ne-nil (is_abs s) (reverse (cleaned s)) (cleaned-IsKept s) e
