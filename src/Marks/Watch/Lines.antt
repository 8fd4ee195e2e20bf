-- ===== src/Marks/Watch/Lines.antt =====
-- The lines of a log, byte by byte: the complete ones and the one that is still open.
use weft_driver_vz.Common.{
  ℕ, suc, ◌+◌, ◌<◌, ◌≡◌, refl, sym, ◌∙◌, inl, inr, none, some, List, [], ◌∷◌, ◌++◌, append-nil,
  append_assoc, arith, ◌==◌, if◌then◌else◌, Bool-cases, length, take, drop, All-append, Bytes,
}
use native.Mathlib.Nat.{suc-add}
use weft_driver_vz.Marks.Search.{index_nl, index_nl_from, Lacks}

unfoldable pub lines_from : Bytes → Bytes → List Bytes
lines_from cur [] = []
lines_from cur (b ∷ s) =
    let cut = cur ∷ lines_from [] s in
    let go = lines_from (cur ++ b ∷ []) s in if b == b'\n' then cut else go

unfoldable pub rest_from : Bytes → Bytes → Bytes
rest_from cur [] = cur
rest_from cur (b ∷ s) = rest_from (if b == b'\n' then [] else cur ++ b ∷ []) s

-- The lines that end in a line feed, without it, and the text behind the last line feed.
abbrev pub lines : Bytes → List Bytes
lines = lines_from []

abbrev pub rest : Bytes → Bytes
rest = rest_from []

pub lines_from-append :
    (cur a b : Bytes) → lines_from cur (a ++ b) ≡ lines_from cur a ++ lines_from (rest_from cur a) b
unfolding lines_from rest_from
lines_from-append cur [] b = refl
lines_from-append cur (x ∷ a) b =
    ground (arith, lines_from-append [] a b, lines_from-append (cur ++ x ∷ []) a b)

pub rest_from-append : (cur a b : Bytes) → rest_from cur (a ++ b) ≡ rest_from (rest_from cur a) b
unfolding rest_from
rest_from-append cur [] b = refl
rest_from-append cur (x ∷ a) b = rest_from-append (if x == b'\n' then [] else cur ++ x ∷ []) a b

-- Text without a line feed only extends the open line.
pub lines_from-Lacks :
    (cur p b : Bytes)
    → Lacks b'\n' p
    → (lines_from cur (p ++ b) ≡ lines_from (cur ++ p) b)
      × (rest_from cur (p ++ b) ≡ rest_from (cur ++ p) b)
unfolding lines_from rest_from
lines_from-Lacks cur [] b h = (rw append-nil, rw append-nil)
lines_from-Lacks cur (x ∷ p) b (hx, h) =
    ground (arith, lines_from-Lacks (cur ++ x ∷ []) p b h, append_assoc cur (x ∷ []) p)

pub rest_from-Lacks : (cur s : Bytes) → Lacks b'\n' cur → Lacks b'\n' (rest_from cur s)
unfolding rest_from
rest_from-Lacks cur [] h = h
rest_from-Lacks cur (b ∷ s) h = elim (Bool-cases (b == b'\n')) [
  | inl e ↦ rw e (rest_from-Lacks [] s tt)
  | inr e ↦ rw e (rest_from-Lacks (cur ++ b ∷ []) s (All-append _ cur (b ∷ []) h (ground arith)))
]

index_nl_from-none :
    (k : ℕ) (cur b : Bytes)
    → index_nl_from k b ≡ none
    → (lines_from cur b ≡ []) × (rest_from cur b ≡ cur ++ b)
unfolding index_nl_from lines_from rest_from
index_nl_from-none k cur [] h = (refl, sym (append-nil cur))
index_nl_from-none k cur (x ∷ b) h =
    ground (arith, index_nl_from-none (k + 1) (cur ++ x ∷ []) b, append_assoc cur (x ∷ []) b)

-- What the first line feed of a text, at `m`, says of its lines.
pub record Cuts (cur b : Bytes) (m : ℕ) : Type 0 where
  pub line : lines_from cur b ≡ (cur ++ take m b) ∷ lines (drop (m + 1) b)
  pub open_line : rest_from cur b ≡ rest (drop (m + 1) b)
  pub inside : m < length b

index_nl_from-some :
    (k i : ℕ) (cur b : Bytes) → index_nl_from k b ≡ some i → (m : ℕ) × (i ≡ k + m) × Cuts cur b m
unfolding index_nl_from lines_from rest_from
index_nl_from-some k i cur [] h = cc
index_nl_from-some k i cur (x ∷ b) h = elim (Bool-cases (x == b'\n')) [
  | inl e ↦ (
    0,
    ground arith,
    record { line = rw (e, append-nil); open_line = rw e; inside = omega arith },
  )
  | inr e ↦
      let (m, q, f) = index_nl_from-some (k + 1) i (cur ++ x ∷ []) b (ground arith) in
      (
        suc m,
        omega arith,
        record {
          line = rw (e, suc-add m 1) (f.line ∙ rw append_assoc);
          open_line = rw (e, suc-add m 1) f.open_line;
          inside = omega (arith, f.inside);
        },
      )
]

pub index_nl-none : (b : Bytes) → index_nl b ≡ none → (lines b ≡ []) × (rest b ≡ b)
unfolding index_nl
index_nl-none b h = index_nl_from-none 0 [] b h

pub index_nl-some : (b : Bytes) (i : ℕ) → index_nl b ≡ some i → Cuts [] b i
unfolding index_nl
index_nl-some b i h =
    let (m, q, f) = index_nl_from-some 0 i [] b h in let e : i ≡ m = omega arith in rw e f

pub lines-nil : lines [] ≡ []
unfolding lines_from
lines-nil = refl

pub rest-nil : rest [] ≡ []
unfolding rest_from
rest-nil = refl
