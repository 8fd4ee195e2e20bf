-- ===== src/Marks/Parse/RoundTrip.antt =====
-- builtin/vmrun.go: what `parseNCLMark` reads from a printed mark.
use weft_driver_vz.Common.{
  ℕ, ◌+◌, ◌-◌, ◌≡◌, refl, sym, ap, ◌∙◌, ◌↔◌, Option, none, some, List, [], ◌∷◌, ◌++◌, append-nil,
  arith, if◌then◌else◌, length, length-append, take-append, take_past, drop_past, All, All-append,
  Bytes, bytes_eq, bytes_eq_iff,
}
use mathlib.Core.List.{cons-ne-nil}
use weft_driver_vz.Marks.Search.{index_substr-IsFirst, IsFirst, index_byte_str-append, Lacks}
use weft_driver_vz.Marks.Fields.{
  split_fields-words, words, IsInk, IsWord, words-cons, words-single, words-blank, words-nil,
}
use weft_driver_vz.Marks.Parse.{
  Meta, Mark, assign, strip_cr, last_or, prefix, add_pair, put_at, add_pairs, read_parts, read_mark,
  read_at, parse_mark,
}

last_or-append : (d : ℕ) (s : Bytes) (c : ℕ) → last_or d (s ++ c ∷ []) ≡ c
unfolding last_or
last_or-append d [] c = refl
last_or-append d (x ∷ s) c = last_or-append x s c

strip_cr-append : (s : Bytes) → strip_cr (s ++ b'\r' ∷ []) ≡ s
unfolding strip_cr
strip_cr-append s =
    rw (last_or-append, length-append)
      (let e : length s + 1 - 1 ≡ length s + 0 = omega arith in
        rw (e, take_past, append-nil) ground arith)

-- A pair as the guest writes it.
abbrev pair_text : Bytes × Bytes → Bytes
pair_text (k, v) = k ++ b'=' ∷ v

abbrev pub print_pairs : List (Bytes × Bytes) → Bytes
print_pairs [] = []
print_pairs (p ∷ ps) = b' ' ∷ (pair_text p ++ print_pairs ps)

-- What the guest writes behind the prefix.
abbrev pub print_mark : Bytes → List (Bytes × Bytes) → Bytes
print_mark stage ps = stage ++ print_pairs ps

-- The value of the last pair with key `k`.
abbrev pub last_value : Bytes → List (Bytes × Bytes) → Option Bytes
last_value k [] = none
last_value k ((j, v) ∷ ps) = elim (last_value k ps) [
  | some w ↦ some w
  | none ↦ if bytes_eq j k then some v else none
]

abbrev pub lookup : Bytes → Meta → Option Bytes
lookup k [] = none
lookup k ((j, v) ∷ m) = if bytes_eq j k then some v else lookup k m

-- A nil map has no keys.
abbrev pub lookup_meta : Bytes → Option Meta → Option Bytes
lookup_meta k none = none
lookup_meta k (some m) = lookup k m

pub record IsPair (p : Bytes × Bytes) : Type 0 where
  pub key : IsWord p.0
  pub plain : Lacks b'=' p.0
  pub value : All IsInk p.1

pair_text-IsWord : (p : Bytes × Bytes) → IsPair p → IsWord (pair_text p)
pair_text-IsWord ([], v) h = absurd (h.key.nonempty refl)
pair_text-IsWord (c ∷ k, v) h = record {
  nonempty = cons-ne-nil c _;
  ink = All-append IsInk (c ∷ k) (b'=' ∷ v) h.key.ink (refl, h.value);
}

lookup-assign :
    (k j v : Bytes) (m : Meta)
    → lookup k (assign j v m) ≡ (if bytes_eq j k then some v else lookup k m)
unfolding assign
lookup-assign k j v [] = refl
lookup-assign k j v ((i, w) ∷ m) =
    ground (arith, lookup-assign k j v m, bytes_eq_iff i j, bytes_eq_iff j k, bytes_eq_iff i k)

add_pair-assign :
    (p : Bytes × Bytes) (m : Meta) → IsPair p → add_pair (pair_text p) m ≡ assign p.0 p.1 m
unfolding add_pair put_at
add_pair-assign ([], v) m h = absurd (h.key.nonempty refl)
add_pair-assign (c ∷ k, v) m h =
    rw (index_byte_str-append (c ∷ k) v b'=' h.plain, take-append, drop_past (c ∷ k) (b'=' ∷ v) 1)
      (ground arith)

abbrev pair_texts : List (Bytes × Bytes) → List Bytes
pair_texts [] = []
pair_texts (p ∷ ps) = pair_text p ∷ pair_texts ps

lookup-add_pairs :
    (k : Bytes) (ps : List (Bytes × Bytes)) (m : Meta)
    → All IsPair ps
    → lookup k (add_pairs (pair_texts ps) m)
      ≡ elim (last_value k ps) [ some w ↦ some w | none ↦ lookup k m ]
unfolding add_pairs
lookup-add_pairs k [] m h = refl
lookup-add_pairs k ((j, v) ∷ ps) m (hp, h) =
    ap (λ x. lookup k (add_pairs (pair_texts ps) x)) (add_pair-assign (j, v) m hp)
    ∙ (lookup-add_pairs k ps (assign j v m) h ∙ ground (arith, lookup-assign k j v m))

words-print_pairs :
    (ps : List (Bytes × Bytes)) → All IsPair ps → words (print_pairs ps) ≡ pair_texts ps
words-print_pairs [] h = words-nil
words-print_pairs (p ∷ []) (hp, h) =
    words-blank b' ' _ refl ∙ rw append-nil (words-single (pair_text p) (pair_text-IsWord p hp))
words-print_pairs (p ∷ q ∷ ps) (hp, h) =
    words-blank b' ' _ refl
    ∙ (words-cons (pair_text p) _ b' ' (pair_text-IsWord p hp) refl
        ∙ ap (λ l. pair_text p ∷ l) (sym (words-blank b' ' _ refl) ∙ words-print_pairs (q ∷ ps) h))

words-print_mark :
    (stage : Bytes) (ps : List (Bytes × Bytes))
    → IsWord stage
    → All IsPair ps
    → words (print_mark stage ps) ≡ stage ∷ pair_texts ps
words-print_mark stage [] hs h = rw append-nil (words-single stage hs)
words-print_mark stage (p ∷ ps) hs h =
    words-cons stage _ b' ' hs refl
    ∙ ap (λ l. stage ∷ l) (sym (words-blank b' ' _ refl) ∙ words-print_pairs (p ∷ ps) h)

-- `parse_mark` on a line that ends in a carriage return.
parse_mark-cr : (line : Bytes) → parse_mark (line ++ b'\r' ∷ []) ≡ read_mark line
unfolding parse_mark
parse_mark-cr line = rw strip_cr-append

read_mark_at :
    (pre body : Bytes)
    → IsFirst (pre ++ (prefix ++ body)) prefix (length pre)
    → read_mark (pre ++ (prefix ++ body)) ≡ read_parts (words body)
unfolding read_mark read_at
read_mark_at pre body f =
    rw ((index_substr-IsFirst _ prefix _ (cons-ne-nil _ _)).1 f, drop_past, split_fields-words)

-- A line that holds the prefix, before which the prefix stands nowhere, and behind it a stage and
-- pairs, and that ends in a carriage return, is read as that stage, and each key has the value of
-- its last pair: for every key, a lookup in the result finds the last value printed for it. Without
-- pairs the map is nil. The stage and the keys are not empty, no key holds an equals sign, and none
-- of them and no value holds a space or a tab.
pub parse_mark-print_mark :
    (pre stage : Bytes) (ps : List (Bytes × Bytes))
    → IsWord stage
    → All IsPair ps
    → IsFirst (pre ++ (prefix ++ print_mark stage ps)) prefix (length pre)
    → (m : Mark) × (parse_mark ((pre ++ (prefix ++ print_mark stage ps)) ++ b'\r' ∷ []) ≡ some m)
      × (m.stage ≡ stage)
      × ((ps ≡ []) ↔ (m.meta ≡ none))
      × ((k : Bytes) → lookup_meta k m.meta ≡ last_value k ps)
unfolding read_parts
parse_mark-print_mark pre stage [] hs h f = (
  record { stage = stage; meta = none },
  parse_mark-cr _ ∙ (read_mark_at pre _ f ∙ rw (words-print_mark stage [] hs h)),
  refl,
  (λ _. refl, λ _. refl),
  λ k. refl,
)
parse_mark-print_mark pre stage (p ∷ ps) hs h f = (
  record { stage = stage; meta = some (add_pairs (pair_texts (p ∷ ps)) []) },
  parse_mark-cr _ ∙ (read_mark_at pre _ f ∙ rw (words-print_mark stage (p ∷ ps) hs h)),
  refl,
  (λ e. cc, λ e. cc),
  λ k. lookup-add_pairs k (p ∷ ps) [] h ∙ ground arith,
)
