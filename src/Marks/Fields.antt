-- ===== src/Marks/Fields.antt =====
-- builtin/vmrun.go: `splitFields`, a loop over the runes of a string that slices it at byte indices.
use weft_driver_vz.Common.{
  ℕ, zero, suc, ◌+◌, ◌-◌, ◌≡◌, refl, sym, ap, ◌∙◌, ◌≢◌, inl, inr, Bool, true, false, ◌||◌, Option,
  none, some, List, [], ◌∷◌, ◌++◌, append-nil, append_assoc, arith, ◌==◌, if◌then◌else◌, Bool-cases,
  length, take, drop, length-append, drop-append, take-append, take_past, All, Bytes,
}
use weft_driver_vz.Golang.Utf8.{
  runes, runes_from, decode_rune, decode_rune_width, decode_rune-IsHigh, decode_rune_ascii, IsHigh,
}

abbrev pub is_blank : ℕ → Bool
is_blank c = c == b' ' || c == b'\t'

-- The bytes of `s` from index `i` up to index `j`.
abbrev slice : Bytes → ℕ → ℕ → Bytes
slice s i j = drop i (take j s)

-- `start` is `none` where the source has -1.
fields_loop : Bytes → List (ℕ × ℕ) → Option ℕ → List Bytes → List Bytes
fields_loop s [] none out = out
fields_loop s [] (some j) out = out ++ drop j s ∷ []
fields_loop s ((i, c) ∷ rs) none out =
    let stay = fields_loop s rs none out in
    let open_word = fields_loop s rs (some i) out in if is_blank c then stay else open_word
fields_loop s ((i, c) ∷ rs) (some j) out =
    let cut = fields_loop s rs none (out ++ slice s j i ∷ []) in
    let go = fields_loop s rs (some j) out in if is_blank c then cut else go

unfoldable pub split_fields : Bytes → List Bytes
unfolding fields_loop
split_fields s = fields_loop s (runes s) none []

-- The words of a text, read byte by byte; `cur` is the word that is being read.
pub words_from : Bytes → Bytes → List Bytes
words_from [] [] = []
words_from (c ∷ cur) [] = (c ∷ cur) ∷ []
words_from [] (b ∷ s) =
    let stay = words_from [] s in
    let open_word = words_from (b ∷ []) s in if is_blank b then stay else open_word
words_from (c ∷ cur) (b ∷ s) =
    let cut = (c ∷ cur) ∷ words_from [] s in
    let go = words_from (c ∷ cur ++ b ∷ []) s in if is_blank b then cut else go

abbrev pub words : Bytes → List Bytes
words = words_from []

abbrev pub IsInk : ℕ → Type 0
IsInk b = is_blank b ≡ false

slice_lem :
    (s pre w r : Bytes) (i : ℕ)
    → s ≡ pre ++ (w ++ r)
    → i ≡ length pre + length w
    → slice s (length pre) i ≡ w
slice_lem s pre w r i e q = rw (e, q, take_past, take-append, drop-append)

rest_lem : (s pre w : Bytes) → s ≡ pre ++ (w ++ []) → drop (length pre) s ≡ w
rest_lem s pre w e = rw (e, append-nil, drop-append)

grow_lem : (s pre w r : Bytes) (b : ℕ) → s ≡ pre ++ (w ++ b ∷ r) → s ≡ pre ++ ((w ++ b ∷ []) ++ r)
grow_lem s pre w r b e = rw append_assoc e

close_lem : (s pre w r : Bytes) (b : ℕ) → s ≡ pre ++ (w ++ b ∷ r) → s ≡ (pre ++ (w ++ b ∷ [])) ++ r
close_lem s pre w r b e = rw (append_assoc, append_assoc) e

high-IsInk : (n : ℕ) (s : Bytes) → All IsHigh (take n s) → All IsInk (take n s)
high-IsInk zero s h = tt
high-IsInk (suc n) [] h = tt
high-IsInk (suc n) (b ∷ s) (hb, h) = (ground arith, high-IsInk n s h)

-- A rune is blank exactly when its first byte is.
rune_blank : (b : ℕ) (s : Bytes) → is_blank (decode_rune b s).value ≡ is_blank b
rune_blank b s = ground (arith, decode_rune_ascii b s)

-- The bytes that a blank rune skips: none.
blank_width : (b : ℕ) (s : Bytes) → is_blank b ≡ true → (decode_rune b s).width ≡ 1
blank_width b s h = decode_rune_width b s (ground arith)

mutual
  unfolding fields_loop words_from runes_from

  -- The loop inside a word `c ∷ cur` that starts behind `pre`, with `r` still to read.
  loop_open :
      (s pre r : Bytes) (c : ℕ) (cur : Bytes) (i skip : ℕ) (out : List Bytes)
      → s ≡ pre ++ ((c ∷ cur) ++ r)
      → i ≡ length pre + length (c ∷ cur)
      → All IsInk (take skip r)
      → fields_loop s (runes_from i skip r) (some (length pre)) out ≡ out ++ words_from (c ∷ cur) r
  loop_open s pre [] c cur i zero out e q h = rw (rest_lem s pre (c ∷ cur) e)
  loop_open s pre [] c cur i (suc skip) out e q h = rw (rest_lem s pre (c ∷ cur) e)
  loop_open s pre (b ∷ r) c cur i (suc skip) out e q (ink, h) = rw ink (
      loop_open s pre r c (cur ++ b ∷ []) (i + 1) skip out (grow_lem s pre (c ∷ cur) r b e)
        (omega (arith, q, length-append cur (b ∷ []))) h)
  loop_open s pre (b ∷ r) c cur i zero out e q h = elim (Bool-cases (is_blank b)) [
    | inl blank ↦
        rw (rune_blank, blank, blank_width b r blank, slice_lem s pre (c ∷ cur) (b ∷ r) i e q)
          (loop_closed s (pre ++ ((c ∷ cur) ++ b ∷ [])) r (i + 1) (out ++ (c ∷ cur) ∷ [])
              (close_lem s pre (c ∷ cur) r b e)
              (omega (arith, length-append pre ((c ∷ cur) ++ b ∷ []), length-append cur (b ∷ [])))
            ∙ append_assoc out ((c ∷ cur) ∷ []) (words_from [] r))
    | inr ink ↦
        rw (rune_blank, ink)
          (loop_open s pre r c (cur ++ b ∷ []) (i + 1) ((decode_rune b r).width - 1) out
            (grow_lem s pre (c ∷ cur) r b e) (omega (arith, q, length-append cur (b ∷ [])))
            (high-IsInk _ r (decode_rune-IsHigh b r)))
  ]

  -- The loop outside a word.
  loop_closed :
      (s pre r : Bytes) (i : ℕ) (out : List Bytes)
      → s ≡ pre ++ r
      → i ≡ length pre
      → fields_loop s (runes_from i 0 r) none out ≡ out ++ words_from [] r
  loop_closed s pre [] i out e q = sym (append-nil out)
  loop_closed s pre (b ∷ r) i out e q = elim (Bool-cases (is_blank b)) [
    | inl blank ↦
        rw (rune_blank, blank, blank_width b r blank)
          (loop_closed s (pre ++ b ∷ []) r (i + 1) out (rw append_assoc e)
            (omega (arith, length-append pre (b ∷ []))))
    | inr ink ↦
        rw (rune_blank, ink, q)
          (loop_open s pre r b [] (length pre + 1) ((decode_rune b r).width - 1) out e (omega arith)
            (high-IsInk _ r (decode_rune-IsHigh b r)))
  ]

-- For every byte string, valid UTF-8 or not, `split_fields` gives its maximal runs of bytes that
-- are neither a space nor a tab, in order.
pub split_fields-words : (s : Bytes) → split_fields s ≡ words s
unfolding split_fields runes
split_fields-words s = loop_closed s [] s 0 [] refl refl

-- A nonempty text without blanks.
pub record IsWord (w : Bytes) : Type 0 where
  pub nonempty : w ≢ []
  pub ink : All IsInk w

words_from-append :
    (c : ℕ) (cur w r : Bytes)
    → All IsInk w
    → words_from (c ∷ cur) (w ++ r) ≡ words_from (c ∷ cur ++ w) r
unfolding words_from
words_from-append c cur [] r h = rw append-nil
words_from-append c cur (b ∷ w) r (hb, h) =
    rw hb (words_from-append c (cur ++ b ∷ []) w r h ∙ rw append_assoc)

words_from-ink :
    (w r : Bytes)
    → IsWord w
    → (c : ℕ) × (s : Bytes) × (w ≡ c ∷ s) × (words (w ++ r) ≡ words_from w r)
unfolding words_from
words_from-ink [] r h = absurd (h.nonempty refl)
words_from-ink (c ∷ w) r h = (c, w, refl, rw h.ink.0 (words_from-append c [] w r h.ink.1))

-- A word ends at a blank or at the end of the text.
pub words-cons :
    (w r : Bytes) (b : ℕ) → IsWord w → is_blank b ≡ true → words (w ++ b ∷ r) ≡ w ∷ words r
unfolding words_from
words-cons w r b h hb = let (c, s, e, q) = words_from-ink w (b ∷ r) h in q ∙ rw (e, hb)

pub words-single : (w : Bytes) → IsWord w → words w ≡ w ∷ []
unfolding words_from
words-single w h =
    let (c, s, e, q) = words_from-ink w [] h in ap words (sym (append-nil w)) ∙ (q ∙ rw e)

pub words-blank : (b : ℕ) (r : Bytes) → is_blank b ≡ true → words (b ∷ r) ≡ words r
unfolding words_from
words-blank b r h = rw h

pub words-nil : words [] ≡ []
unfolding words_from
words-nil = refl
