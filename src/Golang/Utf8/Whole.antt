-- ===== src/Golang/Utf8/Whole.antt =====
-- The decoding of a rune looks at the rune's own bytes only.
use weft_driver_vz.Common.{
  ℕ, ◌-◌, ◌≤◌, ◌<◌, ◌≡◌, refl, fun_ext, ◌⊎◌, inl, inr, false, ◌&&◌, [], ◌∷◌, ◌++◌, arith, ltb, ◌==◌,
  if◌then◌else◌, Bool-cases, length, take, Bytes,
}
use weft_driver_vz.Golang.Utf8.{Rune, invalid, within, two, three, four, decode_rune}

-- The rune that `f` reads at the front of `s` takes more than one byte, and these tell it.
pub record IsWhole (f : Bytes → Rune) (s : Bytes) : Type 0 where
  pub wide : 1 < (f s).width
  pub has : (f s).width - 1 ≤ length s
  pub same : (rest : Bytes) → f (take ((f s).width - 1) s ++ rest) ≡ f s

two-cases : (b : ℕ) (s : Bytes) → (two b s ≡ invalid) ⊎ IsWhole (two b) s
unfolding two
two-cases b [] = inl refl
two-cases b (c ∷ s) = elim (Bool-cases (within 0x80 0xBF c)) [
  | inl e ↦ inr (record {
    wide = rw e (omega arith);
    has = rw e (omega arith);
    same = λ rest. rw e (rw e refl);
  })
  | inr e ↦ inl (rw e refl)
]

three-cases : (lo hi b : ℕ) (s : Bytes) → (three lo hi b s ≡ invalid) ⊎ IsWhole (three lo hi b) s
unfolding three
three-cases lo hi b [] = inl refl
three-cases lo hi b (c ∷ []) = inl refl
three-cases lo hi b (c ∷ d ∷ s) = elim (Bool-cases (within lo hi c && within 0x80 0xBF d)) [
  | inl e ↦ inr (record {
    wide = rw e (omega arith);
    has = rw e (omega arith);
    same = λ rest. rw e (rw e refl);
  })
  | inr e ↦ inl (rw e refl)
]

four-cases : (lo hi b : ℕ) (s : Bytes) → (four lo hi b s ≡ invalid) ⊎ IsWhole (four lo hi b) s
unfolding four
four-cases lo hi b [] = inl refl
four-cases lo hi b (c ∷ []) = inl refl
four-cases lo hi b (c ∷ d ∷ []) = inl refl
four-cases lo hi b (c ∷ d ∷ e ∷ s) =
    elim (Bool-cases (within lo hi c && (within 0x80 0xBF d && within 0x80 0xBF e))) [
      | inl q ↦ inr (record {
        wide = rw q (omega arith);
        has = rw q (omega arith);
        same = λ rest. rw q (rw q refl);
      })
      | inr q ↦ inl (rw q refl)
    ]

-- Whatever is not ASCII is an invalid byte, or a whole rune.
abbrev Told : (Bytes → Rune) → Bytes → Type 0
Told f s = (f s ≡ invalid) ⊎ IsWhole f s

pub decode_rune-cases : (b : ℕ) (s : Bytes) → 0x80 ≤ b → Told (decode_rune b) s
decode_rune-cases b s h = elim (Bool-cases (ltb b 0xC2)) [
  | inl e2 ↦ inl (unfold decode_rune in rw (e1, e2) refl)
  | inr e2 ↦ elim (Bool-cases (ltb b 0xE0)) [
    | inl e3 ↦
        let q : decode_rune b ≡ two b =
          fun_ext (λ (t : Bytes). unfold decode_rune in rw (e1, e2, e3) refl) in
        rw q (two-cases b s)
    | inr e3 ↦ elim (Bool-cases (ltb b 0xF0)) [
      | inl e4 ↦
          let q : decode_rune b
              ≡ three (if b == 0xE0 then 0xA0 else 0x80) (if b == 0xED then 0x9F else 0xBF) b =
            fun_ext (λ (t : Bytes). unfold decode_rune in rw (e1, e2, e3, e4) refl) in
          rw q (three-cases _ _ b s)
      | inr e4 ↦ elim (Bool-cases (ltb b 0xF5)) [
        | inl e5 ↦
            let q : decode_rune b
                ≡ four (if b == 0xF0 then 0x90 else 0x80) (if b == 0xF4 then 0x8F else 0xBF) b =
              fun_ext (λ (t : Bytes). unfold decode_rune in rw (e1, e2, e3, e4, e5) refl) in
            rw q (four-cases _ _ b s)
        | inr e5 ↦ inl (unfold decode_rune in rw (e1, e2, e3, e4, e5) refl)
      ]
    ]
  ]
]
  where
    e1 : ltb b 0x80 ≡ false
    e1 = ground arith
