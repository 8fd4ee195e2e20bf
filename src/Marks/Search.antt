-- ===== src/Marks/Search.antt =====
-- builtin/vmrun.go: `indexNL`, `indexSubstr` and `indexByteStr`, the searches for a byte and for a
-- text. A Go result of -1 is `none`.
use weft_driver_vz.Common.{
  ℕ, zero, suc, ◌+◌, ◌≤◌, ◌<◌, ◌≡◌, refl, ap, ◌∙◌, ◌≢◌, ◌↔◌, inl, inr, false, Option, none, some,
  [], ◌∷◌, ◌++◌, arith, ltb, leb, ◌==◌, if◌then◌else◌, Bool-cases, Option-cases, length, drop,
  length-append, All, Bytes,
}

-- The loop of `indexNL`, `for i, c := range b`, from index `i`.
unfoldable pub index_nl_from : ℕ → Bytes → Option ℕ
index_nl_from i [] = none
index_nl_from i (c ∷ b) = let rest = index_nl_from (i + 1) b in if c == b'\n' then some i else rest

unfoldable pub index_nl : Bytes → Option ℕ
unfolding index_nl_from
index_nl b = index_nl_from 0 b

index_byte_str_from : ℕ → Bytes → ℕ → Option ℕ
index_byte_str_from i [] c = none
index_byte_str_from i (d ∷ s) c =
    let rest = index_byte_str_from (i + 1) s c in if d == c then some i else rest

unfoldable pub index_byte_str : Bytes → ℕ → Option ℕ
unfolding index_byte_str_from
index_byte_str s c = index_byte_str_from 0 s c

-- The inner loop of `indexSubstr`: how many bytes of `s` agree with those of `b`.
agree : Bytes → Bytes → ℕ
agree [] s = 0
agree (x ∷ b) [] = 0
agree (x ∷ b) (y ∷ s) = if x == y then suc (agree b s) else 0

-- The outer loop, `b` being what is left of the text at index `i`.
index_substr_from : ℕ → Bytes → Bytes → Option ℕ
unfolding agree
index_substr_from i [] s = none
index_substr_from i (x ∷ b) s =
    let rest = index_substr_from (i + 1) b s in
    if leb (length s) (length (x ∷ b))
    then (if agree (x ∷ b) s == length s then some i else rest)
    else none

unfoldable pub index_substr : Bytes → Bytes → Option ℕ
unfolding index_substr_from
index_substr b [] = none
index_substr b (c ∷ s) =
    if leb (length (c ∷ s)) (length b) then index_substr_from 0 b (c ∷ s) else none

-- `s` stands at the front of `b`.
abbrev pub StartsWith : Bytes → Bytes → Type 0
StartsWith b s = (r : Bytes) × (b ≡ s ++ r)

agree_sound : (b s : Bytes) → agree b s ≡ length s → StartsWith b s
unfolding agree
agree_sound b [] h = (b, refl)
agree_sound [] (y ∷ s) h = cc
agree_sound (x ∷ b) (y ∷ s) h = elim (Bool-cases (x == y)) [
  | inl e ↦ let (r, q) = agree_sound b s (ground arith) in (r, ground arith)
  | inr e ↦ absurd (ground arith)
]

agree-append : (s r : Bytes) → agree (s ++ r) s ≡ length s
unfolding agree
agree-append [] [] = refl
agree-append [] (x ∷ r) = refl
agree-append (y ∷ s) r = ground (arith, agree-append s r)

agree_complete : (b s : Bytes) → StartsWith b s → agree b s ≡ length s
agree_complete b s (r, e) = rw e (agree-append s r)

StartsWith-length : (b s : Bytes) → StartsWith b s → length s ≤ length b
StartsWith-length b s (r, e) = omega (arith, ap length e, length-append s r)

-- The place of the first occurrence of `s` in `b`.
pub record IsFirst (b s : Bytes) (k : ℕ) : Type 0 where
  pub found : StartsWith (drop k b) s
  pub first : (j : ℕ) → j < k → ¬ StartsWith (drop j b) s

not-StartsWith-long : (b s : Bytes) (j : ℕ) → length b < length s → ¬ StartsWith (drop j b) s
not-StartsWith-long b s zero h w = absurd (omega (arith, StartsWith-length b s w))
not-StartsWith-long [] s (suc j) h w = absurd (omega (arith, StartsWith-length [] s w))
not-StartsWith-long (x ∷ b) s (suc j) h w = not-StartsWith-long b s j (omega arith) w

index_substr_from-IsFirst :
    (i : ℕ) (b s : Bytes) (k : ℕ)
    → index_substr_from i b s ≡ some k
    → (m : ℕ) × (k ≡ i + m) × IsFirst b s m
unfolding index_substr_from
index_substr_from-IsFirst i [] s k h = cc
index_substr_from-IsFirst i (x ∷ b) s k h = elim (Bool-cases (leb (length s) (length (x ∷ b)))) [
  | inr e ↦ absurd (ground arith)
  | inl e ↦ elim (Bool-cases (agree (x ∷ b) s == length s)) [
    | inl q ↦ (
      0,
      ground arith,
      record { found = agree_sound (x ∷ b) s (ground arith); first = λ j lt. elim lt [ ] },
    )
    | inr q ↦
        let (m, p, f) = index_substr_from-IsFirst (i + 1) b s k (ground arith) in
        (suc m, omega arith, record { found = f.found; first = earlier f.first q })
  ]
]
  where
    earlier :
        {m : ℕ}
        → ((j : ℕ) → j < m → ¬ StartsWith (drop j b) s)
        → (agree (x ∷ b) s == length s) ≡ false
        → (j : ℕ) → j < suc m
        → ¬ StartsWith (drop j (x ∷ b)) s
    earlier f q zero lt w = absurd (ground (arith, agree_complete (x ∷ b) s w))
    earlier f q (suc j) lt w = f j (omega arith) w

index_substr_from-none :
    (i : ℕ) (b s : Bytes) (j : ℕ)
    → index_substr_from i b s ≡ none
    → 0 < length s
    → ¬ StartsWith (drop j b) s
unfolding index_substr_from
index_substr_from-none i [] s j h pos w = not-StartsWith-long [] s j pos w
index_substr_from-none i (x ∷ b) s zero h pos w =
    absurd (ground (arith, agree_complete (x ∷ b) s w, StartsWith-length (x ∷ b) s w))
index_substr_from-none i (x ∷ b) s (suc j) h pos w =
    elim (Bool-cases (leb (length s) (length (x ∷ b)))) [
      | inr e ↦ not-StartsWith-long (x ∷ b) s (suc j) (ground arith) w
      | inl e ↦ index_substr_from-none (i + 1) b s j (ground arith) pos w
    ]

index_substr_sound :
    (b : Bytes) (c : ℕ) (s : Bytes) (k : ℕ) → index_substr b (c ∷ s) ≡ some k → IsFirst b (c ∷ s) k
unfolding index_substr
index_substr_sound b c s k e =
    let (m, p, f) = index_substr_from-IsFirst 0 b (c ∷ s) k (ground arith) in
    let q : k ≡ m = omega arith in rw q f

index_substr-absent :
    (b : Bytes) (c : ℕ) (s : Bytes) (j : ℕ)
    → index_substr b (c ∷ s) ≡ none
    → ¬ StartsWith (drop j b) (c ∷ s)
unfolding index_substr
index_substr-absent b c s j e = elim (Bool-cases (leb (length (c ∷ s)) (length b))) [
  | inl fits ↦ index_substr_from-none 0 b (c ∷ s) j (ground arith) (omega arith)
  | inr long ↦ not-StartsWith-long b (c ∷ s) j (ground arith)
]

IsFirst-unique : (b s : Bytes) {j k : ℕ} → IsFirst b s j → IsFirst b s k → j ≡ k
IsFirst-unique b s {j} {k} f g = elim (Bool-cases (ltb j k)) [
  | inl e ↦ absurd (g.first j (ground arith) f.found)
  | inr e ↦ elim (Bool-cases (ltb k j)) [
    | inl e' ↦ absurd (f.first k (ground arith) g.found)
    | inr e' ↦ ground arith
  ]
]

-- `index_substr` gives the place `k` exactly when the nonempty text `s` stands at `k` in `b` and at
-- no place before it.
pub index_substr-IsFirst :
    (b s : Bytes) (k : ℕ) → s ≢ [] → (index_substr b s ≡ some k) ↔ IsFirst b s k
index_substr-IsFirst b [] k h = absurd (h refl)
index_substr-IsFirst b (c ∷ s) k h = (index_substr_sound b c s k, complete)
  where
    complete : IsFirst b (c ∷ s) k → index_substr b (c ∷ s) ≡ some k
    complete f = elim (Option-cases (index_substr b (c ∷ s))) [
      | inl e ↦ absurd (index_substr-absent b c s k e f.found)
      | inr (m, e) ↦ e ∙ ap some (IsFirst-unique b (c ∷ s) (index_substr_sound b c s m e) f)
    ]

abbrev pub Lacks : ℕ → Bytes → Type 0
Lacks c = All (λ b. b ≢ c)

index_byte_str_from-append :
    (i : ℕ) (p r : Bytes) (c : ℕ)
    → Lacks c p
    → index_byte_str_from i (p ++ c ∷ r) c ≡ some (i + length p)
unfolding index_byte_str_from
index_byte_str_from-append i [] r c h = ground arith
index_byte_str_from-append i (x ∷ p) r c (hx, h) =
    ground (arith, index_byte_str_from-append (i + 1) p r c h)

pub index_byte_str-append :
    (p r : Bytes) (c : ℕ) → Lacks c p → index_byte_str (p ++ c ∷ r) c ≡ some (length p)
unfolding index_byte_str
index_byte_str-append p r c h = ground (arith, index_byte_str_from-append 0 p r c h)
