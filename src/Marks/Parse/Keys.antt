-- ===== src/Marks/Parse/Keys.antt =====
-- builtin/vmrun.go: the metadata of a mark is a map, with each key once.
use weft_driver_vz.Common.{
  ℕ, ◌+◌, ◌≡◌, sym, ap, ◌≢◌, inl, inr, Option, none, some, List, [], ◌∷◌, ◌==◌, Bool-cases, take,
  drop, Bytes, bytes_eq, bytes_eq_iff,
}
use mathlib.Core.List.{
  Nodup, Nodup-cons, Nodup-nil, not-mem-nil, Mem, mem_of_ne_of_mem, mem-cons_self, mem-cons_of_mem,
}
use weft_driver_vz.Golang.Json.Marshal.Order.{keys}
use weft_driver_vz.Marks.Parse.{
  Meta, Mark, assign, put_at, add_pair, add_pairs, read_parts, read_at, strip_cr, parse_mark,
}

abbrev Fresh : Bytes → List Bytes → Type 0
Fresh j l = ¬ (Mem j l)

cons-Fresh : (j a : Bytes) (l : List Bytes) → j ≢ a → Fresh j l → Fresh j (a ∷ l)
cons-Fresh j a l ne f m = f (mem_of_ne_of_mem ne m)

assign-Fresh : (k v j : Bytes) (m : Meta) → j ≢ k → Fresh j (keys m) → Fresh j (keys (assign k v m))
unfolding assign
assign-Fresh k v j [] ne f = cons-Fresh j k [] ne f
assign-Fresh k v j ((i, w) ∷ m) ne f = elim (Bool-cases (bytes_eq i k)) [
  | inl e ↦ rw e (cons-Fresh j k (keys m) ne (λ x. f (mem-cons_of_mem i x)))
  | inr e ↦ rw e (
      cons-Fresh j i (keys (assign k v m)) (λ q. f (rw q mem-cons_self))
        (assign-Fresh k v j m ne (λ x. f (mem-cons_of_mem i x))))
]

assign-Nodup : (k v : Bytes) (m : Meta) → Nodup (keys m) → Nodup (keys (assign k v m))
unfolding assign
assign-Nodup k v [] n = (Nodup-cons).1 (not-mem-nil, Nodup-nil)
assign-Nodup k v ((i, w) ∷ m) n = elim (Bool-cases (bytes_eq i k)) [
  | inl e ↦ let q : i ≡ k = (bytes_eq_iff i k).0 e in rw e (rw q at n)
  | inr e ↦
      let ne : i ≢ k = λ q. let z = (bytes_eq_iff i k).1 q in cc in
      rw e (
        (Nodup-cons).1
          (assign-Fresh k v i m ne ((Nodup-cons).0 n).0, assign-Nodup k v m ((Nodup-cons).0 n).1))
]

put_at-Nodup : (o : Option ℕ) (p : Bytes) (m : Meta) → Nodup (keys m) → Nodup (keys (put_at o p m))
unfolding put_at
put_at-Nodup none p m n = n
put_at-Nodup (some eq) p m n = elim (Bool-cases (eq == 0)) [
  | inl e ↦ rw e n
  | inr e ↦ rw e (assign-Nodup (take eq p) (drop (eq + 1) p) m n)
]

add_pairs-Nodup : (ps : List Bytes) (m : Meta) → Nodup (keys m) → Nodup (keys (add_pairs ps m))
unfolding add_pairs add_pair
add_pairs-Nodup [] m n = n
add_pairs-Nodup (p ∷ ps) m n = add_pairs-Nodup ps (add_pair p m) (put_at-Nodup _ p m n)

abbrev meta_of : Option Mark → Option Meta
meta_of none = none
meta_of (some k) = k.meta

read_parts-Nodup :
    (ps : List Bytes) (k : Mark) (m : Meta)
    → read_parts ps ≡ some k
    → k.meta ≡ some m
    → Nodup (keys m)
unfolding read_parts
read_parts-Nodup [] k m r q = cc
read_parts-Nodup (s ∷ []) k m r q = let e : k.meta ≡ none = ap meta_of (sym r) in cc
read_parts-Nodup (s ∷ p ∷ ps) k m r q =
    let e : k.meta ≡ some (add_pairs (p ∷ ps) []) = ap meta_of (sym r) in
    let y : add_pairs (p ∷ ps) [] ≡ m = cc in rw y at (add_pairs-Nodup (p ∷ ps) [] Nodup-nil)

read_at-Nodup :
    (o : Option ℕ) (line : Bytes) (k : Mark) (m : Meta)
    → read_at o line ≡ some k
    → k.meta ≡ some m
    → Nodup (keys m)
unfolding read_at
read_at-Nodup none line k m r q = cc
read_at-Nodup (some i) line k m r q = read_parts-Nodup _ k m r q

-- The metadata of a mark has each key once.
pub parse_mark-Nodup :
    (line : Bytes) (k : Mark) (m : Meta)
    → parse_mark line ≡ some k
    → k.meta ≡ some m
    → Nodup (keys m)
unfolding parse_mark
parse_mark-Nodup line k m r q = read_at-Nodup _ (strip_cr line) k m r q
