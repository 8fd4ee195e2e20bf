-- ===== src/Marks/Parse.antt =====
-- builtin/vmrun.go: `parseNCLMark`, the reader of a line `WEFT_MARK <stage> [key=val ...]`.
pub mod RoundTrip
pub mod Keys
use weft_driver_vz.Common.{
  ℕ, zero, suc, ◌+◌, ◌-◌, ◌*◌, ◌/◌, ◌%◌, ◌^◌, ◌≤◌, ◌<◌, String, ◌≡◌, refl, sym, ap, ◌∙◌, subst,
  fun_ext, ◌≢◌, ◌↔◌, ◌⊎◌, inl, inr, Bool, true, false, not, ◌&&◌, ◌||◌, Option, none, some, List,
  [], ◌∷◌, ◌++◌, map, foldl, reverse, append-nil, append_assoc, reverse-append, reverse-reverse,
  arith, ltb, leb, ◌==◌, if◌then◌else◌, ==_iff, Bool-cases, Option-cases, length, take, drop,
  length-append, take-append-drop, drop-append, take-append, length-take, length-drop, take-nil,
  take-all, take_past, drop_past, All, All-append, Bytes, codes, bytes_eq, bytes_eq_iff,
}
use weft_driver_vz.Marks.Search.{index_substr, index_byte_str, index_byte_str-append, Lacks}
use weft_driver_vz.Marks.Fields.{split_fields, split_fields-words, words, words_from, is_blank}

-- A `map[string]string`: each key once.
abbrev pub Meta : Type 0
Meta = List (Bytes × Bytes)

-- The event that a mark line stands for. `meta` is `none` for Go's nil map.
pub record Mark : Type 0 where
  pub stage : Bytes
  pub meta : Option Meta

-- `m[k] = v`
pub assign : Bytes → Bytes → Meta → Meta
assign k v [] = (k, v) ∷ []
assign k v ((j, w) ∷ m) = if bytes_eq j k then (k, v) ∷ m else (j, w) ∷ assign k v m

unfoldable pub last_or : ℕ → Bytes → ℕ
last_or d [] = d
last_or d (c ∷ s) = last_or c s

-- Without the last byte if that is a carriage return.
pub strip_cr : Bytes → Bytes
unfolding last_or
strip_cr line =
    if ltb 0 (length line) && last_or 0 line == b'\r' then take (length line - 1) line else line

abbrev pub prefix : Bytes
prefix = codes "WEFT_MARK "

-- `meta[p[:eq]] = p[eq+1:]`, unless `eq <= 0`.
pub put_at : Option ℕ → Bytes → Meta → Meta
put_at none p m = m
put_at (some eq) p m = if eq == 0 then m else assign (take eq p) (drop (eq + 1) p) m

-- One round of the loop over `parts[1:]`.
pub add_pair : Bytes → Meta → Meta
add_pair p m = put_at (index_byte_str p b'=') p m

pub add_pairs : List Bytes → Meta → Meta
add_pairs [] m = m
add_pairs (p ∷ ps) m = add_pairs ps (add_pair p m)

pub read_parts : List Bytes → Option Mark
read_parts [] = none
read_parts (stage ∷ []) = some (record { stage = stage; meta = none })
read_parts (stage ∷ p ∷ ps) = some (record { stage = stage; meta = some (add_pairs (p ∷ ps) []) })

-- The part of the line behind the prefix, which was found at `idx`.
pub read_at : Option ℕ → Bytes → Option Mark
read_at none line = none
read_at (some idx) line = read_parts (split_fields (drop (idx + length prefix) line))

pub read_mark : Bytes → Option Mark
read_mark line = read_at (index_substr line prefix) line

-- `none` is the result `ok == false`.
unfoldable pub parse_mark : Bytes → Option Mark
unfolding read_mark read_at strip_cr read_parts add_pairs add_pair put_at assign
parse_mark line = read_mark (strip_cr line)
