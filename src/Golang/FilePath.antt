-- ===== src/Golang/FilePath.antt =====
-- `path/filepath` on Unix: `Clean`, `Join`, `Dir`, `Base`, `Abs`, and the place in the file tree
-- that a path names.
--
-- A place is the list of the names on the way to it, the last name first; the root is the empty
-- list. `..` is resolved by the text of the path, as `Clean` does it.
pub mod Laws
pub mod Walk
use weft_driver_vz.Common.{
  ℕ, zero, suc, ◌+◌, ◌-◌, ◌*◌, ◌/◌, ◌%◌, ◌^◌, ◌≤◌, ◌<◌, String, ◌≡◌, refl, sym, ap, ◌∙◌, subst,
  fun_ext, ◌≢◌, ◌↔◌, ◌⊎◌, inl, inr, Bool, true, false, not, ◌&&◌, ◌||◌, Option, none, some, List,
  [], ◌∷◌, ◌++◌, map, foldl, reverse, append-nil, append_assoc, reverse-append, reverse-reverse,
  arith, ltb, leb, ◌==◌, if◌then◌else◌, ==_iff, Bool-cases, Option-cases, length, take, drop,
  length-append, take-append-drop, drop-append, take-append, length-take, length-drop, take-nil,
  take-all, take_past, drop_past, All, All-append, Bytes, codes, bytes_eq, bytes_eq_iff,
}

abbrev pub slash : ℕ
slash = b'/'

abbrev pub dot : Bytes
dot = b'.' ∷ []

abbrev pub dotdot : Bytes
dotdot = b'.' ∷ b'.' ∷ []

abbrev pub Place : Type 0
Place = List Bytes

-- The parts between the slashes; `cur` is the part that is being read.
pub split_from : Bytes → Bytes → List Bytes
split_from cur [] = cur ∷ []
split_from cur (c ∷ s) =
    let cut = cur ∷ split_from [] s in
    let go = split_from (cur ++ c ∷ []) s in if c == slash then cut else go

abbrev pub parts : Bytes → List Bytes
parts = split_from []

-- `..` at the end of a path; at the root it stays there.
pub up : Bool → Place → Place
up true [] = []
up true (_ ∷ st) = st
up false [] = dotdot ∷ []
up false (c ∷ st) = if bytes_eq c dotdot then dotdot ∷ c ∷ st else st

-- One more part of a path; the flag says whether the path is rooted.
pub push : Bool → Place → Bytes → Place
push rooted st c =
    if bytes_eq c [] || bytes_eq c dot
    then st
    else if bytes_eq c dotdot
    then up rooted st
    else c ∷ st

pub is_abs : Bytes → Bool
is_abs [] = false
is_abs (c ∷ _) = c == slash

pub join_parts : List Bytes → Bytes
join_parts [] = []
join_parts (c ∷ []) = c
join_parts (c ∷ d ∷ cs) = c ++ slash ∷ join_parts (d ∷ cs)

pub render : Bool → List Bytes → Bytes
render true cs = slash ∷ join_parts cs
render false [] = dot
render false (c ∷ cs) = join_parts (c ∷ cs)

unfoldable pub clean : Bytes → Bytes
unfolding split_from push up is_abs join_parts render
clean s = render (is_abs s) (reverse (foldl (push (is_abs s)) [] (parts s)))

-- `filepath.Join(a, b)`
unfoldable pub join : Bytes → Bytes → Bytes
unfolding clean
join [] [] = []
join [] (c ∷ b) = clean (c ∷ b)
join (c ∷ a) b = clean (c ∷ a ++ slash ∷ b)

-- Up to the last slash, that included.
pub up_to_slash : Bytes → Bytes → Bytes
up_to_slash cur [] = []
up_to_slash cur (c ∷ s) =
    let cut = cur ++ slash ∷ up_to_slash [] s in
    let go = up_to_slash (cur ++ c ∷ []) s in if c == slash then cut else go

-- `filepath.Dir`
unfoldable pub dir : Bytes → Bytes
unfolding clean up_to_slash
dir s = clean (up_to_slash [] s)

-- The place that path `s` names in a process whose working directory is `cwd`.
unfoldable pub resolve : Place → Bytes → Place
unfolding split_from push up is_abs
resolve cwd s = foldl (push true) (if is_abs s then [] else cwd) (parts s)

-- `filepath.Abs`, with `cwd` the working directory's path.
unfoldable pub abs : Bytes → Bytes → Bytes
unfolding clean is_abs join
abs cwd s = if is_abs s then clean s else join cwd s

pub last_part : Bytes → Bytes → Bytes
last_part cur [] = cur
last_part cur (c ∷ s) = last_part (if c == slash then [] else cur ++ c ∷ []) s

pub trim_slashes : Bytes → Bytes
trim_slashes [] = []
trim_slashes (c ∷ s) = if c == slash then trim_slashes s else c ∷ s

-- `filepath.Base`
unfoldable pub base : Bytes → Bytes
unfolding last_part trim_slashes
base [] = dot
base (c ∷ s) =
    let name = last_part [] (reverse (trim_slashes (reverse (c ∷ s)))) in
    if bytes_eq name [] then slash ∷ [] else name

-- A part of a path that is a file's name.
pub record IsName (c : Bytes) : Type 0 where
  pub plain : All (λ b. b ≢ slash) c
  pub nonempty : bytes_eq c [] ≡ false
  pub not_dot : bytes_eq c dot ≡ false
  pub not_dotdot : bytes_eq c dotdot ≡ false
