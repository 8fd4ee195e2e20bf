-- ===== src/Golang/Json/Marshal/Printed.antt =====
-- `json.Marshal`: the members of a map of texts are such as can be read back.
use weft_driver_vz.Common.{ℕ, inl, inr, List, [], ◌∷◌, Bool-cases, Bytes}
use weft_driver_vz.Golang.Json.{text, Members, no_members, member}
use weft_driver_vz.Golang.Json.Marshal.{before, place, sorted}
use weft_driver_vz.Golang.Json.Parse.Printed.{IsPrinted, MembersPrinted}

place-MembersPrinted :
    (depth : ℕ) (k s : Bytes) (ms : Members)
    → MembersPrinted depth ms
    → MembersPrinted depth (place k (text s) ms)
unfolding place IsPrinted
place-MembersPrinted depth k s no_members p = (tt, tt)
place-MembersPrinted depth k s (member j u ms) (p, ps) = elim (Bool-cases (before k j)) [
  | inl e ↦ rw e (tt, (p, ps))
  | inr e ↦ rw e (p, place-MembersPrinted depth k s ms ps)
]

pub sorted-MembersPrinted : (depth : ℕ) (m : List (Bytes × Bytes)) → MembersPrinted depth (sorted m)
unfolding sorted IsPrinted
sorted-MembersPrinted depth [] = tt
sorted-MembersPrinted depth ((k, s) ∷ m) =
    place-MembersPrinted depth k s (sorted m) (sorted-MembersPrinted depth m)
