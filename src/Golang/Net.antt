-- ===== src/Golang/Net.antt =====
-- `net.ParseMAC`.
use weft_driver_vz.Common.{
  ℕ, ◌+◌, ◌*◌, ◌||◌, Option, none, some, [], ◌∷◌, ◌==◌, if◌then◌else◌, length, Bytes,
}
use weft_driver_vz.Golang.Json.Texts.{hex_digit}

abbrev join_digits : Option ℕ → Option ℕ → Option ℕ
join_digits (some a) (some b) = some (a * 16 + b)
join_digits _ _ = none

abbrev put : Option ℕ → Option Bytes → Option Bytes
put (some b) (some bs) = some (b ∷ bs)
put _ _ = none

-- `xtoi2` of two characters.
pub octet : ℕ → ℕ → Option ℕ
unfolding hex_digit
octet a b = join_digits (hex_digit a) (hex_digit b)

-- Octets with `sep` between them.
pub octets : ℕ → Bytes → Option Bytes
octets sep (a ∷ b ∷ []) = put (octet a b) (some [])
octets sep (a ∷ b ∷ c ∷ s) =
    let more = put (octet a b) (octets sep s) in if c == sep then more else none
octets sep _ = none

-- Pairs of octets with dots between them.
pub dotted : Bytes → Option Bytes
dotted (a ∷ b ∷ c ∷ d ∷ []) = put (octet a b) (put (octet c d) (some []))
dotted (a ∷ b ∷ c ∷ d ∷ e ∷ s) =
    let more = put (octet a b) (put (octet c d) (dotted s)) in if e == b'.' then more else none
dotted _ = none

-- An address has 6, 8 or 20 octets.
pub sized : Option Bytes → Option Bytes
sized none = none
sized (some hw) = let n = length hw in if n == 6 || (n == 8 || n == 20) then some hw else none

unfoldable pub parse_mac : Bytes → Option Bytes
unfolding octets dotted octet sized
parse_mac (a ∷ b ∷ c ∷ d ∷ e ∷ s) =
    let all = a ∷ b ∷ c ∷ d ∷ e ∷ s in
    if c == b':' || c == b'-'
    then sized (octets c all)
    else if e == b'.'
    then sized (dotted all)
    else none
parse_mac _ = none
