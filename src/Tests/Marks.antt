-- ===== src/Tests/Marks.antt =====
-- builtin/vmrun.go: the theorems about the marks at concrete inputs.
use weft_driver_vz.Common.{
  ◌≡◌, refl, subst, ◌↔◌, false, none, some, List, [], ◌∷◌, ◌++◌, arith, take, All, Bytes, codes,
  bytes_eq,
}
use weft_driver_vz.Marks.Search.{index_substr, IsFirst, index_substr-IsFirst}
use weft_driver_vz.Marks.Fields.{split_fields, words, IsWord, split_fields-words}
use weft_driver_vz.Marks.Parse.{Mark, parse_mark, prefix}
use weft_driver_vz.Marks.Parse.RoundTrip.{
  print_mark, last_value, lookup_meta, IsPair, parse_mark-print_mark,
}
use weft_driver_vz.Marks.Watch.{Poll, Outcome, watch, drain}
use weft_driver_vz.Marks.Watch.Lines.{lines, rest}
use weft_driver_vz.Marks.Watch.Laws.{marks_of, watch-Reads, watch_complete, drain-lines, PrefixOf}

parse_mark_test :
    parse_mark (codes "[  1.0] WEFT_MARK boot ns=12 =x y a=b=c ns=13\r")
    ≡ some (record {
      stage = codes "boot";
      meta = some ((codes "ns", codes "13") ∷ (codes "a", codes "b=c") ∷ []);
    })
unfolding parse_mark index_substr split_fields weft_driver_vz.Golang.Utf8.runes
    weft_driver_vz.Marks.Search.index_byte_str bytes_eq
parse_mark_test = refl

parse_mark-none_test : parse_mark (codes "WEFT_MARK \t ") ≡ none
unfolding parse_mark index_substr split_fields weft_driver_vz.Golang.Utf8.runes
parse_mark-none_test = refl

split_fields-words_example : split_fields (codes " a\tbc  d") ≡ words (codes " a\tbc  d")
split_fields-words_example = split_fields-words (codes " a\tbc  d")

index_substr-IsFirst_example :
    (index_substr (codes "xabab") (codes "ab") ≡ some 1) ↔ IsFirst (codes "xabab") (codes "ab") 1
index_substr-IsFirst_example = index_substr-IsFirst (codes "xabab") (codes "ab") 1 (λ e. cc e)

abbrev pairs : List (Bytes × Bytes)
pairs = (codes "t", codes "1") ∷ (codes "t", codes "2") ∷ []

abbrev line : Bytes
line = codes "> " ++ (prefix ++ print_mark (codes "up") pairs)

index_substr_test : index_substr line prefix ≡ some 2
unfolding index_substr
index_substr_test = refl

line-IsFirst : IsFirst line prefix 2
line-IsFirst = (index_substr-IsFirst line prefix 2 (λ e. cc e)).0 index_substr_test

up-IsWord : IsWord (codes "up")
up-IsWord = record { nonempty = λ e. cc e; ink = (refl, (refl, tt)) }

t-IsWord : IsWord (codes "t")
t-IsWord = record { nonempty = λ e. cc e; ink = (refl, tt) }

pairs-IsPair : All IsPair pairs
pairs-IsPair = (
  record { key = t-IsWord; plain = ((λ e. cc e), tt); value = (refl, tt) },
  (record { key = t-IsWord; plain = ((λ e. cc e), tt); value = (refl, tt) }, tt),
)

parse_mark-print_mark_example :
    (m : Mark) × (parse_mark (line ++ b'\r' ∷ []) ≡ some m)
    × (m.stage ≡ codes "up")
    × ((pairs ≡ []) ↔ (m.meta ≡ none))
    × ((k : Bytes) → lookup_meta k m.meta ≡ last_value k pairs)
parse_mark-print_mark_example =
    parse_mark-print_mark (codes "> ") (codes "up") pairs up-IsWord pairs-IsPair line-IsFirst

-- A log that is read in two parts, the first of which ends inside a mark.
abbrev log : Bytes
log = codes "boot\nWEFT_MARK up n=1\nWEFT_MARK net\nlogin"

abbrev early : Bytes
early = codes "boot\nWEFT_MA"

abbrev polls : List Poll
polls =
    record { content = none; now = 10 }
    ∷ record { content = some early; now = 20 }
    ∷ record { content = some log; now = 30 }
    ∷ []

part-PrefixOf : (a : Bytes) → PrefixOf a log → (c : Bytes) → some a ≡ some c → PrefixOf c log
part-PrefixOf a h c e = let q : a ≡ c = cc in subst (λ b. PrefixOf b log) q h

log-Grows : All (λ (p : Poll). (c : Bytes) → p.content ≡ some c → PrefixOf c log) polls
log-Grows = (
  (λ c e. absurd (cc e)),
  (
    part-PrefixOf early (codes "RK up n=1\nWEFT_MARK net\nlogin", refl),
    (part-PrefixOf log ([], refl), tt),
  ),
)

watch-Reads_example :
    (o : Outcome) × (watch 0 polls ≡ some o) × (o.events ≡ marks_of (lines (take o.tail.off log)))
watch-Reads_example = watch-Reads log 0 polls log-Grows

watch_complete_example :
    (o : Outcome) × (watch 0 (record { content = some log; now = 20 } ∷ []) ≡ some o)
    × (o.events ≡ marks_of (lines log))
watch_complete_example =
    watch_complete log 0 (record { content = some log; now = 20 } ∷ []) (refl, tt) (omega arith)

watch_test :
    watch 0 polls
    ≡ some (record {
      events =
          record { kind = codes "guest.up"; meta = some ((codes "n", codes "1") ∷ []) }
          ∷ record { kind = codes "guest.net"; meta = none }
          ∷ [];
      tail = record { off = 41; idle_start = 30; pending = codes "login" };
      quit = false;
    })
unfolding watch weft_driver_vz.Marks.Search.index_nl parse_mark index_substr split_fields
    weft_driver_vz.Golang.Utf8.runes weft_driver_vz.Marks.Search.index_byte_str
watch_test = refl

drain-lines_example :
    drain 6 (codes "a\nb\nc") []
    ≡ some ([] ++ marks_of (lines (codes "a\nb\nc")), rest (codes "a\nb\nc"))
drain-lines_example = drain-lines 6 (codes "a\nb\nc") [] (omega arith)
