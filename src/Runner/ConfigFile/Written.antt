-- ===== src/Runner/ConfigFile/Written.antt =====
-- builtin/vmrun.go: what is read of a config.json that the command `provision` wrote.
use weft_driver_vz.Common.{
  ℕ, suc, ◌^◌, ◌<◌, ◌≡◌, refl, ap, ◌∙◌, false, some, List, [], ◌∷◌, All, Bytes, codes,
}
use weft_driver_vz.Golang.Strconv.{itoa, scan-itoa}
use weft_driver_vz.Golang.FilePath.{base}
use weft_driver_vz.Golang.Json.{Value, number, text, array, object, no_members, member}
use weft_driver_vz.Golang.Json.Texts.Quote.{mended, IsAscii, mended_ascii}
use weft_driver_vz.Golang.Json.Parse.{parse}
use weft_driver_vz.Golang.Json.Parse.Printed.{reread, reread_values, IsPrinted, ArePrinted}
use weft_driver_vz.Golang.Json.Parse.Indented.{parse-marshal_indent}
use weft_driver_vz.Golang.Json.Decode.{names_field, store_uint, store_text}
use weft_driver_vz.Provision.{Flags, disk_entries, config}
use weft_driver_vz.Runner.ConfigFile.{
  VmConfig, disk_member, disk_members, store_disk, store_values, store_slice, config_member,
  config_members, store_config, unmarshal_config, flag_member, flag_members, flag_of_value,
}

-- The configuration that the command's flags ask for, with the names of the data disks.
abbrev pub asked_for : Flags → List Bytes → VmConfig
asked_for o names = record {
  data_disks = names;
  cpu = o.cpu;
  mem_gib = o.mem_gib;
  cmdline = [];
  shares = [];
}

store_uint-itoa : (n old : ℕ) → n < 2 ^ 64 → (store_uint old (number (itoa n))).now ≡ n
unfolding store_uint
store_uint-itoa n old l = rw (scan-itoa n l) refl

disk_entries-ArePrinted :
    (depth : ℕ) (names : List Bytes) → ArePrinted (suc depth) (disk_entries names)
unfolding disk_entries IsPrinted
disk_entries-ArePrinted depth [] = tt
disk_entries-ArePrinted depth (name ∷ names) = ((tt, tt), disk_entries-ArePrinted depth names)

store_values-disk_entries :
    (names : List Bytes)
    → All (All IsAscii) names
    → store_values [] store_disk [] (reread_values (disk_entries names)) ≡ names
unfolding store_values store_disk disk_members disk_member names_field store_text disk_entries
    reread mended
store_values-disk_entries [] a = refl
store_values-disk_entries (name ∷ names) (a, more) =
    rw (mended_ascii name a, store_values-disk_entries names more) refl

-- What `config` writes, as a value.
abbrev written : Flags → List Bytes → Value
written o names = object (
    member (codes "cpu") (number (itoa o.cpu)) (
      member (codes "data_disks") (array (disk_entries names)) (
        member (codes "image") (text (base o.image))
          (member (codes "mem_gib") (number (itoa o.mem_gib)) no_members))))

written-IsPrinted : (o : Flags) (names : List Bytes) → IsPrinted 10000 (written o names)
unfolding IsPrinted
written-IsPrinted o names =
    ((o.cpu, refl), (disk_entries-ArePrinted 9997 names, (tt, ((o.mem_gib, refl), tt))))

parse-config :
    (o : Flags) (names : List Bytes) → parse (config o names) ≡ some (reread (written o names))
unfolding config
parse-config o names = parse-marshal_indent (written o names) (written-IsPrinted o names)

store_config-written :
    (o : Flags) (names : List Bytes)
    → o.cpu < 2 ^ 64
    → o.mem_gib < 2 ^ 64
    → All (All IsAscii) names
    → store_config (some (reread (written o names))) ≡ asked_for o names
unfolding store_config config_members config_member store_slice reread mended names_field
store_config-written o names c m a =
    rw (store_uint-itoa o.cpu 0 c, store_uint-itoa o.mem_gib 0 m, store_values-disk_entries names a)
      refl

-- The runner reads in config.json what the command wrote there, and no flag `microvm`.
pub unmarshal_config-config :
    (o : Flags) (names : List Bytes)
    → o.cpu < 2 ^ 64
    → o.mem_gib < 2 ^ 64
    → All (All IsAscii) names
    → unmarshal_config (config o names) ≡ asked_for o names
unfolding unmarshal_config
unmarshal_config-config o names c m a =
    ap store_config (parse-config o names) ∙ store_config-written o names c m a

flag_of_value-written :
    (o : Flags) (names : List Bytes) → flag_of_value (some (reread (written o names))) ≡ false
unfolding flag_of_value flag_members flag_member reread mended names_field
flag_of_value-written o names = refl

pub flag_of_value-config :
    (o : Flags) (names : List Bytes) → flag_of_value (parse (config o names)) ≡ false
flag_of_value-config o names =
    ap flag_of_value (parse-config o names) ∙ flag_of_value-written o names
