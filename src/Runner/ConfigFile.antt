-- ===== src/Runner/ConfigFile.antt =====
-- builtin/vmrun.go: what is read of `config.json`, by `buildVZConfigFromDir` and `readMicroVMFlag`.
--
-- A key that stands twice is stored twice, an array's elements over those that are there. (Go would
-- show elements that a shorter array in between has cut off again; the model does not.)
pub mod Fuel
pub mod Written
use weft_driver_vz.Common.{
  ℕ, zero, suc, ◌+◌, ◌-◌, ◌*◌, ◌/◌, ◌%◌, ◌^◌, ◌≤◌, ◌<◌, String, ◌≡◌, refl, sym, ap, ◌∙◌, subst,
  fun_ext, ◌≢◌, ◌↔◌, ◌⊎◌, inl, inr, Bool, true, false, not, ◌&&◌, ◌||◌, Option, none, some, List,
  [], ◌∷◌, ◌++◌, map, foldl, reverse, append-nil, append_assoc, reverse-append, reverse-reverse,
  arith, ltb, leb, ◌==◌, if◌then◌else◌, ==_iff, Bool-cases, Option-cases, length, take, drop,
  length-append, take-append-drop, drop-append, take-append, length-take, length-drop, take-nil,
  take-all, take_past, drop_past, All, All-append, Bytes, codes, bytes_eq, bytes_eq_iff,
}
use weft_driver_vz.Golang.FilePath.{join}
use weft_driver_vz.Golang.Json.{
  Value, null, array, object, Values, no_values, value, Members, no_members, member,
}
use weft_driver_vz.Golang.Json.Parse.{parse}
use weft_driver_vz.Golang.Json.Decode.{
  Stored, set_to, store_uint, store_text, store_bool, names_field,
}
use weft_driver_vz.Os.Tree.{Tree}
use weft_driver_vz.Os.Calls.{Host, Answer, ok, err, read_file}

pub record ShareSpec : Type 0 where
  pub tag : Bytes
  pub path : Bytes
  pub read_only : Bool

-- `vmCfgJSON`; a data disk is its name.
pub record VmConfig : Type 0 where
  pub data_disks : List Bytes
  pub cpu : ℕ
  pub mem_gib : ℕ
  pub cmdline : Bytes
  pub shares : List ShareSpec

abbrev pub no_config : VmConfig
no_config = record { data_disks = []; cpu = 0; mem_gib = 0; cmdline = []; shares = [] }

abbrev no_share : ShareSpec
no_share = record { tag = []; path = []; read_only = false }

pub disk_member : Bytes → Value → Bytes → Bytes
disk_member key v old = if names_field (codes "name") key then (store_text old v).now else old

pub disk_members : Members → Bytes → Bytes
disk_members no_members old = old
disk_members (member k v ms) old = disk_members ms (disk_member k v old)

pub store_disk : Bytes → Value → Bytes
store_disk old (object ms) = disk_members ms old
store_disk old _ = old

pub share_member : Bytes → Value → ShareSpec → ShareSpec
share_member key v s =
    if names_field (codes "tag") key
    then record s { tag = (store_text s.tag v).now }
    else if names_field (codes "path") key
    then record s { path = (store_text s.path v).now }
    else if names_field (codes "read_only") key
    then record s { read_only = (store_bool s.read_only v).now }
    else s

pub share_members : Members → ShareSpec → ShareSpec
share_members no_members s = s
share_members (member k v ms) s = share_members ms (share_member k v s)

pub store_share : ShareSpec → Value → ShareSpec
store_share s (object ms) = share_members ms s
store_share s _ = s

-- The elements of an array, each over what stands at its index.
module _ {A : Type 0} (zero_value : A) (store : A → Value → A) where
  pub store_values : List A → Values → List A
  store_values old no_values = []
  store_values [] (value v vs) = store zero_value v ∷ store_values [] vs
  store_values (a ∷ old) (value v vs) = store a v ∷ store_values old vs

  pub store_slice : List A → Value → List A
  store_slice old null = []
  store_slice old (array vs) = store_values old vs
  store_slice old _ = old

pub config_member : Bytes → Value → VmConfig → VmConfig
config_member key v c =
    if names_field (codes "data_disks") key
    then record c { data_disks = store_slice [] store_disk c.data_disks v }
    else if names_field (codes "cpu") key
    then record c { cpu = (store_uint c.cpu v).now }
    else if names_field (codes "mem_gib") key
    then record c { mem_gib = (store_uint c.mem_gib v).now }
    else if names_field (codes "cmdline") key
    then record c { cmdline = (store_text c.cmdline v).now }
    else if names_field (codes "shares") key
    then record c { shares = store_slice no_share store_share c.shares v }
    else c

pub config_members : Members → VmConfig → VmConfig
config_members no_members c = c
config_members (member k v ms) c = config_members ms (config_member k v c)

-- Errors are dropped: what is no JSON, or no object, changes nothing.
pub store_config : Option Value → VmConfig
store_config (some (object ms)) = config_members ms no_config
store_config _ = no_config

unfoldable pub unmarshal_config : Bytes → VmConfig
unfolding store_config config_members config_member store_slice store_values store_disk disk_members
    disk_member store_share share_members share_member parse names_field store_uint store_text
    store_bool
unmarshal_config b = store_config (parse b)

pub config_of : Answer Bytes → VmConfig
config_of (err e) = no_config
config_of (ok b) = unmarshal_config b

unfoldable pub read_config : Host → Bytes → Tree → VmConfig
unfolding config_of
read_config h dir t = config_of (read_file h (join dir (codes "config.json")) t)

-- The flag `microvm`; any error makes it false.
pub flag_member : Bytes → Value → Stored Bool → Stored Bool
flag_member key v f =
    if names_field (codes "microvm") key
    then (let s = store_bool f.now v in record { now = s.now; fits = f.fits && s.fits })
    else f

pub flag_members : Members → Stored Bool → Stored Bool
flag_members no_members f = f
flag_members (member k v ms) f = flag_members ms (flag_member k v f)

pub flag_of_value : Option Value → Bool
flag_of_value (some (object ms)) = let f = flag_members ms (set_to false) in f.fits && f.now
flag_of_value _ = false

pub flag_of : Answer Bytes → Bool
unfolding flag_of_value flag_members flag_member
flag_of (err e) = false
flag_of (ok b) = flag_of_value (parse b)

unfoldable pub read_microvm_flag : Host → Bytes → Tree → Bool
unfolding flag_of parse names_field store_bool
read_microvm_flag h vm_dir t = flag_of (read_file h (join vm_dir (codes "config.json")) t)
