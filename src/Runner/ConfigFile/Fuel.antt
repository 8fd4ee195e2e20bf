-- ===== src/Runner/ConfigFile/Fuel.antt =====
-- builtin/vmrun.go: what is read of config.json does not depend on the fuel of its reading.
use weft_driver_vz.Common.{ℕ, ◌+◌, ◌*◌, ◌≤◌, ◌≡◌, ap, length, Bytes}
use weft_driver_vz.Golang.Json.Parse.{parse_value, end_at}
use weft_driver_vz.Golang.Json.Parse.Fuel.{parse_fuel}
use weft_driver_vz.Runner.ConfigFile.{store_config, unmarshal_config}

-- config.json is read to its end: more fuel than twice its length, and 1, changes nothing.
pub unmarshal_config_fuel :
    (n : ℕ) (b : Bytes)
    → 2 * length b + 1 ≤ n
    → store_config (end_at (parse_value n 10000 b)) ≡ unmarshal_config b
unfolding unmarshal_config
unmarshal_config_fuel n b l = ap store_config (parse_fuel n b l)
