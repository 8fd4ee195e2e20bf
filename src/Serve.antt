-- ===== src/Serve.antt =====
-- cmd/weft-driver-vz/main_darwin.go: `serve`, which builds the bundle of the plugin from its
-- environment. An environment variable that is not set is the empty text. What `os.Executable`
-- returns, and the plugin's server, are outside.
use weft_driver_vz.Common.{true, some, [], ◌∷◌, ◌++◌, Bytes, codes}
use weft_driver_vz.Golang.FilePath.{base}
use weft_driver_vz.HostInfo.{Built, command, not_built, Options}
use weft_driver_vz.Framework.{Made, made, refused}
use weft_driver_vz.Bundle.{Bundle, new}

pub record Env : Type 0 where
  pub hostname : Bytes
  pub az : Bytes
  pub state_dir : Bytes

-- The command of a VM: this binary, as `vz-vm-run`.
unfoldable pub spawn_vm_command : Made Bytes → Bytes → Built
spawn_vm_command (refused e) vm_dir = not_built e
spawn_vm_command (made exe) vm_dir =
    command (
      exe
      ∷ codes "vz-vm-run"
      ∷ (codes "--vmdir=" ++ vm_dir)
      ∷ (codes "--name=" ++ base vm_dir)
      ∷ [])

unfoldable pub serve_options : Made Bytes → Env → Bytes → Options
serve_options exe env host_uuid = record {
  host_uuid = host_uuid;
  hostname = env.hostname;
  az = env.az;
  spawn_vm_command = some (spawn_vm_command exe);
  on_exit = true;
  on_event = true;
}

-- The bundle that is handed to the server.
unfoldable pub serve : Made Bytes → Env → Bytes → Bundle
unfolding serve_options new
serve exe env host_uuid =
    new (record { options = serve_options exe env host_uuid; state_dir = env.state_dir })
