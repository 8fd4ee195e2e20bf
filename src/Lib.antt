-- ===== src/Lib.antt =====
-- A model of weft-driver-vz, the driver that runs virtual machines for weft on macOS through
-- Apple's Virtualization.framework, and the theorems about it.
--
-- The program has two parts, and a file or folder here models each piece of them. In the agent's
-- process, a bundle of four drivers serves the control plane (builtin/bundle.go, Bundle.antt). The
-- hypervisor driver (builtin/hypervisor.go, Hypervisor.antt) keeps no state of its own: a VM's
-- UUID is the path of its directory, and the methods act on the files there and on processes. The
-- network, volume and image drivers (builtin/network.go, builtin/volume.go, builtin/image.go;
-- Network.antt, Volume.antt, Image.antt) are still stubs; all four report one `HostInfo`
-- (builtin/host_info.go, HostInfo.antt). The second part is the process that `StartVM` forks for
-- each VM (builtin/vmrun.go). It builds the machine's configuration from the VM directory, starts
-- the machine, records its states, and watches the console log for marks of the guest.
--
-- Hypervisor/Create.antt: `CreateVM` (`create_vm`), which makes the directory, the EFI variable
-- store, the machine identifier and the MAC address, each only where none exists.
-- Hypervisor/Process.antt: `StartVM`, the goroutine that it leaves behind, and `StopVM`
-- (`start_vm`, `reap`, `stop_vm`). Hypervisor/Process/Run.antt has the system's steps: calls of
-- the two methods, those that fail included, exits of processes and ends of goroutines, in any
-- order.
-- Hypervisor/Disk.antt: the other methods (`delete_vm`, `attach_disk`, `detach_disk`, ...).
-- Marks/Search.antt and Marks/Fields.antt: `indexNL`, `indexSubstr`, `indexByteStr`,
-- `splitFields`.
-- Marks/Parse.antt: `parseNCLMark` (`parse_mark`).
-- Marks/Watch.antt: `watchConsoleForMarks` (`watch`).
-- Runner/ConfigFile.antt: what is read of config.json, and `readMicroVMFlag`
-- (`read_microvm_flag`).
-- Runner/Build.antt: `buildVZConfigFromDir` (`build`), whose steps are in Runner/Parts.antt, over
-- Runner/Machine.antt, the framework's calls. Runner/Build/Described.antt says which machine a
-- directory describes.
-- Runner/Launch.antt: `RunVMGraphic` up to `machine.Start` (`launch`), and the command (`run_vm`).
-- Runner/Run.antt: `RunVMGraphic` from there on, as the steps of its goroutines (`Move`) and of what
-- is around them (`Outside`). They begin with the events that `launch` has recorded.
-- Runner/Reboot.antt: `goVMReboot` in builtin/consoletab.go (`reboot`), whose looks at the machine's
-- state and calls of the machine are listed in the order in which they are made.
-- Serve.antt: `serve` in cmd/weft-driver-vz/main_darwin.go, which builds the bundle from the
-- environment.
-- Timing.antt: `recordTimingEvent` in cmd/weft-driver-vz/main_darwin.go (`record_timing_event`),
-- which is the `onEvent` of both parts.
-- Provision.antt: the command `provision` in cmd/weft-driver-vz/provision_darwin.go (`provision`,
-- `place_artefact`), which lays out a VM directory and calls `CreateVM` on it. Provision/Config.antt
-- puts it together with the runner, which builds its machine from that directory.
--
-- The state is `World` (Os/World.antt): a file tree, the processes that run, the goroutines that
-- wait, the signals sent and the calls of `OnVMExit`. A method is a function on worlds that
-- returns a value or an error, with the world that it leaves in both cases (`M`). Os/Tree.antt and
-- Os/Calls.antt give Go's file calls on the tree, with symbolic links; `Host` says which calls
-- fail for a reason outside it, and how much a failing write has written by then, so that every
-- error branch of the code is reached. Golang gives
-- the functions of Go's library that the code uses: `filepath.Join` and its kin, `strconv.Itoa`
-- and `Atoi`, `strings.TrimSpace`, and the decoding of UTF-8 by a range over a string,
-- `json.MarshalIndent`, `json.Unmarshal` and `net.ParseMAC`. Texts are lists of bytes. A nil map
-- or a missing value is `none`. The parameters are Virtualization.framework (Framework.antt, with
-- what is asked of it in `IsFramework`), the framework's calls in the runner (`Virtualization`,
-- with what is asked of those that write in `IsKeeping`), the command that `SpawnVMCommand` builds, the fork itself, and `unix.Clonefile`.
--
-- Fuel: JSON text is read with fuel for its length and to Go's depth of 10000; `drain`, the inner
-- loop of the watch, has fuel one more than the chunk's bytes, and each round drops at least one;
-- links are followed 32 times, as the system does. An integer of Go's is 64 bits wide where the
-- code can overflow it: sizes in bytes, and `Atoi`'s range. A file's permission bits, a context
-- argument, what error texts print of paths, and concurrent changes during one method are not
-- modelled; the goroutines and processes act between the calls.
--
-- Not modelled are the console tab and the window (builtin/consoletab.m, `registerConsoleTab`), which
-- are Objective-C and calls of it, what is printed on stderr, and the glue of `main` in
-- cmd/weft-driver-vz.
pub mod Common
pub mod Golang
pub mod Os
pub mod Framework
pub mod Hypervisor
pub mod Marks
pub mod HostInfo
pub mod Network
pub mod Volume
pub mod Image
pub mod Bundle
pub mod Serve
pub mod Provision
pub mod Timing
pub mod Runner
pub mod Tests
