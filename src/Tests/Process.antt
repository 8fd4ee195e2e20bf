-- ===== src/Tests/Process.antt =====
-- builtin/hypervisor.go: runs of `StartVM` and `StopVM`, and the theorems about them at concrete
-- inputs.
use weft_driver_vz.Common.{
  ℕ, suc, ◌≡◌, refl, sym, ap, ◌≢◌, true, false, some, List, [], ◌∷◌, ◌++◌, arith, Bytes, codes,
  bytes_eq,
}
use weft_driver_vz.Os.World.{World, Waiter, done, final}
use weft_driver_vz.Os.Tree.{Tree, Node, file, folder}
use weft_driver_vz.Common.Int.{pos, negsuc}
use weft_driver_vz.HostInfo.{command, Options}
use weft_driver_vz.Golang.Strconv.{itoa}
use weft_driver_vz.Os.Calls.{at, ok, did, write_file, read_file, remove}
use weft_driver_vz.Os.Tree.{node, place_eq}
use weft_driver_vz.Hypervisor.Process.{Forked, running, pid_path, start_vm, stop_vm}
use weft_driver_vz.Hypervisor.Process.Stop.{
  stop_vm-start_vm, stop_vm-IsStopped, IsStopped, stop_vm_negative,
}
use weft_driver_vz.Hypervisor.Process.Run.{starts, exits, Reach, here, next, IsBalanced, times}
use weft_driver_vz.Hypervisor.Process.Balance.{Reach-IsBalanced}
use weft_driver_vz.Hypervisor.Process.Drain.{Reach-drained}
use weft_driver_vz.Tests.Sample.{host, world_of}
use weft_driver_vz.Hypervisor.Process.Restart.{stop_vm-reap}
use weft_driver_vz.Tests.Hypervisor.{created}

abbrev options : Options
options = record {
  host_uuid = codes "h1";
  hostname = codes "mac";
  az = codes "a";
  spawn_vm_command = some (λ d. command (codes "vz-vm-run" ∷ d ∷ []));
  on_exit = true;
  on_event = false;
}

abbrev fork : List Bytes → World → Forked
fork args w = running 42

-- The world after `StartVM` on the VM that was created.
abbrev started_world : World
started_world = record created {
  tree =
      (codes "vm" ∷ [], folder)
      ∷ (codes "nvram.bin" ∷ codes "vm" ∷ [], file (codes "efi"))
      ∷ (codes "machine-id.bin" ∷ codes "vm" ∷ [], file (codes "id" ++ 0 ∷ []))
      ∷ (codes "mac.txt" ∷ codes "vm" ∷ [], file (codes "mac" ++ 1 ∷ []))
      ∷ (codes "vm.pid" ∷ codes "vm" ∷ [], file (codes "42"))
      ∷ [];
  alive = 42 ∷ [];
  waiting = record { pid = 42; pid_file = codes "/vm/vm.pid"; vm_dir = codes "/vm" } ∷ [];
}

start_vm_test : start_vm host options fork (codes "/vm") created ≡ done tt started_world
unfolding start_vm write_file weft_driver_vz.Os.Calls.put_file weft_driver_vz.Golang.FilePath.join
    weft_driver_vz.Os.Tree.reach_with bytes_eq weft_driver_vz.Golang.FilePath.resolve
    weft_driver_vz.Os.Tree.write itoa
start_vm_test = refl

stop_vm_test :
    stop_vm host (codes "/vm") started_world
    ≡ done tt (record started_world { signals = pos 42 ∷ [] })
unfolding stop_vm read_file weft_driver_vz.Golang.FilePath.join weft_driver_vz.Os.Tree.reach_with
    weft_driver_vz.Golang.FilePath.resolve weft_driver_vz.Golang.Strconv.atoi
    weft_driver_vz.Golang.Strings.trim_space
stop_vm_test = refl

pid_written_test :
    write_file host (pid_path (codes "/vm")) (itoa 42) created.tree ≡ did started_world.tree
unfolding write_file weft_driver_vz.Os.Calls.put_file weft_driver_vz.Golang.FilePath.join
    weft_driver_vz.Os.Tree.reach_with weft_driver_vz.Golang.FilePath.resolve
    weft_driver_vz.Os.Tree.write itoa
pid_written_test = refl

stop_vm-start_vm_example :
    (v : World) × (start_vm host options fork (codes "/vm") created ≡ done tt v)
    × (v.alive ≡ 42 ∷ [])
    × (stop_vm host (codes "/vm") v ≡ done tt (record v { signals = pos 42 ∷ [] }))
stop_vm-start_vm_example =
    stop_vm-start_vm host options fork b'/' (codes "vm") created
      (λ d. command (codes "vz-vm-run" ∷ d ∷ [])) (codes "vz-vm-run" ∷ codes "/vm" ∷ []) 41
      started_world.tree refl refl refl (omega arith) pid_written_test refl

stop_vm-IsStopped_example :
    IsStopped started_world (final (stop_vm host (codes "/vm") started_world))
stop_vm-IsStopped_example = stop_vm-IsStopped host (codes "/vm") started_world

abbrev odd_pid_world : World
odd_pid_world =
    world_of
      ((codes "vm" ∷ [], folder) ∷ (codes "vm.pid" ∷ codes "vm" ∷ [], file (codes "-5")) ∷ [])

odd_pid_test :
    read_file host (pid_path (codes "/vm")) odd_pid_world.tree ≡ ok (b'-' ∷ itoa (suc (suc 3)))
unfolding read_file weft_driver_vz.Golang.FilePath.join weft_driver_vz.Os.Tree.reach_with
    weft_driver_vz.Golang.FilePath.resolve itoa
odd_pid_test = refl

stop_vm_negative_example :
    stop_vm host (codes "/vm") odd_pid_world
    ≡ done tt (record odd_pid_world { signals = negsuc 4 ∷ [] })
stop_vm_negative_example =
    stop_vm_negative host b'/' (codes "vm") odd_pid_world 3 (omega arith) odd_pid_test

-- The process has ended.
abbrev ended_world : World
ended_world = record started_world { alive = [] }

ended_Reach : Reach host options fork created (codes "/vm" ∷ []) ended_world
ended_Reach =
    next {w = started_world}
      (next {w = created} here (starts (codes "/vm") (sym (ap final start_vm_test)) refl) refl)
      (exits [] [] 42 refl refl refl) refl

Reach-IsBalanced_example : IsBalanced options (codes "/vm" ∷ []) ended_world
Reach-IsBalanced_example =
    Reach-IsBalanced host options fork created (codes "/vm" ∷ []) ended_world ended_Reach
      (refl, refl, refl)

Reach-drained_example :
    (v : World) × Reach host options fork ended_world [] v
    × (v.waiting ≡ [])
    × (v.alive ≡ [])
    × (v.exits ≡ codes "/vm" ∷ [])
    × ((d : Bytes) → times d v.exits ≡ times d (codes "/vm" ∷ []))
Reach-drained_example =
    Reach-drained host options fork created (codes "/vm" ∷ []) ended_world ended_Reach
      (refl, refl, refl) refl refl

-- The VM has been started before, by a process that has ended; its goroutine is not done.
abbrev earlier : Waiter
earlier = record { pid = 7; pid_file = pid_path (codes "/vm"); vm_dir = codes "/vm" }

abbrev left_over : World
left_over =
    record (world_of
      ((codes "vm" ∷ [], folder) ∷ (codes "vm.pid" ∷ codes "vm" ∷ [], file (codes "7")) ∷ [])) {
        waiting = earlier ∷ [];
      }

abbrev restarted : World
restarted =
    record (world_of
      ((codes "vm" ∷ [], folder) ∷ (codes "vm.pid" ∷ codes "vm" ∷ [], file (codes "42")) ∷ [])) {
        alive = 42 ∷ [];
        waiting =
            record { pid = 42; pid_file = pid_path (codes "/vm"); vm_dir = codes "/vm" }
            ∷ earlier
            ∷ [];
      }

restart_test : start_vm host options fork (codes "/vm") left_over ≡ done tt restarted
unfolding start_vm write_file weft_driver_vz.Os.Calls.put_file weft_driver_vz.Golang.FilePath.join
    weft_driver_vz.Os.Tree.reach_with bytes_eq weft_driver_vz.Golang.FilePath.resolve
    weft_driver_vz.Os.Tree.write itoa
restart_test = refl

pid-ne-root : at host (pid_path (codes "/vm")) ≢ []
unfolding bytes_eq weft_driver_vz.Golang.FilePath.resolve weft_driver_vz.Golang.FilePath.join
pid-ne-root e = cc e

pid_removed_test :
    remove host (pid_path (codes "/vm")) restarted.tree ≡ did ((codes "vm" ∷ [], folder) ∷ [])
unfolding remove weft_driver_vz.Os.Tree.way_error weft_driver_vz.Golang.FilePath.resolve
    weft_driver_vz.Os.Tree.prune weft_driver_vz.Golang.FilePath.join
pid_removed_test = refl

stop_vm-reap_example :
    (u : World) × Reach host options fork left_over (codes "/vm" ∷ []) u
    × (pid : ℕ) × (u.alive ≡ pid ∷ [])
    × (stop_vm host (codes "/vm") u ≡ done tt u)
stop_vm-reap_example =
    stop_vm-reap host options fork b'/' (codes "vm") [] [] earlier left_over restarted
      ((codes "vm" ∷ [], folder) ∷ []) refl refl pid-ne-root refl restart_test
      ((λ e. absurd (omega (arith, e))), tt) pid_removed_test
