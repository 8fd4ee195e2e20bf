-- ===== src/Hypervisor/Process.antt =====
-- builtin/hypervisor.go: `StartVM`, the goroutine that it leaves behind, and `StopVM`.
--
-- The command builder of the options and `cmd.Start` are parameters. `World.signals` lists the
-- process ids that `kill(2)` is called with.
pub mod Stop
pub mod Run
pub mod Counts
pub mod Balance
pub mod Drain
pub mod Restart
use weft_driver_vz.Common.{
  ℕ, zero, suc, ◌+◌, ◌-◌, ◌*◌, ◌/◌, ◌%◌, ◌^◌, ◌≤◌, ◌<◌, String, ◌≡◌, refl, sym, ap, ◌∙◌, subst,
  fun_ext, ◌≢◌, ◌↔◌, ◌⊎◌, inl, inr, Bool, true, false, not, ◌&&◌, ◌||◌, Option, none, some, List,
  [], ◌∷◌, ◌++◌, map, foldl, reverse, append-nil, append_assoc, reverse-append, reverse-reverse,
  arith, ltb, leb, ◌==◌, if◌then◌else◌, ==_iff, Bool-cases, Option-cases, length, take, drop,
  length-append, take-append-drop, drop-append, take-append, length-take, length-drop, take-nil,
  take-all, take_past, drop_past, All, All-append, Bytes, codes, bytes_eq, bytes_eq_iff,
}
use weft_driver_vz.Common.Int.{ℤ, pos, negsuc}
use weft_driver_vz.HostInfo.{Built, command, nil_command, not_built, Options}
use weft_driver_vz.Golang.FilePath.{join}
use weft_driver_vz.Golang.Strconv.{itoa, atoi, Parsed, number, syntax, out_of_range}
use weft_driver_vz.Golang.Strings.{trim_space}
use weft_driver_vz.Os.Tree.{Tree, Errno, is_not_exist}
use weft_driver_vz.Os.Calls.{Host, Answer, ok, err, write_file, read_file, remove}
use weft_driver_vz.Os.Calls.Laws.{left}
use weft_driver_vz.Os.World.{
  World, Waiter, M, Outcome, done, fail, Error, unsupported, failed, Cause, os, foreign, no_cause,
}
use weft_driver_vz.Os.World

pub data Forked : Type 0 where
  running : ℕ → Forked
  not_forked : Bytes → Forked

abbrev pub pid_path : Bytes → Bytes
pid_path vm_dir = join vm_dir (codes "vm.pid")

-- `proc.Signal(SIGTERM)`: Go refuses the ids 0 and -1 itself, and any error is dropped.
pub signal : ℤ → World → World
signal (pos zero) w = w
signal (pos (suc n)) w = record w { signals = w.signals ++ pos (suc n) ∷ [] }
signal (negsuc zero) w = w
signal (negsuc (suc n)) w = record w { signals = w.signals ++ negsuc (suc n) ∷ [] }

pub terminate : Parsed → M (Unit {0})
terminate syntax w = fail (failed "StopVM: parse pid" World.syntax) w
terminate out_of_range w = fail (failed "StopVM: parse pid" World.out_of_range) w
terminate (number pid) w = done tt (signal pid w)

module _ (h : Host) where
  pub started : Forked → Bytes → M (Unit {0})
  started (not_forked e) uuid w = fail (failed "StartVM: fork" (foreign e)) w
  started (running pid) uuid w = done tt (record w {
    tree = left (write_file h (pid_path uuid) (itoa pid) w.tree);
    alive = pid ∷ w.alive;
    waiting = record { pid = pid; pid_file = pid_path uuid; vm_dir = uuid } ∷ w.waiting;
  })

  pub launch : (List Bytes → World → Forked) → Built → Bytes → M (Unit {0})
  launch fork (not_built e) uuid w = fail (failed "StartVM: build command" (foreign e)) w
  launch fork nil_command uuid w =
      fail (failed "StartVM: SpawnVMCommand returned nil cmd without error" no_cause) w
  launch fork (command args) uuid w = started (fork args w) uuid w

  pub spawn : (List Bytes → World → Forked) → Option (Bytes → Built) → Bytes → M (Unit {0})
  spawn fork none uuid w = fail unsupported w
  spawn fork (some build) uuid w = launch fork (build uuid) uuid w

  unfoldable pub start_vm : Options → (List Bytes → World → Forked) → Bytes → M (Unit {0})
  unfolding spawn launch started
  start_vm o fork [] w = fail (failed "StartVM: empty vmUUID" no_cause) w
  start_vm o fork (c ∷ uuid) w = spawn fork o.spawn_vm_command (c ∷ uuid) w

  -- The goroutine of one `StartVM`, after `cmd.Wait` has returned.
  unfoldable pub reap : Options → Waiter → World → World
  reap o g w = record w {
    tree = left (remove h g.pid_file w.tree);
    exits = if o.on_exit then w.exits ++ g.vm_dir ∷ [] else w.exits;
  }

  pub stop_at : Answer Bytes → M (Unit {0})
  stop_at (err e) w =
      if is_not_exist e then done tt w else fail (failed "StopVM: read pid file" (os e)) w
  stop_at (ok content) w = terminate (atoi (trim_space content)) w

  unfoldable pub stop_vm : Bytes → M (Unit {0})
  unfolding stop_at terminate signal
  stop_vm [] w = fail (failed "StopVM: empty vmUUID" no_cause) w
  stop_vm (c ∷ uuid) w = stop_at (read_file h (pid_path (c ∷ uuid)) w.tree) w
