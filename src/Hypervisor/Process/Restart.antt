-- ===== src/Hypervisor/Process/Restart.antt =====
-- builtin/hypervisor.go: a VM that is started again before the goroutine of its earlier start is done.
use weft_driver_vz.Common.{ℕ, ◌≡◌, refl, sym, ap, ◌∙◌, ◌≢◌, none, List, [], ◌∷◌, ◌++◌, All, Bytes}
use weft_driver_vz.Os.Tree.{Tree, enoent}
use weft_driver_vz.Os.Calls.{Host, did, err, at, read_call, read_file, remove}
use weft_driver_vz.Os.Calls.Laws.{left}
use weft_driver_vz.Os.Calls.Missing.{read_file-remove}
use weft_driver_vz.Os.World.{World, Waiter, done, final}
use weft_driver_vz.HostInfo.{Options}
use weft_driver_vz.Hypervisor.Process.{Forked, pid_path, start_vm, reap, stop_at, stop_vm}
use weft_driver_vz.Hypervisor.Process.Balance.{start_vm-Forks}
use weft_driver_vz.Hypervisor.Process.Counts.{forked-one}
use weft_driver_vz.Hypervisor.Process.Run.{starts, reaps, Reach, here, next}

stop_vm-missing :
    (h : Host) (c : ℕ) (dir : Bytes) (w : World)
    → read_file h (pid_path (c ∷ dir)) w.tree ≡ err enoent
    → stop_vm h (c ∷ dir) w ≡ done tt w
unfolding stop_vm stop_at
stop_vm-missing h c dir w e = rw e refl

module _ (h : Host) (o : Options) (fork : List Bytes → World → Forked) where
  -- Where a goroutine of an earlier start of the VM is left whose process has ended, a `StartVM` that
  -- succeeds can be followed by that goroutine's end, which removes the new process's pid file: the
  -- new process runs, and `StopVM` succeeds without a signal to it. The file must be removable, and
  -- readable.
  pub stop_vm-reap :
      (c : ℕ) (dir : Bytes) (before after : List Waiter) (g : Waiter) (w v : World) (t : Tree)
      → w.waiting ≡ before ++ g ∷ after
      → g.pid_file ≡ pid_path (c ∷ dir)
      → at h (pid_path (c ∷ dir)) ≢ []
      → h.faults read_call (at h (pid_path (c ∷ dir))) ≡ none
      → start_vm h o fork (c ∷ dir) w ≡ done tt v
      → All (λ p. p ≢ g.pid) v.alive
      → remove h (pid_path (c ∷ dir)) v.tree ≡ did t
      → (u : World) × Reach h o fork w ((c ∷ dir) ∷ []) u
        × (pid : ℕ) × (u.alive ≡ pid ∷ w.alive)
        × (stop_vm h (c ∷ dir) u ≡ done tt u)
  unfolding reap
  stop_vm-reap c dir before after g w v t waits file ne readable d ended removed =
      let f = start_vm-Forks h o fork (c ∷ dir) w v d in
      let k : v ≡ final (start_vm h o fork (c ∷ dir) w) = sym (ap final d) in
      let one = forked-one (c ∷ dir) w v f.waiter.pid f.alive in
      let u = reap h o g (record v { waiting = f.waiter ∷ before ++ after }) in
      let e : u.tree ≡ t = ap (λ (p : Bytes). left (remove h p v.tree)) file ∙ ap left removed in
      let r = read_file-remove h (pid_path (c ∷ dir)) v.tree t ne readable removed in
      (
        u,
        next {w = v} (next {w = w} here (starts (c ∷ dir) k (sym one)) refl)
            (reaps (f.waiter ∷ before) after g (f.waiting ∙ ap (λ x. f.waiter ∷ x) waits) ended refl
              refl)
            refl,
        f.waiter.pid,
        f.alive,
        stop_vm-missing h c dir u (ap (read_file h (pid_path (c ∷ dir))) e ∙ r),
      )
