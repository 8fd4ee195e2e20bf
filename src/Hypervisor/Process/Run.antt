-- ===== src/Hypervisor/Process/Run.antt =====
-- builtin/hypervisor.go: `StartVM`, `StopVM`, the exits of the forked processes and the goroutines
-- that wait for them, in any order.
use weft_driver_vz.Common.{
  ℕ, suc, ◌+◌, ◌≡◌, ◌≢◌, ◌⊎◌, true, List, [], ◌∷◌, ◌++◌, ◌==◌, if◌then◌else◌, length, All, Bytes,
  bytes_eq,
}
use weft_driver_vz.Os.Calls.{Host}
use weft_driver_vz.Os.World.{World, Waiter, final}
use weft_driver_vz.HostInfo.{Options}
use weft_driver_vz.Hypervisor.Process.{Forked, start_vm, reap, stop_vm}

-- The VM of a call that left one process more than there were, whatever the call returned.
abbrev pub forked : Bytes → World → World → List Bytes
forked uuid w v = if length v.alive == suc (length w.alive) then uuid ∷ [] else []

module _ (h : Host) (o : Options) (fork : List Bytes → World → Forked) where
  -- One step of the system; `ds` lists the VM of a process that it forks.
  pub data Step (w v : World) (ds : List Bytes) : Type 0 where
    -- With any result, an error included.
    starts :
        (uuid : Bytes) → v ≡ final (start_vm h o fork uuid w) → ds ≡ forked uuid w v → Step w v ds
    stops : (uuid : Bytes) → v ≡ final (stop_vm h uuid w) → ds ≡ [] → Step w v ds
    -- A process ends.
    exits :
        (before after : List ℕ) (pid : ℕ)
        → w.alive ≡ before ++ pid ∷ after
        → v ≡ record w { alive = before ++ after }
        → ds ≡ []
        → Step w v ds
    -- A goroutine whose process has ended finishes.
    reaps :
        (before after : List Waiter) (g : Waiter)
        → w.waiting ≡ before ++ g ∷ after
        → All (λ p. p ≢ g.pid) w.alive
        → v ≡ reap h o g (record w { waiting = before ++ after })
        → ds ≡ []
        → Step w v ds

  -- What is reached from `u` by steps that fork processes of the VMs `ds`, in this order.
  pub data Reach (u : World) : List Bytes → World → Type 0 where
    here : Reach u [] u
    next :
        {ds es fs : List Bytes} {w v : World}
        → Reach u ds w
        → Step w v es
        → fs ≡ ds ++ es
        → Reach u fs v

-- A goroutine waits for the process.
abbrev pub IsAwaited : ℕ → List Waiter → Type 0
IsAwaited p [] = ⊥
IsAwaited p (g ∷ gs) = (g.pid ≡ p) ⊎ IsAwaited p gs

abbrev pub IsIdle : World → Type 0
IsIdle w = (w.alive ≡ []) × (w.waiting ≡ []) × (w.exits ≡ [])

-- How often a VM stands in a list, and how many goroutines wait for a process of it.
unfoldable pub times : Bytes → List Bytes → ℕ
times d [] = 0
times d (x ∷ xs) = if bytes_eq d x then suc (times d xs) else times d xs

abbrev pub vms_of : List Waiter → List Bytes
vms_of [] = []
vms_of (g ∷ gs) = g.vm_dir ∷ vms_of gs

-- Every process that runs is awaited, and each that was forked is either still awaited or has been
-- reported, under its VM.
pub record IsBalanced (o : Options) (ds : List Bytes) (w : World) : Type 0 where
  pub awaited : All (λ p. IsAwaited p w.waiting) w.alive
  pub reported :
      o.on_exit ≡ true → (d : Bytes) → times d w.exits + times d (vms_of w.waiting) ≡ times d ds
