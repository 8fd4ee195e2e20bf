-- ===== src/Hypervisor/Process/Balance.antt =====
-- builtin/hypervisor.go: no forked process is forgotten, in any order of starts, stops and exits.
use weft_driver_vz.Common.{
  ◌+◌, ◌≡◌, refl, sym, ap, ◌∙◌, subst, ◌≢◌, ◌⊎◌, inl, inr, true, not, Option, none, some, List, [],
  ◌∷◌, ◌++◌, append-nil, arith, Bytes,
}
use weft_driver_vz.Os.Calls.{Host}
use weft_driver_vz.Os.World.{World, Waiter, Outcome, done, final}
use weft_driver_vz.HostInfo.{Built, command, nil_command, not_built, Options}
use weft_driver_vz.Hypervisor.Process.{
  Forked, running, not_forked, started, launch, spawn, start_vm, reap,
}
use weft_driver_vz.Hypervisor.Process.Stop.{stop_vm-IsStopped}
use weft_driver_vz.Hypervisor.Process.Run.{
  Step, starts, stops, exits, reaps, Reach, here, next, IsAwaited, IsIdle, IsBalanced, forked,
  times, vms_of,
}
use weft_driver_vz.Hypervisor.Process.Counts.{
  Awaits, All-weaken, All-zip, All-skip, IsAwaited-skip, Awaits-eq, forked-none, forked-one,
  times-append, times_cons, vms_of-skip, times-report,
}

-- What a `StartVM` that forks has done.
pub record Forks (uuid : Bytes) (w v : World) : Type 0 where
  pub waiter : Waiter
  pub vm : waiter.vm_dir ≡ uuid
  pub alive : v.alive ≡ waiter.pid ∷ w.alive
  pub waiting : v.waiting ≡ waiter ∷ w.waiting
  pub exits : v.exits ≡ w.exits

-- One that does not fork changes nothing and does not succeed.
abbrev Starts : Bytes → World → Outcome (Unit {0}) → Type 0
Starts uuid w x = ((final x ≡ w) × ((v : World) → x ≢ done tt v)) ⊎ Forks uuid w (final x)

module _ (h : Host) (o : Options) (fork : List Bytes → World → Forked) where
  started-Starts : (f : Forked) (uuid : Bytes) (w : World) → Starts uuid w (started h f uuid w)
  unfolding started
  started-Starts (not_forked e) uuid w = inl (refl, λ v e. cc e)
  started-Starts (running pid) uuid w = inr (record {
    waiter = record { pid = pid; pid_file = _; vm_dir = uuid };
    vm = refl;
    alive = refl;
    waiting = refl;
    exits = refl;
  })

  launch-Starts : (b : Built) (uuid : Bytes) (w : World) → Starts uuid w (launch h fork b uuid w)
  unfolding launch
  launch-Starts (not_built e) uuid w = inl (refl, λ v e. cc e)
  launch-Starts nil_command uuid w = inl (refl, λ v e. cc e)
  launch-Starts (command args) uuid w = started-Starts (fork args w) uuid w

  spawn-Starts :
      (s : Option (Bytes → Built)) (uuid : Bytes) (w : World)
      → Starts uuid w (spawn h fork s uuid w)
  unfolding spawn
  spawn-Starts none uuid w = inl (refl, λ v e. cc e)
  spawn-Starts (some build) uuid w = launch-Starts (build uuid) uuid w

  pub start_vm-Starts : (uuid : Bytes) (w : World) → Starts uuid w (start_vm h o fork uuid w)
  unfolding start_vm
  start_vm-Starts [] w = inl (refl, λ v e. cc e)
  start_vm-Starts (c ∷ uuid) w = spawn-Starts o.spawn_vm_command (c ∷ uuid) w

  pub start_vm-Forks :
      (uuid : Bytes) (w v : World) → start_vm h o fork uuid w ≡ done tt v → Forks uuid w v
  start_vm-Forks uuid w v d = elim (start_vm-Starts uuid w) [
    | inl (_, not) ↦ absurd (not v d)
    | inr f ↦ subst (Forks uuid w) (ap final d) f
  ]

module _ (h : Host) (o : Options) (fork : List Bytes → World → Forked) where
  start-IsBalanced :
      (ds es : List Bytes) (uuid : Bytes) (w v : World)
      → es ≡ forked uuid w v
      → (v ≡ w) ⊎ Forks uuid w v
      → IsBalanced o ds w
      → IsBalanced o (ds ++ es) v
  start-IsBalanced ds es uuid w v k (inl same) b =
      rw (same, k ∙ forked-none uuid w v same, append-nil ds) b
  start-IsBalanced ds es uuid w v k (inr f) b = record {
    awaited =
        Awaits-eq v.alive (f.waiter.pid ∷ w.alive) v.waiting (f.waiter ∷ w.waiting) f.alive
          f.waiting (inl refl, All-weaken w.alive (λ p a. inr a) b.awaited);
    reported = λ on d. omega (
      arith,
      b.reported on d,
      ap (λ x. times d (vms_of x)) f.waiting,
      ap (times d) f.exits,
      times_cons d f.waiter.vm_dir (vms_of w.waiting),
      ap (λ x. times d (x ∷ [])) f.vm,
      times-append d ds es,
      ap (times d) (k ∙ forked-one uuid w v f.waiter.pid f.alive),
    );
  }

  -- A step that forks nothing, from what it leaves of the processes, goroutines and reports.
  quiet-IsBalanced :
      (ds es : List Bytes) (w v : World)
      → es ≡ []
      → Awaits v.waiting v.alive
      → (o.on_exit ≡ true
          → (d : Bytes)
          → times d v.exits + times d (vms_of v.waiting)
            ≡ times d w.exits + times d (vms_of w.waiting))
      → IsBalanced o ds w
      → IsBalanced o (ds ++ es) v
  quiet-IsBalanced ds es w v k a r b =
      rw (k, append-nil ds) (record { awaited = a; reported = λ on d. r on d ∙ b.reported on d })

  Step-IsBalanced :
      (ds es : List Bytes) (w v : World)
      → Step h o fork w v es
      → IsBalanced o ds w
      → IsBalanced o (ds ++ es) v
  unfolding reap
  Step-IsBalanced ds es w v (starts uuid d k) b =
      start-IsBalanced ds es uuid w v k
        (elim (start_vm-Starts h o fork uuid w) [
          | inl (same, _) ↦ inl (d ∙ same)
          | inr f ↦ inr (subst (Forks uuid w) (sym d) f)
        ])
        b
  Step-IsBalanced ds es w v (stops uuid e k) b =
      let s = stop_vm-IsStopped h uuid w in
      let x = ap (λ (x : World). x.alive) e ∙ s.alive in
      let y = ap (λ (x : World). x.waiting) e ∙ s.waiting in
      let z = ap (λ (x : World). x.exits) e ∙ s.exits in
      quiet-IsBalanced ds es w v k (Awaits-eq v.alive w.alive v.waiting w.waiting x y b.awaited)
        (λ on d. omega (arith, ap (times d) z, ap (λ x. times d (vms_of x)) y)) b
  Step-IsBalanced ds es w v (exits before after pid q e k) b =
      let y = ap (λ (x : World). x.waiting) e in
      let z = ap (λ (x : World). x.exits) e in
      quiet-IsBalanced ds es w v k
        (Awaits-eq v.alive (before ++ after) v.waiting w.waiting (ap (λ (x : World). x.alive) e) y (
          All-skip (λ p. IsAwaited p w.waiting) before after pid
            (subst (Awaits w.waiting) q b.awaited)))
        (λ on d. omega (arith, ap (times d) z, ap (λ x. times d (vms_of x)) y)) b
  Step-IsBalanced ds es w v (reaps before after g q ended e k) b =
      let y = ap (λ (x : World). x.waiting) e in
      let z = ap (λ (x : World). x.exits) e in
      quiet-IsBalanced ds es w v k
        (Awaits-eq v.alive w.alive v.waiting (before ++ after) (ap (λ (x : World). x.alive) e) y (
          All-zip w.alive (λ p a n. IsAwaited-skip p before after g a n)
            (subst (λ gs. Awaits gs w.alive) q b.awaited) ended))
        (λ on d. omega (
          arith,
          ap (λ x. times d (vms_of x)) y,
          ap (times d) z,
          ap (λ x. times d (vms_of x)) q,
          vms_of-skip d before after g,
          times-report o.on_exit d w.exits g.vm_dir on,
        ))
        b

  -- From an idle world, however calls of `StartVM` and `StopVM`, those that fail included, exits and
  -- goroutines follow one another: every process that runs is awaited by a goroutine, and if
  -- `OnVMExit` is set, then for each VM its calls and the goroutines that still wait are together as
  -- many as the processes that were forked for that VM.
  pub Reach-IsBalanced :
      (u : World) (ds : List Bytes) (w : World)
      → Reach h o fork u ds w
      → IsIdle u
      → IsBalanced o ds w
  unfolding times
  Reach-IsBalanced u ds w here i = record {
    awaited = subst (Awaits u.waiting) (sym i.0) tt;
    reported = λ on d. omega (arith, ap (times d) i.2, ap (λ x. times d (vms_of x)) i.1);
  }
  Reach-IsBalanced u fs w (next {ds = ds} {es = es} {w = x} r s e) i =
      rw e (Step-IsBalanced ds es x w s (Reach-IsBalanced u ds x r i))
