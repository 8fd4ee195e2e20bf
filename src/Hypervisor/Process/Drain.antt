-- ===== src/Hypervisor/Process/Drain.antt =====
-- builtin/hypervisor.go: the goroutines that are left finish once no process runs.
use weft_driver_vz.Common.{
  ◌≡◌, refl, sym, ap, ◌∙◌, subst, ◌≢◌, Bool, true, false, List, [], ◌∷◌, ◌++◌, append-nil,
  append_assoc, arith, if◌then◌else◌, All, Bytes,
}
use weft_driver_vz.Os.Calls.{Host}
use weft_driver_vz.Os.World.{World, Waiter}
use weft_driver_vz.HostInfo.{Options}
use weft_driver_vz.Hypervisor.Process.{Forked, reap}
use weft_driver_vz.Hypervisor.Process.Run.{Step, reaps, Reach, here, next, IsIdle, times, vms_of}
use weft_driver_vz.Hypervisor.Process.Counts.{times-append}
use weft_driver_vz.Hypervisor.Process.Balance.{Reach-IsBalanced}

-- What the goroutines that are left in `w` lead to, one after the other.
record IsDrained (h : Host) (o : Options) (fork : List Bytes → World → Forked) (w v : World)
    : Type 0 where
  reached : Reach h o fork w [] v
  waiting : v.waiting ≡ []
  alive : v.alive ≡ []
  exits : o.on_exit ≡ true → v.exits ≡ w.exits ++ vms_of w.waiting

report-append :
    (on : Bool) (xs ys : List Bytes) (x : Bytes)
    → on ≡ true
    → (if on then xs ++ x ∷ [] else xs) ++ ys ≡ xs ++ x ∷ ys
report-append true xs ys x e = append_assoc xs (x ∷ []) ys
report-append false xs ys x e = cc e

module _ (h : Host) (o : Options) (fork : List Bytes → World → Forked) where
  -- Steps that follow a first one, which forks nothing.
  Step-Reach :
      (w x v : World) (ds : List Bytes)
      → Step h o fork w x []
      → Reach h o fork x ds v
      → Reach h o fork w ds v
  Step-Reach w x v ds s here = next {w = w} here s refl
  Step-Reach w x v fs s (next {ds = ds} {w = y} r t e) = next {w = y} (Step-Reach w x y ds s r) t e

  drain_from :
      (gs : List Waiter) (w : World)
      → w.waiting ≡ gs
      → w.alive ≡ []
      → (v : World) × IsDrained h o fork w v
  unfolding reap
  drain_from [] w q dead = (
    w,
    record {
      reached = here;
      waiting = q;
      alive = dead;
      exits = λ on. rw q (sym (append-nil w.exits));
    },
  )
  drain_from (g ∷ gs) w q dead =
      let x = reap h o g (record w { waiting = gs }) in
      let (v, d) = drain_from gs x refl dead in
      (
        v,
        record {
          reached =
              Step-Reach w x v []
                (reaps [] gs g q (subst (All (λ p. p ≢ g.pid)) (sym dead) tt) refl refl) d.reached;
          waiting = d.waiting;
          alive = d.alive;
          exits = λ on.
              d.exits on
              ∙ (report-append o.on_exit w.exits (vms_of gs) g.vm_dir on
                  ∙ ap (λ l. w.exits ++ vms_of l) (sym q));
        },
      )

  -- From an idle world, with `OnVMExit` set: once no process runs, the goroutines that are left can
  -- finish, without anything being forked. `OnVMExit` is then called with their VMs, and has been
  -- called for each VM exactly as often as a process was forked for it.
  pub Reach-drained :
      (u : World) (ds : List Bytes) (w : World)
      → Reach h o fork u ds w
      → IsIdle u
      → w.alive ≡ []
      → o.on_exit ≡ true
      → (v : World) × Reach h o fork w [] v
        × (v.waiting ≡ [])
        × (v.alive ≡ [])
        × (v.exits ≡ w.exits ++ vms_of w.waiting)
        × ((d : Bytes) → times d v.exits ≡ times d ds)
  Reach-drained u ds w r i dead on =
      let (v, x) = drain_from w.waiting w refl dead in
      let b = Reach-IsBalanced h o fork u ds w r i in
      (
        v,
        x.reached,
        x.waiting,
        x.alive,
        x.exits on,
        λ d. omega (
          arith,
          b.reported on d,
          times-append d w.exits (vms_of w.waiting),
          ap (times d) (x.exits on),
        ),
      )
