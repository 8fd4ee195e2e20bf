-- ===== src/Hypervisor/Process/Stop.antt =====
-- builtin/hypervisor.go: what `StopVM` does after a `StartVM`, and with any pid file.
use weft_driver_vz.Common.{
  ℕ, zero, suc, ◌^◌, ◌<◌, ◌≡◌, refl, ◌⊎◌, inl, inr, none, some, List, [], ◌∷◌, ◌++◌, arith,
  Bool-cases, All, Bytes,
}
use weft_driver_vz.Common.Int.{ℤ, pos, negsuc}
use weft_driver_vz.Golang.Strconv.{
  itoa, atoi, Parsed, number, syntax, out_of_range, atoi-itoa, atoi-negative, itoa-digits, IsDigit,
}
use weft_driver_vz.Golang.Strings.{trim_space, trim_space-IsGraph, IsGraph}
use weft_driver_vz.Os.Tree.{Tree, is_not_exist}
use weft_driver_vz.Os.Calls.{Host, read_call, at, Answer, ok, err, did, write_file, read_file}
use weft_driver_vz.Os.Calls.Writing.{read_file-write_file}
use weft_driver_vz.Os.World.{World, done, final}
use weft_driver_vz.HostInfo.{Built, command, Options}
use weft_driver_vz.Hypervisor.Process.{
  Forked, running, pid_path, start_vm, signal, terminate, stop_at, stop_vm,
}

digits-IsGraph : (s : Bytes) → All IsDigit s → All IsGraph s
digits-IsGraph [] h = tt
digits-IsGraph (c ∷ s) (hc, h) = ((omega arith, omega arith), digits-IsGraph s h)

atoi-trim-itoa : (n : ℕ) → n < 2 ^ 63 → atoi (trim_space (itoa n)) ≡ number (pos n)
atoi-trim-itoa n h =
    rw (trim_space-IsGraph (itoa n) (digits-IsGraph (itoa n) (itoa-digits n))) (atoi-itoa n h)

atoi-trim-negative :
    (n : ℕ) → n < 2 ^ 63 → atoi (trim_space (b'-' ∷ itoa (suc n))) ≡ number (negsuc n)
atoi-trim-negative n h =
    rw
      (trim_space-IsGraph (b'-' ∷ itoa (suc n))
        ((omega arith, omega arith), digits-IsGraph (itoa (suc n)) (itoa-digits (suc n))))
      (atoi-negative n h)

-- A `StartVM` whose command is built, forked and has its pid file written succeeds, and a `StopVM`
-- right after it sends SIGTERM to the process that was forked, once, and to no other; the file must
-- be readable, and the id positive and an int.
pub stop_vm-start_vm :
    (h : Host) (o : Options) (fork : List Bytes → World → Forked) (c : ℕ) (dir : Bytes) (w : World)
    (build : Bytes → Built) (args : List Bytes) (n : ℕ) (t : Tree)
    → o.spawn_vm_command ≡ some build
    → build (c ∷ dir) ≡ command args
    → fork args w ≡ running (suc n)
    → suc n < 2 ^ 63
    → write_file h (pid_path (c ∷ dir)) (itoa (suc n)) w.tree ≡ did t
    → h.faults read_call (at h (pid_path (c ∷ dir))) ≡ none
    → (v : World) × (start_vm h o fork (c ∷ dir) w ≡ done tt v)
      × (v.alive ≡ suc n ∷ w.alive)
      × (stop_vm h (c ∷ dir) v ≡ done tt (record v { signals = w.signals ++ pos (suc n) ∷ [] }))
unfolding start_vm stop_vm
stop_vm-start_vm h o fork c dir w build args n t so b f lt written sees = (
  record w {
    tree = t;
    alive = suc n ∷ w.alive;
    waiting = record { pid = suc n; pid_file = pid_path (c ∷ dir); vm_dir = c ∷ dir } ∷ w.waiting;
  },
  rw (so, b, f, written),
  refl,
  rw (
    read_file-write_file h (pid_path (c ∷ dir)) (itoa (suc n)) w.tree t sees written,
    atoi-trim-itoa (suc n) lt,
  ),
)

-- What may differ after `StopVM`: one more signal.
pub record IsStopped (w v : World) : Type 0 where
  pub tree : v.tree ≡ w.tree
  pub alive : v.alive ≡ w.alive
  pub waiting : v.waiting ≡ w.waiting
  pub exits : v.exits ≡ w.exits
  pub draws : v.draws ≡ w.draws
  pub signals : (v.signals ≡ w.signals) ⊎ ((p : ℤ) × (v.signals ≡ w.signals ++ p ∷ []))

signal-IsStopped : (p : ℤ) (w : World) → IsStopped w (signal p w)
unfolding signal
signal-IsStopped (pos zero) w = record {
  tree = refl;
  alive = refl;
  waiting = refl;
  exits = refl;
  draws = refl;
  signals = inl refl;
}
signal-IsStopped (pos (suc n)) w = record {
  tree = refl;
  alive = refl;
  waiting = refl;
  exits = refl;
  draws = refl;
  signals = inr (pos (suc n), refl);
}
signal-IsStopped (negsuc zero) w = record {
  tree = refl;
  alive = refl;
  waiting = refl;
  exits = refl;
  draws = refl;
  signals = inl refl;
}
signal-IsStopped (negsuc (suc n)) w = record {
  tree = refl;
  alive = refl;
  waiting = refl;
  exits = refl;
  draws = refl;
  signals = inr (negsuc (suc n), refl);
}

same-IsStopped : (w : World) → IsStopped w w
same-IsStopped w = record {
  tree = refl;
  alive = refl;
  waiting = refl;
  exits = refl;
  draws = refl;
  signals = inl refl;
}

terminate-IsStopped : (p : Parsed) (w : World) → IsStopped w (final (terminate p w))
unfolding terminate
terminate-IsStopped (number p) w = signal-IsStopped p w
terminate-IsStopped syntax w = same-IsStopped w
terminate-IsStopped out_of_range w = same-IsStopped w

stop_at-IsStopped : (h : Host) (a : Answer Bytes) (w : World) → IsStopped w (final (stop_at h a w))
unfolding stop_at
stop_at-IsStopped h (err e) w = elim (Bool-cases (is_not_exist e)) [
  | inl missing ↦ rw missing (same-IsStopped w)
  | inr other ↦ rw other (same-IsStopped w)
]
stop_at-IsStopped h (ok b) w = terminate-IsStopped (atoi (trim_space b)) w

-- `StopVM`, on every branch, sends at most one signal and changes nothing else.
pub stop_vm-IsStopped :
    (h : Host) (uuid : Bytes) (w : World) → IsStopped w (final (stop_vm h uuid w))
unfolding stop_vm
stop_vm-IsStopped h [] w = same-IsStopped w
stop_vm-IsStopped h (c ∷ uuid) w = stop_at-IsStopped h (read_file h (pid_path (c ∷ uuid)) w.tree) w

-- A pid file that can be read and holds a negative number `-(n + 2)` that is an int is not
-- malformed to `StopVM`: it succeeds and calls `kill` with that number, which names a whole process
-- group.
pub stop_vm_negative :
    (h : Host) (c : ℕ) (dir : Bytes) (w : World) (n : ℕ)
    → suc n < 2 ^ 63
    → read_file h (pid_path (c ∷ dir)) w.tree ≡ ok (b'-' ∷ itoa (suc (suc n)))
    → stop_vm h (c ∷ dir) w ≡ done tt (record w { signals = w.signals ++ negsuc (suc n) ∷ [] })
unfolding stop_vm
stop_vm_negative h c dir w n lt e = rw (e, atoi-trim-negative (suc n) lt)
