-- ===== src/Hypervisor/Process/Counts.antt =====
-- builtin/hypervisor.go: the processes, goroutines and VMs of the lists that the driver leaves.
use weft_driver_vz.Common.{
  ℕ, suc, ◌+◌, ◌≡◌, refl, sym, subst, ◌≢◌, inl, inr, Bool, true, false, List, [], ◌∷◌, ◌++◌, arith,
  ◌==◌, if◌then◌else◌, ==_iff, Bool-cases, length, All, Bytes, bytes_eq,
}
use weft_driver_vz.Os.World.{World, Waiter}
use weft_driver_vz.Hypervisor.Process.Run.{IsAwaited, forked, times, vms_of}

pub All-weaken : {P Q : ℕ → Type 0} (xs : List ℕ) → ((x : ℕ) → P x → Q x) → All P xs → All Q xs
All-weaken [] f h = tt
All-weaken (x ∷ xs) f (p, h) = (f x p, All-weaken xs f h)

pub All-zip :
    {P Q R : ℕ → Type 0} (xs : List ℕ)
    → ((x : ℕ) → P x → Q x → R x)
    → All P xs
    → All Q xs
    → All R xs
All-zip [] f h k = tt
All-zip (x ∷ xs) f (p, h) (q, k) = (f x p q, All-zip xs f h k)

pub All-skip : (P : ℕ → Type 0) (xs ys : List ℕ) (x : ℕ) → All P (xs ++ x ∷ ys) → All P (xs ++ ys)
All-skip P [] ys x h = h.1
All-skip P (z ∷ xs) ys x (p, h) = (p, All-skip P xs ys x h)

pub IsAwaited-skip :
    (p : ℕ) (gs hs : List Waiter) (g : Waiter)
    → IsAwaited p (gs ++ g ∷ hs)
    → p ≢ g.pid
    → IsAwaited p (gs ++ hs)
IsAwaited-skip p [] hs g (inl e) n = absurd (n (sym e))
IsAwaited-skip p [] hs g (inr r) n = r
IsAwaited-skip p (f ∷ gs) hs g (inl e) n = inl e
IsAwaited-skip p (f ∷ gs) hs g (inr r) n = inr (IsAwaited-skip p gs hs g r n)

abbrev pub Awaits : List Waiter → List ℕ → Type 0
Awaits gs = All (λ p. IsAwaited p gs)

pub Awaits-eq : (a b : List ℕ) (gs hs : List Waiter) → a ≡ b → gs ≡ hs → Awaits hs b → Awaits gs a
Awaits-eq a b gs hs e q t = subst (λ x. Awaits gs x) (sym e) (subst (λ y. Awaits y b) (sym q) t)

suc_ne : (n : ℕ) → (n == suc n) ≡ false
suc_ne n = elim (Bool-cases (n == suc n)) [
  | inl e ↦ absurd (omega (arith, (==_iff n (suc n)).0 e))
  | inr e ↦ e
]

eq_self : (n : ℕ) → (n == n) ≡ true
eq_self n = (==_iff n n).1 refl

pub forked-none : (uuid : Bytes) (w v : World) → v ≡ w → forked uuid w v ≡ []
forked-none uuid w v e = rw (e, suc_ne (length w.alive)) refl

pub forked-one :
    (uuid : Bytes) (w v : World) (p : ℕ) → v.alive ≡ p ∷ w.alive → forked uuid w v ≡ uuid ∷ []
forked-one uuid w v p e = rw (e, eq_self (suc (length w.alive))) refl

pub times-append : (d : Bytes) (xs ys : List Bytes) → times d (xs ++ ys) ≡ times d xs + times d ys
unfolding times
times-append d [] ys = omega arith
times-append d (x ∷ xs) ys = elim (Bool-cases (bytes_eq d x)) [
  | inl e ↦ rw e (omega (arith, times-append d xs ys))
  | inr e ↦ rw e (times-append d xs ys)
]

pub times_cons : (d x : Bytes) (xs : List Bytes) → times d (x ∷ xs) ≡ times d (x ∷ []) + times d xs
times_cons d x xs = times-append d (x ∷ []) xs

pub vms_of-skip :
    (d : Bytes) (gs hs : List Waiter) (g : Waiter)
    → times d (vms_of (gs ++ g ∷ hs)) ≡ times d (g.vm_dir ∷ []) + times d (vms_of (gs ++ hs))
vms_of-skip d [] hs g = times_cons d g.vm_dir (vms_of hs)
vms_of-skip d (f ∷ gs) hs g = omega (
  arith,
  times_cons d f.vm_dir (vms_of (gs ++ g ∷ hs)),
  times_cons d f.vm_dir (vms_of (gs ++ hs)),
  vms_of-skip d gs hs g,
)

-- `OnVMExit` is called with the process's VM, where it is set.
pub times-report :
    (on : Bool) (d : Bytes) (xs : List Bytes) (x : Bytes)
    → on ≡ true
    → times d (if on then xs ++ x ∷ [] else xs) ≡ times d xs + times d (x ∷ [])
times-report true d xs x e = times-append d xs (x ∷ [])
times-report false d xs x e = cc e
