-- ===== src/Os/World.antt =====
-- The state that the driver's methods act on, and their way to fail.
use weft_driver_vz.Common.{ℕ, String, ◌≡◌, refl, List, Bytes}
use weft_driver_vz.Common.Int
use weft_driver_vz.Os.Tree.{Tree, Errno}

-- A goroutine that waits for a forked process, to remove its pid file and report its exit.
pub record Waiter : Type 0 where
  pub pid : ℕ
  pub pid_file : Bytes
  pub vm_dir : Bytes

pub record World : Type 0 where
  pub tree : Tree
  -- How many random values the framework has drawn.
  pub draws : ℕ
  -- The processes that run, and the goroutines that wait for one.
  pub alive : List ℕ
  pub waiting : List Waiter
  -- The process ids that SIGTERM was sent to, and the calls of `OnVMExit`, both oldest first.
  pub signals : List Int.ℤ
  pub exits : List Bytes

pub data Cause : Type 0 where
  os : Errno → Cause
  -- An error of a callee outside the source, by its text.
  foreign : Bytes → Cause
  syntax : Cause
  out_of_range : Cause
  no_cause : Cause

-- An error value: `drivers.ErrUnsupported`, or a text with the error that it wraps.
pub data Error : Type 0 where
  unsupported : Error
  failed : String → Cause → Error

pub data Outcome (A : Type 0) : Type 0 where
  done : A → World → Outcome A
  fail : Error → World → Outcome A

abbrev pub M : Type 0 → Type 0
M A = World → Outcome A

abbrev pub bind : {A B : Type 0} → Outcome A → (A → M B) → Outcome B
bind (done a w) f = f a w
bind (fail e w) f = fail e w

infixl 5 ◌>>=◌ ◌>>◌
abbrev pub ◌>>=◌ : {A B : Type 0} → M A → (A → M B) → M B
◌>>=◌ m f w = bind (m w) f

abbrev pub ◌>>◌ : {B : Type 0} → M (Unit {0}) → M B → M B
m >> k = m >>= λ _. k

-- The world that a method leaves.
abbrev pub final : {A : Type 0} → Outcome A → World
final (done a w) = w
final (fail e w) = w

pub bind-done :
    {A B : Type 0} (m : Outcome A) (f : A → M B) (b : B) (w : World)
    → bind m f ≡ done b w
    → (a : A) × (v : World) × (m ≡ done a v) × (f a v ≡ done b w)
bind-done (done a v) f b w h = (a, v, refl, h)
bind-done (fail e v) f b w h = cc
