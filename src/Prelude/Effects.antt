-- ===== src/Prelude/Effects.antt =====
-- What a call on a mutable object can do: return, return an error, panic, or (a loop only) use up
-- the rounds that it was given. The object keeps what was written before an error.
use native.Mathlib.Omega.{arith}
use mathlib.Core.Path.{◌≡◌, refl}

pub data Panic : Type 0 where
  missing_key : Panic
  duration_overflow : Panic
  unreachable : Panic
  unexpected : Panic

pub data Outcome {ℓ} (E S A : Type ℓ) : Type ℓ where
  done : A → S → Outcome E S A
  fail : E → S → Outcome E S A
  panic : Panic → Outcome E S A
  running : Outcome E S A

-- futures::Async
pub data Async {ℓ} (A : Type ℓ) : Type ℓ where
  ready : A → Async A
  not_ready : Async A

pub data Result {ℓ} (A E : Type ℓ) : Type ℓ where
  ok : A → Result A E
  err : E → Result A E

abbrev pub Op {ℓ} : (E S A : Type ℓ) → Type ℓ
Op E S A = S → Outcome E S A

module _ {ℓ} {E S A B : Type ℓ} where
  abbrev pub and_then : Outcome E S A → (A → Op E S B) → Outcome E S B
  and_then (done a s) f = f a s
  and_then (fail e s) f = fail e s
  and_then (panic p) f = panic p
  and_then running f = running

  infixl 5 ◌>>=◌
  abbrev pub ◌>>=◌ : Op E S A → (A → Op E S B) → Op E S B
  ◌>>=◌ m f s = and_then (m s) f

-- Wherever the call returns, with a value or an error, `P` holds of the state.
abbrev pub Keeps {ℓ} : {E S A : Type ℓ} → (S → Type 0) → Outcome E S A → Type 0
Keeps P (done a s) = P s
Keeps P (fail e s) = P s
Keeps P (panic x) = Unit {0}
Keeps P running = Unit {0}

module _ {ℓ} {E S A B : Type ℓ} where
  pub Keeps-and_then :
      {P : S → Type 0} (r : Outcome E S A) (f : A → Op E S B)
      → Keeps P r
      → ((a : A) (s : S) → P s → Keeps P (f a s))
      → Keeps P (and_then r f)
  Keeps-and_then (done a s) f h next = next a s h
  Keeps-and_then (fail e s) f h next = h
  Keeps-and_then (panic x) f h next = tt
  Keeps-and_then running f h next = tt

module _ {E S A : Type 0} where
  -- What each state that satisfies `P` satisfies is kept as well.
  pub Keeps-weaken :
      {P Q : S → Type 0} (r : Outcome E S A) → ((s : S) → P s → Q s) → Keeps P r → Keeps Q r
  Keeps-weaken (done a s) f h = f s h
  Keeps-weaken (fail e s) f h = f s h
  Keeps-weaken (panic x) f h = tt
  Keeps-weaken running f h = tt

  pub Keeps-all :
      {I : Type 0} (P : I → S → Type 0) (r : Outcome E S A)
      → ((i : I) → Keeps (P i) r)
      → Keeps (λ s. (i : I) → P i s) r
  Keeps-all P (done a s) h = h
  Keeps-all P (fail e s) h = h
  Keeps-all P (panic x) h = tt
  Keeps-all P running h = tt

-- A call that returned a value after another: the first returned one.
module _ {ℓ} {E S A B : Type ℓ} where
  pub and_then-done :
      (r : Outcome E S A) (f : A → Op E S B) (b : B) (s : S)
      → and_then r f ≡ done b s
      → (a : A) × (s' : S) × (r ≡ done a s') × (f a s' ≡ done b s)
  and_then-done (done a s') f b s h = (a, s', refl, h)
  and_then-done (fail e s') f b s h = absurd (ground arith)
  and_then-done (panic x) f b s h = absurd (ground arith)
  and_then-done running f b s h = absurd (ground arith)
