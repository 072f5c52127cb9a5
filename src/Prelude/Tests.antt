-- ===== src/Prelude/Tests.antt =====
-- Boolean tests, the conditional, and equality as an interface (Rust's `PartialEq` and `PartialEq`).
use Prim.Native.Nat.{ℕ, compare, Ordering}
use mathlib.Core.Path.{◌≡◌, refl}
use mathlib.Core.Logic.{◌↔◌, ◌⊎◌, inl, inr}
use mathlib.Core.Bool.{Bool, true, false, ◌&&◌}
use mathlib.Core.Option.{Option, none, some}
use native.Mathlib.Omega.{arith}

abbrev pub ltb : ℕ → ℕ → Bool
ltb a b = elim (compare a b) [ Ordering.lt ↦ true | _ ↦ false ]

abbrev pub leb : ℕ → ℕ → Bool
leb a b = elim (compare a b) [ Ordering.gt ↦ false | _ ↦ true ]

abbrev pub nat_beq : ℕ → ℕ → Bool
nat_beq a b = elim (compare a b) [ Ordering.eq ↦ true | _ ↦ false ]

infix 1 if◌then◌else◌
abbrev pub if◌then◌else◌ {ℓ} : {A : Type ℓ} → Bool → A → A → A
if true then x else y = x
if false then x else y = y

pub nat_beq_iff : (a b : ℕ) → (nat_beq a b ≡ true) ↔ (a ≡ b)
nat_beq_iff a b = ground arith

pub Bool-cases : (b : Bool) → (b ≡ true) ⊎ (b ≡ false)
Bool-cases true = inl refl
Bool-cases false = inr refl

pub Option-cases {ℓ} : {A : Type ℓ} (o : Option A) → (o ≡ none) ⊎ ((a : A) × (o ≡ some a))
Option-cases none = inl refl
Option-cases (some a) = inr (a, refl)

-- Rust's `PartialEq`, for types where it is equality: the test and its law.
pub record PartialEq {ℓ} (K : Type ℓ) : Type ℓ where
  pub eq : K → K → Bool
  pub eq_iff : (x y : K) → (eq x y ≡ true) ↔ (x ≡ y)

instance abbrev pub nat_partial_eq : PartialEq ℕ
nat_partial_eq = record { eq_iff = nat_beq_iff; eq = nat_beq }

infix 50 ◌==◌
abbrev pub ◌==◌ {ℓ} : {K : Type ℓ} ⦃d : PartialEq K⦄ → K → K → Bool
◌==◌ ⦃d⦄ x y = d.eq x y

-- 1 for true, 0 for false: what a test adds to a count.
abbrev pub to_nat : Bool → ℕ
to_nat true = 1
to_nat false = 0

pub pair_eq_iff {ℓ κ} :
    {A : Type ℓ} {B : Type κ} ⦃d : PartialEq A⦄ ⦃e : PartialEq B⦄ (p q : A × B)
    → ((p.0 == q.0 && p.1 == q.1) ≡ true) ↔ (p ≡ q)
pair_eq_iff ⦃d⦄ ⦃e⦄ p q = ground (arith, d.eq_iff p.0 q.0, e.eq_iff p.1 q.1)

instance abbrev pub pair_partial_eq {ℓ κ} :
    {A : Type ℓ} {B : Type κ} ⦃d : PartialEq A⦄ ⦃e : PartialEq B⦄ → PartialEq (A × B)
pair_partial_eq = record { eq = λ p q. p.0 == q.0 && p.1 == q.1; eq_iff = pair_eq_iff }

pub unit_eq_iff : (x y : Unit {0}) → (true ≡ true) ↔ (x ≡ y)
unit_eq_iff x y = (λ h. refl, λ h. refl)

instance abbrev pub unit_partial_eq : PartialEq (Unit {0})
unit_partial_eq = record { eq = λ x y. true; eq_iff = unit_eq_iff }
