-- ===== src/Prelude/HashMap.antt =====
-- std::collections::HashMap as an association list. A key that is inserted again is replaced; the
-- order of the entries is not observed.
use Prim.Native.Nat.{ℕ, ◌+◌, ◌≤◌, ◌<◌}
use mathlib.Core.Path.{◌≡◌, refl}
use mathlib.Core.Bool.{Bool, true, false}
use mathlib.Core.List.{List, [], ◌∷◌}
use mathlib.Core.Option.{Option, none, some}
use native.Mathlib.Omega.{arith}
use rustun.Prelude.Tests.{if◌then◌else◌, PartialEq, ◌==◌, to_nat}
use rustun.Prelude.Lists.{length}

abbrev pub HashMap {ℓ κ} : Type ℓ → Type κ → Type (ℓ ⊔ κ)
HashMap K V = List (K × V)

module _ {ℓ κ} {K : Type ℓ} {V : Type κ} where
  -- The number of the values that pass a test.
  abbrev pub count_values : (V → Bool) → HashMap K V → ℕ
  count_values p [] = 0
  count_values p ((k, v) ∷ m) = to_nat (p v) + count_values p m

module _ {ℓ κ} {K : Type ℓ} {V : Type κ} ⦃e : PartialEq K⦄ where
  abbrev pub get : K → HashMap K V → Option V
  get k [] = none
  get k ((j, v) ∷ m) = if j == k then some v else get k m

  abbrev pub contains_key : K → HashMap K V → Bool
  contains_key k m = elim (get k m) [ none ↦ false | some _ ↦ true ]

  abbrev pub remove : K → HashMap K V → HashMap K V
  remove k [] = []
  remove k ((j, v) ∷ m) = if j == k then remove k m else (j, v) ∷ remove k m

  unfoldable pub insert : K → V → HashMap K V → HashMap K V
  insert k v m = (k, v) ∷ remove k m

  pub get-remove :
      (k j : K) (m : HashMap K V) → get j (remove k m) ≡ (if k == j then none else get j m)
  get-remove k j [] = ground arith
  get-remove k j ((i, v) ∷ m) =
      ground (arith, e.eq_iff k j, e.eq_iff i k, e.eq_iff i j, get-remove k j m)

  pub get-insert :
      (k j : K) (v : V) (m : HashMap K V)
      → get j (insert k v m) ≡ (if k == j then some v else get j m)
  unfolding insert
  get-insert k j v m = ground (arith, get-remove k j m)

  -- No key stands twice.
  abbrev pub Unique : HashMap K V → Type 0
  Unique [] = Unit {0}
  Unique ((k, v) ∷ m) = (contains_key k m ≡ false) × Unique m

  pub remove-Unique : (k : K) (m : HashMap K V) → Unique m → Unique (remove k m)
  remove-Unique k [] u = tt
  remove-Unique k ((j, v) ∷ m) u =
      ground (arith, get-remove k j m, remove-Unique k m u.1, e.eq_iff j k, e.eq_iff k j)

  pub insert-Unique : (k : K) (v : V) (m : HashMap K V) → Unique m → Unique (insert k v m)
  unfolding insert
  insert-Unique k v m u = ground (arith, get-remove k k m, e.eq_iff k k, remove-Unique k m u)

  pub remove-none : (k : K) (m : HashMap K V) → get k m ≡ none → remove k m ≡ m
  remove-none k [] h = refl
  remove-none k ((j, v) ∷ m) h = ground (arith, remove-none k m)

  pub count_values-remove :
      (p : V → Bool) (k : K) (v : V) (m : HashMap K V)
      → Unique m
      → get k m ≡ some v
      → to_nat (p v) + count_values p (remove k m) ≡ count_values p m
  count_values-remove p k v [] u h = ground arith
  count_values-remove p k v ((j, w) ∷ m) u h =
      ground (arith, e.eq_iff j k, count_values-remove p k v m u.1, remove-none k m)

  pub count_values-insert :
      (p : V → Bool) (k : K) (v : V) (m : HashMap K V)
      → get k m ≡ none
      → count_values p (insert k v m) ≡ to_nat (p v) + count_values p m
  unfolding insert
  count_values-insert p k v m h = rw (remove-none k m h)

  pub length-remove-le : (k : K) (m : HashMap K V) → length (remove k m) ≤ length m
  length-remove-le k [] = omega arith
  length-remove-le k ((j, w) ∷ m) = ground (arith, length-remove-le k m)

  pub length-remove-lt :
      (k : K) (m : HashMap K V) → contains_key k m ≡ true → length (remove k m) < length m
  length-remove-lt k [] h = ground arith
  length-remove-lt k ((j, w) ∷ m) h = ground (arith, length-remove-lt k m, length-remove-le k m)
