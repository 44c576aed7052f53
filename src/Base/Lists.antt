-- ===== src/Base/Lists.antt =====
-- Lists: the loops that the program writes with `every`, `some` and `find`, and their laws.
use Prim.Native.Nat.{ℕ, zero, suc, ◌+◌}
use mathlib.Core.Path.{◌≡◌, refl}
use mathlib.Core.Logic.{◌↔◌}
use mathlib.Core.Bool.{Bool, true, ◌&&◌}
use mathlib.Core.Option.{Option, none, some}
use mathlib.Core.List.{List, [], ◌∷◌, ◌++◌}
use native.Mathlib.Omega.{arith}
use agent_trading_guardrails.Base.Tests.{if◌then◌else◌}

module _ {ℓ} {A : Type ℓ} where
  abbrev pub length : List A → ℕ
  length [] = 0
  length (x ∷ xs) = suc (length xs)

  -- xs.every(test)
  abbrev pub every : (A → Bool) → List A → Bool
  every test [] = true
  every test (x ∷ xs) = test x && every test xs

  -- xs.find(test)
  abbrev pub find : (A → Bool) → List A → Option A
  find test [] = none
  find test (x ∷ xs) = let rest = find test xs in if test x then some x else rest

  -- `P` of each element, by recursion, so that it computes to tuples.
  abbrev pub All {κ} : (A → Type κ) → List A → Type κ
  All P [] = Unit
  All P (x ∷ xs) = P x × All P xs

  pub length-append : (xs ys : List A) → length (xs ++ ys) ≡ length xs + length ys
  length-append [] ys = omega arith
  length-append (x ∷ xs) ys = omega (arith, length-append xs ys)

  pub every_iff :
      (test : A → Bool) (xs : List A) → (every test xs ≡ true) ↔ All (λ x. test x ≡ true) xs
  every_iff test [] = (λ h. tt, λ h. refl)
  every_iff test (x ∷ xs) = (
    λ h. (ground arith, (every_iff test xs).0 (ground arith)),
    λ h. ground (arith, (every_iff test xs).1 h.1),
  )

  pub every-append :
      (test : A → Bool) (xs ys : List A) → every test (xs ++ ys) ≡ (every test xs && every test ys)
  every-append test [] ys = refl
  every-append test (x ∷ xs) ys = ground (arith, every-append test xs ys)

  -- What `find` returns passes the test.
  pub find_passes : (test : A → Bool) (xs : List A) {x : A} → find test xs ≡ some x → test x ≡ true
  find_passes test [] h = ground arith
  find_passes test (y ∷ ys) {x} h = ground (arith, find_passes test ys {x = x})

module _ {ℓ} {A : Type ℓ} where
  abbrev pub get_elem? : List A → ℕ → Option A
  get_elem? [] i = none
  get_elem? (x ∷ xs) zero = some x
  get_elem? (x ∷ xs) (suc i) = get_elem? xs i
