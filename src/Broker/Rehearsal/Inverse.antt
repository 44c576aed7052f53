-- ===== src/Broker/Rehearsal/Inverse.antt =====
-- An action that returned: what its steps returned, and in which worlds.
use agent_trading_guardrails.Base.{◌≡◌, refl, ap, arith}
use mathlib.Core.Path.{subst}
use agent_trading_guardrails.Broker.World.{
  World, M, Outcome, returned, threw, continue, pure, catching, ◌>>=◌,
}

module _ {N S A B : Type 0} where
  abbrev Split : (M N S A) → (A → M N S B) → World N S → B → World N S → Type 0
  Split m f w b end =
      (a : A) × (v : World N S) × (m w ≡ (returned a, v)) × (f a v ≡ (returned b, end))

  split_continue :
      (f : A → M N S B) (p : Outcome A × World N S) (b : B) (end : World N S)
      → continue p.0 f p.1 ≡ (returned b, end)
      → (a : A) × (v : World N S) × (p ≡ (returned a, v)) × (f a v ≡ (returned b, end))
  split_continue f (returned a, v) b end h = (a, v, refl, h)
  split_continue f (threw fault, v) b end h = absurd (ground (arith, ap (λ p. p.0) h))

  -- A sequence of two actions that returned.
  pub bind_inverse :
      (m : M N S A) (f : A → M N S B) (w : World N S) {b : B} {end : World N S}
      → (m >>= f) w ≡ (returned b, end)
      → Split m f w b end
  unfolding ◌>>=◌
  bind_inverse m f w {b} {end} h = split_continue f (m w) b end h

module _ {N S A : Type 0} where
  pub pure_inverse :
      (a : A) (w : World N S) {b : A} {end : World N S}
      → pure a w ≡ (returned b, end)
      → (a ≡ b) × (w ≡ end)
  unfolding pure
  pure_inverse a w h = (ground (arith, ap (λ p. p.0) h), ap (λ p. p.1) h)

  pub catching_inverse :
      (m : M N S A) (w : World N S) {o : Outcome A} {end : World N S}
      → catching m w ≡ (returned o, end)
      → m w ≡ (o, end)
  unfolding catching
  catching_inverse m w {o} {end} h =
      λ i. (returned_injective {o = (m w).0} {p = o} (ap (λ p. p.0) h) i, (h i).1)
    where
      returned_injective : {o p : Outcome A} → returned o ≡ returned p → o ≡ p
      returned_injective h = ground (arith, h)

-- `Q` holds of what the action returns, if it returns.
pub record Returning {N S A : Type 0} (Q : A → Type 0) (m : M N S A) : Type 0 where
  pub returns : (w : World N S) {a : A} {end : World N S} → m w ≡ (returned a, end) → Q a

module _ {N S A : Type 0} {Q : A → Type 0} where
  pub pure-Returning : (a : A) → Q a → Returning {N = N} {S = S} Q (pure a)
  pure-Returning a q = record { returns = λ w h. subst Q (pure_inverse a w h).0 q }

module _ {N S A B : Type 0} {Q : B → Type 0} where
  pub bind-Returning :
      (m : M N S A) {f : A → M N S B} → ((a : A) → Returning Q (f a)) → Returning Q (m >>= f)
  bind-Returning m {f} next = record {
    returns = λ w h. let (a, v, first, rest) = bind_inverse m f w h in (next a).returns v rest;
  }
