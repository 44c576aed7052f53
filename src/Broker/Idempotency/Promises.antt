-- ===== src/Broker/Idempotency/Promises.antt =====
-- The promises of the in-memory store: `settle`, and the cells of a list.
use agent_trading_guardrails.Base.{
  ℕ, zero, suc, ◌≡◌, ◌≢◌, refl, some, List, [], ◌∷◌, ◌++◌, length, get_elem?, arith,
}
use agent_trading_guardrails.Broker.Idempotency.{Promise, unsettled, resolved, rejected, settle}

module _ {R E : Type 0} (p : Promise R E) where
  pub settle_unsettled :
      (i : ℕ) (ps : List (Promise R E))
      → get_elem? ps i ≡ some unsettled
      → get_elem? (settle i p ps) i ≡ some p
  unfolding settle
  settle_unsettled i [] h = cc
  settle_unsettled zero (unsettled ∷ ps) h = refl
  settle_unsettled zero (resolved r ∷ ps) h = cc
  settle_unsettled zero (rejected e ∷ ps) h = cc
  settle_unsettled (suc i) (q ∷ ps) h = settle_unsettled i ps h

  pub settle_other :
      (j i : ℕ) (ps : List (Promise R E)) → j ≢ i → get_elem? (settle j p ps) i ≡ get_elem? ps i
  unfolding settle
  settle_other j i [] ne = refl
  settle_other zero zero (q ∷ ps) ne = absurd (ne refl)
  settle_other zero (suc i) (unsettled ∷ ps) ne = refl
  settle_other zero (suc i) (resolved r ∷ ps) ne = refl
  settle_other zero (suc i) (rejected e ∷ ps) ne = refl
  settle_other (suc j) zero (q ∷ ps) ne = refl
  settle_other (suc j) (suc i) (q ∷ ps) ne = settle_other j i ps (λ h. ne (omega (arith, h)))

  -- A promise that is settled stays as it is.
  pub settle_resolved :
      (j i : ℕ) (r : R) (ps : List (Promise R E))
      → get_elem? ps i ≡ some (resolved r)
      → get_elem? (settle j p ps) i ≡ some (resolved r)
  unfolding settle
  settle_resolved j i r [] h = h
  settle_resolved zero zero r (unsettled ∷ ps) h = cc
  settle_resolved zero zero r (resolved q ∷ ps) h = h
  settle_resolved zero zero r (rejected e ∷ ps) h = h
  settle_resolved zero (suc i) r (unsettled ∷ ps) h = h
  settle_resolved zero (suc i) r (resolved q ∷ ps) h = h
  settle_resolved zero (suc i) r (rejected e ∷ ps) h = h
  settle_resolved (suc j) zero r (q ∷ ps) h = h
  settle_resolved (suc j) (suc i) r (q ∷ ps) h = settle_resolved j i r ps h

  pub settle_rejected :
      (j i : ℕ) (e : E) (ps : List (Promise R E))
      → get_elem? ps i ≡ some (rejected e)
      → get_elem? (settle j p ps) i ≡ some (rejected e)
  unfolding settle
  settle_rejected j i e [] h = h
  settle_rejected zero zero e (unsettled ∷ ps) h = cc
  settle_rejected zero zero e (resolved q ∷ ps) h = h
  settle_rejected zero zero e (rejected f ∷ ps) h = h
  settle_rejected zero (suc i) e (unsettled ∷ ps) h = h
  settle_rejected zero (suc i) e (resolved q ∷ ps) h = h
  settle_rejected zero (suc i) e (rejected f ∷ ps) h = h
  settle_rejected (suc j) zero e (q ∷ ps) h = h
  settle_rejected (suc j) (suc i) e (q ∷ ps) h = settle_rejected j i e ps h

  pub length-settle : (j : ℕ) (ps : List (Promise R E)) → length (settle j p ps) ≡ length ps
  unfolding settle
  length-settle j [] = refl
  length-settle zero (unsettled ∷ ps) = refl
  length-settle zero (resolved r ∷ ps) = refl
  length-settle zero (rejected e ∷ ps) = refl
  length-settle (suc j) (q ∷ ps) = omega (arith, length-settle j ps)

module _ {A : Type 0} where
  pub get_elem?-append :
      (i : ℕ) (x y : A) (xs : List A)
      → get_elem? xs i ≡ some x
      → get_elem? (xs ++ y ∷ []) i ≡ some x
  get_elem?-append i x y [] h = cc
  get_elem?-append zero x y (z ∷ xs) h = h
  get_elem?-append (suc i) x y (z ∷ xs) h = get_elem?-append i x y xs h

  pub get_elem?_last : (y : A) (xs : List A) → get_elem? (xs ++ y ∷ []) (length xs) ≡ some y
  get_elem?_last y [] = refl
  get_elem?_last y (x ∷ xs) = get_elem?_last y xs

  pub length_snoc : (y : A) (xs : List A) → length (xs ++ y ∷ []) ≡ suc (length xs)
  length_snoc y [] = omega arith
  length_snoc y (x ∷ xs) = omega (arith, length_snoc y xs)
