-- ===== src/Broker/Execute/Phases.antt =====
-- The phases of an execution that holds a reservation: what holds while it may still call the
-- connector, once it has ended without a call, and after the call.
use agent_trading_guardrails.Base.{
  String, Bool, true, false, Option, none, some, ◌∷◌, if◌then◌else◌,
}
use agent_trading_guardrails.Schemas.{TradingIntent}
use agent_trading_guardrails.Broker.Idempotency
use agent_trading_guardrails.Broker.World.{
  World, M, Fault, called_connector, Outcome, returned, threw, pure, continue, ◌>>=◌,
}
use agent_trading_guardrails.Broker.World.Rules.{IsStable, Keeps}

module _ (N S : Type 0) (key own : String) where
  pub record Phases : Type 1 where
    pub Before : World N S → Type 0
    pub Ended : World N S → Type 0
    pub After : World N S → Type 0
    pub before-IsStable : IsStable Before key
    pub ended-IsStable : IsStable Ended key
    pub after-IsStable : IsStable After key
    pub ends : (w : World N S) → Before w → Ended w
    pub aborts :
        (hash : String) (fault : Fault) (w : World N S)
        → Ended w
        → Ended (record w { idempotency = Idempotency.abort own hash fault w.idempotency })
    pub calls :
        (intent : TradingIntent N) (w : World N S)
        → Before w
        → After (record w { trace = called_connector own intent ∷ w.trace })

module _ {N S A : Type 0} where
  -- From a world with `P`, the action leads to an outcome and a world with `F`.
  pub record Leads (P : World N S → Type 0) (m : M N S A) (F : Outcome A → World N S → Type 0)
      : Type 0 where
    pub leads : (w : World N S) → P w → F (m w).0 (m w).1

module _ {N S A B : Type 0} {P : World N S → Type 0} {F : Outcome A → World N S → Type 0}
    {G : Outcome B → World N S → Type 0} where
  pub bind-Leads :
      (m : M N S A) (f : A → M N S B)
      → Leads P m F
      → ((o : Outcome A) (w : World N S) → F o w → G (continue o f w).0 (continue o f w).1)
      → Leads P (m >>= f) G
  unfolding ◌>>=◌
  bind-Leads m f h k = record { leads = λ w p. k (m w).0 (m w).1 (h.leads w p) }

module _ {N S A : Type 0} (P Q : World N S → Type 0) where
  -- A stage goes on in a world with `P`, and ends the execution in one with `Q`.
  abbrev pub EndsStage : Outcome (Option A) → World N S → Type 0
  EndsStage (returned none) w = P w
  EndsStage _ w = Q w

  abbrev pub Stage : M N S (Option A) → Type 0
  Stage m = Leads P m EndsStage

-- An action that ends the execution, whatever a stage would go on with.
module _ {N S A : Type 0} (Q P : World N S → Type 0) where
  some-EndsStage :
      (o : Outcome A) (w : World N S)
      → Q w
      → EndsStage P Q (continue o (λ a. pure (some a)) w).0 (continue o (λ a. pure (some a)) w).1
  unfolding pure
  some-EndsStage (returned a) w q = q
  some-EndsStage (threw fault) w q = q

module _ {N S A : Type 0} {Q : World N S → Type 0} (P : World N S → Type 0) where
  pub ends-some : (m : M N S A) → Keeps Q m → Leads Q (m >>= λ a. pure (some a)) (EndsStage P Q)
  unfolding ◌>>=◌
  ends-some m h = record { leads = λ w q. some-EndsStage Q P (m w).0 (m w).1 (h.kept w q) }

  continue-EndsStage :
      {B : Type 0} (f : B → M N S (Option A))
      → ((b : B) → Leads Q (f b) (EndsStage P Q))
      → (o : Outcome B) (w : World N S) → Q w
      → EndsStage P Q (continue o f w).0 (continue o f w).1
  continue-EndsStage f h (returned b) w q = (h b).leads w q
  continue-EndsStage f h (threw fault) w q = q

  pub ends-bind :
      {B : Type 0} (m : M N S B) (f : B → M N S (Option A))
      → Keeps Q m
      → ((b : B) → Leads Q (f b) (EndsStage P Q))
      → Leads Q (m >>= f) (EndsStage P Q)
  unfolding ◌>>=◌
  ends-bind m f h k = record { leads = λ w q. continue-EndsStage f k (m w).0 (m w).1 (h.kept w q) }

  -- `if (test) go on; else end`
  pub unless_ended :
      (test : Bool) (m : M N S (Option A))
      → ((w : World N S) → P w → Q w)
      → Leads Q m (EndsStage P Q)
      → (w : World N S) → P w
      → EndsStage P Q ((if test then pure none else m) w).0 ((if test then pure none else m) w).1
  unfolding pure
  unless_ended true m ends h w p = p
  unless_ended false m ends h w p = h.leads w (ends w p)

module _ {N S A : Type 0} {P Q : World N S → Type 0} (ends : (w : World N S) → P w → Q w) where
  pub Stage-next : Stage {A = A} P Q (pure none)
  unfolding pure
  Stage-next = record { leads = λ w p. p }

  Stage-continue :
      {B : Type 0} (f : B → M N S (Option A))
      → ((b : B) → Stage P Q (f b))
      → (o : Outcome B) (w : World N S) → P w
      → EndsStage P Q (continue o f w).0 (continue o f w).1
  Stage-continue f h (returned b) w p = (h b).leads w p
  Stage-continue f h (threw fault) w p = ends w p

  pub Stage-bind :
      {B : Type 0} (m : M N S B) (f : B → M N S (Option A))
      → Keeps P m
      → ((b : B) → Stage P Q (f b))
      → Stage P Q (m >>= f)
  unfolding ◌>>=◌
  Stage-bind m f h k = record { leads = λ w p. Stage-continue f k (m w).0 (m w).1 (h.kept w p) }

  pub Stage-end : (m : M N S A) → Keeps Q m → Stage P Q (m >>= λ a. pure (some a))
  Stage-end m h = record { leads = λ w p. (ends-some P m h).leads w (ends w p) }

  pub Stage-if :
      (test : Bool) (m n : M N S (Option A))
      → Stage P Q m
      → Stage P Q n
      → Stage P Q (if test then m else n)
  Stage-if true m n h k = h
  Stage-if false m n h k = k
