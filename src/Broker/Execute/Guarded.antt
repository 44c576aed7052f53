-- ===== src/Broker/Execute/Guarded.antt =====
-- What a trace says of the kill switch: the connector is called only after the switch was read for
-- every scope of the intent, with nothing else done since, unless the approval was used up.
use agent_trading_guardrails.Base.{
  String, ◌≡◌, refl, ◌⊎◌, Bool, true, false, ◌&&◌, not, Option, some, List, [], ◌∷◌, if◌then◌else◌,
}
use agent_trading_guardrails.Schemas.{TradingIntent, is_cancel_order}
use agent_trading_guardrails.Broker.Types.{KillSwitchScope}
use agent_trading_guardrails.Broker.Host.{Host, Reading, says, not_boolean, unreadable}
use agent_trading_guardrails.Broker.World.{
  World, Effect, wrote, read_switch, asked_revalidation, consumed, called_connector, acted, Outcome,
  returned, threw, continue, pure, throw, ask, log, ◌>>=◌,
}
use agent_trading_guardrails.Broker.World.Rules.{IsQuiet, IsStable}
use agent_trading_guardrails.Broker.Preflight.{
  get_kill_switch_scopes, blocking, read_kill_switch_blocking, first_blocking,
}
use agent_trading_guardrails.Broker.Execute.Phases.{Leads, EndsStage, bind-Leads}

-- Newest first.
abbrev pub newest_first : {A : Type 0} → List A → List A → List A
newest_first [] done = done
newest_first (x ∷ xs) done = newest_first xs (x ∷ done)

module _ {N : Type 0} (intent : TradingIntent N) where
  -- A reading that does not block this intent: the switch says a Boolean, and it is not active or the
  -- intent is a cancellation.
  abbrev pub IsClear : Reading → Type 0
  IsClear (says active) = (active && not (is_cancel_order intent)) ≡ false
  IsClear _ = ⊥

  -- The trace begins with clear readings of these scopes.
  abbrev pub AllRead : List KillSwitchScope → List (Effect N) → Type 0
  AllRead [] trace = Unit
  AllRead (scope ∷ scopes) (read_switch s reading ∷ trace) =
      (s ≡ scope) × IsClear reading × AllRead scopes trace
  AllRead (scope ∷ scopes) _ = ⊥

  abbrev pub scopes_read : List KillSwitchScope
  scopes_read = newest_first (get_kill_switch_scopes intent) []

  -- The trace begins with the clear readings of all scopes, but for the use of an approval.
  abbrev pub IsCleared : List (Effect N) → Type 0
  IsCleared trace =
      AllRead scopes_read trace
      ⊎ ((id : String) × (earlier : List (Effect N)) × (trace ≡ consumed id ∷ earlier)
          × AllRead scopes_read earlier)

module _ {N : Type 0} where
  -- Before each call of the connector the trace is cleared for its intent.
  abbrev pub Guarded : List (Effect N) → Type 0
  Guarded [] = Unit
  Guarded (called_connector key intent ∷ trace) = IsCleared intent trace × Guarded trace
  Guarded (e ∷ trace) = Guarded trace

  Guarded-quiet :
      (e : Effect N) (trace : List (Effect N)) → IsQuiet e → Guarded trace → Guarded (e ∷ trace)
  Guarded-quiet (called_connector key intent) trace q g = absurd q
  Guarded-quiet (wrote event) trace q g = g
  Guarded-quiet (read_switch scope reading) trace q g = g
  Guarded-quiet (asked_revalidation intent) trace q g = g
  Guarded-quiet (consumed id) trace q g = g
  Guarded-quiet (acted intent) trace q g = g

module _ {N S : Type 0} where
  abbrev pub IsGuarded : World N S → Type 0
  IsGuarded w = Guarded w.trace

  pub IsGuarded-IsStable : (key : String) → IsStable IsGuarded key
  IsGuarded-IsStable key = record {
    hosted = λ w s g. g;
    logged = λ w e q g. Guarded-quiet e w.trace q g;
    updated = λ w c a g. g;
  }

module _ {N S : Type 0} (host : Host N S) (intent : TradingIntent N) where
  abbrev pub HasRead : List KillSwitchScope → World N S → Type 0
  HasRead scopes w = AllRead intent scopes w.trace × Guarded w.trace

  -- After a reading that does not block, the scope is added to those that were read.
  abbrev EndsReading : KillSwitchScope → List KillSwitchScope → Outcome Bool → World N S → Type 0
  EndsReading scope done (returned false) w = HasRead (scope ∷ done) w
  EndsReading scope done _ w = IsGuarded w

  says-ends :
      (scope : KillSwitchScope) (done : List KillSwitchScope) (blocked : Bool) (w : World N S)
      → (blocked ≡ false → HasRead (scope ∷ done) w)
      → IsGuarded w
      → EndsReading scope done (returned blocked) w
  says-ends scope done true w h g = g
  says-ends scope done false w h g = h refl

  abbrev read : KillSwitchScope → Reading → World N S → World N S
  read scope reading w = record w { trace = read_switch scope reading ∷ w.trace }

  reading-ends :
      (scope : KillSwitchScope) (done : List KillSwitchScope) (reading : Reading) (w : World N S)
      → HasRead done w
      → EndsReading scope done
          (blocking host intent reading (read scope reading w)).0
          (blocking host intent reading (read scope reading w)).1
  unfolding pure throw
  reading-ends scope done (says active) w h =
      says-ends scope done (active && not (is_cancel_order intent)) (read scope (says active) w)
        (λ clear. ((refl, clear, h.0), h.1)) h.1
  reading-ends scope done not_boolean w h = h.1
  reading-ends scope done unreadable w h = h.1

  read-ends :
      (scope : KillSwitchScope) (done : List KillSwitchScope)
      → Leads (HasRead done) (read_kill_switch_blocking host scope intent) (EndsReading scope done)
  unfolding read_kill_switch_blocking ◌>>=◌ ask log
  read-ends scope done = record {
    leads = λ w h.
        reading-ends scope done (host.is_active scope w.host).0
          (record w { host = (host.is_active scope w.host).1 }) h;
  }

  abbrev pub EndsReadings :
      List KillSwitchScope → Outcome (Option KillSwitchScope) → World N S → Type 0
  EndsReadings scopes = EndsStage (HasRead scopes) IsGuarded

  next-ends :
      (scope : KillSwitchScope) (scopes done : List KillSwitchScope)
      → Leads
          (HasRead (scope ∷ done))
          (first_blocking host intent scopes)
          (EndsReadings (newest_first scopes (scope ∷ done)))
      → (o : Outcome Bool) (w : World N S) → EndsReading scope done o w
      → EndsReadings
          (newest_first scopes (scope ∷ done))
          (continue o
            (λ blocked. if blocked then pure (some scope) else first_blocking host intent scopes)
            w).0
          (continue o
            (λ blocked. if blocked then pure (some scope) else first_blocking host intent scopes)
            w).1
  unfolding pure
  next-ends scope scopes done rest (returned true) w g = g
  next-ends scope scopes done rest (returned false) w h = rest.leads w h
  next-ends scope scopes done rest (threw fault) w g = g

  pub first_blocking-ends :
      (scopes done : List KillSwitchScope)
      → Leads
          (HasRead done)
          (first_blocking host intent scopes)
          (EndsReadings (newest_first scopes done))
  unfolding first_blocking pure
  first_blocking-ends [] done = record { leads = λ w h. h }
  first_blocking-ends (scope ∷ scopes) done =
      bind-Leads _ _ (read-ends scope done)
        (next-ends scope scopes done (first_blocking-ends scopes (scope ∷ done)))
