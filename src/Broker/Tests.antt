-- ===== src/Broker/Tests.antt =====
-- The theorems on the idempotency store and the kill switch at small concrete stores.
use agent_trading_guardrails.Base.{
  ℕ, String, ◌≡◌, ◌≢◌, refl, ◌↔◌, ◌⊎◌, true, false, none, some, [], ◌∷◌, get_elem?, List, length,
}
use agent_trading_guardrails.Base.Dict.{get, put}
use agent_trading_guardrails.Broker.Types.{global, agent, account}
use agent_trading_guardrails.Broker.KillSwitch.{
  KillSwitch, key, has, is_active, activate, deactivate,
}
use agent_trading_guardrails.Broker.KillSwitch.Laws.{switch-blocks}
use agent_trading_guardrails.Broker.Idempotency.{
  resolved, rejected, Store, conflict, reserved, known, waiting, empty, begin, complete,
  complete_audit, fail_audit, abort,
}
use agent_trading_guardrails.Broker.Idempotency.Laws.{
  Call, complete_audit_call, fail_audit_call, complete_call, abort_call, begin_call, perform_all,
  Records, result_permanent, reserved_once,
}
use agent_trading_guardrails.Broker.Idempotency.Life.{running, life_all, outcome, Replies}
use agent_trading_guardrails.Broker.Idempotency.Refinement.{reservation_refines}

-- A store whose results and errors are texts, and whose audit events are numbers.
abbrev TextStore : Type 0
TextStore = Store String ℕ String

-- The key "k" is reserved for the payload "h".
abbrev opened : TextStore
opened = (begin "k" "h" empty).1

-- The result "done" is recorded with the event 7.
abbrev recorded : TextStore
recorded = complete "k" "h" "done" (some 7) opened

-- The key is reserved, completed with the event 7, whose writing fails at first.
abbrev audited_twice : List (Call String ℕ String)
audited_twice =
    complete_call "k" "h" "done" (some 7)
    ∷ fail_audit_call "k" "h" "disk full"
    ∷ complete_audit_call "k" "h"
    ∷ []

abbrev other_first : List (Call String ℕ String)
other_first = begin_call "j" "h" ∷ []

k_reserved : (begin "k" "h" (perform_all empty other_first)).0 ≡ reserved
unfolding get begin perform_all agent_trading_guardrails.Broker.Idempotency.Laws.perform put
k_reserved = refl

reservation_refines_example :
    (get_elem?
        (perform_all (begin "k" "h" (perform_all empty other_first)).1 audited_twice).promises
        (length (perform_all empty other_first).promises)
      ≡ some (outcome (life_all "k" "h" running audited_twice)))
    × Replies
        (length (perform_all empty other_first).promises)
        (life_all "k" "h" running audited_twice)
        (begin "k" "h"
          (perform_all (begin "k" "h" (perform_all empty other_first)).1 audited_twice)).0
reservation_refines_example = reservation_refines "k" "h" other_first audited_twice k_reserved

result_permanent_example :
    Records "k" "h" "done"
      (perform_all recorded (abort_call "k" "h" "late" ∷ complete_call "k" "h" "other" none ∷ []))
unfolding get put begin complete
result_permanent_example =
    result_permanent "k" "h" "done" recorded
      (abort_call "k" "h" "late" ∷ complete_call "k" "h" "other" none ∷ []) (refl, refl)

reserved_once_example :
    (begin "k" "g"
      (perform_all opened (begin_call "k" "h" ∷ complete_call "k" "h" "done" none ∷ []))).0
    ≢ reserved
reserved_once_example =
    reserved_once "k" "h" "g" (empty {R = String} {A = ℕ} {E = String})
      (begin_call "k" "h" ∷ complete_call "k" "h" "done" none ∷ []) (tt, (tt, tt))

abbrev stopped : KillSwitch
stopped = record { active = "agent:a" ∷ "global" ∷ [] }

switch-blocks_example :
    ((is_active (agent "a") (activate false (account "s") stopped).1 ≡ true) ↔ (
      (account "s" ≡ global) ⊎ (account "s" ≡ agent "a") ⊎ (is_active (agent "a") stopped ≡ true)))
    × ((is_active (agent "a") (deactivate (account "s") stopped) ≡ true) ↔ (
        ((has (key global) stopped.active ≡ true) × (account "s" ≢ global))
        ⊎ ((has (key (agent "a")) stopped.active ≡ true) × (account "s" ≢ agent "a"))))
switch-blocks_example = switch-blocks false (account "s") (agent "a") stopped
