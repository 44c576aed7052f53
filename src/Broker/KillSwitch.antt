-- ===== src/Broker/KillSwitch.antt =====
-- packages/broker/src/kill-switch.ts: `InMemoryKillSwitch`, as the set of its active keys.
pub mod Laws
use agent_trading_guardrails.Base.{
  String, ◌==◌, Bool, true, false, not, ◌||◌, List, [], ◌∷◌, if◌then◌else◌,
}
use agent_trading_guardrails.Js.Text.{template}
use agent_trading_guardrails.Broker.Types.{KillSwitchScope, global, agent, account, exchange, chain}

-- key(scope)
unfoldable pub key : KillSwitchScope → String
unfolding template
key global = "global"
key (agent principal) = template ("agent:" ∷ principal ∷ [])
key (account name) = template ("account:" ∷ name ∷ [])
key (exchange name) = template ("exchange:" ∷ name ∷ [])
key (chain name) = template ("chain:" ∷ name ∷ [])

-- `Set<string>`: `has`, `add` and `delete`.
unfoldable pub has : String → List String → Bool
has k [] = false
has k (j ∷ js) = j == k || has k js

unfoldable pub add : String → List String → List String
unfolding has
add k js = if has k js then js else k ∷ js

unfoldable pub delete : String → List String → List String
delete k [] = []
delete k (j ∷ js) = let rest = delete k js in if j == k then rest else j ∷ rest

pub record KillSwitch : Type 0 where
  pub active : List String

unfoldable pub is_active : KillSwitchScope → KillSwitch → Bool
unfolding key has
is_active scope s = if has "global" s.active then true else has (key scope) s.active

-- What `activate` ends in: an audit error is wrapped in `KillSwitchAuditError`.
pub data Activation : Type 0 where
  activated audit_failed : Activation

-- `audit_accepts` is whether the audit writer, if there is one, takes the event. The key is added
-- before the event is written, and stays if that fails.
unfoldable pub activate : Bool → KillSwitchScope → KillSwitch → Activation × KillSwitch
unfolding key add
activate audit_accepts scope s = (
  if audit_accepts then activated else audit_failed,
  record { active = add (key scope) s.active },
)

unfoldable pub deactivate : KillSwitchScope → KillSwitch → KillSwitch
unfolding key delete
deactivate scope s = record { active = delete (key scope) s.active }
