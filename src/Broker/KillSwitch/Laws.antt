-- ===== src/Broker/KillSwitch/Laws.antt =====
-- The kill switch after it is activated and deactivated.
use agent_trading_guardrails.Base.{
  ℕ, String, ◌==◌, eq_iff, eq_refl, ◌≡◌, ◌≢◌, refl, ap, ◌↔◌, ◌⊎◌, Bool, true, ◌||◌, not, ◌&&◌, List,
  [], ◌∷◌, arith,
}
use Prim.Native.Char.{Char, code}
use Prim.Native.String.{◌++◌}
use text.Mathlib.TextLemmas.{cons-append, append_cancel_left, append_cancel_right}
use agent_trading_guardrails.Js.Text.{template}
use agent_trading_guardrails.Broker.Types.{KillSwitchScope, global, agent, account, exchange, chain}
use agent_trading_guardrails.Broker.KillSwitch.{
  KillSwitch, key, has, add, delete, is_active, activate, deactivate,
}

has-add : (k j : String) (js : List String) → has j (add k js) ≡ (k == j || has j js)
unfolding add has
has-add k j js = ground (arith, eq_iff k j)

has-delete : (k j : String) (js : List String) → has j (delete k js) ≡ (not (k == j) && has j js)
unfolding delete has
has-delete k j [] = ground arith
has-delete k j (i ∷ is) = ground (arith, eq_iff i k, eq_iff i j, eq_iff k j, has-delete k j is)

-- However the audit ends: a scope is blocked after an activation exactly when it was blocked before
-- or the activation is of the global scope or has the same key.
pub is_active-activate :
    (audit_accepts : Bool) (scope other : KillSwitchScope) (s : KillSwitch)
    → is_active other (activate audit_accepts scope s).1
      ≡ (key scope == "global" || key scope == key other || is_active other s)
unfolding is_active activate
is_active-activate audit_accepts scope other s =
    ground (arith, has-add (key scope) "global" s.active, has-add (key scope) (key other) s.active)

-- The second character tells the five kinds of keys apart.
abbrev second : String → ℕ
second (String.◌∷◌ c (String.◌∷◌ d s)) = code d
second _ = 0

second-append : (c d : Char) (s t : String) → second (String.◌∷◌ c (String.◌∷◌ d s) ++ t) ≡ code d
second-append c d s t = rw cons-append (rw cons-append refl)

abbrev letter : KillSwitchScope → ℕ
letter global = b'l'
letter (agent p) = b'g'
letter (account a) = b'c'
letter (exchange e) = b'x'
letter (chain c) = b'h'

second-key : (a : KillSwitchScope) → second (key a) ≡ letter a
unfolding key template
second-key global = refl
second-key (agent p) = second-append _ _ _ (p ++ "")
second-key (account a) = second-append _ _ _ (a ++ "")
second-key (exchange e) = second-append _ _ _ (e ++ "")
second-key (chain c) = second-append _ _ _ (c ++ "")

tag_cancel : (tag p q : String) → tag ++ (p ++ "") ≡ tag ++ (q ++ "") → p ≡ q
tag_cancel tag p q h = append_cancel_right p q "" (append_cancel_left tag (p ++ "") (q ++ "") h)

pub key_injective : (a b : KillSwitchScope) → key a ≡ key b → a ≡ b
unfolding key template
key_injective (agent p) (agent q) h = ap agent (tag_cancel "agent:" p q h)
key_injective (account p) (account q) h = ap account (tag_cancel "account:" p q h)
key_injective (exchange p) (exchange q) h = ap exchange (tag_cancel "exchange:" p q h)
key_injective (chain p) (chain q) h = ap chain (tag_cancel "chain:" p q h)
key_injective global global h = refl
key_injective a b h = absurd (omega (arith, second-key a, second-key b, ap second h))

key-global : key global ≡ "global"
unfolding key
key-global = refl

pub key_iff : (a b : KillSwitchScope) → ((key a == key b) ≡ true) ↔ (a ≡ b)
key_iff a b = (λ h. key_injective a b ((eq_iff (key a) (key b)).0 h), λ e. rw e (eq_refl (key b)))

-- However the audit of an activation ends, another scope is blocked afterwards exactly when it was
-- blocked before, or it is the scope that was activated, or that scope is the global one.
activate-blocks :
    (audit_accepts : Bool) (scope other : KillSwitchScope) (s : KillSwitch)
    → (is_active other (activate audit_accepts scope s).1 ≡ true)
      ↔ ((scope ≡ global) ⊎ (scope ≡ other) ⊎ (is_active other s ≡ true))
activate-blocks audit_accepts scope other s = (
  λ h. ground (
    arith,
    is_active-activate audit_accepts scope other s,
    key-global,
    key_iff scope global,
    key_iff scope other,
  ),
  λ h. ground (
    arith,
    is_active-activate audit_accepts scope other s,
    key-global,
    key_iff scope global,
    key_iff scope other,
  ),
)

-- After a deactivation a scope is blocked exactly when its own key or the global one was active and
-- is not the one that was taken off.
deactivate-blocks :
    (scope other : KillSwitchScope) (s : KillSwitch)
    → (is_active other (deactivate scope s) ≡ true) ↔ (
        ((has (key global) s.active ≡ true) × (scope ≢ global))
        ⊎ ((has (key other) s.active ≡ true) × (scope ≢ other)))
unfolding is_active deactivate
deactivate-blocks scope other s = (
  λ h. ground (
    arith,
    has-delete (key scope) "global" s.active,
    has-delete (key scope) (key other) s.active,
    key-global,
    key_iff scope global,
    key_iff scope other,
  ),
  λ h. ground (
    arith,
    has-delete (key scope) "global" s.active,
    has-delete (key scope) (key other) s.active,
    key-global,
    key_iff scope global,
    key_iff scope other,
  ),
)

-- However the audit of an activation ends, a scope is blocked afterwards exactly when it was blocked
-- before, or it is the scope that was activated, or that scope is the global one. After a deactivation
-- a scope is blocked exactly when its own key or the global one was active and is not the one that was
-- taken off.
pub switch-blocks :
    (audit_accepts : Bool) (scope other : KillSwitchScope) (s : KillSwitch)
    → ((is_active other (activate audit_accepts scope s).1 ≡ true)
        ↔ ((scope ≡ global) ⊎ (scope ≡ other) ⊎ (is_active other s ≡ true)))
      × ((is_active other (deactivate scope s) ≡ true) ↔ (
          ((has (key global) s.active ≡ true) × (scope ≢ global))
          ⊎ ((has (key other) s.active ≡ true) × (scope ≢ other))))
switch-blocks audit_accepts scope other s =
    (activate-blocks audit_accepts scope other s, deactivate-blocks scope other s)
