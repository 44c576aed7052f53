-- ===== src/Broker/DryRun/Laws.antt =====
-- The comparison of digests in packages/broker/src/dry-run.ts.
use agent_trading_guardrails.Base.{ℕ, String, ◌≡◌, refl, true, List, [], ◌∷◌, map, arith}
use agent_trading_guardrails.Js.Text.{codes}
use agent_trading_guardrails.Broker.DryRun.{same_digest, same_codes, to_lower}

same_codes_refl : (cs : List ℕ) → same_codes cs cs ≡ true
same_codes_refl [] = refl
same_codes_refl (c ∷ cs) = ground (arith, same_codes_refl cs)

pub same_digest_refl : (t : String) → same_digest t t ≡ true
unfolding same_digest
same_digest_refl t = same_codes_refl (map to_lower (codes t))
