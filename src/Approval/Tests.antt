-- ===== src/Approval/Tests.antt =====
-- The approval store with one request, which is approved and consumed.
use agent_trading_guardrails.Base.{String, ◌≡◌, refl, true, some, [], ◌∷◌}
use agent_trading_guardrails.Base.Int.{pos}
use agent_trading_guardrails.Base.Dict
use agent_trading_guardrails.Base.Dict.{get, put}
use agent_trading_guardrails.Js.Grid.{Grid, whole, grid_number}
use agent_trading_guardrails.Schemas.{paper}
use agent_trading_guardrails.Schemas.Json.{no_fields}
use agent_trading_guardrails.Broker.Keys.{units, units_le, key_le}
use agent_trading_guardrails.Approval.Types.{ApprovalRequest, one_time, pending, consumed}
use agent_trading_guardrails.Approval.Store.{
  ApprovalStore, saved, refused, create, approve, consume_one_time,
}
use agent_trading_guardrails.Approval.Store.Laws.{
  IsKeyed, expires, denies, operate_all, create-IsKeyed, approve-IsKeyed,
}
use agent_trading_guardrails.Approval.Store.Once.{settled_permanent, consumed_once, consume-IsKeyed}

abbrev request : ApprovalRequest Grid
request = record {
  approval_id = "a-1";
  intent_id = "i-1";
  correlation_id = "c-1";
  principal = "agent-1";
  action = "cex.place_order";
  resource = "cex:binance:sub-1:ETH-USDC";
  environment = paper;
  escalation_reason = "size";
  approval_type = one_time;
  intent_data = no_fields;
  created_at = "2026-01-01";
  timeout_at = "2026-01-03";
  state = pending;
}

-- Each date is at 3 on the clock that counts.
abbrev parse : String → Grid
parse text = whole (pos 3)

abbrev no_requests : ApprovalStore Grid
no_requests = record { requests = [] }

no_requests-IsKeyed : IsKeyed no_requests
unfolding get
no_requests-IsKeyed id found q = cc q

abbrev decided : ApprovalStore Grid
decided = (approve true true "a-1" "alice" "2026-01-02" (create request no_requests).1).1

decided-IsKeyed : IsKeyed decided
decided-IsKeyed =
    approve-IsKeyed (create request no_requests).1
      (create-IsKeyed no_requests no_requests-IsKeyed request) true true "a-1" "alice" "2026-01-02"

abbrev used : ApprovalRequest Grid
used = record request { state = consumed "2026-01-02" "alice" }

decided-consumes : (consume_one_time parse "a-1" (whole (pos 2)) decided).0 ≡ saved used
unfolding consume_one_time create approve get put units units_le key_le
decided-consumes = refl

consumed_once_example :
    (consume_one_time parse "a-1" (whole (pos 2)) (
      operate_all parse
        (consume_one_time parse "a-1" (whole (pos 2)) decided).1
        (expires true "a-1" "2026-01-04" ∷ []))).0
    ≡ refused
consumed_once_example =
    consumed_once parse "a-1" (whole (pos 2)) (whole (pos 2)) decided used
      (expires true "a-1" "2026-01-04" ∷ []) decided-IsKeyed decided-consumes

settled_permanent_example :
    Dict.get "a-1"
      (operate_all parse
        (consume_one_time parse "a-1" (whole (pos 2)) decided).1
        (denies true "a-1" "bob" "2026-01-02" ∷ [])).requests
    ≡ some used
unfolding consume_one_time create approve get put units units_le key_le
settled_permanent_example =
    settled_permanent parse "a-1" used (consume_one_time parse "a-1" (whole (pos 2)) decided).1
      (denies true "a-1" "bob" "2026-01-02" ∷ [])
      (consume-IsKeyed parse decided decided-IsKeyed "a-1" (whole (pos 2))) refl tt
