-- ===== src/Approval/Store/Once.antt =====
-- An approval is consumed at most once, and what is settled stays so.
use agent_trading_guardrails.Base.{
  inl, inr, Option-cases, String, eq_iff, ◌≡◌, refl, Bool, true, false, ◌&&◌, not, some, List, [],
  ◌∷◌, arith,
}
use mathlib.Core.Path.{subst}
use agent_trading_guardrails.Base.Dict
use agent_trading_guardrails.Base.Dict.{get-put, get-remove}
use agent_trading_guardrails.Js.{JsNumber}
use agent_trading_guardrails.Approval.Types.{
  ApprovalState, pending, approved, denied, timeout, consumed, ApprovalRequest, is_one_time,
}
use agent_trading_guardrails.Approval.Store.{
  ApprovalStore, saved, refused, save, consume_state, consume_one_time,
}
use agent_trading_guardrails.Approval.Store.Laws.{
  IsSettled, Operation, creates, approves, denies, expires, consumes, operate, operate_all, IsKeyed,
  deny-settled, approve-settled, expire-settled, create-settled, consumed-settled, create-IsKeyed,
  approve-IsKeyed, deny-IsKeyed, expire-IsKeyed, consumed-IsKeyed,
}

module _ {N : Type 0} where
  refuses_settled :
      (may : Bool) (request : ApprovalRequest N) (s : ApprovalStore N) (state : ApprovalState)
      → IsSettled state
      → (consume_state may request s state).0 ≡ refused
  refuses_settled may request s pending t = absurd t
  refuses_settled may request s (approved at by) t = absurd t
  refuses_settled may request s (denied at by) t = refl
  refuses_settled may request s (timeout at) t = refl
  refuses_settled may request s (consumed at by) t = refl

module _ {N : Type 0} ⦃number : JsNumber N⦄ (date_parse : String → N) where
  pub consume-IsKeyed :
      (s : ApprovalStore N)
      → IsKeyed s
      → (id : String) (now : N) → IsKeyed (consume_one_time date_parse id now s).1
  unfolding consume_one_time
  consume-IsKeyed s keyed id now = elim (Option-cases (Dict.get id s.requests)) [
    | inl q ↦ λ i f h. ground (arith, q, keyed i f)
    | inr found ↦ λ i f h. ground (
      arith,
      found.1,
      consumed-IsKeyed s keyed
          (is_one_time found.0.approval_type && not (number.le (date_parse found.0.timeout_at) now))
          found.0 found.0.state i f,
    )
  ]

  pub operate-IsKeyed :
      (s : ApprovalStore N) (o : Operation N) → IsKeyed s → IsKeyed (operate date_parse s o)
  unfolding operate
  operate-IsKeyed s (creates request) k = create-IsKeyed s k request
  operate-IsKeyed s (approves audit_accepts onboards id by at) k =
      approve-IsKeyed s k audit_accepts onboards id by at
  operate-IsKeyed s (denies audit_accepts id by at) k = deny-IsKeyed s k audit_accepts id by at
  operate-IsKeyed s (expires audit_accepts id now) k = expire-IsKeyed s k audit_accepts id now
  operate-IsKeyed s (consumes id now) k = consume-IsKeyed s k id now

  consume-settled :
      (key : String) (r : ApprovalRequest N) (s : ApprovalStore N)
      → IsKeyed s
      → Dict.get key s.requests ≡ some r
      → IsSettled r.state
      → (id : String) (now : N)
      → Dict.get key (consume_one_time date_parse id now s).1.requests ≡ some r
  unfolding consume_one_time
  consume-settled key r s keyed stands settled id now =
      elim (Option-cases (Dict.get id s.requests)) [
        | inl q ↦ ground (arith, q, stands)
        | inr found ↦ ground (
          arith,
          found.1,
          consumed-settled key r s keyed stands settled
              (is_one_time found.0.approval_type
                && not (number.le (date_parse found.0.timeout_at) now))
              id found.0 found.0.state found.1 refl,
        )
      ]

  operate-settled :
      (key : String) (r : ApprovalRequest N) (s : ApprovalStore N) (o : Operation N)
      → IsKeyed s
      → Dict.get key s.requests ≡ some r
      → IsSettled r.state
      → Dict.get key (operate date_parse s o).requests ≡ some r
  unfolding operate
  operate-settled key r s (creates request) k h t = create-settled key r s k h t request
  operate-settled key r s (approves audit_accepts onboards id by at) k h t =
      approve-settled key r s k h t audit_accepts onboards id by at
  operate-settled key r s (denies audit_accepts id by at) k h t =
      deny-settled key r s k h t audit_accepts id by at
  operate-settled key r s (expires audit_accepts id now) k h t =
      expire-settled key r s k h t audit_accepts id now
  operate-settled key r s (consumes id now) k h t = consume-settled key r s k h t id now

  -- In a table whose rows stand under their own ids, a request that was denied, has timed out or was
  -- consumed stays as it is, whatever operations other than a deletion follow, at whatever times.
  pub settled_permanent :
      (key : String) (r : ApprovalRequest N) (s : ApprovalStore N) (operations : List (Operation N))
      → IsKeyed s
      → Dict.get key s.requests ≡ some r
      → IsSettled r.state
      → Dict.get key (operate_all date_parse s operations).requests ≡ some r
  unfolding operate_all
  settled_permanent key r s [] k h t = h
  settled_permanent key r s (o ∷ os) k h t =
      settled_permanent key r (operate date_parse s o) os (operate-IsKeyed s o k)
        (operate-settled key r s o k h t) t

  saved-consumed :
      (may : Bool) (id : String) (request r : ApprovalRequest N) (state : ApprovalState)
      (s : ApprovalStore N)
      → request.approval_id ≡ id
      → (consume_state may request s state).0 ≡ saved r
      → (Dict.get id (consume_state may request s state).1.requests ≡ some r) × IsSettled r.state
  saved-consumed true id request r (approved at by) s e h =
      let changed = record request { state = consumed at by } in
      let same : changed ≡ r = cc h in
      subst
        (λ (x : ApprovalRequest N).
          (Dict.get id (save request (consumed at by) s).1.requests ≡ some x) × IsSettled x.state)
        same
        (
          ground (
            arith,
            e,
            eq_iff request.approval_id id,
            get-put request.approval_id id changed s.requests,
          ),
          tt,
        )
  saved-consumed false id request r (approved at by) s e h = ground arith
  saved-consumed may id request r pending s e h = ground arith
  saved-consumed may id request r (denied at by) s e h = ground arith
  saved-consumed may id request r (timeout at) s e h = ground arith
  saved-consumed may id request r (consumed at by) s e h = ground arith

  consume-saves :
      (id : String) (now : N) (s : ApprovalStore N) (r : ApprovalRequest N)
      → IsKeyed s
      → (consume_one_time date_parse id now s).0 ≡ saved r
      → (Dict.get id (consume_one_time date_parse id now s).1.requests ≡ some r) × IsSettled r.state
  unfolding consume_one_time
  consume-saves id now s r k h = elim (Option-cases (Dict.get id s.requests)) [
    | inl q ↦ ground (arith, q)
    | inr found ↦
        let may =
          is_one_time found.0.approval_type
          && not (number.le (date_parse found.0.timeout_at) now) in
        let both =
          saved-consumed may id found.0 r found.0.state s (k id found.0 found.1)
            (ground (arith, found.1)) in
        (ground (arith, found.1, both.0), both.1)
  ]

  settled-refuses :
      (id : String) (now : N) (s : ApprovalStore N) (r : ApprovalRequest N)
      → Dict.get id s.requests ≡ some r
      → IsSettled r.state
      → (consume_one_time date_parse id now s).0 ≡ refused
  unfolding consume_one_time
  settled-refuses id now s r h t = ground (
    arith,
    h,
    refuses_settled (is_one_time r.approval_type && not (number.le (date_parse r.timeout_at) now)) r
        s r.state t,
  )

  -- In a table whose rows stand under their own ids, an approval is consumed once: after a consumption
  -- that succeeds, and whatever operations other than a deletion follow, another one is refused.
  pub consumed_once :
      (id : String) (now later : N) (s : ApprovalStore N) (r : ApprovalRequest N)
      (operations : List (Operation N))
      → IsKeyed s
      → (consume_one_time date_parse id now s).0 ≡ saved r
      → (consume_one_time date_parse id later
          (operate_all date_parse (consume_one_time date_parse id now s).1 operations)).0
        ≡ refused
  consumed_once id now later s r operations k h =
      let both = consume-saves id now s r k h in
      settled-refuses id later
        (operate_all date_parse (consume_one_time date_parse id now s).1 operations) r
        (settled_permanent id r (consume_one_time date_parse id now s).1 operations
          (consume-IsKeyed s k id now) both.0 both.1)
        both.1
