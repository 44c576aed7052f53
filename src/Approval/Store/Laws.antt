-- ===== src/Approval/Store/Laws.antt =====
-- What the approval store keeps, whatever sequence of its operations is run.
use agent_trading_guardrails.Base.{
  ap, sym, ◌∙◌, inl, inr, Option-cases, Bool-cases, String, eq_iff, ◌≡◌, ◌≢◌, refl, Bool, true,
  false, some, List, [], ◌∷◌, arith,
}
use mathlib.Core.Path.{subst}
use agent_trading_guardrails.Base.Dict
use agent_trading_guardrails.Base.Dict.{get-put, get-remove}
use agent_trading_guardrails.Js.{JsNumber}
use agent_trading_guardrails.Approval.Types.{
  ApprovalState, pending, approved, denied, timeout, consumed, ApprovalRequest, is_pending,
}
use agent_trading_guardrails.Approval.Store.{
  ApprovalStore, save, consume_state, create, approve, deny, expire, consume_one_time,
}

-- The states that an operation leaves.
abbrev pub IsSettled : ApprovalState → Type 0
IsSettled pending = ⊥
IsSettled (approved at by) = ⊥
IsSettled _ = Unit

-- One call of the store, at any time and with any answer of its collaborators.
pub data Operation (N : Type 0) : Type 0 where
  creates : ApprovalRequest N → Operation N
  approves : (audit_accepts onboards : Bool) (id decided_by decided_at : String) → Operation N
  denies : (audit_accepts : Bool) (id decided_by decided_at : String) → Operation N
  expires : (audit_accepts : Bool) (id now : String) → Operation N
  consumes : (id : String) (now : N) → Operation N

module _ {N : Type 0} ⦃number : JsNumber N⦄ (date_parse : String → N) where
  unfoldable pub operate : ApprovalStore N → Operation N → ApprovalStore N
  operate s (creates request) = (create request s).1
  operate s (approves audit_accepts onboards id decided_by decided_at) =
      (approve audit_accepts onboards id decided_by decided_at s).1
  operate s (denies audit_accepts id decided_by decided_at) =
      (deny audit_accepts id decided_by decided_at s).1
  operate s (expires audit_accepts id now) = (expire audit_accepts id now s).1
  operate s (consumes id now) = (consume_one_time date_parse id now s).1

  unfoldable pub operate_all : ApprovalStore N → List (Operation N) → ApprovalStore N
  operate_all s [] = s
  operate_all s (o ∷ os) = operate_all (operate s o) os

pub IsSettled-not_pending : (state : ApprovalState) → IsSettled state → is_pending state ≡ false
IsSettled-not_pending pending h = absurd h
IsSettled-not_pending (approved at by) h = absurd h
IsSettled-not_pending (denied at by) h = refl
IsSettled-not_pending (timeout at) h = refl
IsSettled-not_pending (consumed at by) h = refl

module _ {N : Type 0} where
  -- A row stands under the approval id of its request, as the table demands.
  abbrev pub IsKeyed : ApprovalStore N → Type 0
  IsKeyed s =
      (id : String) (request : ApprovalRequest N)
      → Dict.get id s.requests ≡ some request
      → request.approval_id ≡ id

  pub put-IsKeyed :
      (request : ApprovalRequest N) (state : ApprovalState) (s : ApprovalStore N)
      → IsKeyed s
      → IsKeyed (save request state s).1
  put-IsKeyed request state s keyed id found q = ground (
    arith,
    get-put request.approval_id id (record request { state = state }) s.requests,
    eq_iff request.approval_id id,
    keyed id found,
  )

  -- Saving a request that was found changes no settled row.
  save-elsewhere :
      (id key : String) (request r : ApprovalRequest N) (state : ApprovalState)
      (s : ApprovalStore N)
      → IsKeyed s
      → Dict.get id s.requests ≡ some request
      → Dict.get key s.requests ≡ some r
      → request ≢ r
      → Dict.get key (save request state s).1.requests ≡ some r
  save-elsewhere id key request r state s keyed q h ne = ground (
    arith,
    get-put request.approval_id key (record request { state = state }) s.requests,
    eq_iff request.approval_id key,
    keyed id request q,
  )

  module _ (key : String) (r : ApprovalRequest N) (s : ApprovalStore N) (keyed : IsKeyed s)
      (stands : Dict.get key s.requests ≡ some r) (settled : IsSettled r.state) where
    -- Saving a pending request that was found.
    pending-elsewhere :
        (id : String) (request : ApprovalRequest N) (state : ApprovalState)
        → Dict.get id s.requests ≡ some request
        → is_pending request.state ≡ true
        → Dict.get key (save request state s).1.requests ≡ some r
    pending-elsewhere id request state q p =
        save-elsewhere id key request r state s keyed q stands (λ e. cc (
          p,
          ap (λ (x : ApprovalRequest N). is_pending x.state) e,
          IsSettled-not_pending r.state settled,
        ))

    pub deny-settled :
        (audit_accepts : Bool) (id by at : String)
        → Dict.get key (deny audit_accepts id by at s).1.requests ≡ some r
    unfolding deny
    deny-settled audit_accepts id by at = elim (Option-cases (Dict.get id s.requests)) [
      | inl q ↦ ground (arith, q, stands)
      | inr found ↦ elim (Bool-cases (is_pending found.0.state)) [
        | inl p ↦ ground (
          arith,
          found.1,
          stands,
          p,
          pending-elsewhere id found.0 (denied at by) found.1 p,
          pending-elsewhere id found.0 (timeout at) found.1 p,
        )
        | inr p ↦ ground (arith, found.1, stands, p)
      ]
    ]

    pub approve-settled :
        (audit_accepts onboards : Bool) (id by at : String)
        → Dict.get key (approve audit_accepts onboards id by at s).1.requests ≡ some r
    unfolding approve
    approve-settled audit_accepts onboards id by at = elim (Option-cases (Dict.get id s.requests)) [
      | inl q ↦ ground (arith, q, stands)
      | inr found ↦ elim (Bool-cases (is_pending found.0.state)) [
        | inl p ↦ ground (
          arith,
          found.1,
          stands,
          p,
          pending-elsewhere id found.0 (approved at by) found.1 p,
          pending-elsewhere id found.0 (timeout at) found.1 p,
        )
        | inr p ↦ ground (arith, found.1, stands, p)
      ]
    ]

    pub expire-settled :
        (audit_accepts : Bool) (id now : String)
        → Dict.get key (expire audit_accepts id now s).1.requests ≡ some r
    unfolding expire
    expire-settled audit_accepts id now = elim (Option-cases (Dict.get id s.requests)) [
      | inl q ↦ ground (arith, q, stands)
      | inr found ↦ elim (Bool-cases (is_pending found.0.state)) [
        | inl p ↦
            ground (arith, found.1, stands, p, pending-elsewhere id found.0 (timeout now) found.1 p)
        | inr p ↦ ground (arith, found.1, stands, p)
      ]
    ]

    pub create-settled :
        (request : ApprovalRequest N) → Dict.get key (create request s).1.requests ≡ some r
    unfolding create
    create-settled request = ground (
      arith,
      stands,
      eq_iff request.approval_id key,
      get-put request.approval_id key (record request { state = pending }) s.requests,
    )

    -- A request that is approved is not `r`, since that one is settled.
    pub consumed-settled :
        (may : Bool) (id : String) (request : ApprovalRequest N) (state : ApprovalState)
        → Dict.get id s.requests ≡ some request
        → request.state ≡ state
        → Dict.get key (consume_state may request s state).1.requests ≡ some r
    consumed-settled false id request (approved at by) q e = stands
    consumed-settled true id request (approved at by) q e =
        save-elsewhere id key request r (consumed at by) s keyed q stands
          (λ same. subst IsSettled (sym (ap (λ (x : ApprovalRequest N). x.state) same) ∙ e) settled)
    consumed-settled may id request pending q e = stands
    consumed-settled may id request (denied at by) q e = stands
    consumed-settled may id request (timeout at) q e = stands
    consumed-settled may id request (consumed at by) q e = stands

module _ {N : Type 0} (s : ApprovalStore N) (keyed : IsKeyed s) where
  pub create-IsKeyed : (request : ApprovalRequest N) → IsKeyed (create request s).1
  unfolding create
  create-IsKeyed request id found q = ground (
    arith,
    get-put request.approval_id id (record request { state = pending }) s.requests,
    eq_iff request.approval_id id,
    keyed id found,
  )

  pub approve-IsKeyed :
      (audit_accepts onboards : Bool) (id by at : String)
      → IsKeyed (approve audit_accepts onboards id by at s).1
  unfolding approve
  approve-IsKeyed audit_accepts onboards id by at = elim (Option-cases (Dict.get id s.requests)) [
    | inl q ↦ λ i f h. ground (arith, q, keyed i f)
    | inr found ↦ λ i f h. ground (
      arith,
      found.1,
      keyed i f,
      put-IsKeyed found.0 (approved at by) s keyed i f,
      put-IsKeyed found.0 (timeout at) s keyed i f,
    )
  ]

  pub deny-IsKeyed :
      (audit_accepts : Bool) (id by at : String) → IsKeyed (deny audit_accepts id by at s).1
  unfolding deny
  deny-IsKeyed audit_accepts id by at = elim (Option-cases (Dict.get id s.requests)) [
    | inl q ↦ λ i f h. ground (arith, q, keyed i f)
    | inr found ↦ λ i f h. ground (
      arith,
      found.1,
      keyed i f,
      put-IsKeyed found.0 (denied at by) s keyed i f,
      put-IsKeyed found.0 (timeout at) s keyed i f,
    )
  ]

  pub expire-IsKeyed :
      (audit_accepts : Bool) (id now : String) → IsKeyed (expire audit_accepts id now s).1
  unfolding expire
  expire-IsKeyed audit_accepts id now = elim (Option-cases (Dict.get id s.requests)) [
    | inl q ↦ λ i f h. ground (arith, q, keyed i f)
    | inr found ↦
        λ i f h. ground (arith, found.1, keyed i f, put-IsKeyed found.0 (timeout now) s keyed i f)
  ]

  pub consumed-IsKeyed :
      (may : Bool) (request : ApprovalRequest N) (state : ApprovalState)
      → IsKeyed (consume_state may request s state).1
  consumed-IsKeyed true request (approved at by) = put-IsKeyed request (consumed at by) s keyed
  consumed-IsKeyed false request (approved at by) = keyed
  consumed-IsKeyed may request pending = keyed
  consumed-IsKeyed may request (denied at by) = keyed
  consumed-IsKeyed may request (timeout at) = keyed
  consumed-IsKeyed may request (consumed at by) = keyed
