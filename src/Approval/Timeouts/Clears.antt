-- ===== src/Approval/Timeouts/Clears.antt =====
-- After `checkTimeouts` no request is overdue.
use agent_trading_guardrails.Base.{
  ℕ, String, eq_iff, eq_refl, ◌≡◌, ◌≢◌, refl, inl, inr, Option-cases, Bool, true, Option, none,
  some, List, [], ◌∷◌, All, sym, arith,
}
use mathlib.Core.Path.{subst}
use agent_trading_guardrails.Base.Dict
use agent_trading_guardrails.Base.Dict.{Dict, get-put}
use agent_trading_guardrails.Broker.Keys.{key_le, units_le, units}
use agent_trading_guardrails.Js.Text.{codes}
use agent_trading_guardrails.Approval.Types.{ApprovalRequest, timeout}
use agent_trading_guardrails.Approval.Store.{ApprovalStore, threw, expire}
use agent_trading_guardrails.Approval.Store.Laws.{IsKeyed, expire-IsKeyed}
use agent_trading_guardrails.Approval.Timeouts.{
  overdue_ids, is_overdue, expire_each, check_timeouts,
}
use agent_trading_guardrails.Approval.Timeouts.Rows.{
  TimesOut, or_error_goes_on, expire_each-TimesOut,
}

units_le_trans :
    (xs ys zs : List ℕ) → units_le xs ys ≡ true → units_le ys zs ≡ true → units_le xs zs ≡ true
unfolding units_le
units_le_trans [] ys zs h k = refl
units_le_trans (x ∷ xs) [] zs h k = cc
units_le_trans (x ∷ xs) (y ∷ ys) [] h k = cc
units_le_trans (x ∷ xs) (y ∷ ys) (z ∷ zs) h k = ground (arith, units_le_trans xs ys zs)

key_le_trans : (a b c : String) → key_le a b ≡ true → key_le b c ≡ true → key_le a c ≡ true
unfolding key_le
key_le_trans a b c h k = units_le_trans (units (codes a)) (units (codes b)) (units (codes c)) h k

module _ {N : Type 0} where
  abbrev pub Overdue : String → Option (ApprovalRequest N) → Type 0
  Overdue now none = ⊥
  Overdue now (some request) = is_overdue now request ≡ true

  abbrev pub HasOverdue : String → String → ApprovalStore N → Type 0
  HasOverdue now id s = Overdue now (Dict.get id s.requests)

  overdue_ids_complete :
      (now id : String) (rows : Dict (ApprovalRequest N))
      → Overdue now (Dict.get id rows)
      → All (λ i. i ≢ id) (overdue_ids now rows)
      → ⊥
  unfolding Dict.get
  overdue_ids_complete now id [] h all = h
  overdue_ids_complete now id ((i, request) ∷ rows) h all =
      ground (arith, eq_iff i id, overdue_ids_complete now id rows)

  module _ (now : String) (at : String → String) (accepts : String → Bool) where
    expire-HasOverdue :
        (id i : String) (s : ApprovalStore N)
        → IsKeyed s
        → HasOverdue now id (expire (accepts i) i (at i) s).1
        → HasOverdue now id s
    unfolding expire
    expire-HasOverdue id i s keyed h = elim (Option-cases (Dict.get i s.requests)) [
      | inl q ↦ ground (arith, q)
      | inr found ↦ ground (
        arith,
        found.1,
        keyed i found.0,
        eq_iff found.0.approval_id id,
        eq_iff i id,
        get-put found.0.approval_id id (record found.0 { state = timeout (at i) }) s.requests,
      )
    ]

    -- A request is not overdue any more when it was expired at a later time.
    expire_clears :
        (id : String) (s : ApprovalStore N)
        → IsKeyed s
        → key_le now (at id) ≡ true
        → (expire (accepts id) id (at id) s).0 ≢ threw
        → HasOverdue now id (expire (accepts id) id (at id) s).1
        → ⊥
    unfolding expire
    expire_clears id s keyed later kept h = elim (Option-cases (Dict.get id s.requests)) [
      | inl q ↦ ground (arith, q)
      | inr found ↦ ground (
        arith,
        found.1,
        keyed id found.0,
        eq_refl id,
        get-put id id (record found.0 { state = timeout (at id) }) s.requests,
        key_le_trans found.0.timeout_at now (at id),
      )
    ]

    expire_each-HasOverdue :
        (ids : List String) (id : String) (s : ApprovalStore N)
        → IsKeyed s
        → ((i : String) → key_le now (at i) ≡ true)
        → (expire_each at accepts ids s).0 ≢ none
        → HasOverdue now id (expire_each at accepts ids s).1
        → HasOverdue now id s × All (λ i. i ≢ id) ids
    unfolding expire_each
    expire_each-HasOverdue [] id s keyed later ended h = (h, tt)
    expire_each-HasOverdue (i ∷ ids) id s keyed later ended h =
        let expired = expire (accepts i) i (at i) s in
        let goes =
          or_error_goes_on at accepts expired (expire_each at accepts ids expired.1) ended in
        let rest =
          expire_each-HasOverdue ids id expired.1 (expire-IsKeyed s keyed (accepts i) i (at i))
            later goes.1 (subst (λ t. HasOverdue now id t) goes.2 h) in
        (
          expire-HasOverdue id i s keyed rest.0,
          (
            λ same.
                expire_clears i s keyed (later i) goes.0
                  (subst (λ j. HasOverdue now j expired.1) (sym same) rest.0),
            rest.1,
          ),
        )

    -- When `checkTimeouts` returns, no request is overdue any more at the time at which it began, and each
    -- row is as it was, or it was pending and over at its time and is timed out then. Rows stand under
    -- their own ids, and the clock does not go back.
    pub check_timeouts-TimesOut :
        (id : String) (s : ApprovalStore N)
        → IsKeyed s
        → ((i : String) → key_le now (at i) ≡ true)
        → (check_timeouts at accepts now s).0 ≢ none
        → ¬ HasOverdue now id (check_timeouts at accepts now s).1
          × TimesOut at accepts id
              (Dict.get id s.requests)
              (Dict.get id (check_timeouts at accepts now s).1.requests)
    unfolding check_timeouts
    check_timeouts-TimesOut id s keyed later ended = (
      λ h.
          let still =
            expire_each-HasOverdue (overdue_ids now s.requests) id s keyed later ended h in
          overdue_ids_complete now id s.requests still.0 still.1,
      expire_each-TimesOut at accepts (overdue_ids now s.requests) id s keyed ended,
    )
