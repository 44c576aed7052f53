-- ===== src/Approval/Onboarding/Atomic.antt =====
-- The approval with the allowlist: when a request is approved, and that the allowlist is changed exactly
-- with it.
use agent_trading_guardrails.Base.{
  String, ◌≡◌, ◌↔◌, sym, inl, inr, Option-cases, Bool, true, false, not, ◌&&◌, ◌||◌, if◌then◌else◌,
  some, List, [], ◌∷◌, ◌++◌, arith,
}
use agent_trading_guardrails.Base.Dict
use agent_trading_guardrails.Broker.Keys.{key_le}
use agent_trading_guardrails.Approval.Types.{ApprovalRequest, approved, is_pending, is_one_time}
use agent_trading_guardrails.Approval.Store.{ApprovalStore, Transition, saved, refused, threw}
use agent_trading_guardrails.Approval.Onboarding.{
  AllowlistOnboardingEntry, Writes, build_allowlist_entry, onboard, approve_with,
}

module _ {N : Type 0} where
  -- What a request that `approve` returns as approved has gone through, said without the code: it stood in
  -- the table pending, its time was not over, every write that it needs was accepted, and it is the row
  -- with this decision.
  abbrev pub IsApprovable :
      Writes
      → (id by at : String) → ApprovalStore N
      → ApprovalRequest N
      → ApprovalRequest N
      → Type 0
  IsApprovable w id by at s request r =
      (Dict.get id s.requests ≡ some request)
      × (is_pending request.state ≡ true)
      × (key_le request.timeout_at at ≡ false)
      × (w.decision_accepted ≡ true)
      × (w.committed ≡ true)
      × ((is_one_time request.approval_type || (w.configured && w.added && w.update_accepted))
          ≡ true)
      × (r ≡ record request { state = approved at by })

  saved_injective : {r r' : ApprovalRequest N} → saved r ≡ saved r' → r ≡ r'
  saved_injective h = ground (arith, h)

  -- `approve` returns an approved request exactly for a request that stands in the table under the id,
  -- is pending, and whose time is not over, when the event of the decision is written and the transaction
  -- commits, and, for an onboarding, when it is configured, the entry is added and its event is written.
  -- What it returns is that request with this decision.
  pub approve_with-saved_iff :
      (w : Writes) (id by at : String) (s : ApprovalStore N)
      (allowlist : List (AllowlistOnboardingEntry N)) (r : ApprovalRequest N)
      → ((approve_with w id by at s allowlist).transition ≡ saved r)
        ↔ ((request : ApprovalRequest N) × IsApprovable w id by at s request r)
  unfolding approve_with onboard
  approve_with-saved_iff w id by at s allowlist r = (
    λ h. elim (Option-cases (Dict.get id s.requests)) [
      | inl q ↦ absurd (ground (arith, q, h))
      | inr found ↦ (
        found.0,
        (
          found.1,
          ground (arith, found.1, h),
          ground (arith, found.1, h),
          ground (arith, found.1, h),
          ground (arith, found.1, h),
          ground (arith, found.1, h),
          sym (saved_injective (ground (arith, found.1, h))),
        ),
      )
    ],
    λ (request, (found, waits, in_time, decided, commits, onboards, made)).
        ground (arith, found, waits, in_time, decided, commits, onboards, made),
  )

  abbrev pub is_saved : Transition N → Bool
  is_saved (saved r) = true
  is_saved refused = false
  is_saved threw = false

  -- An approval and its onboarding happen together: when the transaction commits and a rollback of the
  -- file is written, the entry of the request is added to the allowlist exactly when a request of
  -- onboarding was approved, and the allowlist is as it was otherwise.
  pub approve_with_onboards :
      (w : Writes) (id by at : String) (s : ApprovalStore N) (request : ApprovalRequest N)
      (before : List (AllowlistOnboardingEntry N))
      → w.committed ≡ true
      → w.rolled_back ≡ true
      → Dict.get id s.requests ≡ some request
      → (approve_with w id by at s before).allowlist ≡ (
          if is_saved (approve_with w id by at s before).transition
            && not (is_one_time request.approval_type)
          then before ++ build_allowlist_entry request ∷ []
          else before)
  unfolding approve_with onboard
  approve_with_onboards w id by at s request before c b q = ground (arith, c, b, q)
