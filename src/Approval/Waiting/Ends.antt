-- ===== src/Approval/Waiting/Ends.antt =====
-- Waiting for an approval comes to an end, and at which poll and for what reason.
use agent_trading_guardrails.Base.{
  ℕ, zero, suc, ◌+◌, ◌<◌, ◌≤◌, String, ◌≡◌, ◌⊎◌, refl, sym, inl, inr, Option-cases, Bool, true,
  false, Option, none, some, arith,
}
use mathlib.Core.Path.{subst}
use agent_trading_guardrails.Base.Dict
use agent_trading_guardrails.Js.{JsNumber}
use agent_trading_guardrails.Approval.Types.{
  ApprovalState, denied, timeout, ApprovalRequest, is_pending, is_approved, is_consumed,
}
use agent_trading_guardrails.Approval.Store.{ApprovalStore}
use agent_trading_guardrails.Approval.Waiting.{
  Reading, WaitEnd, approved_with, not_found, timed_out, was_denied, already_used, gave_up,
  audit_failed, after_poll, poll, wait_for_approval,
}

abbrev is_denied : ApprovalState → Bool
is_denied (denied at by) = true
is_denied _ = false

abbrev is_timeout : ApprovalState → Bool
is_timeout (timeout at) = true
is_timeout _ = false

module _ {N : Type 0} ⦃number : JsNumber N⦄ (date_parse : String → N) (id : String)
    (deadline : N) where
  -- The time of the request is over at this reading.
  abbrev is_over : Reading N → ApprovalRequest N → Bool
  is_over r request = number.le (date_parse request.timeout_at) r.at_timeout

  -- A request in the table of which this holds.
  abbrev Stands : ApprovalStore N → (ApprovalRequest N → Type 0) → Type 0
  Stands s P = (request : ApprovalRequest N) × (Dict.get id s.requests ≡ some request) × P request

  -- What a poll with these readings finds in the table when it ends the wait.
  abbrev pub IsEnd : Reading N → ApprovalStore N → WaitEnd N → Type 0
  IsEnd r s (approved_with request) =
      (Dict.get id s.requests ≡ some request)
      × (is_approved request.state ≡ true)
      × (is_over r request ≡ false)
  IsEnd r s not_found = Dict.get id s.requests ≡ none
  IsEnd r s timed_out =
      Stands s (λ request. (is_over r request ≡ true) ⊎ (is_timeout request.state ≡ true))
  IsEnd r s was_denied =
      Stands s (λ request. (is_denied request.state ≡ true) × (is_over r request ≡ false))
  IsEnd r s already_used =
      Stands s (λ request. (is_consumed request.state ≡ true) × (is_over r request ≡ false))
  IsEnd r s gave_up = Stands s (λ request.
      (is_pending request.state ≡ true)
      × (is_over r request ≡ false)
      × (number.le deadline r.at_deadline ≡ true))
  IsEnd r s audit_failed = Stands s (λ request.
      (is_pending request.state ≡ true) × (is_over r request ≡ true) × (r.audit_accepts ≡ false))

  -- What it finds when it goes on: a pending request, whose time is not over before the deadline.
  abbrev IsPassed : Reading N → ApprovalStore N → Type 0
  IsPassed r s = Stands s (λ request.
      (is_pending request.state ≡ true)
      × (is_over r request ≡ false)
      × (number.le deadline r.at_deadline ≡ false))

  poll-IsEnd :
      (r : Reading N) (s : ApprovalStore N) (e : WaitEnd N)
      → (poll date_parse id deadline r s).0 ≡ some e
      → IsEnd r s e
  unfolding poll
  poll-IsEnd r s (approved_with request) h = elim (Option-cases (Dict.get id s.requests)) [
    | inl q ↦ absurd (ground (arith, q))
    | inr found ↦ ground (arith, found.1)
  ]
  poll-IsEnd r s not_found h = elim (Option-cases (Dict.get id s.requests)) [
    | inl q ↦ q
    | inr found ↦ absurd (ground (arith, found.1))
  ]
  poll-IsEnd r s timed_out h = elim (Option-cases (Dict.get id s.requests)) [
    | inl q ↦ absurd (ground (arith, q))
    | inr found ↦ (found.0, found.1, ground (arith, found.1))
  ]
  poll-IsEnd r s was_denied h = elim (Option-cases (Dict.get id s.requests)) [
    | inl q ↦ absurd (ground (arith, q))
    | inr found ↦ (found.0, found.1, (ground (arith, found.1), ground (arith, found.1)))
  ]
  poll-IsEnd r s already_used h = elim (Option-cases (Dict.get id s.requests)) [
    | inl q ↦ absurd (ground (arith, q))
    | inr found ↦ (found.0, found.1, (ground (arith, found.1), ground (arith, found.1)))
  ]
  poll-IsEnd r s gave_up h = elim (Option-cases (Dict.get id s.requests)) [
    | inl q ↦ absurd (ground (arith, q))
    | inr found ↦ (
      found.0,
      found.1,
      (ground (arith, found.1), ground (arith, found.1), ground (arith, found.1)),
    )
  ]
  poll-IsEnd r s audit_failed h = elim (Option-cases (Dict.get id s.requests)) [
    | inl q ↦ absurd (ground (arith, q))
    | inr found ↦ (
      found.0,
      found.1,
      (ground (arith, found.1), ground (arith, found.1), ground (arith, found.1)),
    )
  ]

  poll-IsPassed :
      (r : Reading N) (s : ApprovalStore N)
      → (poll date_parse id deadline r s).0 ≡ none
      → IsPassed r s × ((poll date_parse id deadline r s).1 ≡ s)
  unfolding poll
  poll-IsPassed r s h = elim (Option-cases (Dict.get id s.requests)) [
    | inl q ↦ absurd (ground (arith, q))
    | inr found ↦ (
      (
        found.0,
        found.1,
        (ground (arith, found.1), ground (arith, found.1), ground (arith, found.1)),
      ),
      ground (arith, found.1),
    )
  ]

  module _ (readings : ℕ → Reading N) (others : ℕ → ApprovalStore N → ApprovalStore N) where
    -- Poll `n` and the polls after it go on `j` times, and the one after these ends the wait. Between
    -- two polls the others do what they do to the table.
    abbrev pub EndsAfter : ℕ → ℕ → ApprovalStore N → WaitEnd N → Type 0
    EndsAfter zero n s e = IsEnd (readings n) s e
    EndsAfter (suc j) n s e = IsPassed (readings n) s × EndsAfter j (suc n) (others n s) e

    abbrev pub EndsBy : ℕ → ℕ → ApprovalStore N → Option (WaitEnd N) → Type 0
    EndsBy k n s none = ⊥
    EndsBy k n s (some e) = (j : ℕ) × (j ≤ k) × EndsAfter j n s e

    later-EndsBy :
        (k n : ℕ) (s : ApprovalStore N) (o : Option (WaitEnd N))
        → IsPassed (readings n) s
        → EndsBy k (suc n) (others n s) o
        → EndsBy (suc k) n s o
    later-EndsBy k n s none passed h = h
    later-EndsBy k n s (some e) passed (j, le, ends) = (suc j, omega arith, (passed, ends))

    polled_EndsBy :
        (k n : ℕ) (s : ApprovalStore N) (rest o : Option (WaitEnd N) × ApprovalStore N)
        → ((e : WaitEnd N) → o.0 ≡ some e → IsEnd (readings n) s e)
        → (o.0 ≡ none → EndsBy k n s rest.0)
        → EndsBy k n s (after_poll rest o).0
    polled_EndsBy k n s rest (none, t) h again = again refl
    polled_EndsBy k n s rest (some e, t) h again = (zero, omega arith, h e refl)

    at_round :
        (m m' : ℕ)
        → m ≡ m'
        → number.le deadline (readings m).at_deadline ≡ true
        → number.le deadline (readings m').at_deadline ≡ true
    at_round m m' same h = subst (λ x. number.le deadline (readings x).at_deadline ≡ true) same h

    -- Waiting ends: if the deadline has passed at the `k`-th poll, then `k + 1` polls are enough,
    -- whatever others do to the table. Each poll before the last found the request pending, its time
    -- not over when that poll read the clock, and the deadline not passed. The last one tells the end:
    -- a request that is handed over stood then in the table, approved, and its time was not over when
    -- that poll read the clock; and so for a request that is missing, denied, used, over, or pending at
    -- the deadline, and for an event of the timeout that is not taken.
    pub wait_for_approval-EndsBy :
        (k n fuel : ℕ) (s : ApprovalStore N)
        → k < fuel
        → number.le deadline (readings (n + k)).at_deadline ≡ true
        → EndsBy k n s (wait_for_approval date_parse id deadline readings others fuel n s).0
    unfolding wait_for_approval
    wait_for_approval-EndsBy k n zero s l h = absurd (omega arith)
    wait_for_approval-EndsBy zero n (suc fuel) s l h =
        polled_EndsBy zero n s
          (wait_for_approval date_parse id deadline readings others fuel (suc n)
            (others n (poll date_parse id deadline (readings n) s).1))
          (poll date_parse id deadline (readings n) s) (poll-IsEnd (readings n) s)
          (λ q.
            let (request, found, (waits, in_time, early)) = (poll-IsPassed (readings n) s q).0 in
            absurd (ground (arith, early, at_round (n + 0) n (omega arith) h)))
    wait_for_approval-EndsBy (suc k) n (suc fuel) s l h =
        polled_EndsBy (suc k) n s
          (wait_for_approval date_parse id deadline readings others fuel (suc n)
            (others n (poll date_parse id deadline (readings n) s).1))
          (poll date_parse id deadline (readings n) s) (poll-IsEnd (readings n) s)
          (λ q.
            let passed = poll-IsPassed (readings n) s q in
            later-EndsBy k n s
              (wait_for_approval date_parse id deadline readings others fuel (suc n)
                (others n (poll date_parse id deadline (readings n) s).1)).0
              passed.0
              (subst
                (λ t.
                  EndsBy k (suc n) (others n s)
                    (wait_for_approval date_parse id deadline readings others fuel (suc n)
                      (others n t)).0)
                (sym passed.1)
                (wait_for_approval-EndsBy k (suc n) fuel (others n s) (omega arith)
                  (at_round (n + suc k) (suc n + k) (omega arith) h))))
