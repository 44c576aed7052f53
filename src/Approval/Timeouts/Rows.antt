-- ===== src/Approval/Timeouts/Rows.antt =====
-- What `checkTimeouts` does to each row of the table.
use agent_trading_guardrails.Base.{
  String, eq_iff, ◌≡◌, ◌≢◌, refl, inl, inr, Bool-cases, Option-cases, Bool, true, false, Option,
  none, some, List, [], ◌∷◌, ◌⊎◌, sym, ap, ◌∙◌, ◌&&◌, ◌==◌, arith,
}
use mathlib.Core.Path.{subst}
use mathlib.Core.Option.{some-injective}
use agent_trading_guardrails.Base.Dict
use agent_trading_guardrails.Base.Dict.{Dict, get-put}
use agent_trading_guardrails.Broker.Keys.{key_le}
use agent_trading_guardrails.Approval.Types.{ApprovalRequest, is_pending, timeout}
use agent_trading_guardrails.Approval.Store.{
  ApprovalStore, Transition, saved, refused, threw, expire,
}
use agent_trading_guardrails.Approval.Store.Laws.{IsKeyed, expire-IsKeyed}
use agent_trading_guardrails.Approval.Timeouts.{expire_each, or_error}

module _ {N : Type 0} (at : String → String) (accepts : String → Bool) where
  pub or_error_goes_on :
      (o : Transition N × ApprovalStore N)
      (rest : Option (List (ApprovalRequest N)) × ApprovalStore N)
      → (or_error at accepts o rest).0 ≢ none
      → (o.0 ≢ threw) × (rest.0 ≢ none) × ((or_error at accepts o rest).1 ≡ rest.1)
  or_error_goes_on (threw, s) rest h = absurd (h refl)
  or_error_goes_on (refused, s) rest h = (λ q. cc, h, refl)
  or_error_goes_on (saved r, s) (none, t) h = absurd (h refl)
  or_error_goes_on (saved r, s) (some rs, t) h = (λ q. cc, λ q. cc, refl)

  -- A row stays as it was, or was pending and over at its time, and is timed out at that time.
  abbrev pub TimesOut : String → Option (ApprovalRequest N) → Option (ApprovalRequest N) → Type 0
  TimesOut id none after = after ≡ none
  TimesOut id (some r) after =
      (after ≡ some r)
      ⊎ ((is_pending r.state ≡ true)
          × (key_le r.timeout_at (at id) ≡ true)
          × (after ≡ some (record r { state = timeout (at id) })))

  trans-TimesOut :
      (id : String) (a b c : Option (ApprovalRequest N))
      → TimesOut id a b
      → TimesOut id b c
      → TimesOut id a c
  trans-TimesOut id none none c h k = k
  trans-TimesOut id none (some b) c h k = absurd (ground (arith, h))
  trans-TimesOut id (some a) none c h k = absurd (ground (arith, h))
  trans-TimesOut id (some a) (some b) c h k = elim h [
    | inl same ↦ subst (λ x. TimesOut id (some x) c) (some-injective b a same) k
    | inr timed ↦ elim k [
      | inl same ↦ inr (timed.0, timed.1, same ∙ timed.2)
      | inr again ↦ absurd (ground (arith, timed.2, again.0))
    ]
  ]

  same-TimesOut : (id : String) (a b : Option (ApprovalRequest N)) → b ≡ a → TimesOut id a b
  same-TimesOut id none b h = h
  same-TimesOut id (some a) b h = inl h

  timed-TimesOut :
      (id : String) (r : ApprovalRequest N) (a b : Option (ApprovalRequest N))
      → a ≡ some r
      → is_pending r.state ≡ true
      → key_le r.timeout_at (at id) ≡ true
      → b ≡ some (record r { state = timeout (at id) })
      → TimesOut id a b
  timed-TimesOut id r none b h p q k = cc
  timed-TimesOut id r (some a) b h p q k =
      subst (λ x. TimesOut id (some x) b) (some-injective r a (sym h)) (inr (p, q, k))

  expire_other :
      (id i : String) (s : ApprovalStore N)
      → IsKeyed s
      → i ≢ id
      → Dict.get id (expire (accepts i) i (at i) s).1.requests ≡ Dict.get id s.requests
  unfolding expire
  expire_other id i s keyed ne = elim (Option-cases (Dict.get i s.requests)) [
    | inl q ↦ ground (arith, q)
    | inr found ↦ ground (
      arith,
      found.1,
      keyed i found.0,
      eq_iff i id,
      eq_iff found.0.approval_id id,
      get-put found.0.approval_id id (record found.0 { state = timeout (at i) }) s.requests,
    )
  ]

  expire_absent :
      (id : String) (s : ApprovalStore N)
      → Dict.get id s.requests ≡ none
      → (expire (accepts id) id (at id) s).1 ≡ s
  unfolding expire
  expire_absent id s q = ground (arith, q)

  abbrev fires : String → ApprovalRequest N → Bool
  fires id r = is_pending r.state && key_le r.timeout_at (at id) && accepts id

  expire_idle :
      (id : String) (r : ApprovalRequest N) (s : ApprovalStore N)
      → Dict.get id s.requests ≡ some r
      → fires id r ≡ false
      → (expire (accepts id) id (at id) s).1 ≡ s
  unfolding expire
  expire_idle id r s q h = ground (arith, q, h)

  expire-fires :
      (id : String) (r : ApprovalRequest N) (s : ApprovalStore N)
      → IsKeyed s
      → Dict.get id s.requests ≡ some r
      → fires id r ≡ true
      → Dict.get id (expire (accepts id) id (at id) s).1.requests
        ≡ some (record r { state = timeout (at id) })
  unfolding expire
  expire-fires id r s keyed q h = ground (
    arith,
    q,
    h,
    keyed id r,
    eq_iff r.approval_id id,
    get-put r.approval_id id (record r { state = timeout (at id) }) s.requests,
  )

  expire_own :
      (id : String) (s : ApprovalStore N)
      → IsKeyed s
      → TimesOut id
          (Dict.get id s.requests)
          (Dict.get id (expire (accepts id) id (at id) s).1.requests)
  expire_own id s keyed = elim (Option-cases (Dict.get id s.requests)) [
    | inl q ↦
        same-TimesOut id (Dict.get id s.requests)
          (Dict.get id (expire (accepts id) id (at id) s).1.requests)
          (ap (λ t. Dict.get id t.requests) (expire_absent id s q))
    | inr (r, q) ↦ elim (Bool-cases (fires id r)) [
      | inl h ↦
          timed-TimesOut id r (Dict.get id s.requests)
            (Dict.get id (expire (accepts id) id (at id) s).1.requests) q (ground (arith, h))
            (ground (arith, h)) (expire-fires id r s keyed q h)
      | inr h ↦
          same-TimesOut id (Dict.get id s.requests)
            (Dict.get id (expire (accepts id) id (at id) s).1.requests)
            (ap (λ t. Dict.get id t.requests) (expire_idle id r s q h))
    ]
  ]

  expire-TimesOut :
      (id i : String) (s : ApprovalStore N)
      → IsKeyed s
      → TimesOut id
          (Dict.get id s.requests)
          (Dict.get id (expire (accepts i) i (at i) s).1.requests)
  expire-TimesOut id i s keyed = elim (Bool-cases (i == id)) [
    | inl h ↦
        subst
          (λ j.
            TimesOut id (Dict.get id s.requests)
              (Dict.get id (expire (accepts j) j (at j) s).1.requests))
          (sym ((eq_iff i id).0 h)) (expire_own id s keyed)
    | inr h ↦
        same-TimesOut id (Dict.get id s.requests)
          (Dict.get id (expire (accepts i) i (at i) s).1.requests)
          (expire_other id i s keyed (λ e. ground (arith, h, e, eq_iff i id)))
  ]

  pub expire_each-TimesOut :
      (ids : List String) (id : String) (s : ApprovalStore N)
      → IsKeyed s
      → (expire_each at accepts ids s).0 ≢ none
      → TimesOut id (Dict.get id s.requests) (Dict.get id (expire_each at accepts ids s).1.requests)
  unfolding expire_each
  expire_each-TimesOut [] id s keyed ended = same-TimesOut id _ _ refl
  expire_each-TimesOut (i ∷ ids) id s keyed ended =
      let expired = expire (accepts i) i (at i) s in
      let goes = or_error_goes_on expired (expire_each at accepts ids expired.1) ended in
      subst (λ t. TimesOut id (Dict.get id s.requests) (Dict.get id t.requests)) (sym goes.2)
        (trans-TimesOut id (Dict.get id s.requests) (Dict.get id expired.1.requests)
          (Dict.get id (expire_each at accepts ids expired.1).1.requests)
          (expire-TimesOut id i s keyed)
          (expire_each-TimesOut ids id expired.1 (expire-IsKeyed s keyed (accepts i) i (at i))
            goes.1))
