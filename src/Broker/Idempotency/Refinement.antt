-- ===== src/Broker/Idempotency/Refinement.antt =====
-- The in-memory store keeps what Broker/Idempotency/Life says of a reservation: the entry, the promise
-- that others wait on, and the answers to later requests.
use agent_trading_guardrails.Base.{
  ℕ, suc, ◌<◌, ◌≤◌, String, eq_iff, eq_refl, ◌==◌, ◌≡◌, ◌≢◌, ◌⊎◌, inl, inr, refl, Bool-cases,
  Option-cases, Option, none, some, List, [], ◌∷◌, length, get_elem?, arith,
}
use agent_trading_guardrails.Base.Dict
use agent_trading_guardrails.Base.Dict.{get-put, get-remove, get-empty}
use agent_trading_guardrails.Broker.Idempotency.{
  unsettled, resolved, rejected, Entry, cached, pending, Store, reserved, empty, begin, complete,
  complete_audit, fail_audit, abort,
}
use agent_trading_guardrails.Broker.Idempotency.Laws.{
  Call, begin_call, complete_call, complete_audit_call, fail_audit_call, abort_call, perform,
  perform_all,
}
use agent_trading_guardrails.Broker.Idempotency.Promises.{
  settle_unsettled, settle_other, settle_resolved, settle_rejected, length-settle, get_elem?-append,
  get_elem?_last, length_snoc,
}
use agent_trading_guardrails.Broker.Idempotency.Life.{
  Life, running, auditing, done, unaudited, audited_late, aborted, life_step, life_all, outcome,
  Replies,
}

module _ {R A : Type 0} where
  -- The cell that an entry settles.
  abbrev owner : Option (Entry R A) → Option ℕ
  owner none = none
  owner (some (cached h r audit kept)) = kept
  owner (some (pending h i)) = some i

  abbrev IsCached : String → R → Option (Entry R A) → Type 0
  IsCached hash r (some (cached h v none kept)) = (h ≡ hash) × (v ≡ r)
  IsCached hash r _ = ⊥

module _ {R A E : Type 0} where
  -- A call takes no cell but a new one.
  perform-owner :
      (k : String) (j : ℕ) (s : Store R A E) (c : Call R A E)
      → owner (Dict.get k (perform s c).entries) ≡ some j
      → (owner (Dict.get k s.entries) ≡ some j)
        ⊎ ((j ≡ length s.promises) × (length (perform s c).promises ≡ suc (length s.promises)))
  unfolding perform begin complete complete_audit fail_audit abort
  perform-owner k j s (begin_call key hash) h = elim (Option-cases (Dict.get key s.entries)) [
    | inl q ↦ elim (Bool-cases (key == k)) [
      | inl same ↦ inr (grind (arith, eq_iff, get-put, length_snoc))
      | inr other ↦ inl (grind (arith, eq_iff, get-put))
    ]
    | inr found ↦ inl (ground (arith, found.1))
  ]
  perform-owner k j s (complete_call key hash r a) h = inl (grind (arith, eq_iff, get-put))
  perform-owner k j s (complete_audit_call key hash) h = inl (grind (arith, eq_iff, get-put))
  perform-owner k j s (fail_audit_call key hash e) h = inl (grind (arith, eq_iff, get-put))
  perform-owner k j s (abort_call key hash e) h = inl (grind (arith, eq_iff, get-remove))

  length-perform :
      (s : Store R A E) (c : Call R A E) → length s.promises ≤ length (perform s c).promises
  unfolding perform begin complete complete_audit fail_audit abort
  length-perform s (begin_call key hash) = grind (arith, length_snoc)
  length-perform s (complete_call key hash r a) = grind (arith, length-settle)
  length-perform s (complete_audit_call key hash) = grind (arith, length-settle)
  length-perform s (fail_audit_call key hash e) = grind (arith, length-settle)
  length-perform s (abort_call key hash e) = grind (arith, length-settle)

  -- No entry has a cell that is not there yet.
  abbrev IsAllocated : Store R A E → Type 0
  IsAllocated s =
      (k : String) (j : ℕ) → owner (Dict.get k s.entries) ≡ some j → j < length s.promises

  perform-IsAllocated :
      (s : Store R A E) (c : Call R A E) → IsAllocated s → IsAllocated (perform s c)
  perform-IsAllocated s c w k j h = elim (perform-owner k j s c h) [
    | inl old ↦ omega (arith, w k j old, length-perform s c)
    | inr new ↦ omega (arith, new)
  ]

  perform_all-IsAllocated :
      (s : Store R A E) (cs : List (Call R A E)) → IsAllocated s → IsAllocated (perform_all s cs)
  unfolding perform_all
  perform_all-IsAllocated s [] w = w
  perform_all-IsAllocated s (c ∷ cs) w =
      perform_all-IsAllocated (perform s c) cs (perform-IsAllocated s c w)

  module _ (key hash : String) (i : ℕ) where
    -- No other key settles the promise `i`.
    record Alone (s : Store R A E) : Type 0 where
      allocated : i < length s.promises
      others : (k : String) → k ≢ key → owner (Dict.get k s.entries) ≢ some i

    perform-Alone : (s : Store R A E) (c : Call R A E) → Alone s → Alone (perform s c)
    perform-Alone s c a = record {
      allocated = omega (arith, a.allocated, length-perform s c);
      others = λ k ne h. elim (perform-owner k i s c h) [
        | inl old ↦ a.others k ne old
        | inr new ↦ absurd (omega (arith, a.allocated, new.0))
      ];
    }

    -- The state of the store that stands for a life.
    abbrev Tracks : Store R A E → Life R A E → Type 0
    Tracks s running =
        (Dict.get key s.entries ≡ some (pending hash i)) × (get_elem? s.promises i ≡ some unsettled)
    Tracks s (auditing r a) =
        (Dict.get key s.entries ≡ some (cached hash r (some a) (some i)))
        × (get_elem? s.promises i ≡ some unsettled)
    Tracks s (done r) =
        IsCached hash r (Dict.get key s.entries) × (get_elem? s.promises i ≡ some (resolved r))
    Tracks s (unaudited r a e) =
        (Dict.get key s.entries ≡ some (cached hash r (some a) none))
        × (get_elem? s.promises i ≡ some (rejected e))
    Tracks s (audited_late r e) =
        (Dict.get key s.entries ≡ some (cached hash r none none))
        × (get_elem? s.promises i ≡ some (rejected e))
    Tracks s (aborted e) = get_elem? s.promises i ≡ some (rejected e)

    perform-Tracks :
        (s : Store R A E) (life : Life R A E) (c : Call R A E)
        → Alone s
        → Tracks s life
        → Tracks (perform s c) (life_step key hash life c)
    unfolding perform begin complete complete_audit fail_audit abort
    perform-Tracks s running (begin_call k h) a t = grind (arith, eq_iff, get-put, get_elem?-append)
    perform-Tracks s running (complete_call k h r none) a t =
        let other = a.others k in grind (arith, eq_iff, get-put, settle_unsettled, settle_other)
    perform-Tracks s running (complete_call k h r (some x)) a t =
        let other = a.others k in grind (arith, eq_iff, get-put)
    perform-Tracks s running (complete_audit_call k h) a t =
        let other = a.others k in grind (arith, eq_iff, get-put, settle_other)
    perform-Tracks s running (fail_audit_call k h e) a t =
        let other = a.others k in grind (arith, eq_iff, get-put, settle_other)
    perform-Tracks s running (abort_call k h e) a t =
        let other = a.others k in grind (arith, eq_iff, get-remove, settle_unsettled, settle_other)
    perform-Tracks s (auditing r y) (begin_call k h) a t =
        grind (arith, eq_iff, get-put, get_elem?-append)
    perform-Tracks s (auditing r y) (complete_call k h v x) a t =
        let other = a.others k in grind (arith, eq_iff, get-put, settle_unsettled, settle_other)
    perform-Tracks s (auditing r y) (complete_audit_call k h) a t =
        let other = a.others k in grind (arith, eq_iff, get-put, settle_unsettled, settle_other)
    perform-Tracks s (auditing r y) (fail_audit_call k h f) a t =
        let other = a.others k in grind (arith, eq_iff, get-put, settle_unsettled, settle_other)
    perform-Tracks s (auditing r y) (abort_call k h f) a t =
        let other = a.others k in grind (arith, eq_iff, get-remove, settle_unsettled, settle_other)
    perform-Tracks s (done r) (begin_call k h) a t =
        grind (arith, eq_iff, get-put, get_elem?-append)
    perform-Tracks s (done r) (complete_call k h v x) a t =
        grind (arith, eq_iff, get-put, settle_resolved)
    perform-Tracks s (done r) (complete_audit_call k h) a t =
        grind (arith, eq_iff, get-put, settle_resolved)
    perform-Tracks s (done r) (fail_audit_call k h f) a t =
        grind (arith, eq_iff, get-put, settle_resolved)
    perform-Tracks s (done r) (abort_call k h f) a t =
        grind (arith, eq_iff, get-remove, settle_resolved)
    perform-Tracks s (unaudited r y e) (begin_call k h) a t =
        grind (arith, eq_iff, get-put, get_elem?-append)
    perform-Tracks s (unaudited r y e) (complete_call k h v x) a t =
        grind (arith, eq_iff, get-put, settle_rejected)
    perform-Tracks s (unaudited r y e) (complete_audit_call k h) a t =
        grind (arith, eq_iff, get-put, settle_rejected)
    perform-Tracks s (unaudited r y e) (fail_audit_call k h f) a t =
        grind (arith, eq_iff, get-put, settle_rejected)
    perform-Tracks s (unaudited r y e) (abort_call k h f) a t =
        grind (arith, eq_iff, get-remove, settle_rejected)
    perform-Tracks s (audited_late r e) (begin_call k h) a t =
        grind (arith, eq_iff, get-put, get_elem?-append)
    perform-Tracks s (audited_late r e) (complete_call k h v x) a t =
        grind (arith, eq_iff, get-put, settle_rejected)
    perform-Tracks s (audited_late r e) (complete_audit_call k h) a t =
        grind (arith, eq_iff, get-put, settle_rejected)
    perform-Tracks s (audited_late r e) (fail_audit_call k h f) a t =
        grind (arith, eq_iff, get-put, settle_rejected)
    perform-Tracks s (audited_late r e) (abort_call k h f) a t =
        grind (arith, eq_iff, get-remove, settle_rejected)
    perform-Tracks s (aborted e) (begin_call k h) a t =
        grind (arith, eq_iff, get-put, get_elem?-append)
    perform-Tracks s (aborted e) (complete_call k h v x) a t =
        grind (arith, eq_iff, get-put, settle_rejected)
    perform-Tracks s (aborted e) (complete_audit_call k h) a t =
        grind (arith, eq_iff, get-put, settle_rejected)
    perform-Tracks s (aborted e) (fail_audit_call k h f) a t =
        grind (arith, eq_iff, get-put, settle_rejected)
    perform-Tracks s (aborted e) (abort_call k h f) a t =
        grind (arith, eq_iff, get-remove, settle_rejected)

    perform_all-Tracks :
        (s : Store R A E) (life : Life R A E) (cs : List (Call R A E))
        → Alone s
        → Tracks s life
        → Tracks (perform_all s cs) (life_all key hash life cs)
    unfolding perform_all life_all
    perform_all-Tracks s life [] a t = t
    perform_all-Tracks s life (c ∷ cs) a t =
        perform_all-Tracks (perform s c) (life_step key hash life c) cs (perform-Alone s c a)
          (perform-Tracks s life c a t)

    tracked_promise :
        (s : Store R A E) (life : Life R A E)
        → Tracks s life
        → get_elem? s.promises i ≡ some (outcome life)
    tracked_promise s running t = t.1
    tracked_promise s (auditing r a) t = t.1
    tracked_promise s (done r) t = t.1
    tracked_promise s (unaudited r a e) t = t.1
    tracked_promise s (audited_late r e) t = t.1
    tracked_promise s (aborted e) t = t

    begin-Replies :
        (s : Store R A E) (life : Life R A E) → Tracks s life → Replies i life (begin key hash s).0
    unfolding begin
    begin-Replies s running t = ground (arith, eq_refl hash)
    begin-Replies s (auditing r a) t = ground (arith, eq_refl hash)
    begin-Replies s (done r) t = ground (arith, eq_iff hash hash, eq_refl hash)
    begin-Replies s (unaudited r a e) t = ground (arith, eq_refl hash)
    begin-Replies s (audited_late r e) t = ground (arith, eq_refl hash)
    begin-Replies s (aborted e) t = tt

  begin-Tracks :
      (key hash : String) (s : Store R A E)
      → (begin key hash s).0 ≡ reserved
      → Tracks key hash (length s.promises) (begin key hash s).1 running
  unfolding begin
  begin-Tracks key hash s r = grind (arith, eq_refl, get-put, get_elem?_last)

  begin-Alone :
      (key hash : String) (s : Store R A E)
      → IsAllocated s
      → (begin key hash s).0 ≡ reserved
      → Alone key hash (length s.promises) (begin key hash s).1
  unfolding begin
  begin-Alone key hash s w r = record {
    allocated = grind (arith, length_snoc);
    others = λ k ne h. let low = w k (length s.promises) in absurd (grind (arith, eq_iff, get-put));
  }

  IsAllocated-empty :
      (s : Store R A E) (before : List (Call R A E))
      → s.entries ≡ []
      → IsAllocated (perform_all s before)
  IsAllocated-empty s before q =
      perform_all-IsAllocated s before
        (λ k j h. absurd (ground (arith, get-empty {V = Entry R A} k)))

  -- The store refines the life of a reservation. A key is reserved after any calls of a store that was
  -- empty, and any calls follow, of any holders: then those who wait on the reservation's promise are
  -- told what its life says, and a later request with the same payload is given what its life says.
  pub reservation_refines :
      (key hash : String) (before after : List (Call R A E))
      → (begin key hash (perform_all empty before)).0 ≡ reserved
      → (get_elem?
            (perform_all (begin key hash (perform_all empty before)).1 after).promises
            (length (perform_all empty before).promises)
          ≡ some (outcome (life_all key hash running after)))
        × Replies
            (length (perform_all empty before).promises)
            (life_all key hash running after)
            (begin key hash (perform_all (begin key hash (perform_all empty before)).1 after)).0
  reservation_refines key hash before after r =
      let s = perform_all empty before in
      let i = length s.promises in
      let t = (begin key hash s).1 in
      let w = IsAllocated-empty empty before refl in
      let tracks =
        perform_all-Tracks key hash i t running after (begin-Alone key hash s w r)
          (begin-Tracks key hash s r) in
      (
        tracked_promise key hash i (perform_all t after) (life_all key hash running after) tracks,
        begin-Replies key hash i (perform_all t after) (life_all key hash running after) tracks,
      )
