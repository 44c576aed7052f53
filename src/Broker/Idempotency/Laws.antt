-- ===== src/Broker/Idempotency/Laws.antt =====
-- What the in-memory idempotency store keeps, whatever sequence of its operations is run.
use agent_trading_guardrails.Base.{
  String, eq_iff, eq_refl, ◌≡◌, ◌≢◌, Option, none, some, List, [], ◌∷◌, length, All, arith,
}
use agent_trading_guardrails.Base.Dict
use agent_trading_guardrails.Base.Dict.{get-put, get-remove}
use agent_trading_guardrails.Broker.Idempotency.{
  Entry, cached, pending, Store, reserved, begin, complete, complete_audit, fail_audit, abort,
}

-- One call of the store, by any holder of any key.
pub data Call (R A E : Type 0) : Type 0 where
  begin_call : (key hash : String) → Call R A E
  complete_call : (key hash : String) → R → Option A → Call R A E
  complete_audit_call : (key hash : String) → Call R A E
  fail_audit_call : (key hash : String) → E → Call R A E
  abort_call : (key hash : String) → E → Call R A E

module _ {R A : Type 0} where
  -- The key holds this result, under this hash.
  abbrev pub HasResult : String → R → Option (Entry R A) → Type 0
  HasResult hash result (some (cached h v audit kept)) = (h ≡ hash) × (v ≡ result)
  HasResult hash result _ = ⊥

module _ {R A E : Type 0} where
  unfoldable pub perform : Store R A E → Call R A E → Store R A E
  perform s (begin_call key hash) = (begin key hash s).1
  perform s (complete_call key hash result audit) = complete key hash result audit s
  perform s (complete_audit_call key hash) = complete_audit key hash s
  perform s (fail_audit_call key hash error) = fail_audit key hash error s
  perform s (abort_call key hash error) = abort key hash error s

  unfoldable pub perform_all : Store R A E → List (Call R A E) → Store R A E
  perform_all s [] = s
  perform_all s (c ∷ cs) = perform_all (perform s c) cs

  abbrev pub Records : String → String → R → Store R A E → Type 0
  Records key hash result s = HasResult hash result (Dict.get key s.entries)

  perform_keeps :
      (key hash : String) (result : R) (s : Store R A E) (c : Call R A E)
      → Records key hash result s
      → Records key hash result (perform s c)
  unfolding perform begin complete complete_audit fail_audit abort
  perform_keeps key hash result s (begin_call k h) r =
      ground (arith, eq_iff k key, get-put k key (pending h (length s.promises)) s.entries)
  perform_keeps key hash result s (complete_call k h v audit) r = grind (arith, eq_iff, get-put)
  perform_keeps key hash result s (complete_audit_call k h) r = grind (arith, eq_iff, get-put)
  perform_keeps key hash result s (fail_audit_call k h e) r = grind (arith, eq_iff, get-put)
  perform_keeps key hash result s (abort_call k h e) r =
      ground (arith, eq_iff k key, get-remove k key s.entries)

  -- A result that is recorded under a key stays recorded under that key and hash, whatever calls of
  -- the store follow, by whichever holders of whichever keys.
  pub result_permanent :
      (key hash : String) (result : R) (s : Store R A E) (calls : List (Call R A E))
      → Records key hash result s
      → Records key hash result (perform_all s calls)
  unfolding perform_all
  result_permanent key hash result s [] r = r
  result_permanent key hash result s (c ∷ cs) r =
      result_permanent key hash result (perform s c) cs (perform_keeps key hash result s c r)

  -- The calls that are not an abort of this key.
  abbrev pub AbortsNot : String → Call R A E → Type 0
  AbortsNot key (abort_call k h e) = k ≢ key
  AbortsNot key _ = Unit

  pub held_keeps :
      (key : String) (s : Store R A E) (c : Call R A E)
      → AbortsNot key c
      → Dict.get key s.entries ≢ none
      → Dict.get key (perform s c).entries ≢ none
  unfolding perform begin complete complete_audit fail_audit abort
  held_keeps key s (begin_call k h) a held =
      ground (arith, eq_iff k key, get-put k key (pending h (length s.promises)) s.entries)
  held_keeps key s (complete_call k h v audit) a held = grind (arith, eq_iff, get-put)
  held_keeps key s (complete_audit_call k h) a held = grind (arith, eq_iff, get-put)
  held_keeps key s (fail_audit_call k h e) a held = grind (arith, eq_iff, get-put)
  held_keeps key s (abort_call k h e) a held =
      ground (arith, eq_iff k key, get-remove k key s.entries)

  held_keeps_All :
      (key : String) (s : Store R A E) (calls : List (Call R A E))
      → All (AbortsNot key) calls
      → Dict.get key s.entries ≢ none
      → Dict.get key (perform_all s calls).entries ≢ none
  unfolding perform_all
  held_keeps_All key s [] a held = held
  held_keeps_All key s (c ∷ cs) a held =
      held_keeps_All key (perform s c) cs a.1 (held_keeps key s c a.0 held)

  held-not_reserved :
      (key hash : String) (s : Store R A E)
      → Dict.get key s.entries ≢ none
      → (begin key hash s).0 ≢ reserved
  unfolding begin
  held-not_reserved key hash s held = ground arith

  pub begin-holds :
      (key hash : String) (s : Store R A E) → Dict.get key (begin key hash s).1.entries ≢ none
  unfolding begin
  begin-holds key hash s =
      ground (arith, eq_refl key, get-put key key (pending hash (length s.promises)) s.entries)

  -- Once a key was begun, no later `begin` of it is given a reservation, with whatever hash, unless
  -- the reservation was aborted: of concurrent and repeated requests one at most executes.
  pub reserved_once :
      (key hash hash' : String) (s : Store R A E) (calls : List (Call R A E))
      → All (AbortsNot key) calls
      → (begin key hash' (perform_all (begin key hash s).1 calls)).0 ≢ reserved
  reserved_once key hash hash' s calls a =
      held-not_reserved key hash' (perform_all (begin key hash s).1 calls)
        (held_keeps_All key (begin key hash s).1 calls a (begin-holds key hash s))

  pub begin-absent :
      (key hash : String) (s : Store R A E)
      → (begin key hash s).0 ≡ reserved
      → Dict.get key s.entries ≡ none
  unfolding begin
  begin-absent key hash s r = ground arith
